-- ===== src/Protocol/Codec.antt =====
-- The accessors of the wire frames agree with one another.
use caeron.Base.{ℕ, ◌+◌, ◌^◌, ◌≤◌, ◌<◌, ◌≡◌, ◌⊎◌, ok, arith, ◌∙◌}
use caeron.Buffer.{Buffer}
use caeron.Buffer.Laws.{Fits}
use caeron.Flyweight.{get}
use caeron.Flyweight.Fields.{set-FieldSet}
use caeron.Protocol.{group_tag, set_group_tag, asf_length}
use caeron.Protocol.Streams.{status_message_layout, status_message_slot, StatusMessage}

-- After `set_group_tag` on a status message of 44 bytes, `group_tag` returns the tag,
-- `asf_length` is 8, and a byte outside those 44 does not change.
pub group_tag-set_group_tag :
    (b : Buffer) (base v j : ℕ)
    → Fits b base 44
    → v < 2 ^ 64
    → (j < base) ⊎ (base + 44 ≤ j)
    → (b' : Buffer) × (set_group_tag b base v ≡ ok b')
      × (group_tag b' base ≡ ok v)
      × (asf_length b' base ≡ ok 8)
      × (b'.bytes j ≡ b.bytes j)
unfolding group_tag set_group_tag asf_length status_message_slot
group_tag-set_group_tag b base v j fits small outside =
    let (b1, e1, s1) =
      set-FieldSet status_message_layout StatusMessage.frame_length b base 44 fits (omega arith) in
    let fits1 : Fits b1 base 44 = record {
      small = omega (arith, s1.capacity_kept, fits.small);
      within = omega (arith, s1.capacity_kept, fits.within);
    } in
    let (b2, e2, s2) =
      set-FieldSet status_message_layout StatusMessage.group_tag b1 base v fits1 (omega arith) in
    let length : get status_message_layout StatusMessage.frame_length b2 base ≡ ok 44 =
      s2.others_kept StatusMessage.frame_length (cc) ∙ s1.reads_back in
    (
      b2,
      rw e1 e2,
      rw length s2.reads_back,
      rw length,
      s2.outside_kept j outside ∙ s1.outside_kept j outside,
    )
