-- ===== src/LogBuffer/Rebuilder/Insert.antt =====
-- An insertion copies the packet into an empty slot, once.
use caeron.Base.{
  ℕ, ◌+◌, ◌-◌, ◌%◌, ◌≤◌, ◌<◌, ◌≡◌, ◌≢◌, ◌⊎◌, refl, inl, inr, ◌&&◌, ltb, leb, Bool-cases,
  if◌then◌else◌, ok, arith, ◌>>=◌, ◌∙◌, ap, sym,
}
use native.Mathlib.Nat.{add-zero}
use native.Mathlib.Decide.{ℕ_discrete}
use caeron.Word.{lt32, add32, sub32}
use caeron.Word.Bounds.{sub32_lem}
use caeron.Buffer.{Buffer, put_bytes}
use caeron.Buffer.Bytes.{
  Memory, SameOutside, Apart, load_local, load, store, copy, store_outside, store-load_byte,
}
use caeron.Buffer.Laws.{
  Fits, get_i32_lem, get_i64_lem, put_i32_lem, put_i64_lem, put_bytes_lem, get_i32_volatile_lem,
  put_i32_ordered_lem,
}
use caeron.LogBuffer.Frame.Term.{moved, IsSlot, length_at}
use caeron.LogBuffer.Rebuilder.{insert}

-- The bytes of the term after the payload, and then the header from its end to its start.
abbrev payload_bytes : Memory → ℕ → Memory → ℕ → Memory
payload_bytes m o p n = if ltb 32 n then copy m (o + 32) p 32 (n - 32) else m

abbrev field_bytes : ℕ → ℕ → Memory → ℕ → Memory → Memory
field_bytes w k m o p = store w m (o + k) (load w p k)

abbrev inserted_bytes : Memory → ℕ → Memory → ℕ → Memory
inserted_bytes m o p n =
    field_bytes 4 0
      (field_bytes 4 4
        (field_bytes 8 8 (field_bytes 8 16 (field_bytes 8 24 (payload_bytes m o p n) o p) o p) o p)
        o p)
      o p

-- One byte after one of the header's writes.
field_byte :
    (w k : ℕ) (m : Memory) (o : ℕ) (p : Memory) (j : ℕ)
    → field_bytes w k m o p (o + j) % 256
      ≡ (if leb k j && ltb j (k + w) then p j % 256 else m (o + j) % 256)
field_byte w k m o p j = elim (Bool-cases (leb k j && ltb j (k + w))) [
  | inl inside ↦
      let e : o + j ≡ o + k + (j - k) = ground arith in
      let e' : k + (j - k) ≡ j = ground arith in
      rw (inside, e)
        (store-load_byte w m p (o + k) k (j - k) (ground arith) ∙ ap (λ (x : ℕ). p x % 256) e')
  | inr outside ↦ rw (outside, store_outside w m (o + k) (load w p k) (o + j) (ground arith))
]

-- The first `n` bytes from `o` on are the packet's.
inserted_byte :
    (m : Memory) (o : ℕ) (p : Memory) (n j : ℕ)
    → 32 ≤ n
    → j < n
    → inserted_bytes m o p n (o + j) % 256 ≡ p j % 256
inserted_byte m o p n j h lt =
    let m0 = payload_bytes m o p n in
    let m1 = field_bytes 8 24 m0 o p in
    let m2 = field_bytes 8 16 m1 o p in
    let m3 = field_bytes 8 8 m2 o p in
    let m4 = field_bytes 4 4 m3 o p in
    let payload : 32 ≤ j → m0 (o + j) % 256 ≡ p j % 256 =
      λ behind. let e : 32 + (o + j - (o + 32)) ≡ j = omega arith in ground (arith, ap p e) in
    ground (
      arith,
      field_byte 4 0 m4 o p j,
      field_byte 4 4 m3 o p j,
      field_byte 8 8 m2 o p j,
      field_byte 8 16 m1 o p j,
      field_byte 8 24 m0 o p j,
      payload,
    )

inserted_bytes-SameOutside :
    (m : Memory) (o : ℕ) (p : Memory) (n : ℕ) → 32 ≤ n → SameOutside o n m (inserted_bytes m o p n)
inserted_bytes-SameOutside m o p n h j =
    let m0 = payload_bytes m o p n in
    let m1 = field_bytes 8 24 m0 o p in
    let m2 = field_bytes 8 16 m1 o p in
    let m3 = field_bytes 8 8 m2 o p in
    let m4 = field_bytes 4 4 m3 o p in
    elim (Bool-cases (leb o j && ltb j (o + n))) [
      | inl inside ↦ rw inside
      | inr outside ↦
          rw
            (
              outside,
              store_outside 4 m4 (o + 0) (load 4 p 0) j (ground arith),
              store_outside 4 m3 (o + 4) (load 4 p 4) j (ground arith),
              store_outside 8 m2 (o + 8) (load 8 p 8) j (ground arith),
              store_outside 8 m1 (o + 16) (load 8 p 16) j (ground arith),
              store_outside 8 m0 (o + 24) (load 8 p 24) j (ground arith),
            )
            (ground arith)
    ]

module _ (b : Buffer) (o : ℕ) (packet : Buffer) (n : ℕ) (slot : IsSlot b o) (whole : 32 ≤ n)
    (room : o + n ≤ b.capacity) (source : Fits packet 0 n) where
  place : (k : ℕ) → k ≤ 32 → add32 o k ≡ o + k
  place k h = omega (arith, room, slot.term.small)

  room_at : (m : Memory) (k w : ℕ) → k + w ≤ 32 → Fits (record b { bytes = m }) (o + k) w
  room_at m k w h = record { small = slot.term.small; within = omega (arith, room) }

  header_at : (k w : ℕ) → k + w ≤ 32 → Fits packet k w
  header_at k w h = record { small = source.small; within = omega (arith, source.within) }

  start-Fits : (m : Memory) → Fits (record b { bytes = m }) o 4
  start-Fits m = record { small = slot.term.small; within = omega (arith, room) }

  start-aligned : (b.address + o) % 4 ≡ 0
  start-aligned = omega (arith, slot.term.placed, slot.on_slot)

  payload_step :
      (if lt32 0 (sub32 n 32) then put_bytes b (add32 o 32) packet.bytes 32 (sub32 n 32) else ok b)
      ≡ ok (record b { bytes = payload_bytes b.bytes o packet.bytes n })
  payload_step =
      rw
        (
          place 32 (omega arith),
          sub32_lem n 32 whole (omega (arith, room, slot.term.small)),
          put_bytes_lem b (o + 32) packet.bytes 32 (n - 32)
              (record { small = slot.term.small; within = omega (arith, room) }),
        )
        (ground (arith, room, slot.term.small))

  insert-empty :
      length_at b o ≡ 0
      → insert b o packet n ≡ ok (record b { bytes = inserted_bytes b.bytes o packet.bytes n })
  unfolding insert
  insert-empty vacant =
      let p = packet.bytes in
      let m0 = payload_bytes b.bytes o p n in
      let m1 = field_bytes 8 24 m0 o p in
      let m2 = field_bytes 8 16 m1 o p in
      let m3 = field_bytes 8 8 m2 o p in
      let m4 = field_bytes 4 4 m3 o p in
      rw (
        get_i32_volatile_lem b o (start-Fits b.bytes) start-aligned,
        vacant,
        payload_step,
        get_i64_lem packet 24 (header_at 24 8 (omega arith)),
        get_i64_lem packet 16 (header_at 16 8 (omega arith)),
        get_i64_lem packet 8 (header_at 8 8 (omega arith)),
        get_i32_lem packet 4 (header_at 4 4 (omega arith)),
        get_i32_lem packet 0 (header_at 0 4 (omega arith)),
        place 24 (omega arith),
        place 16 (omega arith),
        place 8 (omega arith),
        place 4 (omega arith),
        put_i64_lem (record b { bytes = m0 }) (o + 24) (load 8 p 24)
            (room_at m0 24 8 (omega arith)),
        put_i64_lem (record b { bytes = m1 }) (o + 16) (load 8 p 16)
            (room_at m1 16 8 (omega arith)),
        put_i64_lem (record b { bytes = m2 }) (o + 8) (load 8 p 8) (room_at m2 8 8 (omega arith)),
        put_i32_lem (record b { bytes = m3 }) (o + 4) (load 4 p 4) (room_at m3 4 4 (omega arith)),
        put_i32_ordered_lem (record b { bytes = m4 }) o (load 4 p 0) (start-Fits m4) start-aligned,
        add-zero o,
      )

  insert-present : length_at b o ≢ 0 → insert b o packet n ≡ ok b
  unfolding insert
  insert-present there =
      rw (get_i32_volatile_lem b o (start-Fits b.bytes) start-aligned) (ground arith)

  inserted_length : load 4 (inserted_bytes b.bytes o packet.bytes n) o ≡ load 4 packet.bytes 0
  inserted_length = load_local 4 (inserted_bytes b.bytes o packet.bytes n) packet.bytes o 0 (λ k lt.
      let e : 0 + k ≡ k = omega arith in
      rw e (inserted_byte b.bytes o packet.bytes n k whole (omega arith)))

  -- A packet of `n` bytes, at least a header, inserted into an empty slot of the term where it
  -- fits: insert succeeds, each of the n bytes from the slot on is the packet's, and no byte
  -- outside them changes.
  pub insert_lem :
      (k : ℕ)
      → k < n
      → length_at b o ≡ 0
      → (b' : Buffer) × (insert b o packet n ≡ ok b')
        × (b'.bytes (o + k) % 256 ≡ packet.bytes k % 256)
        × SameOutside o n b.bytes b'.bytes
  insert_lem k lt vacant = (
    record b { bytes = inserted_bytes b.bytes o packet.bytes n },
    insert-empty vacant,
    inserted_byte b.bytes o packet.bytes n k whole lt,
    inserted_bytes-SameOutside b.bytes o packet.bytes n whole,
  )

-- A load outside the inserted bytes.
load-inserted :
    (m : Memory) (o : ℕ) (p : Memory) (n w q : ℕ)
    → 32 ≤ n
    → Apart q w o n
    → load w (inserted_bytes m o p n) q ≡ load w m q
load-inserted m o p n w q h apart =
    load_local w (inserted_bytes m o p n) m q q (λ k lt.
      ap (λ (x : ℕ). x % 256) (ground (arith, inserted_bytes-SameOutside m o p n h (q + k))))

-- The byte at any place after an insertion.
inserted_at :
    (m : Memory) (o : ℕ) (p : Memory) (n j : ℕ)
    → 32 ≤ n
    → inserted_bytes m o p n j % 256
      ≡ (if leb o j && ltb j (o + n) then p (j - o) % 256 else m j % 256)
inserted_at m o p n j h = elim (Bool-cases (leb o j && ltb j (o + n))) [
  | inl inside ↦
      let e : o + (j - o) ≡ j = ground arith in
      rw inside (
        ap (λ (x : ℕ). inserted_bytes m o p n x % 256) (sym e)
        ∙ inserted_byte m o p n (j - o) h (ground arith))
  | inr outside ↦
      rw outside (ap (λ (x : ℕ). x % 256) (ground (arith, inserted_bytes-SameOutside m o p n h j)))
]

-- The first packet of a slot wins. A packet whose length field is not zero, inserted into the slot,
-- leaves the term as it was if the slot was not empty; in any case, a later packet for the same
-- slot, with any bytes and any length that fits, changes nothing.
pub insert_twice :
    (b : Buffer) (o : ℕ) (packet1 packet2 : Buffer) (n1 n2 : ℕ)
    → IsSlot b o
    → 32 ≤ n1
    → 32 ≤ n2
    → o + n1 ≤ b.capacity
    → o + n2 ≤ b.capacity
    → Fits packet1 0 n1
    → Fits packet2 0 n2
    → load 4 packet1.bytes 0 ≢ 0
    → (b' : Buffer) × (insert b o packet1 n1 ≡ ok b')
      × ((length_at b o ≡ 0) ⊎ (b' ≡ b))
      × (insert b' o packet2 n2 ≡ ok b')
insert_twice b o p1 p2 n1 n2 s h1 h2 r1 r2 f1 f2 nonzero = elim (ℕ_discrete (length_at b o) 0) [
  | yes vacant ↦
      let m = inserted_bytes b.bytes o p1.bytes n1 in
      (
        record b { bytes = m },
        insert-empty b o p1 n1 s h1 r1 f1 vacant,
        inl vacant,
        insert-present (record b { bytes = m }) o p2 n2 (moved b m o s) h2 r2 f2
            (rw (inserted_length b o p1 n1 s h1 r1 f1) nonzero),
      )
  | no there ↦ (
    b,
    insert-present b o p1 n1 s h1 r1 f1 there,
    inr refl,
    insert-present b o p2 n2 s h2 r2 f2 there,
  )
]

-- Two packets for two empty slots whose bytes do not meet may arrive in either order: both orders
-- succeed, and leave the same bytes in the whole term.
pub insert_comm :
    (b : Buffer) (o1 o2 : ℕ) (packet1 packet2 : Buffer) (n1 n2 j : ℕ)
    → IsSlot b o1
    → IsSlot b o2
    → 32 ≤ n1
    → 32 ≤ n2
    → o1 + n1 ≤ b.capacity
    → o2 + n2 ≤ b.capacity
    → Fits packet1 0 n1
    → Fits packet2 0 n2
    → length_at b o1 ≡ 0
    → length_at b o2 ≡ 0
    → Apart o1 n1 o2 n2
    → (b12 b21 : Buffer) × ((insert b o1 packet1 n1 >>= λ b1. insert b1 o2 packet2 n2) ≡ ok b12)
      × ((insert b o2 packet2 n2 >>= λ b2. insert b2 o1 packet1 n1) ≡ ok b21)
      × (b12.bytes j % 256 ≡ b21.bytes j % 256)
insert_comm b o1 o2 p1 p2 n1 n2 j s1 s2 h1 h2 r1 r2 f1 f2 v1 v2 apart = (
  record b { bytes = m12 },
  record b { bytes = m21 },
  rw (insert-empty b o1 p1 n1 s1 h1 r1 f1 v1) (
      insert-empty (record b { bytes = m1 }) o2 p2 n2 (moved b m1 o2 s2) h2 r2 f2
        (load-inserted b.bytes o1 p1.bytes n1 4 o2 h1 (omega arith) ∙ v2)),
  rw (insert-empty b o2 p2 n2 s2 h2 r2 f2 v2) (
      insert-empty (record b { bytes = m2 }) o1 p1 n1 (moved b m2 o1 s1) h1 r1 f1
        (load-inserted b.bytes o2 p2.bytes n2 4 o1 h2 (omega arith) ∙ v1)),
  ground (
    arith,
    inserted_at m1 o2 p2.bytes n2 j h2,
    inserted_at m2 o1 p1.bytes n1 j h1,
    inserted_at b.bytes o1 p1.bytes n1 j h1,
    inserted_at b.bytes o2 p2.bytes n2 j h2,
  ),
)
  where
    m1 : Memory
    m1 = inserted_bytes b.bytes o1 p1.bytes n1

    m2 : Memory
    m2 = inserted_bytes b.bytes o2 p2.bytes n2

    m12 : Memory
    m12 = inserted_bytes m1 o2 p2.bytes n2

    m21 : Memory
    m21 = inserted_bytes m2 o1 p1.bytes n1
