-- ===== src/Command/Codec.antt =====
-- What is put into a message of the command protocol can be read back.
use caeron.Base.{ℕ, ◌+◌, ◌-◌, ◌^◌, ◌≤◌, ◌<◌, ◌≡◌, ◌≢◌, ◌⊎◌, false, Option, some, ok, arith, ap}
use caeron.Word.{add32, is_neg32}
use caeron.Buffer.{Buffer}
use caeron.Buffer.Bytes.{
  Memory, store, copy, load-store_self, load-store_elsewhere, load-copy_elsewhere,
}
use caeron.Buffer.Laws.{Fits, put_some_bytes_lem}
use caeron.Concurrent.Records.Layout.{bytes_of, bytes_of-eq}
use caeron.Flyweight.{get, set}
use caeron.Flyweight.Fields.{FieldSet, set-FieldSet, get_lem, set_lem}
use caeron.Command.{FixedMessage, fixed_layout, TextMessage, text}
use caeron.Command.Channels.{
  publication_message_text, publication_message_layout, subscription_message_text,
  subscription_message_layout, destination_message_text, destination_message_layout,
}
use caeron.Command.Notices.{
  terminate_driver_text, terminate_driver_layout, reject_image_text, reject_image_layout,
  error_response_text, error_response_layout, publication_buffers_ready_text,
  publication_buffers_ready_layout,
}
use caeron.Command.Trailing.{Text, no_room, set_text, compute_length, message_length}

-- A setter of a message of a fixed length that lies in the buffer.
fixed_set-FieldSet :
    (k : FixedMessage) (f : (fixed_layout k).Field) (b : Buffer) (base v : ℕ)
    → Fits b base (fixed_layout k).length
    → v < 256 ^ ((fixed_layout k).slot f).width
    → (b' : Buffer) × (set (fixed_layout k) f b base v ≡ ok b')
      × FieldSet (fixed_layout k) f b base v b'
fixed_set-FieldSet k f b base v fits small = set-FieldSet (fixed_layout k) f b base v fits small

module _ (t : Text) (b : Buffer) (base length : ℕ) (source : Memory) where
  open t use {layout, length_field}

  abbrev pub place : ℕ
  place = base + (layout.slot length_field).offset

  abbrev pub placed : Memory
  placed = store (layout.slot length_field).width b.bytes place length

  abbrev pub written : Buffer
  written = record b { bytes = copy placed (base + layout.length) source 0 length }

  room : Fits b base (layout.length + length) → no_room t b base length ≡ false
  unfolding no_room
  room fits = ground (arith, fits.small, fits.within)

  pub set_text-written :
      Fits b base (layout.length + length) → set_text t b base (some source) length ≡ ok written
  unfolding set_text
  set_text-written fits =
      let header : Fits b base layout.length = record {
        small = fits.small;
        within = omega (arith, fits.within);
      } in
      let body : Fits b (base + layout.length) length = record {
        small = fits.small;
        within = omega (arith, fits.within);
      } in
      let e : add32 base layout.length ≡ base + layout.length =
        omega (arith, fits.small, fits.within) in
      let nonneg : is_neg32 length ≡ false = ground (arith, fits.small, fits.within) in
      rw (
        nonneg,
        room fits,
        set_lem layout b base header length_field length,
        e,
        put_some_bytes_lem (record b { bytes = placed }) (base + layout.length) (some source) length
            (record { small = fits.small; within = omega (arith, fits.within) }),
      )

  pub written-length :
      Fits b base (layout.length + length) → get layout length_field written base ≡ ok length
  written-length fits = rw (
    get_lem layout written base (record { small = fits.small; within = omega (arith, fits.within) })
        length_field,
    load-copy_elsewhere (layout.slot length_field).width placed source (base + layout.length) 0
        length place (omega (arith, layout.inside length_field)),
    load-store_self (layout.slot length_field).width b.bytes place length
        (rw t.is_i32 (omega (arith, fits.small, fits.within))),
  )

  pub written-other :
      (g : layout.Field)
      → length_field ≢ g
      → Fits b base (layout.length + length)
      → get layout g written base ≡ get layout g b base
  written-other g ne fits =
      let header : Fits b base layout.length = record {
        small = fits.small;
        within = omega (arith, fits.within);
      } in
      rw (
        get_lem layout written base (record { small = header.small; within = header.within }) g,
        get_lem layout b base header g,
        load-copy_elsewhere (layout.slot g).width placed source (base + layout.length) 0 length
            (base + (layout.slot g).offset) (omega (arith, layout.inside g)),
        load-store_elsewhere (layout.slot g).width (layout.slot length_field).width b.bytes
            (base + (layout.slot g).offset) place length
            (omega (arith, layout.apart length_field g ne)),
      )

  pub written-text : (i : ℕ) → i < length → written.bytes (base + layout.length + i) ≡ source i
  written-text i h =
      let e : 0 + (base + layout.length + i - (base + layout.length)) ≡ i = omega arith in
      ground (arith, ap source e)

  written-bytes : bytes_of written.bytes (base + layout.length) length ≡ bytes_of source 0 length
  written-bytes =
      bytes_of-eq written.bytes source (base + layout.length) 0 length
        (λ i h. let e : 0 + i ≡ i = omega arith in rw e (written-text i h))

  pub written_length_is :
      Fits b base (layout.length + length) → compute_length t length ≡ layout.length + length
  unfolding compute_length
  written_length_is fits = ground (arith, fits.small, fits.within)

-- For every message that ends with a text, and a text that fits in the buffer behind the fixed
-- fields, the empty one included: set_text succeeds. The field for the length of the text then
-- returns this length, the message has the length of the fixed fields and the text, its bytes
-- there are those of the text, and a field `g` other than the length of the text returns what it
-- did before.
pub set_text_lem :
    (k : TextMessage) (g : (text k).layout.Field) (b : Buffer) (base length : ℕ) (source : Memory)
    → (text k).length_field ≢ g
    → Fits b base ((text k).layout.length + length)
    → (b' : Buffer) × (set_text (text k) b base (some source) length ≡ ok b')
      × (get (text k).layout (text k).length_field b' base ≡ ok length)
      × (message_length (text k) b' base ≡ ok ((text k).layout.length + length))
      × (bytes_of b'.bytes (base + (text k).layout.length) length ≡ bytes_of source 0 length)
      × (get (text k).layout g b' base ≡ get (text k).layout g b base)
unfolding message_length
set_text_lem k g b base length source ne fits = (
  written (text k) b base length source,
  set_text-written (text k) b base length source fits,
  written-length (text k) b base length source fits,
  rw (
    written-length (text k) b base length source fits,
    written_length_is (text k) b base length source fits,
  ),
  written-bytes (text k) b base length source,
  written-other (text k) b base length source g ne fits,
)

text-short : (k : TextMessage) → (text k).layout.length ≤ 36
unfolding text publication_message_text publication_message_layout subscription_message_text
    subscription_message_layout destination_message_text destination_message_layout
    terminate_driver_text terminate_driver_layout reject_image_text reject_image_layout
    error_response_text error_response_layout publication_buffers_ready_text
    publication_buffers_ready_layout
text-short TextMessage.publication_message = omega arith
text-short TextMessage.subscription_message = omega arith
text-short TextMessage.destination_message = omega arith
text-short TextMessage.terminate_driver = omega arith
text-short TextMessage.reject_image = omega arith
text-short TextMessage.error_response = omega arith
text-short TextMessage.publication_buffers_ready = omega arith

-- A text with a negative length, or one that ends behind the buffer, is not written: the message
-- stays as it was, and no error is reported.
pub set_text_refused :
    (k : TextMessage) (b : Buffer) (base length : ℕ) (source : Option Memory)
    → b.capacity < 2 ^ 31
    → base < 2 ^ 31
    → length < 2 ^ 32
    → (2 ^ 31 ≤ length) ⊎ (b.capacity < base + (text k).layout.length + length)
    → set_text (text k) b base source length ≡ ok b
unfolding set_text no_room
set_text_refused k b base length source small_b small_base small h = ground (arith, text-short k)
