-- ===== src/Protocol/Errors/Text.antt =====
-- The text of an error frame can be read back.
use caeron.Base.{ℕ, ◌+◌, ◌-◌, ◌≤◌, ◌≡◌, ◌≢◌, true, false, ok, arith, ap}
use native.Mathlib.Decide.{dec_lt}
use caeron.Word.{add32, low32, lt32, sign_extend}
use caeron.Buffer.{Buffer, get_bytes}
use caeron.Buffer.Bytes.{
  Memory, load, store, copy, load-copy_elsewhere, load-store_self, store_outside,
}
use caeron.Buffer.Laws.{Fits, put_bytes_lem, Fits-in_bounds}
use caeron.Concurrent.Records.Layout.{bytes_of, bytes_of-eq}
use caeron.Protocol.Control.{ErrorFrame, error_slot}
use caeron.Protocol.Errors.{get_error, error_message, set_error_message}
use caeron.Protocol.Errors.Fields.{
  width, place, get_error_lem, set_error_lem, load-store_other, slot-inside,
}

get_bytes_lem :
    (b : Buffer) (o : ℕ) (dst : Memory) (n : ℕ)
    → Fits b o n
    → get_bytes b o dst n ≡ ok (copy dst 0 b.bytes o n)
unfolding get_bytes
get_bytes_lem b o dst n f =
    let e : sign_extend n ≡ n = ground (arith, f.small, f.within) in rw (Fits-in_bounds b o n f, e)

module _ (b : Buffer) (base : ℕ) (message : Memory) (size : ℕ)
    (fits : Fits b base (40 + size)) where
  with_bytes : Memory → Buffer
  with_bytes m = record b { bytes = m }

  header : (m : Memory) → Fits (record b { bytes = m }) base 40
  header m = record { small = fits.small; within = omega (arith, fits.within) }

  body : (m : Memory) → Fits (record b { bytes = m }) (base + 40) size
  body m = record { small = fits.small; within = omega (arith, fits.within) }

  abbrev measured : Memory
  measured =
      store (width ErrorFrame.error_message_length) b.bytes
        (place base ErrorFrame.error_message_length) size

  abbrev texted : Memory
  texted = copy measured (base + 40) message 0 size

  abbrev with_text : Memory
  with_text =
      store (width ErrorFrame.frame_length) texted (place base ErrorFrame.frame_length) (40 + size)

  text_place : add32 base 40 ≡ base + 40
  text_place = omega (arith, fits.small, fits.within)

  set_error_message_lem :
      size ≤ 1023 → set_error_message b base message size ≡ ok (record b { bytes = with_text })
  unfolding set_error_message
  set_error_message_lem few =
      let e : low32 size ≡ size = omega arith in
      let e' : add32 40 size ≡ 40 + size = omega arith in
      let short : lt32 1023 size ≡ false = ground arith in
      rw (
        e,
        short,
        set_error_lem b base (header b.bytes) ErrorFrame.error_message_length size,
        text_place,
        put_bytes_lem (record b { bytes = measured }) (base + 40) message 0 size (body measured),
        e',
        set_error_lem (record b { bytes = texted }) base (header texted) ErrorFrame.frame_length
            (40 + size),
      )

  texted-other :
      (g : ErrorFrame)
      → load (width g) texted (place base g) ≡ load (width g) measured (place base g)
  texted-other g =
      load-copy_elsewhere (width g) measured message (base + 40) 0 size (place base g)
        (omega (arith, slot-inside g))

  kept :
      (g : ErrorFrame)
      → ErrorFrame.error_message_length ≢ g
      → ErrorFrame.frame_length ≢ g
      → get_error g (record b { bytes = with_text }) base ≡ get_error g b base
  kept g ne ne' = rw (
    get_error_lem (record b { bytes = with_text }) base (header with_text) g,
    get_error_lem b base (header b.bytes) g,
    load-store_other texted base ErrorFrame.frame_length g (40 + size) ne',
    texted-other g,
    load-store_other b.bytes base ErrorFrame.error_message_length g size ne,
  )

  frame_length_lem :
      get_error ErrorFrame.frame_length (record b { bytes = with_text }) base ≡ ok (40 + size)
  unfolding error_slot
  frame_length_lem = rw (
    get_error_lem (record b { bytes = with_text }) base (header with_text) ErrorFrame.frame_length,
    load-store_self 4 texted (base + 0) (40 + size) (omega (arith, fits.small, fits.within)),
  )

  message_length_lem :
      get_error ErrorFrame.error_message_length (record b { bytes = with_text }) base ≡ ok size
  unfolding error_slot
  message_length_lem = rw (
    get_error_lem (record b { bytes = with_text }) base (header with_text)
        ErrorFrame.error_message_length,
    load-store_other texted base ErrorFrame.frame_length ErrorFrame.error_message_length (40 + size)
        (cc),
    texted-other ErrorFrame.error_message_length,
    load-store_self 4 b.bytes (base + 36) size (omega (arith, fits.small, fits.within)),
  )

  text_bytes :
      bytes_of (copy (λ j. 0) 0 with_text (base + 40) size) 0 size ≡ bytes_of message 0 size
  unfolding error_slot
  text_bytes = bytes_of-eq (copy (λ j. 0) 0 with_text (base + 40) size) message 0 0 size (λ k h.
      let e : base + 40 + k - (base + 40) ≡ k = omega arith in
      ground (
        arith,
        store_outside 4 texted (base + 0) (40 + size) (base + 40 + k) (omega arith),
        ap message e,
      ))

  error_message_lem :
      error_message (record b { bytes = with_text }) base ≡ ok (bytes_of message 0 size)
  unfolding error_message bytes_of
  error_message_lem = elim (dec_lt 0 size) [
    | yes some_text ↦
        let positive : lt32 0 size ≡ true = ground (arith, fits.small, fits.within) in
        rw (
          message_length_lem,
          positive,
          text_place,
          get_bytes_lem (record b { bytes = with_text }) (base + 40) (λ j. 0) size (body with_text),
          text_bytes,
        )
    | no nothing ↦ let e : size ≡ 0 = omega arith in rw (message_length_lem) (rw e)
  ]

-- A message of at most 1023 bytes for which the frame has room in the buffer: set_error_message
-- succeeds. Then error_message returns the bytes of the message, the frame's length is that of the
-- header and the message, and a field `g` other than the two lengths returns what it did before.
pub set_error_message-error_message :
    (b : Buffer) (base : ℕ) (message : Memory) (size : ℕ) (g : ErrorFrame)
    → size ≤ 1023
    → Fits b base (40 + size)
    → ErrorFrame.error_message_length ≢ g
    → ErrorFrame.frame_length ≢ g
    → (b' : Buffer) × (set_error_message b base message size ≡ ok b')
      × (error_message b' base ≡ ok (bytes_of message 0 size))
      × (get_error ErrorFrame.frame_length b' base ≡ ok (40 + size))
      × (get_error g b' base ≡ get_error g b base)
set_error_message-error_message b base message size g few fits ne ne' = (
  record b { bytes = with_text b base message size fits },
  set_error_message_lem b base message size fits few,
  error_message_lem b base message size fits,
  frame_length_lem b base message size fits,
  kept b base message size fits g ne ne',
)
