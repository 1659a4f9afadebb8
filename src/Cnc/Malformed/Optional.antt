-- ===== src/Cnc/Malformed/Optional.antt =====
-- The cases whose message has optional fields or two byte strings.
use caeron.Base.{
  ℕ, ◌+◌, ◌-◌, ◌*◌, ◌/◌, ◌^◌, ◌≤◌, ◌<◌, ◌≡◌, Bool, false, ◌||◌, ok, lt→ltb, le→ltb, Bool-cases, inl,
  inr, arith,
}
use native.Mathlib.Decide.{dec_lt}
use caeron.Word.{add32, sub32, is_neg32, lt32}
use caeron.Word.Bounds.{align_int, lt32_lem}
use caeron.Buffer.{Buffer, get_plain}
use caeron.Buffer.Bytes.{load, load-lt}
use caeron.Buffer.Laws.{Fits, get_plain_lem, get_i32_lem}
use caeron.Flyweight.{get}
use caeron.Flyweight.Fields.{get_lem}
use caeron.Command.Revocation.{
  remove_publication_layout, remove_publication_slot, revoke, revoke_within,
}
use caeron.Command.CounterRequest
use caeron.Command.CounterRequest.{CounterMessage, counter_message_layout, counter_message_slot}
use caeron.Command.StaticCounterRequest
use caeron.Command.StaticCounterRequest.{
  StaticCounterMessage, static_counter_message_layout, static_counter_message_slot,
}
use caeron.Cnc.ClientCommandAdapter.{
  remove_publication_case, add_counter_case, add_static_counter_case,
}
use caeron.Cnc.Malformed.Guards.{Succeeds, refused-Succeeds, ok-Succeeds, long_enough}

module _ (b : Buffer) (small : b.capacity < 2 ^ 31) where
  field_at : (w o : ℕ) → o + w ≤ b.capacity → get_plain w b (add32 0 o) ≡ ok (load w b.bytes o)
  field_at w o within =
      let e : add32 0 o ≡ o = omega arith in
      rw (e, get_plain_lem w b o (record { small = small; within = within }))

  -- The flags are read only where they are within the message.
  pub remove_publication-Succeeds : Succeeds (remove_publication_case b)
  unfolding remove_publication_case remove_publication_layout remove_publication_slot revoke_within
      revoke get
  remove_publication-Succeeds = long_enough b small 24 _ _ (omega arith) (λ fits.
      rw (field_at 8 8 (omega (arith, fits.within)), field_at 8 16 (omega (arith, fits.within)))
        (elim (dec_lt b.capacity 32) [
          | yes short ↦
              rw (lt32_lem b.capacity 32 small (omega arith), lt→ltb b.capacity 32 short)
                (ok-Succeeds _)
          | no long ↦
              rw (lt32_lem b.capacity 32 small (omega arith), le→ltb b.capacity 32 (omega arith))
                (ok-Succeeds _)
        ]))

  -- The label is read behind a key that leaves room for its length.
  pub add_counter-Succeeds : Succeeds (add_counter_case b)
  unfolding add_counter_case counter_message_layout counter_message_slot
      CounterRequest.get_key_buffer_length CounterRequest.label_length
      CounterRequest.label_buffer_offset
  add_counter-Succeeds = long_enough b small 24 _ _ (omega arith) (λ fits.
      let k : ℕ = load 4 b.bytes 20 in
      let bad : Bool = is_neg32 k || lt32 (sub32 (sub32 b.capacity 24) 4) k in
      rw
        (
          get_lem counter_message_layout b 0 fits CounterMessage.correlation_id,
          get_lem counter_message_layout b 0 fits CounterMessage.client_id,
          get_lem counter_message_layout b 0 fits CounterMessage.key_buffer_length,
          get_lem counter_message_layout b 0 fits CounterMessage.counter_type,
        )
        (refused-Succeeds bad _ _ (λ (good : bad ≡ false).
          let within : 28 + k ≤ b.capacity = ground (arith, load-lt 4 b.bytes 20, fits.within) in
          let e24 : CounterRequest.no_header b 0 24 ≡ false = ground (arith, small) in
          let e28 : CounterRequest.no_header b 0 28 ≡ false = ground (arith, small) in
          let fitting : CounterRequest.key_overflows b 0 k ≡ false = ground (arith, small) in
          let place : add32 (add32 0 24) k ≡ 24 + k = omega (arith, small) in
          let label = get_i32_lem b (24 + k) (record { small = small; within = omega arith }) in
          let size : ℕ = load 4 b.bytes (24 + k) in
          let behind : ℕ = add32 (24 + k) 4 in
          elim (Bool-cases
            (is_neg32 size || lt32 b.capacity behind || lt32 (sub32 b.capacity behind) size)) [
              | inl wrong ↦ rw (e24, fitting, place, label, e28, wrong) (ok-Succeeds _)
              | inr right ↦ rw (e24, fitting, place, label, e28, right) (ok-Succeeds _)
            ])))

  pub add_static_counter-Succeeds : Succeeds (add_static_counter_case b)
  unfolding add_static_counter_case static_counter_message_layout static_counter_message_slot
      StaticCounterRequest.get_key_length StaticCounterRequest.label_length
      StaticCounterRequest.label_buffer_offset
  add_static_counter-Succeeds = long_enough b small 36 _ _ (omega arith) (λ long.
      let fits : Fits b 0 32 = record { small = small; within = omega (arith, long.within) } in
      let k : ℕ = load 4 b.bytes 28 in
      let padded : ℕ = (k + 3) / 4 * 4 in
      let bad : Bool = is_neg32 k || lt32 (sub32 b.capacity 32) k in
      let key = get_lem static_counter_message_layout b 0 fits StaticCounterMessage.key_length in
      rw
        (
          get_lem static_counter_message_layout b 0 fits StaticCounterMessage.correlation_id,
          get_lem static_counter_message_layout b 0 fits StaticCounterMessage.client_id,
          key,
          get_lem static_counter_message_layout b 0 fits StaticCounterMessage.counter_type_id,
          get_lem static_counter_message_layout b 0 fits StaticCounterMessage.registration_id,
        )
        (refused-Succeeds bad _ _ (λ (good : bad ≡ false).
          let range = load-lt 4 b.bytes 28 in
          let inside : k + 32 ≤ b.capacity = ground (arith, range, long.within) in
          let room : Bool = lt32 (sub32 b.capacity 32) (add32 padded 4) in
          rw (align_int k (omega (arith, small))) (
            refused-Succeeds room _ _ (λ (fitting : room ≡ false).
              let within : 36 + padded ≤ b.capacity = ground (arith, small) in
              let h1 : CounterRequest.no_header b 0 36 ≡ false = ground (arith, small) in
              let h2 : is_neg32 k ≡ false = ground (arith, small) in
              let h3 : lt32 (2 ^ 31 - 4) k ≡ false = ground (arith, small) in
              let h4 : lt32 (sub32 (sub32 (sub32 b.capacity 0) 32) 4) padded ≡ false =
                ground (arith, small) in
              let h5 : add32 32 padded ≡ 32 + padded = omega (arith, small) in
              let label =
                get_i32_lem b (32 + padded) (record { small = small; within = omega arith }) in
              let e1 : is_neg32 (32 + padded) ≡ false = ground (arith, small) in
              let e2 : add32 0 (32 + padded) ≡ 32 + padded = omega (arith, small) in
              let size : ℕ = load 4 b.bytes (32 + padded) in
              let behind : ℕ = add32 (32 + padded) 4 in
              elim (Bool-cases (
                is_neg32 behind
                || (is_neg32 size
                    || lt32 b.capacity behind
                    || lt32 (sub32 b.capacity behind) size))) [
                      | inl wrong ↦ rw (h1, h2, h3, h4, h5, e1, e2, label, wrong) (ok-Succeeds _)
                      | inr right ↦ rw (h1, h2, h3, h4, h5, e1, e2, label, right) (ok-Succeeds _)
                    ])))))
