-- ===== src/Cnc/Delivery/Texts.antt =====
-- How a text that was written into a command shows in the message.
use caeron.Base.{ℕ, ◌+◌, ◌^◌, ◌≤◌, ◌<◌, ◌≡◌, false, List, ok, arith, ◌∙◌}
use caeron.Word.{lt32, sub32, is_neg32}
use caeron.Buffer.{Buffer}
use caeron.Command.Trailing.{Text}
use caeron.Command.Codec.{written, written-text}
use caeron.Concurrent.Records.Layout.{bytes_of, bytes_of-eq}
use caeron.Cnc.DriverProxy.{CString, safe_strlen, validate_scratch_length}
use caeron.Cnc.Delivery.{Same}

-- The channel as the handler sees it.
abbrev pub text_of : CString → List ℕ
text_of str = bytes_of str.bytes 0 str.size

pub safe_strlen_lem : (str : CString) → str.size < 2 ^ 31 → safe_strlen str ≡ ok str.size
unfolding safe_strlen
safe_strlen_lem str h = ground arith

pub validate_lem : (n : ℕ) → n ≤ 2048 → validate_scratch_length n ≡ ok tt
validate_lem n h = ground arith

module _ (t : Text) (m b : Buffer) (str : CString) where
  -- A message that shows a text which was written shows its bytes.
  pub text_shown :
      Same m (written t b 0 str.size str.bytes)
      → b.capacity ≡ t.layout.length + str.size
      → bytes_of m.bytes t.layout.length str.size ≡ text_of str
  text_shown s sized = bytes_of-eq m.bytes str.bytes t.layout.length 0 str.size (λ k lt.
      let e : 0 + t.layout.length + k ≡ t.layout.length + k = omega arith in
      let e0 : 0 + k ≡ k = omega arith in
      s.bytes (t.layout.length + k) (omega (arith, sized))
      ∙ rw e0 (rw e at (written-text t b 0 str.size str.bytes k lt)))

  pub size_shown :
      Same m (written t b 0 str.size str.bytes)
      → b.capacity ≡ t.layout.length + str.size
      → (is_neg32 str.size ≡ false) × (lt32 (sub32 m.capacity t.layout.length) str.size ≡ false)
  size_shown s sized = (ground (arith, s.small, sized), ground (arith, s.small, s.capacity, sized))
