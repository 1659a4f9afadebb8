-- ===== src/Tests/Messages.antt =====
-- Frames and messages in a blank buffer.
use Prim.Native.Nat.{bit_and}
use caeron.Base.{ℕ, ◌+◌, ◌≡◌, ◌≢◌, refl, inr, true, some, arith, ok}
use caeron.Buffer.{Buffer}
use caeron.Tests.Inputs.{blank, blank-Fits}
use caeron.Concurrent.Records.Layout.{bytes_of}
use caeron.Flyweight.{get}
use caeron.Protocol.{Kind, layout, group_tag, set_group_tag, asf_length}
use caeron.Protocol.Control.{Setup, setup_layout}
use caeron.Protocol.Control.{ErrorFrame}
use caeron.Protocol.Errors.{
  get_error, error_message, set_error_message, set_error_group_tag, has_group_tag,
}
use caeron.Protocol.Errors.Text.{set_error_message-error_message}
use caeron.Protocol.Errors.Tag.{set_error_group_tag-has_group_tag}
use caeron.Protocol.Codec.{group_tag-set_group_tag}
use caeron.Command.{TextMessage, text}
use caeron.Command.Channels.{
  SubscriptionMessage, subscription_message_layout, subscription_message_text,
}
use caeron.Command.Trailing.{set_text, message_length}
use caeron.Command.Codec.{set_text_lem, set_text_refused}

unfoldable setup_ttl : (layout Kind.setup).Field
unfolding layout setup_layout
setup_ttl = Setup.ttl

unfoldable setup_flags : (layout Kind.setup).Field
unfolding layout setup_layout
setup_flags = Setup.flags

group_tag-set_group_tag_example :
    (b' : Buffer) × (set_group_tag blank 8 77 ≡ ok b')
    × (group_tag b' 8 ≡ ok 77)
    × (asf_length b' 8 ≡ ok 8)
    × (b'.bytes 60 ≡ 0)
group_tag-set_group_tag_example =
    group_tag-set_group_tag blank 8 77 60 (blank-Fits 8 44 (omega arith)) (omega arith)
      (inr (omega arith))

unfoldable subscription_stream : (text TextMessage.subscription_message).layout.Field
unfolding text subscription_message_text subscription_message_layout
subscription_stream = SubscriptionMessage.stream_id

subscription_fields-differ :
    (text TextMessage.subscription_message).length_field ≢ subscription_stream
unfolding text subscription_message_text subscription_message_layout subscription_stream
subscription_fields-differ = cc

subscription-length : (text TextMessage.subscription_message).layout.length ≡ 32
unfolding text subscription_message_text subscription_message_layout
subscription-length = refl

set_text_lem_example :
    (b' : Buffer) × (set_text (text TextMessage.subscription_message) blank 8 (some (λ j. 97)) 9
      ≡ ok b')
    × (get
          (text TextMessage.subscription_message).layout
          (text TextMessage.subscription_message).length_field
          b'
          8
        ≡ ok 9)
    × (message_length (text TextMessage.subscription_message) b' 8
        ≡ ok ((text TextMessage.subscription_message).layout.length + 9))
    × (bytes_of b'.bytes (8 + (text TextMessage.subscription_message).layout.length) 9
        ≡ bytes_of (λ j. 97) 0 9)
    × (get (text TextMessage.subscription_message).layout subscription_stream b' 8
        ≡ get (text TextMessage.subscription_message).layout subscription_stream blank 8)
set_text_lem_example =
    set_text_lem TextMessage.subscription_message subscription_stream blank 8 9 (λ j. 97)
      subscription_fields-differ
      (blank-Fits 8 ((text TextMessage.subscription_message).layout.length + 9)
        (omega (arith, subscription-length)))

set_text_refused_example :
    set_text (text TextMessage.subscription_message) blank 8 (some (λ j. 97)) 25 ≡ ok blank
set_text_refused_example =
    set_text_refused TextMessage.subscription_message blank 8 25 (some (λ j. 97)) (omega arith)
      (omega arith) (omega arith) (inr (omega (arith, subscription-length)))

set_error_message-error_message_example :
    (b' : Buffer) × (set_error_message blank 0 (λ j. 97) 3 ≡ ok b')
    × (error_message b' 0 ≡ ok (bytes_of (λ j. 97) 0 3))
    × (get_error ErrorFrame.frame_length b' 0 ≡ ok (40 + 3))
    × (get_error ErrorFrame.error_code b' 0 ≡ get_error ErrorFrame.error_code blank 0)
set_error_message-error_message_example =
    set_error_message-error_message blank 0 (λ j. 97) 3 ErrorFrame.error_code (omega arith)
      (blank-Fits 0 43 (omega arith)) (cc) (cc)

set_error_group_tag-has_group_tag_example :
    (old new : ℕ) × (b' : Buffer) × (set_error_group_tag blank 0 77 ≡ ok b')
    × (get_error ErrorFrame.group_tag b' 0 ≡ ok 77)
    × (has_group_tag b' 0 ≡ ok true)
    × (get_error ErrorFrame.flags blank 0 ≡ ok old)
    × (get_error ErrorFrame.flags b' 0 ≡ ok new)
    × (bit_and new 0xF7 ≡ bit_and old 0xF7)
    × (get_error ErrorFrame.error_code b' 0 ≡ get_error ErrorFrame.error_code blank 0)
set_error_group_tag-has_group_tag_example =
    set_error_group_tag-has_group_tag blank 0 77 ErrorFrame.error_code
      (blank-Fits 0 40 (omega arith)) (omega arith) (cc) (cc)
