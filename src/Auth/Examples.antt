-- ===== src/Auth/Examples.antt =====
-- Tokens with a signature that spells out the secret and the message.
use pylon.Prelude.{◌≡◌, ◌≢◌, refl, ◌↔◌, none, some, ◌++◌}
use pylon.Prelude.Results.{ok}
use pylon.Protocol.SocketId.{Str}
use pylon.Protocol.Text.{ascii}
use pylon.Channel.Kind.{validate_channel_name}
use pylon.Auth.{
  verify_channel, verify_user, channel_signature, user_signature, channel_message, user_message,
}
use pylon.Auth.Tokens.{verify_channel-verify_user, channel_message-user_message}

abbrev spell : Str → Str → Str
spell secret message = secret ++ message

verify_channel-verify_user_example :
    ((verify_channel spell
          (ascii "k")
          (ascii "s")
          (ascii "7.7")
          (ascii "private-a")
          none
          (ascii "k:s7.7:private-a")
        ≡ ok tt)
      ↔ (ascii "k:s7.7:private-a"
          ≡ ascii "k"
            ++ (ascii ":"
                ++ channel_signature spell (ascii "s") (ascii "7.7") (ascii "private-a") none)))
    × ((verify_user spell
            (ascii "k")
            (ascii "s")
            (ascii "7.7")
            (ascii "{}")
            (ascii "k:s7.7:private-a")
          ≡ ok tt)
        ↔ (ascii "k:s7.7:private-a"
            ≡ ascii "k"
              ++ (ascii ":" ++ user_signature spell (ascii "s") (ascii "7.7") (ascii "{}"))))
unfolding ascii
verify_channel-verify_user_example =
    verify_channel-verify_user spell (ascii "k") (ascii "s") (ascii "7.7") (ascii "private-a") none
      (ascii "{}") (ascii "k:s7.7:private-a") refl

channel_message-user_message_example :
    (channel_message (ascii "7.7") (ascii "a") none
        ≡ channel_message (ascii "7.8") (ascii "b") (some (ascii "{}"))
      → (ascii "7.7" ≡ ascii "7.8") × (ascii "a" ≡ ascii "b") × (none ≡ some (ascii "{}")))
    × (user_message (ascii "7.7") (ascii "{}") ≡ user_message (ascii "7.8") (ascii "[]")
        → (ascii "7.7" ≡ ascii "7.8") × (ascii "{}" ≡ ascii "[]"))
    × (channel_message (ascii "7.7") (ascii "a") none ≢ user_message (ascii "7.8") (ascii "{}"))
unfolding ascii validate_channel_name
channel_message-user_message_example =
    channel_message-user_message 200 (ascii "7.7") (ascii "7.8") (ascii "a") (ascii "b") none
      (some (ascii "{}")) (ascii "{}") (ascii "[]") refl refl refl refl
