-- ===== src/App/Keys.antt =====
-- src/app/mod.rs, src/auth/channel.rs, src/auth/user.rs: an app that validates can authenticate.
use pylon.Prelude.{◌≡◌, refl, false, Option, ◌++◌, nat_eq, list_eq, contains, arith}
use pylon.Prelude.Results.{ok}
use pylon.Protocol.SocketId.{Str}
use pylon.Protocol.Text.{ascii}
use pylon.Auth.{verify_channel, verify_user, channel_signature, user_signature}
use pylon.Auth.Tokens.{verify_channel-verify_user}
use pylon.App.{App, is_blank, validate}

-- What a validated app's key and secret are.
pub validate-key :
    (a : App)
    → validate a ≡ ok tt
    → (contains a.key 58 ≡ false) × (is_blank a.key ≡ false) × (is_blank a.secret ≡ false)
unfolding validate
validate-key a h = (ground arith, ground arith, ground arith)

-- For an app that validates, the token that its server makes for a channel and for a signin verifies:
-- the key, a colon and the signature.
pub validate-verify :
    (hmac : Str → Str → Str) (a : App) (socket_id channel : Str) (channel_data : Option Str)
    (user_data : Str)
    → validate a ≡ ok tt
    → (verify_channel hmac a.key a.secret socket_id channel channel_data
          (a.key ++ (ascii ":" ++ channel_signature hmac a.secret socket_id channel channel_data))
        ≡ ok tt)
      × (verify_user hmac a.key a.secret socket_id user_data
            (a.key ++ (ascii ":" ++ user_signature hmac a.secret socket_id user_data))
          ≡ ok tt)
validate-verify hmac a socket_id channel channel_data user_data h =
    let (no_colon, _, _) = validate-key a h in
    (
      (verify_channel-verify_user hmac a.key a.secret socket_id channel channel_data user_data _
            no_colon).0.1
          refl,
      (verify_channel-verify_user hmac a.key a.secret socket_id channel channel_data user_data _
            no_colon).1.1
          refl,
    )
