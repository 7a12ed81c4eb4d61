-- ===== src/Auth.antt =====
-- src/auth: the tokens of channel and user authentication. HMAC-SHA256 comes from a library: it is
-- the parameter `hmac`, from a secret and a message to the signature in lower-case hexadecimal.
pub mod Tokens
pub mod Examples
use mathlib.Core.Option
use pylon.Prelude.{
  Bool, true, false, not, Option, none, some, List, [], ◌∷◌, ◌++◌, ◌==◌, nat_eq, list_eq, nat_beq,
  if◌then◌else◌, length, map,
}
use pylon.Prelude.Results.{Result, ok, err}
use pylon.Protocol.SocketId.{Str}
use pylon.Protocol.Text.{ascii}

pub data AuthError : Type 0 where
  malformed key_mismatch bad_signature : AuthError

-- `ChannelAuthError::message`
unfoldable pub message : AuthError → Str
message malformed = ascii "Bad auth token"
message key_mismatch = ascii "Auth key mismatch"
message bad_signature = ascii "Invalid signature"

-- `str::split_once(':')`
unfoldable pub split_once : Str → Option (Str × Str)
split_once [] = none
split_once (c ∷ s) =
    let rest = split_once s in
    if nat_beq c 58 then some ([], s) else Option.map (λ p. (c ∷ p.0, p.1)) rest

-- `constant_time_eq`
unfoldable pub constant_time_eq : Str → Str → Bool
constant_time_eq a b = if not (nat_beq (length a) (length b)) then false else a == b

-- What `channel_signature` signs.
unfoldable pub channel_message : Str → Str → Option Str → Str
channel_message socket_id channel none = socket_id ++ (ascii ":" ++ channel)
channel_message socket_id channel (some channel_data) =
    socket_id ++ (ascii ":" ++ (channel ++ (ascii ":" ++ channel_data)))

-- What `user_signature` signs.
unfoldable pub user_message : Str → Str → Str
user_message socket_id user_data = socket_id ++ (ascii "::user::" ++ user_data)

-- The token's key and signature against the app's key and the expected signature.
check_token : Str → Str → Option (Str × Str) → Result (Unit {0}) AuthError
check_token app_key expected none = err malformed
check_token app_key expected (some (key, sig)) =
    if not (key == app_key)
    then err key_mismatch
    else if constant_time_eq sig expected
    then ok tt
    else err bad_signature

module _ (hmac : Str → Str → Str) where
  -- `channel_signature`
  unfoldable pub channel_signature : Str → Str → Str → Option Str → Str
  unfolding channel_message
  channel_signature secret socket_id channel channel_data =
      hmac secret (channel_message socket_id channel channel_data)

  -- `user_signature`
  unfoldable pub user_signature : Str → Str → Str → Str
  unfolding user_message
  user_signature secret socket_id user_data = hmac secret (user_message socket_id user_data)

  -- `auth::channel::verify`
  unfoldable pub verify_channel :
      Str → Str → Str → Str → Option Str → Str → Result (Unit {0}) AuthError
  unfolding check_token channel_signature
  verify_channel app_key app_secret socket_id channel channel_data token =
      check_token app_key (channel_signature app_secret socket_id channel channel_data)
        (split_once token)

  -- `auth::user::verify`
  unfoldable pub verify_user : Str → Str → Str → Str → Str → Result (Unit {0}) AuthError
  unfolding check_token user_signature
  verify_user app_key app_secret socket_id user_data token =
      check_token app_key (user_signature app_secret socket_id user_data) (split_once token)
