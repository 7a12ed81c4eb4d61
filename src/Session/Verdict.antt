-- ===== src/Session/Verdict.antt =====
-- src/ws/subscribe.rs: the guards of `pusher:subscribe`, in their order. They change nothing: `verdict`
-- is what they decide.
use mathlib.Core.Option
use pylon.Prelude.{
  ℕ, Bool, false, not, ◌&&◌, Option, none, some, nat_beq, ltb, leb, if◌then◌else◌, length, contains,
  ◌==◌, list_eq, nat_eq,
}
use pylon.Prelude.Results.{Result, ok, err}
use pylon.Protocol.SocketId.{Str}
use pylon.Protocol.Text.{ascii, char_count}
use pylon.Protocol.Json.{parse_channel_data}
use pylon.Channel.Types.{PresenceMember, has_user}
use pylon.Channel.Registry.{starts_with}
use pylon.Channel.Kind.{
  AuthKind, public, private, private_encrypted, presence, channel_info_of, validate_channel_name,
  server_to_user_prefix, strip_prefix,
}
use pylon.Auth.{AuthError, verify_channel, message}
use pylon.Session.{Platform, Config, Moment, Session, is_saturated, socket_text}

-- The error type, the message and the status of a `pusher:subscription_error`.
pub record Refusal : Type 0 where
  pub error_type : Str
  pub error : Str
  pub status : ℕ

abbrev unauthorised : Str → Refusal
unauthorised error = record { error_type = ascii "AuthError"; error = error; status = 401 }

abbrev limit_reached : Str → Refusal
limit_reached error = record { error_type = ascii "LimitReached"; error = error; status = 4004 }

abbrev bad_presence_data : Str → Refusal
bad_presence_data error = record {
  error_type = ascii "InvalidPresenceData";
  error = error;
  status = 401;
}

abbrev invalid_name : Refusal
invalid_name = record {
  error_type = ascii "InvalidChannel";
  error = ascii "Invalid channel name";
  status = 4009;
}

pub data Verdict (Value : Type 0) : Type 0 where
  held : Verdict Value
  refused : Refusal → Verdict Value
  own_user_channel : Verdict Value
  admitted : Option (PresenceMember Value) → Verdict Value

module _ {Value Mailbox : Type 0} (p : Platform Value Mailbox) (c : Config Mailbox) where
  -- The cap of a presence channel; the bridge decides it in a cluster.
  unfoldable pub presence_full : Str → PresenceMember Value → Session p → Bool
  unfolding has_user
  presence_full channel m s =
      if c.clustered
      then false
      else not (has_user m.user_id (p.adapter.presence_members s.node c.app.id channel))
        && leb c.limits.max_presence_members
            (Option.get_or (p.adapter.channel s.node c.app.id channel).user_count 0)

  unfoldable pub info_too_large : PresenceMember Value → Bool
  info_too_large m =
      not (p.json.is_null m.user_info)
      && ltb c.limits.max_presence_user_info_bytes (length (p.json.to_string m.user_info))

  -- What is asked of a member after its parse.
  unfoldable pub judge_member : Str → PresenceMember Value → Session p → Verdict Value
  judge_member channel m s =
      if ltb c.limits.max_presence_user_id_length (char_count m.user_id)
      then refused (bad_presence_data (ascii "user_id exceeds maximum length"))
      else if info_too_large m
      then refused (bad_presence_data (ascii "user_info exceeds maximum size"))
      else if presence_full channel m s
      then refused (limit_reached (ascii "Presence channel is full"))
      else admitted (some m)

  unfoldable pub verify : Str → Option Str → Str → Result (Unit {0}) AuthError
  verify channel channel_data token =
      verify_channel p.hmac c.app.key c.app.secret (socket_text p c) channel channel_data token

  unfoldable pub judge_presence_data : Str → Str → Str → Session p → Verdict Value
  unfolding verify
  judge_presence_data channel token payload s = elim (verify channel (some payload) token) [
    | err e ↦ refused (unauthorised (message e))
    | ok u ↦ elim (parse_channel_data p.json payload) [
      | err e ↦ refused (unauthorised (ascii "Invalid channel_data"))
      | ok m ↦ judge_member channel m s
    ]
  ]

  unfoldable pub judge_presence : Str → Option Str → Option Str → Session p → Verdict Value
  unfolding judge_presence_data
  judge_presence channel none payload s = refused (unauthorised (ascii "Auth signature required"))
  judge_presence channel (some token) none s =
      refused (unauthorised (ascii "Presence requires channel_data"))
  judge_presence channel (some token) (some payload) s = judge_presence_data channel token payload s

  unfoldable pub judge_private : Str → Option Str → Verdict Value
  unfolding verify
  judge_private channel none = refused (unauthorised (ascii "Auth signature required"))
  judge_private channel (some token) = elim (verify channel none token) [
    | err e ↦ refused (unauthorised (message e))
    | ok u ↦ admitted none
  ]

  -- The arms of `match info.auth`.
  unfoldable pub judge_auth : AuthKind → Str → Option Str → Option Str → Session p → Verdict Value
  unfolding judge_private judge_presence
  judge_auth public channel auth payload s = admitted none
  judge_auth private channel auth payload s = judge_private channel auth
  judge_auth private_encrypted channel auth payload s =
      if c.capabilities.encrypted_channels
      then judge_private channel auth
      else refused
          (unauthorised (ascii "Encrypted channels are not supported by this protocol version"))
  judge_auth presence channel auth payload s =
      if c.capabilities.presence
      then judge_presence channel auth payload s
      else refused
          (unauthorised (ascii "Presence channels are not supported by this protocol version"))

  unfoldable pub judge_named : Str → Option Str → Option Str → Session p → Verdict Value
  unfolding judge_auth
  judge_named channel auth payload s =
      let info = channel_info_of channel in
      if starts_with channel (ascii "#")
      then refused (unauthorised (ascii "Unknown channel"))
      else if not (validate_channel_name channel c.limits.max_channel_name_length)
      then refused invalid_name
      else if info.cache && not c.capabilities.cache_channels
      then refused
          (unauthorised (ascii "Cache channels are not supported by this protocol version"))
      else judge_auth info.auth channel auth payload s

  unfoldable pub judge_user_channel : Str → Session p → Verdict Value
  judge_user_channel user_id s = elim s.user [
    | none ↦ refused (unauthorised (ascii "Unauthorized"))
    | some u ↦
        if u.id == user_id then own_user_channel else refused (unauthorised (ascii "Unauthorized"))
  ]

  -- The guards of `subscribe`, up to the call of the adapter.
  unfoldable pub verdict : Moment → Str → Option Str → Option Str → Session p → Verdict Value
  unfolding judge_user_channel judge_named
  verdict t channel auth payload s =
      let cap = c.limits.max_subscriptions_per_connection in
      if contains s.subscribed channel
      then held
      else if not (nat_beq cap 0) && leb cap (length s.subscribed)
      then refused (limit_reached (ascii "Subscription limit reached for this connection"))
      else if is_saturated t
      then refused (limit_reached (ascii "Server is over capacity; try again shortly"))
      else elim (strip_prefix channel server_to_user_prefix) [
        | some user_id ↦ judge_user_channel user_id s
        | none ↦ judge_named channel auth payload s
      ]
