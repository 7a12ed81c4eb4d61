-- ===== src/Protocol/Event.antt =====
-- src/protocol/event.rs, src/protocol/error.rs: what the server sends. `Value` is `serde_json::Value`.
use pylon.Prelude.{ℕ, ◌≡◌, Bool, true, List, Option}
use pylon.Protocol.SocketId.{Str, SocketId}

pub record PusherError : Type 0 where
  pub code : ℕ
  pub message : Str

pub record WatchlistChange : Type 0 where
  pub name : Str
  pub user_ids : List Str

pub record PresencePayload (Value : Type 0) : Type 0 where
  pub ids : List Str
  pub hash : List (Str × Value)
  pub count : ℕ

pub data ServerEvent (Value : Type 0) : Type 0 where
  connection_established : SocketId → ℕ → ServerEvent Value
  ping pong : ServerEvent Value
  subscription_succeeded : Str → Option (PresencePayload Value) → ServerEvent Value
  subscription_count : Str → ℕ → ServerEvent Value
  error : PusherError → ServerEvent Value
  channel_event : Str → Str → Value → Option Str → ServerEvent Value
  subscription_error : Str → Str → Str → ℕ → ServerEvent Value
  member_added : Str → Str → Value → ServerEvent Value
  member_removed : Str → Str → ServerEvent Value
  cache_miss : Str → ServerEvent Value
  signin_success : Str → ServerEvent Value
  watchlist_events : List WatchlistChange → ServerEvent Value
  client_event_error : ℕ → Str → ServerEvent Value
  close : ℕ → Str → ServerEvent Value
  raw : Str → ServerEvent Value

-- What the library leaves to others: `==` of `serde_json::Value`, which is reflexive, and the codec
-- behind `wire::encode` with the version as its first argument.
pub record Wire (Value : Type 0) : Type 0 where
  pub value_eq : Value → Value → Bool
  pub value_eq_refl : (v : Value) → value_eq v v ≡ true
  pub encode : ℕ → ServerEvent Value → Str

-- `ACTIVE_VERSIONS[0]`
abbrev pub active_version : ℕ
active_version = 7
