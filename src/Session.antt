-- ===== src/Session.antt =====
-- src/ws/handler.rs: a connection's context and what its handlers share. The fields of
-- `ConnectionContext` that no handler changes are `Config`; the others are `Session`, with the node,
-- the frames handed to mailboxes and the enqueued webhook triggers, oldest first.
pub mod Verdict
pub mod Subscribe
pub mod ClientEvent
pub mod Unsubscribe
pub mod Signin
pub mod Dispatch
pub mod Quiet
pub mod Authorised
pub mod Tracked
pub mod Left
pub mod Reached
pub mod Gates
pub mod Users
pub mod SignedIn
pub mod Closed
pub mod Relayed
pub mod Others
pub mod Samples
pub mod Examples
use pylon.Prelude.{
  ℕ, Bool, true, false, ◌&&◌, Option, none, some, List, [], ◌∷◌, ◌++◌, map, ltb, if◌then◌else◌,
  is_empty, ◌==◌, list_eq, nat_eq,
}
use pylon.Protocol.SocketId.{Str, SocketId, as_str}
use pylon.Protocol.Event.{
  ServerEvent, subscription_count, subscription_error, watchlist_events, WatchlistChange,
}
use pylon.Protocol.Command.{Capabilities}
use pylon.Protocol.Json.{Json, AuthenticatedUser}
use pylon.Channel.Types.{ConnectionHandle}
use pylon.Channel.Fanout.{Send}
use pylon.Channel.Kind.{AuthKind, presence, channel_info_of}
use pylon.Rate.{F64, RateWindow}
use pylon.Webhook.Event.{WebhookEvent}
use pylon.Webhook.Event as WebhookEvent
use pylon.Adapter.{Adapter}
use pylon.App.{App}

-- What the handlers take from elsewhere: JSON, `f64`, the node, HMAC-SHA256 and the test of UTF-8.
pub record Platform (Value Mailbox : Type 0) : Type 1 where
  pub json : Json Value
  pub f64 : F64
  pub adapter : Adapter Value Mailbox
  pub hmac : Str → Str → Str
  pub is_utf8 : Str → Bool

-- `Limits` of src/server/config.rs, the fields that the handlers read.
pub record Limits : Type 0 where
  pub max_presence_members : ℕ
  pub max_event_payload_bytes : ℕ
  pub max_watchlist_size : ℕ
  pub max_channel_name_length : ℕ
  pub max_event_name_length : ℕ
  pub max_client_events_per_second : ℕ
  pub max_presence_user_id_length : ℕ
  pub max_presence_user_info_bytes : ℕ
  pub max_subscriptions_per_connection : ℕ

pub record Config (Mailbox : Type 0) : Type 0 where
  pub app : App
  pub socket_id : SocketId
  pub mailbox : Mailbox
  pub limits : Limits
  pub clustered : Bool
  pub capabilities : Capabilities

-- What a command reads of the world: the saturation flag, if one is wired, and the clock.
pub record Moment : Type 0 where
  pub saturated : Option Bool
  pub now : ℕ

-- `is_saturated`
unfoldable pub is_saturated : Moment → Bool
is_saturated t = elim t.saturated [ none ↦ false | some flag ↦ flag ]

pub record Session {Value Mailbox : Type 0} (p : Platform Value Mailbox) : Type 0 where
  pub subscribed : List Str
  pub user : Option AuthenticatedUser
  pub presence_membership : List (Str × Str)
  pub client_event_rate : RateWindow p.f64
  pub node : p.adapter.Node
  pub sent : List (Send Value Mailbox)
  pub hooks : List (WebhookEvent Value)

unfoldable pub is_presence : AuthKind → Bool
is_presence presence = true
is_presence _ = false

module _ {Value Mailbox : Type 0} (p : Platform Value Mailbox) (c : Config Mailbox) where
  -- `handle`
  abbrev pub handle : ConnectionHandle Mailbox
  handle = record { socket_id = c.socket_id; mailbox = c.mailbox }

  -- `socket_id.as_str()`
  abbrev pub socket_text : Str
  socket_text = as_str p.is_utf8 c.socket_id

  abbrev pub hand_over : List (Send Value Mailbox) → Session p → Session p
  hand_over frames s = record s { sent = s.sent ++ frames }

  -- `send_self`
  unfoldable pub send_self : ServerEvent Value → Session p → Session p
  send_self event s = hand_over ((c.mailbox, event) ∷ []) s

  -- `emit_webhook`
  unfoldable pub emit_webhook : WebhookEvent Value → Session p → Session p
  emit_webhook event s = record s { hooks = s.hooks ++ event ∷ [] }

  -- `emit_webhook` under one of the app's `has_*` gates
  unfoldable pub emit_if : Bool → WebhookEvent Value → Session p → Session p
  emit_if wanted event s = if wanted then emit_webhook event s else s

  -- `adapter.broadcast` to this app, its error logged by `note_broadcast_drop`
  unfoldable pub publish : Str → ServerEvent Value → Option SocketId → Session p → Session p
  publish channel event except s =
      let (frames, node) = p.adapter.broadcast s.node c.app.id channel event except in
      hand_over frames (record s { node = node })

  -- `notify_watchers`
  unfoldable pub notify_watchers : Str → Str → Session p → Session p
  notify_watchers user_id name s =
      let event : ServerEvent Value =
        watchlist_events (record { name = name; user_ids = user_id ∷ [] } ∷ []) in
      hand_over (map (λ h. (h.mailbox, event)) (p.adapter.watchers_of s.node c.app.id user_id)) s

  -- `maybe_emit_count`
  unfoldable pub maybe_emit_count : Str → ℕ → Session p → Session p
  unfolding is_presence
  maybe_emit_count channel count s =
      if c.clustered
      then s
      else if is_presence (channel_info_of channel).auth
      then s
      else if c.app.subscription_count_enabled
      then emit_if (ltb 0 count && c.app.has_subscription_count_webhooks)
          (WebhookEvent.subscription_count c.app.id channel count)
          (publish channel (subscription_count channel count) none s)
      else s

  -- `emit_occupied_if_edge`
  unfoldable pub emit_occupied_if_edge : Str → Bool → Session p → Session p
  emit_occupied_if_edge channel occupied s =
      if c.clustered
      then s
      else emit_if (occupied && c.app.has_channel_occupied_webhooks)
          (WebhookEvent.channel_occupied c.app.id channel) s

  -- `send_subscription_error`
  unfoldable pub send_subscription_error : Str → Str → Str → ℕ → Session p → Session p
  send_subscription_error channel error_type error status s =
      send_self (subscription_error channel error_type error status) s
