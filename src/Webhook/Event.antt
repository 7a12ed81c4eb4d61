-- ===== src/Webhook/Event.antt =====
-- src/webhook/event.rs: the seven triggers.
use pylon.Prelude.{ℕ, Option}
use pylon.Protocol.SocketId.{Str}
use pylon.Protocol.Text.{ascii}

pub data WebhookEvent (Value : Type 0) : Type 0 where
  channel_occupied channel_vacated : Str → Str → WebhookEvent Value
  member_added member_removed : Str → Str → Str → WebhookEvent Value
  client_event : Str → Str → Str → Value → Str → Option Str → WebhookEvent Value
  cache_miss : Str → Str → WebhookEvent Value
  subscription_count : Str → Str → ℕ → WebhookEvent Value

module _ {Value : Type 0} where
  -- `WebhookEvent::app`
  unfoldable pub event_app : WebhookEvent Value → Str
  event_app (channel_occupied app channel) = app
  event_app (channel_vacated app channel) = app
  event_app (member_added app channel user_id) = app
  event_app (member_removed app channel user_id) = app
  event_app (client_event app channel event payload socket_id user_id) = app
  event_app (cache_miss app channel) = app
  event_app (subscription_count app channel count) = app

  -- `WebhookEvent::name`
  unfoldable pub event_name : WebhookEvent Value → Str
  event_name (channel_occupied app channel) = ascii "channel_occupied"
  event_name (channel_vacated app channel) = ascii "channel_vacated"
  event_name (member_added app channel user_id) = ascii "member_added"
  event_name (member_removed app channel user_id) = ascii "member_removed"
  event_name (client_event app channel event payload socket_id user_id) = ascii "client_event"
  event_name (cache_miss app channel) = ascii "cache_miss"
  event_name (subscription_count app channel count) = ascii "subscription_count"
