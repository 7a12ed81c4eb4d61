-- ===== src/Session/ClientEvent.antt =====
-- src/ws/subscribe.rs: `client_event`.
use pylon.Prelude.{
  Bool, true, false, not, ◌||◌, some, ◌++◌, ltb, if◌then◌else◌, length, contains, list_eq, nat_eq,
}
use pylon.Maps.Assoc.{lookup}
use pylon.Protocol.SocketId.{Str}
use pylon.Protocol.Text.{ascii, decimal}
use pylon.Protocol.Event.{channel_event, client_event_error}
use pylon.Channel.Kind.{AuthKind, private, presence, channel_info_of}
use pylon.Rate.{check_at}
use pylon.Webhook.Event as WebhookEvent
use pylon.Session.{
  Platform, Config, Moment, Session, is_saturated, socket_text, send_self, emit_if, publish,
}

-- `matches!(auth, AuthKind::Private | AuthKind::Presence)`
unfoldable pub takes_client_events : AuthKind → Bool
takes_client_events private = true
takes_client_events presence = true
takes_client_events _ = false

pub data Gate : Type 0 where
  rejected : Str → Gate
  dropped passed : Gate

module _ {Value Mailbox : Type 0} (p : Platform Value Mailbox) (c : Config Mailbox) where
  -- An in-band error 4301.
  unfoldable pub reject : Str → Session p → Session p
  reject message s = send_self p c (client_event_error 4301 message) s

  -- The broadcast and the webhook of an event that passed every gate.
  unfoldable pub relay : Str → Str → Value → Session p → Session p
  relay event channel payload s =
      let user_id = lookup channel s.presence_membership in
      emit_if p c c.app.has_client_event_webhooks
        (WebhookEvent.client_event c.app.id channel event payload (socket_text p c) user_id)
        (publish p c channel (channel_event channel event payload user_id) (some c.socket_id) s)

  -- The rate limit, which takes a token.
  unfoldable pub relay_rated : Moment → Str → Str → Value → Session p → Session p
  unfolding relay reject
  relay_rated t event channel payload s =
      let (admitted, window) = check_at p.f64 t.now s.client_event_rate in
      let s' : Session p = record s { client_event_rate = window } in
      if admitted
      then relay event channel payload s'
      else reject (ascii "Client event rejected due to rate limit") s'

  -- The gates of `client_event` before the rate limit, in their order; they change nothing.
  unfoldable pub gate : Moment → Str → Str → Value → Session p → Gate
  unfolding takes_client_events
  gate t event channel payload s =
      if not c.capabilities.client_events
      then rejected (ascii "Client events are not supported by this protocol version.")
      else if not c.app.client_messages_enabled
      then rejected (ascii "The app does not have client messaging enabled.")
      else if not (takes_client_events (channel_info_of channel).auth)
          || not (contains s.subscribed channel)
      then dropped
      else if ltb c.limits.max_event_name_length (length event)
      then rejected (
          ascii "Event name is too long. Maximum allowed size is "
          ++ decimal c.limits.max_event_name_length
          ++ ascii ".")
      else if ltb c.limits.max_event_payload_bytes (length (p.json.to_string payload))
      then rejected (ascii "Client event rejected - the data is too large")
      else if is_saturated t
      then dropped
      else passed

  unfoldable pub pass : Moment → Str → Str → Value → Session p → Gate → Session p
  unfolding reject relay_rated
  pass t event channel payload s (rejected message) = reject message s
  pass t event channel payload s dropped = s
  pass t event channel payload s passed = relay_rated t event channel payload s

  -- `client_event`
  unfoldable pub client_event : Moment → Str → Str → Value → Session p → Session p
  unfolding pass gate
  client_event t event channel payload s =
      pass t event channel payload s (gate t event channel payload s)
