-- ===== src/Session/Subscribe.antt =====
-- src/ws/subscribe.rs: `pusher:subscribe`, what the handler does once its guards have decided.
use pylon.Prelude.{
  not, ◌&&◌, Option, none, some, List, [], ◌∷◌, ◌++◌, if◌then◌else◌, contains, list_eq, nat_eq,
}
use pylon.Maps.Assoc.{insert}
use pylon.Protocol.SocketId.{Str}
use pylon.Protocol.Event.{subscription_succeeded, channel_event, member_added, cache_miss, raw}
use pylon.Channel.Types.{PresenceMember, PresenceJoin}
use pylon.Channel.Cache.{CachedEvent}
use pylon.Channel.Kind.{channel_info_of}
use pylon.Webhook.Event as WebhookEvent
use pylon.Session.{
  Platform, Config, Moment, Session, is_presence, handle, hand_over, send_self, emit_if, publish,
  maybe_emit_count, emit_occupied_if_edge, send_subscription_error,
}
use pylon.Session.Verdict.{Verdict, verdict, held, refused, own_user_channel, admitted}

-- `HashSet::insert`
unfoldable pub set_insert : Str → List Str → List Str
set_insert channel set = if contains set channel then set else set ++ channel ∷ []

module _ {Value Mailbox : Type 0} (p : Platform Value Mailbox) (c : Config Mailbox) where
  -- `resend_subscription_succeeded`
  unfoldable pub resend_subscription_succeeded : Str → Session p → Session p
  unfolding is_presence
  resend_subscription_succeeded channel s =
      let (frames, node) = p.adapter.resend_presence_ack s.node c.app.id channel c.mailbox in
      if is_presence (channel_info_of channel).auth
      then hand_over p c frames (record s { node = node })
      else send_self p c (subscription_succeeded channel none) s

  -- What a presence join is told to the joiner and to the others.
  unfoldable pub announce_join : Str → Option (PresenceJoin Value) → Session p → Session p
  announce_join channel none s = s
  announce_join channel (some join) s =
      let told = send_self p c (raw join.roster_frame) s in
      if c.clustered
      then s
      else if join.first_for_user
      then emit_if p c c.app.has_member_added_webhooks
          (WebhookEvent.member_added c.app.id channel join.member.user_id)
          (publish p c channel (member_added channel join.member.user_id join.member.user_info)
            (some c.socket_id) told)
      else told

  -- What is recorded of a join, and the joiner's acknowledgement.
  unfoldable pub record_join :
      Str → Option (PresenceMember Value) → Option (PresenceJoin Value) → Session p → Session p
  unfolding announce_join set_insert
  record_join channel none join s =
      send_self p c (subscription_succeeded channel none)
        (record s { subscribed = set_insert channel s.subscribed })
  record_join channel (some m) join s = announce_join channel join (record s {
    subscribed = set_insert channel s.subscribed;
    presence_membership = insert channel m.user_id s.presence_membership;
  })

  -- The call of the adapter and what follows it.
  unfoldable pub join : Str → Option (PresenceMember Value) → Session p → Session p
  unfolding record_join
  join channel member s =
      let (out, node) = p.adapter.subscribe s.node c.app.id channel (handle p c) member in
      emit_occupied_if_edge p c channel out.occupied (
        maybe_emit_count p c channel out.subscription_count
          (record_join channel member out.presence (record s { node = node })))

  unfoldable pub replay_event : Str → Option CachedEvent → Session p → Session p
  replay_event channel (some cached) s =
      send_self p c (channel_event channel cached.event (p.json.string cached.payload) none) s
  replay_event channel none s =
      send_self p c (cache_miss channel)
        (emit_if p c c.app.has_cache_miss_webhooks (WebhookEvent.cache_miss c.app.id channel) s)

  -- A cache channel's last event, for the new subscriber only.
  unfoldable pub replay : Moment → Str → Session p → Session p
  unfolding replay_event
  replay t channel s =
      if not c.clustered && (channel_info_of channel).cache && contains s.subscribed channel
      then replay_event channel (p.adapter.cache_get t.now s.node c.app.id channel) s
      else s

  unfoldable pub act : Moment → Str → Session p → Verdict Value → Session p
  unfolding resend_subscription_succeeded join replay
  act t channel s held = resend_subscription_succeeded channel s
  act t channel s (refused r) = send_subscription_error p c channel r.error_type r.error r.status s
  act t channel s own_user_channel = send_self p c (subscription_succeeded channel none) s
  act t channel s (admitted member) = replay t channel (join channel member s)

  -- `subscribe`
  unfoldable pub subscribe : Moment → Str → Option Str → Option Str → Session p → Session p
  unfolding act verdict
  subscribe t channel auth payload s = act t channel s (verdict p c t channel auth payload s)
