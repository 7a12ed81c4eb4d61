-- ===== src/Session/Unsubscribe.antt =====
-- src/ws/handler.rs: `unsubscribe` and `on_close`.
use pylon.Prelude.{
  not, ◌&&◌, Option, none, some, List, [], ◌∷◌, if◌then◌else◌, contains, retain, ◌==◌, list_eq,
  nat_eq,
}
use pylon.Maps.Assoc.{remove}
use pylon.Protocol.SocketId.{Str}
use pylon.Protocol.Text.{ascii}
use pylon.Protocol.Event.{member_removed}
use pylon.Protocol.Json.{AuthenticatedUser}
use pylon.Channel.Types.{PresenceLeave}
use pylon.Webhook.Event as WebhookEvent
use pylon.Session.{Platform, Config, Session, emit_if, publish, maybe_emit_count, notify_watchers}

-- `HashSet::remove`
unfoldable pub set_remove : Str → List Str → List Str
set_remove channel set = retain (λ x. not (x == channel)) set

module _ {Value Mailbox : Type 0} (p : Platform Value Mailbox) (c : Config Mailbox) where
  -- What the others are told of a presence leave.
  unfoldable pub announce_leave : Str → Option PresenceLeave → Session p → Session p
  announce_leave channel none s = s
  announce_leave channel (some leave) s =
      if not c.clustered && leave.last_for_user
      then emit_if p c c.app.has_member_removed_webhooks
          (WebhookEvent.member_removed c.app.id channel leave.user_id)
          (publish p c channel (member_removed channel leave.user_id) none s)
      else s

  -- The body of `unsubscribe` for a channel that was held.
  unfoldable pub leave_channel : Str → Session p → Session p
  unfolding announce_leave set_remove
  leave_channel channel s =
      let (out, node) = p.adapter.unsubscribe s.node c.app.id channel c.socket_id in
      maybe_emit_count p c channel out.subscription_count (
        emit_if p c (not c.clustered && out.vacated && c.app.has_channel_vacated_webhooks)
          (WebhookEvent.channel_vacated c.app.id channel)
          (announce_leave channel out.presence (record s {
            subscribed = set_remove channel s.subscribed;
            presence_membership = remove channel s.presence_membership;
            node = node;
          })))

  -- `unsubscribe`
  unfoldable pub unsubscribe : Str → Session p → Session p
  unfolding leave_channel
  unsubscribe channel s = if contains s.subscribed channel then leave_channel channel s else s

  -- The loop over the channels.
  unfoldable pub leave_all : List Str → Session p → Session p
  unfolding unsubscribe
  leave_all [] s = s
  leave_all (channel ∷ rest) s = leave_all rest (unsubscribe channel s)

  unfoldable pub sign_out : Option AuthenticatedUser → Session p → Session p
  sign_out none s = s
  sign_out (some user) s =
      let (out, node) = p.adapter.signout_user s.node c.app.id user.id c.socket_id in
      let s' : Session p = record s { user = none; node = node } in
      if not c.clustered && out.last_for_user
      then notify_watchers p c user.id (ascii "offline") s'
      else s'

  -- `on_close`
  unfoldable pub on_close : Session p → Session p
  unfolding leave_all sign_out
  on_close s =
      let left = leave_all s.subscribed s in
      let out = sign_out left.user left in
      record out { node = p.adapter.unwatch out.node c.app.id c.socket_id }
