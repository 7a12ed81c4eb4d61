-- ===== src/Session/Quiet.antt =====
-- src/ws: the steps of a handler that leave the connection's own bookkeeping, and the subscriptions and
-- signed-in users of the node, alone: they only send, enqueue and notify.
use pylon.Prelude.{
  ℕ, ◌≡◌, refl, ◌∙◌, Bool, true, false, Option, none, some, List, if◌then◌else◌, Bool-cases, inl,
  inr, ltb, length, list_eq, nat_eq,
}
use pylon.Protocol.SocketId.{Str, SocketId}
use pylon.Protocol.Event.{ServerEvent, subscription_count}
use pylon.Channel.Types.{PresenceJoin, PresenceLeave}
use pylon.Channel.Cache.{CachedEvent}
use pylon.Channel.Kind.{channel_info_of}
use pylon.Channel.Fanout.{Send}
use pylon.Rate.{RateWindow, check_at}
use pylon.Webhook.Event.{WebhookEvent}
use pylon.Adapter.{Membership}
use pylon.Session.{
  Platform, Config, Moment, Session, is_presence, handle, send_self, emit_webhook, emit_if, publish,
  notify_watchers, maybe_emit_count, emit_occupied_if_edge,
}
use pylon.Session.Subscribe.{resend_subscription_succeeded, announce_join, replay_event, replay}
use pylon.Session.Unsubscribe.{announce_leave}
use pylon.Session.ClientEvent.{
  relay, reject, relay_rated, client_event, pass, Gate, rejected, dropped, passed,
}
use pylon.Session.Signin.{fail_signin, capped_watchlist, register_watches, watch_list}

module _ {Value Mailbox : Type 0} (p : Platform Value Mailbox) (m : Membership p.adapter) where
  pub record Quiet (s t : Session p) : Type 0 where
    pub same_subscribed : t.subscribed ≡ s.subscribed
    pub same_user : t.user ≡ s.user
    pub same_membership : t.presence_membership ≡ s.presence_membership
    pub same_joined :
        (app channel : Str) (sid : SocketId)
        → m.joined t.node app channel sid ≡ m.joined s.node app channel sid
    pub same_signed :
        (app u : Str) (sid : SocketId) → m.signed_in t.node app u sid ≡ m.signed_in s.node app u sid

  pub Quiet-refl : (s : Session p) → Quiet s s
  Quiet-refl s = record {
    same_subscribed = refl;
    same_user = refl;
    same_membership = refl;
    same_joined = λ app channel sid. refl;
    same_signed = λ app u sid. refl;
  }

  pub Quiet-trans : {s t u : Session p} → Quiet s t → Quiet t u → Quiet s u
  Quiet-trans q r = record {
    same_subscribed = r.same_subscribed ∙ q.same_subscribed;
    same_user = r.same_user ∙ q.same_user;
    same_membership = r.same_membership ∙ q.same_membership;
    same_joined = λ app channel sid. r.same_joined app channel sid ∙ q.same_joined app channel sid;
    same_signed = λ app u sid. r.same_signed app u sid ∙ q.same_signed app u sid;
  }

  -- Another node with the same subscriptions, more frames sent, more triggers enqueued.
  pub Quiet-node :
      (s : Session p) (n : p.adapter.Node) (sent : List (Send Value Mailbox))
      (hooks : List (WebhookEvent Value)) (window : RateWindow p.f64)
      → ((app channel : Str) (sid : SocketId)
          → m.joined n app channel sid ≡ m.joined s.node app channel sid)
      → ((app u : Str) (sid : SocketId) → m.signed_in n app u sid ≡ m.signed_in s.node app u sid)
      → Quiet s (record s { node = n; sent = sent; hooks = hooks; client_event_rate = window })
  Quiet-node s n sent hooks window h h' = record {
    same_subscribed = refl;
    same_user = refl;
    same_membership = refl;
    same_joined = h;
    same_signed = h';
  }

  pub if-Quiet :
      (b : Bool) (s : Session p) {t u : Session p}
      → Quiet s t
      → Quiet s u
      → Quiet s (if b then t else u)
  if-Quiet true s q r = q
  if-Quiet false s q r = r

  module _ (c : Config Mailbox) where
    pub send_self-Quiet : (e : ServerEvent Value) (s : Session p) → Quiet s (send_self p c e s)
    unfolding send_self
    send_self-Quiet e s = Quiet-node s _ _ _ _ (λ app channel sid. refl) (λ app u sid. refl)

    pub emit_if-Quiet :
        (b : Bool) (e : WebhookEvent Value) (s : Session p) → Quiet s (emit_if p c b e s)
    unfolding emit_if emit_webhook
    emit_if-Quiet b e s =
        if-Quiet b s (Quiet-node s _ _ _ _ (λ app channel sid. refl) (λ app u sid. refl))
          (Quiet-refl s)

    pub publish-Quiet :
        (channel : Str) (e : ServerEvent Value) (except : Option SocketId) (s : Session p)
        → Quiet s (publish p c channel e except s)
    unfolding publish
    publish-Quiet channel e except s =
        Quiet-node s _ _ _ _ (m.joined-broadcast s.node c.app.id channel e except)
          (m.signed-broadcast s.node c.app.id channel e except)

    pub notify_watchers-Quiet :
        (user name : Str) (s : Session p) → Quiet s (notify_watchers p c user name s)
    unfolding notify_watchers
    notify_watchers-Quiet user name s =
        Quiet-node s _ _ _ _ (λ app channel sid. refl) (λ app u sid. refl)

    pub maybe_emit_count-Quiet :
        (channel : Str) (count : ℕ) (s : Session p) → Quiet s (maybe_emit_count p c channel count s)
    unfolding maybe_emit_count is_presence
    maybe_emit_count-Quiet channel count s = if-Quiet c.clustered s (Quiet-refl s) (
        if-Quiet (is_presence (channel_info_of channel).auth) s (Quiet-refl s) (
          if-Quiet c.app.subscription_count_enabled s
            (Quiet-trans (publish-Quiet channel (subscription_count channel count) none s)
              (emit_if-Quiet _ _ _))
            (Quiet-refl s)))

    pub emit_occupied_if_edge-Quiet :
        (channel : Str) (b : Bool) (s : Session p) → Quiet s (emit_occupied_if_edge p c channel b s)
    unfolding emit_occupied_if_edge
    emit_occupied_if_edge-Quiet channel b s =
        if-Quiet c.clustered s (Quiet-refl s) (emit_if-Quiet _ _ s)

    pub resend-Quiet :
        (channel : Str) (s : Session p) → Quiet s (resend_subscription_succeeded p c channel s)
    unfolding resend_subscription_succeeded
    resend-Quiet channel s =
        if-Quiet _ s
          (Quiet-node s _ _ _ _ (m.joined-resend_presence_ack s.node c.app.id channel c.mailbox)
            (m.signed-resend_presence_ack s.node c.app.id channel c.mailbox))
          (send_self-Quiet _ s)

    pub announce_join-Quiet :
        (channel : Str) (j : Option (PresenceJoin Value)) (s : Session p)
        → Quiet s (announce_join p c channel j s)
    unfolding announce_join
    announce_join-Quiet channel none s = Quiet-refl s
    announce_join-Quiet channel (some j) s =
        let told = send_self-Quiet _ s in
        if-Quiet c.clustered s (Quiet-refl s) (
          if-Quiet j.first_for_user s
            (Quiet-trans told (Quiet-trans (publish-Quiet _ _ _ _) (emit_if-Quiet _ _ _))) told)

    replay_event-Quiet :
        (channel : Str) (o : Option CachedEvent) (s : Session p)
        → Quiet s (replay_event p c channel o s)
    unfolding replay_event
    replay_event-Quiet channel none s = Quiet-trans (emit_if-Quiet _ _ s) (send_self-Quiet _ _)
    replay_event-Quiet channel (some e) s = send_self-Quiet _ s

    pub replay-Quiet :
        (t : Moment) (channel : Str) (s : Session p) → Quiet s (replay p c t channel s)
    unfolding replay
    replay-Quiet t channel s = if-Quiet _ s (replay_event-Quiet channel _ s) (Quiet-refl s)

    pub announce_leave-Quiet :
        (channel : Str) (l : Option PresenceLeave) (s : Session p)
        → Quiet s (announce_leave p c channel l s)
    unfolding announce_leave
    announce_leave-Quiet channel none s = Quiet-refl s
    announce_leave-Quiet channel (some l) s =
        if-Quiet _ s (Quiet-trans (publish-Quiet _ _ _ s) (emit_if-Quiet _ _ _)) (Quiet-refl s)

    relay_rated-Quiet :
        (t : Moment) (event channel : Str) (v : Value) (s : Session p)
        → Quiet s (relay_rated p c t event channel v s)
    unfolding relay_rated relay reject
    relay_rated-Quiet t event channel v s =
        let rated =
          Quiet-node s s.node s.sent s.hooks (check_at p.f64 t.now s.client_event_rate).1
            (λ app channel sid. refl) (λ app u sid. refl) in
        if-Quiet _ s (Quiet-trans rated (Quiet-trans (publish-Quiet _ _ _ _) (emit_if-Quiet _ _ _)))
          (Quiet-trans rated (send_self-Quiet _ _))

    pass-Quiet :
        (t : Moment) (event channel : Str) (v : Value) (s : Session p) (g : Gate)
        → Quiet s (pass p c t event channel v s g)
    unfolding pass reject
    pass-Quiet t event channel v s (rejected message) = send_self-Quiet _ s
    pass-Quiet t event channel v s dropped = Quiet-refl s
    pass-Quiet t event channel v s passed = relay_rated-Quiet t event channel v s

    pub client_event-Quiet :
        (t : Moment) (event channel : Str) (v : Value) (s : Session p)
        → Quiet s (client_event p c t event channel v s)
    unfolding client_event
    client_event-Quiet t event channel v s = pass-Quiet t event channel v s _

    pub fail_signin-Quiet : (message : Str) (s : Session p) → Quiet s (fail_signin p c message s)
    unfolding fail_signin
    fail_signin-Quiet message s = Quiet-trans (send_self-Quiet _ s) (send_self-Quiet _ _)

    capped_watchlist-Quiet :
        (watchlist : List Str) (s : Session p) → Quiet s (capped_watchlist p c watchlist s).1
    unfolding capped_watchlist
    capped_watchlist-Quiet watchlist s =
        elim (Bool-cases (ltb c.limits.max_watchlist_size (length watchlist))) [
          | inl e ↦ rw e (send_self-Quiet _ s)
          | inr e ↦ rw e (Quiet-refl s)
        ]

    register_watches-Quiet : (us : List Str) (s : Session p) → Quiet s (register_watches p c us s)
    unfolding register_watches
    register_watches-Quiet us s =
        let watched =
          Quiet-node s (p.adapter.watch s.node c.app.id (handle p c) us).1 s.sent s.hooks
            s.client_event_rate (m.joined-watch s.node c.app.id (handle p c) us)
            (m.signed-watch s.node c.app.id (handle p c) us) in
        if-Quiet _ s (Quiet-refl s)
          (if-Quiet _ s (Quiet-trans watched (send_self-Quiet _ _)) watched)

    pub watch_list-Quiet : (us : List Str) (s : Session p) → Quiet s (watch_list p c us s)
    unfolding watch_list
    watch_list-Quiet us s =
        if-Quiet _ s (Quiet-trans (capped_watchlist-Quiet us s) (register_watches-Quiet _ _))
          (Quiet-refl s)
