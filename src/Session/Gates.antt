-- ===== src/Session/Gates.antt =====
-- src/ws: what a command must have shown to subscribe, to sign in and to be relayed.
use pylon.Prelude.{
  ◌≡◌, refl, ◌∙◌, subst, ap, true, false, Option, arith, inl, inr, list_eq, nat_eq, contains,
  list_beq_iff, beq_refl,
}
use pylon.Protocol.SocketId.{Str, socket_id_eq}
use pylon.Protocol.Command.{ClientCommand}
use pylon.Channel.Types.{PresenceMember}
use pylon.Adapter.{Membership}
use pylon.Session.{Platform, Config, Moment, Session, send_subscription_error, handle}
use pylon.Session.Verdict.{Verdict, verdict, held, refused, own_user_channel, admitted}
use pylon.Session.Subscribe.{subscribe, act}
use pylon.Session.Dispatch.{dispatch}
use pylon.Session.Quiet.{
  Quiet, Quiet-trans, client_event-Quiet, send_self-Quiet, resend-Quiet, replay-Quiet,
}
use pylon.Session.Authorised.{Admission, verdict-Admission}
use pylon.Session.Tracked.{booked-subscribed, join-Quiet, contains-set_insert}
use pylon.Session.Left.{unsubscribe-contains}
use pylon.Session.Reached.{signin-Effect, accept_signin-Quiet, entered_lem}

module _ {Value Mailbox : Type 0} (p : Platform Value Mailbox) (m : Membership p.adapter)
    (c : Config Mailbox) where
  -- What a subscribe to a channel has shown.
  abbrev pub Shown : Moment → ClientCommand Value → Session p → Str → Type 0
  Shown t cmd s channel =
      (auth : Option Str) × (payload : Option Str) × (o : Option (PresenceMember Value)) × (cmd
        ≡ ClientCommand.subscribe channel auth payload)
      × Admission p c t channel auth payload s o

  quiet_new :
      {A : Type 0} {s t : Session p} (channel : Str)
      → Quiet p m s t
      → contains s.subscribed channel ≡ false
      → contains t.subscribed channel ≡ true
      → A
  quiet_new channel q old new = absurd (ground (arith, q.same_subscribed))

  act_new :
      (t : Moment) (name : Str) (auth payload : Option Str) (s : Session p) (v : Verdict Value)
      (channel : Str)
      → verdict p c t name auth payload s ≡ v
      → contains s.subscribed channel ≡ false
      → contains (act p c t name s v).subscribed channel ≡ true
      → Shown t (ClientCommand.subscribe name auth payload) s channel
  unfolding act send_subscription_error
  act_new t name auth payload s held channel e old new =
      quiet_new channel (resend-Quiet p m c name s) old new
  act_new t name auth payload s (refused r) channel e old new =
      quiet_new channel (send_self-Quiet p m c _ s) old new
  act_new t name auth payload s own_user_channel channel e old new =
      quiet_new channel (send_self-Quiet p m c _ s) old new
  act_new t name auth payload s (admitted o) channel e old new =
      let n = (p.adapter.subscribe s.node c.app.id name (handle p c) o).1 in
      let q = Quiet-trans p m (join-Quiet p m c name o s) (replay-Quiet p m c t name _) in
      let same : name ≡ channel = ground (
        arith,
        q.same_subscribed,
        (booked-subscribed p m c name o n s).0,
        contains-set_insert p m c name channel s.subscribed,
        list_beq_iff name channel,
      ) in
      (
        auth,
        payload,
        o,
        ap (λ x. ClientCommand.subscribe x auth payload) same,
        subst (λ x. Admission p c t x auth payload s o) same
            (verdict-Admission p c t name auth payload s o e),
      )

  -- A connection comes to hold a channel only by a subscribe to that channel for which every guard held:
  -- the channel is new to it and within its cap; the server is not saturated; the name is valid and
  -- neither reserved nor a user's; the protocol version has cache, encrypted or presence channels, where
  -- it is one; and the channel's kind was shown its token, over its data for a presence channel, whose
  -- member parses and is within the limits and the channel's cap.
  pub dispatch-Shown :
      (t : Moment) (cmd : ClientCommand Value) (s : Session p) (channel : Str)
      → contains s.subscribed channel ≡ false
      → contains (dispatch p c t cmd s).subscribed channel ≡ true
      → Shown t cmd s channel
  unfolding dispatch subscribe
  dispatch-Shown t ClientCommand.ping s channel old new =
      quiet_new channel (send_self-Quiet p m c _ s) old new
  dispatch-Shown t (ClientCommand.subscribe name auth payload) s channel old new =
      act_new t name auth payload s _ channel refl old new
  dispatch-Shown t (ClientCommand.unsubscribe name) s channel old new =
      absurd (ground (arith, unsubscribe-contains p m c name channel s))
  dispatch-Shown t (ClientCommand.client_event event name payload) s channel old new =
      quiet_new channel (client_event-Quiet p m c t event name payload s) old new
  dispatch-Shown t (ClientCommand.signin auth user_data) s channel old new =
      elim (signin-Effect p m c auth user_data s) [
        | inl q ↦ absurd (ground (arith, q.same_subscribed))
        | inr (user, i, e) ↦
            let (q, f) = accept_signin-Quiet p m c user s in
            let g = ap (λ x. contains x.subscribed channel) (e ∙ f) in
            absurd (ground (arith, q.same_subscribed, (entered_lem p m c user s).0))
      ]
  dispatch-Shown t (ClientCommand.unknown name) s channel old new = absurd (ground arith)

  -- A subscribe that the guards admit succeeds: the connection holds the channel, and the node has
  -- joined its socket to it.
  pub dispatch-holds :
      (t : Moment) (channel : Str) (auth payload : Option Str) (s : Session p)
      (o : Option (PresenceMember Value))
      → verdict p c t channel auth payload s ≡ admitted o
      → let s' = dispatch p c t (ClientCommand.subscribe channel auth payload) s in
        (contains s'.subscribed channel ≡ true)
        × (m.joined s'.node c.app.id channel c.socket_id ≡ true)
  unfolding dispatch subscribe act
  dispatch-holds t channel auth payload s o h =
      let n = (p.adapter.subscribe s.node c.app.id channel (handle p c) o).1 in
      let q = Quiet-trans p m (join-Quiet p m c channel o s) (replay-Quiet p m c t channel _) in
      let (e, f) = booked-subscribed p m c channel o n s in
      rw h (
        ap (λ l. contains l channel) (q.same_subscribed ∙ e)
            ∙ ground
                (arith, contains-set_insert p m c channel channel s.subscribed, beq_refl channel),
        q.same_joined c.app.id channel c.socket_id
            ∙ ap (λ x. m.joined x c.app.id channel c.socket_id) f
            ∙ ground (
              arith,
              m.joined-subscribe s.node c.app.id channel (handle p c) o c.app.id channel
                  c.socket_id,
              beq_refl c.app.id,
              beq_refl channel,
              beq_refl c.socket_id,
            ),
      )
