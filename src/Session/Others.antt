-- ===== src/Session/Others.antt =====
-- src/ws: what a connection's commands do to the subscriptions and users of other sockets.
use pylon.Prelude.{
  ◌≡◌, refl, ◌∙◌, ap, false, ◌&&◌, arith, Bool-cases, inl, inr, ◌==◌, list_eq, nat_eq, contains,
}
use pylon.Protocol.SocketId.{Str, SocketId, socket_id_eq}
use pylon.Protocol.Command.{ClientCommand}
use pylon.Adapter.{Membership}
use pylon.Session.{Platform, Config, Moment, Session, send_subscription_error, handle}
use pylon.Session.Verdict.{Verdict, held, refused, own_user_channel, admitted}
use pylon.Session.Subscribe.{subscribe, act}
use pylon.Session.Unsubscribe.{unsubscribe}
use pylon.Session.Dispatch.{dispatch}
use pylon.Session.Signin.{signin}
use pylon.Session.Quiet.{
  Quiet, Quiet-trans, client_event-Quiet, send_self-Quiet, resend-Quiet, replay-Quiet,
}
use pylon.Session.Tracked.{booked-subscribed, join-Quiet}
use pylon.Session.Left.{leave_channel-Quiet}
use pylon.Session.Left as Left
use pylon.Session.Reached.{signin-Effect, accept_signin-Quiet, entered_lem}

module _ {Value Mailbox : Type 0} (p : Platform Value Mailbox) (m : Membership p.adapter)
    (c : Config Mailbox) (app name : Str) (sid : SocketId) where
  -- What both nodes hold for the socket under the name, of a channel or of a user.
  abbrev Same : p.adapter.Node → p.adapter.Node → Type 0
  Same n n' =
      (m.joined n app name sid ≡ m.joined n' app name sid)
      × (m.signed_in n app name sid ≡ m.signed_in n' app name sid)

  Same-trans : (a b d : p.adapter.Node) → Same a b → Same b d → Same a d
  Same-trans a b d (e, f) (g, h) = (e ∙ g, f ∙ h)

  Quiet-Same : {s t : Session p} → Quiet p m s t → Same t.node s.node
  Quiet-Same q = (q.same_joined app name sid, q.same_signed app name sid)

  act-others :
      (t : Moment) (channel : Str) (s : Session p) (v : Verdict Value)
      → (c.app.id == app && c.socket_id == sid) ≡ false
      → Same (act p c t channel s v).node s.node
  unfolding act send_subscription_error
  act-others t channel s held h = Quiet-Same (resend-Quiet p m c channel s)
  act-others t channel s (refused r) h = Quiet-Same (send_self-Quiet p m c _ s)
  act-others t channel s own_user_channel h = Quiet-Same (send_self-Quiet p m c _ s)
  act-others t channel s (admitted o) h =
      let n = (p.adapter.subscribe s.node c.app.id channel (handle p c) o).1 in
      let b = (booked-subscribed p m c channel o n s).1 in
      Same-trans _ _ _
        (Quiet-Same
          (Quiet-trans p m (join-Quiet p m c channel o s) (replay-Quiet p m c t channel _)))
        (
          ap (λ x. m.joined x app name sid) b
              ∙ ground
                  (arith, m.joined-subscribe s.node c.app.id channel (handle p c) o app name sid),
          ap (λ x. m.signed_in x app name sid) b
              ∙ m.signed-subscribe s.node c.app.id channel (handle p c) o app name sid,
        )

  unsubscribe-others :
      (channel : Str) (s : Session p)
      → (c.app.id == app && c.socket_id == sid) ≡ false
      → Same (unsubscribe p c channel s).node s.node
  unfolding unsubscribe Left.booked
  unsubscribe-others channel s h = elim (Bool-cases (contains s.subscribed channel)) [
    | inl e ↦ rw e (
        Same-trans _ _ _ (Quiet-Same (leave_channel-Quiet p m c channel s)) (
          ground (arith, m.joined-unsubscribe s.node c.app.id channel c.socket_id app name sid),
          m.signed-unsubscribe s.node c.app.id channel c.socket_id app name sid,
        ))
    | inr e ↦ rw e (refl, refl)
  ]

  signin-others :
      (auth user_data : Str) (s : Session p)
      → (c.app.id == app && c.socket_id == sid) ≡ false
      → Same (signin p c auth user_data s).node s.node
  signin-others auth user_data s h = elim (signin-Effect p m c auth user_data s) [
    | inl q ↦ Quiet-Same q
    | inr (user, i, e) ↦
        let (q, f) = accept_signin-Quiet p m c user s in
        let (a, b, j, g) = entered_lem p m c user s in
        let (x, y) = Quiet-Same q in
        (
          ap (λ x. m.joined x.node app name sid) (e ∙ f) ∙ x ∙ j app name sid,
          ap (λ x. m.signed_in x.node app name sid) (e ∙ f) ∙ y ∙ ground (arith, g app name sid),
        )
  ]

  -- No command of a connection changes which channels another socket, or a socket of another app, is
  -- subscribed to on the node, or which users are signed in on it.
  pub dispatch-others :
      (t : Moment) (cmd : ClientCommand Value) (s : Session p)
      → (c.app.id == app && c.socket_id == sid) ≡ false
      → (m.joined (dispatch p c t cmd s).node app name sid ≡ m.joined s.node app name sid)
        × (m.signed_in (dispatch p c t cmd s).node app name sid ≡ m.signed_in s.node app name sid)
  unfolding dispatch subscribe
  dispatch-others t ClientCommand.ping s h = Quiet-Same (send_self-Quiet p m c _ s)
  dispatch-others t (ClientCommand.subscribe channel auth payload) s h = act-others t channel s _ h
  dispatch-others t (ClientCommand.unsubscribe channel) s h = unsubscribe-others channel s h
  dispatch-others t (ClientCommand.client_event event channel payload) s h =
      Quiet-Same (client_event-Quiet p m c t event channel payload s)
  dispatch-others t (ClientCommand.signin auth user_data) s h = signin-others auth user_data s h
  dispatch-others t (ClientCommand.unknown raw) s h = (refl, refl)
