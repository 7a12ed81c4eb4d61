-- ===== src/Session/SignedIn.antt =====
-- src/ws/signin.rs, src/ws/handler.rs: the user of a connection is the one that the node has signed in on
-- its socket.
use pylon.Prelude.{
  ◌≡◌, ◌∙◌, sym, ap, subst, Bool, false, not, ◌&&◌, Option, none, some, List, [], ◌∷◌, arith,
  Bool-cases, inl, inr, ◌==◌, list_eq, nat_eq, contains, beq_refl,
}
use pylon.Protocol.SocketId.{Str, socket_id_eq}
use pylon.Protocol.Text.{ascii}
use pylon.Protocol.Command.{ClientCommand}
use pylon.Protocol.Json.{AuthenticatedUser}
use pylon.Channel.Types.{PresenceMember}
use pylon.Adapter.{Membership}
use pylon.Session.{Platform, Config, Moment, Session, send_subscription_error, handle}
use pylon.Session.Verdict.{Verdict, held, refused, own_user_channel, admitted}
use pylon.Session.Subscribe.{subscribe, act}
use pylon.Session.Unsubscribe.{unsubscribe, leave_all, sign_out, on_close}
use pylon.Session.Dispatch.{dispatch}
use pylon.Session.Quiet.{
  Quiet, Quiet-trans, client_event-Quiet, send_self-Quiet, resend-Quiet, replay-Quiet,
  notify_watchers-Quiet,
}
use pylon.Session.Tracked.{booked-subscribed, booked, join-Quiet}
use pylon.Session.Left.{leave_channel-Quiet}
use pylon.Session.Left as Left
use pylon.Session.Reached.{signin-Effect, accept_signin-Quiet, entered_lem, told}
use pylon.Session.Users.{booked-user}

-- Is it this user?
unfoldable pub is_user : Str → Option AuthenticatedUser → Bool
is_user u none = false
is_user u (some x) = x.id == u

module _ {Value Mailbox : Type 0} (p : Platform Value Mailbox) (m : Membership p.adapter)
    (c : Config Mailbox) where
  -- The node has just the connection's user signed in on its socket, or nobody.
  abbrev pub IsBound : Session p → Type 0
  IsBound s = (u : Str) → m.signed_in s.node c.app.id u c.socket_id ≡ is_user u s.user

  Quiet-IsBound : {s t : Session p} → Quiet p m s t → IsBound s → IsBound t
  Quiet-IsBound q v u =
      q.same_signed c.app.id u c.socket_id ∙ v u ∙ ap (is_user u) (sym q.same_user)

  booked-IsBound :
      (channel : Str) (o : Option (PresenceMember Value)) (s : Session p)
      → IsBound s
      → IsBound
          (booked p m c channel o (p.adapter.subscribe s.node c.app.id channel (handle p c) o).1 s)
  booked-IsBound channel o s v u =
      let n = (p.adapter.subscribe s.node c.app.id channel (handle p c) o).1 in
      ap (λ x. m.signed_in x c.app.id u c.socket_id) (booked-subscribed p m c channel o n s).1
      ∙ m.signed-subscribe s.node c.app.id channel (handle p c) o c.app.id u c.socket_id
      ∙ v u
      ∙ ap (is_user u) (sym (booked-user p m c channel o n s))

  act-IsBound :
      (t : Moment) (channel : Str) (s : Session p) (w : Verdict Value)
      → IsBound s
      → IsBound (act p c t channel s w)
  unfolding act send_subscription_error
  act-IsBound t channel s held v = Quiet-IsBound (resend-Quiet p m c channel s) v
  act-IsBound t channel s (refused r) v = Quiet-IsBound (send_self-Quiet p m c _ s) v
  act-IsBound t channel s own_user_channel v = Quiet-IsBound (send_self-Quiet p m c _ s) v
  act-IsBound t channel s (admitted o) v =
      Quiet-IsBound
        (Quiet-trans p m (join-Quiet p m c channel o s) (replay-Quiet p m c t channel _))
        (booked-IsBound channel o s v)

  unsubscribe-IsBound :
      (channel : Str) (s : Session p) → IsBound s → IsBound (unsubscribe p c channel s)
  unfolding unsubscribe Left.booked
  unsubscribe-IsBound channel s v = elim (Bool-cases (contains s.subscribed channel)) [
    | inl e ↦ rw e (
        Quiet-IsBound (leave_channel-Quiet p m c channel s) (λ u.
          m.signed-unsubscribe s.node c.app.id channel c.socket_id c.app.id u c.socket_id ∙ v u))
    | inr e ↦ rw e v
  ]

  accept-IsBound :
      (user : AuthenticatedUser) (s : Session p)
      → s.user ≡ none
      → IsBound s
      → IsBound (record (told p m c user s) { user = some user })
  unfolding is_user
  accept-IsBound user s e v u =
      let (q, f) = accept_signin-Quiet p m c user s in
      let (a, b, j, g) = entered_lem p m c user s in
      q.same_signed c.app.id u c.socket_id
      ∙ g c.app.id u c.socket_id
      ∙ ground (arith, v u, e, beq_refl c.app.id, beq_refl c.socket_id)

  pub dispatch-IsBound :
      (t : Moment) (cmd : ClientCommand Value) (s : Session p)
      → IsBound s
      → IsBound (dispatch p c t cmd s)
  unfolding dispatch subscribe
  dispatch-IsBound t ClientCommand.ping s v = Quiet-IsBound (send_self-Quiet p m c _ s) v
  dispatch-IsBound t (ClientCommand.subscribe channel auth payload) s v =
      act-IsBound t channel s _ v
  dispatch-IsBound t (ClientCommand.unsubscribe channel) s v = unsubscribe-IsBound channel s v
  dispatch-IsBound t (ClientCommand.client_event event channel payload) s v =
      Quiet-IsBound (client_event-Quiet p m c t event channel payload s) v
  dispatch-IsBound t (ClientCommand.signin auth user_data) s v =
      elim (signin-Effect p m c auth user_data s) [
        | inl q ↦ Quiet-IsBound q v
        | inr (user, i, e) ↦
            let (q, f) = accept_signin-Quiet p m c user s in
            subst IsBound (sym (e ∙ f)) (accept-IsBound user s i.unbound v)
      ]
  dispatch-IsBound t (ClientCommand.unknown name) s v = v

  leave_all-IsBound : (l : List Str) (s : Session p) → IsBound s → IsBound (leave_all p c l s)
  unfolding leave_all
  leave_all-IsBound [] s v = v
  leave_all-IsBound (channel ∷ rest) s v =
      leave_all-IsBound rest (unsubscribe p c channel s) (unsubscribe-IsBound channel s v)

  sign_out-signed :
      (o : Option AuthenticatedUser) (s : Session p) (u : Str)
      → m.signed_in s.node c.app.id u c.socket_id ≡ is_user u o
      → m.signed_in (sign_out p c o s).node c.app.id u c.socket_id ≡ false
  unfolding sign_out is_user
  sign_out-signed none s u h = h
  sign_out-signed (some user) s u h =
      let (out, n) = p.adapter.signout_user s.node c.app.id user.id c.socket_id in
      let gone : m.signed_in n c.app.id u c.socket_id ≡ false =
        m.signed-signout_user s.node c.app.id user.id c.socket_id c.app.id u c.socket_id
        ∙ ground (arith, h, beq_refl c.app.id, beq_refl c.socket_id) in
      let told =
        notify_watchers-Quiet p m c user.id (ascii "offline")
          (record s { user = none; node = n }) in
      elim (Bool-cases (not c.clustered && out.last_for_user)) [
        | inl f ↦ rw f (told.same_signed c.app.id u c.socket_id ∙ gone)
        | inr f ↦ rw f gone
      ]

  -- Closing a connection whose user is the node's signs everybody out of its socket.
  pub on_close-signed :
      (s : Session p) (u : Str)
      → IsBound s
      → m.signed_in (on_close p c s).node c.app.id u c.socket_id ≡ false
  unfolding on_close
  on_close-signed s u v =
      let left = leave_all p c s.subscribed s in
      m.signed-unwatch (sign_out p c left.user left).node c.app.id c.socket_id c.app.id u
        c.socket_id
      ∙ sign_out-signed left.user left u (leave_all-IsBound s.subscribed s v u)
