-- ===== src/Session/Reached.antt =====
-- src/ws/handler.rs, src/ws/signin.rs: what a signin does, and the connection's bookkeeping after every
-- command.
use pylon.Prelude.{
  ◌≡◌, refl, ◌∙◌, sym, subst, true, ◌&&◌, ◌||◌, none, some, arith, Option-cases, Bool-cases, inl,
  inr, ◌⊎◌, list_eq, nat_eq, not,
}
use pylon.Prelude.Results.{ok, Result-cases}
use pylon.Protocol.SocketId.{Str, SocketId, socket_id_eq}
use pylon.Protocol.Text.{ascii}
use pylon.Protocol.Event.{signin_success}
use pylon.Protocol.Command.{ClientCommand}
use pylon.Protocol.Json.{AuthenticatedUser, parse_user_data}
use pylon.Auth.{verify_user}
use pylon.Adapter.{Membership, same_subscription}
use pylon.Session.{Platform, Config, Moment, Session, socket_text, handle}
use pylon.Session.Signin.{signin, signin_first, signin_again, signin_verified, accept_signin}
use pylon.Session.Dispatch.{dispatch}
use pylon.Session.Quiet.{
  Quiet, Quiet-trans, if-Quiet, send_self-Quiet, notify_watchers-Quiet, fail_signin-Quiet,
  watch_list-Quiet, client_event-Quiet,
}
use pylon.Session.Tracked.{IsTracked, Quiet-IsTracked, subscribe-IsTracked}
use pylon.Session.Left.{unsubscribe-IsTracked}

module _ {Value Mailbox : Type 0} (p : Platform Value Mailbox) (m : Membership p.adapter)
    (c : Config Mailbox) where
  -- The session on the node where the user is signed in.
  pub entered : AuthenticatedUser → Session p → Session p
  entered user s = record s {
    node = (p.adapter.signin_user s.node c.app.id user.id (handle p c)).1;
  }

  -- A session before its user is set.
  pub told : AuthenticatedUser → Session p → Session p
  told user s = record (accept_signin p c user s) { user = s.user }

  pub accept_signin-Quiet :
      (user : AuthenticatedUser) (s : Session p)
      → Quiet p m (entered user s) (told user s)
        × (accept_signin p c user s ≡ record (told user s) { user = some user })
  unfolding entered told accept_signin
  accept_signin-Quiet user s =
      let (out, n) = p.adapter.signin_user s.node c.app.id user.id (handle p c) in
      let s0 : Session p = record s { node = n } in
      let acked = send_self-Quiet p m c (signin_success user.user_data_raw) s0 in
      let notified =
        if-Quiet p m (not c.clustered && out.first_for_user) s0
          (Quiet-trans p m acked (notify_watchers-Quiet p m c user.id (ascii "online") _)) acked in
      let watched = Quiet-trans p m notified (watch_list-Quiet p m c user.watchlist _) in
      (
        record {
          same_subscribed = watched.same_subscribed;
          same_user = refl;
          same_membership = watched.same_membership;
          same_joined = watched.same_joined;
          same_signed = watched.same_signed;
        },
        refl,
      )

  -- Signing a user in leaves the session and the subscriptions alone.
  pub entered_lem :
      (user : AuthenticatedUser) (s : Session p)
      → ((entered user s).subscribed ≡ s.subscribed)
        × ((entered user s).user ≡ s.user)
        × ((app channel : Str) (sid : SocketId)
            → m.joined (entered user s).node app channel sid ≡ m.joined s.node app channel sid)
        × ((app u : Str) (sid : SocketId)
            → m.signed_in (entered user s).node app u sid ≡ (
                same_subscription c.app.id user.id c.socket_id app u sid
                || m.signed_in s.node app u sid))
  unfolding entered
  entered_lem user s = (
    refl,
    refl,
    m.joined-signin_user s.node c.app.id user.id (handle p c),
    m.signed-signin_user s.node c.app.id user.id (handle p c),
  )

  entered-IsTracked :
      (user : AuthenticatedUser) (s : Session p)
      → IsTracked p m c s
      → IsTracked p m c (entered user s)
  unfolding entered
  entered-IsTracked user s v = record {
    distinct = v.distinct;
    tracked = λ channel.
        m.joined-signin_user s.node c.app.id user.id (handle p c) c.app.id channel c.socket_id
        ∙ v.tracked channel;
    member_kept = v.member_kept;
    capped = v.capped;
  }

  -- What a signin that took effect had shown.
  pub record Identified (auth user_data : Str) (s : Session p) (user : AuthenticatedUser)
      : Type 0 where
    pub capable : c.capabilities.user_auth ≡ true
    pub unbound : s.user ≡ none
    pub verified :
        verify_user p.hmac c.app.key c.app.secret (socket_text p c) user_data auth ≡ ok tt
    pub parsed : parse_user_data p.json user_data ≡ ok user

  abbrev pub Effect : Str → Str → Session p → Session p → Type 0
  Effect auth user_data s t =
      Quiet p m s t
      ⊎ ((user : AuthenticatedUser) × Identified auth user_data s user
          × (t ≡ accept_signin p c user s))

  arrive :
      {auth user_data : Str} {s t u : Session p}
      → t ≡ u
      → Effect auth user_data s u
      → Effect auth user_data s t
  arrive {auth} {user_data} {s} e h = subst (Effect auth user_data s) (sym e) h

  signin_first-Effect :
      (auth user_data : Str) (s : Session p)
      → c.capabilities.user_auth ≡ true
      → s.user ≡ none
      → Effect auth user_data s (signin_first p c auth user_data s)
  unfolding signin_first signin_verified
  signin_first-Effect auth user_data s able new =
      elim (Result-cases
        (verify_user p.hmac c.app.key c.app.secret (socket_text p c) user_data auth)) [
          | inr (x, e) ↦
              arrive (ground arith)
                (inl (fail_signin-Quiet p m c (ascii "Connection not authorized.") s))
          | inl (u, e) ↦ elim (Result-cases (parse_user_data p.json user_data)) [
            | inr (x, f) ↦ arrive (ground arith) (
                inl (
                  fail_signin-Quiet p m c
                    (ascii "The returned user data must contain the \"id\" field.") s))
            | inl (user, f) ↦ arrive (ground arith) (
                inr
                  (user, record { capable = able; unbound = new; verified = e; parsed = f }, refl))
          ]
        ]

  signin_again-Effect :
      (auth user_data : Str) (s : Session p) (existing : AuthenticatedUser)
      → Effect auth user_data s (signin_again p c existing user_data s)
  unfolding signin_again
  signin_again-Effect auth user_data s existing =
      inl (if-Quiet p m _ s (send_self-Quiet p m c _ s) (fail_signin-Quiet p m c _ s))

  pub signin-Effect :
      (auth user_data : Str) (s : Session p) → Effect auth user_data s (signin p c auth user_data s)
  unfolding signin
  signin-Effect auth user_data s = elim (Bool-cases c.capabilities.user_auth) [
    | inr e ↦
        arrive (ground arith) (inl (fail_signin-Quiet p m c (ascii "Connection not authorized.") s))
    | inl e ↦ elim (Option-cases s.user) [
      | inl f ↦ arrive (ground arith) (signin_first-Effect auth user_data s e f)
      | inr (existing, f) ↦ arrive (ground arith) (signin_again-Effect auth user_data s existing)
    ]
  ]

  signin-IsTracked :
      (auth user_data : Str) (s : Session p)
      → IsTracked p m c s
      → IsTracked p m c (signin p c auth user_data s)
  signin-IsTracked auth user_data s v = elim (signin-Effect auth user_data s) [
    | inl q ↦ Quiet-IsTracked p m c q v
    | inr (user, i, e) ↦
        let (q, f) = accept_signin-Quiet user s in
        let w = Quiet-IsTracked p m c q (entered-IsTracked user s v) in
        subst (IsTracked p m c) (sym (e ∙ f)) (record {
          distinct = w.distinct;
          tracked = w.tracked;
          member_kept = w.member_kept;
          capped = w.capped;
        })
  ]

  -- Every command keeps the connection's bookkeeping in agreement with the node: the set of channels
  -- holds each once and just those that the node has joined the socket to, a presence member is
  -- recorded for just the presence channels among them, and their count is at most the cap, if that is
  -- not zero.
  pub dispatch-IsTracked :
      (t : Moment) (cmd : ClientCommand Value) (s : Session p)
      → IsTracked p m c s
      → IsTracked p m c (dispatch p c t cmd s)
  unfolding dispatch
  dispatch-IsTracked t ClientCommand.ping s v = Quiet-IsTracked p m c (send_self-Quiet p m c _ s) v
  dispatch-IsTracked t (ClientCommand.subscribe channel auth payload) s v =
      subscribe-IsTracked p m c t channel auth payload s v
  dispatch-IsTracked t (ClientCommand.unsubscribe channel) s v =
      unsubscribe-IsTracked p m c channel s v
  dispatch-IsTracked t (ClientCommand.client_event event channel payload) s v =
      Quiet-IsTracked p m c (client_event-Quiet p m c t event channel payload s) v
  dispatch-IsTracked t (ClientCommand.signin auth user_data) s v =
      signin-IsTracked auth user_data s v
  dispatch-IsTracked t (ClientCommand.unknown name) s v = v
