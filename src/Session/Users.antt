-- ===== src/Session/Users.antt =====
-- src/ws/signin.rs: who is signed in on a connection.
use pylon.Prelude.{◌≡◌, refl, ◌∙◌, ap, none, some, inl, inr, ◌⊎◌}
use pylon.Protocol.SocketId.{Str}
use pylon.Protocol.Command.{ClientCommand}
use pylon.Protocol.Json.{AuthenticatedUser}
use pylon.Adapter.{Membership}
use pylon.Session.{Platform, Config, Moment, Session, send_subscription_error}
use pylon.Session.Verdict.{Verdict, held, refused, own_user_channel, admitted}
use pylon.Session.Subscribe.{subscribe, act}
use pylon.Session.Dispatch.{dispatch}
use pylon.Session.Quiet.{
  Quiet-trans, client_event-Quiet, send_self-Quiet, resend-Quiet, replay-Quiet,
}
use pylon.Session.Tracked.{booked, join-Quiet}
use pylon.Session.Left.{unsubscribe-user}
use pylon.Session.Reached.{Identified, signin-Effect, accept_signin-Quiet}

module _ {Value Mailbox : Type 0} (p : Platform Value Mailbox) (m : Membership p.adapter)
    (c : Config Mailbox) where
  pub booked-user :
      (channel : Str) (o : _) (n : p.adapter.Node) (s : Session p)
      → (booked p m c channel o n s).user ≡ s.user
  unfolding booked
  booked-user channel none n s = refl
  booked-user channel (some x) n s = refl

  act-user :
      (t : Moment) (channel : Str) (s : Session p) (v : Verdict Value)
      → (act p c t channel s v).user ≡ s.user
  unfolding act send_subscription_error
  act-user t channel s held = (resend-Quiet p m c channel s).same_user
  act-user t channel s (refused r) = (send_self-Quiet p m c _ s).same_user
  act-user t channel s own_user_channel = (send_self-Quiet p m c _ s).same_user
  act-user t channel s (admitted o) =
      (Quiet-trans p m (join-Quiet p m c channel o s) (replay-Quiet p m c t channel _)).same_user
      ∙ booked-user channel o _ s

  -- A command leaves the user of a connection as it was, or it is a signin on a connection without a
  -- user, by a version that has users, whose token verifies for the data; the user is then the one that
  -- the data parses to.
  pub dispatch-Identified :
      (t : Moment) (cmd : ClientCommand Value) (s : Session p)
      → ((dispatch p c t cmd s).user ≡ s.user)
        ⊎ ((auth : Str) × (user_data : Str) × (user : AuthenticatedUser) × (cmd
              ≡ ClientCommand.signin auth user_data)
            × Identified p m c auth user_data s user
            × ((dispatch p c t cmd s).user ≡ some user))
  unfolding dispatch subscribe
  dispatch-Identified t ClientCommand.ping s = inl (send_self-Quiet p m c _ s).same_user
  dispatch-Identified t (ClientCommand.subscribe channel auth payload) s =
      inl (act-user t channel s _)
  dispatch-Identified t (ClientCommand.unsubscribe channel) s =
      inl (unsubscribe-user p m c channel s)
  dispatch-Identified t (ClientCommand.client_event event channel payload) s =
      inl (client_event-Quiet p m c t event channel payload s).same_user
  dispatch-Identified t (ClientCommand.signin auth user_data) s =
      elim (signin-Effect p m c auth user_data s) [
        | inl q ↦ inl q.same_user
        | inr (user, i, e) ↦ inr (
          auth,
          user_data,
          user,
          refl,
          i,
          ap (λ x. x.user) (e ∙ (accept_signin-Quiet p m c user s).1),
        )
      ]
  dispatch-Identified t (ClientCommand.unknown name) s = inl refl
