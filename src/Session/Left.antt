-- ===== src/Session/Left.antt =====
-- src/ws/handler.rs: `unsubscribe` and `on_close` against the node's subscriptions.
use pylon.Prelude.{
  ◌≤◌, ◌≡◌, refl, ◌∙◌, false, not, ◌&&◌, Option, none, some, List, [], ◌∷◌, arith, Bool-cases, inl,
  inr, length, contains, Distinct, contains-retain, retain-Distinct, length-retain-le, ◌==◌,
  list_eq, nat_eq, beq_refl, beq_sym, list_beq_iff,
}
use pylon.Maps.Assoc.{remove, contains_key-remove}
use pylon.Protocol.SocketId.{Str, SocketId, socket_id_eq}
use pylon.Protocol.Text.{ascii}
use pylon.Protocol.Json.{AuthenticatedUser}
use pylon.Adapter.{Membership}
use pylon.Session.{Platform, Config, Session}
use pylon.Session.Unsubscribe.{
  set_remove, leave_channel, unsubscribe, leave_all, sign_out, on_close,
}
use pylon.Session.Quiet.{
  Quiet, Quiet-trans, emit_if-Quiet, maybe_emit_count-Quiet, announce_leave-Quiet,
  notify_watchers-Quiet,
}
use pylon.Session.Tracked.{IsTracked, Quiet-IsTracked}

module _ {Value Mailbox : Type 0} (p : Platform Value Mailbox) (m : Membership p.adapter)
    (c : Config Mailbox) where
  -- What leaving changes, but for what it sends.
  unfoldable pub booked : Str → Session p → Session p
  unfolding set_remove
  booked channel s = record s {
    subscribed = set_remove channel s.subscribed;
    presence_membership = remove channel s.presence_membership;
    node = (p.adapter.unsubscribe s.node c.app.id channel c.socket_id).1;
  }

  pub leave_channel-Quiet :
      (channel : Str) (s : Session p) → Quiet p m (booked channel s) (leave_channel p c channel s)
  unfolding booked leave_channel
  leave_channel-Quiet channel s =
      Quiet-trans p m (announce_leave-Quiet p m c channel _ _)
        (Quiet-trans p m (emit_if-Quiet p m c _ _ _) (maybe_emit_count-Quiet p m c channel _ _))

  contains-set_remove :
      (channel x : Str) (l : List Str)
      → contains (set_remove channel l) x ≡ (not (channel == x) && contains l x)
  unfolding set_remove
  contains-set_remove channel x l =
      ground (arith, contains-retain (λ y. not (y == channel)) l x, beq_sym channel x)

  set_remove-Distinct :
      (channel : Str) (l : List Str) → Distinct l → Distinct (set_remove channel l)
  unfolding set_remove
  set_remove-Distinct channel l d = retain-Distinct (λ y. not (y == channel)) l d

  length-set_remove : (channel : Str) (l : List Str) → length (set_remove channel l) ≤ length l
  unfolding set_remove
  length-set_remove channel l = length-retain-le (λ y. not (y == channel)) l

  booked-IsTracked :
      (channel : Str) (s : Session p) → IsTracked p m c s → IsTracked p m c (booked channel s)
  unfolding booked
  booked-IsTracked channel s v = record {
    distinct = set_remove-Distinct channel s.subscribed v.distinct;
    tracked = λ x. ground (
      arith,
      m.joined-unsubscribe s.node c.app.id channel c.socket_id c.app.id x c.socket_id,
      v.tracked x,
      contains-set_remove channel x s.subscribed,
      beq_refl c.app.id,
      beq_refl c.socket_id,
    );
    member_kept = λ x. ground (
      arith,
      v.member_kept x,
      contains-set_remove channel x s.subscribed,
      contains_key-remove channel x s.presence_membership,
    );
    capped = λ h. omega (arith, length-set_remove channel s.subscribed, v.capped h);
  }

  pub unsubscribe-IsTracked :
      (channel : Str) (s : Session p)
      → IsTracked p m c s
      → IsTracked p m c (unsubscribe p c channel s)
  unfolding unsubscribe
  unsubscribe-IsTracked channel s v = elim (Bool-cases (contains s.subscribed channel)) [
    | inl e ↦
        rw e (Quiet-IsTracked p m c (leave_channel-Quiet channel s) (booked-IsTracked channel s v))
    | inr e ↦ rw e v
  ]

  -- `unsubscribe` takes the channel, and no other, from the set.
  pub unsubscribe-contains :
      (channel x : Str) (s : Session p)
      → contains (unsubscribe p c channel s).subscribed x
        ≡ (not (channel == x) && contains s.subscribed x)
  unfolding unsubscribe booked
  unsubscribe-contains channel x s = elim (Bool-cases (contains s.subscribed channel)) [
    | inl e ↦ rw e (
        let q = (leave_channel-Quiet channel s).same_subscribed in
        rw q (contains-set_remove channel x s.subscribed))
    | inr e ↦ rw e (ground (arith, list_beq_iff channel x))
  ]

  pub unsubscribe-user : (channel : Str) (s : Session p) → (unsubscribe p c channel s).user ≡ s.user
  unfolding unsubscribe booked
  unsubscribe-user channel s = elim (Bool-cases (contains s.subscribed channel)) [
    | inl e ↦ rw e (leave_channel-Quiet channel s).same_user
    | inr e ↦ rw e refl
  ]

  pub leave_all-IsTracked :
      (l : List Str) (s : Session p) → IsTracked p m c s → IsTracked p m c (leave_all p c l s)
  unfolding leave_all
  leave_all-IsTracked [] s v = v
  leave_all-IsTracked (channel ∷ rest) s v =
      leave_all-IsTracked rest (unsubscribe p c channel s) (unsubscribe-IsTracked channel s v)

  leave_all-contains :
      (l : List Str) (x : Str) (s : Session p)
      → contains (leave_all p c l s).subscribed x ≡ (not (contains l x) && contains s.subscribed x)
  unfolding leave_all
  leave_all-contains [] x s = refl
  leave_all-contains (channel ∷ rest) x s = ground (
    arith,
    leave_all-contains rest x (unsubscribe p c channel s),
    unsubscribe-contains channel x s,
    beq_sym channel x,
  )

  -- Signing out ends the user, and leaves every subscription.
  sign_out_lem :
      (o : Option AuthenticatedUser) (s : Session p)
      → s.user ≡ o
      → ((sign_out p c o s).user ≡ none)
        × ((app channel : Str) (sid : SocketId)
            → m.joined (sign_out p c o s).node app channel sid ≡ m.joined s.node app channel sid)
  unfolding sign_out
  sign_out_lem none s e = (e, λ app channel sid. refl)
  sign_out_lem (some user) s e =
      let (out, n) = p.adapter.signout_user s.node c.app.id user.id c.socket_id in
      let same = m.joined-signout_user s.node c.app.id user.id c.socket_id in
      let told =
        notify_watchers-Quiet p m c user.id (ascii "offline")
          (record s { user = none; node = n }) in
      elim (Bool-cases (not c.clustered && out.last_for_user)) [
        | inl f ↦ rw f (
          told.same_user,
          λ app channel sid. told.same_joined app channel sid ∙ same app channel sid,
        )
        | inr f ↦ rw f (refl, same)
      ]

  -- When a connection whose bookkeeping agrees with the node is closed, the node holds no subscription
  -- of its socket in its app any more, and no user is signed in on it.
  pub on_close-joined :
      (s : Session p) (channel : Str)
      → IsTracked p m c s
      → (m.joined (on_close p c s).node c.app.id channel c.socket_id ≡ false)
        × ((on_close p c s).user ≡ none)
  unfolding on_close
  on_close-joined s channel v =
      let left = leave_all p c s.subscribed s in
      let (gone, kept) = sign_out_lem left.user left refl in
      (
        m.joined-unwatch (sign_out p c left.user left).node c.app.id c.socket_id c.app.id channel
              c.socket_id
            ∙ kept c.app.id channel c.socket_id
            ∙ (leave_all-IsTracked s.subscribed s v).tracked channel
            ∙ ground (arith, leave_all-contains s.subscribed channel s),
        gone,
      )
