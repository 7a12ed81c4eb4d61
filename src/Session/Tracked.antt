-- ===== src/Session/Tracked.antt =====
-- src/ws/handler.rs, src/ws/subscribe.rs: the connection's bookkeeping agrees with the node.
use pylon.Prelude.{
  suc, ◌≤◌, ◌≡◌, refl, ◌∙◌, true, false, ◌&&◌, ◌||◌, Option, none, some, List, [], ◌∷◌, nat_beq,
  arith, Bool-cases, inl, inr, ◌⊎◌, length, contains, Distinct, contains-append, append-Distinct,
  length-append, ◌==◌, list_eq, nat_eq, beq_refl, list_beq_iff,
}
use pylon.Maps.Assoc.{insert, contains_key, contains_key-insert}
use pylon.Protocol.SocketId.{Str, socket_id_eq}
use pylon.Protocol.Event.{subscription_succeeded}
use pylon.Channel.Types.{PresenceMember, PresenceJoin}
use pylon.Channel.Kind.{AuthKind, public, private, private_encrypted, presence, channel_info_of}
use pylon.Adapter.{Membership}
use pylon.Session.{Platform, Config, Moment, Session, is_presence, handle, send_subscription_error}
use pylon.Session.Verdict.{Verdict, verdict, held, refused, own_user_channel, admitted}
use pylon.Session.Subscribe.{subscribe, act, join, record_join, set_insert}
use pylon.Session.Authorised.{Admission, Authorised, verdict-Admission}
use pylon.Session.Quiet.{
  Quiet, Quiet-trans, send_self-Quiet, maybe_emit_count-Quiet, emit_occupied_if_edge-Quiet,
  announce_join-Quiet, replay-Quiet, resend-Quiet,
}

module _ {Value Mailbox : Type 0} (p : Platform Value Mailbox) (m : Membership p.adapter)
    (c : Config Mailbox) where
  -- The set holds a channel once; it holds just what the node has joined this socket to; a presence
  -- member is recorded for just the presence channels among them; the cap is kept, unless it is zero.
  pub record IsTracked (s : Session p) : Type 0 where
    pub distinct : Distinct s.subscribed
    pub tracked :
        (channel : Str)
        → m.joined s.node c.app.id channel c.socket_id ≡ contains s.subscribed channel
    pub member_kept :
        (channel : Str)
        → contains_key channel s.presence_membership
          ≡ (is_presence (channel_info_of channel).auth && contains s.subscribed channel)
    pub capped :
        nat_beq c.limits.max_subscriptions_per_connection 0 ≡ false
        → length s.subscribed ≤ c.limits.max_subscriptions_per_connection

  pub Quiet-IsTracked : {s t : Session p} → Quiet p m s t → IsTracked s → IsTracked t
  Quiet-IsTracked {s} {t} q v =
      let e = q.same_subscribed in
      let f = q.same_membership in
      record {
        distinct = rw e v.distinct;
        tracked =
            λ channel. q.same_joined c.app.id channel c.socket_id ∙ v.tracked channel ∙ rw e refl;
        member_kept = λ channel. rw (e, f) (v.member_kept channel);
        capped = λ h. rw e (v.capped h);
      }

  Authorised-kind :
      (k : AuthKind) (channel : Str) (auth payload : Option Str) (s : Session p)
      (o : Option (PresenceMember Value))
      → Authorised p c k channel auth payload s o
      → (o ≡ none) × (is_presence k ≡ false)
        ⊎ ((x : PresenceMember Value) × (o ≡ some x) × (is_presence k ≡ true))
  unfolding is_presence
  Authorised-kind public channel auth payload s o h = inl (h, refl)
  Authorised-kind private channel auth payload s o (token, e, v, h) = inl (h, refl)
  Authorised-kind private_encrypted channel auth payload s o (token, e, v, h, able) = inl (h, refl)
  Authorised-kind presence channel auth payload s o (token, doc, x, e, f, v, g, h, w, able) =
      inr (x, h, refl)

  -- What a join changes, but for what it sends.
  unfoldable pub booked :
      Str → Option (PresenceMember Value) → p.adapter.Node → Session p → Session p
  booked channel none n s = record s { node = n; subscribed = set_insert channel s.subscribed }
  booked channel (some x) n s = record s {
    node = n;
    subscribed = set_insert channel s.subscribed;
    presence_membership = insert channel x.user_id s.presence_membership;
  }

  record_join-Quiet :
      (channel : Str) (o : Option (PresenceMember Value)) (j : Option (PresenceJoin Value))
      (n : p.adapter.Node) (s : Session p)
      → Quiet p m (booked channel o n s) (record_join p c channel o j (record s { node = n }))
  unfolding booked record_join
  record_join-Quiet channel none j n s =
      send_self-Quiet p m c (subscription_succeeded channel none) _
  record_join-Quiet channel (some x) j n s = announce_join-Quiet p m c channel j _

  pub join-Quiet :
      (channel : Str) (o : Option (PresenceMember Value)) (s : Session p)
      → Quiet p m
          (booked channel o (p.adapter.subscribe s.node c.app.id channel (handle p c) o).1 s)
          (join p c channel o s)
  unfolding join
  join-Quiet channel o s = Quiet-trans p m (record_join-Quiet channel o _ _ s) (
      Quiet-trans p m (maybe_emit_count-Quiet p m c channel _ _)
        (emit_occupied_if_edge-Quiet p m c channel _ _))

  set_insert-Distinct :
      (channel : Str) (l : List Str) → Distinct l → Distinct (set_insert channel l)
  unfolding set_insert
  set_insert-Distinct channel l d = ground (arith, append-Distinct l channel d)

  pub contains-set_insert :
      (channel x : Str) (l : List Str)
      → contains (set_insert channel l) x ≡ (channel == x || contains l x)
  unfolding set_insert
  contains-set_insert channel x l = elim (Bool-cases (contains l channel)) [
    | inl e ↦ ground (arith, list_beq_iff channel x)
    | inr e ↦ rw e (ground (arith, contains-append l (channel ∷ []) x))
  ]

  length-set_insert :
      (channel : Str) (l : List Str) → length (set_insert channel l) ≤ suc (length l)
  unfolding set_insert
  length-set_insert channel l = ground (arith, length-append l (channel ∷ []))

  pub booked-subscribed :
      (channel : Str) (o : Option (PresenceMember Value)) (n : p.adapter.Node) (s : Session p)
      → ((booked channel o n s).subscribed ≡ set_insert channel s.subscribed)
        × ((booked channel o n s).node ≡ n)
  unfolding booked
  booked-subscribed channel none n s = (refl, refl)
  booked-subscribed channel (some x) n s = (refl, refl)

  booked-member_kept :
      (channel : Str) (o : Option (PresenceMember Value)) (n : p.adapter.Node) (s : Session p)
      (x : Str)
      → (o ≡ none) × (is_presence (channel_info_of channel).auth ≡ false)
        ⊎ ((y : PresenceMember Value) × (o ≡ some y)
            × (is_presence (channel_info_of channel).auth ≡ true))
      → IsTracked s
      → contains_key x (booked channel o n s).presence_membership
        ≡ (is_presence (channel_info_of x).auth && contains (booked channel o n s).subscribed x)
  unfolding booked
  booked-member_kept channel none n s x (inr (y, e, f)) v = absurd (ground arith)
  booked-member_kept channel (some y) n s x (inl (e, f)) v = absurd (ground arith)
  booked-member_kept channel none n s x (inl (e, f)) v =
      ground
        (arith, v.member_kept x, contains-set_insert channel x s.subscribed, list_beq_iff channel x)
  booked-member_kept channel (some y) n s x (inr (z, e, f)) v = ground (
    arith,
    v.member_kept x,
    contains-set_insert channel x s.subscribed,
    contains_key-insert channel x y.user_id s.presence_membership,
    list_beq_iff channel x,
  )

  booked-IsTracked :
      (t : Moment) (channel : Str) (auth payload : Option Str) (s : Session p)
      (o : Option (PresenceMember Value))
      → Admission p c t channel auth payload s o
      → IsTracked s
      → IsTracked
          (booked channel o (p.adapter.subscribe s.node c.app.id channel (handle p c) o).1 s)
  booked-IsTracked t channel auth payload s o a v =
      let n = (p.adapter.subscribe s.node c.app.id channel (handle p c) o).1 in
      let (e, f) = booked-subscribed channel o n s in
      record {
        distinct = rw e (set_insert-Distinct channel s.subscribed v.distinct);
        tracked = λ x.
            rw (e, f)
              (ground (
                arith,
                m.joined-subscribe s.node c.app.id channel (handle p c) o c.app.id x c.socket_id,
                v.tracked x,
                contains-set_insert channel x s.subscribed,
                beq_refl c.app.id,
                beq_refl c.socket_id,
              ));
        member_kept = λ x.
            booked-member_kept channel o n s x
              (Authorised-kind _ channel auth payload s o a.authorised) v;
        capped = λ h. rw e (ground (arith, length-set_insert channel s.subscribed, a.room));
      }

  act-IsTracked :
      (t : Moment) (channel : Str) (auth payload : Option Str) (s : Session p) (v : Verdict Value)
      → verdict p c t channel auth payload s ≡ v
      → IsTracked s
      → IsTracked (act p c t channel s v)
  unfolding act send_subscription_error
  act-IsTracked t channel auth payload s held h v = Quiet-IsTracked (resend-Quiet p m c channel s) v
  act-IsTracked t channel auth payload s (refused r) h v =
      Quiet-IsTracked (send_self-Quiet p m c _ s) v
  act-IsTracked t channel auth payload s own_user_channel h v =
      Quiet-IsTracked (send_self-Quiet p m c _ s) v
  act-IsTracked t channel auth payload s (admitted o) h v =
      Quiet-IsTracked (Quiet-trans p m (join-Quiet channel o s) (replay-Quiet p m c t channel _)) (
        booked-IsTracked t channel auth payload s o
          (verdict-Admission p c t channel auth payload s o h) v)

  pub subscribe-IsTracked :
      (t : Moment) (channel : Str) (auth payload : Option Str) (s : Session p)
      → IsTracked s
      → IsTracked (subscribe p c t channel auth payload s)
  unfolding subscribe
  subscribe-IsTracked t channel auth payload s v = act-IsTracked t channel auth payload s _ refl v
