-- ===== src/Channel/State/Leave.antt =====
-- src/channel/state.rs: `remove` keeps a channel consistent.
use pylon.Prelude.{
  ◌≡◌, refl, false, not, Option, none, some, arith, ◌==◌, list_eq, nat_eq, Distinct,
  retain-Distinct, first, is_empty, ◌∙◌, subst, list_beq_iff, Bool-cases, inl, inr, Option-cases,
  sym,
}
use pylon.Maps.Assoc.{
  lookup, remove as map_remove, modify, lookup-modify, lookup-remove, remove-Unique,
}
use pylon.Maps.BTree.{bytes_ord, modify-Ascending, remove-Ascending}
use pylon.Protocol.SocketId.{Str, SocketId, socket_id_eq}
use pylon.Protocol.Event.{Wire}
use pylon.Channel.Types.{PresenceMember, Subscriber, PresenceUser, ChannelState}
use pylon.Channel.Users.{set_info, drop_conn, oldest_of}
use pylon.Channel.State.{
  member_info, reseat_entry, reseat_with, reseat_user_info, leave, remove_member, remove_found,
  remove,
}
use pylon.Channel.State.Index.{
  Subscribers, conns_of, conns_of-drop, conns_of-set_info, conns_of-remove, forget-Indexes,
  drop-Indexes, prune-Indexes, set_info-Indexes,
}
use pylon.Channel.State.Frame.{encode_roster-modify, drop_conn_info, first_nonempty}
use pylon.Channel.State.Valid.{IsValid, IsLeaving, MirrorsAt}

oldest_of-eq-some :
    {Value : Type 0} (x : Option (PresenceUser Value)) {o : SocketId}
    → oldest_of x ≡ some o
    → (u : PresenceUser Value) × (x ≡ some u) × (first u.conns ≡ some o)
unfolding oldest_of
oldest_of-eq-some none h = cc
oldest_of-eq-some (some u) h = (u, refl, h)

module _ {Value Mailbox : Type 0} (w : Wire Value) (channel : Str) where
  prune-IsValid :
      (user : Str) (s : ChannelState Value Mailbox)
      → IsLeaving w channel user s
      → oldest_of (lookup user s.users) ≡ none
      → IsValid w channel (record s { users = map_remove user s.users; roster_frame = none })
  prune-IsValid user s v e = record {
    unique = v.unique;
    ascending = remove-Ascending user s.users v.ascending;
    indexes = prune-Indexes user s.subscribers s.users v.indexes e;
    distinct = λ id. ground (arith, v.distinct id, conns_of-remove user id s.users);
    nonempty = λ id u h. ground (arith, v.nonempty id u, lookup-remove user id s.users);
    mirrors = λ id u o i h k l.
        ground (
          arith,
          λ (p : (user == id) ≡ false). v.mirrors id p u o i,
          lookup-remove user id s.users,
        );
    snapshot_fresh = λ l h. ground (arith, v.no_snapshot);
    frame_fresh = λ f h. cc;
  }

  module _ (user : Str) (info : Value) (u : PresenceUser Value) (oldest : SocketId)
      (s : ChannelState Value Mailbox) (v : IsLeaving w channel user s)
      (e : lookup user s.users ≡ some u) (f : first u.conns ≡ some oldest) where
    set_info-nonempty :
        (id : Str) (x : PresenceUser Value)
        → lookup id (modify user (set_info info) s.users) ≡ some x
        → is_empty x.conns ≡ false
    unfolding set_info
    set_info-nonempty id x h = ground (
      arith,
      λ (p : (user == id) ≡ false). v.nonempty id x p,
      lookup-modify user id (set_info info) s.users,
      list_beq_iff user id,
      first_nonempty u.conns,
    )

    set_info-mirrors :
        member_info (lookup oldest s.subscribers) ≡ some info
        → (id : Str) → MirrorsAt w id s.subscribers (modify user (set_info info) s.users)
    unfolding set_info
    set_info-mirrors g id x o i h k l = ground (
      arith,
      λ (p : (user == id) ≡ false). v.mirrors id p x o i,
      lookup-modify user id (set_info info) s.users,
      list_beq_iff user id,
      w.value_eq_refl info,
    )

  set_info-IsValid :
      (user : Str) (info : Value) (u : PresenceUser Value) (oldest : SocketId)
      (s : ChannelState Value Mailbox)
      → IsLeaving w channel user s
      → lookup user s.users ≡ some u
      → first u.conns ≡ some oldest
      → member_info (lookup oldest s.subscribers) ≡ some info
      → IsValid w channel
          (record s { users = modify user (set_info info) s.users; roster_frame = none })
  set_info-IsValid user info u oldest s v e f g = record {
    unique = v.unique;
    ascending = modify-Ascending user (set_info info) s.users v.ascending;
    indexes = set_info-Indexes user info s.subscribers s.users v.indexes;
    distinct = λ id. subst Distinct (sym (conns_of-set_info user id info s.users)) (v.distinct id);
    nonempty = λ id x h. set_info-nonempty user info u oldest s v e f id x h;
    mirrors = λ id x o i h k l. set_info-mirrors user info u oldest s v e f g id x o i h k l;
    snapshot_fresh = λ l h. ground (arith, v.no_snapshot);
    frame_fresh = λ f h. cc;
  }

  keep-IsValid :
      (user : Str) (u : PresenceUser Value) (oldest : SocketId) (s : ChannelState Value Mailbox)
      → IsLeaving w channel user s
      → lookup user s.users ≡ some u
      → first u.conns ≡ some oldest
      → MirrorsAt w user s.subscribers s.users
      → IsValid w channel s
  keep-IsValid user u oldest s v e f g = record {
    unique = v.unique;
    ascending = v.ascending;
    indexes = v.indexes;
    distinct = v.distinct;
    nonempty = λ id x h. ground (
      arith,
      λ (p : (user == id) ≡ false). v.nonempty id x p,
      list_beq_iff user id,
      first_nonempty u.conns,
    );
    mirrors = λ id x o i h k l.
        ground (
          arith,
          λ (p : (user == id) ≡ false). v.mirrors id p x o i,
          list_beq_iff user id,
          g x o i,
        );
    snapshot_fresh = λ l h. ground (arith, v.no_snapshot);
    frame_fresh = v.frame_fresh;
  }

  reseat-IsValid :
      (user : Str) (u : PresenceUser Value) (oldest : SocketId) (s : ChannelState Value Mailbox)
      → IsLeaving w channel user s
      → lookup user s.users ≡ some u
      → first u.conns ≡ some oldest
      → IsValid w channel (reseat_user_info w user oldest s)
  unfolding reseat_user_info
  reseat-IsValid user u oldest s v e f =
      elim (Option-cases (member_info (lookup oldest s.subscribers))) [
        | inl g ↦
            rw (g, reseat_with)
              (keep-IsValid user u oldest s v e f (λ x o i h k l. ground (arith, l)))
        | inr (info, g) ↦ elim (Bool-cases (w.value_eq u.user_info info)) [
          | inl same ↦
              rw (g, reseat_with, e, reseat_entry, same)
                (keep-IsValid user u oldest s v e f (λ x o i h k l. ground arith))
          | inr new ↦
              rw (g, reseat_with, e, reseat_entry, new)
                (set_info-IsValid user info u oldest s v e f g)
        ]
      ]

  leave-IsValid :
      (m : PresenceMember Value) (s : ChannelState Value Mailbox)
      → IsLeaving w channel m.user_id s
      → IsValid w channel (leave w m (oldest_of (lookup m.user_id s.users)) s).1
  unfolding leave
  leave-IsValid m s v = elim (Option-cases (oldest_of (lookup m.user_id s.users))) [
    | inl e ↦ rw (e, leave) (prune-IsValid m.user_id s v e)
    | inr (o, e) ↦
        let (u, found, head) = oldest_of-eq-some (lookup m.user_id s.users) e in
        rw (e, leave) (reseat-IsValid m.user_id u o s v found head)
  ]

  -- The state in which `remove` takes the socket out of its user's entry.
  dropped :
      SocketId → PresenceMember Value → ChannelState Value Mailbox → ChannelState Value Mailbox
  dropped sid m s = record s {
    subscribers = map_remove sid s.subscribers;
    users = modify m.user_id (drop_conn sid) s.users;
    snapshot = none;
  }

  member_info-remove :
      (sid o : SocketId) (subs : Subscribers Value Mailbox) {info : Value}
      → member_info (lookup o (map_remove sid subs)) ≡ some info
      → member_info (lookup o subs) ≡ some info
  unfolding member_info
  member_info-remove sid o subs h = ground (arith, lookup-remove sid o subs)

  dropped-IsLeaving :
      (sid : SocketId) (sub : Subscriber Value Mailbox) (m : PresenceMember Value)
      (s : ChannelState Value Mailbox)
      → IsValid w channel s
      → lookup sid s.subscribers ≡ some sub
      → sub.member ≡ some m
      → IsLeaving w channel m.user_id (dropped sid m s)
  unfolding dropped
  dropped-IsLeaving sid sub m s v e n = record {
    unique = remove-Unique sid s.subscribers v.unique;
    ascending = modify-Ascending m.user_id (drop_conn sid) s.users v.ascending;
    indexes = drop-Indexes sid sub m s.subscribers s.users v.indexes e n;
    distinct = λ id. ground (
      arith,
      conns_of-drop m.user_id id sid s.users,
      v.distinct id,
      retain-Distinct (λ c. not (c == sid)) (conns_of id s.users),
    );
    nonempty = λ id u other h.
        ground (arith, v.nonempty id u, lookup-modify m.user_id id (drop_conn sid) s.users);
    mirrors = λ id other u o i h k l. ground (
      arith,
      v.mirrors id u o i,
      lookup-modify m.user_id id (drop_conn sid) s.users,
      member_info-remove sid o s.subscribers l,
    );
    no_snapshot = refl;
    frame_fresh = λ f h.
        v.frame_fresh f h
        ∙ sym (
            encode_roster-modify w channel m.user_id (drop_conn sid) s.users
              (λ u. drop_conn_info sid u));
  }

  remove_member-IsValid :
      (sid : SocketId) (sub : Subscriber Value Mailbox) (o : Option (PresenceMember Value))
      (s : ChannelState Value Mailbox)
      → IsValid w channel s
      → lookup sid s.subscribers ≡ some sub
      → sub.member ≡ o
      → IsValid w channel
          (remove_member w sid o
            (record s { subscribers = map_remove sid s.subscribers; snapshot = none })).1
  unfolding remove_member dropped
  remove_member-IsValid sid sub none s v e n = record {
    unique = remove-Unique sid s.subscribers v.unique;
    ascending = v.ascending;
    indexes = forget-Indexes sid sub s.subscribers s.users v.indexes e n;
    distinct = v.distinct;
    nonempty = v.nonempty;
    mirrors = λ id u o i h k l. v.mirrors id u o i h k (member_info-remove sid o s.subscribers l);
    snapshot_fresh = λ l h. cc;
    frame_fresh = v.frame_fresh;
  }
  remove_member-IsValid sid sub (some m) s v e n =
      leave-IsValid m (dropped sid m s) (dropped-IsLeaving sid sub m s v e n)

  remove_found-IsValid :
      (sid : SocketId) (o : Option (Subscriber Value Mailbox)) (s : ChannelState Value Mailbox)
      → IsValid w channel s
      → lookup sid s.subscribers ≡ o
      → IsValid w channel (remove_found w sid o s).1
  unfolding remove_found
  remove_found-IsValid sid none s v e = v
  remove_found-IsValid sid (some sub) s v e = remove_member-IsValid sid sub sub.member s v e refl

  -- `remove` keeps the state consistent.
  pub remove-IsValid :
      (sid : SocketId) (s : ChannelState Value Mailbox)
      → IsValid w channel s
      → IsValid w channel (remove w sid s).1
  unfolding remove
  remove-IsValid sid s v = remove_found-IsValid sid (lookup sid s.subscribers) s v refl
