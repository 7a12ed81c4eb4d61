-- ===== src/Channel/State/Join.antt =====
-- src/channel/state.rs: `add` keeps a channel consistent.
use pylon.Prelude.{
  ◌≡◌, refl, true, false, Option, none, some, [], ◌∷◌, ◌++◌, arith, ◌==◌, list_eq, nat_eq,
  if◌then◌else◌, Distinct, append-Distinct, first, is_empty, ap, ◌∙◌, Bool-cases, inl, inr,
  Option-cases,
}
use pylon.Maps.Assoc.{lookup, insert, lookup-remove, lookup-insert, insert-Unique}
use pylon.Maps.BTree.{bytes_ord}
use pylon.Protocol.SocketId.{Str, SocketId, socket_id_eq, socket_id_beq_iff}
use pylon.Protocol.Event.{Wire}
use pylon.Channel.Types.{PresenceMember, Subscriber, PresenceUser, ChannelState, ConnectionHandle}
use pylon.Channel.Users.{Users, push_conn, encode_roster, is_first, frame_or}
use pylon.Channel.State.{
  member_info, reseat_entry, reseat_with, reseat_user_info, leave, remove_member, remove_found,
  remove, add_member, add, cached_roster_frame,
}
use pylon.Channel.State.Index.{Subscribers, Indexes, conns_of, conns_of-push, push-Indexes}
use pylon.Channel.State.Frame.{first-append, first-contains, is_empty-append}
use pylon.Channel.State.Push.{
  pushed, entry_of, lookup-pushed, pushed-Ascending, pushed-is_first, pushed-frame,
}
use pylon.Channel.State.Valid.{IsValid, MirrorsAt}
use pylon.Channel.State.Leave.{remove-IsValid}

module _ {Value Mailbox : Type 0} (w : Wire Value) where
  reseat_entry-subscribers :
      (k : Str) (info : Value) (o : Option (PresenceUser Value)) (s : ChannelState Value Mailbox)
      → (reseat_entry w k info o s).subscribers ≡ s.subscribers
  unfolding reseat_entry
  reseat_entry-subscribers k info none s = refl
  reseat_entry-subscribers k info (some u) s = ground arith

  reseat_with-subscribers :
      (k : Str) (o : Option Value) (s : ChannelState Value Mailbox)
      → (reseat_with w k o s).subscribers ≡ s.subscribers
  unfolding reseat_with
  reseat_with-subscribers k none s = refl
  reseat_with-subscribers k (some info) s = reseat_entry-subscribers k info (lookup k s.users) s

  leave-subscribers :
      (m : PresenceMember Value) (o : Option SocketId) (s : ChannelState Value Mailbox)
      → (leave w m o s).1.subscribers ≡ s.subscribers
  unfolding leave reseat_user_info
  leave-subscribers m none s = refl
  leave-subscribers m (some o) s = reseat_with-subscribers m.user_id _ s

  remove_member-subscribers :
      (sid : SocketId) (o : Option (PresenceMember Value)) (s : ChannelState Value Mailbox)
      → (remove_member w sid o s).1.subscribers ≡ s.subscribers
  unfolding remove_member
  remove_member-subscribers sid none s = refl
  remove_member-subscribers sid (some m) s = leave-subscribers m _ _

  remove_found-lookup :
      (sid c : SocketId) (o : Option (Subscriber Value Mailbox)) (s : ChannelState Value Mailbox)
      → lookup sid s.subscribers ≡ o
      → lookup c (remove_found w sid o s).1.subscribers
        ≡ (if sid == c then none else lookup c s.subscribers)
  unfolding remove_found
  remove_found-lookup sid c none s e = ground (arith, socket_id_beq_iff sid c)
  remove_found-lookup sid c (some sub) s e =
      ap (lookup c) (remove_member-subscribers sid sub.member _) ∙ lookup-remove sid c s.subscribers

  -- After `remove` the socket is gone and every other subscriber is as it was.
  pub lookup-remove_state :
      (sid c : SocketId) (s : ChannelState Value Mailbox)
      → lookup c (remove w sid s).1.subscribers
        ≡ (if sid == c then none else lookup c s.subscribers)
  unfolding remove
  lookup-remove_state sid c s = remove_found-lookup sid c (lookup sid s.subscribers) s refl

module _ {Value Mailbox : Type 0} (w : Wire Value) (channel : Str) where
  insert_plain-Indexes :
      (sid : SocketId) (sub : Subscriber Value Mailbox) (subs : Subscribers Value Mailbox)
      (users : Users Value)
      → Indexes subs users
      → lookup sid subs ≡ none
      → sub.member ≡ none
      → Indexes (insert sid sub subs) users
  insert_plain-Indexes sid sub subs users h e n id c =
      ground (arith, h id c, h id sid, lookup-insert sid c sub subs, socket_id_beq_iff sid c)

  member_info-insert :
      (sid o : SocketId) (sub : Subscriber Value Mailbox) (subs : Subscribers Value Mailbox)
      → member_info (lookup o (insert sid sub subs))
        ≡ (if sid == o then member_info (some sub) else member_info (lookup o subs))
  member_info-insert sid o sub subs = ground (arith, lookup-insert sid o sub subs)

  module _ (handle : ConnectionHandle Mailbox) (s : ChannelState Value Mailbox)
      (v : IsValid w channel s) (e : lookup handle.socket_id s.subscribers ≡ none) where
    add_plain-IsValid : IsValid w channel (add_member w channel handle none s).1
    unfolding add_member member_info
    add_plain-IsValid = record {
      unique = insert-Unique handle.socket_id _ s.subscribers v.unique;
      ascending = v.ascending;
      indexes = insert_plain-Indexes handle.socket_id _ s.subscribers s.users v.indexes e refl;
      distinct = v.distinct;
      nonempty = v.nonempty;
      mirrors = λ id u o info h k l. ground (
        arith,
        v.mirrors id u o info,
        member_info-insert handle.socket_id o (record { handle = handle; member = none })
            s.subscribers,
      );
      snapshot_fresh = λ l h. cc;
      frame_fresh = v.frame_fresh;
    }

    module _ (m : PresenceMember Value) where
      unfoldable pub joining : Subscriber Value Mailbox
      joining = record { handle = handle; member = some m }

      pushed-Distinct : (id : Str) → Distinct (conns_of id (pushed handle.socket_id m s.users))
      pushed-Distinct id = ground (
        arith,
        conns_of-push m id handle.socket_id s.users,
        v.distinct id,
        append-Distinct (conns_of id s.users) handle.socket_id,
        v.indexes id handle.socket_id,
      )

      pushed-nonempty :
          (id : Str) (u : PresenceUser Value)
          → lookup id (pushed handle.socket_id m s.users) ≡ some u
          → is_empty u.conns ≡ false
      unfolding push_conn
      pushed-nonempty id u h = ground (
        arith,
        lookup-pushed handle.socket_id m id s.users,
        v.nonempty id u,
        is_empty-append (entry_of m s.users).conns handle.socket_id,
      )

      -- An entry that was there keeps its oldest connection, which is another one.
      old-mirrors :
          (u : PresenceUser Value) (o : SocketId) (info : Value)
          → lookup m.user_id s.users ≡ some u
          → first (u.conns ++ handle.socket_id ∷ []) ≡ some o
          → member_info (lookup o (insert handle.socket_id joining s.subscribers)) ≡ some info
          → w.value_eq u.user_info info ≡ true
      old-mirrors u o info h k l = ground (
        arith,
        v.nonempty m.user_id u h,
        first-append u.conns (handle.socket_id ∷ []),
        first-contains u.conns o,
        v.indexes m.user_id o,
        socket_id_beq_iff handle.socket_id o,
        member_info-insert handle.socket_id o joining s.subscribers,
        v.mirrors m.user_id u o info h,
      )

      new-mirrors :
          (o : SocketId) (info : Value)
          → first (handle.socket_id ∷ []) ≡ some o
          → member_info (lookup o (insert handle.socket_id joining s.subscribers)) ≡ some info
          → w.value_eq m.user_info info ≡ true
      unfolding joining member_info
      new-mirrors o info k l = ground (
        arith,
        socket_id_beq_iff handle.socket_id o,
        member_info-insert handle.socket_id o joining s.subscribers,
        w.value_eq_refl m.user_info,
      )

      other-mirrors :
          (id : Str) (u : PresenceUser Value) (o : SocketId) (info : Value)
          → (m.user_id == id) ≡ false
          → lookup id s.users ≡ some u
          → first u.conns ≡ some o
          → member_info (lookup o (insert handle.socket_id joining s.subscribers)) ≡ some info
          → w.value_eq u.user_info info ≡ true
      other-mirrors id u o info n h k l = ground (
        arith,
        first-contains u.conns o k,
        v.indexes id o,
        socket_id_beq_iff handle.socket_id o,
        member_info-insert handle.socket_id o joining s.subscribers,
        v.mirrors id u o info h k,
      )

      pushed-MirrorsAt :
          (id : Str)
          → MirrorsAt w id
              (insert handle.socket_id joining s.subscribers)
              (pushed handle.socket_id m s.users)
      unfolding push_conn
      pushed-MirrorsAt id u o info h k l = elim (Bool-cases (m.user_id == id)) [
        | inr n ↦
            other-mirrors id u o info n
              (ground (arith, lookup-pushed handle.socket_id m id s.users)) k l
        | inl y ↦ elim (Option-cases (lookup m.user_id s.users)) [
          | inl absent ↦
              ground (arith, lookup-pushed handle.socket_id m id s.users, new-mirrors o info)
          | inr (p, found) ↦
              ground
                (arith, lookup-pushed handle.socket_id m id s.users, old-mirrors p o info found)
        ]
      ]

      unfoldable pub joined_frame : Str
      joined_frame =
          frame_or
            (if is_first (lookup m.user_id (pushed handle.socket_id m s.users))
              then none
              else s.roster_frame)
            (encode_roster w channel (pushed handle.socket_id m s.users))

      pub joined_frame_lem :
          joined_frame ≡ encode_roster w channel (pushed handle.socket_id m s.users)
      unfolding joined_frame frame_or
      joined_frame_lem =
          let is_new = pushed-is_first handle.socket_id m s.users in
          let kept = pushed-frame w channel handle.socket_id m s.users in
          elim (Option-cases s.roster_frame) [
            | inl e ↦ ground (arith, is_new)
            | inr (f, e) ↦ ground (arith, is_new, kept, v.frame_fresh f e)
          ]

      add_presence-IsValid : IsValid w channel (add_member w channel handle (some m) s).1
      unfolding add_member joining joined_frame cached_roster_frame
      add_presence-IsValid = record {
        unique = insert-Unique handle.socket_id _ s.subscribers v.unique;
        ascending = pushed-Ascending handle.socket_id m s.users v.ascending;
        indexes = push-Indexes joining m handle.socket_id s.subscribers s.users v.indexes e refl;
        distinct = pushed-Distinct;
        nonempty = pushed-nonempty;
        mirrors = pushed-MirrorsAt;
        snapshot_fresh = λ l h. cc;
        frame_fresh = λ f h. cc (joined_frame_lem);
      }

  add_member-IsValid :
      (handle : ConnectionHandle Mailbox) (o : Option (PresenceMember Value))
      (s : ChannelState Value Mailbox)
      → IsValid w channel s
      → lookup handle.socket_id s.subscribers ≡ none
      → IsValid w channel (add_member w channel handle o s).1
  add_member-IsValid handle none s v e = add_plain-IsValid handle s v e
  add_member-IsValid handle (some m) s v e = add_presence-IsValid handle s v e m

  -- `add` keeps the state consistent.
  pub add-IsValid :
      (handle : ConnectionHandle Mailbox) (o : Option (PresenceMember Value))
      (s : ChannelState Value Mailbox)
      → IsValid w channel s
      → IsValid w channel (add w channel handle o s).1
  unfolding add
  add-IsValid handle o s v =
      add_member-IsValid handle o (remove w handle.socket_id s).1
        (remove-IsValid w channel handle.socket_id s v)
        (ground (
          arith,
          lookup-remove_state w handle.socket_id handle.socket_id s,
          socket_id_beq_iff handle.socket_id handle.socket_id,
        ))
