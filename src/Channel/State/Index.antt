-- ===== src/Channel/State/Index.antt =====
-- src/channel/state.rs: `users` as an index of `subscribers`: who is connected for a user.
use pylon.Prelude.{
  ◌≡◌, Bool, false, not, Option, none, some, List, [], ◌∷◌, ◌++◌, arith, ◌==◌, list_eq, nat_eq,
  if◌then◌else◌, contains, contains-retain, contains-append, retain, first, ap, ◌∙◌, list_beq_iff,
}
use pylon.Maps.Assoc.{
  lookup, remove as map_remove, insert, modify, lookup-modify, lookup-remove, lookup-insert,
  contains_key-lookup,
}
use pylon.Maps.BTree.{bytes_ord, lookup-insert_sorted}
use pylon.Protocol.SocketId.{Str, SocketId, socket_id_eq, socket_id_beq_iff}
use pylon.Channel.Types.{PresenceMember, Subscriber, PresenceUser}
use pylon.Channel.Users.{Users, set_info, drop_conn, push_conn, oldest_of, or_insert}

module _ {Value : Type 0} where
  abbrev pub entry_conns : Option (PresenceUser Value) → List SocketId
  entry_conns none = []
  entry_conns (some u) = u.conns

  -- The connections that the index holds for a user.
  abbrev pub conns_of : Str → Users Value → List SocketId
  conns_of id users = entry_conns (lookup id users)

  abbrev pub member_is : Str → Option (PresenceMember Value) → Bool
  member_is id none = false
  member_is id (some m) = m.user_id == id

module _ {Value : Type 0} where
  pub conns_of-drop :
      (k id : Str) (sid : SocketId) (users : Users Value)
      → conns_of id (modify k (drop_conn sid) users)
        ≡ (if k == id then retain (λ c. not (c == sid)) (conns_of id users) else conns_of id users)
  unfolding drop_conn
  conns_of-drop k id sid users = ground (arith, lookup-modify k id (drop_conn sid) users)

  pub conns_of-set_info :
      (k id : Str) (info : Value) (users : Users Value)
      → conns_of id (modify k (set_info info) users) ≡ conns_of id users
  unfolding set_info
  conns_of-set_info k id info users = ground (arith, lookup-modify k id (set_info info) users)

  pub conns_of-remove :
      (k id : Str) (users : Users Value)
      → conns_of id (map_remove k users) ≡ (if k == id then [] else conns_of id users)
  conns_of-remove k id users = ground (arith, lookup-remove k id users)

  pub conns_of-push :
      (m : PresenceMember Value) (id : Str) (sid : SocketId) (users : Users Value)
      → conns_of id (modify m.user_id (push_conn sid) (or_insert m users))
        ≡ (if m.user_id == id then conns_of id users ++ sid ∷ [] else conns_of id users)
  unfolding push_conn or_insert
  conns_of-push m id sid users = ground (
    arith,
    lookup-modify m.user_id id (push_conn sid) (or_insert m users),
    lookup-insert_sorted m.user_id id (record { user_info = m.user_info; conns = [] }) users,
    contains_key-lookup m.user_id users,
    list_beq_iff m.user_id id,
  )

  pub oldest_of-conns :
      (id : Str) (users : Users Value) → oldest_of (lookup id users) ≡ first (conns_of id users)
  unfolding oldest_of
  oldest_of-conns id users = ground arith

abbrev pub Subscribers : Type 0 → Type 0 → Type 0
Subscribers Value Mailbox = List (SocketId × Subscriber Value Mailbox)

module _ {Value Mailbox : Type 0} where
  -- Whether a looked up subscriber joined as the user.
  abbrev pub joined_as : Str → Option (Subscriber Value Mailbox) → Bool
  joined_as id none = false
  joined_as id (some sub) = member_is id sub.member

  -- The index holds exactly the subscribers that joined as the user.
  abbrev pub Indexes : Subscribers Value Mailbox → Users Value → Type 0
  Indexes subs users =
      (id : Str) (c : SocketId) → contains (conns_of id users) c ≡ joined_as id (lookup c subs)

  pub forget-Indexes :
      (sid : SocketId) (sub : Subscriber Value Mailbox) (subs : Subscribers Value Mailbox)
      (users : Users Value)
      → Indexes subs users
      → lookup sid subs ≡ some sub
      → sub.member ≡ none
      → Indexes (map_remove sid subs) users
  forget-Indexes sid sub subs users h e n id c =
      ground (arith, h id c, h id sid, lookup-remove sid c subs, socket_id_beq_iff sid c)

  pub drop-Indexes :
      (sid : SocketId) (sub : Subscriber Value Mailbox) (m : PresenceMember Value)
      (subs : Subscribers Value Mailbox) (users : Users Value)
      → Indexes subs users
      → lookup sid subs ≡ some sub
      → sub.member ≡ some m
      → Indexes (map_remove sid subs) (modify m.user_id (drop_conn sid) users)
  drop-Indexes sid sub m subs users h e n id c = ground (
    arith,
    h id c,
    h id sid,
    conns_of-drop m.user_id id sid users,
    contains-retain (λ c. not (c == sid)) (conns_of id users) c,
    lookup-remove sid c subs,
    socket_id_beq_iff sid c,
    socket_id_beq_iff c sid,
  )

  pub prune-Indexes :
      (k : Str) (subs : Subscribers Value Mailbox) (users : Users Value)
      → Indexes subs users
      → oldest_of (lookup k users) ≡ none
      → Indexes subs (map_remove k users)
  prune-Indexes k subs users h e id c =
      ground (arith, h id c, conns_of-remove k id users, oldest_of-conns k users, list_beq_iff k id)

  pub set_info-Indexes :
      (k : Str) (info : Value) (subs : Subscribers Value Mailbox) (users : Users Value)
      → Indexes subs users
      → Indexes subs (modify k (set_info info) users)
  set_info-Indexes k info subs users h id c =
      ap (λ cs. contains cs c) (conns_of-set_info k id info users) ∙ h id c

  pub push-Indexes :
      (sub : Subscriber Value Mailbox) (m : PresenceMember Value) (sid : SocketId)
      (subs : Subscribers Value Mailbox) (users : Users Value)
      → Indexes subs users
      → lookup sid subs ≡ none
      → sub.member ≡ some m
      → Indexes (insert sid sub subs) (modify m.user_id (push_conn sid) (or_insert m users))
  push-Indexes sub m sid subs users h e n id c = ground (
    arith,
    h id c,
    h id sid,
    conns_of-push m id sid users,
    contains-append (conns_of id users) (sid ∷ []) c,
    lookup-insert sid c sub subs,
    socket_id_beq_iff sid c,
  )
