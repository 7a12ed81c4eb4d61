-- ===== src/Channel/State/Push.antt =====
-- src/channel/state.rs: the entry of a user after a join.
use mathlib.Core.Option
use pylon.Prelude.{
  ◌≡◌, refl, false, some, List, [], ◌∷◌, ◌++◌, arith, ◌==◌, list_eq, nat_eq, if◌then◌else◌,
  is_empty, list_beq_iff, Bool-cases, inl, inr, length, length-append,
}
use pylon.Maps.Assoc.{lookup, modify, contains_key, lookup-modify, contains_key-lookup}
use pylon.Maps.BTree.{
  bytes_ord, Ascending, modify-Ascending, insert_sorted-Ascending, lookup-insert_sorted,
}
use pylon.Protocol.SocketId.{Str, SocketId}
use pylon.Protocol.Event.{Wire}
use pylon.Channel.Types.{PresenceMember, PresenceUser}
use pylon.Channel.Users.{Users, push_conn, or_insert, encode_roster, is_first}
use pylon.Channel.State.Index.{conns_of}
use pylon.Channel.State.Frame.{encode_roster-modify, push_conn_info}

module _ {Value : Type 0} where
  abbrev pub pushed : SocketId → PresenceMember Value → Users Value → Users Value
  pushed sid m users = modify m.user_id (push_conn sid) (or_insert m users)

  abbrev pub entry_of : PresenceMember Value → Users Value → PresenceUser Value
  entry_of m users =
      Option.get_or (lookup m.user_id users) (record { user_info = m.user_info; conns = [] })

  pub lookup-pushed :
      (sid : SocketId) (m : PresenceMember Value) (id : Str) (users : Users Value)
      → lookup id (pushed sid m users)
        ≡ (if m.user_id == id then some (push_conn sid (entry_of m users)) else lookup id users)
  unfolding or_insert
  lookup-pushed sid m id users = ground (
    arith,
    lookup-modify m.user_id id (push_conn sid) (or_insert m users),
    lookup-insert_sorted m.user_id id (record { user_info = m.user_info; conns = [] }) users,
    contains_key-lookup m.user_id users,
    list_beq_iff m.user_id id,
  )

  pub pushed-Ascending :
      (sid : SocketId) (m : PresenceMember Value) (users : Users Value)
      → Ascending users
      → Ascending (pushed sid m users)
  unfolding or_insert
  pushed-Ascending sid m users a =
      modify-Ascending m.user_id (push_conn sid) (or_insert m users) inserted
    where
      inserted : Ascending (or_insert m users)
      inserted = elim (Bool-cases (contains_key m.user_id users)) [
        | inl old ↦ rw old a
        | inr new ↦ rw new (insert_sorted-Ascending m.user_id _ users a)
      ]

  is_first-push :
      (sid : SocketId) (u : PresenceUser Value)
      → is_first (some (push_conn sid u)) ≡ is_empty u.conns
  unfolding is_first push_conn
  is_first-push sid u = go u.conns
    where
      go : (xs : List SocketId) → (length (xs ++ sid ∷ []) == 1) ≡ is_empty xs
      go [] = refl
      go (x ∷ xs) = ground (arith, length-append xs (sid ∷ []))

  -- `first_for_user` is that the user had no connection.
  pub pushed-is_first :
      (sid : SocketId) (m : PresenceMember Value) (users : Users Value)
      → is_first (lookup m.user_id (pushed sid m users)) ≡ is_empty (conns_of m.user_id users)
  pushed-is_first sid m users = ground (
    arith,
    lookup-pushed sid m m.user_id users,
    list_beq_iff m.user_id m.user_id,
    is_first-push sid (entry_of m users),
  )

  pub pushed-frame :
      (w : Wire Value) (channel : Str) (sid : SocketId) (m : PresenceMember Value)
      (users : Users Value)
      → is_empty (conns_of m.user_id users) ≡ false
      → encode_roster w channel (pushed sid m users) ≡ encode_roster w channel users
  unfolding or_insert
  pushed-frame w channel sid m users h = elim (Bool-cases (contains_key m.user_id users)) [
    | inl old ↦
        rw old (encode_roster-modify w channel m.user_id (push_conn sid) users (push_conn_info sid))
    | inr new ↦ ground (arith, contains_key-lookup m.user_id users)
  ]
