-- ===== src/Channel/Users.antt =====
-- src/channel/state.rs: the users of a presence channel, and what `add` and `remove` do to an entry.
use pylon.Prelude.{
  Bool, false, not, Option, none, some, List, [], ◌∷◌, ◌++◌, ◌==◌, nat_beq, if◌then◌else◌, list_eq,
  nat_eq, length, retain, first,
}
use pylon.Maps.Assoc.{contains_key, keys}
use pylon.Maps.BTree.{insert_sorted, bytes_ord}
use pylon.Protocol.SocketId.{Str, SocketId, socket_id_eq}
use pylon.Protocol.Event.{Wire, PresencePayload, subscription_succeeded, active_version}
use pylon.Channel.Types.{PresenceMember, PresenceUser}

abbrev pub Users : Type 0 → Type 0
Users Value = List (Str × PresenceUser Value)

module _ {Value : Type 0} where
  unfoldable pub info_entries : Users Value → List (Str × Value)
  info_entries [] = []
  info_entries ((id, u) ∷ us) = (id, u.user_info) ∷ info_entries us

  -- `roster`: a `serde_json::Map` keeps its keys in order
  unfoldable pub roster : Users Value → PresencePayload Value
  unfolding info_entries
  roster users = record { ids = keys users; hash = info_entries users; count = length users }

  -- `members`
  unfoldable pub members : Users Value → List (PresenceMember Value)
  members [] = []
  members ((id, u) ∷ us) = record { user_id = id; user_info = u.user_info } ∷ members us

  -- `user.user_info = info`
  unfoldable pub set_info : Value → PresenceUser Value → PresenceUser Value
  set_info info u = record u { user_info = info }

  -- `u.conns.retain(|s| s != socket_id)`
  unfoldable pub drop_conn : SocketId → PresenceUser Value → PresenceUser Value
  drop_conn sid u = record u { conns = retain (λ c. not (c == sid)) u.conns }

  -- `u.conns.push(socket_id)`
  unfoldable pub push_conn : SocketId → PresenceUser Value → PresenceUser Value
  push_conn sid u = record u { conns = u.conns ++ sid ∷ [] }

  -- `u.conns.first()`
  unfoldable pub oldest_of : Option (PresenceUser Value) → Option SocketId
  oldest_of none = none
  oldest_of (some u) = first u.conns

  -- `u.conns.len() == 1`
  unfoldable pub is_first : Option (PresenceUser Value) → Bool
  is_first none = false
  is_first (some u) = nat_beq (length u.conns) 1

  -- `entry(m.user_id).or_insert_with(..)`
  unfoldable pub or_insert : PresenceMember Value → Users Value → Users Value
  or_insert m users =
      if contains_key m.user_id users
      then users
      else insert_sorted m.user_id (record { user_info = m.user_info; conns = [] }) users

  -- The frame that `cached_roster_frame` encodes for these users.
  unfoldable pub encode_roster : Wire Value → Str → Users Value → Str
  unfolding roster
  encode_roster w channel users =
      w.encode active_version (subscription_succeeded channel (some (roster users)))

unfoldable pub frame_or : Option Str → Str → Str
frame_or none fresh = fresh
frame_or (some f) fresh = f
