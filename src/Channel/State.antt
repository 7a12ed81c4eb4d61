-- ===== src/Channel/State.antt =====
-- src/channel/state.rs: the operations of one channel.
pub mod Index
pub mod Valid
pub mod Frame
pub mod Leave
pub mod Push
pub mod Join
pub mod Edges
pub mod History
pub mod Count
use mathlib.Core.Option
use pylon.Prelude.{
  ℕ, Bool, true, false, Option, none, some, List, list_eq, nat_eq, if◌then◌else◌, length, is_empty,
}
use pylon.Maps.Assoc.{lookup, remove as map_remove, insert, modify, keys}
use pylon.Protocol.SocketId.{Str, SocketId, socket_id_eq}
use pylon.Protocol.Event.{Wire}
use pylon.Channel.Types.{
  PresenceMember, ConnectionHandle, Subscriber, PresenceUser, ChannelState, PresenceJoin,
  PresenceLeave,
}
use pylon.Channel.Users.{
  set_info, drop_conn, push_conn, oldest_of, is_first, or_insert, encode_roster, frame_or,
}

module _ {Value Mailbox : Type 0} where
  -- `subscription_count`
  unfoldable pub subscription_count : ChannelState Value Mailbox → ℕ
  subscription_count s = length s.subscribers

  unfoldable pub state_is_empty : ChannelState Value Mailbox → Bool
  state_is_empty s = is_empty s.subscribers

  -- `socket_ids`
  unfoldable pub socket_ids : ChannelState Value Mailbox → List SocketId
  socket_ids s = keys s.subscribers

  -- `user_count`
  unfoldable pub user_count : ChannelState Value Mailbox → Option ℕ
  user_count s = if is_empty s.users then none else some (length s.users)

  unfoldable pub member_info : Option (Subscriber Value Mailbox) → Option Value
  member_info none = none
  member_info (some sub) = Option.map (λ m. m.user_info) sub.member

module _ {Value Mailbox : Type 0} (w : Wire Value) where
  -- `cached_roster_frame`, with the state in which the cell is filled
  unfoldable pub cached_roster_frame :
      Str → ChannelState Value Mailbox → Str × ChannelState Value Mailbox
  unfolding frame_or encode_roster
  cached_roster_frame channel s =
      let f = frame_or s.roster_frame (encode_roster w channel s.users) in
      (f, record s { roster_frame = some f })

  reseat_entry :
      Str
      → Value
      → Option (PresenceUser Value)
      → ChannelState Value Mailbox
      → ChannelState Value Mailbox
  reseat_entry user_id info none s = s
  reseat_entry user_id info (some user) s =
      if w.value_eq user.user_info info
      then s
      else record s { users = modify user_id (set_info info) s.users; roster_frame = none }

  reseat_with : Str → Option Value → ChannelState Value Mailbox → ChannelState Value Mailbox
  unfolding reseat_entry
  reseat_with user_id none s = s
  reseat_with user_id (some info) s = reseat_entry user_id info (lookup user_id s.users) s

  -- `reseat_user_info`
  reseat_user_info : Str → SocketId → ChannelState Value Mailbox → ChannelState Value Mailbox
  unfolding reseat_with member_info
  reseat_user_info user_id oldest s =
      reseat_with user_id (member_info (lookup oldest s.subscribers)) s

  leave :
      PresenceMember Value
      → Option SocketId
      → ChannelState Value Mailbox
      → Option PresenceLeave × ChannelState Value Mailbox
  unfolding reseat_user_info
  leave m none s = (
    some (record { last_for_user = true; user_id = m.user_id }),
    record s { users = map_remove m.user_id s.users; roster_frame = none },
  )
  leave m (some oldest) s = (
    some (record { last_for_user = false; user_id = m.user_id }),
    reseat_user_info m.user_id oldest s,
  )

  remove_member :
      SocketId
      → Option (PresenceMember Value)
      → ChannelState Value Mailbox
      → Option PresenceLeave × ChannelState Value Mailbox
  unfolding leave drop_conn oldest_of
  remove_member sid none s = (none, s)
  remove_member sid (some m) s =
      let users = modify m.user_id (drop_conn sid) s.users in
      leave m (oldest_of (lookup m.user_id users)) (record s { users = users })

  remove_found :
      SocketId
      → Option (Subscriber Value Mailbox)
      → ChannelState Value Mailbox
      → Option PresenceLeave × ChannelState Value Mailbox
  unfolding remove_member
  remove_found sid none s = (none, s)
  remove_found sid (some sub) s =
      remove_member sid sub.member
        (record s { subscribers = map_remove sid s.subscribers; snapshot = none })

  -- `remove`
  unfoldable pub remove :
      SocketId → ChannelState Value Mailbox → Option PresenceLeave × ChannelState Value Mailbox
  unfolding remove_found
  remove sid s = remove_found sid (lookup sid s.subscribers) s

  add_member :
      Str
      → ConnectionHandle Mailbox
      → Option (PresenceMember Value)
      → ChannelState Value Mailbox
      → Option (PresenceJoin Value) × ChannelState Value Mailbox
  unfolding or_insert push_conn is_first cached_roster_frame
  add_member channel handle none s =
      let sub : Subscriber Value Mailbox = record { handle = handle; member = none } in
      (none, record s { subscribers = insert handle.socket_id sub s.subscribers; snapshot = none })
  add_member channel handle (some m) s =
      let users = modify m.user_id (push_conn handle.socket_id) (or_insert m s.users) in
      let is_new = is_first (lookup m.user_id users) in
      let sub : Subscriber Value Mailbox = record { handle = handle; member = some m } in
      let (frame, t) = cached_roster_frame channel (record {
        subscribers = insert handle.socket_id sub s.subscribers;
        users = users;
        snapshot = none;
        roster_frame = if is_new then none else s.roster_frame;
      }) in
      (some (record { first_for_user = is_new; roster_frame = frame; member = m }), t)

  -- `add`
  unfoldable pub add :
      Str
      → ConnectionHandle Mailbox
      → Option (PresenceMember Value)
      → ChannelState Value Mailbox
      → Option (PresenceJoin Value) × ChannelState Value Mailbox
  unfolding remove add_member
  add channel handle member s = add_member channel handle member (remove handle.socket_id s).1
