-- ===== src/Channel/Types.antt =====
-- The data of src/channel/state.rs, src/channel/outcome.rs, src/presence/member.rs and
-- src/connection/handle.rs.
use pylon.Prelude.{Bool, false, ◌||◌, Option, List, none, [], ◌∷◌, ◌==◌, list_eq, nat_eq}
use pylon.Protocol.SocketId.{Str, SocketId}

pub record PresenceMember (Value : Type 0) : Type 0 where
  pub user_id : Str
  pub user_info : Value

-- `mailbox` names the connection's mailbox.
pub record ConnectionHandle (Mailbox : Type 0) : Type 0 where
  pub socket_id : SocketId
  pub mailbox : Mailbox

pub record Subscriber (Value Mailbox : Type 0) : Type 0 where
  pub handle : ConnectionHandle Mailbox
  pub member : Option (PresenceMember Value)

pub record PresenceUser (Value : Type 0) : Type 0 where
  pub user_info : Value
  pub conns : List SocketId

pub record ChannelState (Value Mailbox : Type 0) : Type 0 where
  pub subscribers : List (SocketId × Subscriber Value Mailbox)
  pub users : List (Str × PresenceUser Value)
  pub snapshot : Option (List (SocketId × Subscriber Value Mailbox))
  pub roster_frame : Option Str

pub record PresenceJoin (Value : Type 0) : Type 0 where
  pub first_for_user : Bool
  pub roster_frame : Str
  pub member : PresenceMember Value

pub record PresenceLeave : Type 0 where
  pub last_for_user : Bool
  pub user_id : Str

module _ {Value Mailbox : Type 0} where
  -- `ChannelState::default`
  abbrev pub default : ChannelState Value Mailbox
  default = record { subscribers = []; users = []; snapshot = none; roster_frame = none }

module _ {Value : Type 0} where
  -- `members.iter().any(|m| m.user_id == user_id)`
  unfoldable pub has_user : Str → List (PresenceMember Value) → Bool
  has_user user_id [] = false
  has_user user_id (m ∷ ms) = m.user_id == user_id || has_user user_id ms
