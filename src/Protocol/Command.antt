-- ===== src/Protocol/Command.antt =====
-- src/protocol/command.rs, and the capabilities of src/protocol/codec.rs.
use pylon.Prelude.{Bool, true, Option}
use pylon.Protocol.SocketId.{Str}

pub data ClientCommand (Value : Type 0) : Type 0 where
  ping : ClientCommand Value
  subscribe : Str → Option Str → Option Str → ClientCommand Value
  unsubscribe : Str → ClientCommand Value
  client_event : Str → Str → Value → ClientCommand Value
  signin : Str → Str → ClientCommand Value
  unknown : Str → ClientCommand Value

pub record Capabilities : Type 0 where
  pub client_events : Bool
  pub presence : Bool
  pub encrypted_channels : Bool
  pub cache_channels : Bool
  pub user_auth : Bool
  pub watchlist : Bool

-- `Capabilities::v7`
abbrev pub v7 : Capabilities
v7 = record {
  client_events = true;
  presence = true;
  encrypted_channels = true;
  cache_channels = true;
  user_auth = true;
  watchlist = true;
}
