-- ===== src/Channel/Kind/Examples.antt =====
-- src/channel/kind.rs: names of each kind.
use pylon.Prelude.{◌≡◌, refl, true, ◌||◌, [], ◌∷◌, ◌++◌}
use pylon.Protocol.SocketId.{Str}
use pylon.Channel.Registry.{starts_with}
use pylon.Channel.Kind.{
  private_prefix, presence_prefix, requires_auth, channel_info_of, validate_channel_name,
}
use pylon.Channel.Kind.Classes.{channel_info_of-requires_auth}

-- "room"
abbrev room : Str
room = 114 ∷ 111 ∷ 111 ∷ 109 ∷ []

room-validate : validate_channel_name room 164 ≡ true
unfolding validate_channel_name
room-validate = refl

channel_info_of-requires_auth_example :
    requires_auth (channel_info_of (presence_prefix ++ room)).auth ≡ (
      starts_with (presence_prefix ++ room) private_prefix
      || starts_with (presence_prefix ++ room) presence_prefix)
channel_info_of-requires_auth_example = channel_info_of-requires_auth (presence_prefix ++ room)
