-- ===== src/Channel/State/Valid.antt =====
-- src/channel/state.rs: what holds of a channel between two operations.
use pylon.Prelude.{◌≡◌, true, false, none, some, ◌==◌, list_eq, nat_eq, Distinct, first, is_empty}
use pylon.Maps.Assoc.{lookup, Unique}
use pylon.Maps.BTree.{bytes_ord, Ascending}
use pylon.Protocol.SocketId.{Str, SocketId, socket_id_eq}
use pylon.Protocol.Event.{Wire}
use pylon.Channel.Types.{PresenceUser, ChannelState}
use pylon.Channel.Users.{Users, encode_roster}
use pylon.Channel.State.Index.{Subscribers, Indexes, conns_of}
use pylon.Channel.State.{member_info}

module _ {Value Mailbox : Type 0} (w : Wire Value) where
  -- An entry advertises what its oldest connection presented, as far as `==` tells.
  abbrev pub MirrorsAt : Str → Subscribers Value Mailbox → Users Value → Type 0
  MirrorsAt id subs users =
      (u : PresenceUser Value) (oldest : SocketId) (info : Value)
      → lookup id users ≡ some u
      → first u.conns ≡ some oldest
      → member_info (lookup oldest subs) ≡ some info
      → w.value_eq u.user_info info ≡ true

  -- A channel's state is consistent. The last three fields are about the cells that are filled late.
  pub record IsValid (channel : Str) (s : ChannelState Value Mailbox) : Type 0 where
    pub unique : Unique s.subscribers
    pub ascending : Ascending s.users
    pub indexes : Indexes s.subscribers s.users
    pub distinct : (id : Str) → Distinct (conns_of id s.users)
    pub nonempty :
        (id : Str) (u : PresenceUser Value) → lookup id s.users ≡ some u → is_empty u.conns ≡ false
    pub mirrors : (id : Str) → MirrorsAt id s.subscribers s.users
    pub snapshot_fresh : (l : Subscribers Value Mailbox) → s.snapshot ≡ some l → l ≡ s.subscribers
    pub frame_fresh : (f : Str) → s.roster_frame ≡ some f → f ≡ encode_roster w channel s.users

  -- The same while one user's entry awaits its `leave`.
  pub record IsLeaving (channel : Str) (user : Str) (s : ChannelState Value Mailbox) : Type 0 where
    pub unique : Unique s.subscribers
    pub ascending : Ascending s.users
    pub indexes : Indexes s.subscribers s.users
    pub distinct : (id : Str) → Distinct (conns_of id s.users)
    pub nonempty :
        (id : Str) (u : PresenceUser Value)
        → (user == id) ≡ false
        → lookup id s.users ≡ some u
        → is_empty u.conns ≡ false
    pub mirrors : (id : Str) → (user == id) ≡ false → MirrorsAt id s.subscribers s.users
    pub no_snapshot : s.snapshot ≡ none
    pub frame_fresh : (f : Str) → s.roster_frame ≡ some f → f ≡ encode_roster w channel s.users
