-- ===== src/Channel/State/History.antt =====
-- src/channel/state.rs: a channel after any sequence of `add` and `remove`.
use pylon.Prelude.{
  ◌≡◌, refl, Option, none, some, List, [], ◌∷◌, arith, ◌==◌, if◌then◌else◌, list_eq, nat_eq,
}
use pylon.Maps.Assoc.{lookup, lookup-insert}
use pylon.Protocol.SocketId.{Str, SocketId, socket_id_eq}
use pylon.Protocol.Event.{Wire}
use pylon.Channel.Types.{PresenceMember, Subscriber, ChannelState, ConnectionHandle, default}
use pylon.Channel.State.{add, remove, add_member, cached_roster_frame}
use pylon.Channel.State.Valid.{IsValid}
use pylon.Channel.State.Leave.{remove-IsValid}
use pylon.Channel.State.Join.{lookup-remove_state, add-IsValid}

pub data Change (Value Mailbox : Type 0) : Type 0 where
  joins : ConnectionHandle Mailbox → Option (PresenceMember Value) → Change Value Mailbox
  leaves : SocketId → Change Value Mailbox

module _ {Value Mailbox : Type 0} where
  -- The membership that a history leaves a socket with: its last change counts. The last change
  -- stands first in the list.
  abbrev pub last_change :
      SocketId → List (Change Value Mailbox) → Option (Subscriber Value Mailbox)
  last_change c [] = none
  last_change c (joins handle member ∷ cs) =
      if handle.socket_id == c
      then some (record { handle = handle; member = member })
      else last_change c cs
  last_change c (leaves sid ∷ cs) = if sid == c then none else last_change c cs

module _ {Value Mailbox : Type 0} (w : Wire Value) (channel : Str) where
  unfoldable pub history : List (Change Value Mailbox) → ChannelState Value Mailbox
  history [] = default
  history (joins handle member ∷ cs) = (add w channel handle member (history cs)).1
  history (leaves sid ∷ cs) = (remove w sid (history cs)).1

  pub default-IsValid : IsValid {Mailbox = Mailbox} w channel default
  default-IsValid = record {
    unique = tt;
    ascending = tt;
    indexes = λ id c. refl;
    distinct = λ id. tt;
    nonempty = λ id u h. cc;
    mirrors = λ id u o info h k l. cc;
    snapshot_fresh = λ l h. cc;
    frame_fresh = λ f h. cc;
  }

  -- After any joins and leaves the channel is consistent: one entry for a socket; the users in
  -- order; each user's entry holds exactly its sockets, once each, and at least one; the entry's
  -- `user_info` equals that of its oldest socket; and a filled cell holds what a fresh computation
  -- gives.
  pub history-IsValid : (cs : List (Change Value Mailbox)) → IsValid w channel (history cs)
  unfolding history
  history-IsValid [] = default-IsValid
  history-IsValid (joins handle member ∷ cs) =
      add-IsValid w channel handle member (history cs) (history-IsValid cs)
  history-IsValid (leaves sid ∷ cs) = remove-IsValid w channel sid (history cs) (history-IsValid cs)

  lookup-add_member :
      (handle : ConnectionHandle Mailbox) (o : Option (PresenceMember Value)) (c : SocketId)
      (s : ChannelState Value Mailbox)
      → lookup c (add_member w channel handle o s).1.subscribers ≡ (
          if handle.socket_id == c
          then some (record { handle = handle; member = o })
          else lookup c s.subscribers)
  unfolding add_member cached_roster_frame
  lookup-add_member handle none c s = lookup-insert handle.socket_id c _ s.subscribers
  lookup-add_member handle (some m) c s = lookup-insert handle.socket_id c _ s.subscribers

  pub lookup-add :
      (handle : ConnectionHandle Mailbox) (o : Option (PresenceMember Value)) (c : SocketId)
      (s : ChannelState Value Mailbox)
      → lookup c (add w channel handle o s).1.subscribers ≡ (
          if handle.socket_id == c
          then some (record { handle = handle; member = o })
          else lookup c s.subscribers)
  unfolding add
  lookup-add handle o c s = ground (
    arith,
    lookup-add_member handle o c (remove w handle.socket_id s).1,
    lookup-remove_state w handle.socket_id c s,
  )

  -- The subscribers implement the map of sockets to their last change.
  pub lookup-history :
      (cs : List (Change Value Mailbox)) (c : SocketId)
      → lookup c (history cs).subscribers ≡ last_change c cs
  unfolding history
  lookup-history [] c = refl
  lookup-history (joins handle member ∷ cs) c =
      ground (arith, lookup-add handle member c (history cs), lookup-history cs c)
  lookup-history (leaves sid ∷ cs) c =
      ground (arith, lookup-remove_state w sid c (history cs), lookup-history cs c)
