-- ===== src/Adapter/Connections.antt =====
-- src/adapter/app_registry.rs: the connections of each app.
use pylon.Prelude.{Option, none, some, List, [], if◌then◌else◌, is_empty, nat_eq, list_eq}
use pylon.Maps.Assoc.{insert as map_insert, remove as map_remove, keys, values}
use pylon.Maps.Shards.{DashMap}
use pylon.Protocol.SocketId.{Str, SocketId, socket_id_eq}
use pylon.Channel.Types.{ConnectionHandle}
use pylon.User.Registry.{Sockets}

module _ {Mailbox : Type 0} (d : DashMap Str (Sockets Mailbox)) where
  open d use {Map, get, put, delete, entries}

  unfoldable pub inserted : ConnectionHandle Mailbox → Option (Sockets Mailbox) → Sockets Mailbox
  inserted handle none = map_insert handle.socket_id handle []
  inserted handle (some set) = map_insert handle.socket_id handle set

  -- `AppRegistry::insert`
  unfoldable pub insert_connection : Map → Str → ConnectionHandle Mailbox → Map
  unfolding inserted
  insert_connection m app_id handle = put m app_id (inserted handle (get m app_id))

  unfoldable pub pruned : Map → Str → Option (Sockets Mailbox) → Map
  pruned m app_id none = m
  pruned m app_id (some set) = if is_empty set then delete m app_id else m

  -- `AppRegistry::remove`: under the entry's guard, and then `remove_if`
  unfoldable pub remove_connection : Map → Str → SocketId → Map
  unfolding pruned
  remove_connection m app_id sid = elim (get m app_id) [
    | none ↦ m
    | some set ↦ let m' = put m app_id (map_remove sid set) in pruned m' app_id (get m' app_id)
  ]

  unfoldable pub handles_of : Option (Sockets Mailbox) → List (ConnectionHandle Mailbox)
  handles_of none = []
  handles_of (some set) = values set

  -- `drain_app`
  unfoldable pub drain_app : Map → Str → List (ConnectionHandle Mailbox) × Map
  unfolding handles_of
  drain_app m app_id = (handles_of (get m app_id), delete m app_id)

  -- `connected_app_ids`
  unfoldable pub connected_app_ids : Map → List Str
  connected_app_ids m = keys (entries m)
