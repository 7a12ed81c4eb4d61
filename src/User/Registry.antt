-- ===== src/User/Registry.antt =====
-- src/user/registry.rs: signed-in users and the watchers of users, by app.
pub mod Watch
pub mod Online
pub mod Calls
pub mod Examples
use mathlib.Core.Option
use pylon.Prelude.{
  Bool, true, false, not, Option, none, some, List, [], ◌∷◌, ◌++◌, ◌==◌, nat_eq, list_eq, pair_eq,
  if◌then◌else◌, is_empty, retain, map,
}
use pylon.Maps.Assoc.{insert, remove as map_remove, keys, values}
use pylon.Maps.Shards.{DashMap}
use pylon.Protocol.SocketId.{Str, SocketId, socket_id_eq}
use pylon.Channel.Types.{ConnectionHandle}

-- The app and the user.
abbrev pub UserKey : Type 0
UserKey = Str × Str

-- `HashMap<SocketId, ConnectionHandle>`
abbrev pub Sockets : Type 0 → Type 0
Sockets Mailbox = List (SocketId × ConnectionHandle Mailbox)

pub record UserJoinOutcome : Type 0 where
  pub first_for_user : Bool

pub record UserLeaveOutcome : Type 0 where
  pub last_for_user : Bool

module _ {Mailbox : Type 0} (d : DashMap UserKey (Sockets Mailbox))
    (b : DashMap (Str × SocketId) (List Str)) where
  pub record UserRegistry : Type 0 where
    pub users : d.Map
    pub watchers : d.Map
    pub watching : b.Map

  -- `UserRegistry::default`
  abbrev pub no_users : UserRegistry
  no_users = record { users = d.empty; watchers = d.empty; watching = b.empty }

  -- The entry's sockets, or none.
  abbrev pub sockets_at : d.Map → UserKey → Sockets Mailbox
  sockets_at m key = Option.get_or (d.get m key) []

  -- `remove_if(&key, |_, set| set.is_empty())`, and whether it removed
  unfoldable pub remove_if_empty : d.Map → UserKey → Bool × d.Map
  remove_if_empty m key = elim (d.get m key) [
    | none ↦ (false, m)
    | some set ↦ if is_empty set then (true, d.delete m key) else (false, m)
  ]

  -- `signin`
  unfoldable pub signin :
      UserRegistry → Str → Str → ConnectionHandle Mailbox → UserJoinOutcome × UserRegistry
  signin r app user_id handle =
      let entry = sockets_at r.users (app, user_id) in
      (
        record { first_for_user = is_empty entry },
        record r { users = d.put r.users (app, user_id) (insert handle.socket_id handle entry) },
      )

  unfoldable pub signout_entry :
      UserRegistry → UserKey → SocketId → Option (Sockets Mailbox) → UserLeaveOutcome × UserRegistry
  signout_entry r key sid none = (record { last_for_user = false }, r)
  signout_entry r key sid (some entry) =
      let left = map_remove sid entry in
      (
        record { last_for_user = is_empty left },
        record r { users = (remove_if_empty (d.put r.users key left) key).1 },
      )

  -- `signout`
  unfoldable pub signout : UserRegistry → Str → Str → SocketId → UserLeaveOutcome × UserRegistry
  unfolding signout_entry
  signout r app user_id sid = signout_entry r (app, user_id) sid (d.get r.users (app, user_id))

  -- `handles`
  unfoldable pub handles : UserRegistry → Str → Str → List (ConnectionHandle Mailbox)
  handles r app user_id = values (sockets_at r.users (app, user_id))

  -- `is_online`
  unfoldable pub is_online : UserRegistry → Str → Str → Bool
  is_online r app user_id = elim (d.get r.users (app, user_id)) [
    | none ↦ false
    | some entry ↦ not (is_empty entry)
  ]

  unwatch_entry : Str → SocketId → Str → Option (Sockets Mailbox) → d.Map → List Str × d.Map
  unwatch_entry app sid user_id none m = ([], m)
  unwatch_entry app sid user_id (some set) m =
      let (gone, m') =
        remove_if_empty (d.put m (app, user_id) (map_remove sid set)) (app, user_id) in
      (if gone then user_id ∷ [] else [], m')

  -- The loop of `unwatch`.
  pub unwatch_each : Str → SocketId → List Str → d.Map → List Str × d.Map
  unfolding unwatch_entry
  unwatch_each app sid [] m = ([], m)
  unwatch_each app sid (u ∷ us) m =
      let (gone, m') = unwatch_entry app sid u (d.get m (app, u)) m in
      let (more, m'') = unwatch_each app sid us m' in (gone ++ more, m'')

  unwatch_found : UserRegistry → Str → SocketId → Option (List Str) → List Str × UserRegistry
  unfolding unwatch_each
  unwatch_found r app sid none = ([], r)
  unwatch_found r app sid (some watched) =
      let (now_empty, m) = unwatch_each app sid watched r.watchers in
      (now_empty, record r { watchers = m; watching = b.delete r.watching (app, sid) })

  -- `unwatch`
  unfoldable pub unwatch : UserRegistry → Str → SocketId → List Str × UserRegistry
  unfolding unwatch_found
  unwatch r app sid = unwatch_found r app sid (b.get r.watching (app, sid))

  -- The loop of `watch`.
  pub watch_each : Str → ConnectionHandle Mailbox → List Str → d.Map → List Str × d.Map
  watch_each app handle [] m = ([], m)
  watch_each app handle (u ∷ us) m =
      let entry = sockets_at m (app, u) in
      let (newly, m') =
        watch_each app handle us (d.put m (app, u) (insert handle.socket_id handle entry)) in
      (if is_empty entry then u ∷ newly else newly, m')

  -- `watch`: the watched users that are online, and those that gained their first watcher
  unfoldable pub watch :
      UserRegistry
      → Str
      → ConnectionHandle Mailbox
      → List Str
      → (List Str × List Str) × UserRegistry
  unfolding unwatch watch_each is_online
  watch r app handle watched =
      let r' = (unwatch r app handle.socket_id).1 in
      let (newly_watched, m) = watch_each app handle watched r'.watchers in
      (
        (retain (λ u. is_online r' app u) watched, newly_watched),
        record r' { watchers = m; watching = b.put r'.watching (app, handle.socket_id) watched },
      )

  -- `watchers_of`
  unfoldable pub watchers_of : UserRegistry → Str → Str → List (ConnectionHandle Mailbox)
  watchers_of r app user_id = values (sockets_at r.watchers (app, user_id))

  bindings : List (UserKey × Sockets Mailbox) → List (UserKey × List SocketId)
  bindings [] = []
  bindings ((key, entry) ∷ rest) =
      let later = bindings rest in if is_empty entry then later else (key, keys entry) ∷ later

  -- `local_bindings`
  unfoldable pub local_bindings : UserRegistry → List (UserKey × List SocketId)
  unfolding bindings
  local_bindings r = bindings (d.entries r.users)
