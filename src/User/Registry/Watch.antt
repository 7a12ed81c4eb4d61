-- ===== src/User/Registry/Watch.antt =====
-- src/user/registry.rs: the two indexes of watching agree.
use mathlib.Core.Option
use pylon.Prelude.{
  ◌≡◌, refl, Bool, true, false, ◌&&◌, Option, none, some, List, [], ◌∷◌, arith, ◌==◌, nat_eq,
  list_eq, list_beq_iff, beq_refl, pair_eq, if◌then◌else◌, is_empty, contains, Option-cases,
  Bool-cases, inl, inr,
}
use pylon.Maps.Assoc.{lookup, insert, remove as map_remove, lookup-insert, lookup-remove}
use pylon.Maps.Shards.{DashMap}
use pylon.Protocol.SocketId.{Str, SocketId, socket_id_eq, socket_id_beq_iff}
use pylon.Channel.Types.{ConnectionHandle}
use pylon.Channel.State.Count.{lookup_of_empty}
use pylon.User.Registry.{
  UserKey, Sockets, UserRegistry, sockets_at, remove_if_empty, unwatch, unwatch_each, unwatch_entry,
  unwatch_found, watch, watch_each,
}

abbrev pub is_some {ℓ} : {A : Type ℓ} → Option A → Bool
is_some none = false
is_some (some a) = true

module _ {Mailbox : Type 0} (d : DashMap UserKey (Sockets Mailbox))
    (b : DashMap (Str × SocketId) (List Str)) where
  -- Whether a socket is among the watchers of a user.
  abbrev pub holds : d.Map → Str → Str → SocketId → Option (ConnectionHandle Mailbox)
  holds m app user_id c = lookup c (sockets_at d b m (app, user_id))

  holds-put :
      (m : d.Map) (app u app' u' : Str) (c : SocketId) (s : Sockets Mailbox)
      → holds (d.put m (app, u) s) app' u' c
        ≡ (if app == app' && u == u' then lookup c s else holds m app' u' c)
  holds-put m app u app' u' c s = ground (arith, d.get-put m (app, u) (app', u') s)

  holds-watch_each :
      (app : Str) (handle : ConnectionHandle Mailbox) (us : List Str) (m : d.Map) (app' u' : Str)
      (c : SocketId)
      → holds (watch_each d b app handle us m).1 app' u' c ≡ (
          if (app == app' && contains us u') && handle.socket_id == c
          then some handle
          else holds m app' u' c)
  unfolding watch_each
  holds-watch_each app handle [] m app' u' c = ground arith
  holds-watch_each app handle (u ∷ us) m app' u' c =
      let entry = sockets_at d b m (app, u) in
      let set = insert handle.socket_id handle entry in
      let same : (app == app' && u == u') ≡ true → d.get m (app, u) ≡ d.get m (app', u') =
        λ h. ground (arith, list_beq_iff app app', list_beq_iff u u') in
      ground (
        arith,
        holds-watch_each app handle us (d.put m (app, u) set) app' u' c,
        holds-put m app u app' u' c set,
        lookup-insert handle.socket_id c handle entry,
        same,
      )

  holds-remove_if_empty :
      (m : d.Map) (app u app' u' : Str) (c : SocketId)
      → holds (remove_if_empty d b m (app, u)).1 app' u' c ≡ holds m app' u' c
  unfolding remove_if_empty
  holds-remove_if_empty m app u app' u' c =
      let same : (app == app' && u == u') ≡ true → d.get m (app, u) ≡ d.get m (app', u') =
        λ h. ground (arith, list_beq_iff app app', list_beq_iff u u') in
      elim (Option-cases (d.get m (app, u))) [
        | inl e ↦ rw (e, remove_if_empty) refl
        | inr (s, e) ↦ elim (Bool-cases (is_empty s)) [
          | inl y ↦
              let gone : lookup c s ≡ none = lookup_of_empty c s y in
              rw (e, remove_if_empty, y)
                (ground (arith, d.get-delete m (app, u) (app', u'), same, gone))
          | inr n ↦ rw (e, remove_if_empty, n) refl
        ]
      ]

  holds-unwatch_entry :
      (app : Str) (sid : SocketId) (u : Str) (o : Option (Sockets Mailbox)) (m : d.Map)
      (app' u' : Str) (c : SocketId)
      → d.get m (app, u) ≡ o
      → holds (unwatch_entry d b app sid u o m).1 app' u' c
        ≡ (if (app == app' && u == u') && sid == c then none else holds m app' u' c)
  unfolding unwatch_entry
  holds-unwatch_entry app sid u none m app' u' c e =
      let same : (app == app' && u == u') ≡ true → d.get m (app, u) ≡ d.get m (app', u') =
        λ h. ground (arith, list_beq_iff app app', list_beq_iff u u') in
      ground (arith, same, e)
  holds-unwatch_entry app sid u (some set) m app' u' c e =
      let same : (app == app' && u == u') ≡ true → d.get m (app, u) ≡ d.get m (app', u') =
        λ h. ground (arith, list_beq_iff app app', list_beq_iff u u') in
      ground (
        arith,
        holds-remove_if_empty (d.put m (app, u) (map_remove sid set)) app u app' u' c,
        holds-put m app u app' u' c (map_remove sid set),
        lookup-remove sid c set,
        same,
        e,
      )

  holds-unwatch_each :
      (app : Str) (sid : SocketId) (us : List Str) (m : d.Map) (app' u' : Str) (c : SocketId)
      → holds (unwatch_each d b app sid us m).1 app' u' c
        ≡ (if (app == app' && contains us u') && sid == c then none else holds m app' u' c)
  unfolding unwatch_each
  holds-unwatch_each app sid [] m app' u' c = ground arith
  holds-unwatch_each app sid (u ∷ us) m app' u' c = ground (
    arith,
    holds-unwatch_each app sid us (unwatch_entry d b app sid u (d.get m (app, u)) m).1 app' u' c,
    holds-unwatch_entry app sid u (d.get m (app, u)) m app' u' c refl,
  )

  -- The users that a socket watches.
  abbrev pub watched_by : b.Map → Str → SocketId → List Str
  watched_by m app c = Option.get_or (b.get m (app, c)) []

  -- A socket is among the watchers of exactly the users that it watches.
  abbrev pub IsMirrored : UserRegistry d b → Type 0
  IsMirrored r =
      (app u : Str) (c : SocketId)
      → is_some (holds r.watchers app u c) ≡ contains (watched_by r.watching app c) u

  unwatch_found-IsMirrored :
      (r : UserRegistry d b) (app : Str) (sid : SocketId) (o : Option (List Str))
      → IsMirrored r
      → b.get r.watching (app, sid) ≡ o
      → IsMirrored (unwatch_found d b r app sid o).1
  unfolding unwatch_found
  unwatch_found-IsMirrored r app sid none v e app' u' c = v app' u' c
  unwatch_found-IsMirrored r app sid (some us) v e app' u' c = ground (
    arith,
    holds-unwatch_each app sid us r.watchers app' u' c,
    b.get-delete r.watching (app, sid) (app', c),
    v app' u' c,
    e,
    list_beq_iff app app',
    socket_id_beq_iff sid c,
  )

  -- `unwatch` keeps the two indexes of watching in agreement.
  pub unwatch-IsMirrored :
      (r : UserRegistry d b) (app : Str) (sid : SocketId)
      → IsMirrored r
      → IsMirrored (unwatch d b r app sid).1
  unfolding unwatch
  unwatch-IsMirrored r app sid v =
      unwatch_found-IsMirrored r app sid (b.get r.watching (app, sid)) v refl

  unwatch_found-forgets :
      (r : UserRegistry d b) (app : Str) (sid : SocketId) (o : Option (List Str))
      → b.get r.watching (app, sid) ≡ o
      → b.get (unwatch_found d b r app sid o).1.watching (app, sid) ≡ none
  unfolding unwatch_found
  unwatch_found-forgets r app sid none e = e
  unwatch_found-forgets r app sid (some us) e =
      ground (arith, b.get-delete r.watching (app, sid) (app, sid), beq_refl app, beq_refl sid)

  -- `watch` keeps the two indexes of watching in agreement, also when the socket watched others before.
  pub watch-IsMirrored :
      (r : UserRegistry d b) (app : Str) (handle : ConnectionHandle Mailbox) (us : List Str)
      → IsMirrored r
      → IsMirrored (watch d b r app handle us).1
  unfolding watch unwatch
  watch-IsMirrored r app handle us v app' u' c =
      let sid = handle.socket_id in
      let r' = (unwatch d b r app sid).1 in
      let clean : b.get r'.watching (app, sid) ≡ none =
        unwatch_found-forgets r app sid (b.get r.watching (app, sid)) refl in
      ground (
        arith,
        holds-watch_each app handle us r'.watchers app' u' c,
        b.get-put r'.watching (app, sid) (app', c) us,
        unwatch-IsMirrored r app sid v app' u' c,
        clean,
        list_beq_iff app app',
        socket_id_beq_iff sid c,
      )
