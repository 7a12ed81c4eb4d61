-- ===== src/Adapter/Evict.antt =====
-- src/adapter/app_registry.rs: which connections of an app are known.
pub mod Purge
use pylon.Prelude.{
  ◌≡◌, refl, ap, subst, Bool, true, false, not, ◌&&◌, ◌||◌, Option, none, some, [], ◌∷◌, map, arith,
  Option-cases, Bool-cases, inl, inr, ◌==◌, nat_eq, list_eq, is_empty, contains, beq_refl,
  list_beq_iff,
}
use pylon.Maps.Assoc.{
  insert as map_insert, remove as map_remove, contains_key, contains_key-insert,
  contains_key-remove, keys, values,
}
use pylon.Maps.Shards.{DashMap}
use pylon.Protocol.SocketId.{Str, SocketId, socket_id_eq}
use pylon.Channel.Types.{ConnectionHandle}
use pylon.User.Registry.{Sockets}
use pylon.Adapter.Connections.{insert_connection, remove_connection, inserted, pruned}

module _ {Mailbox : Type 0} where
  -- Every handle stands under its own socket.
  abbrev pub Keyed : Sockets Mailbox → Type 0
  Keyed set = map (λ (h : ConnectionHandle Mailbox). h.socket_id) (values set) ≡ keys set

  insert-Keyed :
      (h : ConnectionHandle Mailbox) (set : Sockets Mailbox)
      → Keyed set
      → Keyed (map_insert h.socket_id h set)
  insert-Keyed h [] k = refl
  insert-Keyed h ((c, x) ∷ set) k = elim (Bool-cases (c == h.socket_id)) [
    | inl e ↦ rw e (ap (◌∷◌ h.socket_id) (ground arith))
    | inr e ↦ ground (arith, insert-Keyed h set)
  ]

  remove-Keyed : (c : SocketId) (set : Sockets Mailbox) → Keyed set → Keyed (map_remove c set)
  remove-Keyed c [] k = refl
  remove-Keyed c ((x, h) ∷ set) k = ground (arith, remove-Keyed c set)

  contains-keys :
      (c : SocketId) (set : Sockets Mailbox) → contains (keys set) c ≡ contains_key c set
  contains-keys c [] = refl
  contains-keys c ((x, h) ∷ set) = ground (arith, contains-keys c set)

module _ {Mailbox : Type 0} (d : DashMap Str (Sockets Mailbox)) where
  open d use {Map, get, put, delete, get-put, get-delete}

  known_in : SocketId → Option (Sockets Mailbox) → Bool
  known_in c none = false
  known_in c (some set) = contains_key c set

  -- Is the app's socket in the index?
  unfoldable pub is_connected : Map → Str → SocketId → Bool
  unfolding known_in
  is_connected m app c = known_in c (get m app)

  unfoldable pub IsKeyed : Map → Type 0
  IsKeyed m = (app : Str) (set : Sockets Mailbox) → get m app ≡ some set → Keyed set

  -- Registering and dropping a connection change the index for that socket of that app only, and drop
  -- the app's entry with its last socket.
  pub connections_follow :
      (m : Map) (app : Str) (h : ConnectionHandle Mailbox) (sid : SocketId) (a : Str) (c : SocketId)
      → (is_connected (insert_connection d m app h) a c
          ≡ ((app == a && h.socket_id == c) || is_connected m a c))
        × (is_connected (remove_connection d m app sid) a c
            ≡ (not (app == a && sid == c) && is_connected m a c))
  unfolding is_connected known_in insert_connection inserted remove_connection pruned
  connections_follow m app h sid a c = (
    elim (Option-cases (get m app)) [
      | inl e ↦ ground (
        arith,
        get-put m app a (map_insert h.socket_id h []),
        contains_key-insert h.socket_id c h [],
        list_beq_iff app a,
      )
      | inr (set, e) ↦ ground (
        arith,
        get-put m app a (map_insert h.socket_id h set),
        contains_key-insert h.socket_id c h set,
        list_beq_iff app a,
      )
    ],
    elim (Option-cases (get m app)) [
      | inl e ↦ ground (arith, list_beq_iff app a)
      | inr (set, e) ↦
          let left = map_remove sid set in
          let m' = put m app left in
          ground (
            arith,
            get-put m app a left,
            get-put m app app left,
            get-delete m' app a,
            contains_key-remove sid c set,
            list_beq_iff app a,
            beq_refl app,
            no_key c left,
          )
    ],
  )
    where
      no_key : (k : SocketId) (l : Sockets Mailbox) → is_empty l ≡ true → contains_key k l ≡ false
      no_key k [] h = refl
      no_key k (x ∷ l) h = absurd (ground arith)

  put-IsKeyed :
      (m : Map) (app : Str) (l : Sockets Mailbox) → IsKeyed m → Keyed l → IsKeyed (put m app l)
  unfolding IsKeyed
  put-IsKeyed m app l v k a set e = elim (Bool-cases (app == a)) [
    | inl same ↦ let f : l ≡ set = ground (arith, get-put m app a l) in subst Keyed f k
    | inr other ↦ v a set (ground (arith, get-put m app a l))
  ]

  known :
      (m : Map) (app : Str) → IsKeyed m → (set : Sockets Mailbox) → get m app ≡ some set → Keyed set
  unfolding IsKeyed
  known m app v = v app

  inserted-Keyed :
      (h : ConnectionHandle Mailbox) (o : Option (Sockets Mailbox))
      → ((set : Sockets Mailbox) → o ≡ some set → Keyed set)
      → Keyed (inserted d h o)
  unfolding inserted
  inserted-Keyed h none v = refl
  inserted-Keyed h (some set) v = insert-Keyed h set (v set refl)

  pruned-IsKeyed :
      (m : Map) (app : Str) (o : Option (Sockets Mailbox)) → IsKeyed m → IsKeyed (pruned d m app o)
  unfolding IsKeyed pruned
  pruned-IsKeyed m app none v = v
  pruned-IsKeyed m app (some set) v = elim (Bool-cases (is_empty set)) [
    | inl e ↦ rw e (λ a l f. v a l (ground (arith, get-delete m app a)))
    | inr e ↦ rw e v
  ]

  -- Registering and dropping connections keep every handle under its own socket.
  pub connections-IsKeyed :
      (m : Map) (app : Str) (h : ConnectionHandle Mailbox) (sid : SocketId)
      → IsKeyed m
      → IsKeyed (insert_connection d m app h) × IsKeyed (remove_connection d m app sid)
  unfolding insert_connection remove_connection
  connections-IsKeyed m app h sid v = (
    put-IsKeyed m app _ v (inserted-Keyed h (get m app) (known m app v)),
    elim (Option-cases (get m app)) [
      | inl e ↦ subst IsKeyed (ground arith) v
      | inr (set, e) ↦
          let m' = put m app (map_remove sid set) in
          let w =
            put-IsKeyed m app (map_remove sid set) v (remove-Keyed sid set (known m app v set e)) in
          subst IsKeyed (ground arith) (pruned-IsKeyed m' app (get m' app) w)
    ],
  )
