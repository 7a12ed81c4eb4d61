-- ===== src/Adapter/SignedIn.antt =====
-- src/adapter/local.rs over src/user/registry.rs: the users that the local node has signed in on a socket.
use pylon.Prelude.{
  ◌≡◌, refl, ap, Bool, true, false, not, ◌&&◌, ◌||◌, Option, none, some, List, [], ◌∷◌, arith,
  nat_eq, list_eq, pair_eq, list_beq_iff, beq_refl, is_empty,
}
use pylon.Maps.Assoc.{
  insert as map_insert, remove as map_remove, contains_key, contains_key-insert,
  contains_key-remove,
}
use pylon.Maps.Shards.{DashMap}
use pylon.Protocol.SocketId.{Str, SocketId, socket_id_eq}
use pylon.Channel.Types.{ConnectionHandle}
use pylon.User.Registry.{
  UserKey, Sockets, UserRegistry, sockets_at, signin, signout, signout_entry, remove_if_empty,
  watch, unwatch,
}
use pylon.User.Registry.Calls.{watch-users, unwatch-users}
use pylon.Adapter.{same_subscription}

module _ {Mailbox : Type 0} (d : DashMap UserKey (Sockets Mailbox))
    (b : DashMap (Str × SocketId) (List Str)) where
  -- Is the socket among the user's?
  unfoldable pub signed_at : d.Map → Str → Str → SocketId → Bool
  signed_at users app u c = contains_key c (sockets_at d b users (app, u))

  no_key : (k : SocketId) (l : Sockets Mailbox) → is_empty l ≡ true → contains_key k l ≡ false
  no_key k [] h = refl
  no_key k (x ∷ l) h = absurd (ground arith)

  pub signed-signin :
      (r : UserRegistry d b) (a user : Str) (h : ConnectionHandle Mailbox) (app u : Str)
      (c : SocketId)
      → signed_at (signin d b r a user h).1.users app u c
        ≡ (same_subscription a user h.socket_id app u c || signed_at r.users app u c)
  unfolding signed_at signin
  signed-signin r a user h app u c =
      let set = sockets_at d b r.users (a, user) in
      ground (
        arith,
        d.get-put r.users (a, user) (app, u) (map_insert h.socket_id h set),
        contains_key-insert h.socket_id c h set,
        list_beq_iff a app,
        list_beq_iff user u,
      )

  signed-signout_entry :
      (r : UserRegistry d b) (a user : Str) (sid : SocketId) (o : Option (Sockets Mailbox))
      (app u : Str) (c : SocketId)
      → d.get r.users (a, user) ≡ o
      → signed_at (signout_entry d b r (a, user) sid o).1.users app u c
        ≡ (not (same_subscription a user sid app u c) && signed_at r.users app u c)
  unfolding signed_at signout_entry remove_if_empty
  signed-signout_entry r a user sid none app u c e =
      ground (arith, e, list_beq_iff a app, list_beq_iff user u)
  signed-signout_entry r a user sid (some entry) app u c e =
      let left = map_remove sid entry in
      let m' = d.put r.users (a, user) left in
      ground (
        arith,
        e,
        d.get-put r.users (a, user) (a, user) left,
        d.get-put r.users (a, user) (app, u) left,
        d.get-delete m' (a, user) (app, u),
        contains_key-remove sid c entry,
        list_beq_iff a app,
        list_beq_iff user u,
        beq_refl a,
        beq_refl user,
        no_key c left,
      )

  pub signed-signout :
      (r : UserRegistry d b) (a user : Str) (sid : SocketId) (app u : Str) (c : SocketId)
      → signed_at (signout d b r a user sid).1.users app u c
        ≡ (not (same_subscription a user sid app u c) && signed_at r.users app u c)
  unfolding signout
  signed-signout r a user sid app u c =
      signed-signout_entry r a user sid (d.get r.users (a, user)) app u c refl

  pub signed-watch :
      (r : UserRegistry d b) (a : Str) (h : ConnectionHandle Mailbox) (us : List Str) (app u : Str)
      (c : SocketId)
      → signed_at (watch d b r a h us).1.users app u c ≡ signed_at r.users app u c
  signed-watch r a h us app u c = ap (λ m. signed_at m app u c) (watch-users d b r a h us)

  pub signed-unwatch :
      (r : UserRegistry d b) (a : Str) (sid : SocketId) (app u : Str) (c : SocketId)
      → signed_at (unwatch d b r a sid).1.users app u c ≡ signed_at r.users app u c
  signed-unwatch r a sid app u c = ap (λ m. signed_at m app u c) (unwatch-users d b r a sid)
