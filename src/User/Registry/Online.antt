-- ===== src/User/Registry/Online.antt =====
-- src/user/registry.rs: the edges that `signin` and `signout` report, against `is_online`.
use pylon.Prelude.{
  Eq, ◌≡◌, refl, true, false, not, ◌&&◌, ◌||◌, none, some, List, [], ◌∷◌, arith, ◌==◌, nat_eq,
  list_eq, list_beq_iff, beq_refl, pair_eq, if◌then◌else◌, is_empty, Option-cases, inl, inr,
}
use pylon.Maps.Assoc.{insert, remove as map_remove}
use pylon.Maps.Shards.{DashMap}
use pylon.Protocol.SocketId.{Str, SocketId, socket_id_eq}
use pylon.Channel.Types.{ConnectionHandle}
use pylon.User.Registry.{
  UserKey, Sockets, UserRegistry, sockets_at, remove_if_empty, signin, signout, signout_entry,
  is_online,
}

is_empty-insert {ℓ κ} :
    {K : Type ℓ} {V : Type κ} ⦃e : Eq K⦄ (k : K) (v : V) (m : List (K × V))
    → is_empty (insert k v m) ≡ false
is_empty-insert k v [] = refl
is_empty-insert k v (x ∷ m) = ground arith

module _ {Mailbox : Type 0} (d : DashMap UserKey (Sockets Mailbox))
    (b : DashMap (Str × SocketId) (List Str)) where
  -- No user stays behind without a socket.
  abbrev pub HasSockets : UserRegistry d b → Type 0
  HasSockets r =
      (app u : Str) (s : Sockets Mailbox) → d.get r.users (app, u) ≡ some s → is_empty s ≡ false

  -- If no entry is empty, `signin` reports `first_for_user` exactly when the user was not online;
  -- afterwards the user is online, every other user of any app is online exactly if it was before, and
  -- no entry is empty.
  pub signin_edges :
      (r : UserRegistry d b) (app user_id : Str) (handle : ConnectionHandle Mailbox) (app' u' : Str)
      → HasSockets r
      → let (out, r') = signin d b r app user_id handle in
        (out.first_for_user ≡ not (is_online d b r app user_id))
        × (is_online d b r' app' u' ≡ ((app == app' && user_id == u') || is_online d b r app' u'))
        × HasSockets r'
  unfolding signin is_online
  signin_edges r app user_id handle app' u' v =
      let s = insert handle.socket_id handle (sockets_at d b r.users (app, user_id)) in
      let full : is_empty s ≡ false =
        is_empty-insert handle.socket_id handle (sockets_at d b r.users (app, user_id)) in
      (
        elim (Option-cases (d.get r.users (app, user_id))) [
          | inl e ↦ ground (arith, e)
          | inr (entry, e) ↦ ground (arith, e)
        ],
        ground (arith, d.get-put r.users (app, user_id) (app', u') s, full),
        λ a u t h. ground (arith, d.get-put r.users (app, user_id) (a, u) s, v a u t, full),
      )

  signout_found :
      (r : UserRegistry d b) (app user_id : Str) (sid : SocketId) (s : Sockets Mailbox)
      (app' u' : Str)
      → let left = map_remove sid s in
        d.get (remove_if_empty d b (d.put r.users (app, user_id) left) (app, user_id)).1 (app', u')
        ≡ (if app == app' && user_id == u'
            then (if is_empty left then none else some left)
            else d.get r.users (app', u'))
  unfolding remove_if_empty
  signout_found r app user_id sid s app' u' =
      let left = map_remove sid s in
      let m = d.put r.users (app, user_id) left in
      let here : d.get m (app, user_id) ≡ some left = ground (
        arith,
        d.get-put r.users (app, user_id) (app, user_id) left,
        beq_refl app,
        beq_refl user_id,
      ) in
      rw (here, remove_if_empty)
        (ground (
          arith,
          d.get-put r.users (app, user_id) (app', u') left,
          d.get-delete m (app, user_id) (app', u'),
        ))

  -- If no entry is empty, `signout` reports `last_for_user` exactly when the user was online and is no
  -- longer; every other user of any app is online exactly if it was before, and no entry is empty
  -- afterwards.
  pub signout_edges :
      (r : UserRegistry d b) (app user_id : Str) (sid : SocketId) (app' u' : Str)
      → HasSockets r
      → let (out, r') = signout d b r app user_id sid in
        (out.last_for_user ≡ (is_online d b r app user_id && not (is_online d b r' app user_id)))
        × (is_online d b r' app' u' ≡ (
            if app == app' && user_id == u'
            then is_online d b r' app user_id
            else is_online d b r app' u'))
        × HasSockets r'
  unfolding signout is_online signout_entry
  signout_edges r app user_id sid app' u' v = elim (Option-cases (d.get r.users (app, user_id))) [
    | inl e ↦
        let same : (app == app' && user_id == u') ≡ true
            → d.get r.users (app, user_id) ≡ d.get r.users (app', u') =
          λ h. ground (arith, list_beq_iff app app', list_beq_iff user_id u') in
        rw (e, signout_entry) (ground (arith, e), ground (arith, e, same), v)
    | inr (s, e) ↦
        let left = map_remove sid s in
        let here = signout_found r app user_id sid s app user_id in
        let there = signout_found r app user_id sid s app' u' in
        rw (e, signout_entry)
          (
            ground (arith, here, v app user_id s e, beq_refl app, beq_refl user_id),
            ground (arith, here, there, beq_refl app, beq_refl user_id),
            λ a u t h. ground (arith, signout_found r app user_id sid s a u, v a u t),
          )
  ]
