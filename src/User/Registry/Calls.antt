-- ===== src/User/Registry/Calls.antt =====
-- src/user/registry.rs: any sequence of calls on the registry.
use pylon.Prelude.{
  ◌≡◌, refl, ap, Option, none, some, List, [], ◌∷◌, ◌∙◌, sym, arith, nat_eq, list_eq, pair_eq,
}
use pylon.Maps.Shards.{DashMap}
use pylon.Protocol.SocketId.{Str, SocketId, socket_id_eq}
use pylon.Channel.Types.{ConnectionHandle}
use pylon.User.Registry.{
  UserKey, Sockets, UserRegistry, no_users, signin, signout, signout_entry, watch, unwatch,
  unwatch_found,
}
use pylon.User.Registry.Watch.{IsMirrored, watch-IsMirrored, unwatch-IsMirrored}
use pylon.User.Registry.Online.{HasSockets, signin_edges, signout_edges}

-- The calls that change the registry, with their arguments.
pub data UserCall (Mailbox : Type 0) : Type 0 where
  sign_in : Str → Str → ConnectionHandle Mailbox → UserCall Mailbox
  sign_out : Str → Str → SocketId → UserCall Mailbox
  start_watch : Str → ConnectionHandle Mailbox → List Str → UserCall Mailbox
  stop_watch : Str → SocketId → UserCall Mailbox

module _ {Mailbox : Type 0} (d : DashMap UserKey (Sockets Mailbox))
    (b : DashMap (Str × SocketId) (List Str)) where
  unfoldable pub user_call : UserRegistry d b → UserCall Mailbox → UserRegistry d b
  user_call r (sign_in app u handle) = (signin d b r app u handle).1
  user_call r (sign_out app u sid) = (signout d b r app u sid).1
  user_call r (start_watch app handle us) = (watch d b r app handle us).1
  user_call r (stop_watch app sid) = (unwatch d b r app sid).1

  unfoldable pub user_calls : UserRegistry d b → List (UserCall Mailbox) → UserRegistry d b
  unfolding user_call
  user_calls r [] = r
  user_calls r (call ∷ rest) = user_calls (user_call r call) rest

  unwatch_found-users :
      (r : UserRegistry d b) (app : Str) (sid : SocketId) (o : Option (List Str))
      → (unwatch_found d b r app sid o).1.users ≡ r.users
  unfolding unwatch_found
  unwatch_found-users r app sid none = refl
  unwatch_found-users r app sid (some us) = refl

  pub unwatch-users :
      (r : UserRegistry d b) (app : Str) (sid : SocketId)
      → (unwatch d b r app sid).1.users ≡ r.users
  unfolding unwatch
  unwatch-users r app sid = unwatch_found-users r app sid (b.get r.watching (app, sid))

  pub watch-users :
      (r : UserRegistry d b) (app : Str) (handle : ConnectionHandle Mailbox) (us : List Str)
      → (watch d b r app handle us).1.users ≡ r.users
  unfolding watch
  watch-users r app handle us = unwatch-users r app handle.socket_id

  -- The invariant of sign-ins and watches alike.
  abbrev pub IsSound : UserRegistry d b → Type 0
  IsSound r = HasSockets d b r × IsMirrored d b r

  HasSockets-same :
      (r r' : UserRegistry d b) → r'.users ≡ r.users → HasSockets d b r → HasSockets d b r'
  HasSockets-same r r' e v app u s h = v app u s (ap (λ m. d.get m (app, u)) (sym e) ∙ h)

  signout_entry-watches :
      (r : UserRegistry d b) (key : UserKey) (sid : SocketId) (o : Option (Sockets Mailbox))
      → IsMirrored d b r
      → IsMirrored d b (signout_entry d b r key sid o).1
  unfolding signout_entry
  signout_entry-watches r key sid none v = v
  signout_entry-watches r key sid (some entry) v = v

  signout-watches :
      (r : UserRegistry d b) (app u : Str) (sid : SocketId)
      → IsMirrored d b r
      → IsMirrored d b (signout d b r app u sid).1
  unfolding signout
  signout-watches r app u sid = signout_entry-watches r (app, u) sid (d.get r.users (app, u))

  signin-watches :
      (r : UserRegistry d b) (app u : Str) (handle : ConnectionHandle Mailbox)
      → IsMirrored d b r
      → IsMirrored d b (signin d b r app u handle).1
  unfolding signin
  signin-watches r app u handle v = v

  user_call-IsSound :
      (r : UserRegistry d b) (call : UserCall Mailbox) → IsSound r → IsSound (user_call r call)
  unfolding user_call
  user_call-IsSound r (sign_in app u handle) (v, w) =
      ((signin_edges d b r app u handle app u v).2, signin-watches r app u handle w)
  user_call-IsSound r (sign_out app u sid) (v, w) =
      ((signout_edges d b r app u sid app u v).2, signout-watches r app u sid w)
  user_call-IsSound r (start_watch app handle us) (v, w) = (
    HasSockets-same r (watch d b r app handle us).1 (watch-users r app handle us) v,
    watch-IsMirrored d b r app handle us w,
  )
  user_call-IsSound r (stop_watch app sid) (v, w) = (
    HasSockets-same r (unwatch d b r app sid).1 (unwatch-users r app sid) v,
    unwatch-IsMirrored d b r app sid w,
  )

  user_calls-IsSound_from :
      (r : UserRegistry d b) (calls : List (UserCall Mailbox))
      → IsSound r
      → IsSound (user_calls r calls)
  unfolding user_calls
  user_calls-IsSound_from r [] v = v
  user_calls-IsSound_from r (call ∷ rest) v =
      user_calls-IsSound_from (user_call r call) rest (user_call-IsSound r call v)

  no_users-IsSound : IsSound (no_users d b)
  no_users-IsSound = (
    (λ app u s h. ground (arith, h, d.get-empty (app, u))),
    (λ app u c. ground (arith, d.get-empty (app, u), b.get-empty (app, c))),
  )

  -- After any sequence of sign-ins, sign-outs, watches and unwatches on an empty registry, of any
  -- apps, users and sockets in any order, no user is kept without a socket, and the two indexes of
  -- watching agree.
  pub user_calls-IsSound :
      (calls : List (UserCall Mailbox)) → IsSound (user_calls (no_users d b) calls)
  user_calls-IsSound calls = user_calls-IsSound_from (no_users d b) calls no_users-IsSound
