-- ===== src/User/Registry/Examples.antt =====
-- src/user/registry.rs: users and watchers at work.
use pylon.Prelude.{
  ℕ, ◌≡◌, not, ◌&&◌, ◌||◌, List, [], ◌∷◌, ◌==◌, nat_eq, list_eq, pair_eq, if◌then◌else◌,
}
use pylon.Maps.Shards.{DashMap, plain}
use pylon.Protocol.SocketId.{Str, SocketId, from_raw, socket_id_eq}
use pylon.Channel.Types.{ConnectionHandle}
use pylon.User.Registry.{UserKey, Sockets, UserRegistry, signin, signout, is_online, no_users}
use pylon.User.Registry.Calls.{
  UserCall, sign_in, sign_out, start_watch, user_calls, IsSound, user_calls-IsSound,
}
use pylon.User.Registry.Online.{HasSockets, signin_edges, signout_edges}

abbrev sets : DashMap UserKey (Sockets ℕ)
sets = plain

abbrev lists : DashMap (Str × SocketId) (List Str)
lists = plain

abbrev app : Str
app = 97 ∷ []

abbrev ann : Str
ann = 65 ∷ []

abbrev bob : Str
bob = 66 ∷ []

abbrev handle : ConnectionHandle ℕ
handle = record { socket_id = from_raw (49 ∷ 46 ∷ 49 ∷ []); mailbox = 1 }

no_users-HasSockets : HasSockets sets lists (no_users sets lists)
no_users-HasSockets a u s h = cc

abbrev ann_in : UserRegistry sets lists
ann_in = (signin sets lists (no_users sets lists) app ann handle).1

ann_in-HasSockets : HasSockets sets lists ann_in
ann_in-HasSockets =
    (signin_edges sets lists (no_users sets lists) app ann handle app bob no_users-HasSockets).2

signin_edges_example :
    let (out, r') = signin sets lists (no_users sets lists) app ann handle in
    (out.first_for_user ≡ not (is_online sets lists (no_users sets lists) app ann))
    × (is_online sets lists r' app bob
        ≡ ((app == app && ann == bob) || is_online sets lists (no_users sets lists) app bob))
    × HasSockets sets lists r'
signin_edges_example =
    signin_edges sets lists (no_users sets lists) app ann handle app bob no_users-HasSockets

signout_edges_example :
    let (out, r') = signout sets lists ann_in app ann handle.socket_id in
    (out.last_for_user
      ≡ (is_online sets lists ann_in app ann && not (is_online sets lists r' app ann)))
    × (is_online sets lists r' app bob ≡ (
        if app == app && ann == bob
        then is_online sets lists r' app ann
        else is_online sets lists ann_in app bob))
    × HasSockets sets lists r'
signout_edges_example =
    signout_edges sets lists ann_in app ann handle.socket_id app bob ann_in-HasSockets

-- ann signs in, a socket watches her and bob, then bob alone; ann leaves.
abbrev visits : List (UserCall ℕ)
visits =
    sign_in app ann handle
    ∷ start_watch app handle (ann ∷ bob ∷ [])
    ∷ start_watch app handle (bob ∷ [])
    ∷ sign_out app ann handle.socket_id
    ∷ []

user_calls-IsSound_example : IsSound sets lists (user_calls sets lists (no_users sets lists) visits)
user_calls-IsSound_example = user_calls-IsSound sets lists visits
