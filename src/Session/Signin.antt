-- ===== src/Session/Signin.antt =====
-- src/ws/signin.rs: `pusher:signin`.
use pylon.Prelude.{
  not, ◌&&◌, none, some, List, [], ◌∷◌, ◌++◌, ltb, if◌then◌else◌, length, take, is_empty, ◌==◌,
  list_eq, nat_eq,
}
use pylon.Prelude.Results.{ok, err}
use pylon.Protocol.SocketId.{Str}
use pylon.Protocol.Text.{ascii, decimal}
use pylon.Protocol.Event.{error, close, signin_success, watchlist_events}
use pylon.Protocol.Json.{AuthenticatedUser, parse_user_data}
use pylon.Auth.{verify_user}
use pylon.Session.{Platform, Config, Session, handle, socket_text, send_self, notify_watchers}

module _ {Value Mailbox : Type 0} (p : Platform Value Mailbox) (c : Config Mailbox) where
  -- `fail_signin`
  unfoldable pub fail_signin : Str → Session p → Session p
  fail_signin message s =
      send_self p c (close 4009 message)
        (send_self p c (error (record { code = 4009; message = message })) s)

  -- `capped_watchlist`, with the error that it sends
  unfoldable pub capped_watchlist : List Str → Session p → List Str × Session p
  capped_watchlist watchlist s =
      let max = c.limits.max_watchlist_size in
      if ltb max (length watchlist)
      then (
        take max watchlist,
        send_self p c
            (error (record {
              code = 4302;
              message =
                  ascii "Watchlist limit exceeded; only the first "
                  ++ decimal max
                  ++ ascii " entries are tracked.";
            }))
            s,
      )
      else (watchlist, s)

  -- The call of `watch`, and the snapshot of who is online.
  unfoldable pub register_watches : List Str → Session p → Session p
  register_watches watched s =
      let (online, node) = p.adapter.watch s.node c.app.id (handle p c) watched in
      let s' : Session p = record s { node = node } in
      if is_empty watched
      then s
      else if not c.clustered && not (is_empty online)
      then send_self p c
          (watchlist_events (record { name = ascii "online"; user_ids = online } ∷ [])) s'
      else s'

  unfoldable pub watch_list : List Str → Session p → Session p
  unfolding capped_watchlist register_watches
  watch_list watchlist s =
      let (watched, s') = capped_watchlist watchlist s in
      if c.capabilities.watchlist then register_watches watched s' else s

  -- A signin whose signature and data hold.
  unfoldable pub accept_signin : AuthenticatedUser → Session p → Session p
  unfolding watch_list
  accept_signin user s =
      let (out, node) = p.adapter.signin_user s.node c.app.id user.id (handle p c) in
      let told = send_self p c (signin_success user.user_data_raw) (record s { node = node }) in
      let notified =
        if not c.clustered && out.first_for_user
        then notify_watchers p c user.id (ascii "online") told
        else told in
      record (watch_list user.watchlist notified) { user = some user }

  unfoldable pub signin_verified : Str → Session p → Session p
  unfolding accept_signin fail_signin
  signin_verified user_data s = elim (parse_user_data p.json user_data) [
    | err e ↦ fail_signin (ascii "The returned user data must contain the \"id\" field.") s
    | ok user ↦ accept_signin user s
  ]

  unfoldable pub signin_first : Str → Str → Session p → Session p
  unfolding signin_verified fail_signin
  signin_first auth user_data s =
      elim (verify_user p.hmac c.app.key c.app.secret (socket_text p c) user_data auth) [
        | err e ↦ fail_signin (ascii "Connection not authorized.") s
        | ok u ↦ signin_verified user_data s
      ]

  unfoldable pub signin_again : AuthenticatedUser → Str → Session p → Session p
  unfolding fail_signin
  signin_again existing user_data s =
      if existing.user_data_raw == user_data
      then send_self p c (signin_success user_data) s
      else fail_signin (ascii "Connection not authorized.") s

  -- `signin`
  unfoldable pub signin : Str → Str → Session p → Session p
  unfolding signin_first signin_again fail_signin
  signin auth user_data s =
      if not c.capabilities.user_auth
      then fail_signin (ascii "Connection not authorized.") s
      else elim s.user [
        | some existing ↦ signin_again existing user_data s
        | none ↦ signin_first auth user_data s
      ]
