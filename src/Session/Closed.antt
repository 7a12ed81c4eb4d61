-- ===== src/Session/Closed.antt =====
-- src/ws/handler.rs: the sessions that commands and the other connections of the node can reach, and what
-- is left when one is closed.
use pylon.Prelude.{◌≡◌, ◌∙◌, sym, ap, false, none, [], arith, list_eq, nat_eq}
use pylon.Protocol.SocketId.{Str}
use pylon.Protocol.Command.{ClientCommand}
use pylon.Adapter.{Membership}
use pylon.Session.{Platform, Config, Moment, Session}
use pylon.Session.Dispatch.{dispatch}
use pylon.Session.Unsubscribe.{on_close}
use pylon.Session.Tracked.{IsTracked}
use pylon.Session.Left.{on_close-joined}
use pylon.Session.Reached.{dispatch-IsTracked}
use pylon.Session.SignedIn.{IsBound, is_user, dispatch-IsBound, on_close-signed}

module _ {Value Mailbox : Type 0} (p : Platform Value Mailbox) (m : Membership p.adapter)
    (c : Config Mailbox) where
  -- The sessions that can be reached: a fresh one on a node that knows nothing of its socket; after a
  -- command; and after the node was changed by others, who leave this socket's subscriptions and users
  -- alone.
  pub data Reached : Session p → Type 0 where
    opened :
        (s : Session p)
        → s.subscribed ≡ []
        → s.presence_membership ≡ []
        → s.user ≡ none
        → ((channel : Str) → m.joined s.node c.app.id channel c.socket_id ≡ false)
        → ((u : Str) → m.signed_in s.node c.app.id u c.socket_id ≡ false)
        → Reached s
    commanded :
        (t : Moment) (cmd : ClientCommand Value) (s : Session p)
        → Reached s
        → Reached (dispatch p c t cmd s)
    overtaken :
        (n : p.adapter.Node) (s : Session p)
        → Reached s
        → ((channel : Str)
            → m.joined n c.app.id channel c.socket_id
              ≡ m.joined s.node c.app.id channel c.socket_id)
        → ((u : Str)
            → m.signed_in n c.app.id u c.socket_id ≡ m.signed_in s.node c.app.id u c.socket_id)
        → Reached (record s { node = n })

  pub Reached-IsTracked : (s : Session p) → Reached s → IsTracked p m c s
  Reached-IsTracked _ (opened s e f w g h) = record {
    distinct = rw e tt;
    tracked = λ channel. rw e (g channel);
    member_kept = λ channel. rw (e, f) (ground arith);
    capped = λ h. rw e (omega arith);
  }
  Reached-IsTracked _ (commanded t cmd s r) =
      dispatch-IsTracked p m c t cmd s (Reached-IsTracked s r)
  Reached-IsTracked _ (overtaken n s r h k) =
      let v = Reached-IsTracked s r in
      record {
        distinct = v.distinct;
        tracked = λ channel. h channel ∙ v.tracked channel;
        member_kept = v.member_kept;
        capped = v.capped;
      }

  Reached-IsBound : (s : Session p) → Reached s → IsBound p m c s
  unfolding is_user
  Reached-IsBound _ (opened s e f w g h) u = h u ∙ ap (is_user u) (sym w)
  Reached-IsBound _ (commanded t cmd s r) u = dispatch-IsBound p m c t cmd s (Reached-IsBound s r) u
  Reached-IsBound _ (overtaken n s r h k) u = k u ∙ Reached-IsBound s r u

  -- However a connection's commands and the changes of others alternate, closing it leaves on the node,
  -- in its app, no subscription of its socket to any channel and no user signed in on its socket, and
  -- none in the session.
  pub Reached-on_close :
      (s : Session p) (channel u : Str)
      → Reached s
      → (m.joined (on_close p c s).node c.app.id channel c.socket_id ≡ false)
        × (m.signed_in (on_close p c s).node c.app.id u c.socket_id ≡ false)
        × ((on_close p c s).user ≡ none)
  Reached-on_close s channel u r =
      let (gone, out) = on_close-joined p m c s channel (Reached-IsTracked s r) in
      (gone, on_close-signed p m c s u (Reached-IsBound s r), out)
