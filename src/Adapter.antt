-- ===== src/Adapter.antt =====
-- src/adapter/mod.rs: what a connection needs of the node, as an interface. An operation may hand
-- frames to mailboxes; it returns them. The error of `broadcast` is only logged, so it has none here.
pub mod Connections
pub mod Local
pub mod SignedIn
pub mod Implements
pub mod Evict
pub mod Examples
use pylon.Prelude.{ℕ, ◌≡◌, Bool, not, ◌&&◌, ◌||◌, Option, List, ◌==◌, nat_eq, list_eq}
use pylon.Protocol.SocketId.{Str, SocketId, socket_id_eq}
use pylon.Protocol.Event.{ServerEvent}
use pylon.Channel.Types.{PresenceMember, ConnectionHandle}
use pylon.Channel.Registry.{SubscribeOutcome, UnsubscribeOutcome, ChannelSummary}
use pylon.Channel.Cache.{CachedEvent}
use pylon.Channel.Fanout.{Send}
use pylon.User.Registry.{UserJoinOutcome, UserLeaveOutcome}

-- The operations that the handlers of a connection call; `cache_get` is told the time.
pub record Adapter (Value Mailbox : Type 0) : Type 1 where
  pub Node : Type 0
  pub subscribe :
      Node
      → Str
      → Str
      → ConnectionHandle Mailbox
      → Option (PresenceMember Value)
      → SubscribeOutcome Value × Node
  pub unsubscribe : Node → Str → Str → SocketId → UnsubscribeOutcome × Node
  pub broadcast :
      Node → Str → Str → ServerEvent Value → Option SocketId → List (Send Value Mailbox) × Node
  pub channel : Node → Str → Str → ChannelSummary
  pub presence_members : Node → Str → Str → List (PresenceMember Value)
  pub resend_presence_ack : Node → Str → Str → Mailbox → List (Send Value Mailbox) × Node
  pub cache_get : ℕ → Node → Str → Str → Option CachedEvent
  pub signin_user : Node → Str → Str → ConnectionHandle Mailbox → UserJoinOutcome × Node
  pub signout_user : Node → Str → Str → SocketId → UserLeaveOutcome × Node
  pub watch : Node → Str → ConnectionHandle Mailbox → List Str → List Str × Node
  pub unwatch : Node → Str → SocketId → Node
  pub watchers_of : Node → Str → Str → List (ConnectionHandle Mailbox)

-- Of an app's channel and a socket: does it name the same subscription?
abbrev pub same_subscription : Str → Str → SocketId → Str → Str → SocketId → Bool
same_subscription app channel sid a n c = (app == a && channel == n) && sid == c

-- What the handlers rely on: the subscriptions that the node holds and the users that are signed in on
-- a socket, and how each operation changes them.
pub record Membership {Value Mailbox : Type 0} (a : Adapter Value Mailbox) : Type 0 where
  pub joined : a.Node → Str → Str → SocketId → Bool
  pub joined-subscribe :
      (n : a.Node) (app channel : Str) (h : ConnectionHandle Mailbox)
      (m : Option (PresenceMember Value)) (app' channel' : Str) (sid : SocketId)
      → joined (a.subscribe n app channel h m).1 app' channel' sid ≡ (
          same_subscription app channel h.socket_id app' channel' sid || joined n app' channel' sid)
  pub joined-unsubscribe :
      (n : a.Node) (app channel : Str) (s : SocketId) (app' channel' : Str) (sid : SocketId)
      → joined (a.unsubscribe n app channel s).1 app' channel' sid
        ≡ (not (same_subscription app channel s app' channel' sid) && joined n app' channel' sid)
  pub joined-broadcast :
      (n : a.Node) (app channel : Str) (event : ServerEvent Value) (except : Option SocketId)
      (app' channel' : Str) (sid : SocketId)
      → joined (a.broadcast n app channel event except).1 app' channel' sid
        ≡ joined n app' channel' sid
  pub joined-resend_presence_ack :
      (n : a.Node) (app channel : Str) (m : Mailbox) (app' channel' : Str) (sid : SocketId)
      → joined (a.resend_presence_ack n app channel m).1 app' channel' sid
        ≡ joined n app' channel' sid
  pub joined-signin_user :
      (n : a.Node) (app user : Str) (h : ConnectionHandle Mailbox) (app' channel' : Str)
      (sid : SocketId)
      → joined (a.signin_user n app user h).1 app' channel' sid ≡ joined n app' channel' sid
  pub joined-signout_user :
      (n : a.Node) (app user : Str) (s : SocketId) (app' channel' : Str) (sid : SocketId)
      → joined (a.signout_user n app user s).1 app' channel' sid ≡ joined n app' channel' sid
  pub joined-watch :
      (n : a.Node) (app : Str) (h : ConnectionHandle Mailbox) (us : List Str) (app' channel' : Str)
      (sid : SocketId)
      → joined (a.watch n app h us).1 app' channel' sid ≡ joined n app' channel' sid
  pub joined-unwatch :
      (n : a.Node) (app : Str) (s : SocketId) (app' channel' : Str) (sid : SocketId)
      → joined (a.unwatch n app s) app' channel' sid ≡ joined n app' channel' sid
  pub signed_in : a.Node → Str → Str → SocketId → Bool
  pub signed-signin_user :
      (n : a.Node) (app user : Str) (h : ConnectionHandle Mailbox) (app' u : Str) (sid : SocketId)
      → signed_in (a.signin_user n app user h).1 app' u sid
        ≡ (same_subscription app user h.socket_id app' u sid || signed_in n app' u sid)
  pub signed-signout_user :
      (n : a.Node) (app user : Str) (s : SocketId) (app' u : Str) (sid : SocketId)
      → signed_in (a.signout_user n app user s).1 app' u sid
        ≡ (not (same_subscription app user s app' u sid) && signed_in n app' u sid)
  pub signed-subscribe :
      (n : a.Node) (app channel : Str) (h : ConnectionHandle Mailbox)
      (m : Option (PresenceMember Value)) (app' u : Str) (sid : SocketId)
      → signed_in (a.subscribe n app channel h m).1 app' u sid ≡ signed_in n app' u sid
  pub signed-unsubscribe :
      (n : a.Node) (app channel : Str) (s : SocketId) (app' u : Str) (sid : SocketId)
      → signed_in (a.unsubscribe n app channel s).1 app' u sid ≡ signed_in n app' u sid
  pub signed-broadcast :
      (n : a.Node) (app channel : Str) (event : ServerEvent Value) (except : Option SocketId)
      (app' u : Str) (sid : SocketId)
      → signed_in (a.broadcast n app channel event except).1 app' u sid ≡ signed_in n app' u sid
  pub signed-resend_presence_ack :
      (n : a.Node) (app channel : Str) (m : Mailbox) (app' u : Str) (sid : SocketId)
      → signed_in (a.resend_presence_ack n app channel m).1 app' u sid ≡ signed_in n app' u sid
  pub signed-watch :
      (n : a.Node) (app : Str) (h : ConnectionHandle Mailbox) (us : List Str) (app' u : Str)
      (sid : SocketId)
      → signed_in (a.watch n app h us).1 app' u sid ≡ signed_in n app' u sid
  pub signed-unwatch :
      (n : a.Node) (app : Str) (s : SocketId) (app' u : Str) (sid : SocketId)
      → signed_in (a.unwatch n app s) app' u sid ≡ signed_in n app' u sid
