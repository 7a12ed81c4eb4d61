-- ===== src/Adapter/Examples.antt =====
-- A socket of the local node.
use pylon.Prelude.{
  ℕ, ◌≡◌, none, [], ◌∷◌, not, ◌&&◌, ◌||◌, ◌==◌, nat_eq, list_eq, contains, length, ◌*◌,
}
use pylon.Protocol.SocketId.{Str, SocketId, from_raw, socket_id_eq}
use pylon.Protocol.Event.{pong}
use pylon.Channel.Types.{ConnectionHandle}
use pylon.Adapter.{same_subscription}
use pylon.Adapter.Local.{LocalAdapter, local, broadcast, resend_presence_ack, purge_app}
use pylon.Adapter.Connections.{insert_connection}
use pylon.Adapter.Evict.{IsKeyed, connections-IsKeyed, is_connected}
use pylon.Adapter.Evict.Purge.{IsTold, handle_at, purge_app-IsTold}
use pylon.Adapter.Implements.{joined_in, local-joined}
use pylon.Session.Samples.{sample_stores, empty_node}

abbrev socket : SocketId
socket = from_raw (7 ∷ [])

abbrev here : Str
here = 1 ∷ []

abbrev handle : ConnectionHandle ℕ
handle = record { socket_id = socket; mailbox = 7 }

local-joined_example :
    let joined = λ (k : LocalAdapter sample_stores).
      joined_in sample_stores.wire sample_stores.channels k.registry here here socket in
    (joined ((local sample_stores).subscribe empty_node here here handle none).1
      ≡ (same_subscription here here socket here here socket || joined empty_node))
    × (joined ((local sample_stores).unsubscribe empty_node here here socket).1
        ≡ (not (same_subscription here here socket here here socket) && joined empty_node))
    × (joined (broadcast sample_stores empty_node here here pong none).1 ≡ joined empty_node)
    × (joined (resend_presence_ack sample_stores empty_node here here 7).1 ≡ joined empty_node)
local-joined_example =
    local-joined sample_stores empty_node here here handle none socket pong none here here socket

abbrev two_known : LocalAdapter sample_stores
two_known = record empty_node {
  app_registry =
      insert_connection sample_stores.apps
        (insert_connection sample_stores.apps sample_stores.apps.empty here handle) (2 ∷ []) handle;
}

none-IsKeyed : IsKeyed sample_stores.apps sample_stores.apps.empty
unfolding IsKeyed
none-IsKeyed app set e = absurd (cc)

known-IsKeyed : IsKeyed sample_stores.apps two_known.app_registry
known-IsKeyed =
    (connections-IsKeyed sample_stores.apps _ (2 ∷ []) handle socket
      (connections-IsKeyed sample_stores.apps _ here handle socket none-IsKeyed).0).0

purge_app-IsTold_example :
    let ((ids, frames), n') = purge_app sample_stores two_known here in
    (contains ids socket ≡ is_connected sample_stores.apps two_known.app_registry here socket)
    × IsTold frames (handle_at sample_stores two_known.app_registry here socket)
    × (length frames ≡ 2 * length ids)
    × (is_connected sample_stores.apps n'.app_registry (2 ∷ []) socket ≡ (
        not (here == 2 ∷ [])
        && is_connected sample_stores.apps two_known.app_registry (2 ∷ []) socket))
purge_app-IsTold_example =
    purge_app-IsTold sample_stores two_known here (2 ∷ []) socket known-IsKeyed
