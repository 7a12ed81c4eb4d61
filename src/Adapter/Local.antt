-- ===== src/Adapter/Local.antt =====
-- src/adapter/local.rs: the node that stands alone, as a composition of its registries.
use pylon.Prelude.{ℕ, Option, none, some, List, [], ◌∷◌, map, nat_eq, list_eq, pair_eq}
use pylon.Maps.Shards.{DashMap}
use pylon.Protocol.SocketId.{Str, SocketId, socket_id_eq}
use pylon.Protocol.Text.{ascii}
use pylon.Protocol.Event.{Wire, ServerEvent, raw, error, close}
use pylon.Channel.Types.{ConnectionHandle, ChannelState}
use pylon.Channel.Fanout.{Send, frame_of}
use pylon.Channel.Registry as Registry
use pylon.Channel.Registry.{Key}
use pylon.Channel.Cache.{Moka, CachedEvent, cache_get, cache_set}
use pylon.User.Registry as Users
use pylon.User.Registry.{UserKey, Sockets}
use pylon.Transport.Sink.{BroadcastSink, sink_broadcast, frames_for, active_versions}
use pylon.Adapter.{Adapter}
use pylon.Adapter.Connections.{drain_app}

-- The maps of the registries, the cache, the encoder, and the order of rayon's chunks.
pub record Stores (Value Mailbox : Type 0) : Type 1 where
  pub wire : Wire Value
  pub channels : DashMap Key (ChannelState Value Mailbox)
  pub cached : Moka
  pub users : DashMap UserKey (Sockets Mailbox)
  pub watching : DashMap (Str × SocketId) (List Str)
  pub apps : DashMap Str (Sockets Mailbox)
  pub spread : List (List (Send Value Mailbox)) → List (Send Value Mailbox)

module _ {Value Mailbox : Type 0} (x : Stores Value Mailbox) where
  -- `LocalAdapter`
  pub record LocalAdapter : Type 0 where
    pub registry : x.channels.Map
    pub cache : x.cached.Cache
    pub users : Users.UserRegistry x.users x.watching
    pub app_registry : x.apps.Map
    pub bcast_sink : Option BroadcastSink

  abbrev with_registry : {A : Type 0} → A × x.channels.Map → LocalAdapter → A × LocalAdapter
  with_registry (a, r) n = (a, record n { registry = r })

  abbrev with_users :
      {A : Type 0} → A × Users.UserRegistry x.users x.watching → LocalAdapter → A × LocalAdapter
  with_users (a, u) n = (a, record n { users = u })

  -- `broadcast`
  unfoldable pub broadcast :
      LocalAdapter
      → Str
      → Str
      → ServerEvent Value
      → Option SocketId
      → List (Send Value Mailbox) × LocalAdapter
  broadcast n app channel event except = elim n.bcast_sink [
    | none ↦
        with_registry
          (Registry.broadcast x.wire x.channels x.spread n.registry app channel event except) n
    | some sink ↦ (
      [],
      record n {
        bcast_sink =
            some (sink_broadcast app channel (frames_for x.wire active_versions event) except sink);
      },
    )
  ]

  raw_to : Mailbox → Option Str → List (Send Value Mailbox)
  raw_to mailbox none = []
  raw_to mailbox (some frame) = (mailbox, raw frame) ∷ []

  -- `resend_presence_ack`
  unfoldable pub resend_presence_ack :
      LocalAdapter → Str → Str → Mailbox → List (Send Value Mailbox) × LocalAdapter
  unfolding raw_to
  resend_presence_ack n app channel mailbox =
      let (frame, r) = Registry.roster_frame x.wire x.channels n.registry app channel in
      (raw_to mailbox frame, record n { registry = r })

  -- The operations of `impl Adapter for LocalAdapter` that a connection calls.
  abbrev pub local : Adapter Value Mailbox
  local = record {
    Node = LocalAdapter;
    subscribe = λ n app channel h m.
        with_registry (Registry.subscribe x.wire x.channels n.registry app channel h m) n;
    unsubscribe = λ n app channel sid.
        with_registry (Registry.unsubscribe x.wire x.channels n.registry app channel sid) n;
    broadcast = broadcast;
    channel = λ n app channel. Registry.channel_summary x.wire x.channels n.registry app channel;
    presence_members =
        λ n app channel. Registry.presence_members x.wire x.channels n.registry app channel;
    resend_presence_ack = resend_presence_ack;
    cache_get = λ now n app channel. cache_get x.cached now n.cache app channel;
    signin_user = λ n app user h. with_users (Users.signin x.users x.watching n.users app user h) n;
    signout_user =
        λ n app user sid. with_users (Users.signout x.users x.watching n.users app user sid) n;
    watch = λ n app h us.
        let ((online, newly), u) = Users.watch x.users x.watching n.users app h us in
        (online, record n { users = u });
    unwatch =
        λ n app sid. record n { users = (Users.unwatch x.users x.watching n.users app sid).1 };
    watchers_of = λ n app user. Users.watchers_of x.users x.watching n.users app user;
  }

  -- `cache_set` at a time
  unfoldable pub set_cached : ℕ → LocalAdapter → Str → Str → CachedEvent → ℕ → LocalAdapter
  set_cached now n app channel event ttl = record n {
    cache = cache_set x.cached now n.cache app channel event ttl;
  }

  -- `send_to_user`
  unfoldable pub send_to_user :
      LocalAdapter → Str → Str → ServerEvent Value → List (Send Value Mailbox)
  unfolding frame_of
  send_to_user n app user_id event =
      map (λ h. (h.mailbox, raw (frame_of x.wire event)))
        (Users.handles x.users x.watching n.users app user_id)

  -- The frames of `close_handles_4009`.
  unfoldable pub close_frames : List (ConnectionHandle Mailbox) → List (Send Value Mailbox)
  close_frames [] = []
  close_frames (h ∷ hs) =
      (
        h.mailbox,
        error (record { code = 4009; message = ascii "You got disconnected by the app." }),
      )
      ∷ (h.mailbox, close 4009 (ascii "You got disconnected by the app."))
      ∷ close_frames hs

  -- `close_handles_4009`
  unfoldable pub close_handles_4009 :
      List (ConnectionHandle Mailbox) → List SocketId × List (Send Value Mailbox)
  unfolding close_frames
  close_handles_4009 handles = (map (λ h. h.socket_id) handles, close_frames handles)

  -- `terminate_user`
  unfoldable pub terminate_user :
      LocalAdapter → Str → Str → List SocketId × List (Send Value Mailbox)
  unfolding close_handles_4009
  terminate_user n app user_id =
      close_handles_4009 (Users.handles x.users x.watching n.users app user_id)

  -- `purge_app`
  unfoldable pub purge_app :
      LocalAdapter → Str → (List SocketId × List (Send Value Mailbox)) × LocalAdapter
  unfolding close_handles_4009
  purge_app n app_id =
      let (handles, apps) = drain_app x.apps n.app_registry app_id in
      (close_handles_4009 handles, record n { app_registry = apps })
