-- ===== src/Lib.antt =====
-- Verification of pylon, a Pusher-compatible WebSocket server: a connection's session, the channels of
-- a node and who is subscribed to them, and the timers that keep connections alive.
--
-- The parts and how they interact. A client's commands are dispatched to its connection's session
-- (`src/ws/handler.rs`, `subscribe.rs`, `signin.rs`), which checks capabilities, limits and signatures
-- (`src/auth`), keeps its own bookkeeping, and calls the node through the `Adapter` trait
-- (`src/adapter/mod.rs`). On a node that stands alone the adapter (`src/adapter/local.rs`) composes the
-- registries. Subscriptions are held by the channel
-- registry (`src/channel/registry.rs`), a concurrent map from app and channel name to a
-- `ChannelState` (`src/channel/state.rs`), which holds the subscribers, the roster of presence users,
-- and two lazily filled cells: the snapshot for broadcasts and the encoded roster frame. The outcomes
-- (`src/channel/outcome.rs`) carry the edges (first join of a user, last leave, occupied, vacated) that
-- webhooks and presence events are sent for. A worker's timer wheel (`src/transport/timer.rs`) says
-- which connections to ping and to close. The bytes of a connection are WebSocket frames
-- (`src/transport/frame.rs`). The user registry (`src/user/registry.rs`) knows which users are signed in
-- and who watches them. Broadcasts are handed to the workers (`src/transport/fanout.rs`), and triggers to
-- the webhook dispatcher (`src/webhook/dispatcher.rs`).
--
-- Which file models which part:
--   Prelude      tests, lists, and equality as an instance argument
--   Maps         Assoc: `HashMap`; BTree: ordered maps; Shards: `dashmap::DashMap` as an interface
--   Protocol     SocketId: `src/protocol/socket_id.rs`; Event: `src/protocol/event.rs`, `error.rs`;
--                Command: `command.rs` and the capabilities of `codec.rs`; Json: `parse_channel_data` and
--                `parse_user_data`; Text: literals, counts and characters as bytes;
--                Negotiate: `src/protocol/mod.rs`
--   Auth         `src/auth/channel.rs`, `user.rs`, `signature.rs`
--   App          `src/app/mod.rs`: the app, its webhook gates, `validate` and the answers of a lookup
--   Connection   `src/connection/handle.rs`: the mailbox of a connection
--   Rate         `src/rate.rs` and `src/ws/rate.rs`
--   Channel      Types: the data of `src/channel/state.rs`, `outcome.rs`, `src/presence/member.rs` and
--                `src/connection/handle.rs`; Users: what `add` and `remove` do to a roster's entry;
--                State: `ChannelState`, function by function; Fanout: `fanout` and `Fanout::send`;
--                Registry: `Registry`, function by function; Kind: `src/channel/kind.rs`; Cache:
--                `src/channel/cache.rs`
--   Transport    Timer: `TimerWheel`, function by function; Frame: `src/transport/frame.rs`, where `parse`
--                returns its result and the buffer that it leaves; Sink: `src/transport/fanout.rs`
--   Webhook      Event: `src/webhook/event.rs`; Dispatcher: `flush` and `deliver_app_events` of
--                `src/webhook/dispatcher.rs`; Occupancy: its deferred tasks and `occupancy.rs`
--   Adapter      the trait, as a record of operations, and the laws of subscriptions and signed-in users that the
--                handlers use; Local:
--                `src/adapter/local.rs`; Connections: `src/adapter/app_registry.rs`
--   Session      the context and the shared steps of `src/ws/handler.rs`; Verdict and Subscribe: the
--                guards and the effects of `subscribe`; ClientEvent; Unsubscribe: also `on_close`; Signin;
--                Dispatch
--   User         Registry: `UserRegistry` of `src/user/registry.rs`, function by function, each run without
--                another between its steps
-- Below these stand the proofs, in modules named for what they prove, and the Examples.
-- A function of the source has its name here; `ChannelState::is_empty` is `state_is_empty`. Mutation is
-- state passing: a function returns its result and the new state. `Registry::unsubscribe` is split
-- where it drops its guard: `unsubscribe_guarded`, then `prune`.
--
-- Conventions. Text is its UTF-8 bytes. A `HashMap` is an association list with one entry for a key;
-- no statement depends on its order but by a permutation. A cell filled once (`OnceLock`) is an
-- Option. `usize` counts are unbounded, since they are lengths; times of the wheel are u64 and keep
-- `saturating_add` and the wrap of `now_ms + 1`. The codec is that of a target of 64 bits; the high bit
-- of a u64 length is the test `2 ^ 63 ≤ raw`. Every loop runs over a list, but for the
-- digits of `decimal`, whose fuel is one more than the number, which each step divides by ten, and for
-- `is_blank`, whose fuel is the count of bytes, of which each step takes at least one.
--
-- A command runs between two commands of its own connection only, and its calls of the adapter are one
-- after another; `Reached` lets others change the node between commands.
--
-- Parameters, since their code is not in the repository: `Json` (what is used of `serde_json`), `F64`
-- (with the laws of IEEE 754 that a bound uses), `hmac`, `Wire` (the equality of `serde_json::Value`,
-- of which only reflexivity is used, and the frame encoder), `Moka` (moka's cache, without laws),
-- `DashMap` (laws of get, put and delete; `plain` shows that they can hold), `BoundedChannel` (tokio's
-- bounded channel), `spread` (the order in which rayon runs the chunks: a permutation), and the test
-- of `str::from_utf8` in `as_str`.
--
-- Not modelled: the connection driver and the event loop, the Redis adapter and the cluster bridge, the
-- REST API, the stores of apps, the delivery of webhooks, and all I/O. The handlers record
-- what they hand to a mailbox; that a full one drops it is Connection's part alone.
pub mod Prelude
pub mod Maps
pub mod Protocol
pub mod Auth
pub mod App
pub mod Rate
pub mod Connection
pub mod Channel
pub mod Transport
pub mod User
pub mod Webhook
pub mod Adapter
pub mod Session
