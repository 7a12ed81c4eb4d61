-- ===== src/Transport/Sink.antt =====
-- src/transport/fanout.rs: the hand-off of broadcasts to the workers, and the saturation flag. A
-- worker's inbox is std's bounded `sync_channel`: its messages, oldest first, and its capacity, which is not zero.
pub mod Handoff
pub mod Examples
use pylon.Prelude.{
  ℕ, suc, ◌%◌, ◌^◌, Bool, true, false, not, ◌&&◌, ◌||◌, Option, none, some, List, [], ◌∷◌, ◌++◌,
  map, ltb, leb, if◌then◌else◌, length,
}
use pylon.Protocol.SocketId.{Str, SocketId}
use pylon.Protocol.Event.{Wire, ServerEvent, raw, active_version}
use pylon.Transport.Frame.{encode_text}

pub record BroadcastMsg : Type 0 where
  pub app : Str
  pub channel : Str
  pub frames : List (ℕ × Str)
  pub except : Option SocketId

-- `WorkerSlot`, with the channel behind `tx`; `dropped` is a u64. `woken` says that a wake is pending.
pub record WorkerSlot : Type 0 where
  pub inbox : List BroadcastMsg
  pub bound : ℕ
  pub connected : Bool
  pub has_waker : Bool
  pub woken : Bool
  pub dropped : ℕ
  pub budget_saturated : Bool

-- `BroadcastSink` and the `SaturationFlag` that it shares; `bound_workers` says whether `bind_workers`
-- was called, with the sink's own workers.
pub record BroadcastSink : Type 0 where
  pub workers : List WorkerSlot
  pub inbox_full : Bool
  pub bound_workers : Bool

-- `ACTIVE_VERSIONS`
abbrev pub active_versions : List ℕ
active_versions = active_version ∷ []

module _ {Value : Type 0} (w : Wire Value) where
  -- `frames_for`
  unfoldable pub frames_for : List ℕ → ServerEvent Value → List (ℕ × Str)
  frames_for versions (raw f) = map (λ v. (v, encode_text [] f)) versions
  frames_for versions event = map (λ v. (v, encode_text [] (w.encode v event))) versions

-- `any(|w| w.budget_saturated.load(..))`
unfoldable pub any_over_budget : List WorkerSlot → Bool
any_over_budget [] = false
any_over_budget (s ∷ rest) = s.budget_saturated || any_over_budget rest

-- `SaturationFlag::is_saturated`
unfoldable pub sink_saturated : BroadcastSink → Bool
sink_saturated b = b.inbox_full || (b.bound_workers && any_over_budget b.workers)

unfoldable pub slot_full : WorkerSlot → Bool
slot_full s = leb s.bound (length s.inbox)

-- The body of the loop of `broadcast`: the slot, and whether its inbox was full.
unfoldable pub hand_to : BroadcastMsg → WorkerSlot → Bool × WorkerSlot
unfolding slot_full
hand_to msg s =
    if not s.connected
    then (false, s)
    else if slot_full s
    then (true, record s { dropped = suc s.dropped % 2 ^ 64 })
    else (false, record s { inbox = s.inbox ++ msg ∷ []; woken = s.woken || s.has_waker })

unfoldable pub hand_to_all : BroadcastMsg → List WorkerSlot → Bool × List WorkerSlot
unfolding hand_to
hand_to_all msg [] = (false, [])
hand_to_all msg (s ∷ rest) =
    let (full, s') = hand_to msg s in
    let (any, rest') = hand_to_all msg rest in (full || any, s' ∷ rest')

-- `BroadcastSink::broadcast`
unfoldable pub sink_broadcast :
    Str → Str → List (ℕ × Str) → Option SocketId → BroadcastSink → BroadcastSink
unfolding hand_to_all
sink_broadcast app channel frames except b =
    let msg : BroadcastMsg = record {
      app = app;
      channel = channel;
      frames = frames;
      except = except;
    } in
    let (full, workers) = hand_to_all msg b.workers in
    record b { workers = workers; inbox_full = b.inbox_full || full }

-- `set_inbox_full` and `clear_inbox_full`
unfoldable pub set_inbox_full : BroadcastSink → BroadcastSink
set_inbox_full b = record b { inbox_full = true }

unfoldable pub clear_inbox_full : BroadcastSink → BroadcastSink
clear_inbox_full b = record b { inbox_full = false }

-- `bind_workers`
unfoldable pub bind_workers : BroadcastSink → BroadcastSink
bind_workers b = record b { bound_workers = true }
