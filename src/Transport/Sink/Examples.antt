-- ===== src/Transport/Sink/Examples.antt =====
-- A broadcast to three workers: one with room, one without, and one that is gone.
use pylon.Prelude.{◌≡◌, Bool, true, false, ◌||◌, none, List, [], ◌∷◌}
use pylon.Transport.Sink.{BroadcastMsg, WorkerSlot, BroadcastSink, sink_broadcast}
use pylon.Transport.Sink.Handoff.{EachHanded, any_full, sink_broadcast-EachHanded}

abbrev message : BroadcastMsg
message = record { app = 1 ∷ []; channel = 2 ∷ []; frames = []; except = none }

abbrev slot : List BroadcastMsg → Bool → WorkerSlot
slot inbox connected = record {
  inbox = inbox;
  bound = 1;
  connected = connected;
  has_waker = true;
  woken = false;
  dropped = 0;
  budget_saturated = false;
}

abbrev sink : BroadcastSink
sink = record {
  workers = slot [] true ∷ slot (message ∷ []) true ∷ slot [] false ∷ [];
  inbox_full = false;
  bound_workers = true;
}

sink_broadcast-EachHanded_example :
    let after = sink_broadcast (1 ∷ []) (2 ∷ []) [] none sink in
    EachHanded message sink.workers after.workers
    × (after.inbox_full ≡ (false || any_full sink.workers))
sink_broadcast-EachHanded_example = sink_broadcast-EachHanded (1 ∷ []) (2 ∷ []) [] none sink
