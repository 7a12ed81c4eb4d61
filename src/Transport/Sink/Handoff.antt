-- ===== src/Transport/Sink/Handoff.antt =====
-- src/transport/fanout.rs: what a broadcast does to the inboxes and to the saturation flag.
use pylon.Prelude.{
  ℕ, suc, ◌%◌, ◌^◌, ◌≤◌, ◌≡◌, refl, Bool, true, false, not, ◌&&◌, ◌||◌, Option, List, [], ◌∷◌, ◌++◌,
  arith, if◌then◌else◌, length, length-append,
}
use pylon.Protocol.SocketId.{Str, SocketId}
use pylon.Transport.Sink.{
  BroadcastMsg, WorkerSlot, BroadcastSink, slot_full, hand_to, hand_to_all, sink_broadcast,
}

-- Some worker that is still there has no room.
abbrev pub any_full : List WorkerSlot → Bool
any_full [] = false
any_full (s ∷ rest) = (s.connected && slot_full s) || any_full rest

-- What one slot may become: the message behind the others, or counted as dropped, or nothing for a
-- worker that is gone.
abbrev pub Handed : BroadcastMsg → WorkerSlot → WorkerSlot → Type 0
Handed msg s t =
    (t.inbox ≡ (if s.connected && not (slot_full s) then s.inbox ++ msg ∷ [] else s.inbox))
    × (t.dropped ≡ (if s.connected && slot_full s then suc s.dropped % 2 ^ 64 else s.dropped))
    × (length s.inbox ≤ s.bound → length t.inbox ≤ t.bound)
    × (t.budget_saturated ≡ s.budget_saturated)

abbrev pub EachHanded : BroadcastMsg → List WorkerSlot → List WorkerSlot → Type 0
EachHanded msg [] [] = Unit {0}
EachHanded msg (s ∷ rest) (t ∷ later) = Handed msg s t × EachHanded msg rest later
EachHanded msg _ _ = true ≡ false

hand_to-Handed : (msg : BroadcastMsg) (s : WorkerSlot) → Handed msg s (hand_to msg s).1
unfolding hand_to slot_full
hand_to-Handed msg s = (
  ground arith,
  ground arith,
  λ h. ground (arith, length-append s.inbox (msg ∷ [])),
  ground arith,
)

hand_to-full :
    (msg : BroadcastMsg) (s : WorkerSlot) → (hand_to msg s).0 ≡ (s.connected && slot_full s)
unfolding hand_to
hand_to-full msg s = ground arith

hand_to_all-EachHanded :
    (msg : BroadcastMsg) (l : List WorkerSlot)
    → EachHanded msg l (hand_to_all msg l).1 × ((hand_to_all msg l).0 ≡ any_full l)
unfolding hand_to_all
hand_to_all-EachHanded msg [] = (tt, refl)
hand_to_all-EachHanded msg (s ∷ rest) =
    let (each, any) = hand_to_all-EachHanded msg rest in
    ((hand_to-Handed msg s, each), ground (arith, hand_to-full msg s, any))

-- A broadcast reaches each worker once: behind the other messages where there is room, which keeps the
-- inbox within its bound, and counted as dropped where there is none; a worker that is gone gets
-- nothing. The flag for a full inbox is set exactly if it was, or some worker that is there had no room.
pub sink_broadcast-EachHanded :
    (app channel : Str) (frames : List (ℕ × Str)) (except : Option SocketId) (b : BroadcastSink)
    → let after = sink_broadcast app channel frames except b in
      EachHanded
        (record { app = app; channel = channel; frames = frames; except = except })
        b.workers
        after.workers
      × (after.inbox_full ≡ (b.inbox_full || any_full b.workers))
unfolding sink_broadcast
sink_broadcast-EachHanded app channel frames except b =
    let (each, any) = hand_to_all-EachHanded _ b.workers in (each, ground (arith, any))
