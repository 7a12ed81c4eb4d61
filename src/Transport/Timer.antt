-- ===== src/Transport/Timer.antt =====
-- src/transport/timer.rs: the timer wheel of a worker. Times are u64 milliseconds.
pub mod Slots
pub mod Valid
pub mod Refine
pub mod Arming
pub mod Expiry
pub mod Advance
pub mod History
pub mod Reports
pub mod Examples
use pylon.Prelude.{
  ℕ, ◌+◌, ◌-◌, ◌*◌, ◌%◌, ◌^◌, ◌≡◌, ◌↔◌, Bool, true, false, not, ◌&&◌, Option, none, some, List, [],
  ◌∷◌, ◌++◌, arith, Eq, ◌==◌, nat_eq, nat_beq, ltb, if◌then◌else◌, min, is_empty, retain,
}
use pylon.Maps.Assoc.{lookup, insert, remove as map_remove, contains_key, modify}
use pylon.Maps.BTree.{insert_sorted, nat_ord}

abbrev pub u64_max : ℕ
u64_max = 2 ^ 64 - 1

abbrev pub ConnId : Type 0
ConnId = ℕ

pub data Due : Type 0 where
  ping close_4201 close_4202 handshake_timeout : ConnId → Due

pub data Kind : Type 0 where
  idle pong lifetime handshake : Kind

pub record Timer : Type 0 where
  pub deadline_ms : ℕ
  pub kind : Kind

pub record Slot : Type 0 where
  pub conn : ConnId
  pub kind : Kind

abbrev pub Timeline : Type 0
Timeline = List (ℕ × List Slot)

pub record TimerWheel : Type 0 where
  pub activity_timeout_ms : ℕ
  pub pong_timeout_ms : ℕ
  pub timeline : Timeline
  pub live : List (ConnId × Timer)
  pub lifetimes : List (ConnId × ℕ)
  pub handshakes : List (ConnId × ℕ)

abbrev pub kind_beq : Kind → Kind → Bool
kind_beq idle idle = true
kind_beq pong pong = true
kind_beq lifetime lifetime = true
kind_beq handshake handshake = true
kind_beq _ _ = false

pub kind_beq_iff : (k l : Kind) → (kind_beq k l ≡ true) ↔ (k ≡ l)
kind_beq_iff k l = ground arith

-- `s.conn == conn && s.kind == kind`
abbrev pub slot_beq : Slot → Slot → Bool
slot_beq s t = nat_beq s.conn t.conn && kind_beq s.kind t.kind

pub slot_beq_iff : (s t : Slot) → (slot_beq s t ≡ true) ↔ (s ≡ t)
slot_beq_iff s t = ground (arith, kind_beq_iff s.kind t.kind)

instance abbrev pub slot_eq : Eq Slot
slot_eq = record { same = slot_beq; same_iff = slot_beq_iff }

-- `TimerWheel::with_timeouts`
unfoldable pub with_timeouts : ℕ → ℕ → TimerWheel
with_timeouts activity_secs pong_secs = record {
  activity_timeout_ms = activity_secs * 1000;
  pong_timeout_ms = pong_secs * 1000;
  timeline = [];
  live = [];
  lifetimes = [];
  handshakes = [];
}

saturating_add : ℕ → ℕ → ℕ
saturating_add a b = min (a + b) u64_max

-- `timeline.entry(deadline).or_default().push(slot)`
unfoldable pub push_slot : ℕ → Slot → Timeline → Timeline
push_slot deadline slot t =
    modify deadline (λ b. b ++ slot ∷ [])
      (if contains_key deadline t then t else insert_sorted deadline [] t)

scrub_bucket : ℕ → Slot → Option (List Slot) → Timeline → Timeline
scrub_bucket deadline slot none t = t
scrub_bucket deadline slot (some b) t =
    let left = retain (λ s. not (s == slot)) b in
    if is_empty left then map_remove deadline t else modify deadline (λ _. left) t

-- `scrub`, on the timeline
unfoldable pub scrub : ConnId → ℕ → Kind → Timeline → Timeline
unfolding scrub_bucket
scrub conn deadline kind t =
    scrub_bucket deadline (record { conn = conn; kind = kind }) (lookup deadline t) t

-- The scrub of a superseded or removed timer, if there was one.
scrub_timer : ConnId → Option Timer → Timeline → Timeline
scrub_timer conn none t = t
scrub_timer conn (some old) t = scrub conn old.deadline_ms old.kind t

scrub_deadline : ConnId → Kind → Option ℕ → Timeline → Timeline
scrub_deadline conn kind none t = t
scrub_deadline conn kind (some old) t = scrub conn old kind t

-- `schedule`
unfoldable pub schedule : ConnId → ℕ → Kind → TimerWheel → TimerWheel
unfolding scrub_timer
schedule conn deadline kind w = record w {
  timeline =
      push_slot deadline (record { conn = conn; kind = kind })
        (scrub_timer conn (lookup conn w.live) w.timeline);
  live = insert conn (record { deadline_ms = deadline; kind = kind }) w.live;
}

-- `touch`
unfoldable pub touch : ConnId → ℕ → TimerWheel → TimerWheel
unfolding schedule saturating_add
touch conn now_ms w = schedule conn (saturating_add now_ms w.activity_timeout_ms) idle w

-- `mark_ping_sent`
unfoldable pub mark_ping_sent : ConnId → ℕ → TimerWheel → TimerWheel
unfolding schedule saturating_add
mark_ping_sent conn now_ms w = schedule conn (saturating_add now_ms w.pong_timeout_ms) pong w

-- `arm_lifetime`
unfoldable pub arm_lifetime : ConnId → ℕ → TimerWheel → TimerWheel
unfolding scrub_deadline
arm_lifetime conn deadline w = record w {
  timeline =
      push_slot deadline (record { conn = conn; kind = lifetime })
        (scrub_deadline conn lifetime (lookup conn w.lifetimes) w.timeline);
  lifetimes = insert conn deadline w.lifetimes;
}

-- `arm_handshake`
unfoldable pub arm_handshake : ConnId → ℕ → TimerWheel → TimerWheel
unfolding scrub_deadline
arm_handshake conn deadline w = record w {
  timeline =
      push_slot deadline (record { conn = conn; kind = handshake })
        (scrub_deadline conn handshake (lookup conn w.handshakes) w.timeline);
  handshakes = insert conn deadline w.handshakes;
}

-- `clear_handshake`
unfoldable pub clear_handshake : ConnId → TimerWheel → TimerWheel
unfolding scrub_deadline
clear_handshake conn w = record w {
  timeline = scrub_deadline conn handshake (lookup conn w.handshakes) w.timeline;
  handshakes = map_remove conn w.handshakes;
}

-- `clear_liveness`
unfoldable pub clear_liveness : ConnId → TimerWheel → TimerWheel
unfolding scrub_timer
clear_liveness conn w = record w {
  timeline = scrub_timer conn (lookup conn w.live) w.timeline;
  live = map_remove conn w.live;
}

clear_lifetime : ConnId → TimerWheel → TimerWheel
clear_lifetime conn w = record w {
  timeline = scrub_deadline conn lifetime (lookup conn w.lifetimes) w.timeline;
  lifetimes = map_remove conn w.lifetimes;
}

-- `remove`
unfoldable pub remove : ConnId → TimerWheel → TimerWheel
unfolding clear_liveness clear_lifetime clear_handshake
remove conn w = clear_handshake conn (clear_lifetime conn (clear_liveness conn w))

fire_live : ℕ → Slot → Option Timer → List Due
fire_live deadline slot none = []
fire_live deadline slot (some t) =
    if nat_beq t.deadline_ms deadline && kind_beq t.kind slot.kind
    then (if kind_beq slot.kind idle then ping slot.conn else close_4201 slot.conn) ∷ []
    else []

fire_armed : ℕ → Due → Option ℕ → List Due
fire_armed deadline event none = []
fire_armed deadline event (some d) = if nat_beq d deadline then event ∷ [] else []

-- The events of one popped slot.
fire : TimerWheel → ℕ → ConnId → Kind → List Due
unfolding fire_live fire_armed
fire w deadline conn idle =
    fire_live deadline (record { conn = conn; kind = idle }) (lookup conn w.live)
fire w deadline conn pong =
    fire_live deadline (record { conn = conn; kind = pong }) (lookup conn w.live)
fire w deadline conn lifetime = fire_armed deadline (close_4202 conn) (lookup conn w.lifetimes)
fire w deadline conn handshake =
    fire_armed deadline (handshake_timeout conn) (lookup conn w.handshakes)

fire_bucket : TimerWheel → ℕ → List Slot → List Due
fire_bucket w deadline [] = []
fire_bucket w deadline (s ∷ ss) = fire w deadline s.conn s.kind ++ fire_bucket w deadline ss

pub fire_all : TimerWheel → Timeline → List Due
fire_all w [] = []
fire_all w ((deadline, slots) ∷ rest) = fire_bucket w deadline slots ++ fire_all w rest

-- The key of `split_off(&(now_ms + 1))`: the sum wraps at u64.
bound_of : ℕ → ℕ
bound_of now_ms = (now_ms + 1) % 2 ^ 64

-- `due`
unfoldable pub due : ℕ → TimerWheel → List Due × TimerWheel
unfolding fire fire_bucket fire_all bound_of
due now_ms w =
    let expired = retain (λ e. ltb e.0 (bound_of now_ms)) w.timeline in
    let future = retain (λ e. not (ltb e.0 (bound_of now_ms))) w.timeline in
    let w' = record w { timeline = future } in (fire_all w' expired, w')
