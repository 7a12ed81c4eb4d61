-- ===== src/Transport/Timer/Valid.antt =====
-- src/transport/timer.rs: the timeline is an index of the armed timers.
use pylon.Prelude.{
  ℕ, ◌≡◌, ◌∙◌, true, false, Option, none, some, arith, ◌==◌, nat_eq, nat_beq_iff, ltb,
  if◌then◌else◌, Distinct,
}
use pylon.Maps.Assoc.{lookup}
use pylon.Maps.BTree.{Ascending, nat_ord}
use pylon.Transport.Timer.{
  TimerWheel, Timer, Slot, Timeline, slot_eq, ConnId, Kind, idle, pong, lifetime, handshake,
  kind_beq, kind_beq_iff, push_slot, scrub,
}
use pylon.Transport.Timer.Slots.{
  bucket, has_slot, has_slot-push, has_slot-scrub, push-Distinct, scrub-Distinct, push-Ascending,
  scrub-Ascending, NoEmpty, push-NoEmpty, scrub-NoEmpty,
}

-- The abstract wheel: when, if at all, a connection's timer of a kind goes off.
abbrev pub Armed : Type 0
Armed = ConnId → Kind → Option ℕ

abbrev pub armed_live : Kind → Option Timer → Option ℕ
armed_live k none = none
armed_live k (some t) = if kind_beq t.kind k then some t.deadline_ms else none

abbrev pub armed : TimerWheel → Armed
armed w c idle = armed_live idle (lookup c w.live)
armed w c pong = armed_live pong (lookup c w.live)
armed w c lifetime = lookup c w.lifetimes
armed w c handshake = lookup c w.handshakes

abbrev pub slot_of : ConnId → Kind → Slot
slot_of c k = record { conn = c; kind = k }

-- The timeline holds one slot for every armed timer whose deadline is not below `bound`, up to which
-- the wheel has been advanced, and no slot that is not armed.
pub record Implements (bound : ℕ) (a : Armed) (t : Timeline) : Type 0 where
  pub ascending : Ascending t
  pub no_empty : NoEmpty t
  pub distinct : (d : ℕ) → Distinct (bucket d t)
  pub backed : (d : ℕ) (c : ConnId) (k : Kind) → has_slot t d (slot_of c k) ≡ true → a c k ≡ some d
  pub pending :
      (d : ℕ) (c : ConnId) (k : Kind)
      → a c k ≡ some d
      → ltb d bound ≡ false
      → has_slot t d (slot_of c k) ≡ true

-- `a` with one timer disarmed, and with one armed.
abbrev pub disarm : ConnId → Kind → Armed → Armed
disarm c k a c' k' = if slot_of c' k' == slot_of c k then none else a c' k'

abbrev pub arm : ConnId → Kind → ℕ → Armed → Armed
arm c k d a c' k' = if slot_of c' k' == slot_of c k then some d else a c' k'

pub scrub-Implements :
    (bound d : ℕ) (c : ConnId) (k : Kind) (a : Armed) (t : Timeline)
    → Implements bound a t
    → a c k ≡ some d
    → Implements bound (disarm c k a) (scrub c d k t)
scrub-Implements bound d c k a t v e = record {
  ascending = scrub-Ascending c d k t v.ascending;
  no_empty = scrub-NoEmpty c d k t v.no_empty;
  distinct = λ j. scrub-Distinct c d j k t (v.distinct j);
  backed = λ j c' k' h. ground (
    arith,
    has_slot-scrub c d j k (slot_of c' k') t,
    v.backed j c' k',
    nat_beq_iff c' c,
    kind_beq_iff k' k,
    nat_beq_iff d j,
  );
  pending =
      λ j c' k' h l. ground (arith, has_slot-scrub c d j k (slot_of c' k') t, v.pending j c' k');
}

pub push-Implements :
    (bound d : ℕ) (c : ConnId) (k : Kind) (a : Armed) (t : Timeline)
    → Implements bound a t
    → a c k ≡ none
    → Implements bound (arm c k d a) (push_slot d (slot_of c k) t)
push-Implements bound d c k a t v e = record {
  ascending = push-Ascending d (slot_of c k) t v.ascending;
  no_empty = push-NoEmpty d (slot_of c k) t v.no_empty;
  distinct = λ j. push-Distinct d j (slot_of c k) t (ground (arith, v.backed d c k)) (v.distinct j);
  backed = λ j c' k' h. ground (
    arith,
    has_slot-push d j (slot_of c k) (slot_of c' k') t,
    v.backed j c' k',
    nat_beq_iff c c',
    kind_beq_iff k k',
    nat_beq_iff c' c,
    kind_beq_iff k' k,
    nat_beq_iff d j,
  );
  pending = λ j c' k' h l. ground (
    arith,
    has_slot-push d j (slot_of c k) (slot_of c' k') t,
    v.pending j c' k',
    nat_beq_iff c c',
    kind_beq_iff k k',
    nat_beq_iff c' c,
    kind_beq_iff k' k,
    nat_beq_iff d j,
  );
}

pub ext-Implements :
    (bound : ℕ) (a b : Armed) (t : Timeline)
    → Implements bound a t
    → ((c : ConnId) (k : Kind) → b c k ≡ a c k)
    → Implements bound b t
ext-Implements bound a b t v h = record {
  ascending = v.ascending;
  no_empty = v.no_empty;
  distinct = v.distinct;
  backed = λ j c k s. h c k ∙ v.backed j c k s;
  pending = λ j c k s l. ground (arith, h c k, v.pending j c k);
}
