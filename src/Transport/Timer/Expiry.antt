-- ===== src/Transport/Timer/Expiry.antt =====
-- src/transport/timer.rs: the events of the buckets that `due` pops.
use pylon.Prelude.{
  ℕ, ◌≡◌, refl, sym, subst, Bool, true, false, ◌&&◌, Option, none, some, List, [], ◌∷◌, ◌++◌, arith,
  ◌↔◌, Eq, ◌==◌, nat_eq, nat_beq, nat_beq_iff, if◌then◌else◌, Option-cases, inl, inr, contains,
  contains-append, Distinct,
}
use pylon.Maps.Assoc.{lookup}
use pylon.Maps.BTree.{Ascending, Above, nat_ord}
use pylon.Transport.Timer.{
  TimerWheel, Slot, Timeline, slot_eq, ConnId, Kind, idle, pong, lifetime, handshake, kind_beq_iff,
  Due, ping, close_4201, close_4202, handshake_timeout, fire, fire_live, fire_armed, fire_bucket,
  fire_all,
}
use pylon.Transport.Timer.Slots.{bucket, has_slot}
use pylon.Transport.Timer.Valid.{armed, slot_of}

abbrev pub due_beq : Due → Due → Bool
due_beq (ping c) (ping d) = nat_beq c d
due_beq (close_4201 c) (close_4201 d) = nat_beq c d
due_beq (close_4202 c) (close_4202 d) = nat_beq c d
due_beq (handshake_timeout c) (handshake_timeout d) = nat_beq c d
due_beq _ _ = false

pub due_beq_iff : (a b : Due) → (due_beq a b ≡ true) ↔ (a ≡ b)
due_beq_iff a b = ground (arith)

instance abbrev pub due_eq : Eq Due
due_eq = record { same = due_beq; same_iff = due_beq_iff }

-- The event that a timer of a kind is reported by.
abbrev pub event : ConnId → Kind → Due
event c idle = ping c
event c pong = close_4201 c
event c lifetime = close_4202 c
event c handshake = handshake_timeout c

abbrev pub is_at : ℕ → Option ℕ → Bool
is_at d none = false
is_at d (some e) = nat_beq e d

fire-armed :
    (w : TimerWheel) (d : ℕ) (c : ConnId) (k : Kind)
    → fire w d c k ≡ (if is_at d (armed w c k) then event c k ∷ [] else [])
unfolding fire fire_live fire_armed
fire-armed w d c idle = ground arith
fire-armed w d c pong = ground arith
fire-armed w d c lifetime = ground arith
fire-armed w d c handshake = ground arith

event-event :
    (c c' : ConnId) (k k' : Kind) → (event c k == event c' k') ≡ (slot_of c k == slot_of c' k')
event-event c c' k k' = ground arith

contains-fire_bucket :
    (w : TimerWheel) (d : ℕ) (b : List Slot) (c : ConnId) (k : Kind)
    → contains (fire_bucket w d b) (event c k) ≡ (is_at d (armed w c k) && contains b (slot_of c k))
unfolding fire_bucket
contains-fire_bucket w d [] c k = ground arith
contains-fire_bucket w d (s ∷ b) c k = ground (
  arith,
  contains-fire_bucket w d b c k,
  contains-append (fire w d s.conn s.kind) (fire_bucket w d b) (event c k),
  fire-armed w d s.conn s.kind,
  event-event s.conn c s.kind k,
  nat_beq_iff s.conn c,
  kind_beq_iff s.kind k,
)

lookup-Above : {V : Type 0} → (d : ℕ) (t : List (ℕ × V)) → Above d t → lookup d t ≡ none
lookup-Above d [] a = refl
lookup-Above d ((j, v) ∷ t) a = ground (arith, lookup-Above d t a.1)

-- A timer's event is among those of a timeline exactly if its slot stands at its deadline.
pub contains-fire_all :
    (w : TimerWheel) (t : Timeline) (c : ConnId) (k : Kind) (d : ℕ)
    → Ascending t
    → armed w c k ≡ some d
    → contains (fire_all w t) (event c k) ≡ has_slot t d (slot_of c k)
unfolding fire_all
contains-fire_all w [] c k d a e = refl
contains-fire_all w ((j, b) ∷ t) c k d a e = ground (
  arith,
  contains-fire_all w t c k d a.1 e,
  contains-append (fire_bucket w j b) (fire_all w t) (event c k),
  contains-fire_bucket w j b c k,
  lookup-Above j t a.0,
  nat_beq_iff d j,
  nat_beq_iff j d,
)

pub contains-fire_all-unarmed :
    (w : TimerWheel) (t : Timeline) (c : ConnId) (k : Kind)
    → armed w c k ≡ none
    → contains (fire_all w t) (event c k) ≡ false
unfolding fire_all
contains-fire_all-unarmed w [] c k e = refl
contains-fire_all-unarmed w ((j, b) ∷ t) c k e = ground (
  arith,
  contains-fire_all-unarmed w t c k e,
  contains-append (fire_bucket w j b) (fire_all w t) (event c k),
  contains-fire_bucket w j b c k,
)

fire_bucket-Distinct :
    (w : TimerWheel) (d : ℕ) (b : List Slot) → Distinct b → Distinct (fire_bucket w d b)
unfolding fire_bucket
fire_bucket-Distinct w d [] u = tt
fire_bucket-Distinct w d (s ∷ b) u = ground (
  arith,
  fire_bucket-Distinct w d b u.1,
  contains-fire_bucket w d b s.conn s.kind,
  fire-armed w d s.conn s.kind,
)

append_apart :
    (xs ys : List Due)
    → Distinct xs
    → Distinct ys
    → ((x : Due) → contains xs x ≡ true → contains ys x ≡ false)
    → Distinct (xs ++ ys)
append_apart [] ys u v h = v
append_apart (x ∷ xs) ys u v h = (
  ground (arith, contains-append xs ys x, h x, due_beq_iff x x),
  append_apart xs ys u.1 v (λ y p. ground (arith, h y)),
)

-- Every event is that of a timer.
timer_of : (x : Due) → (t : ConnId × Kind) × (event t.0 t.1 ≡ x)
timer_of (ping c) = ((c, idle), refl)
timer_of (close_4201 c) = ((c, pong), refl)
timer_of (close_4202 c) = ((c, lifetime), refl)
timer_of (handshake_timeout c) = ((c, handshake), refl)

later_bucket :
    (w : TimerWheel) (j : ℕ) (b : List Slot) (t : Timeline) (c : ConnId) (k : Kind)
    → Ascending ((j, b) ∷ t)
    → contains (fire_bucket w j b) (event c k) ≡ true
    → contains (fire_all w t) (event c k) ≡ false
later_bucket w j b t c k a h = elim (Option-cases (armed w c k)) [
  | inl e ↦ contains-fire_all-unarmed w t c k e
  | inr (d, e) ↦ ground (
    arith,
    contains-fire_bucket w j b c k,
    contains-fire_all w t c k d a.1 e,
    lookup-Above j t a.0,
    nat_beq_iff d j,
  )
]

pub fire_all-Distinct :
    (w : TimerWheel) (t : Timeline)
    → Ascending t
    → ((d : ℕ) → Distinct (bucket d t))
    → Distinct (fire_all w t)
unfolding fire_all
fire_all-Distinct w [] a u = tt
fire_all-Distinct w ((j, b) ∷ t) a u =
    append_apart (fire_bucket w j b) (fire_all w t)
      (fire_bucket-Distinct w j b (ground (arith, u j, nat_beq_iff j j)))
      (fire_all-Distinct w t a.1 (λ d. ground (arith, u d, lookup-Above j t a.0, nat_beq_iff j d)))
      (λ x p.
        let (c, k) = (timer_of x).0 in
        subst (λ y. contains (fire_all w t) y ≡ false) (timer_of x).1
          (later_bucket w j b t c k a
            (subst (λ y. contains (fire_bucket w j b) y ≡ true) (sym (timer_of x).1) p)))
