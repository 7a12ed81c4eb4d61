-- ===== src/Transport/Timer/Advance.antt =====
-- src/transport/timer.rs: `due` reports exactly the timers that have run out.
use pylon.Prelude.{
  ℕ, ◌+◌, ◌≡◌, refl, ◌∙◌, Bool, true, false, not, ◌&&◌, none, some, [], ◌∷◌, arith, nat_eq,
  nat_beq_iff, ltb, leb, max, if◌then◌else◌, Option-cases, inl, inr, retain, contains, Distinct,
}
use pylon.Maps.Assoc.{lookup}
use pylon.Maps.BTree.{Ascending, Above, nat_ord}
use pylon.Transport.Timer.{
  TimerWheel, Slot, Timeline, slot_eq, ConnId, Kind, idle, pong, lifetime, handshake, fire_all, due,
  bound_of, u64_max,
}
use pylon.Transport.Timer.Slots.{bucket, has_slot}
use pylon.Transport.Timer.Valid.{Armed, armed, slot_of, Implements, ext-Implements}
use pylon.Transport.Timer.Refine.{IsWheel, Same, Refines}
use pylon.Transport.Timer.Expiry.{
  event, due_eq, contains-fire_all, contains-fire_all-unarmed, fire_all-Distinct,
}

abbrev keys_with : (ℕ → Bool) → Timeline → Timeline
keys_with p t = retain (λ e. p e.0) t

lookup-keys_with :
    (p : ℕ → Bool) (t : Timeline) (d : ℕ)
    → lookup d (keys_with p t) ≡ (if p d then lookup d t else none)
lookup-keys_with p [] d = ground arith
lookup-keys_with p ((j, b) ∷ t) d = ground (arith, lookup-keys_with p t d, nat_beq_iff j d)

Above-keys_with : (p : ℕ → Bool) (l : ℕ) (t : Timeline) → Above l t → Above l (keys_with p t)
Above-keys_with p l [] a = tt
Above-keys_with p l ((j, b) ∷ t) a = ground (arith, Above-keys_with p l t a.1)

Ascending-keys_with : (p : ℕ → Bool) (t : Timeline) → Ascending t → Ascending (keys_with p t)
Ascending-keys_with p [] a = tt
Ascending-keys_with p ((j, b) ∷ t) a =
    ground (arith, Ascending-keys_with p t a.1, Above-keys_with p j t a.0)

keys_with_apart :
    (p q : ℕ → Bool) (t : Timeline)
    → ((d : ℕ) → q d ≡ true → p d ≡ false)
    → keys_with p (keys_with q t) ≡ []
keys_with_apart p q [] h = refl
keys_with_apart p q ((j, b) ∷ t) h = ground (arith, keys_with_apart p q t h, h j)

keys_with-Implements :
    (bound after : ℕ) (p : ℕ → Bool) (a : Armed) (t : Timeline)
    → Implements bound a t
    → ((d : ℕ) → ltb d after ≡ false → (ltb d bound ≡ false) × (p d ≡ true))
    → Implements after a (keys_with p t)
keys_with-Implements bound after p a t v h = record {
  ascending = Ascending-keys_with p t v.ascending;
  no_empty = λ d b e. ground (arith, lookup-keys_with p t d, v.no_empty d b);
  distinct = λ d. ground (arith, lookup-keys_with p t d, v.distinct d);
  backed = λ d c k s. ground (arith, lookup-keys_with p t d, v.backed d c k);
  pending = λ d c k e l. ground (arith, lookup-keys_with p t d, v.pending d c k, h d l);
}

bound_of_lem : (now_ms : ℕ) → ltb now_ms u64_max ≡ true → bound_of now_ms ≡ now_ms + 1
unfolding bound_of
bound_of_lem now_ms h = ground arith

module _ (bound now_ms : ℕ) (w : TimerWheel) (h : ltb now_ms u64_max ≡ true) where
  abbrev expired : Timeline
  expired = keys_with (λ d. ltb d (bound_of now_ms)) w.timeline

  has_slot-expired :
      (d : ℕ) (s : Slot) → has_slot expired d s ≡ (leb d now_ms && has_slot w.timeline d s)
  has_slot-expired d s =
      ground
        (arith, lookup-keys_with (λ j. ltb j (bound_of now_ms)) w.timeline d, bound_of_lem now_ms h)

  expired-Distinct : (d : ℕ) → Distinct (bucket d w.timeline) → Distinct (bucket d expired)
  expired-Distinct d u =
      ground (arith, lookup-keys_with (λ j. ltb j (bound_of now_ms)) w.timeline d)

  due-armed : Same (armed (due now_ms w).1) (armed w)
  unfolding due
  due-armed c idle = refl
  due-armed c pong = refl
  due-armed c lifetime = refl
  due-armed c handshake = refl

  -- When a wheel that was advanced up to `bound` advances to `now_ms` below the largest u64, no timer
  -- is armed or disarmed, and the wheel is consistent and advanced up to `now_ms + 1` or `bound`,
  -- whichever is later.
  pub due-Refines : IsWheel bound w → Refines (max bound (now_ms + 1)) (armed w) (due now_ms w).1
  unfolding due
  due-Refines v = (
    record {
      implements =
          ext-Implements (max bound (now_ms + 1)) (armed w) _ _
            (keys_with-Implements bound (max bound (now_ms + 1))
              (λ d. not (ltb d (bound_of now_ms))) (armed w) w.timeline v.implements
              (λ d l. ground (arith, bound_of_lem now_ms h)))
            due-armed;
      liveness = v.liveness;
    },
    due-armed,
  )

  due-event :
      (c : ConnId) (k : Kind) (d : ℕ)
      → IsWheel bound w
      → armed w c k ≡ some d
      → contains (due now_ms w).0 (event c k)
        ≡ (leb d now_ms && has_slot w.timeline d (slot_of c k))
  unfolding due
  due-event c k d v e =
      contains-fire_all (due now_ms w).1 expired c k d
        (Ascending-keys_with (λ j. ltb j (bound_of now_ms)) w.timeline v.implements.ascending)
        (due-armed c k ∙ e)
      ∙ has_slot-expired d (slot_of c k)

  -- A timer that is armed for a time to which the wheel was not yet advanced is reported exactly if
  -- its deadline is at most `now_ms`.
  pub due_reports :
      (c : ConnId) (k : Kind) (d : ℕ)
      → IsWheel bound w
      → armed w c k ≡ some d
      → ltb d bound ≡ false
      → contains (due now_ms w).0 (event c k) ≡ leb d now_ms
  due_reports c k d v e l = ground (arith, due-event c k d v e, v.implements.pending d c k)

  -- A reported timer is armed for a time that is at most `now_ms`.
  pub due_sound :
      (c : ConnId) (k : Kind)
      → IsWheel bound w
      → contains (due now_ms w).0 (event c k) ≡ true
      → (d : ℕ) × (armed w c k ≡ some d) × (leb d now_ms ≡ true)
  unfolding due
  due_sound c k v r = elim (Option-cases (armed w c k)) [
    | inl e ↦
        let quiet : contains (due now_ms w).0 (event c k) ≡ false =
          contains-fire_all-unarmed (due now_ms w).1 expired c k (due-armed c k ∙ e) in
        cc
    | inr (d, e) ↦ (d, e, ground (arith, due-event c k d v e))
  ]

  -- No timer is reported twice by one call.
  pub due-Distinct : IsWheel bound w → Distinct (due now_ms w).0
  unfolding due
  due-Distinct v =
      fire_all-Distinct (due now_ms w).1 expired
        (Ascending-keys_with (λ j. ltb j (bound_of now_ms)) w.timeline v.implements.ascending)
        (λ d. expired-Distinct d (v.implements.distinct d))

-- A second advance, to a time that is not later, reports nothing.
pub due_again :
    (now_ms earlier : ℕ) (w : TimerWheel)
    → ltb now_ms u64_max ≡ true
    → leb earlier now_ms ≡ true
    → (due earlier (due now_ms w).1).0 ≡ []
unfolding due fire_all
due_again now_ms earlier w h l =
    let none_left : keys_with (λ d. ltb d (bound_of earlier))
          (keys_with (λ d. not (ltb d (bound_of now_ms))) w.timeline)
        ≡ [] =
      keys_with_apart (λ d. ltb d (bound_of earlier)) (λ d. not (ltb d (bound_of now_ms)))
        w.timeline (λ d. ground (arith, bound_of_lem now_ms h, bound_of_lem earlier)) in
    rw none_left refl
