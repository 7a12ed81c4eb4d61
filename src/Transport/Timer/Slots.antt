-- ===== src/Transport/Timer/Slots.antt =====
-- src/transport/timer.rs: which slots stand in the timeline, and what a push, a scrub and a split do.
use pylon.Prelude.{
  ℕ, ◌≡◌, refl, Bool, false, not, ◌&&◌, ◌||◌, Option, none, some, List, [], ◌∷◌, ◌++◌, arith, ◌==◌,
  nat_eq, nat_beq, nat_beq_iff, if◌then◌else◌, is_empty, retain, contains, Distinct, Option-cases,
  Bool-cases, inl, inr, contains-retain, contains-append, retain-Distinct, append-Distinct,
}
use pylon.Maps.Assoc.{lookup, contains_key, lookup-modify, lookup-remove, contains_key-lookup}
use pylon.Maps.BTree.{
  insert_sorted, nat_ord, lookup-insert_sorted, Ascending, insert_sorted-Ascending,
  modify-Ascending, remove-Ascending,
}
use pylon.Transport.Timer.{Slot, Timeline, slot_eq, ConnId, Kind, push_slot, scrub, scrub_bucket}

abbrev pub slots_in : Option (List Slot) → List Slot
slots_in none = []
slots_in (some b) = b

abbrev pub bucket : ℕ → Timeline → List Slot
bucket d t = slots_in (lookup d t)

abbrev pub has_slot : Timeline → ℕ → Slot → Bool
has_slot t d s = contains (bucket d t) s

bucket-push :
    (d j : ℕ) (s : Slot) (t : Timeline)
    → bucket j (push_slot d s t) ≡ (if nat_beq d j then bucket j t ++ s ∷ [] else bucket j t)
unfolding push_slot
bucket-push d j s t = ground (
  arith,
  lookup-modify d j (λ b. b ++ s ∷ []) (if contains_key d t then t else insert_sorted d [] t),
  lookup-insert_sorted d j [] t,
  contains_key-lookup d t,
)

bucket-scrub :
    (c : ConnId) (d j : ℕ) (k : Kind) (t : Timeline)
    → let slot : Slot = record { conn = c; kind = k } in
      bucket j (scrub c d k t)
      ≡ (if nat_beq d j then retain (λ s. not (s == slot)) (bucket j t) else bucket j t)
unfolding scrub scrub_bucket
bucket-scrub c d j k t = elim (Option-cases (lookup d t)) [
  | inl e ↦ rw (e, scrub_bucket) (ground (arith))
  | inr (b, e) ↦
      let slot : Slot = record { conn = c; kind = k } in
      let left = retain (λ s. not (s == slot)) b in
      rw (e, scrub_bucket) (ground (arith, lookup-remove d j t, lookup-modify d j (λ _. left) t))
]

pub has_slot-push :
    (d j : ℕ) (s u : Slot) (t : Timeline)
    → has_slot (push_slot d s t) j u ≡ ((nat_beq d j && s == u) || has_slot t j u)
has_slot-push d j s u t =
    ground (arith, bucket-push d j s t, contains-append (bucket j t) (s ∷ []) u)

pub has_slot-scrub :
    (c : ConnId) (d j : ℕ) (k : Kind) (u : Slot) (t : Timeline)
    → let slot : Slot = record { conn = c; kind = k } in
      has_slot (scrub c d k t) j u ≡ (not (nat_beq d j && u == slot) && has_slot t j u)
has_slot-scrub c d j k u t =
    let slot : Slot = record { conn = c; kind = k } in
    ground (arith, bucket-scrub c d j k t, contains-retain (λ s. not (s == slot)) (bucket j t) u)

pub push-Distinct :
    (d j : ℕ) (s : Slot) (t : Timeline)
    → has_slot t d s ≡ false
    → Distinct (bucket j t)
    → Distinct (bucket j (push_slot d s t))
push-Distinct d j s t h u =
    ground (arith, bucket-push d j s t, append-Distinct (bucket j t) s u, nat_beq_iff d j)

pub scrub-Distinct :
    (c : ConnId) (d j : ℕ) (k : Kind) (t : Timeline)
    → Distinct (bucket j t)
    → Distinct (bucket j (scrub c d k t))
scrub-Distinct c d j k t u =
    let slot : Slot = record { conn = c; kind = k } in
    ground (arith, bucket-scrub c d j k t, retain-Distinct (λ s. not (s == slot)) (bucket j t) u)

pub push-Ascending : (d : ℕ) (s : Slot) (t : Timeline) → Ascending t → Ascending (push_slot d s t)
unfolding push_slot
push-Ascending d s t a =
    modify-Ascending d (λ b. b ++ s ∷ []) _
      (elim (Bool-cases (contains_key d t)) [
        | inl y ↦ rw y a
        | inr n ↦ rw n (insert_sorted-Ascending d [] t a)
      ])

pub scrub-Ascending :
    (c : ConnId) (d : ℕ) (k : Kind) (t : Timeline) → Ascending t → Ascending (scrub c d k t)
unfolding scrub scrub_bucket
scrub-Ascending c d k t a = elim (Option-cases (lookup d t)) [
  | inl e ↦ rw (e, scrub_bucket) a
  | inr (b, e) ↦
      let slot : Slot = record { conn = c; kind = k } in
      let left = retain (λ s. not (s == slot)) b in
      elim (Bool-cases (is_empty left)) [
        | inl y ↦ rw (e, scrub_bucket, y) (remove-Ascending d t a)
        | inr n ↦ rw (e, scrub_bucket, n) (modify-Ascending d (λ _. left) t a)
      ]
]

-- No bucket stays behind empty.
abbrev pub NoEmpty : Timeline → Type 0
NoEmpty t = (d : ℕ) (b : List Slot) → lookup d t ≡ some b → is_empty b ≡ false

is_empty-append : (b : List Slot) (s : Slot) → is_empty (b ++ s ∷ []) ≡ false
is_empty-append [] s = refl
is_empty-append (x ∷ b) s = refl

pub push-NoEmpty : (d : ℕ) (s : Slot) (t : Timeline) → NoEmpty t → NoEmpty (push_slot d s t)
unfolding push_slot
push-NoEmpty d s t h j b e = ground (
  arith,
  lookup-modify d j (λ b. b ++ s ∷ []) (if contains_key d t then t else insert_sorted d [] t),
  lookup-insert_sorted d j [] t,
  contains_key-lookup d t,
  h j b,
  is_empty-append [] s,
  is_empty-append (bucket j t) s,
)

scrub_bucket-NoEmpty :
    (d : ℕ) (slot : Slot) (o : Option (List Slot)) (t : Timeline)
    → NoEmpty t
    → NoEmpty (scrub_bucket d slot o t)
unfolding scrub_bucket
scrub_bucket-NoEmpty d slot none t h = h
scrub_bucket-NoEmpty d slot (some b) t h =
    let left = retain (λ s. not (s == slot)) b in
    elim (Bool-cases (is_empty left)) [
      | inl y ↦ rw y (λ j x e. ground (arith, lookup-remove d j t, h j x))
      | inr n ↦ rw n (λ j x e. ground (arith, lookup-modify d j (λ _. left) t, h j x))
    ]

pub scrub-NoEmpty :
    (c : ConnId) (d : ℕ) (k : Kind) (t : Timeline) → NoEmpty t → NoEmpty (scrub c d k t)
unfolding scrub
scrub-NoEmpty c d k t h = scrub_bucket-NoEmpty d _ (lookup d t) t h
