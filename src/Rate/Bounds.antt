-- ===== src/Rate/Bounds.antt =====
-- src/rate.rs, src/ws/rate.rs: no history of takes leaves more tokens than the capacity.
use pylon.Prelude.{
  ℕ, ◌≡◌, refl, ap, ◌∙◌, subst, true, List, [], ◌∷◌, arith, Option-cases, inl, inr, max,
}
use pylon.Rate.{
  F64, TokenBucket, new_bucket, refilled_since, refilled_at_ns, take_at_ns, RateWindow, new_window,
  check_from, check_at,
}

-- What IEEE 754 says of the operations: `min` with a number is at most that number, also of NaN; what is
-- at most a number stays so when a finite number that is not negative is taken away; and a converted
-- integer is a number.
pub record OrderLaws (f : F64) : Type 0 where
  pub min_le : (a b : f.Carrier) → f.le b b ≡ true → f.le (f.min a b) b ≡ true
  pub sub_le : (a k : f.Carrier) (n : ℕ) → f.le a k ≡ true → f.le (f.sub a (f.from n)) k ≡ true
  pub from_le : (n : ℕ) → f.le (f.from n) (f.from n) ≡ true

module _ (f : F64) (laws : OrderLaws f) where
  pub record IsBounded (b : TokenBucket f) : Type 0 where
    pub capacity_number : f.le b.capacity b.capacity ≡ true
    pub tokens_le : f.le b.tokens b.capacity ≡ true

  new_bucket-IsBounded : (rate burst : ℕ) → IsBounded (new_bucket f rate burst)
  unfolding new_bucket
  new_bucket-IsBounded rate burst = record {
    capacity_number = laws.from_le (max burst rate);
    tokens_le = laws.from_le (max burst rate);
  }

  refilled_le :
      (b : TokenBucket f) (now : ℕ) → IsBounded b → f.le (refilled_at_ns f b now) b.capacity ≡ true
  unfolding refilled_at_ns refilled_since
  refilled_le b now v = elim (Option-cases b.last_ns) [
    | inl e ↦ rw e v.capacity_number
    | inr (prev, e) ↦ rw e (laws.min_le _ b.capacity v.capacity_number)
  ]

  take_at_ns-IsBounded :
      (b : TokenBucket f) (now cost : ℕ) → IsBounded b → IsBounded (take_at_ns f b now cost).1
  unfolding take_at_ns
  take_at_ns-IsBounded b now cost v =
      let r = refilled_le b now v in
      let s = laws.sub_le (refilled_at_ns f b now) b.capacity cost r in
      record {
        capacity_number = ground (arith, v.capacity_number);
        tokens_le = ground (arith, v.tokens_le);
      }

  check_at-IsBounded :
      (now : ℕ) (w : RateWindow f) → IsBounded w.bucket → IsBounded (check_at f now w).1.bucket
  unfolding check_at check_from
  check_at-IsBounded now w v = elim (Option-cases w.origin) [
    | inl e ↦ rw e (take_at_ns-IsBounded w.bucket _ 1 v)
    | inr (origin, e) ↦ rw e (take_at_ns-IsBounded w.bucket _ 1 v)
  ]

  -- The window after checks at these instants, the last one first.
  abbrev pub checked : ℕ → List ℕ → RateWindow f
  checked limit [] = new_window f limit
  checked limit (now ∷ earlier) = (check_at f now (checked limit earlier)).1

  checked-IsBounded : (limit : ℕ) (instants : List ℕ) → IsBounded (checked limit instants).bucket
  unfolding new_window
  checked-IsBounded limit [] = new_bucket-IsBounded limit limit
  checked-IsBounded limit (now ∷ earlier) =
      check_at-IsBounded now (checked limit earlier) (checked-IsBounded limit earlier)

  checked-capacity :
      (limit : ℕ) (instants : List ℕ)
      → ((checked limit instants).bucket.capacity ≡ f.from (max limit limit))
        × ((checked limit instants).bucket.rate_per_second ≡ limit)
  unfolding new_window new_bucket check_at check_from take_at_ns
  checked-capacity limit [] = (refl, refl)
  checked-capacity limit (now ∷ earlier) =
      let (g, h) = checked-capacity limit earlier in
      elim (Option-cases (checked limit earlier).origin) [
        | inl e ↦ (ground arith, ground arith)
        | inr (origin, e) ↦ (ground arith, ground arith)
      ]

  -- By the order laws of IEEE 754: after any checks, whatever their instants, a window holds at most as
  -- many tokens as its limit.
  pub checked-limit :
      (limit : ℕ) (instants : List ℕ)
      → f.le (checked limit instants).bucket.tokens (f.from limit) ≡ true
  checked-limit limit instants =
      let m : max limit limit ≡ limit = omega arith in
      let c = (checked-capacity limit instants).0 ∙ ap f.from m in
      subst (λ k. f.le (checked limit instants).bucket.tokens k ≡ true) c
        (checked-IsBounded limit instants).tokens_le
