-- ===== src/Rate.antt =====
-- src/rate.rs and src/ws/rate.rs: the token bucket. Arithmetic on `f64` is the parameter `F64`.
pub mod Bounds
pub mod Examples
use pylon.Prelude.{
  ℕ, ◌-◌, ◌^◌, ◌%◌, Bool, true, false, Option, none, some, nat_beq, max, if◌then◌else◌,
}

pub record F64 : Type 1 where
  pub Carrier : Type 0
  -- `f64::from(u32)` and `u64 as f64`
  pub from : ℕ → Carrier
  pub add : Carrier → Carrier → Carrier
  pub sub : Carrier → Carrier → Carrier
  pub mul : Carrier → Carrier → Carrier
  pub div : Carrier → Carrier → Carrier
  pub min : Carrier → Carrier → Carrier
  -- `a <= b`
  pub le : Carrier → Carrier → Bool
  -- `as u32`, and `.ceil() as u64`
  pub to_u32 : Carrier → ℕ
  pub ceil : Carrier → ℕ

module _ (f : F64) where
  pub record TokenBucket : Type 0 where
    pub rate_per_second : ℕ
    pub rate : f.Carrier
    pub capacity : f.Carrier
    pub tokens : f.Carrier
    pub last_ns : Option ℕ

  -- `TokenBucket::new`
  unfoldable pub new_bucket : ℕ → ℕ → TokenBucket
  new_bucket rate_per_second burst =
      let capacity = f.from (max burst rate_per_second) in
      record {
        rate_per_second = rate_per_second;
        rate = f.from rate_per_second;
        capacity = capacity;
        tokens = capacity;
        last_ns = none;
      }

  refilled_since : TokenBucket → ℕ → Option ℕ → f.Carrier
  refilled_since b now_ns none = b.capacity
  refilled_since b now_ns (some prev) =
      let elapsed = f.div (f.from (now_ns - prev)) (f.from 1000000000) in
      f.min (f.add b.tokens (f.mul elapsed b.rate)) b.capacity

  -- `refilled_at_ns`
  unfoldable pub refilled_at_ns : TokenBucket → ℕ → f.Carrier
  unfolding refilled_since
  refilled_at_ns b now_ns = refilled_since b now_ns b.last_ns

  -- `take_at_ns`; `cost > capacity` is `not (cost <= capacity)`, since neither is NaN
  unfoldable pub take_at_ns : TokenBucket → ℕ → ℕ → Bool × TokenBucket
  unfolding refilled_at_ns
  take_at_ns b now_ns cost =
      let tokens = refilled_at_ns b now_ns in
      if nat_beq b.rate_per_second 0
      then (true, b)
      else if f.le (f.from cost) b.capacity
      then (if f.le (f.from cost) tokens
          then (true, record b { last_ns = some now_ns; tokens = f.sub tokens (f.from cost) })
          else (false, record b { last_ns = some now_ns; tokens = tokens }))
      else (false, b)

  -- `remaining_at_ns`
  unfoldable pub remaining_at_ns : TokenBucket → ℕ → ℕ
  unfolding refilled_at_ns
  remaining_at_ns b now_ns =
      if nat_beq b.rate_per_second 0 then 2 ^ 32 - 1 else f.to_u32 (refilled_at_ns b now_ns)

  -- `retry_after_secs_at_ns`
  unfoldable pub retry_after_secs_at_ns : TokenBucket → ℕ → ℕ → ℕ
  unfolding refilled_at_ns
  retry_after_secs_at_ns b now_ns cost =
      let deficit = f.sub (f.from cost) (refilled_at_ns b now_ns) in
      if nat_beq b.rate_per_second 0
      then 0
      else if f.le deficit (f.from 0)
      then 0
      else max (f.ceil (f.div deficit b.rate)) 1

  pub record RateWindow : Type 0 where
    pub bucket : TokenBucket
    pub origin : Option ℕ

  -- `RateWindow::new`
  unfoldable pub new_window : ℕ → RateWindow
  unfolding new_bucket
  new_window limit = record { bucket = new_bucket limit limit; origin = none }

  check_from : ℕ → ℕ → RateWindow → Bool × RateWindow
  unfolding take_at_ns
  check_from origin now w =
      let (admitted, bucket) = take_at_ns w.bucket ((now - origin) % 2 ^ 64) 1 in
      (admitted, record { bucket = bucket; origin = some origin })

  -- `check_at`; an instant is its nanoseconds
  unfoldable pub check_at : ℕ → RateWindow → Bool × RateWindow
  unfolding check_from
  check_at now w = elim w.origin [
    | none ↦ check_from now now w
    | some origin ↦ check_from origin now w
  ]
