-- ===== src/Rate/Examples.antt =====
-- A window of two checks in a second, on whole numbers.
use pylon.Prelude.{ℕ, ◌≡◌, refl, ◌-◌, true, List, [], ◌∷◌, leb, min, arith}
use pylon.Rate.{
  new_window, new_bucket, check_at, check_from, take_at_ns, refilled_at_ns, refilled_since,
}
use pylon.Rate.Bounds.{OrderLaws, checked, checked-limit}
use pylon.Session.Samples.{whole_numbers}

leb_refl : (n : ℕ) → leb n n ≡ true
leb_refl n = ground arith

leb_min : (a b : ℕ) → leb b b ≡ true → leb (min a b) b ≡ true
leb_min a b h = ground arith

leb_sub : (a k n : ℕ) → leb a k ≡ true → leb (a - n) k ≡ true
leb_sub a k n h = ground arith

abbrev whole_laws : OrderLaws whole_numbers
whole_laws = record { min_le = leb_min; sub_le = leb_sub; from_le = leb_refl }

abbrev three_checks : List ℕ
three_checks = 2000000000 ∷ 7 ∷ 5 ∷ []

checked-limit_example : leb (checked whole_numbers whole_laws 2 three_checks).bucket.tokens 2 ≡ true
checked-limit_example = checked-limit whole_numbers whole_laws 2 three_checks

spent_two : (checked whole_numbers whole_laws 2 (7 ∷ 5 ∷ [])).bucket.tokens ≡ 0
unfolding new_window new_bucket check_at check_from take_at_ns refilled_at_ns refilled_since
spent_two = refl
