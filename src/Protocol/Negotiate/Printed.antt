-- ===== src/Protocol/Negotiate/Printed.antt =====
-- src/protocol/mod.rs: a printed number is read back, so only the supported version is accepted.
use pylon.Prelude.{
  ℕ, zero, suc, ◌+◌, ◌-◌, ◌*◌, ◌/◌, ◌%◌, ◌^◌, ◌≤◌, ◌<◌, ◌≡◌, refl, ◌∙◌, ap, Bool, false, Option,
  none, some, [], ◌∷◌, ◌++◌, arith, nat_beq, ltb, if◌then◌else◌, Bool-cases, inl, inr,
}
use pylon.Prelude.Results.{ok, err}
use pylon.Protocol.SocketId.{Str}
use pylon.Protocol.Text.{decimal, decimal_on}
use pylon.Protocol.Negotiate.{
  parse_digits, parse_u32, negotiate, supported, supported_or_4007, unsupported_protocol, major_of,
  before_dot,
}

parse_digits-digit :
    (n d : ℕ) (s : Str)
    → d < 10
    → n * 10 + d < 2 ^ 32
    → parse_digits n ((48 + d) ∷ s) ≡ parse_digits (n * 10 + d) s
unfolding parse_digits
parse_digits-digit n d s h b = let e : (48 + d) - 48 ≡ d = omega arith in rw e (ground arith)

parse_digits-decimal_on :
    (fuel n : ℕ) (tail : Str)
    → n < fuel
    → n < 2 ^ 32
    → parse_digits 0 (decimal_on fuel n tail) ≡ parse_digits n tail
unfolding decimal_on
parse_digits-decimal_on zero n tail h b = absurd (omega arith)
parse_digits-decimal_on (suc fuel) n tail h b = elim (Bool-cases (ltb n 10)) [
  | inl e ↦ rw e (
      parse_digits-digit 0 n tail (ground arith) (omega arith)
      ∙ ap (λ k. parse_digits k tail) (omega arith))
  | inr e ↦
      let big : 10 ≤ n = ground arith in
      let whole : n / 10 * 10 + n % 10 ≡ n = omega arith in
      rw e (
        parse_digits-decimal_on fuel (n / 10) _ (omega arith) (omega arith)
        ∙ parse_digits-digit (n / 10) (n % 10) tail (omega arith) (omega arith)
        ∙ ap (λ k. parse_digits k tail) whole)
]

parse_u32-digit : (c : ℕ) (s : Str) → 48 ≤ c → parse_u32 (c ∷ s) ≡ parse_digits 0 (c ∷ s)
unfolding parse_u32
parse_u32-digit c s h = let e : nat_beq c 43 ≡ false = ground arith in rw e refl

parse_u32-decimal_on :
    (fuel n c : ℕ) (s : Str)
    → 48 ≤ c
    → parse_u32 (decimal_on fuel n (c ∷ s)) ≡ parse_digits 0 (decimal_on fuel n (c ∷ s))
unfolding decimal_on
parse_u32-decimal_on zero n c s h = parse_u32-digit c s h
parse_u32-decimal_on (suc fuel) n c s h = elim (Bool-cases (ltb n 10)) [
  | inl e ↦ rw e (parse_u32-digit (48 + n) (c ∷ s) (omega arith))
  | inr e ↦ rw e (parse_u32-decimal_on fuel (n / 10) (48 + n % 10) (c ∷ s) (omega arith))
]

parse_u32-decimal_digits : (n : ℕ) → parse_u32 (decimal n) ≡ parse_digits 0 (decimal n)
unfolding decimal decimal_on
parse_u32-decimal_digits n = elim (Bool-cases (ltb n 10)) [
  | inl e ↦ rw e (parse_u32-digit (48 + n) [] (omega arith))
  | inr e ↦ rw e (parse_u32-decimal_on n (n / 10) (48 + n % 10) [] (omega arith))
]

-- a number below 2^32 that is printed in decimal is read back
pub parse_u32-decimal : (n : ℕ) → n < 2 ^ 32 → parse_u32 (decimal n) ≡ some n
unfolding decimal parse_digits
parse_u32-decimal n b =
    parse_u32-decimal_digits n ∙ parse_digits-decimal_on (suc n) n [] (omega arith) b

-- `before_dot` cuts at the first dot: a text that has none before it is what is left
before_dot-decimal_on :
    (fuel n : ℕ) (s t : Str)
    → before_dot (s ++ (46 ∷ t)) ≡ s
    → before_dot (decimal_on fuel n s ++ (46 ∷ t)) ≡ decimal_on fuel n s
unfolding decimal_on before_dot
before_dot-decimal_on zero n s t h = h
before_dot-decimal_on (suc fuel) n s t h = elim (Bool-cases (ltb n 10)) [
  | inl e ↦
      let d : nat_beq (48 + n) 46 ≡ false = ground arith in rw e (rw d (ap (λ r. (48 + n) ∷ r) h))
  | inr e ↦
      let d : nat_beq (48 + n % 10) 46 ≡ false = ground arith in
      rw e (
        before_dot-decimal_on fuel (n / 10) ((48 + n % 10) ∷ s) t
          (rw d (ap (λ r. (48 + n % 10) ∷ r) h)))
]

major_of-decimal : (n : ℕ) (t : Str) → n < 2 ^ 32 → major_of (decimal n ++ (46 ∷ t)) ≡ some n
unfolding major_of decimal before_dot
major_of-decimal n t b =
    ap parse_u32 (before_dot-decimal_on (suc n) n [] t refl) ∙ parse_u32-decimal n b

supported-some :
    (n : ℕ) → supported (some n) ≡ (if nat_beq n 7 then ok 7 else err unsupported_protocol)
unfolding supported supported_or_4007
supported-some n = ground arith

-- Whether the number n stands in `protocol` or, where there is none, is the major component of
-- `version`, version 7 is accepted and any other number below 2^32 is answered unsupported; a
-- `version` beside a `protocol` makes no difference.
pub negotiate-decimal :
    (n : ℕ) (minor : Str) (version : Option Str) (strict : Bool)
    → n < 2 ^ 32
    → (negotiate (some (decimal n)) version strict
        ≡ (if nat_beq n 7 then ok 7 else err unsupported_protocol))
      × (negotiate none (some (decimal n ++ (46 ∷ minor))) strict
          ≡ (if nat_beq n 7 then ok 7 else err unsupported_protocol))
unfolding negotiate
negotiate-decimal n minor version strict b = (
  ap supported (parse_u32-decimal n b) ∙ supported-some n,
  ap supported (major_of-decimal n minor b) ∙ supported-some n,
)
