-- ===== src/Prelude/Bits.antt =====
-- Exclusive or on native numbers: digit by digit, byte by byte, and undone by itself.
use Prim.Native.Nat.{
  ℕ, zero, suc, ◌+◌, ◌*◌, ◌/◌, ◌%◌, ◌≤◌, ◌<◌, bit_xor, digits, differ, bit_xor-bitwise,
}
use mathlib.Core.Path.{◌≡◌, refl, ap, ◌∙◌, sym, subst}
use native.Mathlib.Omega.{arith}
use native.Mathlib.Nat.{mul-add, mul_assoc, mul-suc, mul-le-mul_left}

xor_from : ℕ → ℕ → ℕ → ℕ
xor_from n a b = digits (λ b. b) differ n a b

-- Any count of digits that is not below the first number serves.
xor_from_enough : (n m a b : ℕ) → a ≤ n → a ≤ m → xor_from n a b ≡ xor_from m a b
unfolding xor_from
xor_from_enough zero zero a b p q = refl
xor_from_enough zero (suc m) zero b p q = refl
xor_from_enough (suc n) zero zero b p q = refl
xor_from_enough zero (suc m) (suc a) b p q = absurd (omega arith)
xor_from_enough (suc n) zero (suc a) b p q = absurd (omega arith)
xor_from_enough (suc n) (suc m) zero b p q = refl
xor_from_enough (suc n) (suc m) (suc a) b p q =
    ap (λ x. x * 2 + differ (suc a % 2) (b % 2))
      (xor_from_enough n m (suc a / 2) (b / 2) (omega arith) (omega arith))

zero-bit_xor : (b : ℕ) → bit_xor 0 b ≡ b
zero-bit_xor b = bit_xor-bitwise 0 b

bit_xor-halves : (a b : ℕ) → bit_xor a b ≡ bit_xor (a / 2) (b / 2) * 2 + differ (a % 2) (b % 2)
unfolding xor_from
bit_xor-halves zero b = omega (arith, zero-bit_xor b, zero-bit_xor (b / 2))
bit_xor-halves (suc a) b =
    bit_xor-bitwise (suc a) b
    ∙ ap (λ x. x * 2 + differ (suc a % 2) (b % 2))
        (xor_from_enough a (suc a / 2) (suc a / 2) (b / 2) (omega arith) (omega arith)
          ∙ sym (bit_xor-bitwise (suc a / 2) (b / 2)))

differ_lt : (x y : ℕ) → x < 2 → y < 2 → differ x y < 2
differ_lt zero y p q = q
differ_lt (suc zero) zero p q = omega arith
differ_lt (suc zero) (suc zero) p q = omega arith
differ_lt (suc zero) (suc (suc y)) p q = absurd (omega arith)
differ_lt (suc (suc x)) y p q = absurd (omega arith)

differ_twice : (x y : ℕ) → x < 2 → y < 2 → differ (differ x y) y ≡ x
differ_twice zero zero p q = refl
differ_twice zero (suc zero) p q = refl
differ_twice zero (suc (suc y)) p q = absurd (omega arith)
differ_twice (suc zero) zero p q = refl
differ_twice (suc zero) (suc zero) p q = refl
differ_twice (suc zero) (suc (suc y)) p q = absurd (omega arith)
differ_twice (suc (suc x)) y p q = absurd (omega arith)

bit_xor-step :
    (a b x y : ℕ) → a < 2 → b < 2 → bit_xor (a + 2 * x) (b + 2 * y) ≡ differ a b + 2 * bit_xor x y
bit_xor-step a b x y p q =
    let e : (a + 2 * x) / 2 ≡ x = omega arith in
    let f : (b + 2 * y) / 2 ≡ y = omega arith in
    let g : (a + 2 * x) % 2 ≡ a = omega arith in
    let h : (b + 2 * y) % 2 ≡ b = omega arith in
    bit_xor-halves (a + 2 * x) (b + 2 * y) ∙ rw (e, f, g, h) (omega arith)

bit_xor-differ : (a b : ℕ) → a < 2 → b < 2 → bit_xor a b ≡ differ a b
bit_xor-differ zero b p q = zero-bit_xor b
bit_xor-differ (suc zero) zero p q = refl
bit_xor-differ (suc zero) (suc zero) p q = refl
bit_xor-differ (suc zero) (suc (suc b)) p q = absurd (omega arith)
bit_xor-differ (suc (suc a)) b p q = absurd (omega arith)

-- The law of splitting off the digits below `n`.
abbrev pub Splits : ℕ → Type 0
Splits n =
    (a b x y : ℕ)
    → a < n
    → b < n
    → (bit_xor (a + n * x) (b + n * y) ≡ bit_xor a b + n * bit_xor x y) × (bit_xor a b < n)

apart_2 : Splits 2
apart_2 a b x y p q = (
  omega (arith, bit_xor-step a b x y p q, bit_xor-differ a b p q),
  omega (arith, differ_lt a b p q, bit_xor-differ a b p q),
)

-- A number below `k` has a low part below `m` and a high part below `n`.
abbrev Divides : ℕ → ℕ → ℕ → Type 0
Divides k m n = (a : ℕ) → a < k → (a % m < m) × (a / m < n) × (a % m + m * (a / m) ≡ a)

-- Regrouping by `k = m * n`.
regroup : (k m n u v x : ℕ) → k ≡ m * n → u + m * (v + n * x) ≡ u + m * v + k * x
regroup k m n u v x r = omega (arith, mul-add m v (n * x), mul_assoc m n x, ap (λ t. t * x) r)

below_product : (k m n u v : ℕ) → k ≡ m * n → u < m → v < n → u + m * v < k
below_product k m n u v r p q = omega (arith, mul-le-mul_left m q, mul-suc m v, r, p)

apart_product : (k m n : ℕ) → k ≡ m * n → Divides k m n → Splits m → Splits n → Splits k
apart_product k m n r div sm sn a b x y p q =
    let (al, ah, ae) = div a p in
    let (bl, bh, be) = div b q in
    let outer = sm (a % m) (b % m) (a / m + n * x) (b / m + n * y) al bl in
    let inner = sn (a / m) (b / m) x y ah bh in
    let low = sm (a % m) (b % m) (a / m) (b / m) al bl in
    let e : a % m + m * (a / m + n * x) ≡ a + k * x =
      regroup k m n (a % m) (a / m) x r ∙ ap (λ t. t + k * x) ae in
    let f : b % m + m * (b / m + n * y) ≡ b + k * y =
      regroup k m n (b % m) (b / m) y r ∙ ap (λ t. t + k * y) be in
    let part : bit_xor a b ≡ bit_xor (a % m) (b % m) + m * bit_xor (a / m) (b / m) =
      ap (λ t. bit_xor t b) (sym ae) ∙ ap (bit_xor _) (sym be) ∙ low.0 in
    (
      ap (λ t. bit_xor t (b + k * y)) (sym e)
          ∙ ap (bit_xor _) (sym f)
          ∙ outer.0
          ∙ ap (λ t. bit_xor (a % m) (b % m) + m * t) inner.0
          ∙ regroup k m n _ _ (bit_xor x y) r
          ∙ ap (λ t. t + k * bit_xor x y) (sym part),
      subst (λ t. t < k) (sym part) (below_product k m n _ _ r outer.1 inner.1),
    )

apart_4 : Splits 4
apart_4 = apart_product 4 2 2 refl (λ a h. (omega arith, omega arith, omega arith)) apart_2 apart_2

apart_16 : Splits 16
apart_16 =
    apart_product 16 4 4 refl (λ a h. (omega arith, omega arith, omega arith)) apart_4 apart_4

-- Exclusive or goes byte by byte.
pub apart_256 : Splits 256
apart_256 =
    apart_product 256 16 16 refl (λ a h. (omega arith, omega arith, omega arith)) apart_16 apart_16

bit_xor_fuel : (n a b : ℕ) → a ≤ n → b ≤ n → bit_xor (bit_xor a b) b ≡ a
bit_xor_fuel zero zero zero p q = zero-bit_xor 0
bit_xor_fuel zero zero (suc b) p q = absurd (omega arith)
bit_xor_fuel zero (suc a) b p q = absurd (omega arith)
bit_xor_fuel (suc n) a b p q =
    let u = differ (a % 2) (b % 2) in
    let v = bit_xor (a / 2) (b / 2) in
    let e : bit_xor a b ≡ u + 2 * v = omega (arith, bit_xor-halves a b) in
    let h : b % 2 + 2 * (b / 2) ≡ b = omega arith in
    let t : bit_xor (u + 2 * v) (b % 2 + 2 * (b / 2)) ≡ differ u (b % 2) + 2 * bit_xor v (b / 2) =
      bit_xor-step u (b % 2) v (b / 2) (differ_lt (a % 2) (b % 2) (omega arith) (omega arith))
        (omega arith) in
    ap (λ x. bit_xor x b) e
    ∙ ap (bit_xor (u + 2 * v)) (sym h)
    ∙ t
    ∙ omega (
      arith,
      bit_xor_fuel n (a / 2) (b / 2) (omega arith) (omega arith),
      differ_twice (a % 2) (b % 2) (omega arith) (omega arith),
    )

pub bit_xor_twice : (a b : ℕ) → bit_xor (bit_xor a b) b ≡ a
bit_xor_twice a b = bit_xor_fuel (a + b) a b (omega arith) (omega arith)
