-- ===== src/Transport/Frame/Unmask.antt =====
-- src/transport/frame.rs: the word-wise `unmask` is the byte-wise one, which undoes itself.
use Prim.Native.Nat.{bit_xor}
use pylon.Prelude.{
  ℕ, suc, ◌+◌, ◌*◌, ◌/◌, ◌%◌, ◌<◌, ◌≡◌, refl, ap, ◌∙◌, sym, [], ◌∷◌, ◌++◌, arith, length,
}
use pylon.Prelude.Bits.{apart_256, bit_xor_twice}
use pylon.Transport.Frame.{
  Bytes, Key, key_at, key64, unmask, unmask_tail, from_le_bytes, to_le_bytes,
}

abbrev pub AreBytes : Bytes → Type 0
AreBytes [] = Unit {0}
AreBytes (b ∷ bs) = (b < 256) × AreBytes bs

abbrev pub IsKey : Key → Type 0
IsKey key = (key.k0 < 256) × (key.k1 < 256) × (key.k2 < 256) × (key.k3 < 256)

abbrev xor_each : Bytes → Bytes → Bytes
xor_each (a ∷ as') (b ∷ bs) = bit_xor a b ∷ xor_each as' bs
xor_each _ _ = []

-- Exclusive or of two words, byte by byte.
to_le_bytes-bit_xor :
    (xs ks : Bytes)
    → AreBytes xs
    → AreBytes ks
    → length xs ≡ length ks
    → to_le_bytes (length xs) (bit_xor (from_le_bytes xs) (from_le_bytes ks)) ≡ xor_each xs ks
unfolding to_le_bytes from_le_bytes
to_le_bytes-bit_xor [] [] p q e = refl
to_le_bytes-bit_xor [] (k ∷ ks) p q e = absurd (omega arith)
to_le_bytes-bit_xor (x ∷ xs) [] p q e = absurd (omega arith)
to_le_bytes-bit_xor (x ∷ xs) (k ∷ ks) p q e =
    let (s, lt) = apart_256 x k (from_le_bytes xs) (from_le_bytes ks) p.0 q.0 in
    let low : bit_xor (x + 256 * from_le_bytes xs) (k + 256 * from_le_bytes ks) % 256
        ≡ bit_xor x k =
      omega (arith, s, lt) in
    let high : bit_xor (x + 256 * from_le_bytes xs) (k + 256 * from_le_bytes ks) / 256
        ≡ bit_xor (from_le_bytes xs) (from_le_bytes ks) =
      omega (arith, s, lt) in
    rw (low, high, to_le_bytes-bit_xor xs ks p.1 q.1 (omega arith)) refl

-- The byte-wise loop repeats every four bytes.
unmask_tail-shift :
    (key : Key) (i : ℕ) (bs : Bytes) → unmask_tail key (8 + i) bs ≡ unmask_tail key i bs
unfolding unmask_tail
unmask_tail-shift key i [] = refl
unmask_tail-shift key i (b ∷ bs) =
    let e : (8 + i) % 4 ≡ i % 4 = omega arith in
    let next : unmask_tail key (suc (8 + i)) bs ≡ unmask_tail key (suc i) bs =
      ap (λ j. unmask_tail key j bs) (omega arith) ∙ unmask_tail-shift key (suc i) bs in
    rw (e, next) refl

-- With bytes for data and key, `unmask` gives at each index `i` the exclusive or of the byte with
-- `key[i % 4]`, whether the byte is in a word of eight or in the tail.
pub unmask-unmask_tail :
    (key : Key) (bs : Bytes) → IsKey key → AreBytes bs → unmask key bs ≡ unmask_tail key 0 bs
unfolding unmask unmask_tail key64 key_at
unmask-unmask_tail key [] k p = refl
unmask-unmask_tail key (a ∷ []) k p = refl
unmask-unmask_tail key (a ∷ b ∷ []) k p = refl
unmask-unmask_tail key (a ∷ b ∷ c ∷ []) k p = refl
unmask-unmask_tail key (a ∷ b ∷ c ∷ d ∷ []) k p = refl
unmask-unmask_tail key (a ∷ b ∷ c ∷ d ∷ e ∷ []) k p = refl
unmask-unmask_tail key (a ∷ b ∷ c ∷ d ∷ e ∷ f ∷ []) k p = refl
unmask-unmask_tail key (a ∷ b ∷ c ∷ d ∷ e ∷ f ∷ g ∷ []) k p = refl
unmask-unmask_tail key (a ∷ b ∷ c ∷ d ∷ e ∷ f ∷ g ∷ h ∷ rest) k p =
    let p1 = p.1 in
    let p2 = p1.1 in
    let p3 = p2.1 in
    let p4 = p3.1 in
    let p5 = p4.1 in
    let p6 = p5.1 in
    let p7 = p6.1 in
    let (q0, q1, q2, q3) = k in
    let word =
      to_le_bytes-bit_xor (a ∷ b ∷ c ∷ d ∷ e ∷ f ∷ g ∷ h ∷ [])
        (key.k0 ∷ key.k1 ∷ key.k2 ∷ key.k3 ∷ key.k0 ∷ key.k1 ∷ key.k2 ∷ key.k3 ∷ [])
        (p.0, (p1.0, (p2.0, (p3.0, (p4.0, (p5.0, (p6.0, (p7.0, tt))))))))
        (q0, (q1, (q2, (q3, (q0, (q1, (q2, (q3, tt)))))))) refl in
    ap (λ w. w ++ unmask key rest) word
    ∙ ap
        (λ t.
          xor_each (a ∷ b ∷ c ∷ d ∷ e ∷ f ∷ g ∷ h ∷ [])
            (key.k0 ∷ key.k1 ∷ key.k2 ∷ key.k3 ∷ key.k0 ∷ key.k1 ∷ key.k2 ∷ key.k3 ∷ [])
          ++ t)
        (unmask-unmask_tail key rest k p7.1 ∙ sym (unmask_tail-shift key 0 rest))

-- Masking twice gives the bytes back.
pub unmask_tail_twice :
    (key : Key) (i : ℕ) (bs : Bytes) → unmask_tail key i (unmask_tail key i bs) ≡ bs
unfolding unmask_tail
unmask_tail_twice key i [] = refl
unmask_tail_twice key i (b ∷ bs) =
    rw (bit_xor_twice b (key_at key (i % 4)), unmask_tail_twice key (suc i) bs) refl

pub length-unmask_tail :
    (key : Key) (i : ℕ) (bs : Bytes) → length (unmask_tail key i bs) ≡ length bs
unfolding unmask_tail
length-unmask_tail key i [] = refl
length-unmask_tail key i (b ∷ bs) = ap suc (length-unmask_tail key (suc i) bs)
