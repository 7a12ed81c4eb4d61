-- ===== src/Transport/Frame/Errors.antt =====
-- src/transport/frame.rs: what holds of `parse` on every buffer.
use Prim.Native.Nat.{bit_and, bit_xor}
use pylon.Prelude.{
  subst, ◌⊎◌, length-append, nat_beq, ℕ, zero, suc, ◌+◌, ◌-◌, ◌≤◌, ◌≡◌, refl, ap, Bool, true, false,
  not, [], ◌∷◌, arith, ltb, if◌then◌else◌, length, take, drop, Bool-cases, inl, inr,
}
use pylon.Transport.Frame.{
  Bytes, OpCode, from_le_bytes, key64, ParseError, protocol, Result, ok, err, Frame, Header, Key,
  and_then, from_u8, extended_length, admit, header_of, commit, key_of, parse, unmask, unmask_tail,
  to_le_bytes,
}

commit_keeps :
    (buf : Bytes) (o : Result Header) (e : ParseError)
    → (commit buf o).0 ≡ err e
    → (commit buf o).1 ≡ buf
unfolding commit
commit_keeps buf (err x) e p = refl
commit_keeps buf (ok h) e p =
    elim (Bool-cases (ltb (length buf) (2 + h.len_field_bytes + 4 + h.payload_len))) [
      | inl y ↦ rw y refl
      | inr n ↦ absurd (ground (arith, p, n))
    ]

-- When `parse` gives an error, `Incomplete` included, it leaves the buffer as it was.
pub parse_keeps :
    (max_payload : ℕ) (buf : Bytes) (e : ParseError)
    → (parse max_payload buf).0 ≡ err e
    → (parse max_payload buf).1 ≡ buf
unfolding parse
parse_keeps max_payload [] e p = refl
parse_keeps max_payload (b0 ∷ []) e p = refl
parse_keeps max_payload (b0 ∷ b1 ∷ rest) e p =
    commit_keeps (b0 ∷ b1 ∷ rest) (header_of max_payload b0 b1 rest) e p

and_then_ok :
    {A B : Type 0} (r : Result A) (f : A → Result B) (y : B)
    → and_then r f ≡ ok y
    → (a : A) × (f a ≡ ok y)
and_then_ok (ok a) f y h = (a, h)
and_then_ok (err e) f y h = absurd (cc)

admit-bound :
    (max_payload : ℕ) (fin : Bool) (opcode : OpCode) (masked : Bool) (extent : ℕ × ℕ) (h : Header)
    → admit max_payload fin opcode masked extent ≡ ok h
    → h.payload_len ≤ max_payload
unfolding admit
admit-bound max_payload fin opcode masked (len, field) h e = ground (arith, e)

else_ok :
    {A : Type 0} (c : Bool) (e : ParseError) (r : Result A) (y : A)
    → (if c then err e else r) ≡ ok y
    → r ≡ ok y
else_ok true e r y h = absurd (cc)
else_ok false e r y h = h

header_of-bound :
    (max_payload b0 b1 : ℕ) (rest : Bytes) (h : Header)
    → header_of max_payload b0 b1 rest ≡ ok h
    → h.payload_len ≤ max_payload
unfolding header_of
header_of-bound max_payload b0 b1 rest h e =
    let fin = not (nat_beq (bit_and b0 0x80) 0) in
    let masked = not (nat_beq (bit_and b1 0x80) 0) in
    let lengths = extended_length (bit_and b1 0x7f) rest in
    let last : OpCode → ℕ × ℕ → Result Header = λ o. admit max_payload fin o masked in
    let next : OpCode → Result Header = λ o. and_then lengths (last o) in
    let reserved = not (nat_beq (bit_and b0 0x70) 0) in
    let opcodes = from_u8 (bit_and b0 0x0f) in
    let e0 = else_ok reserved (protocol "reserved bits set") (and_then opcodes next) h e in
    let (opcode, e1) = and_then_ok opcodes next h e0 in
    let (extent, e2) = and_then_ok lengths (last opcode) h e1 in
    admit-bound max_payload fin opcode masked extent h e2

length-to_le_bytes : (n x : ℕ) → length (to_le_bytes n x) ≡ n
unfolding to_le_bytes
length-to_le_bytes zero x = refl
length-to_le_bytes (suc n) x = ap suc (length-to_le_bytes n _)

length-unmask : (key : Key) (bs : Bytes) → length (unmask key bs) ≡ length bs
unfolding unmask unmask_tail
length-unmask key [] = refl
length-unmask key (a ∷ []) = refl
length-unmask key (a ∷ b ∷ []) = refl
length-unmask key (a ∷ b ∷ c ∷ []) = refl
length-unmask key (a ∷ b ∷ c ∷ d ∷ []) = refl
length-unmask key (a ∷ b ∷ c ∷ d ∷ e ∷ []) = refl
length-unmask key (a ∷ b ∷ c ∷ d ∷ e ∷ f ∷ []) = refl
length-unmask key (a ∷ b ∷ c ∷ d ∷ e ∷ f ∷ g ∷ []) = refl
length-unmask key (a ∷ b ∷ c ∷ d ∷ e ∷ f ∷ g ∷ h ∷ rest) =
    let word = bit_xor (from_le_bytes (a ∷ b ∷ c ∷ d ∷ e ∷ f ∷ g ∷ h ∷ [])) (key64 key) in
    omega (
      arith,
      length-append (to_le_bytes 8 word) (unmask key rest),
      length-to_le_bytes 8 word,
      length-unmask key rest,
    )

length-take-le : (n : ℕ) (xs : Bytes) → length (take n xs) ≤ n
length-take-le zero xs = omega arith
length-take-le (suc n) [] = omega arith
length-take-le (suc n) (x ∷ xs) = omega (arith, length-take-le n xs)

length-drop : (n : ℕ) (xs : Bytes) → length (drop n xs) ≡ length xs - n
length-drop zero xs = omega arith
length-drop (suc n) [] = omega arith
length-drop (suc n) (x ∷ xs) = omega (arith, length-drop n xs)

ok-or_err : {A : Type 0} (r : Result A) → ((a : A) × (r ≡ ok a)) ⊎ ((e : ParseError) × (r ≡ err e))
ok-or_err (ok a) = inl (a, refl)
ok-or_err (err e) = inr (e, refl)

length_of : Result Frame → ℕ
length_of (ok f) = length f.payload
length_of (err e) = 0

commit-bound :
    (max_payload : ℕ) (buf : Bytes) (h : Header)
    → h.payload_len ≤ max_payload
    → length_of (commit buf (ok h)).0 ≤ max_payload
unfolding commit length_of
commit-bound max_payload buf h m =
    let header_len = 2 + h.len_field_bytes + 4 in
    let frame_bytes = take (header_len + h.payload_len) buf in
    elim (Bool-cases (ltb (length buf) (header_len + h.payload_len))) [
      | inl y ↦ rw y (omega arith)
      | inr n ↦ rw n (
          omega (
            arith,
            length-unmask (key_of (drop (2 + h.len_field_bytes) frame_bytes))
                (drop header_len frame_bytes),
            length-drop header_len frame_bytes,
            length-take-le (header_len + h.payload_len) buf,
            m,
          ))
    ]

parse-length_of :
    (max_payload : ℕ) (buf : Bytes) → length_of (parse max_payload buf).0 ≤ max_payload
unfolding parse length_of commit
parse-length_of max_payload [] = omega arith
parse-length_of max_payload (b0 ∷ []) = omega arith
parse-length_of max_payload (b0 ∷ b1 ∷ rest) = elim (ok-or_err (header_of max_payload b0 b1 rest)) [
  | inl (h, e) ↦
      rw e
        (commit-bound max_payload (b0 ∷ b1 ∷ rest) h (header_of-bound max_payload b0 b1 rest h e))
  | inr (x, e) ↦ rw e (omega arith)
]

-- No frame that `parse` gives has a payload longer than `max_payload`.
pub parse-bound :
    (max_payload : ℕ) (buf : Bytes) (f : Frame)
    → (parse max_payload buf).0 ≡ ok f
    → length f.payload ≤ max_payload
unfolding length_of
parse-bound max_payload buf f e =
    subst (λ r. length_of r ≤ max_payload) e (parse-length_of max_payload buf)
