-- ===== src/Transport/Frame/Bounds.antt =====
-- src/transport/frame.rs: the header's bytes, and what `parse` makes of a buffer that starts with a
-- whole frame.
use Prim.Native.Nat.{bit_and}
use pylon.Prelude.{
  ℕ, suc, ◌+◌, ◌%◌, ◌^◌, ◌≤◌, ◌<◌, ◌≡◌, refl, ap, ◌∙◌, sym, Bool, true, false, not, ◌&&◌, ◌||◌, [],
  ◌∷◌, ◌++◌, arith, nat_beq, ltb, leb, length, take, drop, take-append, drop-append, length-append,
}
use pylon.Prelude.Bits.{apart_256}
use pylon.Transport.Frame.{
  Bytes, OpCode, continuation, text, binary, close, ping, pong, ok, Header, Key, key_at, unmask,
  unmask_tail, key_of, first_byte, as_u8, from_u8, is_control, extended_length, admit, header_of,
  commit, parse, usize_max,
}
use pylon.Transport.Frame.Unmask.{
  AreBytes, IsKey, unmask-unmask_tail, unmask_tail_twice, length-unmask_tail,
}

-- A control frame is whole and short.
unfoldable pub allowed : Bool → OpCode → ℕ → Bool
unfolding is_control
allowed fin opcode len = not (is_control opcode) || (fin && leb len 125)

-- The first byte holds no reserved bit, the opcode, and FIN.
pub first_byte_lem :
    (fin : Bool) (opcode : OpCode)
    → (nat_beq (bit_and (first_byte fin opcode) 0x70) 0 ≡ true)
      × (from_u8 (bit_and (first_byte fin opcode) 0x0f) ≡ ok opcode)
      × (not (nat_beq (bit_and (first_byte fin opcode) 0x80) 0) ≡ fin)
unfolding first_byte as_u8 from_u8
first_byte_lem true continuation = (refl, refl, refl)
first_byte_lem true text = (refl, refl, refl)
first_byte_lem true binary = (refl, refl, refl)
first_byte_lem true close = (refl, refl, refl)
first_byte_lem true ping = (refl, refl, refl)
first_byte_lem true pong = (refl, refl, refl)
first_byte_lem false continuation = (refl, refl, refl)
first_byte_lem false text = (refl, refl, refl)
first_byte_lem false binary = (refl, refl, refl)
first_byte_lem false close = (refl, refl, refl)
first_byte_lem false ping = (refl, refl, refl)
first_byte_lem false pong = (refl, refl, refl)

admit_lem :
    (max_payload : ℕ) (fin : Bool) (opcode : OpCode) (len field : ℕ)
    → allowed fin opcode len ≡ true
    → len ≤ max_payload
    → 2 + field + 4 + len ≤ usize_max
    → admit max_payload fin opcode true (len, field)
      ≡ ok (record { fin = fin; opcode = opcode; payload_len = len; len_field_bytes = field })
unfolding admit allowed
admit_lem max_payload fin opcode len field a m u = ground arith

header_of_lem :
    (max_payload : ℕ) (fin : Bool) (opcode : OpCode) (b1 len field : ℕ) (rest : Bytes)
    → extended_length (bit_and b1 0x7f) rest ≡ ok (len, field)
    → not (nat_beq (bit_and b1 0x80) 0) ≡ true
    → allowed fin opcode len ≡ true
    → len ≤ max_payload
    → 2 + field + 4 + len ≤ usize_max
    → header_of max_payload (first_byte fin opcode) b1 rest
      ≡ ok (record { fin = fin; opcode = opcode; payload_len = len; len_field_bytes = field })
unfolding header_of
header_of_lem max_payload fin opcode b1 len field rest l k a m u =
    let (r, o, f) = first_byte_lem fin opcode in
    rw (r, o, l, k, f) (admit_lem max_payload fin opcode len field a m u)

pub drop_past : (n : ℕ) (xs ys : Bytes) → drop (length xs + n) (xs ++ ys) ≡ drop n ys
drop_past n [] ys = ap (λ k. drop k ys) (omega arith)
drop_past n (x ∷ xs) ys =
    let e : suc (length xs) + n ≡ suc (length xs + n) = omega arith in
    ap (λ k. drop k (x ∷ xs ++ ys)) e ∙ drop_past n xs ys

-- What `commit` does with a buffer that starts with a frame: `hd` is the header up to the key.
commit_lem :
    (h : Header) (key : Key) (hd m rest : Bytes)
    → length hd ≡ 2 + h.len_field_bytes
    → length m ≡ h.payload_len
    → commit ((hd ++ key.k0 ∷ key.k1 ∷ key.k2 ∷ key.k3 ∷ m) ++ rest) (ok h)
      ≡ (ok (record { fin = h.fin; opcode = h.opcode; payload = unmask key m }), rest)
unfolding commit key_of
commit_lem h key hd m rest e f =
    let body = key.k0 ∷ key.k1 ∷ key.k2 ∷ key.k3 ∷ m in
    let frame = hd ++ body in
    let total = 2 + h.len_field_bytes + 4 + h.payload_len in
    let whole : total ≡ length frame = omega (arith, length-append hd body, e, f) in
    let fits : ltb (length (frame ++ rest)) total ≡ false =
      ground (arith, length-append frame rest, whole) in
    let t : take total (frame ++ rest) ≡ frame =
      ap (λ n. take n (frame ++ rest)) whole ∙ take-append frame rest in
    let d : drop total (frame ++ rest) ≡ rest =
      ap (λ n. drop n (frame ++ rest)) whole ∙ drop-append frame rest in
    let k : drop (2 + h.len_field_bytes) frame ≡ body =
      ap (λ n. drop n frame) (sym e) ∙ drop-append hd body in
    let p : drop (2 + h.len_field_bytes + 4) frame ≡ m =
      ap (λ n. drop (n + 4) frame) (sym e) ∙ drop_past 4 hd body in
    rw (fits, t, d, k, p) refl

AreBytes-unmask_tail :
    (key : Key) (i : ℕ) (bs : Bytes) → IsKey key → AreBytes bs → AreBytes (unmask_tail key i bs)
unfolding unmask_tail key_at
AreBytes-unmask_tail key i [] k p = tt
AreBytes-unmask_tail key i (b ∷ bs) k p =
    let byte : key_at key (i % 4) < 256 = ground (arith, k) in
    ((apart_256 b (key_at key (i % 4)) 0 0 p.0 byte).1, AreBytes-unmask_tail key (suc i) bs k p.1)

-- What `parse` makes of a masked frame whose second byte and extended length `ext` give the length.
pub parse_whole :
    (max_payload : ℕ) (fin : Bool) (opcode : OpCode) (key : Key) (payload rest : Bytes) (b1 : ℕ)
    (ext : Bytes)
    → (let masked = unmask_tail key 0 payload in
        extended_length
          (bit_and b1 0x7f)
          ((ext ++ key.k0 ∷ key.k1 ∷ key.k2 ∷ key.k3 ∷ masked) ++ rest)
        ≡ ok (length payload, length ext))
    → not (nat_beq (bit_and b1 0x80) 0) ≡ true
    → length ext ≤ 8
    → IsKey key
    → AreBytes payload
    → allowed fin opcode (length payload) ≡ true
    → length payload ≤ max_payload
    → length payload < 2 ^ 63
    → parse max_payload (
        first_byte fin opcode
          ∷ b1
          ∷ (ext ++ key.k0 ∷ key.k1 ∷ key.k2 ∷ key.k3 ∷ unmask_tail key 0 payload)
        ++ rest)
      ≡ (ok (record { fin = fin; opcode = opcode; payload = payload }), rest)
unfolding parse
parse_whole max_payload fin opcode key payload rest b1 ext l k x ik ab a m u =
    let masked = unmask_tail key 0 payload in
    let clear : unmask key masked ≡ payload =
      unmask-unmask_tail key masked ik (AreBytes-unmask_tail key 0 payload ik ab)
      ∙ unmask_tail_twice key 0 payload in
    let h : Header = record {
      fin = fin;
      opcode = opcode;
      payload_len = length payload;
      len_field_bytes = length ext;
    } in
    let buf =
      first_byte fin opcode ∷ b1 ∷ (ext ++ key.k0 ∷ key.k1 ∷ key.k2 ∷ key.k3 ∷ masked) ++ rest in
    ap (commit buf) (
      header_of_lem max_payload fin opcode b1 (length payload) (length ext) _ l k a m (omega arith))
    ∙ commit_lem h key (first_byte fin opcode ∷ b1 ∷ ext) masked rest (omega arith)
        (length-unmask_tail key 0 payload)
    ∙ ap (λ p. (ok (record { fin = fin; opcode = opcode; payload = p }), rest)) clear
