-- ===== src/Transport/Frame/RoundTrip.antt =====
-- src/transport/frame.rs: `parse` reads back what a client sends, in each of the three length forms.
use Prim.Native.Nat.{bit_and, bit_or}
use pylon.Prelude.{
  ℕ, zero, suc, ◌+◌, ◌*◌, ◌/◌, ◌%◌, ◌^◌, ◌≤◌, ◌<◌, ◌≡◌, refl, ap, ◌∙◌, Bool, true, not, ◌&&◌, [],
  ◌∷◌, ◌++◌, arith, nat_beq, nat_beq_iff, leb, length, Bool-cases, inl, inr,
}
use pylon.Transport.Frame.{
  Bytes, OpCode, ok, Key, extended_length, u16_length, u64_length, checked_length, from_be_bytes,
  to_be_bytes, masked_frame, parse,
}
use pylon.Transport.Frame.Unmask.{AreBytes, IsKey}
use pylon.Transport.Frame.Bounds.{allowed, parse_whole}

unfoldable pub every_below : ℕ → (ℕ → Bool) → Bool
every_below zero p = true
every_below (suc n) p = p n && every_below n p

pub every_below_lem : (n : ℕ) (p : ℕ → Bool) (i : ℕ) → every_below n p ≡ true → i < n → p i ≡ true
unfolding every_below
every_below_lem zero p i h l = absurd (omega arith)
every_below_lem (suc n) p i h l = ground (arith, every_below_lem n p i)

-- The second byte of a short frame.
short_byte : ℕ → Bool
short_byte len =
    nat_beq (bit_and (bit_or 0x80 len) 0x7f) len && not (nat_beq (bit_and (bit_or 0x80 len) 0x80) 0)

short_bytes : every_below 126 short_byte ≡ true
unfolding every_below short_byte
short_bytes = refl

short_byte_lem :
    (len : ℕ)
    → len < 126
    → (bit_and (bit_or 0x80 len) 0x7f ≡ len)
      × (not (nat_beq (bit_and (bit_or 0x80 len) 0x80) 0) ≡ true)
unfolding short_byte
short_byte_lem len l =
    let h = every_below_lem 126 short_byte len short_bytes l in
    ground (arith, h, nat_beq_iff (bit_and (bit_or 0x80 len) 0x7f) len)

short_extent :
    (len : ℕ) (rest : Bytes)
    → len < 126
    → extended_length (bit_and (bit_or 0x80 len) 0x7f) rest ≡ ok (len, 0)
unfolding extended_length
short_extent len rest l = rw (short_byte_lem len l).0 (ground (arith))

pub medium_extent :
    (len : ℕ) (rest : Bytes)
    → len ≤ 65535
    → extended_length 126 (len / 256 % 256 ∷ len % 256 ∷ rest) ≡ ok (len, 2)
unfolding extended_length u16_length from_be_bytes
medium_extent len rest l =
    let e : (0 * 256 + len / 256 % 256) * 256 + len % 256 ≡ len = omega arith in rw e refl

checked_length_lem : (len : ℕ) → len < 2 ^ 63 → checked_length len ≡ ok (len, 8)
unfolding checked_length
checked_length_lem len l = ground arith

-- A number put together from its last byte and the rest.
byte_last : (x acc : ℕ) → acc ≡ x / 256 → acc * 256 + x % 256 ≡ x
byte_last x acc e = omega (arith, e)

from_be_bytes-to_be_bytes : (len : ℕ) → len < 2 ^ 63 → from_be_bytes (to_be_bytes 8 len []) 0 ≡ len
unfolding from_be_bytes to_be_bytes
from_be_bytes-to_be_bytes len l = byte_last len _ (
    byte_last (len / 256) _ (
      byte_last (len / 256 / 256) _ (
        byte_last (len / 256 / 256 / 256) _ (
          byte_last (len / 256 / 256 / 256 / 256) _ (
            byte_last (len / 256 / 256 / 256 / 256 / 256) _
              (byte_last (len / 256 / 256 / 256 / 256 / 256 / 256) _ (omega arith)))))))

pub long_extent :
    (len : ℕ) (rest : Bytes)
    → len < 2 ^ 63
    → extended_length 127 (to_be_bytes 8 len [] ++ rest) ≡ ok (len, 8)
unfolding extended_length u64_length from_be_bytes to_be_bytes checked_length
long_extent len rest l =
    ap checked_length (from_be_bytes-to_be_bytes len l) ∙ checked_length_lem len l

-- When a buffer starts with a masked client frame, `parse` gives that frame with its payload unmasked
-- and leaves exactly the bytes behind it, in each of the three length forms: the key and the payload
-- being bytes, the payload at most `max_payload` and below 2 ^ 63 long, and a control frame whole and
-- at most 125 bytes long.
pub parse-masked_frame :
    (max_payload : ℕ) (fin : Bool) (opcode : OpCode) (key : Key) (payload rest : Bytes)
    → IsKey key
    → AreBytes payload
    → allowed fin opcode (length payload) ≡ true
    → length payload ≤ max_payload
    → length payload < 2 ^ 63
    → parse max_payload (masked_frame fin opcode key payload ++ rest)
      ≡ (ok (record { fin = fin; opcode = opcode; payload = payload }), rest)
unfolding masked_frame to_be_bytes
parse-masked_frame max_payload fin opcode key payload rest ik ab a m u =
    let len = length payload in
    elim (Bool-cases (leb len 125)) [
      | inl y ↦
          let (l, k) = short_byte_lem len (ground (arith, y)) in
          rw y (
            parse_whole max_payload fin opcode key payload rest (bit_or 0x80 len) []
              (short_extent len _ (ground (arith, y))) k (omega arith) ik ab a m u)
      | inr n ↦ elim (Bool-cases (leb len 65535)) [
        | inl y ↦
            rw (n, y)
              (parse_whole max_payload fin opcode key payload rest 254
                (len / 256 % 256 ∷ len % 256 ∷ []) (medium_extent len _ (ground (arith, y))) refl
                (omega arith) ik ab a m u)
        | inr n' ↦
            rw (n, n')
              (parse_whole max_payload fin opcode key payload rest 255 (to_be_bytes 8 len [])
                (long_extent len _ u) refl (omega arith) ik ab a m u)
      ]
    ]
