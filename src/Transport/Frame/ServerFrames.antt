-- ===== src/Transport/Frame/ServerFrames.antt =====
-- src/transport/frame.rs: a client reads back what `encode` writes.
use Prim.Native.Nat.{bit_and}
use pylon.Prelude.{
  ℕ, ◌+◌, ◌/◌, ◌%◌, ◌^◌, ◌<◌, ◌≡◌, refl, ap, ◌∙◌, Bool, true, false, not, ◌&&◌, Option, none, some,
  [], ◌∷◌, ◌++◌, arith, nat_beq, nat_beq_iff, ltb, leb, if◌then◌else◌, length, take, drop,
  take-append, drop-append, length-append, Bool-cases, inl, inr,
}
use pylon.Transport.Frame.{
  Bytes, OpCode, Result, ok, err, from_u8, first_byte, extended_length, to_be_bytes, encode,
}
use pylon.Transport.Frame.Bounds.{first_byte_lem, drop_past}
use pylon.Transport.Frame.RoundTrip.{medium_extent, long_extent, every_below, every_below_lem}

-- The second byte of a short frame.
short_byte : ℕ → Bool
short_byte len = nat_beq (bit_and (len % 256) 0x7f) len && nat_beq (bit_and (len % 256) 0x80) 0

short_bytes : every_below 126 short_byte ≡ true
unfolding every_below short_byte
short_bytes = refl

short_byte_lem :
    (len : ℕ)
    → len < 126
    → (bit_and (len % 256) 0x7f ≡ len) × (not (nat_beq (bit_and (len % 256) 0x80) 0) ≡ false)
unfolding short_byte
short_byte_lem len l =
    let h = every_below_lem 126 short_byte len short_bytes l in
    ground (arith, h, nat_beq_iff (bit_and (len % 256) 0x7f) len)

short_extent :
    (len : ℕ) (rest : Bytes)
    → len < 126
    → extended_length (bit_and (len % 256) 0x7f) rest ≡ ok (len, 0)
unfolding extended_length
short_extent len rest l = rw (short_byte_lem len l).0 (ground (arith))

-- A client's reader of RFC 6455 frames without a mask: FIN, the opcode and the payload of the frame at the
-- front, and the bytes behind it.
read_body : Bool → OpCode → Bytes → Result (ℕ × ℕ) → Option (Bool × OpCode × Bytes × Bytes)
read_body fin opcode rest (err e) = none
read_body fin opcode rest (ok (len, field)) =
    if ltb (length rest) (field + len)
    then none
    else some (fin, opcode, take len (drop field rest), drop (field + len) rest)

read_opcode : Bool → Bytes → Result (ℕ × ℕ) → Result OpCode → Option (Bool × OpCode × Bytes × Bytes)
unfolding read_body
read_opcode fin rest extent (err e) = none
read_opcode fin rest extent (ok opcode) = read_body fin opcode rest extent

unfoldable pub read_frame : Bytes → Option (Bool × OpCode × Bytes × Bytes)
unfolding read_opcode
read_frame (b0 ∷ b1 ∷ rest) =
    if nat_beq (bit_and b0 0x70) 0 && nat_beq (bit_and b1 0x80) 0
    then read_opcode (not (nat_beq (bit_and b0 0x80) 0)) rest
        (extended_length (bit_and b1 0x7f) rest) (from_u8 (bit_and b0 0x0f))
    else none
read_frame _ = none

read_frame_lem :
    (fin : Bool) (opcode : OpCode) (b1 : ℕ) (ext payload rest : Bytes)
    → extended_length (bit_and b1 0x7f) (ext ++ (payload ++ rest)) ≡ ok (length payload, length ext)
    → nat_beq (bit_and b1 0x80) 0 ≡ true
    → read_frame (first_byte fin opcode ∷ b1 ∷ (ext ++ (payload ++ rest)))
      ≡ some (fin, opcode, payload, rest)
unfolding read_frame read_opcode read_body
read_frame_lem fin opcode b1 ext payload rest l k =
    let (r, o, f) = first_byte_lem fin opcode in
    let whole : ltb (length (ext ++ (payload ++ rest))) (length ext + length payload) ≡ false =
      ground (arith, length-append ext (payload ++ rest), length-append payload rest) in
    let body : take (length payload) (drop (length ext) (ext ++ (payload ++ rest))) ≡ payload =
      ap (take (length payload)) (drop-append ext (payload ++ rest)) ∙ take-append payload rest in
    let behind : drop (length ext + length payload) (ext ++ (payload ++ rest)) ≡ rest =
      drop_past (length payload) ext (payload ++ rest) ∙ drop-append payload rest in
    rw (r, k, o, l, f, whole, body, behind) refl

encode-append :
    (out : Bytes) (fin : Bool) (opcode : OpCode) (payload rest : Bytes)
    → encode out fin opcode payload ++ rest ≡ out ++ (encode [] fin opcode payload ++ rest)
unfolding encode
encode-append [] fin opcode payload rest = refl
encode-append (b ∷ out) fin opcode payload rest =
    ap (λ l. b ∷ l) (encode-append out fin opcode payload rest)

encode-read_frame :
    (fin : Bool) (opcode : OpCode) (payload rest : Bytes)
    → length payload < 2 ^ 63
    → read_frame (encode [] fin opcode payload ++ rest) ≡ some (fin, opcode, payload, rest)
unfolding encode to_be_bytes
encode-read_frame fin opcode payload rest u =
    let len = length payload in
    elim (Bool-cases (leb len 125)) [
      | inl y ↦
          let (l, k) = short_byte_lem len (ground (arith, y)) in
          rw y (
            read_frame_lem fin opcode (len % 256) [] payload rest
              (short_extent len _ (ground (arith, y))) (ground (arith, k)))
      | inr n ↦ elim (Bool-cases (leb len 65535)) [
        | inl y ↦
            rw (n, y)
              (read_frame_lem fin opcode 126 (len / 256 % 256 ∷ len % 256 ∷ []) payload rest
                (medium_extent len _ (ground (arith, y))) refl)
        | inr n' ↦
            rw (n, n')
              (read_frame_lem fin opcode 127 (to_be_bytes 8 len []) payload rest
                (long_extent len _ u) refl)
      ]
    ]

-- `encode` appends to what was written before one frame that a client reads back: it has the given FIN
-- and opcode, no reserved and no mask bit, exactly the payload, below 2 ^ 63 long, in each of the three
-- length forms, and nothing of what is written behind it.
pub read_frame-encode :
    (out : Bytes) (fin : Bool) (opcode : OpCode) (payload rest : Bytes)
    → length payload < 2 ^ 63
    → (take (length out) (encode out fin opcode payload ++ rest) ≡ out)
      × (read_frame (drop (length out) (encode out fin opcode payload ++ rest))
          ≡ some (fin, opcode, payload, rest))
read_frame-encode out fin opcode payload rest u =
    let e = encode-append out fin opcode payload rest in
    (
      ap (take (length out)) e ∙ take-append out _,
      ap (λ l. read_frame (drop (length out) l)) e
          ∙ ap read_frame (drop-append out _)
          ∙ encode-read_frame fin opcode payload rest u,
    )
