-- ===== src/Transport/Frame/Examples.antt =====
-- src/transport/frame.rs: frames on the wire.
use pylon.Prelude.{ℕ, length, ◌≤◌, ap, ◌≡◌, refl, ◌++◌, true, some, take, drop, [], ◌∷◌, arith}
use pylon.Transport.Frame.Errors.{parse_keeps, parse-bound}
use pylon.Transport.Frame.{
  incomplete, Bytes, Key, ok, text, ping, unmask, unmask_tail, masked_frame, encode, parse,
}
use pylon.Transport.Frame.Unmask.{AreBytes, unmask-unmask_tail}
use pylon.Transport.Frame.Bounds.{allowed}
use pylon.Transport.Frame.RoundTrip.{parse-masked_frame}
use pylon.Transport.Frame.ServerFrames.{read_frame, read_frame-encode}

-- "Hello, hi" and the key of RFC 6455's example.
abbrev hello : Bytes
hello = 72 ∷ 101 ∷ 108 ∷ 108 ∷ 111 ∷ 44 ∷ 32 ∷ 104 ∷ 105 ∷ []

abbrev key : Key
key = record { k0 = 0x37; k1 = 0xfa; k2 = 0x21; k3 = 0x3d }

hello_bytes : AreBytes hello
hello_bytes = ground arith

-- The buffer of the repository's first test: "Hello", masked.
abbrev kat : Bytes
kat = 0x81 ∷ 0x85 ∷ 0x37 ∷ 0xfa ∷ 0x21 ∷ 0x3d ∷ 0x7f ∷ 0x9f ∷ 0x4d ∷ 0x51 ∷ 0x58 ∷ []

kat_parses :
    parse 1048576 kat
    ≡ (ok (record { fin = true; opcode = text; payload = 72 ∷ 101 ∷ 108 ∷ 108 ∷ 111 ∷ [] }), [])
unfolding parse
kat_parses = refl

unmask-unmask_tail_example : unmask key hello ≡ unmask_tail key 0 hello
unmask-unmask_tail_example =
    unmask-unmask_tail key hello (omega arith, omega arith, omega arith, omega arith) hello_bytes

parse-masked_frame_example :
    parse 100 (masked_frame true ping key hello ++ 0x81 ∷ [])
    ≡ (ok (record { fin = true; opcode = ping; payload = hello }), 0x81 ∷ [])
unfolding allowed
parse-masked_frame_example =
    parse-masked_frame 100 true ping key hello (0x81 ∷ [])
      (omega arith, omega arith, omega arith, omega arith) hello_bytes refl (omega arith)
      (omega arith)

read_frame-encode_example :
    (take 1 (encode (0x0a ∷ []) true text hello ++ 0x81 ∷ []) ≡ 0x0a ∷ [])
    × (read_frame (drop 1 (encode (0x0a ∷ []) true text hello ++ 0x81 ∷ []))
        ≡ some (true, text, hello, 0x81 ∷ []))
read_frame-encode_example = read_frame-encode (0x0a ∷ []) true text hello (0x81 ∷ []) (omega arith)

parse_keeps_example : (parse 100 (0x81 ∷ 0x85 ∷ 0x37 ∷ [])).1 ≡ 0x81 ∷ 0x85 ∷ 0x37 ∷ []
unfolding parse
parse_keeps_example = parse_keeps 100 (0x81 ∷ 0x85 ∷ 0x37 ∷ []) incomplete refl

parse-bound_example : length {A = ℕ} (72 ∷ 101 ∷ 108 ∷ 108 ∷ 111 ∷ []) ≤ 1048576
parse-bound_example =
    parse-bound 1048576 kat
      (record { fin = true; opcode = text; payload = 72 ∷ 101 ∷ 108 ∷ 108 ∷ 111 ∷ [] })
      (ap (λ r. r.0) kat_parses)
