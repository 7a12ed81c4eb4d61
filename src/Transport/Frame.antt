-- ===== src/Transport/Frame.antt =====
-- src/transport/frame.rs: the WebSocket frame codec. A buffer is the list of its bytes, on a target of
-- 64 bits.
pub mod Unmask
pub mod Bounds
pub mod RoundTrip
pub mod ServerFrames
pub mod Errors
pub mod Examples
use Prim.Native.Nat.{bit_and, bit_or, bit_xor}
use Prim.Native.String.{String}
use pylon.Prelude.{
  ℕ, zero, suc, ◌+◌, ◌-◌, ◌*◌, ◌/◌, ◌%◌, ◌^◌, Bool, true, false, not, ◌&&◌, List, [], ◌∷◌, ◌++◌,
  nat_beq, ltb, leb, if◌then◌else◌, length, take, drop,
}

abbrev pub Bytes : Type 0
Bytes = List ℕ

abbrev pub usize_max : ℕ
usize_max = 2 ^ 64 - 1

pub data OpCode : Type 0 where
  continuation text binary close ping pong : OpCode

pub data ParseError : Type 0 where
  incomplete : ParseError
  protocol : String → ParseError
  too_large : ParseError

pub data Result (A : Type 0) : Type 0 where
  ok : A → Result A
  err : ParseError → Result A

pub record Frame : Type 0 where
  pub fin : Bool
  pub opcode : OpCode
  pub payload : Bytes

-- What `parse` knows before it needs the payload.
pub record Header : Type 0 where
  pub fin : Bool
  pub opcode : OpCode
  pub payload_len : ℕ
  pub len_field_bytes : ℕ

-- `[u8; 4]`
pub record Key : Type 0 where
  pub k0 : ℕ
  pub k1 : ℕ
  pub k2 : ℕ
  pub k3 : ℕ

abbrev pub and_then : {A B : Type 0} → Result A → (A → Result B) → Result B
and_then (ok a) f = f a
and_then (err e) f = err e

-- `OpCode::from_u8`
unfoldable pub from_u8 : ℕ → Result OpCode
from_u8 v =
    if nat_beq v 0x0
    then ok continuation
    else if nat_beq v 0x1
    then ok text
    else if nat_beq v 0x2
    then ok binary
    else if nat_beq v 0x8
    then ok close
    else if nat_beq v 0x9
    then ok ping
    else if nat_beq v 0xa
    then ok pong
    else err (protocol "reserved opcode")

-- `OpCode::as_u8`
unfoldable pub as_u8 : OpCode → ℕ
as_u8 continuation = 0x0
as_u8 text = 0x1
as_u8 binary = 0x2
as_u8 close = 0x8
as_u8 ping = 0x9
as_u8 pong = 0xa

-- `OpCode::is_control`
unfoldable pub is_control : OpCode → Bool
is_control close = true
is_control ping = true
is_control pong = true
is_control _ = false

-- `from_be_bytes`
from_be_bytes : Bytes → ℕ → ℕ
from_be_bytes [] acc = acc
from_be_bytes (b ∷ bs) acc = from_be_bytes bs (acc * 256 + b)

-- `to_be_bytes`, of `n` bytes
pub to_be_bytes : ℕ → ℕ → Bytes → Bytes
to_be_bytes zero x tail = tail
to_be_bytes (suc n) x tail = to_be_bytes n (x / 256) (x % 256 ∷ tail)

-- `from_le_bytes` and `to_le_bytes`
pub from_le_bytes : Bytes → ℕ
from_le_bytes [] = 0
from_le_bytes (b ∷ bs) = b + 256 * from_le_bytes bs

pub to_le_bytes : ℕ → ℕ → Bytes
to_le_bytes zero x = []
to_le_bytes (suc n) x = x % 256 ∷ to_le_bytes n (x / 256)

-- The length form 126.
u16_length : Bytes → Result (ℕ × ℕ)
unfolding from_be_bytes
u16_length (a ∷ b ∷ rest) = ok (from_be_bytes (a ∷ b ∷ []) 0, 2)
u16_length _ = err incomplete

-- A 64-bit length: its high bit must be 0, and it must fit `usize`.
checked_length : ℕ → Result (ℕ × ℕ)
checked_length raw =
    if leb (2 ^ 63) raw
    then err (protocol "64-bit length high bit set")
    else if ltb usize_max raw
    then err too_large
    else ok (raw, 8)

-- The length form 127.
u64_length : Bytes → Result (ℕ × ℕ)
unfolding from_be_bytes checked_length
u64_length (a ∷ b ∷ c ∷ d ∷ e ∷ f ∷ g ∷ h ∷ rest) =
    checked_length (from_be_bytes (a ∷ b ∷ c ∷ d ∷ e ∷ f ∷ g ∷ h ∷ []) 0)
u64_length _ = err incomplete

-- The payload's length and the bytes of the extended length; `rest` follows the base header.
pub extended_length : ℕ → Bytes → Result (ℕ × ℕ)
unfolding u16_length u64_length
extended_length len7 rest =
    if nat_beq len7 126
    then u16_length rest
    else if nat_beq len7 127
    then u64_length rest
    else ok (len7, 0)

-- The checks that follow the length.
admit : ℕ → Bool → OpCode → Bool → ℕ × ℕ → Result Header
unfolding is_control
admit max_payload fin opcode masked (payload_len, len_field_bytes) =
    if is_control opcode && not fin
    then err (protocol "fragmented control frame")
    else if is_control opcode && ltb 125 payload_len
    then err (protocol "control frame payload > 125")
    else if not masked
    then err (protocol "unmasked client frame")
    else if ltb max_payload payload_len
    then err too_large
    else if ltb usize_max (2 + len_field_bytes + 4 + payload_len)
    then err too_large
    else ok (record {
      fin = fin;
      opcode = opcode;
      payload_len = payload_len;
      len_field_bytes = len_field_bytes;
    })

pub header_of : ℕ → ℕ → ℕ → Bytes → Result Header
unfolding from_u8 extended_length admit
header_of max_payload b0 b1 rest =
    if not (nat_beq (bit_and b0 0x70) 0)
    then err (protocol "reserved bits set")
    else and_then (from_u8 (bit_and b0 0x0f)) (λ opcode.
      and_then (extended_length (bit_and b1 0x7f) rest) (λ extent.
        admit max_payload (not (nat_beq (bit_and b0 0x80) 0)) opcode
          (not (nat_beq (bit_and b1 0x80) 0)) extent))

-- `key[i]`
unfoldable pub key_at : Key → ℕ → ℕ
key_at key i =
    if nat_beq i 0
    then key.k0
    else if nat_beq i 1
    then key.k1
    else if nat_beq i 2
    then key.k2
    else key.k3

-- The scalar loop of `unmask`, from index `i` on.
unfoldable pub unmask_tail : Key → ℕ → Bytes → Bytes
unfolding key_at
unmask_tail key i [] = []
unmask_tail key i (b ∷ bs) = bit_xor b (key_at key (i % 4)) ∷ unmask_tail key (suc i) bs

-- `key64`
key64 : Key → ℕ
unfolding from_le_bytes
key64 key =
    from_le_bytes (key.k0 ∷ key.k1 ∷ key.k2 ∷ key.k3 ∷ key.k0 ∷ key.k1 ∷ key.k2 ∷ key.k3 ∷ [])

-- `unmask`
unfoldable pub unmask : Key → Bytes → Bytes
unfolding key64 unmask_tail to_le_bytes from_le_bytes
unmask key (a ∷ b ∷ c ∷ d ∷ e ∷ f ∷ g ∷ h ∷ rest) =
    to_le_bytes 8 (bit_xor (from_le_bytes (a ∷ b ∷ c ∷ d ∷ e ∷ f ∷ g ∷ h ∷ [])) (key64 key))
    ++ unmask key rest
unmask key tail = unmask_tail key 0 tail

-- The key's bytes, which stand at the front.
key_of : Bytes → Key
key_of (a ∷ b ∷ c ∷ d ∷ rest) = record { k0 = a; k1 = b; k2 = c; k3 = d }
key_of _ = record { k0 = 0; k1 = 0; k2 = 0; k3 = 0 }

-- The end of `parse`: the frame is split off the buffer once it is there.
commit : Bytes → Result Header → Result Frame × Bytes
unfolding unmask key_of
commit buf (err e) = (err e, buf)
commit buf (ok h) =
    let header_len = 2 + h.len_field_bytes + 4 in
    let total = header_len + h.payload_len in
    let frame_bytes = take total buf in
    if ltb (length buf) total then (err incomplete, buf) else (
      ok (record {
        fin = h.fin;
        opcode = h.opcode;
        payload =
            unmask (key_of (drop (2 + h.len_field_bytes) frame_bytes))
              (drop header_len frame_bytes);
      }),
      drop total buf,
    )

-- `parse`, with the buffer that it leaves
unfoldable pub parse : ℕ → Bytes → Result Frame × Bytes
unfolding header_of commit
parse max_payload (b0 ∷ b1 ∷ rest) = commit (b0 ∷ b1 ∷ rest) (header_of max_payload b0 b1 rest)
parse max_payload buf = (err incomplete, buf)

-- The first byte of a frame.
unfoldable pub first_byte : Bool → OpCode → ℕ
unfolding as_u8
first_byte fin opcode = bit_or (if fin then 0x80 else 0x00) (as_u8 opcode)

-- `encode`, with the bytes that were written before
unfoldable pub encode : Bytes → Bool → OpCode → Bytes → Bytes
unfolding first_byte to_be_bytes
encode out fin opcode payload =
    let len = length payload in
    let extent =
      if leb len 125
      then len % 256 ∷ []
      else if leb len 65535
      then 126 ∷ to_be_bytes 2 len []
      else 127 ∷ to_be_bytes 8 len [] in
    out ++ (first_byte fin opcode ∷ []) ++ extent ++ payload

-- `encode_text`
unfoldable pub encode_text : Bytes → Bytes → Bytes
unfolding encode
encode_text out payload = encode out true text payload

-- What a client sends (`masked_frame` of the tests).
unfoldable pub masked_frame : Bool → OpCode → Key → Bytes → Bytes
unfolding first_byte to_be_bytes unmask_tail
masked_frame fin opcode key payload =
    let len = length payload in
    let extent =
      if leb len 125
      then bit_or 0x80 len ∷ []
      else if leb len 65535
      then bit_or 0x80 126 ∷ to_be_bytes 2 len []
      else bit_or 0x80 127 ∷ to_be_bytes 8 len [] in
    (first_byte fin opcode ∷ [])
    ++ extent
    ++ (key.k0 ∷ key.k1 ∷ key.k2 ∷ key.k3 ∷ [])
    ++ unmask_tail key 0 payload
