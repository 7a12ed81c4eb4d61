-- ===== src/Protocol/Negotiate.antt =====
-- src/protocol/mod.rs: the version that a connection's parameters ask for. A codec is its version.
pub mod Printed
pub mod Examples
use pylon.Prelude.{
  ℕ, zero, suc, ◌+◌, ◌-◌, ◌*◌, ◌^◌, Bool, true, false, ◌&&◌, Option, none, some, List, [], ◌∷◌,
  nat_beq, ltb, leb, if◌then◌else◌, is_empty,
}
use pylon.Prelude.Results.{Result, ok, err}
use pylon.Protocol.SocketId.{Str}
use pylon.Protocol.Text.{ascii}
use pylon.Protocol.Event.{PusherError}

abbrev pub min_protocol : ℕ
min_protocol = 7

abbrev pub max_protocol : ℕ
max_protocol = 7

-- `PusherError::invalid_version`, `unsupported_protocol`, `no_protocol`
unfoldable pub invalid_version : PusherError
invalid_version = record { code = 4006; message = ascii "Invalid version string format" }

unfoldable pub unsupported_protocol : PusherError
unsupported_protocol = record { code = 4007; message = ascii "Unsupported protocol version" }

unfoldable pub no_protocol : PusherError
no_protocol = record { code = 4008; message = ascii "No protocol version supplied" }

unfoldable pub parse_digits : ℕ → Str → Option ℕ
parse_digits n [] = some n
parse_digits n (c ∷ s) =
    let next = n * 10 + (c - 48) in
    let rest = parse_digits next s in
    if (leb 48 c && leb c 57) && ltb next (2 ^ 32) then rest else none

-- `str::parse::<u32>`
unfoldable pub parse_u32 : Str → Option ℕ
unfolding parse_digits
parse_u32 [] = none
parse_u32 (c ∷ s) =
    if nat_beq c 43 then (if is_empty s then none else parse_digits 0 s) else parse_digits 0 (c ∷ s)

-- `codec_for`
unfoldable pub codec_for : ℕ → ℕ
codec_for version = 7

-- `supported_or_4007`
unfoldable pub supported_or_4007 : ℕ → Result ℕ PusherError
unfolding codec_for unsupported_protocol
supported_or_4007 major =
    if leb min_protocol major && leb major max_protocol
    then ok (codec_for major)
    else err unsupported_protocol

-- `split('.').next()`
unfoldable pub before_dot : Str → Str
before_dot [] = []
before_dot (c ∷ s) = let rest = before_dot s in if nat_beq c 46 then [] else c ∷ rest

-- `major_of`
unfoldable pub major_of : Str → Option ℕ
unfolding before_dot parse_u32
major_of version = parse_u32 (before_dot version)

supported : Option ℕ → Result ℕ PusherError
unfolding supported_or_4007 invalid_version
supported none = err invalid_version
supported (some n) = supported_or_4007 n

-- `negotiate`
unfoldable pub negotiate : Option Str → Option Str → Bool → Result ℕ PusherError
unfolding supported major_of parse_u32 no_protocol codec_for
negotiate (some s) version strict = supported (parse_u32 s)
negotiate none (some v) strict = supported (major_of v)
negotiate none none strict = if strict then err no_protocol else ok (codec_for max_protocol)
