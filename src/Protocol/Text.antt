-- ===== src/Protocol/Text.antt =====
-- Text of the sources: string literals, `to_string` of a count, and `chars().count()`.
use Prim.Native.Char.{code}
use Prim.Native.String.{String}
use pylon.Prelude.{ℕ, zero, suc, ◌+◌, ◌/◌, ◌%◌, ◌&&◌, [], ◌∷◌, ltb, leb, if◌then◌else◌}
use pylon.Protocol.SocketId.{Str}

-- A literal of ASCII characters.
unfoldable pub ascii : String → Str
ascii String.[] = []
ascii (String.◌∷◌ c s) = code c ∷ ascii s

unfoldable pub decimal_on : ℕ → ℕ → Str → Str
decimal_on zero n tail = tail
decimal_on (suc fuel) n tail =
    let rest = decimal_on fuel (n / 10) ((48 + n % 10) ∷ tail) in
    if ltb n 10 then (48 + n) ∷ tail else rest

-- `{n}` in a format string
unfoldable pub decimal : ℕ → Str
unfolding decimal_on
decimal n = decimal_on (suc n) n []

-- `chars().count()`: every byte but a continuation byte starts a character
unfoldable pub char_count : Str → ℕ
char_count [] = 0
char_count (b ∷ s) = let rest = char_count s in if leb 128 b && ltb b 192 then rest else suc rest
