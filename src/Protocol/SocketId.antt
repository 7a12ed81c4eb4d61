-- ===== src/Protocol/SocketId.antt =====
-- src/protocol/socket_id.rs. Text is the list of its UTF-8 bytes throughout.
use pylon.Prelude.{
  ℕ, zero, suc, ◌-◌, ◌≡◌, ◌↔◌, Bool, true, ◌&&◌, List, [], ◌∷◌, ◌++◌, arith, Eq, ◌==◌, min, nat_eq,
  list_eq, list_beq_iff, length, take, if◌then◌else◌,
}

abbrev pub Str : Type 0
Str = List ℕ

pub record SocketId : Type 0 where
  pub buf : List ℕ
  pub len : ℕ

abbrev pub capacity : ℕ
capacity = 24

unfoldable pub socket_id_beq : SocketId → SocketId → Bool
socket_id_beq s t = s.len == t.len && s.buf == t.buf

pub socket_id_beq_iff : (s t : SocketId) → (socket_id_beq s t ≡ true) ↔ (s ≡ t)
unfolding socket_id_beq
socket_id_beq_iff s t = ground (arith, list_beq_iff s.buf t.buf)

instance abbrev pub socket_id_eq : Eq SocketId
socket_id_eq = record { same = socket_id_beq; same_iff = socket_id_beq_iff }

-- `[0u8; n]`
zeros : ℕ → List ℕ
zeros zero = []
zeros (suc n) = 0 ∷ zeros n

-- `SocketId::from_raw`
unfoldable pub from_raw : Str → SocketId
unfolding zeros
from_raw s =
    let n = min (length s) capacity in record { buf = take n s ++ zeros (capacity - n); len = n }

-- `SocketId::as_str`; the first argument is `std::str::from_utf8(..).is_ok()`
unfoldable pub as_str : (Str → Bool) → SocketId → Str
as_str is_utf8 s = let raw = take s.len s.buf in if is_utf8 raw then raw else []
