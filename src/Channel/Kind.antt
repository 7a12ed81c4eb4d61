-- ===== src/Channel/Kind.antt =====
-- src/channel/kind.rs: the classification and the validation of channel names.
pub mod Classes
pub mod Examples
use mathlib.Core.Option
use pylon.Prelude.{
  ℕ, Bool, true, false, not, ◌&&◌, ◌||◌, Option, none, some, List, [], ◌∷◌, ◌++◌, nat_beq, ltb, leb,
  if◌then◌else◌, length, is_empty,
}
use pylon.Protocol.SocketId.{Str}
use pylon.Channel.Registry.{starts_with}

pub data AuthKind : Type 0 where
  public private presence private_encrypted : AuthKind

pub record ChannelInfo : Type 0 where
  pub auth : AuthKind
  pub cache : Bool

-- "private-"
abbrev pub private_prefix : Str
private_prefix = 112 ∷ 114 ∷ 105 ∷ 118 ∷ 97 ∷ 116 ∷ 101 ∷ 45 ∷ []

-- "encrypted-"
abbrev pub encrypted_part : Str
encrypted_part = 101 ∷ 110 ∷ 99 ∷ 114 ∷ 121 ∷ 112 ∷ 116 ∷ 101 ∷ 100 ∷ 45 ∷ []

-- "presence-"
abbrev pub presence_prefix : Str
presence_prefix = 112 ∷ 114 ∷ 101 ∷ 115 ∷ 101 ∷ 110 ∷ 99 ∷ 101 ∷ 45 ∷ []

-- "cache-"
abbrev pub cache_prefix : Str
cache_prefix = 99 ∷ 97 ∷ 99 ∷ 104 ∷ 101 ∷ 45 ∷ []

-- `SERVER_TO_USER_PREFIX`: "#server-to-user-"
abbrev pub server_to_user_prefix : Str
server_to_user_prefix =
    35 ∷ 115 ∷ 101 ∷ 114 ∷ 118 ∷ 101 ∷ 114 ∷ 45 ∷ 116 ∷ 111 ∷ 45 ∷ 117 ∷ 115 ∷ 101 ∷ 114 ∷ 45 ∷ []

-- `AuthKind::requires_auth`
unfoldable pub requires_auth : AuthKind → Bool
requires_auth public = false
requires_auth private = true
requires_auth presence = true
requires_auth private_encrypted = true

-- `str::strip_prefix`
unfoldable pub strip_prefix : Str → Str → Option Str
strip_prefix s [] = some s
strip_prefix [] (p ∷ ps) = none
strip_prefix (c ∷ s) (p ∷ ps) = let r = strip_prefix s ps in if nat_beq c p then r else none

-- The tests of `ChannelInfo::of` in their order.
kind_and_rest : Str → AuthKind × Str
unfolding strip_prefix
kind_and_rest name = elim (strip_prefix name (private_prefix ++ encrypted_part)) [
  | some r ↦ (private_encrypted, r)
  | none ↦ elim (strip_prefix name presence_prefix) [
    | some r ↦ (presence, r)
    | none ↦ elim (strip_prefix name private_prefix) [
      | some r ↦ (private, r)
      | none ↦ (public, name)
    ]
  ]
]

-- `ChannelInfo::of`
unfoldable pub channel_info_of : Str → ChannelInfo
unfolding kind_and_rest
channel_info_of name =
    let (auth, rest) = kind_and_rest name in
    record { auth = auth; cache = starts_with rest cache_prefix }

-- `is_ascii_alphanumeric`
is_alphanumeric : ℕ → Bool
is_alphanumeric c = (leb 48 c && leb c 57) || (leb 65 c && leb c 90) || (leb 97 c && leb c 122)

-- A character that a name may hold; the bytes of other than ASCII characters are above them all.
is_name_char : ℕ → Bool
unfolding is_alphanumeric
is_name_char c =
    is_alphanumeric c
    || nat_beq c 95
    || nat_beq c 45
    || nat_beq c 61
    || nat_beq c 64
    || nat_beq c 44
    || nat_beq c 46
    || nat_beq c 59

all_name_chars : Str → Bool
unfolding is_name_char
all_name_chars [] = true
all_name_chars (c ∷ s) = is_name_char c && all_name_chars s

-- `validate_channel_name`
unfoldable pub validate_channel_name : Str → ℕ → Bool
unfolding all_name_chars
validate_channel_name name max_len =
    if is_empty name || ltb max_len (length name) then false else all_name_chars name
