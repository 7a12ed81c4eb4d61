-- ===== src/Channel/Kind/Classes.antt =====
-- src/channel/kind.rs: which names need authorisation, and what a name of each kind looks like.
use pylon.Prelude.{
  ℕ, ◌≡◌, refl, true, false, contains, is_empty, nat_eq, ◌||◌, none, some, [], ◌∷◌, ◌++◌, arith,
  Option-cases, Bool-cases, nat_beq, nat_beq_iff, subst, Bool, ◌&&◌, sym, ◌∙◌, inl, inr,
}
use pylon.Protocol.SocketId.{Str}
use pylon.Channel.Registry.{starts_with}
use pylon.Channel.Kind.{
  AuthKind, public, private, presence, private_encrypted, private_prefix, encrypted_part,
  presence_prefix, cache_prefix, server_to_user_prefix, requires_auth, strip_prefix, kind_and_rest,
  channel_info_of, validate_channel_name, all_name_chars, is_name_char, is_alphanumeric,
}

strip_prefix-some : (s p r : Str) → strip_prefix s p ≡ some r → starts_with s p ≡ true
unfolding strip_prefix starts_with
strip_prefix-some s [] r h = refl
strip_prefix-some [] (q ∷ p) r h = absurd (cc)
strip_prefix-some (c ∷ s) (q ∷ p) r h = ground (arith, strip_prefix-some s p r)

strip_prefix-none : (s p : Str) → strip_prefix s p ≡ none → starts_with s p ≡ false
unfolding strip_prefix starts_with
strip_prefix-none s [] h = absurd (cc)
strip_prefix-none [] (q ∷ p) h = refl
strip_prefix-none (c ∷ s) (q ∷ p) h = ground (arith, strip_prefix-none s p)

starts_with-append : (s p q : Str) → starts_with s (p ++ q) ≡ true → starts_with s p ≡ true
unfolding starts_with
starts_with-append s [] q h = refl
starts_with-append [] (x ∷ p) q h = h
starts_with-append (c ∷ s) (x ∷ p) q h = ground (arith, starts_with-append s p q)

-- A channel needs authorisation exactly if its name starts with "private-" or "presence-".
pub channel_info_of-requires_auth :
    (name : Str)
    → requires_auth (channel_info_of name).auth
      ≡ (starts_with name private_prefix || starts_with name presence_prefix)
unfolding channel_info_of kind_and_rest requires_auth
channel_info_of-requires_auth name =
    elim (Option-cases (strip_prefix name (private_prefix ++ encrypted_part))) [
      | inr (r, e) ↦ rw e (
          ground (
            arith,
            starts_with-append name private_prefix encrypted_part
                (strip_prefix-some name (private_prefix ++ encrypted_part) r e),
          ))
      | inl n ↦ elim (Option-cases (strip_prefix name presence_prefix)) [
        | inr (r, e) ↦ rw (n, e) (ground (arith, strip_prefix-some name presence_prefix r e))
        | inl m ↦ elim (Option-cases (strip_prefix name private_prefix)) [
          | inr (r, e) ↦ rw (n, m, e) (ground (arith, strip_prefix-some name private_prefix r e))
          | inl l ↦
              rw (n, m, l)
                (ground (
                  arith,
                  strip_prefix-none name presence_prefix m,
                  strip_prefix-none name private_prefix l,
                ))
        ]
      ]
    ]

-- No name in the namespace of server-to-user messages is a valid channel name.
pub server_to_user-validate :
    (rest : Str) (max_len : ℕ)
    → validate_channel_name (server_to_user_prefix ++ rest) max_len ≡ false
unfolding validate_channel_name all_name_chars is_name_char is_alphanumeric
server_to_user-validate rest max_len = ground arith

colon_fails : is_name_char 58 ≡ false
unfolding is_name_char is_alphanumeric
colon_fails = refl

name_char-colon : (c : ℕ) → is_name_char c ≡ true → nat_beq c 58 ≡ false
name_char-colon c h = elim (Bool-cases (nat_beq c 58)) [
  | inl e ↦
      let f : c ≡ 58 = (nat_beq_iff c 58).0 e in
      let g : is_name_char 58 ≡ true = subst (λ x. is_name_char x ≡ true) f h in
      absurd (ground (arith, colon_fails))
  | inr e ↦ e
]

all_name_chars_cons :
    (c : ℕ) (name : Str) → all_name_chars (c ∷ name) ≡ (is_name_char c && all_name_chars name)
unfolding all_name_chars
all_name_chars_cons c name = refl

both_colon :
    (c : ℕ) (name : Str) (b : Bool)
    → (b ≡ true → contains name 58 ≡ false)
    → (is_name_char c && b) ≡ true
    → contains (c ∷ name) 58 ≡ false
both_colon c name b rest h = ground (arith, name_char-colon c, rest)

all_name_chars-colon : (name : Str) → all_name_chars name ≡ true → contains name 58 ≡ false
all_name_chars-colon [] h = refl
all_name_chars-colon (c ∷ name) h =
    both_colon c name (all_name_chars name) (all_name_chars-colon name)
      (sym (all_name_chars_cons c name) ∙ h)

-- A valid name is not empty and has no colon.
pub validate-colon :
    (name : Str) (max_len : ℕ)
    → validate_channel_name name max_len ≡ true
    → (is_empty name ≡ false) × (contains name 58 ≡ false)
unfolding validate_channel_name
validate-colon name max_len h = (ground arith, ground (arith, all_name_chars-colon name))

-- What names of a kind start with.
unfoldable pub prefix_of : AuthKind → Str
prefix_of public = []
prefix_of private = private_prefix
prefix_of presence = presence_prefix
prefix_of private_encrypted = private_prefix ++ encrypted_part

-- A name that is the prefix of a kind, "cache-" and anything is classified as a cache channel of that
-- kind.
pub channel_info_of-prefix_of :
    (auth : AuthKind) (rest : Str)
    → channel_info_of (prefix_of auth ++ cache_prefix ++ rest)
      ≡ record { auth = auth; cache = true }
unfolding channel_info_of kind_and_rest strip_prefix starts_with prefix_of
channel_info_of-prefix_of public rest = refl
channel_info_of-prefix_of private rest = refl
channel_info_of-prefix_of presence rest = refl
channel_info_of-prefix_of private_encrypted rest = refl
