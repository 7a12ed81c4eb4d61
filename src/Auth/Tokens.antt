-- ===== src/Auth/Tokens.antt =====
-- src/auth: which tokens verify, and when two signed messages of sockets are the same.
use pylon.Prelude.{
  ℕ, ◌≡◌, ◌≢◌, refl, sym, ap, ◌∙◌, ◌↔◌, true, false, Option, none, some, [], ◌∷◌, ◌++◌, arith,
  Option-cases, inl, inr, nat_eq, list_eq, list_beq_iff, contains, drop, get_elem?, is_empty,
}
use pylon.Prelude.Results.{ok}
use pylon.Protocol.SocketId.{Str}
use pylon.Protocol.Text.{ascii}
use pylon.Channel.Kind.{validate_channel_name}
use pylon.Channel.Kind.Classes.{validate-colon}
use pylon.Auth.{
  split_once, constant_time_eq, check_token, channel_signature, user_signature, verify_channel,
  verify_user, channel_message, user_message,
}

split_once_first : (k s : Str) → contains k 58 ≡ false → split_once (k ++ 58 ∷ s) ≡ some (k, s)
unfolding split_once
split_once_first [] s h = refl
split_once_first (c ∷ k) s h = ground (arith, split_once_first k s)

split_once_joins :
    (t k s : Str) → split_once t ≡ some (k, s) → (t ≡ k ++ 58 ∷ s) × (contains k 58 ≡ false)
unfolding split_once
split_once_joins [] k s h = absurd (ground arith)
split_once_joins (c ∷ t) k s h = elim (Option-cases (split_once t)) [
  | inl e ↦ (ground arith, ground arith)
  | inr ((k', s'), e) ↦ let (f, g) = split_once_joins t k' s' e in (ground arith, ground arith)
]

constant_time_eq_iff : (a b : Str) → (constant_time_eq a b ≡ true) ↔ (a ≡ b)
unfolding constant_time_eq
constant_time_eq_iff a b = ground (arith, list_beq_iff a b)

check_token_iff :
    (app_key expected t : Str)
    → contains app_key 58 ≡ false
    → (check_token app_key expected (split_once t) ≡ ok tt) ↔ (t ≡ app_key ++ 58 ∷ expected)
unfolding check_token
check_token_iff app_key expected t h = (
  λ e. elim (Option-cases (split_once t)) [
    | inl f ↦ absurd (ground arith)
    | inr ((k, s), f) ↦
        let (g, _) = split_once_joins t k s f in
        ground (arith, list_beq_iff k app_key, constant_time_eq_iff s expected)
  ],
  λ e.
      rw (e, split_once_first app_key expected h)
        (ground (arith, list_beq_iff app_key app_key, constant_time_eq_iff expected expected)),
)

module _ (hmac : Str → Str → Str) where
  -- For an app key without a colon, a token verifies exactly if it is the key, a colon and the signature:
  -- that of the socket, the channel and the channel data for a channel, and that of the socket and the
  -- user data for a signin.
  pub verify_channel-verify_user :
      (app_key secret socket_id channel : Str) (channel_data : Option Str) (user_data token : Str)
      → contains app_key 58 ≡ false
      → ((verify_channel hmac app_key secret socket_id channel channel_data token ≡ ok tt) ↔ (
          token
          ≡ app_key ++ (ascii ":" ++ channel_signature hmac secret socket_id channel channel_data)))
        × ((verify_user hmac app_key secret socket_id user_data token ≡ ok tt)
            ↔ (token ≡ app_key ++ (ascii ":" ++ user_signature hmac secret socket_id user_data)))
  unfolding verify_channel verify_user ascii
  verify_channel-verify_user app_key secret socket_id channel channel_data user_data token h =
      (check_token_iff app_key _ token h, check_token_iff app_key _ token h)

-- A text without a colon before the first colon is known from the whole.
colon_splits :
    (a b x y : Str)
    → contains a 58 ≡ false
    → contains b 58 ≡ false
    → a ++ 58 ∷ x ≡ b ++ 58 ∷ y
    → (a ≡ b) × (x ≡ y)
colon_splits a b x y ha hb e =
    let f : ◌≡◌ {A = Option (Str × Str)} (some (a, x)) (some (b, y)) =
      sym (split_once_first a x ha) ∙ ap split_once e ∙ split_once_first b y hb in
    (ground arith, ground arith)

no_colon-contains : (a x : Str) → contains (a ++ 58 ∷ x) 58 ≡ true
no_colon-contains [] x = refl
no_colon-contains (c ∷ a) x = ground (arith, no_colon-contains a x)

-- What follows the socket in a channel's message.
data_apart :
    (a b : Str) (u v : Option Str)
    → contains a 58 ≡ false
    → contains b 58 ≡ false
    → channel_message [] a u ≡ channel_message [] b v
    → (a ≡ b) × (u ≡ v)
unfolding channel_message ascii
data_apart a b none none ha hb e = (ap (drop 1) e, refl)
data_apart a b none (some v) ha hb e =
    let f : a ≡ b ++ 58 ∷ v = ap (drop 1) e in absurd (ground (arith, no_colon-contains b v))
data_apart a b (some u) none ha hb e =
    let f : a ++ 58 ∷ u ≡ b = ap (drop 1) e in absurd (ground (arith, no_colon-contains a u))
data_apart a b (some u) (some v) ha hb e =
    let (f, g) = colon_splits a b u v ha hb (ap (drop 1) e) in (f, ap some g)

user_apart :
    (a user_data : Str) (u : Option Str)
    → is_empty a ≡ false
    → contains a 58 ≡ false
    → channel_message [] a u ≡ user_message [] user_data
    → true ≡ false
unfolding channel_message user_message ascii
user_apart [] user_data u n h e = absurd (ground arith)
user_apart (c ∷ a) user_data none n h e = let f = ap (λ l. get_elem? l 1) e in ground arith
user_apart (c ∷ a) user_data (some u) n h e = let f = ap (λ l. get_elem? l 1) e in ground arith

-- A channel's message starts with the socket and a colon.
channel_message-colon :
    (s a : Str) (u : Option Str) → channel_message s a u ≡ s ++ 58 ∷ drop 1 (channel_message [] a u)
unfolding channel_message ascii
channel_message-colon s a none = refl
channel_message-colon s a (some u) = refl

channel_message-drop :
    (a b : Str) (u v : Option Str)
    → drop 1 (channel_message [] a u) ≡ drop 1 (channel_message [] b v)
    → channel_message [] a u ≡ channel_message [] b v
unfolding channel_message ascii
channel_message-drop a b none none e = ap (λ l. 58 ∷ l) e
channel_message-drop a b none (some v) e = ap (λ l. 58 ∷ l) e
channel_message-drop a b (some u) none e = ap (λ l. 58 ∷ l) e
channel_message-drop a b (some u) (some v) e = ap (λ l. 58 ∷ l) e

user_message-colon : (s d : Str) → user_message s d ≡ s ++ 58 ∷ drop 1 (user_message [] d)
unfolding user_message ascii
user_message-colon s d = refl

user_drop :
    (a d : Str) (u : Option Str)
    → drop 1 (channel_message [] a u) ≡ drop 1 (user_message [] d)
    → channel_message [] a u ≡ user_message [] d
unfolding channel_message user_message ascii
user_drop a d none e = ap (λ l. 58 ∷ l) e
user_drop a d (some u) e = ap (λ l. 58 ∷ l) e

user_message-data : (d e : Str) → drop 1 (user_message [] d) ≡ drop 1 (user_message [] e) → d ≡ e
unfolding user_message ascii
user_message-data d e q = ap (drop 7) q

-- For sockets whose texts have no colon and valid channel names, the signed messages of two channel
-- subscriptions are equal only for the same socket, the same channel and the same channel data; those
-- of two signins only for the same socket and the same user data; and no channel's message is that of a
-- signin.
pub channel_message-user_message :
    (max_len : ℕ) (s t a b : Str) (u v : Option Str) (d e : Str)
    → contains s 58 ≡ false
    → contains t 58 ≡ false
    → validate_channel_name a max_len ≡ true
    → validate_channel_name b max_len ≡ true
    → (channel_message s a u ≡ channel_message t b v → (s ≡ t) × (a ≡ b) × (u ≡ v))
      × (user_message s d ≡ user_message t e → (s ≡ t) × (d ≡ e))
      × (channel_message s a u ≢ user_message t d)
channel_message-user_message max_len s t a b u v d e hs ht ha hb =
    let (na, ca) = validate-colon a max_len ha in
    let (nb, cb) = validate-colon b max_len hb in
    (
      λ q.
          let (same, rest) =
            colon_splits s t _ _ hs ht
              (sym (channel_message-colon s a u) ∙ q ∙ channel_message-colon t b v) in
          let (f, g) = data_apart a b u v ca cb (channel_message-drop a b u v rest) in (same, f, g),
      λ q.
          let (same, rest) =
            colon_splits s t _ _ hs ht
              (sym (user_message-colon s d) ∙ q ∙ user_message-colon t e) in
          (same, user_message-data d e rest),
      λ q.
          let (same, rest) =
            colon_splits s t _ _ hs ht
              (sym (channel_message-colon s a u) ∙ q ∙ user_message-colon t d) in
          let f = user_apart a d u na ca (user_drop a d u rest) in absurd (ground arith),
    )
