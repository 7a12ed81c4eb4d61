-- ===== src/Channel/State/Frame.antt =====
-- src/channel/state.rs: the roster frame depends on the users and what they present, and not on the
-- connections behind an entry.
use pylon.Prelude.{
  ◌≡◌, refl, false, true, some, List, [], ◌∷◌, ◌++◌, arith, list_eq, nat_eq, length, first,
  is_empty, contains, Eq,
}
use pylon.Maps.Assoc.{modify, keys-modify}
use pylon.Protocol.SocketId.{Str, SocketId}
use pylon.Protocol.Event.{Wire}
use pylon.Channel.Types.{PresenceUser}
use pylon.Channel.Users.{Users, drop_conn, push_conn, encode_roster, info_entries}

pub first_nonempty {ℓ} :
    {A : Type ℓ} (xs : List A) {a : A} → first xs ≡ some a → is_empty xs ≡ false
first_nonempty [] h = cc
first_nonempty (x ∷ xs) h = refl

pub first-append {ℓ} :
    {A : Type ℓ} (xs ys : List A) → is_empty xs ≡ false → first (xs ++ ys) ≡ first xs
first-append [] ys h = cc
first-append (x ∷ xs) ys h = refl

pub is_empty-append {ℓ} : {A : Type ℓ} (xs : List A) (a : A) → is_empty (xs ++ a ∷ []) ≡ false
is_empty-append [] a = refl
is_empty-append (x ∷ xs) a = refl

pub first-contains {ℓ} :
    {A : Type ℓ} ⦃e : Eq A⦄ (xs : List A) (a : A) → first xs ≡ some a → contains xs a ≡ true
first-contains [] a h = cc
first-contains ⦃e⦄ (x ∷ xs) a h = ground (arith, e.same_iff x a)

module _ {Value : Type 0} where
  pub drop_conn_info :
      (sid : SocketId) (u : PresenceUser Value) → (drop_conn sid u).user_info ≡ u.user_info
  unfolding drop_conn
  drop_conn_info sid u = refl

  pub push_conn_info :
      (sid : SocketId) (u : PresenceUser Value) → (push_conn sid u).user_info ≡ u.user_info
  unfolding push_conn
  push_conn_info sid u = refl

  module _ (k : Str) (f : PresenceUser Value → PresenceUser Value) where
    length-modify : (users : Users Value) → length (modify k f users) ≡ length users
    length-modify [] = refl
    length-modify ((j, u) ∷ us) = ground (arith, length-modify us)

    info_entries-modify :
        (users : Users Value)
        → ((u : PresenceUser Value) → (f u).user_info ≡ u.user_info)
        → info_entries (modify k f users) ≡ info_entries users
    unfolding info_entries
    info_entries-modify [] h = refl
    info_entries-modify ((j, u) ∷ us) h = ground (arith, info_entries-modify us h, h u)

  pub encode_roster-modify :
      (w : Wire Value) (channel k : Str) (f : PresenceUser Value → PresenceUser Value)
      (users : Users Value)
      → ((u : PresenceUser Value) → (f u).user_info ≡ u.user_info)
      → encode_roster w channel (modify k f users) ≡ encode_roster w channel users
  unfolding encode_roster
  encode_roster-modify w channel k f users h =
      cc (info_entries-modify k f users h, length-modify k f users, keys-modify k f users)
