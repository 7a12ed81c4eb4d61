-- ===== src/Channel/State/Count.antt =====
-- src/channel/state.rs: the number of subscribers after `add`.
use pylon.Prelude.{
  ◌≡◌, refl, ◌∙◌, ap, true, false, Option, none, some, List, [], ◌∷◌, nat_beq, nat_eq, list_eq,
  length, arith, is_empty, beq_refl, Eq,
}
use pylon.Maps.Assoc.{lookup, insert}
use pylon.Protocol.SocketId.{Str, SocketId, socket_id_eq}
use pylon.Protocol.Event.{Wire}
use pylon.Channel.Types.{PresenceMember, ConnectionHandle, ChannelState}
use pylon.Channel.State.{
  add, remove, remove_found, add_member, cached_roster_frame, subscription_count, state_is_empty,
}
use pylon.Channel.State.History.{lookup-add}

occupied_of_lookup {ℓ κ} :
    {K : Type ℓ} {V : Type κ} ⦃e : Eq K⦄ (k : K) (m : List (K × V)) {v : V}
    → lookup k m ≡ some v
    → is_empty m ≡ false
occupied_of_lookup k [] h = cc
occupied_of_lookup k (x ∷ m) h = refl

pub lookup_of_empty {ℓ κ} :
    {K : Type ℓ} {V : Type κ} ⦃e : Eq K⦄ (k : K) (m : List (K × V))
    → is_empty m ≡ true
    → lookup k m ≡ none
lookup_of_empty k [] h = refl
lookup_of_empty k (x ∷ m) h = cc

length-insert_empty {ℓ κ} :
    {K : Type ℓ} {V : Type κ} ⦃e : Eq K⦄ (k : K) (v : V) (m : List (K × V))
    → is_empty m ≡ true
    → length (insert k v m) ≡ 1
length-insert_empty k v [] h = omega arith
length-insert_empty k v (x ∷ m) h = cc

pub length_zero {ℓ} : {A : Type ℓ} (l : List A) → nat_beq (length l) 0 ≡ is_empty l
length_zero [] = refl
length_zero (x ∷ l) = ground arith

module _ {Value Mailbox : Type 0} (w : Wire Value) where
  add_member-subscribers :
      (channel : Str) (handle : ConnectionHandle Mailbox) (o : Option (PresenceMember Value))
      (s : ChannelState Value Mailbox)
      → (add_member w channel handle o s).1.subscribers
        ≡ insert handle.socket_id (record { handle = handle; member = o }) s.subscribers
  unfolding add_member cached_roster_frame
  add_member-subscribers channel handle none s = refl
  add_member-subscribers channel handle (some m) s = refl

  -- The first subscriber of a channel makes its count 1.
  pub add-count_one :
      (channel : Str) (handle : ConnectionHandle Mailbox) (o : Option (PresenceMember Value))
      (s : ChannelState Value Mailbox)
      → state_is_empty s ≡ true
      → subscription_count (add w channel handle o s).1 ≡ 1
  unfolding add remove state_is_empty subscription_count
  add-count_one channel handle o s h =
      rw (lookup_of_empty handle.socket_id s.subscribers h, remove_found)
        (ap length (add_member-subscribers channel handle o s)
          ∙ length-insert_empty handle.socket_id _ s.subscribers h)

  pub add-occupied :
      (channel : Str) (handle : ConnectionHandle Mailbox) (o : Option (PresenceMember Value))
      (s : ChannelState Value Mailbox)
      → state_is_empty (add w channel handle o s).1 ≡ false
  unfolding state_is_empty
  add-occupied channel handle o s =
      let joined : lookup handle.socket_id (add w channel handle o s).1.subscribers
          ≡ some (record { handle = handle; member = o }) =
        lookup-add w channel handle o handle.socket_id s ∙ rw (beq_refl handle.socket_id) in
      occupied_of_lookup handle.socket_id (add w channel handle o s).1.subscribers joined

  pub remove_of_empty :
      (sid : SocketId) (s : ChannelState Value Mailbox)
      → state_is_empty s ≡ true
      → state_is_empty (remove w sid s).1 ≡ true
  unfolding remove state_is_empty
  remove_of_empty sid s h = rw (lookup_of_empty sid s.subscribers h, remove_found) h
