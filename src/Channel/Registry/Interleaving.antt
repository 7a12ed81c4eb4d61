-- ===== src/Channel/Registry/Interleaving.antt =====
-- src/channel/registry.rs: the atomic steps of any number of threads, in any order. The two halves of
-- an `unsubscribe` are steps of their own, so others may come between them.
use mathlib.Core.Option
use pylon.Prelude.{
  list_beq_iff, beq_refl, ◌≡◌, refl, ◌∙◌, true, Option, none, some, List, [], ◌∷◌, ◌==◌, ◌&&◌,
  nat_eq, list_eq, pair_eq, arith, Option-cases, inl, inr, if◌then◌else◌,
}
use pylon.Maps.Assoc.{lookup}
use pylon.Maps.Shards.{DashMap}
use pylon.Protocol.SocketId.{Str, SocketId, socket_id_eq}
use pylon.Protocol.Event.{Wire}
use pylon.Channel.Types.{PresenceMember, ConnectionHandle, ChannelState, Subscriber, default}
use pylon.Channel.State.{add, remove, state_is_empty}
use pylon.Channel.State.Count.{lookup_of_empty, remove_of_empty}
use pylon.Channel.State.Join.{lookup-remove_state}
use pylon.Channel.State.History.{lookup-add}
use pylon.Channel.Registry.{Key, subscribe, unsubscribe_guarded, leave_entry, prune}

pub data Action (Value Mailbox : Type 0) : Type 0 where
  subscribes :
      Str → Str → ConnectionHandle Mailbox → Option (PresenceMember Value) → Action Value Mailbox
  leaves : Str → Str → SocketId → Action Value Mailbox
  prunes : Str → Str → Action Value Mailbox

module _ {Value Mailbox : Type 0} where
  -- What the last action on a socket's subscription was; prunes count for nothing. The last action
  -- stands first in the list.
  abbrev pub last_action :
      Str → Str → SocketId → List (Action Value Mailbox) → Option (Subscriber Value Mailbox)
  last_action app channel c [] = none
  last_action app channel c (subscribes a n handle member ∷ rest) =
      if (a == app && n == channel) && handle.socket_id == c
      then some (record { handle = handle; member = member })
      else last_action app channel c rest
  last_action app channel c (leaves a n sid ∷ rest) =
      if (a == app && n == channel) && sid == c then none else last_action app channel c rest
  last_action app channel c (prunes a n ∷ rest) = last_action app channel c rest

  abbrev pub subscriber_in :
      SocketId → Option (ChannelState Value Mailbox) → Option (Subscriber Value Mailbox)
  subscriber_in c none = none
  subscriber_in c (some s) = lookup c s.subscribers

module _ {Value Mailbox : Type 0} (w : Wire Value)
    (d : DashMap Key (ChannelState Value Mailbox)) where
  open d use {Map, empty, get, put, delete, get-empty, get-put, get-delete}

  unfoldable pub run : List (Action Value Mailbox) → Map
  run [] = empty
  run (subscribes app channel handle member ∷ rest) =
      (subscribe w d (run rest) app channel handle member).1
  run (leaves app channel sid ∷ rest) = (unsubscribe_guarded w d (run rest) app channel sid).1
  run (prunes app channel ∷ rest) = prune w d (run rest) (app, channel)

  module _ (r : Map) (app channel a n : Str) (c : SocketId) where
    pub same_key : (a == app && n == channel) ≡ true → get r (a, n) ≡ get r (app, channel)
    same_key h =
        let p : a ≡ app = ground (arith, list_beq_iff a app) in
        let q : n ≡ channel = ground (arith, list_beq_iff n channel) in rw (p, q) refl

    pub after-put :
        (t : ChannelState Value Mailbox)
        → subscriber_in c (get (put r (a, n) t) (app, channel)) ≡ (
            if a == app && n == channel
            then lookup c t.subscribers
            else subscriber_in c (get r (app, channel)))
    after-put t = ground (arith, get-put r (a, n) (app, channel) t)

    or_default-lookup :
        (o : Option (ChannelState Value Mailbox))
        → lookup c (Option.get_or o default).subscribers ≡ subscriber_in c o
    or_default-lookup none = refl
    or_default-lookup (some s) = refl

    pub after-subscribe :
        (handle : ConnectionHandle Mailbox) (o : Option (PresenceMember Value))
        → subscriber_in c (get (subscribe w d r a n handle o).1 (app, channel)) ≡ (
            if (a == app && n == channel) && handle.socket_id == c
            then some (record { handle = handle; member = o })
            else subscriber_in c (get r (app, channel)))
    unfolding subscribe
    after-subscribe handle o =
        let s = Option.get_or (get r (a, n)) default in
        ground (
          arith,
          after-put (add w n handle o s).1,
          lookup-add w n handle o c s,
          or_default-lookup (get r (a, n)),
          same_key,
        )

    pub after-leave :
        (sid : SocketId)
        → subscriber_in c (get (unsubscribe_guarded w d r a n sid).1 (app, channel)) ≡ (
            if (a == app && n == channel) && sid == c
            then none
            else subscriber_in c (get r (app, channel)))
    unfolding unsubscribe_guarded leave_entry
    after-leave sid = elim (Option-cases (get r (a, n))) [
      | inl e ↦ ground (arith, same_key)
      | inr (s, e) ↦
          ground (arith, after-put (remove w sid s).1, lookup-remove_state w sid c s, same_key)
    ]

    pub after-prune :
        subscriber_in c (get (prune w d r (a, n)) (app, channel))
        ≡ subscriber_in c (get r (app, channel))
    unfolding prune state_is_empty
    after-prune = elim (Option-cases (get r (a, n))) [
      | inl e ↦ rw (e, prune) refl
      | inr (s, e) ↦
          rw (e, prune)
            (ground (
              arith,
              get-delete r (a, n) (app, channel),
              same_key,
              lookup_of_empty c s.subscribers,
            ))
    ]

  -- Whatever the threads do between the two halves of an `unsubscribe`, no subscription is lost or
  -- kept: after any sequence of atomic steps a socket is subscribed exactly as its own last action
  -- on that channel says.
  pub run-last_action :
      (actions : List (Action Value Mailbox)) (app channel : Str) (c : SocketId)
      → subscriber_in c (get (run actions) (app, channel)) ≡ last_action app channel c actions
  unfolding run
  run-last_action [] app channel c = rw (get-empty (app, channel)) refl
  run-last_action (subscribes a n handle member ∷ rest) app channel c = ground (
    arith,
    after-subscribe (run rest) app channel a n c handle member,
    run-last_action rest app channel c,
  )
  run-last_action (leaves a n sid ∷ rest) app channel c =
      ground
        (arith, after-leave (run rest) app channel a n c sid, run-last_action rest app channel c)
  run-last_action (prunes a n ∷ rest) app channel c =
      after-prune (run rest) app channel a n c ∙ run-last_action rest app channel c

  -- When the first half of an `unsubscribe` empties a channel, and the first half of another one, by
  -- any socket, comes before the prune, then both report `vacated`.
  pub vacated_twice :
      (r : Map) (app channel : Str) (sid sid' : SocketId) (s : ChannelState Value Mailbox)
      → get r (app, channel) ≡ some s
      → state_is_empty (remove w sid s).1 ≡ true
      → let (out, r') = unsubscribe_guarded w d r app channel sid in
        (out.vacated ≡ true) × ((unsubscribe_guarded w d r' app channel sid').0.vacated ≡ true)
  unfolding unsubscribe_guarded leave_entry
  vacated_twice r app channel sid sid' s e h =
      let t = (remove w sid s).1 in
      let there : get (put r (app, channel) t) (app, channel) ≡ some t =
        ground (arith, get-put r (app, channel) (app, channel) t, beq_refl app, beq_refl channel) in
      rw (e, leave_entry, there, leave_entry) (h, remove_of_empty w sid' t h)
