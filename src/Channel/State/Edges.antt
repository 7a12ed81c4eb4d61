-- ===== src/Channel/State/Edges.antt =====
-- src/channel/state.rs: what `add` and `remove` report, and the histories of a channel.
use pylon.Prelude.{
  ◌≡◌, refl, ◌↔◌, Bool, true, false, Option, none, some, List, [], ◌∷◌, arith, Eq, ◌==◌, list_eq,
  nat_eq, if◌then◌else◌, first, is_empty, ap, ◌∙◌, sym, inl, inr, contains, Option-cases,
}
use pylon.Maps.Assoc.{
  lookup, modify, remove as map_remove, contains_key, contains_key-lookup, lookup-remove,
}
use pylon.Maps.BTree.{bytes_ord}
use pylon.Protocol.SocketId.{Str, SocketId, socket_id_eq, socket_id_beq_iff}
use pylon.Protocol.Event.{Wire}
use pylon.Channel.Types.{PresenceMember, Subscriber, PresenceJoin, ChannelState, ConnectionHandle}
use pylon.Channel.Users.{encode_roster, oldest_of, drop_conn}
use pylon.Channel.State.{
  add, remove, add_member, cached_roster_frame, remove_found, remove_member, leave,
}
use pylon.Channel.State.Index.{Subscribers, joined_as, conns_of, oldest_of-conns, drop-Indexes}
use pylon.Channel.State.Valid.{IsValid}
use pylon.Channel.State.Leave.{remove-IsValid}
use pylon.Channel.State.Push.{pushed-is_first}
use pylon.Channel.State.Join.{lookup-remove_state, joined_frame, joined_frame_lem}

nothing_contained {ℓ} :
    {A : Type ℓ} ⦃e : Eq A⦄ (xs : List A) → (is_empty xs ≡ true) ↔ ((a : A) → contains xs a ≡ false)
nothing_contained [] = (λ h a. refl, λ h. refl)
nothing_contained ⦃e⦄ (x ∷ xs) = (λ h a. cc, λ h. ground (arith, h x, e.same_iff x x))

some_contained {ℓ} :
    {A : Type ℓ} ⦃e : Eq A⦄ (xs : List A) → is_empty xs ≡ false → (a : A) × (contains xs a ≡ true)
some_contained [] h = absurd (cc)
some_contained ⦃e⦄ (x ∷ xs) h = (x, ground (arith, e.same_iff x x))

is_none {ℓ} : {A : Type ℓ} → Option A → Bool
is_none none = true
is_none (some a) = false

is_none-first {ℓ} : {A : Type ℓ} (xs : List A) → is_none (first xs) ≡ is_empty xs
unfolding is_none
is_none-first [] = refl
is_none-first (x ∷ xs) = refl

module _ {Value Mailbox : Type 0} where
  -- No socket but `sid` has joined as the user.
  abbrev pub NoOther : SocketId → Str → ChannelState Value Mailbox → Type 0
  NoOther sid id s =
      (c : SocketId) → (sid == c) ≡ false → joined_as id (lookup c s.subscribers) ≡ false

  alone :
      (sid : SocketId) (id : Str) (s : ChannelState Value Mailbox)
      (subs : Subscribers Value Mailbox) (cs : List SocketId)
      → ((c : SocketId) → lookup c subs ≡ (if sid == c then none else lookup c s.subscribers))
      → ((c : SocketId) → contains cs c ≡ joined_as id (lookup c subs))
      → (is_empty cs ≡ true) ↔ NoOther sid id s
  alone sid id s subs cs gone index = (
    λ h c n. ground (arith, gone c, index c, (nothing_contained cs).0 h c),
    λ h. (nothing_contained cs).1 (λ c. ground (arith, gone c, index c, h c)),
  )

module _ {Value Mailbox : Type 0} (w : Wire Value) (channel : Str) where
  -- A presence join is reported with `first_for_user` exactly when no other socket of the channel
  -- joined as that user, and with the frame that a fresh encoding of the new roster gives.
  pub add_announces :
      (handle : ConnectionHandle Mailbox) (m : PresenceMember Value)
      (s : ChannelState Value Mailbox)
      → IsValid w channel s
      → (j : PresenceJoin Value) × ((add w channel handle (some m) s).0 ≡ some j)
        × ((j.first_for_user ≡ true) ↔ NoOther handle.socket_id m.user_id s)
        × (j.roster_frame ≡ encode_roster w channel (add w channel handle (some m) s).1.users)
        × (j.member ≡ m)
  unfolding add add_member cached_roster_frame joined_frame
  add_announces handle m s v =
      let t = (remove w handle.socket_id s).1 in
      let vt = remove-IsValid w channel handle.socket_id s v in
      let free : lookup handle.socket_id t.subscribers ≡ none = ground (
        arith,
        lookup-remove_state w handle.socket_id handle.socket_id s,
        socket_id_beq_iff handle.socket_id handle.socket_id,
      ) in
      let single =
        alone handle.socket_id m.user_id s t.subscribers (conns_of m.user_id t.users)
          (λ c. lookup-remove_state w handle.socket_id c s) (vt.indexes m.user_id) in
      let first = pushed-is_first handle.socket_id m t.users in
      (
        _,
        refl,
        (λ h. single.0 (sym first ∙ h), λ h. first ∙ single.1 h),
        joined_frame_lem w channel handle t vt free m,
        refl,
      )

  -- The users of the roster are exactly the users of the subscribers.
  pub roster_live :
      (id : Str) (s : ChannelState Value Mailbox)
      → IsValid w channel s
      → (contains_key id s.users ≡ true)
        ↔ ((c : SocketId) × (joined_as id (lookup c s.subscribers) ≡ true))
  roster_live id s v = (
    λ h. elim (Option-cases (lookup id s.users)) [
      | inl e ↦ absurd (ground (arith, contains_key-lookup id s.users))
      | inr (u, e) ↦
          let (c, held) = some_contained u.conns (v.nonempty id u e) in
          (c, ground (arith, v.indexes id c))
    ],
    λ (c, h). ground (arith, v.indexes id c, contains_key-lookup id s.users),
  )

  leave_report :
      (m : PresenceMember Value) (o : Option SocketId) (s : ChannelState Value Mailbox)
      → (leave w m o s).0 ≡ some (record { last_for_user = is_none o; user_id = m.user_id })
  unfolding leave is_none
  leave_report m none s = refl
  leave_report m (some o) s = refl

  -- A presence leave is reported with the user of the socket, and with `last_for_user` exactly when
  -- no other socket of the channel joined as that user.
  pub remove_announces :
      (sid : SocketId) (sub : Subscriber Value Mailbox) (m : PresenceMember Value)
      (s : ChannelState Value Mailbox)
      → IsValid w channel s
      → lookup sid s.subscribers ≡ some sub
      → sub.member ≡ some m
      → (last : Bool) × ((remove w sid s).0
          ≡ some (record { last_for_user = last; user_id = m.user_id }))
        × ((last ≡ true) ↔ NoOther sid m.user_id s)
  unfolding remove
  remove_announces sid sub m s v e n =
      let users = modify m.user_id (drop_conn sid) s.users in
      let cs = conns_of m.user_id users in
      let single =
        alone sid m.user_id s (map_remove sid s.subscribers) cs
          (λ c. lookup-remove sid c s.subscribers)
          (drop-Indexes sid sub m s.subscribers s.users v.indexes e n m.user_id) in
      let none_left = ap is_none (oldest_of-conns m.user_id users) ∙ is_none-first cs in
      (
        is_none (oldest_of (lookup m.user_id users)),
        rw (e, remove_found, n, remove_member) (leave_report m _ _),
        (λ h. single.0 (sym none_left ∙ h), λ h. none_left ∙ single.1 h),
      )
