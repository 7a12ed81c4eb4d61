-- ===== src/Adapter/Implements.antt =====
-- src/adapter/local.rs against the interface: the local node's subscriptions are those of its channels,
-- and its signed-in users those of its user registry.
use pylon.Prelude.{
  ◌≡◌, refl, ◌∙◌, ap, Bool, true, false, not, ◌&&◌, ◌||◌, Option, none, some, List, arith,
  Option-cases, Bool-cases, inl, inr, nat_eq, list_eq, pair_eq,
}
use pylon.Maps.Shards.{DashMap}
use pylon.Protocol.SocketId.{Str, SocketId, socket_id_eq}
use pylon.Protocol.Event.{Wire, ServerEvent}
use pylon.Channel.Types.{PresenceMember, ConnectionHandle, ChannelState, Subscriber}
use pylon.Channel.State.{cached_roster_frame, user_count}
use pylon.Channel.Fanout.{Send, fanout}
use pylon.Channel.Registry as Registry
use pylon.Channel.Registry.{Key}
use pylon.Channel.Registry.Interleaving.{
  subscriber_in, after-subscribe, after-leave, after-prune, after-put, same_key,
}
use pylon.Adapter.{Membership, same_subscription}
use pylon.Adapter.SignedIn.{signed_at, signed-signin, signed-signout, signed-watch, signed-unwatch}
use pylon.Adapter.Local.{Stores, LocalAdapter, local, broadcast, resend_presence_ack}

module _ {Value Mailbox : Type 0} where
  unfoldable pub is_some : Option (Subscriber Value Mailbox) → Bool
  is_some none = false
  is_some (some s) = true

module _ {Value Mailbox : Type 0} (w : Wire Value)
    (d : DashMap Key (ChannelState Value Mailbox)) where
  -- Is the socket among the channel's subscribers?
  unfoldable pub joined_in : d.Map → Str → Str → SocketId → Bool
  unfolding is_some
  joined_in r app channel c = is_some (subscriber_in c (d.get r (app, channel)))

  module _ (r : d.Map) (a n app channel : Str) (c : SocketId) where
    pub joined-subscribe :
        (h : ConnectionHandle Mailbox) (o : Option (PresenceMember Value))
        → joined_in (Registry.subscribe w d r a n h o).1 app channel c
          ≡ (same_subscription a n h.socket_id app channel c || joined_in r app channel c)
    unfolding joined_in is_some
    joined-subscribe h o = rw (after-subscribe w d r app channel a n c h o) (ground arith)

    pub joined-unsubscribe :
        (sid : SocketId)
        → joined_in (Registry.unsubscribe w d r a n sid).1 app channel c
          ≡ (not (same_subscription a n sid app channel c) && joined_in r app channel c)
    unfolding joined_in is_some Registry.unsubscribe
    joined-unsubscribe sid =
        let (out, r') = Registry.unsubscribe_guarded w d r a n sid in
        elim (Bool-cases out.vacated) [
          | inl e ↦ rw e (
              rw (after-prune w d r' app channel a n c)
                (rw (after-leave w d r app channel a n c sid) (ground arith)))
          | inr e ↦ rw e (rw (after-leave w d r app channel a n c sid) (ground arith))
        ]

    -- An entry whose subscribers stay.
    joined-put :
        (s t : ChannelState Value Mailbox)
        → d.get r (a, n) ≡ some s
        → t.subscribers ≡ s.subscribers
        → joined_in (d.put r (a, n) t) app channel c ≡ joined_in r app channel c
    unfolding joined_in
    joined-put s t e f =
        ap is_some
          (ground (arith, after-put w d r app channel a n c t, same_key w d r app channel a n c))

    joined-broadcast :
        (spread : List (List (Send Value Mailbox)) → List (Send Value Mailbox))
        (event : ServerEvent Value) (except : Option SocketId)
        → joined_in (Registry.broadcast w d spread r a n event except).1 app channel c
          ≡ joined_in r app channel c
    unfolding Registry.broadcast Registry.broadcast_entry fanout
    joined-broadcast spread event except = elim (Option-cases (d.get r (a, n))) [
      | inl e ↦ rw e refl
      | inr (s, e) ↦ rw e (joined-put s (fanout w event except s).1 e refl)
    ]

    joined-roster_frame :
        joined_in (Registry.roster_frame w d r a n).1 app channel c ≡ joined_in r app channel c
    unfolding Registry.roster_frame Registry.frame_entry cached_roster_frame
    joined-roster_frame = elim (Option-cases (d.get r (a, n))) [
      | inl e ↦ rw e refl
      | inr (s, e) ↦ elim (Option-cases (user_count s)) [
        | inl f ↦ rw e (ap (λ y. joined_in y app channel c) (ground arith))
        | inr (k, f) ↦ rw e (
            ap (λ y. joined_in y app channel c) (ground arith)
            ∙ joined-put s (cached_roster_frame w n s).1 e refl)
      ]
    ]

module _ {Value Mailbox : Type 0} (x : Stores Value Mailbox) where
  pub local-broadcast :
      (n : LocalAdapter x) (a name : Str) (event : ServerEvent Value) (except : Option SocketId)
      (app channel : Str) (c : SocketId)
      → joined_in x.wire x.channels (broadcast x n a name event except).1.registry app channel c
        ≡ joined_in x.wire x.channels n.registry app channel c
  unfolding broadcast
  local-broadcast n a name event except app channel c = elim (Option-cases n.bcast_sink) [
    | inl e ↦
        ap (λ y. joined_in x.wire x.channels y app channel c) (ground arith)
        ∙ (joined-broadcast x.wire x.channels n.registry a name app channel c x.spread event except)
    | inr (sink, e) ↦ ap (λ y. joined_in x.wire x.channels y app channel c) (ground arith)
  ]

  pub local-resend :
      (n : LocalAdapter x) (a name : Str) (mailbox : Mailbox) (app channel : Str) (c : SocketId)
      → joined_in x.wire x.channels
          (resend_presence_ack x n a name mailbox).1.registry
          app
          channel
          c
        ≡ joined_in x.wire x.channels n.registry app channel c
  unfolding resend_presence_ack
  local-resend n a name mailbox app channel c =
      joined-roster_frame x.wire x.channels n.registry a name app channel c

  pub local-broadcast-users :
      (n : LocalAdapter x) (a name : Str) (event : ServerEvent Value) (except : Option SocketId)
      → (broadcast x n a name event except).1.users ≡ n.users
  unfolding broadcast
  local-broadcast-users n a name event except = elim (Option-cases n.bcast_sink) [
    | inl e ↦ rw e refl
    | inr (sink, e) ↦ rw e refl
  ]

  pub local-resend-users :
      (n : LocalAdapter x) (a name : Str) (mailbox : Mailbox)
      → (resend_presence_ack x n a name mailbox).1.users ≡ n.users
  unfolding resend_presence_ack
  local-resend-users n a name mailbox = refl

  -- Is the user signed in on the socket?
  abbrev pub signed : LocalAdapter x → Str → Str → SocketId → Bool
  signed n app u c = signed_at x.users x.watching n.users.users app u c

  abbrev pub membership : Membership (local x)
  membership = record {
    joined = λ n. joined_in x.wire x.channels n.registry;
    joined-subscribe = λ n a name h o app channel c.
        joined-subscribe x.wire x.channels n.registry a name app channel c h o;
    joined-unsubscribe = λ n a name sid app channel c.
        joined-unsubscribe x.wire x.channels n.registry a name app channel c sid;
    joined-broadcast = local-broadcast;
    joined-resend_presence_ack = local-resend;
    joined-signin_user = λ n a user h app channel c. refl;
    joined-signout_user = λ n a user sid app channel c. refl;
    joined-watch = λ n a h us app channel c. refl;
    joined-unwatch = λ n a sid app channel c. refl;
    signed_in = signed;
    signed-signin_user =
        λ n a user h app u c. signed-signin x.users x.watching n.users a user h app u c;
    signed-signout_user =
        λ n a user sid app u c. signed-signout x.users x.watching n.users a user sid app u c;
    signed-subscribe = λ n a name h o app u c. refl;
    signed-unsubscribe = λ n a name sid app u c. refl;
    signed-broadcast = λ n a name event except app u c.
        ap (λ r. signed_at x.users x.watching r.users app u c)
          (local-broadcast-users n a name event except);
    signed-resend_presence_ack = λ n a name mailbox app u c.
        ap (λ r. signed_at x.users x.watching r.users app u c)
          (local-resend-users n a name mailbox);
    signed-watch = λ n a h us app u c. signed-watch x.users x.watching n.users a h us app u c;
    signed-unwatch = λ n a sid app u c. signed-unwatch x.users x.watching n.users a sid app u c;
  }

  -- On the local node, subscribing joins just that socket to just that channel; unsubscribing takes just
  -- that, whether or not the channel's entry is pruned; and a broadcast, on either path, and a resent
  -- roster take and add nothing.
  pub local-joined :
      (n : LocalAdapter x) (a name : Str) (h : ConnectionHandle Mailbox)
      (o : Option (PresenceMember Value)) (sid : SocketId) (event : ServerEvent Value)
      (except : Option SocketId) (app channel : Str) (c : SocketId)
      → let joined = λ (k : LocalAdapter x). joined_in x.wire x.channels k.registry app channel c in
        (joined ((local x).subscribe n a name h o).1
          ≡ (same_subscription a name h.socket_id app channel c || joined n))
        × (joined ((local x).unsubscribe n a name sid).1
            ≡ (not (same_subscription a name sid app channel c) && joined n))
        × (joined (broadcast x n a name event except).1 ≡ joined n)
        × (joined (resend_presence_ack x n a name h.mailbox).1 ≡ joined n)
  local-joined n a name h o sid event except app channel c = (
    joined-subscribe x.wire x.channels n.registry a name app channel c h o,
    joined-unsubscribe x.wire x.channels n.registry a name app channel c sid,
    local-broadcast n a name event except app channel c,
    local-resend n a name h.mailbox app channel c,
  )
