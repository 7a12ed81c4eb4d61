-- ===== src/Channel/Registry/Settled.antt =====
-- src/channel/registry.rs: between two calls every entry is a consistent, occupied channel; the edges
-- that `subscribe` and `unsubscribe` report are the changes of occupancy.
use mathlib.Core.Option
use pylon.Prelude.{
  ◌≡◌, refl, sym, subst, false, Option, none, some, ◌==◌, ◌&&◌, nat_eq, list_eq, pair_eq,
  list_beq_iff, arith, Option-cases, Bool-cases, inl, inr, if◌then◌else◌, beq_refl,
}
use pylon.Maps.Shards.{DashMap}
use pylon.Protocol.SocketId.{Str, SocketId, socket_id_eq}
use pylon.Protocol.Event.{Wire}
use pylon.Channel.Types.{PresenceMember, ConnectionHandle, ChannelState, default}
use pylon.Channel.State.{remove, state_is_empty}
use pylon.Channel.State.Count.{add-occupied}
use pylon.Channel.State.Valid.{IsValid}
use pylon.Channel.State.Leave.{remove-IsValid}
use pylon.Channel.State.Join.{add-IsValid}
use pylon.Channel.State.History.{default-IsValid}
use pylon.Channel.Registry.{Key, subscribe, unsubscribe, unsubscribe_guarded, leave_entry, prune}

module _ {Value Mailbox : Type 0} (w : Wire Value)
    (d : DashMap Key (ChannelState Value Mailbox)) where
  open d use {Map, get, put, delete, get-put, get-delete}

  -- Every entry is a consistent channel with a subscriber.
  abbrev pub IsSettled : Map → Type 0
  IsSettled r =
      (app channel : Str) (s : ChannelState Value Mailbox)
      → get r (app, channel) ≡ some s
      → IsValid w channel s × (state_is_empty s ≡ false)

  or_default-IsValid :
      (r : Map) (app channel : Str)
      → IsSettled r
      → IsValid w channel (Option.get_or (get r (app, channel)) default)
  or_default-IsValid r app channel v = elim (Option-cases (get r (app, channel))) [
    | inl e ↦ rw e (default-IsValid w channel)
    | inr (s, e) ↦ rw e (v app channel s e).0
  ]

  put-IsSettled :
      (r : Map) (app channel : Str) (t : ChannelState Value Mailbox)
      → IsSettled r
      → IsValid w channel t
      → state_is_empty t ≡ false
      → IsSettled (put r (app, channel) t)
  put-IsSettled r app channel t v vt full app' channel' s h =
      elim (Bool-cases (app == app' && channel == channel')) [
        | inl same ↦
            let p : channel ≡ channel' = ground (arith, list_beq_iff channel channel') in
            let q : t ≡ s = ground (arith, get-put r (app, channel) (app', channel') t) in
            rw (← p, ← q) (vt, full)
        | inr other ↦
            v app' channel' s (ground (arith, get-put r (app, channel) (app', channel') t))
      ]

  -- `subscribe` keeps every entry consistent and occupied.
  pub subscribe-IsSettled :
      (r : Map) (app channel : Str) (handle : ConnectionHandle Mailbox)
      (o : Option (PresenceMember Value))
      → IsSettled r
      → IsSettled (subscribe w d r app channel handle o).1
  unfolding subscribe
  subscribe-IsSettled r app channel handle o v =
      put-IsSettled r app channel _ v
        (add-IsValid w channel handle o _ (or_default-IsValid r app channel v))
        (add-occupied w channel handle o _)

  delete-IsSettled :
      (r : Map) (app channel : Str) (t : ChannelState Value Mailbox)
      → IsSettled r
      → IsSettled (delete (put r (app, channel) t) (app, channel))
  delete-IsSettled r app channel t v app' channel' s h = v app' channel' s (
      ground (
        arith,
        get-put r (app, channel) (app', channel') t,
        get-delete (put r (app, channel) t) (app, channel) (app', channel'),
      ))

  -- The map that `unsubscribe` leaves.
  unfoldable pub after_leave : Map → Key → SocketId → Option (ChannelState Value Mailbox) → Map
  after_leave r key sid none = r
  after_leave r key sid (some s) =
      let t = (remove w sid s).1 in
      if state_is_empty t then delete (put r key t) key else put r key t

  pub after_leave_lem :
      (r : Map) (app channel : Str) (sid : SocketId)
      → (unsubscribe w d r app channel sid).1
        ≡ after_leave r (app, channel) sid (get r (app, channel))
  unfolding unsubscribe unsubscribe_guarded leave_entry prune after_leave
  after_leave_lem r app channel sid = elim (Option-cases (get r (app, channel))) [
    | inl e ↦ rw e refl
    | inr (s, e) ↦
        let t = (remove w sid s).1 in
        ground (arith, get-put r (app, channel) (app, channel) t, beq_refl app, beq_refl channel)
  ]

  after_leave-IsSettled :
      (r : Map) (app channel : Str) (sid : SocketId) (o : Option (ChannelState Value Mailbox))
      → IsSettled r
      → get r (app, channel) ≡ o
      → IsSettled (after_leave r (app, channel) sid o)
  unfolding after_leave
  after_leave-IsSettled r app channel sid none v e = v
  after_leave-IsSettled r app channel sid (some s) v e =
      let t = (remove w sid s).1 in
      let vt = remove-IsValid w channel sid s (v app channel s e).0 in
      elim (Bool-cases (state_is_empty t)) [
        | inl gone ↦ rw gone (delete-IsSettled r app channel t v)
        | inr some_left ↦ rw some_left (put-IsSettled r app channel t v vt some_left)
      ]

  -- `unsubscribe` keeps every entry consistent and occupied: an emptied channel is pruned.
  pub unsubscribe-IsSettled :
      (r : Map) (app channel : Str) (sid : SocketId)
      → IsSettled r
      → IsSettled (unsubscribe w d r app channel sid).1
  unsubscribe-IsSettled r app channel sid v =
      subst IsSettled (sym (after_leave_lem r app channel sid))
        (after_leave-IsSettled r app channel sid (get r (app, channel)) v refl)
