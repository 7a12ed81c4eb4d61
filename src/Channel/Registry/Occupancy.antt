-- ===== src/Channel/Registry/Occupancy.antt =====
-- src/channel/registry.rs: the edges that `subscribe` and `unsubscribe` report, against the summaries
-- that the queries give before and after.
use mathlib.Core.Option
use pylon.Prelude.{
  ◌≡◌, refl, ◌∙◌, ap, true, false, not, Option, none, some, ◌==◌, ◌&&◌, nat_beq, nat_eq, list_eq,
  pair_eq, arith, Option-cases, inl, inr, if◌then◌else◌, beq_refl,
}
use pylon.Maps.Shards.{DashMap}
use pylon.Protocol.SocketId.{Str, SocketId, socket_id_eq}
use pylon.Protocol.Event.{Wire}
use pylon.Channel.Types.{PresenceMember, ConnectionHandle, ChannelState, default}
use pylon.Channel.State.{add, remove, subscription_count, state_is_empty}
use pylon.Channel.State.Count.{add-count_one, add-occupied, length_zero}
use pylon.Channel.Registry.{
  Key, subscribe, unsubscribe, unsubscribe_guarded, leave_entry, channel_summary, summary_of,
}
use pylon.Channel.Registry.Settled.{IsSettled, after_leave, after_leave_lem}

module _ {Value Mailbox : Type 0} (w : Wire Value)
    (d : DashMap Key (ChannelState Value Mailbox)) where
  open d use {Map, get, put, get-put, get-delete, delete}

  no_count : (s : ChannelState Value Mailbox) → nat_beq (subscription_count s) 0 ≡ state_is_empty s
  unfolding subscription_count state_is_empty
  no_count s = length_zero s.subscribers

  default-is_empty : state_is_empty {Value = Value} {Mailbox = Mailbox} default ≡ true
  unfolding state_is_empty
  default-is_empty = refl

  or_default-occupied :
      (channel : Str) (o : Option (ChannelState Value Mailbox))
      → (summary_of w d channel o).occupied ≡ not (state_is_empty (Option.get_or o default))
  unfolding summary_of
  or_default-occupied channel none = rw default-is_empty refl
  or_default-occupied channel (some s) = refl

  get_put_self :
      (r : Map) (app channel : Str) (t : ChannelState Value Mailbox)
      → get (put r (app, channel) t) (app, channel) ≡ some t
  get_put_self r app channel t =
      ground (arith, get-put r (app, channel) (app, channel) t, beq_refl app, beq_refl channel)

  now_occupied :
      (r : Map) (app channel : Str) (t : ChannelState Value Mailbox)
      → state_is_empty t ≡ false
      → (summary_of w d channel (get (put r (app, channel) t) (app, channel))).occupied ≡ true
  unfolding summary_of
  now_occupied r app channel t h = rw (get_put_self r app channel t, summary_of, h) refl

  summary_some-count :
      (channel : Str) (t : ChannelState Value Mailbox)
      → (summary_of w d channel (some t)).subscription_count ≡ subscription_count t
  unfolding summary_of
  summary_some-count channel t = refl

  -- What `unsubscribe` leaves at each key.
  get-unsubscribe :
      (r : Map) (app channel : Str) (sid : SocketId) (s : ChannelState Value Mailbox)
      (app' channel' : Str)
      → get r (app, channel) ≡ some s
      → let t = (remove w sid s).1 in
        get (unsubscribe w d r app channel sid).1 (app', channel') ≡ (
          if app == app' && channel == channel'
          then (if state_is_empty t then none else some t)
          else get r (app', channel'))
  unfolding after_leave
  get-unsubscribe r app channel sid s app' channel' e =
      let t = (remove w sid s).1 in
      rw (after_leave_lem w d r app channel sid, e, after_leave)
        (ground (
          arith,
          get-put r (app, channel) (app', channel') t,
          get-delete (put r (app, channel) t) (app, channel) (app', channel'),
        ))

  unsubscribe_absent :
      (r : Map) (app channel : Str) (sid : SocketId)
      → get r (app, channel) ≡ none
      → (unsubscribe w d r app channel sid).1 ≡ r
  unfolding after_leave
  unsubscribe_absent r app channel sid e =
      after_leave_lem w d r app channel sid ∙ rw (e, after_leave) refl

  -- `subscribe` reports `occupied` exactly when the channel had no subscriber; afterwards the channel
  -- is occupied, with the count that is reported.
  pub subscribe_edges :
      (r : Map) (app channel : Str) (handle : ConnectionHandle Mailbox)
      (o : Option (PresenceMember Value))
      → let (out, r') = subscribe w d r app channel handle o in
        (out.occupied ≡ not (channel_summary w d r app channel).occupied)
        × ((channel_summary w d r' app channel).occupied ≡ true)
        × ((channel_summary w d r' app channel).subscription_count ≡ out.subscription_count)
  unfolding subscribe channel_summary
  subscribe_edges r app channel handle o =
      let s = Option.get_or (get r (app, channel)) default in
      let t = (add w channel handle o s).1 in
      (
        ground (
          arith,
          no_count s,
          no_count t,
          add-occupied w channel handle o s,
          add-count_one w channel handle o s,
          or_default-occupied channel (get r (app, channel)),
        ),
        now_occupied r app channel t (add-occupied w channel handle o s),
        ap (λ x. (summary_of w d channel x).subscription_count) (get_put_self r app channel t)
            ∙ summary_some-count channel t,
      )

  -- On a map whose entries are consistent and occupied, `unsubscribe` reports `vacated` exactly when
  -- the channel was occupied and is no longer; the count is that of the channel afterwards.
  pub unsubscribe_edges :
      (r : Map) (app channel : Str) (sid : SocketId)
      → IsSettled w d r
      → let (out, r') = unsubscribe w d r app channel sid in
        (out.vacated ≡ (
          (channel_summary w d r app channel).occupied
          && not (channel_summary w d r' app channel).occupied))
        × ((channel_summary w d r' app channel).subscription_count ≡ out.subscription_count)
  unfolding unsubscribe unsubscribe_guarded leave_entry channel_summary summary_of
  unsubscribe_edges r app channel sid v = elim (Option-cases (get r (app, channel))) [
    | inl e ↦
        let same = unsubscribe_absent r app channel sid e in
        (ground (arith, same), ground (arith, same))
    | inr (s, e) ↦
        let t = (remove w sid s).1 in
        let here = get-unsubscribe r app channel sid s app channel e in
        let full = (v app channel s e).1 in
        (
          ground (arith, here, full, beq_refl app, beq_refl channel),
          ground (arith, here, beq_refl app, beq_refl channel, no_count t),
        )
  ]

  -- Neither `subscribe` nor `unsubscribe` changes the summary of another app's or another name's
  -- channel.
  pub other_channels :
      (r : Map) (app channel : Str) (handle : ConnectionHandle Mailbox)
      (o : Option (PresenceMember Value)) (sid : SocketId) (app' channel' : Str)
      → (app == app' && channel == channel') ≡ false
      → (channel_summary w d (subscribe w d r app channel handle o).1 app' channel'
          ≡ channel_summary w d r app' channel')
        × (channel_summary w d (unsubscribe w d r app channel sid).1 app' channel'
            ≡ channel_summary w d r app' channel')
  unfolding subscribe channel_summary summary_of
  other_channels r app channel handle o sid app' channel' n = (
    ground (
      arith,
      get-put r (app, channel) (app', channel')
          (add w channel handle o (Option.get_or (get r (app, channel)) default)).1,
    ),
    elim (Option-cases (get r (app, channel))) [
      | inl e ↦ ground (arith, unsubscribe_absent r app channel sid e)
      | inr (s, e) ↦ ground (arith, get-unsubscribe r app channel sid s app' channel' e)
    ],
  )
