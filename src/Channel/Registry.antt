-- ===== src/Channel/Registry.antt =====
-- src/channel/registry.rs: the channels of the node by app and name. Every function is one atomic
-- step on the map but `unsubscribe`, which is `unsubscribe_guarded` and then `prune`.
pub mod Settled
pub mod Occupancy
pub mod Interleaving
use mathlib.Core.Option
use pylon.Prelude.{
  ℕ, ◌≡◌, Bool, true, false, not, Option, none, some, List, [], ◌∷◌, ◌==◌, ◌&&◌, nat_beq, nat_eq,
  list_eq, pair_eq, if◌then◌else◌, is_empty,
}
use pylon.Maps.Shards.{DashMap}
use pylon.Protocol.SocketId.{Str, SocketId}
use pylon.Protocol.Event.{Wire, ServerEvent}
use pylon.Channel.Types.{
  PresenceMember, ConnectionHandle, ChannelState, PresenceJoin, PresenceLeave, default,
}
use pylon.Channel.Users.{members}
use pylon.Channel.State.{
  add, remove, subscription_count, state_is_empty, user_count, socket_ids, cached_roster_frame,
}
use pylon.Channel.Fanout.{Fanout, Send, fanout, send}

-- The registry's key: the app and the channel.
abbrev pub Key : Type 0
Key = Str × Str

pub record SubscribeOutcome (Value : Type 0) : Type 0 where
  pub subscription_count : ℕ
  pub presence : Option (PresenceJoin Value)
  pub occupied : Bool

pub record UnsubscribeOutcome : Type 0 where
  pub subscription_count : ℕ
  pub presence : Option PresenceLeave
  pub vacated : Bool

pub record ChannelSummary : Type 0 where
  pub name : Str
  pub occupied : Bool
  pub subscription_count : ℕ
  pub user_count : Option ℕ

-- `str::starts_with`
unfoldable pub starts_with : Str → Str → Bool
starts_with s [] = true
starts_with [] (p ∷ ps) = false
starts_with (c ∷ s) (p ∷ ps) = nat_beq c p && starts_with s ps

-- `prefix.is_none_or(|p| name.starts_with(p))`
unfoldable pub has_prefix : Option Str → Str → Bool
unfolding starts_with
has_prefix none name = true
has_prefix (some p) name = starts_with name p

module _ {Value Mailbox : Type 0} (w : Wire Value)
    (d : DashMap Key (ChannelState Value Mailbox)) where
  open d use {Map, get, put, delete, entries}

  -- `subscribe`
  unfoldable pub subscribe :
      Map
      → Str
      → Str
      → ConnectionHandle Mailbox
      → Option (PresenceMember Value)
      → SubscribeOutcome Value × Map
  subscribe r app channel handle member =
      let state = Option.get_or (get r (app, channel)) default in
      let was_empty = nat_beq (subscription_count state) 0 in
      let (presence, state') = add w channel handle member state in
      let count = subscription_count state' in
      (
        record {
          subscription_count = count;
          presence = presence;
          occupied = was_empty && nat_beq count 1;
        },
        put r (app, channel) state',
      )

  leave_entry :
      Map → Key → SocketId → Option (ChannelState Value Mailbox) → UnsubscribeOutcome × Map
  leave_entry r key sid none =
      (record { subscription_count = 0; presence = none; vacated = false }, r)
  leave_entry r key sid (some state) =
      let (presence, state') = remove w sid state in
      (
        record {
          subscription_count = subscription_count state';
          presence = presence;
          vacated = state_is_empty state';
        },
        put r key state',
      )

  -- `unsubscribe` under the entry's guard
  unfoldable pub unsubscribe_guarded : Map → Str → Str → SocketId → UnsubscribeOutcome × Map
  unfolding leave_entry
  unsubscribe_guarded r app channel sid = leave_entry r (app, channel) sid (get r (app, channel))

  -- `remove_if(&key, |_, s| s.is_empty())`
  unfoldable pub prune : Map → Key → Map
  prune r key = elim (get r key) [
    | none ↦ r
    | some state ↦ if state_is_empty state then delete r key else r
  ]

  -- `unsubscribe`
  unfoldable pub unsubscribe : Map → Str → Str → SocketId → UnsubscribeOutcome × Map
  unfolding unsubscribe_guarded
  unsubscribe r app channel sid =
      let (out, r') = unsubscribe_guarded r app channel sid in
      (out, if out.vacated then prune r' (app, channel) else r')

  unfoldable pub summary_of : Str → Option (ChannelState Value Mailbox) → ChannelSummary
  summary_of channel none = record {
    name = channel;
    occupied = false;
    subscription_count = 0;
    user_count = none;
  }
  summary_of channel (some s) = record {
    name = channel;
    occupied = not (state_is_empty s);
    subscription_count = subscription_count s;
    user_count = user_count s;
  }

  -- `channel_summary`
  unfoldable pub channel_summary : Map → Str → Str → ChannelSummary
  unfolding summary_of
  channel_summary r app channel = summary_of channel (get r (app, channel))

  summaries : Str → Option Str → List (Key × ChannelState Value Mailbox) → List ChannelSummary
  summaries app pre [] = []
  summaries app pre (((a, name), s) ∷ rest) =
      let later = summaries app pre rest in
      if (a == app && not (state_is_empty s)) && has_prefix pre name
      then record {
        name = name;
        occupied = true;
        subscription_count = subscription_count s;
        user_count = user_count s;
      }
        ∷ later
      else later

  -- `channels`
  unfoldable pub channels : Map → Str → Option Str → List ChannelSummary
  unfolding summaries has_prefix
  channels r app pre = summaries app pre (entries r)

  -- `presence_members`
  unfoldable pub presence_members : Map → Str → Str → List (PresenceMember Value)
  presence_members r app channel = elim (get r (app, channel)) [
    | none ↦ []
    | some s ↦ members s.users
  ]

  unfoldable pub frame_entry : Map → Key → Option (ChannelState Value Mailbox) → Option Str × Map
  frame_entry r (app, channel) none = (none, r)
  frame_entry r (app, channel) (some s) =
      let (frame, s') = cached_roster_frame w channel s in
      elim (user_count s) [ none ↦ (none, r) | some n ↦ (some frame, put r (app, channel) s') ]

  -- `roster_frame`
  unfoldable pub roster_frame : Map → Str → Str → Option Str × Map
  unfolding frame_entry
  roster_frame r app channel = frame_entry r (app, channel) (get r (app, channel))

  member_groups : List (Key × ChannelState Value Mailbox) → List (Key × List SocketId)
  member_groups [] = []
  member_groups ((key, s) ∷ rest) =
      let later = member_groups rest in
      if state_is_empty s then later else (key, socket_ids s) ∷ later

  -- `local_members`
  unfoldable pub local_members : Map → List (Key × List SocketId)
  unfolding member_groups
  local_members r = member_groups (entries r)

  unfoldable pub broadcast_entry :
      (List (List (Send Value Mailbox)) → List (Send Value Mailbox))
      → Map
      → Key
      → ServerEvent Value
      → Option SocketId
      → Option (ChannelState Value Mailbox)
      → List (Send Value Mailbox) × Map
  broadcast_entry spread r key event except none = ([], r)
  broadcast_entry spread r key event except (some s) =
      let (f, s') = fanout w event except s in (send spread f, put r key s')

  -- `broadcast`
  unfoldable pub broadcast :
      (List (List (Send Value Mailbox)) → List (Send Value Mailbox))
      → Map
      → Str
      → Str
      → ServerEvent Value
      → Option SocketId
      → List (Send Value Mailbox) × Map
  unfolding broadcast_entry
  broadcast spread r app channel event except =
      broadcast_entry spread r (app, channel) event except (get r (app, channel))
