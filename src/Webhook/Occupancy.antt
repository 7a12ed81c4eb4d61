-- ===== src/Webhook/Occupancy.antt =====
-- src/webhook/occupancy.rs, and the tasks that src/webhook/dispatcher.rs spawns for deferred triggers:
-- what happens when the grace window has passed.
use pylon.Prelude.{
  ℕ, Bool, false, not, Option, some, List, [], ◌∷◌, nat_beq, if◌then◌else◌, list_eq, nat_eq,
  pair_eq,
}
use pylon.Protocol.SocketId.{Str, socket_id_eq}
use pylon.Channel.Types.{has_user}
use pylon.Adapter.{Adapter}
use pylon.Webhook.Event.{WebhookEvent, event_app, channel_vacated, member_removed}
use pylon.Webhook.Dispatcher.{Delivery, Apps, usable, deliver_found}

-- `OccupancySource` at a moment
pub record OccupancySource : Type 0 where
  pub count : Str → Str → ℕ
  pub is_member_present : Str → Str → Str → Bool

module _ {Value : Type 0} where
  -- The re-check: did the client reconnect?
  unfoldable pub is_back : Option OccupancySource → WebhookEvent Value → Bool
  is_back (some source) (member_removed app channel user_id) =
      source.is_member_present app channel user_id
  is_back (some source) (channel_vacated app channel) = not (nat_beq (source.count app channel) 0)
  is_back _ _ = false

  -- The spawned task after its sleep.
  unfoldable pub fire :
      Apps → Option OccupancySource → ℕ → WebhookEvent Value → List (Delivery Value)
  unfolding is_back
  fire apps occupancy time_ms event =
      if is_back occupancy event
      then []
      else deliver_found (usable (apps (event_app event))) time_ms (event ∷ [])

module _ {Value Mailbox : Type 0} (a : Adapter Value Mailbox) where
  -- `AdapterOccupancy`
  unfoldable pub adapter_occupancy : a.Node → OccupancySource
  unfolding has_user
  adapter_occupancy node = record {
    count = λ app channel. (a.channel node app channel).subscription_count;
    is_member_present =
        λ app channel user_id. has_user user_id (a.presence_members node app channel);
  }
