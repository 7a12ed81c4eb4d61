-- ===== src/Webhook/Grace.antt =====
-- src/webhook/dispatcher.rs, src/webhook/occupancy.rs: a reconnect within the grace window on a node that
-- stands alone.
use pylon.Prelude.{
  ℕ, ◌≡◌, refl, true, false, Option, none, some, [], ◌∷◌, nat_beq, list_eq, nat_eq, pair_eq, arith,
}
use pylon.Protocol.SocketId.{Str, SocketId, socket_id_eq}
use pylon.Channel.Types.{ChannelState}
use pylon.Channel.State.{subscription_count}
use pylon.Channel.State.Count.{lookup_of_empty, length_zero}
use pylon.Channel.Registry.{channel_summary, summary_of}
use pylon.Channel.Registry.Interleaving.{subscriber_in}
use pylon.Adapter.Local.{Stores, LocalAdapter, local}
use pylon.Adapter.Implements.{joined_in, is_some}
use pylon.Webhook.Event.{event_app, channel_vacated}
use pylon.Webhook.Occupancy.{is_back, fire, adapter_occupancy}
use pylon.Webhook.Dispatcher.{Apps, usable, deliver_found}

module _ {Value Mailbox : Type 0} (x : Stores Value Mailbox) where
  counted :
      (s : Option (ChannelState Value Mailbox)) (channel : Str) (c : SocketId)
      → is_some (subscriber_in c s) ≡ true
      → nat_beq (summary_of x.wire x.channels channel s).subscription_count 0 ≡ false
  unfolding is_some summary_of subscription_count
  counted none channel c h = absurd (ground arith)
  counted (some s) channel c h =
      ground (arith, lookup_of_empty c s.subscribers, length_zero s.subscribers)

  -- When a grace window ends and the local node holds any subscription to the channel, then its deferred
  -- `channel_vacated` is not delivered; without an occupancy source it is, if the app is found.
  pub fire-joined :
      (apps : Apps) (time_ms : ℕ) (n : LocalAdapter x) (app channel : Str) (c : SocketId)
      → joined_in x.wire x.channels n.registry app channel c ≡ true
      → (fire {Value = Value} apps
            (some (adapter_occupancy (local x) n))
            time_ms
            (channel_vacated app channel)
          ≡ [])
        × (fire {Value = Value} apps none time_ms (channel_vacated app channel)
            ≡ deliver_found (usable (apps app)) time_ms (channel_vacated app channel ∷ []))
  unfolding fire is_back adapter_occupancy joined_in channel_summary event_app
  fire-joined apps time_ms n app channel c h =
      (ground (arith, counted (x.channels.get n.registry (app, channel)) channel c h), refl)
