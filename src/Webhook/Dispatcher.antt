-- ===== src/Webhook/Dispatcher.antt =====
-- src/webhook/dispatcher.rs: what a batch of triggers becomes. The mailbox, the window's timer and the
-- transport are I/O: a batch is a list, and a delivery is what `build_signed_delivery` is given. The
-- order in which a `HashMap` is walked is that of the first event of each app.
use mathlib.Core.Option
use pylon.Prelude.{
  ℕ, Bool, true, false, not, Option, none, some, List, [], ◌∷◌, ◌++◌, ltb, if◌then◌else◌, is_empty,
  contains, retain, list_eq, nat_eq,
}
use pylon.Prelude.Results.{Result, ok, err}
use pylon.Maps.Assoc.{lookup, insert}
use pylon.Protocol.SocketId.{Str}
use pylon.App.{App, AppLookup, AppLookupError, WebhookConfig, into_enabled}
use pylon.Webhook.Event.{WebhookEvent, event_app, event_name, channel_vacated, member_removed}

-- What one call of `build_signed_delivery` is given.
pub record Delivery (Value : Type 0) : Type 0 where
  pub url : Str
  pub key : Str
  pub secret : Str
  pub time_ms : ℕ
  pub events : List (WebhookEvent Value)
  pub headers : List (Str × Str)

-- `AppManager::by_id` at a moment
abbrev pub Apps : Type 0
Apps = Str → Result AppLookup AppLookupError

-- The app of an answer, or none when it is gone, disabled or could not be looked up.
unfoldable pub usable : Result AppLookup AppLookupError → Option App
usable (ok answer) = into_enabled answer
usable (err e) = none

module _ {Value : Type 0} where
  -- `Vec::push` on the app's entry
  unfoldable pub push_event :
      WebhookEvent Value
      → List (Str × List (WebhookEvent Value))
      → List (Str × List (WebhookEvent Value))
  push_event e by_app =
      insert (event_app e) (Option.get_or (lookup (event_app e) by_app) [] ++ e ∷ []) by_app

  unfoldable pub group_onto :
      List (Str × List (WebhookEvent Value))
      → List (WebhookEvent Value)
      → List (Str × List (WebhookEvent Value))
  unfolding push_event
  group_onto by_app [] = by_app
  group_onto by_app (e ∷ batch) = group_onto (push_event e by_app) batch

  -- The partition of a batch by app.
  unfoldable pub group : List (WebhookEvent Value) → List (Str × List (WebhookEvent Value))
  unfolding group_onto
  group batch = group_onto [] batch

  -- The triggers that a reconnect within the grace window takes back.
  unfoldable pub is_reconnect : WebhookEvent Value → Bool
  is_reconnect (channel_vacated app channel) = true
  is_reconnect (member_removed app channel user_id) = true
  is_reconnect _ = false

  -- `deliver_app_events`
  unfoldable pub deliver_to :
      App → ℕ → List (WebhookEvent Value) → List WebhookConfig → List (Delivery Value)
  deliver_to app time_ms events [] = []
  deliver_to app time_ms events (endpoint ∷ rest) =
      let later = deliver_to app time_ms events rest in
      let selected = retain (λ e. contains endpoint.event_types (event_name e)) events in
      if is_empty selected
      then later
      else record {
        url = endpoint.url;
        key = app.key;
        secret = app.secret;
        time_ms = time_ms;
        events = selected;
        headers = endpoint.headers;
      }
        ∷ later

  unfoldable pub deliver_app_events : App → ℕ → List (WebhookEvent Value) → List (Delivery Value)
  unfolding deliver_to
  deliver_app_events app time_ms events = deliver_to app time_ms events app.webhooks

  -- What an app's triggers become when its lookup has answered.
  unfoldable pub deliver_found : Option App → ℕ → List (WebhookEvent Value) → List (Delivery Value)
  unfolding deliver_app_events
  deliver_found none time_ms events = []
  deliver_found (some app) time_ms events =
      if is_empty events then [] else deliver_app_events app time_ms events

  unfoldable pub immediate_of : ℕ → List (WebhookEvent Value) → List (WebhookEvent Value)
  immediate_of grace_ms events =
      if ltb 0 grace_ms then retain (λ e. not (is_reconnect e)) events else events

  unfoldable pub deferred_of : ℕ → List (WebhookEvent Value) → List (WebhookEvent Value)
  deferred_of grace_ms events = if ltb 0 grace_ms then retain is_reconnect events else []

  -- The triggers for which a task is spawned: the failed lookup of an app for the others leaves the loop
  -- for it with `continue`, before the tasks.
  unfoldable pub spawned_for :
      Option App → ℕ → List (WebhookEvent Value) → List (WebhookEvent Value)
  unfolding immediate_of deferred_of
  spawned_for none grace_ms events =
      if is_empty (immediate_of grace_ms events) then deferred_of grace_ms events else []
  spawned_for (some app) grace_ms events = deferred_of grace_ms events

  -- The loop over the apps: the deliveries by app, and the triggers for which a task is spawned.
  unfoldable pub flush_apps :
      Apps
      → ℕ
      → ℕ
      → List (Str × List (WebhookEvent Value))
      → List (Str × List (Delivery Value)) × List (WebhookEvent Value)
  unfolding immediate_of spawned_for deliver_found usable
  flush_apps apps grace_ms time_ms [] = ([], [])
  flush_apps apps grace_ms time_ms ((app_id, events) ∷ rest) =
      let (deliveries, deferred) = flush_apps apps grace_ms time_ms rest in
      (
        (app_id, deliver_found (usable (apps app_id)) time_ms (immediate_of grace_ms events))
            ∷ deliveries,
        spawned_for (usable (apps app_id)) grace_ms events ++ deferred,
      )

  -- `flush`
  unfoldable pub flush :
      Apps
      → ℕ
      → ℕ
      → List (WebhookEvent Value)
      → List (Str × List (Delivery Value)) × List (WebhookEvent Value)
  unfolding group flush_apps
  flush apps grace_ms time_ms batch = flush_apps apps grace_ms time_ms (group batch)
