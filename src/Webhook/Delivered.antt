-- ===== src/Webhook/Delivered.antt =====
-- src/webhook/dispatcher.rs: what a flush delivers and defers, told by the names of the triggers.
use pylon.Prelude.{
  ℕ, ◌≡◌, Bool, not, ◌&&◌, ◌||◌, List, [], ltb, if◌then◌else◌, is_empty, contains, retain, map,
  ◌==◌, list_eq, nat_eq,
}
use pylon.Prelude.Results.{Result, ok}
use pylon.Protocol.Text.{ascii}
use pylon.App.{App, AppLookup, AppLookupError, WebhookConfig, found}
use pylon.Webhook.Event.{WebhookEvent, event_name}
use pylon.Webhook.Dispatcher.{Delivery}

module _ {Value : Type 0} where
  -- Does the trigger wait for the grace window?
  abbrev pub waits : ℕ → WebhookEvent Value → Bool
  waits grace_ms e =
      ltb 0 grace_ms
      && (event_name e == ascii "channel_vacated" || event_name e == ascii "member_removed")

  -- The triggers that wait, and those that do not.
  abbrev pub waiting : ℕ → List (WebhookEvent Value) → List (WebhookEvent Value)
  waiting grace_ms events = retain (waits grace_ms) events

  abbrev pub at_once : ℕ → List (WebhookEvent Value) → List (WebhookEvent Value)
  at_once grace_ms events = retain (λ e. not (waits grace_ms e)) events

  -- One delivery for each endpoint that takes any of the events, with those that it takes.
  abbrev pub due_at : App → ℕ → List (WebhookEvent Value) → WebhookConfig → Delivery Value
  due_at app time_ms events endpoint = record {
    url = endpoint.url;
    key = app.key;
    secret = app.secret;
    time_ms = time_ms;
    events = retain (λ e. contains endpoint.event_types (event_name e)) events;
    headers = endpoint.headers;
  }

  abbrev pub due : App → ℕ → List (WebhookEvent Value) → List (Delivery Value)
  due app time_ms events =
      retain (λ d. not (is_empty d.events)) (map (due_at app time_ms events) app.webhooks)

  -- What an app's events of a batch become by the answer for the app.
  abbrev pub Settled :
      ℕ
      → ℕ
      → List (WebhookEvent Value)
      → Result AppLookup AppLookupError
      → List (Delivery Value)
      → List (WebhookEvent Value)
      → Type 0
  Settled grace_ms time_ms events (ok (found app)) deliveries deferred =
      (deliveries ≡ due app time_ms (at_once grace_ms events))
      × (deferred ≡ waiting grace_ms events)
  Settled grace_ms time_ms events _ deliveries deferred =
      (deliveries ≡ [])
      × (deferred ≡ (if is_empty (at_once grace_ms events) then waiting grace_ms events else []))
