-- ===== src/Webhook/Flush.antt =====
-- src/webhook/dispatcher.rs: what a flush delivers and defers for each app of its batch.
use mathlib.Core.Option
use mathlib.Core.List.{append-nil, append_assoc}
use pylon.Prelude.{
  ℕ, ◌≡◌, refl, sym, ap, ◌∙◌, Bool, Option, none, some, List, [], ◌∷◌, ◌++◌, arith, Bool-cases, inl,
  inr, if◌then◌else◌, is_empty, retain, retain-append, ◌==◌, list_eq, nat_eq, list_beq_iff,
}
use pylon.Maps.Assoc.{lookup, insert, contains_key-lookup, Unique, lookup-insert, insert-Unique}
use pylon.Protocol.SocketId.{Str}
use pylon.App.{App}
use pylon.Webhook.Event.{WebhookEvent, event_app}
use pylon.Webhook.Dispatcher.{
  Apps, usable, push_event, group_onto, group, is_reconnect, deliver_found, immediate_of,
  deferred_of, spawned_for, flush_apps, flush,
}

-- What stands for an app in a list by app.
abbrev pub at_app : {A : Type 0} → Str → List (Str × List A) → List A
at_app a m = Option.get_or (lookup a m) []

module _ {Value : Type 0} where
  -- The events of one app, in their order.
  abbrev pub of_app : Str → List (WebhookEvent Value) → List (WebhookEvent Value)
  of_app a l = retain (λ e. event_app e == a) l

  push_event-lookup :
      (e : WebhookEvent Value) (m : List (Str × List (WebhookEvent Value))) (a : Str)
      → at_app a (push_event e m) ≡ (if event_app e == a then at_app a m ++ e ∷ [] else at_app a m)
  unfolding push_event
  push_event-lookup e m a = ground (
    arith,
    lookup-insert (event_app e) a (at_app (event_app e) m ++ e ∷ []) m,
    list_beq_iff (event_app e) a,
  )

  group_onto-lookup :
      (m : List (Str × List (WebhookEvent Value))) (batch : List (WebhookEvent Value)) (a : Str)
      → at_app a (group_onto m batch) ≡ at_app a m ++ of_app a batch
  unfolding group_onto
  group_onto-lookup m [] a = sym (append-nil (at_app a m))
  group_onto-lookup m (e ∷ batch) a =
      group_onto-lookup (push_event e m) batch a
      ∙ rw (push_event-lookup e m a) (elim (Bool-cases (event_app e == a)) [
        | inl h ↦ rw h (append_assoc (at_app a m) (e ∷ []) (of_app a batch))
        | inr h ↦ rw h refl
      ])

  group_onto-Unique :
      (m : List (Str × List (WebhookEvent Value))) (batch : List (WebhookEvent Value))
      → Unique m
      → Unique (group_onto m batch)
  unfolding group_onto push_event
  group_onto-Unique m [] u = u
  group_onto-Unique m (e ∷ batch) u =
      group_onto-Unique (push_event e m) batch (insert-Unique (event_app e) _ m u)

  nothing_found :
      (o : Option App) (grace_ms time_ms : ℕ)
      → deliver_found {Value = Value} o time_ms (immediate_of grace_ms []) ≡ []
  unfolding deliver_found immediate_of
  nothing_found none grace_ms time_ms = refl
  nothing_found (some app) grace_ms time_ms = ground arith

  flush_apps-lookup :
      (apps : Apps) (grace_ms time_ms : ℕ) (m : List (Str × List (WebhookEvent Value))) (a : Str)
      → at_app a (flush_apps apps grace_ms time_ms m).0
        ≡ deliver_found (usable (apps a)) time_ms (immediate_of grace_ms (at_app a m))
  unfolding flush_apps
  flush_apps-lookup apps grace_ms time_ms [] a =
      sym (nothing_found (usable (apps a)) grace_ms time_ms)
  flush_apps-lookup apps grace_ms time_ms ((k, events) ∷ rest) a = elim (Bool-cases (k == a)) [
    | inl h ↦ let same : k ≡ a = (list_beq_iff k a).0 h in rw h (rw same refl)
    | inr h ↦ rw h (flush_apps-lookup apps grace_ms time_ms rest a)
  ]

  -- All the events of an entry are its app's.
  Own : Str → List (WebhookEvent Value) → Type 0
  Own k events = (a : Str) → of_app a events ≡ (if k == a then events else [])

  abbrev Owned : List (Str × List (WebhookEvent Value)) → Type 0
  Owned [] = Unit {0}
  Owned ((k, events) ∷ rest) = Own k events × Owned rest

  at_app-Own : (k : Str) (m : List (Str × List (WebhookEvent Value))) → Owned m → Own k (at_app k m)
  unfolding Own
  at_app-Own k [] o a = ground arith
  at_app-Own k ((j, events) ∷ rest) o a = elim (Bool-cases (j == k)) [
    | inl h ↦ let same : j ≡ k = (list_beq_iff j k).0 h in rw h (rw (sym same) (o.0 a))
    | inr h ↦ rw h (at_app-Own k rest o.1 a)
  ]

  insert-Owned :
      (k : Str) (events : List (WebhookEvent Value)) (m : List (Str × List (WebhookEvent Value)))
      → Own k events
      → Owned m
      → Owned (insert k events m)
  insert-Owned k events [] h o = (h, tt)
  insert-Owned k events ((j, es) ∷ rest) h o = elim (Bool-cases (j == k)) [
    | inl e ↦ rw e (h, o.1)
    | inr e ↦ rw e (o.0, insert-Owned k events rest h o.1)
  ]

  push-Own :
      (e : WebhookEvent Value) (events : List (WebhookEvent Value))
      → Own (event_app e) events
      → Own (event_app e) (events ++ e ∷ [])
  unfolding Own
  push-Own e events h a =
      retain-append (λ x. event_app x == a) events (e ∷ []) ∙ rw (h a) (ground arith)

  group_onto-Owned :
      (m : List (Str × List (WebhookEvent Value))) (batch : List (WebhookEvent Value))
      → Owned m
      → Owned (group_onto m batch)
  unfolding group_onto push_event
  group_onto-Owned m [] o = o
  group_onto-Owned m (e ∷ batch) o =
      group_onto-Owned (push_event e m) batch
        (insert-Owned (event_app e) _ m (push-Own e _ (at_app-Own (event_app e) m o)) o)

  retain_swap :
      (p q : WebhookEvent Value → Bool) (l : List (WebhookEvent Value))
      → retain p (retain q l) ≡ retain q (retain p l)
  retain_swap p q [] = refl
  retain_swap p q (e ∷ l) = ground (arith, retain_swap p q l)

  deferred-Own :
      (grace_ms : ℕ) (k a : Str) (events : List (WebhookEvent Value))
      → Own k events
      → of_app a (deferred_of grace_ms events)
        ≡ (if k == a then deferred_of grace_ms events else [])
  unfolding deferred_of Own
  deferred-Own grace_ms k a events h =
      ground (arith, retain_swap (λ e. event_app e == a) is_reconnect events, h a)

  spawned-Own :
      (o : Option App) (grace_ms : ℕ) (k a : Str) (events : List (WebhookEvent Value))
      → Own k events
      → of_app a (spawned_for o grace_ms events)
        ≡ (if k == a then spawned_for o grace_ms events else [])
  unfolding spawned_for
  spawned-Own none grace_ms k a events h =
      elim (Bool-cases (is_empty (immediate_of grace_ms events))) [
        | inl e ↦ rw e (deferred-Own grace_ms k a events h)
        | inr e ↦ rw e (ground arith)
      ]
  spawned-Own (some app) grace_ms k a events h = deferred-Own grace_ms k a events h

  spawned_none : (o : Option App) (grace_ms : ℕ) → spawned_for {Value = Value} o grace_ms [] ≡ []
  unfolding spawned_for deferred_of immediate_of
  spawned_none none grace_ms = ground arith
  spawned_none (some app) grace_ms = ground arith

  flush_apps-spawned :
      (apps : Apps) (grace_ms time_ms : ℕ) (m : List (Str × List (WebhookEvent Value))) (a : Str)
      → Unique m
      → Owned m
      → of_app a (flush_apps apps grace_ms time_ms m).1
        ≡ spawned_for (usable (apps a)) grace_ms (at_app a m)
  unfolding flush_apps
  flush_apps-spawned apps grace_ms time_ms [] a u o = sym (spawned_none (usable (apps a)) grace_ms)
  flush_apps-spawned apps grace_ms time_ms ((k, events) ∷ rest) a u o =
      let later = flush_apps-spawned apps grace_ms time_ms rest a u.1 o.1 in
      retain-append (λ e. event_app e == a) (spawned_for (usable (apps k)) grace_ms events) _
      ∙ rw (spawned-Own (usable (apps k)) grace_ms k a events o.0, later)
          (elim (Bool-cases (k == a)) [
            | inl h ↦
                let same : k ≡ a = (list_beq_iff k a).0 h in
                let gone : lookup a rest ≡ none =
                  ground (arith, same, contains_key-lookup a rest) in
                rw h (
                  rw gone (
                    rw (spawned_none (usable (apps a)) grace_ms) (
                      append-nil _ ∙ ap (λ x. spawned_for (usable (apps x)) grace_ms events) same)))
            | inr h ↦ rw h refl
          ])

  -- What a flush does for each app is what it does for that app's own events of the batch.
  pub flush-of_app :
      (apps : Apps) (grace_ms time_ms : ℕ) (batch : List (WebhookEvent Value)) (a : Str)
      → let (deliveries, deferred) = flush apps grace_ms time_ms batch in
        (at_app a deliveries
          ≡ deliver_found (usable (apps a)) time_ms (immediate_of grace_ms (of_app a batch)))
        × (of_app a deferred ≡ spawned_for (usable (apps a)) grace_ms (of_app a batch))
  unfolding flush group
  flush-of_app apps grace_ms time_ms batch a =
      let e = group_onto-lookup [] batch a in
      (
        flush_apps-lookup apps grace_ms time_ms (group batch) a
            ∙ ap (λ l. deliver_found (usable (apps a)) time_ms (immediate_of grace_ms l)) e,
        flush_apps-spawned apps grace_ms time_ms (group batch) a (group_onto-Unique [] batch tt)
              (group_onto-Owned [] batch tt)
            ∙ ap (spawned_for (usable (apps a)) grace_ms) e,
      )
