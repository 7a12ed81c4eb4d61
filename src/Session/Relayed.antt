-- ===== src/Session/Relayed.antt =====
-- src/ws/subscribe.rs: which client events reach the others.
use pylon.Prelude.{
  ◌≤◌, ◌≡◌, ◌≢◌, ℕ, ltb, if◌then◌else◌, some, Option-cases, refl, Bool, true, false, [], ◌∷◌, ◌++◌,
  arith, Bool-cases, inl, inr, ◌⊎◌, length, list_eq, nat_eq, contains,
}
use pylon.Protocol.SocketId.{Str}
use pylon.Maps.Assoc.{lookup}
use pylon.Protocol.Event.{ServerEvent, channel_event, client_event_error}
use pylon.Webhook.Event as WebhookEvent
use pylon.Channel.Kind.{AuthKind, public, private, private_encrypted, presence, channel_info_of}
use pylon.Rate.{RateWindow, check_at}
use pylon.Session.{
  Platform, Config, Moment, Session, is_saturated, send_self, socket_text, emit_if, emit_webhook,
  publish,
}
use pylon.Session.ClientEvent.{
  takes_client_events, Gate, rejected, dropped, passed, gate, pass, relay, relay_rated,
  client_event, reject,
}

module _ {Value Mailbox : Type 0} (p : Platform Value Mailbox) (c : Config Mailbox) where
  -- The node and the webhooks are left alone, and at most one error goes to the client itself.
  abbrev pub Unheard : Session p → Session p → Type 0
  Unheard s t =
      (t.node ≡ s.node)
      × (t.hooks ≡ s.hooks)
      × (t.subscribed ≡ s.subscribed)
      × ((t.sent ≡ s.sent)
          ⊎ ((message : Str) × (t.sent
                ≡ s.sent ++ (c.mailbox, client_event_error 4301 message) ∷ [])))

  -- The gates before the rate limit.
  pub record Cleared (t : Moment) (event channel : Str) (payload : Value) (s : Session p)
      : Type 0 where
    pub capable : c.capabilities.client_events ≡ true
    pub enabled : c.app.client_messages_enabled ≡ true
    pub kind :
        ((channel_info_of channel).auth ≡ private) ⊎ ((channel_info_of channel).auth ≡ presence)
    pub held : contains s.subscribed channel ≡ true
    pub short_name : length event ≤ c.limits.max_event_name_length
    pub small : length (p.json.to_string payload) ≤ c.limits.max_event_payload_bytes
    pub calm : t.saturated ≢ some true

  taking : (k : AuthKind) → takes_client_events k ≡ true → (k ≡ private) ⊎ (k ≡ presence)
  unfolding takes_client_events
  taking public h = absurd (ground arith)
  taking private h = inl refl
  taking private_encrypted h = absurd (ground arith)
  taking presence h = inr refl

  taken : (k : AuthKind) → (k ≡ private) ⊎ (k ≡ presence) → takes_client_events k ≡ true
  unfolding takes_client_events
  taken k (inl e) = rw e refl
  taken k (inr e) = rw e refl

  fits : {a b : ℕ} → a ≤ b → ltb b a ≡ false
  fits h = ground arith

  calm_at : (t : Moment) → is_saturated t ≡ false → t.saturated ≢ some true
  unfolding is_saturated
  calm_at t h e = absurd (ground arith)

  calm_for : (t : Moment) → t.saturated ≢ some true → is_saturated t ≡ false
  unfolding is_saturated
  calm_for t h = elim (Option-cases t.saturated) [
    | inl e ↦ ground arith
    | inr (b, e) ↦ ground arith
  ]

  gate-Cleared :
      (t : Moment) (event channel : Str) (payload : Value) (s : Session p)
      → gate p c t event channel payload s ≡ passed
      → Cleared t event channel payload s
  unfolding gate
  gate-Cleared t event channel payload s h = record {
    capable = ground arith;
    enabled = ground arith;
    kind = taking (channel_info_of channel).auth (ground arith);
    held = ground arith;
    short_name = ground arith;
    small = ground arith;
    calm = calm_at t (ground arith);
  }

  Cleared-gate :
      (t : Moment) (event channel : Str) (payload : Value) (s : Session p)
      → Cleared t event channel payload s
      → gate p c t event channel payload s ≡ passed
  unfolding gate
  Cleared-gate t event channel payload s v =
      let k = taken (channel_info_of channel).auth v.kind in
      let n : ltb c.limits.max_event_name_length (length event) ≡ false = fits v.short_name in
      let d : ltb c.limits.max_event_payload_bytes (length (p.json.to_string payload)) ≡ false =
        fits v.small in
      rw (v.capable, v.enabled, k, v.held, n, d, calm_for t v.calm) refl

  -- The event as the others get it, with the sender's user if the channel is a presence channel.
  abbrev pub event_of : Str → Str → Value → Session p → ServerEvent Value
  event_of event channel payload s =
      channel_event channel event payload (lookup channel s.presence_membership)

  -- The node broadcasts the event to all but the sender, and the webhook is enqueued if the app takes it.
  abbrev pub Relayed : Str → Str → Value → Session p → Session p → Type 0
  Relayed event channel payload s u =
      let (frames, node) =
        p.adapter.broadcast s.node c.app.id channel (event_of event channel payload s)
          (some c.socket_id) in
      let hook =
        WebhookEvent.client_event c.app.id channel event payload (socket_text p c)
          (lookup channel s.presence_membership) in
      (u.node ≡ node)
      × (u.sent ≡ s.sent ++ frames)
      × (u.hooks ≡ (if c.app.has_client_event_webhooks then s.hooks ++ hook ∷ [] else s.hooks))
      × (u.subscribed ≡ s.subscribed)

  -- The rate limit's answer, and the window after it.
  abbrev pub admits : Moment → Session p → Bool
  admits t s = (check_at p.f64 t.now s.client_event_rate).0

  abbrev pub window_after : Moment → Session p → RateWindow p.f64
  window_after t s = (check_at p.f64 t.now s.client_event_rate).1

  abbrev pub Outcome : Moment → Str → Str → Value → Session p → Session p → Type 0
  Outcome t event channel payload s u =
      (¬ Cleared t event channel payload s
        × Unheard s u
        × (u.client_event_rate ≡ s.client_event_rate))
      ⊎ (Cleared t event channel payload s
          × (admits t s ≡ false)
          × Unheard s u
          × (u.client_event_rate ≡ window_after t s))
      ⊎ (Cleared t event channel payload s
          × (admits t s ≡ true)
          × Relayed event channel payload s u
          × (u.client_event_rate ≡ window_after t s))

  reject-Unheard : (message : Str) (s : Session p) → Unheard s (reject p c message s)
  unfolding reject send_self
  reject-Unheard message s = (refl, refl, refl, inr (message, refl))

  reject-rate :
      (message : Str) (s : Session p)
      → (reject p c message s).client_event_rate ≡ s.client_event_rate
  unfolding reject send_self
  reject-rate message s = refl

  relay_lem :
      (event channel : Str) (payload : Value) (s : Session p)
      → Relayed event channel payload s (relay p c event channel payload s)
        × ((relay p c event channel payload s).client_event_rate ≡ s.client_event_rate)
  unfolding relay emit_if emit_webhook publish
  relay_lem event channel payload s = elim (Bool-cases c.app.has_client_event_webhooks) [
    | inl e ↦ rw e ((refl, refl, refl, refl), refl)
    | inr e ↦ rw e ((refl, refl, refl, refl), refl)
  ]

  pass-Outcome :
      (t : Moment) (event channel : Str) (payload : Value) (s : Session p) (g : Gate)
      → gate p c t event channel payload s ≡ g
      → Outcome t event channel payload s (pass p c t event channel payload s g)
  unfolding pass relay_rated
  pass-Outcome t event channel payload s (rejected message) e = inl (
    λ v. let f = Cleared-gate t event channel payload s v in absurd (ground arith),
    reject-Unheard message s,
    reject-rate message s,
  )
  pass-Outcome t event channel payload s dropped e = inl (
    λ v. let f = Cleared-gate t event channel payload s v in absurd (ground arith),
    (refl, refl, refl, inl refl),
    refl,
  )
  pass-Outcome t event channel payload s passed e =
      let v = gate-Cleared t event channel payload s e in
      let limited : Session p = record s { client_event_rate = window_after t s } in
      elim (Bool-cases (admits t s)) [
        | inl r ↦ rw r (
            let (relayed, rate) = relay_lem event channel payload limited in
            inr (inr (v, refl, relayed, rate)))
        | inr r ↦ rw r (inr (inl (v, refl, reject-Unheard _ limited, reject-rate _ limited)))
      ]

  -- A client event comes to one of three ends. If a gate before the rate limit does not hold, it reaches
  -- nobody, the client itself being told at most one error, and no token is taken from the rate window.
  -- If these gates hold and the rate limit refuses, it reaches nobody either, and the window is the one
  -- that the limit leaves. If all hold, the node broadcasts it to the channel, the sender excepted, with
  -- the sender's user on a presence channel; the webhook is enqueued if the app takes it; and the
  -- window is again the one that the limit leaves. The gates before the rate
  -- limit: a version that has client events, the app allows them, a private or presence channel which
  -- the connection holds, a name and data within their limits, and a server that is not saturated.
  pub client_event-Cleared :
      (t : Moment) (event channel : Str) (payload : Value) (s : Session p)
      → Outcome t event channel payload s (client_event p c t event channel payload s)
  unfolding client_event
  client_event-Cleared t event channel payload s = pass-Outcome t event channel payload s _ refl
