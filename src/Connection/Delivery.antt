-- ===== src/Connection/Delivery.antt =====
-- src/connection/handle.rs: what a series of sends leaves in a mailbox that nobody drains meanwhile.
use mathlib.Core.Option
use pylon.Prelude.{
  ℕ, zero, suc, ◌-◌, true, none, List, [], ◌∷◌, ◌++◌, ◌≡◌, ◌∙◌, refl, ap, arith, length, take, drop,
  length-append,
}
use pylon.Connection.{
  accepted, full, BoundedChannel, Mailbox, mailbox_send, settle, mark_dirty, count_drop,
}

-- A change made once for each of the events.
abbrev pub times : {Event A : Type 0} → (A → A) → List Event → A → A
times f [] a = a
times f (e ∷ es) a = times f es (f a)

module _ {Event : Type 0} (c : BoundedChannel Event) where
  -- The senders ignore what `send` returns.
  abbrev pub send_all : Mailbox c → List Event → Mailbox c
  send_all m [] = m
  send_all m (e ∷ es) = send_all (mailbox_send c m e).1 es

  -- How many messages still fit.
  abbrev pub room : Mailbox c → ℕ
  room m = c.capacity m.inner - length (c.waiting m.inner)

  abbrev full_after : Mailbox c → Event → Mailbox c
  full_after m e = record m {
    inner = (c.try_send m.inner e).1;
    mailbox_dropped = Option.map count_drop m.mailbox_dropped;
  }

  abbrev accepted_after : Mailbox c → Event → Mailbox c
  accepted_after m e = record m {
    inner = (c.try_send m.inner e).1;
    notify = Option.map mark_dirty m.notify;
  }

  mailbox_send-accepted :
      (m : Mailbox c) (e : Event)
      → (c.try_send m.inner e).0 ≡ accepted
      → mailbox_send c m e ≡ (none, accepted_after m e)
  unfolding mailbox_send settle
  mailbox_send-accepted m e h = rw h refl

  mailbox_send-full :
      (m : Mailbox c) (e : Event)
      → (c.try_send m.inner e).0 ≡ full
      → mailbox_send c m e ≡ (none, full_after m e)
  unfolding mailbox_send settle
  mailbox_send-full m e h = rw h refl

  try_send-fits :
      (m : Mailbox c) (e : Event) (k : ℕ)
      → c.is_open m.inner ≡ true
      → room m ≡ suc k
      → (c.try_send m.inner e).0 ≡ accepted
  try_send-fits m e k o r = ground (arith, c.try_send-answer m.inner e, o)

  try_send-no_room :
      (m : Mailbox c) (e : Event)
      → c.is_open m.inner ≡ true
      → room m ≡ 0
      → (c.try_send m.inner e).0 ≡ full
  try_send-no_room m e o r = ground (arith, c.try_send-answer m.inner e, o)

  -- What a series of sends leaves where r messages fit.
  abbrev pub Delivered : ℕ → Mailbox c → List Event → Mailbox c → Type 0
  Delivered r m es m' =
      (c.waiting m'.inner ≡ c.waiting m.inner ++ take r es)
      × (m'.notify ≡ times (Option.map mark_dirty) (take r es) m.notify)
      × (m'.mailbox_dropped ≡ times (Option.map count_drop) (drop r es) m.mailbox_dropped)

  append-none : (xs : List Event) → xs ≡ xs ++ []
  append-none [] = refl
  append-none (x ∷ xs) = ap (λ t. x ∷ t) (append-none xs)

  append-one :
      (xs : List Event) (e : Event) (es : List Event) → (xs ++ e ∷ []) ++ es ≡ xs ++ (e ∷ es)
  append-one [] e es = refl
  append-one (x ∷ xs) e es = ap (λ t. x ∷ t) (append-one xs e es)

  room_after :
      (m : Mailbox c) (e : Event) (k : ℕ)
      → room m ≡ suc k
      → c.waiting (c.try_send m.inner e).1 ≡ c.waiting m.inner ++ e ∷ []
      → room (accepted_after m e) ≡ k
  room_after m e k h w =
      rw (c.try_send-capacity m.inner e, w, length-append (c.waiting m.inner) (e ∷ []))
        (omega arith)

  send_all-Delivered_at :
      (r : ℕ) (m : Mailbox c) (es : List Event)
      → c.is_open m.inner ≡ true
      → room m ≡ r
      → Delivered r m es (send_all m es)
  send_all-Delivered_at zero m [] o h = (append-none (c.waiting m.inner), refl, refl)
  send_all-Delivered_at (suc k) m [] o h = (append-none (c.waiting m.inner), refl, refl)
  send_all-Delivered_at zero m (e ∷ es) o h =
      let f = try_send-no_room m e o h in
      let same = c.try_send-full m.inner e f in
      let (w, n, d) =
        send_all-Delivered_at zero (full_after m e) es (c.try_send-is_open m.inner e ∙ o)
          (rw (c.try_send-capacity m.inner e, same) h) in
      rw (mailbox_send-full m e f, send_all) (w ∙ ap (λ q. q ++ []) same, n, d)
  send_all-Delivered_at (suc k) m (e ∷ es) o h =
      let f = try_send-fits m e k o h in
      let more = c.try_send-accepted m.inner e f in
      let (w, n, d) =
        send_all-Delivered_at k (accepted_after m e) es (c.try_send-is_open m.inner e ∙ o)
          (room_after m e k h more) in
      rw (mailbox_send-accepted m e f, send_all)
        (w ∙ ap (λ q. q ++ take k es) more ∙ append-one (c.waiting m.inner) e (take k es), n, d)

  -- A series of sends to an open mailbox that nobody drains meanwhile leaves, after what waits, the
  -- events that still fit, in order, and drops all others; the connection is marked dirty once for each
  -- event that fits and the counter counts each dropped event, where these are wired.
  pub send_all-Delivered :
      (m : Mailbox c) (es : List Event)
      → c.is_open m.inner ≡ true
      → Delivered (room m) m es (send_all m es)
  send_all-Delivered m es o = send_all-Delivered_at (room m) m es o refl
