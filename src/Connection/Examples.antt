-- ===== src/Connection/Examples.antt =====
-- src/connection/handle.rs: a mailbox with room for two of three messages.
use pylon.Prelude.{
  ℕ, Bool, true, false, not, some, List, [], ◌∷◌, ◌++◌, ◌≡◌, refl, leb, length, if◌then◌else◌,
}
use pylon.Connection.{Attempt, accepted, full, closed, BoundedChannel, Mailbox}
use pylon.Connection.Delivery.{send_all, Delivered, send_all-Delivered}

record Queue : Type 0 where
  items : List ℕ
  bound : ℕ
  receiving : Bool

abbrev answer : Queue → Attempt
answer q =
    if not q.receiving then closed else if leb q.bound (length q.items) then full else accepted

abbrev offer : Attempt → Queue → ℕ → Queue
offer accepted q e = record q { items = q.items ++ e ∷ [] }
offer full q e = q
offer closed q e = q

offer-accepted :
    (a : Attempt) (q : Queue) (e : ℕ) → a ≡ accepted → (offer a q e).items ≡ q.items ++ e ∷ []
offer-accepted a q e h = rw h refl

offer-full : (a : Attempt) (q : Queue) (e : ℕ) → a ≡ full → (offer a q e).items ≡ q.items
offer-full a q e h = rw h refl

offer-bound : (a : Attempt) (q : Queue) (e : ℕ) → (offer a q e).bound ≡ q.bound
offer-bound accepted q e = refl
offer-bound full q e = refl
offer-bound closed q e = refl

offer-receiving : (a : Attempt) (q : Queue) (e : ℕ) → (offer a q e).receiving ≡ q.receiving
offer-receiving accepted q e = refl
offer-receiving full q e = refl
offer-receiving closed q e = refl

abbrev queues : BoundedChannel ℕ
queues = record {
  Chan = Queue;
  waiting = λ q. q.items;
  capacity = λ q. q.bound;
  is_open = λ q. q.receiving;
  try_send = λ q e. (answer q, offer (answer q) q e);
  try_send-answer = λ q e. refl;
  try_send-accepted = λ q e h. offer-accepted (answer q) q e h;
  try_send-full = λ q e h. offer-full (answer q) q e h;
  try_send-capacity = λ q e. offer-bound (answer q) q e;
  try_send-is_open = λ q e. offer-receiving (answer q) q e;
}

abbrev mailbox : Mailbox queues
mailbox = record {
  inner = record { items = 1 ∷ []; bound = 3; receiving = true };
  notify = some (record { token = 5; dirty = []; woken = false });
  mailbox_dropped = some 0;
}

send_all-Delivered_example :
    Delivered queues 2 mailbox (2 ∷ 3 ∷ 4 ∷ []) (send_all queues mailbox (2 ∷ 3 ∷ 4 ∷ []))
send_all-Delivered_example = send_all-Delivered queues mailbox (2 ∷ 3 ∷ 4 ∷ []) refl
