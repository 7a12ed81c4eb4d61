-- ===== src/Connection.antt =====
-- src/connection/handle.rs: the mailbox of a connection. The bounded channel of tokio, which the
-- repository does not hold, is known by what `try_send` answers and what waits in the channel.
pub mod Delivery
pub mod Examples
use mathlib.Core.Option
use pylon.Prelude.{
  ℕ, suc, ◌%◌, ◌^◌, Bool, true, not, Option, none, some, List, [], ◌∷◌, ◌++◌, ◌≡◌, leb, length,
  if◌then◌else◌,
}

-- `Ok(())`, `TrySendError::Full` and `TrySendError::Closed`
pub data Attempt : Type 0 where
  accepted : Attempt
  full : Attempt
  closed : Attempt

pub record BoundedChannel (Event : Type 0) : Type 1 where
  pub Chan : Type 0
  -- The messages not yet received, oldest first.
  pub waiting : Chan → List Event
  pub capacity : Chan → ℕ
  pub is_open : Chan → Bool
  pub try_send : Chan → Event → Attempt × Chan
  pub try_send-answer :
      (ch : Chan) (e : Event)
      → (try_send ch e).0 ≡ (
          if not (is_open ch)
          then closed
          else if leb (capacity ch) (length (waiting ch))
          then full
          else accepted)
  pub try_send-accepted :
      (ch : Chan) (e : Event)
      → (try_send ch e).0 ≡ accepted
      → waiting (try_send ch e).1 ≡ waiting ch ++ e ∷ []
  pub try_send-full :
      (ch : Chan) (e : Event) → (try_send ch e).0 ≡ full → waiting (try_send ch e).1 ≡ waiting ch
  pub try_send-capacity : (ch : Chan) (e : Event) → capacity (try_send ch e).1 ≡ capacity ch
  pub try_send-is_open : (ch : Chan) (e : Event) → is_open (try_send ch e).1 ≡ is_open ch

-- `dirty` holds what was pushed onto the worker's queue, oldest first; `woken` says that a wake is pending.
pub record MailboxNotify : Type 0 where
  pub token : ℕ
  pub dirty : List ℕ
  pub woken : Bool

unfoldable pub mark_dirty : MailboxNotify → MailboxNotify
mark_dirty n = record n { dirty = n.dirty ++ n.token ∷ []; woken = true }

unfoldable pub count_drop : ℕ → ℕ
count_drop k = suc k % 2 ^ 64

module _ {Event : Type 0} (c : BoundedChannel Event) where
  -- `mailbox_dropped` is a u64.
  pub record Mailbox : Type 0 where
    pub inner : c.Chan
    pub notify : Option MailboxNotify
    pub mailbox_dropped : Option ℕ

  -- The rest of `send`: the event of an `Err`, or none for `Ok(())`.
  settle : Mailbox → Event → Attempt → c.Chan → Option Event × Mailbox
  settle m e accepted ch = (none, record m { inner = ch; notify = Option.map mark_dirty m.notify })
  settle m e full ch =
      (none, record m { inner = ch; mailbox_dropped = Option.map count_drop m.mailbox_dropped })
  settle m e closed ch = (some e, record m { inner = ch })

  -- `Mailbox::send`
  unfoldable pub mailbox_send : Mailbox → Event → Option Event × Mailbox
  unfolding settle
  mailbox_send m e = settle m e (c.try_send m.inner e).0 (c.try_send m.inner e).1
