-- ===== src/Channel/Fanout.antt =====
-- src/channel/state.rs: `fanout` and `Fanout::send`. rayon's work stealing is the parameter `spread`.
use mathlib.Core.List.{Perm, flatten, append-nil, append_assoc}
use mathlib.Core.List.Perm
use pylon.Prelude.{
  Option-cases, Bool-cases, inl, inr, ℕ, zero, suc, ◌-◌, ◌≡◌, refl, ap, ◌∙◌, sym, subst, Bool,
  false, Option, none, some, List, [], ◌∷◌, ◌++◌, map, arith, ◌==◌, ltb, if◌then◌else◌, length,
  is_empty, retain, not, list_eq, nat_eq,
}
use pylon.Protocol.SocketId.{Str, SocketId, socket_id_eq}
use pylon.Protocol.Event.{Wire, ServerEvent, raw, active_version}
use pylon.Channel.Types.{ChannelState}
use pylon.Channel.State.Index.{Subscribers}
use pylon.Channel.State.Valid.{IsValid}

abbrev parallel_threshold : ℕ
parallel_threshold = 256

abbrev send_chunk : ℕ
send_chunk = 512

pub record Fanout (Value Mailbox : Type 0) : Type 0 where
  pub frame : Str
  pub snapshot : Subscribers Value Mailbox
  pub except : Option SocketId
  pub parallel : Bool

-- One `mailbox.send(..)`.
abbrev pub Send : Type 0 → Type 0 → Type 0
Send Value Mailbox = Mailbox × ServerEvent Value

unfoldable pub is_excepted : Option SocketId → SocketId → Bool
is_excepted none sid = false
is_excepted (some e) sid = sid == e

module _ {Value Mailbox : Type 0} where
  snapshot_or :
      Option (Subscribers Value Mailbox) → Subscribers Value Mailbox → Subscribers Value Mailbox
  snapshot_or none fresh = fresh
  snapshot_or (some l) fresh = l

  -- The body of the loop over the snapshot.
  sends : Str → Option SocketId → Subscribers Value Mailbox → List (Send Value Mailbox)
  sends frame except [] = []
  sends frame except ((sid, sub) ∷ rest) =
      let later = sends frame except rest in
      if is_excepted except sid then later else (sub.handle.mailbox, raw frame) ∷ later

module _ {ℓ} {A : Type ℓ} (size : ℕ) where
  chunks_from : ℕ → List A → List A → List (List A)
  chunks_from room chunk [] = if is_empty chunk then [] else chunk ∷ []
  chunks_from zero chunk (x ∷ xs) = chunk ∷ chunks_from (size - 1) (x ∷ []) xs
  chunks_from (suc room) chunk (x ∷ xs) = chunks_from room (chunk ++ x ∷ []) xs

  -- `par_chunks(size)`
  chunks : List A → List (List A)
  unfolding chunks_from
  chunks xs = chunks_from size [] xs

unfoldable pub frame_of : {Value : Type 0} → Wire Value → ServerEvent Value → Str
frame_of w (raw f) = f
frame_of w event = w.encode active_version event

module _ {Value Mailbox : Type 0} (w : Wire Value) where
  -- `ChannelState::fanout`, with the state in which the snapshot's cell is filled
  unfoldable pub fanout :
      ServerEvent Value
      → Option SocketId
      → ChannelState Value Mailbox
      → Fanout Value Mailbox × ChannelState Value Mailbox
  unfolding frame_of snapshot_or
  fanout event except s =
      let l = snapshot_or s.snapshot s.subscribers in
      (
        record {
          frame = frame_of w event;
          snapshot = l;
          except = except;
          parallel = ltb parallel_threshold (length s.subscribers);
        },
        record s { snapshot = some l },
      )

-- `Fanout::send`: the sends in the order in which they happen
module _ {Value Mailbox : Type 0}
    (spread : List (List (Send Value Mailbox)) → List (Send Value Mailbox)) where
  unfoldable pub send : Fanout Value Mailbox → List (Send Value Mailbox)
  unfolding sends chunks
  send f =
      if f.parallel
      then spread (map (sends f.frame f.except) (chunks send_chunk f.snapshot))
      else sends f.frame f.except f.snapshot

-- What a broadcast owes: the frame for each subscriber but the excepted one.
abbrev pub owed :
    {Value Mailbox : Type 0}
    → Str
    → Option SocketId
    → Subscribers Value Mailbox
    → List (Send Value Mailbox)
owed frame except subs =
    map (λ e. (e.1.handle.mailbox, raw frame)) (retain (λ e. not (is_excepted except e.0)) subs)

module _ {Value Mailbox : Type 0} (frame : Str) (except : Option SocketId) where
  sends-owed : (l : Subscribers Value Mailbox) → sends frame except l ≡ owed frame except l
  unfolding sends
  sends-owed [] = refl
  sends-owed ((sid, sub) ∷ rest) = ground (arith, sends-owed rest)

  sends-append :
      (l r : Subscribers Value Mailbox)
      → sends frame except (l ++ r) ≡ sends frame except l ++ sends frame except r
  unfolding sends
  sends-append [] r = refl
  sends-append ((sid, sub) ∷ rest) r = ground (arith, sends-append rest r)

  flatten-sends-chunks :
      (size room : ℕ) (chunk l : Subscribers Value Mailbox)
      → flatten (map (sends frame except) (chunks_from size room chunk l))
        ≡ sends frame except (chunk ++ l)
  unfolding chunks_from sends flatten
  flatten-sends-chunks size room [] [] = refl
  flatten-sends-chunks size room (x ∷ chunk) [] = rw append-nil (rw append-nil)
  flatten-sends-chunks size zero chunk (x ∷ l) =
      ap (◌++◌ (sends frame except chunk)) (flatten-sends-chunks size (size - 1) (x ∷ []) l)
      ∙ sym (sends-append chunk (x ∷ l))
  flatten-sends-chunks size (suc room) chunk (x ∷ l) =
      rw (flatten-sends-chunks size room (chunk ++ x ∷ []) l, append_assoc)

module _ {Value Mailbox : Type 0} (w : Wire Value) (channel : Str)
    (spread : List (List (Send Value Mailbox)) → List (Send Value Mailbox)) where
  snapshot_lem :
      (event : ServerEvent Value) (except : Option SocketId) (s : ChannelState Value Mailbox)
      → IsValid w channel s
      → (fanout w event except s).0.snapshot ≡ s.subscribers
  unfolding fanout snapshot_or
  snapshot_lem event except s v = elim (Option-cases s.snapshot) [
    | inl e ↦ ground arith
    | inr (l, e) ↦ ground (arith, v.snapshot_fresh l e)
  ]

  send-Perm :
      (f : Fanout Value Mailbox)
      → ((cs : List (List (Send Value Mailbox))) → Perm (spread cs) (flatten cs))
      → Perm (send spread f) (sends f.frame f.except f.snapshot)
  unfolding send
  send-Perm f fair = elim (Bool-cases f.parallel) [
    | inl many ↦ rw many (
        subst (λ l. Perm (spread (map (sends f.frame f.except) (chunks send_chunk f.snapshot))) l)
          (flatten-sends-chunks f.frame f.except send_chunk send_chunk [] f.snapshot) (fair _))
    | inr few ↦ rw few (Perm.refl _)
  ]

  -- A broadcast sends the one encoded frame to every subscriber but the excepted one, once each,
  -- whether it goes one by one or in chunks and whatever snapshot was kept; `spread` may order the
  -- sends of different chunks as it likes.
  pub send-owed :
      (event : ServerEvent Value) (except : Option SocketId) (s : ChannelState Value Mailbox)
      → ((cs : List (List (Send Value Mailbox))) → Perm (spread cs) (flatten cs))
      → IsValid w channel s
      → Perm
          (send spread (fanout w event except s).0)
          (owed (frame_of w event) except s.subscribers)
  unfolding fanout
  send-owed event except s fair v =
      subst (Perm (send spread (fanout w event except s).0))
        (ap (sends (frame_of w event) except) (snapshot_lem event except s v)
          ∙ sends-owed (frame_of w event) except s.subscribers)
        (send-Perm (fanout w event except s).0 fair)
