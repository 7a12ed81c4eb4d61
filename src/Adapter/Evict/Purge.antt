-- ===== src/Adapter/Evict/Purge.antt =====
-- src/adapter/local.rs: what purging an app sends its connections, and what stays known.
use mathlib.Core.Option
use pylon.Prelude.{
  ◌≡◌, refl, ap, not, ◌&&◌, Option, none, some, List, [], ◌∷◌, ◌++◌, ◌*◌, length, map, arith,
  Option-cases, Bool-cases, inl, inr, ◌==◌, nat_eq, list_eq, contains,
}
use pylon.Maps.Assoc.{values, lookup}
use pylon.Protocol.SocketId.{Str, SocketId, socket_id_eq}
use pylon.Channel.Types.{ConnectionHandle}
use pylon.User.Registry.{Sockets}
use pylon.Adapter.Connections.{drain_app, handles_of}
use pylon.Protocol.Text.{ascii}
use pylon.Protocol.Event.{error, close}
use pylon.Channel.Fanout.{Send}
use pylon.Adapter.Local.{Stores, LocalAdapter, purge_app, close_handles_4009, close_frames}
use pylon.Adapter.Evict.{is_connected, known_in, IsKeyed, contains-keys}

module _ {Value Mailbox : Type 0} where
  -- What a connection is sent when the app disconnects it.
  abbrev pub farewell : ConnectionHandle Mailbox → List (Send Value Mailbox)
  farewell h =
      let text = ascii "You got disconnected by the app." in
      (h.mailbox, error (record { code = 4009; message = text }))
      ∷ (h.mailbox, close 4009 text)
      ∷ []

  -- The connection, if there is one, is sent its error and then its close, with nothing between.
  abbrev pub IsTold : List (Send Value Mailbox) → Option (ConnectionHandle Mailbox) → Type 0
  IsTold frames none = Unit {0}
  IsTold frames (some h) =
      (before : List (Send Value Mailbox)) × (after : List (Send Value Mailbox)) × (frames
        ≡ before ++ (farewell h ++ after))

  IsTold-later :
      (x : ConnectionHandle Mailbox) (frames : List (Send Value Mailbox))
      (o : Option (ConnectionHandle Mailbox))
      → IsTold frames o
      → IsTold (farewell x ++ frames) o
  IsTold-later x frames none t = tt
  IsTold-later x frames (some h) (before, after, e) =
      (farewell x ++ before, after, ap (λ l. farewell x ++ l) e)

module _ {Value Mailbox : Type 0} (x : Stores Value Mailbox) where
  close_frames-IsTold :
      (set : Sockets Mailbox) (c : SocketId) → IsTold (close_frames x (values set)) (lookup c set)
  unfolding close_frames
  close_frames-IsTold [] c = tt
  close_frames-IsTold ((k, h) ∷ set) c = elim (Bool-cases (k == c)) [
    | inl e ↦ rw e ([], close_frames x (values set), refl)
    | inr e ↦
        rw e
          (IsTold-later h (close_frames x (values set)) (lookup c set) (close_frames-IsTold set c))
  ]

  length-close_frames :
      (hs : List (ConnectionHandle Mailbox))
      → length (close_frames x hs)
        ≡ 2 * length (map (λ (h : ConnectionHandle Mailbox). h.socket_id) hs)
  unfolding close_frames
  length-close_frames [] = refl
  length-close_frames (h ∷ hs) = omega (arith, length-close_frames hs)

  -- The handle of an app's connection.
  abbrev pub handle_at : x.apps.Map → Str → SocketId → Option (ConnectionHandle Mailbox)
  handle_at m app c = lookup c (Option.get_or (x.apps.get m app) [])

  -- On a node that knows every connection under its own socket, purging an app returns just the sockets of the app's known connections, and sends each of these
  -- connections the error 4009 and then the close 4009; it sends two frames for each socket that it
  -- returns and no others. Afterwards no connection of that app is known, and those of every other app
  -- are as before.
  pub purge_app-IsTold :
      (n : LocalAdapter x) (app a : Str) (c : SocketId)
      → IsKeyed x.apps n.app_registry
      → let ((ids, frames), n') = purge_app x n app in
        (contains ids c ≡ is_connected x.apps n.app_registry app c)
        × IsTold frames (handle_at n.app_registry app c)
        × (length frames ≡ 2 * length ids)
        × (is_connected x.apps n'.app_registry a c
            ≡ (not (app == a) && is_connected x.apps n.app_registry a c))
  unfolding purge_app close_handles_4009 drain_app handles_of is_connected known_in IsKeyed
      close_frames
  purge_app-IsTold n app a c v = (
    elim (Option-cases (x.apps.get n.app_registry app)) [
      | inl e ↦ ground arith
      | inr (set, e) ↦ ground (arith, v app set e, contains-keys c set)
    ],
    elim (Option-cases (x.apps.get n.app_registry app)) [
      | inl e ↦ rw e tt
      | inr (set, e) ↦ rw e (close_frames-IsTold set c)
    ],
    length-close_frames (handles_of x.apps (x.apps.get n.app_registry app)),
    ground (arith, x.apps.get-delete n.app_registry app a),
  )
