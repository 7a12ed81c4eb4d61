-- ===== src/Session/Examples.antt =====
-- A connection on the local node: it joins a private and a presence channel, signs in, sends a client
-- event and closes.
use pylon.Prelude.{ℕ, ◌≡◌, refl, ◌⊎◌, true, false, none, some, ◌++◌, list_eq, nat_eq, contains}
use pylon.Protocol.SocketId.{Str, from_raw, as_str, socket_id_eq, socket_id_beq}
use pylon.Protocol.Text.{ascii}
use pylon.Protocol.Command.{ClientCommand}
use pylon.Protocol.Json.{AuthenticatedUser}
use pylon.Adapter.{Membership}
use pylon.Adapter.Local.{local}
use pylon.Adapter.SignedIn.{signed_at}
use pylon.Adapter.Implements.{membership, joined_in, is_some}
use pylon.Session.{Session, is_saturated}
use pylon.Auth.{verify_channel, split_once, constant_time_eq}
use pylon.Channel.Registry.{starts_with}
use pylon.Channel.Kind.{strip_prefix, validate_channel_name, channel_info_of}
use pylon.Session.Verdict.{verdict, admitted}
use pylon.Session.Dispatch.{dispatch}
use pylon.Session.Unsubscribe.{on_close}
use pylon.Session.Tracked.{IsTracked}
use pylon.Session.Reached.{dispatch-IsTracked, Identified}
use pylon.Session.Closed.{Reached, opened, commanded, Reached-IsTracked, Reached-on_close}
use pylon.Session.Gates.{Shown, dispatch-Shown, dispatch-holds}
use pylon.Session.ClientEvent.{client_event}
use pylon.Session.Users.{dispatch-Identified}
use pylon.Session.Relayed.{Outcome, client_event-Cleared}
use pylon.Session.Others.{dispatch-others}
use pylon.Session.Samples.{sample_platform, sample_stores, sample_config, calm, fresh, user_doc}

abbrev pub sample_laws : Membership (local sample_stores)
sample_laws = membership sample_stores

abbrev pub room : Str
room = ascii "private-room"

abbrev pub token : Str
token = ascii "k:s7.7:private-room"

abbrev pub join_room : ClientCommand ℕ
join_room = ClientCommand.subscribe room (some token) none

abbrev pub joined_room : Session sample_platform
joined_room = dispatch sample_platform sample_config calm join_room fresh

abbrev signs_in : ClientCommand ℕ
signs_in = ClientCommand.signin (ascii "k:s7.7::user::" ++ user_doc) user_doc

fresh-Reached : Reached sample_platform sample_laws sample_config fresh
unfolding joined_in is_some signed_at
fresh-Reached = opened fresh refl refl refl (λ channel. refl) (λ u. refl)

fresh-IsTracked : IsTracked sample_platform sample_laws sample_config fresh
fresh-IsTracked = Reached-IsTracked sample_platform sample_laws sample_config fresh fresh-Reached

dispatch-IsTracked_example : IsTracked sample_platform sample_laws sample_config joined_room
dispatch-IsTracked_example =
    dispatch-IsTracked sample_platform sample_laws sample_config calm join_room fresh
      fresh-IsTracked

-- Joins the room, and then ann signs in.
abbrev busy : Session sample_platform
busy = dispatch sample_platform sample_config calm signs_in joined_room

Reached-on_close_example :
    (sample_laws.joined
        (on_close sample_platform sample_config busy).node
        (ascii "1")
        room
        (from_raw (ascii "7.7"))
      ≡ false)
    × (sample_laws.signed_in
          (on_close sample_platform sample_config busy).node
          (ascii "1")
          (ascii "ann")
          (from_raw (ascii "7.7"))
        ≡ false)
    × ((on_close sample_platform sample_config busy).user ≡ none)
Reached-on_close_example =
    Reached-on_close sample_platform sample_laws sample_config busy room (ascii "ann")
      (commanded calm signs_in joined_room (commanded calm join_room fresh fresh-Reached))

room_admitted :
    verdict sample_platform sample_config calm room (some token) none fresh ≡ admitted none
unfolding verdict ascii is_saturated strip_prefix starts_with validate_channel_name channel_info_of
    verify_channel split_once constant_time_eq as_str from_raw
room_admitted = refl

dispatch-holds_example :
    (contains joined_room.subscribed room ≡ true)
    × (sample_laws.joined joined_room.node (ascii "1") room (from_raw (ascii "7.7")) ≡ true)
dispatch-holds_example =
    dispatch-holds sample_platform sample_laws sample_config calm room (some token) none fresh none
      room_admitted

now_held : contains joined_room.subscribed room ≡ true
now_held =
    (dispatch-holds sample_platform sample_laws sample_config calm room (some token) none fresh none
      room_admitted).0

pub node_joined :
    sample_laws.joined joined_room.node (ascii "1") room (from_raw (ascii "7.7")) ≡ true
node_joined =
    (dispatch-holds sample_platform sample_laws sample_config calm room (some token) none fresh none
      room_admitted).1

dispatch-Shown_example : Shown sample_platform sample_laws sample_config calm join_room fresh room
dispatch-Shown_example =
    dispatch-Shown sample_platform sample_laws sample_config calm join_room fresh room refl now_held

dispatch-Identified_example :
    ((dispatch sample_platform sample_config calm signs_in fresh).user ≡ none)
    ⊎ ((auth : Str) × (user_data : Str) × (user : AuthenticatedUser) × (signs_in
          ≡ ClientCommand.signin auth user_data)
        × Identified sample_platform sample_laws sample_config auth user_data fresh user
        × ((dispatch sample_platform sample_config calm signs_in fresh).user ≡ some user))
dispatch-Identified_example =
    dispatch-Identified sample_platform sample_laws sample_config calm signs_in fresh

client_event-Cleared_example :
    Outcome sample_platform sample_config calm
      (ascii "client-x")
      room
      5
      joined_room
      (client_event sample_platform sample_config calm (ascii "client-x") room 5 joined_room)
client_event-Cleared_example =
    client_event-Cleared sample_platform sample_config calm (ascii "client-x") room 5 joined_room

dispatch-others_example :
    (sample_laws.joined joined_room.node (ascii "1") room (from_raw (ascii "8.8"))
      ≡ sample_laws.joined fresh.node (ascii "1") room (from_raw (ascii "8.8")))
    × (sample_laws.signed_in joined_room.node (ascii "1") room (from_raw (ascii "8.8"))
        ≡ sample_laws.signed_in fresh.node (ascii "1") room (from_raw (ascii "8.8")))
unfolding ascii from_raw socket_id_beq
dispatch-others_example =
    dispatch-others sample_platform sample_laws sample_config (ascii "1") room
      (from_raw (ascii "8.8")) calm join_room fresh refl
