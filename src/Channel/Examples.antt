-- ===== src/Channel/Examples.antt =====
-- A presence channel of three sockets and two users, and the registry around it.
use mathlib.Core.List.{Perm, flatten}
use mathlib.Core.List.Perm
use pylon.Prelude.{
  ℕ, ◌≡◌, refl, ◌↔◌, Bool, true, not, ◌&&◌, none, some, List, [], ◌∷◌, nat_beq, arith, nat_eq,
  list_eq, pair_eq,
}
use pylon.Maps.Assoc.{lookup}
use pylon.Maps.Shards.{DashMap, plain}
use pylon.Protocol.SocketId.{Str, SocketId, from_raw, socket_id_eq, socket_id_beq}
use pylon.Protocol.Event.{Wire, ServerEvent, raw, subscription_succeeded, cache_miss}
use pylon.Channel.Types.{PresenceMember, ConnectionHandle, ChannelState, PresenceJoin, default}
use pylon.Channel.Users.{encode_roster}
use pylon.Channel.State.{add, remove, state_is_empty}
use pylon.Channel.State.Valid.{IsValid}
use pylon.Channel.State.Edges.{NoOther, add_announces, remove_announces}
use pylon.Channel.State.History.{
  Change, joins, leaves, last_change, history, history-IsValid, lookup-history,
}
use pylon.Channel.Fanout.{Send, fanout, frame_of, send, owed, send-owed}
use pylon.Channel.Registry.{Key, subscribe, unsubscribe, unsubscribe_guarded, channel_summary}
use pylon.Channel.Registry.Settled.{IsSettled, subscribe-IsSettled, unsubscribe-IsSettled}
use pylon.Channel.Registry.Occupancy.{subscribe_edges, unsubscribe_edges}
use pylon.Channel.Registry.Interleaving.{
  Action, subscribes, prunes, last_action, subscriber_in, run, run-last_action, vacated_twice,
}
use pylon.Channel.Registry.Interleaving as Interleaving

abbrev encode : ℕ → ServerEvent ℕ → Str
encode version (subscription_succeeded channel (some p)) = version ∷ p.count ∷ channel
encode version (raw frame) = frame
encode version _ = version ∷ []

nat_beq_refl : (v : ℕ) → nat_beq v v ≡ true
nat_beq_refl v = ground arith

abbrev wire : Wire ℕ
wire = record { value_eq = nat_beq; value_eq_refl = nat_beq_refl; encode = encode }

abbrev room : Str
room = 112 ∷ 114 ∷ 45 ∷ 49 ∷ []

abbrev app : Str
app = 97 ∷ []

abbrev sock : ℕ → SocketId
sock n = from_raw (n ∷ 46 ∷ n ∷ [])

abbrev handle : ℕ → ConnectionHandle ℕ
handle n = record { socket_id = sock n; mailbox = n }

abbrev ann : ℕ → PresenceMember ℕ
ann info = record { user_id = 65 ∷ []; user_info = info }

abbrev bob : ℕ → PresenceMember ℕ
bob info = record { user_id = 66 ∷ []; user_info = info }

-- Sockets 49 and 50 are ann's, 51 is bob's, and 52 joined and left.
abbrev changes : List (Change ℕ ℕ)
changes =
    leaves (sock 52)
    ∷ joins (handle 52) (some (bob 9))
    ∷ joins (handle 51) (some (bob 3))
    ∷ joins (handle 50) (some (ann 2))
    ∷ joins (handle 49) (some (ann 1))
    ∷ []

abbrev shared : ChannelState ℕ ℕ
shared = history wire room changes

history-IsValid_example : IsValid wire room (history wire room changes)
history-IsValid_example = history-IsValid wire room changes

lookup-history_example :
    lookup (sock 50) (history wire room changes).subscribers ≡ last_change (sock 50) changes
lookup-history_example = lookup-history wire room changes (sock 50)

add_announces_example :
    (j : PresenceJoin ℕ) × ((add wire room (handle 53) (some (ann 5)) shared).0 ≡ some j)
    × ((j.first_for_user ≡ true) ↔ NoOther (sock 53) (65 ∷ []) shared)
    × (j.roster_frame
        ≡ encode_roster wire room (add wire room (handle 53) (some (ann 5)) shared).1.users)
    × (j.member ≡ ann 5)
add_announces_example =
    add_announces wire room (handle 53) (ann 5) shared (history-IsValid wire room changes)

abbrev alone : ChannelState ℕ ℕ
alone = history wire room (joins (handle 49) (some (ann 1)) ∷ [])

alone-lookup :
    lookup (sock 49) alone.subscribers ≡ some (record { handle = handle 49; member = some (ann 1) })
unfolding from_raw socket_id_beq
alone-lookup = lookup-history wire room (joins (handle 49) (some (ann 1)) ∷ []) (sock 49)

remove_announces_example :
    (last : Bool) × ((remove wire (sock 49) alone).0
      ≡ some (record { last_for_user = last; user_id = 65 ∷ [] }))
    × ((last ≡ true) ↔ NoOther (sock 49) (65 ∷ []) alone)
remove_announces_example =
    remove_announces wire room (sock 49) (record { handle = handle 49; member = some (ann 1) })
      (ann 1) alone (history-IsValid wire room (joins (handle 49) (some (ann 1)) ∷ [])) alone-lookup
      refl

flatten-Perm : (cs : List (List (Send ℕ ℕ))) → Perm (flatten cs) (flatten cs)
flatten-Perm cs = Perm.refl _

send-owed_example :
    Perm
      (send flatten (fanout wire (cache_miss room) (some (sock 50)) shared).0)
      (owed (frame_of wire (cache_miss room)) (some (sock 50)) shared.subscribers)
send-owed_example =
    send-owed wire room flatten (cache_miss room) (some (sock 50)) shared flatten-Perm
      (history-IsValid wire room changes)

abbrev map : DashMap Key (ChannelState ℕ ℕ)
map = plain

empty-IsSettled : IsSettled wire map map.empty
empty-IsSettled a n s h = cc

abbrev one : map.Map
one = (subscribe wire map map.empty app room (handle 49) (some (ann 1))).1

one-IsSettled : IsSettled wire map one
one-IsSettled =
    subscribe-IsSettled wire map map.empty app room (handle 49) (some (ann 1)) empty-IsSettled

unsubscribe-IsSettled_example : IsSettled wire map (unsubscribe wire map one app room (sock 49)).1
unsubscribe-IsSettled_example = unsubscribe-IsSettled wire map one app room (sock 49) one-IsSettled

subscribe_edges_example :
    let (out, r') = subscribe wire map one app room (handle 50) (some (ann 2)) in
    (out.occupied ≡ not (channel_summary wire map one app room).occupied)
    × ((channel_summary wire map r' app room).occupied ≡ true)
    × ((channel_summary wire map r' app room).subscription_count ≡ out.subscription_count)
subscribe_edges_example = subscribe_edges wire map one app room (handle 50) (some (ann 2))

unsubscribe_edges_example :
    let (out, r') = unsubscribe wire map one app room (sock 49) in
    (out.vacated ≡ (
      (channel_summary wire map one app room).occupied
      && not (channel_summary wire map r' app room).occupied))
    × ((channel_summary wire map r' app room).subscription_count ≡ out.subscription_count)
unsubscribe_edges_example = unsubscribe_edges wire map one app room (sock 49) one-IsSettled

-- A second socket joins between the two halves of the first one's `unsubscribe`.
abbrev race : List (Action ℕ ℕ)
race =
    prunes app room
    ∷ subscribes app room (handle 50) none
    ∷ Interleaving.leaves app room (sock 49)
    ∷ subscribes app room (handle 49) none
    ∷ []

run-last_action_example :
    subscriber_in (sock 50) (map.get (run wire map race) (app, room))
    ≡ last_action app room (sock 50) race
run-last_action_example = run-last_action wire map race app room (sock 50)

abbrev last_one : ChannelState ℕ ℕ
last_one = (add wire room (handle 49) none default).1

abbrev single : map.Map
single = map.put map.empty (app, room) last_one

last_one-leaves : state_is_empty (remove wire (sock 49) last_one).1 ≡ true
unfolding add remove state_is_empty from_raw socket_id_beq
last_one-leaves = refl

vacated_twice_example :
    let (out, r') = unsubscribe_guarded wire map single app room (sock 49) in
    (out.vacated ≡ true) × ((unsubscribe_guarded wire map r' app room (sock 50)).0.vacated ≡ true)
vacated_twice_example =
    vacated_twice wire map single app room (sock 49) (sock 50) last_one refl last_one-leaves
