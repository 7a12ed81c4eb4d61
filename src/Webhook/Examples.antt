-- ===== src/Webhook/Examples.antt =====
-- A batch of two apps, and a channel that is occupied again.
use pylon.Prelude.{ℕ, ◌≡◌, some, none, List, [], ◌∷◌, nat_eq, list_eq}
use pylon.Prelude.Results.{ok}
use pylon.Protocol.SocketId.{Str, from_raw}
use pylon.Protocol.Text.{ascii}
use pylon.App.{found}
use pylon.Webhook.Event.{WebhookEvent, channel_vacated, channel_occupied, cache_miss}
use pylon.Webhook.Dispatcher.{Apps, usable, deliver_found}
use pylon.Webhook.Occupancy.{fire, adapter_occupancy}
use pylon.Webhook.Grace.{fire-joined}
use pylon.Adapter.Local.{local}
use pylon.Session.Samples.{sample_app, sample_stores}
use pylon.Session.Examples.{joined_room, room, node_joined}

abbrev apps : Apps
apps id = ok (found sample_app)

abbrev one : Str
one = ascii "1"

abbrev batch : List (WebhookEvent ℕ)
batch = channel_vacated one room ∷ cache_miss (2 ∷ []) room ∷ channel_occupied one room ∷ []

fire-joined_example :
    (fire {Value = ℕ} apps
        (some (adapter_occupancy (local sample_stores) joined_room.node))
        5
        (channel_vacated one room)
      ≡ [])
    × (fire {Value = ℕ} apps none 5 (channel_vacated one room)
        ≡ deliver_found (usable (apps one)) 5 (channel_vacated one room ∷ []))
fire-joined_example =
    fire-joined sample_stores apps 5 joined_room.node one room (from_raw (ascii "7.7")) node_joined
