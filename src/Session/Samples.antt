-- ===== src/Session/Samples.antt =====
-- A platform, a connection's configuration and a fresh session, for the examples. A JSON value is a
-- number: 1 is a presence document, 2 a user's, and the others are their parts.
use mathlib.Core.List.{flatten}
use pylon.Prelude.{
  ℕ, ◌+◌, ◌-◌, ◌*◌, ◌/◌, ◌≡◌, true, false, Option, none, some, [], ◌∷◌, ◌++◌, nat_beq, leb, ltb,
  min, List, arith, ◌==◌, list_eq, nat_eq, pair_eq, if◌then◌else◌,
}
use pylon.Maps.Assoc.{insert as map_insert, lookup, contains_key}
use pylon.Maps.Shards.{plain}
use pylon.Channel.Cache.{CacheEntry, Expiry, Moka, cache_new}
use pylon.Protocol.SocketId.{Str, from_raw, socket_id_eq}
use pylon.Protocol.Text.{ascii}
use pylon.Protocol.Event.{ServerEvent, raw}
use pylon.Protocol.Command.{v7}
use pylon.Protocol.Json.{Json}
use pylon.Rate.{F64, new_window}
use pylon.App.{App}
use pylon.User.Registry.{no_users}
use pylon.Adapter.Local.{Stores, LocalAdapter, local}
use pylon.Session.{Platform, Config, Moment, Session}

abbrev encode_sample : ℕ → ServerEvent ℕ → Str
encode_sample version (raw frame) = frame
encode_sample version _ = version ∷ []

pub same_value : (v : ℕ) → nat_beq v v ≡ true
same_value v = ground arith

abbrev pub whole_numbers : F64
whole_numbers = record {
  Carrier = ℕ;
  from = λ n. n;
  add = λ a b. a + b;
  sub = λ a b. a - b;
  mul = λ a b. a * b;
  div = λ a b. a / b;
  min = min;
  le = leb;
  to_u32 = λ n. n;
  ceil = λ n. n;
}

abbrev pub presence_doc : Str
presence_doc = ascii "{\"user_id\":\"ann\"}"

abbrev pub user_doc : Str
user_doc = ascii "{\"id\":\"ann\"}"

abbrev sample_get : ℕ → Str → Option ℕ
sample_get v key =
    if nat_beq v 1
    then (if key == ascii "user_id" then some 3 else none)
    else if nat_beq v 2
    then (if key == ascii "id" then some 3 else none)
    else none

abbrev pub sample_json : Json ℕ
sample_json = record {
  from_str = λ s. if s == presence_doc then some 1 else if s == user_doc then some 2 else none;
  to_string = λ v. v ∷ [];
  get = sample_get;
  as_array = λ v. none;
  as_str = λ v. if nat_beq v 3 then some (ascii "ann") else none;
  number_text = λ v. none;
  string = λ s. 4;
  null = 0;
  is_null = λ v. nat_beq v 0;
}

-- A cache that drops an entry when the time that its policy gave has passed.
pub record TimedCache : Type 0 where
  pub policy : Expiry
  pub entries : List ((Str × Str) × (Option ℕ × CacheEntry))

abbrev expiring : ℕ → Option ℕ → Option ℕ
expiring now none = none
expiring now (some ttl) = some (now + ttl)

abbrev live : ℕ → Option (Option ℕ × CacheEntry) → Option CacheEntry
live now none = none
live now (some (none, entry)) = some entry
live now (some (some deadline, entry)) = if ltb now deadline then some entry else none

abbrev timed_cache : Moka
timed_cache = record {
  Cache = TimedCache;
  build = λ policy. record { policy = policy; entries = [] };
  insert = λ now m key entry. record m {
    entries =
        map_insert key
          (
            expiring now (
                if contains_key key m.entries
                then m.policy.expire_after_update entry
                else m.policy.expire_after_create entry),
            entry,
          )
          m.entries;
  };
  get = λ now m key. live now (lookup key m.entries);
}

abbrev pub sample_stores : Stores ℕ ℕ
sample_stores = record {
  wire = record { value_eq = nat_beq; value_eq_refl = same_value; encode = encode_sample };
  channels = plain;
  cached = timed_cache;
  users = plain;
  watching = plain;
  apps = plain;
  spread = flatten;
}

abbrev pub sample_platform : Platform ℕ ℕ
sample_platform = record {
  json = sample_json;
  f64 = whole_numbers;
  adapter = local sample_stores;
  hmac = λ secret message. secret ++ message;
  is_utf8 = λ s. true;
}

abbrev pub sample_app : App
sample_app = record {
  name = ascii "shop";
  id = ascii "1";
  key = ascii "k";
  secret = ascii "s";
  enabled = true;
  client_messages_enabled = true;
  capacity = 0;
  max_backend_events_per_second = none;
  max_read_requests_per_second = none;
  subscription_count_enabled = true;
  webhooks = [];
  has_channel_occupied_webhooks = true;
  has_channel_vacated_webhooks = true;
  has_member_added_webhooks = true;
  has_member_removed_webhooks = true;
  has_client_event_webhooks = true;
  has_cache_miss_webhooks = true;
  has_subscription_count_webhooks = true;
}

abbrev pub sample_config : Config ℕ
sample_config = record {
  app = sample_app;
  socket_id = from_raw (ascii "7.7");
  mailbox = 7;
  limits = record {
    max_presence_members = 10;
    max_event_payload_bytes = 100;
    max_watchlist_size = 10;
    max_channel_name_length = 200;
    max_event_name_length = 200;
    max_client_events_per_second = 2;
    max_presence_user_id_length = 20;
    max_presence_user_info_bytes = 20;
    max_subscriptions_per_connection = 2;
  };
  clustered = false;
  capabilities = v7;
}

abbrev pub calm : Moment
calm = record { saturated = some false; now = 0 }

abbrev pub empty_node : LocalAdapter sample_stores
empty_node = record {
  registry = plain.empty;
  cache = cache_new timed_cache;
  users = no_users plain plain;
  app_registry = plain.empty;
  bcast_sink = none;
}

abbrev pub fresh : Session sample_platform
fresh = record {
  subscribed = [];
  user = none;
  presence_membership = [];
  client_event_rate = new_window whole_numbers 2;
  node = empty_node;
  sent = [];
  hooks = [];
}
