-- ===== src/App.antt =====
-- src/app/mod.rs: an app, its webhook endpoints and what `validate` asks of them.
pub mod Keys
pub mod Examples
use pylon.Prelude.{
  ℕ, zero, suc, Bool, true, false, not, ◌&&◌, ◌||◌, Option, none, some, List, [], ◌∷◌, nat_eq,
  list_eq, contains, length, nat_beq, leb, if◌then◌else◌, is_empty,
}
use pylon.Prelude.Results.{Result, ok, err}
use pylon.Protocol.SocketId.{Str}
use pylon.Protocol.Text.{ascii}

-- `WEBHOOK_EVENT_TYPES`
unfoldable pub webhook_event_types : List Str
webhook_event_types =
    ascii "channel_occupied"
    ∷ ascii "channel_vacated"
    ∷ ascii "member_added"
    ∷ ascii "member_removed"
    ∷ ascii "client_event"
    ∷ ascii "cache_miss"
    ∷ ascii "subscription_count"
    ∷ []

pub record WebhookConfig : Type 0 where
  pub url : Str
  pub event_types : List Str
  pub headers : List (Str × Str)

pub record App : Type 0 where
  pub name : Str
  pub id : Str
  pub key : Str
  pub secret : Str
  pub enabled : Bool
  pub client_messages_enabled : Bool
  pub capacity : ℕ
  pub max_backend_events_per_second : Option ℕ
  pub max_read_requests_per_second : Option ℕ
  pub subscription_count_enabled : Bool
  pub webhooks : List WebhookConfig
  pub has_channel_occupied_webhooks : Bool
  pub has_channel_vacated_webhooks : Bool
  pub has_member_added_webhooks : Bool
  pub has_member_removed_webhooks : Bool
  pub has_client_event_webhooks : Bool
  pub has_cache_miss_webhooks : Bool
  pub has_subscription_count_webhooks : Bool

-- Does any endpoint take the event?
unfoldable pub any_takes : Str → List WebhookConfig → Bool
any_takes name [] = false
any_takes name (w ∷ ws) = contains w.event_types name || any_takes name ws

-- `recompute_has_flags`
unfoldable pub recompute_has_flags : App → App
recompute_has_flags a = record a {
  has_channel_occupied_webhooks = any_takes (ascii "channel_occupied") a.webhooks;
  has_channel_vacated_webhooks = any_takes (ascii "channel_vacated") a.webhooks;
  has_member_added_webhooks = any_takes (ascii "member_added") a.webhooks;
  has_member_removed_webhooks = any_takes (ascii "member_removed") a.webhooks;
  has_client_event_webhooks = any_takes (ascii "client_event") a.webhooks;
  has_cache_miss_webhooks = any_takes (ascii "cache_miss") a.webhooks;
  has_subscription_count_webhooks = any_takes (ascii "subscription_count") a.webhooks;
}

-- `AppLookup`
pub data AppLookup : Type 0 where
  found : App → AppLookup
  disabled not_found : AppLookup

-- `AppLookup::into_enabled`
unfoldable pub into_enabled : AppLookup → Option App
into_enabled (found app) = some app
into_enabled disabled = none
into_enabled not_found = none

-- `AppLookupError`
pub data AppLookupError : Type 0 where
  backend decode : Str → AppLookupError

-- The characters of two and three bytes that are white space.
behind_wide : ℕ → Str → Option Str
behind_wide c (d ∷ e ∷ s) =
    if nat_beq c 194 && (nat_beq d 133 || nat_beq d 160)
    then some (e ∷ s)
    else if (nat_beq c 225 && nat_beq d 154 && nat_beq e 128)
        || (nat_beq c 226 && nat_beq d 128 && (leb 128 e && leb e 138))
        || (nat_beq c 226 && nat_beq d 128 && (nat_beq e 168 || nat_beq e 169 || nat_beq e 175))
        || (nat_beq c 226 && nat_beq d 129 && nat_beq e 159)
        || (nat_beq c 227 && nat_beq d 128 && nat_beq e 128)
    then some s
    else none
behind_wide c (d ∷ []) = if nat_beq c 194 && (nat_beq d 133 || nat_beq d 160) then some [] else none
behind_wide c [] = none

-- The white space that `trim` takes from the start of a text: the rest behind the first character, if
-- that is white space.
unfoldable pub behind_space : Str → Option Str
unfolding behind_wide
behind_space (c ∷ s) = if (leb 9 c && leb c 13) || nat_beq c 32 then some s else behind_wide c s
behind_space [] = none

-- `str::trim().is_empty()`, by the count of bytes
blank_within : ℕ → Str → Bool
blank_within fuel [] = true
blank_within zero (c ∷ s) = false
blank_within (suc fuel) (c ∷ s) = elim (behind_space (c ∷ s)) [
  | none ↦ false
  | some rest ↦ blank_within fuel rest
]

unfoldable pub is_blank : Str → Bool
unfolding blank_within
is_blank s = blank_within (length s) s

-- The reasons for which `validate` fails, without the app's name in their text.
pub data AppError : Type 0 where
  empty_id empty_key key_with_colon empty_secret : AppError
  empty_url no_event_types : ℕ → AppError
  unknown_event_type : ℕ → Str → AppError

check_types : ℕ → List Str → Result (Unit {0}) AppError
check_types i [] = ok tt
check_types i (t ∷ ts) =
    let rest = check_types i ts in
    if not (contains webhook_event_types t) then err (unknown_event_type i t) else rest

check_webhooks : ℕ → List WebhookConfig → Result (Unit {0}) AppError
unfolding check_types
check_webhooks i [] = ok tt
check_webhooks i (w ∷ ws) =
    let rest = check_webhooks (suc i) ws in
    if is_blank w.url
    then err (empty_url i)
    else if is_empty w.event_types
    then err (no_event_types i)
    else elim (check_types i w.event_types) [ err e ↦ err e | ok u ↦ rest ]

-- `App::validate`
unfoldable pub validate : App → Result (Unit {0}) AppError
unfolding check_webhooks
validate a =
    if is_blank a.id
    then err empty_id
    else if is_blank a.key
    then err empty_key
    else if contains a.key 58
    then err key_with_colon
    else if is_blank a.secret
    then err empty_secret
    else check_webhooks 0 a.webhooks
