-- ===== src/Protocol/Json.antt =====
-- What the sources use of `serde_json::Value`, and the two documents that a client signs:
-- src/presence/member.rs and src/user/mod.rs.
use mathlib.Core.Option
use pylon.Prelude.{Bool, Option, none, some, List, [], ◌∷◌, if◌then◌else◌, is_empty}
use pylon.Prelude.Results.{Result, ok, err}
use pylon.Protocol.SocketId.{Str}
use pylon.Protocol.Text.{ascii}
use pylon.Channel.Types.{PresenceMember}

pub record Json (Value : Type 0) : Type 0 where
  -- `serde_json::from_str`, and `to_string`
  pub from_str : Str → Option Value
  pub to_string : Value → Str
  -- `Value::get` with a key, `as_array`
  pub get : Value → Str → Option Value
  pub as_array : Value → Option (List Value)
  -- the text of a `Value::String`, and the printed form of a `Value::Number`
  pub as_str : Value → Option Str
  pub number_text : Value → Option Str
  -- `Value::String` and `Value::Null`
  pub string : Str → Value
  pub null : Value
  pub is_null : Value → Bool

pub data ChannelDataError : Type 0 where
  not_json missing_user_id : ChannelDataError

pub data UserDataError : Type 0 where
  user_not_json missing_id : UserDataError

pub record AuthenticatedUser : Type 0 where
  pub id : Str
  pub user_data_raw : Str
  pub watchlist : List Str

module _ {Value : Type 0} (j : Json Value) where
  -- A string, or else a number's text.
  text_or_number : Value → Option Str
  text_or_number v = elim (j.as_str v) [ some s ↦ some s | none ↦ j.number_text v ]

  member_of : Value → Option Str → Result (PresenceMember Value) ChannelDataError
  member_of v none = err missing_user_id
  member_of v (some user_id) =
      ok (record {
        user_id = user_id;
        user_info = Option.get_or (j.get v (ascii "user_info")) j.null;
      })

  -- `parse_channel_data`
  unfoldable pub parse_channel_data : Str → Result (PresenceMember Value) ChannelDataError
  unfolding text_or_number member_of
  parse_channel_data raw = elim (j.from_str raw) [
    | none ↦ err not_json
    | some v ↦ member_of v (Option.bind (j.get v (ascii "user_id")) text_or_number)
  ]

  -- The strings of an array; other entries are left out.
  texts : List Value → List Str
  texts [] = []
  texts (v ∷ vs) = let rest = texts vs in elim (j.as_str v) [ some s ↦ s ∷ rest | none ↦ rest ]

  watchlist_of : Value → List Str
  unfolding texts
  watchlist_of v = elim (Option.bind (j.get v (ascii "watchlist")) j.as_array) [
    | none ↦ []
    | some vs ↦ texts vs
  ]

  user_of : Str → Value → Option Str → Result AuthenticatedUser UserDataError
  unfolding watchlist_of
  user_of raw v none = err missing_id
  user_of raw v (some id) =
      if is_empty id
      then err missing_id
      else ok (record { id = id; user_data_raw = raw; watchlist = watchlist_of v })

  -- `parse_user_data`
  unfoldable pub parse_user_data : Str → Result AuthenticatedUser UserDataError
  unfolding user_of
  parse_user_data raw = elim (j.from_str raw) [
    | none ↦ err user_not_json
    | some v ↦ user_of raw v (Option.bind (j.get v (ascii "id")) j.as_str)
  ]
