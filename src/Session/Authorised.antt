-- ===== src/Session/Authorised.antt =====
-- src/ws/subscribe.rs: what an admitted subscription has shown.
use mathlib.Core.Option
use pylon.Prelude.{
  ◌≡◌, ◌≢◌, ◌≤◌, ◌<◌, ◌⊎◌, refl, true, false, not, ◌&&◌, Option, none, some, nat_beq, leb, arith,
  Option-cases, inl, inr, length, contains, list_eq, nat_eq,
}
use pylon.Auth.{verify_channel}
use pylon.Prelude.Results.{ok, Result-cases}
use pylon.Protocol.SocketId.{Str}
use pylon.Protocol.Text.{ascii, char_count}
use pylon.Protocol.Json.{parse_channel_data}
use pylon.Channel.Types.{PresenceMember, has_user}
use pylon.Channel.Registry.{starts_with}
use pylon.Channel.Kind.{
  AuthKind, public, private, private_encrypted, presence, channel_info_of, validate_channel_name,
  server_to_user_prefix, strip_prefix,
}
use pylon.Session.{Platform, Config, Moment, Session, is_saturated, socket_text}
use pylon.Session.Verdict.{
  admitted, verdict, judge_named, judge_user_channel, judge_auth, judge_private, judge_presence,
  judge_presence_data, judge_member, verify, presence_full, info_too_large,
}

module _ {Value Mailbox : Type 0} (p : Platform Value Mailbox) (c : Config Mailbox) where
  -- A member within the limits.
  pub record IsWithin (channel : Str) (s : Session p) (m : PresenceMember Value) : Type 0 where
    pub short_id : char_count m.user_id ≤ c.limits.max_presence_user_id_length
    pub small_info :
        (p.json.is_null m.user_info ≡ true)
        ⊎ length (p.json.to_string m.user_info) ≤ c.limits.max_presence_user_info_bytes
    pub not_full :
        (c.clustered ≡ true)
        ⊎ (has_user m.user_id (p.adapter.presence_members s.node c.app.id channel) ≡ true)
        ⊎ (Option.get_or (p.adapter.channel s.node c.app.id channel).user_count 0
            < c.limits.max_presence_members)

  judge_member-IsWithin :
      (channel : Str) (m : PresenceMember Value) (s : Session p) (o : Option (PresenceMember Value))
      → judge_member p c channel m s ≡ admitted o
      → (o ≡ some m) × IsWithin channel s m
  unfolding judge_member info_too_large presence_full
  judge_member-IsWithin channel m s o h = (
    ground arith,
    record { short_id = ground arith; small_info = ground arith; not_full = ground arith },
  )

  -- What each kind of channel asks for, by the member that it then joins with.
  abbrev pub Verifies : Str → Option Str → Str → Type 0
  Verifies channel payload token =
      verify_channel p.hmac c.app.key c.app.secret (socket_text p c) channel payload token ≡ ok tt

  abbrev pub Authorised :
      AuthKind → Str → Option Str → Option Str → Session p → Option (PresenceMember Value) → Type 0
  Authorised public channel auth payload s o = o ≡ none
  Authorised presence channel auth payload s o =
      (token : Str) × (doc : Str) × (m : PresenceMember Value) × (auth ≡ some token)
      × (payload ≡ some doc)
      × Verifies channel (some doc) token
      × (parse_channel_data p.json doc ≡ ok m)
      × (o ≡ some m)
      × IsWithin channel s m
      × (c.capabilities.presence ≡ true)
  Authorised private_encrypted channel auth payload s o =
      (token : Str) × (auth ≡ some token)
      × Verifies channel none token
      × (o ≡ none)
      × (c.capabilities.encrypted_channels ≡ true)
  Authorised private channel auth payload s o =
      (token : Str) × (auth ≡ some token) × Verifies channel none token × (o ≡ none)

  pub record Admission (t : Moment) (channel : Str) (auth payload : Option Str) (s : Session p)
      (o : Option (PresenceMember Value)) : Type 0 where
    pub fresh : contains s.subscribed channel ≡ false
    pub room :
        (c.limits.max_subscriptions_per_connection ≡ 0)
        ⊎ (length s.subscribed < c.limits.max_subscriptions_per_connection)
    pub calm : t.saturated ≢ some true
    pub own_name : strip_prefix channel server_to_user_prefix ≡ none
    pub unreserved : starts_with channel (ascii "#") ≡ false
    pub cache_capable :
        (channel_info_of channel).cache ≡ true → c.capabilities.cache_channels ≡ true
    pub valid_name : validate_channel_name channel c.limits.max_channel_name_length ≡ true
    pub authorised : Authorised (channel_info_of channel).auth channel auth payload s o

  private-Authorised :
      (channel : Str) (auth payload : Option Str) (s : Session p)
      (o : Option (PresenceMember Value))
      → judge_private p c channel auth ≡ admitted o
      → Authorised private channel auth payload s o
  unfolding judge_private verify
  private-Authorised channel none payload s o h = absurd (ground arith)
  private-Authorised channel (some token) payload s o h =
      elim (Result-cases (verify p c channel none token)) [
        | inl (u, e) ↦ (token, refl, ground arith, ground arith)
        | inr (x, e) ↦ absurd (ground arith)
      ]

  presence-Authorised :
      (channel : Str) (auth payload : Option Str) (s : Session p)
      (o : Option (PresenceMember Value))
      → c.capabilities.presence ≡ true
      → judge_presence p c channel auth payload s ≡ admitted o
      → Authorised presence channel auth payload s o
  unfolding judge_presence judge_presence_data verify
  presence-Authorised channel none payload s o able h = absurd (ground arith)
  presence-Authorised channel (some token) none s o able h = absurd (ground arith)
  presence-Authorised channel (some token) (some doc) s o able h =
      elim (Result-cases (verify p c channel (some doc) token)) [
        | inr (x, e) ↦ absurd (ground arith)
        | inl (u, e) ↦ elim (Result-cases (parse_channel_data p.json doc)) [
          | inr (x, f) ↦ absurd (ground arith)
          | inl (m, f) ↦
              let w = judge_member-IsWithin channel m s o (ground arith) in
              (token, doc, m, refl, refl, ground arith, f, w.0, w.1, able)
        ]
      ]

  judge_auth-Authorised :
      (k : AuthKind) (channel : Str) (auth payload : Option Str) (s : Session p)
      (o : Option (PresenceMember Value))
      → judge_auth p c k channel auth payload s ≡ admitted o
      → Authorised k channel auth payload s o
  unfolding judge_auth
  judge_auth-Authorised public channel auth payload s o h = ground arith
  judge_auth-Authorised private channel auth payload s o h =
      private-Authorised channel auth payload s o h
  judge_auth-Authorised private_encrypted channel auth payload s o h =
      let (token, e, v, f) = private-Authorised channel auth payload s o (ground arith) in
      (token, e, v, f, ground arith)
  judge_auth-Authorised presence channel auth payload s o h =
      presence-Authorised channel auth payload s o (ground arith) (ground arith)

  user_channel_refuses :
      (user_id : Str) (s : Session p) (o : Option (PresenceMember Value))
      → judge_user_channel p c user_id s ≡ admitted o
      → true ≡ false
  unfolding judge_user_channel
  user_channel_refuses user_id s o h = elim (Option-cases s.user) [
    | inl e ↦ ground arith
    | inr (u, e) ↦ ground arith
  ]

  judge_named-Admission :
      (t : Moment) (channel : Str) (auth payload : Option Str) (s : Session p)
      (o : Option (PresenceMember Value))
      → judge_named p c channel auth payload s ≡ admitted o
      → strip_prefix channel server_to_user_prefix ≡ none
      → contains s.subscribed channel ≡ false
      → (not (nat_beq c.limits.max_subscriptions_per_connection 0)
          && leb c.limits.max_subscriptions_per_connection (length s.subscribed))
        ≡ false
      → is_saturated t ≡ false
      → Admission t channel auth payload s o
  unfolding judge_named is_saturated
  judge_named-Admission t channel auth payload s o h own new room calm = record {
    fresh = new;
    room = ground arith;
    calm = λ e. absurd (ground arith);
    own_name = own;
    unreserved = ground arith;
    cache_capable = λ e. ground arith;
    valid_name = ground arith;
    authorised =
        judge_auth-Authorised (channel_info_of channel).auth channel auth payload s o
          (ground arith);
  }

  -- A subscription that the guards admit is new, leaves the cap of the connection, comes while the
  -- server is not saturated, has a valid name that is not reserved, is of a kind that the protocol
  -- version has, and has shown what its kind of channel asks for: a token that verifies for a private or
  -- encrypted channel, and for a presence channel a token that verifies for its data, from which the
  -- member is read, within the limits and the channel's cap.
  pub verdict-Admission :
      (t : Moment) (channel : Str) (auth payload : Option Str) (s : Session p)
      (o : Option (PresenceMember Value))
      → verdict p c t channel auth payload s ≡ admitted o
      → Admission t channel auth payload s o
  unfolding verdict
  verdict-Admission t channel auth payload s o h =
      elim (Option-cases (strip_prefix channel server_to_user_prefix)) [
        | inl e ↦
            judge_named-Admission t channel auth payload s o (ground arith) e (ground arith)
              (ground arith) (ground arith)
        | inr (user_id, e) ↦ absurd (ground (arith, user_channel_refuses user_id s o))
      ]
