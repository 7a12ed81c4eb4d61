-- ===== src/Channel/Cache.antt =====
-- src/channel/cache.rs: the last event of a cache channel. `moka`, which the repository does not hold,
-- keeps the entries and decides when one expires: it is a parameter, of which nothing is assumed.
use mathlib.Core.Option
use pylon.Prelude.{ℕ, Option, some}
use pylon.Protocol.SocketId.{Str}

pub record CachedEvent : Type 0 where
  pub event : Str
  pub payload : Str

-- The stored event and its time to live.
pub record CacheEntry : Type 0 where
  pub event : CachedEvent
  pub ttl : ℕ

-- `moka::Expiry`, as far as the repository writes it: how long an entry lives after its insertion and
-- after it was overwritten
pub record Expiry : Type 0 where
  pub expire_after_create : CacheEntry → Option ℕ
  pub expire_after_update : CacheEntry → Option ℕ

-- `moka::sync::Cache`, of which the calls that read the clock are told the time
pub record Moka : Type 1 where
  pub Cache : Type 0
  pub build : Expiry → Cache
  pub insert : ℕ → Cache → Str × Str → CacheEntry → Cache
  pub get : ℕ → Cache → Str × Str → Option CacheEntry

-- `PerEntryTtl`
abbrev pub per_entry_ttl : Expiry
per_entry_ttl = record {
  expire_after_create = λ entry. some entry.ttl;
  expire_after_update = λ entry. some entry.ttl;
}

module _ (k : Moka) where
  -- `CacheStore::new`
  abbrev pub cache_new : k.Cache
  cache_new = k.build per_entry_ttl

  -- `CacheStore::set` at a time
  unfoldable pub cache_set : ℕ → k.Cache → Str → Str → CachedEvent → ℕ → k.Cache
  cache_set now m app channel event ttl =
      k.insert now m (app, channel) (record { event = event; ttl = ttl })

  -- `CacheStore::get` at a time
  unfoldable pub cache_get : ℕ → k.Cache → Str → Str → Option CachedEvent
  cache_get now m app channel = Option.map (λ e. e.event) (k.get now m (app, channel))
