-- ===== src/Auth/Authenticator.antt =====
-- internal/auth/authenticator.go: the cache in front of the key store. Each function that holds the mutex is one step, with the
-- reading of the clock as an argument. Times are nanoseconds; 0 is the zero time.
use server_flow.Prelude.{
  ℕ, ◌+◌, ◌*◌, ◌/◌, Bool, true, false, ◌&&◌, Option, none, some, List, [], ltb, leb, max,
  if◌then◌else◌,
}
use server_flow.Prelude.Bytes.{Bytes, bytes_eq}
use server_flow.Prelude.Assoc.{Assoc}
use server_flow.Auth.Types.{not_found, KeyRecord, Found, found, failed}
use server_flow.Auth.Lru.{Lru, new_lru, get, remove}

-- Durations that are not positive are 0.
pub record Config : Type 0 where
  pub cache_ttl : ℕ
  pub negative_ttl : ℕ
  pub cache_size : ℕ
  pub stale_grace : ℕ
  pub lookup_timeout : ℕ
  pub refresh_wait : ℕ
  pub max_lookups : ℕ

abbrev pub second : ℕ
second = 1000000000

abbrev pub default_config : Config
default_config = record {
  cache_ttl = 30 * second;
  negative_ttl = 5 * second;
  cache_size = 10000;
  stale_grace = 300 * second;
  lookup_timeout = 3 * second;
  refresh_wait = 250000000;
  max_lookups = 8;
}

abbrev pub touch_every : ℕ
touch_every = 60 * second

abbrev pub outage_backoff : ℕ
outage_backoff = second

pub record PosEntry : Type 0 where
  pub rec : KeyRecord
  pub fetched : ℕ
  pub last_touch : ℕ

pub record TouchReq : Type 0 where
  pub key_id : Bytes
  pub at : ℕ

-- A flight is a lookup that runs; it holds whether it refreshes a cached key, which its goroutine is told. The channel of
-- touches is a list, with the oldest request first.
pub record Authenticator : Type 0 where
  pub touches_store : Bool
  pub cfg : Config
  pub pos : Lru PosEntry
  pub neg : Lru ℕ
  pub flights : Assoc Bytes Bool
  pub outage : Bool
  pub down_until : ℕ
  pub touches : List TouchReq
  pub cache_hits : ℕ
  pub cache_misses : ℕ
  pub reserve : ℕ
  pub inflight_refresh : ℕ
  pub inflight_new : ℕ
  pub last_warn : ℕ

abbrev pub or_default : ℕ → ℕ → ℕ
or_default v d = if leb v 0 then d else v

unfoldable pub with_defaults : Config → Config
with_defaults cfg =
    let d = default_config in
    record {
      cache_ttl = or_default cfg.cache_ttl d.cache_ttl;
      negative_ttl = or_default cfg.negative_ttl d.negative_ttl;
      cache_size = or_default cfg.cache_size d.cache_size;
      stale_grace = cfg.stale_grace;
      lookup_timeout = or_default cfg.lookup_timeout d.lookup_timeout;
      refresh_wait = or_default cfg.refresh_wait d.refresh_wait;
      max_lookups = if ltb cfg.max_lookups 2 then d.max_lookups else cfg.max_lookups;
    }

-- `touches_store`: the store records when a key was last used.
unfoldable pub new_authenticator : Bool → Config → Authenticator
new_authenticator touches_store config =
    let cfg = with_defaults config in
    record {
      touches_store = touches_store;
      cfg = cfg;
      pos = new_lru cfg.cache_size;
      neg = new_lru cfg.cache_size;
      flights = [];
      outage = false;
      down_until = 0;
      touches = [];
      cache_hits = 0;
      cache_misses = 0;
      reserve = max 1 (cfg.max_lookups / 4);
      inflight_refresh = 0;
      inflight_new = 0;
      last_warn = 0;
    }

-- 0 ≤ now - at < limit
abbrev pub is_younger : ℕ → ℕ → ℕ → Bool
is_younger at now limit = ltb now (at + limit) && leb at now

-- What cachedLocked answers: a fresh answer, an entry within its grace, or nothing.
pub data Cached : Type 0 where
  hit : (answer : Found) → Cached
  stale : (entry : PosEntry) → Cached
  missing : Cached

abbrev pub from_neg : Authenticator → Bytes → ℕ → Option ℕ → Authenticator × Cached
from_neg a prefix now none = (a, missing)
from_neg a prefix now (some at) =
    if is_younger at now a.cfg.negative_ttl
    then (a, hit (failed not_found))
    else (record a { neg = remove prefix a.neg }, missing)

unfoldable pub negative_locked : Authenticator → Bytes → ℕ → Authenticator × Cached
negative_locked a prefix now =
    let (neg, at) = get prefix a.neg in from_neg (record a { neg = neg }) prefix now at

abbrev pub from_pos : Authenticator → Bytes → ℕ → Option PosEntry → Authenticator × Cached
from_pos a prefix now none = negative_locked a prefix now
from_pos a prefix now (some e) =
    if is_younger e.fetched now a.cfg.cache_ttl
    then (a, hit (found e.rec))
    else if is_younger e.fetched now (a.cfg.cache_ttl + a.cfg.stale_grace)
    then (a, stale e)
    else negative_locked (record a { pos = remove prefix a.pos }) prefix now

unfoldable pub cached_locked : Authenticator → Bytes → ℕ → Authenticator × Cached
cached_locked a prefix now =
    let (pos, e) = get prefix a.pos in from_pos (record a { pos = pos }) prefix now e

abbrev pub is_hit : Cached → Bool
is_hit (hit answer) = true
is_hit (stale entry) = false
is_hit missing = false

-- The first part of `record`: what the caches say, whether the store is left alone, and the counters.
unfoldable pub consult : Authenticator → Bytes → ℕ → Authenticator × Cached × Bool
consult a prefix now =
    let (b, c) = cached_locked a prefix now in
    let down = ltb now b.down_until in
    if is_hit c
    then (record b { cache_hits = b.cache_hits + 1 }, c, down)
    else (record b { cache_misses = b.cache_misses + 1 }, c, down)
