-- ===== src/RateLimit/Model.antt =====
-- internal/ratelimit/model.go and the types of limiter.go. Quotas, costs and times are natural
-- numbers: the limiter clamps them before a check (redis.go), and a quota of 0 is "not limited".
use server_flow.Prelude.{
  ℕ, ◌+◌, ◌-◌, ◌*◌, ◌/◌, min, max, Bool, true, false, Option, none, some, List, [], ◌∷◌, ◌++◌, ltb,
  leb, if◌then◌else◌, length, keep, count, ◌&&◌,
}
use server_flow.Prelude.Bytes.{Bytes, bytes_eq}
use server_flow.Prelude.Assoc.{Assoc, lookup, insert, delete}
use server_flow.RateLimit.Keys.{key_requests, key_tokens, key_concurrency, key_model}

-- How many scaled units make one token.
abbrev pub scale : ℕ
scale = 60000

abbrev pub concurrency_retry_ms : ℕ
concurrency_retry_ms = 1000

pub record Params : Type 0 where
  pub burst_seconds : ℕ
  pub lease_ttl_ms : ℕ

-- `no_limit` is Go's empty Limit.
pub data Limit : Type 0 where
  no_limit requests tokens concurrency model unavailable : Limit

pub record Limits : Type 0 where
  pub requests_per_minute : ℕ
  pub tokens_per_minute : ℕ
  pub max_concurrent : ℕ

pub record Outcome : Type 0 where
  pub allowed : Bool
  pub limit : Limit
  pub retry_ms : ℕ

pub record ModelRequest : Type 0 where
  pub tenant_id : Bytes
  pub model_name : Bytes
  pub cost : ℕ
  pub limits : Limits
  pub model_requests_per_minute : ℕ
  pub lease_id : Bytes

-- A stored bucket always has `set`, so a bucket that is not set is an absent entry.
pub record Bucket : Type 0 where
  pub level : ℕ
  pub at : ℕ

pub record Model : Type 0 where
  pub params : Params
  pub buckets : Assoc Bytes Bucket
  pub leases : Assoc Bytes (Assoc Bytes ℕ)

unfoldable pub new_model : Params → Model
new_model p = record { params = p; buckets = []; leases = [] }

-- quota * BurstSeconds * 1000
unfoldable pub capacity : Params → ℕ → ℕ
capacity p quota = quota * p.burst_seconds * 1000

-- The level of a stored bucket after refilling. `-` stops at 0, as `elapsed` does.
unfoldable pub refill : Params → Bucket → ℕ → ℕ → ℕ
refill p b now quota =
    let window = p.burst_seconds * 1000 in
    let elapsed = if ltb window (now - b.at) then window else now - b.at in
    let level = b.level + elapsed * quota in
    if ltb (capacity p quota) level then capacity p quota else level

unfoldable pub peek : Params → Option Bucket → ℕ → ℕ → ℕ
peek p none now quota = capacity p quota
peek p (some b) now quota = refill p b now quota

unfoldable pub need : ℕ → ℕ → ℕ
need cost cap = min (cost * scale) cap

unfoldable pub ceil_div : ℕ → ℕ → ℕ
ceil_div a b = (a + b - 1) / b

pub record Check : Type 0 where
  pub limit : Limit
  pub key : Bytes
  pub quota : ℕ
  pub level : ℕ
  pub need : ℕ

-- The closure `add` of Allow.
unfoldable pub add : Model → ℕ → Limit → Bytes → ℕ → ℕ → List Check → List Check
add m now l key quota cost checks =
    if leb quota 0
    then checks
    else checks
      ++ (record {
        limit = l;
        key = key;
        quota = quota;
        level = peek m.params (lookup key m.buckets) now quota;
        need = need cost (capacity m.params quota);
      }
          ∷ [])

unfoldable pub checks_of : Model → ℕ → ModelRequest → List Check
checks_of m now r = add m now model (key_model r.model_name) r.model_requests_per_minute 1 (
    add m now tokens (key_tokens r.tenant_id) r.limits.tokens_per_minute r.cost
      (add m now requests (key_requests r.tenant_id) r.limits.requests_per_minute 1 []))

-- The zero Outcome.
abbrev pub no_refusal : Outcome
no_refusal = record { allowed = false; limit = no_limit; retry_ms = 0 }

unfoldable pub consider : Limit → ℕ → Outcome → Outcome
consider l wait worst =
    if ltb worst.retry_ms wait
    then record { allowed = false; limit = l; retry_ms = wait }
    else worst

abbrev pub is_model : Limit → Bool
is_model model = true
is_model _ = false

abbrev pub is_no_limit : Limit → Bool
is_no_limit no_limit = true
is_no_limit _ = false

abbrev pub is_short : Check → Bool
is_short c = ltb c.level c.need

-- The first loop over the checks, which leaves the model's quota for later.
unfoldable pub consider_tenant : List Check → Outcome → Outcome
consider_tenant [] worst = worst
consider_tenant (c ∷ cs) worst = consider_tenant cs (
    if is_short c
    then (if is_model c.limit
        then worst
        else consider c.limit (ceil_div (c.need - c.level) c.quota) worst)
    else worst)

-- The second loop.
unfoldable pub consider_model : List Check → Outcome → Outcome
consider_model [] worst = worst
consider_model (c ∷ cs) worst = consider_model cs (
    if is_model c.limit && is_short c
    then consider c.limit (ceil_div (c.need - c.level) c.quota) worst
    else worst)

abbrev pub get_leases : Option (Assoc Bytes ℕ) → Assoc Bytes ℕ
get_leases none = []
get_leases (some held) = held

abbrev pub is_some {ℓ} : {A : Type ℓ} → Option A → Bool
is_some none = false
is_some (some _) = true

-- Is the lease held at `now`?
abbrev pub is_live : ℕ → Bytes × ℕ → Bool
is_live now (id, expiry) = ltb now expiry

-- `delete(held, id)` for each expired lease; a missing map stays missing.
unfoldable pub expire : ℕ → Bytes → Assoc Bytes (Assoc Bytes ℕ) → Assoc Bytes (Assoc Bytes ℕ)
expire now key leases = elim (lookup key leases) [
  | none ↦ leases
  | some held ↦ insert key (keep (is_live now) held) leases
]

unfoldable pub consider_leases : ℕ → Assoc Bytes ℕ → Outcome → Outcome
consider_leases most held worst =
    if leb most (length held) then consider concurrency concurrency_retry_ms worst else worst

-- The loop that charges: the stamp never moves back.
abbrev pub stamp : Option Bucket → ℕ → ℕ
stamp none now = now
stamp (some b) now = max b.at now

unfoldable pub charge : ℕ → List Check → Assoc Bytes Bucket → Assoc Bytes Bucket
charge now [] buckets = buckets
charge now (c ∷ cs) buckets = charge now cs (
    insert c.key (record { level = c.level - c.need; at = stamp (lookup c.key buckets) now })
      buckets)

unfoldable pub allow : Model → ℕ → ModelRequest → Model × Outcome
allow m now r =
    let conc = key_concurrency r.tenant_id in
    let limited = ltb 0 r.limits.max_concurrent in
    let checks = checks_of m now r in
    let leases = if limited then expire now conc m.leases else m.leases in
    let held = get_leases (lookup conc leases) in
    let worst = consider_tenant checks no_refusal in
    let worst' = if limited then consider_leases r.limits.max_concurrent held worst else worst in
    let worst'' = consider_model checks worst' in
    if is_no_limit worst''.limit
    then (
      record m {
        buckets = charge now checks m.buckets;
        leases =
            if limited
            then insert conc (insert r.lease_id (now + m.params.lease_ttl_ms) held) leases
            else leases;
      },
      record { allowed = true; limit = no_limit; retry_ms = 0 },
    )
    else (record m { leases = leases }, worst'')

-- Release removes a lease and says whether it was held; deleting from a missing map does nothing.
unfoldable pub release : Model → Bytes → Bytes → Model × Bool
release m tenant lease =
    let key = key_concurrency tenant in
    elim (lookup key m.leases) [
      | none ↦ (m, false)
      | some held ↦ (
        record m { leases = insert key (delete lease held) m.leases },
        is_some (lookup lease held),
      )
    ]

-- Renew extends a lease that has not expired.
unfoldable pub renew : Model → ℕ → Bytes → Bytes → Model × Bool
renew m now tenant lease =
    let key = key_concurrency tenant in
    let held = get_leases (lookup key m.leases) in
    elim (lookup lease held) [
      | none ↦ (m, false)
      | some expiry ↦ if leb expiry now then (m, false) else (
        record m { leases = insert key (insert lease (now + m.params.lease_ttl_ms) held) m.leases },
        true,
      )
    ]

-- Held counts the leases of a tenant that have not expired.
unfoldable pub held : Model → ℕ → Bytes → ℕ
held m now tenant = count (is_live now) (get_leases (lookup (key_concurrency tenant) m.leases))
