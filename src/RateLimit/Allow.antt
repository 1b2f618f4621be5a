-- ===== src/RateLimit/Allow.antt =====
-- The properties of Allow (internal/ratelimit/model.go).
use native.Mathlib.Omega.{arith}
use server_flow.Prelude.{
  ℕ, ◌+◌, ◌-◌, ◌*◌, min, max, refl, subst, Option, none, ◌≤◌, ◌<◌, ◌≡◌, ◌≢◌, sym, ◌∙◌, ap, true,
  false, ◌↔◌, some, leb→le, le→leb, length,
}
use server_flow.Prelude.Bytes.{Bytes, bytes_eq}
use server_flow.Prelude.Assoc.{lookup}
use server_flow.RateLimit.Keys.{IsBytes}
use server_flow.RateLimit.Model.{
  Model, ModelRequest, ceil_div, capacity, need, stamp, scale, Bucket, charge, checks_of, allow,
  is_no_limit,
}
use server_flow.RateLimit.Refill.{le-ceil_div}
use server_flow.RateLimit.Charge.{
  Quota, by_requests, by_tokens, by_model, per_minute, level_for, need_for, key_for, charged,
  cost_of, lookup-charge, lookup-charge_other,
}
use server_flow.RateLimit.Decision.{
  wait_of, wait_for, live_leases, lease_wait, verdict, worst_of, admits, allow-outcome,
  allow-buckets, verdict_waits,
}

-- Every quota has enough left, and the tenant has a free slot.
abbrev pub Admits : Model → ℕ → ModelRequest → Type 0
Admits m now r =
    ((k : Quota) → 0 < per_minute k r → need_for k m r ≤ level_for k m now r)
    × (0 < r.limits.max_concurrent → length (live_leases m now r) < r.limits.max_concurrent)

ceil_div-zero : (a q : ℕ) → 0 < q → ceil_div a q ≡ 0 → a ≡ 0
ceil_div-zero a q h e = let k : a ≤ 0 * q = rw e at (le-ceil_div a q h) in omega arith

wait_of-zero : (q level n : ℕ) → (wait_of q level n ≡ 0) ↔ (0 < q → n ≤ level)
wait_of-zero q level n = (λ e h. ground (arith, ceil_div-zero (n - level) q), λ f. ground arith)

verdict_zero :
    (w1 w2 w3 w4 : ℕ)
    → (is_no_limit (verdict w1 w2 w3 w4).limit ≡ true) ↔ ((w1 ≡ 0) × (w2 ≡ 0) × (w3 ≡ 0) × (w4 ≡ 0))
verdict_zero w1 w2 w3 w4 =
    let v = verdict_waits w1 w2 w3 w4 in
    (
      λ e.
          let z = leb→le _ _ (sym v.1 ∙ e) in
          (
            omega (arith, v.0, z),
            omega (arith, v.0, z),
            omega (arith, v.0, z),
            omega (arith, v.0, z),
          ),
      λ f. v.1 ∙ le→leb _ _ (omega (arith, v.0, f)),
    )

admits_iff : (m : Model) (now : ℕ) (r : ModelRequest) → (admits m now r ≡ true) ↔ Admits m now r
unfolding admits worst_of
admits_iff m now r =
    let z =
      verdict_zero (wait_for by_requests m now r) (wait_for by_tokens m now r) (lease_wait m now r)
        (wait_for by_model m now r) in
    (
      λ e. (λ k. (wait_of-zero _ _ _).0 (each (z.0 e) k), lease (z.0 e)),
      λ a. z.1 (
        (wait_of-zero _ _ _).1 (a.0 by_requests),
        (wait_of-zero _ _ _).1 (a.0 by_tokens),
        ground (arith, a.1),
        (wait_of-zero _ _ _).1 (a.0 by_model),
      ),
    )
  where
    each :
        (wait_for by_requests m now r ≡ 0)
          × (wait_for by_tokens m now r ≡ 0)
          × (lease_wait m now r ≡ 0)
          × (wait_for by_model m now r ≡ 0)
        → (k : Quota) → wait_for k m now r ≡ 0
    each h by_requests = h.0
    each h by_tokens = h.1
    each h by_model = h.3

    lease :
        (wait_for by_requests m now r ≡ 0)
          × (wait_for by_tokens m now r ≡ 0)
          × (lease_wait m now r ≡ 0)
          × (wait_for by_model m now r ≡ 0)
        → 0 < r.limits.max_concurrent
        → length (live_leases m now r) < r.limits.max_concurrent
    lease h = ground (arith, h.2)

worst_refused : (m : Model) (now : ℕ) (r : ModelRequest) → (worst_of m now r).allowed ≡ false
unfolding worst_of
worst_refused m now r =
    (verdict_waits (wait_for by_requests m now r) (wait_for by_tokens m now r) (lease_wait m now r)
      (wait_for by_model m now r)).2

pub allow-admits :
    (m : Model) (now : ℕ) (r : ModelRequest) → (allow m now r).1.allowed ≡ admits m now r
allow-admits m now r = ground (arith, allow-outcome m now r, worst_refused m now r)

-- A check admits a request exactly when every limited quota has at least the (clamped) cost left after
-- refilling and, where concurrency is limited, fewer live leases than the limit are held.
pub allow-Admits :
    (m : Model) (now : ℕ) (r : ModelRequest) → ((allow m now r).1.allowed ≡ true) ↔ Admits m now r
allow-Admits m now r = rw (allow-admits m now r) (admits_iff m now r)

-- A bucket is stamped with the present, or keeps its old stamp if that is later.
abbrev pub StampedAt : Option Bucket → ℕ → ℕ → Type 0
StampedAt none now at = at ≡ now
StampedAt (some old) now at = at ≡ max old.at now

-- What an admitted request leaves in the bucket of a quota: what the bucket had after refilling, less the cost, which a
-- full bucket clamps.
abbrev pub Spent : Quota → Model → ℕ → ModelRequest → Option Bucket → Type 0
Spent k m now r none = ⊥
Spent k m now r (some b) =
    (b.level + min (cost_of k r * scale) (per_minute k r * m.params.burst_seconds * 1000)
      ≡ level_for k m now r)
    × StampedAt (lookup (key_for k r) m.buckets) now b.at

stamp-StampedAt : (old : Option Bucket) (now : ℕ) → StampedAt old now (stamp old now)
stamp-StampedAt none now = refl
stamp-StampedAt (some old) now = ground arith

charged-Spent :
    (k : Quota) (m : Model) (now : ℕ) (r : ModelRequest)
    → need_for k m r ≤ level_for k m now r
    → Spent k m now r (some (charged k m now r))
unfolding need capacity
charged-Spent k m now r h = (omega (arith, h), stamp-StampedAt (lookup (key_for k r) m.buckets) now)

written :
    (m : Model) (now : ℕ) (r : ModelRequest)
    → (allow m now r).1.allowed ≡ true
    → (allow m now r).0.buckets ≡ charge now (checks_of m now r) m.buckets
written m now r e = ground (arith, allow-buckets m now r, allow-admits m now r)

pub allow-charged :
    (m : Model) (now : ℕ) (r : ModelRequest)
    → IsBytes r.tenant_id
    → IsBytes r.model_name
    → (allow m now r).1.allowed ≡ true
    → (k : Quota) → 0 < per_minute k r
    → lookup (key_for k r) (allow m now r).0.buckets ≡ some (charged k m now r)
allow-charged m now r ht hm e k h =
    ap (lookup (key_for k r)) (written m now r e) ∙ lookup-charge m now r ht hm k h

-- An admitted request whose names are byte strings leaves in the bucket of each limited quota what that had after refilling, less
-- the cost clamped to a full bucket, stamped with the present or the bucket's old stamp if that is later, so that a
-- stamp never moves back. It changes no other bucket; a refused request changes no bucket.
pub allow_all_or_nothing :
    (m : Model) (now : ℕ) (r : ModelRequest)
    → IsBytes r.tenant_id
    → IsBytes r.model_name
    → let (m', answer) = allow m now r in
      (answer.allowed ≡ true
        → (k : Quota) → 0 < per_minute k r
        → Spent k m now r (lookup (key_for k r) m'.buckets))
      × (answer.allowed ≡ true
          → (j : Bytes) → ((k : Quota) → 0 < per_minute k r → key_for k r ≢ j)
          → lookup j m'.buckets ≡ lookup j m.buckets)
      × (answer.allowed ≡ false → m'.buckets ≡ m.buckets)
allow_all_or_nothing m now r ht hm = (
  λ e k h.
      subst (Spent k m now r) (sym (allow-charged m now r ht hm e k h))
        (charged-Spent k m now r (((allow-Admits m now r).0 e).0 k h)),
  λ e j h. ap (lookup j) (written m now r e) ∙ lookup-charge_other m now r ht hm j h,
  λ e. ground (arith, allow-buckets m now r, allow-admits m now r),
)
