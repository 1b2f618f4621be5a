-- ===== src/RateLimit/Retry.antt =====
-- The Retry-After of a refusal (internal/ratelimit/model.go: Allow, RetryMs).
use native.Mathlib.Decide.{dec_le}
use server_flow.Prelude.{
  ℕ, ◌+◌, ◌-◌, ◌≤◌, ◌<◌, ◌≡◌, ap, true, false, ◌↔◌, Option, none, some, arith, max,
}
use server_flow.Prelude.Bytes.{bytes_eq}
use server_flow.Prelude.Assoc.{lookup}
use server_flow.RateLimit.Model.{
  Params, Model, ModelRequest, Bucket, capacity, peek, refill, need, ceil_div, allow,
}
use server_flow.RateLimit.Refill.{refill_mono, need-le-capacity, wait_fills, wait_needed}
use server_flow.RateLimit.Charge.{
  Quota, by_requests, by_tokens, by_model, per_minute, level_for, need_for, key_for, cost_of,
}
use server_flow.RateLimit.Decision.{
  wait_of, wait_for, lease_wait, worst_of, allow-outcome, allow-buckets, allow-params,
  verdict_waits,
}
use server_flow.RateLimit.Allow.{allow-Admits, allow-admits}

-- The stamp of a bucket, if there is one, is not in the future.
abbrev pub IsPast : Option Bucket → ℕ → Type 0
IsPast none now = Unit
IsPast (some b) now = b.at ≤ now

peek_mono :
    (p : Params) (b : Option Bucket) (s t quota : ℕ) → s ≤ t → peek p b s quota ≤ peek p b t quota
unfolding peek
peek_mono p none s t quota h = omega arith
peek_mono p (some b) s t quota h = refill_mono p b s t quota h

-- From `now` on a quota has enough exactly once its wait is over.
module _ (p : Params) (now quota n : ℕ) (pos : 0 < quota) (fits : n ≤ capacity p quota) where
  ready :
      (b : Option Bucket)
      → IsPast b now
      → (t : ℕ) → now ≤ t
      → (n ≤ peek p b t quota) ↔ (now + wait_of quota (peek p b now quota) n ≤ t)
  unfolding peek
  ready none past t h = ground arith
  ready (some b) past t h = elim (dec_le n (refill p b now quota)) [
    | yes full ↦ ground (arith, refill_mono p b now t quota)
    | no short ↦
        let lt : refill p b now quota < n = omega arith in
        let fills = wait_fills p b now quota n pos past lt fits in
        let needed = wait_needed p b now quota n pos past lt fits t in
        let up = refill_mono p b (now + ceil_div (n - refill p b now quota) quota) t quota in
        ground arith
  ]

module _ (m : Model) (now : ℕ) (r : ModelRequest) (unlimited : r.limits.max_concurrent ≡ 0)
    (past : (k : Quota) → IsPast (lookup (key_for k r) m.buckets) now) where
  abbrev after : Model
  after = (allow m now r).0

  same_buckets : (allow m now r).1.allowed ≡ false → after.buckets ≡ m.buckets
  same_buckets e = ground (arith, allow-buckets m now r, allow-admits m now r)

  level_eq :
      (allow m now r).1.allowed ≡ false
      → (k : Quota) (t : ℕ)
      → level_for k after t r ≡ peek m.params (lookup (key_for k r) m.buckets) t (per_minute k r)
  level_eq e k t = λ i.
      peek (allow-params m now r i) (lookup (key_for k r) (same_buckets e i)) t (per_minute k r)

  need_eq : (k : Quota) → need_for k after r ≡ need_for k m r
  need_eq k = ap (λ p. need (cost_of k r) (capacity p (per_minute k r))) (allow-params m now r)

  -- After a refusal each quota is ready once its wait is over.
  quota_ready :
      (allow m now r).1.allowed ≡ false
      → (k : Quota) (t : ℕ) → 0 < per_minute k r
      → now ≤ t
      → (need_for k after r ≤ level_for k after t r) ↔ (now + wait_for k m now r ≤ t)
  quota_ready e k t pos h =
      rw (level_eq e k t, need_eq k)
        (ready m.params now (per_minute k r) (need_for k m r) pos (need-le-capacity _ _)
          (lookup (key_for k r) m.buckets) (past k) t h)

  retry_eq :
      (allow m now r).1.allowed ≡ false
      → (allow m now r).1.retry_ms
        ≡ max
            (max (wait_for by_requests m now r) (wait_for by_tokens m now r))
            (wait_for by_model m now r)
  unfolding worst_of
  retry_eq e = ground (
    arith,
    allow-outcome m now r,
    allow-admits m now r,
    verdict_waits (wait_for by_requests m now r) (wait_for by_tokens m now r) (lease_wait m now r)
        (wait_for by_model m now r),
  )

  -- A refused request that is not limited in concurrency, and whose buckets are not stamped in the
  -- future, is admitted at a later time, with no other request in between, exactly when the reported
  -- wait has passed.
  pub retry_exact :
      (allow m now r).1.allowed ≡ false
      → (t : ℕ) → now ≤ t
      → ((allow (allow m now r).0 t r).1.allowed ≡ true) ↔ (now + (allow m now r).1.retry_ms ≤ t)
  retry_exact e t h = (
    λ a.
        let b = (allow-Admits after t r).0 a in
        all_over (λ k pos. (quota_ready e k t pos h).0 (b.0 k pos)),
    λ a.
        (allow-Admits after t r).1
          ((λ k pos. (quota_ready e k t pos h).1 (over k a)), λ c. absurd (omega arith)),
  )
    where
      over : (k : Quota) → now + (allow m now r).1.retry_ms ≤ t → now + wait_for k m now r ≤ t
      over by_requests a = omega (arith, retry_eq e)
      over by_tokens a = omega (arith, retry_eq e)
      over by_model a = omega (arith, retry_eq e)

      one :
          (k : Quota)
          → ((k : Quota) → 0 < per_minute k r → now + wait_for k m now r ≤ t)
          → now + wait_for k m now r ≤ t
      one k f = ground (arith, f k)

      all_over :
          ((k : Quota) → 0 < per_minute k r → now + wait_for k m now r ≤ t)
          → now + (allow m now r).1.retry_ms ≤ t
      all_over f = omega (arith, retry_eq e, one by_requests f, one by_tokens f, one by_model f)
