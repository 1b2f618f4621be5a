-- ===== src/RateLimit/Decision.antt =====
-- The answer of Allow (internal/ratelimit/model.go): when it admits, what it reports, and what it leaves.
use server_flow.Prelude.{
  ℕ, ◌+◌, ◌-◌, ◌≡◌, refl, sym, ◌∙◌, ap, Bool, true, false, ◌&&◌, List, [], ◌∷◌, ◌++◌, arith, ltb,
  leb, if◌then◌else◌, Option-cases, inl, inr, zero, suc, length, keep, max,
}
use server_flow.Prelude.Bytes.{Bytes, bytes_eq, bytes_beq_iff}
use server_flow.Prelude.Assoc.{Assoc, lookup, insert, lookup-insert}
use server_flow.RateLimit.Keys.{key_concurrency}
use server_flow.RateLimit.Model.{
  Model, ModelRequest, Outcome, Limit, Check, capacity, peek, need, ceil_div, add, checks_of,
  charge, consider, consider_tenant, consider_model, consider_leases, expire, is_live, get_leases,
  allow, requests, tokens, concurrency, model, no_limit, no_refusal, concurrency_retry_ms,
  is_no_limit, is_model,
}
use server_flow.RateLimit.Charge.{
  Quota, by_requests, by_tokens, by_model, per_minute, level_for, need_for, check_of,
}

-- How long a quota makes the request wait, in milliseconds; 0 when it admits.
abbrev pub wait_of : ℕ → ℕ → ℕ → ℕ
wait_of quota level n = if ltb 0 quota && ltb level n then ceil_div (n - level) quota else 0

abbrev pub wait_for : Quota → Model → ℕ → ModelRequest → ℕ
wait_for k m now r = wait_of (per_minute k r) (level_for k m now r) (need_for k m r)

-- The leases of the tenant that have not expired.
abbrev pub live_leases : Model → ℕ → ModelRequest → Assoc Bytes ℕ
live_leases m now r =
    keep (is_live now) (get_leases (lookup (key_concurrency r.tenant_id) m.leases))

abbrev pub lease_wait : Model → ℕ → ModelRequest → ℕ
lease_wait m now r =
    if ltb 0 r.limits.max_concurrent && leb r.limits.max_concurrent (length (live_leases m now r))
    then concurrency_retry_ms
    else 0

consider-zero : (l : Limit) (o : Outcome) → consider l 0 o ≡ o
unfolding consider
consider-zero l o = ground arith

tenant-append :
    (xs ys : List Check) (o : Outcome)
    → consider_tenant (xs ++ ys) o ≡ consider_tenant ys (consider_tenant xs o)
unfolding consider_tenant
tenant-append [] ys o = refl
tenant-append (x ∷ xs) ys o = tenant-append xs ys _

model-append :
    (xs ys : List Check) (o : Outcome)
    → consider_model (xs ++ ys) o ≡ consider_model ys (consider_model xs o)
unfolding consider_model
model-append [] ys o = refl
model-append (x ∷ xs) ys o = model-append xs ys _

module _ (m : Model) (now : ℕ) (l : Limit) (key : Bytes) (cost : ℕ) (cs : List Check)
    (o : Outcome) where
  abbrev lv : ℕ → ℕ
  lv q = peek m.params (lookup key m.buckets) now q

  abbrev nd : ℕ → ℕ
  nd q = need cost (capacity m.params q)

  tenant_add :
      (q : ℕ)
      → is_model l ≡ false
      → consider_tenant (add m now l key q cost cs) o
        ≡ consider l (wait_of q (lv q) (nd q)) (consider_tenant cs o)
  unfolding add consider_tenant
  tenant_add zero h = sym (consider-zero l _)
  tenant_add (suc q) h = ground (
    arith,
    tenant-append cs (check_of m now l key (suc q) cost ∷ []) o,
    consider-zero l (consider_tenant cs o),
  )

  tenant_add_model :
      (q : ℕ)
      → is_model l ≡ true
      → consider_tenant (add m now l key q cost cs) o ≡ consider_tenant cs o
  unfolding add consider_tenant
  tenant_add_model zero h = refl
  tenant_add_model (suc q) h =
      ground (arith, tenant-append cs (check_of m now l key (suc q) cost ∷ []) o)

  model_add :
      (q : ℕ)
      → is_model l ≡ true
      → consider_model (add m now l key q cost cs) o
        ≡ consider l (wait_of q (lv q) (nd q)) (consider_model cs o)
  unfolding add consider_model
  model_add zero h = sym (consider-zero l _)
  model_add (suc q) h = ground (
    arith,
    model-append cs (check_of m now l key (suc q) cost ∷ []) o,
    consider-zero l (consider_model cs o),
  )

  model_add_tenant :
      (q : ℕ)
      → is_model l ≡ false
      → consider_model (add m now l key q cost cs) o ≡ consider_model cs o
  unfolding add consider_model
  model_add_tenant zero h = refl
  model_add_tenant (suc q) h =
      ground (arith, model-append cs (check_of m now l key (suc q) cost ∷ []) o)

tenant_eq :
    (m : Model) (now : ℕ) (r : ModelRequest)
    → consider_tenant (checks_of m now r) no_refusal
      ≡ consider tokens
          (wait_for by_tokens m now r)
          (consider requests (wait_for by_requests m now r) no_refusal)
unfolding checks_of consider_tenant
tenant_eq m now r =
    tenant_add_model m now model _ _ _ _ _ refl
    ∙ tenant_add m now tokens _ _ _ _ _ refl
    ∙ ap (consider tokens (wait_for by_tokens m now r)) (tenant_add m now requests _ _ _ _ _ refl)

model_eq :
    (m : Model) (now : ℕ) (r : ModelRequest) (o : Outcome)
    → consider_model (checks_of m now r) o ≡ consider model (wait_for by_model m now r) o
unfolding checks_of consider_model
model_eq m now r o =
    model_add m now model _ _ _ _ _ refl
    ∙ ap (consider model (wait_for by_model m now r)) (
        model_add_tenant m now tokens _ _ _ _ _ refl
        ∙ model_add_tenant m now requests _ _ _ _ _ refl)

-- What is left of a tenant's leases once the expired ones are deleted.
pub lookup-expire :
    (now : ℕ) (key : Bytes) (leases : Assoc Bytes (Assoc Bytes ℕ))
    → get_leases (lookup key (expire now key leases))
      ≡ keep (is_live now) (get_leases (lookup key leases))
unfolding expire
lookup-expire now key leases = elim (Option-cases (lookup key leases)) [
  | inl e ↦ rw (e, expire) (rw e)
  | inr (h, e) ↦
      rw (e, expire)
        (rw (lookup-insert key key (keep (is_live now) h) leases)
          (rw (bytes_beq_iff key key).1 refl))
]

-- The worst of four waits, considered in the code's order.
abbrev pub verdict : ℕ → ℕ → ℕ → ℕ → Outcome
verdict w1 w2 w3 w4 =
    consider model w4
      (consider concurrency w3 (consider tokens w2 (consider requests w1 no_refusal)))

unfoldable pub worst_of : Model → ℕ → ModelRequest → Outcome
worst_of m now r =
    verdict (wait_for by_requests m now r) (wait_for by_tokens m now r) (lease_wait m now r)
      (wait_for by_model m now r)

-- Allow with its loops replaced by the four waits.
abbrev pub leases_of : Model → ℕ → ModelRequest → Assoc Bytes (Assoc Bytes ℕ)
leases_of m now r =
    if ltb 0 r.limits.max_concurrent
    then expire now (key_concurrency r.tenant_id) m.leases
    else m.leases

pub worst_eq :
    (m : Model) (now : ℕ) (r : ModelRequest)
    → (let held = get_leases (lookup (key_concurrency r.tenant_id) (leases_of m now r)) in
        let worst = consider_tenant (checks_of m now r) no_refusal in
        let worst' =
          if ltb 0 r.limits.max_concurrent
          then consider_leases r.limits.max_concurrent held worst
          else worst in
        consider_model (checks_of m now r) worst')
      ≡ worst_of m now r
unfolding worst_of consider_leases
worst_eq m now r =
    model_eq m now r _
    ∙ ap (consider model (wait_for by_model m now r)) (
        ground (
          arith,
          tenant_eq m now r,
          lookup-expire now (key_concurrency r.tenant_id) m.leases,
          consider-zero concurrency (
              consider tokens (wait_for by_tokens m now r)
                (consider requests (wait_for by_requests m now r) no_refusal)),
        ))

unfoldable pub admits : Model → ℕ → ModelRequest → Bool
admits m now r = is_no_limit (worst_of m now r).limit

pub allow-outcome :
    (m : Model) (now : ℕ) (r : ModelRequest)
    → (allow m now r).1 ≡ (
        if admits m now r
        then record { allowed = true; limit = no_limit; retry_ms = 0 }
        else worst_of m now r)
unfolding allow admits
allow-outcome m now r = ground (arith, worst_eq m now r)

pub allow-buckets :
    (m : Model) (now : ℕ) (r : ModelRequest)
    → (allow m now r).0.buckets
      ≡ (if admits m now r then charge now (checks_of m now r) m.buckets else m.buckets)
unfolding allow admits
allow-buckets m now r = ground (arith, worst_eq m now r)

pub allow-leases :
    (m : Model) (now : ℕ) (r : ModelRequest)
    → (allow m now r).0.leases ≡ (
        if admits m now r
        then (if ltb 0 r.limits.max_concurrent
            then insert
                (key_concurrency r.tenant_id)
                (insert r.lease_id
                  (now + m.params.lease_ttl_ms)
                  (get_leases (lookup (key_concurrency r.tenant_id) (leases_of m now r))))
                (leases_of m now r)
            else m.leases)
        else leases_of m now r)
unfolding allow admits
allow-leases m now r = ground (arith, worst_eq m now r)

pub allow-params : (m : Model) (now : ℕ) (r : ModelRequest) → (allow m now r).0.params ≡ m.params
unfolding allow
allow-params m now r = ground arith

-- A verdict refuses exactly if a wait is positive, and then reports a longest one.
pub verdict_waits :
    (w1 w2 w3 w4 : ℕ)
    → ((verdict w1 w2 w3 w4).retry_ms ≡ max (max w1 w2) (max w3 w4))
      × (is_no_limit (verdict w1 w2 w3 w4).limit ≡ leb (verdict w1 w2 w3 w4).retry_ms 0)
      × ((verdict w1 w2 w3 w4).allowed ≡ false)
unfolding consider
verdict_waits w1 w2 w3 w4 = ground arith
