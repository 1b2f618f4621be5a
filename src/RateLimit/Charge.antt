-- ===== src/RateLimit/Charge.antt =====
-- What Allow writes to the buckets (internal/ratelimit/model.go: the charging loop).
use server_flow.Prelude.{ℕ, ◌-◌, ◌<◌, ◌≡◌, refl, ◌∙◌, false, ◌≢◌, some, List, [], ◌∷◌, ◌++◌, arith}
use server_flow.Prelude.Bytes.{Bytes, bytes_eq, bytes_beq, bytes_beq_iff}
use server_flow.Prelude.Assoc.{Assoc, lookup, lookup-insert}
use server_flow.RateLimit.Keys.{KeyKind, IsBytes, key_of, key_of-injective}
use server_flow.RateLimit.Model.{
  Model, ModelRequest, Limit, Bucket, Check, capacity, peek, need, add, checks_of, charge, stamp,
  requests, tokens, model,
}

-- The three quotas that are buckets.
pub data Quota : Type 0 where
  by_requests by_tokens by_model : Quota

abbrev pub kind_of : Quota → KeyKind
kind_of by_requests = KeyKind.requests
kind_of by_tokens = KeyKind.tokens
kind_of by_model = KeyKind.model

abbrev pub name_of : Quota → ModelRequest → Bytes
name_of by_requests r = r.tenant_id
name_of by_tokens r = r.tenant_id
name_of by_model r = r.model_name

abbrev pub key_for : Quota → ModelRequest → Bytes
key_for k r = key_of (kind_of k) (name_of k r)

abbrev pub per_minute : Quota → ModelRequest → ℕ
per_minute by_requests r = r.limits.requests_per_minute
per_minute by_tokens r = r.limits.tokens_per_minute
per_minute by_model r = r.model_requests_per_minute

abbrev pub cost_of : Quota → ModelRequest → ℕ
cost_of by_requests r = 1
cost_of by_tokens r = r.cost
cost_of by_model r = 1

-- What a quota has left for a request, and what the request takes of it.
abbrev pub level_for : Quota → Model → ℕ → ModelRequest → ℕ
level_for k m now r = peek m.params (lookup (key_for k r) m.buckets) now (per_minute k r)

abbrev pub need_for : Quota → Model → ModelRequest → ℕ
need_for k m r = need (cost_of k r) (capacity m.params (per_minute k r))

abbrev pub charged : Quota → Model → ℕ → ModelRequest → Bucket
charged k m now r = record {
  level = level_for k m now r - need_for k m r;
  at = stamp (lookup (key_for k r) m.buckets) now;
}

charge-append :
    (now : ℕ) (xs ys : List Check) (b : Assoc Bytes Bucket)
    → charge now (xs ++ ys) b ≡ charge now ys (charge now xs b)
unfolding charge
charge-append now [] ys b = refl
charge-append now (x ∷ xs) ys b = charge-append now xs ys _

abbrev pub check_of : Model → ℕ → Limit → Bytes → ℕ → ℕ → Check
check_of m now l key quota cost = record {
  limit = l;
  key = key;
  quota = quota;
  level = peek m.params (lookup key m.buckets) now quota;
  need = need cost (capacity m.params quota);
}

module _ (m : Model) (now : ℕ) (l : Limit) (key : Bytes) (cost : ℕ) (cs : List Check)
    (b : Assoc Bytes Bucket) where
  -- A check writes its own bucket,
  add_hit :
      (quota : ℕ)
      → 0 < quota
      → lookup key (charge now cs b) ≡ lookup key m.buckets
      → lookup key (charge now (add m now l key quota cost cs) b)
        ≡ some (record {
          level =
              peek m.params (lookup key m.buckets) now quota - need cost (capacity m.params quota);
          at = stamp (lookup key m.buckets) now;
        })
  unfolding add charge
  add_hit quota h e = ground (
    arith,
    charge-append now cs (check_of m now l key quota cost ∷ []) b,
    lookup-insert key key
        (record {
          level =
              peek m.params (lookup key m.buckets) now quota - need cost (capacity m.params quota);
          at = stamp (lookup key (charge now cs b)) now;
        })
        (charge now cs b),
    bytes_beq_iff key key,
  )

  -- and no other.
  add_miss :
      (quota : ℕ) (j : Bytes)
      → (0 < quota → bytes_beq key j ≡ false)
      → lookup j (charge now (add m now l key quota cost cs) b) ≡ lookup j (charge now cs b)
  unfolding add charge
  add_miss quota j h = ground (
    arith,
    charge-append now cs (check_of m now l key quota cost ∷ []) b,
    lookup-insert key j
        (record {
          level =
              peek m.params (lookup key m.buckets) now quota - need cost (capacity m.params quota);
          at = stamp (lookup key (charge now cs b)) now;
        })
        (charge now cs b),
  )

beq_of_ne : (s t : Bytes) → s ≢ t → bytes_beq s t ≡ false
beq_of_ne s t h = ground (arith, bytes_beq_iff s t)

-- The keys of two quotas differ.
keys_differ :
    (k l : Quota) (r : ModelRequest)
    → IsBytes r.tenant_id
    → IsBytes r.model_name
    → kind_of k ≢ kind_of l
    → bytes_beq (key_for k r) (key_for l r) ≡ false
keys_differ k l r ht hm h = beq_of_ne _ _ λ e. h (key_of-injective _ _ _ _ (name k) (name l) e).0
  where
    name : (k : Quota) → IsBytes (name_of k r)
    name by_requests = ht
    name by_tokens = ht
    name by_model = hm

module _ (m : Model) (now : ℕ) (r : ModelRequest) (ht : IsBytes r.tenant_id)
    (hm : IsBytes r.model_name) where
  differ : (k l : Quota) → kind_of k ≢ kind_of l → bytes_beq (key_for k r) (key_for l r) ≡ false
  differ k l = keys_differ k l r ht hm

  -- Each active quota's bucket is written with what the request took.
  pub lookup-charge :
      (k : Quota)
      → 0 < per_minute k r
      → lookup (key_for k r) (charge now (checks_of m now r) m.buckets) ≡ some (charged k m now r)
  unfolding checks_of charge
  lookup-charge by_requests h =
      add_miss m now model _ _ _ _ _ _ (λ _. differ by_model by_requests (λ e. cc))
      ∙ add_miss m now tokens _ _ _ _ _ _ (λ _. differ by_tokens by_requests (λ e. cc))
      ∙ add_hit m now requests _ _ _ _ _ h refl
  lookup-charge by_tokens h =
      add_miss m now model _ _ _ _ _ _ (λ _. differ by_model by_tokens (λ e. cc))
      ∙ add_hit m now tokens _ _ _ _ _ h
          (add_miss m now requests _ _ _ _ _ _ (λ _. differ by_requests by_tokens (λ e. cc)))
  lookup-charge by_model h = add_hit m now model _ _ _ _ _ h (
      add_miss m now tokens _ _ _ _ _ _ (λ _. differ by_tokens by_model (λ e. cc))
      ∙ add_miss m now requests _ _ _ _ _ _ (λ _. differ by_requests by_model (λ e. cc)))

  -- No other bucket is touched.
  pub lookup-charge_other :
      (j : Bytes)
      → ((k : Quota) → 0 < per_minute k r → key_for k r ≢ j)
      → lookup j (charge now (checks_of m now r) m.buckets) ≡ lookup j m.buckets
  unfolding checks_of charge
  lookup-charge_other j h =
      add_miss m now model _ _ _ _ _ _ (λ a. beq_of_ne _ _ (h by_model a))
      ∙ add_miss m now tokens _ _ _ _ _ _ (λ a. beq_of_ne _ _ (h by_tokens a))
      ∙ add_miss m now requests _ _ _ _ _ _ (λ a. beq_of_ne _ _ (h by_requests a))
