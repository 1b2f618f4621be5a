-- ===== src/RateLimit/Tests.antt =====
-- internal/ratelimit/model.go on concrete checks, and its theorems at them.
use server_flow.Prelude.{◌+◌, ◌*◌, ◌-◌, ◌≤◌, ◌<◌, ◌≡◌, ◌↔◌, ◌≢◌, refl, true, false, [], ◌∷◌, arith}
use server_flow.Prelude.Bytes.{Bytes, ascii, bytes_eq, bytes_beq}
use server_flow.Prelude.Assoc.{lookup, insert, delete}
use server_flow.RateLimit.Keys.{
  KeyKind, key_of-injective, key_requests, key_tokens, key_model, key_concurrency,
}
use server_flow.RateLimit.Model.{
  Params, Model, ModelRequest, new_model, capacity, refill, peek, need, ceil_div, add, checks_of,
  consider, consider_tenant, consider_model, expire, consider_leases, charge, allow, release, renew,
  held, requests,
}
use server_flow.RateLimit.Charge.{Quota, by_requests, by_tokens, by_model, per_minute, key_for}
use server_flow.RateLimit.Allow.{Admits, Spent, allow-Admits, allow_all_or_nothing}
use server_flow.RateLimit.Retry.{retry_exact}
use server_flow.RateLimit.Rate.{charged_over, charged_over-bounded}
use server_flow.RateLimit.Leases.{allows, run, held-bounded, renew-release}

program : Unit {0}
unfolding key_requests key_tokens key_model key_concurrency new_model capacity refill peek need
    ceil_div add checks_of consider consider_tenant consider_model expire consider_leases charge
    allow release renew held lookup insert delete bytes_beq
program = tt

abbrev params : Params
params = record { burst_seconds = 60; lease_ttl_ms = 30000 }

-- One request per minute, up to 100 tokens per minute, two at a time.
abbrev request : ModelRequest
request = record {
  tenant_id = ascii "a";
  model_name = ascii "m";
  cost = 40;
  limits = record { requests_per_minute = 1; tokens_per_minute = 100; max_concurrent = 0 };
  model_requests_per_minute = 0;
  lease_id = ascii "l";
}

abbrev one_at_a_time : ModelRequest
one_at_a_time = record request {
  limits = record { requests_per_minute = 0; tokens_per_minute = 0; max_concurrent = 1 };
}

abbrev fresh : Model
fresh = record { params = params; buckets = []; leases = [] }

first_allowed : (allow fresh 5000 request).1.allowed ≡ true
unfolding program
first_allowed = refl

-- The next request in the same minute waits for the rest of it.
second_refused :
    (allow (allow fresh 5000 request).0 15000 request).1
    ≡ record { allowed = false; limit = requests; retry_ms = 50000 }
unfolding program
second_refused = refl

abbrev used : Model
used = record fresh {
  buckets =
      (key_requests (ascii "a"), record { level = 0; at = 5000 })
      ∷ (key_tokens (ascii "a"), record { level = 3600000; at = 5000 })
      ∷ [];
}

used_refused : (allow used 15000 request).1.allowed ≡ false
unfolding program
used_refused = refl

key_of-injective_example : (KeyKind.tokens ≡ KeyKind.tokens) × (ascii "a{b}" ≡ ascii "a{b}")
key_of-injective_example =
    key_of-injective KeyKind.tokens KeyKind.tokens (ascii "a{b}") (ascii "a{b}") (omega arith)
      (omega arith) refl

allow-Admits_example : ((allow used 15000 request).1.allowed ≡ true) ↔ Admits used 15000 request
allow-Admits_example = allow-Admits used 15000 request

allow_all_or_nothing_example :
    let (m', answer) = allow used 15000 request in
    (answer.allowed ≡ true
      → (k : Quota) → 0 < per_minute k request
      → Spent k used 15000 request (lookup (key_for k request) m'.buckets))
    × (answer.allowed ≡ true
        → (j : Bytes) → ((k : Quota) → 0 < per_minute k request → key_for k request ≢ j)
        → lookup j m'.buckets ≡ lookup j used.buckets)
    × (answer.allowed ≡ false → m'.buckets ≡ used.buckets)
allow_all_or_nothing_example = allow_all_or_nothing used 15000 request (omega arith) (omega arith)

retry_exact_example :
    ((allow (allow used 15000 request).0 70000 request).1.allowed ≡ true)
    ↔ (15000 + (allow used 15000 request).1.retry_ms ≤ 70000)
retry_exact_example =
    retry_exact used 15000 request refl
      (unfold program in
        elim [ by_requests ↦ omega arith | by_tokens ↦ omega arith | by_model ↦ tt ])
      used_refused 70000 (omega arith)

charged_over-bounded_example :
    charged_over by_requests (ascii "a") fresh ((5000, request) ∷ (15000, request) ∷ [])
    ≤ capacity params 1 + (20000 - 5000) * 1
charged_over-bounded_example =
    charged_over-bounded by_requests (ascii "a") 1 5000 20000 (omega arith) (omega arith) fresh
      ((5000, request) ∷ (15000, request) ∷ [])
      (
        (omega arith, omega arith, omega arith, omega arith, λ _. refl),
        ((omega arith, omega arith, omega arith, omega arith, λ _. refl), tt),
      )

held-bounded_example :
    held
      (run (new_model params) (allows 5 one_at_a_time ∷ allows 6 one_at_a_time ∷ []))
      7
      (ascii "a")
    ≤ 1
held-bounded_example =
    held-bounded (ascii "a") 1 (omega arith) (omega arith) params
      (allows 5 one_at_a_time ∷ allows 6 one_at_a_time ∷ []) 7
      ((omega arith, λ _. refl), ((omega arith, λ _. refl), tt))

renew-release_example :
    renew
      (release (allow fresh 5 one_at_a_time).0 (ascii "a") (ascii "l")).0
      6
      (ascii "a")
      (ascii "l")
    ≡ ((release (allow fresh 5 one_at_a_time).0 (ascii "a") (ascii "l")).0, false)
renew-release_example = renew-release (allow fresh 5 one_at_a_time).0 6 (ascii "a") (ascii "l")
