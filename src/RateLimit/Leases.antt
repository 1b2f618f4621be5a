-- ===== src/RateLimit/Leases.antt =====
-- The concurrency leases (internal/ratelimit/model.go: Allow, Release, Renew, Held).
use server_flow.Prelude.{
  ℕ, ◌+◌, ◌≤◌, ◌<◌, ◌≡◌, refl, ◌∙◌, ap, true, false, none, some, List, [], ◌∷◌, arith, ltb, leb,
  ltb→lt, if◌then◌else◌, All, inl, inr, Bool-cases, Option-cases, length, keep, length-keep-le,
  count-le-length,
}
use server_flow.Prelude.Bytes.{Bytes, bytes_eq, bytes_beq, bytes_beq_iff}
use server_flow.Prelude.Assoc.{
  Assoc, lookup, insert, delete, lookup-insert, lookup-delete, length-insert-le, length-insert_old,
  length-delete-le,
}
use server_flow.RateLimit.Keys.{KeyKind, IsBytes, key_concurrency, key_of-injective}
use server_flow.RateLimit.Model.{
  Params, Model, ModelRequest, new_model, allow, release, renew, held, get_leases, is_live, expire,
}
use server_flow.RateLimit.Decision.{admits, allow-leases, lookup-expire, leases_of}
use server_flow.RateLimit.Allow.{allow-Admits, allow-admits}

pub data Op : Type 0 where
  allows : ℕ → ModelRequest → Op
  releases : Bytes → Bytes → Op
  renews : ℕ → Bytes → Bytes → Op

pub step : Model → Op → Model
step m (allows now r) = (allow m now r).0
step m (releases tenant lease) = (release m tenant lease).0
step m (renews now tenant lease) = (renew m now tenant lease).0

pub run : Model → List Op → Model
run m [] = m
run m (op ∷ ops) = run (step m op) ops

-- Names are byte strings, and every check for the tenant carries the same limit.
abbrev pub LimitsTo : Bytes → ℕ → Op → Type 0
LimitsTo name most (allows now r) =
    IsBytes r.tenant_id × (r.tenant_id ≡ name → r.limits.max_concurrent ≡ most)
LimitsTo name most (releases tenant lease) = IsBytes tenant
LimitsTo name most (renews now tenant lease) = IsBytes tenant

abbrev leases_at : Bytes → Assoc Bytes (Assoc Bytes ℕ) → Assoc Bytes ℕ
leases_at name leases = get_leases (lookup (key_concurrency name) leases)

-- A write to a tenant's leases, and to another tenant's.
leases_at-insert :
    (name tenant : Bytes) (v : Assoc Bytes ℕ) (leases : Assoc Bytes (Assoc Bytes ℕ))
    → IsBytes name
    → IsBytes tenant
    → leases_at name (insert (key_concurrency tenant) v leases)
      ≡ (if bytes_beq tenant name then v else leases_at name leases)
leases_at-insert name tenant v leases hn ht = ground (
  arith,
  lookup-insert (key_concurrency tenant) (key_concurrency name) v leases,
  bytes_beq_iff tenant name,
  bytes_beq_iff (key_concurrency tenant) (key_concurrency name),
  key_of-injective KeyKind.concurrency KeyKind.concurrency tenant name ht hn,
)

-- A write keeps a bound on a tenant's leases if what it writes for that tenant does.
insert-le :
    (name tenant : Bytes) (v : Assoc Bytes ℕ) (leases : Assoc Bytes (Assoc Bytes ℕ)) (n : ℕ)
    → IsBytes name
    → IsBytes tenant
    → (tenant ≡ name → length v ≤ n)
    → length (leases_at name leases) ≤ n
    → length (leases_at name (insert (key_concurrency tenant) v leases)) ≤ n
insert-le name tenant v leases n hn ht h k =
    rw (leases_at-insert name tenant v leases hn ht) (elim (Bool-cases (bytes_beq tenant name)) [
      | inl e ↦ rw e (h ((bytes_beq_iff tenant name).0 e))
      | inr e ↦ rw e k
    ])

-- The leases of a tenant, read at its own key.
same_leases :
    (name tenant : Bytes) (leases : Assoc Bytes (Assoc Bytes ℕ)) {held : Assoc Bytes ℕ}
    → lookup (key_concurrency tenant) leases ≡ some held
    → tenant ≡ name
    → leases_at name leases ≡ held
same_leases name tenant leases e n = rw (← n) (rw e)

-- An admitted request that is limited in concurrency finds fewer live leases than its limit.
held-lt :
    (m : Model) (now : ℕ) (r : ModelRequest)
    → admits m now r ≡ true
    → ltb 0 r.limits.max_concurrent ≡ true
    → length (leases_at r.tenant_id (expire now (key_concurrency r.tenant_id) m.leases))
      < r.limits.max_concurrent
held-lt m now r ok on =
    rw (lookup-expire now (key_concurrency r.tenant_id) m.leases)
      (((allow-Admits m now r).0 (allow-admits m now r ∙ ok)).1 (ltb→lt _ _ on))

module _ (name : Bytes) (most : ℕ) (bytes : IsBytes name) (pos : 0 < most) where
  abbrev Bounded : Model → Type 0
  Bounded m = length (leases_at name m.leases) ≤ most

  release-Bounded :
      (m : Model) (tenant lease : Bytes)
      → IsBytes tenant
      → Bounded m
      → Bounded (release m tenant lease).0
  unfolding release
  release-Bounded m tenant lease ht b =
      elim (Option-cases (lookup (key_concurrency tenant) m.leases)) [
        | inl e ↦ rw (e, release) b
        | inr (held, e) ↦
            rw (e, release)
              (insert-le name tenant (delete lease held) m.leases most bytes ht
                (λ n. omega (
                  arith,
                  length-delete-le lease held,
                  ap length (same_leases name tenant m.leases e n),
                ))
                b)
      ]

  renew-Bounded :
      (m : Model) (now : ℕ) (tenant lease : Bytes)
      → IsBytes tenant
      → Bounded m
      → Bounded (renew m now tenant lease).0
  unfolding renew
  renew-Bounded m now tenant lease ht b =
      elim (Option-cases (lookup lease (leases_at tenant m.leases))) [
        | inl e ↦ rw (e, renew) b
        | inr (expiry, e) ↦
            rw (e, renew)
              (elim (Bool-cases (leb expiry now)) [
                | inl late ↦ rw late b
                | inr fresh ↦ rw fresh (
                    insert-le name tenant
                      (insert lease (now + m.params.lease_ttl_ms) (leases_at tenant m.leases))
                      m.leases most bytes ht
                      (λ n. omega (
                        arith,
                        length-insert_old lease (now + m.params.lease_ttl_ms) expiry
                            (leases_at tenant m.leases) e,
                        ap (λ t. length (leases_at t m.leases)) n,
                      ))
                      b)
              ])
      ]

  expire-le :
      (now : ℕ) (tenant : Bytes) (leases : Assoc Bytes (Assoc Bytes ℕ)) (n : ℕ)
      → IsBytes tenant
      → length (leases_at name leases) ≤ n
      → length (leases_at name (expire now (key_concurrency tenant) leases)) ≤ n
  unfolding expire
  expire-le now tenant leases n ht b =
      elim (Option-cases (lookup (key_concurrency tenant) leases)) [
        | inl e ↦ rw (e, expire) b
        | inr (held, e) ↦
            rw (e, expire)
              (insert-le name tenant (keep (is_live now) held) leases n bytes ht
                (λ s. omega (
                  arith,
                  length-keep-le (is_live now) held,
                  ap length (same_leases name tenant leases e s),
                ))
                b)
      ]

  leases_of-le :
      (m : Model) (now : ℕ) (r : ModelRequest)
      → IsBytes r.tenant_id
      → Bounded m
      → length (leases_at name (leases_of m now r)) ≤ most
  leases_of-le m now r ht b = ground (arith, expire-le now r.tenant_id m.leases most ht b)

  allow-Bounded :
      (m : Model) (now : ℕ) (r : ModelRequest)
      → LimitsTo name most (allows now r)
      → Bounded m
      → Bounded (allow m now r).0
  allow-Bounded m now r h b = elim (Bool-cases (admits m now r)) [
    | inr refused ↦ rw (allow-leases m now r, refused) (leases_of-le m now r h.0 b)
    | inl ok ↦
        rw (allow-leases m now r, ok)
          (elim (Bool-cases (ltb 0 r.limits.max_concurrent)) [
            | inr off ↦ rw off b
            | inl on ↦ rw on (
                insert-le name r.tenant_id
                  (insert r.lease_id (now + m.params.lease_ttl_ms)
                    (leases_at r.tenant_id (expire now (key_concurrency r.tenant_id) m.leases)))
                  (expire now (key_concurrency r.tenant_id) m.leases) most bytes h.0
                  (λ n. omega (
                    arith,
                    length-insert-le r.lease_id (now + m.params.lease_ttl_ms)
                        (leases_at r.tenant_id (expire now (key_concurrency r.tenant_id) m.leases)),
                    held-lt m now r ok on,
                    h.1 n,
                  ))
                  (expire-le now r.tenant_id m.leases most h.0 b))
          ])
  ]

  step-Bounded : (m : Model) (op : Op) → LimitsTo name most op → Bounded m → Bounded (step m op)
  unfolding step
  step-Bounded m (allows now r) h b = allow-Bounded m now r h b
  step-Bounded m (releases tenant lease) h b = release-Bounded m tenant lease h b
  step-Bounded m (renews now tenant lease) h b = renew-Bounded m now tenant lease h b

  run-Bounded :
      (m : Model) (ops : List Op) → All (LimitsTo name most) ops → Bounded m → Bounded (run m ops)
  unfolding run
  run-Bounded m [] h b = b
  run-Bounded m (op ∷ ops) h b = run-Bounded (step m op) ops h.1 (step-Bounded m op h.0 b)

  -- After any checks, releases and renewals by anybody, at any times, a tenant whose checks all carry
  -- the positive concurrency limit `most` (names are byte strings) holds at most that many live leases.
  pub held-bounded :
      (p : Params) (ops : List Op) (now : ℕ)
      → All (LimitsTo name most) ops
      → held (run (new_model p) ops) now name ≤ most
  unfolding held new_model
  held-bounded p ops now h = omega (
    arith,
    count-le-length (is_live now) (leases_at name (run (new_model p) ops).leases),
    run-Bounded (new_model p) ops h (unfold lookup in omega arith),
  )

renew_absent :
    (m : Model) (now : ℕ) (tenant lease : Bytes)
    → lookup lease (leases_at tenant m.leases) ≡ none
    → renew m now tenant lease ≡ (m, false)
unfolding renew
renew_absent m now tenant lease e = rw (e, renew)

release_absent :
    (m : Model) (tenant lease : Bytes)
    → lookup lease (leases_at tenant (release m tenant lease).0.leases) ≡ none
unfolding release
release_absent m tenant lease = elim (Option-cases (lookup (key_concurrency tenant) m.leases)) [
  | inl e ↦ rw (e, release) (rw e (unfold lookup in refl))
  | inr (held, e) ↦
      rw (e, release)
        (rw
          (lookup-insert (key_concurrency tenant) (key_concurrency tenant) (delete lease held)
            m.leases)
          (ground (
            arith,
            bytes_beq_iff (key_concurrency tenant) (key_concurrency tenant),
            bytes_beq_iff lease lease,
            lookup-delete lease lease held,
          )))
]

-- A lease that was released is not revived by a renewal: it is refused and changes nothing.
pub renew-release :
    (m : Model) (now : ℕ) (tenant lease : Bytes)
    → renew (release m tenant lease).0 now tenant lease ≡ ((release m tenant lease).0, false)
renew-release m now tenant lease = renew_absent _ now tenant lease (release_absent m tenant lease)
