-- ===== src/RateLimit/Rate.antt =====
-- How much one quota lets through over time (internal/ratelimit/model.go: Allow, call after call).
use native.Mathlib.Decide.{dec_le}
use server_flow.Prelude.{
  ℕ, ◌+◌, ◌-◌, ◌*◌, ◌≤◌, ◌<◌, ◌≡◌, ◌≢◌, ap, true, false, ◌&&◌, Option, none, some, List, [], ◌∷◌,
  arith, min, max, if◌then◌else◌, ◌==◌, All, inl, inr, Bool-cases,
}
use server_flow.Prelude.Bytes.{Bytes, bytes_eq, bytes_beq, bytes_beq_iff}
use server_flow.Prelude.Assoc.{lookup}
use server_flow.RateLimit.Keys.{IsBytes, key_of, key_of-injective}
use server_flow.RateLimit.Model.{
  Params, Model, ModelRequest, Bucket, capacity, peek, refill, stamp, allow,
}
use server_flow.RateLimit.Refill.{refill_parts, window, peek-le-capacity}
use server_flow.RateLimit.Charge.{
  Quota, kind_of, name_of, by_requests, by_tokens, by_model, per_minute, need_for, key_for,
}
use server_flow.RateLimit.Decision.{allow-params}
use server_flow.RateLimit.Allow.{allow-Admits, allow-charged, allow_all_or_nothing}

mul_mono : (a b q : ℕ) → a ≤ b → a * q ≤ b * q
mul_mono a b q h = grind arith

refill-le : (p : Params) (b : Bucket) (t q : ℕ) → refill p b t q ≤ b.level + (t - b.at) * q
refill-le p b t q =
    omega
      (arith, refill_parts p b t q, mul_mono (min (t - b.at) (window p)) (t - b.at) q (omega arith))

module _ (p : Params) (q lo hi : ℕ) where
  -- Whatever is charged from now until `hi` takes at most `x` units in all.
  abbrev Within : Option Bucket → ℕ → Type 0
  Within b x = (t : ℕ) → lo ≤ t → t ≤ hi → peek p b t q + (hi - stamp b t) * q ≤ x

  Within-start : (b : Option Bucket) → Within b (capacity p q + (hi - lo) * q)
  Within-start none t h k =
      omega (arith, peek-le-capacity p none t q, mul_mono (hi - t) (hi - lo) q (omega arith))
  Within-start (some b) t h k =
      omega (
        arith,
        peek-le-capacity p (some b) t q,
        mul_mono (hi - max b.at t) (hi - lo) q (omega arith),
      )

  after_charge :
      (level cut at x t : ℕ)
      → t ≤ hi
      → cut ≤ level
      → level + (hi - at) * q ≤ x
      → refill p (record { level = level - cut; at = at }) t q + (hi - max at t) * q + cut ≤ x
  after_charge level cut at x t k fits h = elim (dec_le t at) [
    | yes early ↦ omega (
      arith,
      refill-le p (record { level = level - cut; at = at }) t q,
      ap (λ (s : ℕ). s * q) (early_zero early),
      ap (λ (s : ℕ). (hi - s) * q) (early_max early),
    )
    | no late ↦ omega (
      arith,
      refill-le p (record { level = level - cut; at = at }) t q,
      ap (λ (s : ℕ). (hi - s) * q) (late_max late),
      ap (λ (s : ℕ). s * q) (late_sum late),
    )
  ]
    where
      early_zero : t ≤ at → t - at ≡ 0
      early_zero h = omega arith

      early_max : t ≤ at → max at t ≡ at
      early_max h = omega arith

      late_max : ¬ (t ≤ at) → max at t ≡ t
      late_max h = omega arith

      late_sum : ¬ (t ≤ at) → (t - at) + (hi - t) ≡ hi - at
      late_sum h = omega arith

  Within-charge :
      (b : Option Bucket) (now cut x : ℕ)
      → lo ≤ now
      → now ≤ hi
      → cut ≤ peek p b now q
      → Within b x
      → Within (some (record { level = peek p b now q - cut; at = stamp b now })) (x - cut)
        × (cut ≤ x)
  unfolding peek
  Within-charge b now cut x h k fits w = (
    λ t _ tk.
        omega (arith, after_charge (peek p b now q) cut (stamp b now) x t tk fits (w now h k)),
    omega (arith, w now h k),
  )

-- The units of quota `k` that a sequence of checks charges to the tenant or model `name`.
pub charged_over : Quota → Bytes → Model → List (ℕ × ModelRequest) → ℕ
charged_over k name m [] = 0
charged_over k name m ((now, r) ∷ calls) =
    let rest = charged_over k name (allow m now r).0 calls in
    (if (allow m now r).1.allowed && (name_of k r == name) then need_for k m r else 0) + rest

-- The calls come at times from `lo` to `hi`, in any order, and agree on the quota of `name`.
abbrev pub Agrees : Quota → Bytes → ℕ → ℕ → ℕ → ℕ × ModelRequest → Type 0
Agrees k name q lo hi (now, r) =
    (lo ≤ now)
    × (now ≤ hi)
    × IsBytes r.tenant_id
    × IsBytes r.model_name
    × (name_of k r ≡ name → per_minute k r ≡ q)

kind_of_inj : (k l : Quota) → kind_of k ≡ kind_of l → k ≡ l
kind_of_inj k l h = ground arith

-- One call, by how it ends.
module _ (k : Quota) (lo hi : ℕ) (m : Model) (now : ℕ) (r : ModelRequest) (x : ℕ)
    (tenant : IsBytes r.tenant_id) (modelled : IsBytes r.model_name) where
  abbrev after : Model
  after = (allow m now r).0

  Within-refused :
      (name : Bytes) (q : ℕ)
      → (allow m now r).1.allowed ≡ false
      → Within m.params q lo hi (lookup (key_of (kind_of k) name) m.buckets) x
      → Within m.params q lo hi (lookup (key_of (kind_of k) name) after.buckets) x
  Within-refused name q e w = rw ((allow_all_or_nothing m now r tenant modelled).2 e) w

  Within-other :
      (name : Bytes) (q : ℕ)
      → IsBytes name
      → (allow m now r).1.allowed ≡ true
      → bytes_beq (name_of k r) name ≡ false
      → Within m.params q lo hi (lookup (key_of (kind_of k) name) m.buckets) x
      → Within m.params q lo hi (lookup (key_of (kind_of k) name) after.buckets) x
  Within-other name q bytes e ne w =
      rw ((allow_all_or_nothing m now r tenant modelled).1 e (key_of (kind_of k) name) differ) w
    where
      is_bytes : (l : Quota) → IsBytes (name_of l r)
      is_bytes by_requests = tenant
      is_bytes by_tokens = tenant
      is_bytes by_model = modelled

      differ : (l : Quota) → 0 < per_minute l r → key_for l r ≢ key_of (kind_of k) name
      differ l _ h =
          let (same, named) = key_of-injective _ _ _ _ (is_bytes l) bytes h in
          let lk = kind_of_inj l k same in
          let named' : name_of k r ≡ name = rw lk at named in
          ground (arith, bytes_beq_iff (name_of k r) name)

  Within-admitted :
      0 < per_minute k r
      → lo ≤ now
      → now ≤ hi
      → (allow m now r).1.allowed ≡ true
      → Within m.params (per_minute k r) lo hi (lookup (key_for k r) m.buckets) x
      → (need_for k m r ≤ x)
        × Within m.params
            (per_minute k r)
            lo
            hi
            (lookup (key_for k r) after.buckets)
            (x - need_for k m r)
  Within-admitted pos h j e w =
      let fits = ((allow-Admits m now r).0 e).0 k pos in
      let (kept, below) =
        Within-charge m.params (per_minute k r) lo hi (lookup (key_for k r) m.buckets) now
          (need_for k m r) x h j fits w in
      (below, rw (allow-charged m now r tenant modelled e k pos) kept)

  Within-named :
      (name : Bytes) (q : ℕ)
      → name_of k r ≡ name
      → per_minute k r ≡ q
      → 0 < q
      → lo ≤ now
      → now ≤ hi
      → (allow m now r).1.allowed ≡ true
      → Within m.params q lo hi (lookup (key_of (kind_of k) name) m.buckets) x
      → (need_for k m r ≤ x)
        × Within m.params q lo hi
            (lookup (key_of (kind_of k) name) after.buckets)
            (x - need_for k m r)
  Within-named name q n e pos h j ok w =
      rw (← n, ← e) (Within-admitted (rw e pos) h j ok (rw (n, e) w))

module _ (k : Quota) (name : Bytes) (q lo hi : ℕ) (pos : 0 < q) (bytes : IsBytes name) where
  abbrev key : Bytes
  key = key_of (kind_of k) name

  keep_all :
      (m : Model) (b : Option Bucket) (x : ℕ)
      → Within m.params q lo hi b x
      → (0 ≤ x) × Within m.params q lo hi b (x - 0)
  keep_all m b x w = (omega arith, λ t h j. omega (arith, w t h j))

  -- One call: what it charges to the name, and what is left.
  Within-allow :
      (m : Model) (now : ℕ) (r : ModelRequest) (x : ℕ)
      → Agrees k name q lo hi (now, r)
      → Within m.params q lo hi (lookup key m.buckets) x
      → let cut =
          (if (allow m now r).1.allowed && (name_of k r == name) then need_for k m r else 0) in
        (cut ≤ x) × Within m.params q lo hi (lookup key (allow m now r).0.buckets) (x - cut)
  Within-allow m now r x a w = elim (Bool-cases (allow m now r).1.allowed) [
    | inl ok ↦ elim (Bool-cases (bytes_beq (name_of k r) name)) [
      | inl same ↦
          let n = (bytes_beq_iff (name_of k r) name).0 same in
          rw (ok, same) (Within-named k lo hi m now r x a.2 a.3 name q n (a.4 n) pos a.0 a.1 ok w)
      | inr other ↦
          rw (ok, other)
            (keep_all m _ x (Within-other k lo hi m now r x a.2 a.3 name q bytes ok other w))
    ]
    | inr refused ↦
        rw refused (keep_all m _ x (Within-refused k lo hi m now r x a.2 a.3 name q refused w))
  ]

  bound :
      (calls : List (ℕ × ModelRequest)) (m : Model) (x : ℕ)
      → All (Agrees k name q lo hi) calls
      → Within m.params q lo hi (lookup key m.buckets) x
      → charged_over k name m calls ≤ x
  unfolding charged_over
  bound [] m x a w = omega arith
  bound ((now, r) ∷ calls) m x a w =
      let cut : ℕ =
        (if (allow m now r).1.allowed && (name_of k r == name) then need_for k m r else 0) in
      let (fits, w') = Within-allow m now r x a.0 w in
      omega (arith, bound calls (allow m now r).0 (x - cut) a.1 (rw (allow-params m now r) w'))

  -- However the checks are interleaved with those of others, and however the clock jumps between `lo`
  -- and `hi`: if all names are byte strings and every check under this name carries the positive quota
  -- of `q` per minute, the admitted checks under it are charged at most one full bucket and the refill
  -- of that time.
  pub charged_over-bounded :
      (m : Model) (calls : List (ℕ × ModelRequest))
      → All (Agrees k name q lo hi) calls
      → charged_over k name m calls ≤ capacity m.params q + (hi - lo) * q
  charged_over-bounded m calls a =
      bound calls m _ a (Within-start m.params q lo hi (lookup key m.buckets))
