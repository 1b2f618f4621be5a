-- ===== src/Resilience/Breaker/Backoff.antt =====
-- The cool-down of a breaker that opens (internal/resilience/breaker.go: baseCoolDown, maxLevel, open, advance).
use server_flow.Prelude.{
  ℕ, zero, suc, ◌+◌, ◌*◌, ◌/◌, ◌%◌, ◌^◌, ◌≤◌, ◌<◌, ◌≡◌, ap, ◌∙◌, inl, inr, Bool, false, min, ltb,
  leb, arith, Bool-cases, leb→le, ltb→lt, [],
}
use native.Mathlib.Nat.{mul_assoc, pow-suc}
use server_flow.Prelude.Float.{Float64}
use server_flow.Resilience.Breaker.{
  Breaker, BreakerParams, half_open, opened, cool_down_from, base_cool_down, max_level_from,
  max_level, open_breaker, jittered, next_level, advance, half_opens, drop_lost,
}

grow : (d k : ℕ) → d * 2 ^ suc k ≡ 2 * (d * 2 ^ k)
grow d k = rw (pow-suc 2 k) (omega (arith, mul_assoc d (2 ^ k) 2))

doubled : (d k : ℕ) → d * 2 * 2 ^ k ≡ d * 2 ^ suc k
doubled d zero = omega (arith, grow d 0)
doubled d (suc k) = omega (arith, grow d (suc k), grow (d * 2) k, doubled d k)

le-shift : (d k : ℕ) → d ≤ d * 2 ^ k
le-shift d zero = omega arith
le-shift d (suc k) = omega (arith, grow d k, le-shift d k)

lt-shift : (d k : ℕ) → 1 ≤ d → k < d * 2 ^ k
lt-shift d zero h = omega arith
lt-shift d (suc k) h = omega (arith, grow d k, lt-shift d k h)

module _ {F : Type 0} (p : BreakerParams F) where
  cool_down_from_lem :
      (d level : ℕ) → cool_down_from p d level ≡ min (d * 2 ^ level) p.max_cool_down
  unfolding cool_down_from
  cool_down_from_lem d zero = omega arith
  cool_down_from_lem d (suc level) =
      elim (Bool-cases (leb (p.max_cool_down / 2 + p.max_cool_down % 2) d)) [
        | inl t ↦
            rw (t, cool_down_from) (omega (arith, leb→le _ _ t, grow d level, le-shift d level))
        | inr t ↦
            rw (t, cool_down_from)
              (cool_down_from_lem (d * 2) level ∙ ap (λ x. min x p.max_cool_down) (doubled d level))
      ]

  -- The un-jittered cool-down at a level is the configured one doubled that many times, or the largest one if
  -- that is less.
  pub base_cool_down_exact :
      (level : ℕ) → base_cool_down p level ≡ min (p.cool_down * 2 ^ level) p.max_cool_down
  unfolding base_cool_down
  base_cool_down_exact level = cool_down_from_lem p.cool_down level

  max_level_from_lem :
      (fuel l : ℕ)
      → 1 ≤ p.cool_down
      → p.max_cool_down ≤ l + fuel
      → ((k : ℕ) → k < l → base_cool_down p k < p.max_cool_down)
      → let r = max_level_from p fuel l in
        (base_cool_down p r ≡ p.max_cool_down)
        × ((k : ℕ) → k < r → base_cool_down p k < p.max_cool_down)
  unfolding max_level_from
  max_level_from_lem zero l c h below =
      (omega (arith, base_cool_down_exact l, lt-shift p.cool_down l c), below)
  max_level_from_lem (suc fuel) l c h below =
      elim (Bool-cases (ltb (base_cool_down p l) p.max_cool_down)) [
        | inl t ↦
            rw (t, max_level_from)
              (max_level_from_lem fuel (suc l) c (omega arith) (below_next (ltb→lt _ _ t)))
        | inr t ↦ rw (t, max_level_from) (reached t, below)
      ]
    where
      reached :
          ltb (base_cool_down p l) p.max_cool_down ≡ false → base_cool_down p l ≡ p.max_cool_down
      reached t = ground (arith, base_cool_down_exact l)

      below_next :
          base_cool_down p l < p.max_cool_down
          → (k : ℕ) → k < suc l
          → base_cool_down p k < p.max_cool_down
      below_next t k h = elim (Bool-cases (ltb k l)) [
        | inl lt ↦ below k (ltb→lt _ _ lt)
        | inr ge ↦ let e : k ≡ l = ground arith in rw e t
      ]

  -- With a positive cool-down, the loop of maxLevel ends within its fuel, at the first level whose cool-down is the
  -- largest one.
  pub max_level_first :
      1 ≤ p.cool_down
      → (base_cool_down p (max_level p) ≡ p.max_cool_down)
        × ((level : ℕ) → level < max_level p → base_cool_down p level < p.max_cool_down)
  unfolding max_level
  max_level_first c = max_level_from_lem p.max_cool_down 0 c (omega arith) (λ k h. omega arith)

module _ (fl : Float64) where
  open fl use {Float}

  jittered-bounds :
      (p : BreakerParams Float) (base : ℕ) (rnd : Float)
      → 1 ≤ p.max_cool_down
      → (1 ≤ jittered fl p base rnd) × (jittered fl p base rnd ≤ p.max_cool_down)
  unfolding jittered
  jittered-bounds p base rnd h = (omega arith, omega arith)

  -- With a positive largest cool-down, a breaker opened at `now` is still open at `now` and half-open, with a
  -- new set of tickets, at every time from `now` plus the largest cool-down on: whatever the level and the
  -- random number.
  pub open-advance :
      (b : Breaker) (now t : ℕ) (probe : Bool) (p : BreakerParams Float) (rnd : Float)
      → 1 ≤ p.max_cool_down
      → let b' = (advance (open_breaker fl b now probe p rnd) t p).0 in
        (t ≤ now → b'.state ≡ opened)
        × (now + p.max_cool_down ≤ t → (b'.state ≡ half_open) × (b'.tickets ≡ []))
  unfolding open_breaker advance half_opens drop_lost
  open-advance b now t probe p rnd h =
      let j = jittered-bounds p (base_cool_down p (next_level b now probe p)) rnd h in
      (
        λ early. ground (arith, j.0, j.1),
        λ late. (ground (arith, j.0, j.1), ground (arith, j.0, j.1)),
      )
