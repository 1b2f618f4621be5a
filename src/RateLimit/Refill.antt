-- ===== src/RateLimit/Refill.antt =====
-- The arithmetic of one bucket (internal/ratelimit/model.go: capacity, peek, need, ceilDiv).
use native.Mathlib.Decide.{dec_lt}
use server_flow.Prelude.{
  ℕ, ◌+◌, ◌-◌, ◌*◌, zero, suc, ◌≤◌, ◌<◌, ◌≡◌, ap, Option, none, some, arith, min,
}
use server_flow.RateLimit.Model.{Params, Bucket, capacity, refill, peek, need, ceil_div}

abbrev pub window : Params → ℕ
window p = p.burst_seconds * 1000

pub capacity_eq : (p : Params) (quota : ℕ) → capacity p quota ≡ window p * quota
unfolding capacity
capacity_eq p quota = grind arith

pub le-ceil_div : (a b : ℕ) → 0 < b → a ≤ ceil_div a b * b
unfolding ceil_div
le-ceil_div a b h = grind arith

pub lt-ceil_div : (a b d : ℕ) → 0 < b → d < ceil_div a b → d * b < a
unfolding ceil_div
lt-ceil_div a b d h k = grind arith

pub refill-le-capacity :
    (p : Params) (b : Bucket) (now quota : ℕ) → refill p b now quota ≤ capacity p quota
unfolding refill
refill-le-capacity p b now quota = ground arith

pub peek-le-capacity :
    (p : Params) (b : Option Bucket) (now quota : ℕ) → peek p b now quota ≤ capacity p quota
unfolding peek
peek-le-capacity p none now quota = omega arith
peek-le-capacity p (some b) now quota = refill-le-capacity p b now quota

pub need-le-capacity : (cost cap : ℕ) → need cost cap ≤ cap
unfolding need
need-le-capacity cost cap = omega arith

-- A bucket that was last written no later than `now`, with `elapsed` milliseconds gone by.
pub refill_parts :
    (p : Params) (b : Bucket) (now quota : ℕ)
    → refill p b now quota ≡ min (b.level + min (now - b.at) (window p) * quota) (capacity p quota)
unfolding refill
refill_parts p b now quota = ground arith

pub refill_mono :
    (p : Params) (b : Bucket) (s t quota : ℕ) → s ≤ t → refill p b s quota ≤ refill p b t quota
refill_mono p b s t quota h = rw (refill_parts p b s quota, refill_parts p b t quota) (grind arith)

mul_mono : (a b q : ℕ) → a ≤ b → a * q ≤ b * q
mul_mono a b q h = grind arith

min_of_lt : (a b : ℕ) → a < b → min a b ≡ a
min_of_lt a b h = omega arith

min_of_not_lt : (a b : ℕ) → ¬ (a < b) → min a b ≡ b
min_of_not_lt a b h = omega arith

-- A bucket that is short has been filling for less than the whole window, and is not clamped.
short_parts :
    (l e w q cap n r : ℕ)
    → cap ≡ w * q
    → r ≡ min (l + min e w * q) cap
    → r < n
    → n ≤ cap
    → (e < w) × (r ≡ l + e * q)
short_parts l e w q cap n r hc hr short fits = elim (dec_lt e w) [
  | yes h ↦ (h, ground (arith, min_of_lt e w h))
  | no h ↦ absurd (ground (arith, min_of_not_lt e w h))
]

factor_pos : (a d q : ℕ) → 0 < a → a ≤ d * q → 0 < d
factor_pos a zero q h k = absurd (omega arith)
factor_pos a (suc d) q h k = omega arith

fills_num :
    (l e w q cap n r d e' r' : ℕ)
    → e' ≡ e + d
    → cap ≡ w * q
    → r ≡ l + e * q
    → n ≤ cap
    → n - r ≤ d * q
    → r' ≡ min (l + min e' w * q) cap
    → n ≤ r'
fills_num l e w q cap n r d e' r' he hc hr fits hd hr' = elim (dec_lt e' w) [
  | yes h ↦ ground (arith, min_of_lt e' w h, ap (λ (t : ℕ). t * q) he)
  | no h ↦ ground (arith, min_of_not_lt e' w h)
]

needed_num :
    (l e w q cap n r d e' r' : ℕ)
    → e' ≤ e + d
    → r ≡ l + e * q
    → d * q < n - r
    → r' ≡ min (l + min e' w * q) cap
    → r' < n
needed_num l e w q cap n r d e' r' he hr hd hr' =
    omega (arith, mul_mono (min e' w) (e + d) q (omega arith))

-- Waiting `wait` milliseconds fills the bucket to the need `n`; less does not.
module _ (p : Params) (b : Bucket) (now quota n : ℕ) (pos : 0 < quota) (past : b.at ≤ now)
    (short : refill p b now quota < n) (fits : n ≤ capacity p quota) where
  abbrev wait : ℕ
  wait = ceil_div (n - refill p b now quota) quota

  not_full : (now - b.at < window p) × (refill p b now quota ≡ b.level + (now - b.at) * quota)
  not_full =
      short_parts b.level (now - b.at) (window p) quota (capacity p quota) n (refill p b now quota)
        (capacity_eq p quota) (refill_parts p b now quota) short fits

  pub wait_fills : n ≤ refill p b (now + wait) quota
  wait_fills =
      fills_num b.level (now - b.at) (window p) quota (capacity p quota) n (refill p b now quota)
        wait (now + wait - b.at) (refill p b (now + wait) quota) (omega arith) (capacity_eq p quota)
        (not_full.1) fits (le-ceil_div _ quota pos) (refill_parts p b (now + wait) quota)

  pub wait_pos : 0 < wait
  wait_pos =
      factor_pos (n - refill p b now quota) wait quota (omega arith) (le-ceil_div _ quota pos)

  pub wait_needed : (t : ℕ) → t < now + wait → refill p b t quota < n
  wait_needed t h =
      needed_num b.level (now - b.at) (window p) quota (capacity p quota) n (refill p b now quota)
        (t - now) (t - b.at) (refill p b t quota) (omega arith) (not_full.1)
        (lt-ceil_div _ quota (t - now) pos (omega (arith, wait_pos))) (refill_parts p b t quota)
