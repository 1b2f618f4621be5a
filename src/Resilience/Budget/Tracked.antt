-- ===== src/Resilience/Budget/Tracked.antt =====
-- How many models the retry budget tracks (internal/resilience/budget.go: window, Prune).
use server_flow.Prelude.{
  ℕ, ◌+◌, ◌≤◌, ◌<◌, ◌≡◌, refl, sym, ap, ◌∙◌, ◌⊎◌, inl, inr, Bool, true, false, not, Option, none,
  some, List, [], ◌∷◌, ltb, leb, arith, if◌then◌else◌, length, keep, count, count-le-length,
  Bool-cases, Option-cases, Comparable, ◌==◌,
}
use server_flow.Prelude.Bytes.{Bytes, bytes_eq, bytes_beq, bytes_beq_iff}
use server_flow.Prelude.Assoc.{Assoc, lookup, insert, one, count-insert_old, none≢some}
use server_flow.Prelude.Float.{Float64}
use server_flow.Prelude.Int.{pos, negsuc}
use server_flow.Resilience.Window.{SlidingWindow, sum, add, second}
use server_flow.Resilience.Budget.{
  other_model, BudgetParams, Budget, Reservation, new_budget, window_key, window_of, put,
  note_first, refund, give_back, prune, limit, reserve, is_served,
}

count-insert_new {ℓ κ} :
    {K : Type ℓ} {V : Type κ} ⦃e : Comparable K⦄ (p : K × V → Bool) (k : K) (v : V) (m : Assoc K V)
    → lookup k m ≡ none
    → count p (insert k v m) ≡ count p m + one (p (k, v))
unfolding lookup insert
count-insert_new p k v [] h = ground arith
count-insert_new ⦃e⦄ p k v ((i, w) ∷ m) h = elim (Bool-cases (i == k)) [
  | inl same ↦ absurd (none≢some (sym (rw (lookup, same) at h)))
  | inr other ↦ ground (arith, other, count-insert_new p k v m (rw (lookup, other) at h))
]

count-keep-le {ℓ} : {A : Type ℓ} (p q : A → Bool) (xs : List A) → count p (keep q xs) ≤ count p xs
count-keep-le p q [] = omega arith
count-keep-le p q (x ∷ xs) = ground (arith, count-keep-le p q xs)

-- A call with its arguments and its clock reading.
pub data Call : Type 0 where
  notes_first : (now : ℕ) (model : Bytes) → Call
  reserves : (now : ℕ) (model : Bytes) → Call
  refunds : (now : ℕ) (r : Option Reservation) → Call
  prunes : (now : ℕ) (served : Bytes → Bool) → Call

abbrev pub is_own : Bytes × SlidingWindow → Bool
is_own (model, w) = not (bytes_beq model other_model)

one-le : (b : Bool) → one b ≤ 1
one-le true = omega arith
one-le false = omega arith

module _ (fl : Float64) where
  open fl use {Float}

  abbrev pub apply : Budget Float → Call → Budget Float
  apply b (notes_first now model) = note_first b now model
  apply b (reserves now model) = (reserve fl b now model).0
  apply b (refunds now r) = (refund b now r).0
  apply b (prunes now served) = prune b now served

  unfoldable pub run : Budget Float → List Call → Budget Float
  run b [] = b
  run b (c ∷ cs) = run (apply b c) cs

  abbrev Few : ℕ → Budget Float → Type 0
  Few most b = (b.params.max_models ≡ most) × (count is_own b.models ≤ most)

  old-Few :
      (most : ℕ) (b : Budget Float) (key : Bytes) (w v : SlidingWindow)
      → lookup key b.models ≡ some v
      → Few most b
      → Few most (put b key w)
  old-Few most b key w v l f = (f.0, omega (arith, f.1, count-insert_old is_own key w v b.models l))

  -- A key that is not tracked yet is the shared one, or there is room.
  window_key-cases :
      (b : Budget Float) (model : Bytes) (w : SlidingWindow)
      → lookup (window_key b model) b.models ≡ none
      → (is_own (window_key b model, w) ≡ false)
        ⊎ (1 ≤ b.params.max_models → length b.models < b.params.max_models)
  unfolding window_key
  window_key-cases b model w new = elim (Option-cases (lookup model b.models)) [
    | inr (v, l) ↦ absurd (none≢some (sym (rw (window_key, l) at new) ∙ l))
    | inl l ↦ elim (Bool-cases (bytes_beq model other_model)) [
      | inl same ↦
          inl (rw (l, window_key) (ground (arith, same, bytes_beq_iff other_model other_model)))
      | inr own ↦ elim (Bool-cases (leb b.params.max_models (length b.models))) [
        | inr room ↦ inr (λ h. ground (arith, room))
        | inl full ↦ elim (Bool-cases (ltb 0 b.params.max_models)) [
          | inl capped ↦ inl (
              rw (l, window_key, capped, full, own)
                (ground (arith, bytes_beq_iff other_model other_model)))
          | inr unbounded ↦ inr (λ h. absurd (never unbounded h))
        ]
      ]
    ]
  ]
    where
      never : ltb 0 b.params.max_models ≡ false → 1 ≤ b.params.max_models → ⊥
      never e h = ground (arith, e, h)

  window-Few :
      (most : ℕ) (b : Budget Float) (model : Bytes) (w : SlidingWindow)
      → 1 ≤ most
      → Few most b
      → Few most (put b (window_key b model) w)
  window-Few most b model w h f = elim (Option-cases (lookup (window_key b model) b.models)) [
    | inr (v, l) ↦ old-Few most b (window_key b model) w v l f
    | inl new ↦ (
      f.0,
      omega (arith, f.1, count-insert_new is_own (window_key b model) w b.models new, room new),
    )
  ]
    where
      room :
          lookup (window_key b model) b.models ≡ none
          → count is_own b.models + one (is_own (window_key b model, w)) ≤ most
      room new = elim (window_key-cases b model w new) [
        | inl shared ↦ omega (arith, ap one shared, f.1)
        | inr below ↦ omega (
          arith,
          one-le (is_own (window_key b model, w)),
          count-le-length is_own b.models,
          below (omega (arith, f.0, h)),
          f.0,
        )
      ]

  give_back-Few :
      (most : ℕ) (b : Budget Float) (now : ℕ) (r : Reservation)
      → Few most b
      → Few most (give_back b now r)
  unfolding give_back
  give_back-Few most b now r f = elim (Option-cases (lookup r.model b.models)) [
    | inl gone ↦ rw (gone, give_back) f
    | inr (v, l) ↦
        rw (l, give_back) (old-Few most b r.model (add v r.at now second (negsuc 0)) v l f)
  ]

  first-Few :
      (most : ℕ) (c : Bool) (x y : Budget Float × Option Reservation)
      → Few most x.0
      → Few most y.0
      → Few most (if c then x else y).0
  first-Few most true x y v w = v
  first-Few most false x y v w = w

  apply-Few :
      (most : ℕ) (b : Budget Float) (c : Call) → 1 ≤ most → Few most b → Few most (apply b c)
  unfolding note_first reserve refund prune
  apply-Few most b (notes_first now model) h f = window-Few most b model _ h f
  apply-Few most b (reserves now model) h f =
      first-Few most
        (leb (limit fl b.params (sum (window_of b model) now).0) (sum (window_of b model) now).1) _
        _ (window-Few most b model (window_of b model) h f)
        (window-Few most b model (add (window_of b model) now now second (pos 1)) h f)
  apply-Few most b (refunds now none) h f = f
  apply-Few most b (refunds now (some r)) h f =
      first-Few most r.refunded _ _ f (give_back-Few most b now r f)
  apply-Few most b (prunes now served) h f =
      (f.0, omega (arith, f.1, count-keep-le is_own (is_served served now) b.models))

  run-Few :
      (most : ℕ) (b : Budget Float) (cs : List Call) → 1 ≤ most → Few most b → Few most (run b cs)
  unfolding run
  run-Few most b [] h f = f
  run-Few most b (c ∷ cs) h f = run-Few most (apply b c) cs h (apply-Few most b c h f)

  -- After any calls on a new budget with a positive cap on the tracked models, at most that many models have a
  -- window of their own beside the shared one.
  pub models-bounded :
      (p : BudgetParams Float) (cs : List Call)
      → 1 ≤ p.max_models
      → count is_own (run (new_budget p) cs).models ≤ p.max_models
  unfolding new_budget
  models-bounded p cs h = (run-Few p.max_models (new_budget p) cs h (refl, omega arith)).1
