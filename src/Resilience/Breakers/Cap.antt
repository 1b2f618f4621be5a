-- ===== src/Resilience/Breakers/Cap.antt =====
-- The ejection cap (internal/resilience/breakers.go: roomToOpen, enforceCap, recountEligible).
use server_flow.Prelude.{
  ℕ, zero, suc, ◌+◌, ◌≤◌, ◌≡◌, refl, sym, ap, ◌∙◌, ◌⊎◌, inl, inr, true, Option, none, some, [], ◌∷◌,
  leb, leb→le, arith, if◌then◌else◌, length, count, All, Bool-cases, Option-cases, count-le-length,
}
use server_flow.Prelude.Bytes.{Bytes, bytes_eq, bytes_beq, bytes_beq_iff}
use server_flow.Prelude.Assoc.{
  Assoc, lookup, insert, Unique, count-insert_old, insert-Unique, insert-All, lookup-insert,
  lookup-cons_hit, lookup-cons_miss, none≢some,
}
use server_flow.Prelude.Float.{Float64}
use server_flow.Resilience.Breaker.{Breaker, close_breaker}
use server_flow.Resilience.Breakers.{
  Breakers, is_ejected, is_eligible, or_zero, count_models, victim, pick, put, emit, max_open,
  enforce_model, enforce_models, enforce_cap, close_victim,
}

-- Each entry stands under its breaker's own worker ID.
abbrev pub OwnId : Bytes × Breaker → Type 0
OwnId e = e.1.key.id ≡ e.0

abbrev pub ejected : Bytes → Assoc Bytes Breaker → ℕ
ejected model m = count (is_ejected model) m

abbrev pub eligibles : Bytes → Assoc Bytes Breaker → ℕ
eligibles model m = count (is_eligible model) m

pub lookup-count_models :
    (model : Bytes) (m : Assoc Bytes Breaker)
    → or_zero (lookup model (count_models m)) ≡ eligibles model m
unfolding count_models
lookup-count_models model [] = unfold lookup in refl
lookup-count_models model ((id, b) ∷ m) = ground (
  arith,
  lookup-count_models model m,
  bytes_beq_iff b.model model,
  lookup-insert b.model model (or_zero (lookup b.model (count_models m)) + 1) (count_models m),
)

pub ejected-le : (model : Bytes) (m : Assoc Bytes Breaker) → ejected model m ≤ eligibles model m
ejected-le model [] = omega arith
ejected-le model ((id, b) ∷ m) = ground (arith, ejected-le model m)

-- `victim` finds a breaker exactly if one is ejected, and it is one of them.
victim-none :
    (model : Bytes) (m : Assoc Bytes Breaker) (v : Option Breaker)
    → victim model m v ≡ none
    → (v ≡ none) × (ejected model m ≡ 0)
unfolding victim
victim-none model [] v h = (h, refl)
victim-none model ((id, b) ∷ m) v h =
    ground (arith, victim-none model m (if is_ejected model (id, b) then pick b v else v))

abbrev Found : Bytes → Assoc Bytes Breaker → Breaker → Type 0
Found model m v = (lookup v.key.id m ≡ some v) × (is_ejected model (v.key.id, v) ≡ true)

pick_one :
    (b : Breaker) (v : Option Breaker) (w : Breaker) → pick b v ≡ some w → (w ≡ b) ⊎ (v ≡ some w)
pick_one b none w h = ground arith
pick_one b (some v) w h = ground arith

Found-here :
    (model id : Bytes) (b : Breaker) (m : Assoc Bytes Breaker)
    → b.key.id ≡ id
    → is_ejected model (id, b) ≡ true
    → Found model ((id, b) ∷ m) b
unfolding lookup
Found-here model id b m o e = ground (arith, bytes_beq_iff id b.key.id)

Found-there :
    (model id : Bytes) (b v : Breaker) (m : Assoc Bytes Breaker)
    → lookup id m ≡ none
    → Found model m v
    → Found model ((id, b) ∷ m) v
unfolding lookup
Found-there model id b v m u (l, e) = (
  elim (Bool-cases (bytes_beq id v.key.id)) [
    | inl same ↦ absurd (clash (rw ((bytes_beq_iff id v.key.id).0 same) at u) l)
    | inr other ↦ rw other l
  ],
  e,
)
  where
    clash : {o : Option Breaker} → o ≡ none → o ≡ some v → ⊥
    clash p q = cc

victim-some :
    (model : Bytes) (m : Assoc Bytes Breaker) (acc : Option Breaker) (v : Breaker)
    → Unique m
    → All OwnId m
    → victim model m acc ≡ some v
    → (acc ≡ some v) ⊎ Found model m v
unfolding victim
victim-some model [] acc v u o h = inl h
victim-some model ((id, b) ∷ m) acc v u o h =
    elim (victim-some model m (if is_ejected model (id, b) then pick b acc else acc) v u.1 o.1 h) [
      | inr f ↦ inr (Found-there model id b v m u.0 f)
      | inl e ↦ here e
    ]
  where
    here :
        (if is_ejected model (id, b) then pick b acc else acc) ≡ some v
        → (acc ≡ some v) ⊎ Found model ((id, b) ∷ m) v
    here e = elim (Bool-cases (is_ejected model (id, b))) [
      | inr f ↦ inl (rw f at e)
      | inl t ↦ elim (pick_one b acc v (rw t at e)) [
        | inr old ↦ inl old
        | inl new ↦ inr (rw new (Found-here model id b m o.0 t))
      ]
    ]

-- Closing a breaker of `model` lowers its count by one and changes no other count of that kind.
module _ (model : Bytes) (m : Assoc Bytes Breaker) (v : Breaker) (now : ℕ)
    (f : Found model m v) where
  abbrev closed_one : Assoc Bytes Breaker
  closed_one = insert v.key.id (close_breaker v now) m

  ejected-close : suc (ejected model closed_one) ≡ ejected model m
  unfolding close_breaker
  ejected-close =
      ground (arith, f, count-insert_old (is_ejected model) v.key.id (close_breaker v now) v m f.0)

  ejected-close_le : (other : Bytes) → ejected other closed_one ≤ ejected other m
  unfolding close_breaker
  ejected-close_le other =
      ground (arith, f, count-insert_old (is_ejected other) v.key.id (close_breaker v now) v m f.0)

  eligibles-close : (other : Bytes) → eligibles other closed_one ≡ eligibles other m
  unfolding close_breaker
  eligibles-close other =
      ground (arith, count-insert_old (is_eligible other) v.key.id (close_breaker v now) v m f.0)

  closed_one-Unique : Unique m → Unique closed_one
  closed_one-Unique u = insert-Unique v.key.id (close_breaker v now) m u

  closed_one-OwnId : All OwnId m → All OwnId closed_one
  closed_one-OwnId o =
      insert-All OwnId v.key.id (close_breaker v now) m o (unfold close_breaker in refl)

-- What enforceCap keeps, and what it does not raise.
pub record Lowered (m n : Assoc Bytes Breaker) : Type 0 where
  pub unique : Unique n
  pub own : All OwnId n
  pub fewer : (model : Bytes) → ejected model n ≤ ejected model m
  pub same : (model : Bytes) → eligibles model n ≡ eligibles model m

Lowered-trans : {m n o : Assoc Bytes Breaker} → Lowered m n → Lowered n o → Lowered m o
Lowered-trans {m} {n} {o} h k = record {
  unique = k.unique;
  own = k.own;
  fewer = λ model. omega (arith, h.fewer model, k.fewer model);
  same = λ model. k.same model ∙ h.same model;
}

closed_one-Lowered :
    (model : Bytes) (m : Assoc Bytes Breaker) (v : Breaker) (now : ℕ)
    → Unique m
    → All OwnId m
    → Found model m v
    → Lowered m (insert v.key.id (close_breaker v now) m)
closed_one-Lowered model m v now u o f = record {
  unique = closed_one-Unique model m v now f u;
  own = closed_one-OwnId model m v now f o;
  fewer = ejected-close_le model m v now f;
  same = eligibles-close model m v now f;
}

module _ (fl : Float64) where
  open fl use {Float}

  -- One model's loop ends with its count within the limit.
  pub enforce_model_lem :
      (fuel : ℕ) (bs : Breakers Float) (model : Bytes) (limit now : ℕ)
      → ejected model bs.by_id ≤ fuel
      → Unique bs.by_id
      → All OwnId bs.by_id
      → Lowered bs.by_id (enforce_model fl fuel bs model limit now).by_id
        × (ejected model (enforce_model fl fuel bs model limit now).by_id ≤ limit)
  unfolding enforce_model close_victim put emit close_breaker
  enforce_model_lem zero bs model limit now h u o = (stays, omega arith)
    where
      stays : Lowered bs.by_id bs.by_id
      stays = record { unique = u; own = o; fewer = λ x. omega arith; same = λ x. refl }
  enforce_model_lem (suc fuel) bs model limit now h u o =
      elim (Option-cases (victim model bs.by_id none)) [
        | inl e ↦
            rw (e, enforce_model) (stays, omega (arith, (victim-none model bs.by_id none e).1))
        | inr (v, e) ↦
            rw (e, enforce_model)
              (elim (Bool-cases (leb (ejected model bs.by_id) limit)) [
                | inl ok ↦ rw ok (stays, leb→le _ _ ok)
                | inr over ↦
                    let f = found v (victim-some model bs.by_id none v u o e) in
                    let low = closed_one-Lowered model bs.by_id v now u o f in
                    let less : suc (ejected model (close_victim bs v now).by_id)
                        ≡ ejected model bs.by_id =
                      ejected-close model bs.by_id v now f in
                    let rest =
                      enforce_model_lem fuel (close_victim bs v now) model limit now (omega arith)
                        low.unique low.own in
                    rw over (Lowered-trans low rest.0, rest.1)
              ])
      ]
    where
      stays : Lowered bs.by_id bs.by_id
      stays = record { unique = u; own = o; fewer = λ x. omega arith; same = λ x. refl }

      found : (v : Breaker) → (none ≡ some v) ⊎ Found model bs.by_id v → Found model bs.by_id v
      found v (inl c) = absurd (never c)
        where
          never : none ≡ some v → ⊥
          never e = cc
      found v (inr f) = f

  enforce_model-params :
      (fuel : ℕ) (bs : Breakers Float) (model : Bytes) (limit now : ℕ)
      → (enforce_model fl fuel bs model limit now).params ≡ bs.params
  unfolding enforce_model close_victim put emit
  enforce_model-params zero bs model limit now = refl
  enforce_model-params (suc fuel) bs model limit now =
      elim (Option-cases (victim model bs.by_id none)) [
        | inl e ↦ rw (e, enforce_model)
        | inr (v, e) ↦
            let rest = enforce_model-params fuel (close_victim bs v now) model limit now in
            rw (e, enforce_model)
              (elim (Bool-cases (leb (ejected model bs.by_id) limit)) [
                | inl ok ↦ rw ok
                | inr over ↦ rw over rest
              ])
      ]

  -- All models of the list, one after the other.
  pub enforce_models_lem :
      (models : Assoc Bytes ℕ) (bs : Breakers Float) (now : ℕ)
      → Unique bs.by_id
      → All OwnId bs.by_id
      → let bs' = enforce_models fl models bs now in
        Lowered bs.by_id bs'.by_id
        × ((model : Bytes) (n : ℕ)
            → lookup model models ≡ some n
            → ejected model bs'.by_id ≤ max_open fl bs.params.max_open_fraction n)
  unfolding enforce_models
  enforce_models_lem [] bs now u o = (
    record { unique = u; own = o; fewer = λ x. omega arith; same = λ x. refl },
    λ model n e. absurd (unfold lookup in none≢some e),
  )
  enforce_models_lem ((model, n) ∷ models) bs now u o =
      let limit = max_open fl bs.params.max_open_fraction n in
      let bs' = enforce_model fl (length bs.by_id) bs model limit now in
      let first =
        enforce_model_lem (length bs.by_id) bs model limit now
          (count-le-length (is_ejected model) bs.by_id) u o in
      let rest = enforce_models_lem models bs' now first.0.unique first.0.own in
      (
        Lowered-trans first.0 rest.0,
        λ other k e. elim (Bool-cases (bytes_beq model other)) [
          | inl same ↦
              let s = (bytes_beq_iff model other).0 same in
              let nk = lookup-cons_hit model other n k models same e in
              rw (← s, ← nk) (omega (arith, rest.0.fewer model, first.1))
          | inr differ ↦ omega (
            arith,
            rest.1 other k (sym (lookup-cons_miss model other n models differ) ∙ e),
            ap (λ p. max_open fl p.max_open_fraction k)
                (enforce_model-params (length bs.by_id) bs model limit now),
          )
        ],
      )

  -- enforceCap brings every model within its cap.
  pub enforce_cap_lem :
      (bs : Breakers Float) (now : ℕ)
      → Unique bs.by_id
      → All OwnId bs.by_id
      → bs.eligible_by ≡ count_models bs.by_id
      → let bs' = enforce_cap fl bs now in
        Lowered bs.by_id bs'.by_id
        × ((model : Bytes)
            → ejected model bs'.by_id
              ≤ max_open fl bs.params.max_open_fraction (eligibles model bs'.by_id))
  unfolding enforce_cap
  enforce_cap_lem bs now u o c =
      let (low, capped) = enforce_models_lem bs.eligible_by bs now u o in
      (
        low,
        λ model. elim (Option-cases (lookup model bs.eligible_by)) [
          | inl e ↦
              let z : eligibles model bs.by_id ≡ 0 =
                sym (lookup-count_models model bs.by_id) ∙ ap or_zero (counted model e) in
              omega (arith, ejected-le model bs.by_id, low.fewer model)
          | inr (k, e) ↦
              let z : eligibles model bs.by_id ≡ k =
                sym (lookup-count_models model bs.by_id) ∙ ap or_zero (counted model e) in
              rw (low.same model, z) (capped model k e)
        ],
      )
    where
      counted :
          (model : Bytes) {o : Option ℕ}
          → lookup model bs.eligible_by ≡ o
          → lookup model (count_models bs.by_id) ≡ o
      counted model e = rw (← c) e
