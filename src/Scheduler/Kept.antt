-- ===== src/Scheduler/Kept.antt =====
-- What the survey of internal/scheduler counts, and what its lists and its rotor keep of the workers they are given.
use server_flow.Prelude.{
  ℕ, zero, suc, ◌+◌, ◌≡◌, refl, inl, inr, Bool, true, false, Option, none, some, List, [], ◌∷◌,
  arith, if◌then◌else◌, keep, get_or, length, count, All, Bool-cases,
}
use server_flow.Prelude.Bytes.{Bytes, bytes_eq, bytes_ltb}
use server_flow.Prelude.Assoc.{keep-All, lookup}
use server_flow.Protocol.{WorkerSnapshot}
use server_flow.Scheduler.Rotor.{Rotor, next, first_after, or_first, last_of}
use server_flow.Scheduler.Candidates.{
  serves, offers, has_room, survey, place, sort, least, is_tied, turn, choose_with,
}

pub get_or-All {ℓ κ} :
    {A : Type ℓ} (P : A → Type κ) (xs : List A) (i : ℕ) (d : A) → All P xs → P d → P (get_or xs i d)
get_or-All P [] i d a h = h
get_or-All P (x ∷ xs) zero d a h = a.0
get_or-All P (x ∷ xs) (suc i) d a h = get_or-All P xs i d a.1 h

pub keep-passes {ℓ} : {A : Type ℓ} (p : A → Bool) (xs : List A) → All (λ x. p x ≡ true) (keep p xs)
keep-passes p [] = tt
keep-passes p (x ∷ xs) = elim (Bool-cases (p x)) [
  | inl t ↦ rw t (t, keep-passes p xs)
  | inr f ↦ rw f (keep-passes p xs)
]

pub both {ℓ κ μ} :
    {A : Type ℓ} (P : A → Type κ) (Q : A → Type μ) (xs : List A)
    → All P xs
    → All Q xs
    → All (λ x. P x × Q x) xs
both P Q [] a b = tt
both P Q (x ∷ xs) a b = ((a.0, b.0), both P Q xs a.1 b.1)

module _ {F : Type 0} where
  pub survey_room :
      (model : Bytes) (ws : List (WorkerSnapshot F))
      → (survey model ws).1 ≡ keep (has_room model) ws
  unfolding survey
  survey_room model [] = refl
  survey_room model (w ∷ ws) = ground (arith, survey_room model ws)

  pub survey_serving :
      (model : Bytes) (ws : List (WorkerSnapshot F))
      → (survey model ws).0.serving ≡ count (serves model) ws
  unfolding survey
  survey_serving model [] = refl
  survey_serving model (w ∷ ws) = ground (arith, survey_serving model ws)

  pub survey_model :
      (model : Bytes) (ws : List (WorkerSnapshot F)) → (survey model ws).0.model ≡ model
  unfolding survey
  survey_model model [] = refl
  survey_model model (w ∷ ws) = ground (arith, survey_model model ws)

  pub survey_eligible :
      (model : Bytes) (ws : List (WorkerSnapshot F))
      → (survey model ws).0.eligible ≡ count (offers model) ws
  unfolding survey
  survey_eligible model [] = refl
  survey_eligible model (w ∷ ws) = ground (arith, survey_eligible model ws)

  -- Every eligible worker is kept, or is at capacity.
  pub survey_balance :
      (model : Bytes) (ws : List (WorkerSnapshot F))
      → let (why, idx) = survey model ws in why.eligible ≡ why.at_capacity + length idx
  unfolding survey
  survey_balance model [] = refl
  survey_balance model (w ∷ ws) = ground (arith, survey_balance model ws)

module _ {F : Type 0} (P : WorkerSnapshot F → Type 0) where
  place-All :
      (w : WorkerSnapshot F) (ws : List (WorkerSnapshot F)) → P w → All P ws → All P (place w ws)
  unfolding place
  place-All w [] h a = (h, tt)
  place-All w (v ∷ vs) h a = elim (Bool-cases (bytes_ltb v.worker_id w.worker_id)) [
    | inl t ↦ rw t (a.0, place-All w vs h a.1)
    | inr f ↦ rw f (h, a)
  ]

  pub sort-All : (ws : List (WorkerSnapshot F)) → All P ws → All P (sort ws)
  unfolding sort
  sort-All [] a = tt
  sort-All (w ∷ ws) a = place-All w (sort ws) a.0 (sort-All ws a.1)

  pub if-All :
      (c : Bool) (xs ys : List (WorkerSnapshot F))
      → All P xs
      → All P ys
      → All P (if c then xs else ys)
  if-All true xs ys a b = a
  if-All false xs ys a b = b

  abbrev pub Perhaps : Option (WorkerSnapshot F) → Type 0
  Perhaps none = Unit
  Perhaps (some w) = P w

  first_after-All :
      (last : Bytes) (ws : List (WorkerSnapshot F))
      → All P ws
      → Perhaps (first_after (λ (v : WorkerSnapshot F). v.worker_id) last ws)
  unfolding first_after
  first_after-All last [] a = tt
  first_after-All last (w ∷ ws) a = elim (Bool-cases (bytes_ltb last w.worker_id)) [
    | inl t ↦ rw t a.0
    | inr f ↦ rw f (first_after-All last ws a.1)
  ]

  pub or_first-All :
      (o : Option (WorkerSnapshot F)) (w : WorkerSnapshot F) → Perhaps o → P w → P (or_first o w)
  or_first-All none w h k = k
  or_first-All (some v) w h k = h

  pub next-All :
      (r : Rotor) (model : Bytes) (w : WorkerSnapshot F) (ws : List (WorkerSnapshot F))
      → All P (w ∷ ws)
      → P (next (λ (v : WorkerSnapshot F). v.worker_id) r model w ws).1
  unfolding next
  next-All r model w ws a =
      or_first-All
        (first_after (λ (v : WorkerSnapshot F). v.worker_id) (last_of (lookup model r)) (w ∷ ws)) w
        (first_after-All (last_of (lookup model r)) (w ∷ ws) a) a.0

  pub turn-All :
      (r : Rotor) (model : Bytes) (d : WorkerSnapshot F) (ws : List (WorkerSnapshot F))
      → P d
      → All P ws
      → P (turn r model d ws).1
  turn-All r model d [] h a = h
  turn-All r model d (w ∷ ws) h a = next-All r model w ws a

  pub choose_with-All :
      (load : WorkerSnapshot F → ℕ) (r : Rotor) (model : Bytes) (w : WorkerSnapshot F)
      (ws : List (WorkerSnapshot F))
      → All P (w ∷ ws)
      → P (choose_with load r model w ws).1
  unfolding choose_with
  choose_with-All load r model w ws a =
      turn-All r model w _ a.0 (keep-All P (is_tied load (least load (load w) ws)) (w ∷ ws) a)
