-- ===== src/Scheduler/Choice.antt =====
-- Whom the strategies choose, and why nobody is chosen (internal/scheduler).
use server_flow.Prelude.{
  Among, everyone_listed, ℕ, suc, ◌≡◌, refl, sym, ap, Bool, true, false, not, List, [], ◌∷◌, arith,
  if◌then◌else◌, keep, get_or, length, count, All,
}
use server_flow.Prelude.Bytes.{Bytes, bytes_eq}
use server_flow.Prelude.Assoc.{keep-All}
use server_flow.Prelude.Float.{Float64}
use server_flow.Protocol.{WorkerSnapshot, InferenceRequest}
use server_flow.Scheduler.Rotor.{Rotor}
use server_flow.Scheduler.Candidates.{
  serves, offers, has_room, survey, place, sort, is_sorted, offered_or, eligible, choose_with,
  active_load, queue_load,
}
use server_flow.Scheduler.Strategies.{
  Strategy, random, round_robin, least_active, least_queue, least_tokens, least_work, Scheduler,
  Selection, cancelled, no_worker, chosen, with_degraded, with_invalid, any_trusted, Scorer,
  flag_choice, new_scorer, select_aware, pick_by, cheapest, select_from, select_worker,
}
use server_flow.Scheduler.Kept.{
  get_or-All, keep-passes, both, survey_room, survey_serving, survey_model, survey_eligible,
  survey_balance, sort-All, if-All, next-All, turn-All, choose_with-All,
}

-- The same worker, perhaps with other degraded and invalid flags.
abbrev pub SameWorker : {F : Type 0} → WorkerSnapshot F → WorkerSnapshot F → Type 0
SameWorker w v = v ≡ record w {
  observed = record (w.observed) {
    flags = record (w.observed.flags) {
      degraded = v.observed.flags.degraded;
      invalid = v.observed.flags.invalid;
    };
  };
}

module _ (fl : Float64) (P : WorkerSnapshot (fl.Float) → Type 0) where
  open fl use {Float}

  -- A worker with `P`, perhaps with other degraded and invalid flags.
  abbrev Marked : WorkerSnapshot Float → Type 0
  Marked v = (w : WorkerSnapshot Float) × P w × SameWorker w v

  Marked-degraded : (v : WorkerSnapshot Float) → Marked v → Marked (with_degraded v)
  Marked-degraded v (w, p, e) = (w, p, ap with_degraded e)

  Marked-invalid : (v : WorkerSnapshot Float) → Marked v → Marked (with_invalid v)
  Marked-invalid v (w, p, e) = (w, p, ap with_invalid e)

  Marked-if :
      (c : Bool) (v u : WorkerSnapshot Float) → Marked v → Marked u → Marked (if c then v else u)
  Marked-if true v u a b = a
  Marked-if false v u a b = b

  flag_choice-Marked :
      (sc : Scorer Float) (w : WorkerSnapshot Float) → P w → Marked (flag_choice fl sc w)
  unfolding flag_choice
  flag_choice-Marked sc w h =
      let degraded =
        Marked-if sc.degraded (with_degraded w) w (Marked-degraded w (w, h, refl)) (w, h, refl) in
      Marked-if _ _ _ degraded (Marked-invalid _ degraded)

  abbrev PickMarked : Rotor × WorkerSnapshot Float → Type 0
  PickMarked (r, v) = Marked v

  pick_if :
      (c : Bool) (r t : Rotor) (v u : WorkerSnapshot Float)
      → Marked v
      → Marked u
      → PickMarked (if c then (r, v) else (t, u))
  pick_if true r t v u x y = x
  pick_if false r t v u x y = y

  cheapest-All :
      (sc : Scorer Float) (ws : List (WorkerSnapshot Float)) → All P ws → All P (cheapest fl sc ws)
  unfolding cheapest
  cheapest-All sc ws a = keep-All P _ ws a

  select_aware-Marked :
      (s : Scheduler Float) (req : InferenceRequest Float) (w : WorkerSnapshot Float)
      (ws : List (WorkerSnapshot Float))
      → All P (w ∷ ws)
      → PickMarked (select_aware fl s req w ws)
  unfolding select_aware
  select_aware-Marked s req w ws a =
      let sc = new_scorer fl s req (w ∷ ws) in
      let fallback = (choose_with active_load s.last req.model w ws).1 in
      pick_if (not (any_trusted (w ∷ ws))) _ _ _ _
        (Marked-degraded fallback
          (fallback, choose_with-All P active_load s.last req.model w ws a, refl))
        (flag_choice-Marked sc _ (
          turn-All P s.last req.model w (cheapest fl sc (w ∷ ws)) a.0 (cheapest-All sc (w ∷ ws) a)))

  pick_by-Marked :
      (k : Strategy) (s : Scheduler Float) (intn : ℕ → ℕ) (req : InferenceRequest Float)
      (w : WorkerSnapshot Float) (ws : List (WorkerSnapshot Float))
      → All P (w ∷ ws)
      → PickMarked (pick_by fl k s intn req w ws)
  unfolding pick_by
  pick_by-Marked random s intn req w ws a = (
    get_or (w ∷ ws) (intn (length (w ∷ ws))) w,
    get_or-All P (w ∷ ws) (intn (length (w ∷ ws))) w a a.0,
    refl,
  )
  pick_by-Marked round_robin s intn req w ws a = (_, next-All P s.last req.model w ws a, refl)
  pick_by-Marked least_active s intn req w ws a =
      (_, choose_with-All P active_load s.last req.model w ws a, refl)
  pick_by-Marked least_queue s intn req w ws a =
      (_, choose_with-All P queue_load s.last req.model w ws a, refl)
  pick_by-Marked least_tokens s intn req w ws a = select_aware-Marked s req w ws a
  pick_by-Marked least_work s intn req w ws a = select_aware-Marked s req w ws a

-- Room for a request of the model, at a worker of the list.
abbrev pub Fits : {F : Type 0} → Bytes → List (WorkerSnapshot F) → WorkerSnapshot F → Type 0
Fits model ws w = Among w ws × has_room model w ≡ true

eligible-Fits :
    {F : Type 0} (model : Bytes) (ws : List (WorkerSnapshot F))
    → All
        (Fits model ws)
        (if is_sorted (survey model ws).1 then (survey model ws).1 else sort (survey model ws).1)
eligible-Fits model ws = rw (survey_room model ws) (
    let a =
      both (λ w. Among w ws) (λ w. has_room model w ≡ true) (keep (has_room model) ws)
        (keep-All (λ w. Among w ws) (has_room model) ws (everyone_listed ws))
        (keep-passes (has_room model) ws) in
    if-All (Fits model ws) (is_sorted (keep (has_room model) ws)) (keep (has_room model) ws)
      (sort (keep (has_room model) ws)) a (sort-All (Fits model ws) (keep (has_room model) ws) a))

-- What the caller may rely on. A chosen worker is one of the list with room for the model, and differs in its
-- degraded and invalid flags at most. Nobody is chosen when nobody has room: the counts are those of the list, and every eligible worker is at capacity.
abbrev pub Answers : {F : Type 0} → Bytes → List (WorkerSnapshot F) → Selection F → Type 0
Answers model ws cancelled = ⊥
Answers model ws (chosen v) = (w : _) × Fits model ws w × SameWorker w v
Answers model ws (no_worker why) =
    (keep (has_room model) ws ≡ [])
    × (why.model ≡ model)
    × (why.serving ≡ count (serves model) ws)
    × (why.eligible ≡ count (offers model) ws)
    × (why.at_capacity ≡ why.eligible)

length-place :
    {F : Type 0} (w : WorkerSnapshot F) (ws : List (WorkerSnapshot F))
    → length (place w ws) ≡ suc (length ws)
unfolding place
length-place w [] = refl
length-place w (v ∷ vs) = ground (arith, length-place w vs)

pub length-sort : {F : Type 0} (ws : List (WorkerSnapshot F)) → length (sort ws) ≡ length ws
unfolding sort
length-sort [] = refl
length-sort (w ∷ ws) = omega (arith, length-place w (sort ws), length-sort ws)

-- What the survey's counts say when it keeps nobody.
survey_none :
    {F : Type 0} (model : Bytes) (ws : List (WorkerSnapshot F))
    → keep (has_room model) ws ≡ []
    → Answers model ws (no_worker ((survey model ws).0))
survey_none model ws e = (
  e,
  survey_model model ws,
  survey_serving model ws,
  survey_eligible model ws,
  omega (arith, survey_balance model ws, ap length (survey_room model ws), ap length e),
)

length_if :
    {F : Type 0} (c : Bool) (ws : List (WorkerSnapshot F))
    → length (if c then ws else sort ws) ≡ length ws
length_if true ws = refl
length_if false ws = length-sort ws

length-none : {A : Type 0} (xs : List A) → length xs ≡ 0 → xs ≡ []
length-none [] e = refl
length-none (x ∷ xs) e = absurd (ground arith)

module _ (fl : Float64) where
  select_from-Answers :
      (s : Scheduler (fl.Float)) (intn : ℕ → ℕ) (req : InferenceRequest (fl.Float))
      (ws xs : List (WorkerSnapshot (fl.Float)))
      → length xs ≡ length (keep (has_room req.model) ws)
      → All (Fits req.model ws) xs
      → Answers req.model ws (select_from fl s intn req (offered_or ((survey req.model ws).0) xs)).1
  select_from-Answers s intn req ws [] e a = survey_none req.model ws (length-none _ (sym e))
  select_from-Answers s intn req ws (x ∷ xs) e a =
      (pick_by-Marked fl (Fits req.model ws) s.strategy s intn req x xs a)

  -- A worker is chosen exactly when one of the list has room for the model, by every strategy and whatever the random source
  -- says. The chosen one is such a worker, and all that may differ from it are the flags
  -- `degraded` and `invalid` of its observation. Otherwise the error counts the workers that serve the model and
  -- the eligible ones, and all of these are at capacity. This is for a request whose context is not done.
  pub select_worker-Answers :
      (s : Scheduler (fl.Float)) (intn : ℕ → ℕ) (req : InferenceRequest (fl.Float))
      (ws : List (WorkerSnapshot (fl.Float)))
      → Answers req.model ws (select_worker fl s intn false req ws).1
  unfolding select_worker eligible
  select_worker-Answers s intn req ws =
      let idx = (survey req.model ws).1 in
      select_from-Answers s intn req ws (if is_sorted idx then idx else sort idx)
        (rw (survey_room req.model ws)
          (length_if (is_sorted (keep (has_room req.model) ws)) (keep (has_room req.model) ws)))
        (eligible-Fits req.model ws)
