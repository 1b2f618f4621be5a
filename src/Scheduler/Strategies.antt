-- ===== src/Scheduler/Strategies.antt =====
-- The strategies of internal/scheduler/scheduler.go and workaware.go. The random source's IntN is an argument.
use server_flow.Prelude.{
  ℕ, ◌-◌, ◌/◌, ◌%◌, Bool, true, false, ◌&&◌, ◌||◌, not, Option, none, some, List, [], ◌∷◌, ltb,
  nat_beq, if◌then◌else◌, keep, get_or, length,
}
use server_flow.Prelude.Bytes.{bytes_eq}
use server_flow.Prelude.Float.{Float64}
use server_flow.Protocol.{WorkerSnapshot, InferenceRequest}
use server_flow.Cost.Work.{Weights, work}
use server_flow.Scheduler.Rotor.{Rotor, next}
use server_flow.Scheduler.Candidates.{
  Eligibles, refused, offered, NoWorkerError, eligible, choose_with, turn, active_load, queue_load,
}

pub data Strategy : Type 0 where
  random round_robin least_active least_queue least_tokens least_work : Strategy

-- What SelectWorker answers.
pub data Selection (F : Type 0) : Type 0 where
  cancelled : Selection F
  no_worker : (why : NoWorkerError) → Selection F
  chosen : (w : WorkerSnapshot F) → Selection F

pub record Scheduler (F : Type 0) : Type 0 where
  pub strategy : Strategy
  pub weights : Weights F
  pub last : Rotor

module _ {F : Type 0} where
  abbrev pub with_degraded : WorkerSnapshot F → WorkerSnapshot F
  with_degraded w = record w {
    observed = record (w.observed) { flags = record (w.observed.flags) { degraded = true } };
  }

  abbrev pub with_invalid : WorkerSnapshot F → WorkerSnapshot F
  with_invalid w = record w {
    observed = record (w.observed) { flags = record (w.observed.flags) { invalid = true } };
  }

  -- The snapshot carries a ledger observation of a tracked worker.
  abbrev pub trusted : WorkerSnapshot F → Bool
  trusted w = w.observed.flags.ledger && not w.observed.flags.untracked

  abbrev pub any_trusted : List (WorkerSnapshot F) → Bool
  any_trusted [] = false
  any_trusted (w ∷ ws) = trusted w || any_trusted ws

  abbrev pub is_some : Option F → Bool
  is_some none = false
  is_some (some v) = true

  abbrev pub some_of : Option F → List F → List F
  some_of none vs = vs
  some_of (some v) vs = v ∷ vs

-- What `prepare` finds out.
pub record Scorer (F : Type 0) : Type 0 where
  pub work : Bool
  pub c : F
  pub prior : F
  pub degraded : Bool

module _ (fl : Float64) where
  open fl use {Float}

  abbrev pub valid_rate : Float → Bool
  valid_rate r = fl.fltb (fl.of_int 0) r && not (fl.is_inf r)

  -- sort.Float64s, of numbers that are not NaN.
  unfoldable pub place_float : Float → List Float → List Float
  place_float v [] = v ∷ []
  place_float v (x ∷ xs) =
      let later = x ∷ place_float v xs in if fl.fltb x v then later else v ∷ x ∷ xs

  unfoldable pub sort_floats : List Float → List Float
  sort_floats [] = []
  sort_floats (v ∷ vs) = place_float v (sort_floats vs)

  unfoldable pub median_of : List Float → Float
  median_of vs =
      let v = sort_floats vs in
      let n = length v in
      let zero = fl.of_int 0 in
      if nat_beq (n % 2) 1
      then get_or v (n / 2) zero
      else fl.div (fl.add (get_or v (n / 2 - 1) zero) (get_or v (n / 2) zero)) (fl.of_int 2)

  unfoldable pub rates_of : List (WorkerSnapshot Float) → List Float
  rates_of [] = []
  rates_of (w ∷ ws) =
      let rest = rates_of ws in
      if valid_rate w.observed.capacity_tps then w.observed.capacity_tps ∷ rest else rest

  unfoldable pub prepare : Scorer Float → List (WorkerSnapshot Float) → Scorer Float
  prepare sc ws =
      let rates = rates_of ws in
      if nat_beq (length rates) 0
      then record sc { work = false; degraded = true }
      else if ltb (length rates) (length ws)
      then record sc { prior = median_of rates }
      else sc

  -- The score and whether it is valid.
  unfoldable pub score : Scorer Float → WorkerSnapshot Float → Option Float
  score sc w =
      let ahead = w.observed.work_ahead_tokens in
      let r = if valid_rate w.observed.capacity_tps then w.observed.capacity_tps else sc.prior in
      let v = fl.div (fl.add ahead sc.c) r in
      if not (trusted w)
      then none
      else if not (fl.fleb (fl.of_int 0) ahead) || fl.is_inf ahead
      then none
      else if not sc.work
      then some ahead
      else if fl.is_nan v || fl.is_inf v
      then none
      else some v

  -- The valid scores, in order.
  unfoldable pub scores : Scorer Float → List (WorkerSnapshot Float) → List Float
  scores sc [] = []
  scores sc (w ∷ ws) = some_of (score sc w) (scores sc ws)

  unfoldable pub best_of : Float → List Float → Float
  best_of best [] = best
  best_of best (v ∷ vs) = best_of (fl.fmin best v) vs

  abbrev pub or_neutral : Option Float → Float → Float
  or_neutral none neutral = neutral
  or_neutral (some v) neutral = v

  abbrev pub is_tied_score : Scorer Float → Bool → Float → Float → WorkerSnapshot Float → Bool
  is_tied_score sc all_invalid best neutral w =
      all_invalid
      || fl.fleb (or_neutral (score sc w) neutral) (fl.add best (fl.mul (fl.lit 1 9) (fl.abs best)))

  -- The workers whose score is tied with the best one.
  unfoldable pub cheapest : Scorer Float → List (WorkerSnapshot Float) → List (WorkerSnapshot Float)
  cheapest sc ws =
      let valid = scores sc ws in
      let best = best_of fl.inf valid in
      let all_invalid = nat_beq (length valid) 0 in
      let neutral =
        if ltb (length valid) (length ws) && not all_invalid then median_of valid else fl.inf in
      keep (is_tied_score sc all_invalid best neutral) ws

  -- The flags of the copy that is handed out.
  unfoldable pub flag_choice : Scorer Float → WorkerSnapshot Float → WorkerSnapshot Float
  flag_choice sc w =
      let w' = if sc.degraded then with_degraded w else w in
      if is_some (score sc w') || w'.observed.flags.untracked then w' else with_invalid w'

  abbrev pub is_work : Strategy → Bool
  is_work least_work = true
  is_work _ = false

  abbrev pub new_scorer :
      Scheduler Float → InferenceRequest Float → List (WorkerSnapshot Float) → Scorer Float
  new_scorer s req ws =
      let plain : Scorer Float = record {
        work = false;
        c = fl.of_int 0;
        prior = fl.of_int 0;
        degraded = false;
      } in
      if is_work s.strategy
      then prepare
          (record plain {
            work = true;
            c = fl.of_int (work fl req.est_input_tokens req.est_output_tokens s.weights);
          })
          ws
      else plain

  -- workAware.SelectWorker among the eligible workers `w ∷ ws`.
  unfoldable pub select_aware :
      Scheduler Float
      → InferenceRequest Float
      → WorkerSnapshot Float
      → List (WorkerSnapshot Float)
      → Rotor × WorkerSnapshot Float
  select_aware s req w ws =
      let (r', fallback) = choose_with active_load s.last req.model w ws in
      let sc = new_scorer s req (w ∷ ws) in
      let (r, pick) = turn s.last req.model w (cheapest sc (w ∷ ws)) in
      if not (any_trusted (w ∷ ws)) then (r', with_degraded fallback) else (r, flag_choice sc pick)

  -- A strategy among the eligible workers `w ∷ ws`.
  unfoldable pub pick_by :
      Strategy
      → Scheduler Float
      → (ℕ → ℕ)
      → InferenceRequest Float
      → WorkerSnapshot Float
      → List (WorkerSnapshot Float)
      → Rotor × WorkerSnapshot Float
  pick_by random s intn req w ws = (s.last, get_or (w ∷ ws) (intn (length (w ∷ ws))) w)
  pick_by round_robin s intn req w ws =
      next (λ (v : WorkerSnapshot Float). v.worker_id) s.last req.model w ws
  pick_by least_active s intn req w ws = choose_with active_load s.last req.model w ws
  pick_by least_queue s intn req w ws = choose_with queue_load s.last req.model w ws
  pick_by least_tokens s intn req w ws = select_aware s req w ws
  pick_by least_work s intn req w ws = select_aware s req w ws

  abbrev pub select_from :
      Scheduler Float
      → (ℕ → ℕ)
      → InferenceRequest Float
      → Eligibles Float
      → Scheduler Float × Selection Float
  select_from s intn req (refused why) = (s, no_worker why)
  select_from s intn req (offered w ws) =
      let (r, pick) = pick_by s.strategy s intn req w ws in (record s { last = r }, chosen pick)

  -- SelectWorker, with the state of the request's context.
  unfoldable pub select_worker :
      Scheduler Float
      → (ℕ → ℕ)
      → Bool
      → InferenceRequest Float
      → List (WorkerSnapshot Float)
      → Scheduler Float × Selection Float
  select_worker s intn done req workers =
      if done then (s, cancelled) else select_from s intn req (eligible req.model workers)
