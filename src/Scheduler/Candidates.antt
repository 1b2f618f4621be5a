-- ===== src/Scheduler/Candidates.antt =====
-- internal/scheduler/scheduler.go: the workers that may serve a request, and the strategies that choose one of them. An index
-- into the snapshot stands for the worker there, so a list of indices is a list of workers.
use server_flow.Prelude.{
  ℕ, ◌+◌, Bool, true, false, ◌&&◌, ◌||◌, not, List, [], ◌∷◌, ltb, leb, nat_beq, if◌then◌else◌, keep,
}
use server_flow.Prelude.Bytes.{Bytes, bytes_eq, bytes_beq, bytes_ltb}
use server_flow.Protocol.{WorkerSnapshot, Health, healthy, suspect, is_ready}
use server_flow.Scheduler.Rotor.{Rotor, next}

pub record NoWorkerError : Type 0 where
  pub model : Bytes
  pub serving : ℕ
  pub eligible : ℕ
  pub at_capacity : ℕ

-- Who may serve: nobody, and why, or the workers in order of their IDs, of which there is at least one.
pub data Eligibles (F : Type 0) : Type 0 where
  refused : (why : NoWorkerError) → Eligibles F
  offered : (w : WorkerSnapshot F) (ws : List (WorkerSnapshot F)) → Eligibles F

unfoldable pub unknown_model : NoWorkerError → Bool
unknown_model e = nat_beq e.serving 0

abbrev pub routable : Health → Bool
routable healthy = true
routable suspect = true
routable _ = false

module _ {F : Type 0} where
  abbrev pub serves : Bytes → WorkerSnapshot F → Bool
  serves model w = bytes_beq w.model model

  abbrev pub offers : Bytes → WorkerSnapshot F → Bool
  offers model w = serves model w && is_ready w.state && w.eligible && routable w.health

  abbrev pub is_full : WorkerSnapshot F → Bool
  is_full w = leb w.max_concurrency w.metrics.active_requests

  abbrev pub has_room : Bytes → WorkerSnapshot F → Bool
  has_room model w = offers model w && not (is_full w)

  -- The loop of `eligible`: what it counts, and the workers that it keeps.
  unfoldable pub survey : Bytes → List (WorkerSnapshot F) → NoWorkerError × List (WorkerSnapshot F)
  survey model [] = (record { model = model; serving = 0; eligible = 0; at_capacity = 0 }, [])
  survey model (w ∷ ws) =
      let (why, idx) = survey model ws in
      if not (serves model w)
      then (why, idx)
      else if not (is_ready w.state) || not w.eligible || not (routable w.health)
      then (record why { serving = why.serving + 1 }, idx)
      else if is_full w
      then (
        record why {
          serving = why.serving + 1;
          eligible = why.eligible + 1;
          at_capacity = why.at_capacity + 1;
        },
        idx,
      )
      else (record why { serving = why.serving + 1; eligible = why.eligible + 1 }, w ∷ idx)

  -- sort.Slice by worker ID.
  unfoldable pub place : WorkerSnapshot F → List (WorkerSnapshot F) → List (WorkerSnapshot F)
  place w [] = w ∷ []
  place w (v ∷ vs) =
      let later = v ∷ place w vs in if bytes_ltb v.worker_id w.worker_id then later else w ∷ v ∷ vs

  unfoldable pub sort : List (WorkerSnapshot F) → List (WorkerSnapshot F)
  sort [] = []
  sort (w ∷ ws) = place w (sort ws)

  abbrev pub not_after : WorkerSnapshot F → List (WorkerSnapshot F) → Bool
  not_after w [] = true
  not_after w (v ∷ vs) = not (bytes_ltb v.worker_id w.worker_id)

  -- sort.SliceIsSorted
  unfoldable pub is_sorted : List (WorkerSnapshot F) → Bool
  is_sorted [] = true
  is_sorted (w ∷ ws) = not_after w ws && is_sorted ws

  abbrev pub offered_or : NoWorkerError → List (WorkerSnapshot F) → Eligibles F
  offered_or why [] = refused why
  offered_or why (w ∷ ws) = offered w ws

  unfoldable pub eligible : Bytes → List (WorkerSnapshot F) → Eligibles F
  eligible model workers =
      let (why, idx) = survey model workers in
      offered_or why (if is_sorted idx then idx else sort idx)

  -- The smallest load among `w ∷ ws`.
  unfoldable pub least : (WorkerSnapshot F → ℕ) → ℕ → List (WorkerSnapshot F) → ℕ
  least load m [] = m
  least load m (w ∷ ws) = least load (if ltb (load w) m then load w else m) ws

  abbrev pub is_tied : (WorkerSnapshot F → ℕ) → ℕ → WorkerSnapshot F → Bool
  is_tied load m w = nat_beq (load w) m

  -- The rotor's turn among the tied ones. Of none the code would read an index out of range; here the default is taken.
  -- For chooseWith there is always one, the worker of the least load.
  abbrev pub turn :
      Rotor → Bytes → WorkerSnapshot F → List (WorkerSnapshot F) → Rotor × WorkerSnapshot F
  turn r model default [] = (r, default)
  turn r model default (w ∷ ws) = next (λ (v : WorkerSnapshot F). v.worker_id) r model w ws

  -- chooseWith among the workers `w ∷ ws`.
  unfoldable pub choose_with :
      (WorkerSnapshot F → ℕ)
      → Rotor
      → Bytes
      → WorkerSnapshot F
      → List (WorkerSnapshot F)
      → Rotor × WorkerSnapshot F
  choose_with load r model w ws =
      turn r model w (keep (is_tied load (least load (load w) ws)) (w ∷ ws))

  abbrev pub active_load : WorkerSnapshot F → ℕ
  active_load w = w.metrics.active_requests

  abbrev pub queue_load : WorkerSnapshot F → ℕ
  queue_load w = w.metrics.queue_depth
