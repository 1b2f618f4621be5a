-- ===== src/Scheduler/Tests.antt =====
-- internal/scheduler on two workers, and its theorems at them.
use server_flow.Prelude.{ℕ, ◌≤◌, ◌≡◌, refl, false, [], ◌∷◌, List, All}
use server_flow.Prelude.Bytes.{Bytes, ascii, bytes_eq, bytes_beq, bytes_ltb}
use server_flow.Prelude.Assoc.{lookup, insert}
use server_flow.Prelude.Fixed.{fixed}
use server_flow.Protocol.{WorkerSnapshot}
use server_flow.Cost.Work.{default_weights, sane, work}
use server_flow.Scheduler.Rotor.{first_after, next}
use server_flow.Scheduler.Candidates.{
  survey, place, sort, is_sorted, eligible, least, choose_with, active_load,
}
use server_flow.Scheduler.Strategies.{
  random, round_robin, least_active, least_work, no_worker, chosen, place_float, sort_floats,
  median_of, rates_of, prepare, score, scores, best_of, cheapest, flag_choice, select_aware,
  pick_by, select_worker,
}
use server_flow.Scheduler.Choice.{Answers, select_worker-Answers}
use server_flow.Scheduler.Fairness.{turns_before, spin, next-spin}
use server_flow.Scheduler.Least.{choose_with-AtLeast}
use server_flow.Scheduler.Sample.{one, two, full, request, by}

program : Unit {0}
unfolding lookup insert bytes_beq bytes_ltb default_weights sane work first_after next survey place
    sort is_sorted eligible least choose_with place_float sort_floats median_of rates_of prepare
    score scores best_of cheapest flag_choice select_aware pick_by select_worker
program = tt

abbrev id : WorkerSnapshot ℕ → Bytes
id w = w.worker_id

-- The snapshot is put in order, the full worker left out.
ordered_pick :
    (select_worker fixed (by round_robin) (λ n. 0) false request (full ∷ two ∷ one ∷ [])).1
    ≡ chosen one
unfolding program
ordered_pick = refl

least_pick :
    (select_worker fixed (by least_active) (λ n. 0) false request (full ∷ two ∷ one ∷ [])).1
    ≡ chosen two
unfolding program
least_pick = refl

work_pick :
    (select_worker fixed (by least_work) (λ n. 0) false request (full ∷ two ∷ one ∷ [])).1
    ≡ chosen two
unfolding program
work_pick = refl

abbrev all_full : List (WorkerSnapshot ℕ)
all_full = full ∷ []

none_pick :
    (select_worker fixed (by random) (λ n. 0) false request all_full).1
    ≡ no_worker (record { model = ascii "m"; serving = 1; eligible = 1; at_capacity = 1 })
unfolding program
none_pick = refl

select_worker-Answers_example :
    Answers
      (ascii "m")
      (full ∷ two ∷ one ∷ [])
      ((select_worker fixed (by least_work) (λ n. 0) false request (full ∷ two ∷ one ∷ [])).1)
select_worker-Answers_example =
    select_worker-Answers fixed (by least_work) (λ n. 0) request (full ∷ two ∷ one ∷ [])

next-spin_example :
    (next id (spin id 3 [] (ascii "m") one (two ∷ full ∷ [])) (ascii "m") one (two ∷ full ∷ [])).1
    ≡ one
unfolding program turns_before
next-spin_example =
    next-spin id 3 [] (ascii "m") one (two ∷ full ∷ []) ((refl, (refl, tt)), ((refl, tt), (tt, tt)))

choose_with-AtLeast_example :
    All
      (λ v. active_load ((choose_with active_load [] (ascii "m") one (two ∷ [])).1) ≤ active_load v)
      (one ∷ two ∷ [])
choose_with-AtLeast_example = choose_with-AtLeast active_load [] (ascii "m") one (two ∷ [])
