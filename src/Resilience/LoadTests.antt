-- ===== src/Resilience/LoadTests.antt =====
-- internal/resilience/admission.go, budget.go and queue.go on concrete calls, and their theorems at them.
use server_flow.Prelude.{List, ℕ, ◌≤◌, ◌≡◌, refl, true, false, [], ◌∷◌, arith, count, some}
use server_flow.Prelude.Bytes.{ascii, bytes_eq, bytes_beq}
use server_flow.Prelude.Assoc.{lookup, insert, delete}
use server_flow.Resilience.Queue.{
  QueueParams, first_idle, settle, new_queue, depth, settle_model, leave_model, leave_locked,
  handoff_head, handoff, tenant_cap, refuse_locked, push, enqueue,
}
use server_flow.Resilience.Queue.Depth.{enqueues, hands_off, depth-bounded}
use server_flow.Resilience.Queue.Depth as Queues
use server_flow.Prelude.Fixed.{fixed}
use server_flow.Resilience.Window.{new_sliding_window, add, add_at, slot_of, sum, sum_slots}
use server_flow.Resilience.Admission.{new_admission, acquire, release}
use server_flow.Resilience.Admission.Places.{acquires, releases, held, active-held}
use server_flow.Resilience.Admission.Places
use server_flow.Resilience.Budget.{
  BudgetParams, Budget, new_budget, window_key, window_of, note_first, give_back, refund, limit,
  reserve,
}
use server_flow.Resilience.Budget.Tracked.{notes_first, reserves, is_own, models-bounded}
use server_flow.Resilience.Budget.Tracked

queues : Unit {0}
unfolding first_idle settle new_queue depth settle_model leave_model leave_locked handoff_head
    handoff tenant_cap refuse_locked push enqueue lookup insert delete bytes_beq Queues.run
queues = tt

program : Unit {0}
unfolding new_sliding_window add add_at slot_of sum sum_slots new_admission acquire release
    new_budget window_key window_of note_first give_back refund limit reserve lookup insert
    bytes_beq Places.run Tracked.run
program = tt

-- One place: the second request is refused until the first one leaves, and leaving twice counts once.
places_reused :
    (Places.run (new_admission 1) (acquires ∷ acquires ∷ releases 0 ∷ releases 0 ∷ acquires ∷ []))
    ≡ record { max = 1; active = 1; slots = true ∷ false ∷ [] }
unfolding program
places_reused = refl

active-held_example :
    let a = Places.run (new_admission 1) (acquires ∷ acquires ∷ releases 0 ∷ []) in
    (a.active ≡ held a.slots) × (1 ≤ 1 → a.active ≤ 1)
active-held_example = active-held 1 (acquires ∷ acquires ∷ releases 0 ∷ [])

-- A retry for every two first attempts, and two models.
abbrev params : BudgetParams ℕ
params = record { ratio = 500; least = 0; window = 1000000000; max_models = 1 }

abbrev one_attempt : Budget ℕ
one_attempt = note_first (new_budget params) 5 (ascii "a")

abbrev two_attempts : Budget ℕ
two_attempts = note_first one_attempt 6 (ascii "a")

reserved :
    (reserve fixed two_attempts 7 (ascii "a")).1
    ≡ some (record { model = ascii "a"; at = 7; refunded = false })
unfolding program
reserved = refl

models-bounded_example :
    count is_own
      (Tracked.run fixed (new_budget params) (
        notes_first 5 (ascii "a") ∷ reserves 6 (ascii "b") ∷ notes_first 7 (ascii "c") ∷ [])).models
    ≤ 1
models-bounded_example =
    models-bounded fixed params
      (notes_first 5 (ascii "a") ∷ reserves 6 (ascii "b") ∷ notes_first 7 (ascii "c") ∷ [])
      (omega arith)

-- Two waiters for each model.
abbrev queue_params : QueueParams ℕ
queue_params = record { max_model_depth = 2; max_wait = 9; max_tenant_share = 0; max_models = 0 }

abbrev arrivals : List (Queues.Call ℕ)
arrivals =
    enqueues 1 (ascii "m") (ascii "a")
    ∷ enqueues 2 (ascii "m") (ascii "b")
    ∷ enqueues 3 (ascii "m") (ascii "a")
    ∷ hands_off (ascii "m") 7
    ∷ []

-- The third is refused, and the first gets the slot.
one_waits : depth (Queues.run fixed (new_queue queue_params) arrivals) (ascii "m") ≡ 1
unfolding queues
one_waits = refl

depth-bounded_example : depth (Queues.run fixed (new_queue queue_params) arrivals) (ascii "m") ≤ 2
depth-bounded_example = depth-bounded fixed queue_params arrivals (ascii "m")
