-- ===== src/Resilience/Tests.antt =====
-- internal/resilience/breaker.go and breakers.go on concrete calls, and their theorems at them.
use server_flow.Prelude.{
  ℕ, ◌+◌, ◌*◌, ◌-◌, ◌/◌, ◌^◌, ◌≤◌, ◌<◌, ◌≡◌, refl, true, false, List, [], ◌∷◌, arith, some, none,
  min, max, count, Option,
}
use server_flow.Prelude.Bytes.{ascii, bytes_eq, bytes_beq}
use server_flow.Prelude.Assoc.{lookup, insert, delete}
use server_flow.Prelude.Fixed.{fixed}
use server_flow.Resilience.Window.Counts.{pick, counts}
use server_flow.Resilience.Window.History.{Use, hit, use_window, recorded, sum-exact}
use server_flow.Resilience.Window.{
  bucket_width, bucket_of, first, second, new_sliding_window, add, add_at, slot_of, sum, sum_slots,
  reset,
}
use server_flow.Resilience.Breaker.{
  Breaker, BreakerParams, Key, State, closed, half_open, opened, fault, half_opens, count_outcome,
  ticket_backstop, new_breaker, drop_lost, advance, probe_free, streak_trips, cool_down_from,
  base_cool_down, max_level_from, max_level, next_level, ratio_trips, trip_reason, record_closed,
  jittered, open_breaker, close_breaker,
}
use server_flow.Resilience.Breaker.Backoff.{base_cool_down_exact, max_level_first, open-advance}
use server_flow.Resilience.Breakers.{
  Member, Ticket, count_models, victim, normalize, new_breakers, find, emit, put, unlock,
  recount_eligible, advance_locked, close_victim, max_open, room_to_open, enforce_model,
  enforce_models, enforce_cap,
}
use server_flow.Resilience.Breakers.Calls.{
  sync_members, admissible, acquire_from, acquire, release, sync, prune, reopen, trip, count_closed,
  record_probe, record_locked, record_verdict, late_locked, record_late, abort_locked, record_abort,
}
use server_flow.Resilience.Breakers.Cap.{ejected, eligibles}
use server_flow.Resilience.Breakers.Runs.{Call, sync_call, record_call, run, ejections-capped}

program : Unit {0}
unfolding new_sliding_window add add_at slot_of sum sum_slots reset half_opens count_outcome
    ticket_backstop new_breaker drop_lost advance probe_free streak_trips cool_down_from
    base_cool_down max_level_from max_level next_level ratio_trips trip_reason record_closed
    jittered open_breaker close_breaker count_models victim normalize new_breakers find emit put
    unlock recount_eligible advance_locked close_victim max_open room_to_open enforce_model
    enforce_models enforce_cap sync_members admissible acquire_from acquire release sync prune
    reopen trip count_closed record_probe record_locked record_verdict late_locked record_late
    abort_locked record_abort run lookup insert delete bytes_beq
program = tt

-- One fault trips; half of a model's workers may be ejected.
abbrev params : BreakerParams ℕ
params = record {
  consecutive_failures = 1;
  failure_ratio = 0;
  min_volume = 10;
  window = 2000000000;
  cool_down = 5;
  max_cool_down = 60;
  probe_concurrency = 1;
  probe_successes = 1;
  max_open_fraction = 500;
  header_timeout = 1;
}

abbrev key_a : Key
key_a = record { id = ascii "a"; registered = 1 }

abbrev key_b : Key
key_b = record { id = ascii "b"; registered = 1 }

abbrev member : Key → Member
member k = record { key = k; model = ascii "m"; eligible = true }

abbrev ticket : Key → Ticket
ticket k = record { key = k; id = 0; epoch = 0; probe = false; valid = true }

-- Both workers of one model fail; the second trip has to wait.
abbrev calls : List (Call ℕ)
calls =
    sync_call 0 (member key_a ∷ member key_b ∷ [])
    ∷ record_call 100 (ticket key_a) fault 500
    ∷ record_call 101 (ticket key_b) fault 500
    ∷ []

abbrev state_of : Option Breaker → Option State
state_of none = none
state_of (some b) = some b.state

first_opens : state_of (find (run fixed (new_breakers params) calls) key_a) ≡ some opened
unfolding program
first_opens = refl

second_held : state_of (find (run fixed (new_breakers params) calls) key_b) ≡ some closed
unfolding program
second_held = refl

ejections-capped_example :
    ejected (ascii "m") (run fixed (new_breakers params) calls).by_id
    ≤ max_open fixed 500 (eligibles (ascii "m") (run fixed (new_breakers params) calls).by_id)
ejections-capped_example = ejections-capped fixed params calls (ascii "m")

base_cool_down_exact_example : base_cool_down params 4 ≡ min (5 * 2 ^ 4) 60
base_cool_down_exact_example = base_cool_down_exact params 4

max_level_first_example :
    (base_cool_down params (max_level params) ≡ 60)
    × ((level : ℕ) → level < max_level params → base_cool_down params level < 60)
max_level_first_example = max_level_first params (omega arith)

open-advance_example :
    let b' =
      (advance (open_breaker fixed (new_breaker key_a params) 100 false params 500) 160 params).0 in
    (160 ≤ 100 → b'.state ≡ opened) × (100 + 60 ≤ 160 → (b'.state ≡ half_open) × (b'.tickets ≡ []))
open-advance_example =
    open-advance fixed (new_breaker key_a params) 100 160 false params 500 (omega arith)

-- Two requests, one of them failed, three seconds apart in a window of two seconds.
abbrev uses : List Use
uses =
    hit (record { at = 1000000000; now = 1000000000; which = first })
    ∷ hit (record { at = 1000000000; now = 1500000000; which = second })
    ∷ hit (record { at = 4000000000; now = 4000000000; which = first })
    ∷ []

sum-exact_example :
    pick first (sum (use_window (new_sliding_window 2000000000) uses) 5000000000)
    ≡ count
        (counts first
          (max ((2000000000 + bucket_width - 1) / bucket_width) 1)
          (bucket_of 5000000000))
        (recorded [] uses)
sum-exact_example =
    sum-exact 2000000000 5000000000 uses first
      (omega arith, (omega arith, (omega arith, omega arith)))
