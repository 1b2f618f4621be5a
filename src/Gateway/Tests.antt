-- ===== src/Gateway/Tests.antt =====
-- internal/gateway/router.go on two workers, and its theorems at them.
use server_flow.Prelude.{ℕ, ◌≡◌, refl, true, false, [], ◌∷◌, List, none, some}
use server_flow.Prelude.Bytes.{ascii, bytes_eq, bytes_beq, bytes_ltb}
use server_flow.Prelude.Assoc.{lookup, insert, delete}
use server_flow.Prelude.Fixed.{fixed}
use server_flow.Protocol.{WorkerSnapshot}
use server_flow.Cost.Work.{default_weights, sane, work}
use server_flow.Scheduler.Rotor.{first_after, next}
use server_flow.Scheduler.Candidates.{
  survey, place, sort, is_sorted, eligible, least, choose_with, unknown_model,
}
use server_flow.Scheduler.Strategies.{
  round_robin, place_float, sort_floats, median_of, rates_of, prepare, score, scores, best_of,
  cheapest, flag_choice, select_aware, pick_by, select_worker,
}
use server_flow.Resilience.Breaker.{BreakerParams}
use server_flow.Resilience.Breakers.{no_ticket, new_breakers, find}
use server_flow.Resilience.Breakers.Calls.{acquire, acquire_from, admissible}
use server_flow.Resilience.Queue.{QueueParams, new_queue, depth, busy}
use server_flow.Gateway.Router.{
  Router, schedulable, any_schedulable, local_load, overlay_all, mark_out, filter_broken, take_slot,
  new_routed, nobody, reserve_loop, reserve, route, handoff_locked, give_back, release_slot,
}
use server_flow.Gateway.Reserve.{Distinct}
use server_flow.Gateway.Route.{Placed, route-Placed}
use server_flow.Gateway.Release.{release_slot-take_slot}
use server_flow.Scheduler.Sample.{one, two, full, request, by}

program : Unit {0}
unfolding lookup insert delete bytes_beq bytes_ltb default_weights sane work first_after next survey
    place sort is_sorted eligible least choose_with unknown_model place_float sort_floats median_of
    rates_of prepare score scores best_of cheapest flag_choice select_aware pick_by select_worker
    find acquire acquire_from admissible depth busy schedulable any_schedulable overlay_all mark_out
    filter_broken nobody reserve_loop reserve route handoff_locked give_back release_slot
program = tt

abbrev params : BreakerParams ℕ
params = record {
  consecutive_failures = 1;
  failure_ratio = 0;
  min_volume = 10;
  window = 2000000000;
  cool_down = 5;
  max_cool_down = 60;
  probe_concurrency = 1;
  probe_successes = 1;
  max_open_fraction = 500;
  header_timeout = 1;
}

abbrev queue_params : QueueParams ℕ
queue_params = record { max_model_depth = 2; max_wait = 9; max_tenant_share = 0; max_models = 0 }

-- Three requests are already on the first worker.
abbrev router : Router ℕ
router = record {
  sched = by round_robin;
  has_res = true;
  has_queue = false;
  breakers = new_breakers params;
  waitq = new_queue queue_params;
  inflight = (ascii "w1", 3) ∷ [];
}

abbrev draws : ℕ → ℕ → ℕ
draws turn n = 0

abbrev view : List (WorkerSnapshot ℕ)
view = one ∷ two ∷ full ∷ []

view-Distinct : Distinct view
unfolding program
view-Distinct = ((refl, (refl, tt)), ((refl, tt), (tt, tt)))

-- A request is placed on the first worker, which then has four.
counted :
    (route fixed draws false false false request 1 none [] router (some view)).0.inflight
    ≡ (ascii "w1", 4) ∷ []
unfolding program new_breakers
counted = refl

-- With the first worker excluded, on the second.
elsewhere :
    (route fixed draws false false false request 1 none
      (ascii "w1" ∷ [])
      router
      (some view)).0.inflight
    ≡ (ascii "w1", 3) ∷ (ascii "w2", 1) ∷ []
unfolding program new_breakers
elsewhere = refl

route-Placed_example :
    Placed router.inflight
      (ascii "m")
      []
      view
      (route fixed draws false false false request 1 none [] router (some view))
route-Placed_example =
    route-Placed fixed draws false false false request 1 none [] router view view-Distinct

release_slot-take_slot_example :
    let (b, rt) =
      release_slot (take_slot router one no_ticket).0 5 (new_routed one no_ticket) none in
    (local_load b.inflight (ascii "w1") ≡ 3)
    × (local_load (release_slot b 6 rt none).0.inflight (ascii "w1") ≡ 3)
unfolding program
release_slot-take_slot_example =
    release_slot-take_slot router one no_ticket 5 6 none none (ascii "w1") refl
