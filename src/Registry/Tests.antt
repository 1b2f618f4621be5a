-- ===== src/Registry/Tests.antt =====
-- internal/registry/registry.go on concrete calls, and its theorems at them.
use server_flow.Prelude.{
  ℕ, ◌-◌, ◌≤◌, ◌<◌, ◌≡◌, ◌↔◌, ◌⊎◌, refl, Bool, true, false, [], ◌∷◌, none, some, length,
}
use server_flow.Prelude.Bytes.{ascii, bytes_eq, bytes_beq}
use server_flow.Prelude.Assoc.{lookup, insert, delete}
use server_flow.Protocol.{
  WorkerState, ready, draining, failed, WorkerInfo, Heartbeat, reportable, transition_from,
  can_transition,
}
use server_flow.Registry.{
  Config, Entry, Registry, validates, health_at, new_registry, age, effective, is_eligible,
  evict_locked, observe_locked, sweep, register, reported, heartbeat, deregister,
}
use server_flow.Registry.Workers.{registers, beats, sweeps, run, workers-bounded}
use server_flow.Registry.Drain.{drain_one_way, eligible_exact}

program : Unit {0}
unfolding reportable transition_from can_transition validates health_at new_registry age effective
    is_eligible evict_locked observe_locked sweep register reported heartbeat deregister run lookup
    insert delete bytes_beq
program = tt

abbrev config : Config
config = record {
  suspect = 10;
  unhealthy = 20;
  lost = 30;
  retention = 100;
  max_workers = 1;
  heartbeat_interval = 5;
  suspect_eligible = false;
}

abbrev info : WorkerInfo
info = record {
  worker_id = ascii "w";
  model = ascii "m";
  address = ascii "a";
  max_concurrency = 4;
  queue_size = 8;
}

abbrev report : WorkerState → Heartbeat ℕ
report s = record {
  registration_id = ascii "r";
  state = s;
  metrics = record {
    active_requests = 0;
    queue_depth = 0;
    queued_input_tokens = 0;
    recent_tokens_per_second = 0;
    gpu_utilization = none;
    gpu_memory_used_mb = none;
  };
  reason = [];
}

abbrev empty : Registry ℕ
empty = record { cfg = config; workers = [] }

abbrev entry : WorkerState → ℕ → Bool → Entry ℕ
entry s beat drained = record {
  info = info;
  reg_id = ascii "r";
  state = s;
  metrics = some (report s).metrics;
  reason = [];
  registered_at = 1;
  last_beat = beat;
  observed = s;
  drained = drained;
}

abbrev serving : Registry ℕ
serving = record empty { workers = (ascii "w", entry ready 2 false) ∷ [] }

serves :
    run empty (registers 1 info (ascii "r") ∷ beats 2 (ascii "w") (ascii "r") (report ready) ∷ [])
    ≡ serving
unfolding program
serves = refl

workers-bounded_example :
    length (run empty (registers 1 info (ascii "r") ∷ sweeps 200 ∷ [])).workers ≤ 1
workers-bounded_example =
    workers-bounded config empty (registers 1 info (ascii "r") ∷ sweeps 200 ∷ [])
      (unfold program in refl)

-- A worker that failed while it drained stays out.
drain_one_way_example : is_eligible config (entry failed 4 true) 5 ≡ false
drain_one_way_example =
    drain_one_way serving 3 (ascii "w") (ascii "r") (report draining)
      (beats 4 (ascii "w") (ascii "r") (report failed) ∷ []) (unfold program in (refl, tt)) refl
      (unfold program in refl) (tt, tt) (entry failed 4 true) (unfold program in refl) refl config 5

eligible_exact_example :
    (is_eligible config (entry ready 2 false) 11 ≡ true)
    ↔ ((ready ≡ ready) × ((11 - 2 < 10) ⊎ ((11 - 2 ≤ 20) × (false ≡ true))))
eligible_exact_example = eligible_exact config (entry ready 2 false) 11 (unfold program in refl)
