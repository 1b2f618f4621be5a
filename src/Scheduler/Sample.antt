-- ===== src/Scheduler/Sample.antt =====
-- Workers and a request for the tests of internal/scheduler and internal/gateway.
use server_flow.Prelude.{ℕ, ◌*◌, true, false, [], none}
use server_flow.Prelude.Bytes.{Bytes, ascii}
use server_flow.Prelude.Fixed.{fixed}
use server_flow.Protocol.{WorkerSnapshot, InferenceRequest, ready, healthy}
use server_flow.Cost.Work.{default_weights}
use server_flow.Scheduler.Strategies.{Strategy, Scheduler}

abbrev pub worker : Bytes → ℕ → WorkerSnapshot ℕ
worker id active = record {
  worker_id = id;
  model = ascii "m";
  address = ascii "a:1";
  max_concurrency = 4;
  queue_size = 0;
  state = ready;
  health = healthy;
  eligible = true;
  metrics = record {
    active_requests = active;
    queue_depth = 0;
    queued_input_tokens = 0;
    recent_tokens_per_second = 0;
    gpu_utilization = none;
    gpu_memory_used_mb = none;
  };
  reason = [];
  registered_at = 1;
  last_heartbeat = 1;
  heartbeat_age_seconds = 0;
  observed = record {
    inflight_requests = active;
    work_ahead_tokens = active * 1000;
    capacity_tps = 50000;
    ttft_seconds = 0;
    effective_active = active;
    flags = record {
      cold_start = false;
      stale = false;
      missing_gpu = false;
      invalid = false;
      ledger = true;
      untracked = false;
      prior_capacity = false;
      degraded = false;
    };
  };
}

abbrev pub one : WorkerSnapshot ℕ
one = worker (ascii "w1") 2

abbrev pub two : WorkerSnapshot ℕ
two = worker (ascii "w2") 1

abbrev pub full : WorkerSnapshot ℕ
full = worker (ascii "w3") 4

abbrev pub request : InferenceRequest ℕ
request = record {
  request_id = ascii "req_1";
  tenant_id = ascii "ten_1";
  model = ascii "m";
  messages = [];
  prompt = ascii "hello";
  stream = false;
  max_tokens = 10;
  temperature = 0;
  priority = 0;
  est_input_tokens = 5;
  est_output_tokens = 10;
}

abbrev pub by : Strategy → Scheduler ℕ
by k = record { strategy = k; weights = default_weights fixed; last = [] }
