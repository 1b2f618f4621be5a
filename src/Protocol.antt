-- ===== src/Protocol.antt =====
-- pkg/protocol/worker.go: a worker's states and reports. What it reports as a float64 is of a type `F`.
use server_flow.Prelude.{ℕ, Bool, true, false, ◌||◌, not, Option, List, if◌then◌else◌}
use server_flow.Prelude.Bytes.{Bytes}

pub data WorkerState : Type 0 where
  registering loading_model warming ready draining terminated failed unhealthy lost : WorkerState

pub data Health : Type 0 where
  healthy suspect unhealthy lost : Health

unfoldable pub reportable : WorkerState → Bool
reportable registering = true
reportable loading_model = true
reportable warming = true
reportable ready = true
reportable draining = true
reportable failed = true
reportable _ = false

abbrev pub is_registering : WorkerState → Bool
is_registering registering = true
is_registering _ = false

abbrev pub is_warming : WorkerState → Bool
is_warming warming = true
is_warming _ = false

abbrev pub is_ready : WorkerState → Bool
is_ready ready = true
is_ready _ = false

abbrev pub is_draining : WorkerState → Bool
is_draining draining = true
is_draining _ = false

abbrev pub is_failed : WorkerState → Bool
is_failed failed = true
is_failed _ = false

-- CanTransition's switch on the last reported state.
unfoldable pub transition_from : WorkerState → WorkerState → Bool
transition_from registering next = true
transition_from loading_model next = not (is_registering next)
transition_from warming next =
    is_warming next || is_ready next || is_draining next || is_failed next
transition_from ready next = is_ready next || is_draining next || is_failed next
transition_from draining next = is_draining next || is_failed next
transition_from failed next = not (is_registering next)
transition_from _ next = false

unfoldable pub can_transition : WorkerState → WorkerState → Bool
can_transition from next = if not (reportable next) then false else transition_from from next

pub record WorkerInfo : Type 0 where
  pub worker_id : Bytes
  pub model : Bytes
  pub address : Bytes
  pub max_concurrency : ℕ
  pub queue_size : ℕ

pub record Metrics (F : Type 0) : Type 0 where
  pub active_requests : ℕ
  pub queue_depth : ℕ
  pub queued_input_tokens : ℕ
  pub recent_tokens_per_second : F
  pub gpu_utilization : Option F
  pub gpu_memory_used_mb : Option ℕ

pub record Heartbeat (F : Type 0) : Type 0 where
  pub registration_id : Bytes
  pub state : WorkerState
  pub metrics : Metrics F
  pub reason : Bytes

-- The bits of ObservedFlags.
pub record ObservedFlags : Type 0 where
  pub cold_start : Bool
  pub stale : Bool
  pub missing_gpu : Bool
  pub invalid : Bool
  pub ledger : Bool
  pub untracked : Bool
  pub prior_capacity : Bool
  pub degraded : Bool

pub record ObservedLoad (F : Type 0) : Type 0 where
  pub inflight_requests : ℕ
  pub work_ahead_tokens : F
  pub capacity_tps : F
  pub ttft_seconds : F
  pub effective_active : ℕ
  pub flags : ObservedFlags

pub record WorkerSnapshot (F : Type 0) : Type 0 where
  pub worker_id : Bytes
  pub model : Bytes
  pub address : Bytes
  pub max_concurrency : ℕ
  pub queue_size : ℕ
  pub state : WorkerState
  pub health : Health
  pub eligible : Bool
  pub metrics : Metrics F
  pub reason : Bytes
  pub registered_at : ℕ
  pub last_heartbeat : ℕ
  pub heartbeat_age_seconds : F
  pub observed : ObservedLoad F

pub record ModelInfo : Type 0 where
  pub model : Bytes
  pub workers : ℕ
  pub eligible : ℕ

pub record Message : Type 0 where
  pub role : Bytes
  pub content : Bytes

pub record InferenceRequest (F : Type 0) : Type 0 where
  pub request_id : Bytes
  pub tenant_id : Bytes
  pub model : Bytes
  pub messages : List Message
  pub prompt : Bytes
  pub stream : Bool
  pub max_tokens : ℕ
  pub temperature : F
  pub priority : ℕ
  pub est_input_tokens : ℕ
  pub est_output_tokens : ℕ
