-- ===== src/Gateway/Router.antt =====
-- internal/gateway/router.go without the ledger (the default load overlay): it picks a worker from the cached view of the registry
-- and reserves a slot on it. The mutex makes `reserve` one step; the breakers and the queue it calls are part of the state. The
-- view, the clock, the random source and the state of the request's context are arguments; the changes that the breakers hand
-- to their hook are left out.
use server_flow.Prelude.{
  ℕ, zero, suc, ◌+◌, ◌-◌, Bool, true, false, ◌&&◌, ◌||◌, not, Option, none, some, List, [], ◌∷◌,
  max, ltb, nat_beq, if◌then◌else◌, keep, length,
}
use server_flow.Prelude.Bytes.{Bytes, bytes_eq, bytes_beq}
use server_flow.Prelude.Assoc.{Assoc, lookup, insert, delete}
use server_flow.Prelude.Float.{Float64}
use server_flow.Protocol.{WorkerSnapshot, InferenceRequest, is_ready}
use server_flow.Scheduler.Candidates.{NoWorkerError, unknown_model, routable}
use server_flow.Scheduler.Strategies.{
  Scheduler, Selection, cancelled, no_worker, chosen, select_worker,
}
use server_flow.Resilience.Breaker.{Key}
use server_flow.Resilience.Breakers.{Breakers, Ticket, no_ticket}
use server_flow.Resilience.Breakers.Calls.{admissible, acquire, release}
use server_flow.Resilience.Breakers.Queries.{retry_after}
use server_flow.Resilience.Queue.{Queue, QueueError, no_queue, busy, enqueue, handoff, wake}

-- A slot on a worker, with the ticket of its breaker. `released` is the Once of release.
pub record Routed (F : Type 0) : Type 0 where
  pub worker : WorkerSnapshot F
  pub ticket : Ticket
  pub released : Bool

-- `has_res` and `has_queue` say that the router has a resilience state and an admission queue.
pub record Router (F : Type 0) : Type 0 where
  pub sched : Scheduler F
  pub has_res : Bool
  pub has_queue : Bool
  pub breakers : Breakers F
  pub waitq : Queue F (Routed F)
  pub inflight : Assoc Bytes ℕ

pub data ErrorCode : Type 0 where
  worker_unavailable no_capacity model_not_found internal overloaded : ErrorCode

pub record RouteError : Type 0 where
  pub code : ErrorCode
  pub serving : ℕ
  pub eligible : ℕ
  pub at_capacity : ℕ
  pub shed : Option QueueError
  pub retry_hint : Option ℕ

-- What `reserve` returns: a worker with a ticket, the number of a waiter, or why neither.
pub data Reserved (F : Type 0) : Type 0 where
  taken : (w : WorkerSnapshot F) (ticket : Ticket) → Reserved F
  queued : (waiter : ℕ) → Reserved F
  refused : (why : RouteError) → Reserved F

abbrev pub counts_of : ErrorCode → NoWorkerError → RouteError
counts_of code why = record {
  code = code;
  serving = why.serving;
  eligible = why.eligible;
  at_capacity = why.at_capacity;
  shed = none;
  retry_hint = none;
}

abbrev pub plain_error : ErrorCode → ℕ → RouteError
plain_error code serving = record {
  code = code;
  serving = serving;
  eligible = 0;
  at_capacity = 0;
  shed = none;
  retry_hint = none;
}

-- routeError.full, of an error that is NO_CAPACITY and not shed.
abbrev pub is_full_error : RouteError → Bool
is_full_error e = ltb 0 e.eligible && nat_beq e.eligible e.at_capacity

abbrev pub or_no_count : Option ℕ → ℕ
or_no_count none = 0
or_no_count (some n) = n

abbrev pub local_load : Assoc Bytes ℕ → Bytes → ℕ
local_load inflight id = or_no_count (lookup id inflight)

abbrev pub is_listed : Bytes → List Bytes → Bool
is_listed id [] = false
is_listed id (x ∷ xs) = bytes_beq x id || is_listed id xs

module _ {F : Type 0} where
  unfoldable pub schedulable : WorkerSnapshot F → Bool
  schedulable w = is_ready w.state && w.eligible && routable w.health

  abbrev pub key_of : WorkerSnapshot F → Key
  key_of w = record { id = w.worker_id; registered = w.registered_at }

  unfoldable pub any_schedulable : List (WorkerSnapshot F) → Bool
  any_schedulable [] = false
  any_schedulable (w ∷ ws) = schedulable w || any_schedulable ws

  -- overlay: the larger of the worker's own count and the router's.
  abbrev pub overlay : Assoc Bytes ℕ → WorkerSnapshot F → WorkerSnapshot F
  overlay inflight w = record w {
    metrics = record (w.metrics) {
      active_requests = max w.metrics.active_requests (local_load inflight w.worker_id);
    };
  }

  unfoldable pub overlay_all : Assoc Bytes ℕ → List (WorkerSnapshot F) → List (WorkerSnapshot F)
  overlay_all inflight [] = []
  overlay_all inflight (w ∷ ws) = overlay inflight w ∷ overlay_all inflight ws

  abbrev pub not_eligible : WorkerSnapshot F → WorkerSnapshot F
  not_eligible w = record w { eligible = false }

  -- The worker with the ID is taken out of the selection.
  unfoldable pub mark_out : Bytes → List (WorkerSnapshot F) → List (WorkerSnapshot F)
  mark_out id [] = []
  mark_out id (w ∷ ws) =
      let rest = w ∷ mark_out id ws in
      if bytes_beq w.worker_id id then not_eligible w ∷ ws else rest

  abbrev pub take_slot : Router F → WorkerSnapshot F → Ticket → Router F × Option (Reserved F)
  take_slot r w ticket = (
    record r { inflight = insert w.worker_id (local_load r.inflight w.worker_id + 1) r.inflight },
    some (taken w ticket),
  )

  -- The breakers take a worker out of the selection; how many they took out.
  unfoldable pub filter_broken :
      Breakers F → ℕ → List (WorkerSnapshot F) → Breakers F × List (WorkerSnapshot F) × ℕ
  filter_broken bs now [] = (bs, [], 0)
  filter_broken bs now (w ∷ ws) =
      let ((asked, changes), ok) = admissible bs now (key_of w) in
      let (bs', ws', n) = filter_broken (if schedulable w then asked else bs) now ws in
      if schedulable w && not ok then (bs', not_eligible w ∷ ws', n + 1) else (bs', w ∷ ws', n)

module _ (fl : Float64) where
  open fl use {Float}

  abbrev pub enqueued :
      Router Float
      → ℕ
      → RouteError
      → Queue Float (Routed Float) × Option QueueError
      → Router Float × Reserved Float
  enqueued r waiter counts (q, none) = (record r { waitq = q }, queued waiter)
  enqueued r waiter counts (q, some no_queue) = (r, refused (record counts { code = no_capacity }))
  enqueued r waiter counts (q, some why) =
      (r, refused (record counts { code = overloaded; shed = some why }))

  unfoldable pub enqueue_locked :
      Router Float → ℕ → Bytes → Bytes → RouteError → Router Float × Reserved Float
  enqueue_locked r now model tenant counts =
      enqueued r r.waitq.next counts (enqueue fl r.waitq now model tenant)

  abbrev pub done_with : Router Float × Reserved Float → Router Float × Option (Reserved Float)
  done_with (r, o) = (r, some o)

  abbrev pub wait_or_refuse :
      Router Float → ℕ → Bytes → Option Bytes → RouteError → Router Float × Option (Reserved Float)
  wait_or_refuse r now model none counts = (r, some (refused counts))
  wait_or_refuse r now model (some tenant) counts =
      if is_full_error counts
      then done_with (enqueue_locked r now model tenant counts)
      else (r, some (refused counts))

  -- The switch of `reserve` on why the scheduler chose nobody.
  unfoldable pub nobody :
      Router Float
      → ℕ
      → Bytes
      → Bool
      → ℕ
      → Option Bytes
      → NoWorkerError
      → Router Float × Option (Reserved Float)
  nobody r now model degraded broke wait why =
      let ((bs, changes), hint) = retry_after r.breakers now in
      if unknown_model why
      then (r, some (refused (counts_of model_not_found why)))
      else if degraded
      then (r, some (refused (counts_of worker_unavailable why)))
      else if r.has_res && ltb 0 broke && nat_beq why.eligible 0
      then wait_or_refuse (record r { breakers = bs }) now model wait
          (record (counts_of no_capacity why) { retry_hint = some hint })
      else wait_or_refuse r now model wait (counts_of no_capacity why)

  -- One turn of the loop of `reserve`; `again` is the next one.
  abbrev pub reserve_turn :
      (Router Float → List (WorkerSnapshot Float) → ℕ → Router Float × Option (Reserved Float))
      → Router Float
      → ℕ
      → Bytes
      → Bool
      → ℕ
      → Option Bytes
      → List (WorkerSnapshot Float)
      → Selection Float
      → Router Float × Option (Reserved Float)
  reserve_turn again r now model degraded broke wait ws cancelled =
      (r, some (refused (plain_error internal 0)))
  reserve_turn again r now model degraded broke wait ws (no_worker why) =
      nobody r now model degraded broke wait why
  reserve_turn again r now model degraded broke wait ws (chosen w) =
      let ((bs, changes), (ticket, ok)) = acquire r.breakers now (key_of w) in
      if not r.has_res
      then take_slot r w no_ticket
      else if ok
      then take_slot (record r { breakers = bs }) w ticket
      else again (record r { breakers = bs }) (mark_out w.worker_id ws) (broke + 1)

  -- The loop of `reserve`, on fuel. The draws of a turn are those for the number of workers that are out.
  unfoldable pub reserve_loop :
      ℕ
      → (ℕ → ℕ → ℕ)
      → Bool
      → Bool
      → InferenceRequest Float
      → ℕ
      → Option Bytes
      → Router Float
      → List (WorkerSnapshot Float)
      → ℕ
      → Router Float × Option (Reserved Float)
  reserve_loop zero intn done degraded req now wait r ws broke = (r, none)
  reserve_loop (suc fuel) intn done degraded req now wait r ws broke =
      let (s, selection) = select_worker fl r.sched (intn broke) done req ws in
      reserve_turn
        (λ r' ws' broke'. reserve_loop fuel intn done degraded req now wait r' ws' broke')
        (record r { sched = s }) now req.model degraded broke wait ws selection

  abbrev pub joins_queue : Router Float → Bytes → Option Bytes → List (WorkerSnapshot Float) → Bool
  joins_queue r model none ws = false
  joins_queue r model (some tenant) ws = any_schedulable ws && busy r.waitq model

  abbrev pub or_anonymous : Option Bytes → Bytes
  or_anonymous none = []
  or_anonymous (some tenant) = tenant

  unfoldable pub reserve :
      (ℕ → ℕ → ℕ)
      → Bool
      → Bool
      → InferenceRequest Float
      → ℕ
      → Option Bytes
      → Router Float
      → List (WorkerSnapshot Float)
      → ℕ
      → Router Float × Option (Reserved Float)
  reserve intn done degraded req now wait r ws broke =
      if joins_queue r req.model wait ws
      then done_with
          (enqueue_locked r now req.model (or_anonymous wait) (plain_error no_capacity 0))
      else reserve_loop (suc (length ws)) intn done degraded req now wait r
          (overlay_all r.inflight ws) broke

  abbrev pub is_allowed : List Bytes → WorkerSnapshot Float → Bool
  is_allowed exclude w = not (is_listed w.worker_id exclude)

  abbrev pub route_from :
      (ℕ → ℕ → ℕ)
      → Bool
      → Bool
      → Bool
      → InferenceRequest Float
      → ℕ
      → Option Bytes
      → Router Float
      → List (WorkerSnapshot Float)
      → Router Float × Option (Reserved Float)
  route_from intn done degraded non_closed req now wait r ws =
      let (bs, ws', broke) = filter_broken r.breakers now ws in
      if r.has_res && non_closed
      then reserve intn done degraded req now wait (record r { breakers = bs }) ws' broke
      else reserve intn done degraded req now wait r ws 0

  -- `route`, with the view of the model's workers. `non_closed` says that some breaker may not be closed.
  unfoldable pub route :
      (ℕ → ℕ → ℕ)
      → Bool
      → Bool
      → Bool
      → InferenceRequest Float
      → ℕ
      → Option Bytes
      → List Bytes
      → Router Float
      → Option (List (WorkerSnapshot Float))
      → Router Float × Option (Reserved Float)
  route intn done degraded non_closed req now wait exclude r none =
      (r, some (refused (plain_error worker_unavailable 0)))
  route intn done degraded non_closed req now wait exclude r (some ws) =
      let kept = keep (is_allowed exclude) ws in
      if nat_beq (length kept) 0 && ltb 0 (length ws)
      then (r, some (refused (plain_error no_capacity (length ws))))
      else route_from intn done degraded non_closed req now wait r kept

-- How releasing a slot came out: the new holder has it, or it is free and a waiter may be asked to route.
pub data Handed : Type 0 where
  handed wakes freed : Handed

-- One request less on the worker.
unfoldable pub give_back : Assoc Bytes ℕ → Bytes → Assoc Bytes ℕ
give_back inflight id =
    let n = local_load inflight id - 1 in
    if nat_beq n 0 then delete id inflight else insert id n inflight

module _ {F : Type 0} where
  abbrev pub new_routed : WorkerSnapshot F → Ticket → Routed F
  new_routed w ticket = record { worker = w; ticket = ticket; released = false }

  -- The worker is as it was registered, and may take requests.
  abbrev pub still_serves : WorkerSnapshot F → WorkerSnapshot F → Bool
  still_serves w cur = nat_beq cur.registered_at w.registered_at && schedulable cur

  abbrev pub give : Router F → ℕ → Bytes → WorkerSnapshot F → Router F × Handed
  give r now model cur =
      let ((bs, changes), (ticket, ok)) = acquire r.breakers now (key_of cur) in
      let (q, taken_over) = handoff r.waitq model (new_routed cur ticket) in
      let (bs', changes') = release bs ticket in
      if not ok
      then (record r { breakers = bs }, wakes)
      else if taken_over
      then (record r { breakers = bs; waitq = q }, handed)
      else (record r { breakers = bs'; waitq = q }, freed)

  abbrev pub give_current :
      Router F → ℕ → WorkerSnapshot F → Option (WorkerSnapshot F) → Router F × Handed
  give_current r now w none = (r, wakes)
  give_current r now w (some cur) =
      if not (still_serves w cur) then (r, wakes) else give r now w.model cur

  -- handoffLocked, with the current view of the worker.
  unfoldable pub handoff_locked :
      Router F → ℕ → WorkerSnapshot F → Option (WorkerSnapshot F) → Router F × Handed
  handoff_locked r now w current =
      if not r.has_res || not r.has_queue
      then (r, freed)
      else if not (busy r.waitq w.model)
      then (r, freed)
      else give_current r now w current

  abbrev pub after_handoff : WorkerSnapshot F → Router F × Handed → Router F
  after_handoff w (r, handed) = r
  after_handoff w (r, freed) = record r { inflight = give_back r.inflight w.worker_id }
  after_handoff w (r, wakes) = record r {
    inflight = give_back r.inflight w.worker_id;
    waitq = (wake r.waitq w.model 1).0;
  }

  -- release: the slot is given back once.
  unfoldable pub release_slot :
      Router F → ℕ → Routed F → Option (WorkerSnapshot F) → Router F × Routed F
  release_slot r now rt current = if rt.released then (r, rt) else (
    after_handoff rt.worker (handoff_locked r now rt.worker current),
    record rt { released = true },
  )
