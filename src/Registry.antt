-- ===== src/Registry.antt =====
-- internal/registry/registry.go: the workers that the control plane knows. A call takes the clock's reading, in
-- nanoseconds; a registration takes the random registration ID that it draws. Log lines are left out.
pub mod Workers
pub mod Drain
mod Tests
use server_flow.Prelude.{
  ℕ, ◌+◌, ◌-◌, Bool, true, false, ◌&&◌, ◌||◌, not, Option, none, some, List, [], ◌∷◌, ltb, leb,
  if◌then◌else◌, length, keep, map,
}
use server_flow.Prelude.Bytes.{Bytes, bytes_eq, bytes_beq}
use server_flow.Prelude.Assoc.{Assoc, lookup, insert, delete}
use server_flow.Protocol.{
  WorkerState, registering, loading_model, warming, ready, draining, terminated, failed, Health,
  healthy, suspect, WorkerInfo, Metrics, Heartbeat, can_transition, is_ready, is_draining,
  is_failed,
}

pub data Error : Type 0 where
  unknown_worker stale_registration illegal_transition full : Error

pub record Config : Type 0 where
  pub suspect : ℕ
  pub unhealthy : ℕ
  pub lost : ℕ
  pub retention : ℕ
  pub max_workers : ℕ
  pub heartbeat_interval : ℕ
  pub suspect_eligible : Bool

-- Config.Validate accepts.
unfoldable pub validates : Config → Bool
validates c =
    ltb 0 c.suspect
    && ltb 0 c.unhealthy
    && ltb 0 c.lost
    && ltb 0 c.retention
    && ltb 0 c.heartbeat_interval
    && ltb c.suspect c.unhealthy
    && ltb c.unhealthy c.lost
    && ltb 0 c.max_workers

unfoldable pub health_at : Config → ℕ → Health
health_at c age =
    if ltb c.lost age
    then Health.lost
    else if ltb c.unhealthy age
    then Health.unhealthy
    else if leb c.suspect age
    then suspect
    else healthy

-- No metrics: the zero value is `none`.
pub record Entry (F : Type 0) : Type 0 where
  pub info : WorkerInfo
  pub reg_id : Bytes
  pub state : WorkerState
  pub metrics : Option (Metrics F)
  pub reason : Bytes
  pub registered_at : ℕ
  pub last_beat : ℕ
  pub observed : WorkerState
  pub drained : Bool

pub record Registry (F : Type 0) : Type 0 where
  pub cfg : Config
  pub workers : Assoc Bytes (Entry F)

abbrev pub is_healthy : Health → Bool
is_healthy healthy = true
is_healthy _ = false

abbrev pub is_suspect : Health → Bool
is_suspect suspect = true
is_suspect _ = false

-- The state that clients see, by the health.
abbrev pub overridden : Health → WorkerState → WorkerState
overridden Health.lost s = WorkerState.lost
overridden Health.unhealthy s = WorkerState.unhealthy
overridden _ s = s

abbrev pub is_there {ℓ} : {A : Type ℓ} → Option A → Bool
is_there none = false
is_there (some a) = true

module _ {F : Type 0} where
  unfoldable pub new_registry : Config → Option (Registry F)
  new_registry c = if validates c then some (record { cfg = c; workers = [] }) else none

  -- Never negative.
  unfoldable pub age : Entry F → ℕ → ℕ
  age e now = now - e.last_beat

  unfoldable pub effective : Config → Entry F → ℕ → WorkerState
  effective c e now = overridden (health_at c (age e now)) e.state

  -- The field Eligible of a snapshot.
  unfoldable pub is_eligible : Config → Entry F → ℕ → Bool
  is_eligible c e now =
      let health = health_at c (age e now) in
      is_ready (effective c e now) && (is_healthy health || is_suspect health && c.suspect_eligible)

  abbrev pub is_kept : Config → ℕ → Bytes × Entry F → Bool
  is_kept c now (id, e) = not (ltb (c.lost + c.retention) (age e now))

  unfoldable pub evict_locked : Registry F → ℕ → Registry F
  evict_locked r now = record r { workers = keep (is_kept r.cfg now) r.workers }

  unfoldable pub observe_locked : Config → Entry F → ℕ → Entry F
  observe_locked c e now = record e { observed = effective c e now }

  abbrev pub observe_all : Config → ℕ → Assoc Bytes (Entry F) → Assoc Bytes (Entry F)
  observe_all c now m = map (λ p. (p.0, observe_locked c p.1 now)) m

  unfoldable pub sweep : Registry F → ℕ → Registry F × ℕ
  sweep r now =
      let seen = record r { workers = observe_all r.cfg now r.workers } in
      let r' = evict_locked seen now in (r', length seen.workers - length r'.workers)

  abbrev pub new_entry : WorkerInfo → ℕ → Bytes → Entry F
  new_entry info now reg_id = record {
    info = info;
    reg_id = reg_id;
    state = registering;
    metrics = none;
    reason = [];
    registered_at = now;
    last_beat = now;
    observed = registering;
    drained = false;
  }

  abbrev pub enter : Registry F → WorkerInfo → ℕ → Bytes → Registry F
  enter r info now reg_id = record r {
    workers = insert info.worker_id (new_entry info now reg_id) r.workers;
  }

  -- The register of the source, for a description that has been validated.
  unfoldable pub register : Registry F → ℕ → WorkerInfo → Bytes → Registry F × Option Error
  register r now info reg_id =
      let evicted = evict_locked r now in
      if not (is_there (lookup info.worker_id r.workers))
        && leb r.cfg.max_workers (length r.workers)
      then (if leb r.cfg.max_workers (length evicted.workers)
          then (evicted, some full)
          else (enter evicted info now reg_id, none))
      else (enter r info now reg_id, none)

  -- May the worker behind an entry report this state?
  abbrev pub may_report : Entry F → WorkerState → Bool
  may_report e next =
      can_transition e.state next
      && not (e.drained && not (is_draining next) && not (is_failed next))

  -- The entry after a report.
  unfoldable pub reported : Config → Entry F → ℕ → Heartbeat F → Entry F
  reported c e now hb =
      observe_locked c
        (record e {
          state = hb.state;
          metrics = some hb.metrics;
          reason = hb.reason;
          last_beat = now;
          drained = e.drained || is_draining hb.state;
        })
        now

  -- The heartbeat of the source, for a report that has been validated.
  unfoldable pub heartbeat :
      Registry F → ℕ → Bytes → Bytes → Heartbeat F → Registry F × Option Error
  heartbeat r now id reg_id hb = elim (lookup id r.workers) [
    | none ↦ (r, some unknown_worker)
    | some e ↦
        if not (bytes_beq e.reg_id reg_id)
        then (r, some stale_registration)
        else if not (may_report e hb.state)
        then (r, some illegal_transition)
        else (record r { workers = insert id (reported r.cfg e now hb) r.workers }, none)
  ]

  unfoldable pub deregister : Registry F → Bytes → Bytes → Registry F × Option Error
  deregister r id reg_id = elim (lookup id r.workers) [
    | none ↦ (r, some unknown_worker)
    | some e ↦
        if not (bytes_beq e.reg_id reg_id)
        then (r, some stale_registration)
        else (record r { workers = delete id r.workers }, none)
  ]
