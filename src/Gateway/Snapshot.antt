-- ===== src/Gateway/Snapshot.antt =====
-- internal/gateway/snapshot.go: the last good view of the registry. The clock is an argument; it has a monotonic reading, so
-- the age of a snapshot is not negative. The answer of the registry, whether the refresh was cut short, and the check of an
-- address are arguments. The hooks that report a new view (onSync, onSnapshot, onRefreshed) are left out.
use server_flow.Prelude.{
  ℕ, ◌+◌, ◌-◌, ◌*◌, ◌/◌, ◌%◌, Bool, true, false, ◌&&◌, ◌||◌, not, Option, none, some, List, [], ◌∷◌,
  ◌++◌, ltb, leb, map, if◌then◌else◌,
}
use server_flow.Prelude.Bytes.{Bytes, bytes_eq, bytes_beq, bytes_ltb}
use server_flow.Prelude.Assoc.{Assoc, lookup, insert}
use server_flow.Prelude.Float.{Float64}
use server_flow.Protocol.{WorkerSnapshot, suspect}
use server_flow.Scheduler.Candidates.{sort}

pub record Snapshot (F : Type 0) : Type 0 where
  pub by_model : Assoc Bytes (List (WorkerSnapshot F))
  pub fetched : ℕ

pub record SnapshotCache (F : Type 0) : Type 0 where
  pub refresh : ℕ
  pub max_stale : ℕ
  pub suspect_after : ℕ
  pub cur : Option (Snapshot F)
  pub has_failed : Bool
  pub refresh_failures : ℕ

abbrev pub or_empty {ℓ} : {A : Type ℓ} → Option (List A) → List A
or_empty none = []
or_empty (some xs) = xs

module _ {F : Type 0} where
  unfoldable pub new_snapshot_cache : ℕ → ℕ → ℕ → SnapshotCache F
  new_snapshot_cache refresh max_stale suspect_after = record {
    refresh = refresh;
    max_stale = max_stale;
    suspect_after = suspect_after;
    cur = none;
    has_failed = false;
    refresh_failures = 0;
  }

  -- Of `fresh`: the snapshot with its age, if it may be used.
  abbrev pub within : ℕ → ℕ → Option (Snapshot F) → Option (Snapshot F × ℕ)
  within max_stale now none = none
  within max_stale now (some s) =
      if leb now (s.fetched + max_stale) then some (s, now - s.fetched) else none

  unfoldable pub fresh : SnapshotCache F → ℕ → Option (Snapshot F × ℕ)
  fresh c now = within c.max_stale now c.cur

  abbrev pub is_aging : ℕ → Option (Snapshot F × ℕ) → Bool
  is_aging refresh none = true
  is_aging refresh (some (s, age)) = ltb (2 * refresh) age

  unfoldable pub degraded : SnapshotCache F → ℕ → Bool
  degraded c now = c.has_failed && is_aging c.refresh (fresh c now)

  abbrev pub is_any : List (WorkerSnapshot F) → Bool
  is_any [] = false
  is_any (w ∷ ws) = true

  abbrev pub served : Bytes → Option (Snapshot F × ℕ) → Option Bool
  served model none = none
  served model (some (s, age)) = some (is_any (or_empty (lookup model s.by_model)))

  unfoldable pub serves : SnapshotCache F → Bytes → ℕ → Option Bool
  serves c model now = served model (fresh c now)

  unfoldable pub group :
      List (WorkerSnapshot F)
      → Assoc Bytes (List (WorkerSnapshot F))
      → Assoc Bytes (List (WorkerSnapshot F))
  group [] by = by
  group (w ∷ ws) by = group ws (insert w.model (or_empty (lookup w.model by) ++ (w ∷ [])) by)

  unfoldable pub sort_all :
      Assoc Bytes (List (WorkerSnapshot F)) → Assoc Bytes (List (WorkerSnapshot F))
  sort_all [] = []
  sort_all ((model, ws) ∷ by) = (model, sort ws) ∷ sort_all by

  -- sort.Search by ID, and the test that it found the worker.
  unfoldable pub find_worker : Bytes → List (WorkerSnapshot F) → Option (WorkerSnapshot F)
  find_worker id [] = none
  find_worker id (w ∷ ws) =
      let later = find_worker id ws in
      if bytes_ltb w.worker_id id then later else if bytes_beq w.worker_id id then some w else none

-- sort.Strings
unfoldable pub place_name : Bytes → List Bytes → List Bytes
place_name v [] = v ∷ []
place_name v (x ∷ xs) =
    let later = x ∷ place_name v xs in if bytes_ltb x v then later else v ∷ x ∷ xs

unfoldable pub sort_names : List Bytes → List Bytes
sort_names [] = []
sort_names (x ∷ xs) = place_name x (sort_names xs)

module _ (fl : Float64) (valid_address : Bytes → Bool) where
  open fl use {Float}

  -- The tests that active_requests and queue_depth are not negative are left out, as these are natural numbers here.
  unfoldable pub believable : WorkerSnapshot Float → Bool
  believable w =
      not (fl.is_nan w.heartbeat_age_seconds)
      && not (fl.is_inf w.heartbeat_age_seconds)
      && not (fl.fltb w.heartbeat_age_seconds (fl.of_int 0))
      && leb 1 w.max_concurrency
      && valid_address w.address

  abbrev pub doubted : WorkerSnapshot Float → WorkerSnapshot Float
  doubted w = if believable w then w else record w { eligible = false }

  -- Refresh with what the registry answered.
  unfoldable pub refreshed :
      SnapshotCache Float → ℕ → Bool → Option (List (WorkerSnapshot Float)) → SnapshotCache Float
  refreshed c started cut_short none =
      if cut_short
      then c
      else record c { refresh_failures = c.refresh_failures + 1; has_failed = true }
  refreshed c started cut_short (some ws) = record c {
    has_failed = false;
    cur = some (record { by_model = sort_all (group (map doubted ws) []); fetched = started });
  }

module _ (fl : Float64) where
  open fl use {Float}

  -- Duration.Seconds
  abbrev pub seconds : ℕ → Float
  seconds d =
      fl.add (fl.of_int (d / 1000000000))
        (fl.div (fl.of_int (d % 1000000000)) (fl.of_int 1000000000))

  -- One worker, as old as the snapshot makes it.
  unfoldable pub aged : ℕ → ℕ → WorkerSnapshot Float → WorkerSnapshot Float
  aged suspect_after age w =
      let older = record w {
        heartbeat_age_seconds = fl.add w.heartbeat_age_seconds (seconds age);
      } in
      if w.eligible && fl.fleb (seconds suspect_after) older.heartbeat_age_seconds
      then record older { eligible = false; health = suspect }
      else older

  abbrev pub age_all : ℕ → ℕ → List (WorkerSnapshot Float) → List (WorkerSnapshot Float)
  age_all suspect_after age [] = []
  age_all suspect_after age (w ∷ ws) = aged suspect_after age w ∷ age_all suspect_after age ws

  abbrev pub viewed :
      ℕ → Bytes → Option (Snapshot Float × ℕ) → Option (List (WorkerSnapshot Float) × ℕ)
  viewed suspect_after model none = none
  viewed suspect_after model (some (s, age)) =
      some (age_all suspect_after age (or_empty (lookup model s.by_model)), s.fetched + age)

  unfoldable pub view_at :
      SnapshotCache Float → Bytes → ℕ → Option (List (WorkerSnapshot Float) × ℕ)
  view_at c model now = viewed c.suspect_after model (fresh c now)

  abbrev pub aged_maybe : ℕ → ℕ → Option (WorkerSnapshot Float) → Option (WorkerSnapshot Float)
  aged_maybe suspect_after age none = none
  aged_maybe suspect_after age (some w) = some (aged suspect_after age w)

  abbrev pub worker_in :
      ℕ → Bytes → Bytes → Option (Snapshot Float × ℕ) → Option (WorkerSnapshot Float)
  worker_in suspect_after model id none = none
  worker_in suspect_after model id (some (s, age)) =
      aged_maybe suspect_after age (find_worker id (or_empty (lookup model s.by_model)))

  unfoldable pub worker : SnapshotCache Float → Bytes → Bytes → ℕ → Option (WorkerSnapshot Float)
  worker c model id now = worker_in c.suspect_after model id (fresh c now)

  abbrev pub any_eligible : List (WorkerSnapshot Float) → Bool
  any_eligible [] = false
  any_eligible (w ∷ ws) = w.eligible || any_eligible ws

  unfoldable pub eligible_models : ℕ → ℕ → Assoc Bytes (List (WorkerSnapshot Float)) → List Bytes
  eligible_models suspect_after age [] = []
  eligible_models suspect_after age ((model, ws) ∷ by) =
      let rest = eligible_models suspect_after age by in
      if any_eligible (age_all suspect_after age ws) then model ∷ rest else rest

  abbrev pub models_in : ℕ → Option (Snapshot Float × ℕ) → Option (List Bytes)
  models_in suspect_after none = none
  models_in suspect_after (some (s, age)) =
      some (sort_names (eligible_models suspect_after age s.by_model))

  unfoldable pub models : SnapshotCache Float → ℕ → Option (List Bytes)
  models c now = models_in c.suspect_after (fresh c now)
