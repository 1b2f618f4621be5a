-- ===== src/Gateway/Views.antt =====
-- What the views of internal/gateway/snapshot.go are good for, after any refreshes.
use server_flow.Prelude.{
  ℕ, ◌+◌, ◌≤◌, ◌≡◌, refl, inl, inr, Bool, true, false, ◌&&◌, Option, none, some, List, [], ◌∷◌,
  ◌++◌, leb, map, arith, if_either, All, Option-cases,
}
use server_flow.Prelude.Bytes.{Bytes, bytes_eq}
use server_flow.Prelude.Assoc.{Assoc, lookup, insert, lookup-All, insert-All}
use server_flow.Prelude.Float.{Float64}
use server_flow.Protocol.{WorkerSnapshot}
use server_flow.Scheduler.Kept.{sort-All}
use server_flow.Gateway.Reserve.{false≢true}
use server_flow.Gateway.Snapshot.{
  Snapshot, SnapshotCache, or_empty, new_snapshot_cache, within, fresh, group, sort_all, believable,
  doubted, refreshed, seconds, aged, age_all, viewed, view_at,
}

module _ (fl : Float64) (valid_address : Bytes → Bool) where
  open fl use {Float}

  -- A worker of the model, which is only eligible with a valid address and a limit of at least one request.
  abbrev pub Sane : Bytes → WorkerSnapshot Float → Type 0
  Sane model w =
      (w.model ≡ model)
      × (w.eligible ≡ true → (leb 1 w.max_concurrency && valid_address w.address) ≡ true)

  abbrev SaneEntry : Bytes × List (WorkerSnapshot Float) → Type 0
  SaneEntry (model, ws) = All (Sane model) ws

  abbrev SaneCache : SnapshotCache Float → Type 0
  SaneCache c = elim c.cur [ none ↦ Unit | some s ↦ All SaneEntry s.by_model ]

  doubted-Sane : (w : WorkerSnapshot Float) → Sane w.model (doubted fl valid_address w)
  unfolding believable
  doubted-Sane w =
      if_either (Sane w.model) (believable fl valid_address w) (λ t. (refl, λ e. ground arith))
        (λ f. (refl, λ e. ground arith))

  append-All :
      (P : WorkerSnapshot Float → Type 0) (ws : List (WorkerSnapshot Float))
      (w : WorkerSnapshot Float)
      → All P ws
      → P w
      → All P (ws ++ (w ∷ []))
  append-All P [] w a h = (h, tt)
  append-All P (v ∷ vs) w a h = (a.0, append-All P vs w a.1 h)

  old-Sane :
      (model : Bytes) (by : Assoc Bytes (List (WorkerSnapshot Float)))
      → All SaneEntry by
      → All (Sane model) (or_empty (lookup model by))
  old-Sane model by a = elim (Option-cases (lookup model by)) [
    | inl e ↦ rw e tt
    | inr (ws, e) ↦ rw e (lookup-All SaneEntry model ws by a e)
  ]

  group-Sane :
      (ws : List (WorkerSnapshot Float)) (by : Assoc Bytes (List (WorkerSnapshot Float)))
      → All SaneEntry by
      → All SaneEntry (group (map (doubted fl valid_address) ws) by)
  unfolding group
  group-Sane [] by a = a
  group-Sane (w ∷ ws) by a =
      let d = doubted fl valid_address w in
      let old = or_empty (lookup d.model by) in
      let sane =
        append-All (Sane d.model) old d (old-Sane d.model by a) (refl, (doubted-Sane w).1) in
      group-Sane ws (insert d.model (old ++ (d ∷ [])) by)
        (insert-All SaneEntry d.model (old ++ (d ∷ [])) by a sane)

  sort_all-Sane :
      (by : Assoc Bytes (List (WorkerSnapshot Float)))
      → All SaneEntry by
      → All SaneEntry (sort_all by)
  unfolding sort_all
  sort_all-Sane [] a = tt
  sort_all-Sane ((model, ws) ∷ by) a = (sort-All (Sane model) ws a.0, sort_all-Sane by a.1)

  refreshed-Sane :
      (c : SnapshotCache Float) (started : ℕ) (cut_short : Bool)
      (answer : Option (List (WorkerSnapshot Float)))
      → SaneCache c
      → SaneCache (refreshed fl valid_address c started cut_short answer)
  unfolding refreshed
  refreshed-Sane c started true none h = h
  refreshed-Sane c started false none h = h
  refreshed-Sane c started cut_short (some ws) h = sort_all-Sane _ (group-Sane ws [] tt)

  -- One refresh after the other: when it started, whether it was cut short, and what the registry answered.
  abbrev pub Refresh : Type 0
  Refresh = ℕ × Bool × Option (List (WorkerSnapshot Float))

  abbrev pub refreshes : SnapshotCache Float → List Refresh → SnapshotCache Float
  refreshes c [] = c
  refreshes c ((started, cut_short, answer) ∷ rs) =
      refreshes (refreshed fl valid_address c started cut_short answer) rs

  refreshes-Sane :
      (c : SnapshotCache Float) (rs : List Refresh) → SaneCache c → SaneCache (refreshes c rs)
  refreshes-Sane c [] h = h
  refreshes-Sane c ((started, cut_short, answer) ∷ rs) h =
      refreshes-Sane (refreshed fl valid_address c started cut_short answer) rs
        (refreshed-Sane c started cut_short answer h)

  -- Not past the age at which a worker turns suspect.
  abbrev pub Young : ℕ → WorkerSnapshot Float → Type 0
  Young suspect_after w =
      w.eligible ≡ true → fl.fleb (seconds fl suspect_after) w.heartbeat_age_seconds ≡ false

  aged-Routable :
      (suspect_after age : ℕ) (model : Bytes) (w : WorkerSnapshot Float)
      → Sane model w
      → Sane model (aged fl suspect_after age w) × Young suspect_after (aged fl suspect_after age w)
  unfolding aged
  aged-Routable suspect_after age model w h =
      if_either (λ (v : WorkerSnapshot Float). Sane model v × Young suspect_after v)
        (w.eligible
          && fl.fleb (seconds fl suspect_after) (fl.add w.heartbeat_age_seconds (seconds fl age)))
        (λ t. ((h.0, λ e. absurd (false≢true e)), λ e. absurd (false≢true e)))
        (λ f. ((h.0, h.1), λ e. ground arith))

  age_all-Routable :
      (suspect_after age : ℕ) (model : Bytes) (ws : List (WorkerSnapshot Float))
      → All (Sane model) ws
      → All (λ w. Sane model w × Young suspect_after w) (age_all fl suspect_after age ws)
  age_all-Routable suspect_after age model [] a = tt
  age_all-Routable suspect_after age model (w ∷ ws) a =
      (aged-Routable suspect_after age model w a.0, age_all-Routable suspect_after age model ws a.1)

  -- What a view is good for.
  abbrev pub Usable :
      SnapshotCache Float → Bytes → ℕ → Option (List (WorkerSnapshot Float) × ℕ) → Type 0
  Usable c model now none = Unit
  Usable c model now (some (ws, at)) =
      ((s : Snapshot Float) × (c.cur ≡ some s) × (now ≤ s.fetched + c.max_stale))
      × All (λ w. Sane model w × Young c.suspect_after w) ws

  viewed-Usable :
      (c : SnapshotCache Float) (model : Bytes) (now : ℕ) (o : Option (Snapshot Float))
      → c.cur ≡ o
      → SaneCache c
      → Usable c model now (viewed fl c.suspect_after model (within c.max_stale now o))
  viewed-Usable c model now none e h = tt
  viewed-Usable c model now (some s) e h =
      if_either
        (λ (x : Option (Snapshot Float × ℕ)).
          Usable c model now (viewed fl c.suspect_after model x))
        (leb now (s.fetched + c.max_stale))
        (λ t. (
          (s, e, ground arith),
          age_all-Routable c.suspect_after _ model _ (old-Sane model s.by_model (rw e at h)),
        ))
        (λ f. tt)

  -- After any refreshes of a new cache: a view that it gives is of a snapshot that is no older than maxStale. Its workers serve the
  -- model, and those that are eligible have a valid address and a limit of at least one request, and their heartbeats
  -- have not reached the age at which a worker turns suspect.
  pub view_at-Usable :
      (refresh max_stale suspect_after : ℕ) (rs : List Refresh) (model : Bytes) (now : ℕ)
      → let c = refreshes (new_snapshot_cache refresh max_stale suspect_after) rs in
        Usable c model now (view_at fl c model now)
  unfolding view_at fresh new_snapshot_cache
  view_at-Usable refresh max_stale suspect_after rs model now =
      let c = refreshes (new_snapshot_cache refresh max_stale suspect_after) rs in
      viewed-Usable c model now c.cur refl
        (refreshes-Sane (new_snapshot_cache refresh max_stale suspect_after) rs tt)
