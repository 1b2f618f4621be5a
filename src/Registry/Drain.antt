-- ===== src/Registry/Drain.antt =====
-- A drain is one-way, and who may be routed to (internal/registry/registry.go: heartbeat, effective, snapshot).
use server_flow.Prelude.{
  ℕ, ◌-◌, ◌≤◌, ◌<◌, ◌≡◌, ◌≢◌, ◌↔◌, refl, sym, ap, subst, ◌∙◌, ◌⊎◌, inl, inr, Bool, true, false,
  ◌&&◌, ◌||◌, not, Option, none, some, List, [], ◌∷◌, leb, arith, if◌then◌else◌, length, keep, All,
  Bool-cases, Option-cases, Comparable, ◌==◌,
}
use server_flow.Prelude.Bytes.{Bytes, bytes_eq, bytes_beq, bytes_beq_iff}
use server_flow.Prelude.Assoc.{
  Assoc, lookup, insert, delete, Unique, insert-All, keep-All, lookup-All, none≢some, insert-Unique,
  lookup-insert,
}
use server_flow.Protocol.{
  WorkerState, ready, draining, WorkerInfo, Heartbeat, is_draining, is_failed,
}
use server_flow.Registry.{
  Error, Config, validates, Entry, Registry, health_at, age, effective, is_eligible, is_kept,
  evict_locked, observe_locked, observe_all, sweep, is_there, new_entry, register, may_report,
  reported, heartbeat, deregister,
}
use server_flow.Registry.Workers.{Call, registers, beats, leaves, sweeps, apply, run}

delete-All {ℓ κ μ} :
    {K : Type ℓ} {V : Type κ} ⦃e : Comparable K⦄ (P : K × V → Type μ) (k : K) (m : Assoc K V)
    → All P m
    → All P (delete k m)
unfolding delete
delete-All P k [] a = tt
delete-All ⦃e⦄ P k ((i, w) ∷ m) a = elim (Bool-cases (i == k)) [
  | inl same ↦ rw same (delete-All P k m a.1)
  | inr other ↦ rw other (a.0, delete-All P k m a.1)
]

lookup_first {ℓ} :
    {V : Type ℓ} (j id : Bytes) (v : V) (m : Assoc Bytes V)
    → j ≡ id
    → lookup id ((j, v) ∷ m) ≡ some v
unfolding lookup
lookup_first j id v m h = ground (arith, bytes_beq_iff j id)

lookup_next {ℓ} :
    {V : Type ℓ} (j id : Bytes) (v x : V) (m : Assoc Bytes V)
    → bytes_beq j id ≡ false
    → lookup id m ≡ some x
    → lookup id ((j, v) ∷ m) ≡ some x
unfolding lookup
lookup_next j id v x m h l = rw h l

module _ {F : Type 0} where
  -- What a call keeps of every entry: it holds of a new one and survives an observation and a legal report.
  record Survives (P : Bytes × Entry F → Type 0) (call : Call F) : Type 0 where
    entered :
        (now : ℕ) (info : WorkerInfo) (reg_id : Bytes)
        → call ≡ registers now info reg_id
        → P (info.worker_id, new_entry info now reg_id)
    seen :
        (c : Config) (id : Bytes) (e : Entry F) (now : ℕ)
        → P (id, e)
        → P (id, observe_locked c e now)
    heard :
        (c : Config) (id : Bytes) (e : Entry F) (now : ℕ) (hb : Heartbeat F)
        → P (id, e)
        → may_report e hb.state ≡ true
        → P (id, reported c e now hb)

  observe_all-All :
      (P : Bytes × Entry F → Type 0) (c : Config) (now : ℕ) (m : Assoc Bytes (Entry F))
      → ((id : Bytes) (e : Entry F) → P (id, e) → P (id, observe_locked c e now))
      → All P m
      → All P (observe_all c now m)
  observe_all-All P c now [] h a = tt
  observe_all-All P c now ((id, e) ∷ m) h a = (h id e a.0, observe_all-All P c now m h a.1)

  -- What a heartbeat and a deregistration leave behind.
  heartbeat-cases :
      (r : Registry F) (now : ℕ) (id reg_id : Bytes) (hb : Heartbeat F)
      → ((heartbeat r now id reg_id hb).0.workers ≡ r.workers)
        ⊎ ((e : Entry F) × (lookup id r.workers ≡ some e)
            × (may_report e hb.state ≡ true)
            × ((heartbeat r now id reg_id hb).0.workers
                ≡ insert id (reported r.cfg e now hb) r.workers))
  unfolding heartbeat
  heartbeat-cases r now id reg_id hb = elim (Option-cases (lookup id r.workers)) [
    | inl new ↦ inl (rw (new, heartbeat) refl)
    | inr (e, old) ↦ elim (Bool-cases (bytes_beq e.reg_id reg_id)) [
      | inr stale ↦ inl (rw (old, heartbeat, stale) refl)
      | inl current ↦ elim (Bool-cases (may_report e hb.state)) [
        | inr illegal ↦ inl (rw (old, heartbeat, current, illegal) refl)
        | inl legal ↦ inr (e, old, legal, rw (old, heartbeat, current, legal) refl)
      ]
    ]
  ]

  deregister-cases :
      (r : Registry F) (id reg_id : Bytes)
      → ((deregister r id reg_id).0.workers ≡ r.workers)
        ⊎ ((deregister r id reg_id).0.workers ≡ delete id r.workers)
  unfolding deregister
  deregister-cases r id reg_id = elim (Option-cases (lookup id r.workers)) [
    | inl new ↦ inl (rw (new, deregister) refl)
    | inr (e, old) ↦ elim (Bool-cases (bytes_beq e.reg_id reg_id)) [
      | inr stale ↦ inl (rw (old, deregister, stale) refl)
      | inl current ↦ inr (rw (old, deregister, current) refl)
    ]
  ]

  apply-All :
      (P : Bytes × Entry F → Type 0) (r : Registry F) (call : Call F)
      → Survives P call
      → All P r.workers
      → All P (apply r call).workers
  unfolding register evict_locked sweep
  apply-All P r (registers now info reg_id) s a =
      let p = s.entered now info reg_id refl in
      let kept = keep-All P (is_kept r.cfg now) r.workers a in
      all_if
        (not (is_there (lookup info.worker_id r.workers))
          && leb r.cfg.max_workers (length r.workers))
        _ _
        (all_if (leb r.cfg.max_workers (length (keep (is_kept r.cfg now) r.workers))) _ _ kept (
          insert-All P info.worker_id (new_entry info now reg_id)
            (keep (is_kept r.cfg now) r.workers) kept p))
        (insert-All P info.worker_id (new_entry info now reg_id) r.workers a p)
    where
      all_if :
          (c : Bool) (x y : Registry F × Option Error)
          → All P x.0.workers
          → All P y.0.workers
          → All P (if c then x else y).0.workers
      all_if true x y v w = v
      all_if false x y v w = w
  apply-All P r (beats now id reg_id hb) s a = elim (heartbeat-cases r now id reg_id hb) [
    | inl same ↦ subst (λ x. All P x) (sym same) a
    | inr (e, old, legal, same) ↦
        subst (λ x. All P x) (sym same)
          (insert-All P id (reported r.cfg e now hb) r.workers a
            (s.heard r.cfg id e now hb (lookup-All P id e r.workers a old) legal))
  ]
  apply-All P r (leaves id reg_id) s a = elim (deregister-cases r id reg_id) [
    | inl same ↦ subst (λ x. All P x) (sym same) a
    | inr same ↦ subst (λ x. All P x) (sym same) (delete-All P id r.workers a)
  ]
  apply-All P r (sweeps now) s a =
      keep-All P (is_kept r.cfg now) (observe_all r.cfg now r.workers)
        (observe_all-All P r.cfg now r.workers (λ id e p. s.seen r.cfg id e now p) a)

  -- The entry of one incarnation of a worker has drained, and is draining or failed.
  abbrev Spent : Bytes → Bytes → Bytes × Entry F → Type 0
  Spent id reg_id (j, e) =
      j ≡ id
      → e.reg_id ≡ reg_id
      → (e.drained ≡ true) × ((is_draining e.state || is_failed e.state) ≡ true)

  -- The registration ID that a call draws.
  abbrev id_of : Call F → Bytes
  id_of (registers now info new) = new
  id_of _ = []

  -- No registration draws this ID again.
  abbrev pub Fresh : Bytes → Call F → Type 0
  Fresh reg_id (registers now info new) = new ≢ reg_id
  Fresh reg_id _ = Unit

  Spent-Survives :
      (id reg_id : Bytes) (call : Call F) → Fresh reg_id call → Survives (Spent id reg_id) call
  unfolding observe_locked reported
  Spent-Survives id reg_id call fresh = record {
    entered = λ now info new e same reg. absurd (drawn call fresh e reg);
    seen = λ c j e now p same reg. p same reg;
    heard = λ c j e now hb p legal same reg. stays e hb.state (p same reg) legal;
  }
    where
      drawn :
          {now : ℕ} {info : WorkerInfo} {new : Bytes} (call : Call F)
          → Fresh reg_id call
          → call ≡ registers now info new
          → new ≡ reg_id
          → ⊥
      drawn (registers t i n) fresh e reg = fresh (ap id_of e ∙ reg)
      drawn (beats t i n h) fresh e reg = ground arith
      drawn (leaves i n) fresh e reg = ground arith
      drawn (sweeps t) fresh e reg = ground arith

      stays :
          (e : Entry F) (next : WorkerState)
          → (e.drained ≡ true) × ((is_draining e.state || is_failed e.state) ≡ true)
          → may_report e next ≡ true
          → ((e.drained || is_draining next) ≡ true) × ((is_draining next || is_failed next) ≡ true)
      stays e next p legal = ground (arith, p.0, legal)

  run-All :
      (P : Bytes × Entry F → Type 0) (r : Registry F) (cs : List (Call F))
      → All (λ c. Survives P c) cs
      → All P r.workers
      → All P (run r cs).workers
  unfolding run
  run-All P r [] s a = a
  run-All P r (c ∷ cs) s a = run-All P (apply r c) cs s.1 (apply-All P r c s.0 a)

  Fresh-Survives :
      (id reg_id : Bytes) (cs : List (Call F))
      → All (Fresh reg_id) cs
      → All (λ c. Survives (Spent id reg_id) c) cs
  Fresh-Survives id reg_id [] f = tt
  Fresh-Survives id reg_id (c ∷ cs) f =
      (Spent-Survives id reg_id c f.0, Fresh-Survives id reg_id cs f.1)

  -- What holds of a key's entry holds of each entry under that key, since it is the only one.
  under_key :
      (P : Entry F → Type 0) (id : Bytes) (m : Assoc Bytes (Entry F))
      → Unique m
      → ((e : Entry F) → lookup id m ≡ some e → P e)
      → All (λ (q : Bytes × Entry F). q.0 ≡ id → P q.1) m
  under_key P id [] u h = tt
  under_key P id ((j, e) ∷ m) u h = (
    λ same. h e (lookup_first j id e m same),
    under_key P id m u.1 (λ x l. elim (Bool-cases (bytes_beq j id)) [
      | inl same ↦ absurd (clash j id m x ((bytes_beq_iff j id).0 same) u.0 l)
      | inr other ↦ h x (lookup_next j id e x m other l)
    ]),
  )
    where
      clash :
          (j id : Bytes) (m : Assoc Bytes (Entry F)) (x : Entry F)
          → j ≡ id
          → lookup j m ≡ none
          → lookup id m ≡ some x
          → ⊥
      clash j id m x same n l = none≢some (sym (rw same at n) ∙ l)

  accepted :
      (r : Registry F) (now : ℕ) (id reg_id : Bytes) (hb : Heartbeat F)
      → (heartbeat r now id reg_id hb).1 ≡ none
      → (e : Entry F) × ((heartbeat r now id reg_id hb).0.workers
          ≡ insert id (reported r.cfg e now hb) r.workers)
  unfolding heartbeat
  accepted r now id reg_id hb h = elim (Option-cases (lookup id r.workers)) [
    | inl new ↦ absurd (none≢some (sym (rw (new, heartbeat) at h)))
    | inr (e, old) ↦ elim (Bool-cases (bytes_beq e.reg_id reg_id)) [
      | inr stale ↦ absurd (none≢some (sym (rw (old, heartbeat, stale) at h)))
      | inl current ↦ elim (Bool-cases (may_report e hb.state)) [
        | inr illegal ↦ absurd (none≢some (sym (rw (old, heartbeat, current, illegal) at h)))
        | inl legal ↦ (e, rw (old, heartbeat, current, legal) refl)
      ]
    ]
  ]

  found :
      (id : Bytes) (v x : Entry F) (m : Assoc Bytes (Entry F))
      → lookup id (insert id v m) ≡ some x
      → v ≡ x
  found id v x m h = let e = lookup-insert id id v m in ground (arith, e, h, bytes_beq_iff id id)

  reported-Spent :
      (c : Config) (m : Assoc Bytes (Entry F)) (old : Entry F) (now : ℕ) (id reg_id : Bytes)
      (hb : Heartbeat F)
      → Unique m
      → hb.state ≡ draining
      → All (Spent id reg_id) (insert id (reported c old now hb) m)
  unfolding reported observe_locked
  reported-Spent c m old now id reg_id hb u d =
      under_key
        (λ x.
          x.reg_id ≡ reg_id
          → (x.drained ≡ true) × ((is_draining x.state || is_failed x.state) ≡ true))
        id (insert id v m) (insert-Unique id v m u)
        (λ x h.
          subst
            (λ (y : Entry F).
              y.reg_id ≡ reg_id
              → (y.drained ≡ true) × ((is_draining y.state || is_failed y.state) ≡ true))
            (found id v x m h) (λ same. (flag hb.state d, state hb.state d)))
    where
      v : Entry F
      v = reported c old now hb

      flag : (s : WorkerState) → s ≡ draining → (old.drained || is_draining s) ≡ true
      flag s e = ground (arith, e)

      state : (s : WorkerState) → s ≡ draining → (is_draining s || is_failed s) ≡ true
      state s e = ground (arith, e)

  not_eligible :
      (c : Config) (e : Entry F) (now : ℕ)
      → (is_draining e.state || is_failed e.state) ≡ true
      → is_eligible c e now ≡ false
  unfolding is_eligible effective health_at
  not_eligible c e now h = ground (arith, h)

  -- Under a configuration that validates, a worker is eligible exactly when it last reported READY and its last
  -- heartbeat is younger than the suspect threshold or, where suspect workers are eligible, at most as old as the
  -- unhealthy threshold.
  pub eligible_exact :
      (c : Config) (e : Entry F) (now : ℕ)
      → validates c ≡ true
      → (is_eligible c e now ≡ true) ↔ (
          (e.state ≡ ready)
          × ((now - e.last_beat < c.suspect)
              ⊎ ((now - e.last_beat ≤ c.unhealthy) × (c.suspect_eligible ≡ true))))
  unfolding is_eligible effective health_at validates age
  eligible_exact c e now h = ground (arith, h)

  -- Once a registry with one entry for each worker has accepted a DRAINING report of a worker, then after any
  -- further calls that do not draw its registration ID again, the worker is not eligible at any time as long as
  -- it stands under that registration.
  pub drain_one_way :
      (r : Registry F) (now : ℕ) (id reg_id : Bytes) (hb : Heartbeat F) (cs : List (Call F))
      → Unique r.workers
      → hb.state ≡ draining
      → (heartbeat r now id reg_id hb).1 ≡ none
      → All (Fresh reg_id) cs
      → (e : Entry F) → lookup id (run (heartbeat r now id reg_id hb).0 cs).workers ≡ some e
      → e.reg_id ≡ reg_id
      → (c : Config) (later : ℕ) → is_eligible c e later ≡ false
  drain_one_way r now id reg_id hb cs u d ok fresh e l same c later =
      let (old, after) = accepted r now id reg_id hb ok in
      let drained =
        subst (λ m. All (Spent id reg_id) m) (sym after)
          (reported-Spent r.cfg r.workers old now id reg_id hb u d) in
      let spent =
        lookup-All (Spent id reg_id) id e _
          (run-All (Spent id reg_id) _ cs (Fresh-Survives id reg_id cs fresh) drained) l refl
          same in
      not_eligible c e later spent.1
