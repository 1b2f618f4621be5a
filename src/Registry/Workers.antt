-- ===== src/Registry/Workers.antt =====
-- What holds of the registered workers after any calls (internal/registry/registry.go).
use server_flow.Prelude.{
  ℕ, suc, ◌≤◌, ◌≡◌, refl, ap, inl, inr, some, List, [], ◌∷◌, arith, length, keep, Bool-cases,
  Option-cases, length-keep-le,
}
use server_flow.Prelude.Bytes.{Bytes, bytes_eq}
use server_flow.Prelude.Assoc.{
  Assoc, lookup, length-insert-le, length-insert_old, length-delete-le, none≢some,
}
use server_flow.Protocol.{WorkerInfo, Heartbeat}
use server_flow.Registry.{
  Config, validates, Entry, Registry, new_registry, is_kept, evict_locked, observe_all, sweep,
  new_entry, register, reported, heartbeat, deregister,
}

-- A call with its arguments, its clock reading and its random registration ID.
pub data Call (F : Type 0) : Type 0 where
  registers : (now : ℕ) (info : WorkerInfo) (reg_id : Bytes) → Call F
  beats : (now : ℕ) (id reg_id : Bytes) (hb : Heartbeat F) → Call F
  leaves : (id reg_id : Bytes) → Call F
  sweeps : (now : ℕ) → Call F

module _ {F : Type 0} where
  abbrev pub apply : Registry F → Call F → Registry F
  apply r (registers now info reg_id) = (register r now info reg_id).0
  apply r (beats now id reg_id hb) = (heartbeat r now id reg_id hb).0
  apply r (leaves id reg_id) = (deregister r id reg_id).0
  apply r (sweeps now) = (sweep r now).0

  unfoldable pub run : Registry F → List (Call F) → Registry F
  run r [] = r
  run r (c ∷ cs) = run (apply r c) cs

  length-observe_all :
      (c : Config) (now : ℕ) (m : Assoc Bytes (Entry F)) → length (observe_all c now m) ≡ length m
  length-observe_all c now [] = refl
  length-observe_all c now (p ∷ m) = ap suc (length-observe_all c now m)

  -- The limit on the number of workers.
  abbrev Bounded : Config → Registry F → Type 0
  Bounded c r = (r.cfg ≡ c) × (length r.workers ≤ c.max_workers)

  register-Bounded :
      (c : Config) (r : Registry F) (now : ℕ) (info : WorkerInfo) (reg_id : Bytes)
      → Bounded c r
      → Bounded c (register r now info reg_id).0
  unfolding register evict_locked
  register-Bounded c r now info reg_id b = elim (Option-cases (lookup info.worker_id r.workers)) [
    | inr (e, old) ↦
        rw (old, register)
          (
            b.0,
            omega (
              arith,
              b.1,
              length-insert_old info.worker_id (new_entry info now reg_id) e r.workers old,
            ),
          )
    | inl new ↦ ground (
      arith,
      new,
      b.0,
      b.1,
      ap (λ (q : Config). q.max_workers) b.0,
      length-keep-le (is_kept r.cfg now) r.workers,
      length-insert-le info.worker_id (new_entry info now reg_id) r.workers,
      length-insert-le info.worker_id (new_entry info now reg_id)
          (keep (is_kept r.cfg now) r.workers),
    )
  ]

  heartbeat-Bounded :
      (c : Config) (r : Registry F) (now : ℕ) (id reg_id : Bytes) (hb : Heartbeat F)
      → Bounded c r
      → Bounded c (heartbeat r now id reg_id hb).0
  unfolding heartbeat
  heartbeat-Bounded c r now id reg_id hb b = elim (Option-cases (lookup id r.workers)) [
    | inl new ↦ rw (new, heartbeat) b
    | inr (e, old) ↦
        rw (old, heartbeat)
          (ground (arith, b.0, b.1, length-insert_old id (reported r.cfg e now hb) e r.workers old))
  ]

  deregister-Bounded :
      (c : Config) (r : Registry F) (id reg_id : Bytes)
      → Bounded c r
      → Bounded c (deregister r id reg_id).0
  unfolding deregister
  deregister-Bounded c r id reg_id b = ground (arith, b.0, b.1, length-delete-le id r.workers)

  sweep-Bounded : (c : Config) (r : Registry F) (now : ℕ) → Bounded c r → Bounded c (sweep r now).0
  unfolding sweep evict_locked
  sweep-Bounded c r now b = (
    b.0,
    omega (
      arith,
      b.1,
      length-observe_all r.cfg now r.workers,
      length-keep-le (is_kept r.cfg now) (observe_all r.cfg now r.workers),
    ),
  )

  apply-Bounded :
      (c : Config) (r : Registry F) (call : Call F) → Bounded c r → Bounded c (apply r call)
  apply-Bounded c r (registers now info reg_id) b = register-Bounded c r now info reg_id b
  apply-Bounded c r (beats now id reg_id hb) b = heartbeat-Bounded c r now id reg_id hb b
  apply-Bounded c r (leaves id reg_id) b = deregister-Bounded c r id reg_id b
  apply-Bounded c r (sweeps now) b = sweep-Bounded c r now b

  run-Bounded :
      (c : Config) (r : Registry F) (cs : List (Call F)) → Bounded c r → Bounded c (run r cs)
  unfolding run
  run-Bounded c r [] b = b
  run-Bounded c r (call ∷ cs) b = run-Bounded c (apply r call) cs (apply-Bounded c r call b)

  -- After any calls on a new registry, no more workers are registered than the configuration allows.
  pub workers-bounded :
      (c : Config) (r : Registry F) (cs : List (Call F))
      → new_registry c ≡ some r
      → length (run r cs).workers ≤ c.max_workers
  unfolding new_registry
  workers-bounded c r cs h =
      (run-Bounded c r cs (elim (Bool-cases (validates c)) [
        | inl ok ↦ ground (arith, ok, h)
        | inr bad ↦ absurd (none≢some (rw (bad, new_registry) at h))
      ])).1
