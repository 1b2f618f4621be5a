-- ===== src/Gateway/Release.antt =====
-- That a slot which is taken is given back (internal/gateway/router.go).
use server_flow.Prelude.{
  ℕ, ◌+◌, ◌-◌, ◌≡◌, refl, sym, ap, inl, inr, Bool-cases, ◌==◌, ◌∙◌, true, false, ◌||◌, not, Option,
  arith, nat_beq, nat_beq_iff, if_either,
}
use server_flow.Prelude.Bytes.{Bytes, bytes_eq, bytes_beq_iff}
use server_flow.Prelude.Assoc.{
  Assoc, insert, delete, lookup-insert, lookup-insert_self, lookup-delete,
}
use server_flow.Protocol.{WorkerSnapshot}
use server_flow.Resilience.Breakers.{Ticket}
use server_flow.Gateway.Router.{
  Router, local_load, or_no_count, give_back, take_slot, new_routed, handoff_locked, Handed,
  release_slot, after_handoff,
}

module _ (m : Assoc Bytes ℕ) (id : Bytes) where
  local_more : (v : ℕ) → local_load (insert id v m) id ≡ v
  local_more v = ap or_no_count (lookup-insert_self id v m)

  local_same : (other : Bytes) → (id == other) ≡ true → local_load m other ≡ local_load m id
  local_same other e = ap (local_load m) (sym ((bytes_beq_iff id other).0 e))

  local-insert_other :
      (v : ℕ) (other : Bytes) (l : Assoc Bytes ℕ)
      → (id == other) ≡ false
      → local_load (insert id v l) other ≡ local_load l other
  local-insert_other v other l e = ap or_no_count (lookup-insert id other v l) ∙ rw e refl

  local-delete_other :
      (other : Bytes) (l : Assoc Bytes ℕ)
      → (id == other) ≡ false
      → local_load (delete id l) other ≡ local_load l other
  local-delete_other other l e = ap or_no_count (lookup-delete id other l) ∙ rw e refl

  local-insert_same :
      (v : ℕ) (other : Bytes) (l : Assoc Bytes ℕ)
      → (id == other) ≡ true
      → local_load (insert id v l) other ≡ v
  local-insert_same v other l e = ap or_no_count (lookup-insert id other v l) ∙ rw e refl

  local-delete_same :
      (other : Bytes) (l : Assoc Bytes ℕ)
      → (id == other) ≡ true
      → local_load (delete id l) other ≡ 0
  local-delete_same other l e = ap or_no_count (lookup-delete id other l) ∙ rw e refl

  back_to : (k : ℕ) → k ≡ local_load m id + 1 → local_load m id ≡ k - 1
  back_to k e = omega (arith, e)

  -- One request more and one less.
  give_back-insert :
      (other : Bytes)
      → local_load (give_back (insert id (local_load m id + 1) m) id) other ≡ local_load m other
  unfolding give_back
  give_back-insert other =
      let m' = insert id (local_load m id + 1) m in
      let n = local_load m' id - 1 in
      if_either (λ (x : Assoc Bytes ℕ). local_load x other ≡ local_load m other) (nat_beq n 0)
        (λ t. elim (Bool-cases (id == other)) [
          | inl e ↦
              local-delete_same other m' e
              ∙ sym (
                  local_same other e
                  ∙ back_to (local_load m' id) (local_more (local_load m id + 1))
                  ∙ (nat_beq_iff n 0).0 t)
          | inr e ↦ local-delete_other other m' e ∙ local-insert_other _ other m e
        ])
        (λ f. elim (Bool-cases (id == other)) [
          | inl e ↦
              local-insert_same n other m' e
              ∙ sym (
                  local_same other e
                  ∙ back_to (local_load m' id) (local_more (local_load m id + 1)))
          | inr e ↦ local-insert_other n other m' e ∙ local-insert_other _ other m e
        ])

free :
    {F : Type 0} (r : Router F) (now : ℕ) (w : WorkerSnapshot F) (cur : Option (WorkerSnapshot F))
    → r.has_queue ≡ false
    → (after_handoff w (handoff_locked r now w cur)).inflight ≡ give_back r.inflight w.worker_id
unfolding handoff_locked
free {F} r now w cur h =
    if_either
      (λ (x : Router F × Handed). (after_handoff w x).inflight ≡ give_back r.inflight w.worker_id)
      (not r.has_res || not r.has_queue) (λ t. refl) (λ f. absurd (ground arith))

-- Without a queue, a slot that is taken on a worker and released again, once or twice, leaves the router's count of every worker
-- as it was.
pub release_slot-take_slot :
    {F : Type 0} (r : Router F) (w : WorkerSnapshot F) (t : Ticket) (now later : ℕ)
    (cur again : Option (WorkerSnapshot F)) (id : Bytes)
    → r.has_queue ≡ false
    → let (b, rt) = release_slot (take_slot r w t).0 now (new_routed w t) cur in
      (local_load b.inflight id ≡ local_load r.inflight id)
      × (local_load (release_slot b later rt again).0.inflight id ≡ local_load r.inflight id)
unfolding release_slot
release_slot-take_slot r w t now later cur again id h =
    let back =
      ap (λ (x : Assoc Bytes ℕ). local_load x id) (free (take_slot r w t).0 now w cur h)
      ∙ give_back-insert r.inflight w.worker_id id in
    (back, back)
