-- ===== src/Gateway/Route.antt =====
-- Where `route` of internal/gateway/router.go sends a request.
use server_flow.Prelude.{
  ℕ, suc, ◌+◌, ◌<◌, ◌≡◌, refl, sym, ap, subst, ◌∙◌, inl, inr, Bool, true, false, ◌&&◌, not, Option,
  none, some, List, [], ◌∷◌, ltb, nat_beq, arith, if◌then◌else◌, if_either, keep, length,
  count-le-length, All, Among,
}
use server_flow.Prelude.Bytes.{Bytes, bytes_eq, bytes_beq}
use server_flow.Prelude.Assoc.{Assoc, insert}
use server_flow.Prelude.Float.{Float64}
use server_flow.Protocol.{WorkerSnapshot, InferenceRequest}
use server_flow.Scheduler.Candidates.{has_room, offers}
use server_flow.Resilience.Breakers.{Breakers}
use server_flow.Resilience.Breakers.Calls.{admissible}
use server_flow.Resilience.Queue.{enqueue}
use server_flow.Gateway.Router.{
  Router, Reserved, taken, queued, refused, plain_error, no_capacity, schedulable, local_load,
  overlay, overlay_all, filter_broken, is_listed, is_allowed, enqueue_locked, done_with,
  reserve_loop, reserve, joins_queue, or_anonymous, route_from, route, key_of,
}
use server_flow.Gateway.Reserve.{
  Distinct, false≢true, Outcome, room-eligible, offered, enqueued-Outcome, reserve_loop-Outcome,
}

module _ {F : Type 0} where
  -- A worker of the view with room for one more request of this router.
  abbrev pub Free : Assoc Bytes ℕ → Bytes → List (WorkerSnapshot F) → WorkerSnapshot F → Type 0
  Free inflight model ws u =
      Among u ws
      × (offers model u ≡ true)
      × (local_load inflight u.worker_id < u.max_concurrency)
      × (u.metrics.active_requests < u.max_concurrency)

  abbrev Others : Bytes → List (WorkerSnapshot F) → Type 0
  Others id ws = All (λ v. bytes_beq id v.worker_id ≡ false) ws

  overlay_all-Others :
      (inflight : Assoc Bytes ℕ) (id : Bytes) (ws : List (WorkerSnapshot F))
      → All (λ v. bytes_beq id v.worker_id ≡ false) ws
      → All (λ v. bytes_beq id v.worker_id ≡ false) (overlay_all inflight ws)
  unfolding overlay_all
  overlay_all-Others inflight id [] a = tt
  overlay_all-Others inflight id (w ∷ ws) a = (a.0, overlay_all-Others inflight id ws a.1)

  overlay_all-Distinct :
      (inflight : Assoc Bytes ℕ) (ws : List (WorkerSnapshot F))
      → Distinct ws
      → Distinct (overlay_all inflight ws)
  unfolding overlay_all
  overlay_all-Distinct inflight [] d = tt
  overlay_all-Distinct inflight (w ∷ ws) d =
      (overlay_all-Others inflight w.worker_id ws d.0, overlay_all-Distinct inflight ws d.1)

  length-overlay_all :
      (inflight : Assoc Bytes ℕ) (ws : List (WorkerSnapshot F))
      → length (overlay_all inflight ws) ≡ length ws
  unfolding overlay_all
  length-overlay_all inflight [] = refl
  length-overlay_all inflight (w ∷ ws) = ap suc (length-overlay_all inflight ws)

  overlay_all-Among :
      (inflight : Assoc Bytes ℕ) (ws : List (WorkerSnapshot F)) (u : WorkerSnapshot F)
      → Among u (overlay_all inflight ws)
      → (v : WorkerSnapshot F) × Among v ws × u ≡ overlay inflight v
  unfolding overlay_all
  overlay_all-Among inflight [] u m = elim m [ ]
  overlay_all-Among inflight (w ∷ ws) u (inl e) = (w, inl refl, e)
  overlay_all-Among inflight (w ∷ ws) u (inr m) =
      let (v, n, e) = overlay_all-Among inflight ws u m in (v, inr n, e)

  keep-Others :
      (p : WorkerSnapshot F → Bool) (id : Bytes) (ws : List (WorkerSnapshot F))
      → All (λ v. bytes_beq id v.worker_id ≡ false) ws
      → All (λ v. bytes_beq id v.worker_id ≡ false) (keep p ws)
  keep-Others p id [] a = tt
  keep-Others p id (w ∷ ws) a =
      if_either (All (λ (v : WorkerSnapshot F). bytes_beq id v.worker_id ≡ false)) (p w)
        (λ t. (a.0, keep-Others p id ws a.1)) (λ f. keep-Others p id ws a.1)

  keep-Distinct :
      (p : WorkerSnapshot F → Bool) (ws : List (WorkerSnapshot F))
      → Distinct ws
      → Distinct (keep p ws)
  keep-Distinct p [] d = tt
  keep-Distinct p (w ∷ ws) d =
      if_either Distinct (p w) (λ t. (keep-Others p w.worker_id ws d.0, keep-Distinct p ws d.1))
        (λ f. keep-Distinct p ws d.1)

  keep-Among :
      (p : WorkerSnapshot F → Bool) (ws : List (WorkerSnapshot F)) (u : WorkerSnapshot F)
      → Among u (keep p ws)
      → Among u ws × p u ≡ true
  keep-Among p [] u m = elim m [ ]
  keep-Among p (w ∷ ws) u m =
      if_either (λ (xs : List (WorkerSnapshot F)). Among u xs → Among u (w ∷ ws) × p u ≡ true) (p w)
        (λ t n. elim n [
          | inl e ↦ (inl e, ap p e ∙ t)
          | inr later ↦ let (a, b) = keep-Among p ws u later in (inr a, b)
        ])
        (λ f n. let (a, b) = keep-Among p ws u n in (inr a, b)) m

  filter_broken-Others :
      (bs : Breakers F) (now : ℕ) (id : Bytes) (ws : List (WorkerSnapshot F))
      → All (λ v. bytes_beq id v.worker_id ≡ false) ws
      → All (λ v. bytes_beq id v.worker_id ≡ false) (filter_broken bs now ws).1
  unfolding filter_broken
  filter_broken-Others bs now id [] a = tt
  filter_broken-Others bs now id (w ∷ ws) a =
      let later =
        filter_broken-Others (if schedulable w then (admissible bs now (key_of w)).0.0 else bs) now
          id ws a.1 in
      if_either
        (λ (x : Breakers F × List (WorkerSnapshot F) × ℕ).
          All (λ (v : WorkerSnapshot F). bytes_beq id v.worker_id ≡ false) x.1)
        (schedulable w && not (admissible bs now (key_of w)).1) (λ t. (a.0, later))
        (λ f. (a.0, later))

  filter_broken-Distinct :
      (bs : Breakers F) (now : ℕ) (ws : List (WorkerSnapshot F))
      → Distinct ws
      → Distinct (filter_broken bs now ws).1
  unfolding filter_broken
  filter_broken-Distinct bs now [] d = tt
  filter_broken-Distinct bs now (w ∷ ws) d =
      let bs' = if schedulable w then (admissible bs now (key_of w)).0.0 else bs in
      let others = filter_broken-Others bs' now w.worker_id ws d.0 in
      let distinct = filter_broken-Distinct bs' now ws d.1 in
      if_either (λ (x : Breakers F × List (WorkerSnapshot F) × ℕ). Distinct x.1)
        (schedulable w && not (admissible bs now (key_of w)).1) (λ t. (others, distinct))
        (λ f. (others, distinct))

  filter_broken-Covers :
      (bs : Breakers F) (now : ℕ) (ws : List (WorkerSnapshot F)) (u : WorkerSnapshot F)
      → Among u (filter_broken bs now ws).1
      → u.eligible ≡ true
      → Among u ws
  unfolding filter_broken
  filter_broken-Covers bs now [] u m h = elim m [ ]
  filter_broken-Covers bs now (w ∷ ws) u m h =
      let bs' = if schedulable w then (admissible bs now (key_of w)).0.0 else bs in
      if_either (λ (x : Breakers F × List (WorkerSnapshot F) × ℕ). Among u x.1 → Among u (w ∷ ws))
        (schedulable w && not (admissible bs now (key_of w)).1)
        (λ t n. elim n [
          | inl e ↦ absurd (false≢true (sym (ap (λ (x : WorkerSnapshot F). x.eligible) e) ∙ h))
          | inr later ↦ inr (filter_broken-Covers bs' now ws u later h)
        ])
        (λ f n. elim n [
          | inl e ↦ inl e
          | inr later ↦ inr (filter_broken-Covers bs' now ws u later h)
        ])
        m

  -- Where a request went: to a worker of the view that has room for it, is not excluded and is the one that the router counts it on.
  abbrev pub Placed :
      Assoc Bytes ℕ
      → Bytes
      → List Bytes
      → List (WorkerSnapshot F)
      → Router F × Option (Reserved F)
      → Type 0
  Placed inflight model exclude ws (r, none) = ⊥
  Placed inflight model exclude ws (r, some (taken w t)) =
      (r.inflight ≡ insert w.worker_id (local_load inflight w.worker_id + 1) inflight)
      × ((u : WorkerSnapshot F) × Free inflight model ws u
          × (is_listed u.worker_id exclude ≡ false)
          × (w.worker_id ≡ u.worker_id)
          × (w.address ≡ u.address))
  Placed inflight model exclude ws (r, some (queued n)) = r.inflight ≡ inflight
  Placed inflight model exclude ws (r, some (refused why)) = r.inflight ≡ inflight

  overlay-Free :
      (inflight : Assoc Bytes ℕ) (model : Bytes) (ws : List (WorkerSnapshot F))
      (v : WorkerSnapshot F)
      → Among v ws
      → has_room model (overlay inflight v) ≡ true
      → Free inflight model ws v
  overlay-Free inflight model ws v m h = (m, ground arith, ground arith, ground arith)

  -- Workers that are eligible in the filtered list are workers of the view, and not excluded.
  abbrev Allows : List Bytes → List (WorkerSnapshot F) → List (WorkerSnapshot F) → Type 0
  Allows exclude ws vs =
      (u : WorkerSnapshot F)
      → Among u vs
      → u.eligible ≡ true
      → Among u ws × (is_listed u.worker_id exclude ≡ false)

  outcome-Placed :
      (inflight : Assoc Bytes ℕ) (model : Bytes) (exclude : List Bytes)
      (ws vs : List (WorkerSnapshot F)) (x : Router F × Option (Reserved F))
      → Allows exclude ws vs
      → Outcome inflight model (overlay_all inflight vs) x
      → Placed inflight model exclude ws x
  outcome-Placed inflight model exclude ws vs (r, none) a o = o
  outcome-Placed inflight model exclude ws vs (r, some (queued n)) a o = o
  outcome-Placed inflight model exclude ws vs (r, some (refused why)) a o = o
  outcome-Placed inflight model exclude ws vs (r, some (taken w t)) a (e, (u, (m, h), s)) =
      let (v, n, same) = overlay_all-Among inflight vs u m in
      let room : has_room model (overlay inflight v) ≡ true =
        subst (λ (x : WorkerSnapshot F). has_room model x ≡ true) same h in
      let (there, allowed) = a v n (room-eligible model (overlay inflight v) room) in
      (
        e,
        (
          v,
          overlay-Free inflight model ws v there room,
          allowed,
          ap (λ (x : WorkerSnapshot F). x.worker_id) s
              ∙ ap (λ (x : WorkerSnapshot F). x.worker_id) same,
          ap (λ (x : WorkerSnapshot F). x.address) s
              ∙ ap (λ (x : WorkerSnapshot F). x.address) same,
        ),
      )

module _ (fl : Float64) where
  open fl use {Float}

  reserve-Placed :
      (intn : ℕ → ℕ → ℕ) (done degraded : Bool) (req : InferenceRequest Float) (now : ℕ)
      (wait : Option Bytes) (exclude : List Bytes) (r : Router Float)
      (ws vs : List (WorkerSnapshot Float)) (broke : ℕ)
      → Allows exclude ws vs
      → Distinct vs
      → Placed r.inflight req.model exclude ws
          (reserve fl intn done degraded req now wait r vs broke)
  unfolding reserve enqueue_locked
  reserve-Placed intn done degraded req now wait exclude r ws vs broke a d =
      if_either (Placed r.inflight req.model exclude ws) (joins_queue fl r req.model wait vs)
        (λ t.
          outcome-Placed r.inflight req.model exclude ws vs
            (done_with fl (
              enqueue_locked fl r now req.model (or_anonymous fl wait) (plain_error no_capacity 0)))
            a
            (enqueued-Outcome fl req.model (overlay_all r.inflight vs) r r.waitq.next
              (plain_error no_capacity 0)
              (enqueue fl r.waitq now req.model (or_anonymous fl wait))))
        (λ f.
          outcome-Placed r.inflight req.model exclude ws vs
            (reserve_loop fl (suc (length vs)) intn done degraded req now wait r
              (overlay_all r.inflight vs) broke)
            a
            (reserve_loop-Outcome fl r.inflight (overlay_all r.inflight vs) (suc (length vs)) intn
              done degraded req now wait r (overlay_all r.inflight vs) broke refl (λ u m h. m)
              (overlay_all-Distinct r.inflight vs d)
              (omega (
                arith,
                count-le-length offered (overlay_all r.inflight vs),
                length-overlay_all r.inflight vs,
              ))))

  route_from-Placed :
      (intn : ℕ → ℕ → ℕ) (done degraded non_closed : Bool) (req : InferenceRequest Float) (now : ℕ)
      (wait : Option Bytes) (exclude : List Bytes) (r : Router Float)
      (ws vs : List (WorkerSnapshot Float))
      → Allows exclude ws vs
      → Distinct vs
      → Placed r.inflight req.model exclude ws
          (route_from fl intn done degraded non_closed req now wait r vs)
  route_from-Placed intn done degraded non_closed req now wait exclude r ws vs a d =
      let f = filter_broken r.breakers now vs in
      if_either (Placed r.inflight req.model exclude ws) (r.has_res && non_closed)
        (λ t.
          reserve-Placed intn done degraded req now wait exclude (record r { breakers = f.0 }) ws
            f.1 f.2 (λ u m h. a u (filter_broken-Covers r.breakers now vs u m h) h)
            (filter_broken-Distinct r.breakers now vs d))
        (λ g. reserve-Placed intn done degraded req now wait exclude r ws vs 0 a d)

  -- Routing with a view of workers with distinct IDs always ends. If it takes a slot, then on a worker of the view that serves
  -- the model, is ready, eligible and not excluded, and has room both by its own count and by the requests that this router has on
  -- it; the router counts one request more on this worker and changes no other count. Otherwise no count changes.
  pub route-Placed :
      (intn : ℕ → ℕ → ℕ) (done degraded non_closed : Bool) (req : InferenceRequest Float) (now : ℕ)
      (wait : Option Bytes) (exclude : List Bytes) (r : Router Float)
      (ws : List (WorkerSnapshot Float))
      → Distinct ws
      → Placed r.inflight req.model exclude ws
          (route fl intn done degraded non_closed req now wait exclude r (some ws))
  unfolding route
  route-Placed intn done degraded non_closed req now wait exclude r ws d =
      let p = is_allowed fl exclude in
      if_either (Placed r.inflight req.model exclude ws)
        (nat_beq (length (keep p ws)) 0 && ltb 0 (length ws)) (λ t. refl)
        (λ f.
          route_from-Placed intn done degraded non_closed req now wait exclude r ws (keep p ws)
            (λ u m h. let (there, allowed) = keep-Among p ws u m in (there, ground arith))
            (keep-Distinct p ws d))
