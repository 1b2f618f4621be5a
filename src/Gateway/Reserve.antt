-- ===== src/Gateway/Reserve.antt =====
-- That the loop of `reserve` in internal/gateway/router.go ends, and whose slot it takes.
use server_flow.Prelude.{
  ℕ, zero, suc, ◌+◌, ◌<◌, ◌≡◌, refl, sym, ap, subst, ◌∙◌, inl, inr, Bool, true, false, ◌&&◌, not,
  Option, none, some, List, [], ◌∷◌, ltb, nat_beq, arith, if_either, count, All, Among,
}
use server_flow.Prelude.Bytes.{Bytes, bytes_eq, bytes_beq, bytes_beq_iff}
use server_flow.Prelude.Assoc.{Assoc, insert}
use server_flow.Prelude.Float.{Float64}
use server_flow.Protocol.{WorkerSnapshot, InferenceRequest}
use server_flow.Scheduler.Candidates.{NoWorkerError, has_room, unknown_model}
use server_flow.Scheduler.Strategies.{
  Scheduler, Selection, cancelled, no_worker, chosen, select_worker,
}
use server_flow.Scheduler.Choice.{Answers, Fits, SameWorker, select_worker-Answers}
use server_flow.Resilience.Breakers.{Ticket, no_ticket}
use server_flow.Resilience.Breakers.Calls.{acquire}
use server_flow.Resilience.Breakers.Queries.{retry_after}
use server_flow.Resilience.Queue.{
  Queue, QueueError, no_queue, queue_full, tenant_share, draining, enqueue,
}
use server_flow.Gateway.Router.{
  Router, Routed, Reserved, taken, queued, refused, RouteError, local_load, mark_out, take_slot,
  enqueued, enqueue_locked, wait_or_refuse, nobody, is_full_error, reserve_turn, reserve_loop,
  key_of,
}

pub false≢true : false ≡ true → ⊥
false≢true e = cc

module _ {F : Type 0} where
  -- The IDs of the workers are distinct.
  abbrev pub Distinct : List (WorkerSnapshot F) → Type 0
  Distinct [] = Unit
  Distinct (w ∷ ws) = All (λ v. bytes_beq w.worker_id v.worker_id ≡ false) ws × Distinct ws

  abbrev pub offered : WorkerSnapshot F → Bool
  offered w = w.eligible

  pub All-Among :
      (P : WorkerSnapshot F → Type 0) (u : WorkerSnapshot F) (ws : List (WorkerSnapshot F))
      → All P ws
      → Among u ws
      → P u
  All-Among P u [] a m = elim m [ ]
  All-Among P u (w ∷ ws) a (inl e) = subst P (sym e) a.0
  All-Among P u (w ∷ ws) a (inr m) = All-Among P u ws a.1 m

  same_id : (u w : WorkerSnapshot F) → u ≡ w → bytes_beq w.worker_id u.worker_id ≡ true
  same_id u w e =
      (bytes_beq_iff w.worker_id u.worker_id).1 (ap (λ (x : WorkerSnapshot F). x.worker_id) (sym e))

  count-mark_out :
      (w : WorkerSnapshot F) (ws : List (WorkerSnapshot F))
      → Among w ws
      → w.eligible ≡ true
      → Distinct ws
      → suc (count offered (mark_out w.worker_id ws)) ≡ count offered ws
  unfolding mark_out
  count-mark_out w [] m h d = elim m [ ]
  count-mark_out w (v ∷ vs) (inl e) h d =
      let there : v.eligible ≡ true = ap (λ (x : WorkerSnapshot F). x.eligible) (sym e) ∙ h in
      rw (same_id w v e, there) refl
  count-mark_out w (v ∷ vs) (inr m) h d =
      rw (All-Among (λ u. bytes_beq v.worker_id u.worker_id ≡ false) w vs d.0 m)
        (ground (arith, count-mark_out w vs m h d.1))

  mark_out-Other :
      (id other : Bytes) (ws : List (WorkerSnapshot F))
      → All (λ v. bytes_beq other v.worker_id ≡ false) ws
      → All (λ v. bytes_beq other v.worker_id ≡ false) (mark_out id ws)
  unfolding mark_out
  mark_out-Other id other [] a = tt
  mark_out-Other id other (w ∷ ws) a =
      if_either (All (λ (v : WorkerSnapshot F). bytes_beq other v.worker_id ≡ false))
        (bytes_beq w.worker_id id) (λ t. (a.0, a.1)) (λ f. (a.0, mark_out-Other id other ws a.1))

  mark_out-Distinct :
      (id : Bytes) (ws : List (WorkerSnapshot F)) → Distinct ws → Distinct (mark_out id ws)
  unfolding mark_out
  mark_out-Distinct id [] d = tt
  mark_out-Distinct id (w ∷ ws) d =
      if_either Distinct (bytes_beq w.worker_id id) (λ t. (d.0, d.1))
        (λ f. (mark_out-Other id w.worker_id ws d.0, mark_out-Distinct id ws d.1))

  mark_out-Among :
      (id : Bytes) (ws : List (WorkerSnapshot F)) (u : WorkerSnapshot F)
      → Among u (mark_out id ws)
      → u.eligible ≡ true
      → Among u ws
  unfolding mark_out
  mark_out-Among id [] u m h = elim m [ ]
  mark_out-Among id (w ∷ ws) u m h =
      if_either (λ (xs : List (WorkerSnapshot F)). Among u xs → Among u (w ∷ ws))
        (bytes_beq w.worker_id id)
        (λ t n. elim n [
          | inl e ↦ absurd (false≢true (sym (ap (λ (x : WorkerSnapshot F). x.eligible) e) ∙ h))
          | inr later ↦ inr later
        ])
        (λ f n. elim n [ inl e ↦ inl e | inr later ↦ inr (mark_out-Among id ws u later h) ]) m

  pub room-eligible :
      (model : Bytes) (w : WorkerSnapshot F) → has_room model w ≡ true → w.eligible ≡ true
  room-eligible model w h = ground arith

  -- Whose slot was taken, where one was: the router counts one request more on that worker, which had room.
  abbrev pub Outcome :
      Assoc Bytes ℕ → Bytes → List (WorkerSnapshot F) → Router F × Option (Reserved F) → Type 0
  Outcome inflight model ws (r, none) = ⊥
  Outcome inflight model ws (r, some (taken w t)) =
      (r.inflight ≡ insert w.worker_id (local_load inflight w.worker_id + 1) inflight)
      × ((u : WorkerSnapshot F) × Fits model ws u × SameWorker u w)
  Outcome inflight model ws (r, some (queued n)) = r.inflight ≡ inflight
  Outcome inflight model ws (r, some (refused why)) = r.inflight ≡ inflight

  abbrev Chosen : Bytes → List (WorkerSnapshot F) → Selection F → Type 0
  Chosen model ws cancelled = Unit
  Chosen model ws (no_worker why) = Unit
  Chosen model ws (chosen v) = (w : WorkerSnapshot F) × Fits model ws w × SameWorker w v

  selection-Chosen :
      (model : Bytes) (ws : List (WorkerSnapshot F)) (x : Selection F)
      → Answers model ws x
      → Chosen model ws x
  selection-Chosen model ws cancelled a = tt
  selection-Chosen model ws (no_worker why) a = tt
  selection-Chosen model ws (chosen v) a = a

module _ (fl : Float64) where
  open fl use {Float}

  select_worker-Chosen :
      (s : Scheduler Float) (intn : ℕ → ℕ) (done : Bool) (req : InferenceRequest Float)
      (ws : List (WorkerSnapshot Float))
      → Chosen req.model ws (select_worker fl s intn done req ws).1
  unfolding select_worker
  select_worker-Chosen s intn true req ws = tt
  select_worker-Chosen s intn false req ws =
      selection-Chosen req.model ws _ (select_worker-Answers fl s intn req ws)

  pub enqueued-Outcome :
      (model : Bytes) (ws : List (WorkerSnapshot Float)) (r : Router Float) (n : ℕ) (e : RouteError)
      (x : Queue Float (Routed Float) × Option QueueError)
      → Outcome r.inflight model ws ((enqueued fl r n e x).0, some ((enqueued fl r n e x).1))
  enqueued-Outcome model ws r n e (q, none) = refl
  enqueued-Outcome model ws r n e (q, some no_queue) = refl
  enqueued-Outcome model ws r n e (q, some queue_full) = refl
  enqueued-Outcome model ws r n e (q, some tenant_share) = refl
  enqueued-Outcome model ws r n e (q, some draining) = refl

  wait_or_refuse-Outcome :
      (model : Bytes) (ws : List (WorkerSnapshot Float)) (r : Router Float) (now : ℕ)
      (wait : Option Bytes) (e : RouteError)
      → Outcome r.inflight model ws (wait_or_refuse fl r now model wait e)
  unfolding enqueue_locked
  wait_or_refuse-Outcome model ws r now none e = refl
  wait_or_refuse-Outcome model ws r now (some tenant) e =
      if_either (Outcome r.inflight model ws) (is_full_error e)
        (λ t. enqueued-Outcome model ws r _ e (enqueue fl r.waitq now model tenant)) (λ f. refl)

  nobody-Outcome :
      (model : Bytes) (ws : List (WorkerSnapshot Float)) (r : Router Float) (now : ℕ)
      (degraded : Bool) (broke : ℕ) (wait : Option Bytes) (why : NoWorkerError)
      → Outcome r.inflight model ws (nobody fl r now model degraded broke wait why)
  unfolding nobody
  nobody-Outcome model ws r now degraded broke wait why =
      if_either (Outcome r.inflight model ws) (unknown_model why) (λ t. refl)
        (λ f.
          if_either (Outcome r.inflight model ws) degraded (λ t. refl)
            (λ g.
              if_either (Outcome r.inflight model ws)
                (r.has_res && ltb 0 broke && nat_beq why.eligible 0)
                (λ t.
                  wait_or_refuse-Outcome model ws
                    (record r { breakers = (retry_after r.breakers now).0.0 }) now wait _)
                (λ h. wait_or_refuse-Outcome model ws r now wait _)))

  -- Eligible workers of the list are workers of the other one.
  abbrev pub Covers : List (WorkerSnapshot Float) → List (WorkerSnapshot Float) → Type 0
  Covers ws vs = (u : WorkerSnapshot Float) → Among u vs → u.eligible ≡ true → Among u ws

  module _ (inflight : Assoc Bytes ℕ) (model : Bytes) (ws : List (WorkerSnapshot Float)) where
    take_slot-Outcome :
        (r : Router Float) (vs : List (WorkerSnapshot Float)) (v : WorkerSnapshot Float)
        (t : Ticket)
        → r.inflight ≡ inflight
        → Covers ws vs
        → Chosen model vs (chosen v)
        → Outcome inflight model ws (take_slot r v t)
    take_slot-Outcome r vs v t e c (w, (m, h), s) = (
      ap (λ (m : Assoc Bytes ℕ). insert v.worker_id (local_load m v.worker_id + 1) m) e,
      (w, (c w m (room-eligible model w h), h), s),
    )

    reserve_turn-Outcome :
        (again : Router Float
          → List (WorkerSnapshot Float)
          → ℕ
          → Router Float × Option (Reserved Float))
        (r : Router Float) (now : ℕ) (degraded : Bool) (broke : ℕ) (wait : Option Bytes)
        (vs : List (WorkerSnapshot Float)) (x : Selection Float)
        → r.inflight ≡ inflight
        → Covers ws vs
        → Distinct vs
        → ((r' : Router Float) (vs' : List (WorkerSnapshot Float)) (n : ℕ)
            → r'.inflight ≡ inflight
            → Covers ws vs'
            → Distinct vs'
            → suc (count offered vs') ≡ count offered vs
            → Outcome inflight model ws (again r' vs' n))
        → Chosen model vs x
        → Outcome inflight model ws (reserve_turn fl again r now model degraded broke wait vs x)
    reserve_turn-Outcome again r now degraded broke wait vs cancelled e c d go k = e
    reserve_turn-Outcome again r now degraded broke wait vs (no_worker why) e c d go k =
        subst (λ m. Outcome m model ws (nobody fl r now model degraded broke wait why)) e
          (nobody-Outcome model ws r now degraded broke wait why)
    reserve_turn-Outcome again r now degraded broke wait vs (chosen v) e c d go (w, (m, h), s) =
        let bs = (acquire r.breakers now (key_of v)).0.0 in
        let offers_it = room-eligible model w h in
        let id : v.worker_id ≡ w.worker_id = ap (λ (x : WorkerSnapshot Float). x.worker_id) s in
        if_either (Outcome inflight model ws) (not r.has_res)
          (λ t. take_slot-Outcome r vs v no_ticket e c (w, (m, h), s))
          (λ f.
            if_either (Outcome inflight model ws) (acquire r.breakers now (key_of v)).1.1
              (λ t.
                take_slot-Outcome (record r { breakers = bs }) vs v
                  (acquire r.breakers now (key_of v)).1.0 e c (w, (m, h), s))
              (λ g.
                go (record r { breakers = bs }) (mark_out v.worker_id vs) (broke + 1) e
                  (λ u n o. c u (mark_out-Among v.worker_id vs u n o) o)
                  (mark_out-Distinct v.worker_id vs d)
                  (ap (λ i. suc (count offered (mark_out i vs))) id
                    ∙ count-mark_out w vs m offers_it d)))

  pub reserve_loop-Outcome :
      (inflight : Assoc Bytes ℕ) (ws : List (WorkerSnapshot Float)) (fuel : ℕ) (intn : ℕ → ℕ → ℕ)
      (done degraded : Bool) (req : InferenceRequest Float) (now : ℕ) (wait : Option Bytes)
      (r : Router Float) (vs : List (WorkerSnapshot Float)) (broke : ℕ)
      → r.inflight ≡ inflight
      → Covers ws vs
      → Distinct vs
      → count offered vs < fuel
      → Outcome inflight req.model ws
          (reserve_loop fl fuel intn done degraded req now wait r vs broke)
  unfolding reserve_loop
  reserve_loop-Outcome inflight ws zero intn done degraded req now wait r vs broke e c d h =
      absurd (omega (arith, h))
  reserve_loop-Outcome inflight ws (suc fuel) intn done degraded req now wait r vs broke e c d h =
      reserve_turn-Outcome inflight req.model ws
        (λ r' ws' broke'. reserve_loop fl fuel intn done degraded req now wait r' ws' broke')
        (record r { sched = (select_worker fl r.sched (intn broke) done req vs).0 }) now degraded
        broke wait vs (select_worker fl r.sched (intn broke) done req vs).1 e c d
        (λ r' vs' n e' c' d' fewer.
          reserve_loop-Outcome inflight ws fuel intn done degraded req now wait r' vs' n e' c' d'
            (omega (arith, fewer, h)))
        (select_worker-Chosen r.sched (intn broke) done req vs)
