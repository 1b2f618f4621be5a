-- ===== src/Resilience/Breakers/Runs.antt =====
-- Sequences of calls of internal/resilience/breakers.go.
use server_flow.Prelude.{
  ℕ, zero, suc, ◌+◌, ◌≤◌, ◌≡◌, refl, sym, ap, ◌∙◌, inl, inr, Bool, true, false, ◌&&◌, not, none,
  List, [], ◌∷◌, leb, nat_beq, nat_eq, arith, if◌then◌else◌, All, Bool-cases, Option-cases, length,
}
use server_flow.Prelude.Bytes.{Bytes, bytes_eq}
use server_flow.Prelude.Assoc.{
  Assoc, lookup, insert, delete, Unique, insert-Unique, insert-All, keep-Unique, keep-All,
}
use server_flow.Prelude.Float.{Float64}
use server_flow.Resilience.Breaker.{
  Breaker, BreakerParams, Key, State, closed, half_open, opened, Verdict, fault, is_half_open,
  probe_free, Change,
}
use server_flow.Resilience.Breakers.{
  Breakers, Ticket, Member, put, emit, find, count_models, or_zero, victim, max_open,
  recount_eligible, enforce_cap, enforce_model, enforce_models, close_victim, new_breakers,
  normalize,
}
use server_flow.Resilience.Breakers.Calls.{
  sync, sync_members, prune, admissible, acquire, acquire_from, release, record_verdict,
  record_late, record_abort, known_id, known_key, or_new, is_fault,
}
use server_flow.Resilience.Breakers.Cap.{
  OwnId, ejected, eligibles, enforce_cap_lem, lookup-count_models,
}
use server_flow.Resilience.Breakers.Invariant.{Inv}
use server_flow.Resilience.Breakers.Capped.{
  At, unlock-Inv, find-At, put-At, Same-Kept, advance_locked-At, record_locked-Inv, late_locked-Inv,
  abort_locked-Inv,
}

-- A call with its arguments, its clock reading and its random number.
pub data Call (F : Type 0) : Type 0 where
  sync_call : (now : ℕ) (members : List Member) → Call F
  prune_call : (now : ℕ) (keys : List Key) → Call F
  admissible_call : (now : ℕ) (k : Key) → Call F
  acquire_call : (now : ℕ) (k : Key) → Call F
  release_call : (t : Ticket) → Call F
  record_call : (now : ℕ) (t : Ticket) (v : Verdict) (rnd : F) → Call F
  late_call : (now : ℕ) (t : Ticket) (v : Verdict) (rnd : F) → Call F
  abort_call : (now : ℕ) (t : Ticket) (ok_at : ℕ) (rnd : F) → Call F

module _ (fl : Float64) where
  open fl use {Float}

  abbrev pub apply : Breakers Float → Call Float → Breakers Float
  apply bs (sync_call now members) = (sync fl bs now members).0
  apply bs (prune_call now keys) = (prune fl bs now keys).0
  apply bs (admissible_call now k) = (admissible bs now k).0.0
  apply bs (acquire_call now k) = (acquire bs now k).0.0
  apply bs (release_call t) = (release bs t).0
  apply bs (record_call now t v rnd) = (record_verdict fl bs now t v rnd).0
  apply bs (late_call now t v rnd) = (record_late fl bs now t v rnd).0
  apply bs (abort_call now t ok_at rnd) = (record_abort fl bs now t ok_at rnd).0

  unfoldable pub run : Breakers Float → List (Call Float) → Breakers Float
  run bs [] = bs
  run bs (c ∷ cs) = run (apply bs c) cs

  -- What enforceCap does not write.
  abbrev Frame : Breakers Float → Breakers Float → Type 0
  Frame bs bs' = (bs'.params ≡ bs.params) × (bs'.eligible_by ≡ bs.eligible_by)

  enforce_model-Frame :
      (fuel : ℕ) (bs : Breakers Float) (model : Bytes) (limit now : ℕ)
      → Frame bs (enforce_model fl fuel bs model limit now)
  unfolding enforce_model close_victim put emit
  enforce_model-Frame zero bs model limit now = (refl, refl)
  enforce_model-Frame (suc fuel) bs model limit now =
      elim (Option-cases (victim model bs.by_id none)) [
        | inl e ↦ rw (e, enforce_model) (refl, refl)
        | inr (v, e) ↦
            let rest = enforce_model-Frame fuel (close_victim bs v now) model limit now in
            rw (e, enforce_model)
              (elim (Bool-cases (leb (ejected model bs.by_id) limit)) [
                | inl ok ↦ rw ok (refl, refl)
                | inr over ↦ rw over rest
              ])
      ]

  enforce_models-Frame :
      (models : Assoc Bytes ℕ) (bs : Breakers Float) (now : ℕ)
      → Frame bs (enforce_models fl models bs now)
  unfolding enforce_models
  enforce_models-Frame [] bs now = (refl, refl)
  enforce_models-Frame ((model, n) ∷ models) bs now =
      let limit = max_open fl bs.params.max_open_fraction n in
      let first = enforce_model-Frame (length bs.by_id) bs model limit now in
      let rest =
        enforce_models-Frame models (enforce_model fl (length bs.by_id) bs model limit now) now in
      (rest.0 ∙ first.0, rest.1 ∙ first.1)

  module _ (f : Float) where
    -- A recount followed by enforceCap leaves the cap kept, whatever was written before.
    recounted-Inv :
        (bs : Breakers Float) (now : ℕ)
        → Unique bs.by_id
        → All OwnId bs.by_id
        → bs.params.max_open_fraction ≡ f
        → Inv fl f (enforce_cap fl (recount_eligible bs) now)
    unfolding recount_eligible enforce_cap
    recounted-Inv bs now u o p =
        let (low, capped) = enforce_cap_lem fl (recount_eligible bs) now u o refl in
        let (params, by) = enforce_models-Frame (count_models bs.by_id) (recount_eligible bs) now in
        record {
          unique = low.unique;
          own = low.own;
          counted = λ model.
              ap (λ m. or_zero (lookup model m)) by
              ∙ lookup-count_models model bs.by_id
              ∙ sym (low.same model);
          fraction = ap (λ q. q.max_open_fraction) params ∙ p;
          capped = λ model. rw (← p) (capped model);
        }

    sync_members-keeps :
        (ms : List Member) (bs : Breakers Float)
        → Unique bs.by_id
        → All OwnId bs.by_id
        → Unique (sync_members ms bs).by_id
          × All OwnId (sync_members ms bs).by_id
          × ((sync_members ms bs).params ≡ bs.params)
    unfolding sync_members put
    sync_members-keeps [] bs u o = (u, o, refl)
    sync_members-keeps (m ∷ ms) bs u o =
        let b : Breaker = record (or_new (find bs m.key) m.key bs.params) {
          eligible = m.eligible;
          model = m.model;
        } in
        sync_members-keeps ms (put bs b) (insert-Unique b.key.id b bs.by_id u)
          (insert-All OwnId b.key.id b bs.by_id o refl)

    sync-Inv :
        (bs : Breakers Float) (now : ℕ) (ms : List Member)
        → Inv fl f bs
        → Inv fl f (sync fl bs now ms).0
    unfolding sync
    sync-Inv bs now ms v =
        let (u, o, p) = sync_members-keeps ms bs v.unique v.own in
        let all = (sync_members ms bs).by_id in
        unlock-Inv fl f _ (
          recounted-Inv _ now (keep-Unique (known_id ms) all u) (keep-All OwnId (known_id ms) all o)
            (ap (λ q. q.max_open_fraction) p ∙ v.fraction))

    prune-Inv :
        (bs : Breakers Float) (now : ℕ) (ks : List Key)
        → Inv fl f bs
        → Inv fl f (prune fl bs now ks).0
    unfolding prune
    prune-Inv bs now ks v = unlock-Inv fl f _ (
        recounted-Inv _ now (keep-Unique (known_key ks) bs.by_id v.unique)
          (keep-All OwnId (known_key ks) bs.by_id v.own) v.fraction)

    admissible-Inv :
        (bs : Breakers Float) (now : ℕ) (k : Key) → Inv fl f bs → Inv fl f (admissible bs now k).0.0
    unfolding admissible
    admissible-Inv bs now k v = elim (Option-cases (find bs k)) [
      | inl e ↦ rw (e, admissible) (unlock-Inv fl f bs v)
      | inr (b, e) ↦
          let a = advance_locked-At fl f bs b now (find-At fl f bs k b e v) in
          rw (e, admissible) (unlock-Inv fl f _ a.inv)
    ]

    acquire_from-Inv :
        (s : State) (bs : Breakers Float) (b : Breaker) (k : Key) (now : ℕ)
        → At fl f bs b
        → Inv fl f (acquire_from s bs b k now).0.0
    unfolding acquire_from
    acquire_from-Inv closed bs b k now a = unlock-Inv fl f bs a.inv
    acquire_from-Inv half_open bs b k now a = elim (Bool-cases (probe_free b bs.params)) [
      | inl free ↦
          rw (free, acquire_from)
            (unlock-Inv fl f _
              (put-At fl f bs b b' a (
                Same-Kept fl f bs b b'
                  (record { key = refl; model = refl; eligible = refl; state = refl }))).inv)
      | inr full ↦ rw (full, acquire_from) (unlock-Inv fl f bs a.inv)
    ]
      where
        b' : Breaker
        b' = record b { next_id = b.next_id + 1; tickets = insert (b.next_id + 1) now b.tickets }
    acquire_from-Inv opened bs b k now a = unlock-Inv fl f bs a.inv

    acquire-Inv :
        (bs : Breakers Float) (now : ℕ) (k : Key) → Inv fl f bs → Inv fl f (acquire bs now k).0.0
    unfolding acquire
    acquire-Inv bs now k v = elim (Option-cases (find bs k)) [
      | inl e ↦ rw (e, acquire) (unlock-Inv fl f bs v)
      | inr (b, e) ↦
          let a = advance_locked-At fl f bs b now (find-At fl f bs k b e v) in
          rw (e, acquire) (acquire_from-Inv _ _ _ k now a)
    ]

    -- The state of a call that hands out its changes or returns at once.
    first-Inv :
        (c : Bool) (x y : Breakers Float × List Change)
        → Inv fl f x.0
        → Inv fl f y.0
        → Inv fl f (if c then x else y).0
    first-Inv true x y v w = v
    first-Inv false x y v w = w

    release-Inv : (bs : Breakers Float) (t : Ticket) → Inv fl f bs → Inv fl f (release bs t).0
    unfolding release
    release-Inv bs t v = elim (Option-cases (find bs t.key)) [
      | inl e ↦ rw (e, release) (first-Inv t.probe _ _ (unlock-Inv fl f bs v) v)
      | inr (b, e) ↦
          let b' : Breaker = record b { tickets = delete t.id b.tickets } in
          let a = put-At fl f bs b b' (find-At fl f bs t.key b e v) (
            Same-Kept fl f bs b b'
              (record { key = refl; model = refl; eligible = refl; state = refl })) in
          rw (e, release)
            (first-Inv t.probe _ _
              (first-Inv (is_half_open b.state && nat_beq b.epoch t.epoch) _ _
                (unlock-Inv fl f _ a.inv) (unlock-Inv fl f bs v))
              v)
    ]

    record_verdict-Inv :
        (bs : Breakers Float) (now : ℕ) (t : Ticket) (v : Verdict) (rnd : Float)
        → Inv fl f bs
        → Inv fl f (record_verdict fl bs now t v rnd).0
    unfolding record_verdict
    record_verdict-Inv bs now t v rnd i = elim (Option-cases (find bs t.key)) [
      | inl e ↦ rw (e, record_verdict) (first-Inv t.valid _ _ (unlock-Inv fl f bs i) i)
      | inr (b, e) ↦
          let a = advance_locked-At fl f bs b now (find-At fl f bs t.key b e i) in
          let r = record_locked-Inv fl f _ _ now t v rnd a in
          rw (e, record_verdict) (first-Inv t.valid _ _ (unlock-Inv fl f _ r) i)
    ]

    record_late-Inv :
        (bs : Breakers Float) (now : ℕ) (t : Ticket) (v : Verdict) (rnd : Float)
        → Inv fl f bs
        → Inv fl f (record_late fl bs now t v rnd).0
    unfolding record_late
    record_late-Inv bs now t v rnd i = elim (Option-cases (find bs t.key)) [
      | inl e ↦ rw (e, record_late) (first-Inv (t.valid && is_fault v) _ _ (unlock-Inv fl f bs i) i)
      | inr (b, e) ↦
          let a = advance_locked-At fl f bs b now (find-At fl f bs t.key b e i) in
          let r = late_locked-Inv fl f _ _ now t v rnd a in
          rw (e, record_late) (first-Inv (t.valid && is_fault v) _ _ (unlock-Inv fl f _ r) i)
    ]

    record_abort-Inv :
        (bs : Breakers Float) (now : ℕ) (t : Ticket) (ok_at : ℕ) (rnd : Float)
        → Inv fl f bs
        → Inv fl f (record_abort fl bs now t ok_at rnd).0
    unfolding record_abort
    record_abort-Inv bs now t ok_at rnd i = elim (Option-cases (find bs t.key)) [
      | inl e ↦ rw (e, record_abort) (first-Inv t.valid _ _ (unlock-Inv fl f bs i) i)
      | inr (b, e) ↦
          let a = advance_locked-At fl f bs b now (find-At fl f bs t.key b e i) in
          let r = abort_locked-Inv fl f _ _ now t ok_at rnd a in
          let late = record_late-Inv bs now t fault rnd i in
          rw (e, record_abort)
            (first-Inv (not t.valid) _ _ i (first-Inv t.probe _ _ late (unlock-Inv fl f _ r)))
    ]

    apply-Inv : (bs : Breakers Float) (c : Call Float) → Inv fl f bs → Inv fl f (apply bs c)
    apply-Inv bs (sync_call now members) v = sync-Inv bs now members v
    apply-Inv bs (prune_call now keys) v = prune-Inv bs now keys v
    apply-Inv bs (admissible_call now k) v = admissible-Inv bs now k v
    apply-Inv bs (acquire_call now k) v = acquire-Inv bs now k v
    apply-Inv bs (release_call t) v = release-Inv bs t v
    apply-Inv bs (record_call now t w rnd) v = record_verdict-Inv bs now t w rnd v
    apply-Inv bs (late_call now t w rnd) v = record_late-Inv bs now t w rnd v
    apply-Inv bs (abort_call now t ok_at rnd) v = record_abort-Inv bs now t ok_at rnd v

    pub run-Inv :
        (bs : Breakers Float) (cs : List (Call Float)) → Inv fl f bs → Inv fl f (run bs cs)
    unfolding run
    run-Inv bs [] v = v
    run-Inv bs (c ∷ cs) v = run-Inv (apply bs c) cs (apply-Inv bs c v)

  pub new_breakers-Inv : (p : BreakerParams Float) → Inv fl p.max_open_fraction (new_breakers p)
  unfolding new_breakers normalize
  new_breakers-Inv p = record {
    unique = tt;
    own = tt;
    counted = λ model. unfold lookup in refl;
    fraction = refl;
    capped = λ model. omega arith;
  }

  -- Whatever calls have been made on new breakers, with any clock readings, random numbers, member lists and
  -- (also stale) tickets: of each model's eligible workers no more have an open or a half-open breaker than the
  -- cap that the configured fraction gives for their number.
  pub ejections-capped :
      (p : BreakerParams Float) (cs : List (Call Float)) (model : Bytes)
      → let bs = run (new_breakers p) cs in
        ejected model bs.by_id ≤ max_open fl p.max_open_fraction (eligibles model bs.by_id)
  ejections-capped p cs model =
      (run-Inv p.max_open_fraction (new_breakers p) cs (new_breakers-Inv p)).capped model
