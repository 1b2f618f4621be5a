-- ===== src/Resilience/Breakers/Calls.antt =====
-- The calls of internal/resilience/breakers.go. Each returns the new state with the changes handed to the
-- hook, beside its result.
use server_flow.Prelude.{
  ℕ, ◌+◌, Bool, true, false, ◌&&◌, ◌||◌, not, Option, none, some, List, [], ◌∷◌, leb, nat_beq,
  nat_eq, if◌then◌else◌, keep,
}
use server_flow.Prelude.Bytes.{Bytes, bytes_eq, bytes_beq}
use server_flow.Prelude.Assoc.{lookup, insert, delete}
use server_flow.Prelude.Int.{negsuc}
use server_flow.Prelude.Float.{Float64}
use server_flow.Resilience.Window.{first, add}
use server_flow.Resilience.Breaker.{
  State, closed, half_open, opened, Verdict, neutral, ok, fault, ratio_fault, Reason, probe_failed,
  probes_passed, suppressed, BreakerParams, Key, Change, Breaker, is_closed, is_half_open,
  new_breaker, probe_free, record_closed, open_breaker, close_breaker,
}
use server_flow.Resilience.Breakers.{
  Breakers, Member, Ticket, no_ticket, find, put, emit, unlock, recount_eligible, advance_locked,
  room_to_open, enforce_cap, key_beq,
}

-- What a call gives back: the state, the changes for the hook, and the result.
abbrev pub Returns {ℓ} : Type 0 → Type ℓ → Type ℓ
Returns F A = (Breakers F × List Change) × A

abbrev pub known_id : List Member → Bytes × Breaker → Bool
known_id [] (id, b) = false
known_id (m ∷ ms) (id, b) = bytes_beq m.key.id id || known_id ms (id, b)

abbrev pub known_key : List Key → Bytes × Breaker → Bool
known_key [] (id, b) = false
known_key (k ∷ ks) (id, b) = key_beq b.key k || known_key ks (id, b)

abbrev pub or_new : {F : Type 0} → Option Breaker → Key → BreakerParams F → Breaker
or_new none k p = new_breaker k p
or_new (some b) k p = b

-- The first loop of Sync.
unfoldable pub sync_members : {F : Type 0} → List Member → Breakers F → Breakers F
sync_members [] bs = bs
sync_members (m ∷ ms) bs = sync_members ms (
    put bs
      (record (or_new (find bs m.key) m.key bs.params) { eligible = m.eligible; model = m.model }))

unfoldable pub admissible : {F : Type 0} → Breakers F → ℕ → Key → Returns F Bool
admissible bs now k = elim (find bs k) [
  | none ↦ (unlock bs, true)
  | some b ↦
      let (bs', b') = advance_locked bs b now in
      (unlock bs', is_closed b'.state || probe_free b' bs.params)
]

-- Acquire's switch on the state.
unfoldable pub acquire_from :
    {F : Type 0} → State → Breakers F → Breaker → Key → ℕ → Returns F (Ticket × Bool)
acquire_from closed bs b k now =
    (unlock bs, (record { key = k; id = 0; epoch = b.epoch; probe = false; valid = true }, true))
acquire_from half_open bs b k now =
    if not (probe_free b bs.params) then (unlock bs, (no_ticket, false)) else (
      unlock (
          put bs
            (record b { next_id = b.next_id + 1; tickets = insert (b.next_id + 1) now b.tickets })),
      (record { key = k; id = b.next_id + 1; epoch = b.epoch; probe = true; valid = true }, true),
    )
acquire_from opened bs b k now = (unlock bs, (no_ticket, false))

unfoldable pub acquire : {F : Type 0} → Breakers F → ℕ → Key → Returns F (Ticket × Bool)
acquire bs now k = elim (find bs k) [
  | none ↦ (unlock bs, (record { key = k; id = 0; epoch = 0; probe = false; valid = true }, true))
  | some b ↦ let (bs', b') = advance_locked bs b now in acquire_from b'.state bs' b' k now
]

unfoldable pub release : {F : Type 0} → Breakers F → Ticket → Breakers F × List Change
release bs t = elim (find bs t.key) [
  | none ↦ if t.probe then unlock bs else (bs, [])
  | some b ↦
      if t.probe
      then (if is_half_open b.state && nat_beq b.epoch t.epoch
          then unlock (put bs (record b { tickets = delete t.id b.tickets }))
          else unlock bs)
      else (bs, [])
]

abbrev pub is_neutral : Verdict → Bool
is_neutral neutral = true
is_neutral _ = false

abbrev pub is_fault : Verdict → Bool
is_fault fault = true
is_fault ratio_fault = true
is_fault _ = false

abbrev pub held_ticket : Option ℕ → Bool
held_ticket none = false
held_ticket (some at) = true

module _ (fl : Float64) where
  open fl use {Float}

  unfoldable pub sync : Breakers Float → ℕ → List Member → Breakers Float × List Change
  sync bs now members =
      let bs' = sync_members members bs in
      unlock (
        enforce_cap fl (recount_eligible (record bs' { by_id = keep (known_id members) bs'.by_id }))
          now)

  unfoldable pub prune : Breakers Float → ℕ → List Key → Breakers Float × List Change
  prune bs now keys =
      unlock (
        enforce_cap fl (recount_eligible (record bs { by_id = keep (known_key keys) bs.by_id }))
          now)

  -- A half-open breaker whose probe failed.
  unfoldable pub reopen : Breakers Float → Breaker → ℕ → Float → Breakers Float
  reopen bs b now rnd =
      let b' = open_breaker fl b now true bs.params rnd in
      emit (put bs b') (record {
        key = b.key;
        from = half_open;
        to = opened;
        reason = probe_failed;
        failures = 0;
        cool_down = b'.cool_down;
        suppressed = false;
      })

  -- The trip at the end of countClosed, for a breaker that has counted the outcome.
  unfoldable pub trip : Breakers Float → Breaker → ℕ → Option (Reason × ℕ) → Float → Breakers Float
  trip bs b now none rnd = put bs (record b { suppressed = false })
  trip bs b now (some (reason, failures)) rnd =
      let held = record (put bs (record b { suppressed = true })) {
        suppressed = bs.suppressed + 1;
      } in
      let b' = open_breaker fl b now false bs.params rnd in
      if not (room_to_open fl bs b)
      then (if b.suppressed
          then put bs b
          else emit held (record {
            key = b.key;
            from = closed;
            to = closed;
            reason = suppressed;
            failures = failures;
            cool_down = 0;
            suppressed = true;
          }))
      else emit (put bs b') (record {
        key = b.key;
        from = closed;
        to = opened;
        reason = reason;
        failures = failures;
        cool_down = b'.cool_down;
        suppressed = false;
      })

  unfoldable pub count_closed : Breakers Float → Breaker → ℕ → Verdict → Float → Breakers Float
  count_closed bs b now v rnd =
      let (b', why) = record_closed fl b now v bs.params in
      if not (is_closed b.state) || is_neutral v then bs else trip bs b' now why rnd

  -- recordLocked's switch on the verdict of a probe whose ticket is current.
  unfoldable pub record_probe : Breakers Float → Breaker → ℕ → Verdict → Float → Breakers Float
  record_probe bs b now neutral rnd = put bs b
  record_probe bs b now ok rnd =
      let b' = record b { successes = b.successes + 1 } in
      if leb bs.params.probe_successes b'.successes
      then emit (put bs (close_breaker b' now)) (record {
        key = b.key;
        from = half_open;
        to = closed;
        reason = probes_passed;
        failures = 0;
        cool_down = 0;
        suppressed = false;
      })
      else put bs b'
  record_probe bs b now fault rnd = reopen bs b now rnd
  record_probe bs b now ratio_fault rnd = reopen bs b now rnd

  -- recordLocked, for the breaker after its lazy transitions.
  unfoldable pub record_locked :
      Breakers Float → Breaker → ℕ → Ticket → Verdict → Float → Breakers Float
  record_locked bs b now t v rnd =
      if t.probe
      then (if not (is_half_open b.state)
            || not (nat_beq b.epoch t.epoch)
            || not (held_ticket (lookup t.id b.tickets))
          then bs
          else record_probe bs (record b { tickets = delete t.id b.tickets }) now v rnd)
      else if not (nat_beq b.epoch t.epoch)
      then bs
      else count_closed bs b now v rnd

  unfoldable pub record_verdict :
      Breakers Float → ℕ → Ticket → Verdict → Float → Breakers Float × List Change
  record_verdict bs now t v rnd = elim (find bs t.key) [
    | none ↦ if t.valid then unlock bs else (bs, [])
    | some b ↦
        let (bs', b') = advance_locked bs b now in
        if t.valid then unlock (record_locked bs' b' now t v rnd) else (bs, [])
  ]

  unfoldable pub late_locked :
      Breakers Float → Breaker → ℕ → Ticket → Verdict → Float → Breakers Float
  late_locked bs b now t v rnd =
      if not (nat_beq b.epoch t.epoch)
      then bs
      else if t.probe && is_half_open b.state
      then reopen bs b now rnd
      else count_closed bs b now v rnd

  unfoldable pub record_late :
      Breakers Float → ℕ → Ticket → Verdict → Float → Breakers Float × List Change
  record_late bs now t v rnd = elim (find bs t.key) [
    | none ↦ if t.valid && is_fault v then unlock bs else (bs, [])
    | some b ↦
        let (bs', b') = advance_locked bs b now in
        if t.valid && is_fault v then unlock (late_locked bs' b' now t v rnd) else (bs, [])
  ]

  unfoldable pub abort_locked : Breakers Float → Breaker → ℕ → Ticket → ℕ → Float → Breakers Float
  abort_locked bs b now t ok_at rnd =
      if not (nat_beq b.epoch t.epoch) || not (is_closed b.state)
      then bs
      else count_closed bs (record b { win = add b.win ok_at now first (negsuc 0) }) now fault rnd

  unfoldable pub record_abort :
      Breakers Float → ℕ → Ticket → ℕ → Float → Breakers Float × List Change
  record_abort bs now t ok_at rnd = elim (find bs t.key) [
    | none ↦ if t.valid then unlock bs else (bs, [])
    | some b ↦
        let (bs', b') = advance_locked bs b now in
        if not t.valid
        then (bs, [])
        else if t.probe
        then record_late bs now t fault rnd
        else unlock (abort_locked bs' b' now t ok_at rnd)
  ]
