-- ===== src/Resilience/Breakers/Capped.antt =====
-- The internal steps of internal/resilience/breakers.go and the ejection cap.
use server_flow.Prelude.{
  ℕ, ◌+◌, ◌≡◌, refl, ap, ◌∙◌, ◌⊎◌, inl, inr, Bool, true, false, ◌&&◌, ◌||◌, not, Option, none, some,
  leb, nat_beq, nat_eq, arith, if◌then◌else◌, Bool-cases, Option-cases,
}
use server_flow.Prelude.Bytes.{bytes_eq, bytes_beq_iff}
use server_flow.Prelude.Assoc.{lookup, delete, lookup-insert, none≢some}
use server_flow.Prelude.Float.{Float64}
use server_flow.Resilience.Breaker.{
  Breaker, BreakerParams, Key, Verdict, neutral, ok, fault, ratio_fault, Reason, is_closed,
  is_half_open, close_breaker, open_breaker, advance, half_opens, drop_lost, Change, count_outcome,
  record_closed,
}
use server_flow.Resilience.Breakers.{
  Breakers, Ticket, put, emit, find, key_beq, emit_moved, advance_locked, room_to_open, unlock,
}
use server_flow.Resilience.Breakers.Calls.{
  reopen, trip, count_closed, record_probe, record_locked, late_locked, abort_locked, is_neutral,
  held_ticket,
}
use server_flow.Resilience.Breakers.Invariant.{Inv, Kept, put-Inv}

-- The same breaker as far as the cap reads it.
pub record Same (b b' : Breaker) : Type 0 where
  pub key : b'.key ≡ b.key
  pub model : b'.model ≡ b.model
  pub eligible : b'.eligible ≡ b.eligible
  pub state : b'.state ≡ b.state

module _ (fl : Float64) (f : fl.Float) where
  open fl use {Float}

  -- The state's invariant, and a breaker that is stored in it.
  pub record At (bs : Breakers Float) (b : Breaker) : Type 0 where
    pub inv : Inv fl f bs
    pub here : lookup b.key.id bs.by_id ≡ some b

  moved-Inv :
      (bs bs' : Breakers Float)
      → bs'.by_id ≡ bs.by_id
      → bs'.eligible_by ≡ bs.eligible_by
      → bs'.params ≡ bs.params
      → Inv fl f bs
      → Inv fl f bs'
  moved-Inv bs bs' i e p v = record {
    unique = rw i v.unique;
    own = rw i v.own;
    counted = λ model. rw (i, e) (v.counted model);
    fraction = rw p v.fraction;
    capped = λ model. rw i (v.capped model);
  }

  pub either-Inv :
      (c : Bool) {bs bs' : Breakers Float}
      → Inv fl f bs
      → Inv fl f bs'
      → Inv fl f (if c then bs else bs')
  either-Inv true v w = v
  either-Inv false v w = w

  emit-Inv : (bs : Breakers Float) (c : Change) → Inv fl f bs → Inv fl f (emit bs c)
  unfolding emit
  emit-Inv bs c v = moved-Inv bs (emit bs c) refl refl refl v

  pub unlock-Inv : (bs : Breakers Float) → Inv fl f bs → Inv fl f (unlock bs).0
  unfolding unlock
  unlock-Inv bs v = moved-Inv bs (unlock bs).0 refl refl refl v

  pub find-At :
      (bs : Breakers Float) (k : Key) (b : Breaker) → find bs k ≡ some b → Inv fl f bs → At bs b
  unfolding find
  find-At bs k b h v = record { inv = v; here = stored (Option-cases (lookup k.id bs.by_id)) }
    where
      stored :
          (lookup k.id bs.by_id ≡ none) ⊎ ((c : Breaker) × (lookup k.id bs.by_id ≡ some c))
          → lookup b.key.id bs.by_id ≡ some b
      stored (inl e) = absurd (none≢some (rw (e, find) at h))
      stored (inr (c, e)) = elim (Bool-cases (key_beq c.key k)) [
        | inl same ↦ ground (arith, e, bytes_beq_iff c.key.id k.id, rw (e, find) at h)
        | inr other ↦ absurd (none≢some (rw (e, find, other) at h))
      ]

  pub put-At :
      (bs : Breakers Float) (b b' : Breaker) → At bs b → Kept fl f bs b b' → At (put bs b') b'
  unfolding put
  put-At bs b b' a k = record {
    inv = put-Inv fl f bs b b' a.here k a.inv;
    here =
        lookup-insert b'.key.id b'.key.id b' bs.by_id
        ∙ ground (arith, bytes_beq_iff b'.key.id b'.key.id);
  }

  pub Same-Kept : (bs : Breakers Float) (b b' : Breaker) → Same b b' → Kept fl f bs b b'
  Same-Kept bs b b' s = record {
    key = s.key;
    model = s.model;
    eligible = s.eligible;
    room = elim (Bool-cases (is_closed b.state)) [
      | inl t ↦ inl (ap is_closed s.state ∙ t)
      | inr t ↦ inr (inl t)
    ];
  }

  advance-Kept :
      (bs : Breakers Float) (b : Breaker) (now : ℕ) → Kept fl f bs b (advance b now bs.params).0
  unfolding advance half_opens drop_lost
  advance-Kept bs b now = record {
    key = ground arith;
    model = ground arith;
    eligible = ground arith;
    room = elim (Bool-cases (is_closed b.state)) [
      | inl t ↦ inl (ground arith)
      | inr t ↦ inr (inl t)
    ];
  }

  pub advance_locked-At :
      (bs : Breakers Float) (b : Breaker) (now : ℕ)
      → At bs b
      → let (bs', b') = advance_locked bs b now in At bs' b'
  unfolding advance_locked emit
  advance_locked-At bs b now a = emitted (advance b now bs.params).1
    where
      b' : Breaker
      b' = (advance b now bs.params).0

      stored : At (put bs b') b'
      stored = put-At bs b b' a (advance-Kept bs b now)

      emitted : (c : Option Change) → At (emit_moved (put bs b') c) b'
      emitted none = stored
      emitted (some c) = record { inv = emit-Inv (put bs b') c stored.inv; here = stored.here }

  counted-Same :
      (b : Breaker) (now : ℕ) (v : Verdict) (p : BreakerParams Float)
      → Same b (record_closed fl b now v p).0
  unfolding record_closed count_outcome
  counted-Same b now neutral p = record { key = refl; model = refl; eligible = refl; state = refl }
  counted-Same b now ok p = record { key = refl; model = refl; eligible = refl; state = refl }
  counted-Same b now fault p = record { key = refl; model = refl; eligible = refl; state = refl }
  counted-Same b now ratio_fault p = record {
    key = refl;
    model = refl;
    eligible = refl;
    state = refl;
  }

  -- `b` is the stored `old` after some counting.
  opened-Kept :
      (bs : Breakers Float) (old b : Breaker) (now : ℕ) (rnd : Float)
      → Same old b
      → room_to_open fl bs b ≡ true
      → Kept fl f bs old (open_breaker fl b now false bs.params rnd)
  unfolding open_breaker room_to_open
  opened-Kept bs old b now rnd s h = record {
    key = s.key;
    model = s.model;
    eligible = s.eligible;
    room = inr (inr (rw (← s.model, ← s.eligible) h));
  }

  trip-Inv :
      (bs : Breakers Float) (old b : Breaker) (now : ℕ) (why : Option (Reason × ℕ)) (rnd : Float)
      → At bs old
      → Same old b
      → Inv fl f (trip fl bs b now why rnd)
  unfolding trip
  trip-Inv bs old b now none rnd a s =
      (put-At bs old (record b { suppressed = false }) a
        (Same-Kept bs old (record b { suppressed = false })
          (record { key = s.key; model = s.model; eligible = s.eligible; state = s.state }))).inv
  trip-Inv bs old b now (some (reason, failures)) rnd a s =
      elim (Bool-cases (room_to_open fl bs b)) [
        | inl room ↦
            rw (room, trip)
              (emit-Inv _ _
                (put-At bs old (open_breaker fl b now false bs.params rnd) a
                  (opened-Kept bs old b now rnd s room)).inv)
        | inr full ↦
            rw (full, trip)
              (either-Inv b.suppressed (put-At bs old b a (Same-Kept bs old b s)).inv
                (emit-Inv _ _ held))
      ]
    where
      b' : Breaker
      b' = record b { suppressed = true }

      held : Inv fl f (record (put bs b') { suppressed = bs.suppressed + 1 })
      held =
          moved-Inv (put bs b') _ refl refl refl
            (put-At bs old b' a (
              Same-Kept bs old b' (record {
                key = s.key;
                model = s.model;
                eligible = s.eligible;
                state = s.state;
              }))).inv

  count_closed-Inv :
      (bs : Breakers Float) (old b : Breaker) (now : ℕ) (v : Verdict) (rnd : Float)
      → At bs old
      → Same old b
      → Inv fl f (count_closed fl bs b now v rnd)
  unfolding count_closed
  count_closed-Inv bs old b now v rnd a s =
      let c = counted-Same b now v bs.params in
      let t =
        trip-Inv bs old (record_closed fl b now v bs.params).0 now
          (record_closed fl b now v bs.params).1 rnd a
          (record {
            key = c.key ∙ s.key;
            model = c.model ∙ s.model;
            eligible = c.eligible ∙ s.eligible;
            state = c.state ∙ s.state;
          }) in
      either-Inv (not (is_closed b.state) || is_neutral v) a.inv t

  reopen-Inv :
      (bs : Breakers Float) (old b : Breaker) (now : ℕ) (rnd : Float)
      → At bs old
      → Same old b
      → is_half_open b.state ≡ true
      → Inv fl f (reopen fl bs b now rnd)
  unfolding reopen open_breaker
  reopen-Inv bs old b now rnd a s h =
      emit-Inv _ _ (put-At bs old (open_breaker fl b now true bs.params rnd) a kept).inv
    where
      kept : Kept fl f bs old (open_breaker fl b now true bs.params rnd)
      kept = record {
        key = s.key;
        model = s.model;
        eligible = s.eligible;
        room = inr (inl (rw (← s.state) (ground (arith, h))));
      }

  abbrev after_verdict : Breaker → ℕ → Breaker
  after_verdict b id = record b { tickets = delete id b.tickets }

  record_probe-Inv :
      (bs : Breakers Float) (old b : Breaker) (now : ℕ) (v : Verdict) (rnd : Float)
      → At bs old
      → Same old b
      → is_half_open b.state ≡ true
      → Inv fl f (record_probe fl bs b now v rnd)
  unfolding record_probe close_breaker
  record_probe-Inv bs old b now neutral rnd a s h = (put-At bs old b a (Same-Kept bs old b s)).inv
  record_probe-Inv bs old b now ok rnd a s h =
      either-Inv (leb bs.params.probe_successes (b.successes + 1))
        (emit-Inv _ _
          (put-At bs old closed_b a
            (record { key = s.key; model = s.model; eligible = s.eligible; room = inl refl })).inv)
        (put-At bs old b' a (
          Same-Kept bs old b'
            (record { key = s.key; model = s.model; eligible = s.eligible; state = s.state }))).inv
    where
      b' : Breaker
      b' = record b { successes = b.successes + 1 }

      closed_b : Breaker
      closed_b = close_breaker b' now
  record_probe-Inv bs old b now fault rnd a s h = reopen-Inv bs old b now rnd a s h
  record_probe-Inv bs old b now ratio_fault rnd a s h = reopen-Inv bs old b now rnd a s h

  pub itself : (b : Breaker) → Same b b
  itself b = record { key = refl; model = refl; eligible = refl; state = refl }

  pub record_locked-Inv :
      (bs : Breakers Float) (b : Breaker) (now : ℕ) (t : Ticket) (v : Verdict) (rnd : Float)
      → At bs b
      → Inv fl f (record_locked fl bs b now t v rnd)
  unfolding record_locked
  record_locked-Inv bs b now t v rnd a =
      either-Inv t.probe
        (elim (Bool-cases (is_half_open b.state)) [
          | inr off ↦ rw (off, record_locked) a.inv
          | inl on ↦
              let current =
                record_probe-Inv bs b (after_verdict b t.id) now v rnd a
                  (record { key = refl; model = refl; eligible = refl; state = refl }) on in
              either-Inv
                (not (is_half_open b.state)
                  || not (nat_beq b.epoch t.epoch)
                  || not (held_ticket (lookup t.id b.tickets)))
                a.inv current
        ])
        (either-Inv (not (nat_beq b.epoch t.epoch)) a.inv
          (count_closed-Inv bs b b now v rnd a (itself b)))

  pub late_locked-Inv :
      (bs : Breakers Float) (b : Breaker) (now : ℕ) (t : Ticket) (v : Verdict) (rnd : Float)
      → At bs b
      → Inv fl f (late_locked fl bs b now t v rnd)
  unfolding late_locked
  late_locked-Inv bs b now t v rnd a = elim (Bool-cases (is_half_open b.state)) [
    | inl on ↦ either-Inv (not (nat_beq b.epoch t.epoch)) a.inv (
        either-Inv (t.probe && is_half_open b.state) (reopen-Inv bs b b now rnd a (itself b) on)
          counted)
    | inr off ↦ either-Inv (not (nat_beq b.epoch t.epoch)) a.inv (skips t.probe off)
  ]
    where
      counted : Inv fl f (count_closed fl bs b now v rnd)
      counted = count_closed-Inv bs b b now v rnd a (itself b)

      skips :
          (probe : Bool)
          → is_half_open b.state ≡ false
          → Inv fl f (
              if probe && is_half_open b.state
              then reopen fl bs b now rnd
              else count_closed fl bs b now v rnd)
      skips true off = rw off counted
      skips false off = counted

  pub abort_locked-Inv :
      (bs : Breakers Float) (b : Breaker) (now : ℕ) (t : Ticket) (ok_at : ℕ) (rnd : Float)
      → At bs b
      → Inv fl f (abort_locked fl bs b now t ok_at rnd)
  unfolding abort_locked
  abort_locked-Inv bs b now t ok_at rnd a =
      either-Inv (not (nat_beq b.epoch t.epoch) || not (is_closed b.state)) a.inv (
        count_closed-Inv bs b _ now fault rnd a
          (record { key = refl; model = refl; eligible = refl; state = refl }))
