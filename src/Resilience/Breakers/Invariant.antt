-- ===== src/Resilience/Breakers/Invariant.antt =====
-- What holds of the breakers between two calls (internal/resilience/breakers.go).
use server_flow.Prelude.{
  ◌+◌, ◌≤◌, ◌<◌, ◌≡◌, refl, sym, ap, subst, ◌∙◌, ◌⊎◌, inl, inr, true, false, some, ltb→lt, arith,
  All, Bool-cases,
}
use server_flow.Prelude.Bytes.{Bytes, bytes_eq, bytes_beq, bytes_beq_iff}
use server_flow.Prelude.Assoc.{
  lookup, insert, Unique, one, count-insert_old, insert-Unique, insert-All,
}
use server_flow.Prelude.Float.{Float64}
use server_flow.Resilience.Breaker.{Breaker, is_closed}
use server_flow.Resilience.Breakers.{
  Breakers, is_ejected, is_eligible, or_zero, put, max_open, room_to_open,
}
use server_flow.Resilience.Breakers.Cap.{OwnId, ejected, eligibles}

module _ (fl : Float64) (f : fl.Float) where
  open fl use {Float}

  -- Each breaker stands once, under its own ID; the eligible workers are counted by model; and of each
  -- model's eligible workers no more are open or half-open than the cap allows.
  pub record Inv (bs : Breakers Float) : Type 0 where
    pub unique : Unique bs.by_id
    pub own : All OwnId bs.by_id
    pub counted : (model : Bytes) → or_zero (lookup model bs.eligible_by) ≡ eligibles model bs.by_id
    pub fraction : bs.params.max_open_fraction ≡ f
    pub capped : (model : Bytes) → ejected model bs.by_id ≤ max_open fl f (eligibles model bs.by_id)

  -- What may change of a breaker that is written back.
  pub record Kept (bs : Breakers Float) (b b' : Breaker) : Type 0 where
    pub key : b'.key ≡ b.key
    pub model : b'.model ≡ b.model
    pub eligible : b'.eligible ≡ b.eligible
    pub room :
        (is_closed b'.state ≡ true) ⊎ (is_closed b.state ≡ false) ⊎ (room_to_open fl bs b ≡ true)

  pub room_lt :
      (bs : Breakers Float) (b : Breaker)
      → Inv bs
      → room_to_open fl bs b ≡ true
      → (b.eligible ≡ false)
        ⊎ (ejected b.model bs.by_id < max_open fl f (eligibles b.model bs.by_id))
  unfolding room_to_open
  room_lt bs b v h = elim (Bool-cases b.eligible) [
    | inr off ↦ inl off
    | inl on ↦ let h' = ltb→lt _ _ (rw on at h) in inr (rw (← v.counted b.model, ← v.fraction) h')
  ]

  put-eligibles :
      (bs : Breakers Float) (b b' : Breaker)
      → lookup b.key.id bs.by_id ≡ some b
      → Kept bs b b'
      → (model : Bytes) → eligibles model (put bs b').by_id ≡ eligibles model bs.by_id
  unfolding put
  put-eligibles bs b b' l k model = rw (k.key) (
      ground
        (arith, k.model, k.eligible, count-insert_old (is_eligible model) b.key.id b' b bs.by_id l))

  put-ejected :
      (bs : Breakers Float) (b b' : Breaker)
      → lookup b.key.id bs.by_id ≡ some b
      → Kept bs b b'
      → Inv bs
      → (model : Bytes) → ejected model (put bs b').by_id ≤ max_open fl f (eligibles model bs.by_id)
  unfolding put
  put-ejected bs b b' l k v model =
      subst (λ i. ejected model (insert i b' bs.by_id) ≤ max_open fl f (eligibles model bs.by_id))
        (sym (ap (λ q. q.id) k.key)) (bounded k.room)
    where
      weigh :
          ejected model (insert b.key.id b' bs.by_id) + one (is_ejected model (b.key.id, b))
          ≡ ejected model bs.by_id + one (is_ejected model (b.key.id, b'))
      weigh = count-insert_old (is_ejected model) b.key.id b' b bs.by_id l

      bounded :
          (is_closed b'.state ≡ true) ⊎ (is_closed b.state ≡ false) ⊎ (room_to_open fl bs b ≡ true)
          → ejected model (insert b.key.id b' bs.by_id) ≤ max_open fl f (eligibles model bs.by_id)
      bounded (inl h) = ground (arith, weigh, v.capped model)
      bounded (inr (inl h)) = ground (arith, weigh, v.capped model, k.model, k.eligible)
      bounded (inr (inr h)) = elim (Bool-cases (bytes_beq b.model model)) [
        | inr other ↦ ground (arith, weigh, v.capped model, k.model)
        | inl same ↦ elim (room_lt bs b v h) [
          | inl off ↦ ground (arith, weigh, v.capped model, k.model, k.eligible)
          | inr lt ↦
              let s = (bytes_beq_iff b.model model).0 same in
              let lt' : ejected model bs.by_id < max_open fl f (eligibles model bs.by_id) =
                rw s at lt in
              ground (arith, weigh)
        ]
      ]

  pub put-Inv :
      (bs : Breakers Float) (b b' : Breaker)
      → lookup b.key.id bs.by_id ≡ some b
      → Kept bs b b'
      → Inv bs
      → Inv (put bs b')
  unfolding put
  put-Inv bs b b' l k v = record {
    unique = insert-Unique b'.key.id b' bs.by_id v.unique;
    own = insert-All OwnId b'.key.id b' bs.by_id v.own refl;
    counted = λ model. v.counted model ∙ sym (put-eligibles bs b b' l k model);
    fraction = v.fraction;
    capped = λ model. rw (put-eligibles bs b b' l k model) (put-ejected bs b b' l k v model);
  }
