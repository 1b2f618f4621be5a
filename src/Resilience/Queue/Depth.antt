-- ===== src/Resilience/Queue/Depth.antt =====
-- The depth of a model's queue (internal/resilience/queue.go).
use server_flow.Prelude.{
  ℕ, ◌≤◌, ◌<◌, ◌≡◌, refl, subst, inl, inr, Bool, true, false, Option, none, some, List, [], ◌∷◌,
  nat_beq, nat_eq, arith, if◌then◌else◌, length, keep, All, Bool-cases, Option-cases, Comparable,
  ◌==◌, length-keep-le, length-append,
}
use server_flow.Prelude.Bytes.{Bytes, bytes_eq}
use server_flow.Prelude.Assoc.{Assoc, lookup, insert, delete, insert-All, lookup-All}
use server_flow.Prelude.Float.{Float64}
use server_flow.Resilience.Queue.{
  QueueParams, Waiter, ModelQueue, Queue, or_empty, is_other, settle_model, leave_model,
  leave_locked, handoff_head, handoff, park, leave, wake, close_queue, refuse_locked, push, enqueue,
  new_queue, put_maybe, drained, depth,
}

delete-All {ℓ κ μ} :
    {K : Type ℓ} {V : Type κ} ⦃e : Comparable K⦄ (P : K × V → Type μ) (k : K) (m : Assoc K V)
    → All P m
    → All P (delete k m)
unfolding delete
delete-All P k [] a = tt
delete-All ⦃e⦄ P k ((i, w) ∷ m) a = elim (Bool-cases (i == k)) [
  | inl same ↦ rw same (delete-All P k m a.1)
  | inr other ↦ rw other (a.0, delete-All P k m a.1)
]

pub data Call (V : Type 0) : Type 0 where
  enqueues : (now : ℕ) (model tenant : Bytes) → Call V
  hands_off : (model : Bytes) (value : V) → Call V
  parks : (w : ℕ) → Call V
  leaves : (w : ℕ) (give_back : Bool) → Call V
  wakes : (model : Bytes) (n : ℕ) → Call V
  closes : Call V

-- No model has more than `most` waiters.
abbrev Shallow : ℕ → Assoc Bytes ModelQueue → Type 0
Shallow most m = All (λ (e : Bytes × ModelQueue). length e.1.waiters ≤ most) m

insert-Shallow :
    (most : ℕ) (model : Bytes) (mq : ModelQueue) (m : Assoc Bytes ModelQueue)
    → Shallow most m
    → length mq.waiters ≤ most
    → Shallow most (insert model mq m)
insert-Shallow most model mq m a h =
    insert-All (λ (e : Bytes × ModelQueue). length e.1.waiters ≤ most) model mq m a h

lookup-Shallow :
    (most : ℕ) (model : Bytes) (mq : ModelQueue) (m : Assoc Bytes ModelQueue)
    → Shallow most m
    → lookup model m ≡ some mq
    → length mq.waiters ≤ most
lookup-Shallow most model mq m a l =
    lookup-All (λ (e : Bytes × ModelQueue). length e.1.waiters ≤ most) model mq m a l

or_empty-Shallow :
    (most : ℕ) (model : Bytes) (m : Assoc Bytes ModelQueue)
    → Shallow most m
    → length (or_empty (lookup model m)).waiters ≤ most
or_empty-Shallow most model m a = elim (Option-cases (lookup model m)) [
  | inl new ↦ rw new (omega arith)
  | inr (mq, l) ↦ rw l (lookup-Shallow most model mq m a l)
]

module _ (fl : Float64) {V : Type 0} where
  open fl use {Float}

  abbrev pub apply : Queue Float V → Call V → Queue Float V
  apply q (enqueues now model tenant) = (enqueue fl q now model tenant).0
  apply q (hands_off model value) = (handoff q model value).0
  apply q (parks w) = (park q w).0
  apply q (leaves w give_back) = (leave q w give_back).0
  apply q (wakes model n) = (wake q model n).0
  apply q closes = close_queue q

  unfoldable pub run : Queue Float V → List (Call V) → Queue Float V
  run q [] = q
  run q (c ∷ cs) = run (apply q c) cs

  -- Bounded: the queue's models are shallow and its parameters are `p`.
  abbrev Bounded : QueueParams Float → Queue Float V → Type 0
  Bounded p q = (q.params ≡ p) × Shallow p.max_model_depth q.models

  either-Bounded :
      (p : QueueParams Float) (c : Bool) (x y : Queue Float V)
      → Bounded p x
      → Bounded p y
      → Bounded p (if c then x else y)
  either-Bounded p true x y v w = v
  either-Bounded p false x y v w = w

  settle_model-Bounded :
      (p : QueueParams Float) (q : Queue Float V) (model : Bytes) (mq : ModelQueue)
      (self : Option ℕ)
      → length mq.waiters ≤ p.max_model_depth
      → Bounded p q
      → Bounded p (settle_model q model mq self).0
  unfolding settle_model
  settle_model-Bounded p q model mq self h b =
      (b.0, insert-Shallow p.max_model_depth model _ q.models b.1 h)

  leave_model-Bounded :
      (p : QueueParams Float) (q : Queue Float V) (w : ℕ) (v : Waiter V) (mq : ModelQueue)
      (after back : Bool)
      → length mq.waiters ≤ p.max_model_depth
      → Bounded p q
      → Bounded p (leave_model q w v mq after back)
  unfolding leave_model
  leave_model-Bounded p q w v mq after back h b =
      let fewer : length (keep (is_other w) mq.waiters) ≤ p.max_model_depth =
        omega (arith, h, length-keep-le (is_other w) mq.waiters) in
      either-Bounded p (nat_beq (length (keep (is_other w) mq.waiters)) 0) _ _
        (
          b.0,
          delete-All (λ (e : Bytes × ModelQueue). length e.1.waiters ≤ p.max_model_depth) v.model
              q.models b.1,
        )
        (either-Bounded p after _ _ (settle_model-Bounded p q v.model _ none fewer b)
          (b.0, insert-Shallow p.max_model_depth v.model _ q.models b.1 fewer))

  leave_locked-Bounded :
      (p : QueueParams Float) (q : Queue Float V) (w : ℕ) (v : Waiter V) (after back : Bool)
      → Bounded p q
      → Bounded p (leave_locked q w v after back)
  unfolding leave_locked
  leave_locked-Bounded p q w v after back b = elim (Option-cases (lookup v.model q.models)) [
    | inl gone ↦ rw (gone, leave_locked) b
    | inr (mq, l) ↦
        rw (l, leave_locked)
          (either-Bounded p v.left _ _ b (
            leave_model-Bounded p _ w v mq after back
              (lookup-Shallow p.max_model_depth v.model mq q.models b.1 l) b))
  ]

  handoff_head-Bounded :
      (p : QueueParams Float) (q : Queue Float V) (model : Bytes) (mq : ModelQueue) (ws : List ℕ)
      (value : V)
      → length mq.waiters ≤ p.max_model_depth
      → Bounded p q
      → Bounded p (handoff_head q model mq ws value).0
  unfolding handoff_head leave_locked leave_model
  handoff_head-Bounded p q model mq [] value h b = b
  handoff_head-Bounded p q model mq (w ∷ ws) value h b = elim (Option-cases (lookup w q.store)) [
    | inl gone ↦ rw (gone, handoff_head) b
    | inr (v, l) ↦ elim (Bool-cases v.woken) [
      | inl routing ↦ rw (l, handoff_head, routing) (settle_model-Bounded p q model _ none h b)
      | inr idle ↦ rw (l, handoff_head, idle) (leave_locked-Bounded p q w v false false b)
    ]
  ]

  park-Bounded :
      (p : QueueParams Float) (q : Queue Float V) (w : ℕ) → Bounded p q → Bounded p (park q w).0
  unfolding park
  park-Bounded p q w b = elim (Option-cases (lookup w q.store)) [
    | inl gone ↦ rw (gone, park) b
    | inr (v, l) ↦ elim (Bool-cases v.left) [
      | inl out ↦ rw (l, park, out) b
      | inr queued ↦ elim (Option-cases (lookup v.model q.models)) [
        | inl none_left ↦ rw (l, park, queued, none_left) b
        | inr (mq, e) ↦
            rw (l, park, queued, e)
              (settle_model-Bounded p _ v.model mq (some w)
                (lookup-Shallow p.max_model_depth v.model mq q.models b.1 e) b)
      ]
    ]
  ]

  leave-Bounded :
      (p : QueueParams Float) (q : Queue Float V) (w : ℕ) (back : Bool)
      → Bounded p q
      → Bounded p (leave q w back).0
  unfolding leave
  leave-Bounded p q w back b = elim (Option-cases (lookup w q.store)) [
    | inl gone ↦ rw (gone, leave) b
    | inr (v, l) ↦
        rw (l, leave)
          (taken (if v.left then q else leave_locked q w v true back)
            (lookup w (if v.left then q else leave_locked q w v true back).store)
            (either-Bounded p v.left q _ b (leave_locked-Bounded p q w v true back b)))
  ]
    where
      taken :
          (x : Queue Float V) (o : Option (Waiter V))
          → Bounded p x
          → Bounded p (put_maybe x w (drained o))
      taken x none v = v
      taken x (some o) v = v

  push-Bounded :
      (p : QueueParams Float) (q : Queue Float V) (now : ℕ) (model tenant : Bytes)
      → length (or_empty (lookup model q.models)).waiters < p.max_model_depth
      → Bounded p q
      → Bounded p (push fl q now model tenant)
  unfolding push
  push-Bounded p q now model tenant h b = (
    b.0,
    insert-Shallow p.max_model_depth model _ q.models b.1
        (omega (arith, h, length-append (or_empty (lookup model q.models)).waiters (q.next ∷ []))),
  )

  -- What is not refused finds room.
  room_lem :
      (q : Queue Float V) (model tenant : Bytes)
      → refuse_locked fl q model tenant ≡ none
      → length (or_empty (lookup model q.models)).waiters < q.params.max_model_depth
  unfolding refuse_locked
  room_lem q model tenant h = ground (arith, h)

  enqueue-Bounded :
      (p : QueueParams Float) (q : Queue Float V) (now : ℕ) (model tenant : Bytes)
      → Bounded p q
      → Bounded p (enqueue fl q now model tenant).0
  unfolding enqueue
  enqueue-Bounded p q now model tenant b = elim (Option-cases (refuse_locked fl q model tenant)) [
    | inr (why, e) ↦ rw (e, enqueue) b
    | inl e ↦
        rw (e, enqueue)
          (push-Bounded p q now model tenant
            (subst
              (λ (x : QueueParams Float).
                length (or_empty (lookup model q.models)).waiters < x.max_model_depth)
              b.0 (room_lem q model tenant e))
            b)
  ]

  apply-Bounded :
      (p : QueueParams Float) (q : Queue Float V) (c : Call V) → Bounded p q → Bounded p (apply q c)
  unfolding handoff wake close_queue
  apply-Bounded p q (enqueues now model tenant) b = enqueue-Bounded p q now model tenant b
  apply-Bounded p q (hands_off model value) b =
      handoff_head-Bounded p q model _ _ value
        (or_empty-Shallow p.max_model_depth model q.models b.1) b
  apply-Bounded p q (parks w) b = park-Bounded p q w b
  apply-Bounded p q (leaves w back) b = leave-Bounded p q w back b
  apply-Bounded p q (wakes model n) b = b
  apply-Bounded p q closes b = b

  run-Bounded :
      (p : QueueParams Float) (q : Queue Float V) (cs : List (Call V))
      → Bounded p q
      → Bounded p (run q cs)
  unfolding run
  run-Bounded p q [] b = b
  run-Bounded p q (c ∷ cs) b = run-Bounded p (apply q c) cs (apply-Bounded p q c b)

  -- After any calls on a new queue, no model has more waiters than the configured depth.
  pub depth-bounded :
      (p : QueueParams Float) (cs : List (Call V)) (model : Bytes)
      → depth (run (new_queue p) cs) model ≤ p.max_model_depth
  unfolding depth new_queue
  depth-bounded p cs model =
      or_empty-Shallow p.max_model_depth model _ (run-Bounded p (new_queue p) cs (refl, tt)).1
