-- ===== src/Resilience/Queue.antt =====
-- internal/resilience/queue.go: the waiters of each model, first come first served. A waiter is a pointer that the queue and its
-- goroutine share: it is a number, and the store holds what it points to. Its channel has room for one grant. The average wait behind
-- Retry-After (ObserveWait) and Flush are left out. The waiter of an Enqueue that succeeds is the one with the number
-- `next` of the state before.
pub mod Depth
use server_flow.Prelude.{
  ℕ, zero, suc, ◌+◌, ◌-◌, max, Bool, true, false, ◌&&◌, ◌||◌, not, Option, none, some, List, [],
  ◌∷◌, ◌++◌, ltb, leb, nat_beq, nat_eq, if◌then◌else◌, length, keep,
}
use server_flow.Prelude.Bytes.{Bytes, bytes_eq, bytes_beq}
use server_flow.Prelude.Assoc.{Assoc, lookup, insert, delete}
use server_flow.Prelude.Int.{pos_part}
use server_flow.Prelude.Float.{Float64}

pub data QueueError : Type 0 where
  no_queue queue_full tenant_share draining : QueueError

pub record QueueParams (F : Type 0) : Type 0 where
  pub max_model_depth : ℕ
  pub max_wait : ℕ
  pub max_tenant_share : F
  pub max_models : ℕ

-- GrantKind with Grant.Value, which only a hand-off has.
pub data Grant (V : Type 0) : Type 0 where
  handoff_of : (value : V) → Grant V
  reroute : Grant V
  flushed : Grant V

-- `channel` is what waits in C.
pub record Waiter (V : Type 0) : Type 0 where
  pub model : Bytes
  pub tenant : Bytes
  pub enqueued : ℕ
  pub channel : Option (Grant V)
  pub woken : Bool
  pub left : Bool

pub record ModelQueue : Type 0 where
  pub waiters : List ℕ
  pub tenants : Assoc Bytes ℕ
  pub credit : ℕ

-- `next` is the number of the next waiter.
pub record Queue (F V : Type 0) : Type 0 where
  pub params : QueueParams F
  pub models : Assoc Bytes ModelQueue
  pub store : Assoc ℕ (Waiter V)
  pub next : ℕ
  pub closed : Bool

abbrev pub empty_queue : ModelQueue
empty_queue = record { waiters = []; tenants = []; credit = 0 }

abbrev pub or_empty : Option ModelQueue → ModelQueue
or_empty none = empty_queue
or_empty (some mq) = mq

abbrev pub or_none : Option ℕ → ℕ
or_none none = 0
or_none (some n) = n

-- `mq.tenants[tenant]--`, and the entry is dropped at 0.
abbrev pub drop_tenant : Bytes → Assoc Bytes ℕ → Assoc Bytes ℕ
drop_tenant tenant m =
    let n = or_none (lookup tenant m) - 1 in
    if nat_beq n 0 then delete tenant m else insert tenant n m

abbrev pub is_other : ℕ → ℕ → Bool
is_other w v = not (nat_beq v w)

abbrev pub is_self : Option ℕ → ℕ → Bool
is_self none w = false
is_self (some self) w = nat_beq self w

module _ {V : Type 0} where
  -- send: a pending grant is replaced.
  abbrev pub send : Grant V → Waiter V → Waiter V
  send g w = record w { channel = some g }

  abbrev pub is_woken : Option (Waiter V) → Bool
  is_woken none = true
  is_woken (some w) = w.woken

  -- The first waiter that is not routing.
  unfoldable pub first_idle : Assoc ℕ (Waiter V) → List ℕ → Option ℕ
  first_idle store [] = none
  first_idle store (w ∷ ws) =
      let later = first_idle store ws in if is_woken (lookup w store) then later else some w

  abbrev pub wake_one : Option (Waiter V) → ℕ → Bool → Assoc ℕ (Waiter V) → Assoc ℕ (Waiter V)
  wake_one none w itself store = store
  wake_one (some v) w itself store =
      let woken = record v { woken = true } in
      insert w (if itself then woken else send reroute woken) store

  -- settle: the store, the credit that is left and whether `self` routes.
  unfoldable pub settle :
      ℕ → List ℕ → Option ℕ → Bool → Assoc ℕ (Waiter V) → Assoc ℕ (Waiter V) × ℕ × Bool
  settle zero waiters self routes store = (store, 0, routes)
  settle (suc credit) waiters self routes store = elim (first_idle store waiters) [
    | none ↦ (store, suc credit, routes)
    | some w ↦
        settle credit waiters self (routes || is_self self w)
          (wake_one (lookup w store) w (is_self self w) store)
  ]

  abbrev pub take : Option (Grant V) → Bool → Option (Grant V)
  take none was_left = none
  take (some (handoff_of value)) was_left = some (handoff_of value)
  take (some reroute) was_left = none
  take (some flushed) was_left = if was_left then none else some flushed

  abbrev pub drained : Option (Waiter V) → Option (Waiter V)
  drained none = none
  drained (some v) = some (record v { channel = none })

  -- The loop of Wake.
  unfoldable pub wake_waiters : List ℕ → ℕ → Assoc ℕ (Waiter V) → Assoc ℕ (Waiter V) × ℕ
  wake_waiters [] n store = (store, 0)
  wake_waiters (w ∷ ws) zero store = (store, 0)
  wake_waiters (w ∷ ws) (suc n) store =
      let skipped = wake_waiters ws (suc n) store in
      let (store', woken) = wake_waiters ws n (wake_one (lookup w store) w false store) in
      if is_woken (lookup w store) then skipped else (store', woken + 1)

module _ {F V : Type 0} where
  unfoldable pub new_queue : QueueParams F → Queue F V
  new_queue p = record { params = p; models = []; store = []; next = 0; closed = false }

  unfoldable pub depth : Queue F V → Bytes → ℕ
  depth q model = length (or_empty (lookup model q.models)).waiters

  unfoldable pub busy : Queue F V → Bytes → Bool
  busy q model = ltb 0 (depth q model)

  abbrev pub put_queue : Queue F V → Bytes → ModelQueue → Queue F V
  put_queue q model mq = record q { models = insert model mq q.models }

  abbrev pub put_waiter : Queue F V → ℕ → Waiter V → Queue F V
  put_waiter q w v = record q { store = insert w v q.store }

  -- settle on a model's queue.
  unfoldable pub settle_model : Queue F V → Bytes → ModelQueue → Option ℕ → Queue F V × Bool
  settle_model q model mq self =
      let (store, credit, routes) = settle mq.credit mq.waiters self false q.store in
      (
        record q { store = store; models = insert model (record mq { credit = credit }) q.models },
        routes,
      )

  -- leaveLocked's change of the model's queue, for a waiter that stands in it.
  unfoldable pub leave_model : Queue F V → ℕ → Waiter V → ModelQueue → Bool → Bool → Queue F V
  leave_model q w v mq settle_after give_back =
      let mq' = record mq {
        waiters = keep (is_other w) mq.waiters;
        tenants = if ltb 0 (length v.tenant) then drop_tenant v.tenant mq.tenants else mq.tenants;
      } in
      let paid = record mq' {
        credit = if give_back && v.woken then mq'.credit + 1 else mq'.credit;
      } in
      if nat_beq (length mq'.waiters) 0
      then record q { models = delete v.model q.models }
      else if settle_after
      then (settle_model q v.model paid none).0
      else put_queue q v.model mq'

  -- A waiter has an element in its queue as long as it has not left.
  unfoldable pub leave_locked : Queue F V → ℕ → Waiter V → Bool → Bool → Queue F V
  leave_locked q w v settle_after give_back =
      let gone = put_waiter q w (record v { left = true; woken = false }) in
      elim (lookup v.model q.models) [
        | none ↦ gone
        | some mq ↦ if v.left then gone else leave_model gone w v mq settle_after give_back
      ]

  unfoldable pub handoff_head : Queue F V → Bytes → ModelQueue → List ℕ → V → Queue F V × Bool
  handoff_head q model mq [] value = (q, false)
  handoff_head q model mq (w ∷ ws) value = elim (lookup w q.store) [
    | none ↦ (q, false)
    | some v ↦
        if v.woken
        then ((settle_model q model (record mq { credit = mq.credit + 1 }) none).0, false)
        else (
          put_waiter (leave_locked q w v false false) w
              (send (handoff_of value) (record v { left = true; woken = false })),
          true,
        )
  ]

  unfoldable pub handoff : Queue F V → Bytes → V → Queue F V × Bool
  handoff q model value =
      let mq = or_empty (lookup model q.models) in handoff_head q model mq mq.waiters value

  -- Park, and the waiter's `left` flag is read first.
  unfoldable pub park : Queue F V → ℕ → Queue F V × Bool
  park q w = elim (lookup w q.store) [
    | none ↦ (q, false)
    | some v ↦
        let idle = put_waiter q w (record v { woken = false }) in
        if v.left then (q, false) else elim (lookup v.model q.models) [
          | none ↦ (idle, false)
          | some mq ↦ settle_model idle v.model mq (some w)
        ]
  ]

  abbrev pub put_maybe : Queue F V → ℕ → Option (Waiter V) → Queue F V
  put_maybe q w none = q
  put_maybe q w (some v) = put_waiter q w v

  -- leave: Done without, and Leave with giving the wake-up back.
  unfoldable pub leave : Queue F V → ℕ → Bool → Queue F V × Option (Grant V)
  leave q w give_back = elim (lookup w q.store) [
    | none ↦ (q, none)
    | some v ↦
        let q' = if v.left then q else leave_locked q w v true give_back in
        (put_maybe q' w (drained (lookup w q'.store)), take v.channel v.left)
  ]

  unfoldable pub wake : Queue F V → Bytes → ℕ → Queue F V × ℕ
  wake q model n =
      let (store, woken) = wake_waiters (or_empty (lookup model q.models)).waiters n q.store in
      (record q { store = store }, woken)

  unfoldable pub close_queue : Queue F V → Queue F V
  close_queue q = record q { closed = true }

module _ (fl : Float64) where
  open fl use {Float}

  unfoldable pub tenant_cap : QueueParams Float → ℕ
  tenant_cap p =
      if fl.fleb p.max_tenant_share (fl.of_int 0) || fl.fleb (fl.of_int 1) p.max_tenant_share
      then 0
      else max 1 (
          pos_part (
            fl.floor
              (fl.add (fl.mul p.max_tenant_share (fl.of_int p.max_model_depth)) (fl.lit 1 9))))

module _ (fl : Float64) {V : Type 0} where
  open fl use {Float}

  unfoldable pub refuse_locked : Queue Float V → Bytes → Bytes → Option QueueError
  refuse_locked q model tenant =
      if q.closed
      then some draining
      else if leb q.params.max_model_depth 0
      then some no_queue
      else elim (lookup model q.models) [
        | none ↦
            if ltb 0 q.params.max_models && leb q.params.max_models (length q.models)
            then some no_queue
            else none
        | some mq ↦
            let cap = tenant_cap fl q.params in
            if leb q.params.max_model_depth (length mq.waiters)
            then some queue_full
            else if ltb 0 cap
                && ltb 0 (length tenant)
                && leb cap (or_none (lookup tenant mq.tenants))
            then some tenant_share
            else none
      ]

  -- Enqueue for a request that is not refused; the result is the new waiter.
  unfoldable pub push : Queue Float V → ℕ → Bytes → Bytes → Queue Float V
  push q now model tenant =
      let mq = or_empty (lookup model q.models) in
      record q {
        models =
            insert model
              (record mq {
                waiters = mq.waiters ++ (q.next ∷ []);
                tenants =
                    if ltb 0 (length tenant)
                    then insert tenant (or_none (lookup tenant mq.tenants) + 1) mq.tenants
                    else mq.tenants;
              })
              q.models;
        store =
            insert q.next
              (record {
                model = model;
                tenant = tenant;
                enqueued = now;
                channel = none;
                woken = false;
                left = false;
              })
              q.store;
        next = q.next + 1;
      }

  unfoldable pub enqueue : Queue Float V → ℕ → Bytes → Bytes → Queue Float V × Option QueueError
  enqueue q now model tenant = elim (refuse_locked q model tenant) [
    | none ↦ (push q now model tenant, none)
    | some why ↦ (q, some why)
  ]
