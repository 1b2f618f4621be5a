-- ===== src/Resilience/Breakers.antt =====
-- internal/resilience/breakers.go: one breaker per worker registration, and the ejection cap. Each call
-- returns the changes that `unlock` hands to the hook; the clock's reading and the random number of a call
-- are arguments.
pub mod Calls
pub mod Queries
pub mod Cap
pub mod Invariant
pub mod Capped
pub mod Runs
use server_flow.Prelude.{
  ℕ, zero, suc, ◌+◌, ◌-◌, ◌*◌, ◌/◌, min, max, Bool, true, false, ◌&&◌, ◌||◌, not, Option, none,
  some, List, [], ◌∷◌, ◌++◌, ltb, leb, nat_beq, if◌then◌else◌, length, count, keep, map, ◌==◌,
}
use server_flow.Prelude.Bytes.{Bytes, bytes_eq, bytes_beq, bytes_ltb}
use server_flow.Prelude.Assoc.{Assoc, lookup, insert, delete}
use server_flow.Prelude.Int.{pos, negsuc, pos_part}
use server_flow.Prelude.Float.{Float64}
use server_flow.Resilience.Window.{first, second, add, bucket_width}
use server_flow.Resilience.Breaker.{
  State, closed, half_open, opened, Verdict, neutral, ok, fault, ratio_fault, Reason,
  cool_down_elapsed, probe_failed, probes_passed, suppressed, ejection_cap, BreakerParams, Key,
  Change, Breaker, is_closed, is_half_open, is_opened, new_breaker, advance, probe_free,
  record_closed, open_breaker, close_breaker,
}

pub record Member : Type 0 where
  pub key : Key
  pub model : Bytes
  pub eligible : Bool

pub record Ticket : Type 0 where
  pub key : Key
  pub id : ℕ
  pub epoch : ℕ
  pub probe : Bool
  pub valid : Bool

pub record Breakers (F : Type 0) : Type 0 where
  pub params : BreakerParams F
  pub by_id : Assoc Bytes Breaker
  pub eligible : ℕ
  pub eligible_by : Assoc Bytes ℕ
  pub suppressed : ℕ
  pub pending : List Change

abbrev pub key_beq : Key → Key → Bool
key_beq j k = bytes_beq j.id k.id && nat_beq j.registered k.registered

abbrev pub zero_key : Key
zero_key = record { id = []; registered = 0 }

abbrev pub no_ticket : Ticket
no_ticket = record { key = zero_key; id = 0; epoch = 0; probe = false; valid = false }

-- A breaker that counts towards the cap of a model.
abbrev pub is_ejected : Bytes → Bytes × Breaker → Bool
is_ejected model (id, b) = bytes_beq b.model model && b.eligible && not (is_closed b.state)

abbrev pub is_eligible : Bytes → Bytes × Breaker → Bool
is_eligible model (id, b) = bytes_beq b.model model && b.eligible

abbrev pub is_any_eligible : Bytes × Breaker → Bool
is_any_eligible (id, b) = b.eligible

abbrev pub or_zero : Option ℕ → ℕ
or_zero none = 0
or_zero (some n) = n

-- The loop of recountEligible over `eligibleBy`.
unfoldable pub count_models : Assoc Bytes Breaker → Assoc Bytes ℕ
count_models [] = []
count_models ((id, b) ∷ m) =
    let rest = count_models m in
    if b.eligible then insert b.model (or_zero (lookup b.model rest) + 1) rest else rest

-- Is `b` ejected more recently than `v` (ties: the larger worker ID)?
abbrev pub later_than : Breaker → Breaker → Bool
later_than b v =
    ltb v.ejected_at b.ejected_at
    || (nat_beq b.ejected_at v.ejected_at && bytes_ltb v.key.id b.key.id)

abbrev pub pick : Breaker → Option Breaker → Option Breaker
pick b none = some b
pick b (some v) = if later_than b v then some b else some v

-- The inner loop of enforceCap: the ejected breaker that comes last.
unfoldable pub victim : Bytes → Assoc Bytes Breaker → Option Breaker → Option Breaker
victim model [] v = v
victim model ((id, b) ∷ m) v = victim model m (if is_ejected model (id, b) then pick b v else v)

module _ {F : Type 0} where
  unfoldable pub normalize : BreakerParams F → BreakerParams F
  normalize p =
      let cool_down = if leb p.cool_down 0 then 1000000 else p.cool_down in
      record p {
        consecutive_failures = if ltb p.consecutive_failures 1 then 1 else p.consecutive_failures;
        min_volume = if ltb p.min_volume 1 then 1 else p.min_volume;
        window = if ltb p.window bucket_width then bucket_width else p.window;
        cool_down = cool_down;
        max_cool_down = if ltb p.max_cool_down cool_down then cool_down else p.max_cool_down;
        probe_concurrency = if ltb p.probe_concurrency 1 then 1 else p.probe_concurrency;
        probe_successes = if ltb p.probe_successes 1 then 1 else p.probe_successes;
      }

  unfoldable pub new_breakers : BreakerParams F → Breakers F
  new_breakers p = record {
    params = normalize p;
    by_id = [];
    eligible = 0;
    eligible_by = [];
    suppressed = 0;
    pending = [];
  }

  unfoldable pub find : Breakers F → Key → Option Breaker
  find bs k = elim (lookup k.id bs.by_id) [
    | none ↦ none
    | some b ↦ if key_beq b.key k then some b else none
  ]

  unfoldable pub emit : Breakers F → Change → Breakers F
  emit bs c = record bs { pending = bs.pending ++ (c ∷ []) }

  -- The breaker is a pointer in the map: what is written to it is seen there.
  unfoldable pub put : Breakers F → Breaker → Breakers F
  put bs b = record bs { by_id = insert b.key.id b bs.by_id }

  unfoldable pub unlock : Breakers F → Breakers F × List Change
  unlock bs = (record bs { pending = [] }, bs.pending)

  unfoldable pub recount_eligible : Breakers F → Breakers F
  recount_eligible bs = record bs {
    eligible = count is_any_eligible bs.by_id;
    eligible_by = count_models bs.by_id;
  }

  abbrev pub emit_moved : Breakers F → Option Change → Breakers F
  emit_moved bs none = bs
  emit_moved bs (some c) = emit bs c

  -- advanceLocked, with the breaker as it is afterwards.
  unfoldable pub advance_locked : Breakers F → Breaker → ℕ → Breakers F × Breaker
  advance_locked bs b now =
      let (b', moved) = advance b now bs.params in (emit_moved (put bs b') moved, b')

  -- The body of enforceCap's inner loop.
  unfoldable pub close_victim : Breakers F → Breaker → ℕ → Breakers F
  close_victim bs v now = emit (put bs (close_breaker v now)) (record {
    key = v.key;
    from = v.state;
    to = closed;
    reason = ejection_cap;
    failures = 0;
    cool_down = 0;
    suppressed = false;
  })

module _ (fl : Float64) where
  open fl use {Float}

  unfoldable pub max_open : Float → ℕ → ℕ
  max_open fraction eligible =
      if fl.fleb fraction (fl.of_int 0) || leb eligible 0
      then 0
      else if fl.fleb (fl.of_int 1) fraction
      then eligible
      else pos_part (fl.floor (fl.add (fl.mul fraction (fl.of_int eligible)) (fl.lit 1 9)))

  unfoldable pub room_to_open : Breakers Float → Breaker → Bool
  room_to_open bs b =
      if not b.eligible
      then true
      else ltb (count (is_ejected b.model) bs.by_id)
          (max_open bs.params.max_open_fraction (or_zero (lookup b.model bs.eligible_by)))

  -- The loop of enforceCap for one model: on fuel, one unit for each breaker that is closed.
  unfoldable pub enforce_model : ℕ → Breakers Float → Bytes → ℕ → ℕ → Breakers Float
  enforce_model zero bs model limit now = bs
  enforce_model (suc fuel) bs model limit now = elim (victim model bs.by_id none) [
    | none ↦ bs
    | some v ↦
        if leb (count (is_ejected model) bs.by_id) limit
        then bs
        else enforce_model fuel (close_victim bs v now) model limit now
  ]

  unfoldable pub enforce_models : Assoc Bytes ℕ → Breakers Float → ℕ → Breakers Float
  enforce_models [] bs now = bs
  enforce_models ((model, eligible) ∷ models) bs now =
      enforce_models models
        (enforce_model (length bs.by_id) bs model (max_open bs.params.max_open_fraction eligible)
          now)
        now

  unfoldable pub enforce_cap : Breakers Float → ℕ → Breakers Float
  enforce_cap bs now = enforce_models bs.eligible_by bs now
