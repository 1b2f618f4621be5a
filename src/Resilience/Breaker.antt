-- ===== src/Resilience/Breaker.antt =====
-- internal/resilience/breaker.go: the state machine of one worker's breaker. Times are nanoseconds since
-- the epoch, durations nanoseconds.
pub mod Backoff
use server_flow.Prelude.{
  ℕ, zero, suc, ◌+◌, ◌*◌, ◌/◌, ◌%◌, min, max, Bool, true, false, ◌&&◌, ◌||◌, not, Option, none,
  some, List, [], ltb, leb, nat_beq, if◌then◌else◌, length, get_or, set, replicate, keep,
}
use server_flow.Prelude.Bytes.{Bytes}
use server_flow.Prelude.Assoc.{Assoc}
use server_flow.Prelude.Int.{pos, pos_part}
use server_flow.Prelude.Float.{Float64}
use server_flow.Resilience.Window.{
  SlidingWindow, new_sliding_window, first, second, add, sum, reset, bucket_width,
}

pub data State : Type 0 where
  closed half_open opened : State

pub data Verdict : Type 0 where
  neutral ok fault ratio_fault : Verdict

-- The values of Change.Reason.
pub data Reason : Type 0 where
  consecutive_failures failure_ratio cool_down_elapsed probe_failed probes_passed suppressed
        ejection_cap :
      Reason

pub record BreakerParams (F : Type 0) : Type 0 where
  pub consecutive_failures : ℕ
  pub failure_ratio : F
  pub min_volume : ℕ
  pub window : ℕ
  pub cool_down : ℕ
  pub max_cool_down : ℕ
  pub probe_concurrency : ℕ
  pub probe_successes : ℕ
  pub max_open_fraction : F
  pub header_timeout : ℕ

pub record Key : Type 0 where
  pub id : Bytes
  pub registered : ℕ

pub record Change : Type 0 where
  pub key : Key
  pub from : State
  pub to : State
  pub reason : Reason
  pub failures : ℕ
  pub cool_down : ℕ
  pub suppressed : Bool

pub record Breaker : Type 0 where
  pub key : Key
  pub model : Bytes
  pub eligible : Bool
  pub state : State
  pub win : SlidingWindow
  pub streak : List ℕ
  pub streak_pos : ℕ
  pub streak_len : ℕ
  pub suppressed : Bool
  pub level : ℕ
  pub ever_opened : Bool
  pub closed_at : ℕ
  pub ejected_at : ℕ
  pub open_until : ℕ
  pub cool_down : ℕ
  pub epoch : ℕ
  pub next_id : ℕ
  pub tickets : Assoc ℕ ℕ
  pub successes : ℕ

abbrev pub is_closed : State → Bool
is_closed closed = true
is_closed _ = false

abbrev pub is_half_open : State → Bool
is_half_open half_open = true
is_half_open _ = false

abbrev pub is_opened : State → Bool
is_opened opened = true
is_opened _ = false

abbrev pub is_ok : Verdict → Bool
is_ok ok = true
is_ok _ = false

abbrev pub is_fresh : ℕ → ℕ → ℕ × ℕ → Bool
is_fresh now backstop (id, at) = leb now (at + backstop)

-- The first half of `advance`: open to half-open once the cool-down has elapsed.
unfoldable pub half_opens : Breaker → ℕ → Breaker × Option Change
half_opens b now =
    if is_opened b.state && leb b.open_until now
    then (
      record b { state = half_open; successes = 0; tickets = [] },
      some (record {
        key = b.key;
        from = opened;
        to = half_open;
        reason = cool_down_elapsed;
        failures = 0;
        cool_down = b.cool_down;
        suppressed = false;
      }),
    )
    else (b, none)

-- The counting half of recordClosed, for a verdict that is not neutral.
unfoldable pub count_outcome : Breaker → ℕ → Verdict → Breaker
count_outcome b now neutral = b
count_outcome b now ok = record b {
  win = add b.win now now first (pos 1);
  streak_len = 0;
  streak_pos = 0;
}
count_outcome b now fault = record b {
  win = add (add b.win now now first (pos 1)) now now second (pos 1);
  streak = set b.streak b.streak_pos now;
  streak_pos = (b.streak_pos + 1) % length b.streak;
  streak_len = if ltb b.streak_len (length b.streak) then b.streak_len + 1 else b.streak_len;
}
count_outcome b now ratio_fault = record b {
  win = add (add b.win now now first (pos 1)) now now second (pos 1);
}

module _ {F : Type 0} where
  -- max(2 * cool_down, header timeout + 5 s)
  unfoldable pub ticket_backstop : BreakerParams F → ℕ
  ticket_backstop p = max (2 * p.cool_down) (p.header_timeout + 5 * bucket_width)

  -- Go's zero times are 0: none of them is read before it is written.
  unfoldable pub new_breaker : Key → BreakerParams F → Breaker
  new_breaker k p = record {
    key = k;
    model = [];
    eligible = false;
    state = closed;
    win = new_sliding_window p.window;
    streak = replicate p.consecutive_failures 0;
    streak_pos = 0;
    streak_len = 0;
    suppressed = false;
    level = 0;
    ever_opened = false;
    closed_at = 0;
    ejected_at = 0;
    open_until = 0;
    cool_down = 0;
    epoch = 0;
    next_id = 0;
    tickets = [];
    successes = 0;
  }

  -- The second half: lost probe tickets are released.
  unfoldable pub drop_lost : Breaker → ℕ → BreakerParams F → Breaker
  drop_lost b now p =
      if is_half_open b.state && ltb 0 (length b.tickets)
      then record b { tickets = keep (is_fresh now (ticket_backstop p)) b.tickets }
      else b

  unfoldable pub advance : Breaker → ℕ → BreakerParams F → Breaker × Option Change
  advance b now p = let (b', ch) = half_opens b now in (drop_lost b' now p, ch)

  unfoldable pub probe_free : Breaker → BreakerParams F → Bool
  probe_free b p = is_half_open b.state && ltb (length b.tickets) p.probe_concurrency

  -- Do the last consecutive faults fill the streak, all of them within the window?
  unfoldable pub streak_trips : Breaker → ℕ → Verdict → BreakerParams F → Bool
  streak_trips b now v p =
      not (is_ok v)
      && nat_beq b.streak_len (length b.streak)
      && leb now (get_or b.streak b.streak_pos 0 + p.window)

  -- The un-jittered cool-down: `d` doubled at most `level` times.
  unfoldable pub cool_down_from : BreakerParams F → ℕ → ℕ → ℕ
  cool_down_from p d zero = min d p.max_cool_down
  cool_down_from p d (suc level) =
      if leb (p.max_cool_down / 2 + p.max_cool_down % 2) d
      then p.max_cool_down
      else cool_down_from p (d * 2) level

  unfoldable pub base_cool_down : BreakerParams F → ℕ → ℕ
  base_cool_down p level = cool_down_from p p.cool_down level

  -- The loop of maxLevel, on fuel.
  unfoldable pub max_level_from : BreakerParams F → ℕ → ℕ → ℕ
  max_level_from p zero l = l
  max_level_from p (suc fuel) l =
      let more = max_level_from p fuel (suc l) in
      if ltb (base_cool_down p l) p.max_cool_down then more else l

  unfoldable pub max_level : BreakerParams F → ℕ
  max_level p = max_level_from p p.max_cool_down 0

  -- The cool-down level that `open` moves to.
  unfoldable pub next_level : Breaker → ℕ → Bool → BreakerParams F → ℕ
  next_level b now from_probe p =
      if from_probe
      then (if ltb b.level (max_level p) then b.level + 1 else b.level)
      else if not b.ever_opened || leb (b.closed_at + p.max_cool_down) now
      then 0
      else b.level

module _ (fl : Float64) where
  open fl use {Float}

  -- recordClosed: the reason to trip and the faults that its rule counted.
  unfoldable pub ratio_trips : Breaker → ℕ → BreakerParams Float → Option (Reason × ℕ)
  ratio_trips b now p =
      let (total, faults) = sum b.win now in
      if fl.fltb (fl.of_int 0) p.failure_ratio
        && leb p.min_volume total
        && ltb 0 total
        && fl.fleb (fl.mul p.failure_ratio (fl.of_int total)) (fl.of_int faults)
      then some (failure_ratio, faults)
      else none

  unfoldable pub trip_reason : Breaker → ℕ → Verdict → BreakerParams Float → Option (Reason × ℕ)
  trip_reason b now v p =
      if streak_trips b now v p
      then some (consecutive_failures, b.streak_len)
      else ratio_trips b now p

  unfoldable pub record_closed :
      Breaker → ℕ → Verdict → BreakerParams Float → Breaker × Option (Reason × ℕ)
  record_closed b now neutral p = (b, none)
  record_closed b now v p = let b' = count_outcome b now v in (b', trip_reason b' now v p)

  -- base * (1 + 0.2 * (2 * rnd - 1)), clamped to 1 ns and the largest cool-down.
  unfoldable pub jittered : BreakerParams Float → ℕ → Float → ℕ
  jittered p base rnd =
      let factor =
        fl.add (fl.lit 1 0) (fl.mul (fl.lit 2 1) (fl.sub (fl.mul (fl.lit 2 0) rnd) (fl.lit 1 0))) in
      min (max (pos_part (fl.trunc (fl.mul (fl.of_int base) factor))) 1) p.max_cool_down

  -- open, with the random number that it draws.
  unfoldable pub open_breaker : Breaker → ℕ → Bool → BreakerParams Float → Float → Breaker
  open_breaker b now from_probe p rnd =
      let level = next_level b now from_probe p in
      let d = jittered p (base_cool_down p level) rnd in
      record b {
        level = level;
        ever_opened = true;
        ejected_at = if from_probe then b.ejected_at else now;
        state = opened;
        cool_down = d;
        open_until = now + d;
        epoch = b.epoch + 1;
        tickets = [];
        successes = 0;
        suppressed = false;
      }

unfoldable pub close_breaker : Breaker → ℕ → Breaker
close_breaker b now = record b {
  state = closed;
  closed_at = now;
  tickets = [];
  successes = 0;
  win = reset b.win;
  streak_len = 0;
  streak_pos = 0;
  suppressed = false;
}
