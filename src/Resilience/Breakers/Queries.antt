-- ===== src/Resilience/Breakers/Queries.antt =====
-- The queries of internal/resilience/breakers.go. They apply the lazy transitions first, so they change the state. A
-- map is walked in the order of its entries when the call starts.
use server_flow.Prelude.{
  ℕ, ◌+◌, ◌-◌, ◌/◌, min, max, Bool, not, Option, none, some, List, [], ◌∷◌, ltb, if◌then◌else◌,
  length,
}
use server_flow.Prelude.Bytes.{Bytes, bytes_eq}
use server_flow.Prelude.Assoc.{Assoc}
use server_flow.Resilience.Breaker.{
  State, closed, half_open, opened, Key, Change, Breaker, is_closed,
}
use server_flow.Resilience.Breakers.{Breakers, find, unlock, advance_locked}

pub record Info : Type 0 where
  pub key : Key
  pub state : State
  pub eligible : Bool
  pub open_until : ℕ
  pub level : ℕ
  pub probes : ℕ

abbrev pub info_of : Breaker → Info
info_of b = record {
  key = b.key;
  state = b.state;
  eligible = b.eligible;
  open_until = b.open_until;
  level = b.level;
  probes = length b.tickets;
}

-- How many are open and half-open.
abbrev pub tally_state : State → ℕ × ℕ → ℕ × ℕ
tally_state closed n = n
tally_state half_open (opens, halves) = (opens, halves + 1)
tally_state opened (opens, halves) = (opens + 1, halves)

abbrev pub earlier : Option ℕ → ℕ → ℕ
earlier none d = d
earlier (some e) d = if ltb d e then d else e

-- The wait in whole seconds, rounded up; none stands for -1.
abbrev pub seconds_up : Option ℕ → ℕ
seconds_up none = 0
seconds_up (some d) = (d + 999999999) / 1000000000

module _ {F : Type 0} where
  -- The loop of Snapshot.
  unfoldable pub snapshot_from : Assoc Bytes Breaker → Breakers F → ℕ → Breakers F × List Info
  snapshot_from [] bs now = (bs, [])
  snapshot_from ((id, b) ∷ rest) bs now =
      let (bs', b') = advance_locked bs b now in
      let (last, infos) = snapshot_from rest bs' now in
      (last, if is_closed b'.state then infos else info_of b' ∷ infos)

  unfoldable pub snapshot : Breakers F → ℕ → (Breakers F × List Change) × List Info
  snapshot bs now = let (bs', infos) = snapshot_from bs.by_id bs now in (unlock bs', infos)

  unfoldable pub state_of : Breakers F → ℕ → Key → (Breakers F × List Change) × State
  state_of bs now k = elim (find bs k) [
    | none ↦ (unlock bs, closed)
    | some b ↦ let (bs', b') = advance_locked bs b now in (unlock bs', b'.state)
  ]

  -- The loop of Counts.
  unfoldable pub counts_from : Assoc Bytes Breaker → Breakers F → ℕ → Breakers F × (ℕ × ℕ)
  counts_from [] bs now = (bs, (0, 0))
  counts_from ((id, b) ∷ rest) bs now =
      let (bs', b') = advance_locked bs b now in
      let (last, n) = counts_from rest bs' now in
      (last, if b'.eligible then tally_state b'.state n else n)

  unfoldable pub counts : Breakers F → ℕ → (Breakers F × List Change) × ℕ × (ℕ × ℕ)
  counts bs now = let (bs', n) = counts_from bs.by_id bs now in (unlock bs', bs'.eligible, n)

  unfoldable pub suppressed_trips : Breakers F → (Breakers F × List Change) × ℕ
  suppressed_trips bs = (unlock bs, bs.suppressed)

  -- The loop of RetryAfter: it ends at a half-open breaker, or once the earliest wait is 0.
  unfoldable pub earliest_from :
      Assoc Bytes Breaker → Breakers F → ℕ → Option ℕ → Breakers F × Option ℕ
  earliest_from [] bs now earliest = (bs, earliest)
  earliest_from ((id, b) ∷ rest) bs now earliest =
      let (bs', b') = advance_locked bs b now in
      let wait = earlier earliest (b'.open_until - now) in
      let skip = earliest_from rest bs' now earliest in
      let next = earliest_from rest bs' now (some wait) in
      if not b'.eligible then skip else elim b'.state [
        | closed ↦ skip
        | half_open ↦ (bs', some 0)
        | opened ↦ if ltb 0 wait then next else (bs', some 0)
      ]

  unfoldable pub retry_after : Breakers F → ℕ → (Breakers F × List Change) × ℕ
  retry_after bs now =
      let (bs', earliest) = earliest_from bs.by_id bs now none in
      (unlock bs', min (max (seconds_up earliest) 1) 30)
