-- ===== src/Scheduler/Rotor.antt =====
-- internal/scheduler/scheduler.go: the rotor, which remembers for each model the last worker it handed out.
use server_flow.Prelude.{Option, none, some, List, [], ◌∷◌, if◌then◌else◌}
use server_flow.Prelude.Bytes.{Bytes, bytes_eq, bytes_ltb}
use server_flow.Prelude.Assoc.{Assoc, lookup, insert}

-- `last`: by model, the ID that was handed out last.
abbrev pub Rotor : Type 0
Rotor = Assoc Bytes Bytes

-- A missing entry reads as the empty ID.
abbrev pub last_of : Option Bytes → Bytes
last_of none = []
last_of (some id) = id

abbrev pub or_first {ℓ} : {A : Type ℓ} → Option A → A → A
or_first none w = w
or_first (some v) w = v

module _ {ℓ} {A : Type ℓ} (id : A → Bytes) where
  -- sort.Search over workers sorted by ID: the first one whose ID is after `last`.
  unfoldable pub first_after : Bytes → List A → Option A
  first_after last [] = none
  first_after last (w ∷ ws) = if bytes_ltb last (id w) then some w else first_after last ws

  -- `next` among the workers `w ∷ ws`: the one that it chooses, and what it remembers.
  unfoldable pub next : Rotor → Bytes → A → List A → Rotor × A
  next r model w ws =
      let chosen = or_first (first_after (last_of (lookup model r)) (w ∷ ws)) w in
      (insert model (id chosen) r, chosen)
