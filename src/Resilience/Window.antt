-- ===== src/Resilience/Window.antt =====
-- internal/resilience/doc.go: counts per whole second over the last n seconds, in a ring. Times are
-- nanoseconds since the epoch.
pub mod Counts
pub mod History
use server_flow.Prelude.{
  ℕ, ◌+◌, ◌-◌, ◌/◌, ◌%◌, Bool, ◌||◌, List, [], ◌∷◌, ltb, leb, nat_beq, if◌then◌else◌, get_or, set,
  replicate, map,
}
use server_flow.Prelude.Int.{ℤ, pos, pos_part, ◌+ℤ◌}

abbrev pub bucket_width : ℕ
bucket_width = 1000000000

-- `w.stamp[s]` and `w.vals[s]`.
pub record Slot : Type 0 where
  pub stamp : ℕ
  pub firsts : ℕ
  pub seconds : ℕ

pub record SlidingWindow : Type 0 where
  pub n : ℕ
  pub slots : List Slot

-- Counter 0 or 1.
pub data Which : Type 0 where
  first second : Which

abbrev pub empty_slot : Slot
empty_slot = record { stamp = 0; firsts = 0; seconds = 0 }

unfoldable pub new_sliding_window : ℕ → SlidingWindow
new_sliding_window window =
    let n = (window + bucket_width - 1) / bucket_width in
    let n' = if ltb n 1 then 1 else n in record { n = n'; slots = replicate n' empty_slot }

abbrev pub bucket_of : ℕ → ℕ
bucket_of t = t / bucket_width

unfoldable pub slot_of : SlidingWindow → ℕ → ℕ
slot_of w idx = (idx % w.n + w.n) % w.n

-- `v += delta`, and 0 if that is negative.
abbrev pub bump : ℕ → ℤ → ℕ
bump v delta = pos_part (pos v +ℤ delta)

abbrev pub bump_slot : Which → ℤ → Slot → Slot
bump_slot first delta s = record s { firsts = bump s.firsts delta }
bump_slot second delta s = record s { seconds = bump s.seconds delta }

-- `idx <= cur - n || idx > cur`, with the subtraction moved to the other side.
abbrev pub outside : ℕ → ℕ → ℕ → Bool
outside n cur idx = leb (idx + n) cur || ltb cur idx

-- The add of the source at the buckets of its two times.
unfoldable pub add_at : SlidingWindow → ℕ → ℕ → Which → ℤ → SlidingWindow
add_at w idx cur which delta =
    let s = slot_of w idx in
    let old = get_or w.slots s empty_slot in
    let own =
      if nat_beq old.stamp idx then old else record { stamp = idx; firsts = 0; seconds = 0 } in
    if outside w.n cur idx
    then w
    else record w { slots = set w.slots s (bump_slot which delta own) }

unfoldable pub add : SlidingWindow → ℕ → ℕ → Which → ℤ → SlidingWindow
add w t now which delta = add_at w (bucket_of t) (bucket_of now) which delta

unfoldable pub sum_slots : ℕ → ℕ → List Slot → ℕ × ℕ
sum_slots n cur [] = (0, 0)
sum_slots n cur (s ∷ slots) =
    let (a, b) = sum_slots n cur slots in
    if outside n cur s.stamp then (a, b) else (s.firsts + a, s.seconds + b)

unfoldable pub sum : SlidingWindow → ℕ → ℕ × ℕ
sum w now = sum_slots w.n (bucket_of now) w.slots

unfoldable pub reset : SlidingWindow → SlidingWindow
reset w = record w { slots = map (λ s. empty_slot) w.slots }
