-- ===== src/Resilience/Window/Counts.antt =====
-- What the sliding window counts (internal/resilience/doc.go: add, sum, reset).
use server_flow.Prelude.{
  ℕ, zero, suc, ◌+◌, ◌/◌, ◌%◌, ◌≤◌, ◌<◌, ◌≡◌, ◌≢◌, refl, sym, ap, ◌∙◌, ◌⊎◌, inl, inr, Bool, true,
  false, ◌&&◌, not, List, [], ◌∷◌, ltb, leb, nat_beq, nat_beq_iff, ltb→lt, arith, if◌then◌else◌,
  Bool-cases, length, get_or, set, count,
}
use native.Mathlib.Nat.{
  div-add-mod, add-mod_right, mod-mod, mod-lt, lt_of_mul-lt-mul_left, mul-le-mul_left, mul-suc,
}
use server_flow.Prelude.Assoc.{one}
use server_flow.Prelude.Int.{pos}
use server_flow.Resilience.Window.{
  Slot, SlidingWindow, Which, first, second, empty_slot, bucket_of, slot_of, bump_slot, outside,
  sum_slots,
}

abbrev pub pick : Which → ℕ × ℕ → ℕ
pick first p = p.0
pick second p = p.1

abbrev pub is_same : Which → Which → Bool
is_same first first = true
is_same second second = true
is_same _ _ = false

abbrev pub tally : Which → Slot → ℕ
tally first s = s.firsts
tally second s = s.seconds

-- What a slot adds to the sum at bucket `cur`.
abbrev pub share : Which → ℕ → ℕ → Slot → ℕ
share which n cur s = if outside n cur s.stamp then 0 else tally which s

sum_slots-cons :
    (which : Which) (n cur : ℕ) (s : Slot) (slots : List Slot)
    → pick which (sum_slots n cur (s ∷ slots))
      ≡ share which n cur s + pick which (sum_slots n cur slots)
unfolding sum_slots
sum_slots-cons first n cur s slots = ground arith
sum_slots-cons second n cur s slots = ground arith

-- Replacing a slot changes the sum by what the two slots add.
pub sum_slots-set :
    (which : Which) (n cur : ℕ) (slots : List Slot) (i : ℕ) (x : Slot)
    → i < length slots
    → pick which (sum_slots n cur (set slots i x)) + share which n cur (get_or slots i empty_slot)
      ≡ pick which (sum_slots n cur slots) + share which n cur x
sum_slots-set which n cur [] i x h = omega arith
sum_slots-set which n cur (s ∷ slots) zero x h =
    omega (arith, sum_slots-cons which n cur s slots, sum_slots-cons which n cur x slots)
sum_slots-set which n cur (s ∷ slots) (suc i) x h = omega (
  arith,
  sum_slots-cons which n cur s slots,
  sum_slots-cons which n cur s (set slots i x),
  sum_slots-set which n cur slots i x (omega arith),
)

-- A slot is empty, or holds the counts of a bucket that belongs there and is not later than `cur`.
abbrev pub Good : ℕ → ℕ → ℕ → Slot → Type 0
Good n cur i s = ((s.firsts ≡ 0) × (s.seconds ≡ 0)) ⊎ ((s.stamp % n ≡ i) × (s.stamp ≤ cur))

-- An increment of a counter: the event's time, the time of the call and the counter.
pub record Event : Type 0 where
  pub at : ℕ
  pub now : ℕ
  pub which : Which

-- Does an event count at bucket `cur`: not later than its own call, and in one of the last `n` buckets?
abbrev pub counts : Which → ℕ → ℕ → Event → Bool
counts which n cur e =
    is_same which e.which
    && leb (bucket_of e.at) (bucket_of e.now)
    && ltb cur (bucket_of e.at + n)
    && leb (bucket_of e.at) cur

pub record Holds (w : SlidingWindow) (cur : ℕ) (log : List Event) : Type 0 where
  pub positive : 1 ≤ w.n
  pub size : length w.slots ≡ w.n
  pub good : (i : ℕ) → i < w.n → Good w.n cur i (get_or w.slots i empty_slot)
  pub sums :
      (which : Which) (later : ℕ)
      → cur ≤ later
      → pick which (sum_slots w.n later w.slots) ≡ count (counts which w.n later) log

-- The slot that `add` bumps, by the one that it finds.
abbrev pub own_slot : Slot → ℕ → Slot
own_slot old idx =
    if nat_beq old.stamp idx then old else record { stamp = idx; firsts = 0; seconds = 0 }

pub slot_of_lem :
    (w : SlidingWindow) (idx : ℕ) → 1 ≤ w.n → (slot_of w idx ≡ idx % w.n) × (slot_of w idx < w.n)
unfolding slot_of
slot_of_lem w idx h =
    (add-mod_right (idx % w.n) w.n ∙ mod-mod idx w.n, mod-lt (idx % w.n + w.n) (omega arith))

-- Different numbers with the same remainder lie at least `n` apart.
apart : (n a b : ℕ) → a % n ≡ b % n → a < b → a + n ≤ b
apart n a b e lt =
    let da = div-add-mod a n in
    let db = div-add-mod b n in
    let q = lt_of_mul-lt-mul_left n {m = a / n} {n = b / n} (omega arith) in
    let m = mul-le-mul_left {m = suc (a / n)} {n = b / n} n (omega arith) in
    omega (arith, mul-suc n (a / n))

-- A slot with another stamp holds nothing that still counts.
pub stale_lem :
    (which : Which) (n cur later i idx : ℕ) (s : Slot)
    → 1 ≤ n
    → Good n cur i s
    → idx % n ≡ i
    → outside n cur idx ≡ false
    → cur ≤ later
    → s.stamp ≢ idx
    → share which n later s ≡ 0
stale_lem first n cur later i idx s h (inl g) e inside le ne = ground (arith, g)
stale_lem second n cur later i idx s h (inl g) e inside le ne = ground (arith, g)
stale_lem which n cur later i idx s h (inr g) e inside le ne = elim (Bool-cases (ltb idx s.stamp)) [
  | inl t ↦ absurd (late t)
  | inr t ↦ ground (arith, old t)
]
  where
    in_window : (idx ≤ cur) × (cur < idx + n)
    in_window = ground arith

    late : ltb idx s.stamp ≡ true → ⊥
    late t =
        omega
          (arith, apart n idx s.stamp (e ∙ sym g.0) (ltb→lt _ _ t), in_window.0, in_window.1, g.1)

    old : ltb idx s.stamp ≡ false → s.stamp + n ≤ later
    old t =
        let lt : s.stamp < idx = ground arith in
        omega (arith, apart n s.stamp idx (g.0 ∙ sym e) lt, in_window.0)

-- What one increment adds to the share of its slot.
pub share-bump :
    (which k : Which) (n idx later : ℕ) (old : Slot)
    → (old.stamp ≢ idx → share which n later old ≡ 0)
    → share which n later (bump_slot k (pos 1) (own_slot old idx))
      ≡ share which n later old + one (is_same which k && not (outside n later idx))
share-bump which k n idx later old stale = elim (Bool-cases (nat_beq old.stamp idx)) [
  | inl t ↦ rw (t) (added which k old ((nat_beq_iff old.stamp idx).0 t))
  | inr t ↦
      rw (t, stale (λ e. differs t e))
        (added which k (record { stamp = idx; firsts = 0; seconds = 0 }) refl
          ∙ ap (λ x. x + one (is_same which k && not (outside n later idx))) (blank which))
]
  where
    differs : nat_beq old.stamp idx ≡ false → old.stamp ≡ idx → ⊥
    differs t e = ground arith

    blank :
        (which : Which) → share which n later (record { stamp = idx; firsts = 0; seconds = 0 }) ≡ 0
    blank first = ground arith
    blank second = ground arith

    added :
        (which k : Which) (s : Slot)
        → s.stamp ≡ idx
        → share which n later (bump_slot k (pos 1) s)
          ≡ share which n later s + one (is_same which k && not (outside n later idx))
    added first first s e = ground (arith, e)
    added first second s e = ground (arith, e)
    added second first s e = ground (arith, e)
    added second second s e = ground (arith, e)

pub own_slot-Good :
    (n cur idx : ℕ) (k : Which) (old : Slot)
    → idx ≤ cur
    → Good n cur (idx % n) (bump_slot k (pos 1) (own_slot old idx))
own_slot-Good n cur idx k old h = inr (ground arith)
