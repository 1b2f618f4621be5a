-- ===== src/Resilience/Window/History.antt =====
-- The sliding window after a history of increments and resets (internal/resilience/doc.go).
use server_flow.Prelude.{
  ℕ, zero, suc, ◌+◌, ◌-◌, ◌/◌, max, ◌≤◌, ◌<◌, ◌≡◌, ◌≢◌, refl, sym, ap, subst, ◌∙◌, inl, inr, true,
  false, ◌&&◌, not, List, [], ◌∷◌, nat_beq, nat_eq, nat_beq_iff, arith, Bool-cases, length, get_or,
  set, replicate, map, count, length-set, length-replicate, get_or-set_self, get_or-set_ne,
}
use server_flow.Prelude.Assoc.{one}
use server_flow.Prelude.Int.{pos}
use server_flow.Resilience.Window.{
  bucket_width, Slot, SlidingWindow, Which, first, second, empty_slot, new_sliding_window,
  bucket_of, slot_of, bump_slot, outside, add_at, add, sum_slots, sum, reset,
}
use server_flow.Resilience.Window.Counts.{
  pick, is_same, share, Good, Event, counts, Holds, own_slot, sum_slots-set, slot_of_lem, stale_lem,
  share-bump, own_slot-Good,
}

Good-later : (n cur later i : ℕ) (s : Slot) → cur ≤ later → Good n cur i s → Good n later i s
Good-later n cur later i s h (inl g) = inl g
Good-later n cur later i s h (inr g) = inr (g.0, omega (arith, g.1))

module _ (w : SlidingWindow) (cur : ℕ) (log : List Event) (e : Event) (v : Holds w cur log)
    (h : cur ≤ bucket_of e.now) where
  abbrev idx : ℕ
  idx = bucket_of e.at

  abbrev at_call : ℕ
  at_call = bucket_of e.now

  ignored-Holds : outside w.n at_call idx ≡ true → Holds w at_call (e ∷ log)
  ignored-Holds out = record {
    positive = v.positive;
    size = v.size;
    good = λ i l. Good-later w.n cur at_call i (get_or w.slots i empty_slot) h (v.good i l);
    sums = λ which later le. v.sums which later (omega arith) ∙ skipped which later le;
  }
    where
      skipped :
          (which : Which) (later : ℕ)
          → at_call ≤ later
          → count (counts which w.n later) log ≡ count (counts which w.n later) (e ∷ log)
      skipped which later le = ground arith

  abbrev bumped : List Slot
  bumped =
      set w.slots (slot_of w idx)
        (bump_slot e.which (pos 1) (own_slot (get_or w.slots (slot_of w idx) empty_slot) idx))

  module _ (inside : outside w.n at_call idx ≡ false) where
    abbrev old : Slot
    old = get_or w.slots (slot_of w idx) empty_slot

    slot_lt : slot_of w idx < length w.slots
    slot_lt = omega (arith, (slot_of_lem w idx v.positive).1, v.size)

    bumped-Good : (i : ℕ) → i < w.n → Good w.n at_call i (get_or bumped i empty_slot)
    bumped-Good i l = elim (Bool-cases (nat_beq (slot_of w idx) i)) [
      | inl same ↦
          let q = (nat_beq_iff (slot_of w idx) i).0 same in
          let s = (slot_of_lem w idx v.positive).0 in
          subst (λ j. Good w.n at_call j (get_or bumped j empty_slot)) q
            (subst (λ x. Good w.n at_call (slot_of w idx) x)
              (sym (
                get_or-set_self w.slots (slot_of w idx)
                  (bump_slot e.which (pos 1) (own_slot old idx)) empty_slot slot_lt))
              (subst (λ j. Good w.n at_call j (bump_slot e.which (pos 1) (own_slot old idx)))
                (sym s) (own_slot-Good w.n at_call idx e.which old (ground arith))))
      | inr other ↦
          subst (λ x. Good w.n at_call i x)
            (sym (
              get_or-set_ne w.slots (slot_of w idx) i (bump_slot e.which (pos 1) (own_slot old idx))
                empty_slot (λ q. differs other q)))
            (Good-later w.n cur at_call i (get_or w.slots i empty_slot) h (v.good i l))
    ]
      where
        differs : {a b : ℕ} → nat_beq a b ≡ false → a ≡ b → ⊥
        differs {a} {b} f q = ground arith

    bumped-sums :
        (which : Which) (later : ℕ)
        → at_call ≤ later
        → pick which (sum_slots w.n later bumped) ≡ count (counts which w.n later) (e ∷ log)
    bumped-sums which later le =
        let before = v.sums which later (omega arith) in
        let moved =
          sum_slots-set which w.n later w.slots (slot_of w idx)
            (bump_slot e.which (pos 1) (own_slot old idx)) slot_lt in
        let more = share-bump which e.which w.n idx later old (stale which later le) in
        counted which later (omega (arith, before, moved, more))
      where
        stale :
            (which : Which) (later : ℕ)
            → at_call ≤ later
            → old.stamp ≢ idx
            → share which w.n later old ≡ 0
        stale which later le ne =
            let (s, lt) = slot_of_lem w idx v.positive in
            stale_lem which w.n at_call later (slot_of w idx) idx old v.positive
              (Good-later w.n cur at_call (slot_of w idx) old h (v.good (slot_of w idx) lt)) (sym s)
              inside le ne

        counted :
            (which : Which) (later : ℕ) {x : ℕ}
            → x
              ≡ count (counts which w.n later) log
                + one (is_same which e.which && not (outside w.n later idx))
            → x ≡ count (counts which w.n later) (e ∷ log)
        counted which later q = ground (arith, q, inside)

    bumped-Holds : Holds (record w { slots = bumped }) at_call (e ∷ log)
    bumped-Holds = record {
      positive = v.positive;
      size =
          length-set w.slots (slot_of w idx) (bump_slot e.which (pos 1) (own_slot old idx))
          ∙ v.size;
      good = bumped-Good;
      sums = bumped-sums;
    }

add-Holds :
    (w : SlidingWindow) (cur : ℕ) (log : List Event) (e : Event)
    → Holds w cur log
    → cur ≤ bucket_of e.now
    → Holds (add w e.at e.now e.which (pos 1)) (bucket_of e.now) (e ∷ log)
unfolding add add_at
add-Holds w cur log e v h = elim (Bool-cases (outside w.n (bucket_of e.now) (bucket_of e.at))) [
  | inl out ↦ rw (out, add, add_at) (ignored-Holds w cur log e v h out)
  | inr inside ↦ rw (inside, add, add_at) (bumped-Holds w cur log e v h inside)
]

cleared : List Slot → List Slot
cleared slots = map (λ s. empty_slot) slots

get_or-cleared : (slots : List Slot) (i : ℕ) → get_or (cleared slots) i empty_slot ≡ empty_slot
unfolding cleared
get_or-cleared [] i = refl
get_or-cleared (s ∷ slots) zero = refl
get_or-cleared (s ∷ slots) (suc i) = get_or-cleared slots i

length-cleared : (slots : List Slot) → length (cleared slots) ≡ length slots
unfolding cleared
length-cleared [] = refl
length-cleared (s ∷ slots) = ap suc (length-cleared slots)

sum-cleared :
    (which : Which) (n cur : ℕ) (slots : List Slot)
    → pick which (sum_slots n cur (cleared slots)) ≡ 0
unfolding cleared sum_slots
sum-cleared first n cur [] = refl
sum-cleared second n cur [] = refl
sum-cleared first n cur (s ∷ slots) = ground (arith, sum-cleared first n cur slots)
sum-cleared second n cur (s ∷ slots) = ground (arith, sum-cleared second n cur slots)

-- All slots empty.
empty-Holds :
    (n cur : ℕ) (slots : List Slot)
    → 1 ≤ n
    → length slots ≡ n
    → Holds (record { n = n; slots = cleared slots }) cur []
empty-Holds n cur slots h l = record {
  positive = h;
  size = length-cleared slots ∙ l;
  good = λ i lt. subst (λ s. Good n cur i s) (sym (get_or-cleared slots i)) (inl (refl, refl));
  sums = λ which later le. sum-cleared which n later slots;
}

cleared-replicate : (n : ℕ) → cleared (replicate n empty_slot) ≡ replicate n empty_slot
unfolding cleared
cleared-replicate zero = refl
cleared-replicate (suc n) = ap (λ xs. empty_slot ∷ xs) (cleared-replicate n)

new-Holds : (window cur : ℕ) → Holds (new_sliding_window window) cur []
unfolding new_sliding_window
new-Holds window cur =
    let n = (new_sliding_window window).n in
    subst (λ slots. Holds (record { n = n; slots = slots }) cur []) (cleared-replicate n)
      (empty-Holds n cur (replicate n empty_slot) (ground arith) (length-replicate n empty_slot))

-- What happens to a window: an increment, or a reset.
pub data Use : Type 0 where
  hit : (e : Event) → Use
  clear : Use

abbrev pub use_window : SlidingWindow → List Use → SlidingWindow
use_window w [] = w
use_window w (hit e ∷ us) = use_window (add w e.at e.now e.which (pos 1)) us
use_window w (clear ∷ us) = use_window (reset w) us

-- The increments since the last reset, the latest first.
abbrev pub recorded : List Event → List Use → List Event
recorded es [] = es
recorded es (hit e ∷ us) = recorded (e ∷ es) us
recorded es (clear ∷ us) = recorded [] us

-- The clock does not run backwards, from `from` to `last`.
abbrev pub InOrder : ℕ → List Use → ℕ → Type 0
InOrder from [] last = from ≤ last
InOrder from (hit e ∷ us) last = (from ≤ e.now) × InOrder e.now us last
InOrder from (clear ∷ us) last = InOrder from us last

bucket_mono : (a b : ℕ) → a ≤ b → bucket_of a ≤ bucket_of b
bucket_mono a b h = omega arith

add-n : (w : SlidingWindow) (t now : ℕ) (which : Which) → (add w t now which (pos 1)).n ≡ w.n
unfolding add add_at
add-n w t now which = ground arith

reset-n : (w : SlidingWindow) → (reset w).n ≡ w.n
unfolding reset
reset-n w = refl

reset-Holds :
    (w : SlidingWindow) (cur : ℕ) (es : List Event) → Holds w cur es → Holds (reset w) cur []
unfolding reset cleared
reset-Holds w cur es v = empty-Holds w.n cur w.slots v.positive v.size

use_window-sum :
    (w : SlidingWindow) (from last : ℕ) (es : List Event) (us : List Use) (which : Which)
    → Holds w (bucket_of from) es
    → InOrder from us last
    → pick which (sum (use_window w us) last)
      ≡ count (counts which w.n (bucket_of last)) (recorded es us)
unfolding sum
use_window-sum w from last es [] which v o = v.sums which (bucket_of last) (bucket_mono from last o)
use_window-sum w from last es (hit e ∷ us) which v o =
    let w' = add w e.at e.now e.which (pos 1) in
    use_window-sum w' e.now last (e ∷ es) us which
      (add-Holds w (bucket_of from) es e v (bucket_mono from e.now o.0)) o.1
    ∙ ap (λ n. count (counts which n (bucket_of last)) (recorded (e ∷ es) us))
        (add-n w e.at e.now e.which)
use_window-sum w from last es (clear ∷ us) which v o =
    use_window-sum (reset w) from last [] us which (reset-Holds w (bucket_of from) es v) o
    ∙ ap (λ n. count (counts which n (bucket_of last)) (recorded [] us)) (reset-n w)

-- A new window that has seen increments and resets, under a clock that does not run backwards, sums exactly
-- the increments since the last reset that were not dated after their own call and whose second is one of the
-- last n, the present one included; n is the window in seconds, rounded up and at least 1.
pub sum-exact :
    (window last : ℕ) (us : List Use) (which : Which)
    → InOrder 0 us last
    → pick which (sum (use_window (new_sliding_window window) us) last)
      ≡ count
          (counts which (max ((window + bucket_width - 1) / bucket_width) 1) (bucket_of last))
          (recorded [] us)
sum-exact window last us which o =
    use_window-sum (new_sliding_window window) 0 last [] us which (new-Holds window (bucket_of 0)) o
    ∙ ap (λ n. count (counts which n (bucket_of last)) (recorded [] us)) size
  where
    size : (new_sliding_window window).n ≡ max ((window + bucket_width - 1) / bucket_width) 1
    size = unfold new_sliding_window in ground arith
