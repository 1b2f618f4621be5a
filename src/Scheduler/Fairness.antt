-- ===== src/Scheduler/Fairness.antt =====
-- Round robin (internal/scheduler/scheduler.go): whose turn it is after any number of turns.
use native.Mathlib.Nat.{mod-lt, mod-eq_of_lt, mod_self, suc-mod}
use server_flow.Prelude.{
  ℕ, zero, suc, ◌+◌, ◌%◌, ◌≤◌, ◌<◌, ◌≡◌, refl, sym, ap, ◌∙◌, inl, inr, Bool, true, false, not, List,
  [], ◌∷◌, arith, ltb, get_elem?, get_or, length, count, count-le-length, All, Bool-cases,
}
use server_flow.Prelude.Bytes.{Bytes, bytes_eq, bytes_ltb, bytes_ltb_irrefl, bytes_ltb_trans}
use server_flow.Prelude.Assoc.{lookup, lookup-insert_self}
use server_flow.Scheduler.Rotor.{Rotor, next, first_after, or_first, last_of}

module _ {A : Type 0} (id : A → Bytes) where
  -- The IDs grow strictly.
  abbrev pub Ascending : List A → Type 0
  Ascending [] = Unit
  Ascending (w ∷ ws) = All (λ v. bytes_ltb (id w) (id v) ≡ true) ws × Ascending ws

  -- The ID is not after `last`.
  abbrev pub is_passed : Bytes → A → Bool
  is_passed last v = not (bytes_ltb last (id v))

  count_after :
      (last : Bytes) (w : A) (ws : List A)
      → bytes_ltb last (id w) ≡ true
      → All (λ v. bytes_ltb (id w) (id v) ≡ true) ws
      → count (is_passed last) ws ≡ 0
  count_after last w [] h a = refl
  count_after last w (v ∷ vs) h a =
      rw (bytes_ltb_trans last (id w) (id v) h a.0) (count_after last w vs h a.1)

  count_behind :
      (w : A) (ws : List A)
      → All (λ v. bytes_ltb (id w) (id v) ≡ true) ws
      → count (is_passed (id w)) ws ≡ 0
  count_behind w [] a = refl
  count_behind w (v ∷ vs) a = rw a.0 (count_behind w vs a.1)

  get_or-Before :
      (w : A) (ws : List A) (i : ℕ) (d : A)
      → All (λ v. bytes_ltb (id w) (id v) ≡ true) ws
      → i < length ws
      → bytes_ltb (id w) (id (get_or ws i d)) ≡ true
  get_or-Before w [] i d a h = elim h [ ]
  get_or-Before w (v ∷ ws) zero d a h = a.0
  get_or-Before w (v ∷ ws) (suc i) d a h = get_or-Before w ws i d a.1 (omega arith)

  first_after-get_elem :
      (last : Bytes) (ws : List A)
      → Ascending ws
      → first_after id last ws ≡ get_elem? ws (count (is_passed last) ws)
  unfolding first_after
  first_after-get_elem last [] s = refl
  first_after-get_elem last (w ∷ ws) s = elim (Bool-cases (bytes_ltb last (id w))) [
    | inl t ↦ rw (t, count_after last w ws t s.0) refl
    | inr f ↦ rw f (first_after-get_elem last ws s.1)
  ]

  -- No ID is before one that is before it.
  not_before : (u v : Bytes) → bytes_ltb u v ≡ true → bytes_ltb v u ≡ false
  not_before u v h = elim (Bool-cases (bytes_ltb v u)) [
    | inl t ↦ absurd (ground (arith, bytes_ltb_trans u v u h t, bytes_ltb_irrefl u))
    | inr f ↦ f
  ]

  -- The position of a worker is the number of those before it.
  count-passed :
      (ws : List A) (i : ℕ) (d : A)
      → Ascending ws
      → i < length ws
      → count (is_passed (id (get_or ws i d))) ws ≡ suc i
  count-passed [] i d s h = elim h [ ]
  count-passed (w ∷ ws) zero d s h = rw (bytes_ltb_irrefl (id w)) (ap suc (count_behind w ws s.0))
  count-passed (w ∷ ws) (suc i) d s h =
      rw (not_before (id w) (id (get_or ws i d)) (get_or-Before w ws i d s.0 (omega arith)))
        (ap suc (count-passed ws i d s.1 (omega arith)))

  or_first-get_elem : (ws : List A) (i : ℕ) (w : A) → or_first (get_elem? ws i) w ≡ get_or ws i w
  or_first-get_elem [] i w = refl
  or_first-get_elem (v ∷ ws) zero w = refl
  or_first-get_elem (v ∷ ws) (suc i) w = or_first-get_elem ws i w

  get_or-length : (ws : List A) (d : A) → get_or ws (length ws) d ≡ d
  get_or-length [] d = refl
  get_or-length (w ∷ ws) d = get_or-length ws d

  not_below : (i n : ℕ) → i ≤ n → ltb i n ≡ false → i ≡ n
  not_below i n h f = ground arith

  -- Past the end, the turn goes to the first.
  get_or-mod :
      (w : A) (ws : List A) (i : ℕ)
      → i ≤ length (w ∷ ws)
      → get_or (w ∷ ws) i w ≡ get_or (w ∷ ws) (i % length (w ∷ ws)) w
  get_or-mod w ws i h = elim (Bool-cases (ltb i (length (w ∷ ws)))) [
    | inl t ↦ ap (λ k. get_or (w ∷ ws) k w) (sym (mod-eq_of_lt (ground arith)))
    | inr f ↦
        ap (λ k. get_or (w ∷ ws) k w) (not_below i (length (w ∷ ws)) h f)
        ∙ get_or-length (w ∷ ws) w
        ∙ ap (λ k. get_or (w ∷ ws) k w)
            (sym (
              ap (λ k. k % length (w ∷ ws)) (not_below i (length (w ∷ ws)) h f)
              ∙ mod_self (length (w ∷ ws))))
  ]

  -- How many workers are not after the last one handed out.
  unfoldable pub turns_before : Rotor → Bytes → List A → ℕ
  turns_before r model ws = count (is_passed (last_of (lookup model r))) ws

  next-get_or :
      (r : Rotor) (model : Bytes) (w : A) (ws : List A)
      → Ascending (w ∷ ws)
      → (next id r model w ws).1
        ≡ get_or (w ∷ ws) (turns_before r model (w ∷ ws) % length (w ∷ ws)) w
  unfolding next turns_before
  next-get_or r model w ws s =
      ap (λ o. or_first o w) (first_after-get_elem (last_of (lookup model r)) (w ∷ ws) s)
      ∙ or_first-get_elem (w ∷ ws) _ w
      ∙ get_or-mod w ws _ (count-le-length (is_passed (last_of (lookup model r))) (w ∷ ws))

  -- The rotor after a number of turns among the same workers.
  abbrev pub spin : ℕ → Rotor → Bytes → A → List A → Rotor
  spin zero r model w ws = r
  spin (suc n) r model w ws = (next id (spin n r model w ws) model w ws).0

  turns_before-next :
      (r : Rotor) (model : Bytes) (w : A) (ws : List A)
      → Ascending (w ∷ ws)
      → turns_before (next id r model w ws).0 model (w ∷ ws)
        ≡ suc (turns_before r model (w ∷ ws) % length (w ∷ ws))
  unfolding turns_before next
  turns_before-next r model w ws s =
      ap (λ o. count (is_passed (last_of o)) (w ∷ ws))
        (lookup-insert_self model (id (next id r model w ws).1) r)
      ∙ ap (λ v. count (is_passed (id v)) (w ∷ ws)) (next-get_or r model w ws s)
      ∙ count-passed (w ∷ ws) _ w s (mod-lt _ (omega arith))

  turns_before-spin :
      (n : ℕ) (r : Rotor) (model : Bytes) (w : A) (ws : List A)
      → Ascending (w ∷ ws)
      → turns_before (spin n r model w ws) model (w ∷ ws) % length (w ∷ ws)
        ≡ (turns_before r model (w ∷ ws) + n) % length (w ∷ ws)
  turns_before-spin zero r model w ws s = ap (λ k. k % length (w ∷ ws)) (omega arith)
  turns_before-spin (suc n) r model w ws s =
      let m = length (w ∷ ws) in
      let before = turns_before (spin n r model w ws) model (w ∷ ws) in
      let start = turns_before r model (w ∷ ws) in
      ap (λ k. k % m) (turns_before-next (spin n r model w ws) model w ws s)
      ∙ ap (λ k. suc k % m) (turns_before-spin n r model w ws s)
      ∙ sym (suc-mod (start + n) m)
      ∙ ap (λ k. k % m) (omega arith)

  -- Round robin among workers in order of their IDs, which are distinct: whatever was handed out before, the choices of
  -- successive turns go through the list in order, from the first worker after the last one handed out, and around its end.
  -- So each worker has one turn in as many turns as there are workers.
  pub next-spin :
      (n : ℕ) (r : Rotor) (model : Bytes) (w : A) (ws : List A)
      → Ascending (w ∷ ws)
      → (next id (spin n r model w ws) model w ws).1
        ≡ get_or (w ∷ ws) ((turns_before r model (w ∷ ws) + n) % length (w ∷ ws)) w
  next-spin n r model w ws s =
      next-get_or (spin n r model w ws) model w ws s
      ∙ ap (λ i. get_or (w ∷ ws) i w) (turns_before-spin n r model w ws s)
