-- ===== src/Auth/Lru.antt =====
-- internal/auth/lru.go: a map with a bound, which forgets what was used longest ago. The list of items has the most recently
-- used one first; the Go map from a key to its list element is a lookup in the list.
use server_flow.Prelude.{
  ℕ, zero, suc, ◌+◌, ◌-◌, ◌≤◌, ◌≡◌, refl, inl, inr, Option, none, some, [], ◌∷◌, ltb, arith,
  if◌then◌else◌, if_either, length, All, Option-cases,
}
use server_flow.Prelude.Bytes.{Bytes, bytes_eq}
use server_flow.Prelude.Assoc.{
  Assoc, lookup, delete, lookup-All, length-delete-le, length-delete_old, delete-All,
}

pub record Lru (V : Type 0) : Type 0 where
  pub max : ℕ
  pub order : Assoc Bytes V

module _ {V : Type 0} where
  unfoldable pub new_lru : ℕ → Lru V
  new_lru max = record { max = max; order = [] }

  -- order.MoveToFront
  abbrev pub to_front : Bytes → V → Lru V → Lru V
  to_front key val c = record c { order = (key, val) ∷ delete key c.order }

  abbrev pub got : Lru V → Bytes → Option V → Lru V × Option V
  got c key none = (c, none)
  got c key (some val) = (to_front key val c, some val)

  unfoldable pub get : Bytes → Lru V → Lru V × Option V
  get key c = got c key (lookup key c.order)

  -- The list without its last item.
  unfoldable pub drop_last : Assoc Bytes V → Assoc Bytes V
  drop_last [] = []
  drop_last (x ∷ []) = []
  drop_last (x ∷ y ∷ xs) = x ∷ drop_last (y ∷ xs)

  -- The loop of put, on fuel.
  unfoldable pub evict : ℕ → ℕ → Assoc Bytes V → Assoc Bytes V
  evict zero max order = order
  evict (suc fuel) max order =
      let rest = evict fuel max (drop_last order) in if ltb max (length order) then rest else order

  abbrev pub put_over : Lru V → Bytes → V → Option V → Lru V
  put_over c key val (some old) = to_front key val c
  put_over c key val none =
      let order = (key, val) ∷ c.order in record c { order = evict (length order) c.max order }

  unfoldable pub put : Bytes → V → Lru V → Lru V
  put key val c = put_over c key val (lookup key c.order)

  unfoldable pub remove : Bytes → Lru V → Lru V
  remove key c = record c { order = delete key c.order }

  unfoldable pub len : Lru V → ℕ
  len c = length c.order

  length-drop_last : (xs : Assoc Bytes V) → length (drop_last xs) ≡ length xs - 1
  unfolding drop_last
  length-drop_last [] = refl
  length-drop_last (x ∷ []) = refl
  length-drop_last (x ∷ y ∷ xs) = omega (arith, length-drop_last (y ∷ xs))

  length-evict :
      (fuel max : ℕ) (xs : Assoc Bytes V)
      → length xs ≤ max + fuel
      → length (evict fuel max xs) ≤ max
  unfolding evict
  length-evict zero max xs h = omega (arith, h)
  length-evict (suc fuel) max xs h =
      if_either (λ (ys : Assoc Bytes V). length ys ≤ max) (ltb max (length xs))
        (λ t. length-evict fuel max (drop_last xs) (omega (arith, length-drop_last xs, h)))
        (λ f. ground arith)

  module _ (P : Bytes × V → Type 0) where
    drop_last-All : (xs : Assoc Bytes V) → All P xs → All P (drop_last xs)
    unfolding drop_last
    drop_last-All [] a = tt
    drop_last-All (x ∷ []) a = tt
    drop_last-All (x ∷ y ∷ xs) a = (a.0, drop_last-All (y ∷ xs) a.1)

    evict-All : (fuel max : ℕ) (xs : Assoc Bytes V) → All P xs → All P (evict fuel max xs)
    unfolding evict
    evict-All zero max xs a = a
    evict-All (suc fuel) max xs a =
        if_either (All P) (ltb max (length xs))
          (λ t. evict-All fuel max (drop_last xs) (drop_last-All xs a)) (λ f. a)

    -- A bound, not exceeded, and items with `P`.
    abbrev pub Holds : ℕ → Lru V → Type 0
    Holds n c = (c.max ≡ n) × (length c.order ≤ n) × All P c.order

    to_front-Holds :
        (n : ℕ) (key : Bytes) (val old : V) (c : Lru V)
        → lookup key c.order ≡ some old
        → P (key, val)
        → Holds n c
        → Holds n (to_front key val c)
    to_front-Holds n key val old c e p h = (
      h.0,
      omega (arith, h.1, length-delete_old key old c.order e),
      (p, delete-All P key c.order h.2),
    )

    pub get-Holds : (n : ℕ) (key : Bytes) (c : Lru V) → Holds n c → Holds n (get key c).0
    unfolding get
    get-Holds n key c h = elim (Option-cases (lookup key c.order)) [
      | inl none_there ↦ rw none_there h
      | inr (val, there) ↦
          rw there (to_front-Holds n key val val c there (lookup-All P key val c.order h.2 there) h)
    ]

    pub put-Holds :
        (n : ℕ) (key : Bytes) (val : V) (c : Lru V)
        → P (key, val)
        → Holds n c
        → Holds n (put key val c)
    unfolding put
    put-Holds n key val c p h = elim (Option-cases (lookup key c.order)) [
      | inl none_there ↦ rw none_there (
        h.0,
        omega (
          arith,
          length-evict (suc (length c.order)) c.max ((key, val) ∷ c.order) (omega arith),
          h.0,
        ),
        evict-All _ c.max _ (p, h.2),
      )
      | inr (old, there) ↦ rw there (to_front-Holds n key val old c there p h)
    ]

    pub remove-Holds : (n : ℕ) (key : Bytes) (c : Lru V) → Holds n c → Holds n (remove key c)
    unfolding remove
    remove-Holds n key c h =
        (h.0, omega (arith, h.1, length-delete-le key c.order), delete-All P key c.order h.2)

    -- What is read has `P`.
    abbrev pub Reads : Bytes → Option V → Type 0
    Reads key none = Unit
    Reads key (some val) = P (key, val)

    pub get-Reads : (n : ℕ) (key : Bytes) (c : Lru V) → Holds n c → Reads key (get key c).1
    unfolding get
    get-Reads n key c h = elim (Option-cases (lookup key c.order)) [
      | inl none_there ↦ rw none_there tt
      | inr (val, there) ↦ rw there (lookup-All P key val c.order h.2 there)
    ]
