-- ===== src/Prelude/Assoc.antt =====
-- Go maps as association lists with distinct keys. The order of the entries stands for Go's
-- unspecified order of iteration.
use Prim.Native.Nat.{ℕ, suc, ◌+◌, ◌≤◌}
use mathlib.Core.Path.{◌≡◌, refl, ap, subst, subst₂}
use mathlib.Core.Logic.{inl, inr}
use mathlib.Core.Bool.{Bool, true, false}
use mathlib.Core.Option.{Option, none, some}
use mathlib.Core.List.{List, [], ◌∷◌}
use native.Mathlib.Omega.{arith}
use server_flow.Prelude.Tests.{Comparable, ◌==◌, if◌then◌else◌, Bool-cases}
use server_flow.Prelude.Lists.{length, count, keep, All}

abbrev pub Assoc {ℓ κ} : Type ℓ → Type κ → Type (ℓ ⊔ κ)
Assoc K V = List (K × V)

module _ {ℓ κ} {K : Type ℓ} {V : Type κ} ⦃e : Comparable K⦄ where
  -- m[k], if it is there
  unfoldable pub lookup : (key : K) (entries : Assoc K V) → Option V
  lookup key [] = none
  lookup key ((old, value) ∷ rest) = if old == key then some value else lookup key rest

  -- m[k] = v
  unfoldable pub insert : (key : K) (value : V) (entries : Assoc K V) → Assoc K V
  insert key value [] = (key, value) ∷ []
  insert key value ((old, was) ∷ rest) =
      if old == key then (key, value) ∷ rest else (old, was) ∷ insert key value rest

  -- delete(m, k)
  unfoldable pub delete : K → Assoc K V → Assoc K V
  delete k [] = []
  delete k ((j, w) ∷ m) = if j == k then delete k m else (j, w) ∷ delete k m

  -- What is read after a write: the value, under its own key, and what was there, under another.
  pub lookup-insert :
      (key other : K) (value : V) (entries : Assoc K V)
      → lookup other (insert key value entries)
        ≡ (if key == other then some value else lookup other entries)
  unfolding insert lookup
  lookup-insert key other value [] = refl
  lookup-insert key other value ((old, was) ∷ rest) =
      let below = lookup-insert key other value rest in
      ground (arith, below, e.same_iff old key, e.same_iff old other, e.same_iff key other)

  pub lookup-insert_self : (k : K) (v : V) (m : Assoc K V) → lookup k (insert k v m) ≡ some v
  lookup-insert_self k v m = ground (arith, lookup-insert k k v m, e.same_iff k k)

  pub lookup-delete :
      (k j : K) (m : Assoc K V) → lookup j (delete k m) ≡ (if k == j then none else lookup j m)
  unfolding lookup delete
  lookup-delete k j [] = ground arith
  lookup-delete k j ((i, w) ∷ m) =
      ground (arith, e.same_iff k j, e.same_iff i k, e.same_iff i j, lookup-delete k j m)

  pub length-delete-le : (k : K) (m : Assoc K V) → length (delete k m) ≤ length m
  unfolding delete
  length-delete-le k [] = omega arith
  length-delete-le k ((i, w) ∷ m) = ground (arith, length-delete-le k m)

  pub length-insert-le : (k : K) (v : V) (m : Assoc K V) → length (insert k v m) ≤ suc (length m)
  unfolding insert
  length-insert-le k v [] = omega arith
  length-insert-le k v ((i, w) ∷ m) = ground (arith, length-insert-le k v m)

  pub length-insert_old :
      (k : K) (v w : V) (m : Assoc K V) → lookup k m ≡ some w → length (insert k v m) ≡ length m
  unfolding insert lookup
  length-insert_old k v w [] h = ground arith
  length-insert_old k v w ((i, u) ∷ m) h = ground (arith, length-insert_old k v w m)

  -- Each key stands once.
  abbrev pub Unique : Assoc K V → Type κ
  Unique [] = Unit
  Unique ((k, v) ∷ m) = (lookup k m ≡ none) × Unique m

  pub insert-Unique : (k : K) (v : V) (m : Assoc K V) → Unique m → Unique (insert k v m)
  unfolding insert
  insert-Unique k v [] u = (unfold lookup in refl, tt)
  insert-Unique k v ((i, w) ∷ m) u =
      ground (arith, insert-Unique k v m, lookup-insert k i v m, e.same_iff i k, e.same_iff k i)

  pub delete-Unique : (k : K) (m : Assoc K V) → Unique m → Unique (delete k m)
  unfolding delete
  delete-Unique k [] u = tt
  delete-Unique k ((i, w) ∷ m) u = ground (arith, delete-Unique k m, lookup-delete k i m)

pub none≢some {ℓ} : {A : Type ℓ} {a : A} → none ≡ some a → ⊥
none≢some h = cc

abbrev pub one : Bool → ℕ
one true = 1
one false = 0

module _ {ℓ κ} {K : Type ℓ} {V : Type κ} ⦃e : Comparable K⦄ where
  -- Replacing an entry changes a count by what the two entries weigh.
  pub count-insert_old :
      (p : K × V → Bool) (k : K) (v w : V) (m : Assoc K V)
      → lookup k m ≡ some w
      → count p (insert k v m) + one (p (k, w)) ≡ count p m + one (p (k, v))
  unfolding insert lookup
  count-insert_old p k v w [] h = ground arith
  count-insert_old p k v w ((i, u) ∷ m) h = elim (Bool-cases (i == k)) [
    | inl same ↦ let s = (e.same_iff i k).0 same in ground (arith, ap (λ t. p (t, w)) s)
    | inr other ↦ ground (arith, count-insert_old p k v w m)
  ]

  -- Reading the first entry, and past it.
  pub lookup-cons_hit :
      (i k : K) (w v : V) (m : Assoc K V) → (i == k) ≡ true → lookup k ((i, w) ∷ m) ≡ some v → w ≡ v
  unfolding lookup
  lookup-cons_hit i k w v m h e = ground arith

  pub lookup-cons_miss :
      (i k : K) (w : V) (m : Assoc K V) → (i == k) ≡ false → lookup k ((i, w) ∷ m) ≡ lookup k m
  unfolding lookup
  lookup-cons_miss i k w m h = rw h

  pub lookup-keep-none :
      (p : K × V → Bool) (k : K) (m : Assoc K V) → lookup k m ≡ none → lookup k (keep p m) ≡ none
  unfolding lookup
  lookup-keep-none p k [] h = refl
  lookup-keep-none p k ((i, u) ∷ m) h = ground (arith, lookup-keep-none p k m)

  pub keep-Unique : (p : K × V → Bool) (m : Assoc K V) → Unique m → Unique (keep p m)
  keep-Unique p [] u = tt
  keep-Unique p ((i, w) ∷ m) u = ground (arith, keep-Unique p m u.1, lookup-keep-none p i m u.0)

  -- A property of every entry.
  pub lookup-All {μ} :
      (P : K × V → Type μ) (k : K) (v : V) (m : Assoc K V)
      → All P m
      → lookup k m ≡ some v
      → P (k, v)
  unfolding lookup
  lookup-All P k v [] a h = absurd (none≢some h)
  lookup-All P k v ((i, w) ∷ m) a h = elim (Bool-cases (i == k)) [
    | inl same ↦
        let s = (e.same_iff i k).0 same in
        let t : w ≡ v = ground arith in subst₂ (λ x y. P (x, y)) s t a.0
    | inr other ↦ lookup-All P k v m a.1 (rw other at h)
  ]

  pub insert-All {μ} :
      (P : K × V → Type μ) (k : K) (v : V) (m : Assoc K V)
      → All P m
      → P (k, v)
      → All P (insert k v m)
  unfolding insert
  insert-All P k v [] a h = (h, tt)
  insert-All P k v ((i, w) ∷ m) a h = elim (Bool-cases (i == k)) [
    | inl same ↦ rw same (h, a.1)
    | inr other ↦ rw other (a.0, insert-All P k v m a.1 h)
  ]

module _ {ℓ κ} {K : Type ℓ} {V : Type κ} ⦃e : Comparable K⦄ where
  pub delete-All {μ} : (P : K × V → Type μ) (k : K) (m : Assoc K V) → All P m → All P (delete k m)
  unfolding delete
  delete-All P k [] a = tt
  delete-All P k ((i, w) ∷ m) a = elim (Bool-cases (i == k)) [
    | inl same ↦ rw same (delete-All P k m a.1)
    | inr other ↦ rw other (a.0, delete-All P k m a.1)
  ]

  pub length-delete_old :
      (k : K) (v : V) (m : Assoc K V) → lookup k m ≡ some v → suc (length (delete k m)) ≤ length m
  unfolding lookup delete
  length-delete_old k v [] h = absurd (none≢some h)
  length-delete_old k v ((i, w) ∷ m) h =
      ground (arith, length-delete_old k v m, length-delete-le k m)

  delete_absent : (k : K) (m : Assoc K V) → lookup k m ≡ none → delete k m ≡ m
  unfolding lookup delete
  delete_absent k [] h = refl
  delete_absent k ((i, w) ∷ m) h = ground (arith, delete_absent k m)

  pair_eq : {i k : K} {w v : V} → i ≡ k → w ≡ v → ◌≡◌ {A = K × V} (i, w) (k, v)
  pair_eq p q = ground (arith, p, q)

  -- What a count loses with an entry that stands once.
  pub count-delete_old :
      (p : K × V → Bool) (k : K) (v : V) (m : Assoc K V)
      → Unique m
      → lookup k m ≡ some v
      → count p (delete k m) + one (p (k, v)) ≡ count p m
  unfolding lookup delete
  count-delete_old p k v [] u h = absurd (none≢some h)
  count-delete_old p k v ((i, w) ∷ m) u h = elim (Bool-cases (i == k)) [
    | inl same ↦
        let s = (e.same_iff i k).0 same in
        let absent : lookup k m ≡ none = subst (λ j. lookup j m ≡ none) s u.0 in
        let t : w ≡ v = ground arith in
        let gone = ap (count p) (delete_absent k m absent) in
        let weight = ap (λ (x : K × V). one (p x)) (pair_eq s t) in ground (arith, gone, weight)
    | inr other ↦ ground (arith, count-delete_old p k v m)
  ]

  pub count-insert_new :
      (p : K × V → Bool) (k : K) (v : V) (m : Assoc K V)
      → lookup k m ≡ none
      → count p (insert k v m) ≡ count p m + one (p (k, v))
  unfolding insert lookup
  count-insert_new p k v [] h = ground arith
  count-insert_new p k v ((i, u) ∷ m) h = ground (arith, count-insert_new p k v m)

pub keep-All {ℓ κ} :
    {A : Type ℓ} (P : A → Type κ) (p : A → Bool) (xs : List A) → All P xs → All P (keep p xs)
keep-All P p [] a = tt
keep-All P p (x ∷ xs) a = elim (Bool-cases (p x)) [
  | inl e ↦ rw e (a.0, keep-All P p xs a.1)
  | inr e ↦ rw e (keep-All P p xs a.1)
]
