-- ===== src/Events/Checks.antt =====
-- What the checks on single fields in pkg/protocol/events.go say when they pass.
use server_flow.Prelude.{
  ℕ, ◌≤◌, ◌≡◌, ◌≢◌, refl, inl, inr, ◌⊎◌, Bool, true, false, ◌&&◌, not, Option, none, some, List, [],
  ◌∷◌, nat_beq_iff, arith, length, take, All, Among, Bool-cases,
}
use server_flow.Prelude.Bytes.{Bytes, bytes_beq, bytes_beq_iff}
use server_flow.Prelude.Int.{ℤ, pos, negsuc}
use server_flow.Events.{
  EventError, and_then, refuse_if, any_control, has_prefix, check_string, check_prefixed, is_one_of,
  is_empty, is_within, is_positive, is_count, max_event_id,
}

pub some≢none : {A : Type 0} {a : A} → some a ≡ none → ⊥
some≢none e = cc

-- Of a chain of checks, each one passes.
pub passes : (a b : Option EventError) → and_then a b ≡ none → (a ≡ none) × (b ≡ none)
unfolding and_then
passes none b e = (refl, e)
passes (some why) b e = absurd (ground arith)

pub allowed : (b : Bool) → refuse_if b ≡ none → b ≡ false
unfolding refuse_if
allowed true e = absurd (ground arith)
allowed false e = refl

-- A number between two bounds, and one from 1 on.
abbrev pub Within : ℕ → ℕ → ℤ → Type 0
Within lo hi (pos n) = (lo ≤ n) × (n ≤ hi)
Within lo hi (negsuc n) = ⊥

abbrev pub Positive : ℤ → Type 0
Positive (pos n) = 1 ≤ n
Positive (negsuc n) = ⊥

pub is_within-Within : (lo hi : ℕ) (v : ℤ) → not (is_within lo hi v) ≡ false → Within lo hi v
is_within-Within lo hi (pos n) h = (ground arith, ground arith)
is_within-Within lo hi (negsuc n) h = absurd (ground arith)

pub is_positive-Positive : (v : ℤ) → not (is_positive v) ≡ false → Positive v
is_positive-Positive (pos n) h = ground arith
is_positive-Positive (negsuc n) h = absurd (ground arith)

-- What is there has the property.
abbrev pub Given {ℓ} : {A : Type ℓ} → (A → Type 0) → Option A → Type 0
Given P none = Unit
Given P (some a) = P a

pub is_count-Given : (v : Option ℤ) → not (is_count v) ≡ false → Given (Within 0 10000000000) v
is_count-Given none h = tt
is_count-Given (some v) h = is_within-Within 0 10000000000 v h

pub is_one_of-Among : (v : Bytes) (xs : List Bytes) → is_one_of v xs ≡ true → Among v xs
is_one_of-Among v [] h = absurd (ground arith)
is_one_of-Among v (x ∷ xs) h = elim (Bool-cases (bytes_beq v x)) [
  | inl same ↦ inl ((bytes_beq_iff v x).0 same)
  | inr other ↦ inr (is_one_of-Among v xs (ground arith))
]

-- No byte is a control character.
abbrev pub Printable : Bytes → Type 0
Printable v = All (λ c. (32 ≤ c) × (c ≢ 127)) v

any_control-Printable : (v : Bytes) → any_control v ≡ false → Printable v
any_control-Printable [] h = tt
any_control-Printable (c ∷ v) h = (
  (ground arith, λ e. let same = (nat_beq_iff c 127).1 e in ground arith),
  any_control-Printable v (ground arith),
)

-- The text has no control character, at most so many bytes, and at least so many.
abbrev pub Plain : ℕ → ℕ → Bytes → Type 0
Plain least most v = Printable v × (least ≤ length v) × (length v ≤ most)

-- How many bytes a text has at least that may be required.
abbrev pub least_length : Bool → ℕ
least_length true = 1
least_length false = 0

at_least :
    (v : Bytes) (required : Bool)
    → (required && is_empty v) ≡ false
    → least_length required ≤ length v
at_least v true h = ground arith
at_least v false h = omega arith

pub check_string-Plain :
    (v : Bytes) (most : ℕ) (required : Bool)
    → check_string v most required ≡ none
    → Plain (least_length required) most v
unfolding check_string
check_string-Plain v most required h =
    let (a, h1) = passes _ _ h in
    let (b, c) = passes _ _ h1 in
    (
      any_control-Printable v (allowed _ c),
      at_least v required (allowed _ a),
      ground (arith, allowed _ b),
    )

-- An identifier of at most 80 bytes, which begins with its prefix if it is not empty.
abbrev pub Labelled : ℕ → Bytes → Bytes → Type 0
Labelled least prefix v = Plain least 80 v × ((length v ≡ 0) ⊎ (take (length prefix) v ≡ prefix))

pub check_prefixed-Labelled :
    (v prefix : Bytes) (required : Bool)
    → check_prefixed v prefix required ≡ none
    → Labelled (least_length required) prefix v
unfolding check_prefixed
check_prefixed-Labelled v prefix required h =
    let (a, b) = passes _ _ h in
    (
      check_string-Plain v max_event_id required a,
      elim (Bool-cases (is_empty v)) [
        | inl t ↦ inl (ground arith)
        | inr f ↦
            let starts : has_prefix prefix v ≡ true = ground (arith, allowed _ b) in
            inr ((bytes_beq_iff (take (length prefix) v) prefix).0 starts)
      ],
    )
