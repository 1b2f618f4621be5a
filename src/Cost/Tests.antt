-- ===== src/Cost/Tests.antt =====
-- internal/cost/estimate.go on concrete texts, and its theorems at them.
use server_flow.Prelude.{ℕ, ◌*◌, ◌≤◌, ◌≡◌, refl, [], ◌∷◌, List, ltb, arith, if◌then◌else◌}
use server_flow.Prelude.Bytes.{Bytes, ascii}
use server_flow.Prelude.Fixed.{fixed}
use server_flow.Protocol.{Message}
use server_flow.Cost.Estimate.{
  text_counts, text_tokens, charge_messages, estimate, estimate_request_cost, estimate_cost,
  estimate_exact, text_tokens_bounds,
}
use server_flow.Cost.Work.{default_weights, sane, work}

program : Unit {0}
unfolding text_counts text_tokens charge_messages estimate estimate_request_cost estimate_cost
    default_weights sane work
program = tt

-- The width that the first byte of a character announces, and 0 for the empty text.
abbrev width : Bytes → ℕ
width [] = 0
width (c ∷ s) = if ltb c 192 then 1 else if ltb c 224 then 2 else if ltb c 240 then 3 else 4

width-least : (c : ℕ) (s : Bytes) → 1 ≤ width (c ∷ s)
width-least c s = ground arith

width-most : (s : Bytes) → width s ≤ 4
width-most [] = omega arith
width-most (c ∷ s) = ground arith

abbrev greeting : List Message
greeting = (record { role = ascii "user"; content = ascii "hello" }) ∷ []

-- Two bytes of one character, and three ASCII ones.
mixed : text_tokens width (195 ∷ 169 ∷ 97 ∷ 98 ∷ 99 ∷ []) ≡ 2
unfolding program
mixed = refl

cost_small : estimate_request_cost width greeting [] 40 0 100 ≡ 122
unfolding program
cost_small = refl

cost_huge : estimate_cost width greeting [] 5000000000 100 ≡ 4294967296
unfolding program
cost_huge = refl

weighted : work fixed 10 5 (default_weights fixed) ≡ 15
unfolding program
weighted = refl

estimate_exact_example : estimate_request_cost width greeting [] 40 0 100 ≡ 122
unfolding program
estimate_exact_example = estimate_exact width greeting [] 40 0 100

text_tokens_bounds_example :
    (5 ≤ 4 * text_tokens width (195 ∷ 169 ∷ 97 ∷ 98 ∷ 99 ∷ []))
    × (text_tokens width (195 ∷ 169 ∷ 97 ∷ 98 ∷ 99 ∷ []) ≤ 5)
text_tokens_bounds_example =
    text_tokens_bounds width width-least width-most (195 ∷ 169 ∷ 97 ∷ 98 ∷ 99 ∷ [])
