-- ===== src/Cost/Estimate.antt =====
-- internal/cost/estimate.go: the estimated tokens of a request. The width of the character that a text begins with
-- (utf8.DecodeRuneInString) is an argument.
use server_flow.Prelude.{
  ℕ, zero, suc, ◌+◌, ◌-◌, ◌*◌, ◌/◌, ◌^◌, ◌≤◌, ◌≡◌, min, ◌&&◌, List, [], ◌∷◌, ltb, leb, arith,
  if◌then◌else◌, length, drop, length-drop, ap, ◌∙◌, inl, inr, Bool-cases,
}
use server_flow.Prelude.Bytes.{Bytes}
use server_flow.Protocol.{Message}

abbrev pub chars_per_token : ℕ
chars_per_token = 3

abbrev pub per_message_overhead : ℕ
per_message_overhead = 4

abbrev pub reply_priming : ℕ
reply_priming = 3

-- 1 << 32
abbrev pub max_cost : ℕ
max_cost = 4294967296

-- What Estimate adds up, saturating.
abbrev pub saturate : ℕ → ℕ → ℕ
saturate total n = if ltb max_cost (total + n) then max_cost else total + n

module _ (rune_width : Bytes → ℕ) where
  -- The loop of textTokens, on fuel: the ASCII bytes and the other characters.
  unfoldable pub text_counts : ℕ → Bytes → ℕ × ℕ
  text_counts zero s = (0, 0)
  text_counts (suc fuel) [] = (0, 0)
  text_counts (suc fuel) (c ∷ s) =
      let width = if ltb c 128 then 1 else rune_width (c ∷ s) in
      let (ascii, wide) = text_counts fuel (drop width (c ∷ s)) in
      if ltb c 128 then (ascii + 1, wide) else (ascii, wide + 1)

  unfoldable pub text_tokens : Bytes → ℕ
  text_tokens s =
      let (ascii, wide) = text_counts (length s) s in
      (ascii + chars_per_token - 1) / chars_per_token + wide

  -- The loop over the messages: the tokens, and the bytes of text that they charge.
  unfoldable pub charge_messages : List Message → ℕ → ℕ → ℕ × ℕ
  charge_messages [] total counted = (total, counted)
  charge_messages (m ∷ ms) total counted =
      charge_messages ms
        (saturate (saturate (saturate total per_message_overhead) (text_tokens m.role))
          (text_tokens m.content))
        (counted + (length m.role + length m.content))

  -- Tokens for the bytes of the body that are not charged as text.
  abbrev pub rest_tokens : ℕ → ℕ → ℕ
  rest_tokens body_bytes counted = (body_bytes - counted + chars_per_token - 1) / chars_per_token

  -- The input tokens and the output budget. A limit that is not positive is 0.
  unfoldable pub estimate : List Message → Bytes → ℕ → ℕ → ℕ → ℕ × ℕ
  estimate msgs prompt body_bytes max_tokens limit =
      let (t1, c1) = charge_messages msgs 0 0 in
      let t2 = saturate t1 (text_tokens prompt) in
      let counted = c1 + length prompt in
      let t3 =
        if ltb 0 body_bytes && ltb counted body_bytes
        then saturate t2 (rest_tokens body_bytes counted)
        else t2 in
      let input = saturate t3 reply_priming in
      let out = if leb max_tokens 0 then limit else max_tokens in
      let output = if ltb (max_cost - input) out then max_cost - input else out in
      (if ltb (input + output) 1 then 1 else input, output)

  unfoldable pub estimate_request_cost : List Message → Bytes → ℕ → ℕ → ℕ → ℕ
  estimate_request_cost msgs prompt body_bytes max_tokens limit =
      let (input, output) = estimate msgs prompt body_bytes max_tokens limit in input + output

  unfoldable pub estimate_cost : List Message → Bytes → ℕ → ℕ → ℕ
  estimate_cost msgs prompt max_tokens limit = estimate_request_cost msgs prompt 0 max_tokens limit

  -- The same without saturation.
  abbrev pub message_tokens : List Message → ℕ
  message_tokens [] = 0
  message_tokens (m ∷ ms) =
      per_message_overhead + text_tokens m.role + text_tokens m.content + message_tokens ms

  abbrev pub message_bytes : List Message → ℕ
  message_bytes [] = 0
  message_bytes (m ∷ ms) = length m.role + length m.content + message_bytes ms

  charge_messages_lem :
      (ms : List Message) (total counted : ℕ)
      → charge_messages ms (min total max_cost) counted
        ≡ (min (total + message_tokens ms) max_cost, counted + message_bytes ms)
  unfolding charge_messages
  charge_messages_lem [] total counted = ground arith
  charge_messages_lem (m ∷ ms) total counted =
      let rest =
        charge_messages_lem ms
          (total + (per_message_overhead + text_tokens m.role + text_tokens m.content))
          (counted + (length m.role + length m.content)) in
      ap (λ t. charge_messages ms t (counted + (length m.role + length m.content)))
        (step total (text_tokens m.role) (text_tokens m.content))
      ∙ rest
      ∙ pair_eq (ap (λ t. min t max_cost) (omega arith)) (omega arith)
    where
      step :
          (t a b : ℕ)
          → saturate (saturate (saturate (min t max_cost) per_message_overhead) a) b
            ≡ min (t + (per_message_overhead + a + b)) max_cost
      step t a b = ground arith

      pair_eq : {a b c d : ℕ} → a ≡ b → c ≡ d → ◌≡◌ {A = ℕ × ℕ} (a, c) (b, d)
      pair_eq p q = ground (arith, p, q)

  -- Tokens of the input without a bound.
  abbrev pub input_tokens : List Message → Bytes → ℕ → ℕ
  input_tokens msgs prompt body_bytes =
      message_tokens msgs
      + text_tokens prompt
      + rest_tokens body_bytes (message_bytes msgs + length prompt)
      + reply_priming

  -- The cost of a request is the sum of its parts (the framing and the text of its messages, its prompt, three bytes
  -- a token for the rest of its body, the priming of the reply, and the output budget), or 2 ^ 32 if that is less. The budget
  -- is max_tokens if that is positive and the limit otherwise.
  pub estimate_exact :
      (msgs : List Message) (prompt : Bytes) (body_bytes max_tokens limit : ℕ)
      → estimate_request_cost msgs prompt body_bytes max_tokens limit
        ≡ min
            (input_tokens msgs prompt body_bytes + (if leb max_tokens 0 then limit else max_tokens))
            (2 ^ 32)
  unfolding estimate_request_cost estimate
  estimate_exact msgs prompt body_bytes max_tokens limit =
      let e : charge_messages msgs 0 0
          ≡ (min (0 + message_tokens msgs) max_cost, 0 + message_bytes msgs) =
        charge_messages_lem msgs 0 0 in
      ground (arith, ap (λ (p : ℕ × ℕ). p.0) e, ap (λ (p : ℕ × ℕ). p.1) e)

  module _ (least : (c : ℕ) (s : Bytes) → 1 ≤ rune_width (c ∷ s))
      (most : (s : Bytes) → rune_width s ≤ 4) where
    text_counts_bounds :
        (fuel : ℕ) (s : Bytes)
        → length s ≤ fuel
        → let (ascii, wide) = text_counts fuel s in
          (ascii + wide ≤ length s) × (length s ≤ ascii + 4 * wide)
    unfolding text_counts
    text_counts_bounds zero [] h = (omega arith, omega arith)
    text_counts_bounds zero (c ∷ s) h = absurd (omega arith)
    text_counts_bounds (suc fuel) [] h = (omega arith, omega arith)
    text_counts_bounds (suc fuel) (c ∷ s) h =
        let d = length-drop (rune_width (c ∷ s)) (c ∷ s) in
        let one = least c s in
        let four = most (c ∷ s) in
        let plain = text_counts_bounds fuel s (omega arith) in
        let wide =
          text_counts_bounds fuel (drop (rune_width (c ∷ s)) (c ∷ s)) (omega (arith, d, one)) in
        elim (Bool-cases (ltb c 128)) [
          | inl t ↦ rw t (omega (arith, plain.0), omega (arith, plain.1))
          | inr t ↦ rw t (omega (arith, wide.0, d, one), omega (arith, wide.1, d, four))
        ]

    -- Where a character is decoded from at least one byte of a text that is not empty, and never from more than four bytes, a
    -- text costs at least a token for every four bytes, and at most one for each byte.
    pub text_tokens_bounds :
        (s : Bytes) → (length s ≤ 4 * text_tokens s) × (text_tokens s ≤ length s)
    unfolding text_tokens
    text_tokens_bounds s =
        let (few, many) = text_counts_bounds (length s) s (omega arith) in
        (omega arith, omega arith)
