-- ===== src/Events/Payloads.antt =====
-- What the checks on the payloads in pkg/protocol/events.go say when they pass.
use server_flow.Prelude.{
  ◌≤◌, ◌≡◌, refl, Bool, true, false, ◌&&◌, ◌||◌, not, Option, none, some, List, [], ◌∷◌, arith,
  length, All, Among, if◌then◌else◌,
}
use server_flow.Prelude.Bytes.{Bytes, ascii, bytes_beq}
use server_flow.Prelude.Int.{ℤ}
use server_flow.Events.{
  EventError, ReceivedData, RoutedData, FirstTokenData, check_received, check_routed,
  check_first_token, AttemptData, TerminalData, check_attempt, check_attempts, is_given, is_one_of,
  is_empty, needs, validate_terminal, failure_classes, token_sources, tokens_from_estimate,
  event_failed,
}
use server_flow.Events.Checks.{
  some≢none, passes, allowed, Within, Positive, is_within-Within, is_positive-Positive, Given,
  is_count-Given, is_one_of-Among, Plain, check_string-Plain, Labelled, check_prefixed-Labelled,
}

-- An attempt with its texts and numbers in bounds.
abbrev pub Tried : AttemptData → Type 0
Tried a =
    Labelled 1 (ascii "att_") a.attempt_id
    × Plain 0 64 a.worker_id
    × Plain 1 64 a.outcome
    × Plain 0 64 a.failure_class
    × Positive a.number
    × Within 0 1000000000000 a.duration_ms

check_attempt-Tried : (a : AttemptData) → check_attempt a ≡ none → Tried a
unfolding check_attempt
check_attempt-Tried a h =
    let (id, h1) = passes _ _ h in
    let (worker, h2) = passes _ _ h1 in
    let (outcome, h3) = passes _ _ h2 in
    let (class, h4) = passes _ _ h3 in
    let numbers = allowed _ h4 in
    (
      check_prefixed-Labelled a.attempt_id (ascii "att_") true id,
      check_string-Plain a.worker_id 64 false worker,
      check_string-Plain a.outcome 64 true outcome,
      check_string-Plain a.failure_class 64 false class,
      is_positive-Positive a.number (ground arith),
      is_within-Within 0 1000000000000 a.duration_ms (ground arith),
    )

check_attempts-All : (xs : List AttemptData) → check_attempts xs ≡ none → All Tried xs
unfolding check_attempts
check_attempts-All [] h = tt
check_attempts-All (a ∷ xs) h =
    let (first, rest) = passes _ _ h in (check_attempt-Tried a first, check_attempts-All xs rest)

-- Beside an estimate there are no counts.
abbrev pub Counted : (estimated : Bool) (input output : Option ℤ) → Type 0
Counted true input output = (input ≡ none) × (output ≡ none)
Counted false input output = Unit

-- A failure has a class of the closed set, and another event has none.
abbrev pub Classed : (is_failure : Bool) (class : Bytes) → Type 0
Classed true class = Among class failure_classes
Classed false class = length class ≡ 0

-- A terminal payload: numbers in range, no counts beside an estimate, a failure class exactly on a failed event, and at most 16
-- attempts, each in bounds.
abbrev pub Reported : Bytes → TerminalData → Type 0
Reported event_type t =
    Within 100 599 t.http_status
    × Within 0 1000000000000 t.duration_ms
    × Within 0 1000000000000 t.ttft_ms
    × Within 0 10000000000 t.estimated_cost_tokens
    × Given (Within 0 10000000000) t.input_tokens
    × Given (Within 0 10000000000) t.output_tokens
    × Among t.tokens_source token_sources
    × Counted (bytes_beq t.tokens_source tokens_from_estimate) t.input_tokens t.output_tokens
    × Classed (bytes_beq event_type event_failed) t.failure_class
    × (length t.attempts ≤ 16)
    × All Tried t.attempts

estimated-Counted :
    (estimated : Bool) (input output : Option ℤ)
    → (estimated && (is_given input || is_given output)) ≡ false
    → Counted estimated input output
estimated-Counted false input output h = tt
estimated-Counted true none none h = (refl, refl)
estimated-Counted true none (some n) h = absurd (ground arith)
estimated-Counted true (some n) output h = absurd (ground arith)

failed-Classed :
    (is_failure : Bool) (class : Bytes)
    → (if is_failure then not (is_one_of class failure_classes) else not (is_empty class)) ≡ false
    → Classed is_failure class
failed-Classed true class h = is_one_of-Among class failure_classes (ground arith)
failed-Classed false class h = ground arith

pub validate_terminal-Reported :
    (event_type : Bytes) (t : TerminalData)
    → validate_terminal event_type t ≡ none
    → Reported event_type t
unfolding validate_terminal
validate_terminal-Reported event_type t h =
    let (a, h1) = passes _ _ h in
    let (b, h2) = passes _ _ h1 in
    let (c, h3) = passes _ _ h2 in
    let (d, h4) = passes _ _ h3 in
    let (f, h5) = passes _ _ h4 in
    let (g, h6) = passes _ _ h5 in
    let (k, tried) = passes _ _ h6 in
    let numbers = allowed _ b in
    let counts = allowed _ c in
    (
      is_within-Within 100 599 t.http_status (allowed _ a),
      is_within-Within 0 1000000000000 t.duration_ms (ground arith),
      is_within-Within 0 1000000000000 t.ttft_ms (ground arith),
      is_within-Within 0 10000000000 t.estimated_cost_tokens (ground arith),
      is_count-Given t.input_tokens (ground arith),
      is_count-Given t.output_tokens (ground arith),
      is_one_of-Among t.tokens_source token_sources (ground (arith, allowed _ d)),
      estimated-Counted _ t.input_tokens t.output_tokens (allowed _ f),
      failed-Classed _ t.failure_class (allowed _ g),
      ground (arith, allowed _ k),
      check_attempts-All t.attempts tried,
    )

-- The other payloads.
abbrev pub Received : ReceivedData → Type 0
Received d = Within 0 10000000000 d.estimated_cost_tokens

abbrev pub Routed : Bytes → RoutedData → Type 0
Routed attempt_id d = (1 ≤ length attempt_id) × Positive d.attempt_number × Plain 0 64 d.strategy

abbrev pub FirstToken : FirstTokenData → Type 0
FirstToken d = Within 0 1000000000000 d.ttft_ms

pub check_received-Received : (d : ReceivedData) → check_received d ≡ none → Received d
check_received-Received d h = is_within-Within 0 10000000000 d.estimated_cost_tokens (allowed _ h)

pub check_routed-Routed :
    (attempt_id : Bytes) (d : RoutedData) → check_routed attempt_id d ≡ none → Routed attempt_id d
check_routed-Routed attempt_id d h =
    let (a, strategy) = passes _ _ h in
    let told = allowed _ a in
    (
      ground arith,
      is_positive-Positive d.attempt_number (ground arith),
      check_string-Plain d.strategy 64 false strategy,
    )

pub check_first_token-FirstToken : (d : FirstTokenData) → check_first_token d ≡ none → FirstToken d
check_first_token-FirstToken d h = is_within-Within 0 1000000000000 d.ttft_ms (allowed _ h)

-- A payload that is needed is there and passes its check.
pub needs-Given {ℓ} :
    {A : Type ℓ} (P : A → Type 0) (check : A → Option EventError) (o : Option A)
    → ((a : A) → check a ≡ none → P a)
    → needs o check ≡ none
    → (is_given o ≡ true) × Given P o
needs-Given P check none good h = absurd (some≢none h)
needs-Given P check (some a) good h = (refl, good a h)

pub absent-Given {ℓ} : {A : Type ℓ} (P : A → Type 0) (o : Option A) → is_given o ≡ false → Given P o
absent-Given P none h = tt
absent-Given P (some a) h = absurd (ground arith)
