-- ===== src/Events/Carried.antt =====
-- Which payload an event carries that Validate of pkg/protocol/events.go accepts.
use server_flow.Prelude.{
  ◌+◌, ◌≡◌, refl, sym, ap, ◌∙◌, Bool, true, false, not, Option, none, nat_beq, nat_beq_iff, arith,
  if_either,
}
use server_flow.Prelude.Bytes.{Bytes, bytes_beq, bytes_beq_iff}
use server_flow.Events.Checks.{some≢none, passes, allowed, Given}
use server_flow.Events.{
  Event, EventError, refuse_if, is_given, one_if, needs, payloads, check_received, check_routed,
  check_first_token, validate_terminal, validate_payload, is_terminal_event_type, event_received,
  event_routed, event_first_token, event_completed, event_failed,
}
use server_flow.Events.Payloads.{
  Reported, validate_terminal-Reported, Received, Routed, FirstToken, check_received-Received,
  check_routed-Routed, check_first_token-FirstToken, needs-Given, absent-Given,
}

-- The payload that is there is the one of the event's type.
abbrev pub Matched : Event → Type 0
Matched e =
    (is_given e.received ≡ bytes_beq e.event_type event_received)
    × (is_given e.routed ≡ bytes_beq e.event_type event_routed)
    × (is_given e.first_token ≡ bytes_beq e.event_type event_first_token)
    × (is_given e.terminal ≡ is_terminal_event_type e.event_type)

-- One of four, and which.
one_of_four :
    (a b c d : Bool)
    → one_if a + one_if b + one_if c + one_if d ≡ 1
    → a ≡ true
    → (b ≡ false) × (c ≡ false) × (d ≡ false)
one_of_four a b c d h e = (ground arith, ground arith, ground arith)

-- A type is none of the others.
not_type : (t u v : Bytes) → bytes_beq t u ≡ true → bytes_beq u v ≡ false → bytes_beq t v ≡ false
not_type t u v h k = ap (λ x. bytes_beq x v) ((bytes_beq_iff t u).0 h) ∙ k

no_terminal :
    (t u : Bytes)
    → bytes_beq t u ≡ true
    → bytes_beq u event_completed ≡ false
    → bytes_beq u event_failed ≡ false
    → is_terminal_event_type t ≡ false
unfolding is_terminal_event_type
no_terminal t u h k l = rw (not_type t u event_completed h k, not_type t u event_failed h l) refl

-- The payload that is there is in bounds.
abbrev pub InBounds : Event → Type 0
InBounds e =
    Given Received e.received
    × Given (Routed e.attempt_id) e.routed
    × Given FirstToken e.first_token
    × Given (Reported e.event_type) e.terminal

abbrev pub Carried : Event → Option EventError → Type 0
Carried e o = o ≡ none → Matched e × InBounds e

module _ (e : Event) (single : payloads e ≡ 1) where
  given_received :
      bytes_beq e.event_type event_received ≡ true → Carried e (needs e.received check_received)
  unfolding bytes_beq
  given_received t n =
      let (g, ok) = needs-Given Received check_received e.received check_received-Received n in
      let (p, q, r) =
        one_of_four (is_given e.received) (is_given e.routed) (is_given e.first_token)
          (is_given e.terminal) single g in
      (
        (
          g ∙ sym t,
          p ∙ sym (not_type e.event_type event_received event_routed t refl),
          q ∙ sym (not_type e.event_type event_received event_first_token t refl),
          r ∙ sym (no_terminal e.event_type event_received t refl refl),
        ),
        (
          ok,
          absent-Given (Routed e.attempt_id) e.routed p,
          absent-Given FirstToken e.first_token q,
          absent-Given (Reported e.event_type) e.terminal r,
        ),
      )

  given_routed :
      bytes_beq e.event_type event_received ≡ false
      → bytes_beq e.event_type event_routed ≡ true
      → Carried e (needs e.routed (check_routed e.attempt_id))
  unfolding bytes_beq
  given_routed f1 t n =
      let (g, ok) =
        needs-Given (Routed e.attempt_id) (check_routed e.attempt_id) e.routed
          (check_routed-Routed e.attempt_id) n in
      let (p, q, r) =
        one_of_four (is_given e.routed) (is_given e.received) (is_given e.first_token)
          (is_given e.terminal) (omega (arith, single)) g in
      (
        (
          p ∙ sym f1,
          g ∙ sym t,
          q ∙ sym (not_type e.event_type event_routed event_first_token t refl),
          r ∙ sym (no_terminal e.event_type event_routed t refl refl),
        ),
        (
          absent-Given Received e.received p,
          ok,
          absent-Given FirstToken e.first_token q,
          absent-Given (Reported e.event_type) e.terminal r,
        ),
      )

  given_first_token :
      bytes_beq e.event_type event_received ≡ false
      → bytes_beq e.event_type event_routed ≡ false
      → bytes_beq e.event_type event_first_token ≡ true
      → Carried e (needs e.first_token check_first_token)
  unfolding bytes_beq
  given_first_token f1 f2 t n =
      let (g, ok) =
        needs-Given FirstToken check_first_token e.first_token check_first_token-FirstToken n in
      let (p, q, r) =
        one_of_four (is_given e.first_token) (is_given e.received) (is_given e.routed)
          (is_given e.terminal) (omega (arith, single)) g in
      (
        (
          p ∙ sym f1,
          q ∙ sym f2,
          g ∙ sym t,
          r ∙ sym (no_terminal e.event_type event_first_token t refl refl),
        ),
        (
          absent-Given Received e.received p,
          absent-Given (Routed e.attempt_id) e.routed q,
          ok,
          absent-Given (Reported e.event_type) e.terminal r,
        ),
      )

  given_terminal :
      bytes_beq e.event_type event_received ≡ false
      → bytes_beq e.event_type event_routed ≡ false
      → bytes_beq e.event_type event_first_token ≡ false
      → is_terminal_event_type e.event_type ≡ true
      → Carried e (needs e.terminal (validate_terminal e.event_type))
  given_terminal f1 f2 f3 t n =
      let (g, ok) =
        needs-Given (Reported e.event_type) (validate_terminal e.event_type) e.terminal
          (validate_terminal-Reported e.event_type) n in
      let (p, q, r) =
        one_of_four (is_given e.terminal) (is_given e.received) (is_given e.routed)
          (is_given e.first_token) (omega (arith, single)) g in
      (
        (p ∙ sym f1, q ∙ sym f2, r ∙ sym f3, g ∙ sym t),
        (
          absent-Given Received e.received p,
          absent-Given (Routed e.attempt_id) e.routed q,
          absent-Given FirstToken e.first_token r,
          ok,
        ),
      )

pub validate_payload-Carried : (e : Event) → Carried e (validate_payload e)
unfolding validate_payload
validate_payload-Carried e h =
    let (count, chosen) = passes (refuse_if (not (nat_beq (payloads e) 1))) _ h in
    let single : payloads e ≡ 1 =
      (nat_beq_iff (payloads e) 1).0
        (ground (arith, allowed (not (nat_beq (payloads e) 1)) count)) in
    if_either (Carried e) (bytes_beq e.event_type event_received) (given_received e single)
      (λ f1.
        if_either (Carried e) (bytes_beq e.event_type event_routed) (given_routed e single f1)
          (λ f2.
            if_either (Carried e) (bytes_beq e.event_type event_first_token)
              (given_first_token e single f1 f2)
              (λ f3.
                if_either (Carried e) (is_terminal_event_type e.event_type)
                  (given_terminal e single f1 f2 f3) (λ f4 n. absurd (some≢none n)))))
      chosen
