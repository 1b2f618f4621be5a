-- ===== src/Events.antt =====
-- pkg/protocol/events.go: the lifecycle events of a request, and what a consumer checks before it trusts one. SHA-256 is an
-- argument. The texts of errors, which name a field and never its value, are left out.
use server_flow.Prelude.{
  ℕ, zero, suc, ◌+◌, ◌*◌, Bool, true, false, ◌&&◌, ◌||◌, not, Option, none, some, List, [], ◌∷◌,
  ◌++◌, ltb, leb, nat_beq, if◌then◌else◌, length, take,
}
use server_flow.Prelude.Bytes.{Bytes, ascii, bytes_beq}
use server_flow.Prelude.Int.{ℤ, pos, negsuc}
use server_flow.Auth.Key.{hex}
pub mod Checks
pub mod Payloads
pub mod Carried
pub mod Valid
mod Tests

abbrev pub event_schema_version : ℕ
event_schema_version = 1

abbrev pub max_event_tokens : ℕ
max_event_tokens = 10000000000

abbrev pub max_event_millis : ℕ
max_event_millis = 1000000000000

abbrev pub max_event_attempts : ℕ
max_event_attempts = 16

abbrev pub event_received : Bytes
event_received = ascii "inference.request.received"

abbrev pub event_routed : Bytes
event_routed = ascii "inference.request.routed"

abbrev pub event_first_token : Bytes
event_first_token = ascii "inference.request.first_token"

abbrev pub event_completed : Bytes
event_completed = ascii "inference.request.completed"

abbrev pub event_failed : Bytes
event_failed = ascii "inference.request.failed"

-- The closed set of failure classes.
abbrev pub failure_classes : List Bytes
failure_classes =
    ascii "no_capacity"
    ∷ ascii "worker_unavailable"
    ∷ ascii "worker_error"
    ∷ ascii "timeout"
    ∷ ascii "client_closed"
    ∷ ascii "internal"
    ∷ []

abbrev pub tokens_from_estimate : Bytes
tokens_from_estimate = ascii "estimate"

abbrev pub token_sources : List Bytes
token_sources = ascii "usage" ∷ ascii "chunks" ∷ tokens_from_estimate ∷ []

abbrev pub max_event_id : ℕ
max_event_id = 80

abbrev pub max_event_short : ℕ
max_event_short = 64

abbrev pub max_event_model : ℕ
max_event_model = 128

pub data EventError : Type 0 where
  invalid version_unsupported : EventError

pub record ReceivedData : Type 0 where
  pub stream : Bool
  pub estimated_cost_tokens : ℤ

pub record RoutedData : Type 0 where
  pub attempt_number : ℤ
  pub strategy : Bytes

pub record FirstTokenData : Type 0 where
  pub ttft_ms : ℤ

pub record AttemptData : Type 0 where
  pub attempt_id : Bytes
  pub number : ℤ
  pub worker_id : Bytes
  pub outcome : Bytes
  pub failure_class : Bytes
  pub duration_ms : ℤ

pub record TerminalData : Type 0 where
  pub stream : Bool
  pub http_status : ℤ
  pub duration_ms : ℤ
  pub ttft_ms : ℤ
  pub input_tokens : Option ℤ
  pub output_tokens : Option ℤ
  pub tokens_source : Bytes
  pub estimated_cost_tokens : ℤ
  pub failure_class : Bytes
  pub attempts : List AttemptData

-- A timestamp of 0 is the zero time.
pub record Event : Type 0 where
  pub event_id : Bytes
  pub event_type : Bytes
  pub schema_version : ℤ
  pub timestamp : ℕ
  pub source : Bytes
  pub request_id : Bytes
  pub attempt_id : Bytes
  pub tenant_id : Bytes
  pub api_key_id : Bytes
  pub model : Bytes
  pub worker_id : Bytes
  pub received : Option ReceivedData
  pub routed : Option RoutedData
  pub first_token : Option FirstTokenData
  pub terminal : Option TerminalData

unfoldable pub is_terminal_event_type : Bytes → Bool
is_terminal_event_type t = bytes_beq t event_completed || bytes_beq t event_failed

-- An error, or what the rest of the checks says.
unfoldable pub and_then : Option EventError → Option EventError → Option EventError
and_then none rest = rest
and_then (some why) rest = some why

unfoldable pub refuse_if : Bool → Option EventError
refuse_if true = some invalid
refuse_if false = none

abbrev pub is_control : ℕ → Bool
is_control c = ltb c 32 || nat_beq c 127

abbrev pub any_control : Bytes → Bool
any_control [] = false
any_control (c ∷ s) = is_control c || any_control s

abbrev pub is_empty : Bytes → Bool
is_empty s = nat_beq (length s) 0

unfoldable pub check_string : Bytes → ℕ → Bool → Option EventError
check_string v most required =
    and_then (refuse_if (required && is_empty v))
      (and_then (refuse_if (ltb most (length v))) (refuse_if (any_control v)))

abbrev pub has_prefix : Bytes → Bytes → Bool
has_prefix prefix v = bytes_beq (take (length prefix) v) prefix

unfoldable pub check_prefixed : Bytes → Bytes → Bool → Option EventError
check_prefixed v prefix required =
    and_then (check_string v max_event_id required)
      (refuse_if (not (is_empty v) && not (has_prefix prefix v)))

-- lo ≤ v ≤ hi
abbrev pub is_within : ℕ → ℕ → ℤ → Bool
is_within lo hi (pos n) = leb lo n && leb n hi
is_within lo hi (negsuc n) = false

abbrev pub is_positive : ℤ → Bool
is_positive (pos n) = ltb 0 n
is_positive (negsuc n) = false

abbrev pub is_given {ℓ} : {A : Type ℓ} → Option A → Bool
is_given none = false
is_given (some a) = true

abbrev pub is_count : Option ℤ → Bool
is_count none = true
is_count (some n) = is_within 0 max_event_tokens n

abbrev pub is_one_of : Bytes → List Bytes → Bool
is_one_of v [] = false
is_one_of v (x ∷ xs) = bytes_beq v x || is_one_of v xs

unfoldable pub check_attempt : AttemptData → Option EventError
check_attempt a = and_then (check_prefixed a.attempt_id (ascii "att_") true) (
    and_then (check_string a.worker_id max_event_short false) (
      and_then (check_string a.outcome max_event_short true) (
        and_then (check_string a.failure_class max_event_short false) (
          refuse_if
            (not (is_positive a.number) || not (is_within 0 max_event_millis a.duration_ms))))))

unfoldable pub check_attempts : List AttemptData → Option EventError
check_attempts [] = none
check_attempts (a ∷ rest) = and_then (check_attempt a) (check_attempts rest)

unfoldable pub validate_terminal : Bytes → TerminalData → Option EventError
validate_terminal event_type t = and_then (refuse_if (not (is_within 100 599 t.http_status))) (
    and_then
      (refuse_if (
        not (is_within 0 max_event_millis t.duration_ms)
        || not (is_within 0 max_event_millis t.ttft_ms)
        || not (is_within 0 max_event_tokens t.estimated_cost_tokens)))
      (and_then (refuse_if (not (is_count t.input_tokens) || not (is_count t.output_tokens))) (
        and_then (refuse_if (not (is_one_of t.tokens_source token_sources))) (
          and_then
            (refuse_if (
              bytes_beq t.tokens_source tokens_from_estimate
              && (is_given t.input_tokens || is_given t.output_tokens)))
            (and_then
              (refuse_if (
                if bytes_beq event_type event_failed
                then not (is_one_of t.failure_class failure_classes)
                else not (is_empty t.failure_class)))
              (and_then (refuse_if (ltb max_event_attempts (length t.attempts)))
                (check_attempts t.attempts)))))))

abbrev pub one_if : Bool → ℕ
one_if true = 1
one_if false = 0

-- The payload that an event type needs, checked; a missing one is refused.
abbrev pub needs {ℓ} : {A : Type ℓ} → Option A → (A → Option EventError) → Option EventError
needs none check = some invalid
needs (some payload) check = check payload

abbrev pub check_received : ReceivedData → Option EventError
check_received d = refuse_if (not (is_within 0 max_event_tokens d.estimated_cost_tokens))

abbrev pub check_routed : Bytes → RoutedData → Option EventError
check_routed attempt_id d =
    and_then (refuse_if (is_empty attempt_id || not (is_positive d.attempt_number)))
      (check_string d.strategy max_event_short false)

abbrev pub check_first_token : FirstTokenData → Option EventError
check_first_token d = refuse_if (not (is_within 0 max_event_millis d.ttft_ms))

abbrev pub payloads : Event → ℕ
payloads e =
    one_if (is_given e.received)
    + one_if (is_given e.routed)
    + one_if (is_given e.first_token)
    + one_if (is_given e.terminal)

unfoldable pub validate_payload : Event → Option EventError
validate_payload e = and_then (refuse_if (not (nat_beq (payloads e) 1))) (
    if bytes_beq e.event_type event_received
    then needs e.received check_received
    else if bytes_beq e.event_type event_routed
    then needs e.routed (check_routed e.attempt_id)
    else if bytes_beq e.event_type event_first_token
    then needs e.first_token check_first_token
    else if is_terminal_event_type e.event_type
    then needs e.terminal (validate_terminal e.event_type)
    else some invalid)

-- The check of schema_version.
abbrev pub check_version : ℤ → Option EventError
check_version (pos n) =
    if nat_beq n event_schema_version
    then none
    else if ltb event_schema_version n
    then some version_unsupported
    else some invalid
check_version (negsuc n) = some invalid

module _ (sha256 : Bytes → Bytes) where
  unfoldable pub new_event_id : Bytes → Bytes → Bytes → Bytes
  new_event_id request_id event_type attempt_id =
      ascii "evt_" ++ take 32 (hex (sha256 (request_id ++ (0 ∷ event_type) ++ (0 ∷ attempt_id))))

  unfoldable pub validate : Event → Option EventError
  validate e = and_then (check_version e.schema_version) (
      and_then (check_prefixed e.event_id (ascii "evt_") true) (
        and_then (check_prefixed e.request_id (ascii "req_") true) (
          and_then (check_prefixed e.attempt_id (ascii "att_") false) (
            and_then (check_prefixed e.api_key_id (ascii "key_") false) (
              and_then (check_prefixed e.tenant_id (ascii "ten_") false) (
                and_then (check_string e.source max_event_short true) (
                  and_then (check_string e.model max_event_model false) (
                    and_then (check_string e.worker_id max_event_short false) (
                      and_then (refuse_if (nat_beq e.timestamp 0)) (
                        and_then
                          (refuse_if (
                            not (
                              bytes_beq e.event_id
                                (new_event_id e.request_id e.event_type e.attempt_id))))
                          (validate_payload e)))))))))))
