-- ===== src/Events/Tests.antt =====
-- pkg/protocol/events.go on concrete events, and its theorem at one. The hash of these tests is always the same.
use server_flow.Prelude.{◌≡◌, refl, false, none, some, [], ◌∷◌, replicate}
use server_flow.Prelude.Bytes.{Bytes, ascii, bytes_beq}
use server_flow.Prelude.Int.{pos}
use server_flow.Auth.Key.{hex}
use server_flow.Events.{
  Event, invalid, version_unsupported, and_then, refuse_if, check_string, check_prefixed,
  check_attempt, check_attempts, validate_terminal, validate_payload, is_terminal_event_type,
  new_event_id, validate, event_failed,
}
use server_flow.Events.Valid.{Trusted, validate-Trusted}

program : Unit {0}
unfolding bytes_beq hex and_then refuse_if check_string check_prefixed check_attempt check_attempts
    validate_terminal validate_payload is_terminal_event_type new_event_id validate
program = tt

abbrev same_hash : Bytes → Bytes
same_hash s = replicate 32 171

-- A request that failed after one attempt.
abbrev failure : Event
failure = record {
  event_id = ascii "evt_abababababababababababababababab";
  event_type = event_failed;
  schema_version = pos 1;
  timestamp = 7;
  source = ascii "gw1";
  request_id = ascii "req_1";
  attempt_id = ascii "att_1";
  tenant_id = [];
  api_key_id = [];
  model = ascii "m";
  worker_id = ascii "w1";
  received = none;
  routed = none;
  first_token = none;
  terminal = some (record {
    stream = false;
    http_status = pos 503;
    duration_ms = pos 12;
    ttft_ms = pos 0;
    input_tokens = none;
    output_tokens = none;
    tokens_source = ascii "estimate";
    estimated_cost_tokens = pos 40;
    failure_class = ascii "timeout";
    attempts =
        (record {
          attempt_id = ascii "att_1";
          number = pos 1;
          worker_id = ascii "w1";
          outcome = ascii "error";
          failure_class = ascii "timeout";
          duration_ms = pos 12;
        })
        ∷ [];
  });
}

accepted : validate same_hash failure ≡ none
unfolding program
accepted = refl

newer : validate same_hash (record failure { schema_version = pos 2 }) ≡ some version_unsupported
unfolding program
newer = refl

two_lines : validate same_hash (record failure { source = 10 ∷ [] }) ≡ some invalid
unfolding program
two_lines = refl

validate-Trusted_example : Trusted same_hash failure
validate-Trusted_example = validate-Trusted same_hash failure accepted
