-- ===== src/Gateway/RetryTests.antt =====
-- internal/gateway/retry.go on some errors, and its theorems at them.
use server_flow.Prelude.{◌≡◌, refl, Bool, true, false, Option, none, some, [], ◌∷◌, List}
use server_flow.Prelude.Bytes.{Bytes, ascii, bytes_beq}
use server_flow.Prelude.Assoc.{lookup, insert}
use server_flow.Gateway.Retry.{
  Link, Sentinel, cancelled, refused, eof, other, connect, reset, empty_stream, status_class,
  new_retry_policy, note_all, status, has, first_of, is_server_closed_idle, transport_error,
  first_chunk_error,
}
use server_flow.Gateway.Retryable.{Explained, status-new_retry_policy, transport_error-Explained}

program : Unit {0}
unfolding lookup insert bytes_beq note_all status has first_of is_server_closed_idle transport_error
    first_chunk_error
program = tt

abbrev link : Sentinel → Option Bytes → Option Bool → Link
link s op timeout = record {
  text = ascii "text";
  sentinel = s;
  dns = false;
  op = op;
  timeout = timeout;
}

-- A refused connection under a dial error, a dial error that the client's going caused, and a read that timed out.
abbrev refusal : List Link
refusal = link other (some (ascii "dial")) (some false) ∷ link refused none none ∷ []

abbrev hung_up : List Link
hung_up = link other (some (ascii "dial")) (some false) ∷ link cancelled none none ∷ []

abbrev stalled : List Link
stalled = link other (some (ascii "read")) (some true) ∷ []

refused_retried : transport_error refusal ≡ some connect
unfolding program
refused_retried = refl

hung_up_not : transport_error hung_up ≡ none
unfolding program
hung_up_not = refl

stalled_not : transport_error stalled ≡ none
unfolding program
stalled_not = refl

closed_retried : transport_error (link eof none none ∷ []) ≡ some reset
unfolding program
closed_retried = refl

stalled_chunk_not : first_chunk_error stalled ≡ none
unfolding program
stalled_chunk_not = refl

ended_chunk : first_chunk_error (link eof none none ∷ []) ≡ some empty_stream
unfolding program
ended_chunk = refl

transport_error-Explained_example : Explained refusal (transport_error refusal)
transport_error-Explained_example = transport_error-Explained refusal

status-new_retry_policy_example :
    status (new_retry_policy 2 (502 ∷ 503 ∷ [])) 503 ≡ some (status_class 503)
status-new_retry_policy_example = status-new_retry_policy 2 (502 ∷ 503 ∷ []) 503
