-- ===== src/Events/Valid.antt =====
-- What a consumer may rely on in an event that Validate of pkg/protocol/events.go accepts.
use server_flow.Prelude.{
  ◌≡◌, ◌≢◌, ap, true, false, Option, none, ltb, nat_beq, nat_beq_iff, arith, if_either,
}
use server_flow.Prelude.Bytes.{Bytes, ascii, bytes_beq_iff}
use server_flow.Prelude.Int.{ℤ, pos, negsuc}
use server_flow.Events.Checks.{
  some≢none, passes, allowed, Plain, check_string-Plain, Labelled, check_prefixed-Labelled,
}
use server_flow.Events.{Event, EventError, check_version, new_event_id, validate}
use server_flow.Events.Carried.{Matched, InBounds, validate_payload-Carried}

check_version-one : (v : ℤ) → check_version v ≡ none → v ≡ pos 1
check_version-one (pos n) h =
    if_either (λ (o : Option EventError). o ≡ none → pos n ≡ pos 1) (nat_beq n 1)
      (λ t g. ap pos ((nat_beq_iff n 1).0 t))
      (λ f.
        if_either (λ (o : Option EventError). o ≡ none → pos n ≡ pos 1) (ltb 1 n)
          (λ t g. absurd (some≢none g)) (λ f' g. absurd (some≢none g)))
      h
check_version-one (negsuc n) h = absurd (some≢none h)

-- An event that a consumer may trust.
abbrev pub Trusted : (Bytes → Bytes) → Event → Type 0
Trusted sha256 e =
    (e.schema_version ≡ pos 1)
    × (e.event_id ≡ new_event_id sha256 e.request_id e.event_type e.attempt_id)
    × (e.timestamp ≢ 0)
    × Labelled 1 (ascii "req_") e.request_id
    × Labelled 0 (ascii "att_") e.attempt_id
    × Labelled 0 (ascii "key_") e.api_key_id
    × Labelled 0 (ascii "ten_") e.tenant_id
    × Plain 1 64 e.source
    × Plain 0 128 e.model
    × Plain 0 64 e.worker_id
    × Matched e
    × InBounds e

-- An accepted event is of schema version 1 and has a timestamp; its ID is the one that its request, type and attempt determine. Its
-- IDs and names have no control character and keep their bounds, the request's ID and the source are not empty, and the
-- request's, attempt's, key's and tenant's IDs have their prefixes, where they are not empty. It has the payload of its type
-- and no other. The estimate of a received event is in range; a routed event has an attempt, with a positive number, and a
-- strategy in bounds; a first token's time is in range. A terminal payload has its status, durations, estimate and counts
-- in range, no token counts beside an estimate, a failure class of the closed set exactly when the event is of a
-- failure, and at most 16 attempts, each with its texts and numbers in bounds.
pub validate-Trusted :
    (sha256 : Bytes → Bytes) (e : Event) → validate sha256 e ≡ none → Trusted sha256 e
unfolding validate
validate-Trusted sha256 e h =
    let (version, h1) = passes _ _ h in
    let (event, h2) = passes _ _ h1 in
    let (request, h3) = passes _ _ h2 in
    let (attempt, h4) = passes _ _ h3 in
    let (key, h5) = passes _ _ h4 in
    let (tenant, h6) = passes _ _ h5 in
    let (source, h7) = passes _ _ h6 in
    let (model, h8) = passes _ _ h7 in
    let (worker, h9) = passes _ _ h8 in
    let (time, h10) = passes _ _ h9 in
    let (id, payload) = passes _ _ h10 in
    let (matched, in_bounds) = validate_payload-Carried e payload in
    (
      check_version-one e.schema_version version,
      (bytes_beq_iff e.event_id (new_event_id sha256 e.request_id e.event_type e.attempt_id)).0
          (ground (arith, allowed _ id)),
      λ z. let zero = (nat_beq_iff e.timestamp 0).1 z in ground (arith, allowed _ time),
      check_prefixed-Labelled e.request_id (ascii "req_") true request,
      check_prefixed-Labelled e.attempt_id (ascii "att_") false attempt,
      check_prefixed-Labelled e.api_key_id (ascii "key_") false key,
      check_prefixed-Labelled e.tenant_id (ascii "ten_") false tenant,
      check_string-Plain e.source 64 true source,
      check_string-Plain e.model 128 false model,
      check_string-Plain e.worker_id 64 false worker,
      matched,
      in_bounds,
    )
