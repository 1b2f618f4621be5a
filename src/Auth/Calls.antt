-- ===== src/Auth/Calls.antt =====
-- internal/auth/authenticator.go: the steps of requests and lookups, in any order.
use server_flow.Prelude.{ℕ, Bool, true, false, List, [], ◌∷◌, if◌then◌else◌}
use server_flow.Prelude.Bytes.{Bytes}
use server_flow.Auth.Key.{ParsedKey, malformed, parsed, parse_key}
use server_flow.Auth.Types.{invalid, unavailable, Found, failed}
use server_flow.Auth.Authenticator.{Authenticator, Cached, hit, stale, missing, consult, TouchReq}
use server_flow.Auth.Authenticate.{
  Fetch, answered, joined, started, fetch, finish_lookup, Answer, rejected, record_answer, finish,
}

-- How far a request has come: it has its answer, it goes on to fetch, or it waits for a lookup.
pub data Progress : Type 0 where
  done : (answer : Answer) → Progress
  fetches : (prefix hash : Bytes) (cached : Cached) → Progress
  waits : (prefix hash : Bytes) (cached : Cached) → Progress

abbrev pub ended : Authenticator × Answer → Authenticator × Progress
ended (a, v) = (a, done v)

abbrev pub is_stale : Cached → Bool
is_stale (hit answer) = false
is_stale (stale entry) = true
is_stale missing = false

abbrev pub consulted : Authenticator → Bytes → Bytes → ℕ → Cached → Bool → Authenticator × Progress
consulted a prefix hash later (hit answer) down = ended (finish a prefix hash later answer)
consulted a prefix hash later (stale e) down =
    if down
    then ended (finish a prefix hash later (record_answer (stale e) (failed unavailable)))
    else (a, fetches prefix hash (stale e))
consulted a prefix hash later missing down =
    if down
    then ended (finish a prefix hash later (failed unavailable))
    else (a, fetches prefix hash missing)

abbrev pub begin_parsed : Authenticator → ℕ → ℕ → ParsedKey → Authenticator × Progress
begin_parsed a now later malformed = (a, done (rejected invalid))
begin_parsed a now later (parsed prefix hash) =
    let (b, c, down) = consult a prefix now in consulted b prefix hash later c down

-- Authenticate up to its call of fetch.
unfoldable pub begin : (Bytes → Bytes) → Authenticator → Bytes → ℕ → ℕ → Authenticator × Progress
begin sha256 a bearer now later = begin_parsed a now later (parse_key sha256 bearer)

abbrev pub fetched : Authenticator → Bytes → Bytes → Cached → ℕ → Fetch → Authenticator × Progress
fetched a prefix hash c later (answered answer) =
    ended (finish a prefix hash later (record_answer c answer))
fetched a prefix hash c later joined = (a, waits prefix hash c)
fetched a prefix hash c later started = (a, waits prefix hash c)

-- Its call of fetch, up to the wait.
unfoldable pub go_on : Authenticator → Bytes → Bytes → Cached → ℕ → ℕ → Authenticator × Progress
go_on a prefix hash c now later =
    let (b, f) = fetch a prefix now (is_stale c) in fetched b prefix hash c later f

-- The rest, with what the wait gave.
unfoldable pub conclude :
    Authenticator → Bytes → Bytes → Cached → ℕ → Found → Authenticator × Answer
conclude a prefix hash c now answer = finish a prefix hash now (record_answer c answer)

-- Run takes a request from the channel.
abbrev pub rest_of : List TouchReq → List TouchReq
rest_of [] = []
rest_of (r ∷ rs) = rs

unfoldable pub take_touch : Authenticator → Authenticator
take_touch a = record a { touches = rest_of a.touches }

-- A step with its arguments, its readings of the clock and what the store answered.
pub data Call : Type 0 where
  begins : (bearer : Bytes) (now later : ℕ) → Call
  goes_on : (prefix hash : Bytes) (c : Cached) (now later : ℕ) → Call
  concludes : (prefix hash : Bytes) (c : Cached) (now : ℕ) (answer : Found) → Call
  store_answers : (prefix : Bytes) (now : ℕ) (answer : Found) → Call
  takes_touch : Call

abbrev pub apply : (Bytes → Bytes) → Authenticator → Call → Authenticator
apply sha256 a (begins bearer now later) = (begin sha256 a bearer now later).0
apply sha256 a (goes_on prefix hash c now later) = (go_on a prefix hash c now later).0
apply sha256 a (concludes prefix hash c now answer) = (conclude a prefix hash c now answer).0
apply sha256 a (store_answers prefix now answer) = (finish_lookup a prefix now answer).0
apply sha256 a takes_touch = take_touch a

unfoldable pub run : (Bytes → Bytes) → Authenticator → List Call → Authenticator
run sha256 a [] = a
run sha256 a (c ∷ cs) = run sha256 (apply sha256 a c) cs
