-- ===== src/Auth/Authenticate.antt =====
-- internal/auth/authenticator.go: the lookups in the store, and Authenticate. A request that waits for a lookup goes on when its
-- answer is there; what happens in between are other steps.
use server_flow.Prelude.{
  ℕ, ◌+◌, ◌-◌, ◌*◌, Bool, true, false, ◌&&◌, ◌||◌, not, Option, none, some, List, [], ◌∷◌, ◌++◌,
  ltb, leb, if◌then◌else◌, length,
}
use server_flow.Prelude.Bytes.{Bytes, bytes_eq, bytes_beq}
use server_flow.Prelude.Assoc.{lookup, insert, delete}
use server_flow.Auth.Key.{hashes_equal}
use server_flow.Auth.Types.{
  AuthError, invalid, expired, revoked, suspended, unavailable, bad_record, busy, not_found,
  Principal, Found, found, failed, key_active, tenant_active,
}
use server_flow.Auth.Lru.{get, put, remove}
use server_flow.Auth.Authenticator.{
  Authenticator, PosEntry, TouchReq, Cached, hit, stale, missing, cached_locked, touch_every,
  outage_backoff, second,
}

-- What fetch does: answer at once, wait for the lookup of another request, or start one.
pub data Fetch : Type 0 where
  answered : (answer : Found) → Fetch
  joined started : Fetch

abbrev pub start_flight : Authenticator → Bytes → Bool → Authenticator
start_flight a prefix true = record a {
  flights = insert prefix true a.flights;
  inflight_refresh = a.inflight_refresh + 1;
}
start_flight a prefix false = record a {
  flights = insert prefix false a.flights;
  inflight_new = a.inflight_new + 1;
}

-- No slot is free for a lookup.
abbrev pub is_shed : Authenticator → Bool → Bool
is_shed a refresh =
    leb a.cfg.max_lookups (a.inflight_refresh + a.inflight_new)
    || (not refresh && leb (a.cfg.max_lookups - a.reserve) a.inflight_new)

-- errSlowRefresh and errShed are both ErrUnavailable.
abbrev pub fetch_flight : Authenticator → Bytes → Bool → Option Bool → Authenticator × Fetch
fetch_flight a prefix refresh (some running) =
    (a, if refresh then answered (failed unavailable) else joined)
fetch_flight a prefix refresh none =
    if is_shed a refresh
    then (a, answered (failed unavailable))
    else (start_flight a prefix refresh, started)

abbrev pub fetch_from : Authenticator → Bytes → Bool → Cached → Authenticator × Fetch
fetch_from a prefix refresh (hit answer) = (a, answered answer)
fetch_from a prefix refresh (stale entry) = fetch_flight a prefix refresh (lookup prefix a.flights)
fetch_from a prefix refresh missing = fetch_flight a prefix refresh (lookup prefix a.flights)

-- fetch up to await.
unfoldable pub fetch : Authenticator → Bytes → ℕ → Bool → Authenticator × Fetch
fetch a prefix now refresh =
    let (b, c) = cached_locked a prefix now in fetch_from b prefix refresh c

-- Of warnLimited, when the last warning was.
unfoldable pub warn_limited : Authenticator → ℕ → Authenticator
warn_limited a now =
    if ltb now (a.last_warn + 10 * second) && ltb 0 a.last_warn
    then a
    else record a { last_warn = now }

abbrev pub touched_at : Option PosEntry → ℕ
touched_at none = 0
touched_at (some e) = e.last_touch

abbrev pub answers : Authenticator → Authenticator
answers a = record a { outage = false; down_until = 0 }

-- The switch of `lookup` on what the store answered.
unfoldable pub settle : Authenticator → Bytes → ℕ → Found → Authenticator × Found
settle a prefix now (found rec) =
    let (pos, old) = get prefix a.pos in
    let entry : PosEntry = record { rec = rec; fetched = now; last_touch = touched_at old } in
    (answers (record a { pos = put prefix entry pos; neg = remove prefix a.neg }), found rec)
settle a prefix now (failed not_found) =
    (answers (record a { pos = remove prefix a.pos; neg = put prefix now a.neg }), failed not_found)
settle a prefix now (failed bad_record) = (answers (warn_limited a now), failed bad_record)
settle a prefix now (failed busy) = (warn_limited a now, failed unavailable)
settle a prefix now (failed _) =
    (record a { outage = true; down_until = now + outage_backoff }, failed unavailable)

abbrev pub end_flight : Authenticator → Bytes → Bool → Authenticator
end_flight a prefix true = record a {
  flights = delete prefix a.flights;
  inflight_refresh = a.inflight_refresh - 1;
}
end_flight a prefix false = record a {
  flights = delete prefix a.flights;
  inflight_new = a.inflight_new - 1;
}

abbrev pub land : Authenticator → Bytes → ℕ → Found → Option Bool → Authenticator × Found
land a prefix now answer none = (a, answer)
land a prefix now answer (some refresh) = settle (end_flight a prefix refresh) prefix now answer

-- `lookup` once the store has answered, and the answer for those who wait. Without a flight no such goroutine runs.
unfoldable pub finish_lookup : Authenticator → Bytes → ℕ → Found → Authenticator × Found
finish_lookup a prefix now answer = land a prefix now answer (lookup prefix a.flights)

-- The queue of touches holds 256 requests; more are dropped.
abbrev pub touch : List TouchReq → Bytes → ℕ → List TouchReq
touch reqs key_id now =
    if ltb (length reqs) 256 then reqs ++ (record { key_id = key_id; at = now } ∷ []) else reqs

abbrev pub touch_found : Authenticator → Bytes → Bytes → ℕ → Option PosEntry → Authenticator
touch_found a prefix key_id now none = a
touch_found a prefix key_id now (some e) =
    if ltb 0 e.last_touch && ltb now (e.last_touch + touch_every) then a else record a {
      pos = put prefix (record e { last_touch = now }) a.pos;
      touches = touch a.touches key_id now;
    }

unfoldable pub note_use : Authenticator → Bytes → Bytes → ℕ → Authenticator
note_use a prefix key_id now =
    let (pos, e) = get prefix a.pos in
    if not a.touches_store then a else touch_found (record a { pos = pos }) prefix key_id now e

-- What Authenticate answers.
pub data Answer : Type 0 where
  admitted : (caller : Principal) → Answer
  rejected : (why : AuthError) → Answer

abbrev pub is_expired : Option ℕ → ℕ → Bool
is_expired none now = false
is_expired (some at) now = leb at now

-- The checks of Authenticate on what `record` returns.
unfoldable pub judge : Bytes → ℕ → Found → Answer
judge hash now (failed not_found) = rejected invalid
judge hash now (failed why) = rejected why
judge hash now (found rec) =
    if not (hashes_equal hash rec.secret_hash)
    then rejected invalid
    else if not (bytes_beq rec.key_status key_active)
    then rejected revoked
    else if is_expired rec.expires_at now
    then rejected expired
    else if not (bytes_beq rec.policy.status tenant_active)
    then rejected suspended
    else admitted (record { tenant_id = rec.tenant_id; key_id = rec.key_id; policy = rec.policy })

-- A stale copy stands in for an answer that the store could not give.
abbrev pub or_stale : PosEntry → Found → Found
or_stale e (found rec) = found rec
or_stale e (failed not_found) = failed not_found
or_stale e (failed bad_record) = failed bad_record
or_stale e (failed _) = found e.rec

-- The end of `record`, when the store (or the wait for it) has answered.
abbrev pub record_answer : Cached → Found → Found
record_answer (hit answer) later = answer
record_answer (stale e) later = or_stale e later
record_answer missing later = later

abbrev pub noted : Authenticator → Bytes → ℕ → Found → Answer → Authenticator × Answer
noted a prefix now (found rec) (admitted caller) =
    (note_use a prefix rec.key_id now, admitted caller)
noted a prefix now (failed why) (admitted caller) = (a, admitted caller)
noted a prefix now answer (rejected why) = (a, rejected why)

-- Authenticate from the answer of `record` on.
unfoldable pub finish : Authenticator → Bytes → Bytes → ℕ → Found → Authenticator × Answer
finish a prefix hash now answer = noted a prefix now answer (judge hash now answer)
