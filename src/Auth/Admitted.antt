-- ===== src/Auth/Admitted.antt =====
-- Whom Authenticate of internal/auth/authenticator.go admits.
use server_flow.Prelude.{ℕ, ◌+◌, ◌≡◌, refl, sym, subst, Bool, true, false, List, arith, if_either}
use server_flow.Prelude.Bytes.{Bytes, bytes_eq}
use server_flow.Auth.Key.{ParsedKey, malformed, parsed, parse_key}
use server_flow.Auth.Types.{
  invalid, expired, revoked, suspended, unavailable, bad_record, busy, not_found, KeyRecord, Found,
  found, failed,
}
use server_flow.Auth.Authenticator.{
  Authenticator, Config, with_defaults, Cached, hit, stale, missing, cached_locked, consult, is_hit,
}
use server_flow.Auth.Authenticate.{Answer, admitted, rejected, judge, noted, finish}
use server_flow.Auth.Calls.{Progress, done, consulted, begin_parsed, begin, Call}
use server_flow.Auth.Fresh.{reached, Fresh, AnswersFresh, cached_locked-Fresh}
use server_flow.Auth.Judged.{Explained, judge-explanation}

noted_lem :
    (a : Authenticator) (prefix : Bytes) (now : ℕ) (answer : Found) (v : Answer)
    → (noted a prefix now answer v).1 ≡ v
noted_lem a prefix now (found rec) (admitted caller) = refl
noted_lem a prefix now (failed why) (admitted caller) = refl
noted_lem a prefix now (found rec) (rejected why) = refl
noted_lem a prefix now (failed reason) (rejected why) = refl

module _ (sha256 : Bytes → Bytes) (touches_store : Bool) (config : Config) (cs : List Call)
    (bearer : Bytes) (now later : ℕ) where
  -- Why a caller is admitted without asking the store.
  abbrev pub Vouched : Progress → Type 0
  Vouched (done (admitted p)) =
      (prefix : Bytes) × (hash : Bytes) × (rec : KeyRecord) × (parse_key sha256 bearer
        ≡ parsed prefix hash)
      × Fresh sha256 touches_store config cs prefix now
          ((with_defaults config).cache_ttl + (with_defaults config).stale_grace) rec
      × Explained hash later rec (admitted p)
  Vouched _ = Unit

  abbrev Backed : Bytes → Found → Type 0
  Backed prefix (found rec) =
      Fresh sha256 touches_store config cs prefix now
        ((with_defaults config).cache_ttl + (with_defaults config).stale_grace) rec
  Backed prefix (failed why) = Unit

  answer-Vouched :
      (prefix hash : Bytes) (rec : KeyRecord) (v : Answer)
      → parse_key sha256 bearer ≡ parsed prefix hash
      → Backed prefix (found rec)
      → Explained hash later rec v
      → Vouched (done v)
  answer-Vouched prefix hash rec (admitted p) e b x = (prefix, hash, rec, e, b, x)
  answer-Vouched prefix hash rec (rejected why) e b x = tt

  judge-Vouched :
      (prefix hash : Bytes) (answer : Found)
      → parse_key sha256 bearer ≡ parsed prefix hash
      → Backed prefix answer
      → Vouched (done (judge hash later answer))
  unfolding judge
  judge-Vouched prefix hash (found rec) e b =
      answer-Vouched prefix hash rec _ e b (judge-explanation hash later rec)
  judge-Vouched prefix hash (failed invalid) e b = tt
  judge-Vouched prefix hash (failed expired) e b = tt
  judge-Vouched prefix hash (failed revoked) e b = tt
  judge-Vouched prefix hash (failed suspended) e b = tt
  judge-Vouched prefix hash (failed unavailable) e b = tt
  judge-Vouched prefix hash (failed bad_record) e b = tt
  judge-Vouched prefix hash (failed busy) e b = tt
  judge-Vouched prefix hash (failed not_found) e b = tt

  finish-Vouched :
      (a : Authenticator) (prefix hash : Bytes) (answer : Found)
      → parse_key sha256 bearer ≡ parsed prefix hash
      → Backed prefix answer
      → Vouched (done (finish a prefix hash later answer).1)
  unfolding finish
  finish-Vouched a prefix hash answer e b =
      subst (λ v. Vouched (done v))
        (sym (noted_lem a prefix later answer (judge hash later answer)))
        (judge-Vouched prefix hash answer e b)

  consulted-Vouched :
      (a : Authenticator) (prefix hash : Bytes) (x : Cached) (down : Bool)
      → parse_key sha256 bearer ≡ parsed prefix hash
      → AnswersFresh sha256 touches_store config cs prefix now x
      → Vouched (consulted a prefix hash later x down).1
  consulted-Vouched a prefix hash (hit (found rec)) down e (t, r, l, u) =
      finish-Vouched a prefix hash (found rec) e (t, r, l, omega (arith, u))
  consulted-Vouched a prefix hash (hit (failed why)) down e f =
      finish-Vouched a prefix hash (failed why) e tt
  consulted-Vouched a prefix hash (stale p) true e f =
      finish-Vouched a prefix hash (found p.rec) e f
  consulted-Vouched a prefix hash (stale p) false e f = tt
  consulted-Vouched a prefix hash missing true e f =
      finish-Vouched a prefix hash (failed unavailable) e tt
  consulted-Vouched a prefix hash missing false e f = tt

  consult-Fresh :
      (prefix : Bytes)
      → AnswersFresh sha256 touches_store config cs prefix now
          (consult (reached sha256 touches_store config cs) prefix now).1
  unfolding consult
  consult-Fresh prefix =
      let a = reached sha256 touches_store config cs in
      if_either
        (λ (x : Authenticator × Cached × Bool).
          AnswersFresh sha256 touches_store config cs prefix now x.1)
        (is_hit (cached_locked a prefix now).1)
        (λ t. cached_locked-Fresh sha256 touches_store config cs prefix now)
        (λ f. cached_locked-Fresh sha256 touches_store config cs prefix now)

  begin_parsed-Vouched :
      (k : ParsedKey)
      → parse_key sha256 bearer ≡ k
      → Vouched (begin_parsed (reached sha256 touches_store config cs) now later k).1
  begin_parsed-Vouched malformed e = tt
  begin_parsed-Vouched (parsed prefix hash) e =
      consulted-Vouched _ prefix hash _ _ e (consult-Fresh prefix)

  -- After any steps: a caller that is admitted without a lookup has presented a key that parses to a prefix and a hash, for which
  -- the store returned a record less than CacheTTL and StaleGrace ago, of an active key of an active tenant, not expired, with
  -- the same hash; and it is taken for that tenant.
  pub begin-Vouched :
      Vouched (begin sha256 (reached sha256 touches_store config cs) bearer now later).1
  unfolding begin
  begin-Vouched = begin_parsed-Vouched (parse_key sha256 bearer) refl
