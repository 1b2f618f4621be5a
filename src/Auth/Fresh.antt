-- ===== src/Auth/Fresh.antt =====
-- What Authenticate of internal/auth/authenticator.go may answer from its caches, after any steps.
use server_flow.Prelude.{
  ℕ, ◌+◌, ◌/◌, ◌≤◌, ◌<◌, ◌≡◌, refl, ap, Bool, Option, none, some, List, [], ◌∷◌, max, arith,
  if_either, length, All, Among, everyone_listed,
}
use server_flow.Prelude.Bytes.{Bytes, bytes_eq}
use server_flow.Auth.Types.{not_found, KeyRecord, found, failed}
use server_flow.Auth.Lru.{new_lru, get, remove, len, Reads, get-Reads}
use server_flow.Auth.Authenticator.{
  Config, with_defaults, new_authenticator, Authenticator, PosEntry, Cached, hit, stale, missing,
  from_neg, negative_locked, from_pos, cached_locked, is_younger,
}
use server_flow.Auth.Calls.{Call, begins, goes_on, concludes, store_answers, takes_touch, run}
use server_flow.Auth.Slots.{flights_lem, Inv}
use server_flow.Auth.Runs.{SoundCall, run-Inv}

-- The store answered with this record, for this prefix, when the entry says so.
abbrev pub Returned : List Call → Bytes × PosEntry → Type 0
Returned cs (prefix, e) = Among (store_answers prefix e.fetched (found e.rec)) cs

Sounds :
    (c : Config) (r : ℕ) (cs xs : List Call)
    → All (λ x. Among x cs) xs
    → All (SoundCall c r (Returned cs)) xs
Sounds c r cs [] a = tt
Sounds c r cs (begins bearer now later ∷ xs) a = (tt, Sounds c r cs xs a.1)
Sounds c r cs (goes_on prefix hash x now later ∷ xs) a = (tt, Sounds c r cs xs a.1)
Sounds c r cs (concludes prefix hash x now answer ∷ xs) a = (tt, Sounds c r cs xs a.1)
Sounds c r cs (store_answers prefix now (found rec) ∷ xs) a = ((λ t. a.0), Sounds c r cs xs a.1)
Sounds c r cs (store_answers prefix now (failed why) ∷ xs) a = (tt, Sounds c r cs xs a.1)
Sounds c r cs (takes_touch ∷ xs) a = (tt, Sounds c r cs xs a.1)

-- The lookups kept for refreshing cached keys.
abbrev pub reserved : Config → ℕ
reserved c = max 1 (c.max_lookups / 4)

reserved-le :
    (config : Config) → reserved (with_defaults config) ≤ (with_defaults config).max_lookups
unfolding with_defaults
reserved-le config = ground arith

module _ (sha256 : Bytes → Bytes) (touches_store : Bool) (config : Config) (cs : List Call) where
  abbrev pub reached : Authenticator
  reached = run sha256 (new_authenticator touches_store config) cs

  reached-Inv : Inv (with_defaults config) (reserved (with_defaults config)) (Returned cs) reached
  unfolding new_authenticator new_lru
  reached-Inv =
      run-Inv (with_defaults config) (reserved (with_defaults config)) (Returned cs) (λ k e t p. p)
        sha256 (new_authenticator touches_store config) cs
        (Sounds (with_defaults config) (reserved (with_defaults config)) cs cs (everyone_listed cs))
        (
          refl,
          refl,
          (tt, refl, refl, omega arith, omega arith),
          (refl, omega arith, tt),
          (refl, omega arith, tt),
        )

  -- After any steps, the lookups in flight are as many as the slots in use say, no more than MaxLookups, and those for keys
  -- that are not cached leave a quarter of MaxLookups, and at least one, to refreshes.
  pub run-Slots :
      (reached.inflight_refresh + reached.inflight_new ≡ length reached.flights)
      × (reached.inflight_refresh + reached.inflight_new ≤ (with_defaults config).max_lookups)
      × (reached.inflight_new + reserved (with_defaults config)
          ≤ (with_defaults config).max_lookups)
  run-Slots =
      let s = reached-Inv.2 in
      (
        omega (arith, s.1, s.2, flights_lem reached.flights),
        s.3,
        omega (arith, s.4, reached-Inv.1, reserved-le config),
      )

  -- After any steps, neither cache holds more entries than CacheSize.
  pub len-le :
      (len reached.pos ≤ (with_defaults config).cache_size)
      × (len reached.neg ≤ (with_defaults config).cache_size)
  unfolding len
  len-le = (reached-Inv.3.1, reached-Inv.4.1)

  -- A record of the store for this prefix, that it returned less than `limit` ago.
  abbrev pub Fresh : Bytes → ℕ → ℕ → KeyRecord → Type 0
  Fresh prefix now limit rec =
      (t : ℕ) × Among (store_answers prefix t (found rec)) cs × t ≤ now × now < t + limit

  abbrev pub AnswersFresh : Bytes → ℕ → Cached → Type 0
  AnswersFresh prefix now (hit (found rec)) = Fresh prefix now (with_defaults config).cache_ttl rec
  AnswersFresh prefix now (hit (failed why)) = why ≡ not_found
  AnswersFresh prefix now (stale e) =
      Fresh prefix now ((with_defaults config).cache_ttl + (with_defaults config).stale_grace) e.rec
  AnswersFresh prefix now missing = Unit

  from_neg-Fresh :
      (a : Authenticator) (prefix : Bytes) (now : ℕ) (o : Option ℕ)
      → AnswersFresh prefix now (from_neg a prefix now o).1
  from_neg-Fresh a prefix now none = tt
  from_neg-Fresh a prefix now (some at) =
      if_either (λ (x : Authenticator × Cached). AnswersFresh prefix now x.1)
        (is_younger at now a.cfg.negative_ttl) (λ t. refl) (λ f. tt)

  negative_locked-Fresh :
      (a : Authenticator) (prefix : Bytes) (now : ℕ)
      → AnswersFresh prefix now (negative_locked a prefix now).1
  unfolding negative_locked
  negative_locked-Fresh a prefix now = from_neg-Fresh _ prefix now (get prefix a.neg).1

  from_pos-Fresh :
      (a : Authenticator) (prefix : Bytes) (now : ℕ) (o : Option PosEntry)
      → a.cfg ≡ (with_defaults config)
      → Reads (Returned cs) prefix o
      → AnswersFresh prefix now (from_pos a prefix now o).1
  from_pos-Fresh a prefix now none e r = negative_locked-Fresh a prefix now
  from_pos-Fresh a prefix now (some p) e r =
      let ttl = ap (λ (c : Config). c.cache_ttl) e in
      let grace = ap (λ (c : Config). c.stale_grace) e in
      if_either (λ (x : Authenticator × Cached). AnswersFresh prefix now x.1)
        (is_younger p.fetched now a.cfg.cache_ttl)
        (λ t. (p.fetched, r, ground arith, ground (arith, ttl)))
        (λ f.
          if_either (λ (x : Authenticator × Cached). AnswersFresh prefix now x.1)
            (is_younger p.fetched now (a.cfg.cache_ttl + a.cfg.stale_grace))
            (λ t. (p.fetched, r, ground arith, ground (arith, ttl, grace)))
            (λ g. negative_locked-Fresh (record a { pos = remove prefix a.pos }) prefix now))

  pub cached_locked-Fresh :
      (prefix : Bytes) (now : ℕ) → AnswersFresh prefix now (cached_locked reached prefix now).1
  unfolding cached_locked
  cached_locked-Fresh prefix now =
      from_pos-Fresh (record reached { pos = (get prefix reached.pos).0 }) prefix now
        (get prefix reached.pos).1 reached-Inv.0
        (get-Reads (Returned cs) (with_defaults config).cache_size prefix reached.pos reached-Inv.3)
