-- ===== src/Auth/Slots.antt =====
-- What every step of internal/auth/authenticator.go keeps: the slots of lookups, the size of the caches and what is in them.
use server_flow.Prelude.{
  ℕ, ◌+◌, ◌-◌, ◌*◌, ◌≤◌, ◌≡◌, refl, ap, inl, inr, Bool, true, false, ◌&&◌, not, Option, none, some,
  [], ◌∷◌, ltb, arith, if_either, length, count, Option-cases,
}
use server_flow.Prelude.Bytes.{Bytes, bytes_eq}
use server_flow.Prelude.Assoc.{
  Assoc, lookup, Unique, insert-Unique, delete-Unique, count-insert_new, count-delete_old,
}
use server_flow.Auth.Types.{
  invalid, expired, revoked, suspended, unavailable, bad_record, busy, not_found, Found, found,
  failed,
}
use server_flow.Auth.Lru.{Lru, get, remove, Holds, get-Holds, put-Holds, remove-Holds}
use server_flow.Auth.Authenticator.{
  Config, Authenticator, PosEntry, Cached, hit, stale, missing, from_neg, negative_locked, from_pos,
  cached_locked, consult, is_younger, is_hit, second,
}
use server_flow.Auth.Authenticate.{
  Fetch, start_flight, is_shed, fetch_flight, fetch_from, fetch, warn_limited, settle, end_flight,
  finish_lookup,
}

abbrev is_refresh : Bytes × Bool → Bool
is_refresh (k, r) = r

abbrev is_new : Bytes × Bool → Bool
is_new (k, r) = not r

pub flights_lem : (xs : Assoc Bytes Bool) → count is_refresh xs + count is_new xs ≡ length xs
flights_lem [] = refl
flights_lem ((k, true) ∷ xs) = omega (arith, flights_lem xs)
flights_lem ((k, false) ∷ xs) = omega (arith, flights_lem xs)

-- The slots in use are the flights of each kind, and none is used beyond the limits.
abbrev pub Slots : Config → Authenticator → Type 0
Slots c a =
    Unique a.flights
    × (a.inflight_refresh ≡ count is_refresh a.flights)
    × (a.inflight_new ≡ count is_new a.flights)
    × (a.inflight_refresh + a.inflight_new ≤ c.max_lookups)
    × (a.inflight_new ≤ c.max_lookups - a.reserve)

abbrev Any : Bytes × ℕ → Type 0
Any x = Unit

module _ (c : Config) (reserve : ℕ) (P : Bytes × PosEntry → Type 0) where
  -- The configuration stays, the slots are right, the caches hold no more than they may, and cached entries have `P`.
  abbrev pub Inv : Authenticator → Type 0
  Inv a =
      (a.cfg ≡ c)
      × (a.reserve ≡ reserve)
      × Slots c a
      × Holds P c.cache_size a.pos
      × Holds Any c.cache_size a.neg

  from_neg-Inv :
      (a : Authenticator) (prefix : Bytes) (now : ℕ) (o : Option ℕ)
      → Inv a
      → Inv (from_neg a prefix now o).0
  from_neg-Inv a prefix now none h = h
  from_neg-Inv a prefix now (some at) h =
      if_either (λ (x : Authenticator × Cached). Inv x.0) (is_younger at now a.cfg.negative_ttl)
        (λ t. h) (λ f. (h.0, h.1, h.2, h.3, remove-Holds Any c.cache_size prefix a.neg h.4))

  pub with_pos :
      (a : Authenticator) (pos : Lru PosEntry)
      → Inv a
      → Holds P c.cache_size pos
      → Inv (record a { pos = pos })
  with_pos a pos h k = (h.0, h.1, h.2, k, h.4)

  negative_locked-Inv :
      (a : Authenticator) (prefix : Bytes) (now : ℕ) → Inv a → Inv (negative_locked a prefix now).0
  unfolding negative_locked
  negative_locked-Inv a prefix now h =
      from_neg-Inv (record a { neg = (get prefix a.neg).0 }) prefix now (get prefix a.neg).1
        (h.0, h.1, h.2, h.3, get-Holds Any c.cache_size prefix a.neg h.4)

  from_pos-Inv :
      (a : Authenticator) (prefix : Bytes) (now : ℕ) (o : Option PosEntry)
      → Inv a
      → Inv (from_pos a prefix now o).0
  from_pos-Inv a prefix now none h = negative_locked-Inv a prefix now h
  from_pos-Inv a prefix now (some e) h =
      if_either (λ (x : Authenticator × Cached). Inv x.0) (is_younger e.fetched now a.cfg.cache_ttl)
        (λ t. h)
        (λ f.
          if_either (λ (x : Authenticator × Cached). Inv x.0)
            (is_younger e.fetched now (a.cfg.cache_ttl + a.cfg.stale_grace)) (λ t. h)
            (λ g.
              negative_locked-Inv (record a { pos = remove prefix a.pos }) prefix now
                (with_pos a (remove prefix a.pos) h
                  (remove-Holds P c.cache_size prefix a.pos h.3))))

  pub cached_locked-Inv :
      (a : Authenticator) (prefix : Bytes) (now : ℕ) → Inv a → Inv (cached_locked a prefix now).0
  unfolding cached_locked
  cached_locked-Inv a prefix now h =
      from_pos-Inv (record a { pos = (get prefix a.pos).0 }) prefix now (get prefix a.pos).1
        (with_pos a (get prefix a.pos).0 h (get-Holds P c.cache_size prefix a.pos h.3))

  pub consult-Inv :
      (a : Authenticator) (prefix : Bytes) (now : ℕ) → Inv a → Inv (consult a prefix now).0
  unfolding consult
  consult-Inv a prefix now h =
      if_either (λ (x : Authenticator × Cached × Bool). Inv x.0)
        (is_hit (cached_locked a prefix now).1) (λ t. cached_locked-Inv a prefix now h)
        (λ f. cached_locked-Inv a prefix now h)

  start_flight-Inv :
      (a : Authenticator) (prefix : Bytes) (refresh : Bool)
      → lookup prefix a.flights ≡ none
      → is_shed a refresh ≡ false
      → Inv a
      → Inv (start_flight a prefix refresh)
  start_flight-Inv a prefix true e s h =
      let m = ap (λ (x : Config). x.max_lookups) h.0 in
      (
        h.0,
        h.1,
        (
          insert-Unique prefix true a.flights h.2.0,
          omega (arith, h.2.1, count-insert_new is_refresh prefix true a.flights e),
          omega (arith, h.2.2, count-insert_new is_new prefix true a.flights e),
          ground (arith, s, m),
          ground (arith, s, m, h.2.4),
        ),
        h.3,
        h.4,
      )
  start_flight-Inv a prefix false e s h =
      let m = ap (λ (x : Config). x.max_lookups) h.0 in
      (
        h.0,
        h.1,
        (
          insert-Unique prefix false a.flights h.2.0,
          omega (arith, h.2.1, count-insert_new is_refresh prefix false a.flights e),
          omega (arith, h.2.2, count-insert_new is_new prefix false a.flights e),
          ground (arith, s, m),
          ground (arith, s, m, h.2.4),
        ),
        h.3,
        h.4,
      )

  fetch_flight-Inv :
      (a : Authenticator) (prefix : Bytes) (refresh : Bool)
      → Inv a
      → Inv (fetch_flight a prefix refresh (lookup prefix a.flights)).0
  fetch_flight-Inv a prefix refresh h = elim (Option-cases (lookup prefix a.flights)) [
    | inr (running, e) ↦ rw e h
    | inl e ↦ rw e (
        if_either (λ (x : Authenticator × Fetch). Inv x.0) (is_shed a refresh) (λ t. h)
          (λ f. start_flight-Inv a prefix refresh e f h))
  ]

  fetch_from-Inv :
      (a : Authenticator) (prefix : Bytes) (refresh : Bool) (x : Cached)
      → Inv a
      → Inv (fetch_from a prefix refresh x).0
  fetch_from-Inv a prefix refresh (hit answer) h = h
  fetch_from-Inv a prefix refresh (stale e) h = fetch_flight-Inv a prefix refresh h
  fetch_from-Inv a prefix refresh missing h = fetch_flight-Inv a prefix refresh h

  pub fetch-Inv :
      (a : Authenticator) (prefix : Bytes) (now : ℕ) (refresh : Bool)
      → Inv a
      → Inv (fetch a prefix now refresh).0
  unfolding fetch
  fetch-Inv a prefix now refresh h =
      fetch_from-Inv (cached_locked a prefix now).0 prefix refresh (cached_locked a prefix now).1
        (cached_locked-Inv a prefix now h)

  warn_limited-Inv : (a : Authenticator) (now : ℕ) → Inv a → Inv (warn_limited a now)
  unfolding warn_limited
  warn_limited-Inv a now h =
      if_either Inv (ltb now (a.last_warn + 10 * second) && ltb 0 a.last_warn) (λ t. h) (λ f. h)

  end_flight-Inv :
      (a : Authenticator) (prefix : Bytes) (refresh : Bool)
      → lookup prefix a.flights ≡ some refresh
      → Inv a
      → Inv (end_flight a prefix refresh)
  end_flight-Inv a prefix true e h =
      let r = count-delete_old is_refresh prefix true a.flights h.2.0 e in
      let n = count-delete_old is_new prefix true a.flights h.2.0 e in
      (
        h.0,
        h.1,
        (
          delete-Unique prefix a.flights h.2.0,
          omega (arith, h.2.1, r),
          omega (arith, h.2.2, n),
          omega (arith, h.2.3),
          h.2.4,
        ),
        h.3,
        h.4,
      )
  end_flight-Inv a prefix false e h =
      let r = count-delete_old is_refresh prefix false a.flights h.2.0 e in
      let n = count-delete_old is_new prefix false a.flights h.2.0 e in
      (
        h.0,
        h.1,
        (
          delete-Unique prefix a.flights h.2.0,
          omega (arith, h.2.1, r),
          omega (arith, h.2.2, n),
          omega (arith, h.2.3),
          omega (arith, h.2.4),
        ),
        h.3,
        h.4,
      )

  -- What the store answers about a prefix has `P`, whenever it was touched last.
  abbrev pub Sound : Bytes → ℕ → Found → Type 0
  Sound prefix now (found rec) =
      (t : ℕ) → P (prefix, record { rec = rec; fetched = now; last_touch = t })
  Sound prefix now (failed why) = Unit

  settle-Inv :
      (a : Authenticator) (prefix : Bytes) (now : ℕ) (answer : Found)
      → Sound prefix now answer
      → Inv a
      → Inv (settle a prefix now answer).0
  unfolding settle
  settle-Inv a prefix now (found rec) p h = (
    h.0,
    h.1,
    h.2,
    put-Holds P c.cache_size prefix _ _ (p _) (get-Holds P c.cache_size prefix a.pos h.3),
    remove-Holds Any c.cache_size prefix a.neg h.4,
  )
  settle-Inv a prefix now (failed not_found) p h = (
    h.0,
    h.1,
    h.2,
    remove-Holds P c.cache_size prefix a.pos h.3,
    put-Holds Any c.cache_size prefix now a.neg tt h.4,
  )
  settle-Inv a prefix now (failed bad_record) p h = warn_limited-Inv a now h
  settle-Inv a prefix now (failed busy) p h = warn_limited-Inv a now h
  settle-Inv a prefix now (failed invalid) p h = h
  settle-Inv a prefix now (failed expired) p h = h
  settle-Inv a prefix now (failed revoked) p h = h
  settle-Inv a prefix now (failed suspended) p h = h
  settle-Inv a prefix now (failed unavailable) p h = h

  pub finish_lookup-Inv :
      (a : Authenticator) (prefix : Bytes) (now : ℕ) (answer : Found)
      → Sound prefix now answer
      → Inv a
      → Inv (finish_lookup a prefix now answer).0
  unfolding finish_lookup
  finish_lookup-Inv a prefix now answer p h = elim (Option-cases (lookup prefix a.flights)) [
    | inl e ↦ rw e h
    | inr (refresh, e) ↦ rw e (
        settle-Inv (end_flight a prefix refresh) prefix now answer p
          (end_flight-Inv a prefix refresh e h))
  ]
