-- ===== src/Auth/Runs.antt =====
-- What holds after any steps of internal/auth/authenticator.go, and how fresh an answer of its caches is.
use server_flow.Prelude.{
  ℕ, ◌+◌, Bool, true, false, ◌&&◌, not, Option, none, some, List, [], ◌∷◌, ltb, if_either, All,
}
use server_flow.Prelude.Bytes.{Bytes, bytes_eq}
use server_flow.Auth.Key.{ParsedKey, malformed, parsed, parse_key}
use server_flow.Auth.Types.{Found, found, failed}
use server_flow.Auth.Lru.{get, Reads, get-Holds, get-Reads, put-Holds}
use server_flow.Auth.Authenticator.{
  Config, Authenticator, PosEntry, Cached, hit, stale, missing, consult, touch_every,
}
use server_flow.Auth.Authenticate.{
  Fetch, answered, joined, started, fetch, touch_found, note_use, Answer, admitted, rejected, judge,
  record_answer, noted, finish,
}
use server_flow.Auth.Calls.{
  consulted, begin_parsed, begin, fetched, go_on, conclude, take_touch, is_stale, Call, begins,
  goes_on, concludes, store_answers, takes_touch, apply, run,
}
use server_flow.Auth.Slots.{Inv, Sound, consult-Inv, fetch-Inv, finish_lookup-Inv, with_pos}

-- Of a step: what the store answers has `P`.
abbrev pub SoundCall : Config → ℕ → (Bytes × PosEntry → Type 0) → Call → Type 0
SoundCall c reserve P (store_answers prefix now answer) = Sound c reserve P prefix now answer
SoundCall c reserve P _ = Unit

module _ (c : Config) (reserve : ℕ) (P : Bytes × PosEntry → Type 0)
    (touched : (k : Bytes) (e : PosEntry) (t : ℕ)
      → P (k, e)
      → P (k, record e { last_touch = t })) where
  touch_found-Inv :
      (a : Authenticator) (prefix key_id : Bytes) (now : ℕ) (o : Option PosEntry)
      → Reads P prefix o
      → Inv c reserve P a
      → Inv c reserve P (touch_found a prefix key_id now o)
  touch_found-Inv a prefix key_id now none r h = h
  touch_found-Inv a prefix key_id now (some e) r h =
      if_either (Inv c reserve P) (ltb 0 e.last_touch && ltb now (e.last_touch + touch_every))
        (λ t. h)
        (λ f. (
          h.0,
          h.1,
          h.2,
          put-Holds P c.cache_size prefix _ a.pos (touched prefix e now r) h.3,
          h.4,
        ))

  note_use-Inv :
      (a : Authenticator) (prefix key_id : Bytes) (now : ℕ)
      → Inv c reserve P a
      → Inv c reserve P (note_use a prefix key_id now)
  unfolding note_use
  note_use-Inv a prefix key_id now h =
      if_either (Inv c reserve P) (not a.touches_store) (λ t. h)
        (λ f.
          touch_found-Inv (record a { pos = (get prefix a.pos).0 }) prefix key_id now
            (get prefix a.pos).1 (get-Reads P c.cache_size prefix a.pos h.3)
            (with_pos c reserve P a (get prefix a.pos).0 h
              (get-Holds P c.cache_size prefix a.pos h.3)))

  noted-Inv :
      (a : Authenticator) (prefix : Bytes) (now : ℕ) (answer : Found) (v : Answer)
      → Inv c reserve P a
      → Inv c reserve P (noted a prefix now answer v).0
  noted-Inv a prefix now (found rec) (admitted caller) h = note_use-Inv a prefix rec.key_id now h
  noted-Inv a prefix now (failed why) (admitted caller) h = h
  noted-Inv a prefix now (found rec) (rejected why) h = h
  noted-Inv a prefix now (failed reason) (rejected why) h = h

  finish-Inv :
      (a : Authenticator) (prefix hash : Bytes) (now : ℕ) (answer : Found)
      → Inv c reserve P a
      → Inv c reserve P (finish a prefix hash now answer).0
  unfolding finish
  finish-Inv a prefix hash now answer h = noted-Inv a prefix now answer (judge hash now answer) h

  consulted-Inv :
      (a : Authenticator) (prefix hash : Bytes) (later : ℕ) (x : Cached) (down : Bool)
      → Inv c reserve P a
      → Inv c reserve P (consulted a prefix hash later x down).0
  consulted-Inv a prefix hash later (hit answer) down h = finish-Inv a prefix hash later answer h
  consulted-Inv a prefix hash later (stale e) true h = finish-Inv a prefix hash later _ h
  consulted-Inv a prefix hash later (stale e) false h = h
  consulted-Inv a prefix hash later missing true h = finish-Inv a prefix hash later _ h
  consulted-Inv a prefix hash later missing false h = h

  begin_parsed-Inv :
      (a : Authenticator) (now later : ℕ) (k : ParsedKey)
      → Inv c reserve P a
      → Inv c reserve P (begin_parsed a now later k).0
  begin_parsed-Inv a now later malformed h = h
  begin_parsed-Inv a now later (parsed prefix hash) h =
      consulted-Inv (consult a prefix now).0 prefix hash later _ _
        (consult-Inv c reserve P a prefix now h)

  fetched-Inv :
      (a : Authenticator) (prefix hash : Bytes) (x : Cached) (later : ℕ) (f : Fetch)
      → Inv c reserve P a
      → Inv c reserve P (fetched a prefix hash x later f).0
  fetched-Inv a prefix hash x later (answered answer) h = finish-Inv a prefix hash later _ h
  fetched-Inv a prefix hash x later joined h = h
  fetched-Inv a prefix hash x later started h = h

  apply-Inv :
      (sha256 : Bytes → Bytes) (a : Authenticator) (x : Call)
      → SoundCall c reserve P x
      → Inv c reserve P a
      → Inv c reserve P (apply sha256 a x)
  unfolding begin go_on conclude take_touch
  apply-Inv sha256 a (begins bearer now later) p h =
      begin_parsed-Inv a now later (parse_key sha256 bearer) h
  apply-Inv sha256 a (goes_on prefix hash x now later) p h =
      fetched-Inv (fetch a prefix now (is_stale x)).0 prefix hash x later _
        (fetch-Inv c reserve P a prefix now (is_stale x) h)
  apply-Inv sha256 a (concludes prefix hash x now answer) p h =
      finish-Inv a prefix hash now (record_answer x answer) h
  apply-Inv sha256 a (store_answers prefix now answer) p h =
      finish_lookup-Inv c reserve P a prefix now answer p h
  apply-Inv sha256 a takes_touch p h = h

  pub run-Inv :
      (sha256 : Bytes → Bytes) (a : Authenticator) (xs : List Call)
      → All (SoundCall c reserve P) xs
      → Inv c reserve P a
      → Inv c reserve P (run sha256 a xs)
  unfolding run
  run-Inv sha256 a [] p h = h
  run-Inv sha256 a (x ∷ xs) p h =
      run-Inv sha256 (apply sha256 a x) xs p.1 (apply-Inv sha256 a x p.0 h)
