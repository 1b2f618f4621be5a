-- ===== src/Auth/CacheTests.antt =====
-- internal/auth/authenticator.go on concrete steps, and its theorems at them. The hash of these tests is the text itself.
use server_flow.Prelude.{◌+◌, ◌≡◌, ◌≤◌, refl, true, [], ◌∷◌, List, none, some, replicate, length}
use server_flow.Prelude.Bytes.{Bytes, ascii, bytes_eq, bytes_beq}
use server_flow.Prelude.Assoc.{lookup, insert, delete}
use server_flow.Auth.Base64.{letter, sextet, to_sextets, of_sextets, sextets, encode, decode}
use server_flow.Auth.Key.{hex, valid_prefix, parse_key, hashes_equal, key_text}
use server_flow.Auth.Types.{failed, not_found, KeyRecord, found, expired}
use server_flow.Auth.Lru.{new_lru, get, put, remove, len, drop_last, evict}
use server_flow.Auth.Authenticator.{
  Config, with_defaults, new_authenticator, cached_locked, negative_locked, consult, missing,
}
use server_flow.Auth.Authenticate.{
  fetch, warn_limited, settle, finish_lookup, note_use, judge, finish, Answer, admitted, rejected,
}
use server_flow.Auth.Calls.{
  done, begin, go_on, conclude, take_touch, Call, begins, goes_on, store_answers, run,
}
use server_flow.Auth.Fresh.{reached, run-Slots, len-le}
use server_flow.Auth.Judged.{Explained, Matching, judge-Explained}
use server_flow.Auth.Admitted.{Vouched, begin-Vouched}

program : Unit {0}
unfolding lookup insert delete bytes_beq letter sextet to_sextets of_sextets sextets encode decode
    hex valid_prefix parse_key hashes_equal new_lru get put remove len drop_last evict with_defaults
    new_authenticator cached_locked negative_locked consult fetch warn_limited settle finish_lookup
    note_use judge finish begin go_on conclude take_touch run
program = tt

abbrev same_text : Bytes → Bytes
same_text s = s

abbrev secret : Bytes
secret = replicate 32 7

abbrev key : Bytes
key = key_text (ascii "0aff1002") secret

abbrev tiny : Config
tiny = record {
  cache_ttl = 30;
  negative_ttl = 5;
  cache_size = 2;
  stale_grace = 300;
  lookup_timeout = 3;
  refresh_wait = 1;
  max_lookups = 4;
}

abbrev stored : KeyRecord
stored = record {
  key_id = ascii "key_1";
  tenant_id = ascii "ten_1";
  prefix = ascii "0aff1002";
  secret_hash = secret;
  key_status = ascii "active";
  expires_at = some 500;
  policy = record {
    status = ascii "active";
    allowed_models = none;
    requests_per_minute = 0;
    tokens_per_minute = 0;
    max_concurrent = 0;
    priority = 0;
  };
}

-- A request misses, a lookup starts, and the store answers.
abbrev steps : List Call
steps =
    begins key 100 100
    ∷ goes_on (ascii "0aff1002") secret missing 101 101
    ∷ store_answers (ascii "0aff1002") 105 (found stored)
    ∷ []

abbrev caller : Answer
caller =
    admitted (record { tenant_id = ascii "ten_1"; key_id = ascii "key_1"; policy = stored.policy })

cached_key : (begin same_text (reached same_text true tiny steps) key 120 120).1 ≡ done caller
unfolding program
cached_key = refl

-- 29 later than it was fetched, but past the key's own end.
expired_key : judge secret 500 (found stored) ≡ rejected expired
unfolding program
expired_key = refl

run-Slots_example :
    let a =
      reached same_text true tiny
        (begins key 100 100 ∷ goes_on (ascii "0aff1002") secret missing 101 101 ∷ []) in
    (a.inflight_refresh + a.inflight_new ≡ length a.flights)
    × (a.inflight_refresh + a.inflight_new ≤ 4)
    × (a.inflight_new + 1 ≤ 4)
unfolding program
run-Slots_example =
    run-Slots same_text true tiny
      (begins key 100 100 ∷ goes_on (ascii "0aff1002") secret missing 101 101 ∷ [])

len-le_example : let a = reached same_text true tiny steps in (len a.pos ≤ 2) × (len a.neg ≤ 2)
unfolding program
len-le_example = len-le same_text true tiny steps

judge-Explained_example :
    Explained secret 120 stored (judge secret 120 (found stored))
    × (¬ Matching secret stored
        → judge secret 120 (found stored) ≡ judge secret 120 (failed not_found))
judge-Explained_example = judge-Explained secret 120 stored

begin-Vouched_example :
    Vouched same_text true tiny steps key 120 120
      ((begin same_text (reached same_text true tiny steps) key 120 120).1)
begin-Vouched_example = begin-Vouched same_text true tiny steps key 120 120
