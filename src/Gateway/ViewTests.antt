-- ===== src/Gateway/ViewTests.antt =====
-- internal/gateway/snapshot.go on two workers, and its theorem at them.
use server_flow.Prelude.{ℕ, ◌≡◌, refl, Bool, true, false, none, some, [], ◌∷◌, List}
use server_flow.Prelude.Bytes.{Bytes, ascii, bytes_eq, bytes_beq, bytes_ltb}
use server_flow.Prelude.Assoc.{lookup, insert}
use server_flow.Prelude.Fixed.{fixed}
use server_flow.Scheduler.Candidates.{place, sort}
use server_flow.Scheduler.Sample.{one, two}
use server_flow.Gateway.Snapshot.{
  SnapshotCache, new_snapshot_cache, fresh, degraded, serves, group, sort_all, find_worker,
  believable, refreshed, aged, view_at, worker, models, eligible_models, place_name, sort_names,
}
use server_flow.Gateway.Views.{Refresh, refreshes, Usable, view_at-Usable}

program : Unit {0}
unfolding lookup insert bytes_beq bytes_ltb place sort new_snapshot_cache fresh degraded serves
    group sort_all find_worker believable refreshed aged view_at worker models eligible_models
    place_name sort_names
program = tt

abbrev all_valid : Bytes → Bool
all_valid address = true

-- A good refresh, and one that failed.
abbrev history : List (Refresh fixed all_valid)
history = (1000000000, false, some (two ∷ one ∷ [])) ∷ (2000000000, false, none) ∷ []

abbrev cache : SnapshotCache ℕ
cache = refreshes fixed all_valid (new_snapshot_cache 1000000000 5000000000 3000000000) history

known : worker fixed cache (ascii "m") (ascii "w1") 1000000000 ≡ some one
unfolding program
known = refl

-- Two seconds later the workers still serve; three seconds later they are suspect.
serving : models fixed cache 3000000000 ≡ some (ascii "m" ∷ [])
unfolding program
serving = refl

suspected : models fixed cache 4000000000 ≡ some []
unfolding program
suspected = refl

too_old : view_at fixed cache (ascii "m") 6000000001 ≡ none
unfolding program
too_old = refl

late : degraded cache 3000000001 ≡ true
unfolding program
late = refl

view_at-Usable_example :
    Usable fixed all_valid cache (ascii "m") 3000000000 (view_at fixed cache (ascii "m") 3000000000)
view_at-Usable_example =
    view_at-Usable fixed all_valid 1000000000 5000000000 3000000000 history (ascii "m") 3000000000
