-- ===== src/Resilience/Admission/Places.antt =====
-- The places under the global cap (internal/resilience/admission.go).
use server_flow.Prelude.{
  ℕ, zero, suc, ◌≤◌, ◌≡◌, refl, inl, inr, Bool, true, false, not, some, List, [], ◌∷◌, arith,
  get_elem?, set, count, count-append, Option-cases,
}
use server_flow.Resilience.Admission.{Admission, new_admission, acquire, release}

pub data Call : Type 0 where
  acquires : Call
  releases : (slot : ℕ) → Call

abbrev pub apply : Admission → Call → Admission
apply a acquires = (acquire a).0
apply a (releases slot) = release a slot

unfoldable pub run : Admission → List Call → Admission
run a [] = a
run a (c ∷ cs) = run (apply a c) cs

-- The slots that are still held.
abbrev pub held : List Bool → ℕ
held slots = count not slots

held-set :
    (slots : List Bool) (s : ℕ)
    → get_elem? slots s ≡ some false
    → suc (held (set slots s true)) ≡ held slots
held-set [] s h = ground arith
held-set (x ∷ slots) zero h = ground arith
held-set (x ∷ slots) (suc s) h = ground (arith, held-set slots s h)

abbrev Counted : ℕ → Admission → Type 0
Counted max a = (a.max ≡ max) × (a.active ≡ held a.slots) × (1 ≤ max → a.active ≤ max)

apply-Counted : (max : ℕ) (a : Admission) (c : Call) → Counted max a → Counted max (apply a c)
unfolding acquire release
apply-Counted max a acquires v =
    ground (arith, v.0, v.1, v.2, count-append not a.slots (false ∷ []))
apply-Counted max a (releases s) v = elim (Option-cases (get_elem? a.slots s)) [
  | inl out ↦ rw (out, release) v
  | inr (true, e) ↦ rw (e, release) v
  | inr (false, e) ↦
      let one_less = held-set a.slots s e in
      rw (e, release) (v.0, omega (arith, v.1, one_less), λ h. omega (arith, v.2 h))
]

run-Counted : (max : ℕ) (a : Admission) (cs : List Call) → Counted max a → Counted max (run a cs)
unfolding run
run-Counted max a [] v = v
run-Counted max a (c ∷ cs) v = run-Counted max (apply a c) cs (apply-Counted max a c v)

-- After any acquires and releases, also repeated ones, the counter is the number of slots that are still held,
-- and under a positive cap it is at most the cap.
pub active-held :
    (max : ℕ) (cs : List Call)
    → let a = run (new_admission max) cs in (a.active ≡ held a.slots) × (1 ≤ max → a.active ≤ max)
unfolding new_admission
active-held max cs =
    let v = run-Counted max (new_admission max) cs (refl, refl, λ h. omega arith) in (v.1, v.2)
