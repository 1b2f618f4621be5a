-- ===== src/Scheduler/Least.antt =====
-- The least loaded worker (chooseWith of internal/scheduler/scheduler.go).
use server_flow.Prelude.{
  ℕ, ◌≤◌, ◌<◌, ◌≡◌, refl, ◌⊎◌, inl, inr, List, [], ◌∷◌, arith, ltb, nat_beq, nat_beq_iff,
  if◌then◌else◌, keep, length, length-keep, count, All, Bool-cases,
}
use server_flow.Prelude.Bytes.{Bytes}
use server_flow.Protocol.{WorkerSnapshot}
use server_flow.Scheduler.Rotor.{Rotor}
use server_flow.Scheduler.Candidates.{least, is_tied, turn, choose_with}
use server_flow.Scheduler.Kept.{next-All}

module _ {F : Type 0} (load : WorkerSnapshot F → ℕ) where
  least_bound : (m : ℕ) (ws : List (WorkerSnapshot F)) → least load m ws ≤ m
  unfolding least
  least_bound m [] = omega arith
  least_bound m (w ∷ ws) = ground (arith, least_bound (if ltb (load w) m then load w else m) ws)

  least-AtLeast : (m : ℕ) (ws : List (WorkerSnapshot F)) → All (λ w. least load m ws ≤ load w) ws
  unfolding least
  least-AtLeast m [] = tt
  least-AtLeast m (w ∷ ws) = (
    ground (arith, least_bound (if ltb (load w) m then load w else m) ws),
    least-AtLeast (if ltb (load w) m then load w else m) ws,
  )

  -- The least load is the first one, or one of the others.
  least_tied :
      (m : ℕ) (ws : List (WorkerSnapshot F))
      → (least load m ws ≡ m) ⊎ (0 < count (is_tied load (least load m ws)) ws)
  unfolding least
  least_tied m [] = inl refl
  least_tied m (w ∷ ws) = ground (arith, least_tied (if ltb (load w) m then load w else m) ws)

  turn-Passes :
      (r : Rotor) (model : Bytes) (d : WorkerSnapshot F) (P : WorkerSnapshot F → Type 0)
      (ws : List (WorkerSnapshot F))
      → 0 < length ws
      → All P ws
      → P (turn r model d ws).1
  turn-Passes r model d P [] h a = elim h [ ]
  turn-Passes r model d P (w ∷ ws) h a = next-All P r model w ws a

  tied-All :
      (m : ℕ) (ws : List (WorkerSnapshot F)) → All (λ w. load w ≡ m) (keep (is_tied load m) ws)
  tied-All m [] = tt
  tied-All m (w ∷ ws) = elim (Bool-cases (nat_beq (load w) m)) [
    | inl t ↦ rw t (ground (arith, nat_beq_iff (load w) m), tied-All m ws)
    | inr f ↦ rw f (tied-All m ws)
  ]

  tied_some :
      (w : WorkerSnapshot F) (ws : List (WorkerSnapshot F))
      → 0 < count (is_tied load (least load (load w) ws)) (w ∷ ws)
  tied_some w ws = ground (arith, least_tied (load w) ws)

  choose_with-tied :
      (r : Rotor) (model : Bytes) (w : WorkerSnapshot F) (ws : List (WorkerSnapshot F))
      → load ((choose_with load r model w ws).1) ≡ least load (load w) ws
  unfolding choose_with
  choose_with-tied r model w ws =
      turn-Passes r model w (λ v. load v ≡ least load (load w) ws)
        (keep (is_tied load (least load (load w) ws)) (w ∷ ws))
        (omega
          (arith, tied_some w ws, length-keep (is_tied load (least load (load w) ws)) (w ∷ ws)))
        (tied-All (least load (load w) ws) (w ∷ ws))

  weaken :
      (m n : ℕ) (ws : List (WorkerSnapshot F))
      → m ≡ n
      → All (λ w. n ≤ load w) ws
      → All (λ w. m ≤ load w) ws
  weaken m n [] e a = tt
  weaken m n (w ∷ ws) e a = (omega (arith, e, a.0), weaken m n ws e a.1)

  -- The choice of least active, and of least queue, has the smallest load of the workers it is made among, whatever was
  -- handed out before.
  pub choose_with-AtLeast :
      (r : Rotor) (model : Bytes) (w : WorkerSnapshot F) (ws : List (WorkerSnapshot F))
      → All (λ v. load ((choose_with load r model w ws).1) ≤ load v) (w ∷ ws)
  choose_with-AtLeast r model w ws =
      weaken _ _ (w ∷ ws) (choose_with-tied r model w ws)
        (least_bound (load w) ws, least-AtLeast (load w) ws)
