-- ===== src/Gateway/Retryable.antt =====
-- What a failure that internal/gateway/retry.go lets the gateway retry says of the attempt.
use server_flow.Prelude.{
  ℕ, ◌≡◌, refl, inl, inr, ◌⊎◌, Bool, true, false, ◌||◌, Option, none, some, List, [], ◌∷◌, arith,
  ◌==◌, nat_eq, if◌then◌else◌, if_either, All, Bool-cases,
}
use server_flow.Prelude.Bytes.{bytes_beq, bytes_beq_iff}
use server_flow.Prelude.Assoc.{Assoc, lookup, insert, lookup-insert}
use server_flow.Gateway.Retry.{
  Link, AttemptClass, connect, reset, empty_stream, status_class, new_retry_policy, note_all,
  or_false, status, has, is_cancelled, is_refused, is_closed, is_dns, first_of, is_dial, op_of,
  server_closed_idle_text, is_server_closed_idle, is_nil, transport_error,
}

-- A code stands in a list.
abbrev pub listed : ℕ → List ℕ → Bool
listed code [] = false
listed code (s ∷ ss) = (s == code) || listed code ss

note_all-listed :
    (code : ℕ) (ss : List ℕ) (m : Assoc ℕ Bool)
    → or_false (lookup code (note_all ss m)) ≡ (listed code ss || or_false (lookup code m))
unfolding note_all
note_all-listed code [] m = refl
note_all-listed code (s ∷ ss) m =
    ground (arith, note_all-listed code ss (insert s true m), lookup-insert s code true m)

-- A worker's response may be retried exactly if its status is one of those that the policy was made with, and the class names
-- that status.
pub status-new_retry_policy :
    (most : ℕ) (statuses : List ℕ) (code : ℕ)
    → status (new_retry_policy most statuses) code
      ≡ (if listed code statuses then some (status_class code) else none)
unfolding status lookup
status-new_retry_policy most statuses code =
    let e = note_all-listed code statuses [] in ground arith

-- A link of the chain that satisfies a predicate.
abbrev pub Holds : (Link → Type 0) → List Link → Type 0
Holds P [] = ⊥
Holds P (e ∷ rest) = P e ⊎ Holds P rest

has-Holds : (p : Link → Bool) (es : List Link) → has p es ≡ true → Holds (λ e. p e ≡ true) es
unfolding has
has-Holds p [] h = absurd (ground arith)
has-Holds p (e ∷ es) h = elim (Bool-cases (p e)) [
  | inl found ↦ inl found
  | inr missed ↦ inr (has-Holds p es (ground arith))
]

idle-Holds :
    (es : List Link)
    → is_server_closed_idle es ≡ true
    → Holds (λ e. e.text ≡ server_closed_idle_text) es
unfolding is_server_closed_idle
idle-Holds [] h = absurd (ground arith)
idle-Holds (e ∷ es) h = elim (Bool-cases (bytes_beq e.text server_closed_idle_text)) [
  | inl found ↦ inl ((bytes_beq_iff e.text server_closed_idle_text).0 found)
  | inr missed ↦ inr (idle-Holds es (rw missed at h))
]

-- The errors that say that no connection was made, or that one was closed.
abbrev pub Unconnected : List Link → Type 0
Unconnected es =
    Holds (λ e. is_refused e ≡ true) es
    ⊎ Holds (λ e. e.dns ≡ true) es
    ⊎ (is_dial (first_of op_of es) ≡ true)

abbrev pub Closed : List Link → Type 0
Closed es = Holds (λ e. is_closed e ≡ true) es ⊎ Holds (λ e. e.text ≡ server_closed_idle_text) es

-- An error that says nothing of the connection.
abbrev pub Plain : Link → Type 0
Plain e =
    (is_refused e ≡ false)
    × (e.dns ≡ false)
    × (is_closed e ≡ false)
    × (bytes_beq e.text server_closed_idle_text ≡ false)

no_class :
    (es : List Link)
    → has is_refused es ≡ false
    → has is_dns es ≡ false
    → has is_closed es ≡ false
    → is_server_closed_idle es ≡ false
    → All Plain es
unfolding has is_server_closed_idle
no_class [] r d c i = tt
no_class (e ∷ es) r d c i = (
  (ground arith, ground arith, ground arith, ground arith),
  no_class es (ground arith) (ground arith) (ground arith) (ground arith),
)

-- What an answer of transport_error says of the chain.
abbrev pub Explained : List Link → Option AttemptClass → Type 0
Explained es none =
    (is_nil es || has is_cancelled es) ≡ true
    ⊎ (All Plain es × (is_dial (first_of op_of es) ≡ false))
Explained es (some connect) = (has is_cancelled es ≡ false) × Unconnected es
Explained es (some reset) = (has is_cancelled es ≡ false) × Closed es
Explained es (some empty_stream) = ⊥
Explained es (some (status_class code)) = ⊥

either_true : (a b : Bool) → (a || b) ≡ true → (a ≡ true) ⊎ (b ≡ true)
either_true true b h = inl refl
either_true false b h = inr h

unconnected :
    (es : List Link)
    → (has is_refused es || has is_dns es || is_dial (first_of op_of es)) ≡ true
    → Unconnected es
unconnected es h = elim (Bool-cases (has is_refused es)) [
  | inl r ↦ inl (has-Holds is_refused es r)
  | inr n ↦ elim (Bool-cases (has is_dns es)) [
    | inl d ↦ inr (inl (has-Holds is_dns es d))
    | inr m ↦ inr (inr (ground arith))
  ]
]

-- A failure to send is retried only as a failed connection or a closed one. The chain of its error then holds no context.Canceled.
-- A failed connection has a link that is ECONNREFUSED or a DNS error, or its first net.OpError is a dial. A closed one has a
-- link that is ECONNRESET, EPIPE, EOF or ErrUnexpectedEOF, or whose text is that of a closed idle connection. A failure that
-- is not retried has no error, or holds context.Canceled, or none of its links is any of these and its first net.OpError, if
-- there is one, is not a dial.
pub transport_error-Explained : (es : List Link) → Explained es (transport_error es)
unfolding transport_error
transport_error-Explained es =
    if_either (Explained es) (is_nil es || has is_cancelled es) (λ t. inl t)
      (λ alive.
        let live : has is_cancelled es ≡ false = ground arith in
        if_either (Explained es) (has is_refused es || has is_dns es || is_dial (first_of op_of es))
          (λ t. (live, unconnected es t))
          (λ f.
            if_either (Explained es) (has is_closed es)
              (λ c. (live, inl (has-Holds is_closed es c)))
              (λ g.
                if_either (Explained es) (is_server_closed_idle es)
                  (λ i. (live, inr (idle-Holds es i)))
                  (λ n. inr (no_class es (ground arith) (ground arith) g n, ground arith)))))
