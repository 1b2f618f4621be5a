-- ===== src/Gateway/Retry.antt =====
-- internal/gateway/retry.go: which failed attempts may be followed by another. An error is its chain, the error first and what
-- it wraps after it; nil is the empty chain. An error that wraps several (errors.Join) is not modelled.
use server_flow.Prelude.{
  ℕ, Bool, true, false, ◌||◌, Option, none, some, List, [], ◌∷◌, if◌then◌else◌, nat_eq,
}
use server_flow.Prelude.Bytes.{Bytes, ascii, bytes_beq}
use server_flow.Prelude.Assoc.{Assoc, lookup, insert}

-- The error values that the policy looks for.
pub data Sentinel : Type 0 where
  cancelled refused reset_by_peer broken_pipe eof unexpected_eof other : Sentinel

-- One error of a chain: its text, which value it is, whether it is a *net.DNSError, the Op of a *net.OpError, and what
-- Timeout() says of a net.Error.
pub record Link : Type 0 where
  pub text : Bytes
  pub sentinel : Sentinel
  pub dns : Bool
  pub op : Option Bytes
  pub timeout : Option Bool

-- The class "" that stands beside false is `none`.
pub data AttemptClass : Type 0 where
  connect reset empty_stream : AttemptClass
  status_class : ℕ → AttemptClass

pub record RetryPolicy : Type 0 where
  pub max : ℕ
  pub statuses : Assoc ℕ Bool

unfoldable pub note_all : List ℕ → Assoc ℕ Bool → Assoc ℕ Bool
note_all [] m = m
note_all (s ∷ ss) m = note_all ss (insert s true m)

abbrev pub new_retry_policy : ℕ → List ℕ → RetryPolicy
new_retry_policy most statuses = record { max = most; statuses = note_all statuses [] }

-- Reading a key that is not there gives false.
abbrev pub or_false : Option Bool → Bool
or_false none = false
or_false (some b) = b

unfoldable pub status : RetryPolicy → ℕ → Option AttemptClass
status p code = if or_false (lookup code p.statuses) then some (status_class code) else none

-- errors.Is: a link is the value.
unfoldable pub has : (Link → Bool) → List Link → Bool
has test [] = false
has test (e ∷ rest) = test e || has test rest

abbrev pub is_cancelled : Link → Bool
is_cancelled e = elim e.sentinel [ cancelled ↦ true | _ ↦ false ]

abbrev pub is_refused : Link → Bool
is_refused e = elim e.sentinel [ refused ↦ true | _ ↦ false ]

abbrev pub is_closed : Link → Bool
is_closed e = elim e.sentinel [
  | reset_by_peer ↦ true
  | broken_pipe ↦ true
  | eof ↦ true
  | unexpected_eof ↦ true
  | _ ↦ false
]

abbrev pub is_dns : Link → Bool
is_dns e = e.dns

-- errors.As: the first link of the type.
unfoldable pub first_of {ℓ} : {A : Type ℓ} → (Link → Option A) → List Link → Option A
first_of field [] = none
first_of field (e ∷ rest) = elim (field e) [ none ↦ first_of field rest | some a ↦ some a ]

abbrev pub is_dial : Option Bytes → Bool
is_dial none = false
is_dial (some op) = bytes_beq op (ascii "dial")

abbrev pub op_of : Link → Option Bytes
op_of e = e.op

abbrev pub timeout_of : Link → Option Bool
timeout_of e = e.timeout

abbrev pub server_closed_idle_text : Bytes
server_closed_idle_text = ascii "http: server closed idle connection"

unfoldable pub is_server_closed_idle : List Link → Bool
is_server_closed_idle [] = false
is_server_closed_idle (e ∷ rest) =
    if bytes_beq e.text server_closed_idle_text then true else is_server_closed_idle rest

abbrev pub is_nil : List Link → Bool
is_nil [] = true
is_nil (e ∷ rest) = false

unfoldable pub transport_error : List Link → Option AttemptClass
transport_error err =
    if is_nil err || has is_cancelled err
    then none
    else if has is_refused err || has is_dns err || is_dial (first_of op_of err)
    then some connect
    else if has is_closed err
    then some reset
    else if is_server_closed_idle err
    then some reset
    else none

unfoldable pub first_chunk_error : List Link → Option AttemptClass
first_chunk_error err =
    if is_nil err || has is_cancelled err
    then none
    else if or_false (first_of timeout_of err)
    then none
    else some empty_stream
