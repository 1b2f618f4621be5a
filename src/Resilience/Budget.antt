-- ===== src/Resilience/Budget.antt =====
-- internal/resilience/budget.go: the retry budget of each model. The clock's reading is an argument. Refund changes the
-- reservation that it is given.
pub mod Tracked
use server_flow.Prelude.{
  ℕ, ◌+◌, max, Bool, true, false, ◌&&◌, ◌||◌, not, Option, none, some, List, [], ◌∷◌, ltb, leb,
  nat_beq, if◌then◌else◌, length, keep, ◌==◌,
}
use server_flow.Prelude.Bytes.{Bytes, ascii, bytes_eq, bytes_beq}
use server_flow.Prelude.Assoc.{Assoc, lookup, insert}
use server_flow.Prelude.Int.{pos, negsuc, pos_part}
use server_flow.Prelude.Float.{Float64}
use server_flow.Resilience.Window.{
  SlidingWindow, new_sliding_window, bucket_width, first, second, add, sum,
}

-- OtherModel
abbrev pub other_model : Bytes
other_model = ascii "other"

pub record BudgetParams (F : Type 0) : Type 0 where
  pub ratio : F
  pub least : ℕ
  pub window : ℕ
  pub max_models : ℕ

pub record Budget (F : Type 0) : Type 0 where
  pub params : BudgetParams F
  pub models : Assoc Bytes SlidingWindow

pub record Reservation : Type 0 where
  pub model : Bytes
  pub at : ℕ
  pub refunded : Bool

abbrev pub or_new : Option SlidingWindow → ℕ → SlidingWindow
or_new none window = new_sliding_window window
or_new (some w) window = w

abbrev pub has_events : ℕ × ℕ → Bool
has_events (firsts, retries) = not (nat_beq firsts 0) || not (nat_beq retries 0)

abbrev pub is_served : (Bytes → Bool) → ℕ → Bytes × SlidingWindow → Bool
is_served served now (model, w) =
    served model || bytes_beq model other_model && has_events (sum w now)

module _ {F : Type 0} where
  unfoldable pub new_budget : BudgetParams F → Budget F
  new_budget p = record {
    params = record p { window = if ltb p.window bucket_width then bucket_width else p.window };
    models = [];
  }

  -- The key of the window that `window` returns.
  unfoldable pub window_key : Budget F → Bytes → Bytes
  window_key b model = elim (lookup model b.models) [
    | some w ↦ model
    | none ↦
        if ltb 0 b.params.max_models
          && leb b.params.max_models (length b.models)
          && not (bytes_beq model other_model)
        then other_model
        else model
  ]

  -- `window`: the window under that key, created where it is missing.
  unfoldable pub window_of : Budget F → Bytes → SlidingWindow
  window_of b model = or_new (lookup (window_key b model) b.models) b.params.window

  abbrev pub put : Budget F → Bytes → SlidingWindow → Budget F
  put b key w = record b { models = insert key w b.models }

  unfoldable pub note_first : Budget F → ℕ → Bytes → Budget F
  note_first b now model =
      put b (window_key b model) (add (window_of b model) now now first (pos 1))

  unfoldable pub give_back : Budget F → ℕ → Reservation → Budget F
  give_back b now r = elim (lookup r.model b.models) [
    | none ↦ b
    | some w ↦ put b r.model (add w r.at now second (negsuc 0))
  ]

  -- A nil reservation is none.
  unfoldable pub refund : Budget F → ℕ → Option Reservation → Budget F × Option Reservation
  refund b now none = (b, none)
  refund b now (some r) =
      if r.refunded then (b, some r) else (give_back b now r, some (record r { refunded = true }))

  abbrev pub usage_key : Budget F → Bytes → Bytes
  usage_key b model = elim (lookup model b.models) [
    | some w ↦ model
    | none ↦
        if ltb 0 b.params.max_models && leb b.params.max_models (length b.models)
        then other_model
        else model
  ]

  unfoldable pub usage : Budget F → ℕ → Bytes → ℕ × ℕ
  usage b now model = elim (lookup (usage_key b model) b.models) [
    | none ↦ (0, 0)
    | some w ↦ sum w now
  ]

  unfoldable pub prune : Budget F → ℕ → (Bytes → Bool) → Budget F
  prune b now served = record b { models = keep (is_served served now) b.models }

module _ (fl : Float64) where
  open fl use {Float}

  unfoldable pub limit : BudgetParams Float → ℕ → ℕ
  limit p firsts =
      max p.least (pos_part (fl.floor (fl.add (fl.mul p.ratio (fl.of_int firsts)) (fl.lit 1 9))))

  unfoldable pub reserve : Budget Float → ℕ → Bytes → Budget Float × Option Reservation
  reserve b now model =
      let key = window_key b model in
      let w = window_of b model in
      let (firsts, retries) = sum w now in
      if leb (limit b.params firsts) retries then (put b key w, none) else (
        put b key (add w now now second (pos 1)),
        some (record { model = key; at = now; refunded = false }),
      )
