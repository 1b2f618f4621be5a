-- ===== src/Resilience/Admission.antt =====
-- internal/resilience/admission.go: the global request cap of a gateway. The compare-and-swap loop of Acquire is one
-- step. The slots that were handed out are a list, oldest first, each with its `released` flag.
pub mod Places
use server_flow.Prelude.{
  ℕ, ◌+◌, ◌-◌, Bool, true, false, ◌&&◌, Option, none, some, List, [], ◌∷◌, ◌++◌, ltb, leb,
  if◌then◌else◌, length, get_elem?, set,
}

pub record Admission : Type 0 where
  pub max : ℕ
  pub active : ℕ
  pub slots : List Bool

unfoldable pub new_admission : ℕ → Admission
new_admission max = record { max = max; active = 0; slots = [] }

-- The slot that is handed out is the number of those before it.
unfoldable pub acquire : Admission → Admission × Option ℕ
acquire a = if ltb 0 a.max && leb a.max a.active then (a, none) else (
  record a { active = a.active + 1; slots = a.slots ++ (false ∷ []) },
  some (length a.slots),
)

-- Release's compare-and-swap of the flag. A slot that was never handed out stands for nil.
unfoldable pub release : Admission → ℕ → Admission
release a s = elim (get_elem? a.slots s) [
  | none ↦ a
  | some released ↦
      if released then a else record a { active = a.active - 1; slots = set a.slots s true }
]
