-- ===== src/Prelude/Bytes.antt =====
-- Go strings: sequences of bytes, compared by content and ordered byte by byte.
use Prim.Native.Char.{code}
use Prim.Native.Nat.{ℕ}
use Prim.Native.String.{String}
use mathlib.Core.Path.{◌≡◌, refl}
use mathlib.Core.Logic.{◌↔◌}
use mathlib.Core.Bool.{Bool, true, false, ◌&&◌}
use mathlib.Core.List.{List, [], ◌∷◌}
use native.Mathlib.Omega.{arith}
use server_flow.Prelude.Tests.{Comparable, nat_beq, ltb, if◌then◌else◌}

abbrev pub Bytes : Type 0
Bytes = List ℕ

-- The code points of a text: its bytes, since the program's own texts are ASCII.
abbrev pub ascii : (text : String) → Bytes
ascii String.[] = []
ascii (String.◌∷◌ letter text) = code letter ∷ ascii text

unfoldable pub bytes_beq : Bytes → Bytes → Bool
bytes_beq [] [] = true
bytes_beq [] (y ∷ ys) = false
bytes_beq (x ∷ xs) [] = false
bytes_beq (x ∷ xs) (y ∷ ys) = nat_beq x y && bytes_beq xs ys

pub bytes_beq_iff : (s t : Bytes) → (bytes_beq s t ≡ true) ↔ (s ≡ t)
unfolding bytes_beq
bytes_beq_iff [] [] = ground arith
bytes_beq_iff [] (y ∷ ys) = ground arith
bytes_beq_iff (x ∷ xs) [] = ground arith
bytes_beq_iff (x ∷ xs) (y ∷ ys) = ground (arith, bytes_beq_iff xs ys)

instance abbrev pub bytes_eq : Comparable Bytes
bytes_eq = record { same = bytes_beq; same_iff = bytes_beq_iff }

-- Go's `s < t` on strings.
unfoldable pub bytes_ltb : Bytes → Bytes → Bool
bytes_ltb [] [] = false
bytes_ltb [] (y ∷ ys) = true
bytes_ltb (x ∷ xs) [] = false
bytes_ltb (x ∷ xs) (y ∷ ys) =
    let rest = bytes_ltb xs ys in if ltb x y then true else if nat_beq x y then rest else false

pub bytes_ltb_irrefl : (s : Bytes) → bytes_ltb s s ≡ false
unfolding bytes_ltb
bytes_ltb_irrefl [] = refl
bytes_ltb_irrefl (x ∷ xs) = ground (arith, bytes_ltb_irrefl xs)

pub bytes_ltb_trans :
    (s t u : Bytes) → bytes_ltb s t ≡ true → bytes_ltb t u ≡ true → bytes_ltb s u ≡ true
unfolding bytes_ltb
bytes_ltb_trans [] [] u h k = ground arith
bytes_ltb_trans [] (y ∷ ys) [] h k = ground arith
bytes_ltb_trans [] (y ∷ ys) (z ∷ zs) h k = ground arith
bytes_ltb_trans (x ∷ xs) [] u h k = ground arith
bytes_ltb_trans (x ∷ xs) (y ∷ ys) [] h k = ground arith
bytes_ltb_trans (x ∷ xs) (y ∷ ys) (z ∷ zs) h k = ground (arith, bytes_ltb_trans xs ys zs)

-- Two strings of which neither is smaller are equal.
pub bytes_ltb_connex : (s t : Bytes) → bytes_ltb s t ≡ false → bytes_ltb t s ≡ false → s ≡ t
unfolding bytes_ltb
bytes_ltb_connex [] [] h k = refl
bytes_ltb_connex [] (y ∷ ys) h k = ground arith
bytes_ltb_connex (x ∷ xs) [] h k = ground arith
bytes_ltb_connex (x ∷ xs) (y ∷ ys) h k = ground (arith, bytes_ltb_connex xs ys)
