-- ===== src/Auth/Base64.antt =====
-- base64.RawURLEncoding and its strict decoder, as internal/auth/key.go uses them.
use server_flow.Prelude.{
  ℕ, ◌+◌, ◌-◌, ◌*◌, ◌/◌, ◌%◌, ◌<◌, ◌≡◌, refl, ap, ◌∙◌, Bool, true, ◌&&◌, not, Option, none, some,
  List, [], ◌∷◌, map, arith, ltb, leb, nat_beq, if◌then◌else◌, if_either, keep, length, length-map,
  All,
}
use server_flow.Prelude.Bytes.{Bytes}

-- The letter of a sextet.
unfoldable pub letter : ℕ → ℕ
letter v =
    if ltb v 26
    then v + 65
    else if ltb v 52
    then v + 71
    else if ltb v 62
    then v - 4
    else if nat_beq v 62
    then 45
    else 95

unfoldable pub sextet : ℕ → Option ℕ
sextet c =
    if leb 65 c && leb c 90
    then some (c - 65)
    else if leb 97 c && leb c 122
    then some (c - 71)
    else if leb 48 c && leb c 57
    then some (c + 4)
    else if nat_beq c 45
    then some 62
    else if nat_beq c 95
    then some 63
    else none

abbrev pub Small : ℕ → List ℕ → Type 0
Small n xs = All (λ x. x < n) xs

unfoldable pub to_sextets : Bytes → List ℕ
to_sextets [] = []
to_sextets (a ∷ []) = (a / 4) ∷ (a % 4 * 16) ∷ []
to_sextets (a ∷ b ∷ []) = (a / 4) ∷ (a % 4 * 16 + b / 16) ∷ (b % 16 * 4) ∷ []
to_sextets (a ∷ b ∷ c ∷ rest) =
    (a / 4) ∷ (a % 4 * 16 + b / 16) ∷ (b % 16 * 4 + c / 64) ∷ (c % 64) ∷ to_sextets rest

abbrev pub push3 : ℕ → ℕ → ℕ → Option Bytes → Option Bytes
push3 x y z none = none
push3 x y z (some rest) = some (x ∷ y ∷ z ∷ rest)

-- Strict: the bits of the last letter that no byte takes are 0.
unfoldable pub of_sextets : List ℕ → Option Bytes
of_sextets [] = some []
of_sextets (a ∷ []) = none
of_sextets (a ∷ b ∷ []) = if nat_beq (b % 16) 0 then some ((a * 4 + b / 16) ∷ []) else none
of_sextets (a ∷ b ∷ c ∷ []) =
    if nat_beq (c % 4) 0 then some ((a * 4 + b / 16) ∷ (b % 16 * 16 + c / 4) ∷ []) else none
of_sextets (a ∷ b ∷ c ∷ d ∷ rest) =
    push3 (a * 4 + b / 16) (b % 16 * 16 + c / 4) (c % 4 * 64 + d) (of_sextets rest)

abbrev pub push : Option ℕ → Option (List ℕ) → Option (List ℕ)
push none rest = none
push (some v) none = none
push (some v) (some vs) = some (v ∷ vs)

unfoldable pub sextets : Bytes → Option (List ℕ)
sextets [] = some []
sextets (c ∷ s) = push (sextet c) (sextets s)

-- The decoder skips line ends.
abbrev pub is_letter : ℕ → Bool
is_letter c = not (nat_beq c 10) && not (nat_beq c 13)

abbrev pub of_all : Option (List ℕ) → Option Bytes
of_all none = none
of_all (some vs) = of_sextets vs

unfoldable pub encode : Bytes → Bytes
encode s = map letter (to_sextets s)

unfoldable pub decode : Bytes → Option Bytes
decode s = of_all (sextets (keep is_letter s))

sextet-letter : (v : ℕ) → v < 64 → sextet (letter v) ≡ some v
unfolding sextet letter
sextet-letter v h = ground arith

letter-Letter : (v : ℕ) → v < 64 → is_letter (letter v) ≡ true
unfolding letter
letter-Letter v h = ground arith

to_sextets-Small : (s : Bytes) → Small 256 s → Small 64 (to_sextets s)
unfolding to_sextets
to_sextets-Small [] h = tt
to_sextets-Small (a ∷ []) h = (omega (arith, h.0), (omega arith, tt))
to_sextets-Small (a ∷ b ∷ []) h = (omega (arith, h.0), (omega (arith, h.1.0), (omega arith, tt)))
to_sextets-Small (a ∷ b ∷ c ∷ rest) h = (
  omega (arith, h.0),
  (omega (arith, h.1.0), (omega (arith, h.1.1.0), (omega arith, to_sextets-Small rest h.1.1.1))),
)

-- Three bytes from their four sextets.
first_byte : (a b : ℕ) → b < 256 → a / 4 * 4 + (a % 4 * 16 + b / 16) / 16 ≡ a
first_byte a b h = omega arith

second_byte :
    (a b c : ℕ) → c < 256 → (a % 4 * 16 + b / 16) % 16 * 16 + (b % 16 * 4 + c / 64) / 4 ≡ b % 256
second_byte a b c h = omega arith

third_byte : (b c : ℕ) → (b % 16 * 4 + c / 64) % 4 * 64 + c % 64 ≡ c % 256
third_byte b c = omega arith

push3_eq :
    {a b c x y z : ℕ} {rest : Bytes} {o : Option Bytes}
    → x ≡ a
    → y ≡ b
    → z ≡ c
    → o ≡ some rest
    → push3 x y z o ≡ some (a ∷ b ∷ c ∷ rest)
push3_eq p q r e = ground (arith, p, q, r, e)

of_sextets-to_sextets : (s : Bytes) → Small 256 s → of_sextets (to_sextets s) ≡ some s
unfolding to_sextets of_sextets
of_sextets-to_sextets [] h = refl
of_sextets-to_sextets (a ∷ []) h = ground arith
of_sextets-to_sextets (a ∷ b ∷ []) h = ground (arith, h.0, h.1.0)
of_sextets-to_sextets (a ∷ b ∷ c ∷ rest) h =
    push3_eq (first_byte a b h.1.0) (second_byte a b c h.1.1.0 ∙ omega (arith, h.1.0))
      (third_byte b c ∙ omega (arith, h.1.1.0)) (of_sextets-to_sextets rest h.1.1.1)

sextets-letters : (vs : List ℕ) → Small 64 vs → sextets (map letter vs) ≡ some vs
unfolding sextets
sextets-letters [] h = refl
sextets-letters (v ∷ vs) h = rw (sextet-letter v h.0, sextets-letters vs h.1) refl

keep-letters : (vs : List ℕ) → Small 64 vs → keep is_letter (map letter vs) ≡ map letter vs
keep-letters [] h = refl
keep-letters (v ∷ vs) h = rw (letter-Letter v h.0, keep-letters vs h.1) refl

-- What is encoded is decoded again.
pub decode-encode : (s : Bytes) → Small 256 s → decode (encode s) ≡ some s
unfolding decode encode
decode-encode s h =
    let small = to_sextets-Small s h in
    ap (λ t. of_all (sextets t)) (keep-letters (to_sextets s) small)
    ∙ ap of_all (sextets-letters (to_sextets s) small)
    ∙ of_sextets-to_sextets s h

abbrev LetterOf : ℕ → Option ℕ → Type 0
LetterOf c none = Unit
LetterOf c (some v) = letter v ≡ c × v < 64

sextet-LetterOf : (c : ℕ) → LetterOf c (sextet c)
unfolding sextet letter
sextet-LetterOf c =
    if_either (LetterOf c) (leb 65 c && leb c 90) (λ t. (ground arith, ground arith))
      (λ f1.
        if_either (LetterOf c) (leb 97 c && leb c 122) (λ t. (ground arith, ground arith))
          (λ f2.
            if_either (LetterOf c) (leb 48 c && leb c 57) (λ t. (ground arith, ground arith))
              (λ f3.
                if_either (LetterOf c) (nat_beq c 45) (λ t. (ground arith, ground arith))
                  (λ f4.
                    if_either (LetterOf c) (nat_beq c 95) (λ t. (ground arith, ground arith))
                      (λ f5. tt)))))

abbrev LettersOf : Bytes → Option (List ℕ) → Type 0
LettersOf s none = Unit
LettersOf s (some vs) = map letter vs ≡ s × Small 64 vs

push-LettersOf :
    (c : ℕ) (s : Bytes) (o : Option ℕ) (p : Option (List ℕ))
    → LetterOf c o
    → LettersOf s p
    → LettersOf (c ∷ s) (push o p)
push-LettersOf c s none p h k = tt
push-LettersOf c s (some v) none h k = tt
push-LettersOf c s (some v) (some vs) h k = (rw (h.0, k.0) refl, (h.1, k.1))

sextets-LettersOf : (s : Bytes) → LettersOf s (sextets s)
unfolding sextets
sextets-LettersOf [] = (refl, tt)
sextets-LettersOf (c ∷ s) =
    push-LettersOf c s (sextet c) (sextets s) (sextet-LetterOf c) (sextets-LettersOf s)

abbrev BytesOf : List ℕ → Option Bytes → Type 0
BytesOf vs none = Unit
BytesOf vs (some s) = to_sextets s ≡ vs × Small 256 s

push4_eq :
    {a b c d x y z w : ℕ} {rest more : List ℕ}
    → x ≡ a
    → y ≡ b
    → z ≡ c
    → w ≡ d
    → more ≡ rest
    → ◌≡◌ {A = List ℕ} (x ∷ y ∷ z ∷ w ∷ more) (a ∷ b ∷ c ∷ d ∷ rest)
push4_eq p q r s e = ground (arith, p, q, r, s, e)

push3-BytesOf :
    (a b c d : ℕ) (rest : List ℕ) (o : Option Bytes)
    → Small 64 (a ∷ b ∷ c ∷ d ∷ [])
    → BytesOf rest o
    → BytesOf
        (a ∷ b ∷ c ∷ d ∷ rest)
        (push3 (a * 4 + b / 16) (b % 16 * 16 + c / 4) (c % 4 * 64 + d) o)
unfolding to_sextets
push3-BytesOf a b c d rest none h k = tt
push3-BytesOf a b c d rest (some s) h k = (
  push4_eq (omega arith) (omega arith) (omega arith) (omega arith) k.0,
  (omega (arith, h.0), (omega (arith, h.1.1.0), (omega (arith, h.1.1.1.0), k.1))),
)

two_eq : {a b x y : ℕ} → x ≡ a → y ≡ b → ◌≡◌ {A = List ℕ} (x ∷ y ∷ []) (a ∷ b ∷ [])
two_eq p q = ground (arith, p, q)

three_eq :
    {a b c x y z : ℕ} → x ≡ a → y ≡ b → z ≡ c → ◌≡◌ {A = List ℕ} (x ∷ y ∷ z ∷ []) (a ∷ b ∷ c ∷ [])
three_eq p q r = ground (arith, p, q, r)

of_sextets-BytesOf : (vs : List ℕ) → Small 64 vs → BytesOf vs (of_sextets vs)
unfolding of_sextets
of_sextets-BytesOf [] h = (unfold to_sextets in refl, tt)
of_sextets-BytesOf (a ∷ []) h = tt
of_sextets-BytesOf (a ∷ b ∷ []) h =
    if_either (BytesOf (a ∷ b ∷ [])) (nat_beq (b % 16) 0)
      (λ t.
        unfold to_sextets in
        (two_eq (omega (arith, h.1.0)) (ground arith), (omega (arith, h.0), tt)))
      (λ f. tt)
of_sextets-BytesOf (a ∷ b ∷ c ∷ []) h =
    if_either (BytesOf (a ∷ b ∷ c ∷ [])) (nat_beq (c % 4) 0)
      (λ t.
        unfold to_sextets in
        (
          three_eq (omega (arith, h.1.0)) (omega (arith, h.1.0, h.1.1.0)) (ground (arith, h.1.1.0)),
          (omega (arith, h.0), (omega (arith, h.1.1.0), tt)),
        ))
      (λ f. tt)
of_sextets-BytesOf (a ∷ b ∷ c ∷ d ∷ rest) h =
    push3-BytesOf a b c d rest (of_sextets rest) (h.0, (h.1.0, (h.1.1.0, (h.1.1.1.0, tt))))
      (of_sextets-BytesOf rest h.1.1.1.1)

-- What was decoded is spelled in one way only, but for line ends.
abbrev pub Spells : Bytes → Option Bytes → Type 0
Spells s none = Unit
Spells s (some raw) = encode raw ≡ keep is_letter s × Small 256 raw

of_all-Spells :
    (s : Bytes) (o : Option (List ℕ)) → LettersOf (keep is_letter s) o → Spells s (of_all o)
unfolding encode
of_all-Spells s none h = tt
of_all-Spells s (some vs) h = through (of_sextets vs) (of_sextets-BytesOf vs h.1)
  where
    through : (o : Option Bytes) → BytesOf vs o → Spells s o
    through none k = tt
    through (some raw) k = (ap (map letter) k.0 ∙ h.0, k.1)

pub decode-Spells : (s : Bytes) → Spells s (decode s)
unfolding decode
decode-Spells s =
    of_all-Spells s (sextets (keep is_letter s)) (sextets-LettersOf (keep is_letter s))

length-to_sextets : (s : Bytes) → length (to_sextets s) ≡ (4 * length s + 2) / 3
unfolding to_sextets
length-to_sextets [] = refl
length-to_sextets (a ∷ []) = refl
length-to_sextets (a ∷ b ∷ []) = refl
length-to_sextets (a ∷ b ∷ c ∷ rest) = omega (arith, length-to_sextets rest)

pub length-encode : (s : Bytes) → length (encode s) ≡ (4 * length s + 2) / 3
unfolding encode
length-encode s = length-map letter (to_sextets s) ∙ length-to_sextets s
