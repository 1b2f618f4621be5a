-- ===== src/RateLimit/Keys.antt =====
-- internal/ratelimit/keys.go: the Redis keys of a tenant and of a model. Names are byte strings.
use server_flow.Prelude.{
  ℕ, ◌+◌, ◌-◌, ◌/◌, ◌%◌, ◌<◌, ◌≡◌, refl, Bool, false, ◌||◌, [], ◌∷◌, ◌++◌, arith, ltb, nat_beq,
  if◌then◌else◌, All,
}
use server_flow.Prelude.Bytes.{Bytes, ascii}

-- A digit of `%02X`.
hex_digit : ℕ → ℕ
hex_digit d = if ltb d 10 then b'0' + d else b'A' + (d - 10)

needs_escape : ℕ → Bool
needs_escape c = ltb c 0x21 || ltb 0x7e c || nat_beq c b'{' || nat_beq c b'}' || nat_beq c b'%'

pub escape_key_part : Bytes → Bytes
unfolding hex_digit needs_escape
escape_key_part [] = []
escape_key_part (c ∷ s) =
    let rest = escape_key_part s in
    if needs_escape c then b'%' ∷ hex_digit (c / 16) ∷ hex_digit (c % 16) ∷ rest else c ∷ rest

unfoldable pub key_requests : Bytes → Bytes
unfolding escape_key_part
key_requests tenant = ascii "rl:{" ++ (escape_key_part tenant ++ ascii "}:req")

unfoldable pub key_tokens : Bytes → Bytes
unfolding escape_key_part
key_tokens tenant = ascii "rl:{" ++ (escape_key_part tenant ++ ascii "}:tok")

unfoldable pub key_concurrency : Bytes → Bytes
unfolding escape_key_part
key_concurrency tenant = ascii "rl:{" ++ (escape_key_part tenant ++ ascii "}:conc")

unfoldable pub key_model : Bytes → Bytes
unfolding escape_key_part
key_model name = ascii "rl:model:{" ++ (escape_key_part name ++ ascii "}")

-- A Go string holds bytes.
abbrev pub IsBytes : Bytes → Type 0
IsBytes s = All (λ c. c < 256) s

tail_eq : {a b : ℕ} {s t : Bytes} → (a ∷ s) ≡ (b ∷ t) → s ≡ t
tail_eq h = cc

hex_digit_inj : (a b : ℕ) → a < 16 → b < 16 → hex_digit a ≡ hex_digit b → a ≡ b
unfolding hex_digit
hex_digit_inj a b ha hb h = ground arith

-- What one byte is written as, before the rest.
escape_byte : ℕ → Bytes → Bytes
escape_byte c rest =
    if needs_escape c then b'%' ∷ hex_digit (c / 16) ∷ hex_digit (c % 16) ∷ rest else c ∷ rest

escape_byte_inj :
    (a b : ℕ) (s t : Bytes)
    → a < 256
    → b < 256
    → escape_byte a s ≡ escape_byte b t
    → (a ≡ b) × (s ≡ t)
unfolding escape_byte needs_escape
escape_byte_inj a b s t ha hb h =
    ground (arith, hex_digit_inj (a / 16) (b / 16), hex_digit_inj (a % 16) (b % 16))

pub escape_key_part_inj :
    (s t : Bytes) → IsBytes s → IsBytes t → escape_key_part s ≡ escape_key_part t → s ≡ t
unfolding escape_key_part escape_byte
escape_key_part_inj [] [] hs ht e = refl
escape_key_part_inj [] (b ∷ t) hs ht e = ground arith
escape_key_part_inj (a ∷ s) [] hs ht e = ground arith
escape_key_part_inj (a ∷ s) (b ∷ t) hs ht e =
    let (p, q) = escape_byte_inj a b (escape_key_part s) (escape_key_part t) hs.0 ht.0 e in
    let r = escape_key_part_inj s t hs.1 ht.1 q in cc

abbrev NoBrace : Bytes → Type 0
NoBrace s = All (λ c. nat_beq c b'}' ≡ false) s

hex_digit-no_brace : (d : ℕ) → d < 16 → nat_beq (hex_digit d) b'}' ≡ false
unfolding hex_digit
hex_digit-no_brace d h = ground arith

escape_key_part-NoBrace : (s : Bytes) → IsBytes s → NoBrace (escape_key_part s)
unfolding escape_key_part
escape_key_part-NoBrace [] h = tt
escape_key_part-NoBrace (c ∷ s) h =
    ground (
      arith,
      hex_digit-no_brace (c / 16),
      hex_digit-no_brace (c % 16),
      escape_key_part-NoBrace s h.1,
    )

-- Texts up to the first closing brace are determined.
split_at_brace :
    (a b : Bytes) (x y : Bytes)
    → NoBrace a
    → NoBrace b
    → (a ++ b'}' ∷ x) ≡ (b ++ b'}' ∷ y)
    → (a ≡ b) × (x ≡ y)
split_at_brace [] [] x y ha hb e = ground arith
split_at_brace [] (c ∷ b) x y ha hb e = ground arith
split_at_brace (c ∷ a) [] x y ha hb e = ground arith
split_at_brace (c ∷ a) (d ∷ b) x y ha hb e = ground (arith, split_at_brace a b x y)

-- The keys of two tenants, and the keys of two models, with any text behind the name.
same_frame :
    (pre x y s t : Bytes)
    → IsBytes s
    → IsBytes t
    → (pre ++ (escape_key_part s ++ b'}' ∷ x)) ≡ (pre ++ (escape_key_part t ++ b'}' ∷ y))
    → (s ≡ t) × (x ≡ y)
same_frame [] x y s t hs ht e =
    let (p, q) =
      split_at_brace (escape_key_part s) (escape_key_part t) x y (escape_key_part-NoBrace s hs)
        (escape_key_part-NoBrace t ht) e in
    (escape_key_part_inj s t hs ht p, q)
same_frame (c ∷ pre) x y s t hs ht e = same_frame pre x y s t hs ht (tail_eq e)

pub data KeyKind : Type 0 where
  requests tokens concurrency model : KeyKind

-- The key of each kind.
abbrev pub key_of : KeyKind → Bytes → Bytes
key_of requests = key_requests
key_of tokens = key_tokens
key_of concurrency = key_concurrency
key_of model = key_model

-- What stands behind a tenant's name.
abbrev suffix : KeyKind → Bytes
suffix requests = ascii ":req"
suffix tokens = ascii ":tok"
suffix concurrency = ascii ":conc"
suffix model = []

-- Two keys of byte strings agree only for the same kind of quota and the same name.
pub key_of-injective :
    (k l : KeyKind) (s t : Bytes)
    → IsBytes s
    → IsBytes t
    → key_of k s ≡ key_of l t
    → (k ≡ l) × (s ≡ t)
unfolding key_requests key_tokens key_concurrency key_model
key_of-injective model model s t hs ht e =
    (refl, (same_frame (ascii "rl:model:{") [] [] s t hs ht e).0)
key_of-injective model l s t hs ht e = ground arith
key_of-injective k model s t hs ht e = ground arith
key_of-injective k l s t hs ht e =
    ground (arith, same_frame (ascii "rl:{") (suffix k) (suffix l) s t hs ht e)
