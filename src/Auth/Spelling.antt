-- ===== src/Auth/Spelling.antt =====
-- That a key which is generated is parsed, and that every key has one spelling (internal/auth/key.go).
use server_flow.Prelude.{
  ℕ, suc, ◌/◌, ◌%◌, ◌<◌, ◌≡◌, refl, sym, ap, subst, ◌∙◌, Bool, true, false, ◌||◌, not, Option, none,
  some, [], ◌∷◌, ◌++◌, arith, nat_beq, if◌then◌else◌, if_either, keep, keep_whole, get_or, length,
  length-drop, take-append-drop, drop-drop, drop_step, take, drop,
}
use server_flow.Prelude.Bytes.{Bytes, bytes_eq, bytes_beq, bytes_beq_iff}
use server_flow.Auth.Base64.{
  Small, is_letter, encode, decode, decode-encode, Spells, decode-Spells, length-encode,
}
use server_flow.Auth.Key.{
  key_scheme, secret_bytes, key_len, separator, hex_letter, hex, is_hex, valid_prefix, ParsedKey,
  malformed, parsed, key_text, generate_key, parse_secret, parse_key,
}

hex_letter-Hex : (v : ℕ) → v < 16 → is_hex (hex_letter v) ≡ true
hex_letter-Hex v h = ground arith

hex-valid :
    (a b c d : ℕ) → Small 256 (a ∷ b ∷ c ∷ d ∷ []) → valid_prefix (hex (a ∷ b ∷ c ∷ d ∷ [])) ≡ true
unfolding valid_prefix hex
hex-valid a b c d h =
    rw
      (
        hex_letter-Hex (a / 16) (omega (arith, h.0)),
        hex_letter-Hex (a % 16) (omega arith),
        hex_letter-Hex (b / 16) (omega (arith, h.1.0)),
        hex_letter-Hex (b % 16) (omega arith),
        hex_letter-Hex (c / 16) (omega (arith, h.1.1.0)),
        hex_letter-Hex (c % 16) (omega arith),
        hex_letter-Hex (d / 16) (omega (arith, h.1.1.1.0)),
        hex_letter-Hex (d % 16) (omega arith),
      )
      refl

if_no {ℓ} : {A : Type ℓ} {y z : A} (x : A) (t : Bool) → t ≡ false → y ≡ z → (if t then x else y) ≡ z
if_no x true e k = absurd (ground arith)
if_no x false e k = k

-- Twelve bytes before the letters of a secret.
whole :
    (s : Bytes)
    → length s ≡ 32
    → nat_beq
        (suc (suc (suc (suc (suc (suc (suc (suc (suc (suc (suc (suc (length (encode s))))))))))))))
        key_len
      ≡ true
whole s e = ground (arith, length-encode s, e)

secret_whole : (s : Bytes) → length s ≡ 32 → nat_beq (length s) secret_bytes ≡ true
secret_whole s e = ground (arith, e)

module _ (sha256 : Bytes → Bytes) where
  parse_four :
      (a b c d : ℕ) (s : Bytes)
      → Small 256 (a ∷ b ∷ c ∷ d ∷ [])
      → Small 256 s
      → length s ≡ 32
      → parse_key sha256 (key_text (hex (a ∷ b ∷ c ∷ d ∷ [])) s)
        ≡ parsed (hex (a ∷ b ∷ c ∷ d ∷ [])) (sha256 s)
  unfolding parse_key hex
  parse_four a b c d s h k e =
      let prefix = hex (a ∷ b ∷ c ∷ d ∷ []) in
      if_no malformed _ (rw (whole s e) (unfold bytes_beq in refl)) (
        if_no malformed _ (ap not (hex-valid a b c d h)) (
          ap (parse_secret sha256 prefix) (decode-encode s k)
          ∙ if_no malformed _ (ap not (secret_whole s e)) refl))

  -- Every key that GenerateKey makes, of four and of 32 random bytes, is parsed, to the prefix and the hash that it returned
  -- with the key.
  pub parse_key-generate_key :
      (p s : Bytes)
      → length p ≡ 4
      → length s ≡ 32
      → Small 256 p
      → Small 256 s
      → let new = generate_key sha256 p s in
        parse_key sha256 new.plaintext ≡ parsed new.prefix new.hash
  unfolding generate_key
  parse_key-generate_key (a ∷ b ∷ c ∷ d ∷ []) s e f h k = parse_four a b c d s h k f
  parse_key-generate_key [] s e f h k = absurd (omega (arith, e))
  parse_key-generate_key (a ∷ []) s e f h k = absurd (omega (arith, e))
  parse_key-generate_key (a ∷ b ∷ []) s e f h k = absurd (omega (arith, e))
  parse_key-generate_key (a ∷ b ∷ c ∷ []) s e f h k = absurd (omega (arith, e))
  parse_key-generate_key (a ∷ b ∷ c ∷ d ∷ x ∷ p) s e f h k = absurd (omega (arith, e))

  -- The secret of a key, and that the key is what the format makes of it.
  abbrev pub HasSecret : Bytes → Bytes → Bytes → Type 0
  HasSecret key prefix hash =
      (s : Bytes) × length s ≡ 32 × Small 256 s × hash ≡ sha256 s × key ≡ key_text prefix s

  abbrev Parsed : Bytes → ParsedKey → Type 0
  Parsed key malformed = Unit
  Parsed key (parsed prefix hash) = valid_prefix prefix ≡ true × HasSecret key prefix hash

  -- The letters are spelled as the secret is encoded, since no line end fits between them.
  no_line_ends :
      (enc raw : Bytes)
      → length enc ≡ 43
      → length raw ≡ 32
      → encode raw ≡ keep is_letter enc
      → encode raw ≡ enc
  no_line_ends enc raw e f g =
      g ∙ keep_whole is_letter enc (omega (arith, ap length g, length-encode raw, e, f))

  key_parts :
      (key : Bytes)
      → length key ≡ 55
      → take 3 key ≡ key_scheme
      → get_or key 11 0 ≡ separator
      → key ≡ key_scheme ++ take 8 (drop 3 key) ++ (separator ∷ drop 12 key)
  key_parts key e f g =
      sym (take-append-drop 3 key)
      ∙ ap (λ t. t ++ drop 3 key) f
      ∙ ap (λ t. key_scheme ++ t) (sym (take-append-drop 8 (drop 3 key)))
      ∙ ap (λ t. key_scheme ++ take 8 (drop 3 key) ++ t)
          (drop-drop 8 3 key ∙ drop_step 11 key 0 (omega (arith, e)) ∙ ap (λ c. c ∷ drop 12 key) g)

  parse_secret-Parsed :
      (key : Bytes) (o : Option Bytes)
      → length key ≡ 55
      → take 3 key ≡ key_scheme
      → get_or key 11 0 ≡ separator
      → valid_prefix (take 8 (drop 3 key)) ≡ true
      → Spells (drop 12 key) o
      → Parsed key (parse_secret sha256 (take 8 (drop 3 key)) o)
  parse_secret-Parsed key none e f g v h = tt
  parse_secret-Parsed key (some raw) e f g v h =
      if_either (Parsed key) (not (nat_beq (length raw) secret_bytes)) (λ t. tt)
        (λ t.
          let whole_secret : length raw ≡ 32 = ground arith in
          (
            v,
            (
              raw,
              whole_secret,
              h.1,
              refl,
              key_parts key e f g
                  ∙ ap (λ t. key_scheme ++ take 8 (drop 3 key) ++ (separator ∷ t))
                      (sym (
                        no_line_ends (drop 12 key) raw (omega (arith, length-drop 12 key, e))
                          whole_secret h.0)),
            ),
          ))

  parse_key-Parsed : (key : Bytes) → Parsed key (parse_key sha256 key)
  unfolding parse_key
  parse_key-Parsed key =
      if_either (Parsed key)
        (not (nat_beq (length key) key_len)
          || not (bytes_beq (take 3 key) key_scheme)
          || not (nat_beq (get_or key 11 0) separator))
        (λ t. tt)
        (λ t.
          if_either (Parsed key) (not (valid_prefix (take 8 (drop 3 key)))) (λ u. tt)
            (λ u.
              parse_secret-Parsed key (decode (drop 12 key)) (ground arith)
                (ground (arith, bytes_beq_iff (take 3 key) key_scheme)) (ground arith)
                (ground arith) (decode-Spells (drop 12 key))))

  -- ParseKey accepts one spelling of each key: an accepted key is the text of a secret of 32 bytes, whose hash is returned,
  -- under the prefix that is returned, which is well formed.
  pub parse_key-HasSecret :
      (key prefix hash : Bytes)
      → parse_key sha256 key ≡ parsed prefix hash
      → valid_prefix prefix ≡ true × HasSecret key prefix hash
  parse_key-HasSecret key prefix hash e = subst (Parsed key) e (parse_key-Parsed key)
