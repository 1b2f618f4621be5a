-- ===== src/Auth/Key.antt =====
-- internal/auth/key.go: API keys. SHA-256 is an argument, and so are the bytes that crypto/rand draws.
use server_flow.Prelude.{
  ℕ, ◌+◌, ◌/◌, ◌%◌, Bool, true, ◌&&◌, ◌||◌, not, Option, none, some, [], ◌∷◌, ◌++◌, ltb, nat_beq,
  if◌then◌else◌, get_or, length, take, drop,
}
use server_flow.Prelude.Bytes.{Bytes, ascii, bytes_eq, bytes_beq}
use server_flow.Auth.Base64.{encode, decode}

abbrev pub key_scheme : Bytes
key_scheme = ascii "sf_"

abbrev pub prefix_hex_len : ℕ
prefix_hex_len = 8

abbrev pub secret_bytes : ℕ
secret_bytes = 32

-- The length of every key: the scheme, the prefix, a separator and 43 letters.
abbrev pub key_len : ℕ
key_len = 55

abbrev pub separator : ℕ
separator = 95

abbrev pub hash_len : ℕ
hash_len = 32

-- hex.EncodeToString
abbrev pub hex_letter : ℕ → ℕ
hex_letter v = if ltb v 10 then v + 48 else v + 87

unfoldable pub hex : Bytes → Bytes
hex [] = []
hex (c ∷ s) = hex_letter (c / 16) ∷ hex_letter (c % 16) ∷ hex s

abbrev pub is_hex : ℕ → Bool
is_hex c = not ((ltb c 48 || ltb 57 c) && (ltb c 97 || ltb 102 c))

abbrev pub all_hex : Bytes → Bool
all_hex [] = true
all_hex (c ∷ s) = is_hex c && all_hex s

unfoldable pub valid_prefix : Bytes → Bool
valid_prefix s = nat_beq (length s) prefix_hex_len && all_hex s

-- What GenerateKey returns.
pub record NewKey : Type 0 where
  pub plaintext : Bytes
  pub prefix : Bytes
  pub hash : Bytes

-- What ParseKey returns, or ErrMalformedKey.
pub data ParsedKey : Type 0 where
  malformed : ParsedKey
  parsed : (prefix hash : Bytes) → ParsedKey

-- The text of a key.
abbrev pub key_text : Bytes → Bytes → Bytes
key_text prefix secret = key_scheme ++ prefix ++ (separator ∷ encode secret)

module _ (sha256 : Bytes → Bytes) where
  unfoldable pub generate_key : Bytes → Bytes → NewKey
  generate_key p s = record { plaintext = key_text (hex p) s; prefix = hex p; hash = sha256 s }

  -- The secret that the letters decode to.
  abbrev pub parse_secret : Bytes → Option Bytes → ParsedKey
  parse_secret prefix none = malformed
  parse_secret prefix (some raw) =
      if not (nat_beq (length raw) secret_bytes) then malformed else parsed prefix (sha256 raw)

  unfoldable pub parse_key : Bytes → ParsedKey
  parse_key key =
      let prefix = take 8 (drop 3 key) in
      if not (nat_beq (length key) key_len)
        || not (bytes_beq (take 3 key) key_scheme)
        || not (nat_beq (get_or key 11 0) separator)
      then malformed
      else if not (valid_prefix prefix)
      then malformed
      else parse_secret prefix (decode (drop 12 key))

unfoldable pub hashes_equal : Bytes → Bytes → Bool
hashes_equal a b = nat_beq (length a) hash_len && nat_beq (length b) hash_len && bytes_beq a b
