-- ===== src/Auth/Tests.antt =====
-- internal/auth/key.go on a concrete key, and its theorems at it. The hash of these tests is the text itself.
use server_flow.Prelude.{◌≡◌, refl, Bool, true, [], ◌∷◌, ◌++◌, replicate, arith, ltb, ◌&&◌}
use server_flow.Prelude.Bytes.{Bytes, ascii, bytes_eq, bytes_beq}
use server_flow.Auth.Base64.{Small, letter, sextet, to_sextets, of_sextets, sextets, encode, decode}
use server_flow.Auth.Key.{
  hex, valid_prefix, malformed, parsed, generate_key, parse_key, hashes_equal, key_text,
}
use server_flow.Auth.Spelling.{HasSecret, parse_key-generate_key, parse_key-HasSecret}

program : Unit {0}
unfolding bytes_beq letter sextet to_sextets of_sextets sextets encode decode hex valid_prefix
    generate_key parse_key hashes_equal
program = tt

abbrev same_text : Bytes → Bytes
same_text s = s

abbrev secret : Bytes
secret = replicate 31 255 ++ (7 ∷ [])

-- What GenerateKey makes of four bytes and the secret.
abbrev key : Bytes
key = key_text (ascii "0aff1002") secret

abbrev are_small : Bytes → Bool
are_small [] = true
are_small (c ∷ s) = ltb c 256 && are_small s

are_small-Small : (s : Bytes) → are_small s ≡ true → Small 256 s
are_small-Small [] e = tt
are_small-Small (c ∷ s) e = (ground arith, are_small-Small s (ground arith))

short : parse_key same_text (ascii "sf_0aff1002") ≡ malformed
unfolding program
short = refl

equal_hashes : hashes_equal secret secret ≡ true
unfolding program
equal_hashes = refl

parse_key-generate_key_example :
    parse_key same_text ((generate_key same_text (10 ∷ 255 ∷ 16 ∷ 2 ∷ []) secret).plaintext)
    ≡ parsed (ascii "0aff1002") secret
unfolding program
parse_key-generate_key_example =
    parse_key-generate_key same_text (10 ∷ 255 ∷ 16 ∷ 2 ∷ []) secret refl refl
      (are_small-Small (10 ∷ 255 ∷ 16 ∷ 2 ∷ []) refl) (are_small-Small secret refl)

parse_key-HasSecret_example :
    valid_prefix (ascii "0aff1002") ≡ true × HasSecret same_text key (ascii "0aff1002") secret
unfolding program
parse_key-HasSecret_example = parse_key-HasSecret same_text key (ascii "0aff1002") secret refl
