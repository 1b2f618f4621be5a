-- ===== src/Auth/Types.antt =====
-- internal/auth/types.go: keys, tenants and the failures of authentication.
use server_flow.Prelude.{ℕ, Bool, true, false, Option, none, some, List, [], ◌∷◌, ◌||◌}
use server_flow.Prelude.Bytes.{Bytes, ascii, bytes_beq}

abbrev pub tenant_active : Bytes
tenant_active = ascii "active"

abbrev pub key_active : Bytes
key_active = ascii "active"

pub data AuthError : Type 0 where
  invalid expired revoked suspended unavailable bad_record busy not_found : AuthError

pub record TenantPolicy : Type 0 where
  pub status : Bytes
  pub allowed_models : Option (List Bytes)
  pub requests_per_minute : ℕ
  pub tokens_per_minute : ℕ
  pub max_concurrent : ℕ
  pub priority : ℕ

abbrev pub is_listed : Bytes → List Bytes → Bool
is_listed model [] = false
is_listed model (m ∷ ms) = bytes_beq m model || is_listed model ms

abbrev pub allows : Option (List Bytes) → Bytes → Bool
allows none model = true
allows (some models) model = is_listed model models

unfoldable pub allows_model : TenantPolicy → Bytes → Bool
allows_model p model = allows p.allowed_models model

pub record Principal : Type 0 where
  pub tenant_id : Bytes
  pub key_id : Bytes
  pub policy : TenantPolicy

pub record KeyRecord : Type 0 where
  pub key_id : Bytes
  pub tenant_id : Bytes
  pub prefix : Bytes
  pub secret_hash : Bytes
  pub key_status : Bytes
  pub expires_at : Option ℕ
  pub policy : TenantPolicy

-- What a KeyStore answers.
pub data Found : Type 0 where
  found : (rec : KeyRecord) → Found
  failed : (why : AuthError) → Found
