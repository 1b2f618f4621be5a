-- ===== src/Auth/Judged.antt =====
-- What Authenticate of internal/auth/authenticator.go answers about a record, and why.
use server_flow.Prelude.{
  ℕ, ◌≡◌, ◌≢◌, ◌≤◌, ◌<◌, ◌↔◌, inl, inr, refl, ap, true, false, not, arith, if_either, Option, none,
  some, length, Bool-cases,
}
use server_flow.Prelude.Bytes.{Bytes, bytes_eq, bytes_beq, bytes_beq_iff}
use server_flow.Auth.Key.{hashes_equal}
use server_flow.Auth.Types.{
  invalid, expired, revoked, suspended, not_found, KeyRecord, found, failed, key_active,
  tenant_active,
}
use server_flow.Auth.Authenticate.{Answer, admitted, rejected, judge, is_expired}

-- The hash is the record's, of 32 bytes.
abbrev pub Matching : Bytes → KeyRecord → Type 0
Matching hash rec = (hash ≡ rec.secret_hash) × (length hash ≡ 32)

-- A key ends at the time that it may have.
abbrev pub Current : Option ℕ → ℕ → Type 0
Current none now = Unit
Current (some end) now = now < end

abbrev pub Ended : Option ℕ → ℕ → Type 0
Ended none now = ⊥
Ended (some end) now = end ≤ now

-- The record is of an active key of an active tenant, and the hash is its secret's.
abbrev pub Valid : Bytes → ℕ → KeyRecord → Type 0
Valid hash now rec =
    Matching hash rec
    × (rec.key_status ≡ key_active)
    × Current rec.expires_at now
    × (rec.policy.status ≡ tenant_active)

-- The reason for an answer about a record.
abbrev pub Explained : Bytes → ℕ → KeyRecord → Answer → Type 0
Explained hash now rec (admitted p) =
    Valid hash now rec
    × (p ≡ record { tenant_id = rec.tenant_id; key_id = rec.key_id; policy = rec.policy })
Explained hash now rec (rejected invalid) = ¬ Matching hash rec
Explained hash now rec (rejected revoked) = Matching hash rec × (rec.key_status ≢ key_active)
Explained hash now rec (rejected expired) =
    Matching hash rec × (rec.key_status ≡ key_active) × Ended rec.expires_at now
Explained hash now rec (rejected suspended) =
    Matching hash rec
    × (rec.key_status ≡ key_active)
    × Current rec.expires_at now
    × (rec.policy.status ≢ tenant_active)
Explained hash now rec (rejected _) = ⊥

hashes_equal-Matching :
    (hash : Bytes) (rec : KeyRecord)
    → (hashes_equal hash rec.secret_hash ≡ true) ↔ Matching hash rec
unfolding hashes_equal
hashes_equal-Matching hash rec =
    let same = bytes_beq_iff hash rec.secret_hash in
    (
      λ e. (same.0 (ground arith), ground arith),
      λ (e, n). let l = ap length e in ground (arith, same.1 e, l, n),
    )

differ : (s t : Bytes) → bytes_beq s t ≡ false → s ≢ t
differ s t f e = let same = (bytes_beq_iff s t).1 e in ground arith

is_expired-Ended : (end : Option ℕ) (now : ℕ) → is_expired end now ≡ true → Ended end now
is_expired-Ended none now e = absurd (ground arith)
is_expired-Ended (some end) now e = ground arith

is_expired-Current : (end : Option ℕ) (now : ℕ) → is_expired end now ≡ false → Current end now
is_expired-Current none now e = tt
is_expired-Current (some end) now e = ground arith

pub judge-explanation :
    (hash : Bytes) (now : ℕ) (rec : KeyRecord) → Explained hash now rec (judge hash now (found rec))
unfolding judge
judge-explanation hash now rec =
    let matching = hashes_equal-Matching hash rec in
    if_either (Explained hash now rec) (not (hashes_equal hash rec.secret_hash))
      (λ t m. let e = matching.1 m in ground arith)
      (λ h.
        let m = matching.0 (ground arith) in
        if_either (Explained hash now rec) (not (bytes_beq rec.key_status key_active))
          (λ t. (m, differ rec.key_status key_active (ground arith)))
          (λ k.
            let active = (bytes_beq_iff rec.key_status key_active).0 (ground arith) in
            if_either (Explained hash now rec) (is_expired rec.expires_at now)
              (λ t. (m, active, is_expired-Ended rec.expires_at now t))
              (λ e.
                let current = is_expired-Current rec.expires_at now e in
                if_either (Explained hash now rec) (not (bytes_beq rec.policy.status tenant_active))
                  (λ t. (m, active, current, differ rec.policy.status tenant_active (ground arith)))
                  (λ s.
                    let open_tenant =
                      (bytes_beq_iff rec.policy.status tenant_active).0 (ground arith) in
                    ((m, active, current, open_tenant), refl)))))

judge-unknown :
    (hash : Bytes) (now : ℕ) (rec : KeyRecord)
    → ¬ Matching hash rec
    → judge hash now (found rec) ≡ judge hash now (failed not_found)
unfolding judge
judge-unknown hash now rec wrong = elim (Bool-cases (hashes_equal hash rec.secret_hash)) [
  | inl t ↦ absurd (wrong ((hashes_equal-Matching hash rec).0 t))
  | inr f ↦ rw f refl
]

-- A caller is admitted only if its hash is that of the record, of 32 bytes, and the key is active, has not reached its end, and its
-- tenant is active. It is told that its key is revoked only with the right hash, if the key is not active; that it is expired
-- only if beside this the key is active and has reached its end; that its tenant is suspended only if beside these the
-- key has not reached its end and the tenant is not active. Otherwise the key is invalid, and the hash is not that of the
-- record. Whenever it is not, the answer is the same as for a key that the store does not know.
pub judge-Explained :
    (hash : Bytes) (now : ℕ) (rec : KeyRecord)
    → Explained hash now rec (judge hash now (found rec))
      × (¬ Matching hash rec → judge hash now (found rec) ≡ judge hash now (failed not_found))
judge-Explained hash now rec = (judge-explanation hash now rec, judge-unknown hash now rec)
