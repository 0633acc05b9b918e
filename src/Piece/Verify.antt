-- ===== src/Piece/Verify.antt =====
-- internal/piece/verify.go: a piece against its hash. SHA-1 is the parameter `sha1`.
use p2p_file_distribution.Base.{
  ℕ, ◌==◌, if◌then◌else◌, not, Bool, true, length, Result, ok, err, ◌≡◌, ◌↔◌, arith,
}
use p2p_file_distribution.Base.Bytes.{Bytes, bytes_eq, bytes_eq→eq, bytes_eq_refl}

abbrev pub expected_hash_size : ℕ
expected_hash_size = 20

pub data Error : Type 0 where
  bad_hash_size : Error

module _ (sha1 : Bytes → Bytes) where
  unfoldable pub verify : Bytes → Bytes → Result Error Bool
  verify buf expected =
      if not (length expected == expected_hash_size)
      then err bad_hash_size
      else ok (bytes_eq (sha1 buf) expected)

  pub verify-true :
      (buf expected : Bytes)
      → (verify buf expected ≡ ok true)
        ↔ ((length expected ≡ expected_hash_size) × (sha1 buf ≡ expected))
  unfolding verify
  verify-true buf expected = (
    λ e. (ground arith, bytes_eq→eq (sha1 buf) expected (ground arith)),
    λ h.
        let same : bytes_eq (sha1 buf) expected ≡ true = rw h.1 (bytes_eq_refl expected) in
        ground (arith, h.0),
  )
