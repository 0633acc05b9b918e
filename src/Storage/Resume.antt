-- ===== src/Storage/Resume.antt =====
-- internal/storage/resume.go: which pieces of a file that is there already match their hashes. The
-- goroutines only read the file and each writes one entry of its own, so a run is the order in which
-- they finish. A hash that is missing from the list is a panic of its goroutine.
pub mod Exact
pub mod Written
pub mod Tests
use p2p_file_distribution.Base.{
  ℕ, ◌==◌, if◌then◌else◌, Bool, true, false, List, [], ◌∷◌, length, set, replicate, get_elem?,
  Option, none, some, Result, ok, err, panic, ◌>>=◌,
}
use p2p_file_distribution.Base.Int.{pos, ◌-ℤ◌}
use p2p_file_distribution.Base.Bytes.{Bytes}
use p2p_file_distribution.Piece.Geometry
use p2p_file_distribution.Piece.Verify.{verify}
use p2p_file_distribution.Storage.{make_and_read}

-- What os.Open and Stat say of the path.
pub data OnDisk : Type 0 where
  absent cannot_open cannot_stat : OnDisk
  present : Bytes → OnDisk

pub data Error : Type 0 where
  open_failed stat_failed : Error

module _ (sha1 : Bytes → Bytes) where
  -- `ok, err := piece.Verify(buf, hashes[i][:])`, and `err == nil && ok`.
  matches : Bytes → Option Bytes → Result Error Bool
  matches buf none = panic
  matches buf (some hash) = elim (verify sha1 buf hash) [ ok same ↦ ok same | _ ↦ ok false ]

  -- The goroutine of piece `i`: whether it sets verified[i].
  unfoldable pub check_piece : ℕ → ℕ → ℕ → List Bytes → Bytes → ℕ → Result Error Bool
  unfolding matches
  check_piece piece_count piece_length total_length hashes f i =
      elim (Geometry.range (pos i) piece_count piece_length total_length) [
        | err _ ↦ ok false
        | panic ↦ panic
        | ok r ↦ elim (make_and_read (r.1 -ℤ r.0) r.0 f) [
          | err _ ↦ ok false
          | panic ↦ panic
          | ok buf ↦ matches buf (get_elem? hashes i)
        ]
      ]

  mark : List Bool → ℕ → Bool → List Bool
  mark verified i same = if same then set verified i true else verified

  unfoldable pub scan :
      ℕ → ℕ → ℕ → List Bytes → Bytes → List ℕ → List Bool → Result Error (List Bool)
  unfolding check_piece mark
  scan piece_count piece_length total_length hashes f [] verified = ok verified
  scan piece_count piece_length total_length hashes f (i ∷ order) verified = do
    same ← check_piece piece_count piece_length total_length hashes f i
    scan piece_count piece_length total_length hashes f order (mark verified i same)

  unfoldable pub verify_existing :
      OnDisk → ℕ → ℕ → ℕ → List Bytes → List ℕ → Result Error (List Bool)
  unfolding scan
  verify_existing absent piece_count piece_length total_length hashes order =
      ok (replicate piece_count false)
  verify_existing cannot_open piece_count piece_length total_length hashes order = err open_failed
  verify_existing cannot_stat piece_count piece_length total_length hashes order = err stat_failed
  verify_existing (present f) piece_count piece_length total_length hashes order =
      if length f == total_length
      then scan piece_count piece_length total_length hashes f order (replicate piece_count false)
      else ok (replicate piece_count false)
