-- ===== src/Storage.antt =====
-- internal/storage/file.go: pieces and blocks at their places in a file, which is its bytes here.
-- Opening, closing and syncing are not modelled, and the operating system reports no errors.
pub mod Positional
pub mod Pieces
pub mod Resume
pub mod Tests
use p2p_file_distribution.Base.{
  ℕ, zero, suc, ◌+◌, ◌-◌, ◌≤◌, ltb, leb, ◌==◌, if◌then◌else◌, Bool, true, false, ◌||◌, List, [],
  ◌∷◌, ◌++◌, length, take, drop, Result, ok, err, panic, ◌>>=◌, map_err,
}
use p2p_file_distribution.Base.Int.{ℤ, pos, negsuc, ◌+ℤ◌, ◌-ℤ◌, ltb_ℤ}
use p2p_file_distribution.Base.Bytes.{Bytes}
use p2p_file_distribution.Piece.Geometry

pub data Error : Type 0 where
  geometry : Geometry.Error → Error
  negative_offset end_of_file block_out_of_piece : Error

-- os.File.Truncate: the bytes past the end of a shorter file are zeros.
unfoldable pub truncate : ℕ → Bytes → Bytes
truncate zero f = []
truncate (suc n) [] = 0 ∷ truncate n []
truncate (suc n) (b ∷ f) = b ∷ truncate n f

-- os.File.WriteAt: what lies between the end of the file and the offset is zeros.
unfoldable pub write_over : ℕ → Bytes → Bytes → Bytes
write_over zero [] f = f
write_over zero (b ∷ content) [] = b ∷ content
write_over zero (b ∷ content) (x ∷ f) = b ∷ write_over zero content f
write_over (suc offset) content [] = 0 ∷ write_over offset content []
write_over (suc offset) content (x ∷ f) = x ∷ write_over offset content f

unfoldable pub write_at : Bytes → ℤ → Bytes → Result Error Bytes
write_at content (negsuc n) f = err negative_offset
write_at content (pos offset) f = ok (write_over offset content f)

-- os.File.ReadAt of `n` bytes: fewer at the end of the file are an error.
unfoldable pub read_at : ℕ → ℤ → Bytes → Result Error Bytes
read_at n (negsuc m) f = err negative_offset
read_at n (pos offset) f =
    if n == 0 || leb (offset + n) (length f) then ok (take n (drop offset f)) else err end_of_file

-- make([]byte, n) panics for a negative length.
unfoldable pub make_and_read : ℤ → ℤ → Bytes → Result Error Bytes
make_and_read (negsuc n) offset f = panic
make_and_read (pos n) offset f = read_at n offset f

-- `Create` on a file that may have bytes already.
unfoldable pub create : ℕ → Bytes → Bytes
create total_length f = truncate total_length f

unfoldable pub write_piece : ℤ → ℕ → ℕ → ℕ → Bytes → Bytes → Result Error Bytes
write_piece index piece_count piece_length total_length content f = do
  r ← map_err geometry (Geometry.range index piece_count piece_length total_length)
  write_at content r.0 f

unfoldable pub read_piece : ℤ → ℕ → ℕ → ℕ → Bytes → Result Error Bytes
read_piece index piece_count piece_length total_length f = do
  r ← map_err geometry (Geometry.range index piece_count piece_length total_length)
  make_and_read (r.1 -ℤ r.0) r.0 f

-- The test on `begin` and `length`, which come from a request and are not negative.
unfoldable pub read_block : ℤ → ℕ → ℕ → ℕ → ℕ → ℕ → Bytes → Result Error Bytes
read_block index piece_count piece_length total_length begin len f = do
  r ← map_err geometry (Geometry.range index piece_count piece_length total_length)
  if ltb_ℤ (r.1 -ℤ r.0) (pos begin +ℤ pos len)
      then err block_out_of_piece
      else read_at len (r.0 +ℤ pos begin) f
