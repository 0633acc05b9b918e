-- ===== src/Piece/Geometry.antt =====
-- internal/piece/geometry.go. Indices are signed, since the code tests them against 0; the counts
-- and lengths are those of a torrent that metainfo.validate has let through, which are not negative.
pub mod Bounds
pub mod Tiling
pub mod Blocks
use p2p_file_distribution.Base.{
  ℕ, ◌+◌, ◌-◌, ◌*◌, ◌/◌, ◌%◌, ltb, leb, ◌==◌, if◌then◌else◌, Result, ok, err, panic, ◌>>=◌, ◌≡◌,
  refl,
}
use p2p_file_distribution.Base.Int.{ℤ, pos, negsuc, wrap, ◌+ℤ◌, ◌-ℤ◌, mul_i64, div_i64, leb_ℤ, eq_ℤ}

-- 16 * 1024
abbrev pub block_size : ℕ
block_size = 16384

pub data Error : Type 0 where
  index_out_of_range block_out_of_range : Error

-- The length of the last piece; a division by zero panics.
unfoldable pub last_length : ℕ → ℕ → Result Error ℕ
last_length piece_length total_length =
    if piece_length == 0
    then panic
    else if total_length % piece_length == 0
    then ok piece_length
    else ok (total_length % piece_length)

unfoldable pub length : ℤ → ℕ → ℕ → ℕ → Result Error ℕ
unfolding last_length
length (negsuc n) piece_count piece_length total_length = err index_out_of_range
length (pos i) piece_count piece_length total_length =
    if leb piece_count i
    then err index_out_of_range
    else if ltb i (piece_count - 1)
    then ok piece_length
    else last_length piece_length total_length

-- [start, end)
unfoldable pub range : ℤ → ℕ → ℕ → ℕ → Result Error (ℤ × ℤ)
range (negsuc n) piece_count piece_length total_length = err index_out_of_range
range (pos i) piece_count piece_length total_length = do
  len ← length (pos i) piece_count piece_length total_length
  let start = mul_i64 i piece_length
  ok (start, start +ℤ pos len)

unfoldable pub block_count : ℤ → ℕ → ℕ → ℕ → Result Error ℤ
block_count index piece_count piece_length total_length = do
  len ← length index piece_count piece_length total_length
  ok (div_i64 (wrap (pos (len + block_size - 1))) block_size)

-- What is left of `BlockBounds` when its two calls have succeeded; a negative block index is refused.
bounds_of : ℤ → ℕ → ℤ → Result Error (ℤ × ℤ)
bounds_of (negsuc b) piece_len count = err block_out_of_range
bounds_of (pos b) piece_len count =
    let offset = mul_i64 b block_size in
    if leb_ℤ count (pos b)
    then err block_out_of_range
    else if eq_ℤ (pos b) (count -ℤ pos 1)
    then ok (offset, pos piece_len -ℤ offset)
    else ok (offset, pos block_size)

unfoldable pub block_bounds : ℤ → ℤ → ℕ → ℕ → ℕ → Result Error (ℤ × ℤ)
unfolding bounds_of
block_bounds index block_index piece_count piece_length total_length = do
  piece_len ← length index piece_count piece_length total_length
  count ← block_count index piece_count piece_length total_length
  bounds_of block_index piece_len count
