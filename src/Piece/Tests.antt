-- ===== src/Piece/Tests.antt =====
-- The geometry of a small torrent: three pieces of 4, 4 and 2 bytes; and of a piece of two blocks.
use p2p_file_distribution.Base.{ℕ, ◌≤◌, ◌<◌, ◌*◌, ◌-◌, min, ok, err, ◌≡◌, ◌⊎◌, refl, arith}
use p2p_file_distribution.Base.Int.{pos, ◌+ℤ◌, wrap, mul_i64}
use p2p_file_distribution.Piece.Geometry.{
  block_out_of_range, length, range, last_length, block_bounds, block_size,
}
use p2p_file_distribution.Piece.Geometry.Bounds.{IsGeometry}
use p2p_file_distribution.Piece.Geometry.Tiling.{InRange, range_disjoint, range_covers}
use p2p_file_distribution.Piece.Geometry.Blocks.{blocks, block_bounds_cases}

small : IsGeometry 3 4 10
small = record {
  piece_pos = omega arith;
  total_pos = omega arith;
  fits = omega arith;
  count = omega arith;
}

first_range : range (pos 0) 3 4 10 ≡ ok (pos 0, pos 4)
unfolding range length last_length mul_i64 ◌+ℤ◌ wrap
first_range = refl

last_range : range (pos 2) 3 4 10 ≡ ok (pos 8, pos 10)
unfolding range length last_length mul_i64 ◌+ℤ◌ wrap
last_range = refl

range_disjoint_example : (4 ≤ 8) ⊎ (10 ≤ 0)
range_disjoint_example = range_disjoint small 0 2 0 4 8 10 (λ e. omega arith) first_range last_range

range_covers_example : (i s e : ℕ) × (range (pos i) 3 4 10 ≡ ok (pos s, pos e)) × (s ≤ 9) × (9 < e)
range_covers_example = range_covers small 9 (omega arith)

two_blocks : length (pos 0) 1 20000 20000 ≡ ok 20000
unfolding length last_length
two_blocks = refl

block_bounds_cases_example :
    ((n : ℕ) × (pos 1 ≡ pos n)
      × (n < blocks 20000)
      × (block_bounds (pos 0) (pos 1) 1 20000 20000
          ≡ ok (pos (n * block_size), pos (min block_size (20000 - n * block_size)))))
    ⊎ ((¬ InRange (pos 1) (blocks 20000))
        × (block_bounds (pos 0) (pos 1) 1 20000 20000 ≡ err block_out_of_range))
block_bounds_cases_example =
    block_bounds_cases (pos 0) 1 20000 20000 20000 two_blocks (omega arith) (omega arith) (pos 1)
