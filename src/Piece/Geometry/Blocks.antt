-- ===== src/Piece/Geometry/Blocks.antt =====
-- The blocks of a piece divide its bytes among them.
use p2p_file_distribution.Base.{
  refl, ◌⊎◌, inl, inr, dec_lt, ℕ, ◌+◌, ◌-◌, ◌*◌, ◌/◌, ◌≤◌, ◌<◌, min, ok, err, ◌≡◌, ap, arith,
}
use p2p_file_distribution.Base.Int.{ℤ, pos, negsuc, two_63, wrap-pos, pos-mul, pos-sub, div_i64}
use p2p_file_distribution.Piece.Geometry.{
  block_out_of_range, block_size, length, block_count, block_bounds, bounds_of,
}
use p2p_file_distribution.Piece.Geometry.Tiling.{InRange}

-- The number of blocks of a piece of `len` bytes.
abbrev pub blocks : ℕ → ℕ
blocks len = (len + 16383) / 16384

cover : (len b : ℕ) → b < blocks len → (b * 16384 < len)
cover len b h = omega arith

bounds_of-eq :
    (len b : ℕ)
    → len + 16384 < two_63
    → b < blocks len
    → bounds_of (pos b) len (pos (blocks len))
      ≡ ok (pos (b * block_size), pos (min block_size (len - b * block_size)))
unfolding bounds_of
bounds_of-eq len b fits h =
    rw (pos-mul b block_size (omega arith), pos-sub (blocks len) 1 (omega arith) (omega arith))
      (ground (arith, pos-sub len (b * block_size) (omega arith) (omega arith)))

module _ (index : ℤ) (pc pl tl len : ℕ) (piece : length index pc pl tl ≡ ok len)
    (positive : 0 < len) (fits : len + 16384 < two_63) where
  pub block_count-eq : block_count index pc pl tl ≡ ok (pos (blocks len))
  unfolding block_count div_i64
  block_count-eq =
      rw (piece, wrap-pos (len + block_size - 1) (omega arith))
        (ap (λ (n : ℕ). ok (pos (n / 16384))) (omega arith))

  pub block_bounds-eq :
      (b : ℕ)
      → b < blocks len
      → block_bounds index (pos b) pc pl tl
        ≡ ok (pos (b * block_size), pos (min block_size (len - b * block_size)))
  unfolding block_bounds
  block_bounds-eq b h = rw (piece, block_count-eq) (bounds_of-eq len b fits h)

  pub block_bounds-out :
      (b : ℕ) → blocks len ≤ b → block_bounds index (pos b) pc pl tl ≡ err block_out_of_range
  unfolding block_bounds
  block_bounds-out b h = rw (piece, block_count-eq) (ground arith)

  pub block_bounds-neg : (n : ℕ) → block_bounds index (negsuc n) pc pl tl ≡ err block_out_of_range
  unfolding block_bounds
  block_bounds-neg n = rw (piece, block_count-eq)

  -- For a piece of positive length, at least 16384 bytes below 2^63: `BlockBounds` gives block `b` the offset
  -- of `b` whole blocks and the length of a whole block or what is left of the piece, and refuses every
  -- index, negative or not, that names no block.
  pub block_bounds_cases :
      (b : ℤ)
      → ((n : ℕ) × (b ≡ pos n)
          × (n < blocks len)
          × (block_bounds index b pc pl tl
              ≡ ok (pos (n * block_size), pos (min block_size (len - n * block_size)))))
        ⊎ ((¬ InRange b (blocks len)) × (block_bounds index b pc pl tl ≡ err block_out_of_range))
  block_bounds_cases (negsuc n) = inr ((λ h. h), block_bounds-neg n)
  block_bounds_cases (pos n) = elim (dec_lt n (blocks len)) [
    | yes inside ↦ inl (n, refl, inside, block_bounds-eq n inside)
    | no outside ↦ inr (outside, block_bounds-out n (omega (arith, outside)))
  ]
