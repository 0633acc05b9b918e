-- ===== src/Piece/Geometry/Tiling.antt =====
-- The ranges of the pieces divide the data of the torrent among them.
use p2p_file_distribution.Base.{
  ℕ, suc, ◌*◌, ◌/◌, ◌≤◌, ◌<◌, min, ok, err, ◌≡◌, ◌≢◌, ◌⊎◌, inl, inr, refl, dec_lt, arith,
}
use native.Mathlib.Nat.{mul-le-mul_right}
use p2p_file_distribution.Base.Int.{ℤ, pos, negsuc}
use p2p_file_distribution.Piece.Geometry.{index_out_of_range, length, range}
use p2p_file_distribution.Piece.Geometry.Bounds.{
  IsGeometry, range-eq, length-eq, length-out, range-out, bytes_of, last_starts, last_ends,
  div_bounds,
}

-- The index names a piece of the torrent.
abbrev pub InRange : ℤ → ℕ → Type 0
InRange (pos i) pc = i < pc
InRange (negsuc n) pc = ⊥

module _ {pc pl tl : ℕ} (g : IsGeometry pc pl tl) where
  range_of :
      (i s e : ℕ)
      → range (pos i) pc pl tl ≡ ok (pos s, pos e)
      → (i < pc) × (s ≡ i * pl) × (e ≡ min (suc i * pl) tl)
  range_of i s e h = elim (dec_lt i pc) [
    | yes inside ↦ (inside, cc (range-eq g i inside), cc (range-eq g i inside))
    | no outside ↦ cc (range-out g i (omega arith))
  ]

  -- The ranges of two pieces share no byte.
  pub range_disjoint :
      (i j s e s' e' : ℕ)
      → i ≢ j
      → range (pos i) pc pl tl ≡ ok (pos s, pos e)
      → range (pos j) pc pl tl ≡ ok (pos s', pos e')
      → (e ≤ s') ⊎ (e' ≤ s)
  range_disjoint i j s e s' e' ne h k = elim (dec_lt i j) [
    | yes less ↦ inl (omega (arith, range_of i s e h, range_of j s' e' k, mul-le-mul_right pl less))
    | no more ↦ inr (
        omega (
          arith,
          range_of i s e h,
          range_of j s' e' k,
          mul-le-mul_right {m = suc j} {n = i} pl (omega arith),
        ))
  ]

  -- Every byte of the data lies in the range of a piece.
  pub range_covers :
      (o : ℕ)
      → o < tl
      → (i s e : ℕ) × (range (pos i) pc pl tl ≡ ok (pos s, pos e)) × (s ≤ o) × (o < e)
  range_covers o h =
      let i = o / pl in
      let (lo, hi) = div_bounds o pl g.piece_pos in
      let inside : i < pc = grind (arith, lo, hi, last_ends g, g.piece_pos) in
      (i, i * pl, min (suc i * pl) tl, range-eq g i inside, lo, omega (arith, hi))

  -- `length` fails exactly when the index names no piece, and otherwise is positive and at most
  -- the piece length.
  pub length_cases :
      (index : ℤ)
      → ((length index pc pl tl ≡ err index_out_of_range) × (¬ InRange index pc))
        ⊎ ((l : ℕ) × (length index pc pl tl ≡ ok l) × InRange index pc × (0 < l) × (l ≤ pl))
  length_cases (negsuc n) = inl (unfold length in refl, λ h. h)
  length_cases (pos i) = elim (dec_lt i pc) [
    | yes inside ↦ inr (
      bytes_of g i,
      length-eq g i inside,
      inside,
      omega (arith, g.piece_pos, last_starts g i inside),
      omega arith,
    )
    | no outside ↦ inl (length-out g i (omega arith), outside)
  ]
