-- ===== src/Piece/Geometry/Bounds.antt =====
-- What the geometry functions return on a well-formed torrent.
use p2p_file_distribution.Base.{
  ℕ, suc, ◌+◌, ◌-◌, ◌*◌, ◌/◌, ◌%◌, ◌≤◌, ◌<◌, min, ok, err, ◌≡◌, ap, arith,
}
use native.Mathlib.Nat.{
  div-add-mod', mod-lt, mod-eq_of_lt, mod_self, add_comm, add-mul-mod_self_right,
}
use p2p_file_distribution.Base.Int.{pos, two_63, pos-add, pos-mul}
use p2p_file_distribution.Piece.Geometry.{index_out_of_range, length, range, last_length}

-- The relation between the numbers of a torrent that metainfo.validate checks, in int64.
pub record IsGeometry (piece_count piece_length total_length : ℕ) : Type 0 where
  pub piece_pos : 0 < piece_length
  pub total_pos : 0 < total_length
  pub fits : total_length + piece_length < two_63
  pub count : piece_count ≡ (total_length + piece_length - 1) / piece_length

-- `n` lies between two multiples of `d`.
pub div_bounds : (n d : ℕ) → 0 < d → (n / d * d ≤ n) × (n < n / d * d + d)
div_bounds n d h = grind (arith, div-add-mod' n d, mod-lt n h)

module _ {pc pl tl : ℕ} (g : IsGeometry pc pl tl) where
  -- The last piece starts before the end of the data, and no piece starts after it.
  count_bounds : (pc * pl < tl + pl) × (tl ≤ pc * pl)
  count_bounds =
      let (lo, hi) = div_bounds (tl + pl - 1) pl g.piece_pos in
      rw g.count (omega (arith, lo, hi, g.piece_pos, g.total_pos))

  pub count_pos : 0 < pc
  count_pos = grind (arith, count_bounds, g.total_pos)

  pub last_starts : (i : ℕ) → i < pc → i * pl < tl
  last_starts i h = grind (arith, count_bounds, g.piece_pos)

  pub last_ends : tl ≤ pc * pl
  last_ends = count_bounds.1

  next_starts : (i : ℕ) → i < pc - 1 → i * pl + pl < tl
  next_starts i h = grind (arith, last_starts (suc i), count_pos)

  -- The bytes of piece `i` that the data has.
  abbrev pub bytes_of : ℕ → ℕ
  bytes_of i = min pl (tl - i * pl)

  last_rest : (i : ℕ) → i < pc → pc ≤ i + 1 → (tl - i * pl ≤ pl) × (i * pl < tl)
  last_rest i h k = (grind (arith, last_ends), last_starts i h)

  rest_mod : (i r : ℕ) → tl ≡ i * pl + r → tl % pl ≡ r % pl
  rest_mod i r e = rw e (rw (add_comm (i * pl) r) (add-mul-mod_self_right r i pl))

  length-last : (i : ℕ) → i < pc → pc ≤ i + 1 → last_length pl tl ≡ ok (bytes_of i)
  unfolding last_length
  length-last i h k = ground (
    arith,
    g.piece_pos,
    last_rest i h k,
    rest_mod i (tl - i * pl) (omega (arith, last_rest i h k)),
    mod-eq_of_lt {n = tl - i * pl} {m = pl},
    mod_self pl,
  )

  pub length-eq : (i : ℕ) → i < pc → length (pos i) pc pl tl ≡ ok (bytes_of i)
  unfolding length
  length-eq i h = ground (arith, next_starts i, length-last i h)

  pub range-eq :
      (i : ℕ) → i < pc → range (pos i) pc pl tl ≡ ok (pos (i * pl), pos (min (suc i * pl) tl))
  unfolding range
  range-eq i h =
      rw (length-eq i h, pos-mul i pl (omega (arith, last_starts i h, g.fits)))
        (rw (pos-add (i * pl) (bytes_of i) (omega (arith, last_starts i h, g.fits)))
          (ap (λ (e : ℕ). ok (pos (i * pl), pos e)) (omega (arith, last_starts i h))))

  pub range-out : (i : ℕ) → pc ≤ i → range (pos i) pc pl tl ≡ err index_out_of_range
  unfolding range length
  range-out i h = ground arith

  pub length-out : (i : ℕ) → pc ≤ i → length (pos i) pc pl tl ≡ err index_out_of_range
  unfolding length
  length-out i h = ground arith
