-- ===== src/Metainfo/Validity.antt =====
-- What the checks of `validate` mean for the geometry of the pieces.
use native.Mathlib.Nat.{div-eq_of_lt}
use p2p_file_distribution.Base.{ℕ, suc, ◌+◌, ◌-◌, ◌*◌, ◌/◌, ◌<◌, ◌≤◌, ok, ◌≡◌, refl, arith}
use p2p_file_distribution.Base.Int.{
  pos, negsuc, two_63, wrap, ◌+ℤ◌, ◌-ℤ◌, div_i64, pos-add, pos-sub,
}
use p2p_file_distribution.Piece.Geometry.Bounds.{IsGeometry}
use p2p_file_distribution.Metainfo.{check_numbers, check_total}

-- The numbers that `validate` accepts are those of a torrent whose geometry is well formed, when
-- the sum of the lengths is an int64.
pub check_numbers-IsGeometry :
    (count pl tl : ℕ)
    → tl + pl < two_63
    → check_numbers count (pos pl) (pos tl) ≡ ok tt
    → IsGeometry count pl tl
unfolding check_numbers check_total div_i64
check_numbers-IsGeometry count pl tl fits h = record {
  piece_pos = ground arith;
  total_pos = ground arith;
  fits = fits;
  count = counted;
}
  where
    expected : 0 < pl → 0 < tl → (pos tl +ℤ pos pl) -ℤ pos 1 ≡ pos (tl + pl - 1)
    expected h k = rw (pos-add tl pl fits) (pos-sub (tl + pl) 1 (omega arith) fits)

    counted : count ≡ (tl + pl - 1) / pl
    counted = ground (arith, expected)

sum_wraps :
    (a b : ℕ)
    → two_63 ≤ a + b
    → a + b < 2 * two_63
    → pos a +ℤ pos b ≡ negsuc (2 * two_63 - 1 - (a + b))
unfolding ◌+ℤ◌ wrap
sum_wraps a b h k = ground arith

one_less : (m : ℕ) → m + 1 < two_63 → negsuc m -ℤ pos 1 ≡ negsuc (m + 1)
unfolding ◌-ℤ◌ wrap
one_less m h = ground arith

rounded_to_zero : (m pl : ℕ) → suc m < pl → div_i64 (negsuc m) pl ≡ pos 0
unfolding div_i64
rounded_to_zero m pl h = let e : suc m / pl ≡ 0 = div-eq_of_lt h in rw e refl

quotient_zero :
    (pl tl : ℕ)
    → tl < two_63
    → pl < two_63
    → 2 * two_63 + 1 < tl + 2 * pl
    → div_i64 ((pos tl +ℤ pos pl) -ℤ pos 1) pl ≡ pos 0
quotient_zero pl tl h k big =
    rw
      (
        sum_wraps tl pl (omega arith) (omega arith),
        one_less (2 * two_63 - 1 - (tl + pl)) (omega arith),
      )
      (rounded_to_zero (2 * two_63 - 1 - (tl + pl) + 1) pl (omega arith))

-- When the sum of the lengths overflows and the quotient is rounded to 0, a torrent without any
-- pieces is accepted.
pub check_numbers_overflow :
    (pl tl : ℕ)
    → tl < two_63
    → pl < two_63
    → 2 * two_63 + 1 < tl + 2 * pl
    → check_numbers 0 (pos pl) (pos tl) ≡ ok tt
unfolding check_numbers check_total
check_numbers_overflow pl tl h k big = rw (quotient_zero pl tl h k big) (ground arith)
