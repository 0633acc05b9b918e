-- ===== src/Storage/Pieces.antt =====
-- Writing one piece of a torrent and reading pieces and blocks back.
use p2p_file_distribution.Base.{
  ◌⊎◌, inl, inr, ℕ, suc, ◌+◌, ◌-◌, ◌*◌, ◌≤◌, ◌<◌, min, ltb, if◌then◌else◌, true, false, length,
  take, drop, ◌≡◌, ◌≢◌, refl, arith, ap, sym, ◌∙◌, Result, ok, err, dec_lt,
}
use native.Mathlib.Nat.{mul-le-mul_right}
use p2p_file_distribution.Base.Int.{pos, two_63, ◌+ℤ◌, pos-sub, pos-add, ltb_ℤ}
use p2p_file_distribution.Base.Bytes.{Bytes}
use p2p_file_distribution.Piece.Geometry.Bounds.{IsGeometry, range-eq, bytes_of, last_starts}
use p2p_file_distribution.Storage.{
  Error, write_over, write_at, write_piece, read_piece, read_block, read_at, make_and_read,
  block_out_of_piece,
}
use p2p_file_distribution.Storage.Positional.{
  take-write_over, write_over-before, write_over-after, length-write_over,
}

-- A read within the file.
read_at-eq :
    (n offset : ℕ) (f : Bytes)
    → offset + n ≤ length f
    → read_at n (pos offset) f ≡ ok (take n (drop offset f))
unfolding read_at
read_at-eq n offset f h = ground arith

module _ {pc pl tl : ℕ} (g : IsGeometry pc pl tl) where
  piece_span : (i : ℕ) → i < pc → min (suc i * pl) tl - i * pl ≡ bytes_of g i
  piece_span i h = omega (arith, last_starts g i h)

  piece_end : (i : ℕ) → i < pc → i * pl + bytes_of g i ≤ tl
  piece_end i h = omega (arith, last_starts g i h)

  write_piece-eq :
      (i : ℕ) (content f : Bytes)
      → i < pc
      → write_piece (pos i) pc pl tl content f ≡ ok (write_over (i * pl) content f)
  unfolding write_piece write_at
  write_piece-eq i content f h = rw (range-eq g i h) refl

  pub read_piece-eq :
      (i : ℕ) (f : Bytes)
      → i < pc
      → length f ≡ tl
      → read_piece (pos i) pc pl tl f ≡ ok (take (bytes_of g i) (drop (i * pl) f))
  unfolding read_piece make_and_read
  read_piece-eq i f h e =
      rw
        (
          range-eq g i h,
          pos-sub (min (suc i * pl) tl) (i * pl) (omega (arith, last_starts g i h))
              (omega (arith, g.fits)),
          piece_span i h,
        )
        (read_at-eq (bytes_of g i) (i * pl) f (omega (arith, piece_end i h, e)))

  -- In a file of the torrent's size, a piece that `WritePiece` wrote is what `ReadPiece` reads at its
  -- index, every other piece reads as before, and the size of the file stays.
  pub read_piece-write_piece :
      (i : ℕ) (content f : Bytes)
      → i < pc
      → length f ≡ tl
      → length content ≡ bytes_of g i
      → (f' : Bytes) × (write_piece (pos i) pc pl tl content f ≡ ok f')
        × (length f' ≡ tl)
        × (read_piece (pos i) pc pl tl f' ≡ ok content)
        × ((j : ℕ)
            → j < pc
            → i ≢ j
            → read_piece (pos j) pc pl tl f' ≡ read_piece (pos j) pc pl tl f)
  read_piece-write_piece i content f h e full = (
    written,
    write_piece-eq i content f h,
    size,
    read_piece-eq i written h size ∙ ap (λ (c : Bytes). ok c) (same_piece (bytes_of g i) full),
    λ j k ne.
        read_piece-eq j written k size
        ∙ (ap (λ (c : Bytes). ok c) (other j k ne) ∙ sym (read_piece-eq j f k e)),
  )
    where
      written : Bytes
      written = write_over (i * pl) content f

      size : length written ≡ tl
      size = length-write_over (i * pl) content f (omega (arith, piece_end i h, e, full)) ∙ e

      same_piece : (n : ℕ) → length content ≡ n → take n (drop (i * pl) written) ≡ content
      same_piece n eq = rw (sym eq) (take-write_over (i * pl) content f)

      other :
          (j : ℕ)
          → j < pc
          → i ≢ j
          → take (bytes_of g j) (drop (j * pl) written) ≡ take (bytes_of g j) (drop (j * pl) f)
      other j k ne = elim (dec_lt j i) [
        | yes less ↦
            write_over-before (i * pl) (j * pl) (bytes_of g j) content f
              (omega (arith, mul-le-mul_right {m = suc j} {n = i} pl less))
              (omega (arith, piece_end i h, e))
        | no more ↦
            ap (λ (l : Bytes). take (bytes_of g j) l)
              (write_over-after (i * pl) (j * pl) content f
                (omega (arith, full, mul-le-mul_right {m = suc i} {n = j} pl (omega arith))))
      ]

  read_block_bounds :
      (i begin len : ℕ) (f : Bytes)
      → i < pc
      → begin + len < two_63
      → read_block (pos i) pc pl tl begin len f ≡ (
          if ltb (bytes_of g i) (begin + len)
          then err block_out_of_piece
          else read_at len (pos (i * pl) +ℤ pos begin) f)
  unfolding read_block
  read_block_bounds i begin len f h small =
      rw
        (
          range-eq g i h,
          pos-sub (min (suc i * pl) tl) (i * pl) (omega (arith, last_starts g i h))
              (omega (arith, g.fits)),
          piece_span i h,
          pos-add begin len small,
        )
        (compare_pos (bytes_of g i) (begin + len) _ _)
    where
      compare_pos :
          (a b : ℕ) (x y : Result Error Bytes)
          → (if ltb_ℤ (pos a) (pos b) then x else y) ≡ (if ltb a b then x else y)
      compare_pos a b x y = ground arith

  pub read_block-inside :
      (i begin len : ℕ) (f : Bytes)
      → i < pc
      → length f ≡ tl
      → begin + len ≤ bytes_of g i
      → read_block (pos i) pc pl tl begin len f ≡ ok (take len (drop (i * pl + begin) f))
  read_block-inside i begin len f h e inside =
      rw
        (
          read_block_bounds i begin len f h (omega (arith, piece_end i h, g.fits)),
          small (bytes_of g i) (begin + len) inside,
          pos-add (i * pl) begin (omega (arith, piece_end i h, g.fits)),
        )
        (read_at-eq len (i * pl + begin) f (omega (arith, piece_end i h, e)))
    where
      small : (a b : ℕ) → b ≤ a → ltb a b ≡ false
      small a b h = ground arith

  -- `ReadBlock` reads a block that lies in its piece from the place of the piece in the file, and refuses
  -- one that passes the end of the piece.
  pub read_block_cases :
      (i begin len : ℕ) (f : Bytes)
      → i < pc
      → length f ≡ tl
      → begin + len < two_63
      → ((begin + len ≤ bytes_of g i)
          × (read_block (pos i) pc pl tl begin len f ≡ ok (take len (drop (i * pl + begin) f))))
        ⊎ ((bytes_of g i < begin + len)
            × (read_block (pos i) pc pl tl begin len f ≡ err block_out_of_piece))
  read_block_cases i begin len f h e small = elim (dec_lt (bytes_of g i) (begin + len)) [
    | no inside ↦
        inl (omega (arith, inside), read_block-inside i begin len f h e (omega (arith, inside)))
    | yes outside ↦ inr (
      outside,
      rw (read_block_bounds i begin len f h small, large (bytes_of g i) (begin + len) outside) refl,
    )
  ]
    where
      large : (a b : ℕ) → a < b → ltb a b ≡ true
      large a b h = ground arith
