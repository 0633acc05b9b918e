-- ===== src/Storage/Tests.antt =====
-- A file of ten bytes for a torrent with pieces of 4, 4 and 2 bytes.
use p2p_file_distribution.Base.{ℕ, ◌<◌, [], ◌∷◌, length, replicate, ◌≡◌, ◌≢◌, refl, arith, ok}
use p2p_file_distribution.Base.Int.{pos}
use p2p_file_distribution.Base.Bytes.{Bytes}
use p2p_file_distribution.Piece.Geometry.Bounds.{IsGeometry}
use p2p_file_distribution.Storage.{write_piece, read_piece}
use p2p_file_distribution.Storage.Pieces.{read_piece-write_piece}

three_pieces : IsGeometry 3 4 10
three_pieces = record {
  piece_pos = omega arith;
  total_pos = omega arith;
  fits = omega arith;
  count = omega arith;
}

read_piece-write_piece_example :
    (f' : Bytes) × (write_piece (pos 2) 3 4 10 (7 ∷ 8 ∷ []) (replicate 10 0) ≡ ok f')
    × (length f' ≡ 10)
    × (read_piece (pos 2) 3 4 10 f' ≡ ok (7 ∷ 8 ∷ []))
    × ((j : ℕ)
        → j < 3
        → 2 ≢ j
        → read_piece (pos j) 3 4 10 f' ≡ read_piece (pos j) 3 4 10 (replicate 10 0))
read_piece-write_piece_example =
    read_piece-write_piece three_pieces 2 (7 ∷ 8 ∷ []) (replicate 10 0) (omega arith) refl refl
