-- ===== src/Storage/Resume/Tests.antt =====
-- A file of ten bytes for a torrent with pieces of 4, 4 and 2 bytes, whose last piece is broken.
use p2p_file_distribution.Base.{
  ℕ, ◌<◌, Bool, true, List, [], ◌∷◌, length, replicate, get_elem?, some, ok, ◌≡◌, ◌≢◌, ◌↔◌, refl,
  arith,
}
use p2p_file_distribution.Base.Int.{pos}
use p2p_file_distribution.Base.Bytes.{Bytes}
use p2p_file_distribution.Piece.Geometry.Bounds.{IsGeometry}
use p2p_file_distribution.Storage.{write_piece}
use p2p_file_distribution.Storage.Resume.{verify_existing, present}
use p2p_file_distribution.Storage.Resume.Exact.{IsSchedule, Intact, verify_existing-Intact}
use p2p_file_distribution.Storage.Resume.Written.{write_piece-Intact}

three_pieces : IsGeometry 3 4 10
three_pieces = record {
  piece_pos = omega arith;
  total_pos = omega arith;
  fits = omega arith;
  count = omega arith;
}

-- A hash that tells lengths apart.
abbrev length_hash : Bytes → Bytes
length_hash content = replicate 20 (length content)

abbrev hashes : List Bytes
hashes = replicate 20 4 ∷ replicate 20 4 ∷ replicate 20 9 ∷ []

abbrev zeros : Bytes
zeros = replicate 10 0

backwards-IsSchedule : IsSchedule 3 (2 ∷ 0 ∷ 1 ∷ [])
backwards-IsSchedule = record {
  in_range = (omega arith, (omega arith, (omega arith, tt)));
  complete = λ i h. ground arith;
}

verify_existing-Intact_example :
    (verified : List Bool) × (verify_existing length_hash
        (present zeros)
        3
        4
        10
        hashes
        (2 ∷ 0 ∷ 1 ∷ [])
      ≡ ok verified)
    × (length verified ≡ 3)
    × ((i : ℕ)
        → i < 3
        → (get_elem? verified i ≡ some true) ↔ Intact length_hash three_pieces hashes zeros i)
verify_existing-Intact_example =
    verify_existing-Intact length_hash three_pieces hashes zeros refl refl (2 ∷ 0 ∷ 1 ∷ [])
      backwards-IsSchedule

write_piece-Intact_example :
    (f' : Bytes) × (write_piece (pos 1) 3 4 10 (1 ∷ 2 ∷ 3 ∷ 4 ∷ []) zeros ≡ ok f')
    × (length f' ≡ 10)
    × Intact length_hash three_pieces hashes f' 1
    × ((j : ℕ)
        → j < 3
        → 1 ≢ j
        → Intact length_hash three_pieces hashes zeros j
        → Intact length_hash three_pieces hashes f' j)
write_piece-Intact_example =
    write_piece-Intact length_hash three_pieces hashes 1 (1 ∷ 2 ∷ 3 ∷ 4 ∷ []) zeros (replicate 20 4)
      (omega arith) refl refl refl refl refl
