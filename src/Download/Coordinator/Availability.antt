-- ===== src/Download/Coordinator/Availability.antt =====
-- internal/download/availability.go: how many connected peers hold each piece.
use p2p_file_distribution.Base.{ℕ, zero, suc, if◌then◌else◌, List, set, get_or}
use p2p_file_distribution.Base.Int.{ℤ, pos, negsuc}
use p2p_file_distribution.Base.Bytes.{Bytes}
use p2p_file_distribution.Peer.Bitfield.{has_piece}
use p2p_file_distribution.Download.Coordinator.State.{Coordinator}

-- `++` and `--` on an int, far from its bounds.
unfoldable pub inc : ℤ → ℤ
inc (pos n) = pos (suc n)
inc (negsuc zero) = pos 0
inc (negsuc (suc n)) = negsuc n

unfoldable pub dec : ℤ → ℤ
dec (pos zero) = negsuc 0
dec (pos (suc n)) = pos n
dec (negsuc n) = negsuc (suc n)

unfoldable pub inc_availability : List ℤ → ℕ → List ℤ
unfolding inc
inc_availability availability index =
    set availability index (inc (get_or availability index (pos 0)))

unfoldable pub dec_availability : List ℤ → ℕ → List ℤ
unfolding dec
dec_availability availability index =
    set availability index (dec (get_or availability index (pos 0)))

-- The loop over the piece indices below `n`, for either direction; the order does not matter, since
-- each round touches its own index.
unfoldable pub each_piece : (List ℤ → ℕ → List ℤ) → ℕ → Bytes → List ℤ → List ℤ
each_piece step zero bf availability = availability
each_piece step (suc n) bf availability =
    let rest = each_piece step n bf availability in
    if has_piece bf (pos n) then step rest n else rest

unfoldable pub add_availability : Coordinator → Bytes → Coordinator
unfolding each_piece inc_availability
add_availability c bf = record c {
  availability = each_piece inc_availability c.piece_count bf c.availability;
}

unfoldable pub remove_availability : Coordinator → Bytes → Coordinator
unfolding each_piece dec_availability
remove_availability c bf = record c {
  availability = each_piece dec_availability c.piece_count bf c.availability;
}
