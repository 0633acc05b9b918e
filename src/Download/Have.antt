-- ===== src/Download/Have.antt =====
-- internal/download/download.go: HaveBitfield, the pieces that are verified and on disk. Its mutex makes
-- each operation one step; a snapshot is a copy, so that it is the value itself.
use p2p_file_distribution.Base.{ℕ, Bool}
use p2p_file_distribution.Base.Int.{pos}
use p2p_file_distribution.Base.Bytes.{Bytes}
use p2p_file_distribution.Peer.Bitfield
use p2p_file_distribution.Peer.Bitfield.{has_piece, set_piece, empty_for}

unfoldable pub new_have : ℕ → Bytes
new_have piece_count = empty_for piece_count

unfoldable pub set_have : ℕ → Bytes → Bytes
set_have index have = set_piece have (pos index)

unfoldable pub has : Bytes → ℕ → Bool
has have index = has_piece have (pos index)

unfoldable pub snapshot : Bytes → Bytes
snapshot have = have

unfoldable pub count_have : Bytes → ℕ
count_have have = Bitfield.count have
