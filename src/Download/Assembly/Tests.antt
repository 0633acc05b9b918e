-- ===== src/Download/Assembly/Tests.antt =====
-- A piece of three bytes, in one block.
use p2p_file_distribution.Base.{ℕ, [], ◌∷◌, none, true, length, ok, ◌≡◌, refl}
use p2p_file_distribution.Base.Int.{pos, wrap, div_i64}
use p2p_file_distribution.Base.Bytes.{be_u32}
use p2p_file_distribution.Piece.Geometry
use p2p_file_distribution.Piece.Geometry.{block_size, block_count}
use p2p_file_distribution.Peer.Payload.{parse_piece}
use p2p_file_distribution.Peer.Conn.{Conn, new_conn}
use p2p_file_distribution.Download.Assembly.{
  Peer, Work, Attempt, Input, message, start, attempt_of, run, fill, on_input, on_message, on_block,
  store_block, copy_at, download_blocks,
}
use p2p_file_distribution.Download.Assembly.Counting.{missing_blocks}
use p2p_file_distribution.Download.Assembly.Complete.{download_blocks-Finishes}

abbrev other : Peer
other = record { addr = 7; piece_count = 1; seed = none; delivered = true; sent = true }

abbrev work : Work
work = record { index = 0; length = 3 }

abbrev arriving : Input
arriving = message (record { id = pos 7; payload = 0 ∷ 0 ∷ 0 ∷ 0 ∷ 0 ∷ 0 ∷ 0 ∷ 0 ∷ 4 ∷ 5 ∷ 6 ∷ [] })

abbrev quiet : Conn
quiet = new_conn [] []

assembled : download_blocks other work (arriving ∷ []) quiet ≡ ok (4 ∷ 5 ∷ 6 ∷ [])
unfolding download_blocks start attempt_of run fill on_input on_message on_block store_block copy_at
    parse_piece be_u32 block_count Geometry.length Geometry.last_length div_i64 wrap new_conn
assembled = refl

download_blocks-Finishes_example :
    (a b : Attempt) × (start work quiet ≡ ok a)
    × (run other work (arriving ∷ []) a ≡ ok b)
    × (missing_blocks b.received ≡ 0)
    × (block_count (pos 0) 1 3 3 ≡ ok (pos (length b.received)))
    × (4 ∷ 5 ∷ 6 ∷ [] ≡ b.buf)
    × (length {A = ℕ} (4 ∷ 5 ∷ 6 ∷ []) ≡ 3)
download_blocks-Finishes_example =
    download_blocks-Finishes other work (arriving ∷ []) quiet (4 ∷ 5 ∷ 6 ∷ []) assembled
