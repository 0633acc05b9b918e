-- ===== src/Download/Worker/Tests.antt =====
-- A connection that downloads the second piece and is then shut down.
use p2p_file_distribution.Base.{
  ℕ, true, false, List, [], ◌∷◌, replicate, none, ◌≡◌, refl, arith, ok,
}
use p2p_file_distribution.Base.Int.{pos}
use p2p_file_distribution.Base.Bytes.{Bytes, All}
use p2p_file_distribution.Peer.Conn.{Conn}
use p2p_file_distribution.Download.Command.{
  Command, assign_piece, shutdown, peer_joined, bitfield_received, unchoke_received,
  piece_downloaded, peer_ready, peer_left,
}
use p2p_file_distribution.Piece.Verify.{verify}
use p2p_file_distribution.Download.Assembly
use p2p_file_distribution.Download.Assembly.{Work, download_blocks, message, command}
use p2p_file_distribution.Download.Coordinator.Orders.{IsListed}
use p2p_file_distribution.Download.Main.Tests.{three_pieces, head_hash, hashes}
use p2p_file_distribution.Download.Worker.Loop.{peer_of, Input, arrives, Turn}
use p2p_file_distribution.Download.Worker.{Opening, no_commands, run_connection, body, events_of}
use p2p_file_distribution.Download.Worker.Sound.{IsSound, run_connection-All}
use p2p_file_distribution.Download.Worker.Agrees.{Hands, turns-download_blocks}
use p2p_file_distribution.Download.Worker.Order.{IsSession, parting, run_connection-IsSession}
use p2p_file_distribution.Download.Session.{handle_message}
use p2p_file_distribution.Download.Session.{on_bitfield}
use p2p_file_distribution.Peer.Bitfield.{validate}
use p2p_file_distribution.Download.Assembly.{start}
use p2p_file_distribution.Piece.Geometry.{block_count}
use p2p_file_distribution.Piece.Geometry.{length}
use p2p_file_distribution.Base.Int.{div_i64}
use p2p_file_distribution.Base.Int.{wrap}
use p2p_file_distribution.Download.Assembly.{fill}
use p2p_file_distribution.Download.Assembly.{next_unrequested_block}
use p2p_file_distribution.Download.Assembly.{request_block}
use p2p_file_distribution.Piece.Geometry.{block_bounds}
use p2p_file_distribution.Base.Int.{◌-ℤ◌}
use p2p_file_distribution.Download.Assembly.{on_input}
use p2p_file_distribution.Download.Assembly.{on_message}
use p2p_file_distribution.Peer.Payload.{parse_piece}
use p2p_file_distribution.Download.Assembly.{on_block}
use p2p_file_distribution.Piece.Verify.{verify}
use p2p_file_distribution.Base.Bytes.{bytes_eq}
use p2p_file_distribution.Download.Assembly.{copy_at}

abbrev takes : Input → Turn
takes input = record { input = input; seed = none; delivered = true; ready = true; sent = true }

abbrev opening : Opening
opening = record { joined = true; bitfield_sent = true; interest_sent = true; have = none }

abbrev accepted : Conn
accepted = record {
  peer_id = [];
  reserved = [];
  am_choking = true;
  am_interested = false;
  peer_choking = true;
  peer_interested = false;
  peer_bitfield = [];
}

abbrev message_of : ℕ → Bytes → Turn
message_of id payload = takes (arrives (message (record { id = pos id; payload = payload })))

abbrev order_1 : Command
order_1 = assign_piece 1 4 (replicate 20 2)

-- A bitfield, an unchoke, the order, the block of the piece, and the end.
abbrev session : List Turn
session =
    message_of 5 (224 ∷ [])
    ∷ message_of 1 []
    ∷ takes (arrives (command order_1))
    ∷ message_of 7 (0 ∷ 0 ∷ 0 ∷ 1 ∷ 0 ∷ 0 ∷ 0 ∷ 0 ∷ 2 ∷ 0 ∷ 0 ∷ 0 ∷ [])
    ∷ takes (arrives (command shutdown))
    ∷ []

order_1-IsListed : IsListed three_pieces hashes 1 4 (replicate 20 2)
order_1-IsListed = record { in_range = omega arith; full = refl; listed = refl }

run_connection-All_example :
    All
      (IsSound head_hash 7 three_pieces hashes)
      (run_connection head_hash 7 3 opening session true accepted)
run_connection-All_example =
    run_connection-All head_hash 7 three_pieces hashes opening session true accepted
      (tt, (tt, (order_1-IsListed, (tt, (tt, tt)))))

-- The events of this session, in order.
session_events :
    events_of (run_connection head_hash 7 3 opening session true accepted)
    ≡ peer_joined 7 no_commands
      ∷ bitfield_received 7 (224 ∷ [])
      ∷ unchoke_received 7
      ∷ piece_downloaded 7 1 (2 ∷ 0 ∷ 0 ∷ 0 ∷ [])
      ∷ peer_ready 7
      ∷ peer_left 7
      ∷ []
unfolding events_of run_connection handle_message on_bitfield validate start block_count length
    div_i64 wrap fill next_unrequested_block request_block block_bounds ◌-ℤ◌ on_input on_message
    parse_piece on_block verify bytes_eq copy_at
session_events = refl

run_connection-IsSession_example :
    IsSession head_hash 7 true
      (parting head_hash 7 true (body head_hash 7 3 opening session accepted).0)
      (events_of (run_connection head_hash 7 3 opening session true accepted))
run_connection-IsSession_example =
    run_connection-IsSession head_hash 7 3 opening session true accepted

-- A peer that has unchoked us, and the block that it sends.
abbrev willing : Conn
willing = record accepted { peer_choking = false; peer_bitfield = 224 ∷ [] }

abbrev block : Assembly.Input
block =
    message (record { id = pos 7; payload = 0 ∷ 0 ∷ 0 ∷ 1 ∷ 0 ∷ 0 ∷ 0 ∷ 0 ∷ 2 ∷ 0 ∷ 0 ∷ 0 ∷ [] })

abbrev work : Work
work = record { index = 1; length = 4 }

block_assembled :
    download_blocks (peer_of 7 3 (takes (arrives block))) work (block ∷ []) willing
    ≡ ok (2 ∷ 0 ∷ 0 ∷ 0 ∷ [])
unfolding download_blocks start block_count length div_i64 wrap Assembly.run fill
    next_unrequested_block request_block block_bounds ◌-ℤ◌ peer_of on_input on_message parse_piece
    on_block copy_at
block_assembled = refl

right_hash : verify head_hash (2 ∷ 0 ∷ 0 ∷ 0 ∷ []) (replicate 20 2) ≡ ok true
unfolding verify bytes_eq
right_hash = refl

turns-download_blocks_example :
    Hands head_hash 7 3
      (takes (arrives block))
      work
      (replicate 20 2)
      willing
      (block ∷ [])
      (2 ∷ 0 ∷ 0 ∷ 0 ∷ [])
turns-download_blocks_example =
    turns-download_blocks head_hash 7 3 (takes (arrives block)) work (replicate 20 2) (block ∷ [])
      willing (2 ∷ 0 ∷ 0 ∷ 0 ∷ []) refl refl block_assembled right_hash
