-- ===== src/Download/System/Tests.antt =====
-- A run of one connection and the coordinator: the peer has all three pieces, unchokes us, and sends the
-- second one, of which the first is on disk already.
use p2p_file_distribution.Base.{true, false, List, [], ◌∷◌, replicate, none, some, ◌≡◌, refl, arith}
use p2p_file_distribution.Base.Int.{pos, wrap, div_i64, mul_i64, ◌-ℤ◌}
use p2p_file_distribution.Base.Bytes.{All, bytes_eq}
use p2p_file_distribution.Base.Dict
use p2p_file_distribution.Piece.Geometry
use p2p_file_distribution.Piece.Geometry.{block_count, block_bounds}
use p2p_file_distribution.Piece.Verify.{verify}
use p2p_file_distribution.Peer.Payload.{parse_piece}
use p2p_file_distribution.Peer.Bitfield.{validate, has_piece, test_bit}
use p2p_file_distribution.Peer.Conn.{Conn}
use p2p_file_distribution.Storage.Resume.Exact.{Intact}
use p2p_file_distribution.Download.Command.{
  Event, Command, assign_piece, peer_joined, bitfield_received, unchoke_received, piece_downloaded,
  peer_ready, has_room, send,
}
use p2p_file_distribution.Download.Assembly.{Attempt, message, command}
use p2p_file_distribution.Download.Coordinator.State.{
  PeerInfo, Coordinator, Env, complete, in_flight, missing, new_coordinator, update,
}
use p2p_file_distribution.Download.Have.{has}
use p2p_file_distribution.Download.Main.Loop.{piece_arrived, loop}
use p2p_file_distribution.Download.Main.Loop.Invariant.{state_of}
use p2p_file_distribution.Download.Main.Loop.Verified.{IsVerified}
use p2p_file_distribution.Download.Main.Tests.{
  cfg, three_pieces, head_hash, hashes, order, order-IsSchedule, port_of, answer, begun, announced,
  entered, second,
}
use p2p_file_distribution.Download.Worker.Loop.{Phase, Input, arrives, Turn, idle, busy}
use p2p_file_distribution.Download.Worker.{Opening, no_commands}
use p2p_file_distribution.Download.System.{
  System, Connection, IsReachable, started, stepped, joins, turns, obeys, sends, handles, begins,
  delivers, left_behind,
}
use p2p_file_distribution.Download.System.Verified.{results-IsVerified}
use p2p_file_distribution.Download.System.Whole.{client-Intact}
use p2p_file_distribution.Download.Coordinator.Tasks.Reach.{mark_all}
use p2p_file_distribution.Download.Coordinator.Handlers.{mark_complete}
use p2p_file_distribution.Download.System.{proceeds}
use p2p_file_distribution.Download.Worker.{introduce}
use p2p_file_distribution.Download.Coordinator.Handlers.{handle}
use p2p_file_distribution.Download.Coordinator.Handlers.{handle_peer_joined}
use p2p_file_distribution.Download.Coordinator.Handlers.{handle_peer_left}
use p2p_file_distribution.Download.Worker.Loop.{turn}
use p2p_file_distribution.Download.Session.{handle_message}
use p2p_file_distribution.Download.Session.{on_bitfield}
use p2p_file_distribution.Download.Coordinator.Handlers.{handle_bitfield_received}
use p2p_file_distribution.Download.Coordinator.Handlers.{try_assign}
use p2p_file_distribution.Download.Coordinator.Availability.{add_availability}
use p2p_file_distribution.Download.Coordinator.Handlers.{handle_unchoke_received}
use p2p_file_distribution.Download.Coordinator.Selection.{select_loop}
use p2p_file_distribution.Download.Coordinator.Selection.{select_step}
use p2p_file_distribution.Download.Coordinator.Selection.{assign_piece_to}
use p2p_file_distribution.Download.System.{take_command}
use p2p_file_distribution.Download.Assembly.{start}
use p2p_file_distribution.Download.Assembly.{fill}
use p2p_file_distribution.Download.Assembly.{next_unrequested_block}
use p2p_file_distribution.Download.Assembly.{request_block}
use p2p_file_distribution.Download.Assembly.{on_input}
use p2p_file_distribution.Download.Assembly.{on_message}
use p2p_file_distribution.Download.Assembly.{on_block}
use p2p_file_distribution.Download.Assembly.{copy_at}
use p2p_file_distribution.Download.Coordinator.Handlers.{handle_piece_downloaded}
use p2p_file_distribution.Download.Coordinator.Handlers.{finish_piece}
use p2p_file_distribution.Download.Coordinator.Handlers.{set_idle}
use p2p_file_distribution.Download.Coordinator.Endgame.{cancel_other_assignees}
use p2p_file_distribution.Download.Coordinator.Endgame.{cancel_all}
use p2p_file_distribution.Download.Coordinator.Endgame.{cancel_one}
use p2p_file_distribution.Storage.{write_piece}
use p2p_file_distribution.Storage.{write_at}
use p2p_file_distribution.Download.Have.{set_have}
use p2p_file_distribution.Peer.Bitfield.{set_piece}
use p2p_file_distribution.Peer.Bitfield.{set_bit}

abbrev env : Env
env = record { now = 0; coin = λ i n. false; peer_order = []; piece_order = []; delivered = true }

abbrev now_takes : Input → Turn
now_takes input = record { input = input; seed = none; delivered = true; ready = true; sent = true }

abbrev opening : Opening
opening = record { joined = true; bitfield_sent = true; interest_sent = true; have = none }

abbrev accepted : Conn
accepted = record {
  peer_id = [];
  reserved = [];
  am_choking = true;
  am_interested = false;
  peer_choking = true;
  peer_interested = false;
  peer_bitfield = [];
}

abbrev quiet : Conn
quiet = record accepted { am_interested = true; peer_bitfield = 0 ∷ [] }

abbrev willing : Conn
willing = record quiet { peer_choking = false; peer_bitfield = 224 ∷ [] }

abbrev resumed_coordinator : Coordinator
resumed_coordinator = record {
  piece_count = 3;
  piece_length = 4;
  total_length = 10;
  piece_hashes = hashes;
  pieces = complete ∷ missing ∷ missing ∷ [];
  availability = pos 0 ∷ pos 0 ∷ pos 0 ∷ [];
  peers = [];
  assignments = λ _. [];
  endgame = false;
  results = [];
  duplicates = 0;
  rates = [];
  optimistic = none;
}

abbrev at_first : System
at_first = record {
  coordinator = resumed_coordinator;
  connections = [];
  pending = [];
  orphaned = [];
}

at_first-IsReachable : IsReachable head_hash 3 4 10 hashes at_first
unfolding mark_all mark_complete new_coordinator
at_first-IsReachable = started (0 ∷ []) resumed_coordinator refl

-- The connection to address 7, in this phase, with what it has to tell.
abbrev at_seven : Phase → List Event → List Connection
at_seven phase outbox = record { addr = 7; phase = phase; outbox = outbox } ∷ []

abbrev joined : System
joined = record at_first { connections = at_seven (idle quiet) (peer_joined 7 no_commands ∷ []) }

joined-IsReachable : IsReachable head_hash 3 4 10 hashes joined
unfolding begins introduce
joined-IsReachable = stepped at_first-IsReachable (joins at_first 7 opening accepted)

abbrev joined_told : System
joined_told = record joined {
  connections = at_seven (idle quiet) [];
  pending = peer_joined 7 no_commands ∷ [];
}

joined_told-IsReachable : IsReachable head_hash 3 4 10 hashes joined_told
unfolding delivers
joined_told-IsReachable = stepped joined-IsReachable (
    sends joined 0
      (record { addr = 7; phase = idle quiet; outbox = peer_joined 7 no_commands ∷ [] })
      (peer_joined 7 no_commands) [] refl refl)

abbrev new_peer : PeerInfo
new_peer = record {
  commands = no_commands;
  have = 0 ∷ [];
  assigned = none;
  interested = false;
  choked = true;
  peer_choking = true;
  got_bitfield = false;
}

abbrev known : System
known = record joined_told {
  coordinator = record resumed_coordinator { peers = (7, new_peer) ∷ [] };
  pending = [];
}

known-IsReachable : IsReachable head_hash 3 4 10 hashes known
unfolding handle handle_peer_joined handle_peer_left Dict.put Dict.lookup left_behind
known-IsReachable =
    stepped joined_told-IsReachable
      (handles joined_told env (peer_joined 7 no_commands) [] known.coordinator refl refl)

abbrev told_quiet : Conn
told_quiet = record quiet { peer_bitfield = 224 ∷ [] }

-- The bitfield, which has all pieces.
abbrev described : System
described = record known {
  connections = at_seven (idle told_quiet) (bitfield_received 7 (224 ∷ []) ∷ []);
}

described-IsReachable : IsReachable head_hash 3 4 10 hashes described
unfolding Dict.lookup proceeds Dict.put turn handle_message on_bitfield validate
described-IsReachable = stepped known-IsReachable (
    turns known 0 (record { addr = 7; phase = idle quiet; outbox = [] })
      (now_takes (arrives (message (record { id = pos 5; payload = 224 ∷ [] })))) refl refl refl)

abbrev described_told : System
described_told = record described {
  connections = at_seven (idle told_quiet) [];
  pending = bitfield_received 7 (224 ∷ []) ∷ [];
}

described_told-IsReachable : IsReachable head_hash 3 4 10 hashes described_told
unfolding delivers
described_told-IsReachable = stepped described-IsReachable (
    sends described 0
      (record { addr = 7; phase = idle told_quiet; outbox = bitfield_received 7 (224 ∷ []) ∷ [] })
      (bitfield_received 7 (224 ∷ [])) [] refl refl)

abbrev told_peer : PeerInfo
told_peer = record new_peer { have = 224 ∷ []; got_bitfield = true }

abbrev counted : System
counted = record described_told {
  coordinator = record resumed_coordinator {
    peers = (7, told_peer) ∷ [];
    availability = pos 1 ∷ pos 1 ∷ pos 1 ∷ [];
  };
  pending = [];
}

counted-IsReachable : IsReachable head_hash 3 4 10 hashes counted
unfolding handle handle_bitfield_received Dict.lookup try_assign add_availability Dict.put has_piece
    test_bit left_behind
counted-IsReachable =
    stepped described_told-IsReachable
      (handles described_told env (bitfield_received 7 (224 ∷ [])) [] counted.coordinator refl refl)

abbrev unchoked : System
unchoked = record counted { connections = at_seven (idle willing) (unchoke_received 7 ∷ []) }

unchoked-IsReachable : IsReachable head_hash 3 4 10 hashes unchoked
unfolding Dict.lookup proceeds Dict.put turn handle_message
unchoked-IsReachable = stepped counted-IsReachable (
    turns counted 0 (record { addr = 7; phase = idle told_quiet; outbox = [] })
      (now_takes (arrives (message (record { id = pos 1; payload = [] })))) refl refl refl)

abbrev unchoked_told : System
unchoked_told = record unchoked {
  connections = at_seven (idle willing) [];
  pending = unchoke_received 7 ∷ [];
}

unchoked_told-IsReachable : IsReachable head_hash 3 4 10 hashes unchoked_told
unfolding delivers
unchoked_told-IsReachable = stepped unchoked-IsReachable (
    sends unchoked 0 (record { addr = 7; phase = idle willing; outbox = unchoke_received 7 ∷ [] })
      (unchoke_received 7) [] refl refl)

abbrev order_1 : Command
order_1 = assign_piece 1 4 (replicate 20 2)

abbrev ordered_peer : PeerInfo
ordered_peer = record told_peer {
  commands = record { queue = order_1 ∷ []; cap = 1 };
  assigned = some 1;
  peer_choking = false;
}

abbrev ordered : System
ordered = record unchoked_told {
  coordinator = record counted.coordinator {
    peers = (7, ordered_peer) ∷ [];
    pieces = complete ∷ in_flight ∷ missing ∷ [];
    assignments = update (λ _. []) 1 (record { addr = 7; at = 0 } ∷ []);
  };
  pending = [];
}

ordered-IsReachable : IsReachable head_hash 3 4 10 hashes ordered
unfolding handle handle_unchoke_received Dict.lookup try_assign Dict.put select_loop select_step
    has_piece test_bit assign_piece_to Geometry.length has_room send left_behind
ordered-IsReachable =
    stepped unchoked_told-IsReachable
      (handles unchoked_told env (unchoke_received 7) [] ordered.coordinator refl refl)

-- The piece is asked for.
abbrev asked : Attempt
asked = record {
  conn = willing;
  buf = replicate 4 0;
  requested = true ∷ [];
  received = false ∷ [];
  outstanding = 1;
  remaining = 1;
}

abbrev asking : System
asking = record ordered {
  coordinator = record ordered.coordinator {
    peers = (7, record ordered_peer { commands = record { queue = []; cap = 1 } }) ∷ [];
  };
  connections = at_seven (busy (record { index = 1; length = 4 }) (replicate 20 2) asked) [];
}

asking-IsReachable : IsReachable head_hash 3 4 10 hashes asking
unfolding Dict.lookup proceeds take_command Dict.put turn start block_count Geometry.length div_i64
    wrap fill next_unrequested_block request_block block_bounds ◌-ℤ◌
asking-IsReachable = stepped ordered-IsReachable (
    obeys ordered 0 (record { addr = 7; phase = idle willing; outbox = [] })
      (now_takes (arrives (command order_1))) ordered_peer order_1 [] refl refl refl refl refl)

-- Its only block arrives.
abbrev answered : System
answered = record asking {
  connections =
      at_seven (idle willing) (piece_downloaded 7 1 (2 ∷ 0 ∷ 0 ∷ 0 ∷ []) ∷ peer_ready 7 ∷ []);
}

answered-IsReachable : IsReachable head_hash 3 4 10 hashes answered
unfolding Dict.lookup proceeds Dict.put turn on_input on_message parse_piece on_block verify
    bytes_eq copy_at
answered-IsReachable = stepped asking-IsReachable (
    turns asking 0
      (record {
        addr = 7;
        phase = busy (record { index = 1; length = 4 }) (replicate 20 2) asked;
        outbox = [];
      })
      (now_takes (
        arrives (
          message
            (record { id = pos 7; payload = 0 ∷ 0 ∷ 0 ∷ 1 ∷ 0 ∷ 0 ∷ 0 ∷ 0 ∷ 2 ∷ 0 ∷ 0 ∷ 0 ∷ [] }))))
      refl refl refl)

-- The coordinator may take the piece before the connection says that it is ready.
abbrev answered_told : System
answered_told = record answered {
  connections = at_seven (idle willing) (peer_ready 7 ∷ []);
  pending = piece_downloaded 7 1 (2 ∷ 0 ∷ 0 ∷ 0 ∷ []) ∷ [];
}

answered_told-IsReachable : IsReachable head_hash 3 4 10 hashes answered_told
unfolding delivers
answered_told-IsReachable = stepped answered-IsReachable (
    sends answered 0
      (record {
        addr = 7;
        phase = idle willing;
        outbox = piece_downloaded 7 1 (2 ∷ 0 ∷ 0 ∷ 0 ∷ []) ∷ peer_ready 7 ∷ [];
      })
      (piece_downloaded 7 1 (2 ∷ 0 ∷ 0 ∷ 0 ∷ [])) (peer_ready 7 ∷ []) refl refl)

abbrev handed_over : System
handed_over = record answered_told {
  coordinator = record answered.coordinator {
    peers =
        (7, record ordered_peer { commands = record { queue = []; cap = 1 }; assigned = none })
        ∷ [];
    pieces = complete ∷ complete ∷ missing ∷ [];
    assignments = update (update (λ _. []) 1 (record { addr = 7; at = 0 } ∷ [])) 1 [];
    results = second ∷ [];
  };
  pending = [];
}

handed_over-IsReachable : IsReachable head_hash 3 4 10 hashes handed_over
unfolding handle handle_piece_downloaded finish_piece set_idle Dict.lookup cancel_other_assignees
    cancel_all cancel_one Dict.put left_behind
handed_over-IsReachable = stepped answered_told-IsReachable (
    handles answered_told env (piece_downloaded 7 1 (2 ∷ 0 ∷ 0 ∷ 0 ∷ [])) [] handed_over.coordinator
      refl refl)

results-IsVerified_example : All (IsVerified head_hash three_pieces hashes) (second ∷ [])
results-IsVerified_example =
    results-IsVerified three_pieces hashes head_hash refl handed_over handed_over-IsReachable

second_held :
    has (state_of (loop port_of cfg (piece_arrived second 70 true none ∷ []) entered)).have 1 ≡ true
unfolding has has_piece loop write_piece Geometry.range Geometry.length write_at mul_i64 wrap
    set_have set_piece test_bit set_bit
second_held = refl

client-Intact_example :
    Intact head_hash three_pieces hashes
      (state_of (loop port_of cfg (piece_arrived second 70 true none ∷ []) entered)).file
      1
client-Intact_example =
    client-Intact head_hash port_of cfg three_pieces hashes handed_over 50 60 (1 ∷ 9 ∷ []) order
      (some answer) (piece_arrived second 70 true none ∷ []) refl handed_over-IsReachable
      order-IsSchedule begun announced ((0, refl), tt) 1 (omega arith) second_held
