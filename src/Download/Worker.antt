-- ===== src/Download/Worker.antt =====
-- internal/download/worker.go: one connection, from the dial or the accept to its end (worker,
-- serveIncoming, runConnection). Its loop is in Worker/Loop.
pub mod Loop
pub mod Speech
pub mod Sound
pub mod Order
pub mod Agrees
pub mod Tests
use p2p_file_distribution.Base.{
  ℕ, ltb, ◌==◌, if◌then◌else◌, Bool, true, false, not, ◌&&◌, List, [], ◌∷◌, ◌++◌, Option, none,
  some, Result, ok, err, panic,
}
use p2p_file_distribution.Base.Int.{eq_ℤ}
use p2p_file_distribution.Base.Bytes.{Bytes}
use p2p_file_distribution.Piece.Verify
use p2p_file_distribution.Piece.Verify.{verify}
use p2p_file_distribution.Peer.MessageId
use p2p_file_distribution.Peer.Message.{Message}
use p2p_file_distribution.Peer.Bitfield.{empty_for}
use p2p_file_distribution.Peer.Conn.{Conn}
use p2p_file_distribution.Peer.Connect
use p2p_file_distribution.Peer.Connect.{Socket, dial_peer, accept}
use p2p_file_distribution.Download.Command.{
  Command, assign_piece, cancel_piece, pause, shutdown, Channel, Event, peer_joined, peer_left,
  peer_ready, piece_downloaded, piece_failed, choke_received, unchoke_received,
}
use p2p_file_distribution.Download.Have.{snapshot, count_have}
use p2p_file_distribution.Download.Serve.{Served}
use p2p_file_distribution.Download.Session.{Seed, Reaction, handle_message, apply_command}
use p2p_file_distribution.Download.Assembly
use p2p_file_distribution.Download.Assembly.{
  Peer, Work, Attempt, Failure, message, command, messages_closed, commands_closed, backlog_limit,
  start, fill, on_input, cancelled, shut_down, timed_out,
}
use p2p_file_distribution.Download.Progress.{
  Tracked, connect_attempted, connect_succeeded, peer_connected, peer_disconnected, hash_failed,
  panic_recovered,
}
use p2p_file_distribution.Download.Worker.Loop.{
  Output, told, sent_bitfield, sent_have, sent_block, Input, arrives, Turn, Phase, idle, busy, tell,
  block_of, event_of, reaction_log, heard, heard_input, peer_of, ready_for_more, give_up, failed,
  downloaded, tested, waits, proceed, assign, obeyed, on_command, on_message, on_idle, on_busy,
  turn, turns, told, sent_bitfield, sent_have, sent_block, sent_interested, attempted, succeeded,
  connected, disconnected, bad_hash, recovered, arrives, deadline, context_done, idle, busy, ended,
  crashed,
}

-- The beginning: whether PeerJoined and the two messages go out, and what we have, when we serve at all,
-- taken once although the code looks at it three times.
pub record Opening : Type 0 where
  pub joined : Bool
  pub bitfield_sent : Bool
  pub interest_sent : Bool
  pub have : Option Bytes

-- A channel of one command, which is empty.
abbrev pub no_commands : Channel
no_commands = record { queue = []; cap = 1 }

declare_interest : Opening → Conn → List Output → Phase × List Output
declare_interest o conn before =
    if o.interest_sent
    then (idle (record conn { am_interested = true }), before ++ sent_interested ∷ [])
    else (ended, before)

-- Interest is declared when a piece is missing.
declare_need : ℕ → Opening → Bytes → Conn → List Output → Phase × List Output
unfolding declare_interest
declare_need piece_count o have conn before =
    if ltb (count_have have) piece_count
    then declare_interest o conn before
    else (idle conn, before)

unfoldable pub introduce : ℕ → Opening → Option Bytes → Conn → Phase × List Output
unfolding declare_interest declare_need
introduce piece_count o none conn = declare_interest o conn []
introduce piece_count o (some have) conn =
    if ltb 0 (count_have have)
    then if o.bitfield_sent
      then declare_need piece_count o have conn (sent_bitfield (snapshot have) ∷ [])
      else (ended, [])
    else declare_need piece_count o have conn []

-- The deferred PeerLeft and the recovery of a panic, once the loop is over.
pub is_over : Phase → Bool
is_over (idle conn) = false
is_over (busy work hash a) = false
is_over ended = true
is_over crashed = true

pub recovery : Phase → List Output
recovery crashed = recovered ∷ []
recovery _ = []

pub farewell : ℕ → Bool → Phase → List Output
unfolding tell recovery is_over
farewell addr left s =
    if is_over s then tell left (peer_left addr) ++ disconnected ∷ recovery s else []

module _ (sha1 : Bytes → Bytes) (addr piece_count : ℕ) where
  -- The connection behind PeerJoined: what it sends first, and its loop.
  unfoldable pub body : Opening → List Turn → Conn → Phase × List Output
  unfolding introduce turns
  body o ts conn =
      let conn' : Conn = record conn { peer_bitfield = empty_for piece_count } in
      let first = introduce piece_count o o.have conn' in
      let rest = turns sha1 addr piece_count first.0 ts in (rest.0, first.1 ++ rest.1)

  -- runConnection, with the panic that its callers recover. `left` says whether PeerLeft still reaches
  -- the coordinator; the log of a connection that goes on has no end.
  unfoldable pub run_connection : Opening → List Turn → Bool → Conn → List Output
  unfolding body farewell
  run_connection o ts left conn =
      let ran = body o ts conn in
      connected
      ∷ (if not o.joined
          then disconnected ∷ []
          else told (peer_joined addr no_commands) ∷ ran.1 ++ farewell addr left ran.0)

  dialled : Opening → List Turn → Bool → Result Connect.Error Conn → List Output
  unfolding run_connection
  dialled o ts left (ok conn) = succeeded ∷ run_connection o ts left conn
  dialled o ts left (err e) = []
  dialled o ts left panic = recovered ∷ []

  unfoldable pub worker : Option Socket → Bytes → Bytes → Opening → List Turn → Bool → List Output
  unfolding dialled
  worker s info_hash peer_id o ts left =
      attempted ∷ dialled o ts left (dial_peer s info_hash peer_id).result

  -- serveIncoming, on a connection that Accept has returned.
  unfoldable pub serve_incoming : Opening → List Turn → Bool → Conn → List Output
  unfolding run_connection
  serve_incoming o ts left conn = run_connection o ts left conn

-- The events of a log that reach the coordinator.
unfoldable pub events_of : List Output → List Event
events_of [] = []
events_of (told event ∷ log) = event ∷ events_of log
events_of (_ ∷ log) = events_of log

-- What the log adds to the counters of the run.
count_output : Output → Tracked → Tracked
count_output attempted p = connect_attempted p
count_output succeeded p = connect_succeeded p
count_output connected p = peer_connected p
count_output disconnected p = peer_disconnected p
count_output bad_hash p = hash_failed p
count_output recovered p = panic_recovered p
count_output _ p = p

unfoldable pub count_log : List Output → Tracked → Tracked
unfolding count_output
count_log [] p = p
count_log (o ∷ log) p = count_log log (count_output o p)
