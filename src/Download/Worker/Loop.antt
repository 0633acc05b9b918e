-- ===== src/Download/Worker/Loop.antt =====
-- internal/download/worker.go, the select of runConnection and what it calls, with Piece and the loop
-- of downloadBlocks of internal/download/piece.go. What the selects take comes as a list of turns; a
-- loop within a loop is a phase of one machine, which stands where the code waits. The log has what
-- others see of the connection, except the requests for blocks and the counts of bytes and rates.
use p2p_file_distribution.Base.{
  ℕ, ◌==◌, if◌then◌else◌, Bool, true, false, List, [], ◌∷◌, ◌++◌, Option, none, some, Result, ok,
  err, panic,
}
use p2p_file_distribution.Base.Int.{eq_ℤ}
use p2p_file_distribution.Base.Bytes.{Bytes}
use p2p_file_distribution.Piece.Verify
use p2p_file_distribution.Piece.Verify.{verify}
use p2p_file_distribution.Peer.MessageId
use p2p_file_distribution.Peer.Message.{Message}
use p2p_file_distribution.Peer.Conn.{Conn}
use p2p_file_distribution.Download.Command.{
  Command, assign_piece, cancel_piece, pause, shutdown, Event, peer_ready, piece_downloaded,
  piece_failed, choke_received, unchoke_received,
}
use p2p_file_distribution.Download.Serve.{Served}
use p2p_file_distribution.Download.Session.{Seed, Reaction, handle_message, apply_command}
use p2p_file_distribution.Download.Assembly
use p2p_file_distribution.Download.Assembly.{
  Peer, Work, Attempt, Failure, message, command, messages_closed, commands_closed, backlog_limit,
  start, fill, on_input, cancelled, shut_down, timed_out,
}

-- What others see: events that reach the coordinator, messages to the peer, and calls on Progress.
pub data Output : Type 0 where
  told : (event : Event) → Output
  sent_bitfield : (have : Bytes) → Output
  sent_have : (index : ℕ) → Output
  sent_block : (served : Served) → Output
  sent_interested attempted succeeded connected disconnected bad_hash recovered : Output

-- What a select takes, the timer of the piece and the end of the context included.
pub data Input : Type 0 where
  arrives : (input : Assembly.Input) → Input
  deadline context_done : Input

-- One turn: what we have on disk then, whether an event of the turn reaches the coordinator before the
-- shutdown, a PeerReady behind it too, and whether writes to the connection succeed.
pub record Turn : Type 0 where
  pub input : Input
  pub seed : Option Seed
  pub delivered : Bool
  pub ready : Bool
  pub sent : Bool

-- Where the connection waits: for a command or a message, or for a block of the piece that it downloads;
-- or runConnection has returned, or panicked.
pub data Phase : Type 0 where
  idle : (conn : Conn) → Phase
  busy : (work : Work) (expected_hash : Bytes) (a : Attempt) → Phase
  ended crashed : Phase

unfoldable pub tell : Bool → Event → List Output
tell delivered event = if delivered then told event ∷ [] else []

-- What handleMessage tells and serves.
unfoldable pub block_of : Option Served → List Output
block_of none = []
block_of (some served) = sent_block served ∷ []

unfoldable pub event_of : Bool → Option Event → List Output
event_of keep none = []
event_of keep (some event) = if keep then told event ∷ [] else []

unfoldable pub reaction_log : Reaction → List Output
unfolding event_of block_of
reaction_log r = event_of r.keep r.event ++ block_of r.served

-- What downloadBlocks tells while it handles an input.
unfoldable pub heard : Peer → Message → Conn → List Output
unfolding tell reaction_log
heard peer m conn =
    if eq_ℤ m.id MessageId.piece
    then []
    else if eq_ℤ m.id MessageId.choke
    then tell peer.delivered (choke_received peer.addr)
    else if eq_ℤ m.id MessageId.unchoke
    then tell peer.delivered (unchoke_received peer.addr)
    else reaction_log
        (handle_message peer.addr peer.piece_count peer.seed peer.delivered peer.sent m conn)

unfoldable pub heard_input : Peer → Assembly.Input → Conn → List Output
unfolding heard
heard_input peer (message m) conn = heard peer m conn
heard_input peer _ conn = []

unfoldable pub peer_of : ℕ → ℕ → Turn → Peer
peer_of addr piece_count t = record {
  addr = addr;
  piece_count = piece_count;
  seed = t.seed;
  delivered = t.delivered;
  sent = t.sent;
}

-- The end of a command: PeerReady, and on with the loop.
unfoldable pub ready_for_more : ℕ → Conn → Bool → Phase × List Output
unfolding tell
ready_for_more addr conn delivered =
    (if delivered then idle conn else ended, tell delivered (peer_ready addr))

module _ (sha1 : Bytes → Bytes) (addr piece_count : ℕ) where
  -- The end of the connection, which another worker takes over from.
  unfoldable pub give_up : Turn → ℕ → Phase × List Output
  unfolding tell
  give_up t index = (ended, tell t.delivered (piece_failed addr index))

  -- The piece did not come: nothing to do when someone else has finished it.
  unfoldable pub failed : Turn → Work → Failure → Conn → Phase × List Output
  unfolding ready_for_more give_up
  failed t work cancelled conn = ready_for_more addr conn t.ready
  failed t work shut_down conn = (ended, [])
  failed t work _ conn = give_up t work.index

  -- The piece is there: a Have for the peer, whether or not it can be sent, and the bytes for the
  -- coordinator.
  unfoldable pub downloaded : Turn → Work → Bytes → Conn → Phase × List Output
  unfolding ready_for_more
  downloaded t work content conn =
      let have : List Output = if t.sent then sent_have work.index ∷ [] else [] in
      let next = ready_for_more addr conn t.ready in
      if t.delivered
      then (next.0, have ++ told (piece_downloaded addr work.index content) ∷ next.1)
      else (ended, have)

  -- The hash test of Piece.
  unfoldable pub tested :
      Turn → Work → Bytes → Conn → Result Verify.Error Bool → Phase × List Output
  unfolding downloaded give_up
  tested t work content conn (ok same) =
      let failure = give_up t work.index in
      if same then downloaded t work content conn else (failure.0, bad_hash ∷ failure.1)
  tested t work content conn (err e) = give_up t work.index
  tested t work content conn panic = (crashed, [])

  -- On to the next turn, with as many requests sent as the backlog allows.
  unfoldable pub waits : Turn → Work → Bytes → Conn → Result Failure Attempt → Phase × List Output
  unfolding failed
  waits t work hash conn (ok a) = (busy work hash a, [])
  waits t work hash conn (err e) = failed t work e conn
  waits t work hash conn panic = (crashed, [])

  -- The head of the loop of downloadBlocks, `for remaining > 0`.
  unfoldable pub proceed : Turn → Work → Bytes → Conn → Result Failure Attempt → Phase × List Output
  unfolding tested waits failed
  proceed t work hash conn (ok a) =
      let waiting =
        waits t work hash a.conn (fill (peer_of addr piece_count t) work backlog_limit a) in
      if a.remaining == 0 then tested t work a.buf a.conn (verify sha1 a.buf hash) else waiting
  proceed t work hash conn (err e) = failed t work e conn
  proceed t work hash conn panic = (crashed, [])

  unfoldable pub assign : Turn → ℕ → ℕ → Bytes → Conn → Phase × List Output
  unfolding proceed
  assign t index len hash conn =
      let work : Work = record { index = index; length = len } in
      proceed t work hash conn (start work conn)

  -- A choke or an unchoke, outside a piece.
  unfoldable pub obeyed : Conn × Bool → Phase × List Output
  obeyed (conn, true) = (idle conn, [])
  obeyed (conn, false) = (ended, [])

  unfoldable pub on_command : Turn → Command → Conn → Phase × List Output
  unfolding assign obeyed
  on_command t (assign_piece index len hash) conn = assign t index len hash conn
  on_command t (cancel_piece index) conn = (idle conn, [])
  on_command t pause conn = (idle conn, [])
  on_command t shutdown conn = (ended, [])
  on_command t cmd conn = obeyed (apply_command cmd t.sent conn)

  unfoldable pub on_message : Turn → Message → Conn → Phase × List Output
  unfolding reaction_log
  on_message t m conn =
      let r = handle_message addr piece_count t.seed t.delivered t.sent m conn in
      (if r.keep then idle r.conn else ended, reaction_log r)

  -- The select of runConnection.
  unfoldable pub on_idle : Turn → Input → Conn → Phase × List Output
  unfolding on_command on_message
  on_idle t (arrives (message m)) conn = on_message t m conn
  on_idle t (arrives (command cmd)) conn = on_command t cmd conn
  on_idle t (arrives messages_closed) conn = (ended, [])
  on_idle t (arrives commands_closed) conn = (ended, [])
  on_idle t deadline conn = (idle conn, [])
  on_idle t context_done conn = (ended, [])

  -- The select of downloadBlocks, which does not look at the context.
  unfoldable pub on_busy : Turn → Work → Bytes → Attempt → Input → Phase × List Output
  unfolding proceed heard_input failed
  on_busy t work hash a (arrives input) =
      let peer = peer_of addr piece_count t in
      let next = proceed t work hash a.conn (on_input peer work input a) in
      (next.0, heard_input peer input a.conn ++ next.1)
  on_busy t work hash a deadline = failed t work timed_out a.conn
  on_busy t work hash a context_done = (busy work hash a, [])

  unfoldable pub turn : Phase → Turn → Phase × List Output
  unfolding on_idle on_busy peer_of heard event_of block_of tell
  turn (idle conn) t = on_idle t t.input conn
  turn (busy work hash a) t = on_busy t work hash a t.input
  turn ended t = (ended, [])
  turn crashed t = (crashed, [])

  unfoldable pub turns : Phase → List Turn → Phase × List Output
  unfolding turn
  turns s [] = (s, [])
  turns s (t ∷ ts) = let now = turn s t in let later = turns now.0 ts in (later.0, now.1 ++ later.1)
