-- ===== src/Download/Assembly.antt =====
-- internal/download/piece.go: one piece, assembled from blocks that come in any order. What arrives
-- before the deadline is a list of inputs. `delivered` and `sent` are as in Download/Session. The events
-- that go to the coordinator meanwhile are left out.
pub mod Counting
pub mod Complete
pub mod Tests
use p2p_file_distribution.Base.{
  ℕ, zero, suc, ◌+◌, ◌-◌, ◌/◌, ◌%◌, leb, ltb, ◌==◌, if◌then◌else◌, Bool, true, false, not, ◌||◌,
  List, [], ◌∷◌, length, set, replicate, get_or, Option, none, some, Result, ok, err, panic, ◌>>=◌,
  map_err,
}
use p2p_file_distribution.Base.Int.{ℤ, pos, negsuc, eq_ℤ}
use p2p_file_distribution.Base.Bytes.{Bytes}
use p2p_file_distribution.Piece.Geometry
use p2p_file_distribution.Piece.Geometry.{block_size, block_count, block_bounds}
use p2p_file_distribution.Peer.MessageId
use p2p_file_distribution.Peer.Message.{Message}
use p2p_file_distribution.Peer.Payload
use p2p_file_distribution.Peer.Payload.{PiecePayload, parse_piece}
use p2p_file_distribution.Download.Command.{Command, cancel_piece, shutdown}
use p2p_file_distribution.Peer.Conn.{Conn}
use p2p_file_distribution.Download.Session.{Seed, handle_message, apply_command}

-- Why a download of a piece ends without its bytes.
pub data Failure : Type 0 where
  connection_closed handler_closed cancelled shut_down timed_out request_failed : Failure
  geometry : Geometry.Error → Failure
  payload : Payload.Error → Failure

-- What the connection is: s.addr, s.pieceCount, s.seed, and whether its sends succeed.
pub record Peer : Type 0 where
  pub addr : ℕ
  pub piece_count : ℕ
  pub seed : Option Seed
  pub delivered : Bool
  pub sent : Bool

-- work.Index and work.Length
pub record Work : Type 0 where
  pub index : ℕ
  pub length : ℕ

-- The local variables of downloadBlocks.
pub record Attempt : Type 0 where
  pub conn : Conn
  pub buf : Bytes
  pub requested : List Bool
  pub received : List Bool
  pub outstanding : ℕ
  pub remaining : ℕ

pub data Input : Type 0 where
  message : Message → Input
  command : Command → Input
  messages_closed commands_closed : Input

abbrev pub backlog_limit : ℕ
backlog_limit = 5

-- copy(buf[offset:], content)
unfoldable pub copy_at : ℕ → Bytes → Bytes → Bytes
copy_at offset content [] = []
copy_at zero [] (b ∷ buf) = b ∷ buf
copy_at zero (c ∷ content) (b ∷ buf) = c ∷ copy_at zero content buf
copy_at (suc offset) content (b ∷ buf) = b ∷ copy_at offset content buf

unfoldable pub next_unrequested_block : List Bool → Option ℕ
next_unrequested_block [] = none
next_unrequested_block (r ∷ requested) =
    let rest = next_unrequested_block requested in
    if r then (elim rest [ none ↦ none | some i ↦ some (suc i) ]) else some 0

-- The blocks of the piece, all of them still to come.
unfoldable pub attempt_of : Conn → ℕ → ℤ → Result Failure Attempt
attempt_of conn len (negsuc n) = panic
attempt_of conn len (pos blocks) = ok (record {
  conn = conn;
  buf = replicate len 0;
  requested = replicate blocks false;
  received = replicate blocks false;
  outstanding = 0;
  remaining = blocks;
})

unfoldable pub start : Work → Conn → Result Failure Attempt
unfolding attempt_of
start work conn =
    map_err geometry (block_count (pos 0) 1 work.length work.length) >>= attempt_of conn work.length

-- The request for one block.
unfoldable pub request_block : Peer → Work → Attempt → ℕ → Result Failure Attempt
request_block peer work a next =
    map_err geometry (block_bounds (pos 0) (pos next) 1 work.length work.length) >>= λ _.
    if peer.sent
    then ok (record a { requested = set a.requested next true; outstanding = a.outstanding + 1 })
    else err request_failed

-- The inner loop: each round adds to `outstanding`, so backlogLimit bounds the rounds.
unfoldable pub fill : Peer → Work → ℕ → Attempt → Result Failure Attempt
fill peer work zero a = ok a
fill peer work (suc rounds) a =
    if a.conn.peer_choking || leb backlog_limit a.outstanding
    then ok a
    else elim (next_unrequested_block a.requested) [
      | none ↦ ok a
      | some next ↦ request_block peer work a next >>= fill peer work rounds
    ]

-- The block of a message for this piece, whose slot exists.
unfoldable pub store_block : PiecePayload → Attempt → Attempt
store_block p a =
    let block = p.begin / block_size in
    let a' : Attempt = record a { outstanding = a.outstanding - 1 } in
    if get_or a.received block false then a' else record a' {
      buf = copy_at p.begin p.block a.buf;
      received = set a.received block true;
      requested = set a.requested block true;
      remaining = a.remaining - 1;
    }

unfoldable pub on_block : Work → PiecePayload → Attempt → Attempt
unfolding store_block
on_block work p a =
    if not (p.index == work.index)
    then a
    else if not (p.begin % block_size == 0)
    then a
    else if leb (length a.received) (p.begin / block_size)
    then a
    else store_block p a

-- What was asked for and did not come has to be asked for again.
unfoldable pub on_choke : Attempt → Attempt
on_choke a = record a {
  conn = record a.conn { peer_choking = true };
  outstanding = 0;
  requested = a.received;
}

unfoldable pub on_unchoke : Attempt → Attempt
on_unchoke a = record a { conn = record a.conn { peer_choking = false } }

unfoldable pub on_other : Peer → Message → Attempt → Result Failure Attempt
on_other peer m a =
    let r = handle_message peer.addr peer.piece_count peer.seed peer.delivered peer.sent m a.conn in
    if r.keep then ok (record a { conn = r.conn }) else err handler_closed

unfoldable pub on_message : Peer → Work → Message → Attempt → Result Failure Attempt
on_message peer work m a =
    if eq_ℤ m.id MessageId.piece
    then map_err payload (parse_piece m.payload peer.piece_count work.length)
      >>= (λ p. ok (on_block work p a))
    else if eq_ℤ m.id MessageId.choke
    then (if peer.delivered then ok (on_choke a) else err shut_down)
    else if eq_ℤ m.id MessageId.unchoke
    then (if peer.delivered then ok (on_unchoke a) else err shut_down)
    else on_other peer m a

-- A command that is neither a cancel nor a shutdown.
unfoldable pub applied : Conn × Bool → Attempt → Result Failure Attempt
applied (conn, true) a = ok (record a { conn = conn })
applied (conn, false) a = err handler_closed

unfoldable pub on_command : Peer → Work → Command → Attempt → Result Failure Attempt
on_command peer work (cancel_piece index) a = if index == work.index then err cancelled else ok a
on_command peer work shutdown a = err shut_down
on_command peer work cmd a = applied (apply_command cmd peer.sent a.conn) a

unfoldable pub on_input : Peer → Work → Input → Attempt → Result Failure Attempt
on_input peer work (message m) a = on_message peer work m a
on_input peer work (command cmd) a = on_command peer work cmd a
on_input peer work messages_closed a = err connection_closed
on_input peer work commands_closed a = err shut_down

-- The loop `for remaining > 0`; the deadline passes when the inputs are used up.
unfoldable pub run : Peer → Work → List Input → Attempt → Result Failure Attempt
run peer work [] a =
    if a.remaining == 0 then ok a else (fill peer work backlog_limit a >>= (λ b. err timed_out))
run peer work (input ∷ inputs) a =
    if a.remaining == 0
    then ok a
    else fill peer work backlog_limit a
      >>= (λ b. on_input peer work input b >>= run peer work inputs)

unfoldable pub download_blocks : Peer → Work → List Input → Conn → Result Failure Bytes
download_blocks peer work inputs conn =
    start work conn >>= (λ a. run peer work inputs a >>= (λ b. ok b.buf))
