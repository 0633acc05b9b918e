-- ===== src/Download/Worker/Speech.antt =====
-- What a connection reports, for any contract on what it is told.
pub mod Turns
use p2p_file_distribution.Base.{
  ℕ, ◌<◌, ltb, not, ◌==◌, if◌then◌else◌, Bool, true, false, List, [], ◌∷◌, ◌++◌, length, get_elem?,
  Option, none, some, Result, ok, err, panic, ◌≡◌, refl, sym, ap, ◌∙◌, arith, if_elim,
}
use mathlib.Core.Path.{subst}
use p2p_file_distribution.Base.Int.{eq_ℤ}
use p2p_file_distribution.Base.Bytes.{Bytes, All}
use p2p_file_distribution.Piece.Geometry.Bounds.{IsGeometry, bytes_of}
use p2p_file_distribution.Piece.Verify
use p2p_file_distribution.Piece.Verify.{verify, verify-true}
use p2p_file_distribution.Peer.MessageId
use p2p_file_distribution.Peer.Message.{Message}
use p2p_file_distribution.Peer.Bitfield.{validate, empty_for}
use p2p_file_distribution.Peer.Payload.{parse_have}
use p2p_file_distribution.Peer.Conn.{Conn}
use p2p_file_distribution.Download.Command.{
  Command, assign_piece, cancel_piece, pause, shutdown, choke_peer, unchoke_peer, Event,
  peer_joined, bitfield_received, have_received, piece_downloaded, piece_failed, peer_ready,
  peer_left, interested_received, not_interested_received, choke_received, unchoke_received,
}
use p2p_file_distribution.Download.Have.{snapshot, count_have}
use p2p_file_distribution.Download.Serve.{Served, serve_request}
use p2p_file_distribution.Download.Session.{
  Seed, Reaction, handle_message, apply_command, on_bitfield, on_have, on_request,
}
use p2p_file_distribution.Download.Assembly
use p2p_file_distribution.Download.Assembly.{
  Peer, Work, Attempt, Failure, message, command, messages_closed, commands_closed, backlog_limit,
  start, fill, on_input, cancelled, shut_down, timed_out, connection_closed, handler_closed,
  request_failed, geometry, payload,
}
use p2p_file_distribution.Download.Assembly.Counting.{IsCounted, Keeps, fill-Keeps, on_input-Keeps}
use p2p_file_distribution.Download.Assembly.Complete.{start-Keeps}
use p2p_file_distribution.Download.Coordinator.State.{PieceResult}
use p2p_file_distribution.Download.Main.Loop.Verified.{IsVerified}
use p2p_file_distribution.Download.Worker.Loop.{
  Output, told, sent_bitfield, sent_have, sent_block, sent_interested, attempted, succeeded,
  connected, disconnected, bad_hash, recovered, Input, arrives, deadline, context_done, Turn, Phase,
  idle, busy, ended, crashed, tell, block_of, event_of, reaction_log, heard, heard_input, peer_of,
  ready_for_more, give_up, failed, downloaded, tested, waits, proceed, assign, obeyed, on_command,
  on_message, on_idle, on_busy, turn, turns,
}
use p2p_file_distribution.Download.Worker.{
  Opening, declare_interest, declare_need, introduce, farewell, is_over, recovery, run_connection,
}

pub append-All : (P : Output → Type 0) (a b : List Output) → All P a → All P b → All P (a ++ b)
append-All P [] b h k = k
append-All P (x ∷ a) b h k = (h.0, append-All P a b h.1 k)

-- What a connection may be told to download, and what it may then report: `Says` holds of every event
-- that a connection with this address reports in its loop.
pub record Contract (sha1 : Bytes → Bytes) (addr : ℕ) : Type 1 where
  pub Listed : ℕ → ℕ → Bytes → Type 0
  pub Says : Event → Type 0
  pub bitfield : (have : Bytes) → Says (bitfield_received addr have)
  pub have : (index : ℕ) → Says (have_received addr index)
  pub failed : (index : ℕ) → Says (piece_failed addr index)
  pub ready : Says (peer_ready addr)
  pub interested : Says (interested_received addr)
  pub not_interested : Says (not_interested_received addr)
  pub choke : Says (choke_received addr)
  pub unchoke : Says (unchoke_received addr)
  pub piece :
      (index len : ℕ) (hash content : Bytes)
      → Listed index len hash
      → length content ≡ len
      → verify sha1 content hash ≡ ok true
      → Says (piece_downloaded addr index content)

module _ {sha1 : Bytes → Bytes} {addr : ℕ} (k : Contract sha1 addr) where
  abbrev pub IsAllowed : Command → Type 0
  IsAllowed (assign_piece index len hash) = k.Listed index len hash
  IsAllowed _ = Unit {0}

  abbrev pub IsAllowedInput : Input → Type 0
  IsAllowedInput (arrives (command cmd)) = IsAllowed cmd
  IsAllowedInput _ = Unit {0}

  abbrev pub AreAllowed : List Turn → Type 0
  AreAllowed ts = All (λ (t : Turn). IsAllowedInput t.input) ts

  -- The loop does not touch the counters of connections.
  abbrev pub IsSaid : Output → Type 0
  IsSaid (told event) = k.Says event
  IsSaid attempted = ⊥
  IsSaid succeeded = ⊥
  IsSaid connected = ⊥
  IsSaid disconnected = ⊥
  IsSaid recovered = ⊥
  IsSaid _ = Unit {0}

  -- The piece that a connection is at is a listed one, and its buffer has the size.
  abbrev pub PhaseOk : Phase → Type 0
  PhaseOk (busy work hash a) = k.Listed work.index work.length hash × IsCounted work.length a
  PhaseOk _ = Unit {0}

  abbrev pub StepOk : Phase × List Output → Type 0
  StepOk r = PhaseOk r.0 × All IsSaid r.1

module _ (sha1 : Bytes → Bytes) (addr pc : ℕ) (k : Contract sha1 addr) where
  pub tell-All : (b : Bool) (e : Event) → k.Says e → All (IsSaid k) (tell b e)
  unfolding tell
  tell-All true e h = (h, tt)
  tell-All false e h = tt

  ready_for_more-StepOk : (conn : Conn) (b : Bool) → StepOk k (ready_for_more addr conn b)
  unfolding ready_for_more tell
  ready_for_more-StepOk conn true = (tt, (k.ready, tt))
  ready_for_more-StepOk conn false = (tt, tt)

  give_up-StepOk : (t : Turn) (i : ℕ) → StepOk k (give_up sha1 addr pc t i)
  unfolding give_up
  give_up-StepOk t i = (tt, tell-All t.delivered (piece_failed addr i) (k.failed i))

  pub failed-StepOk :
      (t : Turn) (work : Work) (e : Failure) (conn : Conn)
      → StepOk k (failed sha1 addr pc t work e conn)
  unfolding failed
  failed-StepOk t work cancelled conn = ready_for_more-StepOk conn t.ready
  failed-StepOk t work shut_down conn = (tt, tt)
  failed-StepOk t work connection_closed conn = give_up-StepOk t work.index
  failed-StepOk t work handler_closed conn = give_up-StepOk t work.index
  failed-StepOk t work timed_out conn = give_up-StepOk t work.index
  failed-StepOk t work request_failed conn = give_up-StepOk t work.index
  failed-StepOk t work (geometry e) conn = give_up-StepOk t work.index
  failed-StepOk t work (payload e) conn = give_up-StepOk t work.index

  downloaded-StepOk :
      (t : Turn) (work : Work) (content : Bytes) (conn : Conn)
      → k.Says (piece_downloaded addr work.index content)
      → StepOk k (downloaded sha1 addr pc t work content conn)
  unfolding downloaded
  downloaded-StepOk t work content conn v =
      let have : List Output = if t.sent then sent_have work.index ∷ [] else [] in
      let quiet : All (IsSaid k) have = if_elim (All (IsSaid k)) t.sent (λ _. (tt, tt)) (λ _. tt) in
      let more = ready_for_more-StepOk conn t.ready in
      if_elim (StepOk k) t.delivered (λ _. (more.0, append-All (IsSaid k) have _ quiet (v, more.1)))
        (λ _. (tt, quiet))

  tested-StepOk :
      (t : Turn) (work : Work) (hash content : Bytes) (conn : Conn) (r : Result Verify.Error Bool)
      → k.Listed work.index work.length hash
      → length content ≡ work.length
      → verify sha1 content hash ≡ r
      → StepOk k (tested sha1 addr pc t work content conn r)
  unfolding tested
  tested-StepOk t work hash content conn (ok true) l size e =
      downloaded-StepOk t work content conn (k.piece work.index work.length hash content l size e)
  tested-StepOk t work hash content conn (ok false) l size e =
      let quiet = give_up-StepOk t work.index in (quiet.0, (tt, quiet.1))
  tested-StepOk t work hash content conn (err _) l size e = give_up-StepOk t work.index
  tested-StepOk t work hash content conn panic l size e = (tt, tt)

  waits-StepOk :
      (t : Turn) (work : Work) (hash : Bytes) (conn : Conn) (r : Result Failure Attempt)
      → k.Listed work.index work.length hash
      → Keeps work.length r
      → StepOk k (waits sha1 addr pc t work hash conn r)
  unfolding waits
  waits-StepOk t work hash conn (ok a) l h = ((l, h), tt)
  waits-StepOk t work hash conn (err e) l h = failed-StepOk t work e conn
  waits-StepOk t work hash conn panic l h = (tt, tt)

  pub proceed-StepOk :
      (t : Turn) (work : Work) (hash : Bytes) (conn : Conn) (r : Result Failure Attempt)
      → k.Listed work.index work.length hash
      → Keeps work.length r
      → StepOk k (proceed sha1 addr pc t work hash conn r)
  unfolding proceed
  proceed-StepOk t work hash conn (ok a) l h =
      if_elim (StepOk k) (a.remaining == 0)
        (λ _. tested-StepOk t work hash a.buf a.conn (verify sha1 a.buf hash) l h.buffer refl)
        (λ _.
          waits-StepOk t work hash a.conn (fill (peer_of addr pc t) work backlog_limit a) l
            (fill-Keeps work.length (peer_of addr pc t) work backlog_limit a h))
  proceed-StepOk t work hash conn (err e) l h = failed-StepOk t work e conn
  proceed-StepOk t work hash conn panic l h = (tt, tt)

  obeyed-StepOk : (r : Conn × Bool) → StepOk k (obeyed sha1 addr pc r)
  unfolding obeyed
  obeyed-StepOk (conn, true) = (tt, tt)
  obeyed-StepOk (conn, false) = (tt, tt)

  pub on_command-StepOk :
      (t : Turn) (cmd : Command) (conn : Conn)
      → IsAllowed k cmd
      → StepOk k (on_command sha1 addr pc t cmd conn)
  unfolding on_command assign
  on_command-StepOk t (assign_piece index len hash) conn l =
      proceed-StepOk t (record { index = index; length = len }) hash conn
        (start (record { index = index; length = len }) conn) l
        (start-Keeps (record { index = index; length = len }) conn)
  on_command-StepOk t (cancel_piece index) conn l = (tt, tt)
  on_command-StepOk t pause conn l = (tt, tt)
  on_command-StepOk t shutdown conn l = (tt, tt)
  on_command-StepOk t choke_peer conn l = obeyed-StepOk (apply_command choke_peer t.sent conn)
  on_command-StepOk t unchoke_peer conn l = obeyed-StepOk (apply_command unchoke_peer t.sent conn)
