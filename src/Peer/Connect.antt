-- ===== src/Peer/Connect.antt =====
-- internal/peer/dial.go (handshakeOver) and listen.go (Accept): the handshake over an open socket, from
-- the side that dials and from the side that accepts. Dial itself is handshakeOver on what
-- net.DialTimeout returns. A write that fails is taken to have sent nothing.
pub mod Agreement
pub mod Tests
use p2p_file_distribution.Base.{
  ℕ, if◌then◌else◌, Bool, true, false, not, List, [], ◌∷◌, ◌++◌, replicate, Option, none, some,
  Result, ok, err, panic,
}
use p2p_file_distribution.Base.Bytes.{Bytes, bytes_eq}
use p2p_file_distribution.Peer.Handshake
use p2p_file_distribution.Peer.Handshake.{
  Handshake, serialize, parse_handshake, read_handshake, protocol_mismatch,
}
use p2p_file_distribution.Peer.Conn.{Conn, new_conn}

-- The outcome of one call on the socket: done, past the deadline, or another error.
pub data Call : Type 0 where
  done timed_out failed : Call

-- The socket during one exchange: whether the deadline can be set and cleared, how the write ends, the
-- bytes that the other side sends before it stops, and whether a read past them meets the deadline.
pub record Socket : Type 0 where
  pub deadline_set : Bool
  pub write : Call
  pub incoming : Bytes
  pub read_times_out : Bool
  pub deadline_cleared : Bool

pub data Error : Type 0 where
  dial set_deadline send_handshake clear_deadline handshake_timeout info_hash_mismatch : Error
  receive_handshake : Handshake.Error → Error

-- What an exchange leaves behind: its result, the bytes written, and whether it closed the socket.
pub record Exchange : Type 0 where
  pub result : Result Error Conn
  pub written : Bytes
  pub closed : Bool

-- The reserved bytes are all zero.
unfoldable pub ours : Bytes → Bytes → Handshake
ours info_hash peer_id = record {
  reserved = replicate 8 0;
  info_hash = info_hash;
  peer_id = peer_id;
}

-- `errors.As(err, &ne) && ne.Timeout()` holds for an error of the socket only.
abbrev pub receive_error : Bool → Handshake.Error → Error
receive_error times_out read_handshake =
    if times_out then handshake_timeout else receive_handshake read_handshake
receive_error times_out protocol_mismatch = receive_handshake protocol_mismatch

-- handshakeOver closes the socket whenever it fails.
fail : Error → Bytes → Exchange
fail e written = record { result = err e; written = written; closed = true }

over_theirs : Socket → Bytes → Bytes → Result Handshake.Error Handshake → Exchange
unfolding fail
over_theirs s info_hash written (err e) = fail (receive_error s.read_times_out e) written
over_theirs s info_hash written panic = record { result = panic; written = written; closed = false }
over_theirs s info_hash written (ok theirs) =
    if not (bytes_eq theirs.info_hash info_hash)
    then fail info_hash_mismatch written
    else if not s.deadline_cleared
    then fail clear_deadline written
    else record {
      result = ok (new_conn theirs.peer_id theirs.reserved);
      written = written;
      closed = false;
    }

over_written : Socket → Bytes → Bytes → Call → Exchange
unfolding over_theirs fail
over_written s info_hash sent timed_out = fail handshake_timeout []
over_written s info_hash sent failed = fail send_handshake []
over_written s info_hash sent done = over_theirs s info_hash sent (parse_handshake s.incoming)

unfoldable pub handshake_over : Socket → Bytes → Bytes → Exchange
unfolding over_written fail
handshake_over s info_hash peer_id =
    if not s.deadline_set
    then fail set_deadline []
    else over_written s info_hash (serialize (ours info_hash peer_id)) s.write

-- `none` is an address that net.DialTimeout could not connect to.
unfoldable pub dial_peer : Option Socket → Bytes → Bytes → Exchange
unfolding handshake_over
dial_peer none info_hash peer_id = record { result = err dial; written = []; closed = false }
dial_peer (some s) info_hash peer_id = handshake_over s info_hash peer_id

-- Accept leaves the socket to its caller, who closes it on an error.
refuse : Error → Exchange
refuse e = record { result = err e; written = []; closed = false }

accept_written : Socket → Bytes → Handshake → Call → Exchange
unfolding refuse
accept_written s sent theirs timed_out = refuse handshake_timeout
accept_written s sent theirs failed = refuse send_handshake
accept_written s sent theirs done =
    if not s.deadline_cleared
    then record { result = err clear_deadline; written = sent; closed = false }
    else record {
      result = ok (new_conn theirs.peer_id theirs.reserved);
      written = sent;
      closed = false;
    }

accept_theirs : Socket → Bytes → Bytes → Result Handshake.Error Handshake → Exchange
unfolding accept_written refuse
accept_theirs s info_hash peer_id (err e) = refuse (receive_error s.read_times_out e)
accept_theirs s info_hash peer_id panic = record { result = panic; written = []; closed = false }
accept_theirs s info_hash peer_id (ok theirs) =
    if not (bytes_eq theirs.info_hash info_hash)
    then refuse info_hash_mismatch
    else accept_written s (serialize (ours info_hash peer_id)) theirs s.write

unfoldable pub accept : Socket → Bytes → Bytes → Exchange
unfolding accept_theirs refuse
accept s info_hash peer_id =
    if not s.deadline_set
    then refuse set_deadline
    else accept_theirs s info_hash peer_id (parse_handshake s.incoming)
