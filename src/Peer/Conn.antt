-- ===== src/Peer/Conn.antt =====
-- internal/peer/conn.go: the state of a connection after its handshake, without its socket.
use p2p_file_distribution.Base.{[], Bool, true, false}
use p2p_file_distribution.Base.Bytes.{Bytes}

pub record Conn : Type 0 where
  pub peer_id : Bytes
  pub reserved : Bytes
  pub am_choking : Bool
  pub am_interested : Bool
  pub peer_choking : Bool
  pub peer_interested : Bool
  pub peer_bitfield : Bytes

-- Both sides start choked and not interested.
unfoldable pub new_conn : Bytes → Bytes → Conn
new_conn peer_id reserved = record {
  peer_id = peer_id;
  reserved = reserved;
  am_choking = true;
  am_interested = false;
  peer_choking = true;
  peer_interested = false;
  peer_bitfield = [];
}
