-- ===== src/Download/Command.antt =====
-- internal/download/events.go: what the coordinator and the connections tell one another, and the
-- buffered channel that carries the commands of one connection.
use p2p_file_distribution.Base.{ℕ, ltb, List, [], ◌∷◌, ◌++◌, length, Bool}
use p2p_file_distribution.Base.Bytes.{Bytes}

pub data Command : Type 0 where
  assign_piece : (index : ℕ) (length : ℕ) (expected_hash : Bytes) → Command
  cancel_piece : (index : ℕ) → Command
  pause shutdown choke_peer unchoke_peer : Command

-- A channel of commands, oldest first. An address stands for a netip.AddrPort.
pub record Channel : Type 0 where
  pub queue : List Command
  pub cap : ℕ

-- `select { case ch <- cmd: default: }`: sent when there is room, and dropped when there is not.
unfoldable pub has_room : Channel → Bool
has_room ch = ltb (length ch.queue) ch.cap

unfoldable pub send : Channel → Command → Channel
send ch cmd = record ch { queue = ch.queue ++ cmd ∷ [] }

-- Why a piece failed or a peer left: the coordinator only logs it.
pub data Event : Type 0 where
  peer_joined : (addr : ℕ) (commands : Channel) → Event
  bitfield_received : (addr : ℕ) (bitfield : Bytes) → Event
  have_received : (addr index : ℕ) → Event
  piece_downloaded : (addr index : ℕ) (content : Bytes) → Event
  piece_failed : (addr index : ℕ) → Event
  peer_ready peer_left interested_received not_interested_received : (addr : ℕ) → Event
  choke_received unchoke_received : (addr : ℕ) → Event
