-- ===== src/Peer/Handshake.antt =====
-- internal/peer/handshake.go: the 68 bytes that open a connection.
pub mod RoundTrip
use p2p_file_distribution.Base.{
  ℕ, ◌+◌, ◌==◌, if◌then◌else◌, not, List, [], ◌∷◌, ◌++◌, length, take, drop, Option, none, some,
  Result, ok, err, panic,
}
use p2p_file_distribution.Base.Bytes.{Bytes, read_full, bytes_eq}

-- "BitTorrent protocol"
abbrev pub protocol_string : Bytes
protocol_string =
    b'B' ∷ b'i' ∷ b't' ∷ b'T' ∷ b'o' ∷ b'r' ∷ b'r' ∷ b'e' ∷ b'n' ∷ b't' ∷ b' ' ∷ b'p' ∷ b'r' ∷ b'o'
    ∷ b't' ∷ b'o' ∷ b'c' ∷ b'o' ∷ b'l' ∷ []

abbrev pub handshake_len : ℕ
handshake_len = 68

-- The three fields are arrays of 8, 20 and 20 bytes.
pub record Handshake : Type 0 where
  pub reserved : Bytes
  pub info_hash : Bytes
  pub peer_id : Bytes

pub data Error : Type 0 where
  read_handshake protocol_mismatch : Error

unfoldable pub serialize : Handshake → Bytes
serialize h = 19 ∷ (protocol_string ++ (h.reserved ++ (h.info_hash ++ h.peer_id)))

-- The tests and copies on the buffer that was read.
parse_buffer : Bytes → Result Error Handshake
parse_buffer [] = panic
parse_buffer (len ∷ buf) =
    if not (len == 19)
    then err protocol_mismatch
    else if not (bytes_eq (take 19 buf) protocol_string)
    then err protocol_mismatch
    else ok (record {
      reserved = take 8 (drop 19 buf);
      info_hash = take 20 (drop 27 buf);
      peer_id = take 20 (drop 47 buf);
    })

-- The handshake at the front of a stream.
unfoldable pub parse_handshake : Bytes → Result Error Handshake
unfolding parse_buffer
parse_handshake stream = elim (read_full handshake_len stream) [
  | none ↦ err read_handshake
  | some (buf, rest) ↦ parse_buffer buf
]
