-- ===== src/Peer/Tests.antt =====
-- Messages, payloads, handshakes and bitfields at concrete values.
use p2p_file_distribution.Base.{[], ◌∷◌, ◌++◌, replicate, ok, ◌≡◌, refl, arith}
use p2p_file_distribution.Base.Int.{pos}
use p2p_file_distribution.Base.Bytes.{Bytes, All, IsByte, read_full, be_u32}
use p2p_file_distribution.Peer.Message
use p2p_file_distribution.Peer.Message.{Message, read_message}
use p2p_file_distribution.Peer.Message.RoundTrip.{IsWire, read_message-serialize}
use p2p_file_distribution.Peer.Message.Sound.{read_message_sound}
use p2p_file_distribution.Peer.Payload.{parse_request, request_payload}
use p2p_file_distribution.Peer.Payload.RoundTrip.{InPiece, parse_request_sound}
use p2p_file_distribution.Peer.Handshake
use p2p_file_distribution.Peer.Handshake.{
  Handshake, protocol_string, protocol_mismatch, parse_handshake,
}
use p2p_file_distribution.Peer.Handshake.RoundTrip.{parse_handshake-serialize}

abbrev have_message : Message
have_message = record { id = pos 4; payload = 0 ∷ 0 ∷ 0 ∷ 7 ∷ [] }

have_message-IsWire : IsWire have_message
have_message-IsWire = record { id_ok = omega arith; fits = omega arith; empty = λ e. cc }

read_message-serialize_example :
    read_message (Message.serialize have_message ++ 1 ∷ 2 ∷ []) ≡ ok (have_message, 1 ∷ 2 ∷ [])
read_message-serialize_example =
    read_message-serialize have_message (1 ∷ 2 ∷ []) have_message-IsWire

abbrev have_bytes : Bytes
have_bytes = 0 ∷ 0 ∷ 0 ∷ 5 ∷ 4 ∷ 0 ∷ 0 ∷ 0 ∷ 7 ∷ 1 ∷ []

have_bytes-All : All IsByte have_bytes
have_bytes-All = (
  omega arith,
  (
    omega arith,
    (
      omega arith,
      (
        omega arith,
        (
          omega arith,
          (omega arith, (omega arith, (omega arith, (omega arith, (omega arith, tt))))),
        ),
      ),
    ),
  ),
)

have_bytes_read : read_message have_bytes ≡ ok (have_message, 1 ∷ [])
unfolding read_message read_full be_u32
have_bytes_read = refl

read_message_sound_example :
    IsWire have_message × (Message.serialize have_message ++ 1 ∷ [] ≡ have_bytes)
read_message_sound_example =
    read_message_sound have_bytes have_message (1 ∷ []) have_bytes-All have_bytes_read (λ e. cc)

abbrev request_bytes : Bytes
request_bytes = 0 ∷ 0 ∷ 0 ∷ 2 ∷ 0 ∷ 0 ∷ 0 ∷ 0 ∷ 0 ∷ 0 ∷ 0 ∷ 4 ∷ []

request_bytes-All : All IsByte request_bytes
request_bytes-All = (
  omega arith,
  (
    omega arith,
    (
      omega arith,
      (
        omega arith,
        (
          omega arith,
          (
            omega arith,
            (
              omega arith,
              (omega arith, (omega arith, (omega arith, (omega arith, (omega arith, tt))))),
            ),
          ),
        ),
      ),
    ),
  ),
)

request_bytes_parsed :
    parse_request request_bytes 3 16 ≡ ok (record { index = 2; begin = 0; length = 4 })
unfolding parse_request be_u32
request_bytes_parsed = refl

parse_request_sound_example : InPiece 2 0 4 3 16 × (request_bytes ≡ request_payload 2 0 4)
parse_request_sound_example =
    parse_request_sound request_bytes 3 16 (record { index = 2; begin = 0; length = 4 })
      request_bytes-All request_bytes_parsed

abbrev greeting : Handshake
greeting = record { reserved = replicate 8 0; info_hash = replicate 20 3; peer_id = replicate 20 4 }

parse_handshake-serialize_example :
    parse_handshake (Handshake.serialize greeting ++ 1 ∷ []) ≡ ok greeting
parse_handshake-serialize_example =
    parse_handshake-serialize greeting (1 ∷ [])
      (record { reserved_size = refl; info_hash_size = refl; peer_id_size = refl })
