-- ===== src/Peer/Payload.antt =====
-- internal/peer/payload.go, and the payloads that internal/peer/send.go builds. Indices, offsets and
-- lengths come from uint32 words, so on a 64-bit `int` none is negative and no sum wraps.
pub mod RoundTrip
use p2p_file_distribution.Base.{
  ℕ, ◌+◌, ◌%◌, ltb, leb, ◌==◌, if◌then◌else◌, not, List, [], ◌∷◌, ◌++◌, length, take, drop, Result,
  ok, err, panic, ◌>>=◌,
}
use p2p_file_distribution.Base.Bytes.{Bytes, put_u32, be_u32, be_u16}

pub data Error : Type 0 where
  bad_length index_out_of_range begin_out_of_range block_out_of_range : Error

pub record HavePayload : Type 0 where
  pub index : ℕ

pub record RequestPayload : Type 0 where
  pub index : ℕ
  pub begin : ℕ
  pub length : ℕ

pub record PiecePayload : Type 0 where
  pub index : ℕ
  pub begin : ℕ
  pub block : Bytes

pub record PortPayload : Type 0 where
  pub port : ℕ

-- `index < 0 || index >= pieceCount`, where the index is not negative.
check_index : ℕ → ℕ → Result Error (Unit {0})
check_index index piece_count = if leb piece_count index then err index_out_of_range else ok tt

-- [begin, begin + len) lies in the piece.
check_block : ℕ → ℕ → ℕ → Result Error (Unit {0})
check_block begin len piece_length =
    if leb piece_length begin
    then err begin_out_of_range
    else if ltb piece_length (begin + len)
    then err block_out_of_range
    else ok tt

unfoldable pub parse_have : Bytes → ℕ → Result Error HavePayload
unfolding check_index be_u32
parse_have payload piece_count =
    if not (length payload == 4)
    then err bad_length
    else be_u32 payload >>= λ index.
        check_index index piece_count >>= λ _. ok (record { index = index })

unfoldable pub parse_request : Bytes → ℕ → ℕ → Result Error RequestPayload
unfolding check_index check_block be_u32
parse_request payload piece_count piece_length =
    if not (length payload == 12) then err bad_length else do
      index ← be_u32 (take 4 payload)
      begin ← be_u32 (take 4 (drop 4 payload))
      len ← be_u32 (take 4 (drop 8 payload))
      _ ← check_index index piece_count
      _ ← check_block begin len piece_length
      ok (record { index = index; begin = begin; length = len })

unfoldable pub parse_piece : Bytes → ℕ → ℕ → Result Error PiecePayload
unfolding check_index check_block be_u32
parse_piece payload piece_count piece_length = if ltb (length payload) 8 then err bad_length else do
  index ← be_u32 (take 4 payload)
  begin ← be_u32 (take 4 (drop 4 payload))
  let block = drop 8 payload
  _ ← check_index index piece_count
  _ ← check_block begin (length block) piece_length
  ok (record { index = index; begin = begin; block = block })

unfoldable pub parse_port : Bytes → Result Error PortPayload
unfolding be_u16
parse_port payload =
    if not (length payload == 2)
    then err bad_length
    else be_u16 payload >>= λ port. ok (record { port = port })

-- The payloads of SendHave, SendRequest and SendPiece: each number is cut to a uint32.
unfoldable pub have_payload : ℕ → Bytes
have_payload index = put_u32 index

unfoldable pub request_payload : ℕ → ℕ → ℕ → Bytes
request_payload index begin len = put_u32 index ++ (put_u32 begin ++ put_u32 len)

unfoldable pub piece_payload : ℕ → ℕ → Bytes → Bytes
piece_payload index begin block = put_u32 index ++ (put_u32 begin ++ block)
