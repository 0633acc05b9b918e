-- ===== src/Download/Serve.antt =====
-- internal/download/serve.go: one block asked for by a peer. `has` is our own bitfield, and `sent`
-- says whether the write to the connection succeeds.
pub mod Sound
use p2p_file_distribution.Base.{
  ℕ, leb, ltb, ◌==◌, if◌then◌else◌, Bool, true, false, not, length, take, Option, none, some,
  Result, ok, err, ◌>>=◌, map_err,
}
use p2p_file_distribution.Base.Int.{pos}
use p2p_file_distribution.Base.Bytes.{Bytes, be_u32}
use p2p_file_distribution.Piece.Geometry
use p2p_file_distribution.Peer.Payload
use p2p_file_distribution.Peer.Payload.{RequestPayload, parse_request}
use p2p_file_distribution.Storage
use p2p_file_distribution.Storage.{read_block}

pub data Error : Type 0 where
  bad_length bad_index too_long send_failed : Error
  geometry : Geometry.Error → Error
  payload : Payload.Error → Error
  storage : Storage.Error → Error

-- 16 * 1024
abbrev pub max_incoming_request_size : ℕ
max_incoming_request_size = 16384

-- The message that SendPiece writes.
pub record Served : Type 0 where
  pub index : ℕ
  pub begin : ℕ
  pub block : Bytes

unfoldable pub read_requested : ℕ → RequestPayload → ℕ → ℕ → ℕ → Bytes → Result Error Bytes
read_requested index req piece_count piece_length total_length file =
    if ltb max_incoming_request_size req.length
    then err too_long
    else map_err storage
        (read_block (pos index) piece_count piece_length total_length req.begin req.length file)

-- `serveRequest` behind the tests that decline a request.
unfoldable pub serve_block : ℕ → Bytes → ℕ → ℕ → ℕ → Bytes → Bool → Result Error (Option Served)
serve_block index content piece_count piece_length total_length file sent = do
  piece_len ← map_err geometry (Geometry.length (pos index) piece_count piece_length total_length)
  req ← map_err payload (parse_request content piece_count piece_len)
  block ← read_requested index req piece_count piece_length total_length file
  if sent
      then ok (some (record { index = index; begin = req.begin; block = block }))
      else err send_failed

-- The request for a piece; `none` is a request that is declined without a reply.
unfoldable pub serve_index :
    Bool → (ℕ → Bool) → Bytes → ℕ → ℕ → ℕ → Bytes → Bool → ℕ → Result Error (Option Served)
serve_index am_choking has content piece_count piece_length total_length file sent index =
    if leb piece_count index
    then err bad_index
    else if am_choking
    then ok none
    else if not (has index)
    then ok none
    else serve_block index content piece_count piece_length total_length file sent

unfoldable pub serve_request :
    Bool → (ℕ → Bool) → Bytes → ℕ → ℕ → ℕ → Bytes → Bool → Result Error (Option Served)
serve_request am_choking has content piece_count piece_length total_length file sent =
    if not (length content == 12)
    then err bad_length
    else be_u32 (take 4 content)
      >>= serve_index am_choking has content piece_count piece_length total_length file sent
