-- ===== src/Peer/Payload/RoundTrip.antt =====
-- What the payload parsers make of what the senders build, and the ranges of what they accept.
use p2p_file_distribution.Base.{
  ℕ, ◌+◌, ◌<◌, ◌≤◌, ◌==◌, [], ◌∷◌, ◌++◌, length, ok, ◌>>=◌, ◌≡◌, arith, sym, Bool-cases, inl, inr,
}
use mathlib.Core.Path.{subst₃}
use p2p_file_distribution.Base.Bytes.{Bytes, u32, u32-put, IsByte, All, split_u32}
use p2p_file_distribution.Peer.Payload.{
  RequestPayload, parse_have, parse_request, parse_piece, have_payload, request_payload,
  piece_payload, check_index, check_block,
}

abbrev pub IsU32 : ℕ → Type 0
IsU32 n = n < 4294967296

-- The block lies in a piece of the torrent.
pub record InPiece (index begin len piece_count piece_length : ℕ) : Type 0 where
  pub index_ok : index < piece_count
  pub begin_ok : begin < piece_length
  pub end_ok : begin + len ≤ piece_length

-- `ParseHavePayload` gives back the index that `SendHave` sent.
pub parse_have-have_payload :
    (index piece_count : ℕ)
    → IsU32 index
    → index < piece_count
    → parse_have (have_payload index) piece_count ≡ ok (record { index = index })
unfolding parse_have have_payload
parse_have-have_payload index pc h k = rw (u32-put index h) (ground arith)

-- `ParseRequestPayload` gives back the block that `SendRequest` asked for.
pub parse_request-request_payload :
    (index begin len pc pl : ℕ)
    → IsU32 index
    → IsU32 begin
    → IsU32 len
    → InPiece index begin len pc pl
    → parse_request (request_payload index begin len) pc pl
      ≡ ok (record { index = index; begin = begin; length = len })
unfolding parse_request request_payload
parse_request-request_payload index begin len pc pl hi hb hl r =
    rw (u32-put index hi, u32-put begin hb, u32-put len hl) (ground arith)

-- `ParsePiecePayload` gives back the block that `SendPiece` sent.
pub parse_piece-piece_payload :
    (index begin : ℕ) (block : Bytes) (pc pl : ℕ)
    → IsU32 index
    → IsU32 begin
    → InPiece index begin (length block) pc pl
    → parse_piece (piece_payload index begin block) pc pl
      ≡ ok (record { index = index; begin = begin; block = block })
unfolding parse_piece piece_payload
parse_piece-piece_payload index begin block pc pl hi hb r =
    rw (u32-put index hi, u32-put begin hb) (ground arith)

parse_request-length :
    (payload : Bytes) (pc pl : ℕ) {r : RequestPayload}
    → parse_request payload pc pl ≡ ok r
    → length payload ≡ 12
unfolding parse_request
parse_request-length payload pc pl h = elim (Bool-cases (length payload == 12)) [
  | inl e ↦ ground arith
  | inr e ↦ let h' = rw e at h in cc
]

checked_block :
    (i b l pc pl : ℕ) (r : RequestPayload)
    → (check_index i pc >>= λ _.
        check_block b l pl >>= λ _. ok (record { index = i; begin = b; length = l }))
      ≡ ok r
    → InPiece i b l pc pl × (i ≡ r.index) × (b ≡ r.begin) × (l ≡ r.length)
unfolding check_index check_block
checked_block i b l pc pl r h = ground arith

request_of_words :
    (payload : Bytes) (pc pl : ℕ) (r : RequestPayload)
    → length payload ≡ 12
    → All IsByte payload
    → parse_request payload pc pl ≡ ok r
    → InPiece r.index r.begin r.length pc pl × (payload ≡ request_payload r.index r.begin r.length)
unfolding parse_request request_payload
request_of_words (a ∷ b ∷ c ∷ d ∷ e ∷ f ∷ g ∷ h ∷ i ∷ j ∷ k ∷ l ∷ []) pc pl r len bytes ok_r =
    let (inside, ei, eb, el) =
      checked_block (u32 a b c d) (u32 e f g h) (u32 i j k l) pc pl r ok_r in
    let first = sym (split_u32 a b c d (omega arith)) in
    let second = sym (split_u32 e f g h (omega arith)) in
    let third = sym (split_u32 i j k l (omega arith)) in
    subst₃ (λ x y z. InPiece x y z pc pl × (payload_of ≡ request_payload x y z)) ei eb el
      (inside, λ t. first t ++ (second t ++ third t))
  where
    payload_of : Bytes
    payload_of = a ∷ b ∷ c ∷ d ∷ e ∷ f ∷ g ∷ h ∷ i ∷ j ∷ k ∷ l ∷ []
request_of_words _ pc pl r len bytes ok_r = absurd (omega arith)

-- Whatever `ParseRequestPayload` accepts is a block inside a piece, sent as `SendRequest` sends it.
pub parse_request_sound :
    (payload : Bytes) (pc pl : ℕ) (r : RequestPayload)
    → All IsByte payload
    → parse_request payload pc pl ≡ ok r
    → InPiece r.index r.begin r.length pc pl × (payload ≡ request_payload r.index r.begin r.length)
parse_request_sound payload pc pl r bytes h =
    request_of_words payload pc pl r (parse_request-length payload pc pl h) bytes h
