-- ===== src/Metainfo.antt =====
-- internal/metainfo/parse.go, torrent.go and infohash.go: from the bytes of a .torrent file to a
-- torrent. Reading the file is not modelled; SHA-1 is a parameter.
pub mod Name
pub mod Validity
pub mod Sound
pub mod Tests
use p2p_file_distribution.Base.{
  ℕ, zero, suc, ◌+◌, ◌-◌, ◌*◌, ◌/◌, ◌%◌, ltb, leb, ◌==◌, if◌then◌else◌, Bool, true, false, not,
  ◌&&◌, ◌||◌, List, [], ◌∷◌, ◌++◌, length, take, drop, Option, none, some, Result, ok, err, panic,
  ◌>>=◌, map_err,
}
use p2p_file_distribution.Base.Int.{ℤ, pos, negsuc, ◌+ℤ◌, ◌-ℤ◌, div_i64, eq_ℤ, leb_ℤ}
use p2p_file_distribution.Base.Bytes.{Bytes, bytes_eq}
use p2p_file_distribution.Bencode.Value
use p2p_file_distribution.Bencode.Value.{
  byte_string, list, dictionary, Values, nil, cons, Entries, get, get_string, get_int,
  as_byte_string, as_list, as_dictionary,
}
use p2p_file_distribution.Bencode.Encode.{encode}
use p2p_file_distribution.Bencode.Decode.{Decoder, Span, decode_with_spans, new_decoder}
use p2p_file_distribution.Metainfo.Name.{validate_name}

-- Error{e} wraps an error of the bencode package.
pub data Error : Type 0 where
  bencode : Value.Error → Error
  trailing_data span_not_found hash_mismatch bad_pieces_length : Error
  bad_piece_length bad_total_length bad_piece_count bad_name : Error

pub record FileEntry : Type 0 where
  pub path : Bytes
  pub length : ℤ

pub record Torrent : Type 0 where
  pub announce : Bytes
  pub announce_list : List (List Bytes)
  pub info_hash : Bytes
  pub name : Bytes
  pub piece_length : ℤ
  pub total_length : ℤ
  pub pieces_hashes : List Bytes
  pub files : List FileEntry

unfoldable pub piece_count : Torrent → ℕ
piece_count t = length t.pieces_hashes

-- The keys of the dictionaries.
abbrev pub announce_key : Bytes
announce_key = b'a' ∷ b'n' ∷ b'n' ∷ b'o' ∷ b'u' ∷ b'n' ∷ b'c' ∷ b'e' ∷ []

abbrev pub announce_list_key : Bytes
announce_list_key =
    b'a' ∷ b'n' ∷ b'n' ∷ b'o' ∷ b'u' ∷ b'n' ∷ b'c' ∷ b'e' ∷ b'-' ∷ b'l' ∷ b'i' ∷ b's' ∷ b't' ∷ []

abbrev pub info_key : Bytes
info_key = b'i' ∷ b'n' ∷ b'f' ∷ b'o' ∷ []

abbrev pub name_key : Bytes
name_key = b'n' ∷ b'a' ∷ b'm' ∷ b'e' ∷ []

abbrev pub piece_length_key : Bytes
piece_length_key =
    b'p' ∷ b'i' ∷ b'e' ∷ b'c' ∷ b'e' ∷ b' ' ∷ b'l' ∷ b'e' ∷ b'n' ∷ b'g' ∷ b't' ∷ b'h' ∷ []

abbrev pub pieces_key : Bytes
pieces_key = b'p' ∷ b'i' ∷ b'e' ∷ b'c' ∷ b'e' ∷ b's' ∷ []

abbrev pub length_key : Bytes
length_key = b'l' ∷ b'e' ∷ b'n' ∷ b'g' ∷ b't' ∷ b'h' ∷ []

-- The URLs of a tier.
unfoldable pub urls_of : Values → Result Error (List Bytes)
urls_of nil = ok []
urls_of (cons v vs) = do
  url ← map_err bencode (as_byte_string v)
  urls ← urls_of vs
  ok (url ∷ urls)

unfoldable pub tiers_of : Values → Result Error (List (List Bytes))
tiers_of nil = ok []
tiers_of (cons v vs) = do
  tier_list ← map_err bencode (as_list v)
  tier ← urls_of tier_list
  tiers ← tiers_of vs
  ok (tier ∷ tiers)

-- An absent announce-list is an empty one.
unfoldable pub parse_announce_list : Entries → Result Error (List (List Bytes))
parse_announce_list root = elim (get root announce_list_key) [
  | ok al ↦ map_err bencode (as_list al) >>= tiers_of
  | err e ↦ ok []
  | panic ↦ panic
]

unfoldable pub compute_info_hash : (Bytes → Bytes) → Entries → Bytes
compute_info_hash sha1 info = sha1 (encode (dictionary info))

-- The 20-byte pieces of a blob.
unfoldable pub split_hashes : ℕ → Bytes → List Bytes
split_hashes zero blob = []
split_hashes (suc n) blob = take 20 blob ∷ split_hashes n (drop 20 blob)

unfoldable pub parse_pieces : Entries → Result Error (List Bytes)
unfolding split_hashes
parse_pieces info = map_err bencode (get info pieces_key >>= as_byte_string) >>= λ blob.
    if length blob % 20 == 0
    then ok (split_hashes (length blob / 20) blob)
    else err bad_pieces_length

-- `parseInfo`, given what Parse has set before.
unfoldable pub parse_info :
    (Bytes → Bytes) → Bytes → List (List Bytes) → Entries → Result Error Torrent
parse_info sha1 announce announce_list info = do
  name ← map_err bencode (get_string info name_key)
  piece_length ← map_err bencode (get_int info piece_length_key)
  pieces_hashes ← parse_pieces info
  total_length ← map_err bencode (get_int info length_key)
  ok (record {
    announce = announce;
    announce_list = announce_list;
    info_hash = compute_info_hash sha1 info;
    name = name;
    piece_length = piece_length;
    total_length = total_length;
    pieces_hashes = pieces_hashes;
    files = record { path = name; length = total_length } ∷ [];
  })

-- The tests on the numbers, where the lengths are positive.
unfoldable pub check_total : ℕ → ℕ → ℤ → Result Error (Unit {0})
check_total count piece_length (negsuc n) = err bad_total_length
check_total count piece_length (pos total_length) =
    if total_length == 0
    then err bad_total_length
    else if eq_ℤ (pos count)
        (div_i64 ((pos total_length +ℤ pos piece_length) -ℤ pos 1) piece_length)
    then ok tt
    else err bad_piece_count

unfoldable pub check_numbers : ℕ → ℤ → ℤ → Result Error (Unit {0})
unfolding check_total
check_numbers count (negsuc n) total_length = err bad_piece_length
check_numbers count (pos piece_length) total_length =
    if piece_length == 0 then err bad_piece_length else check_total count piece_length total_length

unfoldable pub validate : Torrent → Result Error (Unit {0})
validate t = check_numbers (piece_count t) t.piece_length t.total_length >>= λ _.
    map_err (λ _. bad_name) (validate_name t.name)

unfoldable pub find_span : Bytes → List (Bytes × Span) → Option Span
find_span key [] = none
find_span key (p ∷ spans) =
    let rest = find_span key spans in if bytes_eq p.0 key then some p.1 else rest

-- data[start:end]
abbrev pub slice : Bytes → Span → Bytes
slice content span = take (span.end - span.start) (drop span.start content)

unfoldable pub cross_check_info_hash :
    (Bytes → Bytes) → Bytes → Span → Bytes → Result Error (Unit {0})
cross_check_info_hash sha1 content span hash =
    if bytes_eq (sha1 (slice content span)) hash then ok tt else err hash_mismatch

-- `Parse` behind `parseInfo`, with the span of the info dictionary.
unfoldable pub finish_at : (Bytes → Bytes) → Bytes → Torrent → Option Span → Result Error Torrent
finish_at sha1 content t none = err span_not_found
finish_at sha1 content t (some span) = do
  _ ← cross_check_info_hash sha1 content span t.info_hash
  _ ← validate t
  ok t

-- `if !d.AtEnd() { return ErrTrailingData }`
unfoldable pub at_end : Decoder → Result Error (Unit {0})
at_end d = if length d.stream == 0 then ok tt else err trailing_data

unfoldable pub parse : (Bytes → Bytes) → Bytes → Result Error Torrent
unfolding at_end
parse sha1 content = do
  p ← map_err bencode (decode_with_spans (new_decoder content))
  _ ← at_end p.1
  announce ← map_err bencode (get_string p.0.0 announce_key)
  announce_list ← parse_announce_list p.0.0
  info ← map_err bencode (get p.0.0 info_key >>= as_dictionary)
  t ← parse_info sha1 announce announce_list info
  finish_at sha1 content t (find_span info_key p.0.1)
