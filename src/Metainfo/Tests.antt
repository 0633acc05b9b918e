-- ===== src/Metainfo/Tests.antt =====
-- A torrent of one piece, and names that are refused.
use p2p_file_distribution.Base.{[], ◌∷◌, take, ok, ◌≡◌, refl, arith, List}
use p2p_file_distribution.Base.Int.{pos, wrap, ◌+ℤ◌, ◌-ℤ◌, div_i64}
use p2p_file_distribution.Base.Bytes.{Bytes, read_full, bytes_eq}
use p2p_file_distribution.Bencode.Value.{
  Entries, as_byte_string, as_integer, as_list, as_dictionary, get, get_string, get_int,
}
use p2p_file_distribution.Bencode.Decimal.{
  digits, format_nat, format_int, scan, parse_digits, parse_int,
}
use p2p_file_distribution.Bencode.Encode.{
  bytes_lt, encode_byte_string, encode_integer, insert, write_sorted, encode,
}
use p2p_file_distribution.Bencode.Decode.{
  Decoder, Span, read_until, read_string, all_digits, valid_digits, validate_integer_string,
  integer_of, decode_integer, string_of, decode_byte_string, list_loop, key_of, entries_loop,
  decode_list, decode_dictionary, decode_marked, decode_with, decode_value, spans_loop,
  decode_with_spans, new_decoder,
}
use p2p_file_distribution.Metainfo.{
  Torrent, parse, piece_count, urls_of, tiers_of, parse_announce_list, compute_info_hash,
  split_hashes, parse_pieces, parse_info, check_total, check_numbers, validate, find_span,
  cross_check_info_hash, finish_at, at_end,
}
use p2p_file_distribution.Metainfo.Name.{contains_separator, check_name, validate_name}
use p2p_file_distribution.Metainfo.Validity.{check_numbers_overflow}
use p2p_file_distribution.Metainfo.Sound.{IsValid, HasInfoHash, parse-IsValid}

plain_accepted : validate_name (b'a' ∷ b'.' ∷ b'b' ∷ []) ≡ ok tt
unfolding validate_name check_name contains_separator
plain_accepted = refl

numbers_accepted : check_numbers 3 (pos 4) (pos 10) ≡ ok tt
unfolding check_numbers check_total div_i64 ◌+ℤ◌ ◌-ℤ◌ wrap
numbers_accepted = refl

check_numbers_overflow_example :
    check_numbers 0 (pos 9223372036854775807) (pos 9223372036854775807) ≡ ok tt
check_numbers_overflow_example =
    check_numbers_overflow 9223372036854775807 9223372036854775807 (omega arith) (omega arith)
      (omega arith)

-- A stand-in for SHA-1.
abbrev checksum : Bytes → Bytes
checksum s = take 20 s

-- d8:announce1:u4:infod6:lengthi8e4:name1:f12:piece lengthi8e6:pieces20:hhhhhhhhhhhhhhhhhhhhee
abbrev content : Bytes
content =
    b'd' ∷ b'8' ∷ b':' ∷ b'a' ∷ b'n' ∷ b'n' ∷ b'o' ∷ b'u' ∷ b'n' ∷ b'c' ∷ b'e' ∷ b'1' ∷ b':' ∷ b'u'
    ∷ b'4' ∷ b':' ∷ b'i' ∷ b'n' ∷ b'f' ∷ b'o' ∷ b'd' ∷ b'6' ∷ b':' ∷ b'l' ∷ b'e' ∷ b'n' ∷ b'g'
    ∷ b't' ∷ b'h' ∷ b'i' ∷ b'8' ∷ b'e' ∷ b'4' ∷ b':' ∷ b'n' ∷ b'a' ∷ b'm' ∷ b'e' ∷ b'1' ∷ b':'
    ∷ b'f' ∷ b'1' ∷ b'2' ∷ b':' ∷ b'p' ∷ b'i' ∷ b'e' ∷ b'c' ∷ b'e' ∷ b' ' ∷ b'l' ∷ b'e' ∷ b'n'
    ∷ b'g' ∷ b't' ∷ b'h' ∷ b'i' ∷ b'8' ∷ b'e' ∷ b'6' ∷ b':' ∷ b'p' ∷ b'i' ∷ b'e' ∷ b'c' ∷ b'e'
    ∷ b's' ∷ b'2' ∷ b'0' ∷ b':' ∷ b'h' ∷ b'h' ∷ b'h' ∷ b'h' ∷ b'h' ∷ b'h' ∷ b'h' ∷ b'h' ∷ b'h'
    ∷ b'h' ∷ b'h' ∷ b'h' ∷ b'h' ∷ b'h' ∷ b'h' ∷ b'h' ∷ b'h' ∷ b'h' ∷ b'h' ∷ b'h' ∷ b'e' ∷ b'e' ∷ []

abbrev torrent : Torrent
torrent = record {
  announce = b'u' ∷ [];
  announce_list = [];
  info_hash =
      b'd' ∷ b'6' ∷ b':' ∷ b'l' ∷ b'e' ∷ b'n' ∷ b'g' ∷ b't' ∷ b'h' ∷ b'i' ∷ b'8' ∷ b'e' ∷ b'4'
      ∷ b':' ∷ b'n' ∷ b'a' ∷ b'm' ∷ b'e' ∷ b'1' ∷ b':' ∷ [];
  name = b'f' ∷ [];
  piece_length = pos 8;
  total_length = pos 8;
  pieces_hashes =
      (b'h' ∷ b'h' ∷ b'h' ∷ b'h' ∷ b'h' ∷ b'h' ∷ b'h' ∷ b'h' ∷ b'h' ∷ b'h' ∷ b'h' ∷ b'h' ∷ b'h'
        ∷ b'h' ∷ b'h' ∷ b'h' ∷ b'h' ∷ b'h' ∷ b'h' ∷ b'h' ∷ [])
      ∷ [];
  files = record { path = b'f' ∷ []; length = pos 8 } ∷ [];
}

content_parsed : parse checksum content ≡ ok torrent
unfolding parse decode_with_spans spans_loop decode_value decode_with decode_marked
    decode_dictionary decode_list decode_byte_string decode_integer entries_loop list_loop key_of
    string_of integer_of read_string read_until validate_integer_string valid_digits all_digits
    parse_int parse_digits scan bytes_lt read_full get get_string get_int as_byte_string as_integer
    as_list as_dictionary bytes_eq parse_announce_list tiers_of urls_of parse_info parse_pieces
    split_hashes compute_info_hash encode encode_byte_string encode_integer insert write_sorted
    format_nat format_int digits finish_at at_end find_span cross_check_info_hash validate
    piece_count check_numbers check_total div_i64 ◌+ℤ◌ ◌-ℤ◌ wrap validate_name check_name
    contains_separator
content_parsed = refl

parse-IsValid_example :
    (root : Entries) × (spans : List (Bytes × Span)) × (d : Decoder) × (decode_with_spans
        (new_decoder content)
      ≡ ok ((root, spans), d))
    × HasInfoHash checksum content spans torrent
    × IsValid torrent
parse-IsValid_example = parse-IsValid checksum content torrent content_parsed
