-- ===== src/Bencode/Decode.antt =====
-- internal/bencode/decode.go. A decoder is the bytes that are left and the number of bytes consumed.
-- `depth` is restored by a `defer` on every return, so it is an argument here: the number of levels
-- that are still allowed, MaxNestingDepth less the code's depth.
pub mod Primitive
pub mod Steps
pub mod Total
use p2p_file_distribution.Base.{
  ℕ, zero, suc, ◌+◌, ◌<◌, ltb, leb, ◌==◌, if◌then◌else◌, Bool, true, false, not, ◌&&◌, ◌||◌, List,
  [], ◌∷◌, ◌++◌, length, Option, none, some, Result, ok, err, ◌>>=◌,
}
use p2p_file_distribution.Base.Int.{ℤ, pos, negsuc}
use p2p_file_distribution.Base.Bytes.{Bytes, read_full, bytes_eq}
use p2p_file_distribution.Bencode.Value.{
  Value, Error, byte_string, integer, list, dictionary, Values, nil, cons, Entries, empty, entry,
  unexpected_eof, invalid_type_marker, invalid_integer, invalid_string_len, limit_exceeded,
  non_string_key, unsorted_keys, trailing_data, exhausted,
}
use p2p_file_distribution.Bencode.Decimal.{parse_int, is_digit}
use p2p_file_distribution.Bencode.Encode.{in_order}

-- 32 << 20
abbrev pub max_string_length : ℕ
max_string_length = 33554432

abbrev pub max_nesting_depth : ℕ
max_nesting_depth = 100

pub record Decoder : Type 0 where
  pub stream : Bytes
  pub at : ℕ

abbrev pub new_decoder : Bytes → Decoder
new_decoder s = record { stream = s; at = 0 }

-- What a decoding function returns beside an error: its value and the decoder behind it.
abbrev pub Decoded {ℓ} : Type ℓ → Type ℓ
Decoded A = Result Error (A × Decoder)

-- bufio.Reader.ReadString(delim), without the delimiter: none when it does not occur.
unfoldable pub read_until : ℕ → Bytes → Option (Bytes × Bytes)
read_until delim [] = none
read_until delim (b ∷ s) =
    let rest = read_until delim s in
    if b == delim
    then some ([], s)
    else elim rest [ none ↦ none | some (front, back) ↦ some (b ∷ front, back) ]

unfoldable pub read_string : ℕ → Decoder → Decoded Bytes
read_string delim d = elim (read_until delim d.stream) [
  | none ↦ err unexpected_eof
  | some (front, back) ↦ ok (front, record { stream = back; at = d.at + (length front + 1) })
]

unfoldable pub all_digits : Bytes → Bool
all_digits [] = true
all_digits (c ∷ s) = is_digit c && all_digits s

-- The digits behind the sign: no leading zero, and no "-0".
unfoldable pub valid_digits : Bool → Bytes → Bool
unfolding all_digits
valid_digits neg [] = false
valid_digits neg (c ∷ []) = if neg && c == 48 then false else all_digits (c ∷ [])
valid_digits neg (c ∷ b ∷ s) = if c == 48 then false else all_digits (c ∷ b ∷ s)

unfoldable pub validate_integer_string : Bytes → Bool
unfolding valid_digits
validate_integer_string [] = false
validate_integer_string (c ∷ s) =
    if c == 45 then valid_digits true s else valid_digits false (c ∷ s)

-- `decodeInteger` behind its text.
unfoldable pub integer_of : Bytes → Decoder → Decoded Value
integer_of s d =
    if not (validate_integer_string s)
    then err invalid_integer
    else elim (parse_int s) [ none ↦ err invalid_integer | some n ↦ ok (integer n, d) ]

-- The 'i' is at the front.
unfoldable pub decode_integer : Decoder → Decoded Value
decode_integer d = read_string 101 d >>= λ p. integer_of p.0 p.1

-- `decodeByteString` behind its length.
unfoldable pub string_of : Option ℤ → Decoder → Decoded Bytes
string_of none d = err invalid_string_len
string_of (some (negsuc n)) d = err invalid_string_len
string_of (some (pos n)) d =
    if ltb max_string_length n then err limit_exceeded else elim (read_full n d.stream) [
      | none ↦ err unexpected_eof
      | some (s, back) ↦ ok (s, record { stream = back; at = d.at + n })
    ]

unfoldable pub decode_byte_string : Decoder → Decoded Bytes
decode_byte_string d = read_string 58 d >>= λ p. string_of (parse_int p.0) p.1

-- The loop of `decodeList`; each round consumes a byte, so the bytes bound the rounds.
unfoldable pub list_loop : (Decoder → Decoded Value) → ℕ → Decoder → Decoded Values
list_loop decode zero d = err exhausted
list_loop decode (suc fuel) d = elim d.stream [
  | [] ↦ err unexpected_eof
  | b ∷ s ↦ elim (b == 101) [
    | true ↦ ok (nil, record { stream = s; at = d.at + 1 })
    | false ↦ decode d >>= λ p. list_loop decode fuel p.1 >>= λ q. ok (cons p.0 q.0, q.1)
  ]
]

-- The round of `decodeDictionary` behind its key.
unfoldable pub key_of : Option Bytes → Value → Result Error Bytes
key_of previous (byte_string key) = if in_order previous key then ok key else err unsorted_keys
key_of previous v = err non_string_key

-- The loop of `decodeDictionary`, with the previous key.
unfoldable pub entries_loop :
    (Decoder → Decoded Value) → ℕ → Option Bytes → Decoder → Decoded Entries
entries_loop decode zero previous d = err exhausted
entries_loop decode (suc fuel) previous d = elim d.stream [
  | [] ↦ err unexpected_eof
  | b ∷ s ↦ elim (b == 101) [
    | true ↦ ok (empty, record { stream = s; at = d.at + 1 })
    | false ↦ decode d >>= λ p. key_of previous p.0 >>= λ key. decode p.1 >>= λ q.
        entries_loop decode fuel (some key) q.1 >>= λ r. ok (entry key q.0 r.0, r.1)
  ]
]

-- `decodeList` and `decodeDictionary` behind their marker: decoded with `nested`, or refused where
-- the nesting is too deep.
unfoldable pub decode_list : Option (Decoder → Decoded Value) → Decoder → Decoded Value
decode_list none d = err limit_exceeded
decode_list (some decode) d = list_loop decode (suc (length d.stream)) d >>= λ p. ok (list p.0, p.1)

unfoldable pub decode_dictionary : Option (Decoder → Decoded Value) → Decoder → Decoded Value
decode_dictionary none d = err limit_exceeded
decode_dictionary (some decode) d =
    entries_loop decode (suc (length d.stream)) none d >>= λ p. ok (dictionary p.0, p.1)

-- The value whose marker is `b`; a byte string starts with it.
unfoldable pub decode_marked :
    Option (Decoder → Decoded Value) → ℕ → Decoder → Decoder → Decoded Value
decode_marked nested b d behind =
    if b == 105
    then decode_integer behind
    else if b == 108
    then decode_list nested behind
    else if b == 100
    then decode_dictionary nested behind
    else if is_digit b
    then decode_byte_string d >>= (λ p. ok (byte_string p.0, p.1))
    else err invalid_type_marker

unfoldable pub decode_with : Option (Decoder → Decoded Value) → Decoder → Decoded Value
unfolding decode_marked
decode_with nested d = elim d.stream [
  | [] ↦ err unexpected_eof
  | b ∷ s ↦ decode_marked nested b d (record { stream = s; at = d.at + 1 })
]

-- `decodeValue`, with the levels of nesting that are left.
unfoldable pub decode_value : ℕ → Decoder → Decoded Value
unfolding decode_with
decode_value zero d = decode_with none d
decode_value (suc room) d = decode_with (some (decode_value room)) d

unfoldable pub decode_strict : Bytes → Result Error Value
decode_strict s = decode_value max_nesting_depth (new_decoder s) >>= λ p. elim p.1.stream [
  | [] ↦ ok p.0
  | b ∷ rest ↦ err trailing_data
]

-- Span{Start, End}
pub record Span : Type 0 where
  pub start : ℕ
  pub end : ℕ

-- The loop of `decodeDictionaryWithSpans`: the entries, each with the range of its value.
unfoldable pub spans_loop :
    (Decoder → Decoded Value) → ℕ → Option Bytes → Decoder → Decoded (Entries × List (Bytes × Span))
spans_loop decode zero previous d = err exhausted
spans_loop decode (suc fuel) previous d = elim d.stream [
  | [] ↦ err unexpected_eof
  | b ∷ s ↦ elim (b == 101) [
    | true ↦ ok ((empty, []), record { stream = s; at = d.at + 1 })
    | false ↦ decode d >>= λ p. key_of previous p.0 >>= λ key. decode p.1 >>= λ q.
        spans_loop decode fuel (some key) q.1 >>= λ r.
        ok ((entry key q.0 r.0.0, (key, record { start = p.1.at; end = q.1.at }) ∷ r.0.1), r.1)
  ]
]

-- `DecodeWithSpans`: the nesting is within its limit at the top.
unfoldable pub decode_with_spans : Decoder → Decoded (Entries × List (Bytes × Span))
decode_with_spans d = elim d.stream [
  | [] ↦ err unexpected_eof
  | b ∷ s ↦
      if b == 100
      then spans_loop (decode_value 99) (suc (length s)) none (record { stream = s; at = d.at + 1 })
      else err invalid_type_marker
]
