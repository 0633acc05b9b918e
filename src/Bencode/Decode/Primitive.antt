-- ===== src/Bencode/Decode/Primitive.antt =====
-- Byte strings and integers are decoded from their encodings.
use p2p_file_distribution.Base.{
  ℕ, ◌+◌, ◌<◌, ◌≤◌, ltb, false, ◌∷◌, ◌++◌, some, ◌≡◌, refl, arith, ap, append_assoc, length,
  length-append, ok,
}
use p2p_file_distribution.Base.Int.{ℤ, pos, two_63}
use p2p_file_distribution.Base.Bytes.{Bytes, read_full-append}
use p2p_file_distribution.Bencode.Value.{integer}
use p2p_file_distribution.Bencode.Decimal.{format_nat, format_int, parse_int}
use p2p_file_distribution.Bencode.Decimal.RoundTrip.{IsInt64, parse_int-format_int}
use p2p_file_distribution.Bencode.Decimal.Text.{
  read_until-format_nat, read_until-format_int, validate-format_int,
}
use p2p_file_distribution.Bencode.Encode.{encode_byte_string}
use p2p_file_distribution.Bencode.Decode.{
  read_string, read_until, string_of, integer_of, decode_byte_string, decode_integer,
  max_string_length,
}

parse_int-format_nat : (n : ℕ) → n < two_63 → parse_int (format_nat n) ≡ some (pos n)
unfolding format_int
parse_int-format_nat n h = parse_int-format_int (pos n) h

read_string-eq :
    (delim a : ℕ) (s rest text : Bytes)
    → read_until delim s ≡ some (text, rest)
    → read_string delim (record { stream = s; at = a })
      ≡ ok (text, record { stream = rest; at = a + (length text + 1) })
unfolding read_string
read_string-eq delim a s rest text e = rw (e, read_string) refl

string_of-eq :
    (s rest : Bytes) (a : ℕ)
    → length s ≤ max_string_length
    → string_of (some (pos (length s))) (record { stream = s ++ rest; at = a })
      ≡ ok (s, record { stream = rest; at = a + length s })
unfolding string_of
string_of-eq s rest a h = rw (read_full-append s rest, small (length s) h) refl
  where
    small : (n : ℕ) → n ≤ max_string_length → ltb max_string_length n ≡ false
    small n h = ground arith

pub decode_byte_string-encode :
    (s rest : Bytes) (a b : ℕ)
    → length s ≤ max_string_length
    → b ≡ a + length (encode_byte_string s)
    → decode_byte_string (record { stream = encode_byte_string s ++ rest; at = a })
      ≡ ok (s, record { stream = rest; at = b })
unfolding decode_byte_string encode_byte_string
decode_byte_string-encode s rest a b h e =
    let text = format_nat (length s) in
    let found =
      read_string-eq 58 a _ (s ++ rest) text
        (read_until-format_nat 58 (length s) (s ++ rest) refl) in
    rw
      (
        append_assoc text (58 ∷ s) rest,
        found,
        parse_int-format_nat (length s) (omega arith),
        string_of-eq s rest (a + (length text + 1)) h,
      )
      (ap (λ (n : ℕ). ok (s, record { stream = rest; at = n }))
        (omega (arith, e, length-append text (58 ∷ s))))

pub decode_integer-encode :
    (n : ℤ) (rest : Bytes) (a b : ℕ)
    → IsInt64 n
    → b ≡ a + length (format_int n) + 1
    → decode_integer (record { stream = format_int n ++ 101 ∷ rest; at = a })
      ≡ ok (integer n, record { stream = rest; at = b })
unfolding decode_integer integer_of
decode_integer-encode n rest a b h e =
    rw
      (
        read_string-eq 101 a _ rest (format_int n) (read_until-format_int n rest),
        validate-format_int n h,
        parse_int-format_int n h,
      )
      (ap (λ (n' : ℕ). ok (integer n, record { stream = rest; at = n' })) (omega (arith, e)))
