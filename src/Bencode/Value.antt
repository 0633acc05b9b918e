-- ===== src/Bencode/Value.antt =====
-- internal/bencode/value.go and errors.go: the four kinds of values, and the accessors.
use p2p_file_distribution.Base.{if◌then◌else◌, Result, ok, err, ◌>>=◌}
use p2p_file_distribution.Base.Int.{ℤ}
use p2p_file_distribution.Base.Bytes.{Bytes, bytes_eq}

-- A dictionary is a Go map; here its entries stand in the order of the decoder, which is that of
-- the keys.
mutual
  pub data Value : Type 0 where
    byte_string : Bytes → Value
    integer : ℤ → Value
    list : Values → Value
    dictionary : Entries → Value

  pub data Values : Type 0 where
    nil : Values
    cons : Value → Values → Values

  pub data Entries : Type 0 where
    empty : Entries
    entry : Bytes → Value → Entries → Entries

-- `exhausted` is the model's own: a loop that ran out of fuel.
pub data Error : Type 0 where
  unexpected_eof invalid_type_marker invalid_integer invalid_string_len limit_exceeded : Error
  non_string_key unsorted_keys trailing_data type_mismatch key_not_found exhausted : Error

unfoldable pub as_byte_string : Value → Result Error Bytes
as_byte_string (byte_string s) = ok s
as_byte_string v = err type_mismatch

unfoldable pub as_integer : Value → Result Error ℤ
as_integer (integer n) = ok n
as_integer v = err type_mismatch

unfoldable pub as_list : Value → Result Error Values
as_list (list vs) = ok vs
as_list v = err type_mismatch

unfoldable pub as_dictionary : Value → Result Error Entries
as_dictionary (dictionary es) = ok es
as_dictionary v = err type_mismatch

unfoldable pub get : Entries → Bytes → Result Error Value
get empty key = err key_not_found
get (entry k v es) key = let rest = get es key in if bytes_eq k key then ok v else rest

unfoldable pub get_string : Entries → Bytes → Result Error Bytes
get_string es key = get es key >>= as_byte_string

unfoldable pub get_int : Entries → Bytes → Result Error ℤ
get_int es key = get es key >>= as_integer
