-- ===== src/Bencode/Encode.antt =====
-- internal/bencode/encode.go, writing to a buffer, whose writes do not fail.
pub mod Canonical
use p2p_file_distribution.Base.{
  ℕ, suc, ltb, ◌==◌, if◌then◌else◌, Bool, true, false, ◌||◌, ◌&&◌, List, [], ◌∷◌, ◌++◌, length,
  Option, none, some,
}
use p2p_file_distribution.Base.Int.{ℤ}
use p2p_file_distribution.Base.Bytes.{Bytes}
use p2p_file_distribution.Bencode.Value.{
  Value, byte_string, integer, list, dictionary, Values, nil, cons, Entries, empty, entry,
}
use p2p_file_distribution.Bencode.Decimal.{format_nat, format_int}

-- `<` on Go strings: byte by byte.
unfoldable pub bytes_lt : Bytes → Bytes → Bool
bytes_lt xs [] = false
bytes_lt [] (y ∷ ys) = true
bytes_lt (x ∷ xs) (y ∷ ys) = ltb x y || (x == y && bytes_lt xs ys)

-- A key comes after the one before it.
abbrev pub in_order : Option Bytes → Bytes → Bool
in_order none key = true
in_order (some previous) key = bytes_lt previous key

unfoldable pub encode_byte_string : Bytes → Bytes
encode_byte_string s = format_nat (length s) ++ 58 ∷ s

unfoldable pub encode_integer : ℤ → Bytes
encode_integer n = 105 ∷ (format_int n ++ 101 ∷ [])

-- sort.Strings: the encoded entry of a key among those of greater keys.
pub data Sorted : Type 0 where
  done : Sorted
  item : (key content : Bytes) → Sorted → Sorted

unfoldable pub insert : Bytes → Bytes → Sorted → Sorted
insert key content done = item key content done
insert key content (item k v rest) =
    let later = insert key content rest in
    if bytes_lt k key then item k v later else item key content (item k v rest)

unfoldable pub write_sorted : Sorted → Bytes
write_sorted done = []
write_sorted (item k v rest) = encode_byte_string k ++ (v ++ write_sorted rest)

unfoldable mutual
  pub encode : Value → Bytes
  encode (byte_string s) = encode_byte_string s
  encode (integer n) = encode_integer n
  encode (list vs) = 108 ∷ (encode_items vs ++ 101 ∷ [])
  encode (dictionary es) = 100 ∷ (write_sorted (sort_entries es) ++ 101 ∷ [])

  pub encode_items : Values → Bytes
  encode_items nil = []
  encode_items (cons v vs) = encode v ++ encode_items vs

  pub sort_entries : Entries → Sorted
  sort_entries empty = done
  sort_entries (entry k v es) = insert k (encode v) (sort_entries es)
