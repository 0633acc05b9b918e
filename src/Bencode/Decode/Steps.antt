-- ===== src/Bencode/Decode/Steps.antt =====
-- One step of the decoder on the text of a value.
use p2p_file_distribution.Base.{
  ℕ, zero, suc, ◌+◌, ◌*◌, ◌<◌, ◌≤◌, ◌==◌, true, false, [], ◌∷◌, ◌++◌, Option, none, some, ◌≡◌, refl,
  arith, length, ok, ◌>>=◌,
}
use p2p_file_distribution.Base.Int.{two_63}
use p2p_file_distribution.Base.Bytes.{Bytes}
use p2p_file_distribution.Bencode.Value.{
  Value, byte_string, integer, list, dictionary, Values, nil, cons, Entries, empty, entry,
}
use p2p_file_distribution.Bencode.Decimal.{digits, format_nat}
use p2p_file_distribution.Bencode.Decimal.RoundTrip.{
  IsInt64, StartsPositive, starts, format_nat-StartsPositive,
}
use p2p_file_distribution.Bencode.Encode.{encode, encode_byte_string, encode_integer}
use p2p_file_distribution.Bencode.Encode.Canonical.{ascending}
use p2p_file_distribution.Bencode.Decode.{
  Decoder, Decoded, decode_value, decode_with, decode_marked, decode_list, decode_dictionary,
  decode_integer, decode_byte_string, list_loop, entries_loop, key_of, max_string_length,
}

-- Within the decoder's limits: the strings are not too long, the integers are int64, the lists and
-- dictionaries nest at most `room` deep, and the keys of a dictionary ascend.
unfoldable mutual
  pub IsEncodable : ℕ → Value → Type 0
  IsEncodable room (byte_string s) = length s ≤ max_string_length
  IsEncodable room (integer n) = IsInt64 n
  IsEncodable zero (list vs) = ⊥
  IsEncodable (suc room) (list vs) = AreEncodable room vs
  IsEncodable zero (dictionary es) = ⊥
  IsEncodable (suc room) (dictionary es) = (ascending none es ≡ true) × HasEncodable room es

  pub AreEncodable : ℕ → Values → Type 0
  AreEncodable room nil = Unit
  AreEncodable room (cons v vs) = IsEncodable room v × AreEncodable room vs

  pub HasEncodable : ℕ → Entries → Type 0
  HasEncodable room empty = Unit
  HasEncodable room (entry k v es) =
      (length k ≤ max_string_length) × IsEncodable room v × HasEncodable room es

abbrev pub decoder : Bytes → ℕ → Decoder
decoder s a = record { stream = s; at = a }

-- The first byte of an encoding is not the 'e' that ends a list.
pub data StartsValue : Bytes → Type 0 where
  starts_value : (c : ℕ) (s : Bytes) → (c == 101) ≡ false → StartsValue (c ∷ s)

pub list_step :
    (decode : Decoder → Decoded Value) (fuel a : ℕ) (s : Bytes)
    → StartsValue s
    → list_loop decode (suc fuel) (decoder s a)
      ≡ (decode (decoder s a) >>= λ p. list_loop decode fuel p.1 >>= λ q. ok (cons p.0 q.0, q.1))
unfolding list_loop
list_step decode fuel a _ (starts_value c s e) = rw (e, list_loop) refl

pub entries_step :
    (decode : Decoder → Decoded Value) (fuel a : ℕ) (previous : Option Bytes) (s : Bytes)
    → StartsValue s
    → entries_loop decode (suc fuel) previous (decoder s a) ≡ (
        decode (decoder s a) >>= λ p. key_of previous p.0 >>= λ key. decode p.1 >>= λ q.
        entries_loop decode fuel (some key) q.1 >>= λ r. ok (entry key q.0 r.0, r.1))
unfolding entries_loop
entries_step decode fuel a previous _ (starts_value c s e) = rw (e, entries_loop) refl

pub data StartsDigit : Bytes → Type 0 where
  starts_digit : (c : ℕ) (s : Bytes) → 48 ≤ c → c ≤ 57 → StartsDigit (c ∷ s)

pub format_nat-StartsDigit : (n : ℕ) → n < 2 * two_63 → StartsDigit (format_nat n)
format_nat-StartsDigit zero h =
    unfold format_nat digits in starts_digit 48 [] (omega arith) (omega arith)
format_nat-StartsDigit (suc n) h =
    weaken (format_nat (suc n)) (format_nat-StartsPositive (suc n) (omega arith) h)
  where
    weaken : (s : Bytes) → StartsPositive s → StartsDigit s
    weaken _ (starts c s lo hi) = starts_digit c s (omega arith) hi

pub append-StartsDigit : (s rest : Bytes) → StartsDigit s → StartsDigit (s ++ rest)
append-StartsDigit _ rest (starts_digit c s lo hi) = starts_digit c (s ++ rest) lo hi

pub append-StartsValue : (s rest : Bytes) → StartsValue s → StartsValue (s ++ rest)
append-StartsValue _ rest (starts_value c s e) = starts_value c (s ++ rest) e

pub digit-StartsValue : (s : Bytes) → StartsDigit s → StartsValue s
digit-StartsValue _ (starts_digit c s lo hi) = starts_value c s (ground arith)

pub string-StartsDigit :
    (s : Bytes) → length s ≤ max_string_length → StartsDigit (encode_byte_string s)
unfolding encode_byte_string
string-StartsDigit s h =
    append-StartsDigit (format_nat (length s)) (58 ∷ s)
      (format_nat-StartsDigit (length s) (omega arith))

pub encode-StartsValue : (room : ℕ) (v : Value) → IsEncodable room v → StartsValue (encode v)
unfolding encode encode_integer IsEncodable
encode-StartsValue room (byte_string s) h = digit-StartsValue _ (string-StartsDigit s h)
encode-StartsValue room (integer n) h = starts_value 105 _ refl
encode-StartsValue room (list vs) h = starts_value 108 _ refl
encode-StartsValue room (dictionary es) h = starts_value 100 _ refl

pub StartsValue-length : (s : Bytes) → StartsValue s → 0 < length s
StartsValue-length _ (starts_value c s e) = omega arith

abbrev pub nested : ℕ → Option (Decoder → Decoded Value)
nested zero = none
nested (suc room) = some (decode_value room)

pub decode_value-eq : (room : ℕ) (d : Decoder) → decode_value room d ≡ decode_with (nested room) d
unfolding decode_value
decode_value-eq zero d = refl
decode_value-eq (suc room) d = refl

-- A byte string is decoded at any depth.
pub with_digit :
    (inner : Option (Decoder → Decoded Value)) (s : Bytes) (a : ℕ)
    → StartsDigit s
    → decode_with inner (decoder s a)
      ≡ (decode_byte_string (decoder s a) >>= λ p. ok (byte_string p.0, p.1))
unfolding decode_with decode_marked
with_digit inner _ a (starts_digit c s lo hi) = ground arith

pub with_integer :
    (inner : Option (Decoder → Decoded Value)) (s : Bytes) (a : ℕ)
    → decode_with inner (decoder (105 ∷ s) a) ≡ decode_integer (decoder s (a + 1))
unfolding decode_with decode_marked
with_integer inner s a = refl

pub with_list :
    (decode : Decoder → Decoded Value) (s : Bytes) (a : ℕ)
    → decode_with (some decode) (decoder (108 ∷ s) a)
      ≡ (list_loop decode (suc (length s)) (decoder s (a + 1)) >>= λ p. ok (list p.0, p.1))
unfolding decode_with decode_marked decode_list
with_list decode s a = refl

pub with_dictionary :
    (decode : Decoder → Decoded Value) (s : Bytes) (a : ℕ)
    → decode_with (some decode) (decoder (100 ∷ s) a) ≡ (
        entries_loop decode (suc (length s)) none (decoder s (a + 1)) >>= λ p.
        ok (dictionary p.0, p.1))
unfolding decode_with decode_marked decode_dictionary
with_dictionary decode s a = refl
