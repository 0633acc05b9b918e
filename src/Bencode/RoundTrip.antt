-- ===== src/Bencode/RoundTrip.antt =====
-- The decoder gives back every value from what the encoder writes for it.
use p2p_file_distribution.Base.{
  ℕ, zero, suc, ◌+◌, ◌<◌, ◌≤◌, Bool, true, ◌&&◌, [], ◌∷◌, ◌++◌, Option, none, some, ◌≡◌, refl,
  arith, append_assoc, append-nil, length, length-append, ok, err,
}
use mathlib.Core.Path.{subst}
use p2p_file_distribution.Base.Bytes.{Bytes}
use p2p_file_distribution.Bencode.Value.{
  Value, byte_string, integer, list, dictionary, Values, nil, cons, Entries, empty, entry,
  trailing_data,
}
use p2p_file_distribution.Bencode.Decimal.{format_int}
use p2p_file_distribution.Bencode.Encode.{
  encode, encode_items, encode_byte_string, encode_integer, in_order,
}
use p2p_file_distribution.Bencode.Encode.Canonical.{
  ascending, write_entries, write_sorted-ascending,
}
use p2p_file_distribution.Bencode.Decode.{
  Decoder, Decoded, decode_value, list_loop, entries_loop, key_of, max_string_length, decode_strict,
  max_nesting_depth,
}
use p2p_file_distribution.Bencode.Decode.Primitive.{
  decode_byte_string-encode, decode_integer-encode,
}
use p2p_file_distribution.Bencode.Decode.Steps.{
  IsEncodable, AreEncodable, HasEncodable, decoder, list_step, entries_step, append-StartsDigit,
  append-StartsValue, digit-StartsValue, string-StartsDigit, encode-StartsValue, StartsValue-length,
  nested, decode_value-eq, with_digit, with_integer, with_list, with_dictionary,
}

string-decoded :
    (room : ℕ) (s rest : Bytes) (a b : ℕ)
    → length s ≤ max_string_length
    → b ≡ a + length (encode_byte_string s)
    → decode_value room (decoder (encode_byte_string s ++ rest) a)
      ≡ ok (byte_string s, decoder rest b)
string-decoded room s rest a b h e =
    rw
      (
        decode_value-eq room (decoder (encode_byte_string s ++ rest) a),
        with_digit (nested room) (encode_byte_string s ++ rest) a
            (append-StartsDigit _ rest (string-StartsDigit s h)),
        decode_byte_string-encode s rest a b h e,
      )
      refl

list_end :
    (decode : Decoder → Decoded Value) (fuel a b : ℕ) (rest : Bytes)
    → 0 < fuel
    → b ≡ a + 1
    → list_loop decode fuel (decoder (101 ∷ rest) a) ≡ ok (nil, decoder rest b)
unfolding list_loop
list_end decode zero a b rest h e = absurd (omega arith)
list_end decode (suc fuel) a b rest h e = rw e refl

entries_end :
    (decode : Decoder → Decoded Value) (fuel a b : ℕ) (previous : Option Bytes) (rest : Bytes)
    → 0 < fuel
    → b ≡ a + 1
    → entries_loop decode fuel previous (decoder (101 ∷ rest) a) ≡ ok (empty, decoder rest b)
unfolding entries_loop
entries_end decode zero a b previous rest h e = absurd (omega arith)
entries_end decode (suc fuel) a b previous rest h e = rw e refl

key_of-eq :
    (previous : Option Bytes) (k : Bytes)
    → in_order previous k ≡ true
    → key_of previous (byte_string k) ≡ ok k
unfolding key_of
key_of-eq previous k h = rw h refl

in_order_first :
    (previous : Option Bytes) (k : Bytes) (rest : Bool)
    → (in_order previous k && rest) ≡ true
    → (in_order previous k ≡ true) × (rest ≡ true)
in_order_first previous k rest h = (ground arith, ground arith)

mutual
  unfolding encode write_entries ascending IsEncodable encode_integer

  value-decoded :
      (room : ℕ) (v : Value) (rest : Bytes) (a b : ℕ)
      → IsEncodable room v
      → b ≡ a + length (encode v)
      → decode_value room (decoder (encode v ++ rest) a) ≡ ok (v, decoder rest b)
  value-decoded room (byte_string s) rest a b h e = string-decoded room s rest a b h e
  value-decoded room (integer n) rest a b h e =
      let text = format_int n ++ 101 ∷ rest in
      rw
        (
          append_assoc (format_int n) (101 ∷ []) rest,
          decode_value-eq room (decoder (105 ∷ text) a),
          with_integer (nested room) text a,
          decode_integer-encode n rest (a + 1) b h
              (omega (arith, e, length-append (format_int n) (101 ∷ []))),
        )
        refl
  value-decoded zero (list vs) rest a b h e = absurd h
  value-decoded (suc room) (list vs) rest a b h e =
      let text = encode_items vs ++ 101 ∷ rest in
      rw
        (
          append_assoc (encode_items vs) (101 ∷ []) rest,
          decode_value-eq (suc room) (decoder (108 ∷ text) a),
          with_list (decode_value room) text a,
          items-decoded room (suc (length text)) vs rest (a + 1) b h
              (omega (arith, length-append (encode_items vs) (101 ∷ rest)))
              (omega (arith, e, length-append (encode_items vs) (101 ∷ []))),
        )
        refl
  value-decoded zero (dictionary es) rest a b h e = absurd h
  value-decoded (suc room) (dictionary es) rest a b h e =
      let body = write_entries es in
      let text = body ++ 101 ∷ rest in
      let same = write_sorted-ascending none es h.0 in
      let e' : b ≡ a + length (100 ∷ (body ++ 101 ∷ [])) =
        subst (λ (x : Bytes). b ≡ a + length (100 ∷ (x ++ 101 ∷ []))) same e in
      rw
        (
          same,
          append_assoc body (101 ∷ []) rest,
          decode_value-eq (suc room) (decoder (100 ∷ text) a),
          with_dictionary (decode_value room) text a,
          entries-decoded room (suc (length text)) none es rest (a + 1) b h.0 h.1
              (omega (arith, length-append body (101 ∷ rest)))
              (omega (arith, e', length-append body (101 ∷ []))),
        )
        refl

  items-decoded :
      (room fuel : ℕ) (vs : Values) (rest : Bytes) (a b : ℕ)
      → AreEncodable room vs
      → length (encode_items vs) < fuel
      → b ≡ a + length (encode_items vs) + 1
      → list_loop (decode_value room) fuel (decoder (encode_items vs ++ 101 ∷ rest) a)
        ≡ ok (vs, decoder rest b)
  items-decoded room fuel nil rest a b h f e =
      list_end (decode_value room) fuel a b rest f (omega (arith, e))
  items-decoded room zero (cons v vs) rest a b h f e = absurd (omega (arith, f))
  items-decoded room (suc fuel) (cons v vs) rest a b h f e =
      let start = encode-StartsValue room v h.0 in
      let tail = encode_items vs ++ 101 ∷ rest in
      rw
        (
          append_assoc (encode v) (encode_items vs) (101 ∷ rest),
          list_step (decode_value room) fuel a (encode v ++ tail)
              (append-StartsValue (encode v) tail start),
          value-decoded room v tail a (a + length (encode v)) h.0 refl,
          items-decoded room fuel vs rest (a + length (encode v)) b h.1
              (omega (
                arith,
                f,
                length-append (encode v) (encode_items vs),
                StartsValue-length (encode v) start,
              ))
              (omega (arith, e, length-append (encode v) (encode_items vs))),
        )
        refl

  entries-decoded :
      (room fuel : ℕ) (previous : Option Bytes) (es : Entries) (rest : Bytes) (a b : ℕ)
      → ascending previous es ≡ true
      → HasEncodable room es
      → length (write_entries es) < fuel
      → b ≡ a + length (write_entries es) + 1
      → entries_loop (decode_value room) fuel previous (decoder (write_entries es ++ 101 ∷ rest) a)
        ≡ ok (es, decoder rest b)
  entries-decoded room fuel previous empty rest a b o h f e =
      entries_end (decode_value room) fuel a b previous rest f (omega (arith, e))
  entries-decoded room zero previous (entry k v es) rest a b o h f e = absurd (omega (arith, f))
  entries-decoded room (suc fuel) previous (entry k v es) rest a b o h f e =
      let key = encode_byte_string k in
      let body = write_entries es in
      let tail = body ++ 101 ∷ rest in
      let first = in_order_first previous k (ascending (some k) es) o in
      let key_start = digit-StartsValue key (string-StartsDigit k h.0) in
      rw
        (
          append_assoc key (encode v ++ body) (101 ∷ rest),
          append_assoc (encode v) body (101 ∷ rest),
          entries_step (decode_value room) fuel a previous (key ++ (encode v ++ tail))
              (append-StartsValue key _ key_start),
          string-decoded room k (encode v ++ tail) a (a + length key) h.0 refl,
          key_of-eq previous k first.0,
          value-decoded room v tail (a + length key) (a + length key + length (encode v)) h.1 refl,
          entries-decoded room fuel (some k) es rest (a + length key + length (encode v)) b first.1
              h.2
              (omega (
                arith,
                f,
                length-append key (encode v ++ body),
                length-append (encode v) body,
                StartsValue-length key key_start,
              ))
              (omega
                (arith, e, length-append key (encode v ++ body), length-append (encode v) body)),
        )
        refl

-- A value within the limits, decoded from its encoding, is given back with the bytes behind it.
pub decode_value-encode :
    (room : ℕ) (v : Value) (rest : Bytes) (at : ℕ)
    → IsEncodable room v
    → decode_value room (record { stream = encode v ++ rest; at = at })
      ≡ ok (v, record { stream = rest; at = at + length (encode v) })
decode_value-encode room v rest at h = value-decoded room v rest at (at + length (encode v)) h refl

-- `DecodeStrict` gives back a value within the limits from its encoding, and refuses the encoding
-- when more bytes follow it.
pub decode_strict-encode :
    (v : Value) (extra : ℕ) (rest : Bytes)
    → IsEncodable max_nesting_depth v
    → (decode_strict (encode v) ≡ ok v)
      × (decode_strict (encode v ++ extra ∷ rest) ≡ err trailing_data)
unfolding decode_strict
decode_strict-encode v extra rest h =
    let alone = rw (append-nil (encode v)) at (decode_value-encode max_nesting_depth v [] 0 h) in
    (rw alone refl, rw (decode_value-encode max_nesting_depth v (extra ∷ rest) 0 h) refl)
