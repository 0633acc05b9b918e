-- ===== src/Bencode/Tests.antt =====
-- Encoding and decoding at concrete values.
use p2p_file_distribution.Base.{◌+◌, [], ◌∷◌, ◌++◌, length, ok, err, ◌≡◌, refl, arith, ◌<◌, ◌≢◌}
use p2p_file_distribution.Base.Int.{pos}
use p2p_file_distribution.Bencode.Value.{
  Value, integer, list, dictionary, nil, cons, empty, entry, exhausted,
}
use p2p_file_distribution.Bencode.Encode.{encode}
use p2p_file_distribution.Bencode.Encode.Canonical.{ascending}
use p2p_file_distribution.Bencode.Decode.{Decoder, new_decoder, decode_value}
use p2p_file_distribution.Bencode.Decode.Steps.{IsEncodable}
use p2p_file_distribution.Bencode.Decode.Total.{decode_value-Consumes}
use p2p_file_distribution.Bencode.RoundTrip.{decode_value-encode}

-- d1:ali5eee
abbrev sample : Value
sample = dictionary (entry (b'a' ∷ []) (list (cons (integer (pos 5)) nil)) empty)

sample-IsEncodable : IsEncodable 100 sample
unfolding IsEncodable ascending
sample-IsEncodable = (refl, (omega arith, (omega arith, tt), tt))

decode_value-encode_example :
    decode_value 100 (record { stream = encode sample ++ 7 ∷ []; at = 3 })
    ≡ ok (sample, record { stream = 7 ∷ []; at = 3 + length (encode sample) })
decode_value-encode_example = decode_value-encode 100 sample (7 ∷ []) 3 sample-IsEncodable

decode_value-Consumes_example :
    (decode_value 100 (new_decoder (encode sample)) ≢ err exhausted)
    × ((v : Value) (d' : Decoder)
        → decode_value 100 (new_decoder (encode sample)) ≡ ok (v, d')
        → length d'.stream < length (encode sample))
decode_value-Consumes_example = decode_value-Consumes 100 (new_decoder (encode sample))
