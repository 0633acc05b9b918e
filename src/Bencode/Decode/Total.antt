-- ===== src/Bencode/Decode/Total.antt =====
-- The loops of the decoder end: each round consumes a byte.
use p2p_file_distribution.Base.{
  ℕ, zero, suc, ◌+◌, ◌<◌, ◌≤◌, ltb, ◌==◌, if_elim, not, [], ◌∷◌, Option, none, some, ◌≡◌, ◌≢◌, refl,
  arith, ap, Bool-cases, inl, inr, Option-cases, length, length-append, Result, ok, err, panic,
  ◌>>=◌,
}
use mathlib.Core.Path.{subst}
use p2p_file_distribution.Base.Int.{ℤ, pos, negsuc}
use p2p_file_distribution.Base.Bytes.{Bytes, read_full, read_full-length}
use p2p_file_distribution.Bencode.Value.{
  Value, byte_string, integer, list, dictionary, Error, exhausted,
}
use p2p_file_distribution.Bencode.Decimal.{parse_int, is_digit}
use p2p_file_distribution.Bencode.Decode.{
  Decoder, Decoded, read_until, read_string, string_of, integer_of, decode_integer,
  decode_byte_string, list_loop, key_of, entries_loop, decode_list, decode_dictionary,
  decode_marked, decode_with, decode_value, decode_with_spans, spans_loop, validate_integer_string,
  max_string_length,
}
use p2p_file_distribution.Bencode.Decode.Steps.{decoder}

-- What a decoding function does to the bytes: it consumes at least `n`, and never runs out of fuel.
abbrev pub Consumes : {A : Type 0} → ℕ → Bytes → Decoded A → Type 0
Consumes n s (ok (a, d)) = n + length d.stream ≤ length s
Consumes n s (err e) = e ≢ exhausted
Consumes n s panic = Unit

relax : {A : Type 0} (s : Bytes) (r : Decoded A) → Consumes 1 s r → Consumes 0 s r
relax s (ok (a, d)) h = omega (arith, h)
relax s (err e) h = h
relax s panic h = tt

shift :
    {A : Type 0} (m n : ℕ) (s t : Bytes) (r : Decoded A)
    → m + length t ≤ length s
    → Consumes n t r
    → Consumes (m + n) s r
shift m n s t (ok (a, d)) h k = omega (arith, h, k)
shift m n s t (err e) h k = k
shift m n s t panic h k = tt

-- A chain consumes what its parts do.
chain :
    {A B : Type 0} (m n : ℕ) (s : Bytes) (r : Decoded A) (f : A × Decoder → Decoded B)
    → Consumes m s r
    → ((a : A) (d : Decoder) → m + length d.stream ≤ length s → Consumes n d.stream (f (a, d)))
    → Consumes (m + n) s (r >>= f)
chain m n s (ok (a, d)) f h k = shift m n s d.stream (f (a, d)) h (k a d h)
chain m n s (err e) f h k = h
chain m n s panic f h k = tt

-- The bytes that are left.
abbrev size : Option (Bytes × Bytes) → ℕ
size none = 0
size (some (front, back)) = length back

read_until-length :
    (delim : ℕ) (s front back : Bytes)
    → read_until delim s ≡ some (front, back)
    → 1 + length back ≤ length s
unfolding read_until
read_until-length delim [] front back e = cc
read_until-length delim (b ∷ s) front back e = elim (Bool-cases (b == delim)) [
  | inl same ↦
      let e' = rw (same, read_until) at e in
      omega (arith, ap (λ (o : Option (Bytes × Bytes)). size o) e')
  | inr other ↦ elim (Option-cases (read_until delim s)) [
    | inl found ↦ let e' = rw (other, found, read_until) at e in cc
    | inr ((front', back'), found) ↦
        let e' = rw (other, found, read_until) at e in
        omega (
          arith,
          ap (λ (o : Option (Bytes × Bytes)). size o) e',
          read_until-length delim s front' back' found,
        )
  ]
]

read_string-Consumes : (delim : ℕ) (d : Decoder) → Consumes 1 d.stream (read_string delim d)
unfolding read_string
read_string-Consumes delim d = elim (Option-cases (read_until delim d.stream)) [
  | inl e ↦ rw (e, read_string) (λ x. cc)
  | inr ((front, back), e) ↦ rw (e, read_string) (read_until-length delim d.stream front back e)
]

integer_of-Consumes : (s : Bytes) (d : Decoder) → Consumes 0 d.stream (integer_of s d)
unfolding integer_of
integer_of-Consumes s d =
    if_elim (Consumes 0 d.stream) (not (validate_integer_string s)) (λ _. λ x. cc)
      (λ _. elim (Option-cases (parse_int s)) [
        | inl e ↦ rw e (λ x. cc)
        | inr (n, e) ↦ rw e (omega arith)
      ])

string_of-Consumes : (o : Option ℤ) (d : Decoder) → Consumes 0 d.stream (string_of o d)
unfolding string_of
string_of-Consumes none d = λ x. cc
string_of-Consumes (some (negsuc n)) d = λ x. cc
string_of-Consumes (some (pos n)) d =
    if_elim (Consumes 0 d.stream) (ltb max_string_length n) (λ _. λ x. cc)
      (λ _. elim (Option-cases (read_full n d.stream)) [
        | inl e ↦ rw e (λ x. cc)
        | inr ((s, back), e) ↦ rw e (
            omega (arith, ap length (read_full-length n d.stream s back e).0, length-append s back))
      ])

decode_integer-Consumes : (d : Decoder) → Consumes 1 d.stream (decode_integer d)
unfolding decode_integer
decode_integer-Consumes d =
    chain 1 0 d.stream (read_string 101 d) _ (read_string-Consumes 101 d)
      (λ s d' h. integer_of-Consumes s d')

decode_byte_string-Consumes : (d : Decoder) → Consumes 1 d.stream (decode_byte_string d)
unfolding decode_byte_string
decode_byte_string-Consumes d =
    chain 1 0 d.stream (read_string 58 d) _ (read_string-Consumes 58 d)
      (λ s d' h. string_of-Consumes (parse_int s) d')

key_of-ne : (previous : Option Bytes) (v : Value) → key_of previous v ≢ err exhausted
unfolding key_of
key_of-ne previous (byte_string k) h = ground arith
key_of-ne previous (integer n) h = cc
key_of-ne previous (list vs) h = cc
key_of-ne previous (dictionary es) h = cc

with_key :
    {A : Type 0} (n : ℕ) (s : Bytes) (r : Result Error Bytes) (f : Bytes → Decoded A)
    → r ≢ err exhausted
    → ((key : Bytes) → Consumes n s (f key))
    → Consumes n s (r >>= f)
with_key n s (ok key) f h k = k key
with_key n s (err e) f h k = λ same. h (ap err same)
with_key n s panic f h k = tt

module _ (decode : Decoder → Decoded Value)
    (consumes : (d : Decoder) → Consumes 1 d.stream (decode d)) where
  list_loop-Consumes :
      (fuel : ℕ) (s : Bytes) (a : ℕ)
      → length s < fuel
      → Consumes 1 s (list_loop decode fuel (decoder s a))
  unfolding list_loop
  list_loop-Consumes zero s a h = absurd (omega (arith, h))
  list_loop-Consumes (suc fuel) [] a h = λ e. cc
  list_loop-Consumes (suc fuel) (b ∷ s) a h = elim (Bool-cases (b == 101)) [
    | inl e ↦ rw (e, list_loop) (omega arith)
    | inr e ↦
        rw (e, list_loop)
          (chain 1 0 (b ∷ s) (decode (decoder (b ∷ s) a)) _ (consumes (decoder (b ∷ s) a))
            (λ v d' k.
              chain 0 0 d'.stream (list_loop decode fuel d') _
                (relax d'.stream (list_loop decode fuel d')
                  (list_loop-Consumes fuel d'.stream d'.at (omega (arith, h, k))))
                (λ vs d'' _. omega arith)))
  ]

  entries_loop-Consumes :
      (fuel : ℕ) (previous : Option Bytes) (s : Bytes) (a : ℕ)
      → length s < fuel
      → Consumes 1 s (entries_loop decode fuel previous (decoder s a))
  unfolding entries_loop
  entries_loop-Consumes zero previous s a h = absurd (omega (arith, h))
  entries_loop-Consumes (suc fuel) previous [] a h = λ e. cc
  entries_loop-Consumes (suc fuel) previous (b ∷ s) a h = elim (Bool-cases (b == 101)) [
    | inl e ↦ rw (e, entries_loop) (omega arith)
    | inr e ↦
        rw (e, entries_loop)
          (chain 1 0 (b ∷ s) (decode (decoder (b ∷ s) a)) _ (consumes (decoder (b ∷ s) a))
            (λ v d' k. with_key 0 d'.stream (key_of previous v) _ (key_of-ne previous v) (λ key.
              relax d'.stream _ (
                chain 1 0 d'.stream (decode d') _ (consumes d') (λ w d'' k'.
                  chain 0 0 d''.stream (entries_loop decode fuel (some key) d'') _
                    (relax d''.stream (entries_loop decode fuel (some key) d'') (
                      entries_loop-Consumes fuel (some key) d''.stream d''.at
                        (omega (arith, h, k, k'))))
                    (λ es d''' _. omega arith))))))
  ]

  spans_loop-Consumes :
      (fuel : ℕ) (previous : Option Bytes) (s : Bytes) (a : ℕ)
      → length s < fuel
      → Consumes 1 s (spans_loop decode fuel previous (decoder s a))
  unfolding spans_loop
  spans_loop-Consumes zero previous s a h = absurd (omega (arith, h))
  spans_loop-Consumes (suc fuel) previous [] a h = λ e. cc
  spans_loop-Consumes (suc fuel) previous (b ∷ s) a h = elim (Bool-cases (b == 101)) [
    | inl e ↦ rw (e, spans_loop) (omega arith)
    | inr e ↦
        rw (e, spans_loop)
          (chain 1 0 (b ∷ s) (decode (decoder (b ∷ s) a)) _ (consumes (decoder (b ∷ s) a))
            (λ v d' k. with_key 0 d'.stream (key_of previous v) _ (key_of-ne previous v) (λ key.
              relax d'.stream _ (
                chain 1 0 d'.stream (decode d') _ (consumes d') (λ w d'' k'.
                  chain 0 0 d''.stream (spans_loop decode fuel (some key) d'') _
                    (relax d''.stream (spans_loop decode fuel (some key) d'') (
                      spans_loop-Consumes fuel (some key) d''.stream d''.at
                        (omega (arith, h, k, k'))))
                    (λ es d''' _. omega arith))))))
  ]

AllConsume : Option (Decoder → Decoded Value) → Type 0
AllConsume none = Unit
AllConsume (some decode) = (d : Decoder) → Consumes 1 d.stream (decode d)

module _ (nested : Option (Decoder → Decoded Value)) (inner : AllConsume nested) where
  list-Consumes :
      (o : Option (Decoder → Decoded Value))
      → AllConsume o
      → (d : Decoder) → Consumes 0 d.stream (decode_list o d)
  unfolding decode_list AllConsume
  list-Consumes none _ d = λ e. cc
  list-Consumes (some decode) h d = relax d.stream _ (
      chain 1 0 d.stream (list_loop decode (suc (length d.stream)) d) _
        (list_loop-Consumes decode h (suc (length d.stream)) d.stream d.at (omega arith))
        (λ vs d' _. omega arith))

  dictionary-Consumes :
      (o : Option (Decoder → Decoded Value))
      → AllConsume o
      → (d : Decoder) → Consumes 0 d.stream (decode_dictionary o d)
  unfolding decode_dictionary AllConsume
  dictionary-Consumes none _ d = λ e. cc
  dictionary-Consumes (some decode) h d = relax d.stream _ (
      chain 1 0 d.stream (entries_loop decode (suc (length d.stream)) none d) _
        (entries_loop-Consumes decode h (suc (length d.stream)) none d.stream d.at (omega arith))
        (λ vs d' _. omega arith))

  marked-Consumes :
      (b : ℕ) (s : Bytes) (a : ℕ)
      → Consumes 1 (b ∷ s) (decode_marked nested b (decoder (b ∷ s) a) (decoder s (a + 1)))
  unfolding decode_marked
  marked-Consumes b s a =
      if_elim (Consumes 1 (b ∷ s)) (b == 105)
        (λ _.
          shift 1 0 (b ∷ s) s _ (omega arith)
            (relax s _ (decode_integer-Consumes (decoder s (a + 1)))))
        (λ _.
          if_elim (Consumes 1 (b ∷ s)) (b == 108)
            (λ _.
              shift 1 0 (b ∷ s) s _ (omega arith) (list-Consumes nested inner (decoder s (a + 1))))
            (λ _.
              if_elim (Consumes 1 (b ∷ s)) (b == 100)
                (λ _.
                  shift 1 0 (b ∷ s) s _ (omega arith)
                    (dictionary-Consumes nested inner (decoder s (a + 1))))
                (λ _.
                  if_elim (Consumes 1 (b ∷ s)) (is_digit b)
                    (λ _.
                      chain 1 0 (b ∷ s) (decode_byte_string (decoder (b ∷ s) a)) _
                        (decode_byte_string-Consumes (decoder (b ∷ s) a)) (λ t d' _. omega arith))
                    (λ _. λ e. cc))))

  with-Consumes : (s : Bytes) (a : ℕ) → Consumes 1 s (decode_with nested (decoder s a))
  unfolding decode_with
  with-Consumes [] a = λ e. cc
  with-Consumes (b ∷ s) a = marked-Consumes b s a

value-Consumes : (room : ℕ) (d : Decoder) → Consumes 1 d.stream (decode_value room d)
unfolding decode_value AllConsume
value-Consumes zero d = with-Consumes none tt d.stream d.at
value-Consumes (suc room) d =
    with-Consumes (some (decode_value room)) (value-Consumes room) d.stream d.at

-- `Decode` ends on every input: it never runs out of fuel, and a value that it returns has consumed at
-- least one byte.
pub decode_value-Consumes :
    (room : ℕ) (d : Decoder)
    → (decode_value room d ≢ err exhausted)
      × ((v : Value) (d' : Decoder)
          → decode_value room d ≡ ok (v, d')
          → length d'.stream < length d.stream)
decode_value-Consumes room d = (
  λ e. (subst (Consumes 1 d.stream) e (value-Consumes room d)) refl,
  λ v d' e. let h = subst (Consumes 1 d.stream) e (value-Consumes room d) in omega (arith, h),
)

spans-Consumes : (s : Bytes) (a : ℕ) → Consumes 0 s (decode_with_spans (decoder s a))
unfolding decode_with_spans
spans-Consumes [] a = λ e. cc
spans-Consumes (b ∷ s) a =
    if_elim (Consumes 0 (b ∷ s)) (b == 100)
      (λ _. relax (b ∷ s) _ (
        shift 1 0 (b ∷ s) s _ (omega arith) (
          relax s _ (
            spans_loop-Consumes (decode_value 99) (value-Consumes 99) (suc (length s)) none s
              (a + 1) (omega arith)))))
      (λ _. λ e. cc)

-- `DecodeWithSpans` never runs out of fuel.
pub decode_with_spans-ne-exhausted : (d : Decoder) → decode_with_spans d ≢ err exhausted
decode_with_spans-ne-exhausted d e =
    (subst (Consumes 0 d.stream) e (spans-Consumes d.stream d.at)) refl
