-- ===== src/Bencode/Decimal/Text.antt =====
-- The texts that `%d` prints, as the decoder's scanner and its validation see them.
use p2p_file_distribution.Base.{
  ℕ, zero, suc, ◌+◌, ◌/◌, ◌%◌, ◌<◌, ltb, if_elim, Bool, true, false, [], ◌∷◌, ◌++◌, some, ◌≡◌, refl,
  arith,
}
use p2p_file_distribution.Base.Int.{ℤ, pos, negsuc}
use p2p_file_distribution.Base.Bytes.{Bytes}
use p2p_file_distribution.Bencode.Decimal.{digits, format_nat, format_int, is_digit}
use p2p_file_distribution.Bencode.Decimal.RoundTrip.{
  StartsPositive, starts, format_nat-StartsPositive, IsInt64,
}
use p2p_file_distribution.Bencode.Decode.{
  read_until, all_digits, valid_digits, validate_integer_string,
}

last : (n : ℕ) (out : Bytes) → n < 10 → all_digits out ≡ true → all_digits ((48 + n) ∷ out) ≡ true
unfolding all_digits
last n out h k = ground arith

next : (n : ℕ) (out : Bytes) → all_digits out ≡ true → all_digits ((48 + n % 10) ∷ out) ≡ true
unfolding all_digits
next n out k = ground arith

digits-all_digits :
    (room n : ℕ) (out : Bytes) → all_digits out ≡ true → all_digits (digits room n out) ≡ true
unfolding digits
digits-all_digits zero n out h = h
digits-all_digits (suc room) n out h =
    if_elim (λ (s : Bytes). all_digits s ≡ true) (ltb n 10)
      (λ e. last n out (let e' : n < 10 = ground arith in e') h)
      (λ e. digits-all_digits room (n / 10) ((48 + n % 10) ∷ out) (next n out h))

read_until-append :
    (delim : ℕ) (s rest : Bytes)
    → all_digits s ≡ true
    → is_digit delim ≡ false
    → read_until delim (s ++ delim ∷ rest) ≡ some (s, rest)
unfolding read_until all_digits
read_until-append delim [] rest h k = ground arith
read_until-append delim (c ∷ s) rest h k = ground (arith, read_until-append delim s rest)

pub format_nat-all_digits : (n : ℕ) → all_digits (format_nat n) ≡ true
unfolding format_nat all_digits
format_nat-all_digits n = digits-all_digits 20 n [] refl

-- The scanner finds the end of a printed number.
pub read_until-format_nat :
    (delim n : ℕ) (rest : Bytes)
    → is_digit delim ≡ false
    → read_until delim (format_nat n ++ delim ∷ rest) ≡ some (format_nat n, rest)
read_until-format_nat delim n rest h =
    read_until-append delim (format_nat n) rest (format_nat-all_digits n) h

pub read_until-format_int :
    (n : ℤ) (rest : Bytes) → read_until 101 (format_int n ++ 101 ∷ rest) ≡ some (format_int n, rest)
unfolding format_int read_until
read_until-format_int (pos n) rest = read_until-format_nat 101 n rest refl
read_until-format_int (negsuc n) rest = rw (read_until-format_nat 101 (suc n) rest refl) refl

valid_positive :
    (neg : Bool) (s : Bytes) → StartsPositive s → all_digits s ≡ true → valid_digits neg s ≡ true
unfolding valid_digits all_digits
valid_positive neg _ (starts c [] lo hi) h = ground arith
valid_positive neg _ (starts c (b ∷ s) lo hi) h = ground arith

valid_unsigned :
    (s : Bytes) → StartsPositive s → all_digits s ≡ true → validate_integer_string s ≡ true
unfolding validate_integer_string
valid_unsigned _ (starts c s lo hi) h =
    ground (arith, valid_positive false (c ∷ s) (starts c s lo hi) h)

-- The decoder's validation accepts what `%d` prints for an int64.
pub validate-format_int : (n : ℤ) → IsInt64 n → validate_integer_string (format_int n) ≡ true
unfolding format_int validate_integer_string
validate-format_int (pos zero) h = unfold format_nat digits valid_digits all_digits in refl
validate-format_int (pos (suc n)) h =
    valid_unsigned (format_nat (suc n))
      (format_nat-StartsPositive (suc n) (omega arith) (omega arith))
      (format_nat-all_digits (suc n))
validate-format_int (negsuc n) h =
    valid_positive true (format_nat (suc n))
      (format_nat-StartsPositive (suc n) (omega arith) (omega arith))
      (format_nat-all_digits (suc n))
