-- ===== src/Bencode/Decimal/RoundTrip.antt =====
-- What `strconv.ParseInt` reads back of what `%d` printed.
use p2p_file_distribution.Base.{
  ℕ, zero, suc, ◌+◌, ◌*◌, ◌/◌, ◌%◌, ◌<◌, ◌≤◌, ltb, if_elim, [], ◌∷◌, some, ◌≡◌, refl, arith, ◌∙◌,
  Bool-cases, inl, inr,
}
use p2p_file_distribution.Base.Int.{ℤ, pos, negsuc, two_63}
use p2p_file_distribution.Base.Bytes.{Bytes}
use p2p_file_distribution.Bencode.Decimal.{
  digits, format_nat, format_int, scan, positive, negative, parse_digits, parse_int,
}

abbrev pub pow_10 : ℕ → ℕ
pow_10 zero = 1
pow_10 (suc n) = 10 * pow_10 n

last_digit : (n : ℕ) (out : Bytes) → n < 10 → scan 0 ((48 + n) ∷ out) ≡ scan n out
unfolding scan
last_digit n out h = ground arith

next_digit : (n : ℕ) (out : Bytes) → scan (n / 10) ((48 + n % 10) ∷ out) ≡ scan n out
unfolding scan
next_digit n out = ground arith

scan-digits : (room n : ℕ) (out : Bytes) → n < pow_10 room → scan 0 (digits room n out) ≡ scan n out
unfolding digits
scan-digits zero n out h = let e : n ≡ 0 = omega arith in rw e refl
scan-digits (suc room) n out h = elim (Bool-cases (ltb n 10)) [
  | inl e ↦ rw e (last_digit n out (let h' : n < 10 = ground arith in h'))
  | inr e ↦ rw (e, scan-digits room (n / 10) ((48 + n % 10) ∷ out) (omega arith)) (next_digit n out)
]

-- The first digit of a positive number is not 0.
pub data StartsPositive : Bytes → Type 0 where
  starts : (c : ℕ) (s : Bytes) → 49 ≤ c → c ≤ 57 → StartsPositive (c ∷ s)

pub digits-StartsPositive :
    (room n : ℕ) (out : Bytes) → 0 < n → n < pow_10 room → StartsPositive (digits room n out)
unfolding digits
digits-StartsPositive zero n out h k = absurd (omega arith)
digits-StartsPositive (suc room) n out h k =
    if_elim StartsPositive (ltb n 10)
      (λ e. starts (48 + n) out (omega arith) (let e' : n < 10 = ground arith in omega arith))
      (λ e.
        digits-StartsPositive room (n / 10) ((48 + n % 10) ∷ out)
          (let e' : 10 ≤ n = ground arith in omega arith) (omega arith))

pub format_nat-StartsPositive : (n : ℕ) → 0 < n → n < 2 * two_63 → StartsPositive (format_nat n)
unfolding format_nat
format_nat-StartsPositive n h k = digits-StartsPositive 20 n [] h (omega arith)

skip_test : (s : Bytes) → StartsPositive s → parse_digits s ≡ scan 0 s
unfolding parse_digits
skip_test _ (starts c s lo hi) = refl

parse_digits-format_nat : (n : ℕ) → n < 2 * two_63 → parse_digits (format_nat n) ≡ some n
unfolding format_nat scan
parse_digits-format_nat zero h = unfold digits parse_digits in refl
parse_digits-format_nat (suc n) h =
    skip_test (digits 20 (suc n) [])
      (digits-StartsPositive 20 (suc n) [] (omega arith) (omega arith))
    ∙ scan-digits 20 (suc n) [] (omega arith)

parse_int_unsigned : (s : Bytes) → StartsPositive s → parse_int s ≡ positive (parse_digits s)
unfolding parse_int
parse_int_unsigned _ (starts c s lo hi) = ground arith

parse_int_signed : (s : Bytes) → parse_int (45 ∷ s) ≡ negative (parse_digits s)
unfolding parse_int
parse_int_signed s = refl

abbrev pub IsInt64 : ℤ → Type 0
IsInt64 (pos n) = n < two_63
IsInt64 (negsuc n) = n < two_63

-- `ParseInt` gives back every int64 from what `%d` prints for it.
pub parse_int-format_int : (n : ℤ) → IsInt64 n → parse_int (format_int n) ≡ some n
unfolding format_int
parse_int-format_int (pos zero) h = unfold format_nat digits parse_int parse_digits scan in refl
parse_int-format_int (pos (suc n)) h =
    rw
      (
        parse_int_unsigned (format_nat (suc n))
            (format_nat-StartsPositive (suc n) (omega arith) (omega arith)),
        parse_digits-format_nat (suc n) (omega arith),
      )
      (ground arith)
parse_int-format_int (negsuc n) h =
    rw (parse_int_signed (format_nat (suc n)), parse_digits-format_nat (suc n) (omega arith))
      (ground arith)
