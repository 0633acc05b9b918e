-- ===== src/Bencode/Decimal.antt =====
-- The decimal numbers of `fmt` and `strconv`.
pub mod RoundTrip
pub mod Text
use p2p_file_distribution.Base.{
  ℕ, zero, suc, ◌+◌, ◌-◌, ◌*◌, ◌/◌, ◌%◌, ◌<◌, ltb, leb, ◌==◌, if◌then◌else◌, Bool, ◌&&◌, List, [],
  ◌∷◌, ◌++◌, Option, none, some,
}
use p2p_file_distribution.Base.Int.{ℤ, pos, negsuc, two_63}
use p2p_file_distribution.Base.Bytes.{Bytes}

-- The digits of `n` before `out`, at most as many as the first argument says.
unfoldable pub digits : ℕ → ℕ → Bytes → Bytes
digits zero n out = out
digits (suc room) n out =
    let rest = digits room (n / 10) ((48 + n % 10) ∷ out) in
    if ltb n 10 then (48 + n) ∷ out else rest

-- `%d` of a number that is not negative. A 64-bit number has at most 20 digits.
unfoldable pub format_nat : ℕ → Bytes
format_nat n = digits 20 n []

-- `%d` of an int64.
unfoldable pub format_int : ℤ → Bytes
format_int (pos n) = format_nat n
format_int (negsuc n) = 45 ∷ format_nat (suc n)

abbrev pub is_digit : ℕ → Bool
is_digit c = leb 48 c && leb c 57

unfoldable pub scan : ℕ → Bytes → Option ℕ
scan acc [] = some acc
scan acc (c ∷ s) = let rest = scan (acc * 10 + (c - 48)) s in if is_digit c then rest else none

abbrev pub positive : Option ℕ → Option ℤ
positive none = none
positive (some n) = if ltb n two_63 then some (pos n) else none

abbrev pub negative : Option ℕ → Option ℤ
negative none = none
negative (some zero) = some (pos 0)
negative (some (suc n)) = if ltb n two_63 then some (negsuc n) else none

-- The digits of a number, of which there must be one.
unfoldable pub parse_digits : Bytes → Option ℕ
parse_digits [] = none
parse_digits (c ∷ s) = scan 0 (c ∷ s)

-- strconv.ParseInt(s, 10, 64): a sign of either kind, then digits, within the range of an int64.
unfoldable pub parse_int : Bytes → Option ℤ
parse_int [] = none
parse_int (c ∷ s) =
    if c == 43
    then positive (parse_digits s)
    else if c == 45
    then negative (parse_digits s)
    else positive (parse_digits (c ∷ s))
