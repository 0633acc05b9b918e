-- ===== src/Base/Bytes.antt =====
-- Byte strings, and `encoding/binary`'s big-endian words (the standard library's).
use Prim.Native.Nat.{ℕ, zero, suc, ◌+◌, ◌*◌, ◌/◌, ◌%◌, ◌<◌}
use mathlib.Core.Path.{◌≡◌, refl, subst}
use mathlib.Core.Bool.{Bool, true, false, ◌&&◌}
use mathlib.Core.List.{List, [], ◌∷◌, ◌++◌}
use mathlib.Core.Option.{Option, none, some}
use native.Mathlib.Omega.{arith}
use p2p_file_distribution.Base.Outcome.{Result, ok, panic}
use p2p_file_distribution.Base.Lists.{length, get_elem?, set}
use p2p_file_distribution.Base.Tests.{◌==◌}

abbrev pub Bytes : Type 0
Bytes = List ℕ

abbrev pub IsByte : ℕ → Type 0
IsByte b = b < 256

abbrev pub All {ℓ κ} : {A : Type ℓ} → (A → Type κ) → List A → Type κ
All P [] = Unit
All P (x ∷ xs) = P x × All P xs

-- binary.BigEndian.PutUint32(_, uint32(n))
abbrev pub put_u32 : ℕ → Bytes
put_u32 n = n / 16777216 % 256 ∷ n / 65536 % 256 ∷ n / 256 % 256 ∷ n % 256 ∷ []

-- binary.BigEndian.Uint32 and Uint16 on bytes that are there.
abbrev pub u32 : ℕ → ℕ → ℕ → ℕ → ℕ
u32 a b c d = ((a * 256 + b) * 256 + c) * 256 + d

abbrev pub u16 : ℕ → ℕ → ℕ
u16 a b = a * 256 + b

-- io.ReadFull: the next `n` bytes of a stream and the stream behind them, or an unexpected end.
unfoldable pub read_full : ℕ → Bytes → Option (Bytes × Bytes)
read_full zero s = some ([], s)
read_full (suc n) [] = none
read_full (suc n) (b ∷ s) = elim (read_full n s) [
  | none ↦ none
  | some (front, rest) ↦ some (b ∷ front, rest)
]

pub read_full-append : (xs rest : Bytes) → read_full (length xs) (xs ++ rest) ≡ some (xs, rest)
unfolding read_full
read_full-append [] rest = refl
read_full-append (x ∷ xs) rest = ground (arith, read_full-append xs rest)

pub read_full-length :
    (n : ℕ) (s front rest : Bytes)
    → read_full n s ≡ some (front, rest)
    → (s ≡ front ++ rest) × (length front ≡ n)
unfolding read_full
read_full-length zero s front rest e = (cc, cc)
read_full-length (suc n) [] front rest e = cc
read_full-length (suc n) (b ∷ s) [] rest e = ground arith
read_full-length (suc n) (b ∷ s) (c ∷ front) rest e =
    ground (arith, read_full-length n s front rest)

pub read_full_short : (n : ℕ) (s : Bytes) → length s < n → read_full n s ≡ none
unfolding read_full
read_full_short zero s h = absurd (omega arith)
read_full_short (suc n) [] h = refl
read_full_short (suc n) (b ∷ s) h = ground (arith, read_full_short n s)

pub u32-put :
    (n : ℕ)
    → n < 4294967296
    → u32 (n / 16777216 % 256) (n / 65536 % 256) (n / 256 % 256) (n % 256) ≡ n
u32-put n h = omega arith

-- A table over the numbers below `bound`, checked by evaluation.
unfoldable pub table : (ℕ → Bool) → ℕ → Bool
table test zero = true
table test (suc bound) = let rest = table test bound in rest && test bound

pub table-get :
    (test : ℕ → Bool) (bound : ℕ) {b : ℕ} → b < bound → table test bound ≡ true → test b ≡ true
unfolding table
table-get test (suc bound) {b} lt checked = ground (arith, table-get test bound {b = b})
table-get test zero lt checked = absurd (omega (arith, lt))

module _ {ℓ κ} {A : Type ℓ} (P : A → Type κ) where
  pub All-get : (xs : List A) (i : ℕ) {x : A} → All P xs → get_elem? xs i ≡ some x → P x
  All-get [] i h e = cc
  All-get (y ∷ xs) zero {x} h e = let e' : y ≡ x = cc in subst P e' h.0
  All-get (y ∷ xs) (suc i) h e = All-get xs i h.1 e

  pub set-All : (xs : List A) (i : ℕ) (v : A) → All P xs → P v → All P (set xs i v)
  set-All [] i v h p = tt
  set-All (x ∷ xs) zero v h p = (p, h.1)
  set-All (x ∷ xs) (suc i) v h p = (h.0, set-All xs i v h.1 p)

-- binary.BigEndian.Uint32(b): a panic below four bytes.
unfoldable pub be_u32 {ℓ} : {E : Type ℓ} → Bytes → Result E ℕ
be_u32 (a ∷ b ∷ c ∷ d ∷ _) = ok (u32 a b c d)
be_u32 _ = panic

unfoldable pub be_u16 {ℓ} : {E : Type ℓ} → Bytes → Result E ℕ
be_u16 (a ∷ b ∷ _) = ok (u16 a b)
be_u16 _ = panic

pub split_u32 :
    (a b c d : ℕ) → All IsByte (a ∷ b ∷ c ∷ d ∷ []) → put_u32 (u32 a b c d) ≡ a ∷ b ∷ c ∷ d ∷ []
split_u32 a b c d (ha, (hb, (hc, (hd, _)))) = ground arith

-- Four bytes are the encoding of the word that they spell.
pub put-be_u32 :
    (q : Bytes) (n : ℕ)
    → length q ≡ 4
    → All IsByte q
    → be_u32 {E = Unit {0}} q ≡ ok n
    → put_u32 n ≡ q
unfolding be_u32
put-be_u32 (a ∷ b ∷ c ∷ d ∷ []) n len bytes e =
    let same : u32 a b c d ≡ n = cc in rw (← same) (split_u32 a b c d bytes)
put-be_u32 _ n len bytes e = absurd (omega arith)

pub read_full-none : (n : ℕ) (s : Bytes) → read_full n s ≡ none → length s < n
unfolding read_full
read_full-none zero s e = cc
read_full-none (suc n) [] e = omega arith
read_full-none (suc n) (b ∷ s) e = ground (arith, read_full-none n s)

-- `==` on Go strings.
unfoldable pub bytes_eq : Bytes → Bytes → Bool
bytes_eq [] [] = true
bytes_eq [] (y ∷ ys) = false
bytes_eq (x ∷ xs) [] = false
bytes_eq (x ∷ xs) (y ∷ ys) = x == y && bytes_eq xs ys

pub bytes_eq_refl : (xs : Bytes) → bytes_eq xs xs ≡ true
unfolding bytes_eq
bytes_eq_refl [] = refl
bytes_eq_refl (x ∷ xs) = ground (arith, bytes_eq_refl xs)

pub bytes_eq→eq : (xs ys : Bytes) → bytes_eq xs ys ≡ true → xs ≡ ys
unfolding bytes_eq
bytes_eq→eq [] [] e = refl
bytes_eq→eq [] (y ∷ ys) e = cc
bytes_eq→eq (x ∷ xs) [] e = cc
bytes_eq→eq (x ∷ xs) (y ∷ ys) e = ground (arith, bytes_eq→eq xs ys)
