-- ===== src/Metainfo/Name.antt =====
-- internal/metainfo/parse.go, validateName: the name of a torrent becomes the name of a file.
use p2p_file_distribution.Base.{
  ℕ, ◌==◌, if◌then◌else◌, Bool, false, ◌||◌, [], ◌∷◌, Result, ok, err, ◌≡◌, ◌≢◌, arith,
}
use p2p_file_distribution.Base.Bytes.{Bytes, All}

pub data NameError : Type 0 where
  empty_name has_separator starts_with_dot is_absolute : NameError

-- strings.ContainsAny(name, "/\\")
unfoldable pub contains_separator : Bytes → Bool
contains_separator [] = false
contains_separator (c ∷ name) = c == 47 || c == 92 || contains_separator name

-- The tests on a name that starts with `c`; filepath.IsAbs is that of Unix.
unfoldable pub check_name : ℕ → Bytes → Result NameError (Unit {0})
check_name c name =
    if contains_separator name
    then err has_separator
    else if c == 46
    then err starts_with_dot
    else if c == 47
    then err is_absolute
    else ok tt

unfoldable pub validate_name : Bytes → Result NameError (Unit {0})
unfolding check_name
validate_name [] = err empty_name
validate_name (c ∷ name) = check_name c (c ∷ name)

-- A name of a file in the directory of the download: not empty, without separators, and not hidden.
pub record IsPlain (name : Bytes) : Type 0 where
  pub separators : All (λ c. (c ≢ 47) × (c ≢ 92)) name
  pub not_empty : name ≢ []
  pub dot : (rest : Bytes) → name ≢ 46 ∷ rest

no_separator :
    (name : Bytes) → contains_separator name ≡ false → All (λ c. (c ≢ 47) × (c ≢ 92)) name
unfolding contains_separator
no_separator [] h = tt
no_separator (c ∷ name) h =
    ((λ e. ground arith, λ e. ground arith), no_separator name (ground arith))

-- `validateName` accepts only names without a path separator that are not empty and do not start
-- with a dot.
pub validate_name-IsPlain : (name : Bytes) → validate_name name ≡ ok tt → IsPlain name
unfolding validate_name
validate_name-IsPlain [] h = cc
validate_name-IsPlain (c ∷ name) h = record {
  separators = no_separator (c ∷ name) (ground arith);
  not_empty = λ e. cc;
  dot = λ rest e. let e' : c ≡ 46 = cc in ground arith;
}
