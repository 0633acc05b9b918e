-- ===== src/Peer/Bitfield/Laws.antt =====
-- `HasPiece`, `SetPiece` and `Count` together: a bitfield is a set of piece indices.
use p2p_file_distribution.Base.{
  ℕ, zero, suc, ◌+◌, ◌-◌, ◌*◌, ◌/◌, ◌%◌, ◌<◌, ◌≤◌, ◌==◌, if◌then◌else◌, false, ◌&&◌, ◌||◌, ◌≡◌,
  refl, arith, length, get_elem?, set, some, [], ◌∷◌, length-set, Bool-cases, Option-cases, inl,
  inr, get_elem?-some, true, not, ap, get_elem?-set, get_elem?-none,
}
use p2p_file_distribution.Base.Int.{pos, negsuc}
use p2p_file_distribution.Base.Bytes.{Bytes, IsByte, table, table-get, All, All-get, set-All}
use p2p_file_distribution.Peer.Bitfield.{
  test_bit, empty_bytes, set_bit, bits_of, test_at, set_at, has_piece, set_piece, count,
}
use p2p_file_distribution.Peer.Bitfield.Bits.{
  test_bit-set_bit, bits_of-set_bit, set_bit-lt, high_bit,
}

-- An offset past byte 0.
past_byte :
    (bf : Bytes) (k : ℕ)
    → All IsByte bf
    → k < 7
    → (test_at bf 0 (8 + k) ≡ false) × (set_at bf 0 (8 + k) ≡ bf)
unfolding test_at set_at
past_byte [] k bytes h = (refl, refl)
past_byte (b ∷ bf) k bytes h = ground (arith, high_bit b k bytes.0 h)

module _ (bf : Bytes) (bytes : All IsByte bf) where
  test_at-set_at :
      (i o j p : ℕ)
      → i < length bf
      → o < 8
      → p < 8
      → test_at (set_at bf i o) j p ≡ ((i == j && (o == p)) || test_at bf j p)
  unfolding test_at set_at
  test_at-set_at i o j p h ho hp =
      let (b, e) = get_elem?-some bf i h in
      ground (
        arith,
        e,
        get_elem?-set bf i j (set_bit b o) h,
        test_bit-set_bit b o p (All-get IsByte bf i bytes e) ho hp,
      )

  set_at-All : (i o : ℕ) → o < 8 → All IsByte (set_at bf i o)
  unfolding set_at
  set_at-All i o ho = elim (Option-cases (get_elem? bf i)) [
    | inl e ↦ rw (e, set_at) bytes
    | inr (b, e) ↦
        rw (e, set_at)
          (set-All IsByte bf i (set_bit b o) bytes
            (set_bit-lt b o (All-get IsByte bf i bytes e) ho))
  ]

  set_at-length : (i o : ℕ) → length (set_at bf i o) ≡ length bf
  unfolding set_at
  set_at-length i o = elim (Option-cases (get_elem? bf i)) [
    | inl e ↦ rw (e, set_at)
    | inr (b, e) ↦ rw (e, set_at) (length-set bf i (set_bit b o))
  ]

  -- After `SetPiece(i)`, the pieces are those from before and `i`.
  pub has_piece-set_piece :
      (i j : ℕ)
      → i < 8 * length bf
      → has_piece (set_piece bf (pos i)) (pos j) ≡ (i == j || has_piece bf (pos j))
  unfolding has_piece set_piece
  has_piece-set_piece i j h =
      rw
        (test_at-set_at (i / 8) (7 - i % 8) (j / 8) (7 - j % 8) (omega arith) (omega arith)
          (omega arith))
        (ground arith)

  pub set_piece-All : (i : ℕ) → All IsByte (set_piece bf (pos i))
  unfolding set_piece
  set_piece-All i = set_at-All (i / 8) (7 - i % 8) (omega arith)

  pub set_piece-length : (i : ℕ) → length (set_piece bf (pos i)) ≡ length bf
  unfolding set_piece
  set_piece-length i = set_at-length (i / 8) (7 - i % 8)

  -- A negative index names no piece: it is never there, and setting it changes nothing.
  pub negative_piece : (n : ℕ) → (has_piece bf (negsuc n) ≡ false) × (set_piece bf (negsuc n) ≡ bf)
  unfolding has_piece set_piece
  negative_piece n = elim (Bool-cases (suc n / 8 == 0)) [
    | inl e ↦
        let same : 7 + suc n % 8 ≡ 8 + n = ground arith in
        rw (e, same) (past_byte bf n bytes (ground arith))
    | inr e ↦ rw e (refl, refl)
  ]

  -- An index past the last byte is not there either, and setting it changes nothing.
  pub high_piece :
      (i : ℕ) → 8 * length bf ≤ i → (has_piece bf (pos i) ≡ false) × (set_piece bf (pos i) ≡ bf)
  unfolding has_piece set_piece
  high_piece i h = rw (get_elem?-none bf (i / 8) (omega arith), test_at, set_at) (refl, refl)

count-set :
    (bf : Bytes) (i b v : ℕ)
    → get_elem? bf i ≡ some b
    → count (set bf i v) + bits_of 8 b ≡ count bf + bits_of 8 v
unfolding count
count-set [] i b v e = cc
count-set (x ∷ bf) zero b v e = ground arith
count-set (x ∷ bf) (suc i) b v e = omega (arith, count-set bf i b v e)

-- Marking a piece that was not there adds one to the count, and marking it again adds nothing.
pub count-set_piece :
    (bf : Bytes) (i : ℕ)
    → All IsByte bf
    → i < 8 * length bf
    → count (set_piece bf (pos i)) ≡ count bf + (if has_piece bf (pos i) then 0 else 1)
unfolding set_piece has_piece
count-set_piece bf i bytes h =
    let (b, e) = get_elem?-some bf (i / 8) (omega arith) in
    rw (e, test_at, set_at)
      (omega (
        arith,
        count-set bf (i / 8) b (set_bit b (7 - i % 8)) e,
        bits_of-set_bit b (7 - i % 8) (All-get IsByte bf (i / 8) bytes e) (omega arith),
      ))

zero_table : table (λ o. not (test_bit 0 o)) 8 ≡ true
unfolding table test_bit
zero_table = refl

zero_bit : (o : ℕ) → o < 8 → test_bit 0 o ≡ false
zero_bit o h = let e : not (test_bit 0 o) ≡ true = table-get _ 8 h zero_table in ground (arith, e)

get_elem?-empty : (n k : ℕ) {b : ℕ} → get_elem? (empty_bytes n) k ≡ some b → b ≡ 0
get_elem?-empty zero k e = cc
get_elem?-empty (suc n) zero e = ground arith
get_elem?-empty (suc n) (suc k) e = get_elem?-empty n k e

-- The bitfield of make(Bitfield, n): no pieces.
pub has_piece-empty : (n j : ℕ) → has_piece (empty_bytes n) (pos j) ≡ false
unfolding has_piece test_at
has_piece-empty n j = elim (Option-cases (get_elem? (empty_bytes n) (j / 8))) [
  | inl out ↦ rw (out, test_at) refl
  | inr (b, found) ↦
      rw (found, test_at, get_elem?-empty n (j / 8) found) (zero_bit (7 - j % 8) (omega arith))
]

pub empty_bytes-All : (n : ℕ) → All IsByte (empty_bytes n)
empty_bytes-All zero = tt
empty_bytes-All (suc n) = (omega arith, empty_bytes-All n)

pub length-empty_bytes : (n : ℕ) → length (empty_bytes n) ≡ n
length-empty_bytes zero = refl
length-empty_bytes (suc n) = ap suc (length-empty_bytes n)
