-- ===== src/Peer/Bitfield.antt =====
-- internal/peer/bitfield.go. A bitfield is its bytes; `SetPiece` returns the changed slice.
pub mod Bits
pub mod Laws
use Prim.Native.Nat.{bit_and, bit_or}
use p2p_file_distribution.Base.{
  ℕ, zero, suc, ◌+◌, ◌-◌, ◌*◌, ◌/◌, ◌%◌, ◌^◌, ◌==◌, if◌then◌else◌, Bool, true, false, not, List, [],
  ◌∷◌, Option, none, some, length, get_elem?, set, Result, ok, err,
}
use p2p_file_distribution.Base.Int.{ℤ, pos, negsuc}
use p2p_file_distribution.Base.Bytes.{Bytes}

-- `(b >> offset) & 1 != 0` on a byte
unfoldable pub test_bit : ℕ → ℕ → Bool
test_bit b offset = not (bit_and (b / 2 ^ offset) 1 == 0)

-- `b |= 1 << offset` on a byte: what is shifted out of the byte is lost
unfoldable pub set_bit : ℕ → ℕ → ℕ
set_bit b offset = bit_or b (2 ^ offset % 256)

unfoldable pub test_at : Bytes → ℕ → ℕ → Bool
test_at bf byte_index bit_offset = elim (get_elem? bf byte_index) [
  | none ↦ false
  | some b ↦ test_bit b bit_offset
]

unfoldable pub set_at : Bytes → ℕ → ℕ → Bytes
set_at bf byte_index bit_offset = elim (get_elem? bf byte_index) [
  | none ↦ bf
  | some b ↦ set bf byte_index (set_bit b bit_offset)
]

-- Go divides towards zero: -1 to -7 lie in byte 0 with an offset above 7, and the others below -7
-- have a negative byte index.
unfoldable pub has_piece : Bytes → ℤ → Bool
unfolding test_at
has_piece bf (pos i) = test_at bf (i / 8) (7 - i % 8)
has_piece bf (negsuc n) = if suc n / 8 == 0 then test_at bf 0 (7 + suc n % 8) else false

unfoldable pub set_piece : Bytes → ℤ → Bytes
unfolding set_at
set_piece bf (pos i) = set_at bf (i / 8) (7 - i % 8)
set_piece bf (negsuc n) = if suc n / 8 == 0 then set_at bf 0 (7 + suc n % 8) else bf

-- The inner loop of `Count`, from the highest offset down.
unfoldable pub bits_of : ℕ → ℕ → ℕ
bits_of zero b = 0
bits_of (suc k) b = bits_of k b + (if test_bit b k then 1 else 0)

unfoldable pub count : Bytes → ℕ
count [] = 0
count (b ∷ bf) = bits_of 8 b + count bf

pub data Error : Type 0 where
  bad_length : Error

unfoldable pub validate : Bytes → ℕ → Result Error (Unit {0})
validate bf piece_count = if length bf == (piece_count + 7) / 8 then ok tt else err bad_length

-- make(Bitfield, (pieceCount+7)/8)
abbrev pub empty_bytes : ℕ → Bytes
empty_bytes zero = []
empty_bytes (suc n) = 0 ∷ empty_bytes n

abbrev pub empty_for : ℕ → Bytes
empty_for piece_count = empty_bytes ((piece_count + 7) / 8)
