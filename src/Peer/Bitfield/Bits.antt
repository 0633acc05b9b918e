-- ===== src/Peer/Bitfield/Bits.antt =====
-- The bits of one byte: tables over all bytes, checked by evaluation.
use p2p_file_distribution.Base.{
  ℕ, ◌+◌, ◌<◌, ◌==◌, ==_iff, ltb, if◌then◌else◌, Bool, true, false, not, ◌&&◌, ◌||◌, ◌≡◌, refl,
  arith,
}
use p2p_file_distribution.Base.Bytes.{table, table-get}
use p2p_file_distribution.Peer.Bitfield.{test_bit, set_bit, bits_of}

same : Bool → Bool → Bool
same true b = b
same false b = not b

same→eq : (a b : Bool) → same a b ≡ true → a ≡ b
unfolding same
same→eq a b h = ground arith

set_test_table :
    table
      (λ b. table (λ o. table (λ p. same (test_bit (set_bit b o) p) (o == p || test_bit b p)) 8) 8)
      256
    ≡ true
unfolding table same test_bit set_bit
set_test_table = refl

-- Setting a bit sets it, and leaves the others.
pub test_bit-set_bit :
    (b o p : ℕ) → b < 256 → o < 8 → p < 8 → test_bit (set_bit b o) p ≡ (o == p || test_bit b p)
test_bit-set_bit b o p hb ho hp =
    same→eq _ _ (table-get _ 8 hp (table-get _ 8 ho (table-get _ 256 hb set_test_table)))

count_table :
    table
      (λ b. table (λ o. bits_of 8 (set_bit b o) == bits_of 8 b + (if test_bit b o then 0 else 1)) 8)
      256
    ≡ true
unfolding table test_bit set_bit bits_of
count_table = refl

pub bits_of-set_bit :
    (b o : ℕ)
    → b < 256
    → o < 8
    → bits_of 8 (set_bit b o) ≡ bits_of 8 b + (if test_bit b o then 0 else 1)
bits_of-set_bit b o hb ho = (==_iff _ _).0 (table-get _ 8 ho (table-get _ 256 hb count_table))

byte_table : table (λ b. table (λ o. ltb (set_bit b o) 256) 8) 256 ≡ true
unfolding table set_bit
byte_table = refl

pub set_bit-lt : (b o : ℕ) → b < 256 → o < 8 → set_bit b o < 256
set_bit-lt b o hb ho =
    let h : ltb (set_bit b o) 256 ≡ true = table-get _ 8 ho (table-get _ 256 hb byte_table) in
    ground (arith, h)

high_table :
    table (λ b. table (λ k. not (test_bit b (8 + k)) && (set_bit b (8 + k) == b)) 7) 256 ≡ true
unfolding table test_bit set_bit
high_table = refl

-- Offsets from 8 to 14 are past the byte: no bit is set there, and setting one changes nothing.
pub high_bit : (b k : ℕ) → b < 256 → k < 7 → (test_bit b (8 + k) ≡ false) × (set_bit b (8 + k) ≡ b)
high_bit b k hb hk =
    let h : (not (test_bit b (8 + k)) && (set_bit b (8 + k) == b)) ≡ true =
      table-get _ 7 hk (table-get _ 256 hb high_table) in
    ground (arith, h)
