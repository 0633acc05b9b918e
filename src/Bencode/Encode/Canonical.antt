-- ===== src/Bencode/Encode/Canonical.antt =====
-- The encoder leaves entries that are in order where they are.
use p2p_file_distribution.Base.{
  Bool, true, false, ◌&&◌, [], ◌∷◌, ◌++◌, Option, some, ◌≡◌, refl, arith,
}
use p2p_file_distribution.Base.Bytes.{Bytes}
use p2p_file_distribution.Bencode.Value.{Entries, empty, entry}
use p2p_file_distribution.Bencode.Encode.{
  bytes_lt, in_order, Sorted, done, item, insert, write_sorted, encode, sort_entries,
  encode_byte_string,
}

-- The keys ascend, from above `previous`.
unfoldable pub ascending : Option Bytes → Entries → Bool
ascending previous empty = true
ascending previous (entry k v es) = in_order previous k && ascending (some k) es

bytes_lt_asymmetric : (xs ys : Bytes) → bytes_lt xs ys ≡ true → bytes_lt ys xs ≡ false
unfolding bytes_lt
bytes_lt_asymmetric [] [] h = refl
bytes_lt_asymmetric [] (y ∷ ys) h = refl
bytes_lt_asymmetric (x ∷ xs) [] h = cc
bytes_lt_asymmetric (x ∷ xs) (y ∷ ys) h = ground (arith, bytes_lt_asymmetric xs ys)

-- The entries, one after the other.
unfoldable pub write_entries : Entries → Bytes
unfolding encode
write_entries empty = []
write_entries (entry k v es) = encode_byte_string k ++ (encode v ++ write_entries es)

unfoldable pub in_place : Entries → Sorted
unfolding encode
in_place empty = done
in_place (entry k v es) = item k (encode v) (in_place es)

insert-in_place :
    (k : Bytes) (content : Bytes) (es : Entries)
    → ascending (some k) es ≡ true
    → insert k content (in_place es) ≡ item k content (in_place es)
unfolding insert in_place ascending
insert-in_place k content empty h = refl
insert-in_place k content (entry k' v es) h = ground (arith, bytes_lt_asymmetric k k')

sort-in_place :
    (previous : Option Bytes) (es : Entries)
    → ascending previous es ≡ true
    → sort_entries es ≡ in_place es
unfolding encode in_place ascending
sort-in_place previous empty h = refl
sort-in_place previous (entry k v es) h =
    let h' : ascending (some k) es ≡ true = ground arith in
    rw (sort-in_place (some k) es h') (insert-in_place k (encode v) es h')

write-in_place : (es : Entries) → write_sorted (in_place es) ≡ write_entries es
unfolding write_sorted in_place write_entries
write-in_place empty = refl
write-in_place (entry k v es) = rw (write-in_place es) refl

-- A dictionary whose keys ascend is written in the order that it has.
pub write_sorted-ascending :
    (previous : Option Bytes) (es : Entries)
    → ascending previous es ≡ true
    → write_sorted (sort_entries es) ≡ write_entries es
write_sorted-ascending previous es h = rw (sort-in_place previous es h) (write-in_place es)
