-- ===== src/Metainfo/Sound.antt =====
-- What a torrent that `Parse` returns is known to satisfy.
use p2p_file_distribution.Base.{
  ℕ, ◌+◌, ◌<◌, List, Option, none, some, Result, ok, err, panic, ◌>>=◌, >>=-eq-ok, map_err, ◌≡◌,
  refl, arith,
}
use mathlib.Core.Path.{subst}
use p2p_file_distribution.Base.Int.{ℤ, pos, negsuc, two_63}
use p2p_file_distribution.Base.Bytes.{Bytes, bytes_eq→eq}
use p2p_file_distribution.Bencode.Value.{Entries, get, get_string, as_dictionary}
use p2p_file_distribution.Bencode.Decode.{Decoder, Span, decode_with_spans, new_decoder}
use p2p_file_distribution.Piece.Geometry.Bounds.{IsGeometry}
use p2p_file_distribution.Metainfo
use p2p_file_distribution.Metainfo.{
  Error, Torrent, piece_count, parse, parse_info, parse_announce_list, finish_at, at_end, validate,
  check_numbers, cross_check_info_hash, find_span, slice, info_key, announce_key,
}
use p2p_file_distribution.Metainfo.Name.{IsPlain, validate_name-IsPlain}
use p2p_file_distribution.Metainfo.Validity.{check_numbers-IsGeometry}

-- The lengths are positive numbers, whose geometry is well formed when their sum is an int64, and
-- the name is that of a plain file.
pub record IsValid (t : Torrent) : Type 0 where
  pub piece_length : ℕ
  pub total_length : ℕ
  pub piece_length_eq : t.piece_length ≡ pos piece_length
  pub total_length_eq : t.total_length ≡ pos total_length
  pub geometry :
      total_length + piece_length < two_63 → IsGeometry (piece_count t) piece_length total_length
  pub plain : IsPlain t.name

-- The span of the info dictionary in the input, whose bytes have the info hash.
pub record HasInfoHash (sha1 : Bytes → Bytes) (content : Bytes) (spans : List (Bytes × Span))
    (t : Torrent) : Type 0 where
  pub span : Span
  pub found : find_span info_key spans ≡ some span
  pub hashed : sha1 (slice content span) ≡ t.info_hash

map_err-ok : {E F A : Type 0} (f : E → F) (m : Result E A) (a : A) → map_err f m ≡ ok a → m ≡ ok a
map_err-ok f (ok b) a h = cc
map_err-ok f (err e) a h = cc
map_err-ok f panic a h = cc

check_numbers_positive :
    (count : ℕ) (pl tl : ℤ)
    → check_numbers count pl tl ≡ ok tt
    → (p q : ℕ) × (pl ≡ pos p) × (tl ≡ pos q)
unfolding check_numbers Metainfo.check_total
check_numbers_positive count (negsuc p) tl h = cc
check_numbers_positive count (pos p) (negsuc q) h = ground arith
check_numbers_positive count (pos p) (pos q) h = (p, q, refl, refl)

pub validate-IsValid : (t : Torrent) → validate t ≡ ok tt → IsValid t
unfolding validate piece_count
validate-IsValid t h =
    let (_, numbers, name) =
      >>=-eq-ok (check_numbers (piece_count t) t.piece_length t.total_length) _ h in
    let (p, q, ep, eq) =
      check_numbers_positive (piece_count t) t.piece_length t.total_length numbers in
    record {
      piece_length = p;
      total_length = q;
      piece_length_eq = ep;
      total_length_eq = eq;
      geometry = λ fits. check_numbers-IsGeometry (piece_count t) p q fits (rw (ep, eq) at numbers);
      plain = validate_name-IsPlain t.name (map_err-ok _ _ _ name);
    }

cross_check-eq :
    (sha1 : Bytes → Bytes) (content : Bytes) (span : Span) (hash : Bytes)
    → cross_check_info_hash sha1 content span hash ≡ ok tt
    → sha1 (slice content span) ≡ hash
unfolding cross_check_info_hash
cross_check-eq sha1 content span hash h = bytes_eq→eq _ hash (ground arith)

finish_at-HasInfoHash :
    (sha1 : Bytes → Bytes) (content : Bytes) (spans : List (Bytes × Span)) (t u : Torrent)
    (o : Option Span)
    → find_span info_key spans ≡ o
    → finish_at sha1 content t o ≡ ok u
    → HasInfoHash sha1 content spans u × IsValid u
unfolding finish_at
finish_at-HasInfoHash sha1 content spans t u none e h = cc
finish_at-HasInfoHash sha1 content spans t u (some span) e h =
    let (_, checked, rest) = >>=-eq-ok (cross_check_info_hash sha1 content span t.info_hash) _ h in
    let (_, valid, last) = >>=-eq-ok (validate t) _ rest in
    let same : t ≡ u = cc in
    subst (λ (x : Torrent). HasInfoHash sha1 content spans x × IsValid x) same
      (
        record {
          span = span;
          found = e;
          hashed = cross_check-eq sha1 content span t.info_hash checked;
        },
        validate-IsValid t valid,
      )

-- Of a torrent that `Parse` returns, the info hash is the SHA-1 of the bytes that the info dictionary
-- has in the input, the lengths are positive and fit the number of pieces (when their sum is an
-- int64), and the name is that of a plain file.
pub parse-IsValid :
    (sha1 : Bytes → Bytes) (content : Bytes) (t : Torrent)
    → parse sha1 content ≡ ok t
    → (root : Entries) × (spans : List (Bytes × Span)) × (d : Decoder) × (decode_with_spans
          (new_decoder content)
        ≡ ok ((root, spans), d))
      × HasInfoHash sha1 content spans t
      × IsValid t
unfolding parse
parse-IsValid sha1 content t h =
    let (p, decoded, h1) =
      >>=-eq-ok (map_err Metainfo.bencode (decode_with_spans (new_decoder content))) _ h in
    let (_, _, h2) = >>=-eq-ok (at_end p.1) _ h1 in
    let (_, _, h3) = >>=-eq-ok (map_err Metainfo.bencode (get_string p.0.0 announce_key)) _ h2 in
    let (_, _, h4) = >>=-eq-ok (parse_announce_list p.0.0) _ h3 in
    let (_, _, h5) =
      >>=-eq-ok (map_err Metainfo.bencode (get p.0.0 info_key >>= as_dictionary)) _ h4 in
    let (u, _, h6) = >>=-eq-ok (parse_info sha1 _ _ _) _ h5 in
    let (hashed, valid) = finish_at-HasInfoHash sha1 content p.0.1 u t _ refl h6 in
    (p.0.0, p.0.1, p.1, map_err-ok _ _ _ decoded, hashed, valid)
