-- ===== src/Storage/Resume/Exact.antt =====
-- VerifyExisting against what is intact in the file, and the order of its goroutines.
use p2p_file_distribution.Base.{
  ℕ, ◌*◌, ◌<◌, ◌==◌, if◌then◌else◌, Bool, true, false, ◌&&◌, List, [], ◌∷◌, length, replicate,
  get_elem?, get_elem?-set, length-set, length-replicate, get_elem?-replicate, ==_iff, contains,
  get_elem?-some, take, drop, Option, none, some, ok, >>=-eq-ok, map_err, map_err-eq-ok, ◌≡◌, ◌↔◌,
  inl, inr, refl, sym, ap, ◌∙◌, arith, Bool-cases,
}
use mathlib.Core.Option.{some-injective}
use p2p_file_distribution.Base.Int.{pos, ◌-ℤ◌}
use p2p_file_distribution.Base.Bytes.{Bytes, All, bytes_eq, bytes_eq→eq, bytes_eq_refl}
use p2p_file_distribution.Piece.Geometry
use p2p_file_distribution.Piece.Geometry.Bounds.{IsGeometry, bytes_of}
use p2p_file_distribution.Piece.Verify.{verify, expected_hash_size}
use p2p_file_distribution.Storage.{read_piece, make_and_read, geometry}
use p2p_file_distribution.Storage.Pieces.{read_piece-eq}
use p2p_file_distribution.Storage.Resume.{
  present, matches, mark, check_piece, scan, verify_existing,
}

-- Every goroutine finishes, in some order.
pub record IsSchedule (piece_count : ℕ) (order : List ℕ) : Type 0 where
  pub in_range : All (λ i. i < piece_count) order
  pub complete : (i : ℕ) → i < piece_count → contains i order ≡ true

module _ (sha1 : Bytes → Bytes) {pc pl tl : ℕ} (g : IsGeometry pc pl tl) (hashes : List Bytes)
    (f : Bytes) where
  -- The bytes of the file where a piece lies.
  abbrev pub piece_bytes : ℕ → Bytes
  piece_bytes i = take (bytes_of g i) (drop (i * pl) f)

  -- A piece is intact when its hash is one and is that of the bytes at its place.
  pub record Intact (i : ℕ) : Type 0 where
    pub hash : Bytes
    pub listed : get_elem? hashes i ≡ some hash
    pub size : length hash ≡ expected_hash_size
    pub same : sha1 (piece_bytes i) ≡ hash

  -- Another reading of the goroutine, by way of ReadPiece.
  check_read :
      (i : ℕ) (content : Bytes)
      → read_piece (pos i) pc pl tl f ≡ ok content
      → check_piece sha1 pc pl tl hashes f i ≡ matches sha1 content (get_elem? hashes i)
  unfolding read_piece check_piece
  check_read i content e =
      let (r, ranged, read) =
        >>=-eq-ok (map_err geometry (Geometry.range (pos i) pc pl tl))
          (λ r. make_and_read (r.1 -ℤ r.0) r.0 f) e in
      rw
        (
          map_err-eq-ok geometry (Geometry.range (pos i) pc pl tl) ranged,
          check_piece,
          read,
          check_piece,
        )
        refl

  is_intact : Option Bytes → Bytes → Bool
  is_intact none content = false
  is_intact (some hash) content =
      (length hash == expected_hash_size) && bytes_eq (sha1 content) hash

  intact : ℕ → Bool
  intact i = is_intact (get_elem? hashes i) (piece_bytes i)

  matches-some :
      (hash content : Bytes) → matches sha1 content (some hash) ≡ ok (is_intact (some hash) content)
  unfolding matches verify is_intact
  matches-some hash content = elim (Bool-cases (length hash == expected_hash_size)) [
    | inl whole ↦ rw (whole, matches) refl
    | inr short ↦ rw (short, matches) refl
  ]

  intact→Intact :
      (i : ℕ) (o : Option Bytes)
      → get_elem? hashes i ≡ o
      → is_intact o (piece_bytes i) ≡ true
      → Intact i
  unfolding is_intact
  intact→Intact i none found e = cc
  intact→Intact i (some hash) found e = record {
    hash = hash;
    listed = found;
    size = ground arith;
    same = bytes_eq→eq (sha1 (piece_bytes i)) hash (ground arith);
  }

  intact_iff : (i : ℕ) → (intact i ≡ true) ↔ Intact i
  unfolding intact is_intact
  intact_iff i = (
    intact→Intact i (get_elem? hashes i) refl,
    λ h.
        let same : bytes_eq (sha1 (piece_bytes i)) h.hash ≡ true =
          rw h.same (bytes_eq_refl h.hash) in
        rw (h.listed, is_intact) (ground (arith, h.size)),
  )

  module _ (listed : length hashes ≡ pc) (sized : length f ≡ tl) where
    check_piece-eq : (i : ℕ) → i < pc → check_piece sha1 pc pl tl hashes f i ≡ ok (intact i)
    unfolding intact
    check_piece-eq i h =
        let (hash, found) = get_elem?-some hashes i (omega (arith, h, listed)) in
        check_read i (piece_bytes i) (read_piece-eq g i f h sized)
        ∙ rw found (matches-some hash (piece_bytes i))

    -- The entries that a run has set.
    marked : List ℕ → List Bool → List Bool
    marked [] verified = verified
    marked (i ∷ order) verified = marked order (mark sha1 verified i (intact i))

    scan-marked :
        (order : List ℕ) (verified : List Bool)
        → All (λ i. i < pc) order
        → scan sha1 pc pl tl hashes f order verified ≡ ok (marked order verified)
    unfolding scan marked
    scan-marked [] verified h = refl
    scan-marked (i ∷ order) verified h =
        rw (check_piece-eq i h.0) (scan-marked order (mark sha1 verified i (intact i)) h.1)

    length-mark :
        (verified : List Bool) (i : ℕ) (same : Bool)
        → length (mark sha1 verified i same) ≡ length verified
    unfolding mark
    length-mark verified i true = length-set verified i true
    length-mark verified i false = refl

    length-marked :
        (order : List ℕ) (verified : List Bool) → length (marked order verified) ≡ length verified
    unfolding marked
    length-marked [] verified = refl
    length-marked (i ∷ order) verified = length-marked order _ ∙ length-mark verified i (intact i)

    get_elem?-mark :
        (verified : List Bool) (i j : ℕ) (same : Bool)
        → i < length verified
        → get_elem? (mark sha1 verified i same) j
          ≡ (if (i == j) && same then some true else get_elem? verified j)
    unfolding mark
    get_elem?-mark verified i j true h = ground (arith, get_elem?-set verified i j true h)
    get_elem?-mark verified i j false h = ground arith

    get_elem?-marked :
        (order : List ℕ) (verified : List Bool) (j : ℕ)
        → All (λ i. i < pc) order
        → length verified ≡ pc
        → get_elem? (marked order verified) j
          ≡ (if contains j order && intact j then some true else get_elem? verified j)
    unfolding marked
    get_elem?-marked [] verified j h e = refl
    get_elem?-marked (i ∷ order) verified j h e =
        get_elem?-marked order (mark sha1 verified i (intact i)) j h.1
          (length-mark verified i (intact i) ∙ e)
        ∙ rw (get_elem?-mark verified i j (intact i) (omega (arith, h.0, e))) (ground arith)

    found : List ℕ → List Bool
    found order = marked order (replicate pc false)

    length-found : (order : List ℕ) → length (found order) ≡ pc
    unfolding found
    length-found order = length-marked order (replicate pc false) ∙ length-replicate pc false

    found_at :
        (order : List ℕ) (i : ℕ)
        → IsSchedule pc order
        → i < pc
        → get_elem? (found order) i ≡ some (intact i)
    unfolding found
    found_at order i s h =
        get_elem?-marked order (replicate pc false) i s.in_range (length-replicate pc false)
        ∙ ground (arith, s.complete i h, get_elem?-replicate pc false i h)

    verify_existing-found :
        (order : List ℕ)
        → IsSchedule pc order
        → verify_existing sha1 (present f) pc pl tl hashes order ≡ ok (found order)
    unfolding verify_existing found
    verify_existing-found order s =
        rw ((==_iff (length f) tl).1 sized) (scan-marked order (replicate pc false) s.in_range)

    -- With a file of the torrent's size and a hash for every piece, VerifyExisting finds exactly the pieces whose
    -- bytes in the file have their hash.
    pub verify_existing-Intact :
        (order : List ℕ)
        → IsSchedule pc order
        → (verified : List Bool) × (verify_existing sha1 (present f) pc pl tl hashes order
            ≡ ok verified)
          × (length verified ≡ pc)
          × ((i : ℕ) → i < pc → (get_elem? verified i ≡ some true) ↔ Intact i)
    verify_existing-Intact order s = (
      found order,
      verify_existing-found order s,
      length-found order,
      λ i h. (
        λ e. (intact_iff i).0 (some-injective _ _ (sym (found_at order i s h) ∙ e)),
        λ whole. found_at order i s h ∙ ap some ((intact_iff i).1 whole),
      ),
    )
