-- ===== src/Storage/Resume/Written.antt =====
-- WritePiece against VerifyExisting: what a download has written, the next run finds.
use p2p_file_distribution.Base.{
  ℕ, ◌<◌, List, length, get_elem?, some, Result, ok, ◌≡◌, ◌≢◌, sym, ◌∙◌,
}
use p2p_file_distribution.Base.Int.{pos}
use p2p_file_distribution.Base.Bytes.{Bytes}
use p2p_file_distribution.Piece.Geometry.Bounds.{IsGeometry, bytes_of}
use p2p_file_distribution.Piece.Verify.{expected_hash_size}
use p2p_file_distribution.Storage
use p2p_file_distribution.Storage.{read_piece, write_piece}
use p2p_file_distribution.Storage.Pieces.{read_piece-eq, read_piece-write_piece}
use p2p_file_distribution.Storage.Resume.Exact.{Intact, piece_bytes}

ok-injective : {a b : Bytes} → ◌≡◌ {A = Result Storage.Error Bytes} (ok a) (ok b) → a ≡ b
ok-injective e = cc

module _ (sha1 : Bytes → Bytes) {pc pl tl : ℕ} (g : IsGeometry pc pl tl) (hashes : List Bytes) where
  -- What ReadPiece returns is what lies at the piece's place.
  read-piece_bytes :
      (i : ℕ) (f content : Bytes)
      → i < pc
      → length f ≡ tl
      → read_piece (pos i) pc pl tl f ≡ ok content
      → piece_bytes sha1 g hashes f i ≡ content
  read-piece_bytes i f content h sized read =
      ok-injective (sym (read_piece-eq g i f h sized) ∙ read)

  -- A piece whose bytes have its hash is intact once WritePiece has written it, and every other piece that
  -- was intact stays so.
  pub write_piece-Intact :
      (i : ℕ) (content f hash : Bytes)
      → i < pc
      → length f ≡ tl
      → length content ≡ bytes_of g i
      → get_elem? hashes i ≡ some hash
      → length hash ≡ expected_hash_size
      → sha1 content ≡ hash
      → (f' : Bytes) × (write_piece (pos i) pc pl tl content f ≡ ok f')
        × (length f' ≡ tl)
        × Intact sha1 g hashes f' i
        × ((j : ℕ) → j < pc → i ≢ j → Intact sha1 g hashes f j → Intact sha1 g hashes f' j)
  write_piece-Intact i content f hash h sized full listed size same =
      let (f', written, sized', here, others) = read_piece-write_piece g i content f h sized full in
      (
        f',
        written,
        sized',
        record {
          hash = hash;
          listed = listed;
          size = size;
          same = rw (read-piece_bytes i f' content h sized' here) same;
        },
        λ j k ne whole. record {
          hash = whole.hash;
          listed = whole.listed;
          size = whole.size;
          same =
              rw
                (read-piece_bytes j f' (piece_bytes sha1 g hashes f j) k sized'
                  (others j k ne ∙ read_piece-eq g j f k sized))
                whole.same;
        },
      )
