-- ===== src/Download/Main/Loop/Verified.antt =====
-- The pieces that the client holds for complete, and the file.
use p2p_file_distribution.Base.{
  ℕ, ◌+◌, ◌/◌, ◌<◌, ◌==◌, ◌||◌, true, List, length, some, Result, ok, ◌≡◌, sym, ◌∙◌, arith,
  get_elem?, ℕ_discrete,
}
use mathlib.Core.Path.{subst}
use p2p_file_distribution.Base.Int.{pos}
use p2p_file_distribution.Base.Bytes.{Bytes, All, IsByte}
use p2p_file_distribution.Piece.Geometry.Bounds.{IsGeometry, bytes_of}
use p2p_file_distribution.Piece.Verify.{expected_hash_size}
use p2p_file_distribution.Peer.Bitfield.Laws.{has_piece-set_piece, set_piece-All, set_piece-length}
use p2p_file_distribution.Storage
use p2p_file_distribution.Storage.{write_piece}
use p2p_file_distribution.Storage.Resume.Exact.{Intact}
use p2p_file_distribution.Storage.Resume.Written.{write_piece-Intact}
use p2p_file_distribution.Tracker.{AddrPort}
use p2p_file_distribution.Download.Have.{has, set_have}
use p2p_file_distribution.Download.Coordinator.State.{PieceResult}
use p2p_file_distribution.Download.Main.{Config, Run}
use p2p_file_distribution.Download.Main.Announce.{worker_done}
use p2p_file_distribution.Download.Main.Loop.{Event, loop, land}
use p2p_file_distribution.Download.Main.Loop.Invariant.{
  Keeps, AllGood, loop-keeps, state_of, Core, announce-core,
}

ok-injective : {a b : Bytes} → ◌≡◌ {A = Result Storage.Error Bytes} (ok a) (ok b) → a ≡ b
ok-injective e = cc

module _ (sha1 : Bytes → Bytes) {pc pl tl : ℕ} (g : IsGeometry pc pl tl) (hashes : List Bytes) where
  -- A piece as Piece returns it: of the right length, and with the hash that the torrent lists.
  pub record IsVerified (result : PieceResult) : Type 0 where
    pub in_range : result.index < pc
    pub full : length result.content ≡ bytes_of g result.index
    pub hash : Bytes
    pub listed : get_elem? hashes result.index ≡ some hash
    pub size : length hash ≡ expected_hash_size
    pub same : sha1 result.content ≡ hash

  -- The file has the torrent's size, and every piece of `have` is intact in it.
  pub record IsBacked (file have : Bytes) : Type 0 where
    pub sized : length file ≡ tl
    pub bytes : All IsByte have
    pub have_size : length have ≡ (pc + 7) / 8
    pub backed : (i : ℕ) → i < pc → has have i ≡ true → Intact sha1 g hashes file i

  pub has-set_have :
      (have : Bytes) (i j : ℕ)
      → All IsByte have
      → length have ≡ (pc + 7) / 8
      → i < pc
      → has (set_have i have) j ≡ (i == j || has have j)
  unfolding has set_have
  has-set_have have i j bytes size h = has_piece-set_piece have bytes i j (omega (arith, h, size))

  -- The write of a verified result.
  pub land-IsBacked :
      (result : PieceResult) (file file' have : Bytes)
      → IsVerified result
      → write_piece (pos result.index) pc pl tl result.content file ≡ ok file'
      → IsBacked file have
      → IsBacked file' (set_have result.index have)
  land-IsBacked result file file' have v wrote b =
      let (f, written, sized, here, others) =
        write_piece-Intact sha1 g hashes result.index result.content file v.hash v.in_range b.sized
          v.full v.listed v.size v.same in
      let same : f ≡ file' = ok-injective (sym written ∙ wrote) in
      record {
        sized = rw (← same) sized;
        bytes = unfold set_have in set_piece-All have b.bytes result.index;
        have_size = unfold set_have in set_piece-length have b.bytes result.index ∙ b.have_size;
        backed = λ j h e. elim (ℕ_discrete result.index j) [
          | yes at ↦
              subst (λ i. Intact sha1 g hashes file' i) at
                (subst (λ l. Intact sha1 g hashes l result.index) same here)
          | no apart ↦
              subst (λ l. Intact sha1 g hashes l j) same
                (others j h apart (
                  b.backed j h (
                    ground
                      (arith, has-set_have have result.index j b.bytes b.have_size v.in_range))))
        ];
      }

module _ (sha1 : Bytes → Bytes) (address : AddrPort → ℕ) (cfg : Config)
    (g : IsGeometry cfg.piece_count cfg.piece_length cfg.total_length) (hashes : List Bytes) where
  abbrev pub Good : PieceResult → Run → Type 0
  Good result s = IsVerified sha1 g hashes result

  abbrev BackedCore : Core → Type 0
  BackedCore c = IsBacked sha1 g hashes c.file c.have

  abbrev pub Backed : Run → Type 0
  Backed s = IsBacked sha1 g hashes s.file s.have

  Backed-Keeps : Keeps address cfg Good Backed
  unfolding land worker_done
  Backed-Keeps = record {
    announced =
        λ event answer s h. subst BackedCore (sym (announce-core address cfg event answer s)) h;
    stamped = λ now s h. h;
    finished = λ s _ h. h;
    warned = λ s _ h. h;
    expired = λ s _ h. h;
    ended = λ s h. h;
    landed = λ result now file s good wrote h.
        land-IsBacked sha1 g hashes result s.file file s.have good wrote h;
    freed = λ k s h. h;
    quit = λ s h. h;
  }

  -- As long as the results that arrive are pieces with the hash that the torrent lists, then at every moment of the
  -- run, and when it returns, each piece that the client holds for complete is in the file with its hash.
  pub loop-Backed :
      (events : List Event) (s : Run)
      → AllGood address cfg Good Backed events s
      → Backed s
      → Backed (state_of (loop address cfg events s))
  loop-Backed events s good h = loop-keeps address cfg Good Backed Backed-Keeps events s good h
