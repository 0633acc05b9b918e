-- ===== src/Download/Main/Loop/Start.antt =====
-- What Download knows when its loop starts: exactly the pieces that are intact on disk.
use p2p_file_distribution.Base.{
  ℕ, suc, ◌+◌, ◌/◌, ◌≤◌, ◌<◌, ◌==◌, ◌||◌, Bool, true, false, List, [], ◌∷◌, length, get_elem?,
  get_elem?-set, length-set, get_elem?-replicate, length-replicate, set, some, Result, ok, ◌≡◌, ◌↔◌,
  refl, sym, ap, ◌∙◌, arith, ℕ_discrete,
}
use mathlib.Core.Path.{subst}
use mathlib.Core.Option.{some-injective}
use p2p_file_distribution.Base.Bytes.{Bytes, All, IsByte}
use p2p_file_distribution.Piece.Geometry.Bounds.{IsGeometry, bytes_of, length-eq}
use p2p_file_distribution.Peer.Bitfield.{empty_for}
use p2p_file_distribution.Peer.Bitfield.Laws.{
  has_piece-empty, empty_bytes-All, length-empty_bytes, set_piece-All, set_piece-length,
}
use p2p_file_distribution.Storage.{create}
use p2p_file_distribution.Storage.Positional.{length-truncate}
use p2p_file_distribution.Storage.Resume.Exact.{Intact, IsSchedule, verify_existing-Intact}
use p2p_file_distribution.Download.Have.{has, set_have, new_have}
use p2p_file_distribution.Download.Coordinator.State.{
  Coordinator, PieceState, complete, missing, new_coordinator,
}
use p2p_file_distribution.Download.Coordinator.Handlers.{mark_complete}
use p2p_file_distribution.Download.Main.{Config, Run, Error}
use p2p_file_distribution.Download.Main.Loop.Verified.{has-set_have}
use p2p_file_distribution.Download.Main.Loop.Complete.{
  missing as missing_count, missing-set, missing-none,
}
use p2p_file_distribution.Download.Main.Resume.{fresh, own, resume, begin, begin_with}

abbrev state_for : Bool → PieceState
state_for true = complete
state_for false = missing

module _ (sha1 : Bytes → Bytes) (cfg : Config)
    (g : IsGeometry cfg.piece_count cfg.piece_length cfg.total_length) (hashes : List Bytes) where
  -- Behind the first `i` pieces: what is owned is what is intact among them, and the coordinator has
  -- the same pieces for complete.
  pub record IsOwned (i : ℕ) (c : Coordinator) (s : Run) : Type 0 where
    pub bytes : All IsByte s.have
    pub have_size : length s.have ≡ (cfg.piece_count + 7) / 8
    pub states : length c.pieces ≡ cfg.piece_count
    pub agree :
        (j : ℕ) → j < cfg.piece_count → get_elem? c.pieces j ≡ some (state_for (has s.have j))
    pub later : (j : ℕ) → i ≤ j → has s.have j ≡ false
    pub counted : s.completed + missing_count cfg.piece_count s.have ≡ cfg.piece_count
    pub intact : (j : ℕ) → j < i → (has s.have j ≡ true) ↔ Intact sha1 g hashes s.file j

  mark_complete-eq :
      (i : ℕ) (c : Coordinator)
      → i < length c.pieces
      → mark_complete i c ≡ ok (record c { pieces = set c.pieces i complete })
  unfolding mark_complete
  mark_complete-eq i c h = ground arith

  own-IsOwned :
      (i len now : ℕ) (c : Coordinator) (s : Run)
      → i < cfg.piece_count
      → Intact sha1 g hashes s.file i
      → IsOwned i c s
      → IsOwned (suc i) (record c { pieces = set c.pieces i complete }) (own i len now s)
  unfolding own
  own-IsOwned i len now c s h whole o = record {
    bytes = unfold set_have in set_piece-All s.have o.bytes i;
    have_size = unfold set_have in set_piece-length s.have o.bytes i ∙ o.have_size;
    states = length-set c.pieces i complete ∙ o.states;
    agree = λ j k. ground (
      arith,
      set_at j,
      o.agree j k,
      get_elem?-set c.pieces i j complete (omega (arith, h, o.states)),
    );
    later = λ j k. ground (arith, set_at j, o.later j);
    intact = λ j k. elim (ℕ_discrete i j) [
      | yes at ↦ (
        λ _. subst (λ n. Intact sha1 g hashes s.file n) at whole,
        λ _. ground (arith, set_at j, at),
      )
      | no apart ↦ (
        λ e. (o.intact j (ground (arith, k, apart))).0 (ground (arith, set_at j, apart, e)),
        λ there.
            let old : has s.have j ≡ true = (o.intact j (ground (arith, k, apart))).1 there in
            ground (arith, set_at j, old),
      )
    ];
    counted = omega (
      arith,
      o.counted,
      missing-set cfg.piece_count i s.have (set_have i s.have) h (o.later i (omega arith)) set_at,
    );
  }
    where
      set_at : (j : ℕ) → has (set_have i s.have) j ≡ (i == j || has s.have j)
      set_at j = has-set_have sha1 g hashes s.have i j o.bytes o.have_size h

  skip-IsOwned :
      (i : ℕ) (c : Coordinator) (s : Run)
      → (Intact sha1 g hashes s.file i → ⊥)
      → IsOwned i c s
      → IsOwned (suc i) c s
  skip-IsOwned i c s broken o = record {
    bytes = o.bytes;
    have_size = o.have_size;
    states = o.states;
    agree = o.agree;
    later = λ j k. o.later j (omega (arith, k));
    intact = λ j k. elim (ℕ_discrete i j) [
      | yes at ↦ (
        λ e. absurd (ground (arith, o.later j, at, e)),
        λ there. absurd (broken (subst (λ n. Intact sha1 g hashes s.file n) (sym at) there)),
      )
      | no apart ↦ o.intact j (ground (arith, k, apart))
    ];
    counted = o.counted;
  }

  -- It returns, with the file as it was and the pieces that are intact in it.
  abbrev pub Owned : Result Error (Coordinator × Run) → Bytes → Type 0
  Owned r file =
      (c : Coordinator) × (s : Run) × (r ≡ ok (c, s))
      × (s.file ≡ file)
      × (s.download_complete ≡ false)
      × IsOwned cfg.piece_count c s

  -- The entries from piece `i` on are right.
  abbrev AreExact : ℕ → List Bool → Bytes → Type 0
  AreExact i verified file =
      (j : ℕ)
      → j < length verified
      → (get_elem? verified j ≡ some true) ↔ Intact sha1 g hashes file (i + j)

  AreExact-tail :
      (i : ℕ) (b : Bool) (verified : List Bool) (file : Bytes)
      → AreExact i (b ∷ verified) file
      → AreExact (suc i) verified file
  AreExact-tail i b verified file v j h =
      subst (λ (n : ℕ). (get_elem? verified j ≡ some true) ↔ Intact sha1 g hashes file n)
        (omega arith) (v (suc j) (omega (arith, h)))

  AreExact-head :
      (i : ℕ) (b : Bool) (verified : List Bool) (file : Bytes)
      → AreExact i (b ∷ verified) file
      → (b ≡ true) ↔ Intact sha1 g hashes file i
  AreExact-head i b verified file v =
      let at : ((some b ≡ some true) ↔ Intact sha1 g hashes file i) =
        subst (λ (n : ℕ). (some b ≡ some true) ↔ Intact sha1 g hashes file n) (omega arith)
          (v 0 (omega arith)) in
      (λ e. at.0 (ap some e), λ whole. some-injective b true (at.1 whole))

  resume-Owned :
      (now i : ℕ) (verified : List Bool) (c : Coordinator) (s : Run)
      → i + length verified ≡ cfg.piece_count
      → AreExact i verified s.file
      → s.download_complete ≡ false
      → IsOwned i c s
      → Owned (resume cfg now i verified c s) s.file
  unfolding resume own
  resume-Owned now i [] c s e v open_ o =
      (c, s, refl, refl, open_, subst (λ n. IsOwned n c s) (omega (arith, e)) o)
  resume-Owned now i (false ∷ verified) c s e v open_ o =
      resume-Owned now (suc i) verified c s (omega (arith, e))
        (AreExact-tail i false verified s.file v) open_
        (skip-IsOwned i c s
          (λ whole.
            let no_ : false ≡ true = (AreExact-head i false verified s.file v).1 whole in cc)
          o)
  resume-Owned now i (true ∷ verified) c s e v open_ o =
      let h : i < cfg.piece_count = omega (arith, e) in
      rw (length-eq g i h, mark_complete-eq i c (omega (arith, h, o.states)))
        (resume-Owned now (suc i) verified (record c { pieces = set c.pieces i complete })
          (own i (bytes_of g i) now s) (omega (arith, e)) (AreExact-tail i true verified s.file v)
          open_
          (own-IsOwned i (bytes_of g i) now c s h ((AreExact-head i true verified s.file v).0 refl)
            o))

  fresh-IsOwned :
      (now : ℕ) (file : Bytes)
      → IsOwned 0
          (new_coordinator cfg.piece_count cfg.piece_length cfg.total_length hashes)
          (fresh cfg now file)
  unfolding fresh new_have new_coordinator
  fresh-IsOwned now file = record {
    bytes = empty_bytes-All ((cfg.piece_count + 7) / 8);
    have_size = length-empty_bytes ((cfg.piece_count + 7) / 8);
    states = length-replicate cfg.piece_count missing;
    agree = λ j h.
        get_elem?-replicate cfg.piece_count missing j h
        ∙ ap (λ (b : Bool). some (state_for b)) (sym (none_yet j));
    later = λ j _. none_yet j;
    counted = omega (arith, missing-none cfg.piece_count (empty_for cfg.piece_count) none_yet);
    intact = λ j h. absurd (omega (arith, h));
  }
    where
      none_yet : (j : ℕ) → has (empty_for cfg.piece_count) j ≡ false
      none_yet j = unfold has in has_piece-empty ((cfg.piece_count + 7) / 8) j

  create_size : (old : Bytes) → length (create cfg.total_length old) ≡ cfg.total_length
  unfolding create
  create_size old = length-truncate cfg.total_length old

  -- With a hash for every piece, the start succeeds on any file, whatever the order of the goroutines of VerifyExisting:
  -- the file then has the torrent's size, the client holds exactly the pieces that are intact in it,
  -- and the coordinator takes the same pieces for complete.
  pub begin-Owned :
      (now : ℕ) (old : Bytes) (order : List ℕ)
      → length hashes ≡ cfg.piece_count
      → IsSchedule cfg.piece_count order
      → (length (create cfg.total_length old) ≡ cfg.total_length)
        × Owned (begin sha1 cfg hashes now old order) (create cfg.total_length old)
  unfolding begin fresh
  begin-Owned now old order listed s =
      let file : Bytes = create cfg.total_length old in
      let sized : length file ≡ cfg.total_length = create_size old in
      let (verified, found, size, exact) =
        verify_existing-Intact sha1 g hashes file listed sized order s in
      (
        sized,
        rw (found, begin_with)
            (resume-Owned now 0 verified
              (new_coordinator cfg.piece_count cfg.piece_length cfg.total_length hashes)
              (fresh cfg now file) (omega (arith, size))
              (λ j h.
                subst (λ (n : ℕ). (get_elem? verified j ≡ some true) ↔ Intact sha1 g hashes file n)
                  (omega arith) (exact j (omega (arith, h, size))))
              refl (fresh-IsOwned now file)),
      )
