-- ===== src/Download/Main/Loop/Complete.antt =====
-- The count of the pieces that are there, against the pieces that are there.
use p2p_file_distribution.Base.{
  ℕ, zero, suc, ◌+◌, ◌<◌, ◌==◌, ◌||◌, ◌&&◌, not, if◌then◌else◌, Bool, true, false, List, Option, ok,
  ◌≡◌, refl, sym, ap, ◌∙◌, arith, if_elim, inl, inr, Bool-cases, ==_iff,
}
use mathlib.Core.Path.{subst}
use p2p_file_distribution.Base.Int.{pos}
use p2p_file_distribution.Base.Bytes.{Bytes}
use p2p_file_distribution.Piece.Geometry.Bounds.{IsGeometry}
use p2p_file_distribution.Storage.{write_piece}
use p2p_file_distribution.Storage.Resume.Exact.{Intact}
use p2p_file_distribution.Storage.Resume.Written.{write_piece-Intact}
use p2p_file_distribution.Tracker.{AddrPort, AnnounceResponse}
use p2p_file_distribution.Download.Have.{has, set_have}
use p2p_file_distribution.Download.Coordinator.State.{PieceResult}
use p2p_file_distribution.Download.Main.{Config, Run, Outcome, going, completed}
use p2p_file_distribution.Download.Main.Announce.{announce, worker_done}
use p2p_file_distribution.Download.Main.Loop.{
  Event, loop, land, on_piece, written, after_piece, finish_download,
}
use p2p_file_distribution.Download.Main.Loop.Invariant.{
  Keeps, AllGood, loop-keeps, state_of, Core, core, announce-core, wg_wait-keeps,
}
use p2p_file_distribution.Download.Main.Loop.Verified.{
  IsVerified, IsBacked, land-IsBacked, has-set_have,
}

-- How many of the first `n` pieces are not there.
unfoldable pub missing : ℕ → Bytes → ℕ
missing zero have = 0
missing (suc n) have = (if has have n then 0 else 1) + missing n have

missing-zero : (n : ℕ) (have : Bytes) (i : ℕ) → missing n have ≡ 0 → i < n → has have i ≡ true
unfolding missing
missing-zero zero have i e h = absurd (omega (arith, h))
missing-zero (suc n) have i e h = elim (Bool-cases (i == n)) [
  | inl at ↦ rw ((==_iff i n).0 at) (ground arith)
  | inr before ↦ missing-zero n have i (ground arith) (ground arith)
]

missing-same :
    (n : ℕ) (have have' : Bytes)
    → ((j : ℕ) → j < n → has have' j ≡ has have j)
    → missing n have' ≡ missing n have
unfolding missing
missing-same zero have have' h = refl
missing-same (suc n) have have' h =
    rw (h n (omega arith), missing-same n have have' (λ j k. h j (omega (arith, k)))) refl

-- A new piece makes one fewer missing.
pub missing-set :
    (n i : ℕ) (have have' : Bytes)
    → i < n
    → has have i ≡ false
    → ((j : ℕ) → has have' j ≡ (i == j || has have j))
    → suc (missing n have') ≡ missing n have
unfolding missing
missing-set zero i have have' h new set = absurd (omega (arith, h))
missing-set (suc n) i have have' h new set = elim (Bool-cases (i == n)) [
  | inl at ↦
      let same : i ≡ n = (==_iff i n).0 at in
      let rest : missing n have' ≡ missing n have =
        missing-same n have have' (λ j k. ground (arith, set j, same)) in
      ground (arith, set n, rest, same, new)
  | inr before ↦
      let rest : suc (missing n have') ≡ missing n have =
        missing-set n i have have' (ground arith) new set in
      ground (arith, set n, rest)
]

-- Without any piece, all are missing.
pub missing-none : (n : ℕ) (have : Bytes) → ((j : ℕ) → has have j ≡ false) → missing n have ≡ n
unfolding missing
missing-none zero have h = refl
missing-none (suc n) have h = ground (arith, h n, missing-none n have h)

module _ (sha1 : Bytes → Bytes) (address : AddrPort → ℕ) (cfg : Config)
    (g : IsGeometry cfg.piece_count cfg.piece_length cfg.total_length) (hashes : List Bytes) where
  -- A verified piece that the client does not have yet.
  abbrev pub GoodNew : PieceResult → Run → Type 0
  GoodNew result s = IsVerified sha1 g hashes result × (has s.have result.index ≡ false)

  -- `completed` counts the pieces of `have`, and the download is called complete only when it is.
  pub record IsTallied (file have : Bytes) (completed : ℕ) (complete : Bool) : Type 0 where
    pub on_disk : IsBacked sha1 g hashes file have
    pub counted : completed + missing cfg.piece_count have ≡ cfg.piece_count
    pub full : complete ≡ true → completed ≡ cfg.piece_count

  abbrev TalliedCore : Core → Type 0
  TalliedCore c = IsTallied c.file c.have c.completed c.complete

  abbrev pub Tallied : Run → Type 0
  Tallied s = IsTallied s.file s.have s.completed s.download_complete

  land-Tallied :
      (result : PieceResult) (now : ℕ) (file : Bytes) (s : Run)
      → GoodNew result s
      → write_piece
          (pos result.index)
          cfg.piece_count
          cfg.piece_length
          cfg.total_length
          result.content
          s.file
        ≡ ok file
      → Tallied s
      → Tallied (land address cfg result now file s)
  unfolding land
  land-Tallied result now file s (good, new) wrote t =
      let fewer : suc (missing cfg.piece_count (set_have result.index s.have))
          ≡ missing cfg.piece_count s.have =
        missing-set cfg.piece_count result.index s.have (set_have result.index s.have) good.in_range
          new
          (λ j.
            has-set_have sha1 g hashes s.have result.index j t.on_disk.bytes t.on_disk.have_size
              good.in_range) in
      record {
        on_disk = land-IsBacked sha1 g hashes result s.file file s.have good wrote t.on_disk;
        counted = omega (arith, fewer, t.counted);
        full = λ e. absurd (omega (arith, fewer, t.counted, t.full e));
      }

  Tallied-Keeps : Keeps address cfg GoodNew Tallied
  unfolding worker_done
  Tallied-Keeps = record {
    announced =
        λ event answer s h. subst TalliedCore (sym (announce-core address cfg event answer s)) h;
    stamped = λ now s h. h;
    finished = λ s whole h. record { on_disk = h.on_disk; counted = h.counted; full = λ e. whole };
    warned = λ s _ h. h;
    expired = λ s _ h. h;
    ended = λ s h. h;
    landed = land-Tallied;
    freed = λ k s h. h;
    quit = λ s h. h;
  }

  -- As long as the results that arrive are verified pieces that the client does not have yet, a
  -- download that is called complete has every piece in the file with its hash.
  pub loop-Tallied :
      (events : List Event) (s : Run)
      → AllGood address cfg GoodNew Tallied events s
      → Tallied s
      → (state_of (loop address cfg events s)).download_complete ≡ true
      → (i : ℕ) → i < cfg.piece_count
      → Intact sha1 g hashes (state_of (loop address cfg events s)).file i
  loop-Tallied events s good t done i h =
      let t' : Tallied (state_of (loop address cfg events s)) =
        loop-keeps address cfg GoodNew Tallied Tallied-Keeps events s good t in
      t'.on_disk.backed i h (
        missing-zero cfg.piece_count (state_of (loop address cfg events s)).have i
          (omega (arith, t'.counted, t'.full done)) h)

  abbrev IsFinished : Run → Outcome → Type 0
  IsFinished s o = ((state_of o).download_complete ≡ true) × ((state_of o).have ≡ s.have)

  finish-IsFinished :
      (now : ℕ) (synced : Bool) (answer : Option AnnounceResponse) (s : Run)
      → IsFinished s (finish_download address cfg now synced answer s)
  unfolding finish_download
  finish-IsFinished now synced answer s =
      let same : core
            (announce address cfg completed answer (record s { download_complete = true }))
          ≡ core (record s { download_complete = true }) =
        announce-core address cfg completed answer (record s { download_complete = true }) in
      let told : IsFinished s
          (going (announce address cfg completed answer (record s { download_complete = true }))) =
        (ap (λ (c : Core). c.complete) same, ap (λ (c : Core). c.have) same) in
      if_elim (IsFinished s) (not synced) (λ _. (refl, refl))
        (λ _.
          if_elim (IsFinished s) cfg.seed (λ _. told)
            (λ _.
              wg_wait-keeps (λ (d : Run). IsFinished s (going d))
                (record (announce address cfg completed answer
                  (record s { download_complete = true })) {
                    last_announce = now;
                    cancelled = true;
                  })
                (ok tt) told))

  -- Verified pieces are written.
  pub write_piece-file :
      (result : PieceResult) (s : Run)
      → IsVerified sha1 g hashes result
      → IsBacked sha1 g hashes s.file s.have
      → (file : Bytes) × (write_piece
            (pos result.index)
            cfg.piece_count
            cfg.piece_length
            cfg.total_length
            result.content
            s.file
          ≡ ok file)
  write_piece-file result s v b =
      let (file, wrote, _, _, _) =
        write_piece-Intact sha1 g hashes result.index result.content s.file v.hash v.in_range
          b.sized v.full v.listed v.size v.same in
      (file, wrote)

  after_piece-finish :
      (now : ℕ) (synced : Bool) (answer : Option AnnounceResponse) (s : Run)
      → s.completed ≡ cfg.piece_count
      → s.download_complete ≡ false
      → after_piece address cfg now synced answer s
        ≡ finish_download address cfg now synced answer s
  unfolding after_piece
  after_piece-finish now synced answer s full not_done =
      let last : ((s.completed == cfg.piece_count) && not s.download_complete) ≡ true =
        ground (arith, full, not_done) in
      rw last refl

  on_piece-after :
      (result : PieceResult) (now : ℕ) (synced : Bool) (answer : Option AnnounceResponse) (s : Run)
      (file : Bytes)
      → write_piece
          (pos result.index)
          cfg.piece_count
          cfg.piece_length
          cfg.total_length
          result.content
          s.file
        ≡ ok file
      → on_piece address cfg result now synced answer s
        ≡ after_piece address cfg now synced answer (land address cfg result now file s)
  unfolding on_piece
  on_piece-after result now synced answer s file wrote = rw (wrote, written) refl

  -- Complete by the flag, with one piece missing.
  abbrev pub EndsShort : Run → Type 0
  EndsShort s = (s.download_complete ≡ true) × (missing cfg.piece_count s.have ≡ 1)

  -- A verified piece that is delivered once more is counted once more: when one piece is missing, the
  -- download is called complete without it.
  pub repeated_piece_completes :
      (result : PieceResult) (now : ℕ) (synced : Bool) (answer : Option AnnounceResponse) (s : Run)
      → IsVerified sha1 g hashes result
      → has s.have result.index ≡ true
      → Tallied s
      → s.download_complete ≡ false
      → s.completed + 1 ≡ cfg.piece_count
      → EndsShort (state_of (on_piece address cfg result now synced answer s))
  unfolding land
  repeated_piece_completes result now synced answer s v there t not_done one_left =
      let (file, wrote) = write_piece-file result s v t.on_disk in
      let (done, same) = finish-IsFinished now synced answer (land address cfg result now file s) in
      let still : missing cfg.piece_count (set_have result.index s.have)
          ≡ missing cfg.piece_count s.have =
        missing-same cfg.piece_count s.have (set_have result.index s.have) (λ j h. ground (
          arith,
          there,
          has-set_have sha1 g hashes s.have result.index j t.on_disk.bytes t.on_disk.have_size
              v.in_range,
        )) in
      subst
        (λ (o : Outcome).
          ((state_of o).download_complete ≡ true) × (missing cfg.piece_count (state_of o).have ≡ 1))
        (sym (
          on_piece-after result now synced answer s file wrote
          ∙ after_piece-finish now synced answer _ one_left not_done))
        (done, ap (missing cfg.piece_count) same ∙ omega (arith, still, t.counted, one_left))
