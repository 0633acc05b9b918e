-- ===== src/Download/Main/Loop/Whole.antt =====
-- The whole of Download, from what is on disk to a complete file.
use p2p_file_distribution.Base.{
  ℕ, ◌<◌, true, false, List, length, Option, none, some, Result, ok, ◌≡◌, sym, ap, ◌∙◌, ==_iff,
  if_elim,
}
use mathlib.Core.Path.{subst}
use p2p_file_distribution.Base.Bytes.{Bytes}
use p2p_file_distribution.Piece.Geometry.Bounds.{IsGeometry}
use p2p_file_distribution.Storage.{create}
use p2p_file_distribution.Storage.Resume.Exact.{Intact, IsSchedule}
use p2p_file_distribution.Download.Coordinator.State.{Coordinator}
use p2p_file_distribution.Download.Main.{Config, Run, Error, Outcome, going, started}
use p2p_file_distribution.Download.Main.Loop.Complete.{Tallied, IsTallied, GoodNew, loop-Tallied}
use p2p_file_distribution.Download.Main.Resume.{fresh, begin, enter, ready, enter_ready}
use p2p_file_distribution.Download.Main.Loop.{Event, loop}
use p2p_file_distribution.Tracker.{AddrPort, AnnounceResponse}
use p2p_file_distribution.Download.Main.Loop.Invariant.{
  AllGood, state_of, announce-core, Core, wg_wait-keeps,
}
use p2p_file_distribution.Download.Main.Loop.Start.{IsOwned, Owned, begin-Owned}

second :
    {c d : Coordinator} {s t : Run}
    → ◌≡◌ {A = Result Error (Coordinator × Run)} (ok (c, s)) (ok (d, t))
    → s ≡ t
second e = cc

module _ (sha1 : Bytes → Bytes) (address : AddrPort → ℕ) (cfg : Config)
    (g : IsGeometry cfg.piece_count cfg.piece_length cfg.total_length) (hashes : List Bytes) where
  abbrev TalliedHere : Run → Type 0
  TalliedHere = Tallied sha1 address cfg g hashes

  owned-Tallied :
      (c : Coordinator) (s : Run)
      → length s.file ≡ cfg.total_length
      → IsOwned sha1 cfg g hashes cfg.piece_count c s
      → s.download_complete ≡ false
      → TalliedHere s
  owned-Tallied c s sized o fresh = record {
    on_disk = record {
      sized = sized;
      bytes = o.bytes;
      have_size = o.have_size;
      backed = λ i h. (o.intact i h).0;
    };
    counted = o.counted;
    full = λ e. cc;
  }

  ready-Tallied : (now : ℕ) (s : Run) → TalliedHere s → TalliedHere (ready cfg now s)
  unfolding ready
  ready-Tallied now s t = record {
    on_disk = t.on_disk;
    counted = t.counted;
    full = λ e. (==_iff s.completed cfg.piece_count).0 e;
  }

  enter_ready-Tallied : (s : Run) → TalliedHere s → TalliedHere (state_of (enter_ready cfg s))
  unfolding enter_ready
  enter_ready-Tallied s t =
      if_elim (λ (o : Outcome). TalliedHere (state_of o)) s.download_complete
        (λ _.
          if_elim (λ (o : Outcome). TalliedHere (state_of o)) cfg.seed (λ _. t)
            (λ _. wg_wait-keeps TalliedHere (record s { cancelled = true }) (ok tt) t))
        (λ _. t)

  enter-Tallied :
      (now : ℕ) (answer : Option AnnounceResponse) (s : Run)
      → TalliedHere s
      → TalliedHere (state_of (enter address cfg now answer s))
  unfolding enter
  enter-Tallied now none s t = t
  enter-Tallied now (some answer) s t = enter_ready-Tallied _ (
      ready-Tallied now _
        (subst TalliedCore' (sym (announce-core address cfg started (some answer) s)) t))
    where
      TalliedCore' : Core → Type 0
      TalliedCore' d = IsTallied sha1 address cfg g hashes d.file d.have d.completed d.complete

  -- The state in which the loop starts.
  pub entered-Tallied :
      (now later : ℕ) (old : Bytes) (order : List ℕ) (answer : Option AnnounceResponse)
      {c : Coordinator} {s s' : Run}
      → length hashes ≡ cfg.piece_count
      → IsSchedule cfg.piece_count order
      → begin sha1 cfg hashes now old order ≡ ok (c, s)
      → enter address cfg later answer s ≡ going s'
      → TalliedHere s'
  entered-Tallied now later old order answer {c} {s} {s'} listed scheduled began entered =
      subst (λ (o : Outcome). TalliedHere (state_of o)) entered
        (enter-Tallied later answer s
          (begun (begin-Owned sha1 cfg g hashes now old order listed scheduled)))
    where
      begun :
          (length (create cfg.total_length old) ≡ cfg.total_length)
            × Owned sha1 cfg g hashes
                (begin sha1 cfg hashes now old order)
                (create cfg.total_length old)
          → TalliedHere s
      begun (sized, (c', s'', e, file, fresh, o)) =
          let same : s'' ≡ s = second (sym e ∙ began) in
          subst TalliedHere same (owned-Tallied c' s'' (ap length file ∙ sized) o fresh)

  -- From whatever was in the file at the beginning to the end of the run: as long as the results that
  -- arrive are verified pieces that the client does not have yet, a download that is called complete has every
  -- piece in the file with its hash.
  pub download_complete-Intact :
      (now later : ℕ) (old : Bytes) (order : List ℕ) (answer : Option AnnounceResponse)
      (events : List Event) {c : Coordinator} {s s' : Run}
      → length hashes ≡ cfg.piece_count
      → IsSchedule cfg.piece_count order
      → begin sha1 cfg hashes now old order ≡ ok (c, s)
      → enter address cfg later answer s ≡ going s'
      → AllGood address cfg (GoodNew sha1 address cfg g hashes) TalliedHere events s'
      → (state_of (loop address cfg events s')).download_complete ≡ true
      → (i : ℕ) → i < cfg.piece_count
      → Intact sha1 g hashes (state_of (loop address cfg events s')).file i
  download_complete-Intact now later old order answer events {c} {s} {s'} listed scheduled began
        entered good done i h =
      loop-Tallied sha1 address cfg g hashes events s' good
        (entered-Tallied now later old order answer listed scheduled began entered) done i h
