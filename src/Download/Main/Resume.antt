-- ===== src/Download/Main/Resume.antt =====
-- What Download does before its loop: the pieces that are there already, and the first announce.
use p2p_file_distribution.Base.{
  ℕ, suc, ◌+◌, ◌==◌, if◌then◌else◌, Bool, true, false, List, [], ◌∷◌, Option, none, some, Result,
  ok, err, panic, ◌>>=◌, map_err,
}
use p2p_file_distribution.Base.Int.{pos}
use p2p_file_distribution.Base.Bytes.{Bytes}
use p2p_file_distribution.Piece.Geometry
use p2p_file_distribution.Storage.{create}
use p2p_file_distribution.Storage.Resume
use p2p_file_distribution.Storage.Resume.{verify_existing, present}
use p2p_file_distribution.Tracker.{AddrPort, AnnounceResponse}
use p2p_file_distribution.Download.Progress.{new_progress, piece_completed}
use p2p_file_distribution.Download.Have.{new_have, set_have}
use p2p_file_distribution.Download.Coordinator.State.{Coordinator, new_coordinator}
use p2p_file_distribution.Download.Coordinator.Handlers.{mark_complete}
use p2p_file_distribution.Download.Main.{
  Config, Run, Error, Outcome, going, returned, wg_wait, resumed_piece, verify_failed,
  initial_announce, started,
}
use p2p_file_distribution.Download.Main.Announce.{announce}

-- 30 seconds, and 30 minutes
abbrev pub stall_timeout : ℕ
stall_timeout = 30000000000

abbrev pub default_announce_interval : ℕ
default_announce_interval = 1800000000000

-- The state behind Create and VerifyExisting, before the loop over the verified pieces. The goroutines
-- of the coordinator and the listener, which start behind that loop, are counted already.
unfoldable pub fresh : Config → ℕ → Bytes → Run
fresh cfg now file = record {
  file = file;
  have = new_have cfg.piece_count;
  completed = 0;
  bytes_owned = 0;
  progress = new_progress cfg.piece_count;
  download_complete = false;
  min_reannounce = pos stall_timeout;
  announce_interval = pos default_announce_interval;
  last_progress = now;
  last_announce = now;
  connected = [];
  running = [];
  background = if cfg.listening then 2 else 1;
  reports = [];
  interrupted = false;
  deadline = false;
  cancelled = false;
}

-- One piece that is on disk.
unfoldable pub own : ℕ → ℕ → ℕ → Run → Run
own i length now s = record s {
  have = set_have i s.have;
  completed = s.completed + 1;
  bytes_owned = s.bytes_owned + length;
  progress = piece_completed now s.progress;
}

-- The loop from piece `i` on, with the entries of `verifiedPieces` that are left.
unfoldable pub resume :
    Config → ℕ → ℕ → List Bool → Coordinator → Run → Result Error (Coordinator × Run)
unfolding own
resume cfg now i [] c s = ok (c, s)
resume cfg now i (false ∷ verified) c s = resume cfg now (suc i) verified c s
resume cfg now i (true ∷ verified) c s = do
  length ←
      map_err resumed_piece
        (Geometry.length (pos i) cfg.piece_count cfg.piece_length cfg.total_length)
  elim (mark_complete i c) [
    | ok c' ↦ resume cfg now (suc i) verified c' (own i length now s)
    | _ ↦ panic
  ]

module _ (sha1 : Bytes → Bytes) where
  unfoldable pub begin_with :
      Config
      → List Bytes
      → ℕ
      → Bytes
      → Result Resume.Error (List Bool)
      → Result Error (Coordinator × Run)
  unfolding resume fresh
  begin_with cfg hashes now file (ok verified) =
      resume cfg now 0 verified
        (new_coordinator cfg.piece_count cfg.piece_length cfg.total_length hashes)
        (fresh cfg now file)
  begin_with cfg hashes now file (err e) = err verify_failed
  begin_with cfg hashes now file panic = panic

  -- Download on a file with these bytes, up to its first announce; `order` is that of the goroutines
  -- of VerifyExisting.
  unfoldable pub begin : Config → List Bytes → ℕ → Bytes → List ℕ → Result Error (Coordinator × Run)
  unfolding begin_with
  begin cfg hashes now old order =
      let file = create cfg.total_length old in
      begin_with cfg hashes now file (
        verify_existing sha1 (present file) cfg.piece_count cfg.piece_length cfg.total_length hashes
          order)

-- The variables of the loop, behind the first announce.
unfoldable pub ready : Config → ℕ → Run → Run
ready cfg now s = record s {
  last_progress = now;
  last_announce = now;
  download_complete = s.completed == cfg.piece_count;
}

-- When nothing is missing and seeding is not asked for, the context is cancelled and Download returns
-- behind wg.Wait.
unfoldable pub enter_ready : Config → Run → Outcome
enter_ready cfg s =
    if s.download_complete
    then if cfg.seed then going s else wg_wait (record s { cancelled = true }) (ok tt)
    else going s

module _ (address : AddrPort → ℕ) where
  -- The first announce, without which there is no download.
  unfoldable pub enter : Config → ℕ → Option AnnounceResponse → Run → Outcome
  enter cfg now none s = returned s (err initial_announce)
  enter cfg now (some answer) s =
      enter_ready cfg (ready cfg now (announce address cfg started (some answer) s))
