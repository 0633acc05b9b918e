-- ===== src/Download/Main/Loop.antt =====
-- The select loop of Download: one event after another, each with the clock, the trackers' answers and
-- the outcome of Sync as they are then.
pub mod Invariant
pub mod Verified
pub mod Complete
pub mod Slots
pub mod Start
pub mod Whole
pub mod Waiting
pub mod Shutdown
use p2p_file_distribution.Base.{
  ℕ, ◌+◌, ◌-◌, ◌==◌, leb, if◌then◌else◌, Bool, true, false, not, ◌&&◌, List, [], ◌∷◌, length,
  Option, Result, ok, err, panic,
}
use p2p_file_distribution.Base.Int.{ℤ, pos, leb_ℤ}
use p2p_file_distribution.Base.Bytes.{Bytes}
use p2p_file_distribution.Storage
use p2p_file_distribution.Storage.{write_piece}
use p2p_file_distribution.Tracker.{AddrPort, AnnounceResponse}
use p2p_file_distribution.Download.Progress.{piece_completed}
use p2p_file_distribution.Download.Have.{set_have}
use p2p_file_distribution.Download.Coordinator.State.{PieceResult}
use p2p_file_distribution.Download.Main.{
  Config, Run, Error, Outcome, going, waiting, returned, is_idle, wg_wait, write_failed,
  sync_failed, caller_cancelled, completed, stopped, periodic,
}
use p2p_file_distribution.Download.Main.Announce.{announce, worker_done}
use p2p_file_distribution.Download.Main.Resume.{stall_timeout}

-- What the select takes, or a goroutine that returns meanwhile: a worker, or that of the coordinator or
-- the listener.
pub data Event : Type 0 where
  interrupt deadline_passed context_done : Event
  ticked : (now : ℕ) (first second : Option AnnounceResponse) → Event
  piece_arrived :
      (result : PieceResult) (now : ℕ) (synced : Bool) (answer : Option AnnounceResponse) → Event
  worker_returned : (k : ℕ) → Event
  background_returned : Event

-- wg.Done, and the release of the slot.
unfoldable pub goroutine_returns : Event → Run → Run
unfolding worker_done
goroutine_returns (worker_returned k) s = worker_done k s
goroutine_returns background_returned s = record s { background = s.background - 1 }
goroutine_returns _ s = s

-- What happens while Download is in wg.Wait: of all events only the end of a goroutine matters.
unfoldable pub wait : List Event → Run → Result Error (Unit {0}) → Outcome
unfolding goroutine_returns
wait [] s r = wg_wait s r
wait (e ∷ events) s r =
    let rest = wait events (goroutine_returns e s) r in if is_idle s then returned s r else rest

module _ (address : AddrPort → ℕ) (cfg : Config) where
  -- The re-announce of a stalled download, and the routine one. The code skips the former when the
  -- download is complete.
  stall_check : ℕ → Option AnnounceResponse → Run → Run
  stall_check now answer s =
      let stalled = leb stall_timeout (now - s.last_progress) in
      let allowed = leb_ℤ s.min_reannounce (pos (now - s.last_announce)) in
      if not s.download_complete && (stalled && allowed)
      then record (announce address cfg periodic answer s) { last_announce = now }
      else s

  routine_check : ℕ → Option AnnounceResponse → Run → Run
  routine_check now answer s =
      if leb_ℤ s.announce_interval (pos (now - s.last_announce))
      then record (announce address cfg periodic answer s) { last_announce = now }
      else s

  unfoldable pub on_tick : ℕ → Option AnnounceResponse → Option AnnounceResponse → Run → Run
  unfolding stall_check routine_check
  on_tick now first second s = routine_check now second (stall_check now first s)

  -- The piece is on disk.
  unfoldable pub land : PieceResult → ℕ → Bytes → Run → Run
  land result now file s = record s {
    file = file;
    have = set_have result.index s.have;
    completed = s.completed + 1;
    bytes_owned = s.bytes_owned + length result.content;
    progress = piece_completed now s.progress;
    last_progress = now;
  }

  -- The last piece: it is synced and announced, and without seeding the context is cancelled and Download
  -- returns behind wg.Wait.
  finish_download : ℕ → Bool → Option AnnounceResponse → Run → Outcome
  finish_download now synced answer s =
      let s' = record s { download_complete = true } in
      if not synced
      then returned s' (err sync_failed)
      else let told = record (announce address cfg completed answer s') { last_announce = now } in
        if cfg.seed then going told else wg_wait (record told { cancelled = true }) (ok tt)

  unfoldable pub after_piece : ℕ → Bool → Option AnnounceResponse → Run → Outcome
  unfolding finish_download
  after_piece now synced answer s =
      if (s.completed == cfg.piece_count) && not s.download_complete
      then finish_download now synced answer s
      else going s

  -- A panic ends the program.
  written :
      PieceResult → ℕ → Bool → Option AnnounceResponse → Run → Result Storage.Error Bytes → Outcome
  unfolding land after_piece
  written result now synced answer s (ok file) =
      after_piece now synced answer (land result now file s)
  written result now synced answer s (err e) = returned s (err (write_failed e))
  written result now synced answer s panic = returned s panic

  unfoldable pub on_piece : PieceResult → ℕ → Bool → Option AnnounceResponse → Run → Outcome
  unfolding written
  on_piece result now synced answer s = written result now synced answer s (
      write_piece (pos result.index) cfg.piece_count cfg.piece_length cfg.total_length
        result.content s.file)

  -- callerCtx.Err() is an error when the caller has cancelled. wg.Wait comes first.
  end_of_context : Run → Outcome
  end_of_context s =
      if not s.download_complete
      then wg_wait s (if s.interrupted then err caller_cancelled else ok tt)
      else wg_wait s (ok tt)

  -- A case whose channel is not ready is never taken.
  unfoldable pub step : Event → Run → Outcome
  unfolding end_of_context on_tick on_piece goroutine_returns
  step interrupt s =
      if s.interrupted then going s else going (record s { interrupted = true; deadline = true })
  step deadline_passed s =
      if s.deadline then going (record s { deadline = false; cancelled = true }) else going s
  step context_done s = if s.cancelled then end_of_context s else going s
  step (ticked now first second) s = going (on_tick now first second s)
  step (piece_arrived result now synced answer) s = on_piece result now synced answer s
  step (worker_returned k) s = going (goroutine_returns (worker_returned k) s)
  step background_returned s = going (goroutine_returns background_returned s)

  -- The loop over what happens, and the wait behind it; once Download has returned, nothing does.
  unfoldable pub loop : List Event → Run → Outcome
  unfolding step wait
  loop [] s = going s
  loop (e ∷ events) s = elim (step e s) [
    | going s' ↦ loop events s'
    | waiting s' r ↦ wait events s' r
    | returned s' r ↦ returned s' r
  ]

  -- The events behind an outcome.
  unfoldable pub continue : List Event → Outcome → Outcome
  unfolding loop wait
  continue events (going s) = loop events s
  continue events (waiting s r) = wait events s r
  continue events (returned s r) = returned s r

  -- The deferred announce of every return behind the first announce.
  unfoldable pub leave : Option AnnounceResponse → Outcome → Outcome
  leave answer (going s) = going s
  leave answer (waiting s r) = waiting s r
  leave answer (returned s r) = returned (announce address cfg stopped answer s) r
