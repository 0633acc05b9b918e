-- ===== src/Download/Main/Loop/Invariant.antt =====
-- What an invariant of the loop has to show: each part of a step keeps it.
use p2p_file_distribution.Base.{
  ℕ, ◌-◌, none, some, leb, ◌==◌, ◌&&◌, Bool, true, false, not, List, [], ◌∷◌, Option, Result, ok,
  err, panic, ◌≡◌, refl, arith, ◌∙◌, contains, length, if_elim,
}
use p2p_file_distribution.Base.Int.{pos, leb_ℤ}
use p2p_file_distribution.Base.Bytes.{Bytes}
use p2p_file_distribution.Storage
use p2p_file_distribution.Storage.{write_piece}
use p2p_file_distribution.Tracker.{AddrPort, AnnounceResponse}
use p2p_file_distribution.Download.Coordinator.State.{PieceResult}
use p2p_file_distribution.Download.Main.{
  Config, Run, Error, Outcome, going, waiting, returned, is_idle, wg_wait, AnnounceEvent, periodic,
  completed,
}
use p2p_file_distribution.Download.Main.Announce.{
  announce, answered, start_worker, start_workers, worker_done,
}
use p2p_file_distribution.Download.Main.Resume.{stall_timeout}
use p2p_file_distribution.Download.Main.Loop.{
  Event, interrupt, deadline_passed, context_done, ticked, piece_arrived, worker_returned, on_tick,
  on_piece, land, after_piece, finish_download, written, end_of_context, step, loop, wait,
  goroutine_returns, background_returned, stall_check, routine_check,
}

abbrev pub state_of : Outcome → Run
state_of (going s) = s
state_of (waiting s r) = s
state_of (returned s r) = s

-- wg.Wait changes no variable.
pub wg_wait-keeps :
    (P : Run → Type 0) (s : Run) (r : Result Error (Unit {0})) → P s → P (state_of (wg_wait s r))
unfolding wg_wait
wg_wait-keeps P s r h = if_elim (λ (o : Outcome). P (state_of o)) (is_idle s) (λ _. h) (λ _. h)

-- What the announces leave alone.
pub record Core : Type 0 where
  pub file : Bytes
  pub have : Bytes
  pub completed : ℕ
  pub complete : Bool
  pub interrupted : Bool
  pub deadline : Bool
  pub cancelled : Bool

abbrev pub core : Run → Core
core s = record {
  file = s.file;
  have = s.have;
  completed = s.completed;
  complete = s.download_complete;
  interrupted = s.interrupted;
  deadline = s.deadline;
  cancelled = s.cancelled;
}

module _ (address : AddrPort → ℕ) (cfg : Config) where
  start_worker-core : (max_peers addr : ℕ) (s : Run) → core (start_worker max_peers addr s) ≡ core s
  unfolding start_worker
  start_worker-core max_peers addr s =
      if_elim (λ (t : Run). core t ≡ core s) (contains addr s.connected) (λ _. refl)
        (λ _.
          if_elim (λ (t : Run). core t ≡ core s) (leb max_peers (length s.running)) (λ _. refl)
            (λ _. refl))

  start_workers-core :
      (max_peers : ℕ) (peers : List AddrPort) (s : Run)
      → core (start_workers address max_peers peers s) ≡ core s
  unfolding start_workers
  start_workers-core max_peers [] s = refl
  start_workers-core max_peers (p ∷ peers) s =
      start_workers-core max_peers peers _ ∙ start_worker-core max_peers (address p) s

  answered-core :
      (answer : Option AnnounceResponse) (s : Run) → core (answered address cfg answer s) ≡ core s
  unfolding answered
  answered-core none s = refl
  answered-core (some answer) s = start_workers-core cfg.max_peers answer.peers _

  pub announce-core :
      (event : AnnounceEvent) (answer : Option AnnounceResponse) (s : Run)
      → core (announce address cfg event answer s) ≡ core s
  unfolding announce
  announce-core event answer s = answered-core answer _

module _ (address : AddrPort → ℕ) (cfg : Config) (Good : PieceResult → Run → Type 0)
    (P : Run → Type 0) where
  -- The parts of a step.
  pub record Keeps : Type 0 where
    pub announced :
        (event : AnnounceEvent) (answer : Option AnnounceResponse) (s : Run)
        → P s
        → P (announce address cfg event answer s)
    pub stamped : (now : ℕ) (s : Run) → P s → P (record s { last_announce = now })
    pub finished :
        (s : Run) → s.completed ≡ cfg.piece_count → P s → P (record s { download_complete = true })
    pub warned :
        (s : Run)
        → s.interrupted ≡ false
        → P s
        → P (record s { interrupted = true; deadline = true })
    pub expired :
        (s : Run) → s.deadline ≡ true → P s → P (record s { deadline = false; cancelled = true })
    pub ended : (s : Run) → P s → P (record s { cancelled = true })
    pub landed :
        (result : PieceResult) (now : ℕ) (file : Bytes) (s : Run)
        → Good result s
        → write_piece
            (pos result.index)
            cfg.piece_count
            cfg.piece_length
            cfg.total_length
            result.content
            s.file
          ≡ ok file
        → P s
        → P (land address cfg result now file s)
    pub freed : (k : ℕ) (s : Run) → P s → P (worker_done k s)
    pub quit : (s : Run) → P s → P (record s { background = s.background - 1 })

  abbrev pub IsGood : Event → Run → Type 0
  IsGood (piece_arrived result now synced answer) s = Good result s
  IsGood _ s = Unit {0}

  -- Every result that arrives is good for the state that it meets.
  abbrev pub AllGood : List Event → Run → Type 0
  AllGood [] s = Unit {0}
  AllGood (e ∷ events) s = IsGood e s × AllGood events (state_of (step address cfg e s))

  abbrev Holds : Outcome → Type 0
  Holds o = P (state_of o)

  module _ (k : Keeps) where
    stall_check-keeps :
        (now : ℕ) (answer : Option AnnounceResponse) (s : Run)
        → P s
        → P (stall_check address cfg now answer s)
    unfolding stall_check
    stall_check-keeps now answer s h =
        if_elim P
          (not s.download_complete
            && (leb stall_timeout (now - s.last_progress)
                && leb_ℤ s.min_reannounce (pos (now - s.last_announce))))
          (λ _. k.stamped now _ (k.announced periodic answer s h)) (λ _. h)

    routine_check-keeps :
        (now : ℕ) (answer : Option AnnounceResponse) (s : Run)
        → P s
        → P (routine_check address cfg now answer s)
    unfolding routine_check
    routine_check-keeps now answer s h =
        if_elim P (leb_ℤ s.announce_interval (pos (now - s.last_announce)))
          (λ _. k.stamped now _ (k.announced periodic answer s h)) (λ _. h)

    goroutine_returns-keeps : (e : Event) (s : Run) → P s → P (goroutine_returns e s)
    unfolding goroutine_returns
    goroutine_returns-keeps interrupt s h = h
    goroutine_returns-keeps deadline_passed s h = h
    goroutine_returns-keeps context_done s h = h
    goroutine_returns-keeps (ticked now first second) s h = h
    goroutine_returns-keeps (piece_arrived result now synced answer) s h = h
    goroutine_returns-keeps (worker_returned i) s h = k.freed i s h
    goroutine_returns-keeps background_returned s h = k.quit s h

    pub wait-keeps :
        (events : List Event) (s : Run) (r : Result Error (Unit {0}))
        → P s
        → Holds (wait events s r)
    unfolding wait
    wait-keeps [] s r h = wg_wait-keeps P s r h
    wait-keeps (e ∷ events) s r h =
        if_elim Holds (is_idle s) (λ _. h)
          (λ _. wait-keeps events (goroutine_returns e s) r (goroutine_returns-keeps e s h))

    finish_download-keeps :
        (now : ℕ) (synced : Bool) (answer : Option AnnounceResponse) (s : Run)
        → s.completed ≡ cfg.piece_count
        → P s
        → Holds (finish_download address cfg now synced answer s)
    unfolding finish_download
    finish_download-keeps now synced answer s full h =
        let done : P (record s { download_complete = true }) = k.finished s full h in
        let told : P
            (record (announce address cfg completed answer
              (record s { download_complete = true })) { last_announce = now }) =
          k.stamped now _ (k.announced _ answer _ done) in
        if_elim Holds (not synced) (λ _. done)
          (λ _.
            if_elim Holds cfg.seed (λ _. told) (λ _. wg_wait-keeps P _ (ok tt) (k.ended _ told)))

    after_piece-keeps :
        (now : ℕ) (synced : Bool) (answer : Option AnnounceResponse) (s : Run)
        → P s
        → Holds (after_piece address cfg now synced answer s)
    unfolding after_piece
    after_piece-keeps now synced answer s h =
        if_elim Holds ((s.completed == cfg.piece_count) && not s.download_complete)
          (λ full. finish_download-keeps now synced answer s (ground arith) h) (λ _. h)

    written-keeps :
        (result : PieceResult) (now : ℕ) (synced : Bool) (answer : Option AnnounceResponse)
        (s : Run) (r : Result Storage.Error Bytes)
        → Good result s
        → write_piece
            (pos result.index)
            cfg.piece_count
            cfg.piece_length
            cfg.total_length
            result.content
            s.file
          ≡ r
        → P s
        → Holds (written address cfg result now synced answer s r)
    unfolding written
    written-keeps result now synced answer s (ok file) good e h =
        after_piece-keeps now synced answer _ (k.landed result now file s good e h)
    written-keeps result now synced answer s (err x) good e h = h
    written-keeps result now synced answer s panic good e h = h

    pub step-keeps : (e : Event) (s : Run) → IsGood e s → P s → Holds (step address cfg e s)
    unfolding step on_tick on_piece end_of_context
    step-keeps interrupt s good h = if_elim Holds s.interrupted (λ _. h) (λ e. k.warned s e h)
    step-keeps deadline_passed s good h = if_elim Holds s.deadline (λ e. k.expired s e h) (λ _. h)
    step-keeps context_done s good h =
        if_elim Holds s.cancelled
          (λ _.
            if_elim Holds (not s.download_complete) (λ _. wg_wait-keeps P s _ h)
              (λ _. wg_wait-keeps P s _ h))
          (λ _. h)
    step-keeps (ticked now first second) s good h =
        routine_check-keeps now second _ (stall_check-keeps now first s h)
    step-keeps (piece_arrived result now synced answer) s good h =
        written-keeps result now synced answer s _ good refl h
    step-keeps (worker_returned i) s good h = goroutine_returns-keeps (worker_returned i) s h
    step-keeps background_returned s good h = goroutine_returns-keeps background_returned s h

    loop_from :
        (events : List Event) (o : Outcome)
        → ((s : Run) → AllGood events s → P s → Holds (loop address cfg events s))
        → AllGood events (state_of o)
        → Holds o
        → Holds (elim o [
          | going s ↦ loop address cfg events s
          | waiting s r ↦ wait events s r
          | returned s r ↦ returned s r
        ])
    loop_from events (going s) next good h = next s good h
    loop_from events (waiting s r) next good h = wait-keeps events s r h
    loop_from events (returned s r) next good h = h

    -- An invariant holds of the state after any number of events, and of the state in which Download
    -- returns.
    pub loop-keeps :
        (events : List Event) (s : Run)
        → AllGood events s
        → P s
        → P (state_of (loop address cfg events s))
    unfolding loop
    loop-keeps [] s good h = h
    loop-keeps (e ∷ events) s good h =
        loop_from events (step address cfg e s) (λ s' good' h'. loop-keeps events s' good' h')
          good.1 (step-keeps e s good.0 h)

-- Where nothing is asked of the results, any events will do.
module _ (address : AddrPort → ℕ) (cfg : Config) (P : Run → Type 0) where
  pub any_event : (e : Event) (s : Run) → IsGood address cfg (λ _ _. Unit {0}) P e s
  any_event (piece_arrived result now synced answer) s = tt
  any_event interrupt s = tt
  any_event deadline_passed s = tt
  any_event context_done s = tt
  any_event (ticked now first second) s = tt
  any_event (worker_returned k) s = tt
  any_event background_returned s = tt

  pub any_good : (events : List Event) (s : Run) → AllGood address cfg (λ _ _. Unit {0}) P events s
  any_good [] s = tt
  any_good (e ∷ events) s = (any_event e s, any_good events _)
