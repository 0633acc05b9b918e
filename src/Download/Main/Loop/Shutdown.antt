-- ===== src/Download/Main/Loop/Shutdown.antt =====
-- How a run ends once its caller has cancelled it.
use p2p_file_distribution.Base.{
  ℕ, ◌≤◌, ◌==◌, ◌&&◌, if◌then◌else◌, true, false, not, Bool, List, [], ◌∷◌, ◌++◌, length, Option,
  Result, ok, err, panic, ◌≡◌, refl, sym, ap, ◌∙◌, arith, if_elim, inl, inr, Bool-cases,
}
use mathlib.Core.Path.{subst}
use p2p_file_distribution.Base.Bytes.{Bytes}
use p2p_file_distribution.Storage
use p2p_file_distribution.Tracker.{AddrPort, AnnounceResponse}
use p2p_file_distribution.Download.Coordinator.State.{PieceResult}
use p2p_file_distribution.Download.Main.{
  Config, Run, Error, Outcome, going, waiting, returned, is_idle, wg_wait,
}
use p2p_file_distribution.Download.Main.Announce.{worker_done}
use p2p_file_distribution.Download.Main.Loop.{
  Event, interrupt, deadline_passed, context_done, ticked, piece_arrived, worker_returned,
  background_returned, goroutine_returns, wait, continue, step, loop, land, on_piece, written,
  after_piece, finish_download, end_of_context,
}
use p2p_file_distribution.Download.Main.Loop.Invariant.{
  Core, core, announce-core, Keeps, step-keeps, any_event, state_of,
}
use p2p_file_distribution.Download.Main.Loop.Waiting.{
  Ends, Leaves, Rests, AllReturn, wg_wait-Leaves, wg_wait-Rests, wait-Leaves, wait-Ends,
}

-- How far the shutdown has come: 0, 1 in the grace period, 2 when the context is cancelled.
abbrev stage : Core → ℕ
stage c = if c.cancelled then 2 else if c.deadline then 1 else 0

-- Once the caller's cancellation is seen the grace period runs, or it is over. The stage is `k` at least.
abbrev IsAt : ℕ → Core → Type 0
IsAt k c = (c.interrupted ≡ true → 1 ≤ stage c) × (k ≤ stage c)

module _ (address : AddrPort → ℕ) (cfg : Config) where
  abbrev At : ℕ → Run → Type 0
  At k s = IsAt k (core s)

  -- No step loses ground.
  At-Keeps : (k : ℕ) → Keeps address cfg (λ _ _. Unit {0}) (At k)
  unfolding land worker_done
  At-Keeps k = record {
    announced =
        λ event answer s h. subst (IsAt k) (sym (announce-core address cfg event answer s)) h;
    stamped = λ now s h. h;
    finished = λ s _ h. h;
    warned = λ s _ h. (λ _. ground arith, ground arith);
    expired = λ s _ h. (λ _. ground arith, ground arith);
    ended = λ s h. (λ _. ground arith, ground arith);
    landed = λ result now file s _ _ h. h;
    freed = λ k s h. h;
    quit = λ s h. h;
  }

  -- The three events that end a run, each of which lifts the stage or has lifted it already.
  interrupt_lifts : (s : Run) → At 0 s → At 1 (state_of (step address cfg interrupt s))
  unfolding step
  interrupt_lifts s h = elim (Bool-cases s.interrupted) [
    | inl again ↦ rw again (λ _. h.0 again, h.0 again)
    | inr first ↦ rw first (λ _. ground arith, ground arith)
  ]

  deadline_lifts : (s : Run) → At 1 s → At 2 (state_of (step address cfg deadline_passed s))
  unfolding step
  deadline_lifts s h =
      if_elim (λ (o : Outcome). At 2 (state_of o)) s.deadline
        (λ runs. (λ _. ground arith, ground arith)) (λ over. (h.0, ground (arith, h.1, over)))

  -- No step returns before the goroutines, but for a failed write or sync.
  finish_download-Rests :
      (now : ℕ) (synced : Bool) (answer : Option AnnounceResponse) (s : Run)
      → Rests (finish_download address cfg now synced answer s)
  unfolding finish_download
  finish_download-Rests now synced answer s =
      if_elim Rests (not synced) (λ _. tt)
        (λ _. if_elim Rests cfg.seed (λ _. tt) (λ _. wg_wait-Rests _ (ok tt)))

  written-Rests :
      (result : PieceResult) (now : ℕ) (synced : Bool) (answer : Option AnnounceResponse) (s : Run)
      (r : Result Storage.Error Bytes)
      → Rests (written address cfg result now synced answer s r)
  unfolding written after_piece
  written-Rests result now synced answer s (ok file) =
      let s' : Run = land address cfg result now file s in
      if_elim Rests ((s'.completed == cfg.piece_count) && not s'.download_complete)
        (λ _. finish_download-Rests now synced answer s') (λ _. tt)
  written-Rests result now synced answer s (err e) = tt
  written-Rests result now synced answer s panic = tt

  step-Rests : (e : Event) (s : Run) → Rests (step address cfg e s)
  unfolding step end_of_context on_piece
  step-Rests interrupt s = if_elim Rests s.interrupted (λ _. tt) (λ _. tt)
  step-Rests deadline_passed s = if_elim Rests s.deadline (λ _. tt) (λ _. tt)
  step-Rests context_done s =
      if_elim Rests s.cancelled
        (λ _.
          if_elim Rests (not s.download_complete) (λ _. wg_wait-Rests s _) (λ _. wg_wait-Rests s _))
        (λ _. tt)
  step-Rests (ticked now first second) s = tt
  step-Rests (piece_arrived result now synced answer) s = written-Rests result now synced answer s _
  step-Rests (worker_returned k) s = tt
  step-Rests background_returned s = tt

  context_leaves : (s : Run) → At 2 s → Leaves (step address cfg context_done s)
  unfolding step end_of_context
  context_leaves s h =
      if_elim Leaves s.cancelled
        (λ _.
          if_elim Leaves (not s.download_complete) (λ _. wg_wait-Leaves s _)
            (λ _. wg_wait-Leaves s _))
        (λ runs. absurd (ground (arith, h.1, runs)))

  loop-step :
      (e : Event) (rest : List Event) (s : Run)
      → loop address cfg (e ∷ rest) s ≡ continue address cfg rest (step address cfg e s)
  unfolding loop continue
  loop-step e rest s = continues (step address cfg e s)
    where
      continues :
          (o : Outcome)
          → elim o [
            | going s' ↦ loop address cfg rest s'
            | waiting s' r ↦ wait rest s' r
            | returned s' r ↦ returned s' r
          ]
            ≡ continue address cfg rest o
      continues (going s') = refl
      continues (waiting s' r) = refl
      continues (returned s' r) = refl

  -- Download returns at once when the counter is 0.
  wait_idle :
      (b : List Event) (s : Run) (r : Result Error (Unit {0}))
      → is_idle s ≡ true
      → wait b s r ≡ returned s r
  unfolding wait wg_wait
  wait_idle [] s r idle = rw idle refl
  wait_idle (e ∷ b) s r idle = rw idle refl

  wait_again :
      (b : List Event) (s : Run) (r : Result Error (Unit {0}))
      → wait b s r ≡ continue address cfg b (wg_wait s r)
  unfolding wg_wait continue
  wait_again b s r = elim (Bool-cases (is_idle s)) [
    | inl idle ↦ rw idle (wait_idle b s r idle)
    | inr busy ↦ rw busy refl
  ]

  wait-append :
      (a b : List Event) (s : Run) (r : Result Error (Unit {0}))
      → wait (a ++ b) s r ≡ continue address cfg b (wait a s r)
  unfolding wait continue
  wait-append [] b s r = wait_again b s r
  wait-append (e ∷ a) b s r = elim (Bool-cases (is_idle s)) [
    | inl idle ↦ rw idle refl
    | inr busy ↦ rw busy (wait-append a b (goroutine_returns e s) r)
  ]

  continue-append :
      (a b : List Event) (o : Outcome)
      → continue address cfg (a ++ b) o ≡ continue address cfg b (continue address cfg a o)
  unfolding continue
  continue-append a b (waiting s r) = wait-append a b s r
  continue-append a b (returned s r) = refl
  continue-append [] b (going s) = unfold loop in refl
  continue-append (e ∷ a) b (going s) =
      loop-step e (a ++ b) s
      ∙ continue-append a b (step address cfg e s)
      ∙ ap (λ (o : Outcome). continue address cfg b o) (sym (loop-step e a s))

  continue-Leaves :
      (k : ℕ) (rest : List Event) (o : Outcome)
      → ((s : Run) → At k s → Leaves (loop address cfg rest s))
      → Rests o
      → At k (state_of o)
      → Leaves (continue address cfg rest o)
  unfolding continue
  continue-Leaves k rest (going s) next w h = next s h
  continue-Leaves k rest (waiting s r) next w h = wait-Leaves rest s r
  continue-Leaves k rest (returned s r) next w h = inl (s, r, refl, w)

  lifts :
      (k : ℕ) (e : Event) (rest : List Event) (s : Run)
      → ((s : Run) → At k s → Leaves (loop address cfg rest s))
      → At k (state_of (step address cfg e s))
      → Leaves (loop address cfg (e ∷ rest) s)
  lifts k e rest s next h =
      rw (loop-step e rest s)
        (continue-Leaves k rest (step address cfg e s) next (step-Rests e s) h)

  -- Whatever happens before, the stage is not lost.
  waits :
      (k : ℕ) (events rest : List Event) (s : Run)
      → ((s : Run) → At k s → Leaves (loop address cfg rest s))
      → At k s
      → Leaves (loop address cfg (events ++ rest) s)
  waits k [] rest s next h = next s h
  waits k (e ∷ events) rest s next h =
      lifts k e (events ++ rest) s (λ s' h'. waits k events rest s' next h')
        (step-keeps address cfg (λ _ _. Unit {0}) (At k) (At-Keeps k) e s
          (any_event address cfg (At k) e s) h)

  -- The events up to the one that ends the loop.
  abbrev pub shutdown : List Event → List Event → List Event → List Event
  shutdown before grace ending =
      before ++ interrupt ∷ (grace ++ deadline_passed ∷ (ending ++ context_done ∷ []))

  shutdown_leaves :
      (before grace ending : List Event) (s : Run)
      → s.interrupted ≡ false
      → Leaves (loop address cfg (shutdown before grace ending) s)
  unfolding continue
  shutdown_leaves before grace ending s fresh =
      waits 0 before _ s
        (λ s₀ h₀.
          lifts 1 interrupt (grace ++ deadline_passed ∷ (ending ++ context_done ∷ [])) s₀
            (λ s₁ h₁.
              waits 1 grace (deadline_passed ∷ (ending ++ context_done ∷ [])) s₁
                (λ s₂ h₂.
                  lifts 2 deadline_passed (ending ++ context_done ∷ []) s₂
                    (λ s₃ h₃. waits 2 ending (context_done ∷ []) s₃ ended h₃)
                    (deadline_lifts s₂ h₂))
                h₁)
            (interrupt_lifts s₀ h₀))
        (λ e. cc, omega arith)
    where
      last : (o : Outcome) → Leaves o → Leaves (continue address cfg [] o)
      last (going s) (inl (s', r, e, w)) = cc
      last (going s) (inr (s', r, e)) = cc
      last (waiting s r) h = wait-Leaves [] s r
      last (returned s r) h = h

      ended : (s : Run) → At 2 s → Leaves (loop address cfg (context_done ∷ []) s)
      ended s h = rw (loop-step context_done [] s) (last _ (context_leaves s h))

  left-Ends :
      (after : List Event) (o : Outcome)
      → Leaves o
      → AllReturn after (length (state_of o).running) (state_of o).background
      → Ends (continue address cfg after o)
  unfolding continue
  left-Ends after o (inl (s, r, e, w)) h = rw e (s, r, refl, w)
  left-Ends after o (inr (s, r, e)) h = rw e (
      wait-Ends after s r (
        subst
          (λ (o : Outcome). AllReturn after (length (state_of o).running) (state_of o).background) e
          h))

  -- Once the caller cancels, the grace period passes and the cancellation of the context is seen, whatever
  -- else happens before and between, the loop is over; and once each goroutine that runs then returns, whatever
  -- else happens meanwhile, Download returns. It does so with no goroutine left, unless a write of a piece
  -- has failed or panicked, or the sync of the file has failed.
  pub shutdown_returns :
      (before grace ending after : List Event) (s : Run)
      → s.interrupted ≡ false
      → AllReturn after
          (length (state_of (loop address cfg (shutdown before grace ending) s)).running)
          (state_of (loop address cfg (shutdown before grace ending) s)).background
      → Ends (loop address cfg (shutdown before grace ending ++ after) s)
  unfolding continue
  shutdown_returns before grace ending after s fresh all =
      let o : Outcome = loop address cfg (shutdown before grace ending) s in
      rw (continue-append (shutdown before grace ending) after (going s))
        (left-Ends after o (shutdown_leaves before grace ending s fresh) all)
