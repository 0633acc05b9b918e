-- ===== src/Download/Main/Loop/Waiting.antt =====
-- wg.Wait of internal/download/download.go: what Download waits for before it returns.
use p2p_file_distribution.Base.{
  ℕ, zero, suc, ◌-◌, ◌<◌, true, List, [], ◌∷◌, length, remove_at, Result, ok, err, panic, ◌≡◌, ◌⊎◌,
  refl, sym, arith, if_elim, inl, inr,
}
use mathlib.Core.Path.{subst}
use p2p_file_distribution.Download.Main.{
  Run, Error, Outcome, going, waiting, returned, is_idle, wg_wait, resumed_piece, write_failed,
  verify_failed, initial_announce, sync_failed, caller_cancelled,
}
use p2p_file_distribution.Download.Main.Announce.{worker_done}
use p2p_file_distribution.Download.Main.Loop.{
  Event, interrupt, deadline_passed, context_done, ticked, piece_arrived, worker_returned,
  background_returned, goroutine_returns, wait,
}

-- `remove_at` in bounds.
length-remove_at : (k : ℕ) (xs : List ℕ) → k < length xs → length (remove_at k xs) ≡ length xs - 1
length-remove_at k [] h = absurd (omega (arith, h))
length-remove_at zero (x ∷ xs) h = omega arith
length-remove_at (suc k) (x ∷ xs) h = omega (arith, h, length-remove_at k xs (omega (arith, h)))

-- Download has not returned before its goroutines, unless a write of a piece failed or panicked, or the sync of
-- the file failed.
abbrev pub HasWaited : Run → Result Error (Unit {0}) → Type 0
HasWaited s (err (write_failed e)) = Unit {0}
HasWaited s (err sync_failed) = Unit {0}
HasWaited s panic = Unit {0}
HasWaited s (ok _) = is_idle s ≡ true
HasWaited s (err _) = is_idle s ≡ true

-- Download has returned.
abbrev pub Ends : Outcome → Type 0
Ends o = (s : Run) × (r : Result Error (Unit {0})) × (o ≡ returned s r) × HasWaited s r

-- The loop is over.
abbrev pub Leaves : Outcome → Type 0
Leaves o = Ends o ⊎ ((s : Run) × (r : Result Error (Unit {0})) × (o ≡ waiting s r))

-- Where it has returned, it has waited.
abbrev pub Rests : Outcome → Type 0
Rests (going s) = Unit {0}
Rests (waiting s r) = Unit {0}
Rests (returned s r) = HasWaited s r

-- Each of the goroutines, `workers` and `others`, returns.
abbrev pub AllReturn : List Event → ℕ → ℕ → Type 0
AllReturn [] workers others = (workers ≡ 0) × (others ≡ 0)
AllReturn (worker_returned k ∷ events) workers others =
    (k < workers) × AllReturn events (workers - 1) others
AllReturn (background_returned ∷ events) workers others =
    (0 < others) × AllReturn events workers (others - 1)
AllReturn (_ ∷ events) workers others = AllReturn events workers others

idle-HasWaited : (s : Run) (r : Result Error (Unit {0})) → is_idle s ≡ true → HasWaited s r
idle-HasWaited s (ok _) h = h
idle-HasWaited s (err caller_cancelled) h = h
idle-HasWaited s (err (resumed_piece e)) h = h
idle-HasWaited s (err (write_failed e)) h = tt
idle-HasWaited s (err verify_failed) h = h
idle-HasWaited s (err initial_announce) h = h
idle-HasWaited s (err sync_failed) h = tt
idle-HasWaited s panic h = tt

pub wg_wait-Leaves : (s : Run) (r : Result Error (Unit {0})) → Leaves (wg_wait s r)
unfolding wg_wait
wg_wait-Leaves s r =
    if_elim Leaves (is_idle s) (λ h. inl (s, r, refl, idle-HasWaited s r h)) (λ _. inr (s, r, refl))

pub wg_wait-Rests : (s : Run) (r : Result Error (Unit {0})) → Rests (wg_wait s r)
unfolding wg_wait
wg_wait-Rests s r = if_elim Rests (is_idle s) (λ h. idle-HasWaited s r h) (λ _. tt)

pub wait-Leaves :
    (events : List Event) (s : Run) (r : Result Error (Unit {0})) → Leaves (wait events s r)
unfolding wait
wait-Leaves [] s r = wg_wait-Leaves s r
wait-Leaves (e ∷ events) s r =
    if_elim Leaves (is_idle s) (λ h. inl (s, r, refl, idle-HasWaited s r h))
      (λ _. wait-Leaves events (goroutine_returns e s) r)

-- A goroutine that returns is one less to wait for.
goroutine_returns-AllReturn :
    (events : List Event) (s : Run) (e : Event)
    → AllReturn (e ∷ events) (length s.running) s.background
    → AllReturn events (length (goroutine_returns e s).running) (goroutine_returns e s).background
unfolding goroutine_returns worker_done
goroutine_returns-AllReturn events s interrupt h = h
goroutine_returns-AllReturn events s deadline_passed h = h
goroutine_returns-AllReturn events s context_done h = h
goroutine_returns-AllReturn events s (ticked now first second) h = h
goroutine_returns-AllReturn events s (piece_arrived result now synced answer) h = h
goroutine_returns-AllReturn events s (worker_returned k) h =
    subst (λ n. AllReturn events n s.background) (sym (length-remove_at k s.running h.0)) h.1
goroutine_returns-AllReturn events s background_returned h = h.1

-- The counter reaches 0 with the last of the goroutines.
pub wait-Ends :
    (events : List Event) (s : Run) (r : Result Error (Unit {0}))
    → AllReturn events (length s.running) s.background
    → Ends (wait events s r)
unfolding wait wg_wait
wait-Ends [] s r h =
    if_elim Ends (is_idle s) (λ idle. (s, r, refl, idle-HasWaited s r idle))
      (λ busy. absurd (unfold is_idle in ground (arith, h.0, h.1, busy)))
wait-Ends (e ∷ events) s r h =
    if_elim Ends (is_idle s) (λ idle. (s, r, refl, idle-HasWaited s r idle))
      (λ _. wait-Ends events (goroutine_returns e s) r (goroutine_returns-AllReturn events s e h))
