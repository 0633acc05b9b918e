-- ===== src/Download/Main/Loop/Slots.antt =====
-- The connections that the announces start.
use p2p_file_distribution.Base.{
  ℕ, zero, suc, ◌≤◌, leb, true, false, List, [], ◌∷◌, length, remove_at, contains, Option, none,
  some, ◌≡◌, arith, if_elim,
}
use p2p_file_distribution.Tracker.{AddrPort, AnnounceResponse}
use p2p_file_distribution.Download.Main.{
  Config, Run, Error, Outcome, going, waiting, returned, started, stopped, resumed_piece,
}
use p2p_file_distribution.Base.{Bool, Result, ok, err, panic, ◌>>=◌, map_err, refl}
use p2p_file_distribution.Base.Int.{pos}
use p2p_file_distribution.Base.Bytes.{Bytes}
use mathlib.Core.Path.{subst}
use p2p_file_distribution.Piece.Geometry
use p2p_file_distribution.Storage.{create}
use p2p_file_distribution.Storage.Resume
use p2p_file_distribution.Storage.Resume.{verify_existing, present}
use p2p_file_distribution.Download.Coordinator.State.{Coordinator}
use p2p_file_distribution.Download.Coordinator.Handlers.{mark_complete, Fault}
use p2p_file_distribution.Download.Main.Resume.{
  begin, begin_with, resume, own, fresh, enter, enter_ready, ready,
}
use p2p_file_distribution.Download.Main.Announce.{
  announce, answered, start_worker, start_workers, worker_done,
}
use p2p_file_distribution.Download.Main.Loop.{Event, loop, land, continue, leave}
use p2p_file_distribution.Download.Main.Loop.Invariant.{
  Keeps, any_good, loop-keeps, wait-keeps, wg_wait-keeps, state_of,
}

abbrev pub Distinct : List ℕ → Type 0
Distinct [] = Unit {0}
Distinct (x ∷ xs) = (contains x xs ≡ false) × Distinct xs

-- No more connections than slots; each is to another address, and that is remembered.
pub record IsBounded (max_peers : ℕ) (connected running : List ℕ) : Type 0 where
  pub few : length running ≤ max_peers
  pub once : Distinct connected
  pub apart : Distinct running
  pub known : (addr : ℕ) → contains addr running ≡ true → contains addr connected ≡ true

contains-remove_at :
    (k a : ℕ) (xs : List ℕ) → contains a (remove_at k xs) ≡ true → contains a xs ≡ true
contains-remove_at k a [] h = h
contains-remove_at zero a (x ∷ xs) h = ground arith
contains-remove_at (suc k) a (x ∷ xs) h = ground (arith, contains-remove_at k a xs)

remove_at-Distinct : (k : ℕ) (xs : List ℕ) → Distinct xs → Distinct (remove_at k xs)
remove_at-Distinct k [] d = tt
remove_at-Distinct zero (x ∷ xs) d = d.1
remove_at-Distinct (suc k) (x ∷ xs) d =
    (ground (arith, contains-remove_at k x xs, d.0), remove_at-Distinct k xs d.1)

length-remove_at : (k : ℕ) (xs : List ℕ) → length (remove_at k xs) ≤ length xs
length-remove_at k [] = omega arith
length-remove_at zero (x ∷ xs) = omega arith
length-remove_at (suc k) (x ∷ xs) = omega (arith, length-remove_at k xs)

module _ (address : AddrPort → ℕ) (cfg : Config) where
  abbrev pub HasSlots : Run → Type 0
  HasSlots s = IsBounded cfg.max_peers s.connected s.running

  start_worker-HasSlots :
      (addr : ℕ) (s : Run) → HasSlots s → HasSlots (start_worker cfg.max_peers addr s)
  unfolding start_worker
  start_worker-HasSlots addr s h =
      if_elim HasSlots (contains addr s.connected) (λ _. h)
        (λ fresh.
          if_elim HasSlots (leb cfg.max_peers (length s.running)) (λ _. h)
            (λ free. record {
              few = ground arith;
              once = (fresh, h.once);
              apart = (ground (arith, h.known addr), h.apart);
              known = λ a e. ground (arith, h.known a);
            }))

  start_workers-HasSlots :
      (peers : List AddrPort) (s : Run)
      → HasSlots s
      → HasSlots (start_workers address cfg.max_peers peers s)
  unfolding start_workers
  start_workers-HasSlots [] s h = h
  start_workers-HasSlots (p ∷ peers) s h =
      start_workers-HasSlots peers _ (start_worker-HasSlots (address p) s h)

  answered-HasSlots :
      (answer : Option AnnounceResponse) (s : Run)
      → HasSlots s
      → HasSlots (answered address cfg answer s)
  unfolding answered
  answered-HasSlots none s h = h
  answered-HasSlots (some answer) s h = start_workers-HasSlots answer.peers _ h

  HasSlots-Keeps : Keeps address cfg (λ _ _. Unit {0}) HasSlots
  unfolding announce land worker_done
  HasSlots-Keeps = record {
    announced = λ event answer s h. answered-HasSlots answer _ h;
    stamped = λ now s h. h;
    finished = λ s _ h. h;
    warned = λ s _ h. h;
    expired = λ s _ h. h;
    ended = λ s h. h;
    landed = λ result now file s _ _ h. h;
    quit = λ s h. h;
    freed = λ k s h. record {
      few = omega (arith, h.few, length-remove_at k s.running);
      once = h.once;
      apart = remove_at-Distinct k s.running h.apart;
      known = λ a e. h.known a (contains-remove_at k a s.running e);
    };
  }

  loop-HasSlots :
      (events : List Event) (s : Run) → HasSlots s → HasSlots (state_of (loop address cfg events s))
  loop-HasSlots events s h =
      loop-keeps address cfg (λ _ _. Unit {0}) HasSlots HasSlots-Keeps events s
        (any_good address cfg HasSlots events s) h

  continue-HasSlots :
      (events : List Event) (o : Outcome)
      → HasSlots (state_of o)
      → HasSlots (state_of (continue address cfg events o))
  unfolding continue
  continue-HasSlots events (going s) h = loop-HasSlots events s h
  continue-HasSlots events (waiting s r) h =
      wait-keeps address cfg (λ _ _. Unit {0}) HasSlots HasSlots-Keeps events s r h
  continue-HasSlots events (returned s r) h = h

  leave-HasSlots :
      (answer : Option AnnounceResponse) (o : Outcome)
      → HasSlots (state_of o)
      → HasSlots (state_of (leave address cfg answer o))
  unfolding leave
  leave-HasSlots answer (going s) h = h
  leave-HasSlots answer (waiting s r) h = h
  leave-HasSlots answer (returned s r) h = HasSlots-Keeps.announced stopped answer s h

  enter-HasSlots :
      (now : ℕ) (answer : Option AnnounceResponse) (s : Run)
      → HasSlots s
      → HasSlots (state_of (enter address cfg now answer s))
  unfolding enter enter_ready ready
  enter-HasSlots now none s h = h
  enter-HasSlots now (some answer) s h =
      let s' : Run = ready cfg now (announce address cfg started (some answer) s) in
      let h' : HasSlots s' = HasSlots-Keeps.announced started (some answer) s h in
      let cancelled : Run = record s' { cancelled = true } in
      if_elim (λ (o : Outcome). HasSlots (state_of o)) s'.download_complete
        (λ _.
          if_elim (λ (o : Outcome). HasSlots (state_of o)) cfg.seed (λ _. h')
            (λ _. wg_wait-keeps HasSlots cancelled (ok tt) h'))
        (λ _. h')

  -- Before the first announce there is no connection.
  abbrev StartsEmpty : Result Error (Coordinator × Run) → Type 0
  StartsEmpty (ok (c, s)) = (s.connected ≡ []) × (s.running ≡ [])
  StartsEmpty _ = Unit {0}

  resume-StartsEmpty :
      (now i : ℕ) (verified : List Bool) (c : Coordinator) (s : Run)
      → s.connected ≡ []
      → s.running ≡ []
      → StartsEmpty (resume cfg now i verified c s)
  unfolding resume own
  resume-StartsEmpty now i [] c s a b = (a, b)
  resume-StartsEmpty now i (false ∷ verified) c s a b =
      resume-StartsEmpty now (suc i) verified c s a b
  resume-StartsEmpty now i (true ∷ verified) c s a b =
      taken (Geometry.length (pos i) cfg.piece_count cfg.piece_length cfg.total_length)
        (mark_complete i c)
        (λ len c'. resume-StartsEmpty now (suc i) verified c' (own i len now s) a b)
    where
      taken :
          (r : Result Geometry.Error ℕ) (m : Result Fault Coordinator)
          → ((len : ℕ) (c' : Coordinator)
              → StartsEmpty (resume cfg now (suc i) verified c' (own i len now s)))
          → StartsEmpty (
              map_err resumed_piece r >>= λ len. elim m [
                | ok c' ↦ resume cfg now (suc i) verified c' (own i len now s)
                | _ ↦ panic
              ])
      taken (ok len) (ok c') next = next len c'
      taken (ok len) (err e) next = tt
      taken (ok len) panic next = tt
      taken (err e) m next = tt
      taken panic m next = tt

  begin_with-StartsEmpty :
      (sha1 : Bytes → Bytes) (hashes : List Bytes) (now : ℕ) (file : Bytes)
      (found : Result Resume.Error (List Bool))
      → StartsEmpty (begin_with sha1 cfg hashes now file found)
  unfolding begin_with fresh
  begin_with-StartsEmpty sha1 hashes now file (ok verified) =
      resume-StartsEmpty now 0 verified _ (fresh cfg now file) refl refl
  begin_with-StartsEmpty sha1 hashes now file (err e) = tt
  begin_with-StartsEmpty sha1 hashes now file panic = tt

  -- From the start of Download on, through its first announce, which a tracker answers, its loop, its wait for
  -- the goroutines and the
  -- announce with which it leaves, whatever the trackers answer and however often: never more workers
  -- than MaxPeers, no two to one address, and no address is connected to twice.
  pub run-HasSlots :
      (sha1 : Bytes → Bytes) (hashes : List Bytes) (now later : ℕ) (old : Bytes) (order : List ℕ)
      (first : AnnounceResponse) (events : List Event) (last : Option AnnounceResponse)
      {c : Coordinator} {s : Run}
      → begin sha1 cfg hashes now old order ≡ ok (c, s)
      → HasSlots (
          state_of (
            leave address cfg last
              (continue address cfg events (enter address cfg later (some first) s))))
  unfolding begin
  run-HasSlots sha1 hashes now later old order first events last {c} {s} began =
      let (none_connected, none_running) = subst StartsEmpty began (
        begin_with-StartsEmpty sha1 hashes now _ (
          verify_existing sha1 (present (create cfg.total_length old)) cfg.piece_count
            cfg.piece_length cfg.total_length hashes order)) in
      let empty : HasSlots s =
        rw (none_connected, none_running)
          (record { few = omega arith; once = tt; apart = tt; known = λ a e. e }) in
      leave-HasSlots last _ (continue-HasSlots events _ (enter-HasSlots later (some first) s empty))
