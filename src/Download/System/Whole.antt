-- ===== src/Download/System/Whole.antt =====
-- The whole client: peers, connections, the coordinator, and the loop of Download that writes what the
-- coordinator hands over.
use p2p_file_distribution.Base.{
  ℕ, ◌<◌, true, List, [], ◌∷◌, length, get_elem?, Option, some, ok, ◌≡◌,
}
use p2p_file_distribution.Base.Bytes.{Bytes, All, All-get}
use p2p_file_distribution.Piece.Geometry.Bounds.{IsGeometry}
use p2p_file_distribution.Storage.Resume.Exact.{Intact, IsSchedule}
use p2p_file_distribution.Tracker.{AddrPort, AnnounceResponse}
use p2p_file_distribution.Download.Have.{has}
use p2p_file_distribution.Download.Coordinator.State.{Coordinator, PieceResult}
use p2p_file_distribution.Download.Main.{Config, Run, going}
use p2p_file_distribution.Download.Main.Resume.{begin, enter}
use p2p_file_distribution.Download.Main.Loop.{
  Event, interrupt, deadline_passed, context_done, ticked, piece_arrived, worker_returned,
  background_returned, loop,
}
use p2p_file_distribution.Download.Main.Loop.Invariant.{AllGood, state_of, IsGood}
use p2p_file_distribution.Download.Main.Loop.Verified.{IsVerified, Good, Backed, loop-Backed}
use p2p_file_distribution.Download.Main.Loop.Whole.{entered-Tallied}
use p2p_file_distribution.Download.System.{System, IsReachable}
use p2p_file_distribution.Download.System.Verified.{results-IsVerified}

-- The pieces that the loop takes are results of the coordinator.
abbrev pub IsFrom : List PieceResult → Event → Type 0
IsFrom results (piece_arrived result now synced answer) =
    (k : ℕ) × (get_elem? results k ≡ some result)
IsFrom results _ = Unit {0}

module _ (sha1 : Bytes → Bytes) (address : AddrPort → ℕ) (cfg : Config)
    (g : IsGeometry cfg.piece_count cfg.piece_length cfg.total_length) (hashes : List Bytes) where
  from-IsGood :
      (results : List PieceResult) (e : Event) (s : Run)
      → All (IsVerified sha1 g hashes) results
      → IsFrom results e
      → IsGood address cfg (Good sha1 address cfg g hashes) (Backed sha1 address cfg g hashes) e s
  from-IsGood results (piece_arrived result now synced answer) s v (k, e) =
      All-get (IsVerified sha1 g hashes) results k v e
  from-IsGood results interrupt s v h = tt
  from-IsGood results deadline_passed s v h = tt
  from-IsGood results context_done s v h = tt
  from-IsGood results (ticked now first second) s v h = tt
  from-IsGood results (worker_returned k) s v h = tt
  from-IsGood results background_returned s v h = tt

  from-AllGood :
      (results : List PieceResult) (events : List Event) (s : Run)
      → All (IsVerified sha1 g hashes) results
      → All (IsFrom results) events
      → AllGood address cfg
          (Good sha1 address cfg g hashes)
          (Backed sha1 address cfg g hashes)
          events
          s
  from-AllGood results [] s v h = tt
  from-AllGood results (e ∷ events) s v h =
      (from-IsGood results e s v h.0, from-AllGood results events _ v h.1)

  -- In a valid torrent with a hash for every piece, from whatever was in the file at the beginning,
  -- whatever peers send, and however goroutines, timers, trackers and failures interleave: as long as the
  -- loop of Download takes its pieces from what the coordinator hands over, every piece that the client
  -- holds for complete, and so advertises and serves, is in the file with its hash, at every moment and
  -- when Download returns.
  pub client-Intact :
      (system : System) (now later : ℕ) (old : Bytes) (order : List ℕ)
      (answer : Option AnnounceResponse) (events : List Event) {c : Coordinator} {s s' : Run}
      → length hashes ≡ cfg.piece_count
      → IsReachable sha1 cfg.piece_count cfg.piece_length cfg.total_length hashes system
      → IsSchedule cfg.piece_count order
      → begin sha1 cfg hashes now old order ≡ ok (c, s)
      → enter address cfg later answer s ≡ going s'
      → All (IsFrom system.coordinator.results) events
      → (i : ℕ) → i < cfg.piece_count
      → has (state_of (loop address cfg events s')).have i ≡ true
      → Intact sha1 g hashes (state_of (loop address cfg events s')).file i
  client-Intact system now later old order answer events {c} {s} {s'} listed reached scheduled began
        entered from i h held =
      let verified = results-IsVerified g hashes sha1 listed system reached in
      let start =
        entered-Tallied sha1 address cfg g hashes now later old order answer listed scheduled began
          entered in
      (loop-Backed sha1 address cfg g hashes events s'
          (from-AllGood system.coordinator.results events s' verified from) start.on_disk).backed
        i h held
