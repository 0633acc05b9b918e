-- ===== src/Download/Main.antt =====
-- internal/download/download.go: Download, one function after another: what a run keeps (here), its
-- announces (Main/Announce), what it starts with (Main/Resume) and its loop (Main/Loop).
pub mod Announce
pub mod Resume
pub mod Loop
pub mod Tests
use p2p_file_distribution.Base.{
  ℕ, ◌+◌, ◌==◌, length, leb, if◌then◌else◌, Bool, List, Option, Result,
}
use p2p_file_distribution.Base.Int.{ℤ, pos, negsuc, leb_ℤ, pos_part}
use p2p_file_distribution.Base.Bytes.{Bytes}
use p2p_file_distribution.Piece.Geometry
use p2p_file_distribution.Storage
use p2p_file_distribution.Download.Progress.{Tracked}

-- 50
abbrev pub default_max_peers : ℕ
default_max_peers = 50

-- opts.MaxPeers, which may be any int.
unfoldable pub max_peers_of : ℤ → ℕ
max_peers_of n = if leb_ℤ n (pos 0) then default_max_peers else pos_part n

-- The torrent and the options, as far as the loop reads them; `listening` says that peer.Listen succeeds.
pub record Config : Type 0 where
  pub piece_count : ℕ
  pub piece_length : ℕ
  pub total_length : ℕ
  pub max_peers : ℕ
  pub seed : Bool
  pub listening : Bool

pub data AnnounceEvent : Type 0 where
  periodic started completed stopped : AnnounceEvent

-- What one announce tells the trackers.
pub record Report : Type 0 where
  pub event : AnnounceEvent
  pub uploaded : ℕ
  pub downloaded : ℕ
  pub left : ℕ

-- The local variables of Download. `connected` has the keys of the map, `running` the workers that
-- hold a slot of the semaphore; `reports` are the announces so far, the latest first. `interrupted`
-- says that callerDone has fired, `deadline` that the grace period runs, `cancelled` that ctx is done.
-- The WaitGroup counts `running` and `background`: the goroutines of the coordinator and the listener.
pub record Run : Type 0 where
  pub file : Bytes
  pub have : Bytes
  pub completed : ℕ
  pub bytes_owned : ℕ
  pub progress : Tracked
  pub download_complete : Bool
  pub min_reannounce : ℤ
  pub announce_interval : ℤ
  pub last_progress : ℕ
  pub last_announce : ℕ
  pub connected : List ℕ
  pub running : List ℕ
  pub background : ℕ
  pub reports : List Report
  pub interrupted : Bool
  pub deadline : Bool
  pub cancelled : Bool

pub data Error : Type 0 where
  resumed_piece : Geometry.Error → Error
  write_failed : Storage.Error → Error
  verify_failed initial_announce sync_failed caller_cancelled : Error

-- Download is in its loop, or in wg.Wait with what it will return, or it has returned.
pub data Outcome : Type 0 where
  going : Run → Outcome
  waiting : Run → Result Error (Unit {0}) → Outcome
  returned : Run → Result Error (Unit {0}) → Outcome

-- The counter of the WaitGroup is 0.
unfoldable pub is_idle : Run → Bool
is_idle s = (length s.running + s.background) == 0

-- wg.Wait(), in front of a return.
unfoldable pub wg_wait : Run → Result Error (Unit {0}) → Outcome
wg_wait s r = if is_idle s then returned s r else waiting s r
