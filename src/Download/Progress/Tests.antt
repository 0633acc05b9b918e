-- ===== src/Download/Progress/Tests.antt =====
-- Connections that race for the peak, and samples around the window.
use p2p_file_distribution.Base.{List, [], ◌∷◌, ◌++◌, ◌≡◌, refl, arith}
use p2p_file_distribution.Base.Int.{pos, ◌+ℤ◌, ◌-ℤ◌, wrap}
use p2p_file_distribution.Download.Rates.{RateSample}
use p2p_file_distribution.Download.Progress.{Progress, record_and_prune}
use p2p_file_distribution.Download.Progress.Peak.{
  Event, connected, disconnected, load, compare_and_swap, run, no_peers, highest, run-highest,
}
use p2p_file_distribution.Download.Progress.Window.{in_window, record_and_prune-window}

abbrev race : List Event
race =
    connected
    ∷ connected
    ∷ load 0
    ∷ load 1
    ∷ compare_and_swap 0
    ∷ compare_and_swap 0
    ∷ disconnected
    ∷ load 0
    ∷ compare_and_swap 0
    ∷ []

race_settles : (run no_peers race).waiting ≡ []
unfolding run no_peers ◌+ℤ◌ ◌-ℤ◌ wrap
race_settles = refl

run-highest_example : (run no_peers race).peak ≡ highest (pos 0) (pos 0) race
run-highest_example = run-highest race race_settles

abbrev samples : List RateSample
samples = record { at = 1000; bytes = 5 } ∷ record { at = 9000000000; bytes = 8 } ∷ []

record_and_prune-window_example :
    record_and_prune samples 20 10000001001
    ≡ in_window 10000001001 (samples ++ record { at = 10000001001; bytes = 20 } ∷ [])
record_and_prune-window_example = record_and_prune-window samples 20 10000001001 (omega arith)

abbrev idle : Progress
idle = record {
  piece_count = 3;
  bytes_downloaded = 0;
  bytes_uploaded = 100;
  active_peers = pos 2;
  peak_peers = pos 2;
  upload_samples = [];
  connect_attempts = 2;
  connect_successes = 2;
  hash_failures = 0;
  panics = 0;
  duplicate_assignments = 0;
  pieces_done = 0;
  samples = [];
}
