-- ===== src/Download/Rates.antt =====
-- internal/download/rates.go: bytes moved from and to each peer, in a moving window. Times are
-- nanoseconds; a rate is the pair of the bytes and the nanoseconds whose quotient the code takes.
use p2p_file_distribution.Base.{
  ℕ, ◌+◌, ◌-◌, ltb, leb, if◌then◌else◌, Bool, true, false, List, [], ◌∷◌, ◌++◌, Option, none, some,
}
use p2p_file_distribution.Base.Dict
use p2p_file_distribution.Base.Dict.{Dict}

-- 20 seconds
abbrev pub rate_sample_window : ℕ
rate_sample_window = 20000000000

pub record RateSample : Type 0 where
  pub at : ℕ
  pub bytes : ℕ

pub record PeerRate : Type 0 where
  pub down_samples : List RateSample
  pub up_samples : List RateSample
  pub down_total : ℕ
  pub up_total : ℕ

abbrev pub RateTracker : Type 0
RateTracker = Dict PeerRate

abbrev no_rate : PeerRate
no_rate = record { down_samples = []; up_samples = []; down_total = 0; up_total = 0 }

-- Drops the samples at the front that are older than the window.
unfoldable pub prune : List RateSample → ℕ → List RateSample
prune [] now = []
prune (s ∷ samples) now =
    if ltb (s.at + rate_sample_window) now then prune samples now else s ∷ samples

abbrev rate_for : Option PeerRate → PeerRate
rate_for none = no_rate
rate_for (some pr) = pr

unfoldable pub record_bytes : RateTracker → ℕ → ℕ → Bool → ℕ → RateTracker
record_bytes rt addr n download now =
    let pr = rate_for (Dict.lookup addr rt) in
    let down = pr.down_total + n in
    let up = pr.up_total + n in
    Dict.put addr
      (if download
        then record pr {
          down_total = down;
          down_samples = prune (pr.down_samples ++ record { at = now; bytes = down } ∷ []) now;
        }
        else record pr {
          up_total = up;
          up_samples = prune (pr.up_samples ++ record { at = now; bytes = up } ∷ []) now;
        })
      rt

unfoldable pub add_downloaded : RateTracker → ℕ → ℕ → ℕ → RateTracker
unfolding record_bytes
add_downloaded rt addr n now = record_bytes rt addr n true now

unfoldable pub add_uploaded : RateTracker → ℕ → ℕ → ℕ → RateTracker
unfolding record_bytes
add_uploaded rt addr n now = record_bytes rt addr n false now

pub record Rate : Type 0 where
  pub bytes : ℕ
  pub elapsed : ℕ

abbrev pub zero_rate : Rate
zero_rate = record { bytes = 0; elapsed = 1 }

unfoldable pub last_sample : RateSample → List RateSample → RateSample
last_sample s [] = s
last_sample s (t ∷ samples) = last_sample t samples

-- First to last, or zero when the window is too small, stale or without duration.
unfoldable pub rate : List RateSample → ℕ → Rate
unfolding last_sample
rate [] now = zero_rate
rate (first ∷ []) now = zero_rate
rate (first ∷ second ∷ samples) now =
    let last = last_sample second samples in
    if ltb (last.at + rate_sample_window) now
    then zero_rate
    else if leb last.at first.at
    then zero_rate
    else record { bytes = last.bytes - first.bytes; elapsed = last.at - first.at }

unfoldable pub download_rate : RateTracker → ℕ → ℕ → Rate
unfolding rate
download_rate rt addr now = rate (rate_for (Dict.lookup addr rt)).down_samples now

unfoldable pub upload_rate : RateTracker → ℕ → ℕ → Rate
unfolding rate
upload_rate rt addr now = rate (rate_for (Dict.lookup addr rt)).up_samples now

unfoldable pub remove : RateTracker → ℕ → RateTracker
remove rt addr = Dict.remove addr rt
