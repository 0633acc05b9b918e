-- ===== src/Download/Progress.antt =====
-- internal/download/progress.go: the counters of a run and what is shown of them. `none` is the nil
-- *Progress, on which every method does nothing. Counters of bytes and events only grow and stay far
-- below 2^63; times are nanoseconds, and a float64 is the fraction that it approximates.
pub mod Peak
pub mod Window
pub mod Tests
use p2p_file_distribution.Base.{
  ℕ, ◌+◌, ◌-◌, ◌*◌, ◌/◌, ltb, leb, ◌==◌, if◌then◌else◌, Bool, List, [], ◌∷◌, ◌++◌, Option, none,
  some,
}
use p2p_file_distribution.Base.Int.{ℤ, pos, ◌+ℤ◌, ◌-ℤ◌, sub_ℕ, leb_ℤ, pos_part}
use p2p_file_distribution.Download.Rates.{RateSample, last_sample}

-- 10 seconds
abbrev pub rate_window : ℕ
rate_window = 10000000000

pub record Progress : Type 0 where
  pub piece_count : ℕ
  pub bytes_downloaded : ℕ
  pub bytes_uploaded : ℕ
  pub active_peers : ℤ
  pub peak_peers : ℤ
  pub upload_samples : List RateSample
  pub connect_attempts : ℕ
  pub connect_successes : ℕ
  pub hash_failures : ℕ
  pub panics : ℕ
  pub duplicate_assignments : ℕ
  pub pieces_done : ℕ
  pub samples : List RateSample

abbrev pub Tracked : Type 0
Tracked = Option Progress

unfoldable pub new_progress : ℕ → Tracked
new_progress piece_count = some (record {
  piece_count = piece_count;
  bytes_downloaded = 0;
  bytes_uploaded = 0;
  active_peers = pos 0;
  peak_peers = pos 0;
  upload_samples = [];
  connect_attempts = 0;
  connect_successes = 0;
  hash_failures = 0;
  panics = 0;
  duplicate_assignments = 0;
  pieces_done = 0;
  samples = [];
})

unfoldable pub add_bytes : ℕ → Tracked → Tracked
add_bytes n none = none
add_bytes n (some p) = some (record p { bytes_downloaded = p.bytes_downloaded + n })

unfoldable pub bytes_downloaded : Tracked → ℕ
bytes_downloaded none = 0
bytes_downloaded (some p) = p.bytes_downloaded

unfoldable pub bytes_uploaded : Tracked → ℕ
bytes_uploaded none = 0
bytes_uploaded (some p) = p.bytes_uploaded

-- The loop over the samples that lie before the cutoff.
unfoldable pub drop_before : ℕ → List RateSample → List RateSample
drop_before now [] = []
drop_before now (s ∷ samples) =
    if ltb (s.at + rate_window) now then drop_before now samples else s ∷ samples

unfoldable pub record_and_prune : List RateSample → ℕ → ℕ → List RateSample
unfolding drop_before
record_and_prune samples bytes now =
    drop_before now (samples ++ record { at = now; bytes = bytes } ∷ [])

-- AddUploadedBytes is two atomic steps, between which others may run: the new total, and the sample
-- that is taken of it under the lock.
unfoldable pub add_uploaded_total : ℕ → Tracked → Tracked
add_uploaded_total n none = none
add_uploaded_total n (some p) = some (record p { bytes_uploaded = p.bytes_uploaded + n })

unfoldable pub record_uploaded : ℕ → ℕ → Tracked → Tracked
unfolding record_and_prune
record_uploaded sum now none = none
record_uploaded sum now (some p) =
    some (record p { upload_samples = record_and_prune p.upload_samples sum now })

unfoldable pub add_uploaded_bytes : ℕ → ℕ → Tracked → Tracked
unfolding add_uploaded_total record_uploaded bytes_uploaded
add_uploaded_bytes n now p =
    let p' = add_uploaded_total n p in record_uploaded (bytes_uploaded p') now p'

-- Bytes over nanoseconds; the bytes may be negative.
pub record SignedRate : Type 0 where
  pub bytes : ℤ
  pub elapsed : ℕ

abbrev pub no_rate : SignedRate
no_rate = record { bytes = pos 0; elapsed = 1 }

unfoldable pub rate_from_samples : List RateSample → ℕ → SignedRate
unfolding last_sample
rate_from_samples [] now = no_rate
rate_from_samples (first ∷ []) now = no_rate
rate_from_samples (first ∷ second ∷ samples) now =
    let last = last_sample second samples in
    if ltb (last.at + rate_window) now
    then no_rate
    else if leb last.at first.at
    then no_rate
    else record { bytes = sub_ℕ last.bytes first.bytes; elapsed = last.at - first.at }

unfoldable pub upload_rate : ℕ → Tracked → SignedRate
unfolding rate_from_samples
upload_rate now none = no_rate
upload_rate now (some p) = rate_from_samples p.upload_samples now

unfoldable pub download_rate : ℕ → Tracked → SignedRate
unfolding rate_from_samples
download_rate now none = no_rate
download_rate now (some p) = rate_from_samples p.samples now

-- The compare-and-swap loop as one step; Peak has it step by step.
unfoldable pub peer_connected : Tracked → Tracked
peer_connected none = none
peer_connected (some p) =
    let n = p.active_peers +ℤ pos 1 in
    some
      (record p { active_peers = n; peak_peers = if leb_ℤ n p.peak_peers then p.peak_peers else n })

unfoldable pub peer_disconnected : Tracked → Tracked
peer_disconnected none = none
peer_disconnected (some p) = some (record p { active_peers = p.active_peers -ℤ pos 1 })

unfoldable pub active_peers : Tracked → ℤ
active_peers none = pos 0
active_peers (some p) = p.active_peers

unfoldable pub peak_peers : Tracked → ℤ
peak_peers none = pos 0
peak_peers (some p) = p.peak_peers

unfoldable pub connect_attempted : Tracked → Tracked
connect_attempted none = none
connect_attempted (some p) = some (record p { connect_attempts = p.connect_attempts + 1 })

unfoldable pub connect_succeeded : Tracked → Tracked
connect_succeeded none = none
connect_succeeded (some p) = some (record p { connect_successes = p.connect_successes + 1 })

unfoldable pub connect_stats : Tracked → ℕ × ℕ
connect_stats none = (0, 0)
connect_stats (some p) = (p.connect_attempts, p.connect_successes)

unfoldable pub hash_failed : Tracked → Tracked
hash_failed none = none
hash_failed (some p) = some (record p { hash_failures = p.hash_failures + 1 })

unfoldable pub hash_failures : Tracked → ℕ
hash_failures none = 0
hash_failures (some p) = p.hash_failures

unfoldable pub panic_recovered : Tracked → Tracked
panic_recovered none = none
panic_recovered (some p) = some (record p { panics = p.panics + 1 })

unfoldable pub panics : Tracked → ℕ
panics none = 0
panics (some p) = p.panics

unfoldable pub duplicate_assignment : Tracked → Tracked
duplicate_assignment none = none
duplicate_assignment (some p) =
    some (record p { duplicate_assignments = p.duplicate_assignments + 1 })

unfoldable pub duplicate_assignments : Tracked → ℕ
duplicate_assignments none = 0
duplicate_assignments (some p) = p.duplicate_assignments

unfoldable pub piece_completed : ℕ → Tracked → Tracked
unfolding record_and_prune
piece_completed now none = none
piece_completed now (some p) = some (record p {
  pieces_done = p.pieces_done + 1;
  samples = record_and_prune p.samples p.bytes_downloaded now;
})

-- Hundredths of the pieces: a numerator and a denominator.
pub record Fraction : Type 0 where
  pub num : ℕ
  pub den : ℕ

unfoldable pub percent : Tracked → Fraction
percent none = record { num = 0; den = 1 }
percent (some p) =
    if p.piece_count == 0
    then record { num = 0; den = 1 }
    else record { num = 100 * p.pieces_done; den = p.piece_count }

-- In whole seconds: remaining / rate, truncated.
unfoldable pub eta : ℕ → ℕ → Tracked → ℕ
unfolding download_rate bytes_downloaded
eta total_bytes now p =
    let r = download_rate now p in
    if leb_ℤ r.bytes (pos 0)
    then 0
    else (total_bytes - bytes_downloaded p) * r.elapsed / (pos_part r.bytes * 1000000000)

abbrev pub bar_width : ℕ
bar_width = 40

-- The columns of the bar that are filled, and those that are blank.
unfoldable pub bar : Tracked → ℕ × ℕ
unfolding percent
bar p =
    let full = percent p in
    let filled = full.num * bar_width / (100 * full.den) in
    let capped = if ltb bar_width filled then bar_width else filled in (capped, bar_width - capped)
