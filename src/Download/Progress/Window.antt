-- ===== src/Download/Progress/Window.antt =====
-- The moving window: what is kept of the samples, and what the rates are then.
use p2p_file_distribution.Base.{
  ℕ, ◌+◌, ◌≤◌, ◌<◌, ltb, if◌then◌else◌, false, List, [], ◌∷◌, ◌++◌, some, ◌≡◌, refl, arith,
  Bool-cases, inl, inr,
}
use p2p_file_distribution.Base.Int.{pos, leb_ℤ}
use p2p_file_distribution.Base.Bytes.{All}
use p2p_file_distribution.Download.Rates.{RateSample, last_sample}
use p2p_file_distribution.Download.Progress.{
  Progress, rate_window, drop_before, record_and_prune, rate_from_samples, add_uploaded_total,
  record_uploaded, upload_rate,
}

-- Times do not go back along the samples, and none is later than `now`.
abbrev pub IsTimed : ℕ → List RateSample → Type 0
IsTimed now [] = Unit {0}
IsTimed now (s ∷ samples) =
    All (λ (t : RateSample). s.at ≤ t.at) samples × (s.at ≤ now) × IsTimed now samples

-- The reference: the samples of the window, wherever they stand.
pub in_window : ℕ → List RateSample → List RateSample
in_window now [] = []
in_window now (s ∷ samples) =
    if ltb (s.at + rate_window) now then in_window now samples else s ∷ in_window now samples

in_window_whole :
    (now at : ℕ) (samples : List RateSample)
    → ltb (at + rate_window) now ≡ false
    → All (λ (t : RateSample). at ≤ t.at) samples
    → in_window now samples ≡ samples
unfolding in_window
in_window_whole now at [] recent h = refl
in_window_whole now at (s ∷ samples) recent h =
    rw (in_window_whole now at samples recent h.1) (ground (arith, h.0))

drop_before-window :
    (now : ℕ) (samples : List RateSample)
    → IsTimed now samples
    → drop_before now samples ≡ in_window now samples
unfolding drop_before in_window
drop_before-window now [] h = refl
drop_before-window now (s ∷ samples) h = elim (Bool-cases (ltb (s.at + rate_window) now)) [
  | inl old ↦ rw old (drop_before-window now samples h.2)
  | inr recent ↦ rw (recent, in_window_whole now s.at samples recent h.0) refl
]

All-snoc :
    (P : RateSample → Type 0) (samples : List RateSample) (t : RateSample)
    → All P samples
    → P t
    → All P (samples ++ t ∷ [])
All-snoc P [] t h p = (p, tt)
All-snoc P (s ∷ samples) t h p = (h.0, All-snoc P samples t h.1 p)

snoc-IsTimed :
    (now : ℕ) (samples : List RateSample) (bytes : ℕ)
    → IsTimed now samples
    → IsTimed now (samples ++ record { at = now; bytes = bytes } ∷ [])
snoc-IsTimed now [] bytes h = (tt, omega arith, tt)
snoc-IsTimed now (s ∷ samples) bytes h = (
  All-snoc (λ (t : RateSample). s.at ≤ t.at) samples (record { at = now; bytes = bytes }) h.0 h.1,
  h.1,
  snoc-IsTimed now samples bytes h.2,
)

-- On samples taken by a clock that does not go back, the loop over the old samples at the front drops all samples
-- that are older than the window and no other.
pub record_and_prune-window :
    (samples : List RateSample) (bytes now : ℕ)
    → IsTimed now samples
    → record_and_prune samples bytes now
      ≡ in_window now (samples ++ record { at = now; bytes = bytes } ∷ [])
unfolding record_and_prune
record_and_prune-window samples bytes now h =
    drop_before-window now _ (snoc-IsTimed now samples bytes h)

-- Two uploads whose samples are taken in the other order than their totals: the rate is negative.
pub upload_rate_negative :
    (p : Progress) (n m now later : ℕ)
    → p.upload_samples ≡ []
    → 0 < m
    → now < later
    → later ≤ now + rate_window
    → let first = p.bytes_uploaded + n in
      let q = add_uploaded_total m (add_uploaded_total n (some p)) in
      leb_ℤ
        (pos 0)
        (upload_rate later (record_uploaded first later (record_uploaded (first + m) now q))).bytes
      ≡ false
unfolding upload_rate record_uploaded add_uploaded_total record_and_prune drop_before
    rate_from_samples last_sample
upload_rate_negative p n m now later fresh hm order near = rw fresh (ground arith)
