-- ===== src/Download/Main/Announce.antt =====
-- The closure `announce` of Download, and the workers that it starts. `address` is the key of a peer's
-- address in the map of connected peers.
use p2p_file_distribution.Base.{
  ℕ, ◌-◌, ◌==◌, leb, if◌then◌else◌, List, [], ◌∷◌, length, remove_at, contains, Option, none, some,
}
use p2p_file_distribution.Base.Int.{ℤ, pos, negsuc, mul_i64}
use p2p_file_distribution.Tracker.{AddrPort, AnnounceResponse}
use p2p_file_distribution.Download.Progress.{bytes_uploaded, bytes_downloaded}
use p2p_file_distribution.Download.Main.{Config, Run, AnnounceEvent, Report}

-- One peer of the answer: skipped when there is a connection to it, or when no slot is free.
unfoldable pub start_worker : ℕ → ℕ → Run → Run
start_worker max_peers addr s =
    if contains addr s.connected
    then s
    else if leb max_peers (length s.running)
    then s
    else record s { connected = addr ∷ s.connected; running = addr ∷ s.running }

-- The worker's deferred release of its slot.
unfoldable pub worker_done : ℕ → Run → Run
worker_done k s = record s { running = remove_at k s.running }

-- time.Duration(n) * time.Second, when n > 0; otherwise what it was.
unfoldable pub seconds_or : ℤ → ℤ → ℤ
seconds_or old (pos n) = if n == 0 then old else mul_i64 n 1000000000
seconds_or old (negsuc n) = old

module _ (address : AddrPort → ℕ) where
  unfoldable pub start_workers : ℕ → List AddrPort → Run → Run
  unfolding start_worker
  start_workers max_peers [] s = s
  start_workers max_peers (peer ∷ peers) s =
      start_workers max_peers peers (start_worker max_peers (address peer) s)

  -- `left` does not fall below 0.
  unfoldable pub report_of : Config → AnnounceEvent → Run → Report
  report_of cfg event s = record {
    event = event;
    uploaded = bytes_uploaded s.progress;
    downloaded = bytes_downloaded s.progress;
    left = cfg.total_length - s.bytes_owned;
  }

  unfoldable pub answered : Config → Option AnnounceResponse → Run → Run
  unfolding start_workers seconds_or
  answered cfg none s = s
  answered cfg (some answer) s = start_workers cfg.max_peers answer.peers (record s {
    min_reannounce = seconds_or s.min_reannounce answer.min_interval;
    announce_interval = seconds_or s.announce_interval answer.interval;
  })

  -- `none` is an answer that no tracker gave.
  unfoldable pub announce : Config → AnnounceEvent → Option AnnounceResponse → Run → Run
  unfolding report_of answered
  announce cfg event answer s =
      answered cfg answer (record s { reports = report_of cfg event s ∷ s.reports })
