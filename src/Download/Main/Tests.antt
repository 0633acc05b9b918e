-- ===== src/Download/Main/Tests.antt =====
-- A torrent with pieces of 4, 4 and 2 bytes, of which the first is on disk.
use p2p_file_distribution.Base.{
  ℕ, zero, suc, ◌<◌, true, false, List, [], ◌∷◌, ◌++◌, length, replicate, none, some, ok, ◌≡◌, refl,
  arith,
}
use p2p_file_distribution.Base.Int.{pos, ◌+ℤ◌, ◌-ℤ◌, wrap, mul_i64}
use p2p_file_distribution.Base.Bytes.{Bytes}
use p2p_file_distribution.Piece.Geometry.Bounds.{IsGeometry}
use p2p_file_distribution.Storage.{create}
use p2p_file_distribution.Storage.Resume.Exact.{IsSchedule, Intact}
use p2p_file_distribution.Tracker.{AddrPort, AnnounceResponse}
use p2p_file_distribution.Download.Coordinator.State.{
  Coordinator, PieceResult, new_coordinator, complete, missing as missing_piece,
}
use p2p_file_distribution.Download.Main.{is_idle, wg_wait, Config, Run, going, started}
use p2p_file_distribution.Base.Bytes.{bytes_eq}
use p2p_file_distribution.Piece.Geometry
use p2p_file_distribution.Piece.Geometry.{range, last_length}
use p2p_file_distribution.Piece.Verify.{verify}
use p2p_file_distribution.Peer.Bitfield.{has_piece, test_bit, set_piece, set_bit, set_at}
use p2p_file_distribution.Storage.{
  write_piece, write_over, write_at, truncate, make_and_read, read_at,
}
use p2p_file_distribution.Storage.Resume.{verify_existing, scan, check_piece}
use p2p_file_distribution.Download.Have.{new_have, set_have, has}
use p2p_file_distribution.Download.Progress.{
  Tracked, new_progress, piece_completed, record_and_prune, drop_before, bytes_uploaded,
  bytes_downloaded,
}
use p2p_file_distribution.Download.Coordinator.Handlers.{mark_complete}
use p2p_file_distribution.Download.Main.Announce.{
  announce, answered, report_of, start_workers, start_worker, seconds_or,
}
use p2p_file_distribution.Download.Main.Resume.{
  begin, begin_with, enter, enter_ready, ready, fresh, resume, own,
}
use p2p_file_distribution.Download.Main.Loop.{
  Event, interrupt, ticked, piece_arrived, worker_returned, background_returned, loop, continue,
  leave, on_piece, step, land, after_piece,
}
use p2p_file_distribution.Download.Main.Loop.Invariant.{state_of, AllGood}
use p2p_file_distribution.Download.Main.Loop.Slots.{HasSlots, run-HasSlots}
use p2p_file_distribution.Download.Main.Loop.Verified.{IsVerified}
use p2p_file_distribution.Download.Main.Loop.Complete.{
  EndsShort, GoodNew, Tallied, missing, repeated_piece_completes,
}
use p2p_file_distribution.Download.Main.Loop.Start.{Owned, begin-Owned}
use p2p_file_distribution.Download.Main.Loop.Whole.{download_complete-Intact}
use p2p_file_distribution.Download.Main.Loop.Shutdown.{shutdown_returns, shutdown}
use p2p_file_distribution.Download.Main.Loop.Waiting.{Ends, AllReturn}

abbrev pub cfg : Config
cfg = record {
  piece_count = 3;
  piece_length = 4;
  total_length = 10;
  max_peers = 2;
  seed = false;
  listening = true;
}

pub three_pieces : IsGeometry 3 4 10
three_pieces = record {
  piece_pos = omega arith;
  total_pos = omega arith;
  fits = omega arith;
  count = omega arith;
}

-- A hash that tells first bytes apart.
abbrev pub head_hash : Bytes → Bytes
head_hash [] = replicate 20 0
head_hash (b ∷ content) = replicate 20 b

abbrev pub hashes : List Bytes
hashes = replicate 20 1 ∷ replicate 20 2 ∷ replicate 20 3 ∷ []

abbrev pub order : List ℕ
order = 2 ∷ 0 ∷ 1 ∷ []

pub order-IsSchedule : IsSchedule 3 order
order-IsSchedule = record {
  in_range = (omega arith, (omega arith, (omega arith, tt)));
  complete = λ i h. ground arith;
}

abbrev pub port_of : AddrPort → ℕ
port_of a = a.port

abbrev pub answer : AnnounceResponse
answer = record {
  interval = pos 60;
  min_interval = pos 0;
  complete = pos 0;
  incomplete = pos 0;
  peers =
      record { addr = []; port = 5 }
      ∷ record { addr = []; port = 6 }
      ∷ record { addr = []; port = 7 }
      ∷ [];
}

-- begin-Owned
begin-Owned_example :
    (length (create 10 (1 ∷ 9 ∷ [])) ≡ 10)
    × Owned head_hash cfg three_pieces hashes
        (begin head_hash cfg hashes 50 (1 ∷ 9 ∷ []) order)
        (create 10 (1 ∷ 9 ∷ []))
begin-Owned_example =
    begin-Owned head_hash cfg three_pieces hashes 50 (1 ∷ 9 ∷ []) order refl order-IsSchedule

-- The state behind VerifyExisting, and the one behind the first announce.
abbrev pub resumed_coordinator : Coordinator
resumed_coordinator = record (new_coordinator 3 4 10 hashes) {
  pieces = complete ∷ missing_piece ∷ missing_piece ∷ [];
}

abbrev pub progress : ℕ → Tracked
progress done = some (record {
  piece_count = 3;
  bytes_downloaded = 0;
  bytes_uploaded = 0;
  active_peers = pos 0;
  peak_peers = pos 0;
  upload_samples = [];
  connect_attempts = 0;
  connect_successes = 0;
  hash_failures = 0;
  panics = 0;
  duplicate_assignments = 0;
  pieces_done = done;
  samples = record { at = 50; bytes = 0 } ∷ [];
})

abbrev pub resumed : Run
resumed = record {
  file = 1 ∷ 9 ∷ replicate 8 0;
  have = 128 ∷ [];
  completed = 1;
  bytes_owned = 4;
  progress = progress 1;
  download_complete = false;
  min_reannounce = pos 30000000000;
  announce_interval = pos 1800000000000;
  last_progress = 50;
  last_announce = 50;
  connected = [];
  running = [];
  background = 2;
  reports = [];
  interrupted = false;
  deadline = false;
  cancelled = false;
}

abbrev pub entered : Run
entered = record resumed {
  announce_interval = pos 60000000000;
  last_progress = 60;
  last_announce = 60;
  connected = 6 ∷ 5 ∷ [];
  running = 6 ∷ 5 ∷ [];
  reports = record { event = started; uploaded = 0; downloaded = 0; left = 6 } ∷ [];
}

pub begun : begin head_hash cfg hashes 50 (1 ∷ 9 ∷ []) order ≡ ok (resumed_coordinator, resumed)
unfolding begin verify_existing scan check_piece verify bytes_eq range last_length make_and_read
    read_at truncate create resume own fresh mark_complete new_coordinator piece_completed
    record_and_prune drop_before new_progress new_have set_have set_piece set_bit Geometry.length
    ◌+ℤ◌ ◌-ℤ◌ wrap mul_i64 begin_with set_at
begun = refl

pub announced : enter port_of cfg 60 (some answer) resumed ≡ going entered
unfolding enter enter_ready ready announce answered report_of start_workers start_worker seconds_or
    mul_i64 wrap bytes_uploaded bytes_downloaded
announced = refl

abbrev pub second : PieceResult
second = record { index = 1; content = 2 ∷ 0 ∷ 0 ∷ 0 ∷ [] }

abbrev pub third : PieceResult
third = record { index = 2; content = 3 ∷ 0 ∷ [] }

second-IsVerified : IsVerified head_hash three_pieces hashes second
second-IsVerified = record {
  in_range = omega arith;
  full = refl;
  hash = replicate 20 2;
  listed = refl;
  size = refl;
  same = refl;
}

third-IsVerified : IsVerified head_hash three_pieces hashes third
third-IsVerified = record {
  in_range = omega arith;
  full = refl;
  hash = replicate 20 3;
  listed = refl;
  size = refl;
  same = refl;
}

abbrev arrivals : List Event
arrivals = piece_arrived second 70 true none ∷ piece_arrived third 80 true none ∷ []

third_is_new :
    has (state_of (step port_of cfg (piece_arrived second 70 true none) entered)).have 2 ≡ false
unfolding step has has_piece test_bit set_have set_piece set_bit set_at write_piece range
    Geometry.length mul_i64 ◌+ℤ◌ wrap write_over land write_at after_piece
third_is_new = refl

arrivals-AllGood :
    AllGood port_of cfg
      (GoodNew head_hash port_of cfg three_pieces hashes)
      (Tallied head_hash port_of cfg three_pieces hashes)
      arrivals
      entered
unfolding has has_piece test_bit
arrivals-AllGood = ((second-IsVerified, refl), ((third-IsVerified, third_is_new), tt))

all_arrived : (state_of (loop port_of cfg arrivals entered)).download_complete ≡ true
unfolding loop step has has_piece test_bit set_have set_piece set_bit set_at write_piece range
    last_length Geometry.length mul_i64 ◌+ℤ◌ wrap write_over land write_at after_piece announce
    wg_wait is_idle
all_arrived = refl

download_complete-Intact_example :
    Intact head_hash three_pieces hashes (state_of (loop port_of cfg arrivals entered)).file 1
download_complete-Intact_example =
    download_complete-Intact head_hash port_of cfg three_pieces hashes 50 60 (1 ∷ 9 ∷ []) order
      (some answer) arrivals refl order-IsSchedule begun announced arrivals-AllGood all_arrived 1
      (omega arith)

-- Two pieces are there, and the download is not complete.
abbrev one_missing : Run
one_missing = record entered {
  file = 1 ∷ 9 ∷ 0 ∷ 0 ∷ 2 ∷ replicate 5 0;
  have = 192 ∷ [];
  completed = 2;
  bytes_owned = 8;
  progress = progress 2;
}

one_missing-Intact :
    (i : ℕ)
    → i < 3
    → has one_missing.have i ≡ true
    → Intact head_hash three_pieces hashes one_missing.file i
unfolding has has_piece test_bit
one_missing-Intact zero h e = record {
  hash = replicate 20 1;
  listed = refl;
  size = refl;
  same = refl;
}
one_missing-Intact (suc zero) h e = record {
  hash = replicate 20 2;
  listed = refl;
  size = refl;
  same = refl;
}
one_missing-Intact (suc (suc zero)) h e = cc
one_missing-Intact (suc (suc (suc i))) h e = absurd (omega (arith, h))

one_missing-Tallied : Tallied head_hash port_of cfg three_pieces hashes one_missing
unfolding missing has has_piece test_bit
one_missing-Tallied = record {
  on_disk = record {
    sized = refl;
    bytes = (omega arith, tt);
    have_size = refl;
    backed = one_missing-Intact;
  };
  counted = refl;
  full = λ e. cc;
}

repeated_piece_completes_example :
    EndsShort head_hash port_of cfg three_pieces hashes
      (state_of (on_piece port_of cfg second 90 true none one_missing))
unfolding has has_piece test_bit
repeated_piece_completes_example =
    repeated_piece_completes head_hash port_of cfg three_pieces hashes second 90 true none
      one_missing second-IsVerified refl one_missing-Tallied refl refl

abbrev busy : List Event
busy =
    worker_returned 1
    ∷ ticked 60000000060 none (some answer)
    ∷ piece_arrived second 70 true none
    ∷ []

run-HasSlots_example : HasSlots port_of cfg (
    state_of (
      leave port_of cfg
        (some answer)
        (continue port_of cfg busy (enter port_of cfg 60 (some answer) resumed))))
run-HasSlots_example =
    run-HasSlots port_of cfg head_hash hashes 50 60 (1 ∷ 9 ∷ []) order answer busy (some answer)
      begun

abbrev quiet : List Event
quiet = ticked 70000000000 none none ∷ []

-- Where the loop is over, one worker runs, besides the coordinator and the listener.
abbrev over : Run
over = state_of (loop port_of cfg (shutdown port_of cfg busy quiet []) entered)

workers_left : length over.running ≡ 1
unfolding loop write_piece range Geometry.length write_at mul_i64 wrap announce wg_wait is_idle
workers_left = refl

background_left : over.background ≡ 2
unfolding loop write_piece range Geometry.length write_at mul_i64 wrap announce wg_wait is_idle
background_left = refl

abbrev endings : List Event
endings = background_returned ∷ interrupt ∷ worker_returned 0 ∷ background_returned ∷ []

all_return : AllReturn endings (length over.running) over.background
all_return =
    rw (workers_left, background_left) (omega arith, (omega arith, (omega arith, (refl, refl))))

shutdown_returns_example :
    Ends (loop port_of cfg (shutdown port_of cfg busy quiet [] ++ endings) entered)
shutdown_returns_example =
    shutdown_returns port_of cfg busy quiet [] endings entered refl all_return
