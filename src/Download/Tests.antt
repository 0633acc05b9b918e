-- ===== src/Download/Tests.antt =====
-- Runs of the coordinator on a download of two pieces, of serving a block, and of a shared bitfield.
use p2p_file_distribution.Base.{
  length, ◌<◌, [], ◌∷◌, some, none, true, false, get_elem?, ok, ◌≡◌, ◌⊎◌, refl,
}
use p2p_file_distribution.Download.Command.{Channel, peer_joined}
use p2p_file_distribution.Download.Coordinator.State.{
  missing, complete, Coordinator, Env, new_coordinator, set_piece_state,
}
use p2p_file_distribution.Download.Coordinator.Selection.{select_piece_for, is_candidate}
use p2p_file_distribution.Download.Coordinator.Selection.Rarest.{
  IsRarest, select_piece_for-IsRarest,
}
use p2p_file_distribution.Download.Coordinator.Handlers.{
  handle, handle_piece_failed, handle_piece_downloaded, handle_peer_joined, mark_complete,
}
use p2p_file_distribution.Download.Coordinator.Tasks.{IsConsistent}
use p2p_file_distribution.Download.Coordinator.Tasks.Reach.{
  mark_all, IsReachable, started, stepped, on_event, reachable-IsConsistent,
}
use p2p_file_distribution.Download.Coordinator.Tasks.Late.{
  late_failure_reopens, IsFinished, handle_piece_downloaded_cases,
}
use p2p_file_distribution.Base.{ℕ, replicate, arith, ◌≢◌}
use p2p_file_distribution.Base.Int.{wrap, mul_i64, ◌+ℤ◌, ◌-ℤ◌}
use p2p_file_distribution.Base.Bytes.{Bytes, All, IsByte, be_u32}
use p2p_file_distribution.Base.Dict
use p2p_file_distribution.Piece.Geometry
use p2p_file_distribution.Piece.Geometry.Bounds.{IsGeometry, bytes_of}
use p2p_file_distribution.Peer.Payload.{parse_request}
use p2p_file_distribution.Storage.{read_block, read_at}
use p2p_file_distribution.Download.Serve.{
  Served, serve_request, serve_index, serve_block, read_requested,
}
use p2p_file_distribution.Download.Serve.Sound.{IsServed, serve_request-IsServed}
use p2p_file_distribution.Download.Session.Shared.{write_shared, shared_have_ignored}
use p2p_file_distribution.Download.Coordinator.Handlers.{
  joined_peer, handle_have_received, handle_peer_left,
}

abbrev env : Env
env = record {
  now = 0;
  coin = λ i n. false;
  peer_order = 7 ∷ [];
  piece_order = [];
  delivered = true;
}

abbrev start : Coordinator
start = new_coordinator 2 4 8 ((1 ∷ []) ∷ (2 ∷ []) ∷ [])

-- Piece 0 is on the disk already.
abbrev resumed : Coordinator
resumed = set_piece_state start 0 complete

resumed-IsReachable : IsReachable resumed
unfolding mark_all mark_complete new_coordinator
resumed-IsReachable = started 2 4 8 ((1 ∷ []) ∷ (2 ∷ []) ∷ []) (0 ∷ []) refl

abbrev channel : Channel
channel = record { queue = []; cap = 4 }

abbrev joined : Coordinator
joined = handle_peer_joined 7 channel resumed

joined_handled : handle env (peer_joined 7 channel) resumed ≡ ok joined
unfolding handle
joined_handled = refl

joined-IsReachable : IsReachable joined
joined-IsReachable =
    stepped resumed-IsReachable (on_event env (peer_joined 7 channel) joined_handled)

reachable-IsConsistent_example : IsConsistent joined
reachable-IsConsistent_example = reachable-IsConsistent joined joined-IsReachable

resumed-IsConsistent : IsConsistent resumed
resumed-IsConsistent = reachable-IsConsistent resumed resumed-IsReachable

done : get_elem? resumed.pieces 0 ≡ some complete
unfolding new_coordinator
done = refl

late_failure_reopens_example :
    (d : Coordinator) × (handle_piece_failed 7 0 resumed ≡ ok d)
    × (get_elem? d.pieces 0 ≡ some missing)
late_failure_reopens_example = late_failure_reopens 7 0 resumed resumed-IsConsistent done

two_pieces : 1 < length resumed.pieces
unfolding new_coordinator
two_pieces = omega arith

handle_piece_downloaded_cases_example :
    ((get_elem? resumed.pieces 1 ≡ some complete)
      × (handle_piece_downloaded env 7 1 (9 ∷ []) resumed ≡ ok resumed))
    ⊎ ((get_elem? resumed.pieces 1 ≢ some complete)
        × (d : Coordinator) × (handle_piece_downloaded env 7 1 (9 ∷ []) resumed ≡ ok d)
        × IsFinished true 1 (9 ∷ []) resumed d)
handle_piece_downloaded_cases_example =
    handle_piece_downloaded_cases env 7 1 (9 ∷ []) resumed two_pieces

select_piece_for-IsRarest_example :
    ((i : ℕ) × (select_piece_for env.coin resumed (192 ∷ []) ≡ some i)
      × IsRarest env.coin resumed (192 ∷ []) resumed.piece_count i)
    ⊎ ((select_piece_for env.coin resumed (192 ∷ []) ≡ none)
        × ((j : ℕ) → j < resumed.piece_count → is_candidate resumed (192 ∷ []) j ≡ false))
select_piece_for-IsRarest_example = select_piece_for-IsRarest env.coin resumed (192 ∷ [])

joined_peer_there : Dict.lookup 7 joined.peers ≡ some (joined_peer 2 channel)
unfolding handle_peer_joined handle_peer_left new_coordinator Dict.lookup Dict.put
joined_peer_there = refl

shared_have_ignored_example :
    handle_have_received env 7 1 (write_shared 7 1 joined) ≡ ok (write_shared 7 1 joined)
shared_have_ignored_example =
    shared_have_ignored env 7 1 joined (joined_peer 2 channel) joined_peer_there (omega arith, tt)
      (omega arith)

three_pieces : IsGeometry 3 4 10
three_pieces = record {
  piece_pos = omega arith;
  total_pos = omega arith;
  fits = omega arith;
  count = omega arith;
}

-- Two bytes of piece 2.
abbrev wanted : Bytes
wanted = 0 ∷ 0 ∷ 0 ∷ 2 ∷ 0 ∷ 0 ∷ 0 ∷ 0 ∷ 0 ∷ 0 ∷ 0 ∷ 2 ∷ []

abbrev served : Served
served = record { index = 2; begin = 0; block = 5 ∷ 5 ∷ [] }

wanted-All : All IsByte wanted
wanted-All = (
  omega arith,
  (
    omega arith,
    (
      omega arith,
      (
        omega arith,
        (
          omega arith,
          (
            omega arith,
            (
              omega arith,
              (omega arith, (omega arith, (omega arith, (omega arith, (omega arith, tt))))),
            ),
          ),
        ),
      ),
    ),
  ),
)

wanted_served :
    serve_request false (λ i. true) wanted 3 4 10 (replicate 10 5) true ≡ ok (some served)
unfolding serve_request serve_index serve_block read_requested parse_request be_u32 Geometry.length
    Geometry.range read_block read_at mul_i64 wrap ◌+ℤ◌ ◌-ℤ◌
wanted_served = refl

serve_request-IsServed_example :
    (false ≡ false)
    × (2 < 3)
    × (true ≡ true)
    × IsServed 3 4 10 (bytes_of three_pieces 2) (replicate 10 5) served
serve_request-IsServed_example =
    serve_request-IsServed three_pieces (replicate 10 5) refl false (λ i. true) wanted true served
      wanted-All wanted_served
