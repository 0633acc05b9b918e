-- ===== src/Download/Coordinator/Handlers.antt =====
-- internal/download/coordinator.go: one function for each event, and the periodic tick.
use p2p_file_distribution.Base.{
  ℕ, ltb, ◌==◌, if◌then◌else◌, Bool, true, false, not, ◌&&◌, ◌||◌, List, [], ◌∷◌, ◌++◌, length,
  Option, none, some, Result, ok, panic,
}
use p2p_file_distribution.Base.Int.{pos}
use p2p_file_distribution.Base.Bytes.{Bytes}
use p2p_file_distribution.Base.Dict
use p2p_file_distribution.Peer.Bitfield.{has_piece, set_piece, empty_for}
use p2p_file_distribution.Download.Rates
use p2p_file_distribution.Download.Command.{
  Channel, Event, choke_peer, unchoke_peer, has_room, send, peer_joined, bitfield_received,
  have_received, piece_downloaded, piece_failed, peer_ready, peer_left, interested_received,
  not_interested_received, choke_received, unchoke_received,
}
use p2p_file_distribution.Download.Coordinator.State.{
  missing, complete, PeerInfo, Assignment, Coordinator, Env, is_open, put_peer, set_piece_state,
  set_assignees,
}
use p2p_file_distribution.Download.Coordinator.Availability.{
  inc_availability, add_availability, remove_availability,
}
use p2p_file_distribution.Download.Coordinator.Selection.{is_some, select_piece_for, free_stale}
use p2p_file_distribution.Download.Coordinator.Endgame.{
  with_peer, assign_found, assign_any_missing_to, maybe_enter_endgame, cancel_other_assignees,
}

-- An index that comes with an event and is out of bounds panics.
pub data Fault : Type 0 where
  fault : Fault

abbrev pub Outcome : Type 0
Outcome = Result Fault Coordinator

unfoldable pub try_assign_peer : Env → ℕ → PeerInfo → Coordinator → Coordinator
unfolding select_piece_for
try_assign_peer env addr p c =
    if is_some p.assigned
    then c
    else if p.peer_choking
    then c
    else if c.endgame
    then assign_any_missing_to env addr p c
    else assign_found env addr p c (select_piece_for env.coin c p.have)

unfoldable pub try_assign : Env → ℕ → Coordinator → Coordinator
unfolding try_assign_peer
try_assign env addr c = with_peer addr c (λ p. try_assign_peer env addr p c)

unfoldable pub drop_assignee : ℕ → List Assignment → List Assignment
drop_assignee addr [] = []
drop_assignee addr (a ∷ assignees) =
    if a.addr == addr then assignees else a ∷ drop_assignee addr assignees

unfoldable pub remove_assignee : ℕ → ℕ → Coordinator → Coordinator
unfolding drop_assignee
remove_assignee index addr c = set_assignees c index (drop_assignee addr (c.assignments index))

-- `if len(c.assignments[index]) == 0 { c.pieces[index] = pieceMissing }`
unfoldable pub release_if_unassigned : ℕ → Coordinator → Coordinator
release_if_unassigned index c =
    if length (c.assignments index) == 0 then set_piece_state c index missing else c

abbrev pub same_flag : Bool → Bool → Bool
same_flag true b = b
same_flag false b = not b

abbrev clear_optimistic : ℕ → Option ℕ → Option ℕ
clear_optimistic addr none = none
clear_optimistic addr (some a) = if a == addr then none else some a

abbrev pub release_piece : ℕ → Option ℕ → Coordinator → Coordinator
release_piece addr none c = c
release_piece addr (some index) c = release_if_unassigned index (remove_assignee index addr c)

unfoldable pub handle_peer_left : ℕ → Coordinator → Coordinator
handle_peer_left addr c = with_peer addr c λ p.
    let c' = release_piece addr p.assigned (remove_availability c p.have) in
    record c' {
      rates = Rates.remove c'.rates addr;
      optimistic = clear_optimistic addr c'.optimistic;
      peers = Dict.remove addr c'.peers;
    }

abbrev pub joined_peer : ℕ → Channel → PeerInfo
joined_peer piece_count commands = record {
  commands = commands;
  have = empty_for piece_count;
  assigned = none;
  interested = false;
  choked = true;
  peer_choking = true;
  got_bitfield = false;
}

unfoldable pub handle_peer_joined : ℕ → Channel → Coordinator → Coordinator
handle_peer_joined addr commands c =
    put_peer (handle_peer_left addr c) addr (joined_peer c.piece_count commands)

unfoldable pub handle_bitfield_received : Env → ℕ → Bytes → Coordinator → Coordinator
handle_bitfield_received env addr bitfield c = with_peer addr c λ p.
    if p.got_bitfield
    then c
    else try_assign env addr (
        add_availability (put_peer c addr (record p { got_bitfield = true; have = bitfield }))
          bitfield)

unfoldable pub handle_have_received : Env → ℕ → ℕ → Coordinator → Outcome
handle_have_received env addr index c = elim (Dict.lookup addr c.peers) [
  | none ↦ ok c
  | some p ↦
      let c' = put_peer c addr (record p { have = set_piece p.have (pos index) }) in
      if has_piece p.have (pos index)
      then ok c
      else if ltb index (length c.availability)
      then ok
          (try_assign env addr (record c' { availability = inc_availability c.availability index }))
      else panic
]

unfoldable pub handle_choke_received : ℕ → Coordinator → Coordinator
handle_choke_received addr c =
    with_peer addr c λ p. put_peer c addr (record p { peer_choking = true })

unfoldable pub handle_unchoke_received : Env → ℕ → Coordinator → Coordinator
handle_unchoke_received env addr c =
    with_peer addr c λ p. try_assign env addr (put_peer c addr (record p { peer_choking = false }))

-- The peer that reports on a piece is idle.
unfoldable pub set_idle : ℕ → Coordinator → Coordinator
set_idle addr c = with_peer addr c λ p. put_peer c addr (record p { assigned = none })

unfoldable pub finish_piece : Env → ℕ → ℕ → Bytes → Coordinator → Coordinator
finish_piece env addr index content c =
    let c' = set_idle addr (
      set_assignees (cancel_other_assignees index addr (set_piece_state c index complete)) index
        []) in
    if env.delivered
    then record c' { results = c'.results ++ record { index = index; content = content } ∷ [] }
    else c'

unfoldable pub handle_piece_downloaded : Env → ℕ → ℕ → Bytes → Coordinator → Outcome
handle_piece_downloaded env addr index content c =
    if not (ltb index (length c.pieces))
    then panic
    else if is_open c index
    then ok (finish_piece env addr index content c)
    else ok c

unfoldable pub fail_piece : ℕ → ℕ → Coordinator → Coordinator
fail_piece addr index c = set_idle addr (release_if_unassigned index (remove_assignee index addr c))

unfoldable pub handle_piece_failed : ℕ → ℕ → Coordinator → Outcome
handle_piece_failed addr index c =
    if length (drop_assignee addr (c.assignments index)) == 0 && not (ltb index (length c.pieces))
    then panic
    else ok (fail_piece addr index c)

unfoldable pub handle_interested_received : ℕ → Coordinator → Coordinator
handle_interested_received addr c =
    with_peer addr c λ p. put_peer c addr (record p { interested = true })

-- setChoked: nothing happens when the state is right already or the channel is full.
unfoldable pub set_choked : ℕ → Bool → Coordinator → Coordinator
set_choked addr choked c = with_peer addr c λ p.
    if same_flag p.choked choked || not (has_room p.commands)
    then c
    else put_peer c addr (record p {
      choked = choked;
      commands = send p.commands (if choked then choke_peer else unchoke_peer);
    })

unfoldable pub handle_not_interested_received : ℕ → Coordinator → Coordinator
handle_not_interested_received addr c = with_peer addr c λ p.
    let c' = set_choked addr true (put_peer c addr (record p { interested = false })) in
    record c' { optimistic = clear_optimistic addr c'.optimistic }

unfoldable pub mark_complete : ℕ → Coordinator → Outcome
mark_complete index c =
    if ltb index (length c.pieces) then ok (set_piece_state c index complete) else panic

unfoldable pub assign_idle_peers : Env → List ℕ → Coordinator → Coordinator
assign_idle_peers env [] c = c
assign_idle_peers env (addr ∷ order) c = assign_idle_peers env order (try_assign env addr c)

unfoldable pub tick : Env → Coordinator → Coordinator
tick env c =
    assign_idle_peers env env.peer_order
      (maybe_enter_endgame env (free_stale env.now env.piece_order c))

unfoldable pub handle : Env → Event → Coordinator → Outcome
handle env (peer_joined addr commands) c = ok (handle_peer_joined addr commands c)
handle env (bitfield_received addr bitfield) c = ok (handle_bitfield_received env addr bitfield c)
handle env (have_received addr index) c = handle_have_received env addr index c
handle env (piece_downloaded addr index content) c =
    handle_piece_downloaded env addr index content c
handle env (piece_failed addr index) c = handle_piece_failed addr index c
handle env (peer_ready addr) c = ok (try_assign env addr c)
handle env (peer_left addr) c = ok (handle_peer_left addr c)
handle env (interested_received addr) c = ok (handle_interested_received addr c)
handle env (not_interested_received addr) c = ok (handle_not_interested_received addr c)
handle env (choke_received addr) c = ok (handle_choke_received addr c)
handle env (unchoke_received addr) c = ok (handle_unchoke_received env addr c)
