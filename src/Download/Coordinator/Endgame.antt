-- ===== src/Download/Coordinator/Endgame.antt =====
-- internal/download/endgame.go: the last pieces are asked of every peer that has them.
use p2p_file_distribution.Base.{
  ℕ, zero, suc, ◌+◌, ltb, ◌==◌, if◌then◌else◌, true, not, ◌||◌, List, [], ◌∷◌, length, Option, none,
  some,
}
use p2p_file_distribution.Base.Int.{pos}
use p2p_file_distribution.Base.Bytes.{Bytes}
use p2p_file_distribution.Base.Dict
use p2p_file_distribution.Peer.Bitfield.{has_piece}
use p2p_file_distribution.Download.Command.{cancel_piece, has_room, send}
use p2p_file_distribution.Download.Coordinator.State.{
  PieceState, complete, PeerInfo, Assignment, Coordinator, Env, is_open, put_peer,
}
use p2p_file_distribution.Download.Coordinator.Selection.{is_some, is_assigned, assign_piece_to}

abbrev pub endgame_threshold : ℕ
endgame_threshold = 10

unfoldable pub remaining : List PieceState → ℕ
remaining [] = 0
remaining (complete ∷ pieces) = remaining pieces
remaining (s ∷ pieces) = suc (remaining pieces)

unfoldable pub remaining_piece_count : Coordinator → ℕ
unfolding remaining
remaining_piece_count c = remaining c.pieces

-- best and bestAssignees of the loop; `none` is the code's -1.
pub record Fewest : Type 0 where
  pub index : Option ℕ
  pub assignees : ℕ

unfoldable pub fewest_step : Coordinator → Bytes → ℕ → Fewest → Fewest
fewest_step c have i b =
    let n = length (c.assignments i) in
    if not (is_open c i) || not (has_piece have (pos i))
    then b
    else if not (is_some b.index) || ltb n b.assignees
    then record { index = some i; assignees = n }
    else b

-- The rounds for the pieces below `n`.
unfoldable pub fewest_loop : Coordinator → Bytes → ℕ → Fewest
unfolding fewest_step
fewest_loop c have zero = record { index = none; assignees = 0 }
fewest_loop c have (suc n) = fewest_step c have n (fewest_loop c have n)

abbrev pub assign_found : Env → ℕ → PeerInfo → Coordinator → Option ℕ → Coordinator
assign_found env addr p c none = c
assign_found env addr p c (some index) = assign_piece_to env addr p index c

unfoldable pub assign_any_missing_to : Env → ℕ → PeerInfo → Coordinator → Coordinator
unfolding fewest_loop
assign_any_missing_to env addr p c =
    if is_some p.assigned
    then c
    else assign_found env addr p c (fewest_loop c p.have (length c.pieces)).index

-- `if p, ok := c.peers[addr]; ok { f(p) }`
abbrev pub with_peer : ℕ → Coordinator → (PeerInfo → Coordinator) → Coordinator
with_peer addr c f = elim (Dict.lookup addr c.peers) [ none ↦ c | some p ↦ f p ]

-- The loop over the peers when endgame begins.
unfoldable pub assign_to_all : Env → List ℕ → Coordinator → Coordinator
unfolding assign_any_missing_to
assign_to_all env [] c = c
assign_to_all env (addr ∷ order) c =
    assign_to_all env order (with_peer addr c (λ p. assign_any_missing_to env addr p c))

unfoldable pub maybe_enter_endgame : Env → Coordinator → Coordinator
unfolding remaining_piece_count
maybe_enter_endgame env c =
    if c.endgame
    then c
    else if remaining_piece_count c == 0 || ltb endgame_threshold (remaining_piece_count c)
    then c
    else assign_to_all env env.peer_order (record c { endgame = true })

-- The round of cancelOtherAssignees for one assignee.
unfoldable pub cancel_one : ℕ → ℕ → ℕ → Coordinator → Coordinator
cancel_one index winner addr c =
    if addr == winner
    then c
    else with_peer addr c λ p.
      let rest : Option ℕ = if is_assigned p index then none else p.assigned in
      if has_room p.commands
      then record c {
        peers =
            Dict.put addr
              (record p { commands = send p.commands (cancel_piece index); assigned = rest })
              c.peers;
        duplicates = c.duplicates + 1;
      }
      else put_peer c addr (record p { assigned = rest })

unfoldable pub cancel_all : ℕ → ℕ → List Assignment → Coordinator → Coordinator
cancel_all index winner [] c = c
cancel_all index winner (a ∷ assignees) c =
    cancel_all index winner assignees (cancel_one index winner a.addr c)

unfoldable pub cancel_other_assignees : ℕ → ℕ → Coordinator → Coordinator
cancel_other_assignees index winner c = cancel_all index winner (c.assignments index) c
