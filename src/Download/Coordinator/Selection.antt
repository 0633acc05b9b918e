-- ===== src/Download/Coordinator/Selection.antt =====
-- internal/download/selection.go: which piece a peer is given, and when it is taken back.
pub mod Rarest
use p2p_file_distribution.Base.{
  ℕ, zero, suc, ◌+◌, ◌-◌, ltb, ◌==◌, if◌then◌else◌, Bool, true, false, not, ◌&&◌, ◌||◌, List, [],
  ◌∷◌, ◌++◌, length, Option, none, some, get_or, Result, ok, err, panic,
}
use p2p_file_distribution.Base.Int.{ℤ, pos, ltb_ℤ, eq_ℤ}
use p2p_file_distribution.Base.Bytes.{Bytes}
use p2p_file_distribution.Base.Dict
use p2p_file_distribution.Peer.Bitfield.{has_piece}
use p2p_file_distribution.Piece.Geometry
use p2p_file_distribution.Download.Command.{assign_piece, has_room, send}
use p2p_file_distribution.Download.Coordinator.State.{
  PieceState, missing, in_flight, PeerInfo, Assignment, Coordinator, Env, is_missing,
  availability_of, put_peer, set_piece_state, set_assignees,
}

abbrev pub is_some {ℓ} : {A : Type ℓ} → Option A → Bool
is_some none = false
is_some (some a) = true

-- best, bestAvailability and ties of the loop; `none` is the code's -1.
pub record Best : Type 0 where
  pub index : Option ℕ
  pub availability : ℤ
  pub ties : ℕ

abbrev pub is_candidate : Coordinator → Bytes → ℕ → Bool
is_candidate c have i = is_missing c i && has_piece have (pos i)

-- One round, for piece `i`.
unfoldable pub select_step : (ℕ → ℕ → Bool) → Coordinator → Bytes → ℕ → Best → Best
select_step coin c have i b =
    let a = availability_of c i in
    if not (is_candidate c have i)
    then b
    else if not (is_some b.index) || ltb_ℤ a b.availability
    then record { index = some i; availability = a; ties = 1 }
    else if eq_ℤ a b.availability
    then record b { ties = b.ties + 1; index = if coin i (b.ties + 1) then some i else b.index }
    else b

-- The rounds for the pieces below `n`.
unfoldable pub select_loop : (ℕ → ℕ → Bool) → Coordinator → Bytes → ℕ → Best
select_loop coin c have zero = record { index = none; availability = pos 0; ties = 0 }
select_loop coin c have (suc n) = select_step coin c have n (select_loop coin c have n)

unfoldable pub select_piece_for : (ℕ → ℕ → Bool) → Coordinator → Bytes → Option ℕ
select_piece_for coin c have = (select_loop coin c have c.piece_count).index

-- The peer and the coordinator after a command that was sent; `none` when nothing happened. The
-- lengths are those of a valid torrent, so piece.Length does not panic.
unfoldable pub send_assign_command :
    Env → ℕ → PeerInfo → ℕ → Coordinator → Option (PeerInfo × Coordinator)
send_assign_command env addr p index c =
    elim (Geometry.length (pos index) c.piece_count c.piece_length c.total_length) [
      | ok len ↦
          let cmd = assign_piece index len (get_or c.piece_hashes index []) in
          let p' = record p { commands = send p.commands cmd } in
          let assignee : Assignment = record { addr = addr; at = env.now } in
          if has_room p.commands
          then some (
            p',
            record c {
              peers = Dict.put addr p' c.peers;
              pieces = (set_piece_state c index in_flight).pieces;
              assignments =
                  (set_assignees c index (c.assignments index ++ assignee ∷ [])).assignments;
            },
          )
          else none
      | _ ↦ none
    ]

-- The assignment of a peer whose command was sent.
abbrev pub record_assigned : ℕ → ℕ → Coordinator → Option (PeerInfo × Coordinator) → Coordinator
record_assigned addr index c none = c
record_assigned addr index c (some (p, c')) = put_peer c' addr (record p { assigned = some index })

unfoldable pub assign_piece_to : Env → ℕ → PeerInfo → ℕ → Coordinator → Coordinator
unfolding send_assign_command
assign_piece_to env addr p index c =
    record_assigned addr index c (send_assign_command env addr p index c)

-- 30 seconds
abbrev pub assignment_timeout : ℕ
assignment_timeout = 30000000000

abbrev pub is_assigned : PeerInfo → ℕ → Bool
is_assigned p index = elim p.assigned [ none ↦ false | some i ↦ i == index ]

-- `if p, ok := c.peers[addr]; ok && p.assigned == index { p.assigned = -1 }`
unfoldable pub unassign : ℕ → ℕ → Coordinator → Coordinator
unassign addr index c = elim (Dict.lookup addr c.peers) [
  | none ↦ c
  | some p ↦ if is_assigned p index then put_peer c addr (record p { assigned = none }) else c
]

abbrev pub is_fresh : ℕ → Assignment → Bool
is_fresh now a = ltb (now - a.at) assignment_timeout

unfoldable pub kept : ℕ → List Assignment → List Assignment
kept now [] = []
kept now (a ∷ assignees) = if is_fresh now a then a ∷ kept now assignees else kept now assignees

-- The round of its inner loop for one assignee: a fresh one stays.
unfoldable pub release_one : ℕ → ℕ → Assignment → Coordinator → Coordinator
release_one now index a c = if is_fresh now a then c else unassign a.addr index c

unfoldable pub unassign_stale : ℕ → ℕ → List Assignment → Coordinator → Coordinator
unassign_stale now index [] c = c
unassign_stale now index (a ∷ assignees) c =
    unassign_stale now index assignees (release_one now index a c)

-- The round of freeStaleAssignments for one piece.
unfoldable pub free_stale_at : ℕ → ℕ → Coordinator → Coordinator
free_stale_at now index c =
    let assignees = c.assignments index in
    let rest = kept now assignees in
    let c' = unassign_stale now index assignees c in
    if length rest == length assignees
    then c'
    else if length rest == 0
    then set_piece_state (set_assignees c' index []) index missing
    else set_assignees c' index rest

unfoldable pub free_stale : ℕ → List ℕ → Coordinator → Coordinator
free_stale now [] c = c
free_stale now (index ∷ order) c = free_stale now order (free_stale_at now index c)
