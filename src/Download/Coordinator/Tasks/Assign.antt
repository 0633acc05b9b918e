-- ===== src/Download/Coordinator/Tasks/Assign.antt =====
-- Handing out pieces keeps the bookkeeping consistent.
use p2p_file_distribution.Base.{
  ℕ, zero, suc, ltb, ◌==◌, Bool, true, false, not, ◌&&◌, ◌||◌, List, [], ◌∷◌, ◌++◌, Option, none,
  some, length, get_elem?, set, get_or, length-set, ◌≡◌, refl, arith, Bool-cases, if_elim,
  Option-cases, inl, inr, Result, ok, err, panic,
}
use mathlib.Core.Path.{subst}
use p2p_file_distribution.Base.Int.{pos}
use p2p_file_distribution.Base.Bytes.{Bytes}
use p2p_file_distribution.Base.Dict
use p2p_file_distribution.Piece.Geometry
use p2p_file_distribution.Piece.Geometry.{Error}
use p2p_file_distribution.Peer.Bitfield.{has_piece}
use p2p_file_distribution.Download.Command.{Command, assign_piece, has_room, send}
use p2p_file_distribution.Download.Coordinator.State.{
  PieceState, missing, in_flight, complete, PeerInfo, Assignment, Coordinator, Env, is_open,
  missing_state, open_state, put_peer,
}
use p2p_file_distribution.Download.Coordinator.Selection.{
  is_some, is_candidate, send_assign_command, assign_piece_to, select_piece_for,
}
use p2p_file_distribution.Download.Coordinator.Selection.Rarest.{select_piece_for-IsRarest}
use p2p_file_distribution.Download.Coordinator.Endgame.{
  Fewest, fewest_step, fewest_loop, assign_found, assign_any_missing_to, with_peer, assign_to_all,
  maybe_enter_endgame, remaining_piece_count, endgame_threshold,
}
use p2p_file_distribution.Download.Coordinator.Handlers.{
  try_assign_peer, try_assign, assign_idle_peers,
}
use p2p_file_distribution.Download.Coordinator.Tasks.{
  IsConsistent, state_ok, has_assignee-append, works_on-has_assignee, put_peer-IsConsistent,
  assign_state-IsConsistent, is_open-lt, retask,
}

state_ok-append :
    (xs : List Assignment) (a : Assignment) → state_ok (some in_flight) (xs ++ a ∷ []) ≡ true
state_ok-append [] a = refl
state_ok-append (x ∷ xs) a = refl

module _ (env : Env) (addr : ℕ) (p : PeerInfo) (index : ℕ) (c : Coordinator) (v : IsConsistent c)
    (idle : p.assigned ≡ none) (open_piece : is_open c index ≡ true) where
  assigned-IsConsistent :
      (cmd : Command)
      → let p' : PeerInfo = record p { commands = send p.commands cmd } in
        let assignee : Assignment = record { addr = addr; at = env.now } in
        IsConsistent (
          put_peer
            (retask
              (put_peer c addr p')
              index
              (set c.pieces index in_flight)
              (c.assignments index ++ assignee ∷ []))
            addr
            (record p' { assigned = some index }))
  assigned-IsConsistent cmd =
      let p' : PeerInfo = record p { commands = send p.commands cmd } in
      let assignee : Assignment = record { addr = addr; at = env.now } in
      let inside = is_open-lt c index open_piece in
      let v' = put_peer-IsConsistent c addr p' v (rw idle) in
      put_peer-IsConsistent _ addr (record p' { assigned = some index })
        (assign_state-IsConsistent (put_peer c addr p') index in_flight
          (c.assignments index ++ assignee ∷ []) v' inside
          (state_ok-append (c.assignments index) assignee)
          (λ a w. rw (
            has_assignee-append a (c.assignments index) (assignee ∷ []),
            works_on-has_assignee (put_peer c addr p') index a v' w,
          )))
        (ground (
          arith,
          inside,
          length-set c.pieces index in_flight,
          has_assignee-append addr (c.assignments index) (assignee ∷ []),
        ))

  pub assign_piece_to-IsConsistent : IsConsistent (assign_piece_to env addr p index c)
  unfolding assign_piece_to
  assign_piece_to-IsConsistent =
      sent (Geometry.length (pos index) c.piece_count c.piece_length c.total_length) refl
    where
      sent :
          (r : Result Error ℕ)
          → Geometry.length (pos index) c.piece_count c.piece_length c.total_length ≡ r
          → IsConsistent (assign_piece_to env addr p index c)
      sent (ok len) e = elim (Bool-cases (has_room p.commands)) [
        | inl room ↦
            rw (e, send_assign_command, room)
              (assigned-IsConsistent (assign_piece index len (get_or c.piece_hashes index [])))
        | inr full ↦ rw (e, send_assign_command, full) v
      ]
      sent (err x) e = rw (e, send_assign_command) v
      sent panic e = rw (e, send_assign_command) v

fewest_step-is_open :
    (c : Coordinator) (have : Bytes) (n i : ℕ) (b : Fewest)
    → (fewest_step c have n b).index ≡ some i
    → (b.index ≡ some i → is_open c i ≡ true)
    → is_open c i ≡ true
unfolding fewest_step
fewest_step-is_open c have n i b e before =
    elim (Bool-cases (not (is_open c n) || not (has_piece have (pos n)))) [
      | inl skip ↦ before (rw skip at e)
      | inr offered ↦
          elim (Bool-cases (not (is_some b.index) || ltb (length (c.assignments n)) b.assignees)) [
            | inl better ↦
                let found : some n ≡ some i = rw (offered, better) at e in
                let same : n ≡ i = cc in
                subst (λ k. is_open c k ≡ true) same (opened (is_open c n) _ offered)
            | inr worse ↦ before (rw (offered, worse) at e)
          ]
    ]
  where
    opened : (x y : Bool) → (not x || not y) ≡ false → x ≡ true
    opened x y h = ground arith

fewest-is_open :
    (c : Coordinator) (have : Bytes) (n i : ℕ)
    → (fewest_loop c have n).index ≡ some i
    → is_open c i ≡ true
unfolding fewest_loop
fewest-is_open c have zero i e = cc
fewest-is_open c have (suc n) i e =
    fewest_step-is_open c have n i (fewest_loop c have n) e (fewest-is_open c have n i)

candidate-is_open :
    (c : Coordinator) (have : Bytes) (i : ℕ) → is_candidate c have i ≡ true → is_open c i ≡ true
candidate-is_open c have i h = opens (get_elem? c.pieces i) h
  where
    opens :
        (o : Option PieceState)
        → (missing_state o && has_piece have (pos i)) ≡ true
        → open_state o ≡ true
    opens none e = cc
    opens (some missing) e = refl
    opens (some in_flight) e = cc
    opens (some complete) e = cc

is_some-false {ℓ} : {A : Type ℓ} (o : Option A) → is_some o ≡ false → o ≡ none
is_some-false none h = refl
is_some-false (some a) h = cc

module _ (env : Env) (addr : ℕ) (p : PeerInfo) (c : Coordinator) (v : IsConsistent c) where
  found-IsConsistent :
      (o : Option ℕ)
      → p.assigned ≡ none
      → ((i : ℕ) → o ≡ some i → is_open c i ≡ true)
      → IsConsistent (assign_found env addr p c o)
  found-IsConsistent none idle h = v
  found-IsConsistent (some i) idle h = assign_piece_to-IsConsistent env addr p i c v idle (h i refl)

  -- An endgame assignment goes to a piece that is not complete.
  assign_any-IsConsistent : IsConsistent (assign_any_missing_to env addr p c)
  unfolding assign_any_missing_to
  assign_any-IsConsistent =
      if_elim IsConsistent (is_some p.assigned) (λ _. v)
        (λ idle.
          found-IsConsistent (fewest_loop c p.have (length c.pieces)).index
            (is_some-false p.assigned idle) (fewest-is_open c p.have (length c.pieces)))

  selected-is_open : (i : ℕ) → select_piece_for env.coin c p.have ≡ some i → is_open c i ≡ true
  selected-is_open i e = elim (select_piece_for-IsRarest env.coin c p.have) [
    | inl (j, e', r) ↦
        let same : j ≡ i = cc in
        subst (λ k. is_open c k ≡ true) same (candidate-is_open c p.have j r.candidate)
    | inr (e', _) ↦ cc
  ]

  try_assign_peer-IsConsistent : IsConsistent (try_assign_peer env addr p c)
  unfolding try_assign_peer
  try_assign_peer-IsConsistent =
      if_elim IsConsistent (is_some p.assigned) (λ _. v)
        (λ idle.
          if_elim IsConsistent p.peer_choking (λ _. v)
            (λ _.
              if_elim IsConsistent c.endgame (λ _. assign_any-IsConsistent)
                (λ _.
                  found-IsConsistent (select_piece_for env.coin c p.have)
                    (is_some-false p.assigned idle) selected-is_open)))

pub with_peer-IsConsistent :
    (addr : ℕ) (c : Coordinator) (f : PeerInfo → Coordinator)
    → IsConsistent c
    → ((p : PeerInfo) → Dict.lookup addr c.peers ≡ some p → IsConsistent (f p))
    → IsConsistent (with_peer addr c f)
with_peer-IsConsistent addr c f v h = elim (Option-cases (Dict.lookup addr c.peers)) [
  | inl e ↦ rw (e, with_peer) v
  | inr (p, e) ↦ rw (e, with_peer) (h p e)
]

pub try_assign-IsConsistent :
    (env : Env) (addr : ℕ) (c : Coordinator) → IsConsistent c → IsConsistent (try_assign env addr c)
unfolding try_assign
try_assign-IsConsistent env addr c v =
    with_peer-IsConsistent addr c _ v (λ p _. try_assign_peer-IsConsistent env addr p c v)

assign_to_all-IsConsistent :
    (env : Env) (order : List ℕ) (c : Coordinator)
    → IsConsistent c
    → IsConsistent (assign_to_all env order c)
unfolding assign_to_all
assign_to_all-IsConsistent env [] c v = v
assign_to_all-IsConsistent env (addr ∷ order) c v =
    assign_to_all-IsConsistent env order _
      (with_peer-IsConsistent addr c _ v (λ p _. assign_any-IsConsistent env addr p c v))

pub enter_endgame-IsConsistent :
    (env : Env) (c : Coordinator) → IsConsistent c → IsConsistent (maybe_enter_endgame env c)
unfolding maybe_enter_endgame
enter_endgame-IsConsistent env c v =
    if_elim IsConsistent c.endgame (λ _. v)
      (λ _.
        if_elim IsConsistent
          (remaining_piece_count c == 0 || ltb endgame_threshold (remaining_piece_count c)) (λ _. v)
          (λ _.
            assign_to_all-IsConsistent env env.peer_order (record c { endgame = true })
              (record { states = v.states; tasks = v.tasks })))

pub assign_idle-IsConsistent :
    (env : Env) (order : List ℕ) (c : Coordinator)
    → IsConsistent c
    → IsConsistent (assign_idle_peers env order c)
unfolding assign_idle_peers
assign_idle-IsConsistent env [] c v = v
assign_idle-IsConsistent env (addr ∷ order) c v =
    assign_idle-IsConsistent env order _ (try_assign-IsConsistent env addr c v)
