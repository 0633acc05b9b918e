-- ===== src/Download/Coordinator/Tasks/Run.antt =====
-- The loop of the coordinator: whatever happens, its bookkeeping stays consistent.
use p2p_file_distribution.Base.{
  ℕ, ◌<◌, ltb, ◌==◌, if_elim, Bool, true, false, not, ◌&&◌, ◌||◌, List, [], ◌∷◌, Option, none, some,
  length, ◌≡◌, refl, arith, Option-cases, inl, inr, ok, err, panic,
}
use mathlib.Core.Path.{subst}
use p2p_file_distribution.Base.Int.{ℤ, pos}
use p2p_file_distribution.Base.Bytes.{Bytes}
use p2p_file_distribution.Base.Dict
use p2p_file_distribution.Peer.Bitfield.{has_piece, set_piece}
use p2p_file_distribution.Download.Command.{
  Event, peer_joined, bitfield_received, have_received, piece_downloaded, piece_failed, peer_ready,
  peer_left, interested_received, not_interested_received, choke_received, unchoke_received,
  has_room,
}
use p2p_file_distribution.Download.Coordinator.State.{PeerInfo, Coordinator, Env, is_open, put_peer}
use p2p_file_distribution.Download.Coordinator.Availability.{add_availability}
use p2p_file_distribution.Download.Coordinator.Handlers.{
  Outcome, handle, tick, set_choked, same_flag, drop_assignee, handle_have_received,
  handle_bitfield_received, handle_piece_downloaded, handle_piece_failed,
  handle_interested_received, handle_not_interested_received, handle_choke_received,
  handle_unchoke_received,
}
use p2p_file_distribution.Download.Coordinator.Choke.{
  ChokeEnv, recalc_choke, rotate_optimistic, choke_uninterested, apply_choke, release_previous,
  grant_slot, is_interested,
}
use p2p_file_distribution.Download.Coordinator.Tasks.{
  IsConsistent, has_assignee, task_ok, put_peer-IsConsistent, is_open-lt,
}
use p2p_file_distribution.Download.Coordinator.Tasks.Assign.{
  with_peer-IsConsistent, try_assign-IsConsistent, enter_endgame-IsConsistent,
  assign_idle-IsConsistent,
}
use p2p_file_distribution.Download.Coordinator.Tasks.Release.{free_stale-IsConsistent}
use p2p_file_distribution.Download.Coordinator.Tasks.Events.{
  fail_piece-IsConsistent, finish_piece-IsConsistent, handle_peer_left-IsConsistent,
  handle_peer_joined-IsConsistent,
}

-- A peer's record whose assignment is the one that it had.
pub same_task-IsConsistent :
    (c : Coordinator) (addr : ℕ) (p q : PeerInfo)
    → IsConsistent c
    → Dict.lookup addr c.peers ≡ some p
    → p.assigned ≡ q.assigned
    → IsConsistent (put_peer c addr q)
same_task-IsConsistent c addr p q v e same = put_peer-IsConsistent c addr q v (
    subst (λ (o : Option ℕ). task_of c addr o ≡ true) same
      (subst (λ (o : Option PeerInfo). task_ok addr c o ≡ true) e (v.tasks addr)))
  where
    task_of : Coordinator → ℕ → Option ℕ → Bool
    task_of d a none = true
    task_of d a (some i) = ltb i (length d.pieces) && has_assignee a (d.assignments i)

set_choked-IsConsistent :
    (addr : ℕ) (choked : Bool) (c : Coordinator)
    → IsConsistent c
    → IsConsistent (set_choked addr choked c)
unfolding set_choked
set_choked-IsConsistent addr choked c v = with_peer-IsConsistent addr c _ v λ p e.
    if_elim IsConsistent (same_flag p.choked choked || not (has_room p.commands)) (λ _. v)
      (λ _. same_task-IsConsistent c addr p _ v e refl)

-- The handlers that cannot panic.
abbrev pub Ensured : Outcome → Type 0
Ensured (ok c) = IsConsistent c
Ensured (err e) = Unit
Ensured panic = Unit

same_but_availability :
    (c : Coordinator) (availability : List ℤ)
    → IsConsistent c
    → IsConsistent (record c { availability = availability })
same_but_availability c availability v = record { states = v.states; tasks = v.tasks }

bitfield-IsConsistent :
    (env : Env) (addr : ℕ) (bitfield : Bytes) (c : Coordinator)
    → IsConsistent c
    → IsConsistent (handle_bitfield_received env addr bitfield c)
unfolding handle_bitfield_received add_availability
bitfield-IsConsistent env addr bitfield c v = with_peer-IsConsistent addr c _ v λ p e.
    if_elim IsConsistent p.got_bitfield (λ _. v)
      (λ _. try_assign-IsConsistent env addr _ (
        same_but_availability _ _ (
          same_task-IsConsistent c addr p (record p { got_bitfield = true; have = bitfield }) v e
            refl)))

have-Ensured :
    (env : Env) (addr index : ℕ) (c : Coordinator)
    → IsConsistent c
    → Ensured (handle_have_received env addr index c)
unfolding handle_have_received
have-Ensured env addr index c v = elim (Option-cases (Dict.lookup addr c.peers)) [
  | inl e ↦ rw (e, handle_have_received) v
  | inr (p, e) ↦
      rw (e, handle_have_received)
        (if_elim Ensured (has_piece p.have (pos index)) (λ _. v)
          (λ _.
            if_elim Ensured (ltb index (length c.availability))
              (λ _. try_assign-IsConsistent env addr _ (
                same_but_availability _ _ (
                  same_task-IsConsistent c addr p (record p { have = set_piece p.have (pos index) })
                    v e refl)))
              (λ _. tt)))
]

downloaded-Ensured :
    (env : Env) (addr index : ℕ) (content : Bytes) (c : Coordinator)
    → IsConsistent c
    → Ensured (handle_piece_downloaded env addr index content c)
unfolding handle_piece_downloaded
downloaded-Ensured env addr index content c v =
    if_elim Ensured (not (ltb index (length c.pieces))) (λ _. tt)
      (λ _.
        if_elim Ensured (is_open c index)
          (λ o. finish_piece-IsConsistent env addr index content c v (is_open-lt c index o))
          (λ _. v))

failed-Ensured :
    (addr index : ℕ) (c : Coordinator) → IsConsistent c → Ensured (handle_piece_failed addr index c)
unfolding handle_piece_failed
failed-Ensured addr index c v =
    if_elim Ensured
      (length (drop_assignee addr (c.assignments index)) == 0 && not (ltb index (length c.pieces)))
      (λ _. tt)
      (λ safe.
        fail_piece-IsConsistent addr index c v (λ e. in_bounds _ index (length c.pieces) e safe))
  where
    in_bounds : (b : Bool) (m n : ℕ) → b ≡ true → (b && not (ltb m n)) ≡ false → m < n
    in_bounds b m n e h = ground arith

not_interested-IsConsistent :
    (addr : ℕ) (c : Coordinator)
    → IsConsistent c
    → IsConsistent (handle_not_interested_received addr c)
unfolding handle_not_interested_received
not_interested-IsConsistent addr c v = with_peer-IsConsistent addr c _ v λ p e.
    let w =
      set_choked-IsConsistent addr true _
        (same_task-IsConsistent c addr p (record p { interested = false }) v e refl) in
    record { states = w.states; tasks = w.tasks }

pub handle-Ensured :
    (env : Env) (e : Event) (c : Coordinator) → IsConsistent c → Ensured (handle env e c)
unfolding handle handle_interested_received handle_choke_received handle_unchoke_received
handle-Ensured env (peer_joined addr commands) c v =
    handle_peer_joined-IsConsistent addr commands c v
handle-Ensured env (bitfield_received addr bitfield) c v =
    bitfield-IsConsistent env addr bitfield c v
handle-Ensured env (have_received addr index) c v = have-Ensured env addr index c v
handle-Ensured env (piece_downloaded addr index content) c v =
    downloaded-Ensured env addr index content c v
handle-Ensured env (piece_failed addr index) c v = failed-Ensured addr index c v
handle-Ensured env (peer_ready addr) c v = try_assign-IsConsistent env addr c v
handle-Ensured env (peer_left addr) c v = handle_peer_left-IsConsistent addr c v
handle-Ensured env (interested_received addr) c v =
    with_peer-IsConsistent addr c _ v
      (λ p e. same_task-IsConsistent c addr p (record p { interested = true }) v e refl)
handle-Ensured env (not_interested_received addr) c v = not_interested-IsConsistent addr c v
handle-Ensured env (choke_received addr) c v =
    with_peer-IsConsistent addr c _ v
      (λ p e. same_task-IsConsistent c addr p (record p { peer_choking = true }) v e refl)
handle-Ensured env (unchoke_received addr) c v = with_peer-IsConsistent addr c _ v (λ p e.
    try_assign-IsConsistent env addr _
      (same_task-IsConsistent c addr p (record p { peer_choking = false }) v e refl))

pub tick-IsConsistent : (env : Env) (c : Coordinator) → IsConsistent c → IsConsistent (tick env c)
unfolding tick
tick-IsConsistent env c v =
    assign_idle-IsConsistent env env.peer_order _
      (enter_endgame-IsConsistent env _ (free_stale-IsConsistent env.now env.piece_order c v))

choke_uninterested-IsConsistent :
    (order : List ℕ) (c : Coordinator) → IsConsistent c → IsConsistent (choke_uninterested order c)
unfolding choke_uninterested
choke_uninterested-IsConsistent [] c v = v
choke_uninterested-IsConsistent (addr ∷ order) c v = choke_uninterested-IsConsistent order _ (
    if_elim IsConsistent (is_interested (Dict.lookup addr c.peers)) (λ _. v)
      (λ _. set_choked-IsConsistent addr true c v))

apply_choke-IsConsistent :
    (rest top : List ℕ) (slot : Option ℕ) (c : Coordinator)
    → IsConsistent c
    → IsConsistent (apply_choke rest top slot c)
unfolding apply_choke
apply_choke-IsConsistent [] top slot c v = v
apply_choke-IsConsistent (addr ∷ rest) top slot c v =
    apply_choke-IsConsistent rest top slot _ (set_choked-IsConsistent addr _ c v)

set_optimistic-IsConsistent :
    (slot : Option ℕ) (c : Coordinator)
    → IsConsistent c
    → IsConsistent (record c { optimistic = slot })
set_optimistic-IsConsistent slot c v = record { states = v.states; tasks = v.tasks }

pub recalc_choke-IsConsistent :
    (env : ChokeEnv) (c : Coordinator) → IsConsistent c → IsConsistent (recalc_choke env c)
unfolding recalc_choke
recalc_choke-IsConsistent env c v =
    apply_choke-IsConsistent _ _ _ _
      (set_optimistic-IsConsistent _ _ (choke_uninterested-IsConsistent env.peer_order c v))

release_previous-IsConsistent :
    (o : Option ℕ) (c : Coordinator) → IsConsistent c → IsConsistent (release_previous o c)
unfolding release_previous
release_previous-IsConsistent none c v = v
release_previous-IsConsistent (some a) c v = set_choked-IsConsistent a true c v

grant_slot-IsConsistent :
    (o : Option ℕ) (c : Coordinator) → IsConsistent c → IsConsistent (grant_slot o c)
unfolding grant_slot
grant_slot-IsConsistent none c v = v
grant_slot-IsConsistent (some a) c v =
    set_choked-IsConsistent a false _ (set_optimistic-IsConsistent (some a) c v)

pub rotate-IsConsistent :
    (env : ChokeEnv) (c : Coordinator) → IsConsistent c → IsConsistent (rotate_optimistic env c)
unfolding rotate_optimistic
rotate-IsConsistent env c v =
    grant_slot-IsConsistent _ _
      (set_optimistic-IsConsistent none _ (release_previous-IsConsistent c.optimistic c v))
