-- ===== src/Download/Coordinator/Tasks/Events.antt =====
-- Every event and every tick keeps the bookkeeping consistent.
use p2p_file_distribution.Base.{
  ℕ, ◌<◌, ltb, ◌==◌, if_elim, true, false, ◌&&◌, List, [], Option, none, some, length, get_elem?,
  set, get_elem?-set, length-set, ◌≡◌, refl, arith, sym, ap, ◌∙◌, Bool-cases, Option-cases, inl,
  inr,
}
use mathlib.Core.Path.{subst, subst₂, subst₃}
use p2p_file_distribution.Base.Bytes.{Bytes}
use p2p_file_distribution.Base.Dict
use p2p_file_distribution.Base.Dict.{Dict}
use p2p_file_distribution.Download.Command.{Channel}
use p2p_file_distribution.Download.Coordinator.State.{
  complete, PeerInfo, Assignment, Coordinator, Env, put_peer, set_piece_state, set_assignees,
  update,
}
use p2p_file_distribution.Download.Coordinator.Availability.{remove_availability}
use p2p_file_distribution.Download.Coordinator.Endgame.{with_peer, cancel_other_assignees}
use p2p_file_distribution.Download.Coordinator.Handlers.{
  drop_assignee, remove_assignee, release_if_unassigned, release_piece, set_idle, fail_piece,
  finish_piece, handle_peer_left, handle_peer_joined, joined_peer,
}
use p2p_file_distribution.Download.Coordinator.Tasks.{
  IsConsistent, state_ok, task_ok, has_assignee, works_on, works_on-has_assignee, works_on-lt,
  task_ok-of, put_peer-IsConsistent, remove_peer-IsConsistent,
}
use p2p_file_distribution.Download.Coordinator.Tasks.Assign.{with_peer-IsConsistent}
use p2p_file_distribution.Download.Coordinator.Tasks.Finish.{
  cancel_all-works_on, cancel_all-same, release-peers, release-put, struck-IsConsistent,
}

-- Only the pieces, the peers and the assignees matter.
same_tasks :
    (c d : Coordinator)
    → c.pieces ≡ d.pieces
    → c.peers ≡ d.peers
    → c.assignments ≡ d.assignments
    → IsConsistent c
    → IsConsistent d
same_tasks c d p q r v = record {
  states = λ i. subst₂ (λ ps xs. state_ok (get_elem? ps i) (xs i) ≡ true) p r (v.states i);
  tasks = λ a.
      subst₃
        (λ ps peers xs.
          task_ok a (record c { pieces = ps; peers = peers; assignments = xs })
            (Dict.lookup a peers)
          ≡ true)
        p q r (v.tasks a);
}

eq_self : (k : ℕ) → (k == k) ≡ true
eq_self k = ground arith

-- A peer that reports a failure is struck off and idle.
pub fail_piece-IsConsistent :
    (addr index : ℕ) (c : Coordinator)
    → IsConsistent c
    → ((length (drop_assignee addr (c.assignments index)) == 0) ≡ true → index < length c.pieces)
    → IsConsistent (fail_piece addr index c)
unfolding fail_piece set_idle
fail_piece-IsConsistent addr index c v inside = elim (Option-cases (Dict.lookup addr c.peers)) [
  | inl e ↦
      let e' : Dict.lookup addr (release_if_unassigned index (remove_assignee index addr c)).peers
          ≡ none =
        rw (release-peers index addr c) e in
      rw (e', with_peer) (struck-IsConsistent c index addr v (rw e) inside)
  | inr (p, e) ↦
      let e' : Dict.lookup addr (release_if_unassigned index (remove_assignee index addr c)).peers
          ≡ some p =
        rw (release-peers index addr c) e in
      let idle : PeerInfo = record p { assigned = none } in
      let peers = Dict.put addr idle c.peers in
      let quiet : works_on index (Dict.lookup addr peers) ≡ false =
        rw (Dict.lookup-put addr addr idle c.peers, eq_self addr) in
      rw (e', with_peer, release-peers index addr c)
        (rw (← release-put index addr c peers) (
          struck-IsConsistent (put_peer c addr idle) index addr
            (put_peer-IsConsistent c addr idle v refl) quiet inside))
]

released-IsConsistent :
    (addr : ℕ) (p : PeerInfo) (c : Coordinator) (o : Option ℕ)
    → IsConsistent c
    → Dict.lookup addr c.peers ≡ some p
    → p.assigned ≡ o
    → IsConsistent (record (release_piece addr o c) {
      peers = Dict.remove addr (release_piece addr o c).peers;
    })
released-IsConsistent addr p c none v e has = remove_peer-IsConsistent c addr v
released-IsConsistent addr p c (some index) v e has =
    let peers = Dict.remove addr c.peers in
    let c0 : Coordinator = record c { peers = peers } in
    let quiet : works_on index (Dict.lookup addr peers) ≡ false =
      rw (Dict.lookup-remove addr addr c.peers, eq_self addr) in
    let inside = works_on-lt c index addr v (rw (e, has) (eq_self index)) in
    rw (release-peers index addr c) (
      rw (← release-put index addr c peers)
        (struck-IsConsistent c0 index addr (remove_peer-IsConsistent c addr v) quiet (λ _. inside)))

pub handle_peer_left-IsConsistent :
    (addr : ℕ) (c : Coordinator) → IsConsistent c → IsConsistent (handle_peer_left addr c)
unfolding handle_peer_left remove_availability
handle_peer_left-IsConsistent addr c v = with_peer-IsConsistent addr c _ v λ p e.
    same_tasks
      (record (release_piece addr p.assigned (remove_availability c p.have)) {
        peers =
            Dict.remove addr (release_piece addr p.assigned (remove_availability c p.have)).peers;
      })
      _ refl refl refl
      (released-IsConsistent addr p (remove_availability c p.have) p.assigned
        (record { states = v.states; tasks = v.tasks }) e refl)

pub handle_peer_joined-IsConsistent :
    (addr : ℕ) (commands : Channel) (c : Coordinator)
    → IsConsistent c
    → IsConsistent (handle_peer_joined addr commands c)
unfolding handle_peer_joined
handle_peer_joined-IsConsistent addr commands c v =
    put_peer-IsConsistent _ addr (joined_peer c.piece_count commands)
      (handle_peer_left-IsConsistent addr c v) refl

set_idle-same :
    (addr : ℕ) (c : Coordinator)
    → ((set_idle addr c).pieces ≡ c.pieces) × ((set_idle addr c).assignments ≡ c.assignments)
unfolding set_idle
set_idle-same addr c = ground arith

set_idle-works_on :
    (addr a i : ℕ) (c : Coordinator)
    → works_on i (Dict.lookup a (set_idle addr c).peers) ≡ true
    → (works_on i (Dict.lookup a c.peers) ≡ true) × ((addr == a) ≡ false)
unfolding set_idle
set_idle-works_on addr a i c h = elim (Option-cases (Dict.lookup addr c.peers)) [
  | inl e ↦ ground (arith, e)
  | inr (p, e) ↦ ground (arith, e, Dict.lookup-put addr a (record p { assigned = none }) c.peers)
]

module _ (addr index : ℕ) (c : Coordinator) (v : IsConsistent c) (h : index < length c.pieces) where
  cancelled : Coordinator
  cancelled = cancel_other_assignees index addr (set_piece_state c index complete)

  finished : Coordinator
  unfolding cancelled
  finished = set_idle addr (set_assignees cancelled index [])

  cancelled-same :
      (cancelled.pieces ≡ set c.pieces index complete) × (cancelled.assignments ≡ c.assignments)
  unfolding cancelled cancel_other_assignees
  cancelled-same =
      cancel_all-same index addr (c.assignments index) (set_piece_state c index complete)

  finished-same :
      (finished.pieces ≡ set c.pieces index complete)
      × (finished.assignments ≡ update c.assignments index [])
  unfolding finished
  finished-same =
      let (p, q) = set_idle-same addr (set_assignees cancelled index []) in
      let (p', q') = cancelled-same in
      (p ∙ p', q ∙ ap (λ (f : ℕ → List Assignment). update f index []) q')

  finished-works_on :
      (a i : ℕ)
      → works_on i (Dict.lookup a finished.peers) ≡ true
      → (works_on i (Dict.lookup a c.peers) ≡ true) × ((index == i) ≡ false)
  unfolding finished cancel_other_assignees
  finished-works_on a i w =
      let (w', other) = set_idle-works_on addr a i (set_assignees cancelled index []) w in
      let (before, winner) =
        cancel_all-works_on index addr a i (c.assignments index) (set_piece_state c index complete)
          w' in
      (
        before,
        elim (Bool-cases (index == i)) [
          | inl e ↦
              let same : i ≡ index = ground arith in
              let has : has_assignee a (c.assignments index) ≡ true =
                works_on-has_assignee c index a v
                  (subst (λ j. works_on j (Dict.lookup a c.peers) ≡ true) same before) in
              cc (winner e has)
          | inr e ↦ e
        ],
      )

  finished-IsConsistent : IsConsistent finished
  finished-IsConsistent =
      let (p, q) = finished-same in
      record {
        states = λ i.
            subst₂ (λ ps xs. state_ok (get_elem? ps i) (xs i) ≡ true) (sym p) (sym q)
              (rw (get_elem?-set c.pieces index i complete h) (ground (arith, v.states i)));
        tasks = λ a. task_ok-of finished a (Dict.lookup a finished.peers) λ i w.
            let (before, other) = finished-works_on a i w in
            subst₂ (λ ps xs. (ltb i (length ps) && has_assignee a (xs i)) ≡ true) (sym p) (sym q)
              (ground (
                arith,
                other,
                length-set c.pieces index complete,
                works_on-lt c i a v before,
                works_on-has_assignee c i a v before,
              ));
      }

-- A finished piece has no assignee, and nobody is at work on it.
pub finish_piece-IsConsistent :
    (env : Env) (addr index : ℕ) (content : Bytes) (c : Coordinator)
    → IsConsistent c
    → index < length c.pieces
    → IsConsistent (finish_piece env addr index content c)
unfolding finish_piece finished
finish_piece-IsConsistent env addr index content c v h =
    let w = finished-IsConsistent addr index c v h in
    if_elim IsConsistent env.delivered (λ _. record { states = w.states; tasks = w.tasks }) (λ _. w)
