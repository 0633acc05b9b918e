-- ===== src/Download/Coordinator/Orders/Run.antt =====
-- The handlers and timers of internal/download/coordinator.go against the invariant of Orders.
use p2p_file_distribution.Base.{
  ℕ, ltb, ◌==◌, if◌then◌else◌, if_elim, Bool, true, false, not, ◌||◌, ◌&&◌, List, [], ◌∷◌, ◌++◌,
  length, Option, none, some, Option-cases, inl, inr, ok, ◌≡◌,
}
use mathlib.Core.Path.{subst}
use p2p_file_distribution.Base.Int.{pos}
use p2p_file_distribution.Base.Bytes.{Bytes, All}
use p2p_file_distribution.Base.Dict
use p2p_file_distribution.Base.Dict.{Dict}
use p2p_file_distribution.Piece.Geometry.Bounds.{IsGeometry}
use p2p_file_distribution.Peer.Bitfield.{has_piece}
use p2p_file_distribution.Download.Command.{
  choke_peer, unchoke_peer, cancel_piece, has_room, Event, peer_joined, bitfield_received,
  have_received, piece_downloaded, piece_failed, peer_ready, peer_left, interested_received,
  not_interested_received, choke_received, unchoke_received,
}
use p2p_file_distribution.Download.Coordinator.State.{
  Assignment, PieceResult, Coordinator, Env, is_open, complete, set_piece_state,
}
use p2p_file_distribution.Download.Coordinator.Availability.{add_availability, remove_availability}
use p2p_file_distribution.Download.Coordinator.Endgame.{
  cancel_one, cancel_all, cancel_other_assignees,
}
use p2p_file_distribution.Download.Coordinator.Handlers.{
  Outcome, handle, set_choked, same_flag, drop_assignee, remove_assignee, release_if_unassigned,
  release_piece, handle_peer_left, handle_peer_joined, handle_have_received,
  handle_bitfield_received, handle_piece_downloaded, handle_piece_failed, finish_piece, fail_piece,
  set_idle, handle_interested_received, handle_not_interested_received, handle_choke_received,
  handle_unchoke_received,
}
use p2p_file_distribution.Download.Session.Shared.{write_shared}
use p2p_file_distribution.Download.Coordinator.Choke.{
  ChokeEnv, recalc_choke, rotate_optimistic, choke_uninterested, apply_choke, release_previous,
  grant_slot, is_interested,
}
use p2p_file_distribution.Download.Main.Loop.Verified.{IsVerified}
use p2p_file_distribution.Download.Coordinator.Orders.{
  IsOrder, SomeOk, send-All, put-IsOrdered, remove-IsOrdered,
}
use p2p_file_distribution.Download.Coordinator.Orders.Assign.{
  Keeps, with_peer-Keeps, try_assign-Keeps,
}

module _ {pc pl tl : ℕ} (g : IsGeometry pc pl tl) (hashes : List Bytes) (sha1 : Bytes → Bytes)
    (sized : length hashes ≡ pc) where
  -- The write to the bitfield of a peer, from outside.
  pub write_shared-Keeps :
      (addr index : ℕ) (c : Coordinator)
      → Keeps g hashes sha1 sized c
      → Keeps g hashes sha1 sized (write_shared addr index c)
  unfolding write_shared
  write_shared-Keeps addr index c v =
      with_peer-Keeps g hashes sha1 sized addr c _ v (λ p h. put-IsOrdered g hashes sha1 addr _ v h)

  set_choked-Keeps :
      (addr : ℕ) (choked : Bool) (c : Coordinator)
      → Keeps g hashes sha1 sized c
      → Keeps g hashes sha1 sized (set_choked addr choked c)
  unfolding set_choked
  set_choked-Keeps addr choked c v = with_peer-Keeps g hashes sha1 sized addr c _ v λ p h.
      if_elim (Keeps g hashes sha1 sized) (same_flag p.choked choked || not (has_room p.commands))
        (λ _. v)
        (λ _. put-IsOrdered g hashes sha1 addr _ v (
          send-All g hashes p.commands (if choked then choke_peer else unchoke_peer) h
            (if_elim (IsOrder g hashes) choked (λ _. tt) (λ _. tt))))

  cancel_one-Keeps :
      (index winner addr : ℕ) (c : Coordinator)
      → Keeps g hashes sha1 sized c
      → Keeps g hashes sha1 sized (cancel_one index winner addr c)
  unfolding cancel_one
  cancel_one-Keeps index winner addr c v =
      if_elim (Keeps g hashes sha1 sized) (addr == winner) (λ _. v)
        (λ _. with_peer-Keeps g hashes sha1 sized addr c _ v (λ p h.
          if_elim (Keeps g hashes sha1 sized) (has_room p.commands)
            (λ _.
              put-IsOrdered g hashes sha1 addr _ v
                (send-All g hashes p.commands (cancel_piece index) h tt))
            (λ _. put-IsOrdered g hashes sha1 addr _ v h)))

  cancel_all-Keeps :
      (index winner : ℕ) (assignees : List Assignment) (c : Coordinator)
      → Keeps g hashes sha1 sized c
      → Keeps g hashes sha1 sized (cancel_all index winner assignees c)
  unfolding cancel_all
  cancel_all-Keeps index winner [] c v = v
  cancel_all-Keeps index winner (a ∷ assignees) c v =
      cancel_all-Keeps index winner assignees _ (cancel_one-Keeps index winner a.addr c v)

  set_idle-Keeps :
      (addr : ℕ) (c : Coordinator)
      → Keeps g hashes sha1 sized c
      → Keeps g hashes sha1 sized (set_idle addr c)
  unfolding set_idle
  set_idle-Keeps addr c v =
      with_peer-Keeps g hashes sha1 sized addr c _ v (λ p h. put-IsOrdered g hashes sha1 addr _ v h)

  release-Keeps :
      (index addr : ℕ) (c : Coordinator)
      → Keeps g hashes sha1 sized c
      → Keeps g hashes sha1 sized (release_if_unassigned index (remove_assignee index addr c))
  unfolding release_if_unassigned remove_assignee
  release-Keeps index addr c v =
      if_elim (Keeps g hashes sha1 sized)
        (length ((remove_assignee index addr c).assignments index) == 0) (λ _. v) (λ _. v)

  release_piece-Keeps :
      (addr : ℕ) (o : Option ℕ) (c : Coordinator)
      → Keeps g hashes sha1 sized c
      → Keeps g hashes sha1 sized (release_piece addr o c)
  release_piece-Keeps addr none c v = v
  release_piece-Keeps addr (some index) c v = release-Keeps index addr c v

  peer_left-Keeps :
      (addr : ℕ) (c : Coordinator)
      → Keeps g hashes sha1 sized c
      → Keeps g hashes sha1 sized (handle_peer_left addr c)
  unfolding handle_peer_left remove_availability
  peer_left-Keeps addr c v = with_peer-Keeps g hashes sha1 sized addr c _ v (λ p h.
      remove-IsOrdered g hashes sha1 addr
        (release_piece-Keeps addr p.assigned (remove_availability c p.have) v))

  snoc-All :
      (results : List PieceResult) (r : PieceResult)
      → All (IsVerified sha1 g hashes) results
      → IsVerified sha1 g hashes r
      → All (IsVerified sha1 g hashes) (results ++ r ∷ [])
  snoc-All [] r h k = (k, tt)
  snoc-All (x ∷ results) r h k = (h.0, snoc-All results r h.1 k)

  finish_piece-Keeps :
      (env : Env) (addr index : ℕ) (content : Bytes) (c : Coordinator)
      → Keeps g hashes sha1 sized c
      → IsVerified sha1 g hashes (record { index = index; content = content })
      → Keeps g hashes sha1 sized (finish_piece env addr index content c)
  unfolding finish_piece cancel_other_assignees
  finish_piece-Keeps env addr index content c v k =
      let w =
        set_idle-Keeps addr _ (
          cancel_all-Keeps index addr (c.assignments index) (set_piece_state c index complete) v) in
      if_elim (Keeps g hashes sha1 sized) env.delivered
        (λ _. record {
          pieces = w.pieces;
          size = w.size;
          total = w.total;
          listed = w.listed;
          queues = w.queues;
          verified = snoc-All _ _ w.verified k;
        })
        (λ _. w)

  -- What may be told to the coordinator: a verified piece, and a new connection whose channel is empty.
  abbrev pub IsHonest : Event → Type 0
  IsHonest (peer_joined addr commands) = All (IsOrder g hashes) commands.queue
  IsHonest (piece_downloaded addr index content) =
      IsVerified sha1 g hashes (record { index = index; content = content })
  IsHonest _ = Unit {0}

  abbrev pub Ensured : Outcome → Type 0
  Ensured (ok c) = Keeps g hashes sha1 sized c
  Ensured _ = Unit {0}

  bitfield-Keeps :
      (env : Env) (addr : ℕ) (bitfield : Bytes) (c : Coordinator)
      → Keeps g hashes sha1 sized c
      → Keeps g hashes sha1 sized (handle_bitfield_received env addr bitfield c)
  unfolding handle_bitfield_received add_availability
  bitfield-Keeps env addr bitfield c v = with_peer-Keeps g hashes sha1 sized addr c _ v λ p h.
      if_elim (Keeps g hashes sha1 sized) p.got_bitfield (λ _. v)
        (λ _.
          try_assign-Keeps g hashes sha1 sized env addr _ (put-IsOrdered g hashes sha1 addr _ v h))

  have-Ensured :
      (env : Env) (addr index : ℕ) (c : Coordinator)
      → Keeps g hashes sha1 sized c
      → Ensured (handle_have_received env addr index c)
  unfolding handle_have_received
  have-Ensured env addr index c v = elim (Option-cases (Dict.lookup addr c.peers)) [
    | inl e ↦ rw (e, handle_have_received) v
    | inr (p, e) ↦
        rw (e, handle_have_received)
          (if_elim Ensured (has_piece p.have (pos index)) (λ _. v)
            (λ _.
              if_elim Ensured (ltb index (length c.availability))
                (λ _. try_assign-Keeps g hashes sha1 sized env addr _ (
                  put-IsOrdered g hashes sha1 addr _ v (subst (SomeOk g hashes) e (v.queues addr))))
                (λ _. tt)))
  ]

  not_interested-Keeps :
      (addr : ℕ) (c : Coordinator)
      → Keeps g hashes sha1 sized c
      → Keeps g hashes sha1 sized (handle_not_interested_received addr c)
  unfolding handle_not_interested_received
  not_interested-Keeps addr c v = with_peer-Keeps g hashes sha1 sized addr c _ v (λ p h.
      set_choked-Keeps addr true _
        (put-IsOrdered g hashes sha1 addr (record p { interested = false }) v h))

  pub handle-Ensured :
      (env : Env) (e : Event) (c : Coordinator)
      → Keeps g hashes sha1 sized c
      → IsHonest e
      → Ensured (handle env e c)
  unfolding handle handle_interested_received handle_choke_received handle_unchoke_received
      handle_peer_joined handle_piece_downloaded handle_piece_failed fail_piece
  handle-Ensured env (peer_joined addr commands) c v k =
      put-IsOrdered g hashes sha1 addr _ (peer_left-Keeps addr c v) k
  handle-Ensured env (bitfield_received addr bitfield) c v k = bitfield-Keeps env addr bitfield c v
  handle-Ensured env (have_received addr index) c v k = have-Ensured env addr index c v
  handle-Ensured env (piece_downloaded addr index content) c v k =
      if_elim Ensured (not (ltb index (length c.pieces))) (λ _. tt)
        (λ _.
          if_elim Ensured (is_open c index) (λ _. finish_piece-Keeps env addr index content c v k)
            (λ _. v))
  handle-Ensured env (piece_failed addr index) c v k =
      if_elim Ensured
        (length (drop_assignee addr (c.assignments index)) == 0
          && not (ltb index (length c.pieces)))
        (λ _. tt) (λ _. set_idle-Keeps addr _ (release-Keeps index addr c v))
  handle-Ensured env (peer_ready addr) c v k = try_assign-Keeps g hashes sha1 sized env addr c v
  handle-Ensured env (peer_left addr) c v k = peer_left-Keeps addr c v
  handle-Ensured env (interested_received addr) c v k =
      with_peer-Keeps g hashes sha1 sized addr c _ v (λ p h. put-IsOrdered g hashes sha1 addr _ v h)
  handle-Ensured env (not_interested_received addr) c v k = not_interested-Keeps addr c v
  handle-Ensured env (choke_received addr) c v k =
      with_peer-Keeps g hashes sha1 sized addr c _ v (λ p h. put-IsOrdered g hashes sha1 addr _ v h)
  handle-Ensured env (unchoke_received addr) c v k =
      with_peer-Keeps g hashes sha1 sized addr c _ v (λ p h.
        try_assign-Keeps g hashes sha1 sized env addr _ (put-IsOrdered g hashes sha1 addr _ v h))

  choke_uninterested-Keeps :
      (order : List ℕ) (c : Coordinator)
      → Keeps g hashes sha1 sized c
      → Keeps g hashes sha1 sized (choke_uninterested order c)
  unfolding choke_uninterested
  choke_uninterested-Keeps [] c v = v
  choke_uninterested-Keeps (addr ∷ order) c v = choke_uninterested-Keeps order _ (
      if_elim (Keeps g hashes sha1 sized) (is_interested (Dict.lookup addr c.peers)) (λ _. v)
        (λ _. set_choked-Keeps addr true c v))

  apply_choke-Keeps :
      (rest top : List ℕ) (slot : Option ℕ) (c : Coordinator)
      → Keeps g hashes sha1 sized c
      → Keeps g hashes sha1 sized (apply_choke rest top slot c)
  unfolding apply_choke
  apply_choke-Keeps [] top slot c v = v
  apply_choke-Keeps (addr ∷ rest) top slot c v =
      apply_choke-Keeps rest top slot _ (set_choked-Keeps addr _ c v)

  pub recalc_choke-Keeps :
      (env : ChokeEnv) (c : Coordinator)
      → Keeps g hashes sha1 sized c
      → Keeps g hashes sha1 sized (recalc_choke env c)
  unfolding recalc_choke
  recalc_choke-Keeps env c v =
      apply_choke-Keeps _ _ _ _ (choke_uninterested-Keeps env.peer_order c v)

  release_previous-Keeps :
      (o : Option ℕ) (c : Coordinator)
      → Keeps g hashes sha1 sized c
      → Keeps g hashes sha1 sized (release_previous o c)
  unfolding release_previous
  release_previous-Keeps none c v = v
  release_previous-Keeps (some a) c v = set_choked-Keeps a true c v

  grant_slot-Keeps :
      (o : Option ℕ) (c : Coordinator)
      → Keeps g hashes sha1 sized c
      → Keeps g hashes sha1 sized (grant_slot o c)
  unfolding grant_slot
  grant_slot-Keeps none c v = v
  grant_slot-Keeps (some a) c v = set_choked-Keeps a false (record c { optimistic = some a }) v

  pub rotate-Keeps :
      (env : ChokeEnv) (c : Coordinator)
      → Keeps g hashes sha1 sized c
      → Keeps g hashes sha1 sized (rotate_optimistic env c)
  unfolding rotate_optimistic
  rotate-Keeps env c v = grant_slot-Keeps _ _ (release_previous-Keeps c.optimistic c v)
