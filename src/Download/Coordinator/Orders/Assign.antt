-- ===== src/Download/Coordinator/Orders/Assign.antt =====
-- internal/download/selection.go and endgame.go against the invariant of Orders.
use p2p_file_distribution.Base.{
  ℕ, ltb, ◌==◌, if_elim, true, ◌||◌, List, [], ◌∷◌, length, Option, none, some, ◌≡◌,
}
use p2p_file_distribution.Base.Bytes.{Bytes}
use p2p_file_distribution.Piece.Geometry.Bounds.{IsGeometry}
use p2p_file_distribution.Download.Coordinator.State.{PeerInfo, Assignment, Coordinator, Env}
use p2p_file_distribution.Download.Coordinator.Selection.{
  is_some, is_assigned, is_fresh, select_piece_for, unassign, release_one, unassign_stale,
  free_stale_at, free_stale, kept,
}
use p2p_file_distribution.Download.Coordinator.Endgame.{
  with_peer, assign_found, assign_any_missing_to, assign_to_all, maybe_enter_endgame,
  remaining_piece_count, endgame_threshold, fewest_loop,
}
use p2p_file_distribution.Download.Coordinator.Handlers.{
  tick, try_assign_peer, try_assign, assign_idle_peers,
}
use p2p_file_distribution.Download.Coordinator.Orders.{
  Ordered, PeerOk, put-IsOrdered, with_peer-Ordered, assign_piece_to-Ordered,
}

module _ {pc pl tl : ℕ} (g : IsGeometry pc pl tl) (hashes : List Bytes) (sha1 : Bytes → Bytes)
    (sized : length hashes ≡ pc) where
  abbrev pub Keeps : Coordinator → Type 0
  Keeps c = Ordered g hashes sha1 c

  abbrev pub Sound : PeerInfo → Type 0
  Sound p = PeerOk g hashes p

  pub with_peer-Keeps :
      (addr : ℕ) (c : Coordinator) (f : PeerInfo → Coordinator)
      → Keeps c
      → ((p : PeerInfo) → Sound p → Keeps (f p))
      → Keeps (with_peer addr c f)
  with_peer-Keeps = with_peer-Ordered g hashes sha1

  assign_found-Keeps :
      (env : Env) (addr : ℕ) (p : PeerInfo) (c : Coordinator) (o : Option ℕ)
      → Keeps c
      → Sound p
      → Keeps (assign_found env addr p c o)
  assign_found-Keeps env addr p c none v h = v
  assign_found-Keeps env addr p c (some index) v h =
      assign_piece_to-Ordered g hashes sha1 sized env addr p index c v h

  assign_any-Keeps :
      (env : Env) (addr : ℕ) (p : PeerInfo) (c : Coordinator)
      → Keeps c
      → Sound p
      → Keeps (assign_any_missing_to env addr p c)
  unfolding assign_any_missing_to
  assign_any-Keeps env addr p c v h =
      if_elim Keeps (is_some p.assigned) (λ _. v)
        (λ _. assign_found-Keeps env addr p c (fewest_loop c p.have (length c.pieces)).index v h)

  try_assign_peer-Keeps :
      (env : Env) (addr : ℕ) (p : PeerInfo) (c : Coordinator)
      → Keeps c
      → Sound p
      → Keeps (try_assign_peer env addr p c)
  unfolding try_assign_peer
  try_assign_peer-Keeps env addr p c v h =
      if_elim Keeps (is_some p.assigned) (λ _. v)
        (λ _.
          if_elim Keeps p.peer_choking (λ _. v)
            (λ _.
              if_elim Keeps c.endgame (λ _. assign_any-Keeps env addr p c v h)
                (λ _. assign_found-Keeps env addr p c (select_piece_for env.coin c p.have) v h)))

  pub try_assign-Keeps :
      (env : Env) (addr : ℕ) (c : Coordinator) → Keeps c → Keeps (try_assign env addr c)
  unfolding try_assign
  try_assign-Keeps env addr c v =
      with_peer-Keeps addr c _ v (λ p h. try_assign_peer-Keeps env addr p c v h)

  assign_to_all-Keeps :
      (env : Env) (order : List ℕ) (c : Coordinator) → Keeps c → Keeps (assign_to_all env order c)
  unfolding assign_to_all
  assign_to_all-Keeps env [] c v = v
  assign_to_all-Keeps env (addr ∷ order) c v =
      assign_to_all-Keeps env order _
        (with_peer-Keeps addr c _ v (λ p h. assign_any-Keeps env addr p c v h))

  -- A coordinator with the same torrent, peers and results.
  enter_endgame-Keeps : (env : Env) (c : Coordinator) → Keeps c → Keeps (maybe_enter_endgame env c)
  unfolding maybe_enter_endgame
  enter_endgame-Keeps env c v =
      if_elim Keeps c.endgame (λ _. v)
        (λ _.
          if_elim Keeps
            (remaining_piece_count c == 0 || ltb endgame_threshold (remaining_piece_count c))
            (λ _. v) (λ _. assign_to_all-Keeps env env.peer_order (record c { endgame = true }) v))

  assign_idle-Keeps :
      (env : Env) (order : List ℕ) (c : Coordinator)
      → Keeps c
      → Keeps (assign_idle_peers env order c)
  unfolding assign_idle_peers
  assign_idle-Keeps env [] c v = v
  assign_idle-Keeps env (addr ∷ order) c v =
      assign_idle-Keeps env order _ (try_assign-Keeps env addr c v)

  unassign-Keeps : (addr index : ℕ) (c : Coordinator) → Keeps c → Keeps (unassign addr index c)
  unfolding unassign
  unassign-Keeps addr index c v = with_peer-Keeps addr c _ v (λ p h.
      if_elim Keeps (is_assigned p index) (λ _. put-IsOrdered g hashes sha1 addr _ v h) (λ _. v))

  unassign_stale-Keeps :
      (now index : ℕ) (assignees : List Assignment) (c : Coordinator)
      → Keeps c
      → Keeps (unassign_stale now index assignees c)
  unfolding unassign_stale release_one
  unassign_stale-Keeps now index [] c v = v
  unassign_stale-Keeps now index (a ∷ assignees) c v =
      unassign_stale-Keeps now index assignees _
        (if_elim Keeps (is_fresh now a) (λ _. v) (λ _. unassign-Keeps a.addr index c v))

  free_stale-Keeps :
      (now : ℕ) (order : List ℕ) (c : Coordinator) → Keeps c → Keeps (free_stale now order c)
  unfolding free_stale free_stale_at
  free_stale-Keeps now [] c v = v
  free_stale-Keeps now (index ∷ order) c v =
      let w = unassign_stale-Keeps now index (c.assignments index) c v in
      let rest = kept now (c.assignments index) in
      free_stale-Keeps now order _ (
        if_elim Keeps (length rest == length (c.assignments index)) (λ _. w)
          (λ _. if_elim Keeps (length rest == 0) (λ _. w) (λ _. w)))

  pub tick-Keeps : (env : Env) (c : Coordinator) → Keeps c → Keeps (tick env c)
  unfolding tick
  tick-Keeps env c v =
      assign_idle-Keeps env env.peer_order _
        (enter_endgame-Keeps env _ (free_stale-Keeps env.now env.piece_order c v))
