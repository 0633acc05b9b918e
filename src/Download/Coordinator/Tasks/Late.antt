-- ===== src/Download/Coordinator/Tasks/Late.antt =====
-- internal/download/coordinator.go: what a report on a piece does after the piece is complete.
use p2p_file_distribution.Base.{
  get_elem?-set_self, get_elem?-some, ◌⊎◌, ◌≢◌, ◌∙◌, if_elim, if◌then◌else◌, ◌++◌, Bool, true,
  false, ap, ℕ, ltb, ◌<◌, ◌==◌, true, List, [], ◌∷◌, some, length, get_elem?, set, get_elem?-set,
  get_elem?-lt, ◌≡◌, refl, arith, ok, inl, inr, Option-cases,
}
use p2p_file_distribution.Base.Bytes.{Bytes}
use p2p_file_distribution.Base.Dict
use p2p_file_distribution.Download.Coordinator.State.{
  Assignment, missing, complete, Coordinator, Env, PeerInfo,
}
use p2p_file_distribution.Download.Coordinator.Endgame.{with_peer}
use p2p_file_distribution.Download.Coordinator.Handlers.{
  handle_piece_failed, handle_piece_downloaded, fail_piece, drop_assignee, remove_assignee,
  release_if_unassigned, set_idle,
}
use p2p_file_distribution.Download.Coordinator.Tasks.{IsConsistent, state_ok}
use p2p_file_distribution.Download.Command.{has_room}
use p2p_file_distribution.Download.Coordinator.Endgame.{
  cancel_one, cancel_all, cancel_other_assignees,
}
use p2p_file_distribution.Download.Coordinator.Handlers.{finish_piece}
use p2p_file_distribution.Download.Coordinator.State.{
  PieceState, in_flight, PieceResult, set_piece_state, set_assignees, is_open,
}

with_peer-pieces :
    (addr : ℕ) (c : Coordinator) (f : PeerInfo → Coordinator)
    → ((p : PeerInfo) → (f p).pieces ≡ c.pieces)
    → (with_peer addr c f).pieces ≡ c.pieces
with_peer-pieces addr c f h = elim (Option-cases (Dict.lookup addr c.peers)) [
  | inl e ↦ rw (e, with_peer) refl
  | inr (p, e) ↦ rw (e, with_peer) (h p)
]

set_idle-pieces : (addr : ℕ) (c : Coordinator) → (set_idle addr c).pieces ≡ c.pieces
unfolding set_idle
set_idle-pieces addr c = with_peer-pieces addr c _ (λ p. refl)

-- A complete piece has no assignees.
complete-unassigned :
    (c : Coordinator) (index : ℕ)
    → IsConsistent c
    → get_elem? c.pieces index ≡ some complete
    → c.assignments index ≡ []
complete-unassigned c index v e = from (c.assignments index) (rw e at (v.states index))
  where
    from :
        (assignees : List Assignment) → state_ok (some complete) assignees ≡ true → assignees ≡ []
    from [] h = refl
    from (a ∷ assignees) h = cc

-- Without an assignee left, the piece is missing.
release_if_unassigned-pieces :
    (index : ℕ) (c : Coordinator)
    → c.assignments index ≡ []
    → (release_if_unassigned index c).pieces ≡ set c.pieces index missing
unfolding release_if_unassigned
release_if_unassigned-pieces index c e = rw e refl

remove_assignee-assignments :
    (index addr : ℕ) (c : Coordinator)
    → c.assignments index ≡ []
    → (remove_assignee index addr c).assignments index ≡ []
unfolding remove_assignee drop_assignee
remove_assignee-assignments index addr c e = rw (e, eq_self index) refl
  where
    eq_self : (k : ℕ) → (k == k) ≡ true
    eq_self k = ground arith

remove_assignee-pieces :
    (index addr : ℕ) (c : Coordinator) → (remove_assignee index addr c).pieces ≡ c.pieces
unfolding remove_assignee
remove_assignee-pieces index addr c = refl

-- In a consistent state, a failure reported late for a piece that is complete puts the piece back
-- among the missing ones.
pub late_failure_reopens :
    (addr index : ℕ) (c : Coordinator)
    → IsConsistent c
    → get_elem? c.pieces index ≡ some complete
    → (d : Coordinator) × (handle_piece_failed addr index c ≡ ok d)
      × (get_elem? d.pieces index ≡ some missing)
unfolding handle_piece_failed drop_assignee fail_piece
late_failure_reopens addr index c v e =
    let none_left = complete-unassigned c index v e in
    let h = get_elem?-lt c.pieces index e in
    (
      fail_piece addr index c,
      rw (none_left, in_bounds h) refl,
      rw
          (
            set_idle-pieces addr (release_if_unassigned index (remove_assignee index addr c)),
            release_if_unassigned-pieces index (remove_assignee index addr c)
                (remove_assignee-assignments index addr c none_left),
            remove_assignee-pieces index addr c,
            get_elem?-set c.pieces index index missing h,
            eq_self index,
          )
          refl,
    )
  where
    in_bounds : index < length c.pieces → ltb index (length c.pieces) ≡ true
    in_bounds h = ground arith

    eq_self : (k : ℕ) → (k == k) ≡ true
    eq_self k = ground arith

with_peer-results :
    (addr : ℕ) (c : Coordinator) (f : PeerInfo → Coordinator)
    → ((p : PeerInfo) → (f p).results ≡ c.results)
    → (with_peer addr c f).results ≡ c.results
with_peer-results addr c f h = elim (Option-cases (Dict.lookup addr c.peers)) [
  | inl e ↦ rw (e, with_peer) refl
  | inr (p, e) ↦ rw (e, with_peer) (h p)
]

-- Cancelling the other assignees changes neither the states of the pieces nor the results.
cancel_one-same :
    (index winner addr : ℕ) (c : Coordinator)
    → ((cancel_one index winner addr c).pieces ≡ c.pieces)
      × ((cancel_one index winner addr c).results ≡ c.results)
unfolding cancel_one
cancel_one-same index winner addr c =
    if_elim (λ (d : Coordinator). (d.pieces ≡ c.pieces) × (d.results ≡ c.results)) (addr == winner)
      (λ _. (refl, refl))
      (λ _. (
        with_peer-pieces addr c _ (λ p.
            if_elim (λ (d : Coordinator). d.pieces ≡ c.pieces) (has_room p.commands) (λ _. refl)
              (λ _. refl)),
        with_peer-results addr c _ (λ p.
            if_elim (λ (d : Coordinator). d.results ≡ c.results) (has_room p.commands) (λ _. refl)
              (λ _. refl)),
      ))

cancel_all-same :
    (index winner : ℕ) (assignees : List Assignment) (c : Coordinator)
    → ((cancel_all index winner assignees c).pieces ≡ c.pieces)
      × ((cancel_all index winner assignees c).results ≡ c.results)
unfolding cancel_all
cancel_all-same index winner [] c = (refl, refl)
cancel_all-same index winner (a ∷ assignees) c =
    let (pieces, results) =
      cancel_all-same index winner assignees (cancel_one index winner a.addr c) in
    let (pieces', results') = cancel_one-same index winner a.addr c in
    (pieces ∙ pieces', results ∙ results')

set_idle-same :
    (addr : ℕ) (c : Coordinator)
    → ((set_idle addr c).results ≡ c.results) × ((set_idle addr c).assignments ≡ c.assignments)
unfolding set_idle
set_idle-same addr c = elim (Option-cases (Dict.lookup addr c.peers)) [
  | inl e ↦ rw (e, with_peer) (refl, refl)
  | inr (p, e) ↦ rw (e, with_peer) (refl, refl)
]

-- What a finished piece leaves behind.
pub record IsFinished (delivered : Bool) (index : ℕ) (content : Bytes) (c d : Coordinator)
    : Type 0 where
  pub state : get_elem? d.pieces index ≡ some complete
  pub unassigned : d.assignments index ≡ []
  pub results : d.results ≡ (
      if delivered
      then c.results ++ record { index = index; content = content } ∷ []
      else c.results)

finished :
    (delivered : Bool) (index : ℕ) (content : Bytes) (c d : Coordinator)
    → IsFinished false index content c d
    → IsFinished delivered index content c (
        if delivered
        then record d { results = d.results ++ record { index = index; content = content } ∷ [] }
        else d)
finished false index content c d v = v
finished true index content c d v = record {
  state = v.state;
  unassigned = v.unassigned;
  results =
      ap (λ (l : List PieceResult). l ++ record { index = index; content = content } ∷ [])
        v.results;
}

finish_piece-IsFinished :
    (env : Env) (addr index : ℕ) (content : Bytes) (c : Coordinator)
    → index < length c.pieces
    → IsFinished env.delivered index content c (finish_piece env addr index content c)
unfolding finish_piece cancel_other_assignees
finish_piece-IsFinished env addr index content c h =
    let e1 : Coordinator = set_piece_state c index complete in
    let e2 = cancel_other_assignees index addr e1 in
    let e3 : Coordinator = set_assignees e2 index [] in
    let (pieces, results) = cancel_all-same index addr (e1.assignments index) e1 in
    let (results', assignments) = set_idle-same addr e3 in
    finished env.delivered index content c (set_idle addr e3) (record {
      state =
          ap (λ (l : List PieceState). get_elem? l index) (set_idle-pieces addr e3 ∙ pieces)
          ∙ get_elem?-set_self c.pieces index complete h;
      unassigned = ap (λ (f : ℕ → List Assignment). f index) assignments ∙ at_index e2 index;
      results = results' ∙ results;
    })
  where
    at_index : (e : Coordinator) (i : ℕ) → (set_assignees e i []).assignments i ≡ []
    at_index e i = ground arith

complete_or_open :
    (c : Coordinator) (i : ℕ)
    → i < length c.pieces
    → (get_elem? c.pieces i ≡ some complete) ⊎ (is_open c i ≡ true)
complete_or_open c i h = from (get_elem?-some c.pieces i h)
  where
    from :
        (s : PieceState) × (get_elem? c.pieces i ≡ some s)
        → (get_elem? c.pieces i ≡ some complete) ⊎ (is_open c i ≡ true)
    from (complete, e) = inl e
    from (missing, e) = inr (rw e refl)
    from (in_flight, e) = inr (rw e refl)

open_not_complete :
    (c : Coordinator) (i : ℕ) → is_open c i ≡ true → get_elem? c.pieces i ≢ some complete
open_not_complete c i e done = let e' : false ≡ true = rw done at e in cc

-- A downloaded piece in bounds that is complete already changes nothing. If it is not complete, it becomes complete
-- and loses its assignees, and its bytes are handed over once, unless the context is cancelled first.
pub handle_piece_downloaded_cases :
    (env : Env) (addr index : ℕ) (content : Bytes) (c : Coordinator)
    → index < length c.pieces
    → ((get_elem? c.pieces index ≡ some complete)
        × (handle_piece_downloaded env addr index content c ≡ ok c))
      ⊎ ((get_elem? c.pieces index ≢ some complete)
          × (d : Coordinator) × (handle_piece_downloaded env addr index content c ≡ ok d)
          × IsFinished env.delivered index content c d)
unfolding handle_piece_downloaded
handle_piece_downloaded_cases env addr index content c h = elim (complete_or_open c index h) [
  | inl e ↦ inl (e, rw (below index (length c.pieces) h, e) refl)
  | inr e ↦ inr (
    open_not_complete c index e,
    finish_piece env addr index content c,
    rw (below index (length c.pieces) h, e) refl,
    finish_piece-IsFinished env addr index content c h,
  )
]
  where
    below : (i n : ℕ) → i < n → ltb i n ≡ true
    below i n h = ground arith
