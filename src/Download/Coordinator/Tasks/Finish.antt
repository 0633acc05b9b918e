-- ===== src/Download/Coordinator/Tasks/Finish.antt =====
-- Finishing a piece, giving one up, and losing a peer keep the bookkeeping consistent.
use p2p_file_distribution.Base.{
  ℕ, ◌<◌, ◌==◌, if◌then◌else◌, if_elim, true, false, not, ◌&&◌, ◌||◌, List, [], ◌∷◌, Option, none,
  some, length, get_elem?, ◌≡◌, refl, arith, ◌∙◌, Bool-cases, Option-cases, inl, inr,
}
use mathlib.Core.Path.{subst}
use p2p_file_distribution.Base.Dict
use p2p_file_distribution.Base.Dict.{Dict}
use p2p_file_distribution.Download.Command.{cancel_piece, send}
use p2p_file_distribution.Download.Coordinator.State.{
  missing, PeerInfo, Assignment, Coordinator, update,
}
use p2p_file_distribution.Download.Coordinator.Selection.{is_assigned}
use p2p_file_distribution.Download.Coordinator.Endgame.{cancel_one, cancel_all}
use p2p_file_distribution.Download.Coordinator.Handlers.{
  drop_assignee, remove_assignee, release_if_unassigned,
}
use p2p_file_distribution.Download.Coordinator.Tasks.{
  IsConsistent, state_ok, has_assignee, works_on, works_on-has_assignee, assign_state-IsConsistent,
  retask-IsConsistent,
}
use p2p_file_distribution.Download.Coordinator.Tasks.Release.{state_ok-nonempty}

drop-has_assignee :
    (addr a : ℕ) (xs : List Assignment)
    → (addr == a) ≡ false
    → has_assignee a (drop_assignee addr xs) ≡ has_assignee a xs
unfolding drop_assignee
drop-has_assignee addr a [] h = refl
drop-has_assignee addr a (x ∷ xs) h = ground (arith, drop-has_assignee addr a xs h)

drop-nonempty :
    (addr : ℕ) (xs : List Assignment)
    → (length (drop_assignee addr xs) == 0) ≡ false
    → (length xs == 0) ≡ false
unfolding drop_assignee
drop-nonempty addr [] h = h
drop-nonempty addr (x ∷ xs) h = ground arith

state_ok-missing :
    (xs : List Assignment) → (length xs == 0) ≡ true → state_ok (some missing) xs ≡ true
state_ok-missing [] h = refl
state_ok-missing (x ∷ xs) h = absurd (ground arith)

-- Peer `addr`, which is not at work on piece `i`, is struck off its assignees.
module _ (c : Coordinator) (i addr : ℕ) (v : IsConsistent c)
    (quiet : works_on i (Dict.lookup addr c.peers) ≡ false) where
  others_stay :
      (a : ℕ)
      → works_on i (Dict.lookup a c.peers) ≡ true
      → has_assignee a (drop_assignee addr (c.assignments i)) ≡ true
  others_stay a w = elim (Bool-cases (addr == a)) [
    | inl e ↦
        let same : addr ≡ a = ground arith in
        let idle : works_on i (Dict.lookup a c.peers) ≡ false =
          subst (λ k. works_on i (Dict.lookup k c.peers) ≡ false) same quiet in
        cc
    | inr e ↦ drop-has_assignee addr a (c.assignments i) e ∙ works_on-has_assignee c i a v w
  ]

  pub struck-IsConsistent :
      ((length (drop_assignee addr (c.assignments i)) == 0) ≡ true → i < length c.pieces)
      → IsConsistent (release_if_unassigned i (remove_assignee i addr c))
  unfolding release_if_unassigned remove_assignee
  struck-IsConsistent inside =
      let rest = drop_assignee addr (c.assignments i) in
      let here : (update c.assignments i rest) i ≡ rest = ground arith in
      if_elim IsConsistent (length ((update c.assignments i rest) i) == 0)
        (λ e.
          let e' = rw here at e in
          assign_state-IsConsistent c i missing rest v (inside e') (state_ok-missing rest e')
            others_stay)
        (λ e.
          let e' = rw here at e in
          retask-IsConsistent c i c.pieces rest v refl (λ j _. refl)
            (state_ok-nonempty (get_elem? c.pieces i) (c.assignments i) rest (v.states i)
              (drop-nonempty addr (c.assignments i) e') e')
            others_stay)

cancel_one-works_on :
    (index winner addr a i : ℕ) (c : Coordinator)
    → works_on i (Dict.lookup a (cancel_one index winner addr c).peers) ≡ true
    → (works_on i (Dict.lookup a c.peers) ≡ true)
      × ((addr == winner || not (addr == a && (index == i))) ≡ true)
unfolding cancel_one
cancel_one-works_on index winner addr a i c h = elim (Option-cases (Dict.lookup addr c.peers)) [
  | inl e ↦ ground (arith, e)
  | inr (p, e) ↦
      let rest : Option ℕ = if is_assigned p index then none else p.assigned in
      ground (
        arith,
        e,
        Dict.lookup-put addr a
            (record p { commands = send p.commands (cancel_piece index); assigned = rest }) c.peers,
        Dict.lookup-put addr a (record p { assigned = rest }) c.peers,
      )
]

cancel_one-same :
    (index winner addr : ℕ) (c : Coordinator)
    → ((cancel_one index winner addr c).pieces ≡ c.pieces)
      × ((cancel_one index winner addr c).assignments ≡ c.assignments)
unfolding cancel_one
cancel_one-same index winner addr c = ground arith

-- After the cancels, only the winner can still be at work on the piece.
pub cancel_all-works_on :
    (index winner a i : ℕ) (xs : List Assignment) (c : Coordinator)
    → works_on i (Dict.lookup a (cancel_all index winner xs c).peers) ≡ true
    → (works_on i (Dict.lookup a c.peers) ≡ true)
      × ((index == i) ≡ true → has_assignee a xs ≡ true → (winner == a) ≡ true)
unfolding cancel_all
cancel_all-works_on index winner a i [] c h = (h, λ e k. cc)
cancel_all-works_on index winner a i (x ∷ xs) c h =
    let (mid, later) =
      cancel_all-works_on index winner a i xs (cancel_one index winner x.addr c) h in
    let (before, now) = cancel_one-works_on index winner x.addr a i c mid in
    (before, λ e k. ground (arith, now, later e))

pub cancel_all-same :
    (index winner : ℕ) (xs : List Assignment) (c : Coordinator)
    → ((cancel_all index winner xs c).pieces ≡ c.pieces)
      × ((cancel_all index winner xs c).assignments ≡ c.assignments)
unfolding cancel_all
cancel_all-same index winner [] c = (refl, refl)
cancel_all-same index winner (x ∷ xs) c =
    let (p, q) = cancel_all-same index winner xs (cancel_one index winner x.addr c) in
    let (p', q') = cancel_one-same index winner x.addr c in (p ∙ p', q ∙ q')

-- What the release of a piece leaves alone.
pub release-peers :
    (i addr : ℕ) (c : Coordinator)
    → (release_if_unassigned i (remove_assignee i addr c)).peers ≡ c.peers
unfolding release_if_unassigned remove_assignee
release-peers i addr c = ground arith

-- It makes no difference whether the peers change before the release or after it.
pub release-put :
    (i addr : ℕ) (c : Coordinator) (peers : Dict PeerInfo)
    → release_if_unassigned i (remove_assignee i addr (record c { peers = peers }))
      ≡ record (release_if_unassigned i (remove_assignee i addr c)) { peers = peers }
unfolding release_if_unassigned remove_assignee
release-put i addr c peers =
    elim (Bool-cases
      (length ((update c.assignments i (drop_assignee addr (c.assignments i))) i) == 0)) [
        | inl e ↦ rw e
        | inr e ↦ rw e
      ]
