-- ===== src/Download/Coordinator/Tasks/Release.antt =====
-- Taking pieces back, and finishing them, keeps the bookkeeping consistent.
use p2p_file_distribution.Base.{
  ℕ, ◌<◌, ◌≤◌, ◌==◌, if◌then◌else◌, if_elim, true, false, not, ◌&&◌, ◌||◌, List, [], ◌∷◌, Option,
  none, some, length, get_elem?, get_elem?-lt, ◌≡◌, refl, arith, ap, ◌∙◌, Bool-cases, Option-cases,
  inl, inr,
}
use p2p_file_distribution.Base.Dict
use p2p_file_distribution.Download.Coordinator.State.{
  PieceState, missing, in_flight, complete, Assignment, Coordinator, set_piece_state, set_assignees,
}
use p2p_file_distribution.Download.Coordinator.Selection.{
  is_assigned, unassign, is_fresh, kept, release_one, unassign_stale, free_stale_at, free_stale,
}
use p2p_file_distribution.Download.Coordinator.Handlers.{set_idle}
use p2p_file_distribution.Download.Coordinator.Tasks.{
  IsConsistent, state_ok, has_assignee, works_on, works_on-has_assignee, put_peer-IsConsistent,
  assign_state-IsConsistent, retask-IsConsistent,
}
use p2p_file_distribution.Download.Coordinator.Tasks.Assign.{with_peer-IsConsistent}

-- A peer with no assignment is always admissible.
pub set_idle-IsConsistent :
    (addr : ℕ) (c : Coordinator) → IsConsistent c → IsConsistent (set_idle addr c)
unfolding set_idle
set_idle-IsConsistent addr c v =
    with_peer-IsConsistent addr c _ v
      (λ p _. put_peer-IsConsistent c addr (record p { assigned = none }) v refl)

unassign-IsConsistent :
    (addr index : ℕ) (c : Coordinator) → IsConsistent c → IsConsistent (unassign addr index c)
unfolding unassign
unassign-IsConsistent addr index c v = elim (Option-cases (Dict.lookup addr c.peers)) [
  | inl e ↦ rw (e, unassign) v
  | inr (p, e) ↦
      rw (e, unassign)
        (if_elim IsConsistent (is_assigned p index)
          (λ _. put_peer-IsConsistent c addr (record p { assigned = none }) v refl) (λ _. v))
]

-- What `unassign` leaves of the peers at work on a piece.
unassign-works_on :
    (addr index a i : ℕ) (c : Coordinator)
    → works_on i (Dict.lookup a (unassign addr index c).peers) ≡ true
    → (works_on i (Dict.lookup a c.peers) ≡ true) × (((addr == a) && (index == i)) ≡ false)
unfolding unassign
unassign-works_on addr index a i c h = elim (Option-cases (Dict.lookup addr c.peers)) [
  | inl e ↦ ground (arith, e)
  | inr (p, e) ↦ ground (arith, e, Dict.lookup-put addr a (record p { assigned = none }) c.peers)
]

unassign-same :
    (addr index : ℕ) (c : Coordinator)
    → ((unassign addr index c).pieces ≡ c.pieces)
      × ((unassign addr index c).assignments ≡ c.assignments)
unfolding unassign
unassign-same addr index c = ground arith

release_one-works_on :
    (now index a i : ℕ) (x : Assignment) (c : Coordinator)
    → works_on i (Dict.lookup a (release_one now index x c).peers) ≡ true
    → (works_on i (Dict.lookup a c.peers) ≡ true)
      × ((is_fresh now x || not (x.addr == a && (index == i))) ≡ true)
unfolding release_one Dict.lookup
release_one-works_on now index a i x c h = elim (Bool-cases (is_fresh now x)) [
  | inl fresh ↦ (rw (fresh, release_one) at h, rw fresh)
  | inr stale ↦
      let (before, other) = unassign-works_on x.addr index a i c (rw (stale, release_one) at h) in
      (before, rw (stale, other))
]

release_one-same :
    (now index : ℕ) (x : Assignment) (c : Coordinator)
    → ((release_one now index x c).pieces ≡ c.pieces)
      × ((release_one now index x c).assignments ≡ c.assignments)
unfolding release_one
release_one-same now index x c = ground (arith, unassign-same x.addr index c)

-- After the stale assignees of a piece are released, a peer still at work on it has a fresh entry.
stale-works_on :
    (now index a i : ℕ) (assignees : List Assignment) (c : Coordinator)
    → works_on i (Dict.lookup a (unassign_stale now index assignees c).peers) ≡ true
    → (works_on i (Dict.lookup a c.peers) ≡ true)
      × ((index == i) ≡ true
          → has_assignee a assignees ≡ true
          → has_assignee a (kept now assignees) ≡ true)
unfolding unassign_stale kept
stale-works_on now index a i [] c h = (h, λ e k. k)
stale-works_on now index a i (x ∷ assignees) c h =
    let (mid, keep) = stale-works_on now index a i assignees (release_one now index x c) h in
    let (before, other) = release_one-works_on now index a i x c mid in
    (before, λ e k. ground (arith, other, keep e))

stale-same :
    (now index : ℕ) (assignees : List Assignment) (c : Coordinator)
    → ((unassign_stale now index assignees c).pieces ≡ c.pieces)
      × ((unassign_stale now index assignees c).assignments ≡ c.assignments)
unfolding unassign_stale
stale-same now index [] c = (refl, refl)
stale-same now index (x ∷ assignees) c =
    let (p, q) = stale-same now index assignees (release_one now index x c) in
    let (p', q') = release_one-same now index x c in (p ∙ p', q ∙ q')

stale-IsConsistent :
    (now index : ℕ) (assignees : List Assignment) (c : Coordinator)
    → IsConsistent c
    → IsConsistent (unassign_stale now index assignees c)
unfolding unassign_stale release_one
stale-IsConsistent now index [] c v = v
stale-IsConsistent now index (x ∷ assignees) c v =
    stale-IsConsistent now index assignees _
      (if_elim IsConsistent (is_fresh now x) (λ _. v) (λ _. unassign-IsConsistent x.addr index c v))

kept-length :
    (now : ℕ) (assignees : List Assignment) → length (kept now assignees) ≤ length assignees
unfolding kept
kept-length now [] = omega arith
kept-length now (x ∷ assignees) = ground (arith, kept-length now assignees)

-- A piece with an assignee is in flight, so it lies in bounds and may have any other assignees.
state_ok-lt :
    (pieces : List PieceState) (i : ℕ) (assignees : List Assignment)
    → state_ok (get_elem? pieces i) assignees ≡ true
    → (length assignees == 0) ≡ false
    → i < length pieces
state_ok-lt pieces i [] h k = absurd (ground arith)
state_ok-lt pieces i (a ∷ assignees) h k = elim (Option-cases (get_elem? pieces i)) [
  | inl e ↦ let h' = rw e at h in cc
  | inr (s, e) ↦ get_elem?-lt pieces i e
]

pub state_ok-nonempty :
    (o : Option PieceState) (xs ys : List Assignment)
    → state_ok o xs ≡ true
    → (length xs == 0) ≡ false
    → (length ys == 0) ≡ false
    → state_ok o ys ≡ true
state_ok-nonempty o [] ys h k l = absurd (ground arith)
state_ok-nonempty o (x ∷ xs) [] h k l = absurd (ground arith)
state_ok-nonempty none (x ∷ xs) (y ∷ ys) h k l = cc
state_ok-nonempty (some missing) (x ∷ xs) (y ∷ ys) h k l = cc
state_ok-nonempty (some in_flight) (x ∷ xs) (y ∷ ys) h k l = refl
state_ok-nonempty (some complete) (x ∷ xs) (y ∷ ys) h k l = cc

has_assignee-empty :
    (a : ℕ) (xs : List Assignment) → (length xs == 0) ≡ true → has_assignee a xs ≡ false
has_assignee-empty a [] h = refl
has_assignee-empty a (x ∷ xs) h = absurd (ground arith)

-- New assignees for a piece that had one. None puts the piece back to missing.
pub reassign-IsConsistent :
    (c : Coordinator) (i : ℕ) (assignees : List Assignment)
    → IsConsistent c
    → (length (c.assignments i) == 0) ≡ false
    → ((a : ℕ) → works_on i (Dict.lookup a c.peers) ≡ true → has_assignee a assignees ≡ true)
    → IsConsistent (
        if length assignees == 0
        then set_piece_state (set_assignees c i []) i missing
        else set_assignees c i assignees)
reassign-IsConsistent c i assignees v busy keep =
    if_elim IsConsistent (length assignees == 0)
      (λ e.
        assign_state-IsConsistent c i missing [] v
          (state_ok-lt c.pieces i (c.assignments i) (v.states i) busy) refl
          (λ a w. cc (keep a w, has_assignee-empty a assignees e)))
      (λ e.
        retask-IsConsistent c i c.pieces assignees v refl (λ j _. refl)
          (state_ok-nonempty (get_elem? c.pieces i) (c.assignments i) assignees (v.states i) busy e)
          keep)

pub free_stale_at-IsConsistent :
    (now index : ℕ) (c : Coordinator) → IsConsistent c → IsConsistent (free_stale_at now index c)
unfolding free_stale_at
free_stale_at-IsConsistent now index c v =
    let assignees = c.assignments index in
    let c' = unassign_stale now index assignees c in
    let v' = stale-IsConsistent now index assignees c v in
    let same : c'.assignments index ≡ assignees =
      ap (λ (f : ℕ → List Assignment). f index) (stale-same now index assignees c).1 in
    if_elim IsConsistent (length (kept now assignees) == length assignees) (λ _. v')
      (λ less.
        reassign-IsConsistent c' index (kept now assignees) v'
          (rw same (
            shrunk (length (kept now assignees)) (length assignees) (kept-length now assignees)
              less))
          (λ a w.
            let (before, keep) = stale-works_on now index a index assignees c w in
            keep (eq_self index) (works_on-has_assignee c index a v before)))
  where
    shrunk : (m n : ℕ) → m ≤ n → (m == n) ≡ false → (n == 0) ≡ false
    shrunk m n h k = ground arith

    eq_self : (k : ℕ) → (k == k) ≡ true
    eq_self k = ground arith

pub free_stale-IsConsistent :
    (now : ℕ) (order : List ℕ) (c : Coordinator)
    → IsConsistent c
    → IsConsistent (free_stale now order c)
unfolding free_stale
free_stale-IsConsistent now [] c v = v
free_stale-IsConsistent now (index ∷ order) c v =
    free_stale-IsConsistent now order _ (free_stale_at-IsConsistent now index c v)
