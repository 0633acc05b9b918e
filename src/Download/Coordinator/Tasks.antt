-- ===== src/Download/Coordinator/Tasks.antt =====
-- The bookkeeping of pieces and assignees: its invariant, and the writes that keep it.
pub mod Assign
pub mod Release
pub mod Finish
pub mod Events
pub mod Run
pub mod Reach
pub mod Late
use p2p_file_distribution.Base.{
  ℕ, zero, suc, ◌+◌, ◌<◌, ltb, ◌==◌, if◌then◌else◌, Bool, true, false, not, ◌&&◌, ◌||◌, List, [],
  ◌∷◌, ◌++◌, Option, none, some, length, get_elem?, set, get_elem?-set, get_elem?-lt, length-set,
  ◌≡◌, refl, arith, sym, ap, ◌∙◌, Bool-cases, Option-cases, inl, inr,
}
use p2p_file_distribution.Base.Dict
use p2p_file_distribution.Download.Coordinator.Selection.{is_assigned}
use p2p_file_distribution.Download.Coordinator.State.{
  PieceState, missing, in_flight, complete, PeerInfo, Assignment, Coordinator, Env, is_open,
  put_peer, set_piece_state, set_assignees, update,
}

abbrev pub has_assignee : ℕ → List Assignment → Bool
has_assignee addr [] = false
has_assignee addr (a ∷ assignees) = a.addr == addr || has_assignee addr assignees

-- A piece in flight has an assignee, and any other piece has none.
abbrev pub state_ok : Option PieceState → List Assignment → Bool
state_ok (some in_flight) [] = false
state_ok (some in_flight) (a ∷ assignees) = true
state_ok _ [] = true
state_ok _ (a ∷ assignees) = false

-- A peer that is at work on a piece stands among the assignees of the piece.
abbrev pub task_ok : ℕ → Coordinator → Option PeerInfo → Bool
task_ok addr c none = true
task_ok addr c (some p) = elim p.assigned [
  | none ↦ true
  | some i ↦ ltb i (length c.pieces) && has_assignee addr (c.assignments i)
]

pub record IsConsistent (c : Coordinator) : Type 0 where
  pub states : (i : ℕ) → state_ok (get_elem? c.pieces i) (c.assignments i) ≡ true
  pub tasks : (addr : ℕ) → task_ok addr c (Dict.lookup addr c.peers) ≡ true

pub has_assignee-append :
    (addr : ℕ) (xs ys : List Assignment)
    → has_assignee addr (xs ++ ys) ≡ (has_assignee addr xs || has_assignee addr ys)
has_assignee-append addr [] ys = refl
has_assignee-append addr (x ∷ xs) ys = ground (arith, has_assignee-append addr xs ys)

-- Replacing a peer's record by one with an admissible assignment.
pub put_peer-IsConsistent :
    (c : Coordinator) (addr : ℕ) (p : PeerInfo)
    → IsConsistent c
    → task_ok addr c (some p) ≡ true
    → IsConsistent (put_peer c addr p)
put_peer-IsConsistent c addr p v h = record {
  states = v.states;
  tasks = λ a. ground (arith, h, v.tasks a, Dict.lookup-put addr a p c.peers);
}

pub remove_peer-IsConsistent :
    (c : Coordinator) (addr : ℕ)
    → IsConsistent c
    → IsConsistent (record c { peers = Dict.remove addr c.peers })
remove_peer-IsConsistent c addr v = record {
  states = v.states;
  tasks = λ a. ground (arith, v.tasks a, Dict.lookup-remove addr a c.peers);
}

-- The peer is at work on piece `i`.
abbrev pub works_on : ℕ → Option PeerInfo → Bool
works_on i none = false
works_on i (some p) = is_assigned p i

-- New states for the pieces and new assignees for piece `i`.
abbrev pub retask : Coordinator → ℕ → List PieceState → List Assignment → Coordinator
retask c i pieces assignees = record c {
  pieces = pieces;
  assignments = update c.assignments i assignees;
}

pub retask-IsConsistent :
    (c : Coordinator) (i : ℕ) (pieces : List PieceState) (assignees : List Assignment)
    → IsConsistent c
    → length pieces ≡ length c.pieces
    → ((j : ℕ) → (i == j) ≡ false → get_elem? pieces j ≡ get_elem? c.pieces j)
    → state_ok (get_elem? pieces i) assignees ≡ true
    → ((a : ℕ) → works_on i (Dict.lookup a c.peers) ≡ true → has_assignee a assignees ≡ true)
    → IsConsistent (retask c i pieces assignees)
retask-IsConsistent c i pieces assignees v len same new keep = record {
  states = λ j. elim (Bool-cases (i == j)) [
    | inl e ↦ let e' : i ≡ j = ground arith in rw (e, ← e') new
    | inr e ↦ rw (e, same j e) (v.states j)
  ];
  tasks = λ a. retasked a (Dict.lookup a c.peers) (v.tasks a) (keep a);
}
  where
    retasked :
        (a : ℕ) (o : Option PeerInfo)
        → task_ok a c o ≡ true
        → (works_on i o ≡ true → has_assignee a assignees ≡ true)
        → task_ok a (retask c i pieces assignees) o ≡ true
    retasked a none h k = refl
    retasked a (some p) h k = ground (arith, len)

-- The state of one piece, and its assignees.
pub assign_state-IsConsistent :
    (c : Coordinator) (i : ℕ) (s : PieceState) (assignees : List Assignment)
    → IsConsistent c
    → i < length c.pieces
    → state_ok (some s) assignees ≡ true
    → ((a : ℕ) → works_on i (Dict.lookup a c.peers) ≡ true → has_assignee a assignees ≡ true)
    → IsConsistent (retask c i (set c.pieces i s) assignees)
assign_state-IsConsistent c i s assignees v h new keep =
    retask-IsConsistent c i (set c.pieces i s) assignees v (length-set c.pieces i s)
      (λ j e. rw (get_elem?-set c.pieces i j s h, e))
      (rw (get_elem?-set c.pieces i i s h, eq_self i) new) keep
  where
    eq_self : (k : ℕ) → (k == k) ≡ true
    eq_self k = ground arith

pub works_on-has_assignee :
    (c : Coordinator) (i a : ℕ)
    → IsConsistent c
    → works_on i (Dict.lookup a c.peers) ≡ true
    → has_assignee a (c.assignments i) ≡ true
works_on-has_assignee c i a v h = from (Dict.lookup a c.peers) (v.tasks a) h
  where
    from :
        (o : Option PeerInfo)
        → task_ok a c o ≡ true
        → works_on i o ≡ true
        → has_assignee a (c.assignments i) ≡ true
    from none t w = cc
    from (some p) t w = ground arith

-- A piece that is open lies in bounds.
pub is_open-lt : (c : Coordinator) (i : ℕ) → is_open c i ≡ true → i < length c.pieces
is_open-lt c i h = elim (Option-cases (get_elem? c.pieces i)) [
  | inl e ↦ let h' = rw e at h in cc
  | inr (s, e) ↦ get_elem?-lt c.pieces i e
]

pub works_on-lt :
    (c : Coordinator) (i a : ℕ)
    → IsConsistent c
    → works_on i (Dict.lookup a c.peers) ≡ true
    → i < length c.pieces
works_on-lt c i a v h = from (Dict.lookup a c.peers) (v.tasks a) h
  where
    from : (o : Option PeerInfo) → task_ok a c o ≡ true → works_on i o ≡ true → i < length c.pieces
    from none t w = cc
    from (some p) t w = ground arith

-- The task of a peer, piece by piece.
pub task_ok-of :
    (c : Coordinator) (a : ℕ) (o : Option PeerInfo)
    → ((i : ℕ)
        → works_on i o ≡ true
        → (ltb i (length c.pieces) && has_assignee a (c.assignments i)) ≡ true)
    → task_ok a c o ≡ true
task_ok-of c a none h = refl
task_ok-of c a (some p) h = elim (Option-cases p.assigned) [
  | inl e ↦ rw e
  | inr (i, e) ↦ rw e (h i (rw e (eq_self i)))
]
  where
    eq_self : (k : ℕ) → (k == k) ≡ true
    eq_self k = ground arith
