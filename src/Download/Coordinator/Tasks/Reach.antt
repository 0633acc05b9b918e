-- ===== src/Download/Coordinator/Tasks/Reach.antt =====
-- internal/download/coordinator.go: the states that the coordinator's loop goes through, for any order
-- of events and timers.
use p2p_file_distribution.Base.{
  ℕ, List, [], ◌∷◌, some, ok, ◌≡◌, refl, replicate, ◌<◌, get_elem?, get_elem?-set, ltb, if_elim,
  ◌>>=◌, >>=-eq-ok, length, zero, suc, true, arith, sym,
}
use mathlib.Core.Path.{subst}
use p2p_file_distribution.Base.Bytes.{Bytes}
use p2p_file_distribution.Base.Dict
use p2p_file_distribution.Base.Dict.{Dict}
use p2p_file_distribution.Download.Command.{Command, Event}
use p2p_file_distribution.Download.Rates.{RateTracker}
use p2p_file_distribution.Download.Coordinator.State.{
  missing, complete, PeerInfo, Coordinator, Env, put_peer, new_coordinator,
}
use p2p_file_distribution.Download.Coordinator.Handlers.{Outcome, handle, tick, mark_complete}
use p2p_file_distribution.Download.Coordinator.Choke.{ChokeEnv, recalc_choke, rotate_optimistic}
use p2p_file_distribution.Download.Coordinator.Tasks.{IsConsistent, state_ok, task_ok}
use p2p_file_distribution.Download.Coordinator.Tasks.Run.{
  Ensured, handle-Ensured, tick-IsConsistent, recalc_choke-IsConsistent, rotate-IsConsistent,
  same_task-IsConsistent,
}
use p2p_file_distribution.Download.Session.Shared.{write_shared}
use p2p_file_distribution.Download.Coordinator.Tasks.Assign.{with_peer-IsConsistent}

-- The pieces that a resume file or an earlier run has, before the loop starts.
unfoldable pub mark_all : List ℕ → Coordinator → Outcome
mark_all [] c = ok c
mark_all (index ∷ rest) c = mark_complete index c >>= mark_all rest

-- One turn of the loop, or what another goroutine does between two turns: a connection takes the
-- oldest command of its channel, or marks a piece on the bitfield that it shares with the coordinator,
-- or bytes are counted.
pub data Step : Coordinator → Coordinator → Type 0 where
  on_event : (env : Env) (e : Event) {c d : Coordinator} → handle env e c ≡ ok d → Step c d
  on_tick : (env : Env) (c : Coordinator) → Step c (tick env c)
  on_choke : (env : ChokeEnv) (c : Coordinator) → Step c (recalc_choke env c)
  on_optimistic : (env : ChokeEnv) (c : Coordinator) → Step c (rotate_optimistic env c)
  on_taken :
      (c : Coordinator) (addr : ℕ) (p : PeerInfo) (cmd : Command) (rest : List Command)
      → Dict.lookup addr c.peers ≡ some p
      → p.commands.queue ≡ cmd ∷ rest
      → Step c (put_peer c addr (record p { commands = record p.commands { queue = rest } }))
  on_shared : (c : Coordinator) (addr index : ℕ) → Step c (write_shared addr index c)
  on_bytes : (c : Coordinator) (rates : RateTracker) → Step c (record c { rates = rates })

pub data IsReachable : Coordinator → Type 0 where
  started :
      (piece_count piece_length total_length : ℕ) (piece_hashes : List Bytes) (done : List ℕ)
      {c : Coordinator}
      → mark_all done (new_coordinator piece_count piece_length total_length piece_hashes) ≡ ok c
      → IsReachable c
  stepped : {c d : Coordinator} → IsReachable c → Step c d → IsReachable d

-- When an event is handled without a panic, the bookkeeping stays consistent.
pub handle-IsConsistent :
    (env : Env) (e : Event) (c d : Coordinator)
    → IsConsistent c
    → handle env e c ≡ ok d
    → IsConsistent d
handle-IsConsistent env e c d v h = subst Ensured h (handle-Ensured env e c v)

write_shared-IsConsistent :
    (addr index : ℕ) (c : Coordinator) → IsConsistent c → IsConsistent (write_shared addr index c)
unfolding write_shared
write_shared-IsConsistent addr index c v =
    with_peer-IsConsistent addr c _ v (λ p e. same_task-IsConsistent c addr p _ v e refl)

Step-IsConsistent : (c d : Coordinator) → Step c d → IsConsistent c → IsConsistent d
Step-IsConsistent c d (on_event env e h) v = handle-IsConsistent env e c d v h
Step-IsConsistent c _ (on_tick env _) v = tick-IsConsistent env c v
Step-IsConsistent c _ (on_choke env _) v = recalc_choke-IsConsistent env c v
Step-IsConsistent c _ (on_optimistic env _) v = rotate-IsConsistent env c v
Step-IsConsistent c _ (on_taken _ addr p cmd rest e q) v =
    same_task-IsConsistent c addr p _ v e refl
Step-IsConsistent c _ (on_shared _ addr index) v = write_shared-IsConsistent addr index c v
Step-IsConsistent c _ (on_bytes _ rates) v = record { states = v.states; tasks = v.tasks }

-- Before the loop runs, no piece has an assignee and no peer has joined.
record IsFresh (c : Coordinator) : Type 0 where
  pieces : (i : ℕ) → state_ok (get_elem? c.pieces i) [] ≡ true
  assignments : (i : ℕ) → c.assignments i ≡ []
  peers : c.peers ≡ []

abbrev FreshResult : Outcome → Type 0
FreshResult (ok c) = IsFresh c
FreshResult _ = Unit

missing_ok : (n i : ℕ) → state_ok (get_elem? (replicate n missing) i) [] ≡ true
missing_ok zero i = refl
missing_ok (suc n) zero = refl
missing_ok (suc n) (suc i) = missing_ok n i

new_coordinator-IsFresh : (n l t : ℕ) (hashes : List Bytes) → IsFresh (new_coordinator n l t hashes)
unfolding new_coordinator
new_coordinator-IsFresh n l t hashes = record {
  pieces = missing_ok n;
  assignments = λ i. refl;
  peers = refl;
}

mark_complete-FreshResult :
    (index : ℕ) (c : Coordinator) → IsFresh c → FreshResult (mark_complete index c)
unfolding mark_complete
mark_complete-FreshResult index c v =
    if_elim FreshResult (ltb index (length c.pieces))
      (λ h. record {
        pieces = λ i. ground (
          arith,
          v.pieces i,
          get_elem?-set c.pieces index i complete
              (let h' : index < length c.pieces = ground arith in h'),
        );
        assignments = v.assignments;
        peers = v.peers;
      })
      (λ _. tt)

mark_all-IsFresh :
    (done : List ℕ) (c d : Coordinator) → IsFresh c → mark_all done c ≡ ok d → IsFresh d
unfolding mark_all
mark_all-IsFresh [] c d v h = subst FreshResult h v
mark_all-IsFresh (index ∷ done) c d v h =
    let (b, e, rest) = >>=-eq-ok (mark_complete index c) (mark_all done) h in
    mark_all-IsFresh done b d (subst FreshResult e (mark_complete-FreshResult index c v)) rest

IsFresh-IsConsistent : (c : Coordinator) → IsFresh c → IsConsistent c
unfolding Dict.lookup
IsFresh-IsConsistent c v = record {
  states = λ i. rw (v.assignments i) (v.pieces i);
  tasks = λ a.
      subst (λ (peers : Dict PeerInfo). task_ok a c (Dict.lookup a peers) ≡ true) (sym v.peers)
        refl;
}

-- In every state that the loop can reach, a piece is in flight exactly when it has an assignee, no
-- piece in another state or out of bounds has one, and a peer at work on a piece is among the assignees of the piece.
pub reachable-IsConsistent : (c : Coordinator) → IsReachable c → IsConsistent c
reachable-IsConsistent c (started n l t hashes done h) =
    IsFresh-IsConsistent c (mark_all-IsFresh done _ c (new_coordinator-IsFresh n l t hashes) h)
reachable-IsConsistent d (stepped {c} r s) = Step-IsConsistent c d s (reachable-IsConsistent c r)
