-- ===== src/Download/System/Verified.antt =====
-- An invariant of the steps of System: commands, events and results in transit, and the pieces that
-- connections are at.
use p2p_file_distribution.Base.{
  ℕ, if_elim, false, List, [], ◌∷◌, ◌++◌, length, Option, get_elem?, set, remove_at, zero, suc,
  none, some, ok, >>=-eq-ok, ◌≡◌, ◌⊎◌, inl, inr, refl, sym, ◌∙◌, ltb,
}
use mathlib.Core.Path.{subst}
use p2p_file_distribution.Base.Bytes.{Bytes, All, All-get}
use p2p_file_distribution.Base.Dict
use p2p_file_distribution.Base.Dict.{Dict}
use p2p_file_distribution.Piece.Geometry.Bounds.{IsGeometry}
use p2p_file_distribution.Piece.Verify.{verify-true}
use p2p_file_distribution.Download.Command.{
  Command, assign_piece, cancel_piece, pause, shutdown, choke_peer, unchoke_peer, Event,
  peer_joined, bitfield_received, have_received, piece_downloaded, piece_failed, peer_ready,
  peer_left, interested_received, not_interested_received, choke_received, unchoke_received,
}
use p2p_file_distribution.Download.Assembly.{message, command, messages_closed, commands_closed}
use p2p_file_distribution.Download.Coordinator.State.{PeerInfo, Coordinator, new_coordinator}
use p2p_file_distribution.Download.Coordinator.Handlers.{mark_complete}
use p2p_file_distribution.Download.Coordinator.Tasks.Reach.{mark_all}
use p2p_file_distribution.Download.Coordinator.Orders.{
  IsListed, IsOrder, Ordered, SomeOk, put-IsOrdered,
}
use p2p_file_distribution.Download.Coordinator.Orders.Assign.{tick-Keeps}
use p2p_file_distribution.Download.Coordinator.Orders.Run.{
  IsHonest, Ensured, handle-Ensured, recalc_choke-Keeps, rotate-Keeps, write_shared-Keeps,
}
use p2p_file_distribution.Download.Main.Loop.Verified.{IsVerified}
use p2p_file_distribution.Download.Worker.Loop.{
  Input, arrives, deadline, context_done, Turn, Phase, Output, turn,
}
use p2p_file_distribution.Download.Worker.Speech.{Contract, IsAllowedInput, PhaseOk, StepOk}
use p2p_file_distribution.Download.Worker.Speech.Turns.{turn-StepOk, introduce-StepOk}
use p2p_file_distribution.Download.Worker.Order.{events_of-All}
use p2p_file_distribution.Download.System.{
  System, Connection, is_command, proceeds, begins, delivers, tagged, commands_of, left_behind,
  take_command, Step, IsReachable,
}

append-All : {A : Type 0} (P : A → Type 0) (a b : List A) → All P a → All P b → All P (a ++ b)
append-All P [] b h k = k
append-All P (x ∷ a) b h k = (h.0, append-All P a b h.1 k)

set-All :
    {A : Type 0} (P : A → Type 0) (xs : List A) (k : ℕ) (x : A)
    → All P xs
    → P x
    → All P (set xs k x)
set-All P [] k x h p = tt
set-All P (y ∷ xs) zero x h p = (p, h.1)
set-All P (y ∷ xs) (suc k) x h p = (h.0, set-All P xs k x h.1 p)

remove_at-All :
    {A : Type 0} (P : A → Type 0) (k : ℕ) (xs : List A) → All P xs → All P (remove_at k xs)
remove_at-All P k [] h = tt
remove_at-All P zero (x ∷ xs) h = h.1
remove_at-All P (suc k) (x ∷ xs) h = (h.0, remove_at-All P k xs h.1)

module _ {pc pl tl : ℕ} (g : IsGeometry pc pl tl) (hashes : List Bytes) (sha1 : Bytes → Bytes)
    (sized : length hashes ≡ pc) where
  abbrev honest : (addr : ℕ) → Contract sha1 addr
  honest addr = record {
    Listed = IsListed g hashes;
    Says = IsHonest g hashes sha1 sized;
    bitfield = λ have. tt;
    have = λ index. tt;
    failed = λ index. tt;
    ready = tt;
    interested = tt;
    not_interested = tt;
    choke = tt;
    unchoke = tt;
    piece = λ index len hash content l size e.
        let (fits, same) = (verify-true sha1 content hash).0 e in
        record {
          in_range = l.in_range;
          full = size ∙ l.full;
          hash = hash;
          listed = l.listed;
          size = fits;
          same = same;
        };
  }

  -- A connection works on a piece of the torrent, and what it is about to tell is right.
  abbrev ConnectionOk : Connection → Type 0
  ConnectionOk conn =
      PhaseOk (honest conn.addr) conn.phase × All (IsHonest g hashes sha1 sized) conn.outbox

  abbrev OrphanOk : ℕ × Command → Type 0
  OrphanOk o = IsOrder g hashes o.1

  -- Commands and events in transit are in order, and so is what every connection works on.
  record IsSafe (s : System) : Type 0 where
    coordinator : Ordered g hashes sha1 s.coordinator
    connections : All ConnectionOk s.connections
    pending : All (IsHonest g hashes sha1 sized) s.pending
    orphaned : All OrphanOk s.orphaned

  proceeds-IsSafe :
      (k addr : ℕ) (next : Phase × List Output) (s : System)
      → IsSafe s
      → StepOk (honest addr) next
      → IsSafe (proceeds k addr next s)
  unfolding proceeds
  proceeds-IsSafe k addr next s v (ok_phase, said) = record {
    coordinator = v.coordinator;
    connections =
        set-All ConnectionOk s.connections k _ v.connections
          (ok_phase, events_of-All (honest addr) next.1 said);
    pending = v.pending;
    orphaned = v.orphaned;
  }

  begins-IsSafe :
      (addr : ℕ) (next : Phase × List Output) (s : System)
      → IsSafe s
      → StepOk (honest addr) next
      → IsSafe (begins addr next s)
  unfolding begins
  begins-IsSafe addr next s v (ok_phase, said) = record {
    coordinator = v.coordinator;
    connections =
        append-All ConnectionOk s.connections _ v.connections
          ((ok_phase, (tt, events_of-All (honest addr) next.1 said)), tt);
    pending = v.pending;
    orphaned = v.orphaned;
  }

  delivers-IsSafe :
      (k : ℕ) (conn : Connection) (e : Event) (rest : List Event) (s : System)
      → IsSafe s
      → get_elem? s.connections k ≡ some conn
      → conn.outbox ≡ e ∷ rest
      → IsSafe (delivers k conn e rest s)
  unfolding delivers
  delivers-IsSafe k conn e rest s v there q =
      let (ok_phase, outbox) = All-get ConnectionOk s.connections k v.connections there in
      let outbox' : All (IsHonest g hashes sha1 sized) (e ∷ rest) =
        subst (All (IsHonest g hashes sha1 sized)) q outbox in
      record {
        coordinator = v.coordinator;
        connections = set-All ConnectionOk s.connections k _ v.connections (ok_phase, outbox'.1);
        pending = append-All _ s.pending _ v.pending (outbox'.0, tt);
        orphaned = v.orphaned;
      }

  tagged-All :
      (addr : ℕ) (q : List Command) → All (IsOrder g hashes) q → All OrphanOk (tagged addr q)
  unfolding tagged
  tagged-All addr [] h = tt
  tagged-All addr (cmd ∷ q) h = (h.0, tagged-All addr q h.1)

  commands_of-All :
      (addr : ℕ) (o : Option PeerInfo) → SomeOk g hashes o → All OrphanOk (commands_of addr o)
  unfolding commands_of
  commands_of-All addr none h = tt
  commands_of-All addr (some p) h = tagged-All addr p.commands.queue h

  left_behind-All :
      (e : Event) (c : Coordinator) → Ordered g hashes sha1 c → All OrphanOk (left_behind e c)
  unfolding left_behind
  left_behind-All (peer_joined addr channel) c v = commands_of-All addr _ (v.queues addr)
  left_behind-All (peer_left addr) c v = commands_of-All addr _ (v.queues addr)
  left_behind-All (bitfield_received addr b) c v = tt
  left_behind-All (have_received addr i) c v = tt
  left_behind-All (piece_downloaded addr i b) c v = tt
  left_behind-All (piece_failed addr i) c v = tt
  left_behind-All (peer_ready addr) c v = tt
  left_behind-All (interested_received addr) c v = tt
  left_behind-All (not_interested_received addr) c v = tt
  left_behind-All (choke_received addr) c v = tt
  left_behind-All (unchoke_received addr) c v = tt

  plain-IsAllowed :
      (addr : ℕ) (input : Input) → is_command input ≡ false → IsAllowedInput (honest addr) input
  plain-IsAllowed addr (arrives (message m)) e = tt
  plain-IsAllowed addr (arrives (command cmd)) e = cc
  plain-IsAllowed addr (arrives messages_closed) e = tt
  plain-IsAllowed addr (arrives commands_closed) e = tt
  plain-IsAllowed addr deadline e = tt
  plain-IsAllowed addr context_done e = tt

  order-IsAllowed :
      (addr : ℕ) (cmd : Command)
      → IsOrder g hashes cmd
      → IsAllowedInput (honest addr) (arrives (command cmd))
  order-IsAllowed addr (assign_piece index len hash) o = o
  order-IsAllowed addr (cancel_piece index) o = tt
  order-IsAllowed addr pause o = tt
  order-IsAllowed addr shutdown o = tt
  order-IsAllowed addr choke_peer o = tt
  order-IsAllowed addr unchoke_peer o = tt

  turn_at :
      (s : System) (k : ℕ) (conn : Connection) (t : Turn) {input : Input}
      → IsSafe s
      → get_elem? s.connections k ≡ some conn
      → t.input ≡ input
      → IsAllowedInput (honest conn.addr) input
      → StepOk (honest conn.addr) (turn sha1 conn.addr pc conn.phase t)
  turn_at s k conn t v e same l =
      turn-StepOk sha1 conn.addr pc (honest conn.addr) conn.phase t
        (All-get ConnectionOk s.connections k v.connections e).0
        (subst (IsAllowedInput (honest conn.addr)) (sym same) l)

  take_command-IsSafe :
      (s : System) (addr : ℕ) (p : PeerInfo) (cmd : Command) (rest : List Command)
      → IsSafe s
      → Dict.lookup addr s.coordinator.peers ≡ some p
      → p.commands.queue ≡ cmd ∷ rest
      → IsSafe (take_command addr p rest s) × IsOrder g hashes cmd
  unfolding take_command
  take_command-IsSafe s addr p cmd rest v e q =
      let queue : All (IsOrder g hashes) (cmd ∷ rest) =
        subst (All (IsOrder g hashes)) q (subst (SomeOk g hashes) e (v.coordinator.queues addr)) in
      (
        record {
          coordinator = put-IsOrdered g hashes sha1 addr _ v.coordinator queue.1;
          connections = v.connections;
          pending = v.pending;
          orphaned = v.orphaned;
        },
        queue.0,
      )

  parted-All :
      (addr : ℕ) (told : List Event)
      → (told ≡ []) ⊎ (told ≡ peer_left addr ∷ [])
      → All (IsHonest g hashes sha1 sized) told
  parted-All addr told (inl e) = subst (All (IsHonest g hashes sha1 sized)) (sym e) tt
  parted-All addr told (inr e) = subst (All (IsHonest g hashes sha1 sized)) (sym e) (tt, tt)

  steered :
      (s : System) (c : Coordinator)
      → IsSafe s
      → Ordered g hashes sha1 c
      → IsSafe (record s { coordinator = c })
  steered s c v o = record {
    coordinator = o;
    connections = v.connections;
    pending = v.pending;
    orphaned = v.orphaned;
  }

  Step-IsSafe : {s s' : System} → Step sha1 pc s s' → IsSafe s → IsSafe s'
  Step-IsSafe (Step.joins s addr o conn) v =
      begins-IsSafe addr _ s v (introduce-StepOk sha1 addr pc (honest addr) o o.have _)
  Step-IsSafe (Step.turns s k conn t e free plain) v =
      proceeds-IsSafe k conn.addr _ s v
        (turn_at s k conn t v e refl (plain-IsAllowed conn.addr t.input plain))
  Step-IsSafe (Step.obeys s k conn t p cmd rest e free at q same) v =
      let (w, order) = take_command-IsSafe s conn.addr p cmd rest v at q in
      proceeds-IsSafe k conn.addr _ (take_command conn.addr p rest s) w
        (turn_at s k conn t v e same (order-IsAllowed conn.addr cmd order))
  Step-IsSafe (Step.obeys_late s k j conn t cmd e free at same) v =
      let order : IsOrder g hashes cmd = All-get OrphanOk s.orphaned j v.orphaned at in
      proceeds-IsSafe k conn.addr _ (record s { orphaned = remove_at j s.orphaned })
        (record {
          coordinator = v.coordinator;
          connections = v.connections;
          pending = v.pending;
          orphaned = remove_at-All OrphanOk j s.orphaned v.orphaned;
        })
        (turn_at s k conn t v e same (order-IsAllowed conn.addr cmd order))
  Step-IsSafe (Step.sends s k conn e rest there q) v = delivers-IsSafe k conn e rest s v there q
  Step-IsSafe (Step.marks s addr index) v =
      steered s _ v (write_shared-Keeps g hashes sha1 sized addr index s.coordinator v.coordinator)
  Step-IsSafe (Step.leaves s k conn told e free over gone) v = record {
    coordinator = v.coordinator;
    connections = remove_at-All ConnectionOk k s.connections v.connections;
    pending = append-All _ s.pending _ v.pending (parted-All conn.addr told gone);
    orphaned = v.orphaned;
  }
  Step-IsSafe (Step.handles s env e rest c at h) v =
      let pending : All (IsHonest g hashes sha1 sized) (e ∷ rest) =
        subst (All (IsHonest g hashes sha1 sized)) at v.pending in
      record {
        coordinator =
            subst (Ensured g hashes sha1 sized) h
              (handle-Ensured g hashes sha1 sized env e s.coordinator v.coordinator pending.0);
        connections = v.connections;
        pending = pending.1;
        orphaned =
            append-All OrphanOk s.orphaned _ v.orphaned
              (left_behind-All e s.coordinator v.coordinator);
      }
  Step-IsSafe (Step.ticks s env) v =
      steered s _ v (tick-Keeps g hashes sha1 sized env s.coordinator v.coordinator)
  Step-IsSafe (Step.rechokes s env) v =
      steered s _ v (recalc_choke-Keeps g hashes sha1 sized env s.coordinator v.coordinator)
  Step-IsSafe (Step.rotates s env) v =
      steered s _ v (rotate-Keeps g hashes sha1 sized env s.coordinator v.coordinator)
  Step-IsSafe (Step.counts s rates) v =
      steered s (record s.coordinator { rates = rates }) v v.coordinator

  mark_all-Ordered :
      (done : List ℕ) (c : Coordinator) {d : Coordinator}
      → Ordered g hashes sha1 c
      → mark_all done c ≡ ok d
      → Ordered g hashes sha1 d
  unfolding mark_all mark_complete
  mark_all-Ordered [] c v h = subst (Ensured g hashes sha1 sized) h v
  mark_all-Ordered (index ∷ done) c v h =
      let (b, e, rest) = >>=-eq-ok (mark_complete index c) (mark_all done) h in
      mark_all-Ordered done b
        (subst (Ensured g hashes sha1 sized) e
          (if_elim (Ensured g hashes sha1 sized) (ltb index (length c.pieces)) (λ _. v) (λ _. tt)))
        rest

  reachable-IsSafe : (s : System) → IsReachable sha1 pc pl tl hashes s → IsSafe s
  unfolding new_coordinator Dict.lookup
  reachable-IsSafe _ (IsReachable.started done c h) = record {
    coordinator =
        mark_all-Ordered done (new_coordinator pc pl tl hashes)
          (record {
            pieces = refl;
            size = refl;
            total = refl;
            listed = refl;
            queues = λ a. tt;
            verified = tt;
          })
          h;
    connections = tt;
    pending = tt;
    orphaned = tt;
  }
  reachable-IsSafe s' (IsReachable.stepped {s} r step) = Step-IsSafe step (reachable-IsSafe s r)

  -- In a valid torrent with a hash for every piece, whatever the peers send and however the goroutines,
  -- timers and failures interleave, every result that the coordinator hands over is a piece of the
  -- torrent, with the length and the hash that it lists.
  pub results-IsVerified :
      (s : System)
      → IsReachable sha1 pc pl tl hashes s
      → All (IsVerified sha1 g hashes) s.coordinator.results
  results-IsVerified s r = (reachable-IsSafe s r).coordinator.verified
