-- ===== src/Download/System.antt =====
-- internal/download/download.go and worker.go: the coordinator and all connections at once. The select
-- loops interleave in any order; what a peer sends, when timers fire and which sends fail is arbitrary.
-- There may be several connections to one address, as in the code. A connection that has events to send
-- stands still until the last of them is in `pending`, the channel of events; those of other connections
-- may come in between. `results` of the coordinator is the channel of results.
pub mod Verified
pub mod Whole
pub mod Tests
use p2p_file_distribution.Base.{
  ℕ, Bool, true, false, List, [], ◌∷◌, ◌++◌, get_elem?, set, remove_at, Option, none, some, ok, ◌≡◌,
  ◌⊎◌,
}
use p2p_file_distribution.Base.Bytes.{Bytes}
use p2p_file_distribution.Base.Dict
use p2p_file_distribution.Peer.Bitfield.{empty_for}
use p2p_file_distribution.Peer.Conn.{Conn}
use p2p_file_distribution.Download.Command.{Command, Event, peer_joined, peer_left}
use p2p_file_distribution.Download.Assembly.{command}
use p2p_file_distribution.Download.Session.Shared.{write_shared}
use p2p_file_distribution.Download.Rates.{RateTracker}
use p2p_file_distribution.Download.Coordinator.State.{PeerInfo, Coordinator, Env, put_peer}
use p2p_file_distribution.Download.Coordinator.Handlers.{handle, tick}
use p2p_file_distribution.Download.Coordinator.Choke.{ChokeEnv, recalc_choke, rotate_optimistic}
use p2p_file_distribution.Download.Coordinator.Tasks.Reach.{mark_all}
use p2p_file_distribution.Download.Coordinator.State.{new_coordinator}
use p2p_file_distribution.Download.Worker.Loop.{
  Input, arrives, deadline, context_done, Turn, Phase, Output, turn,
}
use p2p_file_distribution.Download.Worker.{Opening, no_commands, introduce, is_over, events_of}

pub record Connection : Type 0 where
  pub addr : ℕ
  pub phase : Phase
  pub outbox : List Event

-- `orphaned` are the commands in the channels that the coordinator has let go of, with their address.
pub record System : Type 0 where
  pub coordinator : Coordinator
  pub connections : List Connection
  pub pending : List Event
  pub orphaned : List (ℕ × Command)

-- The commands come from the channel, everything else from outside.
abbrev pub is_command : Input → Bool
is_command (arrives (command cmd)) = true
is_command _ = false

-- Connection `k` after a turn, with what it has to tell the coordinator.
unfoldable pub proceeds : ℕ → ℕ → Phase × List Output → System → System
unfolding events_of
proceeds k addr next s = record s {
  connections =
      set s.connections k (record { addr = addr; phase = next.0; outbox = events_of next.1 });
}

-- A connection begins with PeerJoined.
unfoldable pub begins : ℕ → Phase × List Output → System → System
unfolding events_of
begins addr next s = record s {
  connections =
      s.connections
      ++ record {
        addr = addr;
        phase = next.0;
        outbox = peer_joined addr no_commands ∷ events_of next.1;
      }
        ∷ [];
}

-- The oldest event of connection `k` gets through.
unfoldable pub delivers : ℕ → Connection → Event → List Event → System → System
delivers k conn e rest s = record s {
  connections = set s.connections k (record conn { outbox = rest });
  pending = s.pending ++ e ∷ [];
}

tagged : ℕ → List Command → List (ℕ × Command)
tagged addr [] = []
tagged addr (cmd ∷ queue) = (addr, cmd) ∷ tagged addr queue

commands_of : ℕ → Option PeerInfo → List (ℕ × Command)
unfolding tagged
commands_of addr none = []
commands_of addr (some p) = tagged addr p.commands.queue

-- The coordinator lets go of the channel of a peer that leaves, or that joins again; the connection at its
-- other end may still take what is in it.
unfoldable pub left_behind : Event → Coordinator → List (ℕ × Command)
unfolding commands_of
left_behind (peer_joined addr channel) c = commands_of addr (Dict.lookup addr c.peers)
left_behind (peer_left addr) c = commands_of addr (Dict.lookup addr c.peers)
left_behind _ c = []

-- The oldest command leaves the channel of a peer.
unfoldable pub take_command : ℕ → PeerInfo → List Command → System → System
take_command addr p rest s = record s {
  coordinator =
      put_peer s.coordinator addr (record p { commands = record p.commands { queue = rest } });
}

module _ (sha1 : Bytes → Bytes) (piece_count : ℕ) where
  pub data Step : System → System → Type 0 where
    -- A connection begins, whether we dialled or accepted.
    joins :
        (s : System) (addr : ℕ) (o : Opening) (conn : Conn)
        → Step s (
            begins addr
              (introduce piece_count o o.have
                (record conn { peer_bitfield = empty_for piece_count }))
              s)
    -- A message, a timer or the end of the context.
    turns :
        (s : System) (k : ℕ) (conn : Connection) (t : Turn)
        → get_elem? s.connections k ≡ some conn
        → conn.outbox ≡ []
        → is_command t.input ≡ false
        → Step s (proceeds k conn.addr (turn sha1 conn.addr piece_count conn.phase t) s)
    -- A command of the coordinator. Of two connections to one address either may take it.
    obeys :
        (s : System) (k : ℕ) (conn : Connection) (t : Turn) (p : PeerInfo) (cmd : Command)
        (rest : List Command)
        → get_elem? s.connections k ≡ some conn
        → conn.outbox ≡ []
        → Dict.lookup conn.addr s.coordinator.peers ≡ some p
        → p.commands.queue ≡ cmd ∷ rest
        → t.input ≡ arrives (command cmd)
        → Step s (
            proceeds k conn.addr
              (turn sha1 conn.addr piece_count conn.phase t)
              (take_command conn.addr p rest s))
    -- A command from a channel that the coordinator has let go of.
    obeys_late :
        (s : System) (k j : ℕ) (conn : Connection) (t : Turn) (cmd : Command)
        → get_elem? s.connections k ≡ some conn
        → conn.outbox ≡ []
        → get_elem? s.orphaned j ≡ some (conn.addr, cmd)
        → t.input ≡ arrives (command cmd)
        → Step s (
            proceeds k conn.addr
              (turn sha1 conn.addr piece_count conn.phase t)
              (record s { orphaned = remove_at j s.orphaned }))
    -- An event gets through.
    sends :
        (s : System) (k : ℕ) (conn : Connection) (e : Event) (rest : List Event)
        → get_elem? s.connections k ≡ some conn
        → conn.outbox ≡ e ∷ rest
        → Step s (delivers k conn e rest s)
    -- A connection marks a piece on the bitfield that it shares with the coordinator.
    marks :
        (s : System) (addr index : ℕ)
        → Step s (record s { coordinator = write_shared addr index s.coordinator })
    -- A connection ends; `told` when PeerLeft still gets through.
    leaves :
        (s : System) (k : ℕ) (conn : Connection) (told : List Event)
        → get_elem? s.connections k ≡ some conn
        → conn.outbox ≡ []
        → is_over conn.phase ≡ true
        → (told ≡ []) ⊎ (told ≡ peer_left conn.addr ∷ [])
        → Step s (record s { connections = remove_at k s.connections; pending = s.pending ++ told })
    -- The coordinator takes an event, or a timer of its own fires.
    handles :
        (s : System) (env : Env) (e : Event) (rest : List Event) (c : Coordinator)
        → s.pending ≡ e ∷ rest
        → handle env e s.coordinator ≡ ok c
        → Step s (record s {
          coordinator = c;
          pending = rest;
          orphaned = s.orphaned ++ left_behind e s.coordinator;
        })
    ticks : (s : System) (env : Env) → Step s (record s { coordinator = tick env s.coordinator })
    rechokes :
        (s : System) (env : ChokeEnv)
        → Step s (record s { coordinator = recalc_choke env s.coordinator })
    rotates :
        (s : System) (env : ChokeEnv)
        → Step s (record s { coordinator = rotate_optimistic env s.coordinator })
    -- Bytes are counted.
    counts :
        (s : System) (rates : RateTracker)
        → Step s (record s { coordinator = record s.coordinator { rates = rates } })

  pub data IsReachable (piece_length total_length : ℕ) (hashes : List Bytes) : System → Type 0 where
    started :
        (done : List ℕ) (c : Coordinator)
        → mark_all done (new_coordinator piece_count piece_length total_length hashes) ≡ ok c
        → IsReachable piece_length total_length hashes
            (record { coordinator = c; connections = []; pending = []; orphaned = [] })
    stepped :
        {s s' : System}
        → IsReachable piece_length total_length hashes s
        → Step s s'
        → IsReachable piece_length total_length hashes s'
