-- ===== src/Download/Worker/Order.antt =====
-- The order of the events that a connection reports.
use p2p_file_distribution.Base.{
  ℕ, if◌then◌else◌, Bool, true, false, not, ◌&&◌, List, [], ◌∷◌, ◌++◌, ◌≡◌, refl, ap, ◌∙◌,
}
use p2p_file_distribution.Base.Bytes.{Bytes, All}
use p2p_file_distribution.Peer.Conn.{Conn}
use p2p_file_distribution.Download.Command.{
  assign_piece, cancel_piece, pause, shutdown, choke_peer, unchoke_peer, Event, peer_joined,
  bitfield_received, have_received, piece_downloaded, piece_failed, peer_ready, peer_left,
  interested_received, not_interested_received, choke_received, unchoke_received,
}
use p2p_file_distribution.Download.Worker.Loop.{
  Output, told, sent_bitfield, sent_have, sent_block, sent_interested, attempted, succeeded,
  connected, disconnected, bad_hash, recovered, Turn, Phase, idle, busy, ended, crashed, tell,
  arrives, deadline, context_done, Input,
}
use p2p_file_distribution.Download.Assembly.{message, command, messages_closed, commands_closed}
use p2p_file_distribution.Download.Worker.{
  Opening, no_commands, events_of, farewell, is_over, recovery, body, run_connection,
}
use p2p_file_distribution.Download.Worker.Speech.{Contract, AreAllowed, IsAllowedInput, IsSaid}
use p2p_file_distribution.Download.Worker.Speech.Turns.{body-StepOk}

-- A report of the connection `addr` between its PeerJoined and its PeerLeft.
abbrev pub IsReport : ℕ → Event → Type 0
IsReport addr (peer_joined a commands) = ⊥
IsReport addr (peer_left a) = ⊥
IsReport addr (bitfield_received a have) = a ≡ addr
IsReport addr (have_received a index) = a ≡ addr
IsReport addr (piece_downloaded a index content) = a ≡ addr
IsReport addr (piece_failed a index) = a ≡ addr
IsReport addr (peer_ready a) = a ≡ addr
IsReport addr (interested_received a) = a ≡ addr
IsReport addr (not_interested_received a) = a ≡ addr
IsReport addr (choke_received a) = a ≡ addr
IsReport addr (unchoke_received a) = a ≡ addr

events_of-append : (a b : List Output) → events_of (a ++ b) ≡ events_of a ++ events_of b
unfolding events_of
events_of-append [] b = refl
events_of-append (told event ∷ a) b = ap (λ (l : List Event). event ∷ l) (events_of-append a b)
events_of-append (attempted ∷ a) b = events_of-append a b
events_of-append (succeeded ∷ a) b = events_of-append a b
events_of-append (connected ∷ a) b = events_of-append a b
events_of-append (disconnected ∷ a) b = events_of-append a b
events_of-append (recovered ∷ a) b = events_of-append a b
events_of-append (bad_hash ∷ a) b = events_of-append a b
events_of-append (sent_interested ∷ a) b = events_of-append a b
events_of-append (sent_bitfield have ∷ a) b = events_of-append a b
events_of-append (sent_have index ∷ a) b = events_of-append a b
events_of-append (sent_block served ∷ a) b = events_of-append a b

pub events_of-All :
    {sha1 : Bytes → Bytes} {addr : ℕ} (k : Contract sha1 addr) (log : List Output)
    → All (IsSaid k) log
    → All k.Says (events_of log)
unfolding events_of
events_of-All k [] h = tt
events_of-All k (told event ∷ log) h = (h.0, events_of-All k log h.1)
events_of-All k (bad_hash ∷ log) h = events_of-All k log h.1
events_of-All k (sent_interested ∷ log) h = events_of-All k log h.1
events_of-All k (sent_bitfield have ∷ log) h = events_of-All k log h.1
events_of-All k (sent_have index ∷ log) h = events_of-All k log h.1
events_of-All k (sent_block served ∷ log) h = events_of-All k log h.1
events_of-All k (attempted ∷ log) h = absurd h.0
events_of-All k (succeeded ∷ log) h = absurd h.0
events_of-All k (connected ∷ log) h = absurd h.0
events_of-All k (disconnected ∷ log) h = absurd h.0
events_of-All k (recovered ∷ log) h = absurd h.0

module _ (sha1 : Bytes → Bytes) (addr : ℕ) where
  abbrev in_session : Contract sha1 addr
  in_session = record {
    Listed = λ index len hash. Unit {0};
    Says = IsReport addr;
    bitfield = λ have. refl;
    have = λ index. refl;
    failed = λ index. refl;
    ready = refl;
    interested = refl;
    not_interested = refl;
    choke = refl;
    unchoke = refl;
    piece = λ index len hash content l size e. refl;
  }

  all-AreAllowed : (ts : List Turn) → AreAllowed in_session ts
  all-AreAllowed [] = tt
  all-AreAllowed (t ∷ ts) = (any_input t.input, all-AreAllowed ts)
    where
      any_input : (input : Input) → IsAllowedInput in_session input
      any_input (arrives (message m)) = tt
      any_input (arrives (command (assign_piece index len hash))) = tt
      any_input (arrives (command (cancel_piece index))) = tt
      any_input (arrives (command pause)) = tt
      any_input (arrives (command shutdown)) = tt
      any_input (arrives (command choke_peer)) = tt
      any_input (arrives (command unchoke_peer)) = tt
      any_input (arrives messages_closed) = tt
      any_input (arrives commands_closed) = tt
      any_input deadline = tt
      any_input context_done = tt

  -- PeerLeft, once the loop is over, if it still reaches the coordinator.
  pub parting : Bool → Phase → List Event
  parting left s = if is_over s && left then peer_left addr ∷ [] else []

  events_of-farewell : (left : Bool) (s : Phase) → events_of (farewell addr left s) ≡ parting left s
  unfolding farewell is_over recovery tell events_of parting
  events_of-farewell left (idle conn) = refl
  events_of-farewell left (busy work hash a) = refl
  events_of-farewell true ended = refl
  events_of-farewell false ended = refl
  events_of-farewell true crashed = refl
  events_of-farewell false crashed = refl

  -- A session as the coordinator sees it: PeerJoined, reports of this connection, and PeerLeft.
  pub record IsSession (joined : Bool) (last : List Event) (events : List Event) : Type 0 where
    pub reports : List Event
    pub whole : events ≡ (if joined then peer_joined addr no_commands ∷ reports ++ last else [])
    pub between : All (IsReport addr) reports

  session-whole :
      (joined : Bool) (log : List Output) (left : Bool) (s : Phase)
      → events_of (
          connected
          ∷ (if not joined
              then disconnected ∷ []
              else told (peer_joined addr no_commands) ∷ log ++ farewell addr left s))
        ≡ (if joined then peer_joined addr no_commands ∷ events_of log ++ parting left s else [])
  unfolding events_of
  session-whole true log left s =
      ap (λ (l : List Event). peer_joined addr no_commands ∷ l)
        (events_of-append log (farewell addr left s)
          ∙ ap (λ (l : List Event). events_of log ++ l) (events_of-farewell left s))
  session-whole false log left s = refl

  -- Whatever happens on a connection, the coordinator hears nothing of it if PeerJoined does not get
  -- through; otherwise it hears PeerJoined first, then reports under the address of this connection, and
  -- last PeerLeft, when the loop is over and the event gets through, also after a panic.
  pub run_connection-IsSession :
      (pc : ℕ) (o : Opening) (ts : List Turn) (left : Bool) (conn : Conn)
      → IsSession o.joined
          (parting left (body sha1 addr pc o ts conn).0)
          (events_of (run_connection sha1 addr pc o ts left conn))
  unfolding run_connection events_of
  run_connection-IsSession pc o ts left conn =
      let ran = body sha1 addr pc o ts conn in
      let said = (body-StepOk sha1 addr pc in_session o ts conn (all-AreAllowed ts)).1 in
      record {
        reports = events_of ran.1;
        whole = session-whole o.joined ran.1 left ran.0;
        between = events_of-All in_session ran.1 said;
      }
