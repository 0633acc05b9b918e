-- ===== src/Download/Worker/Speech/Turns.antt =====
-- The contract of a connection, kept over all its turns.
use p2p_file_distribution.Base.{
  ℕ, ltb, Bool, true, false, List, [], ◌∷◌, Option, none, some, Result, ok, err, panic, if_elim,
}
use p2p_file_distribution.Base.Int.{eq_ℤ}
use p2p_file_distribution.Base.Bytes.{Bytes, All}
use p2p_file_distribution.Peer.MessageId
use p2p_file_distribution.Peer.Message.{Message}
use p2p_file_distribution.Peer.Bitfield.{validate, empty_for}
use p2p_file_distribution.Peer.Payload.{parse_have}
use p2p_file_distribution.Peer.Conn.{Conn}
use p2p_file_distribution.Download.Command.{Event, choke_received, unchoke_received}
use p2p_file_distribution.Download.Have.{snapshot, count_have}
use p2p_file_distribution.Download.Serve.{Served, serve_request}
use p2p_file_distribution.Download.Session.{
  Seed, Reaction, handle_message, on_bitfield, on_have, on_request,
}
use p2p_file_distribution.Download.Assembly
use p2p_file_distribution.Download.Assembly.{
  Peer, Work, Attempt, Failure, message, command, messages_closed, commands_closed, backlog_limit,
  start, fill, on_input, cancelled, shut_down, timed_out, connection_closed, handler_closed,
  request_failed, geometry, payload,
}
use p2p_file_distribution.Download.Assembly.Counting.{on_input-Keeps}
use p2p_file_distribution.Download.Worker.Loop.{
  Output, sent_bitfield, Input, arrives, deadline, context_done, Turn, Phase, idle, busy, ended,
  crashed, block_of, event_of, reaction_log, heard, heard_input, peer_of, on_message, on_idle,
  on_busy, turn, turns,
}
use p2p_file_distribution.Download.Worker.{Opening, declare_interest, declare_need, introduce, body}
use p2p_file_distribution.Download.Worker.Speech.{
  append-All, Contract, IsAllowedInput, AreAllowed, IsSaid, PhaseOk, StepOk, tell-All,
  failed-StepOk, proceed-StepOk, on_command-StepOk,
}

module _ (sha1 : Bytes → Bytes) (addr pc : ℕ) (k : Contract sha1 addr) where
  -- What handleMessage reports.
  abbrev SomeSaid : Option Event → Type 0
  SomeSaid none = Unit {0}
  SomeSaid (some e) = k.Says e

  abbrev ReactionOk : Reaction → Type 0
  ReactionOk r = SomeSaid r.event

  either-ReactionOk :
      {E A : Type 0} (r : Result E A) (f : A → Reaction) (otherwise : Reaction)
      → ((a : A) → ReactionOk (f a))
      → ReactionOk otherwise
      → ReactionOk (elim r [ ok a ↦ f a | err _ ↦ otherwise | panic ↦ otherwise ])
  either-ReactionOk (ok a) f otherwise h d = h a
  either-ReactionOk (err e) f otherwise h d = d
  either-ReactionOk panic f otherwise h d = d

  on_bitfield-ReactionOk :
      (content : Bytes) (b : Bool) (conn : Conn) → ReactionOk (on_bitfield addr pc content b conn)
  unfolding on_bitfield
  on_bitfield-ReactionOk content b conn =
      either-ReactionOk (validate content pc) _ _ (λ _. k.bitfield content) tt

  on_have-ReactionOk :
      (content : Bytes) (b : Bool) (conn : Conn) → ReactionOk (on_have addr pc content b conn)
  unfolding on_have
  on_have-ReactionOk content b conn =
      either-ReactionOk (parse_have content pc) _ _ (λ h. k.have h.index) tt

  on_request-ReactionOk :
      (content : Bytes) (b : Bool) (seed : Option Seed) (conn : Conn)
      → ReactionOk (on_request pc content b seed conn)
  unfolding on_request
  on_request-ReactionOk content b none conn = tt
  on_request-ReactionOk content b (some seed) conn =
      either-ReactionOk
        (serve_request conn.am_choking seed.has content pc seed.piece_length seed.total_length
          seed.file b)
        _ _ (λ _. tt) tt

  handle_message-ReactionOk :
      (seed : Option Seed) (b c : Bool) (m : Message) (conn : Conn)
      → ReactionOk (handle_message addr pc seed b c m conn)
  unfolding handle_message
  handle_message-ReactionOk seed b c m conn =
      if_elim ReactionOk (eq_ℤ m.id MessageId.bitfield)
        (λ _. on_bitfield-ReactionOk m.payload b conn)
        (λ _.
          if_elim ReactionOk (eq_ℤ m.id MessageId.have) (λ _. on_have-ReactionOk m.payload b conn)
            (λ _.
              if_elim ReactionOk (eq_ℤ m.id MessageId.choke) (λ _. k.choke)
                (λ _.
                  if_elim ReactionOk (eq_ℤ m.id MessageId.unchoke) (λ _. k.unchoke)
                    (λ _.
                      if_elim ReactionOk (eq_ℤ m.id MessageId.interested) (λ _. k.interested)
                        (λ _.
                          if_elim ReactionOk (eq_ℤ m.id MessageId.not_interested)
                            (λ _. k.not_interested)
                            (λ _.
                              if_elim ReactionOk (eq_ℤ m.id MessageId.request)
                                (λ _. on_request-ReactionOk m.payload c seed conn) (λ _. tt)))))))

  event_of-All : (b : Bool) (o : Option Event) → SomeSaid o → All (IsSaid k) (event_of b o)
  unfolding event_of
  event_of-All b none h = tt
  event_of-All true (some e) h = (h, tt)
  event_of-All false (some e) h = tt

  block_of-All : (o : Option Served) → All (IsSaid k) (block_of o)
  unfolding block_of
  block_of-All none = tt
  block_of-All (some served) = (tt, tt)

  reaction_log-All : (r : Reaction) → ReactionOk r → All (IsSaid k) (reaction_log r)
  unfolding reaction_log
  reaction_log-All r h =
      append-All (IsSaid k) (event_of r.keep r.event) (block_of r.served)
        (event_of-All r.keep r.event h) (block_of-All r.served)

  on_message-StepOk :
      (t : Turn) (m : Message) (conn : Conn) → StepOk k (on_message sha1 addr pc t m conn)
  unfolding on_message
  on_message-StepOk t m conn =
      let r = handle_message addr pc t.seed t.delivered t.sent m conn in
      (
        if_elim (PhaseOk k) r.keep (λ _. tt) (λ _. tt),
        reaction_log-All r (handle_message-ReactionOk t.seed t.delivered t.sent m conn),
      )

  on_idle-StepOk :
      (t : Turn) (input : Input) (conn : Conn)
      → IsAllowedInput k input
      → StepOk k (on_idle sha1 addr pc t input conn)
  unfolding on_idle
  on_idle-StepOk t (arrives (message m)) conn l = on_message-StepOk t m conn
  on_idle-StepOk t (arrives (command cmd)) conn l = on_command-StepOk sha1 addr pc k t cmd conn l
  on_idle-StepOk t (arrives messages_closed) conn l = (tt, tt)
  on_idle-StepOk t (arrives commands_closed) conn l = (tt, tt)
  on_idle-StepOk t deadline conn l = (tt, tt)
  on_idle-StepOk t context_done conn l = (tt, tt)

  heard-All :
      (t : Turn) (m : Message) (conn : Conn) → All (IsSaid k) (heard (peer_of addr pc t) m conn)
  unfolding heard peer_of
  heard-All t m conn =
      if_elim (All (IsSaid k)) (eq_ℤ m.id MessageId.piece) (λ _. tt)
        (λ _.
          if_elim (All (IsSaid k)) (eq_ℤ m.id MessageId.choke)
            (λ _. tell-All sha1 addr pc k t.delivered (choke_received addr) k.choke)
            (λ _.
              if_elim (All (IsSaid k)) (eq_ℤ m.id MessageId.unchoke)
                (λ _. tell-All sha1 addr pc k t.delivered (unchoke_received addr) k.unchoke)
                (λ _.
                  reaction_log-All (handle_message addr pc t.seed t.delivered t.sent m conn)
                    (handle_message-ReactionOk t.seed t.delivered t.sent m conn))))

  heard_input-All :
      (t : Turn) (input : Assembly.Input) (conn : Conn)
      → All (IsSaid k) (heard_input (peer_of addr pc t) input conn)
  unfolding heard_input
  heard_input-All t (message m) conn = heard-All t m conn
  heard_input-All t (command cmd) conn = tt
  heard_input-All t messages_closed conn = tt
  heard_input-All t commands_closed conn = tt

  on_busy-StepOk :
      (t : Turn) (work : Work) (hash : Bytes) (a : Attempt) (input : Input)
      → PhaseOk k (busy work hash a)
      → StepOk k (on_busy sha1 addr pc t work hash a input)
  unfolding on_busy
  on_busy-StepOk t work hash a (arrives input) (l, c) =
      let peer = peer_of addr pc t in
      let next =
        proceed-StepOk sha1 addr pc k t work hash a.conn (on_input peer work input a) l
          (on_input-Keeps work.length peer work input a c) in
      (
        next.0,
        append-All (IsSaid k) (heard_input peer input a.conn) _ (heard_input-All t input a.conn)
            next.1,
      )
  on_busy-StepOk t work hash a deadline (l, c) =
      failed-StepOk sha1 addr pc k t work timed_out a.conn
  on_busy-StepOk t work hash a context_done (l, c) = ((l, c), tt)

  pub turn-StepOk :
      (s : Phase) (t : Turn)
      → PhaseOk k s
      → IsAllowedInput k t.input
      → StepOk k (turn sha1 addr pc s t)
  unfolding turn
  turn-StepOk (idle conn) t h l = on_idle-StepOk t t.input conn l
  turn-StepOk (busy work hash a) t h l = on_busy-StepOk t work hash a t.input h
  turn-StepOk ended t h l = (tt, tt)
  turn-StepOk crashed t h l = (tt, tt)

  pub turns-StepOk :
      (s : Phase) (ts : List Turn)
      → PhaseOk k s
      → AreAllowed k ts
      → StepOk k (turns sha1 addr pc s ts)
  unfolding turns
  turns-StepOk s [] h l = (h, tt)
  turns-StepOk s (t ∷ ts) h l =
      let now = turn-StepOk s t h l.0 in
      let later = turns-StepOk (turn sha1 addr pc s t).0 ts now.0 l.1 in
      (later.0, append-All (IsSaid k) (turn sha1 addr pc s t).1 _ now.1 later.1)

  declare_interest-StepOk :
      (o : Opening) (conn : Conn) (before : List Output)
      → All (IsSaid k) before
      → StepOk k (declare_interest o conn before)
  unfolding declare_interest
  declare_interest-StepOk o conn before h =
      if_elim (StepOk k) o.interest_sent (λ _. (tt, append-All (IsSaid k) before _ h (tt, tt)))
        (λ _. (tt, h))

  declare_need-StepOk :
      (o : Opening) (have : Bytes) (conn : Conn) (before : List Output)
      → All (IsSaid k) before
      → StepOk k (declare_need pc o have conn before)
  unfolding declare_need
  declare_need-StepOk o have conn before h =
      if_elim (StepOk k) (ltb (count_have have) pc) (λ _. declare_interest-StepOk o conn before h)
        (λ _. (tt, h))

  pub introduce-StepOk :
      (o : Opening) (have : Option Bytes) (conn : Conn) → StepOk k (introduce pc o have conn)
  unfolding introduce
  introduce-StepOk o none conn = declare_interest-StepOk o conn [] tt
  introduce-StepOk o (some have) conn =
      if_elim (StepOk k) (ltb 0 (count_have have))
        (λ _.
          if_elim (StepOk k) o.bitfield_sent
            (λ _. declare_need-StepOk o have conn (sent_bitfield (snapshot have) ∷ []) (tt, tt))
            (λ _. (tt, tt)))
        (λ _. declare_need-StepOk o have conn [] tt)

  pub body-StepOk :
      (o : Opening) (ts : List Turn) (conn : Conn)
      → AreAllowed k ts
      → StepOk k (body sha1 addr pc o ts conn)
  unfolding body
  body-StepOk o ts conn l =
      let conn' : Conn = record conn { peer_bitfield = empty_for pc } in
      let first = introduce-StepOk o o.have conn' in
      let rest = turns-StepOk (introduce pc o o.have conn').0 ts first.0 l in
      (rest.0, append-All (IsSaid k) (introduce pc o o.have conn').1 _ first.1 rest.1)
