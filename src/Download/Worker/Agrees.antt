-- ===== src/Download/Worker/Agrees.antt =====
-- The machine of Worker/Loop against downloadBlocks as one function, in Download/Assembly.
use p2p_file_distribution.Base.{
  ℕ, ◌==◌, if◌then◌else◌, true, false, List, [], ◌∷◌, ◌++◌, map, append-nil, append_assoc, Result,
  ok, err, ◌>>=◌, >>=-eq-ok, Bool-cases, inl, inr, ◌≡◌, refl, sym, ap, ◌∙◌,
}
use mathlib.Core.Path.{subst}
use p2p_file_distribution.Base.Bytes.{Bytes}
use p2p_file_distribution.Piece.Verify.{verify}
use p2p_file_distribution.Peer.Conn.{Conn}
use p2p_file_distribution.Download.Command.{assign_piece, piece_downloaded, peer_ready}
use p2p_file_distribution.Download.Assembly
use p2p_file_distribution.Download.Assembly.{
  Peer, Work, Attempt, Failure, timed_out, command, backlog_limit, start, fill, on_input, run,
  download_blocks,
}
use p2p_file_distribution.Download.Worker.Loop.{
  Output, told, sent_have, tell, on_idle, on_command, assign, arrives, Turn, Phase, idle, busy,
  peer_of, heard_input, tested, waits, proceed, failed, give_up, downloaded, ready_for_more, turn,
  turns, on_busy,
}

-- A turn that brings this input, the sends as in `t`.
abbrev pub bring : Turn → Assembly.Input → Turn
bring t input = record t { input = arrives input }

module _ (sha1 : Bytes → Bytes) (addr pc : ℕ) (t : Turn) (work : Work) (hash : Bytes) where
  abbrev peer : Peer
  peer = peer_of addr pc t

  -- What the machine does when the blocks are all there.
  abbrev end_of : Attempt → Phase × List Output
  end_of b = tested sha1 addr pc t work b.buf b.conn (verify sha1 b.buf hash)

  abbrev machine : Attempt → List Assembly.Input → Phase × List Output
  machine a used =
      let first = proceed sha1 addr pc t work hash a.conn (ok a) in
      let rest = turns sha1 addr pc first.0 (map (bring t) used) in (rest.0, first.1 ++ rest.1)

  record Reaches (a b : Attempt) (inputs : List Assembly.Input) : Type 0 where
    used : List Assembly.Input
    rest : List Assembly.Input
    split : inputs ≡ used ++ rest
    front : List Output
    phase : (machine a used).0 ≡ (end_of b).0
    log : (machine a used).1 ≡ front ++ (end_of b).1

  finished :
      (a : Attempt) (inputs : List Assembly.Input) → (a.remaining == 0) ≡ true → Reaches a a inputs
  unfolding turns proceed
  finished a inputs e = record {
    used = [];
    rest = inputs;
    split = refl;
    front = [];
    phase = rw e refl;
    log = rw e (append-nil (end_of a).1);
  }

  -- Only what is sent matters, not the input of the turn.
  proceed-bring :
      (i : Assembly.Input) (conn : Conn) (a : Attempt)
      → proceed sha1 addr pc (bring t i) work hash conn (ok a)
        ≡ proceed sha1 addr pc t work hash a.conn (ok a)
  unfolding proceed waits failed tested give_up downloaded ready_for_more peer_of
  proceed-bring i conn a = refl

  proceed-busy :
      (a a' : Attempt)
      → (a.remaining == 0) ≡ false
      → fill peer work backlog_limit a ≡ ok a'
      → proceed sha1 addr pc t work hash a.conn (ok a) ≡ (busy work hash a', [])
  unfolding proceed
  proceed-busy a a' more filled = rw (more, filled, waits) refl

  turn-busy :
      (a' a'' : Attempt) (i : Assembly.Input)
      → on_input peer work i a' ≡ ok a''
      → turn sha1 addr pc (busy work hash a') (bring t i) ≡ (
          let next = proceed sha1 addr pc t work hash a''.conn (ok a'') in
          (next.0, heard_input peer i a'.conn ++ next.1))
  unfolding turn on_busy peer_of
  turn-busy a' a'' i handled =
      ap
        (λ (r : Result Failure Attempt).
          let next = proceed sha1 addr pc (bring t i) work hash a'.conn r in
          (next.0, heard_input peer i a'.conn ++ next.1))
        handled
      ∙ ap (λ (next : Phase × List Output). (next.0, heard_input peer i a'.conn ++ next.1))
          (proceed-bring i a'.conn a'')

  machine-step :
      (a a' a'' : Attempt) (i : Assembly.Input) (used : List Assembly.Input)
      → (a.remaining == 0) ≡ false
      → fill peer work backlog_limit a ≡ ok a'
      → on_input peer work i a' ≡ ok a''
      → machine a (i ∷ used)
        ≡ ((machine a'' used).0, heard_input peer i a'.conn ++ (machine a'' used).1)
  unfolding turns
  machine-step a a' a'' i used more filled handled =
      let next = proceed sha1 addr pc t work hash a''.conn (ok a'') in
      let later = turns sha1 addr pc next.0 (map (bring t) used) in
      ap
        (λ (first : Phase × List Output).
          let rest = turns sha1 addr pc first.0 (map (bring t) (i ∷ used)) in
          (rest.0, first.1 ++ rest.1))
        (proceed-busy a a' more filled)
      ∙ (ap
            (λ (now : Phase × List Output).
              let rest = turns sha1 addr pc now.0 (map (bring t) used) in (rest.0, now.1 ++ rest.1))
            (turn-busy a' a'' i handled)
          ∙ ap (λ (l : List Output). (later.0, l))
              (append_assoc (heard_input peer i a'.conn) next.1 later.1))

  advance :
      (a a' a'' b : Attempt) (i : Assembly.Input) (inputs : List Assembly.Input)
      → (a.remaining == 0) ≡ false
      → fill peer work backlog_limit a ≡ ok a'
      → on_input peer work i a' ≡ ok a''
      → Reaches a'' b inputs
      → Reaches a b (i ∷ inputs)
  advance a a' a'' b i inputs more filled handled r = record {
    used = i ∷ r.used;
    rest = r.rest;
    split = ap (λ (l : List Assembly.Input). i ∷ l) r.split;
    front = heard_input peer i a'.conn ++ r.front;
    phase =
        ap (λ (q : Phase × List Output). q.0) (machine-step a a' a'' i r.used more filled handled)
        ∙ r.phase;
    log =
        ap (λ (q : Phase × List Output). q.1) (machine-step a a' a'' i r.used more filled handled)
        ∙ (ap (λ (l : List Output). heard_input peer i a'.conn ++ l) r.log
            ∙ sym (append_assoc (heard_input peer i a'.conn) r.front (end_of b).1));
  }

  ok-injective : {a b : Attempt} → ◌≡◌ {A = Result Failure Attempt} (ok a) (ok b) → a ≡ b
  ok-injective e = cc

  run-Reaches :
      (inputs : List Assembly.Input) (a b : Attempt)
      → run peer work inputs a ≡ ok b
      → Reaches a b inputs
  unfolding run
  run-Reaches [] a b e = elim (Bool-cases (a.remaining == 0)) [
    | inl done ↦
        let e' : ◌≡◌ {A = Result Failure Attempt} (ok a) (ok b) = rw done at e in
        subst (λ b. Reaches a b []) (ok-injective e') (finished a [] done)
    | inr more ↦
        let e' : (fill peer work backlog_limit a >>= (λ b. err timed_out)) ≡ ok b = rw more at e in
        let (_, _, never) = >>=-eq-ok (fill peer work backlog_limit a) _ e' in cc
  ]
  run-Reaches (i ∷ inputs) a b e = elim (Bool-cases (a.remaining == 0)) [
    | inl done ↦
        let e' : ◌≡◌ {A = Result Failure Attempt} (ok a) (ok b) = rw done at e in
        subst (λ b. Reaches a b (i ∷ inputs)) (ok-injective e') (finished a (i ∷ inputs) done)
    | inr more ↦
        let e' : (fill peer work backlog_limit a
              >>= (λ b. on_input peer work i b >>= run peer work inputs))
            ≡ ok b =
          rw more at e in
        let (a', filled, next) = >>=-eq-ok (fill peer work backlog_limit a) _ e' in
        let (a'', handled, last) =
          >>=-eq-ok (on_input peer work i a') (run peer work inputs) next in
        advance a a' a'' b i inputs more filled handled (run-Reaches inputs a'' b last)
  ]

  abbrev order : Assembly.Input
  order = command (assign_piece work.index work.length hash)

  abbrev reports : Bytes → List Output
  reports content = told (piece_downloaded addr work.index content) ∷ told (peer_ready addr) ∷ []

  -- A connection that is given the piece, and then the inputs that it uses.
  abbrev given : Conn → List Assembly.Input → Phase × List Output
  given conn used = turns sha1 addr pc (idle conn) (map (bring t) (order ∷ used))

  given-machine :
      (conn : Conn) (a : Attempt) (used : List Assembly.Input)
      → start work conn ≡ ok a
      → given conn used ≡ machine a used
  unfolding turns turn on_idle on_command assign
  given-machine conn a used begun =
      ap
        (λ (r : Result Failure Attempt).
          let first = proceed sha1 addr pc (bring t order) work hash conn r in
          let rest = turns sha1 addr pc first.0 (map (bring t) used) in (rest.0, first.1 ++ rest.1))
        begun
      ∙ ap
          (λ (first : Phase × List Output).
            let rest = turns sha1 addr pc first.0 (map (bring t) used) in
            (rest.0, first.1 ++ rest.1))
          (proceed-bring order conn a)

  abbrev have_sent : List Output
  have_sent = if t.sent then sent_have work.index ∷ [] else []

  end-reports :
      (b : Attempt)
      → verify sha1 b.buf hash ≡ ok true
      → t.delivered ≡ true
      → t.ready ≡ true
      → end_of b ≡ (idle b.conn, have_sent ++ reports b.buf)
  unfolding tested downloaded ready_for_more tell
  end-reports b right delivered ready = rw (right, delivered, ready) refl

  pub record Hands (conn : Conn) (inputs : List Assembly.Input) (content : Bytes) : Type 0 where
    pub used : List Assembly.Input
    pub rest : List Assembly.Input
    pub split : inputs ≡ used ++ rest
    pub left : Conn
    pub phase : (given conn used).0 ≡ idle left
    pub front : List Output
    pub log : (given conn used).1 ≡ front ++ reports content

  -- When downloadBlocks, run on these inputs, gives bytes with the right hash, and events get through, then
  -- a connection that waits for work and is given this piece uses a part of these inputs and waits for
  -- work again, and the last things that it tells the coordinator are these bytes and that it is ready.
  pub turns-download_blocks :
      (inputs : List Assembly.Input) (conn : Conn) (content : Bytes)
      → t.delivered ≡ true
      → t.ready ≡ true
      → download_blocks peer work inputs conn ≡ ok content
      → verify sha1 content hash ≡ ok true
      → Hands conn inputs content
  unfolding download_blocks
  turns-download_blocks inputs conn content delivered ready e right =
      let (a, begun, rest) = >>=-eq-ok (start work conn) _ e in
      let (b, ran, last) = >>=-eq-ok (run peer work inputs a) _ rest in
      let r = run-Reaches inputs a b ran in
      let same : b.buf ≡ content = cc in
      let start_to_end = given-machine conn a r.used begun in
      let at_end = end-reports b (rw same right) delivered ready in
      record {
        used = r.used;
        rest = r.rest;
        split = r.split;
        left = b.conn;
        phase =
            ap (λ (q : Phase × List Output). q.0) start_to_end
            ∙ (r.phase ∙ ap (λ (q : Phase × List Output). q.0) at_end);
        front = r.front ++ have_sent;
        log =
            ap (λ (q : Phase × List Output). q.1) start_to_end
            ∙ (r.log
                ∙ (ap (λ (q : Phase × List Output). r.front ++ q.1) at_end
                    ∙ (ap (λ (c : Bytes). r.front ++ (have_sent ++ reports c)) same
                        ∙ sym (append_assoc r.front have_sent (reports content)))));
      }
