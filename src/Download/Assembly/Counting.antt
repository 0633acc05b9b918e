-- ===== src/Download/Assembly/Counting.antt =====
-- The accounting of blocks is kept by whatever the loop does.
use p2p_file_distribution.Base.{
  ℕ, zero, suc, ◌/◌, ◌%◌, ◌<◌, leb, ◌==◌, if_elim, Bool, inl, inr, true, false, not, ◌||◌, List, [],
  ◌∷◌, length, length-set, set, replicate, get_or, Option-cases, Result, ok, err, panic, ◌>>=◌,
  map_err, ◌≡◌, refl, arith, ap, ◌∙◌,
}
use p2p_file_distribution.Base.Int.{pos, eq_ℤ}
use p2p_file_distribution.Base.Bytes.{Bytes}
use p2p_file_distribution.Piece.Geometry.{block_size, block_bounds, block_count}
use p2p_file_distribution.Peer.MessageId
use p2p_file_distribution.Peer.Message.{Message}
use p2p_file_distribution.Peer.Payload.{PiecePayload, parse_piece}
use p2p_file_distribution.Download.Command.{Command}
use p2p_file_distribution.Peer.Conn.{Conn}
use p2p_file_distribution.Download.Session.{handle_message}
use p2p_file_distribution.Download.Assembly
use p2p_file_distribution.Download.Assembly.{
  backlog_limit, next_unrequested_block, Failure, Peer, Work, Attempt, Input, copy_at, attempt_of,
  start, request_block, fill, store_block, on_block, on_choke, on_unchoke, on_other, on_message,
  applied, on_command, on_input, run, download_blocks,
}

-- The number of blocks that have not been received.
unfoldable pub missing_blocks : List Bool → ℕ
missing_blocks [] = 0
missing_blocks (true ∷ received) = missing_blocks received
missing_blocks (false ∷ received) = suc (missing_blocks received)

-- `remaining` counts the blocks that have not been received, the buffer keeps its size, and there is one mark
-- for each block of a piece of that size.
pub record IsCounted (size : ℕ) (a : Attempt) : Type 0 where
  pub count : a.remaining ≡ missing_blocks a.received
  pub buffer : length a.buf ≡ size
  pub slots : block_count (pos 0) 1 size size ≡ ok (pos (length a.received))

missing_blocks-set :
    (received : List Bool) (i : ℕ)
    → i < length received
    → get_or received i false ≡ false
    → suc (missing_blocks (set received i true)) ≡ missing_blocks received
unfolding missing_blocks
missing_blocks-set [] i h e = absurd (omega (arith, h))
missing_blocks-set (true ∷ received) zero h e = cc
missing_blocks-set (false ∷ received) zero h e = refl
missing_blocks-set (true ∷ received) (suc i) h e =
    missing_blocks-set received i (omega (arith, h)) e
missing_blocks-set (false ∷ received) (suc i) h e =
    ap suc (missing_blocks-set received i (omega (arith, h)) e)

length-copy_at :
    (offset : ℕ) (content buf : Bytes) → length (copy_at offset content buf) ≡ length buf
unfolding copy_at
length-copy_at offset content [] = refl
length-copy_at zero [] (b ∷ buf) = refl
length-copy_at zero (c ∷ content) (b ∷ buf) = ap suc (length-copy_at zero content buf)
length-copy_at (suc offset) content (b ∷ buf) = ap suc (length-copy_at offset content buf)

pub missing_blocks-replicate : (n : ℕ) → missing_blocks (replicate n false) ≡ n
unfolding missing_blocks
missing_blocks-replicate zero = refl
missing_blocks-replicate (suc n) = ap suc (missing_blocks-replicate n)

pub length-replicate_zero : (n : ℕ) → length {A = ℕ} (replicate n 0) ≡ n
length-replicate_zero zero = refl
length-replicate_zero (suc n) = ap suc (length-replicate_zero n)

-- An outcome that keeps the accounting.
abbrev pub Keeps : ℕ → Result Failure Attempt → Type 0
Keeps size (ok a) = IsCounted size a
Keeps size (err e) = Unit
Keeps size panic = Unit

pub keep_chain :
    {A : Type 0} (size : ℕ) (r : Result Failure A) (f : A → Result Failure Attempt)
    → ((a : A) → Keeps size (f a))
    → Keeps size (r >>= f)
keep_chain size (ok a) f h = h a
keep_chain size (err e) f h = tt
keep_chain size panic f h = tt

then-Keeps :
    (size : ℕ) (r : Result Failure Attempt) (f : Attempt → Result Failure Attempt)
    → Keeps size r
    → ((a : Attempt) → IsCounted size a → Keeps size (f a))
    → Keeps size (r >>= f)
then-Keeps size (ok a) f h k = k a h
then-Keeps size (err e) f h k = tt
then-Keeps size panic f h k = tt

request_block-Keeps :
    (size : ℕ) (peer : Peer) (work : Work) (a : Attempt) (next : ℕ)
    → IsCounted size a
    → Keeps size (request_block peer work a next)
unfolding request_block
request_block-Keeps size peer work a next v =
    keep_chain size
      (map_err Assembly.geometry (block_bounds (pos 0) (pos next) 1 work.length work.length)) _
      (λ _.
        if_elim (Keeps size) peer.sent
          (λ _. record { count = v.count; buffer = v.buffer; slots = v.slots }) (λ _. tt))

pub fill-Keeps :
    (size : ℕ) (peer : Peer) (work : Work) (rounds : ℕ) (a : Attempt)
    → IsCounted size a
    → Keeps size (fill peer work rounds a)
unfolding fill
fill-Keeps size peer work zero a v = v
fill-Keeps size peer work (suc rounds) a v =
    if_elim (Keeps size) (a.conn.peer_choking || leb backlog_limit a.outstanding) (λ _. v)
      (λ _. elim (Option-cases (next_unrequested_block a.requested)) [
        | inl e ↦ rw e v
        | inr (next, e) ↦ rw e (
            then-Keeps size (request_block peer work a next) (fill peer work rounds)
              (request_block-Keeps size peer work a next v)
              (λ b. fill-Keeps size peer work rounds b))
      ])

store_block-IsCounted :
    (size : ℕ) (p : PiecePayload) (a : Attempt)
    → IsCounted size a
    → p.begin / block_size < length a.received
    → IsCounted size (store_block p a)
unfolding store_block
store_block-IsCounted size p a v h =
    if_elim (IsCounted size) (get_or a.received (p.begin / block_size) false)
      (λ _. record { count = v.count; buffer = v.buffer; slots = v.slots })
      (λ e. record {
        count = omega (arith, v.count, missing_blocks-set a.received (p.begin / block_size) h e);
        buffer = length-copy_at p.begin p.block a.buf ∙ v.buffer;
        slots = rw (length-set a.received (p.begin / block_size) true) v.slots;
      })

on_block-IsCounted :
    (size : ℕ) (work : Work) (p : PiecePayload) (a : Attempt)
    → IsCounted size a
    → IsCounted size (on_block work p a)
unfolding on_block
on_block-IsCounted size work p a v =
    if_elim (IsCounted size) (not (p.index == work.index)) (λ _. v)
      (λ _.
        if_elim (IsCounted size) (not (p.begin % block_size == 0)) (λ _. v)
          (λ _.
            if_elim (IsCounted size) (leb (length a.received) (p.begin / block_size)) (λ _. v)
              (λ e. store_block-IsCounted size p a v (ground arith))))

on_other-Keeps :
    (size : ℕ) (peer : Peer) (m : Message) (a : Attempt)
    → IsCounted size a
    → Keeps size (on_other peer m a)
unfolding on_other
on_other-Keeps size peer m a v =
    if_elim (Keeps size)
      (handle_message peer.addr peer.piece_count peer.seed peer.delivered peer.sent m a.conn).keep
      (λ _. record { count = v.count; buffer = v.buffer; slots = v.slots }) (λ _. tt)

on_message-Keeps :
    (size : ℕ) (peer : Peer) (work : Work) (m : Message) (a : Attempt)
    → IsCounted size a
    → Keeps size (on_message peer work m a)
unfolding on_message on_choke on_unchoke
on_message-Keeps size peer work m a v =
    if_elim (Keeps size) (eq_ℤ m.id MessageId.piece)
      (λ _.
        keep_chain size
          (map_err Assembly.payload (parse_piece m.payload peer.piece_count work.length)) _
          (λ p. on_block-IsCounted size work p a v))
      (λ _.
        if_elim (Keeps size) (eq_ℤ m.id MessageId.choke)
          (λ _.
            if_elim (Keeps size) peer.delivered
              (λ _. record { count = v.count; buffer = v.buffer; slots = v.slots }) (λ _. tt))
          (λ _.
            if_elim (Keeps size) (eq_ℤ m.id MessageId.unchoke)
              (λ _.
                if_elim (Keeps size) peer.delivered
                  (λ _. record { count = v.count; buffer = v.buffer; slots = v.slots }) (λ _. tt))
              (λ _. on_other-Keeps size peer m a v)))

applied-Keeps :
    (size : ℕ) (r : Conn × Bool) (a : Attempt) → IsCounted size a → Keeps size (applied r a)
unfolding applied
applied-Keeps size (conn, true) a v = record { count = v.count; buffer = v.buffer; slots = v.slots }
applied-Keeps size (conn, false) a v = tt

on_command-Keeps :
    (size : ℕ) (peer : Peer) (work : Work) (cmd : Command) (a : Attempt)
    → IsCounted size a
    → Keeps size (on_command peer work cmd a)
unfolding on_command
on_command-Keeps size peer work (Command.cancel_piece index) a v =
    if_elim (Keeps size) (index == work.index) (λ _. tt) (λ _. v)
on_command-Keeps size peer work Command.shutdown a v = tt
on_command-Keeps size peer work (Command.assign_piece index len hash) a v = applied-Keeps size _ a v
on_command-Keeps size peer work Command.pause a v = applied-Keeps size _ a v
on_command-Keeps size peer work Command.choke_peer a v = applied-Keeps size _ a v
on_command-Keeps size peer work Command.unchoke_peer a v = applied-Keeps size _ a v

pub on_input-Keeps :
    (size : ℕ) (peer : Peer) (work : Work) (input : Input) (a : Attempt)
    → IsCounted size a
    → Keeps size (on_input peer work input a)
unfolding on_input
on_input-Keeps size peer work (Input.message m) a v = on_message-Keeps size peer work m a v
on_input-Keeps size peer work (Input.command cmd) a v = on_command-Keeps size peer work cmd a v
on_input-Keeps size peer work Input.messages_closed a v = tt
on_input-Keeps size peer work Input.commands_closed a v = tt
