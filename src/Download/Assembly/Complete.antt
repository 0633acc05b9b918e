-- ===== src/Download/Assembly/Complete.antt =====
-- What the loop of downloadBlocks returns.
use p2p_file_distribution.Base.{
  ℕ, zero, suc, ◌-◌, ◌/◌, ◌%◌, ◌<◌, leb, ◌==◌, if_elim, true, false, List, [], ◌∷◌, length,
  length-replicate, set, get_or, Result, ok, err, panic, ◌>>=◌, >>=-eq-ok, map_err, ◌≡◌, refl,
  arith, ap, sym, ◌∙◌,
}
use mathlib.Core.Path.{subst}
use p2p_file_distribution.Base.Int.{ℤ, pos, negsuc}
use p2p_file_distribution.Base.Bytes.{Bytes}
use p2p_file_distribution.Piece.Geometry
use p2p_file_distribution.Piece.Geometry.{block_size, block_count}
use p2p_file_distribution.Peer.Conn.{Conn}
use p2p_file_distribution.Download.Assembly
use p2p_file_distribution.Download.Assembly.{
  backlog_limit, next_unrequested_block, Failure, Peer, Work, Attempt, Input, copy_at, attempt_of,
  start, request_block, fill, store_block, on_block, on_choke, on_unchoke, on_other, on_message,
  applied, on_command, on_input, run, download_blocks,
}
use p2p_file_distribution.Download.Assembly.Counting.{
  missing_blocks, missing_blocks-replicate, length-replicate_zero, IsCounted, Keeps, fill-Keeps,
  on_input-Keeps,
}

-- An outcome of the loop: nothing is left to receive.
abbrev Finishes : ℕ → Result Failure Attempt → Type 0
Finishes size (ok a) =
    (missing_blocks a.received ≡ 0)
    × (block_count (pos 0) 1 size size ≡ ok (pos (length a.received)))
    × (length a.buf ≡ size)
Finishes size (err e) = Unit
Finishes size panic = Unit

finish_chain :
    (size : ℕ) (r : Result Failure Attempt) (f : Attempt → Result Failure Attempt)
    → Keeps size r
    → ((a : Attempt) → IsCounted size a → Finishes size (f a))
    → Finishes size (r >>= f)
finish_chain size (ok a) f h k = k a h
finish_chain size (err e) f h k = tt
finish_chain size panic f h k = tt

run-Finishes :
    (size : ℕ) (peer : Peer) (work : Work) (inputs : List Input) (a : Attempt)
    → IsCounted size a
    → Finishes size (run peer work inputs a)
unfolding run
run-Finishes size peer work [] a v =
    if_elim (Finishes size) (a.remaining == 0) (λ e. (ground (arith, v.count), v.slots, v.buffer))
      (λ _.
        finish_chain size (fill peer work backlog_limit a) _
          (fill-Keeps size peer work backlog_limit a v) (λ b _. tt))
run-Finishes size peer work (input ∷ inputs) a v =
    if_elim (Finishes size) (a.remaining == 0) (λ e. (ground (arith, v.count), v.slots, v.buffer))
      (λ _.
        finish_chain size (fill peer work backlog_limit a) _
          (fill-Keeps size peer work backlog_limit a v)
          (λ b w.
            finish_chain size (on_input peer work input b) _
              (on_input-Keeps size peer work input b w)
              (λ d x. run-Finishes size peer work inputs d x)))

attempt_of-Keeps :
    (conn : Conn) (len : ℕ) (blocks : ℤ)
    → block_count (pos 0) 1 len len ≡ ok blocks
    → Keeps len (attempt_of conn len blocks)
unfolding attempt_of
attempt_of-Keeps conn len (negsuc n) e = tt
attempt_of-Keeps conn len (pos blocks) e = record {
  count = sym (missing_blocks-replicate blocks);
  buffer = length-replicate_zero len;
  slots = e ∙ ap (λ (n : ℕ). ok (pos n)) (sym (length-replicate blocks false));
}

pub start-Keeps : (work : Work) (conn : Conn) → Keeps work.length (start work conn)
unfolding start
start-Keeps work conn = from (block_count (pos 0) 1 work.length work.length) refl
  where
    from :
        (r : Result Geometry.Error ℤ)
        → block_count (pos 0) 1 work.length work.length ≡ r
        → Keeps work.length (map_err Assembly.geometry r >>= attempt_of conn work.length)
    from (ok blocks) e = attempt_of-Keeps conn work.length blocks e
    from (err x) e = tt
    from panic e = tt

-- Whatever arrives in whatever order, `downloadBlocks` returns its buffer only when there is a mark for each of
-- the blocks that BlockCount counts in the piece, each of them is set, and the buffer has the length of the piece.
pub download_blocks-Finishes :
    (peer : Peer) (work : Work) (inputs : List Input) (conn : Conn) (content : Bytes)
    → download_blocks peer work inputs conn ≡ ok content
    → (a b : Attempt) × (start work conn ≡ ok a)
      × (run peer work inputs a ≡ ok b)
      × (missing_blocks b.received ≡ 0)
      × (block_count (pos 0) 1 work.length work.length ≡ ok (pos (length b.received)))
      × (content ≡ b.buf)
      × (length content ≡ work.length)
unfolding download_blocks
download_blocks-Finishes peer work inputs conn content h =
    let (a, begun, rest) = >>=-eq-ok (start work conn) _ h in
    let (b, ran, last) = >>=-eq-ok (run peer work inputs a) _ rest in
    let same : content ≡ b.buf = cc in
    let done = subst (Finishes work.length) ran (
      run-Finishes work.length peer work inputs a
        (subst (Keeps work.length) begun (start-Keeps work conn))) in
    (a, b, begun, ran, done.0, done.1, same, ap length same ∙ done.2)

copy_nothing : (offset : ℕ) (buf : Bytes) → copy_at offset [] buf ≡ buf
unfolding copy_at
copy_nothing offset [] = refl
copy_nothing zero (b ∷ buf) = refl
copy_nothing (suc offset) (b ∷ buf) = ap (λ (l : Bytes). b ∷ l) (copy_nothing offset buf)

-- A block that is the first for its slot is marked as received however few bytes it has: an empty one
-- leaves the buffer as it was.
pub empty_block_received :
    (work : Work) (begin : ℕ) (a : Attempt)
    → begin % block_size ≡ 0
    → begin / block_size < length a.received
    → get_or a.received (begin / block_size) false ≡ false
    → let b = on_block work (record { index = work.index; begin = begin; block = [] }) a in
      (b.buf ≡ a.buf)
      × (b.received ≡ set a.received (begin / block_size) true)
      × (b.remaining ≡ a.remaining - 1)
unfolding on_block store_block
empty_block_received work begin a aligned inside first =
    rw (eq_self work.index, aligned, outside begin (length a.received) inside, first)
      (copy_nothing begin a.buf, refl, refl)
  where
    eq_self : (k : ℕ) → (k == k) ≡ true
    eq_self k = ground arith

    outside : (n m : ℕ) → n / block_size < m → leb m (n / block_size) ≡ false
    outside n m h = ground arith
