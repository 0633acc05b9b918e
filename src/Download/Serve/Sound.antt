-- ===== src/Download/Serve/Sound.antt =====
-- What a served block is.
use p2p_file_distribution.Base.{
  ℕ, ◌+◌, ◌*◌, ◌<◌, ◌≤◌, ltb, ◌==◌, if◌then◌else◌, Bool, Bool-cases, inl, inr, true, false, not,
  length, take, drop, length-take, length-drop, Option, some, Result, ok, err, panic, >>=-eq-ok,
  map_err, ◌≡◌, refl, arith, sym, ap, ◌∙◌,
}
use mathlib.Core.Path.{subst}
use p2p_file_distribution.Base.Int.{pos}
use p2p_file_distribution.Base.Bytes.{Bytes, All, IsByte, be_u32}
use p2p_file_distribution.Piece.Geometry
use p2p_file_distribution.Piece.Geometry.Bounds.{IsGeometry, bytes_of, length-eq, last_starts}
use p2p_file_distribution.Peer.Payload.{RequestPayload, parse_request}
use p2p_file_distribution.Peer.Payload.RoundTrip.{parse_request_sound}
use p2p_file_distribution.Storage.Pieces.{read_block-inside}
use p2p_file_distribution.Download.Serve
use p2p_file_distribution.Download.Serve.{
  Error, Served, max_incoming_request_size, read_requested, serve_block, serve_index, serve_request,
}

-- The block lies in a piece that we have, is not too long, and holds the bytes of the file there.
pub record IsServed (pc pl tl piece_bytes : ℕ) (file : Bytes) (s : Served) : Type 0 where
  pub inside : s.begin + length s.block ≤ piece_bytes
  pub short : length s.block ≤ max_incoming_request_size
  pub bytes : s.block ≡ take (length s.block) (drop (s.index * pl + s.begin) file)

map_err-eq-ok :
    {E F A : Type 0} (f : E → F) (m : Result E A) (a : A) → map_err f m ≡ ok a → m ≡ ok a
map_err-eq-ok f (ok b) a h = cc
map_err-eq-ok f (err e) a h = cc
map_err-eq-ok f panic a h = cc

sent-eq :
    (sent : Bool) (r s : Served)
    → ◌≡◌ {A = Result Error (Option Served)}
        (if sent then ok (some r) else err Serve.send_failed)
        (ok (some s))
    → r ≡ s
sent-eq true r s e = cc
sent-eq false r s e = cc

-- What the tests of `serveRequest` let through.
accepted :
    (am_choking : Bool) (has : ℕ → Bool) (content : Bytes) (pc pl tl : ℕ) (file : Bytes)
    (sent : Bool) (index : ℕ) (s : Served)
    → serve_index am_choking has content pc pl tl file sent index ≡ ok (some s)
    → (am_choking ≡ false)
      × (index < pc)
      × (has index ≡ true)
      × (serve_block index content pc pl tl file sent ≡ ok (some s))
unfolding serve_index
accepted am_choking has content pc pl tl file sent index s e =
    (ground arith, ground arith, ground arith, ground arith)

module _ {pc pl tl : ℕ} (g : IsGeometry pc pl tl) (file : Bytes) (size : length file ≡ tl) where
  read_requested-eq :
      (index : ℕ) (req : RequestPayload) (block : Bytes)
      → index < pc
      → req.begin + req.length ≤ bytes_of g index
      → read_requested index req pc pl tl file ≡ ok block
      → (req.length ≤ max_incoming_request_size)
        × (block ≡ take req.length (drop (index * pl + req.begin) file))
  unfolding read_requested
  read_requested-eq index req block h inside e =
      elim (Bool-cases (ltb max_incoming_request_size req.length)) [
        | inl long ↦ let e' = rw (long, read_requested) at e in cc
        | inr short ↦
            let e' =
              rw
                (
                  short,
                  read_requested,
                  read_block-inside g index req.begin req.length file h size inside,
                )
                at e in
            (ground arith, cc)
      ]

  length-block :
      (index begin len : ℕ)
      → index < pc
      → begin + len ≤ bytes_of g index
      → length (take len (drop (index * pl + begin) file)) ≡ len
  length-block index begin len h inside =
      length-take len (drop (index * pl + begin) file)
      ∙ omega (arith, length-drop (index * pl + begin) file, size, last_starts g index h, inside)

  serve_block-IsServed :
      (index : ℕ) (content : Bytes) (sent : Bool) (s : Served)
      → All IsByte content
      → index < pc
      → serve_block index content pc pl tl file sent ≡ ok (some s)
      → (s.index ≡ index) × IsServed pc pl tl (bytes_of g index) file s
  unfolding serve_block
  serve_block-IsServed index content sent s bytes h e =
      let (len, e_len, e1) =
        >>=-eq-ok (map_err Serve.geometry (Geometry.length (pos index) pc pl tl)) _ e in
      let (req, e_req, e2) =
        >>=-eq-ok (map_err Serve.payload (parse_request content pc len)) _ e1 in
      let (block, e_block, e3) = >>=-eq-ok (read_requested index req pc pl tl file) _ e2 in
      let same : len ≡ bytes_of g index = cc (map_err-eq-ok _ _ len e_len, length-eq g index h) in
      let inside : req.begin + req.length ≤ bytes_of g index =
        subst (λ (n : ℕ). req.begin + req.length ≤ n) same
          ((parse_request_sound content pc len req bytes (map_err-eq-ok _ _ req e_req)).0.end_ok) in
      let (short, content_eq) = read_requested-eq index req block h inside e_block in
      let count : length block ≡ req.length =
        ap length content_eq ∙ length-block index req.begin req.length h inside in
      subst (λ (r : Served). (r.index ≡ index) × IsServed pc pl tl (bytes_of g index) file r)
        (sent-eq sent (record { index = index; begin = req.begin; block = block }) s e3)
        (
          refl,
          record {
            inside = omega (arith, count, inside);
            short = omega (arith, count, short);
            bytes =
                content_eq
                ∙ ap (λ (n : ℕ). take n (drop (index * pl + req.begin) file)) (sym count);
          },
        )

  -- A block that `serveRequest` sends to a peer belongs to a piece that we have, the peer is not choked,
  -- the block lies in its piece and within the size cap, and it holds the bytes that the file has there.
  pub serve_request-IsServed :
      (am_choking : Bool) (has : ℕ → Bool) (content : Bytes) (sent : Bool) (s : Served)
      → All IsByte content
      → serve_request am_choking has content pc pl tl file sent ≡ ok (some s)
      → (am_choking ≡ false)
        × (s.index < pc)
        × (has s.index ≡ true)
        × IsServed pc pl tl (bytes_of g s.index) file s
  unfolding serve_request
  serve_request-IsServed am_choking has content sent s bytes e =
      elim (Bool-cases (not (length content == 12))) [
        | inl bad ↦ let e' = rw (bad, serve_request) at e in cc
        | inr good ↦
            let e' = rw (good, serve_request) at e in
            let (index, _, e1) = >>=-eq-ok (be_u32 (take 4 content)) _ e' in index_served index e1
      ]
    where
      index_served :
          (index : ℕ)
          → serve_index am_choking has content pc pl tl file sent index ≡ ok (some s)
          → (am_choking ≡ false)
            × (s.index < pc)
            × (has s.index ≡ true)
            × IsServed pc pl tl (bytes_of g s.index) file s
      index_served index e =
          let (unchoked, below, have, served) =
            accepted am_choking has content pc pl tl file sent index s e in
          let (same, good) = serve_block-IsServed index content sent s bytes below served in
          (
            unchoked,
            subst (λ (i : ℕ). i < pc) (sym same) below,
            subst (λ (i : ℕ). has i ≡ true) (sym same) have,
            subst (λ (i : ℕ). IsServed pc pl tl (bytes_of g i) file s) (sym same) good,
          )
