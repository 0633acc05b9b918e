-- ===== src/Download/Coordinator/Orders.antt =====
-- internal/download/coordinator.go and selection.go: an invariant of the commands in the channels and of
-- the results.
pub mod Assign
pub mod Run
use p2p_file_distribution.Base.{
  dec_lt, get_elem?-get_or, ℕ, ◌<◌, ◌==◌, if◌then◌else◌, if_elim, Bool, true, false, not, ◌||◌,
  List, [], ◌∷◌, ◌++◌, length, get_elem?, get_or, Option, none, some, Option-cases, Result-cases,
  inl, inr, Result, ok, err, panic, ◌≡◌, refl, sym, arith, ◌∙◌,
}
use mathlib.Core.Path.{subst}
use p2p_file_distribution.Base.Int.{pos}
use p2p_file_distribution.Base.Bytes.{Bytes, All}
use p2p_file_distribution.Base.Dict
use p2p_file_distribution.Base.Dict.{Dict}
use p2p_file_distribution.Piece.Geometry
use p2p_file_distribution.Piece.Geometry.Bounds.{IsGeometry, bytes_of, length-eq, length-out}
use p2p_file_distribution.Download.Command.{
  Command, assign_piece, cancel_piece, pause, shutdown, choke_peer, unchoke_peer, Channel, send,
  has_room,
}
use p2p_file_distribution.Download.Coordinator.State.{
  PeerInfo, PieceResult, Coordinator, Env, put_peer,
}
use p2p_file_distribution.Download.Coordinator.Selection.{
  send_assign_command, record_assigned, assign_piece_to,
}
use p2p_file_distribution.Download.Coordinator.Endgame.{with_peer}
use p2p_file_distribution.Download.Main.Loop.Verified.{IsVerified}

module _ {pc pl tl : ℕ} (g : IsGeometry pc pl tl) (hashes : List Bytes) where
  -- A piece as the torrent describes it.
  pub record IsListed (index len : ℕ) (hash : Bytes) : Type 0 where
    pub in_range : index < pc
    pub full : len ≡ bytes_of g index
    pub listed : get_elem? hashes index ≡ some hash

  abbrev pub IsOrder : Command → Type 0
  IsOrder (assign_piece index len hash) = IsListed index len hash
  IsOrder (cancel_piece index) = Unit {0}
  IsOrder pause = Unit {0}
  IsOrder shutdown = Unit {0}
  IsOrder choke_peer = Unit {0}
  IsOrder unchoke_peer = Unit {0}

  abbrev pub PeerOk : PeerInfo → Type 0
  PeerOk p = All IsOrder p.commands.queue

  abbrev pub SomeOk : Option PeerInfo → Type 0
  SomeOk none = Unit {0}
  SomeOk (some p) = PeerOk p

  send-All :
      (ch : Channel) (cmd : Command)
      → All IsOrder ch.queue
      → IsOrder cmd
      → All IsOrder (send ch cmd).queue
  unfolding send
  send-All ch cmd h o = snoc-All ch.queue h
    where
      snoc-All : (q : List Command) → All IsOrder q → All IsOrder (q ++ cmd ∷ [])
      snoc-All [] h = (o, tt)
      snoc-All (x ∷ q) h = (h.0, snoc-All q h.1)

  -- A length of the geometry is that of a piece.
  length-ok :
      (index len : ℕ)
      → Geometry.length (pos index) pc pl tl ≡ ok len
      → (index < pc) × (len ≡ bytes_of g index)
  length-ok index len e = elim (dec_lt index pc) [
    | yes h ↦ (h, ok-injective (sym e ∙ length-eq g index h))
    | no out ↦ absurd (err-not-ok (sym (length-out g index (omega (arith, out))) ∙ e))
  ]
    where
      ok-injective : {a b : ℕ} → ◌≡◌ {A = Result Geometry.Error ℕ} (ok a) (ok b) → a ≡ b
      ok-injective e = cc

      err-not-ok :
          {x : Geometry.Error} {a : ℕ} → ◌≡◌ {A = Result Geometry.Error ℕ} (err x) (ok a) → ⊥
      err-not-ok e = cc

  module _ (sha1 : Bytes → Bytes) where
    -- The numbers of the torrent, the commands that wait, and the results.
    pub record IsOrdered (n l t : ℕ) (hs : List Bytes) (peers : Dict PeerInfo)
        (results : List PieceResult) : Type 0 where
      pub pieces : n ≡ pc
      pub size : l ≡ pl
      pub total : t ≡ tl
      pub listed : hs ≡ hashes
      pub queues : (addr : ℕ) → SomeOk (Dict.lookup addr peers)
      pub verified : All (IsVerified sha1 g hashes) results

    abbrev pub Ordered : Coordinator → Type 0
    Ordered c =
        IsOrdered c.piece_count c.piece_length c.total_length c.piece_hashes c.peers c.results

    pub put-IsOrdered :
        {n l t : ℕ} {hs : List Bytes} {peers : Dict PeerInfo} {results : List PieceResult}
        (addr : ℕ) (p : PeerInfo)
        → IsOrdered n l t hs peers results
        → PeerOk p
        → IsOrdered n l t hs (Dict.put addr p peers) results
    put-IsOrdered {peers = peers} addr p v h = record {
      pieces = v.pieces;
      size = v.size;
      total = v.total;
      listed = v.listed;
      queues = λ a.
          subst SomeOk (sym (Dict.lookup-put addr a p peers))
            (if_elim SomeOk (addr == a) (λ _. h) (λ _. v.queues a));
      verified = v.verified;
    }

    pub remove-IsOrdered :
        {n l t : ℕ} {hs : List Bytes} {peers : Dict PeerInfo} {results : List PieceResult}
        (addr : ℕ)
        → IsOrdered n l t hs peers results
        → IsOrdered n l t hs (Dict.remove addr peers) results
    remove-IsOrdered {peers = peers} addr v = record {
      pieces = v.pieces;
      size = v.size;
      total = v.total;
      listed = v.listed;
      queues = λ a.
          subst SomeOk (sym (Dict.lookup-remove addr a peers))
            (if_elim SomeOk (addr == a) (λ _. tt) (λ _. v.queues a));
      verified = v.verified;
    }

    pub with_peer-Ordered :
        (addr : ℕ) (c : Coordinator) (f : PeerInfo → Coordinator)
        → Ordered c
        → ((p : PeerInfo) → PeerOk p → Ordered (f p))
        → Ordered (with_peer addr c f)
    with_peer-Ordered addr c f v h = elim (Option-cases (Dict.lookup addr c.peers)) [
      | inl e ↦ rw (e, with_peer) v
      | inr (p, e) ↦ rw (e, with_peer) (h p (subst SomeOk e (v.queues addr)))
    ]

    module _ (sized : length hashes ≡ pc) where
      order_of_length :
          (index len : ℕ) (c : Coordinator)
          → Ordered c
          → Geometry.length (pos index) c.piece_count c.piece_length c.total_length ≡ ok len
          → IsListed index len (get_or c.piece_hashes index [])
      order_of_length index len c v e =
          let e' : Geometry.length (pos index) pc pl tl ≡ ok len =
            rw (← v.pieces, ← v.size, ← v.total) e in
          let (inside, full) = length-ok index len e' in
          record {
            in_range = inside;
            full = full;
            listed = rw v.listed (get_elem?-get_or hashes index [] (omega (arith, inside, sized)));
          }

      -- An assignment takes the length and the hash of the torrent.
      pub assign_piece_to-Ordered :
          (env : Env) (addr : ℕ) (p : PeerInfo) (index : ℕ) (c : Coordinator)
          → Ordered c
          → PeerOk p
          → Ordered (assign_piece_to env addr p index c)
      unfolding assign_piece_to send_assign_command
      assign_piece_to-Ordered env addr p index c v h =
          elim (Result-cases
            (Geometry.length (pos index) c.piece_count c.piece_length c.total_length)) [
              | inl (len, e) ↦
                  let order = order_of_length index len c v e in
                  let queue =
                    send-All p.commands (assign_piece index len (get_or c.piece_hashes index [])) h
                      order in
                  rw (e, send_assign_command)
                    (if_elim
                      (λ (o : Option (PeerInfo × Coordinator)).
                        Ordered (record_assigned addr index c o))
                      (has_room p.commands)
                      (λ _. put-IsOrdered addr _ (put-IsOrdered addr _ v queue) queue) (λ _. v))
              | inr (inl (x, e)) ↦ rw (e, send_assign_command) v
              | inr (inr e) ↦ rw (e, send_assign_command) v
            ]
