-- ===== src/Download/Session/Shared.antt =====
-- The bitfield that a connection reports is the very slice that it keeps, and that the coordinator then
-- keeps as the peer's: a later Have writes to both.
use p2p_file_distribution.Base.{ℕ, ◌<◌, ◌*◌, true, some, length, ok, ◌≡◌, refl, arith}
use p2p_file_distribution.Base.Int.{pos}
use p2p_file_distribution.Base.Bytes.{All, IsByte}
use p2p_file_distribution.Base.Dict
use p2p_file_distribution.Peer.Bitfield.{has_piece, set_piece}
use p2p_file_distribution.Peer.Bitfield.Laws.{has_piece-set_piece}
use p2p_file_distribution.Download.Coordinator.State.{Coordinator, Env, PeerInfo, put_peer}
use p2p_file_distribution.Download.Coordinator.Endgame.{with_peer}
use p2p_file_distribution.Download.Coordinator.Handlers.{handle_have_received}

-- `s.conn.PeerBitfield.SetPiece(h.Index)`, as the coordinator sees it when the slice is shared.
unfoldable pub write_shared : ℕ → ℕ → Coordinator → Coordinator
write_shared addr index c =
    with_peer addr c (λ p. put_peer c addr (record p { have = set_piece p.have (pos index) }))

ignored :
    (env : Env) (addr index : ℕ) (d : Coordinator) (q : PeerInfo)
    → Dict.lookup addr d.peers ≡ some q
    → has_piece q.have (pos index) ≡ true
    → handle_have_received env addr index d ≡ ok d
unfolding handle_have_received
ignored env addr index d q e h = rw (e, handle_have_received, h) refl

write_shared-eq :
    (addr index : ℕ) (c : Coordinator) (p : PeerInfo)
    → Dict.lookup addr c.peers ≡ some p
    → write_shared addr index c ≡ put_peer c addr (record p { have = set_piece p.have (pos index) })
unfolding write_shared
write_shared-eq addr index c p e = rw (e, with_peer) refl

-- After the connection's write to the shared slice, the event for the same Have changes nothing: the
-- piece is not counted into the availability, and the peer is not given work.
pub shared_have_ignored :
    (env : Env) (addr index : ℕ) (c : Coordinator) (p : PeerInfo)
    → Dict.lookup addr c.peers ≡ some p
    → All IsByte p.have
    → index < 8 * length p.have
    → handle_have_received env addr index (write_shared addr index c)
      ≡ ok (write_shared addr index c)
shared_have_ignored env addr index c p e bytes h =
    rw (write_shared-eq addr index c p e)
      (ignored env addr index (put_peer c addr q) q (there q) marked)
  where
    q : PeerInfo
    q = record p { have = set_piece p.have (pos index) }

    there : (r : PeerInfo) → Dict.lookup addr (Dict.put addr r c.peers) ≡ some r
    there r = ground (arith, Dict.lookup-put addr addr r c.peers)

    marked : has_piece q.have (pos index) ≡ true
    marked = ground (arith, has_piece-set_piece p.have bytes index index h)
