-- ===== src/Peer/Connect/Tests.antt =====
-- Two clients with ids of twenty ones and twenty twos.
use p2p_file_distribution.Base.{[], ◌∷◌, ◌++◌, replicate, ok, ◌≡◌, refl}
use p2p_file_distribution.Base.Bytes.{Bytes}
use p2p_file_distribution.Peer.Handshake.{serialize}
use p2p_file_distribution.Peer.Conn.{new_conn}
use p2p_file_distribution.Peer.Connect.{handshake_over, accept, ours}
use p2p_file_distribution.Peer.Connect.Agreement.{
  IsDiscreet, accept-IsDiscreet, IsSettled, handshake_over-IsSettled, healthy, zeros,
  handshake_over-accept,
}

abbrev torrent : Bytes
torrent = replicate 20 9

abbrev first : Bytes
first = replicate 20 1

abbrev second : Bytes
second = replicate 20 2

accept-IsDiscreet_example :
    IsDiscreet (healthy (0 ∷ [])) torrent second (accept (healthy (0 ∷ [])) torrent second)
accept-IsDiscreet_example = accept-IsDiscreet (healthy (0 ∷ [])) torrent second

handshake_over-IsSettled_example :
    IsSettled (healthy (0 ∷ [])) torrent first (handshake_over (healthy (0 ∷ [])) torrent first)
handshake_over-IsSettled_example = handshake_over-IsSettled (healthy (0 ∷ [])) torrent first

handshake_over-accept_example :
    let answer = accept (healthy (serialize (ours torrent first) ++ 5 ∷ [])) torrent second in
    let dialling = handshake_over (healthy (answer.written ++ 6 ∷ [])) torrent first in
    (dialling.written ≡ serialize (ours torrent first))
    × (dialling.result ≡ ok (new_conn second zeros))
    × (answer.result ≡ ok (new_conn first zeros))
handshake_over-accept_example =
    handshake_over-accept torrent refl first second (5 ∷ []) (6 ∷ []) refl refl
