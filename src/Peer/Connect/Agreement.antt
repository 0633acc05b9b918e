-- ===== src/Peer/Connect/Agreement.antt =====
-- What a successful handshake says, and that two clients of one torrent succeed with each other.
use p2p_file_distribution.Base.{
  ◌⊎◌, inl, inr, [], ◌++◌, length, ◌≡◌, ◌≢◌, refl, arith, not, true, false, if_elim, Result, ok,
  err, panic, replicate,
}
use p2p_file_distribution.Base.Bytes.{Bytes, bytes_eq, bytes_eq→eq, bytes_eq_refl}
use p2p_file_distribution.Peer.Handshake
use p2p_file_distribution.Peer.Handshake.{Handshake, serialize, parse_handshake}
use p2p_file_distribution.Peer.Handshake.RoundTrip.{
  parse_handshake-serialize, parse_handshake-ne-panic, IsSized,
}
use p2p_file_distribution.Peer.Conn.{Conn, new_conn}
use p2p_file_distribution.Peer.Connect.{
  Socket, Exchange, Call, Error, done, timed_out, failed, ours, handshake_over, accept,
  accept_theirs, over_written, over_theirs, accept_written, fail, refuse,
}

-- The other side has shown that it shares the torrent, and is told who we are.
pub record IsMutual (s : Socket) (info_hash peer_id : Bytes) (written : Bytes) (theirs : Handshake)
    : Type 0 where
  pub parsed : parse_handshake s.incoming ≡ ok theirs
  pub same_torrent : theirs.info_hash ≡ info_hash
  pub answered : written ≡ serialize (ours info_hash peer_id)

-- Nothing was written and the exchange failed, or both sides share the torrent, and a
-- connection that came of it is the one with the peer that the handshake names.
abbrev pub IsDiscreet : Socket → Bytes → Bytes → Exchange → Type 0
IsDiscreet s info_hash peer_id x =
    ((x.written ≡ []) × ((conn : Conn) → x.result ≢ ok conn))
    ⊎ ((theirs : Handshake) × IsMutual s info_hash peer_id x.written theirs
        × ((conn : Conn) → x.result ≡ ok conn → conn ≡ new_conn theirs.peer_id theirs.reserved))

module _ (s : Socket) (info_hash peer_id : Bytes) where
  refuse-IsDiscreet : (e : Error) → IsDiscreet s info_hash peer_id (refuse e)
  unfolding refuse
  refuse-IsDiscreet e = inl (refl, λ conn h. cc)

  written-IsDiscreet :
      (theirs : Handshake) (call : Call)
      → parse_handshake s.incoming ≡ ok theirs
      → theirs.info_hash ≡ info_hash
      → IsDiscreet s info_hash peer_id
          (accept_written s (serialize (ours info_hash peer_id)) theirs call)
  unfolding accept_written
  written-IsDiscreet theirs timed_out parsed same = refuse-IsDiscreet _
  written-IsDiscreet theirs failed parsed same = refuse-IsDiscreet _
  written-IsDiscreet theirs done parsed same =
      if_elim (IsDiscreet s info_hash peer_id) (not s.deadline_cleared)
        (λ _.
          inr (
            theirs,
            record { parsed = parsed; same_torrent = same; answered = refl },
            λ conn h. cc,
          ))
        (λ _.
          inr (
            theirs,
            record { parsed = parsed; same_torrent = same; answered = refl },
            λ conn h. cc,
          ))

  theirs-IsDiscreet :
      (r : Result Handshake.Error Handshake)
      → parse_handshake s.incoming ≡ r
      → IsDiscreet s info_hash peer_id (accept_theirs s info_hash peer_id r)
  unfolding accept_theirs
  theirs-IsDiscreet (err e) parsed = refuse-IsDiscreet _
  theirs-IsDiscreet panic parsed = inl (refl, λ conn h. cc)
  theirs-IsDiscreet (ok theirs) parsed =
      if_elim (IsDiscreet s info_hash peer_id) (not (bytes_eq theirs.info_hash info_hash))
        (λ _. refuse-IsDiscreet _)
        (λ same.
          written-IsDiscreet theirs s.write parsed
            (bytes_eq→eq theirs.info_hash info_hash (ground arith)))

  -- Accept tells a peer who we are only after the peer has sent a handshake with our info hash; otherwise it
  -- writes nothing and fails.
  pub accept-IsDiscreet : IsDiscreet s info_hash peer_id (accept s info_hash peer_id)
  unfolding accept
  accept-IsDiscreet =
      if_elim (IsDiscreet s info_hash peer_id) (not s.deadline_set) (λ _. refuse-IsDiscreet _)
        (λ _. theirs-IsDiscreet (parse_handshake s.incoming) refl)

  -- The side that dials: a failed exchange is closed, and one that succeeds is with a peer of our torrent.
  abbrev pub IsSettled : Exchange → Type 0
  IsSettled x =
      ((e : Error) × (x.result ≡ err e) × (x.closed ≡ true))
      ⊎ ((theirs : Handshake) × IsMutual s info_hash peer_id x.written theirs
          × (x.result ≡ ok (new_conn theirs.peer_id theirs.reserved))
          × (x.closed ≡ false))

  fail-IsSettled : (e : Error) (written : Bytes) → IsSettled (fail e written)
  unfolding fail
  fail-IsSettled e written = inl (e, refl, refl)

  settle_theirs :
      (written : Bytes) (r : Result Handshake.Error Handshake)
      → written ≡ serialize (ours info_hash peer_id)
      → parse_handshake s.incoming ≡ r
      → r ≢ panic
      → IsSettled (over_theirs s info_hash written r)
  unfolding over_theirs
  settle_theirs written (err e) answered parsed sane = fail-IsSettled _ _
  settle_theirs written panic answered parsed sane = absurd (sane refl)
  settle_theirs written (ok theirs) answered parsed sane =
      if_elim IsSettled (not (bytes_eq theirs.info_hash info_hash)) (λ _. fail-IsSettled _ _)
        (λ same.
          if_elim IsSettled (not s.deadline_cleared) (λ _. fail-IsSettled _ _)
            (λ _. inr (
              theirs,
              record {
                parsed = parsed;
                same_torrent = bytes_eq→eq theirs.info_hash info_hash (ground arith);
                answered = answered;
              },
              refl,
              refl,
            )))

  settle_written :
      (call : Call)
      → parse_handshake s.incoming ≢ panic
      → IsSettled (over_written s info_hash (serialize (ours info_hash peer_id)) call)
  unfolding over_written
  settle_written timed_out sane = fail-IsSettled _ _
  settle_written failed sane = fail-IsSettled _ _
  settle_written done sane = settle_theirs _ (parse_handshake s.incoming) refl refl sane

  -- The exchange of the side that dials either fails, and then the socket is closed, or gives the connection
  -- with the peer whose handshake was read, which has our info hash.
  pub handshake_over-IsSettled : IsSettled (handshake_over s info_hash peer_id)
  unfolding handshake_over
  handshake_over-IsSettled =
      if_elim IsSettled (not s.deadline_set) (λ _. fail-IsSettled _ _)
        (λ _. settle_written s.write (parse_handshake-ne-panic s.incoming))

-- A socket on which nothing fails.
abbrev pub healthy : Bytes → Socket
healthy incoming = record {
  deadline_set = true;
  write = done;
  incoming = incoming;
  read_times_out = false;
  deadline_cleared = true;
}

abbrev pub zeros : Bytes
zeros = replicate 8 0

module _ (info_hash : Bytes) (hash_size : length info_hash ≡ 20) where
  ours-IsSized : (id : Bytes) → length id ≡ 20 → IsSized (ours info_hash id)
  unfolding ours
  ours-IsSized id size = record {
    reserved_size = refl;
    info_hash_size = hash_size;
    peer_id_size = size;
  }

  reads_ours :
      (id more : Bytes)
      → length id ≡ 20
      → parse_handshake (serialize (ours info_hash id) ++ more) ≡ ok (ours info_hash id)
  reads_ours id more size =
      parse_handshake-serialize (ours info_hash id) more (ours-IsSized id size)

  dialled :
      (id other more : Bytes)
      → length other ≡ 20
      → handshake_over (healthy (serialize (ours info_hash other) ++ more)) info_hash id ≡ record {
        result = ok (new_conn other zeros);
        written = serialize (ours info_hash id);
        closed = false;
      }
  unfolding handshake_over over_written over_theirs ours
  dialled id other more size =
      rw (reads_ours other more size, over_theirs, bytes_eq_refl info_hash) refl

  accepted :
      (id other more : Bytes)
      → length other ≡ 20
      → accept (healthy (serialize (ours info_hash other) ++ more)) info_hash id ≡ record {
        result = ok (new_conn other zeros);
        written = serialize (ours info_hash id);
        closed = false;
      }
  unfolding accept accept_theirs accept_written ours
  accepted id other more size =
      rw (reads_ours other more size, accept_theirs, bytes_eq_refl info_hash) refl

  -- When two clients of one torrent meet over sockets that work, each reading what the other wrote, both
  -- sides succeed, and each learns the id of the other.
  pub handshake_over-accept :
      (id other more more' : Bytes)
      → length id ≡ 20
      → length other ≡ 20
      → let answer = accept (healthy (serialize (ours info_hash id) ++ more)) info_hash other in
        let dialling = handshake_over (healthy (answer.written ++ more')) info_hash id in
        (dialling.written ≡ serialize (ours info_hash id))
        × (dialling.result ≡ ok (new_conn other zeros))
        × (answer.result ≡ ok (new_conn id zeros))
  handshake_over-accept id other more more' size size' =
      rw (accepted other id more size, dialled id other more' size') (refl, refl, refl)
