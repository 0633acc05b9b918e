-- ===== src/Download/Worker/Sound.antt =====
-- The pieces that a connection reports.
use p2p_file_distribution.Base.{ℕ, Bool, true, false, not, List, [], ◌∷◌, ◌≡◌, refl, ◌∙◌, if_elim}
use p2p_file_distribution.Base.Bytes.{Bytes, All}
use p2p_file_distribution.Piece.Geometry.Bounds.{IsGeometry}
use p2p_file_distribution.Piece.Verify.{verify-true}
use p2p_file_distribution.Peer.Conn.{Conn}
use p2p_file_distribution.Download.Command.{Event, piece_downloaded}
use p2p_file_distribution.Download.Coordinator.Orders.{IsListed}
use p2p_file_distribution.Download.Main.Loop.Verified.{IsVerified}
use p2p_file_distribution.Download.Worker.Loop.{
  Output, told, sent_bitfield, sent_have, sent_block, sent_interested, attempted, succeeded,
  connected, disconnected, bad_hash, recovered, Turn, Phase, idle, busy, ended, crashed, tell,
}
use p2p_file_distribution.Download.Worker.{
  Opening, farewell, is_over, recovery, body, run_connection,
}
use p2p_file_distribution.Download.Worker.Speech.{append-All, Contract, AreAllowed, IsSaid}
use p2p_file_distribution.Download.Worker.Speech.Turns.{body-StepOk}

map-All :
    {A : Type 0} (P Q : A → Type 0) (xs : List A) → ((x : A) → P x → Q x) → All P xs → All Q xs
map-All P Q [] f h = tt
map-All P Q (x ∷ xs) f h = (f x h.0, map-All P Q xs f h.1)

module _ (sha1 : Bytes → Bytes) (addr : ℕ) {pc pl tl : ℕ} (g : IsGeometry pc pl tl)
    (hashes : List Bytes) where
  -- A piece is reported by the connection that it came from, verified.
  abbrev pub IsSoundEvent : Event → Type 0
  IsSoundEvent (piece_downloaded a index content) =
      (a ≡ addr) × IsVerified sha1 g hashes (record { index = index; content = content })
  IsSoundEvent _ = Unit {0}

  abbrev pub IsSound : Output → Type 0
  IsSound (told event) = IsSoundEvent event
  IsSound _ = Unit {0}

  abbrev pub of_torrent : Contract sha1 addr
  of_torrent = record {
    Listed = IsListed g hashes;
    Says = IsSoundEvent;
    bitfield = λ have. tt;
    have = λ index. tt;
    failed = λ index. tt;
    ready = tt;
    interested = tt;
    not_interested = tt;
    choke = tt;
    unchoke = tt;
    piece = λ index len hash content l size e.
        let (fits, same) = (verify-true sha1 content hash).0 e in
        (
          refl,
          record {
            in_range = l.in_range;
            full = size ∙ l.full;
            hash = hash;
            listed = l.listed;
            size = fits;
            same = same;
          },
        );
  }

  weaken : (x : Output) → IsSaid of_torrent x → IsSound x
  weaken (told event) h = h
  weaken attempted h = tt
  weaken succeeded h = tt
  weaken connected h = tt
  weaken disconnected h = tt
  weaken recovered h = tt
  weaken bad_hash h = tt
  weaken sent_interested h = tt
  weaken (sent_bitfield have) h = tt
  weaken (sent_have index) h = tt
  weaken (sent_block served) h = tt

  farewell-All : (left : Bool) (s : Phase) → All IsSound (farewell addr left s)
  unfolding farewell is_over recovery tell
  farewell-All left (idle conn) = tt
  farewell-All left (busy work hash a) = tt
  farewell-All true ended = (tt, (tt, tt))
  farewell-All false ended = (tt, tt)
  farewell-All true crashed = (tt, (tt, (tt, tt)))
  farewell-All false crashed = (tt, (tt, tt))

  -- However messages, commands, timeouts and failures come, as long as the pieces that the coordinator
  -- assigns are those of the torrent, a connection reports a piece to the coordinator only under its own
  -- address, and with bytes that have the length and the hash of that piece.
  pub run_connection-All :
      (o : Opening) (ts : List Turn) (left : Bool) (conn : Conn)
      → AreAllowed of_torrent ts
      → All IsSound (run_connection sha1 addr pc o ts left conn)
  unfolding run_connection
  run_connection-All o ts left conn l =
      let ran = body-StepOk sha1 addr pc of_torrent o ts conn l in
      (
        tt,
        if_elim (All IsSound) (not o.joined) (λ _. (tt, tt))
            (λ _. (
              tt,
              append-All IsSound (body sha1 addr pc o ts conn).1 _
                  (map-All (IsSaid of_torrent) IsSound (body sha1 addr pc o ts conn).1 weaken ran.1)
                  (farewell-All left _),
            )),
      )
