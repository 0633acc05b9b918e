-- ===== src/Download/Session.antt =====
-- internal/download/worker.go: what a connection does with a message outside a piece download and with a
-- choke command. `delivered` says whether an event reaches the
-- coordinator before the shutdown, `sent` whether a write to the connection succeeds.
pub mod Shared
use p2p_file_distribution.Base.{
  ℕ, List, [], if◌then◌else◌, Bool, true, false, Option, none, some, Result, ok, err, panic, length,
}
use p2p_file_distribution.Base.Int.{ℤ, pos, eq_ℤ}
use p2p_file_distribution.Base.Bytes.{Bytes}
use p2p_file_distribution.Base.Dict
use p2p_file_distribution.Peer.MessageId
use p2p_file_distribution.Peer.Message.{Message}
use p2p_file_distribution.Peer.Conn.{Conn}
use p2p_file_distribution.Peer.Bitfield.{set_piece, validate}
use p2p_file_distribution.Peer.Payload.{parse_have}
use p2p_file_distribution.Download.Command.{
  Command, Event, choke_peer, unchoke_peer, bitfield_received, have_received, choke_received,
  unchoke_received, interested_received, not_interested_received,
}
use p2p_file_distribution.Download.Serve.{Served, serve_request}

-- SeedConfig: what we have, and where.
pub record Seed : Type 0 where
  pub piece_length : ℕ
  pub total_length : ℕ
  pub has : ℕ → Bool
  pub file : Bytes

-- The connection behind a message, the event sent to the coordinator, the block sent to the peer, and
-- whether the connection stays open.
pub record Reaction : Type 0 where
  pub conn : Conn
  pub event : Option Event
  pub served : Option Served
  pub keep : Bool

abbrev ignore : Conn → Reaction
ignore conn = record { conn = conn; event = none; served = none; keep = true }

abbrev close : Conn → Reaction
close conn = record { conn = conn; event = none; served = none; keep = false }

-- `return s.sendEvent(event)`
abbrev report : Conn → Event → Bool → Reaction
report conn event delivered = record {
  conn = conn;
  event = some event;
  served = none;
  keep = delivered;
}

unfoldable pub apply_command : Command → Bool → Conn → Conn × Bool
apply_command choke_peer sent conn =
    if sent then (record conn { am_choking = true }, true) else (conn, false)
apply_command unchoke_peer sent conn =
    if sent then (record conn { am_choking = false }, true) else (conn, false)
apply_command _ sent conn = (conn, true)

unfoldable pub on_bitfield : ℕ → ℕ → Bytes → Bool → Conn → Reaction
on_bitfield addr piece_count content delivered conn = elim (validate content piece_count) [
  | ok _ ↦
      report (record conn { peer_bitfield = content }) (bitfield_received addr content) delivered
  | _ ↦ close conn
]

unfoldable pub on_have : ℕ → ℕ → Bytes → Bool → Conn → Reaction
on_have addr piece_count content delivered conn = elim (parse_have content piece_count) [
  | ok h ↦
      report (record conn { peer_bitfield = set_piece conn.peer_bitfield (pos h.index) })
        (have_received addr h.index) delivered
  | _ ↦ ignore conn
]

unfoldable pub on_request : ℕ → Bytes → Bool → Option Seed → Conn → Reaction
on_request piece_count content sent none conn = ignore conn
on_request piece_count content sent (some seed) conn =
    elim (serve_request conn.am_choking seed.has content piece_count seed.piece_length
      seed.total_length seed.file sent) [
        | ok served ↦ record { conn = conn; event = none; served = served; keep = true }
        | _ ↦ close conn
      ]

unfoldable pub handle_message : ℕ → ℕ → Option Seed → Bool → Bool → Message → Conn → Reaction
handle_message addr piece_count seed delivered sent m conn =
    if eq_ℤ m.id MessageId.bitfield
    then on_bitfield addr piece_count m.payload delivered conn
    else if eq_ℤ m.id MessageId.have
    then on_have addr piece_count m.payload delivered conn
    else if eq_ℤ m.id MessageId.choke
    then report (record conn { peer_choking = true }) (choke_received addr) delivered
    else if eq_ℤ m.id MessageId.unchoke
    then report (record conn { peer_choking = false }) (unchoke_received addr) delivered
    else if eq_ℤ m.id MessageId.interested
    then report (record conn { peer_interested = true }) (interested_received addr) delivered
    else if eq_ℤ m.id MessageId.not_interested
    then report (record conn { peer_interested = false }) (not_interested_received addr) delivered
    else if eq_ℤ m.id MessageId.request
    then on_request piece_count m.payload sent seed conn
    else ignore conn
