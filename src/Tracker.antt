-- ===== src/Tracker.antt =====
-- internal/tracker/response.go and tiers.go: what a tracker answers, and in which order trackers are
-- tried. Addresses are parsed by netip.ParseAddr (`parse_addr`) and URLs by net/url (`scheme_of`), which
-- are parameters, like the request itself.
pub mod Order
pub mod Compact
pub mod Tests
use p2p_file_distribution.Base.{
  ℕ, zero, suc, ◌*◌, ◌+◌, ◌-◌, ◌/◌, ◌%◌, ◌==◌, if◌then◌else◌, Bool, true, false, ◌||◌, List, [],
  ◌∷◌, ◌++◌, length, take, drop, Option, none, some, Result, ok, err, panic, ◌>>=◌, map_err,
}
use p2p_file_distribution.Base.Int.{ℤ, pos, negsuc}
use p2p_file_distribution.Base.Bytes.{Bytes, bytes_eq, u16}
use p2p_file_distribution.Bencode.Value
use p2p_file_distribution.Bencode.Value.{
  byte_string, list, Values, nil, cons, Entries, get, get_string, get_int, as_dictionary,
}
use p2p_file_distribution.Bencode.Decode.{decode_strict}

-- netip.AddrPort: the bytes of the address, and a uint16.
pub record AddrPort : Type 0 where
  pub addr : Bytes
  pub port : ℕ

pub data Error : Type 0 where
  bencode : Value.Error → Error
  failure : Bytes → Error
  not_peers bad_blob_length invalid_ip : Error

-- The blob holds `n` more peers of six bytes.
unfoldable pub split_peers : ℕ → Bytes → List AddrPort
split_peers (suc n) (a ∷ b ∷ c ∷ d ∷ hi ∷ lo ∷ blob) =
    record { addr = a ∷ b ∷ c ∷ d ∷ []; port = u16 hi lo } ∷ split_peers n blob
split_peers _ _ = []

unfoldable pub decode_compact_peers : Bytes → Result Error (List AddrPort)
decode_compact_peers blob =
    if length blob % 6 == 0 then ok (split_peers (length blob / 6) blob) else err bad_blob_length

-- uint16(port)
unfoldable pub u16_of : ℤ → ℕ
u16_of (pos n) = n % 65536
u16_of (negsuc n) = 65535 - n % 65536

unfoldable pub legacy_peer : (Bytes → Option Bytes) → Entries → Result Error AddrPort
legacy_peer parse_addr d = do
  ip ← map_err bencode (get_string d (b'i' ∷ b'p' ∷ []))
  port ← map_err bencode (get_int d (b'p' ∷ b'o' ∷ b'r' ∷ b't' ∷ []))
  elim (parse_addr ip) [
    | none ↦ err invalid_ip
    | some addr ↦ ok (record { addr = addr; port = u16_of port })
  ]

unfoldable pub decode_legacy_peers : (Bytes → Option Bytes) → Values → Result Error (List AddrPort)
decode_legacy_peers parse_addr nil = ok []
decode_legacy_peers parse_addr (cons v vs) = do
  d ← map_err bencode (as_dictionary v)
  peer ← legacy_peer parse_addr d
  peers ← decode_legacy_peers parse_addr vs
  ok (peer ∷ peers)

pub record AnnounceResponse : Type 0 where
  pub interval : ℤ
  pub min_interval : ℤ
  pub complete : ℤ
  pub incomplete : ℤ
  pub peers : List AddrPort

-- `x, _ = dict.GetInt(key)`: 0 on an error.
unfoldable pub int_or_zero : Entries → Bytes → ℤ
int_or_zero dict key = elim (get_int dict key) [ ok n ↦ n | _ ↦ pos 0 ]

unfoldable pub peers_of : (Bytes → Option Bytes) → Value.Value → Result Error (List AddrPort)
peers_of parse_addr (byte_string blob) = decode_compact_peers blob
peers_of parse_addr (list vs) = decode_legacy_peers parse_addr vs
peers_of parse_addr v = err not_peers

abbrev pub failure_reason_key : Bytes
failure_reason_key =
    b'f' ∷ b'a' ∷ b'i' ∷ b'l' ∷ b'u' ∷ b'r' ∷ b'e' ∷ b' ' ∷ b'r' ∷ b'e' ∷ b'a' ∷ b's' ∷ b'o' ∷ b'n'
    ∷ []

abbrev pub interval_key : Bytes
interval_key = b'i' ∷ b'n' ∷ b't' ∷ b'e' ∷ b'r' ∷ b'v' ∷ b'a' ∷ b'l' ∷ []

abbrev pub min_interval_key : Bytes
min_interval_key =
    b'm' ∷ b'i' ∷ b'n' ∷ b' ' ∷ b'i' ∷ b'n' ∷ b't' ∷ b'e' ∷ b'r' ∷ b'v' ∷ b'a' ∷ b'l' ∷ []

abbrev pub complete_key : Bytes
complete_key = b'c' ∷ b'o' ∷ b'm' ∷ b'p' ∷ b'l' ∷ b'e' ∷ b't' ∷ b'e' ∷ []

abbrev pub incomplete_key : Bytes
incomplete_key = b'i' ∷ b'n' ∷ b'c' ∷ b'o' ∷ b'm' ∷ b'p' ∷ b'l' ∷ b'e' ∷ b't' ∷ b'e' ∷ []

abbrev pub peers_key : Bytes
peers_key = b'p' ∷ b'e' ∷ b'e' ∷ b'r' ∷ b's' ∷ []

abbrev pub http : Bytes
http = b'h' ∷ b't' ∷ b't' ∷ b'p' ∷ []

abbrev pub https : Bytes
https = b'h' ∷ b't' ∷ b't' ∷ b'p' ∷ b's' ∷ []

unfoldable pub response_of : (Bytes → Option Bytes) → Entries → Result Error AnnounceResponse
response_of parse_addr dict = do
  peers_val ← map_err bencode (get dict peers_key)
  peers ← peers_of parse_addr peers_val
  ok (record {
    interval = int_or_zero dict interval_key;
    min_interval = int_or_zero dict min_interval_key;
    complete = int_or_zero dict complete_key;
    incomplete = int_or_zero dict incomplete_key;
    peers = peers;
  })

-- A failure reason means that the tracker refused the request.
unfoldable pub parse_announce_response :
    (Bytes → Option Bytes) → Bytes → Result Error AnnounceResponse
parse_announce_response parse_addr content = do
  v ← map_err bencode (decode_strict content)
  dict ← map_err bencode (as_dictionary v)
  elim (get_string dict failure_reason_key) [
    | ok reason ↦ err (failure reason)
    | _ ↦ response_of parse_addr dict
  ]

-- The tiers in one list, or the single announce URL.
unfoldable pub concat_tiers : List (List Bytes) → List Bytes
concat_tiers [] = []
concat_tiers (tier ∷ tiers) = tier ++ concat_tiers tiers

unfoldable pub flatten_tiers : Bytes → List (List Bytes) → List Bytes
flatten_tiers announce [] = announce ∷ []
flatten_tiers announce (tier ∷ tiers) = concat_tiers (tier ∷ tiers)

-- What the client and the caller do with a URL.
pub record Client : Type 0 where
  pub scheme_of : Bytes → Option Bytes
  pub build_url : Bytes → Option Bytes
  pub announce : Bytes → Option AnnounceResponse

-- One round of the loop: none where the URL is recorded among the errors.
unfoldable pub attempt : Client → Bytes → Option AnnounceResponse
attempt client url = elim (client.scheme_of url) [
  | none ↦ none
  | some scheme ↦
      if bytes_eq scheme http || bytes_eq scheme https
      then (elim (client.build_url url) [
        | none ↦ none
        | some announce_url ↦ client.announce announce_url
      ])
      else none
]

-- The first success, or the URLs that failed, which are all.
unfoldable pub try_urls : Client → List Bytes → List Bytes → Result (List Bytes) AnnounceResponse
try_urls client failed [] = err failed
try_urls client failed (url ∷ urls) =
    let rest = try_urls client (failed ++ url ∷ []) urls in
    elim (attempt client url) [ none ↦ rest | some resp ↦ ok resp ]

unfoldable pub announce_all :
    Client → Bytes → List (List Bytes) → Result (List Bytes) AnnounceResponse
announce_all client announce announce_list =
    try_urls client [] (flatten_tiers announce announce_list)
