-- ===== src/Tracker/Tests.antt =====
-- Two trackers, of which the second answers; and two compact peers.
use p2p_file_distribution.Base.{
  List, [], ◌∷◌, ◌++◌, none, some, ok, err, ◌≡◌, ◌⊎◌, refl, arith, if◌then◌else◌,
}
use mathlib.Core.List.{foldr}
use p2p_file_distribution.Base.Bytes.{Bytes, All, bytes_eq}
use p2p_file_distribution.Base.Int.{pos}
use p2p_file_distribution.Tracker.{
  AddrPort, AnnounceResponse, Client, announce_all, http, decode_compact_peers,
}
use p2p_file_distribution.Tracker.Order.{IsFirst, Fails, announce_all_cases}
use p2p_file_distribution.Tracker.Compact.{compact, decode_compact_peers-compact}

abbrev answer : AnnounceResponse
answer = record {
  interval = pos 60;
  min_interval = pos 0;
  complete = pos 1;
  incomplete = pos 0;
  peers = [];
}

abbrev client : Client
client = record {
  scheme_of = λ url. some http;
  build_url = λ url. some url;
  announce = λ url. if bytes_eq url (2 ∷ []) then some answer else none;
}

-- The second tracker of the second tier is the first that answers.
abbrev trackers : List (List Bytes)
trackers = ((1 ∷ []) ∷ []) ∷ ((3 ∷ []) ∷ (2 ∷ []) ∷ []) ∷ []

announce_all_cases_example :
    ((resp : AnnounceResponse) × (announce_all client [] trackers ≡ ok resp)
      × IsFirst client trackers resp)
    ⊎ ((announce_all client [] trackers ≡ err (foldr ◌++◌ [] trackers))
        × All (All (Fails client)) trackers)
announce_all_cases_example = announce_all_cases client [] trackers

abbrev two_peers : List AddrPort
two_peers =
    record { addr = 10 ∷ 0 ∷ 0 ∷ 1 ∷ []; port = 6881 }
    ∷ record { addr = 10 ∷ 0 ∷ 0 ∷ 2 ∷ []; port = 80 }
    ∷ []

decode_compact_peers-compact_example : decode_compact_peers (compact two_peers) ≡ ok two_peers
decode_compact_peers-compact_example =
    decode_compact_peers-compact two_peers ((refl, omega arith), ((refl, omega arith), tt))
