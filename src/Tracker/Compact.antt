-- ===== src/Tracker/Compact.antt =====
-- The compact form of a list of IPv4 peers, and its decoding.
use p2p_file_distribution.Base.{
  true, ℕ, suc, ◌*◌, ◌/◌, ◌%◌, ◌<◌, ◌==◌, List, [], ◌∷◌, ◌++◌, length, length-append, ok, ◌≡◌, refl,
  arith, ap,
}
use p2p_file_distribution.Base.Bytes.{Bytes, All}
use p2p_file_distribution.Tracker.{AddrPort, split_peers, decode_compact_peers}

-- Four bytes of address, and the port with its high byte first.
unfoldable pub compact : List AddrPort → Bytes
compact [] = []
compact (p ∷ peers) = p.addr ++ (p.port / 256 ∷ p.port % 256 ∷ compact peers)

abbrev pub IsIpv4 : AddrPort → Type 0
IsIpv4 p = (length p.addr ≡ 4) × (p.port < 65536)

length-compact :
    (peers : List AddrPort) → All IsIpv4 peers → length (compact peers) ≡ length peers * 6
unfolding compact
length-compact [] h = refl
length-compact (p ∷ peers) h = omega (
  arith,
  length-append p.addr (p.port / 256 ∷ p.port % 256 ∷ compact peers),
  h.0.0,
  length-compact peers h.1,
)

split_one :
    (addr : Bytes) (port n : ℕ) (rest : Bytes)
    → length addr ≡ 4
    → split_peers (suc n) (addr ++ (port / 256 ∷ port % 256 ∷ rest))
      ≡ record { addr = addr; port = port } ∷ split_peers n rest
unfolding split_peers
split_one (a ∷ b ∷ c ∷ d ∷ []) port n rest h =
    ap (λ (k : ℕ). record { addr = a ∷ b ∷ c ∷ d ∷ []; port = k } ∷ split_peers n rest)
      (omega arith)
split_one _ port n rest h = absurd (omega (arith, h))

split-compact :
    (peers : List AddrPort) → All IsIpv4 peers → split_peers (length peers) (compact peers) ≡ peers
unfolding compact
split-compact [] h = unfold split_peers in refl
split-compact (p ∷ peers) h =
    rw (split_one p.addr p.port (length peers) (compact peers) h.0.0, split-compact peers h.1) refl

-- The peers of a compact blob are decoded in their order.
pub decode_compact_peers-compact :
    (peers : List AddrPort) → All IsIpv4 peers → decode_compact_peers (compact peers) ≡ ok peers
unfolding decode_compact_peers
decode_compact_peers-compact peers h =
    let count = length-compact peers h in
    let shared : length peers * 6 / 6 ≡ length peers = omega arith in
    rw (count, whole (length peers), shared, split-compact peers h) refl
  where
    whole : (n : ℕ) → (n * 6 % 6 == 0) ≡ true
    whole n = ground arith
