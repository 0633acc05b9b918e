-- ===== src/Download/Coordinator/Choke.antt =====
-- internal/download/choke.go: which peers may download from us.
use p2p_file_distribution.Base.{
  ℕ, ◌%◌, ◌==◌, if◌then◌else◌, Bool, true, false, not, ◌&&◌, ◌||◌, List, [], ◌∷◌, length, take,
  get_elem?, Option, none, some,
}
use p2p_file_distribution.Base.Dict
use p2p_file_distribution.Download.Rates
use p2p_file_distribution.Download.Rates.{Rate}
use p2p_file_distribution.Download.Coordinator.State.{PeerInfo, Coordinator}
use p2p_file_distribution.Download.Coordinator.Endgame.{remaining_piece_count}
use p2p_file_distribution.Download.Coordinator.Handlers.{set_choked}

abbrev pub unchoke_slots : ℕ
unchoke_slots = 4

-- What the environment decides: the clock, the order of a loop over the peers, what `sort.Slice`
-- makes of the candidates when their rates are compared as float64, and a random number.
pub record ChokeEnv : Type 0 where
  pub now : ℕ
  pub peer_order : List ℕ
  pub sort : (ℕ → Rate) → List ℕ → List ℕ
  pub draw : ℕ

unfoldable pub is_interested : Option PeerInfo → Bool
is_interested none = false
is_interested (some p) = p.interested

unfoldable pub member : ℕ → List ℕ → Bool
member a [] = false
member a (x ∷ xs) = x == a || member a xs

-- The peers that are interested, in the order of the loop.
unfoldable pub candidates : Coordinator → List ℕ → List ℕ
candidates c [] = []
candidates c (addr ∷ order) =
    if is_interested (Dict.lookup addr c.peers)
    then addr ∷ candidates c order
    else candidates c order

-- Peers that are not interested are choked in the same loop.
unfoldable pub choke_uninterested : List ℕ → Coordinator → Coordinator
choke_uninterested [] c = c
choke_uninterested (addr ∷ order) c =
    choke_uninterested order
      (if is_interested (Dict.lookup addr c.peers) then c else set_choked addr true c)

unfoldable pub rate_of : ChokeEnv → Coordinator → ℕ → Rate
rate_of env c addr =
    if remaining_piece_count c == 0
    then Rates.upload_rate c.rates addr env.now
    else Rates.download_rate c.rates addr env.now

-- The optimistic slot is kept while its holder is connected and interested.
unfoldable pub optimistic_kept : Coordinator → Option ℕ
optimistic_kept c = elim c.optimistic [
  | none ↦ none
  | some a ↦ if is_interested (Dict.lookup a c.peers) then some a else none
]

abbrev pub holds_slot : Option ℕ → ℕ → Bool
holds_slot none a = false
holds_slot (some b) a = b == a

unfoldable pub apply_choke : List ℕ → List ℕ → Option ℕ → Coordinator → Coordinator
apply_choke [] top slot c = c
apply_choke (addr ∷ rest) top slot c =
    apply_choke rest top slot (set_choked addr (not (member addr top || holds_slot slot addr)) c)

unfoldable pub recalc_choke : ChokeEnv → Coordinator → Coordinator
recalc_choke env c =
    let sorted = env.sort (rate_of env c) (candidates c env.peer_order) in
    let slot = optimistic_kept c in
    apply_choke sorted (take unchoke_slots sorted) slot
      (record (choke_uninterested env.peer_order c) { optimistic = slot })

abbrev pub may_rotate : Option ℕ → ℕ → Option PeerInfo → Bool
may_rotate previous addr none = false
may_rotate previous addr (some p) = p.interested && p.choked && not (holds_slot previous addr)

unfoldable pub rotation : Option ℕ → Coordinator → List ℕ → List ℕ
rotation previous c [] = []
rotation previous c (addr ∷ order) =
    if may_rotate previous addr (Dict.lookup addr c.peers)
    then addr ∷ rotation previous c order
    else rotation previous c order

unfoldable pub release_previous : Option ℕ → Coordinator → Coordinator
release_previous none c = c
release_previous (some addr) c = set_choked addr true c

unfoldable pub grant_slot : Option ℕ → Coordinator → Coordinator
grant_slot none c = c
grant_slot (some addr) c = set_choked addr false (record c { optimistic = some addr })

unfoldable pub rotate_optimistic : ChokeEnv → Coordinator → Coordinator
rotate_optimistic env c =
    let c' : Coordinator = record (release_previous c.optimistic c) { optimistic = none } in
    let found = rotation c.optimistic c' env.peer_order in
    grant_slot (get_elem? found (env.draw % length found)) c'
