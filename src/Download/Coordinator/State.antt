-- ===== src/Download/Coordinator/State.antt =====
-- The coordinator's state. Only its own goroutine touches it, so each handler is a function of it.
use p2p_file_distribution.Base.{
  ℕ, ◌==◌, if◌then◌else◌, Bool, true, false, List, [], Option, none, some, replicate, get_elem?,
  get_or, set,
}
use p2p_file_distribution.Base.Int.{ℤ, pos}
use p2p_file_distribution.Base.Bytes.{Bytes}
use p2p_file_distribution.Base.Dict
use p2p_file_distribution.Base.Dict.{Dict}
use p2p_file_distribution.Download.Command.{Channel}
use p2p_file_distribution.Download.Rates.{RateTracker}

pub data PieceState : Type 0 where
  missing in_flight complete : PieceState

pub PieceState-discrete : Discrete PieceState
PieceState-discrete = hlevel

-- `assigned` is `none` for the code's -1. `have` is the slice's content; that the connection may
-- share the slice is the matter of Download/Session/Shared.
pub record PeerInfo : Type 0 where
  pub commands : Channel
  pub have : Bytes
  pub assigned : Option ℕ
  pub interested : Bool
  pub choked : Bool
  pub peer_choking : Bool
  pub got_bitfield : Bool

pub record Assignment : Type 0 where
  pub addr : ℕ
  pub at : ℕ

-- Result{Index, Data}
pub record PieceResult : Type 0 where
  pub index : ℕ
  pub content : Bytes

-- A key that `assignments` lacks has the empty list: the code never tells the two apart.
-- `results` is what has been sent on the results channel; `duplicates` is what
-- progress.DuplicateAssignment has counted.
pub record Coordinator : Type 0 where
  pub piece_count : ℕ
  pub piece_length : ℕ
  pub total_length : ℕ
  pub piece_hashes : List Bytes
  pub pieces : List PieceState
  pub availability : List ℤ
  pub peers : Dict PeerInfo
  pub assignments : ℕ → List Assignment
  pub endgame : Bool
  pub results : List PieceResult
  pub duplicates : ℕ
  pub rates : RateTracker
  pub optimistic : Option ℕ

-- What the environment decides while a handler runs: the clock, whether `rand.IntN(ties)` is 0 for a
-- piece, the order in which a loop over the peers or the assignments meets its keys, and whether
-- a result is handed over before the context is cancelled.
pub record Env : Type 0 where
  pub now : ℕ
  pub coin : ℕ → ℕ → Bool
  pub peer_order : List ℕ
  pub piece_order : List ℕ
  pub delivered : Bool

-- A map with another list at one key.
abbrev pub update : (ℕ → List Assignment) → ℕ → List Assignment → ℕ → List Assignment
update assignments index assignees key = if index == key then assignees else assignments key

unfoldable pub new_coordinator : ℕ → ℕ → ℕ → List Bytes → Coordinator
new_coordinator piece_count piece_length total_length piece_hashes = record {
  piece_count = piece_count;
  piece_length = piece_length;
  total_length = total_length;
  piece_hashes = piece_hashes;
  pieces = replicate piece_count missing;
  availability = replicate piece_count (pos 0);
  peers = [];
  assignments = λ _. [];
  endgame = false;
  results = [];
  duplicates = 0;
  rates = [];
  optimistic = none;
}

abbrev pub missing_state : Option PieceState → Bool
missing_state (some missing) = true
missing_state _ = false

abbrev pub open_state : Option PieceState → Bool
open_state none = false
open_state (some complete) = false
open_state (some _) = true

-- `c.pieces[i] == pieceMissing` and `c.pieces[i] != pieceComplete` for an index in bounds.
abbrev pub is_missing : Coordinator → ℕ → Bool
is_missing c i = missing_state (get_elem? c.pieces i)

abbrev pub is_open : Coordinator → ℕ → Bool
is_open c i = open_state (get_elem? c.pieces i)

-- `c.availability[i]` for an index in bounds.
abbrev pub availability_of : Coordinator → ℕ → ℤ
availability_of c i = get_or c.availability i (pos 0)

abbrev pub put_peer : Coordinator → ℕ → PeerInfo → Coordinator
put_peer c addr p = record c { peers = Dict.put addr p c.peers }

abbrev pub set_piece_state : Coordinator → ℕ → PieceState → Coordinator
set_piece_state c i s = record c { pieces = set c.pieces i s }

abbrev pub set_assignees : Coordinator → ℕ → List Assignment → Coordinator
set_assignees c i assignees = record c { assignments = update c.assignments i assignees }
