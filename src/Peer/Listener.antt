-- ===== src/Peer/Listener.antt =====
-- internal/peer/listen.go: the guards on incoming connections and the accept loop. An IP address is a
-- number; `parse_ip` is netip.ParseAddrPort followed by Addr, of the standard library.
pub mod Slots
pub mod Refines
pub mod Tests
use p2p_file_distribution.Base.{
  ℕ, zero, suc, if◌then◌else◌, Bool, true, false, ◌||◌, List, [], ◌∷◌, get_elem?, remove_at, Option,
  none, some,
}
use p2p_file_distribution.Base.Int.{ℤ, pos, ◌+ℤ◌, ◌-ℤ◌, leb_ℤ}
use p2p_file_distribution.Base.Bytes.{Bytes}
use p2p_file_distribution.Base.Dict
use p2p_file_distribution.Base.Dict.{Dict}

abbrev pub max_incoming_connections : ℤ
max_incoming_connections = pos 200

abbrev pub max_connections_per_ip : ℤ
max_connections_per_ip = pos 3

pub record Listener : Type 0 where
  pub total : ℤ
  pub per_ip : Dict ℤ

-- `Listen`, once the socket is bound.
unfoldable pub new_listener : Listener
new_listener = record { total = pos 0; per_ip = [] }

-- l.perIP[ip], which is 0 for an address that is not there.
abbrev pub or_zero : Option ℤ → ℤ
or_zero none = pos 0
or_zero (some n) = n

-- netip.Addr{}
abbrev pub no_address : ℕ
no_address = 0

abbrev or_no_address : Option ℕ → ℕ
or_no_address none = no_address
or_no_address (some ip) = ip

unfoldable pub admit : ℕ → Listener → Bool × Listener
admit ip l =
    let open_here = or_zero (Dict.lookup ip l.per_ip) in
    if leb_ℤ max_incoming_connections l.total
    then (false, l)
    else if leb_ℤ max_connections_per_ip open_here
    then (false, l)
    else (
      true,
      record l { total = l.total +ℤ pos 1; per_ip = Dict.put ip (open_here +ℤ pos 1) l.per_ip },
    )

unfoldable pub release : ℕ → Listener → Listener
release ip l =
    let left = or_zero (Dict.lookup ip l.per_ip) -ℤ pos 1 in
    let per_ip = Dict.put ip left l.per_ip in
    record l {
      total = l.total -ℤ pos 1;
      per_ip = if leb_ℤ left (pos 0) then Dict.remove ip per_ip else per_ip;
    }

-- What happens to the accept loop and its goroutines: Accept returns a connection, whose remote
-- address is given as text, or an error, with ctx.Err() and net.ErrClosed as they are then; or the
-- handler of the `k`-th open connection returns.
pub data Event : Type 0 where
  accepted : Bytes → Event
  accept_failed : Bool → Bool → Event
  handler_returned : ℕ → Event

-- `handlers` are the addresses of the connections whose goroutine runs, the latest first; `serving`
-- says that the accept loop has not returned.
pub record Server : Type 0 where
  pub listener : Listener
  pub handlers : List ℕ
  pub serving : Bool

unfoldable pub new_server : Server
unfolding new_listener
new_server = record { listener = new_listener; handlers = []; serving = true }

module _ (parse_ip : Bytes → Option ℕ) where
  unfoldable pub remote_ip : Bytes → ℕ
  remote_ip remote = or_no_address (parse_ip remote)

  -- A rejected connection is closed and forgotten.
  started : ℕ → Server → Bool × Listener → Server
  started ip s (true, l) = record s { listener = l; handlers = ip ∷ s.handlers }
  started ip s (false, l) = record s { listener = l }

  -- The deferred `release` of the handler's goroutine.
  finished : ℕ → Server → Option ℕ → Server
  unfolding release
  finished k s none = s
  finished k s (some ip) = record s {
    listener = release ip s.listener;
    handlers = remove_at k s.handlers;
  }

  unfoldable pub serve_step : Server → Event → Server
  unfolding remote_ip admit started finished
  serve_step s (accepted remote) =
      let ip = remote_ip remote in if s.serving then started ip s (admit ip s.listener) else s
  serve_step s (accept_failed cancelled closed) =
      if cancelled || closed then record s { serving = false } else s
  serve_step s (handler_returned k) = finished k s (get_elem? s.handlers k)

  unfoldable pub serve : Server → List Event → Server
  unfolding serve_step
  serve s [] = s
  serve s (e ∷ events) = serve (serve_step s e) events
