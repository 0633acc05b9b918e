-- ===== src/Peer/Listener/Tests.antt =====
-- Four connections from one address and one from another.
use p2p_file_distribution.Base.{ℕ, true, false, List, [], ◌∷◌, Option, none, some, ◌≡◌, refl}
use p2p_file_distribution.Base.Bytes.{Bytes}
use p2p_file_distribution.Base.Dict
use p2p_file_distribution.Base.Int.{◌+ℤ◌, ◌-ℤ◌, wrap}
use p2p_file_distribution.Peer.Listener.{
  Event, accepted, accept_failed, handler_returned, serve, new_server, admit, release,
}
use p2p_file_distribution.Peer.Listener.Slots.{Counts}
use p2p_file_distribution.Peer.Listener.Refines.{view, spec, serve-Counts}

-- An address whose text is one byte.
abbrev first_byte : Bytes → Option ℕ
first_byte [] = none
first_byte (b ∷ text) = some b

abbrev meets : List Event
meets =
    accepted (7 ∷ [])
    ∷ accepted (7 ∷ [])
    ∷ accepted (7 ∷ [])
    ∷ accepted (7 ∷ [])
    ∷ accepted (8 ∷ [])
    ∷ handler_returned 1
    ∷ accepted (7 ∷ [])
    ∷ accept_failed true false
    ∷ accepted (9 ∷ [])
    ∷ []

third_refused : (serve first_byte new_server meets).handlers ≡ 7 ∷ 8 ∷ 7 ∷ 7 ∷ []
unfolding serve new_server admit release Dict.lookup Dict.put ◌+ℤ◌ ◌-ℤ◌ wrap
third_refused = refl

serve-Counts_example :
    (view (serve first_byte new_server meets)
      ≡ spec first_byte (record { serving = true; handlers = [] }) meets)
    × Counts
        (serve first_byte new_server meets).listener
        (serve first_byte new_server meets).handlers
serve-Counts_example = serve-Counts first_byte meets
