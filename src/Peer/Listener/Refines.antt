-- ===== src/Peer/Listener/Refines.antt =====
-- The accept loop against the specification that keeps nothing but the list of open connections.
use p2p_file_distribution.Base.{
  ℕ, if◌then◌else◌, Bool, true, false, ◌||◌, List, [], ◌∷◌, get_elem?, remove_at, Option, none, ◌≡◌,
  refl, ap, zero, suc, Option-cases, Bool-cases, inl, inr, ◌∙◌,
}
use p2p_file_distribution.Base.Bytes.{Bytes}
use p2p_file_distribution.Peer.Listener.{
  Server, Event, accepted, accept_failed, handler_returned, new_server, remote_ip, serve_step,
  serve, started, finished,
}
use p2p_file_distribution.Peer.Listener.Slots.{
  Counts, has_slot, admit_cases, release-Counts, new_listener-Counts,
}

-- The specification's state: whether the loop runs, and the addresses of the open connections.
pub record Open : Type 0 where
  pub serving : Bool
  pub handlers : List ℕ

module _ (parse_ip : Bytes → Option ℕ) where
  -- A connection is taken while the loop runs and there is a slot for its address.
  unfoldable pub spec_step : Open → Event → Open
  spec_step o (accepted remote) =
      let ip = remote_ip parse_ip remote in
      if o.serving
      then if has_slot ip o.handlers then record o { handlers = ip ∷ o.handlers } else o
      else o
  spec_step o (accept_failed cancelled closed) =
      if cancelled || closed then record o { serving = false } else o
  spec_step o (handler_returned k) = record o { handlers = remove_at k o.handlers }

  unfoldable pub spec : Open → List Event → Open
  unfolding spec_step
  spec o [] = o
  spec o (e ∷ events) = spec (spec_step o e) events

-- What the specification sees of a server.
abbrev pub view : Server → Open
view s = record { serving = s.serving; handlers = s.handlers }

remove_at-none :
    (k : ℕ) (handlers : List ℕ) → get_elem? handlers k ≡ none → remove_at k handlers ≡ handlers
remove_at-none k [] e = refl
remove_at-none zero (x ∷ xs) e = cc
remove_at-none (suc k) (x ∷ xs) e = ap (◌∷◌ x) (remove_at-none k xs e)

-- The counters of a server stand for its open connections.
abbrev pub IsCounted : Server → Type 0
IsCounted s = Counts s.listener s.handlers

module _ (parse_ip : Bytes → Option ℕ) where
  -- One step, as an equation on the view, and the invariant after it.
  abbrev Refines : Server → Event → Type 0
  Refines s e =
      (view (serve_step parse_ip s e) ≡ spec_step parse_ip (view s) e)
      × IsCounted (serve_step parse_ip s e)

  accepted-Refines : (s : Server) (remote : Bytes) → IsCounted s → Refines s (accepted remote)
  unfolding serve_step spec_step
  accepted-Refines s remote c = elim (Bool-cases s.serving) [
    | inr stopped ↦ rw stopped (refl, c)
    | inl serving ↦ elim (admit_cases c (remote_ip parse_ip remote)) [
      | inl (slot, (l, admitted, c')) ↦
          rw (serving, slot, admitted, started)
            (
              λ i. record {
                serving = serving i;
                handlers = remote_ip parse_ip remote ∷ s.handlers;
              },
              c',
            )
      | inr (full, refused) ↦
          rw (serving, full, refused, started)
            (λ i. record { serving = serving i; handlers = s.handlers }, c)
    ]
  ]

  returned-Refines : (s : Server) (k : ℕ) → IsCounted s → Refines s (handler_returned k)
  unfolding serve_step spec_step
  returned-Refines s k c = elim (Option-cases (get_elem? s.handlers k)) [
    | inl absent ↦ rw (absent, finished, remove_at-none k s.handlers absent) (refl, c)
    | inr (ip, found) ↦ rw (found, finished) (refl, release-Counts c k found)
  ]

  step-Refines : (s : Server) (e : Event) → IsCounted s → Refines s e
  step-Refines s (accepted remote) c = accepted-Refines s remote c
  step-Refines s (handler_returned k) c = returned-Refines s k c
  step-Refines s (accept_failed cancelled closed) c =
      unfold serve_step spec_step in
      elim (Bool-cases (cancelled || closed)) [
        | inl stop ↦ rw stop (refl, c)
        | inr go_on ↦ rw go_on (refl, c)
      ]

  serve-Refines :
      (s : Server) (events : List Event)
      → IsCounted s
      → (view (serve parse_ip s events) ≡ spec parse_ip (view s) events)
        × IsCounted (serve parse_ip s events)
  unfolding serve spec
  serve-Refines s [] c = (refl, c)
  serve-Refines s (e ∷ events) c =
      let (same, c') = step-Refines s e c in
      let (same', kept) = serve-Refines (serve_step parse_ip s e) events c' in
      (same' ∙ ap (λ o. spec parse_ip o events) same, kept)

  -- Whatever the accept loop meets, the listener with its counters takes the same connections as the
  -- specification that counts the open connections afresh each time, and its counters are always the
  -- numbers of the open connections: at most 200 in all, at most 3 from an address.
  pub serve-Counts :
      (events : List Event)
      → (view (serve parse_ip new_server events)
          ≡ spec parse_ip (record { serving = true; handlers = [] }) events)
        × Counts
            (serve parse_ip new_server events).listener
            (serve parse_ip new_server events).handlers
  serve-Counts events = unfold new_server in serve-Refines new_server events new_listener-Counts
