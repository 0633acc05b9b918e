-- ===== src/Download/Progress/Peak.antt =====
-- PeerConnected step by step: connections that start and end at once, each with its own turn of the
-- compare-and-swap loop on the peak.
use p2p_file_distribution.Base.{
  ℕ, zero, suc, if◌then◌else◌, false, List, [], ◌∷◌, get_elem?, remove_at, set, Option, none, some,
  ◌≡◌, refl, arith, ap, ◌∙◌, sym, Option-cases, inl, inr, if_elim,
}
use mathlib.Core.Path.{subst}
use mathlib.Core.Option.{some-injective}
use p2p_file_distribution.Base.Int.{ℤ, pos, ◌+ℤ◌, ◌-ℤ◌, leb_ℤ, eq_ℤ, ◌≤ℤ◌}

-- A goroutine in the loop: what its AddInt64 returned, and the peak that it has loaded in this turn.
pub record Waiting : Type 0 where
  pub n : ℤ
  pub loaded : Option ℤ

pub record Peers : Type 0 where
  pub active : ℤ
  pub peak : ℤ
  pub waiting : List Waiting

-- The atomic steps, of the `k`-th goroutine in the loop where one is named.
pub data Event : Type 0 where
  connected disconnected : Event
  load compare_and_swap : ℕ → Event

leave : ℕ → Peers → Peers
leave k s = record s { waiting = remove_at k s.waiting }

-- `n <= peak || CompareAndSwapInt64(&p.peakPeers, peak, n)`: break, or another turn.
swap : ℕ → ℤ → ℤ → Peers → Peers
unfolding leave
swap k n seen s =
    if leb_ℤ n seen
    then leave k s
    else if eq_ℤ s.peak seen
    then record (leave k s) { peak = n }
    else record s { waiting = set s.waiting k (record { n = n; loaded = none }) }

swap_loaded : ℕ → ℤ → Option ℤ → Peers → Peers
unfolding swap
swap_loaded k n none s = s
swap_loaded k n (some seen) s = swap k n seen s

on_waiting : Option Waiting → (Waiting → Peers → Peers) → Peers → Peers
on_waiting none next s = s
on_waiting (some w) next s = next w s

unfoldable pub step : Peers → Event → Peers
unfolding on_waiting swap_loaded
step s connected =
    let n = s.active +ℤ pos 1 in
    record s { active = n; waiting = record { n = n; loaded = none } ∷ s.waiting }
step s disconnected = record s { active = s.active -ℤ pos 1 }
step s (load k) =
    on_waiting (get_elem? s.waiting k)
      (λ w s. record s { waiting = set s.waiting k (record w { loaded = some s.peak }) }) s
step s (compare_and_swap k) =
    on_waiting (get_elem? s.waiting k) (λ w s. swap_loaded k w.n w.loaded s) s

unfoldable pub run : Peers → List Event → Peers
unfolding step
run s [] = s
run s (e ∷ events) = run (step s e) events

unfoldable pub no_peers : Peers
no_peers = record { active = pos 0; peak = pos 0; waiting = [] }

pub max : ℤ → ℤ → ℤ
max a b = if leb_ℤ b a then a else b

max_swap : (a b c : ℤ) → max (max a b) c ≡ max (max a c) b
unfolding max
max_swap a b c = ground arith

max_absorb : (a b : ℤ) → b ≤ℤ a → max a b ≡ a
unfolding max
max_absorb a b h = ground arith

max_above : (a b : ℤ) → leb_ℤ b a ≡ false → max a b ≡ b
unfolding max
max_above a b h = rw h refl

max-ge : (a b : ℤ) → a ≤ℤ max a b
unfolding max
max-ge a b = ground arith

-- The highest value that the number of connections takes in a run.
pub highest : ℤ → ℤ → List Event → ℤ
highest active best [] = best
highest active best (connected ∷ events) = let n = active +ℤ pos 1 in highest n (max best n) events
highest active best (disconnected ∷ events) = highest (active -ℤ pos 1) best events
highest active best (load k ∷ events) = highest active best events
highest active best (compare_and_swap k ∷ events) = highest active best events

-- The peak as it will be when the goroutines in the loop are through.
settled : ℤ → List Waiting → ℤ
settled peak [] = peak
settled peak (w ∷ waiting) = max (settled peak waiting) w.n

-- No goroutine has loaded more than the peak.
abbrev IsSeen : ℤ → Option ℤ → Type 0
IsSeen peak none = Unit {0}
IsSeen peak (some seen) = seen ≤ℤ peak

abbrev AllSeen : ℤ → List Waiting → Type 0
AllSeen peak [] = Unit {0}
AllSeen peak (w ∷ waiting) = IsSeen peak w.loaded × AllSeen peak waiting

module _ (peak : ℤ) where
  settled-ge : (waiting : List Waiting) → peak ≤ℤ settled peak waiting
  unfolding settled
  settled-ge [] = omega arith
  settled-ge (w ∷ waiting) = omega (arith, settled-ge waiting, max-ge (settled peak waiting) w.n)

  settled-remove_at :
      (k : ℕ) (waiting : List Waiting) {w : Waiting}
      → get_elem? waiting k ≡ some w
      → settled peak waiting ≡ max (settled peak (remove_at k waiting)) w.n
  unfolding settled
  settled-remove_at k [] e = cc
  settled-remove_at zero (v ∷ waiting) e =
      ap (λ (u : Waiting). max (settled peak waiting) u.n) (some-injective v _ e)
  settled-remove_at (suc k) (v ∷ waiting) {w} e =
      rw (settled-remove_at k waiting e) (max_swap (settled peak (remove_at k waiting)) w.n v.n)

  settled-set :
      (k : ℕ) (waiting : List Waiting) {w : Waiting} (v : Waiting)
      → get_elem? waiting k ≡ some w
      → v.n ≡ w.n
      → settled peak (set waiting k v) ≡ settled peak waiting
  unfolding settled
  settled-set k [] v e same = refl
  settled-set zero (u ∷ waiting) v e same =
      ap (max (settled peak waiting))
        (same ∙ ap (λ (u : Waiting). u.n) (sym (some-injective u _ e)))
  settled-set (suc k) (u ∷ waiting) v e same = rw (settled-set k waiting v e same) refl

  settled-max :
      (n : ℤ) (waiting : List Waiting) → settled (max peak n) waiting ≡ max (settled peak waiting) n
  unfolding settled
  settled-max n [] = refl
  settled-max n (w ∷ waiting) = rw (settled-max n waiting) (max_swap (settled peak waiting) n w.n)

  AllSeen-remove_at :
      (k : ℕ) (waiting : List Waiting) → AllSeen peak waiting → AllSeen peak (remove_at k waiting)
  AllSeen-remove_at k [] h = tt
  AllSeen-remove_at zero (w ∷ waiting) h = h.1
  AllSeen-remove_at (suc k) (w ∷ waiting) h = (h.0, AllSeen-remove_at k waiting h.1)

  AllSeen-set :
      (k : ℕ) (waiting : List Waiting) (v : Waiting)
      → IsSeen peak v.loaded
      → AllSeen peak waiting
      → AllSeen peak (set waiting k v)
  AllSeen-set k [] v i h = tt
  AllSeen-set zero (w ∷ waiting) v i h = (i, h.1)
  AllSeen-set (suc k) (w ∷ waiting) v i h = (h.0, AllSeen-set k waiting v i h.1)

  IsSeen-grow : (peak' : ℤ) (o : Option ℤ) → peak ≤ℤ peak' → IsSeen peak o → IsSeen peak' o
  IsSeen-grow peak' none up h = tt
  IsSeen-grow peak' (some seen) up h = omega (arith, up, h)

  AllSeen-grow :
      (peak' : ℤ) (waiting : List Waiting)
      → peak ≤ℤ peak'
      → AllSeen peak waiting
      → AllSeen peak' waiting
  AllSeen-grow peak' [] up h = tt
  AllSeen-grow peak' (w ∷ waiting) up h =
      (IsSeen-grow peak' w.loaded up h.0, AllSeen-grow peak' waiting up h.1)

  AllSeen-get :
      (k : ℕ) (waiting : List Waiting) {w : Waiting}
      → get_elem? waiting k ≡ some w
      → AllSeen peak waiting
      → IsSeen peak w.loaded
  AllSeen-get k [] e h = cc
  AllSeen-get zero (v ∷ waiting) e h =
      subst (λ (u : Waiting). IsSeen peak u.loaded) (some-injective v _ e) h.0
  AllSeen-get (suc k) (v ∷ waiting) e h = AllSeen-get k waiting e h.1

-- What a state owes to the highest count so far, and that what was loaded is not too high.
abbrev Tracked : ℤ → Peers → Type 0
Tracked best s = (settled s.peak s.waiting ≡ best) × AllSeen s.peak s.waiting

leave-Tracked :
    (best : ℤ) (s : Peers) (k : ℕ) {w : Waiting}
    → get_elem? s.waiting k ≡ some w
    → w.n ≤ℤ s.peak
    → Tracked best s
    → Tracked best (leave k s)
unfolding leave
leave-Tracked best s k {w} e low (due, seen) = (
  sym (
        max_absorb (settled s.peak (remove_at k s.waiting)) w.n
          (omega (arith, low, settled-ge s.peak (remove_at k s.waiting))))
      ∙ (sym (settled-remove_at s.peak k s.waiting e) ∙ due),
  AllSeen-remove_at s.peak k s.waiting seen,
)

-- The peak rises to the count of a goroutine that was in the loop.
raise-Tracked :
    (best : ℤ) (s : Peers) (k : ℕ) {w : Waiting}
    → get_elem? s.waiting k ≡ some w
    → leb_ℤ w.n s.peak ≡ false
    → Tracked best s
    → Tracked best (record (leave k s) { peak = w.n })
unfolding leave
raise-Tracked best s k {w} e high (due, seen) = (
  ap (λ (p : ℤ). settled p (remove_at k s.waiting)) (sym (max_above s.peak w.n high))
      ∙ (settled-max s.peak w.n (remove_at k s.waiting)
          ∙ (sym (settled-remove_at s.peak k s.waiting e) ∙ due)),
  AllSeen-grow s.peak w.n (remove_at k s.waiting) (ground arith)
      (AllSeen-remove_at s.peak k s.waiting seen),
)

swap-Tracked :
    (best : ℤ) (s : Peers) (k : ℕ) (w : Waiting) (seen : ℤ)
    → get_elem? s.waiting k ≡ some w
    → seen ≤ℤ s.peak
    → Tracked best s
    → Tracked best (swap k w.n seen s)
unfolding swap
swap-Tracked best s k w seen e old t =
    if_elim (Tracked best) (leb_ℤ w.n seen) (λ low. leave-Tracked best s k e (ground arith) t)
      (λ high.
        if_elim (Tracked best) (eq_ℤ s.peak seen)
          (λ same. raise-Tracked best s k e (ground arith) t)
          (λ _. (
            settled-set s.peak k s.waiting _ e refl ∙ t.0,
            AllSeen-set s.peak k s.waiting _ tt t.1,
          )))

swap_loaded-Tracked :
    (best : ℤ) (s : Peers) (k : ℕ) (w : Waiting) (o : Option ℤ)
    → get_elem? s.waiting k ≡ some w
    → IsSeen s.peak o
    → Tracked best s
    → Tracked best (swap_loaded k w.n o s)
unfolding swap_loaded
swap_loaded-Tracked best s k w none e old t = t
swap_loaded-Tracked best s k w (some seen) e old t = swap-Tracked best s k w seen e old t

load-Tracked : (best : ℤ) (s : Peers) (k : ℕ) → Tracked best s → Tracked best (step s (load k))
unfolding step
load-Tracked best s k t = elim (Option-cases (get_elem? s.waiting k)) [
  | inl absent ↦ rw (absent, on_waiting) t
  | inr (w, found) ↦
      rw (found, on_waiting)
        (
          settled-set s.peak k s.waiting _ found refl ∙ t.0,
          AllSeen-set s.peak k s.waiting _ (omega arith) t.1,
        )
]

compare_and_swap-Tracked :
    (best : ℤ) (s : Peers) (k : ℕ) → Tracked best s → Tracked best (step s (compare_and_swap k))
unfolding step
compare_and_swap-Tracked best s k t = elim (Option-cases (get_elem? s.waiting k)) [
  | inl absent ↦ rw (absent, on_waiting) t
  | inr (w, found) ↦
      rw (found, on_waiting)
        (swap_loaded-Tracked best s k w w.loaded found (AllSeen-get s.peak k s.waiting found t.1) t)
]

-- The loop on the peak does not touch the number of connections.
swap-active : (k : ℕ) (n seen : ℤ) (s : Peers) → (swap k n seen s).active ≡ s.active
unfolding swap leave
swap-active k n seen s = ground arith

swap_loaded-active :
    (k : ℕ) (n : ℤ) (o : Option ℤ) (s : Peers) → (swap_loaded k n o s).active ≡ s.active
unfolding swap_loaded
swap_loaded-active k n none s = refl
swap_loaded-active k n (some seen) s = swap-active k n seen s

on_waiting-active :
    (o : Option Waiting) (next : Waiting → Peers → Peers) (s : Peers)
    → ((w : Waiting) → (next w s).active ≡ s.active)
    → (on_waiting o next s).active ≡ s.active
unfolding on_waiting
on_waiting-active none next s h = refl
on_waiting-active (some w) next s h = h w

run-Tracked :
    (best : ℤ) (s : Peers) (events : List Event)
    → Tracked best s
    → Tracked (highest s.active best events) (run s events)
unfolding run highest step settled
run-Tracked best s [] t = t
run-Tracked best s (connected ∷ events) t =
    run-Tracked (max best (s.active +ℤ pos 1)) (step s connected) events
      (ap (λ (b : ℤ). max b (s.active +ℤ pos 1)) t.0, (tt, t.1))
run-Tracked best s (disconnected ∷ events) t = run-Tracked best (step s disconnected) events t
run-Tracked best s (load k ∷ events) t =
    subst (λ (a : ℤ). Tracked (highest a best events) (run (step s (load k)) events))
      (on_waiting-active (get_elem? s.waiting k) _ s (λ w. refl))
      (run-Tracked best (step s (load k)) events (load-Tracked best s k t))
run-Tracked best s (compare_and_swap k ∷ events) t =
    subst (λ (a : ℤ). Tracked (highest a best events) (run (step s (compare_and_swap k)) events))
      (on_waiting-active (get_elem? s.waiting k) _ s (λ w. swap_loaded-active k w.n w.loaded s))
      (run-Tracked best (step s (compare_and_swap k)) events (compare_and_swap-Tracked best s k t))

start-Tracked : Tracked (pos 0) no_peers
unfolding no_peers settled
start-Tracked = (refl, tt)

-- Whatever the order in which connections start, end and take their turns of the loop, once none is in
-- the loop the peak is the highest number of connections that there ever were.
pub run-highest :
    (events : List Event)
    → (run no_peers events).waiting ≡ []
    → (run no_peers events).peak ≡ highest (pos 0) (pos 0) events
unfolding no_peers settled
run-highest events quiet =
    subst
      (λ (w : List Waiting). settled (run no_peers events).peak w ≡ highest (pos 0) (pos 0) events)
      quiet (run-Tracked (pos 0) no_peers events start-Tracked).0
