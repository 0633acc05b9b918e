-- ===== src/Peer/Listener/Slots.antt =====
-- The counters of the listener are the numbers of open connections.
use p2p_file_distribution.Base.{
  ℕ, zero, suc, ◌+◌, ◌≤◌, leb, ◌==◌, if◌then◌else◌, Bool, true, false, List, [], ◌∷◌, get_elem?,
  remove_at, length, Option, none, some, ◌≡◌, refl, arith, Bool-cases, ◌⊎◌, inl, inr, ap,
}
use p2p_file_distribution.Base.Int.{ℤ, pos, ◌-ℤ◌, pos-add, pos-sub}
use p2p_file_distribution.Base.Dict
use p2p_file_distribution.Base.Dict.{Dict, lookup-put, lookup-remove}
use p2p_file_distribution.Peer.Listener.{Listener, admit, release, or_zero, new_listener}

-- How many of the open connections come from an address.
abbrev pub count : ℕ → List ℕ → ℕ
count ip [] = 0
count ip (x ∷ xs) = (if x == ip then 1 else 0) + count ip xs

-- An address without a connection has no entry.
abbrev pub entry : ℕ → Option ℤ
entry zero = none
entry (suc n) = some (pos (suc n))

-- The counters stand for the list of the addresses of the open connections, and are in their bounds.
pub record Counts (l : Listener) (handlers : List ℕ) : Type 0 where
  pub total : l.total ≡ pos (length handlers)
  pub per_ip : (ip : ℕ) → Dict.lookup ip l.per_ip ≡ entry (count ip handlers)
  pub few : length handlers ≤ 200
  pub few_per_ip : (ip : ℕ) → count ip handlers ≤ 3

or_zero-entry : (n : ℕ) → or_zero (entry n) ≡ pos n
or_zero-entry zero = refl
or_zero-entry (suc n) = refl

pub new_listener-Counts : Counts new_listener []
unfolding new_listener Dict.lookup
new_listener-Counts = record {
  total = refl;
  per_ip = λ ip. refl;
  few = omega arith;
  few_per_ip = λ ip. omega arith;
}

-- What the guards are for: fewer than 200 connections, and fewer than 3 from the address.
abbrev pub has_slot : ℕ → List ℕ → Bool
has_slot ip handlers =
    if leb 200 (length handlers) then false else if leb 3 (count ip handlers) then false else true

module _ {l : Listener} {handlers : List ℕ} (c : Counts l handlers) (ip : ℕ) where
  open_here : or_zero (Dict.lookup ip l.per_ip) ≡ pos (count ip handlers)
  open_here = rw (c.per_ip ip) (or_zero-entry (count ip handlers))

  grown : Listener
  grown = record l {
    total = pos (suc (length handlers));
    per_ip = Dict.put ip (pos (suc (count ip handlers))) l.per_ip;
  }

  admit_lem : admit ip l ≡ (if has_slot ip handlers then (true, grown) else (false, l))
  unfolding admit grown
  admit_lem =
      rw
        (
          open_here,
          c.total,
          pos-add (length handlers) 1 (omega (arith, c.few)),
          pos-add (count ip handlers) 1 (omega (arith, c.few_per_ip ip)),
        )
        (ground arith)

  grown-per_ip : (j : ℕ) → Dict.lookup j grown.per_ip ≡ entry (count j (ip ∷ handlers))
  unfolding grown
  grown-per_ip j =
      ground (arith, lookup-put ip j (pos (suc (count ip handlers))) l.per_ip, c.per_ip j)

  grown-Counts : has_slot ip handlers ≡ true → Counts grown (ip ∷ handlers)
  grown-Counts slot = record {
    total = unfold grown in refl;
    per_ip = grown-per_ip;
    few = ground arith;
    few_per_ip = λ j. ground (arith, c.few_per_ip j);
  }

  -- `admit` takes a connection exactly when there is a slot for it, and counts it.
  pub admit_cases :
      ((has_slot ip handlers ≡ true)
        × ((admitted : Listener) × (admit ip l ≡ (true, admitted))
            × Counts admitted (ip ∷ handlers)))
      ⊎ ((has_slot ip handlers ≡ false) × (admit ip l ≡ (false, l)))
  admit_cases = elim (Bool-cases (has_slot ip handlers)) [
    | inl slot ↦ inl (slot, (grown, rw (admit_lem, slot) refl, grown-Counts slot))
    | inr full ↦ inr (full, rw (admit_lem, full) refl)
  ]

-- The list loses one connection from the address.
count-remove_at :
    (k : ℕ) (handlers : List ℕ) {ip : ℕ} (j : ℕ)
    → get_elem? handlers k ≡ some ip
    → (count j handlers ≡ (if ip == j then 1 else 0) + count j (remove_at k handlers))
count-remove_at k [] j e = cc
count-remove_at zero (x ∷ xs) j e = ground arith
count-remove_at (suc k) (x ∷ xs) j e = omega (arith, count-remove_at k xs j e)

length-remove_at :
    (k : ℕ) (handlers : List ℕ) {ip : ℕ}
    → get_elem? handlers k ≡ some ip
    → length handlers ≡ suc (length (remove_at k handlers))
length-remove_at k [] e = cc
length-remove_at zero (x ∷ xs) e = refl
length-remove_at (suc k) (x ∷ xs) e = ap suc (length-remove_at k xs e)

module _ {l : Listener} {handlers : List ℕ} (c : Counts l handlers) (k : ℕ) {ip : ℕ}
    (e : get_elem? handlers k ≡ some ip) where
  left_here : or_zero (Dict.lookup ip l.per_ip) -ℤ pos 1 ≡ pos (count ip (remove_at k handlers))
  left_here =
      rw
        (
          c.per_ip ip,
          or_zero-entry (count ip handlers),
          pos-sub (count ip handlers) 1 (ground (arith, count-remove_at k handlers ip e))
              (omega (arith, c.few_per_ip ip)),
        )
        (ap pos (ground (arith, count-remove_at k handlers ip e)))

  released-per_ip :
      (j : ℕ) → Dict.lookup j (release ip l).per_ip ≡ entry (count j (remove_at k handlers))
  unfolding release
  released-per_ip j = rw left_here (
      ground (
        arith,
        c.per_ip j,
        count-remove_at k handlers j e,
        lookup-put ip j (pos (count ip (remove_at k handlers))) l.per_ip,
        lookup-remove ip j (Dict.put ip (pos (count ip (remove_at k handlers))) l.per_ip),
      ))

  -- `release` takes the connection out of the counters, and deletes an entry that falls to 0.
  pub release-Counts : Counts (release ip l) (remove_at k handlers)
  unfolding release
  release-Counts = record {
    total =
        rw
          (
            c.total,
            pos-sub (length handlers) 1 (omega (arith, length-remove_at k handlers e))
                (omega (arith, c.few)),
          )
          (ap pos (omega (arith, length-remove_at k handlers e)));
    per_ip = released-per_ip;
    few = omega (arith, c.few, length-remove_at k handlers e);
    few_per_ip = λ j. omega (arith, c.few_per_ip j, count-remove_at k handlers j e);
  }
