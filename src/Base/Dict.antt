-- ===== src/Base/Dict.antt =====
-- A Go map as an association list. Its iteration order is not specified, so a loop over a map takes
-- the order of the keys as an argument.
use Prim.Native.Nat.{ℕ, ◌+◌, ◌≤◌}
use mathlib.Core.Path.{◌≡◌, refl}
use mathlib.Core.List.{List, [], ◌∷◌}
use mathlib.Core.Option.{Option, none, some}
use native.Mathlib.Omega.{arith}
use p2p_file_distribution.Base.Tests.{◌==◌, if◌then◌else◌}

abbrev pub Dict {ℓ} : Type ℓ → Type ℓ
Dict V = List (ℕ × V)

module _ {ℓ} {V : Type ℓ} where
  unfoldable pub lookup : ℕ → Dict V → Option V
  lookup k [] = none
  lookup k ((j, v) ∷ d) = if j == k then some v else lookup k d

  unfoldable pub put : ℕ → V → Dict V → Dict V
  put k v [] = (k, v) ∷ []
  put k v ((j, w) ∷ d) = if j == k then (j, v) ∷ d else (j, w) ∷ put k v d

  unfoldable pub remove : ℕ → Dict V → Dict V
  remove k [] = []
  remove k ((j, w) ∷ d) = if j == k then remove k d else (j, w) ∷ remove k d

  pub lookup-put :
      (k j : ℕ) (v : V) (d : Dict V)
      → lookup j (put k v d) ≡ (if k == j then some v else lookup j d)
  unfolding lookup put
  lookup-put k j v [] = refl
  lookup-put k j v ((i, w) ∷ d) = ground (arith, lookup-put k j v d)

  pub lookup-remove :
      (k j : ℕ) (d : Dict V) → lookup j (remove k d) ≡ (if k == j then none else lookup j d)
  unfolding lookup remove
  lookup-remove k j [] = ground arith
  lookup-remove k j ((i, w) ∷ d) = ground (arith, lookup-remove k j d)

  -- No key stands twice.
  abbrev pub Unique : Dict V → Type ℓ
  Unique [] = Unit {ℓ}
  Unique ((k, v) ∷ d) = (lookup k d ≡ none) × Unique d

  pub put-Unique : (k : ℕ) (v : V) (d : Dict V) → Unique d → Unique (put k v d)
  unfolding put lookup
  put-Unique k v [] u = (refl, tt)
  put-Unique k v ((j, w) ∷ d) u = ground (arith, put-Unique k v d, lookup-put k j v d)

  pub remove-Unique : (k : ℕ) (d : Dict V) → Unique d → Unique (remove k d)
  unfolding remove
  remove-Unique k [] u = tt
  remove-Unique k ((j, w) ∷ d) u = ground (arith, remove-Unique k d, lookup-remove k j d)

module _ {ℓ} {V : Type ℓ} (f : V → ℕ) where
  unfoldable pub total : Dict V → ℕ
  total [] = 0
  total ((k, v) ∷ d) = f v + total d

  abbrev pub weight : Option V → ℕ
  weight none = 0
  weight (some v) = f v

  pub total-put :
      (k : ℕ) (v : V) (d : Dict V) → total (put k v d) + weight (lookup k d) ≡ total d + f v
  unfolding total put lookup
  total-put k v [] = omega arith
  total-put k v ((j, w) ∷ d) = ground (arith, total-put k v d)

  remove_absent : (k : ℕ) (d : Dict V) → lookup k d ≡ none → remove k d ≡ d
  unfolding lookup remove
  remove_absent k [] h = refl
  remove_absent k ((j, w) ∷ d) h = ground (arith, remove_absent k d)

  pub total-remove :
      (k : ℕ) (d : Dict V) → Unique d → total (remove k d) + weight (lookup k d) ≡ total d
  unfolding total remove lookup
  total-remove k [] u = omega arith
  total-remove k ((j, w) ∷ d) u = ground (arith, total-remove k d, remove_absent k d)

  pub weight-le-total : (k : ℕ) (d : Dict V) → weight (lookup k d) ≤ total d
  unfolding total lookup
  weight-le-total k [] = omega arith
  weight-le-total k ((j, w) ∷ d) = ground (arith, weight-le-total k d)
