-- ===== src/Download/Coordinator/Selection/Rarest.antt =====
-- `selectPieceFor` picks a rarest piece among those that the peer can offer.
use p2p_file_distribution.Base.{
  ℕ, zero, suc, ◌+◌, ◌<◌, Bool, true, false, none, some, ◌≡◌, ◌⊎◌, inl, inr, refl, sym, arith,
  Bool-cases,
}
use mathlib.Core.Path.{subst}
use p2p_file_distribution.Base.Int.{ℤ, ltb_ℤ, eq_ℤ, ◌≤ℤ◌}
use p2p_file_distribution.Base.Bytes.{Bytes}
use p2p_file_distribution.Download.Coordinator.State.{Coordinator, availability_of}
use p2p_file_distribution.Download.Coordinator.Selection.{
  Best, is_candidate, select_step, select_loop, select_piece_for,
}

module _ (coin : ℕ → ℕ → Bool) (c : Coordinator) (have : Bytes) where
  -- Piece `i` below `n` can be assigned, and no piece below `n` that can be assigned is rarer.
  pub record IsRarest (n i : ℕ) : Type 0 where
    pub below : i < n
    pub candidate : is_candidate c have i ≡ true
    pub least :
        (j : ℕ) → j < n → is_candidate c have j ≡ true → availability_of c i ≤ℤ availability_of c j

  -- What `best` stands for after the pieces below `n`.
  data Chosen (n : ℕ) (b : Best) : Type 0 where
    nothing : b.index ≡ none → ((j : ℕ) → j < n → is_candidate c have j ≡ false) → Chosen n b
    rarest :
        (i : ℕ)
        → b.index ≡ some i
        → availability_of c i ≡ b.availability
        → IsRarest n i
        → Chosen n b

  below_suc : {n j : ℕ} → j < suc n → (j < n) ⊎ (j ≡ n)
  below_suc h = omega arith

  keep_none :
      (n : ℕ)
      → ((j : ℕ) → j < n → is_candidate c have j ≡ false)
      → is_candidate c have n ≡ false
      → (j : ℕ) → j < suc n
      → is_candidate c have j ≡ false
  keep_none n before now j h = elim (below_suc h) [ inl k ↦ before j k | inr e ↦ rw e now ]

  -- A piece that stays the rarest when piece `n` is looked at.
  keep-IsRarest :
      (n i : ℕ)
      → IsRarest n i
      → (is_candidate c have n ≡ true → availability_of c i ≤ℤ availability_of c n)
      → IsRarest (suc n) i
  keep-IsRarest n i r now = record {
    below = omega (arith, r.below);
    candidate = r.candidate;
    least = λ j h cand. elim (below_suc h) [
      | inl k ↦ r.least j k cand
      | inr e ↦
          subst (λ k. availability_of c i ≤ℤ availability_of c k) (sym e)
            (now (subst (λ k. is_candidate c have k ≡ true) e cand))
    ];
  }

  -- A piece that takes over at its own round.
  new-IsRarest :
      (n : ℕ)
      → is_candidate c have n ≡ true
      → ((j : ℕ)
          → j < n
          → is_candidate c have j ≡ true
          → availability_of c n ≤ℤ availability_of c j)
      → IsRarest (suc n) n
  new-IsRarest n cand before = record {
    below = omega arith;
    candidate = cand;
    least = λ j h k. elim (below_suc h) [
      | inl l ↦ before j l k
      | inr e ↦ subst (λ m. availability_of c n ≤ℤ availability_of c m) (sym e) (omega arith)
    ];
  }

  not_less : (a b d : ℤ) → a ≡ b → ltb_ℤ d b ≡ false → a ≤ℤ d
  not_less a b d e h = ground arith

  less_than : (a b d x : ℤ) → a ≡ b → ltb_ℤ d b ≡ true → a ≤ℤ x → d ≤ℤ x
  less_than a b d x e h k = ground arith

  same_as : (a b d x : ℤ) → a ≡ b → eq_ℤ d b ≡ true → a ≤ℤ x → (d ≤ℤ x) × (d ≡ b)
  same_as a b d x e h k = ground arith

  -- The rounds that find a piece when `best` is one already: a rarer one, an equally rare one that
  -- takes over by lot, and any other.
  step_rarest :
      (n : ℕ) (b : Best) (i : ℕ)
      → b.index ≡ some i
      → availability_of c i ≡ b.availability
      → IsRarest n i
      → is_candidate c have n ≡ true
      → (less : Bool) → ltb_ℤ (availability_of c n) b.availability ≡ less
      → Chosen (suc n) (select_step coin c have n b)
  unfolding select_step
  step_rarest n b i found value r e true less =
      rw (e, found, less)
        (rarest n refl refl
          (new-IsRarest n e (λ j h k. less_than _ b.availability _ _ value less (r.least j h k))))
  step_rarest n b i found value r e false less =
      elim (Bool-cases (eq_ℤ (availability_of c n) b.availability)) [
        | inl tie ↦ elim (Bool-cases (coin n (b.ties + 1))) [
          | inl won ↦
              rw (e, found, less, tie, won)
                (rarest n refl
                  (same_as _ b.availability _ _ value tie (r.least i r.below r.candidate)).1
                  (new-IsRarest n e
                    (λ j h k. (same_as _ b.availability _ _ value tie (r.least j h k)).0)))
          | inr lost ↦
              rw (e, found, less, tie, lost)
                (rarest i refl value
                  (keep-IsRarest n i r (λ _. not_less _ b.availability _ value less)))
        ]
        | inr other ↦
            rw (e, found, less, other)
              (rarest i refl value
                (keep-IsRarest n i r (λ _. not_less _ b.availability _ value less)))
      ]

  step-Chosen : (n : ℕ) (b : Best) → Chosen n b → Chosen (suc n) (select_step coin c have n b)
  unfolding select_step
  step-Chosen n b (nothing none_yet before) = elim (Bool-cases (is_candidate c have n)) [
    | inl e ↦
        let taken : select_step coin c have n b
            ≡ record { index = some n; availability = availability_of c n; ties = 1 } =
          rw (e, none_yet) in
        rw taken (rarest n refl refl (new-IsRarest n e (λ j h k. cc (before j h))))
    | inr e ↦ rw e (nothing none_yet (keep_none n before e))
  ]
  step-Chosen n b (rarest i found value r) = elim (Bool-cases (is_candidate c have n)) [
    | inl e ↦ step_rarest n b i found value r e (ltb_ℤ (availability_of c n) b.availability) refl
    | inr e ↦ rw e (rarest i found value (keep-IsRarest n i r (λ k. cc)))
  ]

  loop-Chosen : (n : ℕ) → Chosen n (select_loop coin c have n)
  unfolding select_loop
  loop-Chosen zero = nothing refl (λ j h. absurd (omega arith))
  loop-Chosen (suc n) = step-Chosen n (select_loop coin c have n) (loop-Chosen n)

  -- Whatever the draws, `selectPieceFor` returns a piece that is missing, that the peer has and
  -- that no other such piece is rarer than; it returns none exactly when there is no such piece.
  pub select_piece_for-IsRarest :
      ((i : ℕ) × (select_piece_for coin c have ≡ some i) × IsRarest c.piece_count i)
      ⊎ ((select_piece_for coin c have ≡ none)
          × ((j : ℕ) → j < c.piece_count → is_candidate c have j ≡ false))
  unfolding select_piece_for
  select_piece_for-IsRarest = elim (loop-Chosen c.piece_count) [
    | nothing e before ↦ inr (e, before)
    | rarest i e _ r ↦ inl (i, e, r)
  ]
