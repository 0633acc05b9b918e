-- ===== src/Storage/Positional.antt =====
-- Positional writes: what is read back at the same place and at other places.
use p2p_file_distribution.Base.{
  ℕ, zero, suc, ◌+◌, ◌≤◌, [], ◌∷◌, length, take, drop, ◌≡◌, refl, arith, ap, ◌∙◌,
}
use p2p_file_distribution.Base.Bytes.{Bytes}
use p2p_file_distribution.Storage.{write_over, truncate}

take_length : (content : Bytes) → take (length content) content ≡ content
take_length [] = refl
take_length (b ∷ content) = ap (λ (l : Bytes). b ∷ l) (take_length content)

drop_all : (s : ℕ) (content : Bytes) → length content ≤ s → drop s content ≡ []
drop_all zero [] h = refl
drop_all zero (b ∷ content) h = absurd (omega (arith, h))
drop_all (suc s) [] h = refl
drop_all (suc s) (b ∷ content) h = drop_all s content (omega (arith, h))

pub take-write_over :
    (offset : ℕ) (content f : Bytes)
    → take (length content) (drop offset (write_over offset content f)) ≡ content
unfolding write_over
take-write_over zero [] f = refl
take-write_over zero (b ∷ content) [] = rw (take_length content) refl
take-write_over zero (b ∷ content) (x ∷ f) = rw (take-write_over zero content f) refl
take-write_over (suc offset) content [] = take-write_over offset content []
take-write_over (suc offset) content (x ∷ f) = take-write_over offset content f

pub write_over-before :
    (offset s n : ℕ) (content f : Bytes)
    → s + n ≤ offset
    → offset ≤ length f
    → take n (drop s (write_over offset content f)) ≡ take n (drop s f)
unfolding write_over
write_over-before zero zero zero content f h k = refl
write_over-before zero zero (suc n) content f h k = absurd (omega (arith, h))
write_over-before zero (suc s) n content f h k = absurd (omega (arith, h))
write_over-before (suc offset) s n content [] h k = absurd (omega (arith, k))
write_over-before (suc offset) zero zero content (x ∷ f) h k = refl
write_over-before (suc offset) zero (suc n) content (x ∷ f) h k =
    ap (λ (l : Bytes). x ∷ l)
      (write_over-before offset zero n content f (omega (arith, h)) (omega (arith, k)))
write_over-before (suc offset) (suc s) n content (x ∷ f) h k =
    write_over-before offset s n content f (omega (arith, h)) (omega (arith, k))

pub write_over-after :
    (offset s : ℕ) (content f : Bytes)
    → offset + length content ≤ s
    → drop s (write_over offset content f) ≡ drop s f
unfolding write_over
write_over-after zero s [] f h = refl
write_over-after zero zero (b ∷ content) f h = absurd (omega (arith, h))
write_over-after zero (suc s) (b ∷ content) [] h = drop_all s content (omega (arith, h))
write_over-after zero (suc s) (b ∷ content) (x ∷ f) h =
    write_over-after zero s content f (omega (arith, h))
write_over-after (suc offset) zero content f h = absurd (omega (arith, h))
write_over-after (suc offset) (suc s) content [] h =
    past (write_over-after offset s content [] (omega (arith, h)))
  where
    past : {l : Bytes} → l ≡ drop s [] → l ≡ []
    past e = e ∙ drop_all s [] (omega arith)
write_over-after (suc offset) (suc s) content (x ∷ f) h =
    write_over-after offset s content f (omega (arith, h))

pub length-write_over :
    (offset : ℕ) (content f : Bytes)
    → offset + length content ≤ length f
    → length (write_over offset content f) ≡ length f
unfolding write_over
length-write_over zero [] f h = refl
length-write_over zero (b ∷ content) [] h = absurd (omega (arith, h))
length-write_over zero (b ∷ content) (x ∷ f) h =
    ap suc (length-write_over zero content f (omega (arith, h)))
length-write_over (suc offset) content [] h = absurd (omega (arith, h))
length-write_over (suc offset) content (x ∷ f) h =
    ap suc (length-write_over offset content f (omega (arith, h)))

pub length-truncate : (n : ℕ) (f : Bytes) → length (truncate n f) ≡ n
unfolding truncate
length-truncate zero f = refl
length-truncate (suc n) [] = ap suc (length-truncate n [])
length-truncate (suc n) (b ∷ f) = ap suc (length-truncate n f)
