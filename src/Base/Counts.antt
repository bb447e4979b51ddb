-- ===== src/Base/Counts.antt =====
-- Predicates on the elements of a list against the number of elements that pass a test.
use anki_backup_tool.Base.{
  ◌+◌, ◌<◌, Bool, true, false, not, ◌&&◌, List, [], ◌∷◌, ◌≡◌, inl, inr, refl, arith, tally, keep,
  All, Bool-cases,
}

module _ {A : Type 0} where
  pub All-with :
      (P Q R : A → Type 0)
      → ((x : A) → P x → Q x → R x)
      → (xs : List A) → All P xs
      → All Q xs
      → All R xs
  All-with P Q R f [] h k = tt
  All-with P Q R f (x ∷ xs) (h, hs) (k, ks) = (f x h k, All-with P Q R f xs hs ks)

  -- An element that is related to itself is counted.
  pub All-tally : (r : A → A → Bool) (xs : List A) → All (λ x. r x x ≡ true → 0 < tally (r x) xs) xs
  All-tally r [] = tt
  All-tally r (x ∷ xs) = (λ h. rw h (omega arith), more xs (All-tally r xs))
    where
      more :
          (ys : List A)
          → All (λ y. r y y ≡ true → 0 < tally (r y) xs) ys
          → All (λ y. r y y ≡ true → 0 < tally (r y) (x ∷ xs)) ys
      more [] h = tt
      more (y ∷ ys) (h, hs) = (λ k. omega (arith, h k), more ys hs)

  pub tally-split :
      (p q : A → Bool) (xs : List A)
      → tally p xs ≡ tally (λ x. q x && p x) xs + tally (λ x. not (q x) && p x) xs
  tally-split p q [] = refl
  tally-split p q (x ∷ xs) = ground (arith, tally-split p q xs)

  pub none-tally : (p : A → Bool) (xs : List A) → tally p xs ≡ 0 → All (λ x. p x ≡ false) xs
  none-tally p [] h = tt
  none-tally p (x ∷ xs) h = (ground arith, none-tally p xs (omega arith))

  pub All-keep :
      (P : A → Type 0) (p : A → Bool) (xs : List A)
      → All (λ x. p x ≡ true → P x) xs
      → All P (keep p xs)
  All-keep P p [] h = tt
  All-keep P p (x ∷ xs) (h, hs) = elim (Bool-cases (p x)) [
    | inl e ↦ rw e (h e, All-keep P p xs hs)
    | inr e ↦ rw e (All-keep P p xs hs)
  ]
