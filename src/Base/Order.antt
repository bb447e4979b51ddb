-- ===== src/Base/Order.antt =====
-- Insertion sort by a Boolean order, and what it keeps: the elements are the same, as often, and
-- neighbours are in order. It is stable, as Rust's `sort_by`.
use mathlib.Core.Path.{◌≡◌, refl, sym, ◌∙◌}
use mathlib.Core.Bool.{Bool, true, false}
use mathlib.Core.Logic.{inl, inr}
use mathlib.Core.List.{List, [], ◌∷◌, map}
use native.Mathlib.Omega.{arith}
use anki_backup_tool.Base.Tests.{if◌then◌else◌, Bool-cases}
use anki_backup_tool.Base.Lists.{tally, All}

-- Two lists hold the same elements, as often: every test passes equally often.
abbrev pub SameItems {ℓ} : {A : Type ℓ} → List A → List A → Type ℓ
SameItems {A = A} xs ys = (p : A → Bool) → tally p xs ≡ tally p ys

module _ {A B : Type 0} (f : A → B) where
  tally-map : (q : B → Bool) (xs : List A) → tally q (map f xs) ≡ tally (λ a. q (f a)) xs
  tally-map q [] = refl
  tally-map q (x ∷ xs) = rw (tally-map q xs)

  pub SameItems-map : (xs ys : List A) → SameItems xs ys → SameItems (map f xs) (map f ys)
  SameItems-map xs ys same q = tally-map q xs ∙ same (λ x. q (f x)) ∙ sym (tally-map q ys)

module _ {ℓ} {A : Type ℓ} (le : A → A → Bool) where
  abbrev pub IsSorted : List A → Type 0
  IsSorted [] = Unit
  IsSorted (x ∷ xs) = All (λ y. le x y ≡ true) xs × IsSorted xs

  unfoldable pub insert : A → List A → List A
  insert x [] = x ∷ []
  insert x (y ∷ ys) = if le x y then x ∷ y ∷ ys else y ∷ insert x ys

  unfoldable pub sort_by : List A → List A
  unfolding insert
  sort_by [] = []
  sort_by (x ∷ xs) = insert x (sort_by xs)

  tally-insert : (p : A → Bool) (x : A) (ys : List A) → tally p (insert x ys) ≡ tally p (x ∷ ys)
  unfolding insert
  tally-insert p x [] = refl
  tally-insert p x (y ∷ ys) = ground (arith, tally-insert p x ys)

  pub sort_by-SameItems : (xs : List A) → SameItems (sort_by xs) xs
  unfolding sort_by
  sort_by-SameItems [] p = refl
  sort_by-SameItems (x ∷ xs) p =
      omega (arith, tally-insert p x (sort_by xs), sort_by-SameItems xs p)

  All-insert : (P : A → Type 0) (x : A) (ys : List A) → P x → All P ys → All P (insert x ys)
  unfolding insert
  All-insert P x [] px h = (px, tt)
  All-insert P x (y ∷ ys) px h = ground (arith, All-insert P x ys px h.1)

  All-mono : {P Q : A → Type 0} → ((a : A) → P a → Q a) → (ys : List A) → All P ys → All Q ys
  All-mono f [] h = tt
  All-mono f (y ∷ ys) h = (f y h.0, All-mono f ys h.1)

  module _ (total : (a b : A) → le a b ≡ false → le b a ≡ true)
      (trans : (a b c : A) → le a b ≡ true → le b c ≡ true → le a c ≡ true) where
    insert-IsSorted : (x : A) (ys : List A) → IsSorted ys → IsSorted (insert x ys)
    unfolding insert
    insert-IsSorted x [] h = (tt, tt)
    insert-IsSorted x (y ∷ ys) h = elim (Bool-cases (le x y)) [
      | inl e ↦ rw e ((e, All-mono (λ c yc. trans x y c e yc) ys h.0), h)
      | inr e ↦ rw e (All-insert _ x ys (total x y e) h.0, insert-IsSorted x ys h.1)
    ]

    pub sort_by-IsSorted : (xs : List A) → IsSorted (sort_by xs)
    unfolding sort_by
    sort_by-IsSorted [] = tt
    sort_by-IsSorted (x ∷ xs) = insert-IsSorted x (sort_by xs) (sort_by-IsSorted xs)
