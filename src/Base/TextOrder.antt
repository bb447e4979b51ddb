-- ===== src/Base/TextOrder.antt =====
-- The order of texts is asymmetric.
use Prim.Native.Nat.{ℕ, Ordering, compare as compare_ℕ}
use Prim.Native.Char.{code}
use Prim.Native.String.{[], ◌∷◌, compare, then}
use Prim.Native.String.compare
use anki_backup_tool.Base.{String, true, false, ◌≡◌, refl, sym, ap, ◌∙◌, arith, ◌≢◌}
use anki_backup_tool.Base.Text.{text_lt, text_le}
use text.Mathlib.Text.{is_lt, is_le}
use text.Mathlib.TextPositions.{compare_refl}

not_le : false ≢ true
not_le = λ e. cc

swap_ℕ : (m n : ℕ) → compare_ℕ m n ≡ Ordering.lt → compare_ℕ n m ≡ Ordering.gt
swap_ℕ m n h = ground arith

same_ℕ : (m n : ℕ) → compare_ℕ m n ≡ Ordering.eq → compare_ℕ n m ≡ Ordering.eq
same_ℕ m n h = ground arith

-- The first answer that is not "equal", and the answers the other way round.
swap_then :
    (a b a' b' : Ordering)
    → (a ≡ Ordering.lt → a' ≡ Ordering.gt)
    → (a ≡ Ordering.eq → a' ≡ Ordering.eq)
    → (b ≡ Ordering.lt → b' ≡ Ordering.gt)
    → then a b ≡ Ordering.lt
    → then a' b' ≡ Ordering.gt
swap_then Ordering.lt b a' b' f g k h = rw (f refl) refl
swap_then Ordering.eq b a' b' f g k h = rw (g refl) (k h)
swap_then Ordering.gt b a' b' f g k h = cc

swap : (s t : String) → compare s t ≡ Ordering.lt → compare t s ≡ Ordering.gt
swap [] [] h = absurd (ne (sym compare.nil-nil ∙ h))
  where
    ne : Ordering.eq ≢ Ordering.lt
    ne e = cc
swap [] (d ∷ t) h = compare.cons-nil d t
swap (c ∷ s) [] h = absurd (ne (sym (compare.cons-nil c s) ∙ h))
  where
    ne : Ordering.gt ≢ Ordering.lt
    ne e = cc
swap (c ∷ s) (d ∷ t) h =
    compare.cons-cons d c t s
    ∙ swap_then (compare_ℕ (code c) (code d)) (compare s t) (compare_ℕ (code d) (code c))
        (compare t s) (swap_ℕ (code c) (code d)) (same_ℕ (code c) (code d)) (swap s t)
        (sym (compare.cons-cons c d s t) ∙ h)

is_lt-true : (o : Ordering) → is_lt o ≡ true → o ≡ Ordering.lt
is_lt-true Ordering.lt h = refl
is_lt-true Ordering.eq h = cc
is_lt-true Ordering.gt h = cc

pub text_lt-asym : (s t : String) → text_lt s t ≡ true → text_le t s ≡ false
text_lt-asym s t h = rw (swap s t (is_lt-true (compare s t) h)) refl

le_of_lt : (o : Ordering) → is_le o ≡ false → is_lt o ≡ false
le_of_lt Ordering.lt h = cc
le_of_lt Ordering.eq h = refl
le_of_lt Ordering.gt h = refl

pub text_lt-not-lt : (s t : String) → text_lt s t ≡ true → text_lt t s ≡ false
text_lt-not-lt s t h = le_of_lt (compare t s) (text_lt-asym s t h)

pub text_lt_irrefl : (s : String) → text_lt s s ≡ false
text_lt_irrefl s = rw (compare_refl s) refl

-- What two answers say of a third, as for the numbers of three characters.
record Chained (a b r : Ordering) : Type 0 where
  lt_lt : a ≡ Ordering.lt → b ≡ Ordering.lt → r ≡ Ordering.lt
  lt_eq : a ≡ Ordering.lt → b ≡ Ordering.eq → r ≡ Ordering.lt
  eq_lt : a ≡ Ordering.eq → b ≡ Ordering.lt → r ≡ Ordering.lt
  eq_eq : a ≡ Ordering.eq → b ≡ Ordering.eq → r ≡ Ordering.eq

compare-Chained : (l m n : ℕ) → Chained (compare_ℕ l m) (compare_ℕ m n) (compare_ℕ l n)
compare-Chained l m n = record {
  lt_lt = λ h k. ground arith;
  lt_eq = λ h k. ground arith;
  eq_lt = λ h k. ground arith;
  eq_eq = λ h k. ground arith;
}

is_le-then :
    (a b r x y z : Ordering)
    → Chained a b r
    → (is_le x ≡ true → is_le y ≡ true → is_le z ≡ true)
    → is_le (then a x) ≡ true
    → is_le (then b y) ≡ true
    → is_le (then r z) ≡ true
is_le-then Ordering.gt b r x y z c f h k = absurd cc
is_le-then Ordering.lt Ordering.gt r x y z c f h k = absurd cc
is_le-then Ordering.eq Ordering.gt r x y z c f h k = absurd cc
is_le-then Ordering.lt Ordering.lt r x y z c f h k = rw (c.lt_lt refl refl) refl
is_le-then Ordering.lt Ordering.eq r x y z c f h k = rw (c.lt_eq refl refl) refl
is_le-then Ordering.eq Ordering.lt r x y z c f h k = rw (c.eq_lt refl refl) refl
is_le-then Ordering.eq Ordering.eq r x y z c f h k = rw (c.eq_eq refl refl) (f h k)

pub text_le_trans : (s t u : String) → text_le s t ≡ true → text_le t u ≡ true → text_le s u ≡ true
text_le_trans [] t [] h k = refl
text_le_trans [] t (e ∷ u) h k = rw (compare.nil-cons e u) refl
text_le_trans (c ∷ s) [] u h k = absurd (not_le (sym (ap is_le (compare.cons-nil c s)) ∙ h))
text_le_trans (c ∷ s) (d ∷ t) [] h k = absurd (not_le (sym (ap is_le (compare.cons-nil d t)) ∙ k))
text_le_trans (c ∷ s) (d ∷ t) (e ∷ u) h k =
    ap is_le (compare.cons-cons c e s u)
    ∙ is_le-then (compare_ℕ (code c) (code d)) (compare_ℕ (code d) (code e))
        (compare_ℕ (code c) (code e)) (compare s t) (compare t u) (compare s u)
        (compare-Chained (code c) (code d) (code e)) (text_le_trans s t u)
        (sym (ap is_le (compare.cons-cons c d s t)) ∙ h)
        (sym (ap is_le (compare.cons-cons d e t u)) ∙ k)

-- Of two texts one is at most the other.
total_then :
    (a b a' b' : Ordering)
    → (a ≡ Ordering.gt → a' ≡ Ordering.lt)
    → (a ≡ Ordering.eq → a' ≡ Ordering.eq)
    → (is_le b ≡ false → is_le b' ≡ true)
    → is_le (then a b) ≡ false
    → is_le (then a' b') ≡ true
total_then Ordering.lt b a' b' f g k h = absurd cc
total_then Ordering.eq b a' b' f g k h = rw (g refl) (k h)
total_then Ordering.gt b a' b' f g k h = rw (f refl) refl

back_ℕ : (m n : ℕ) → compare_ℕ m n ≡ Ordering.gt → compare_ℕ n m ≡ Ordering.lt
back_ℕ m n h = ground arith

pub text_le_total : (s t : String) → text_le s t ≡ false → text_le t s ≡ true
text_le_total [] [] h = refl
text_le_total [] (d ∷ t) h = absurd (not_le (sym h ∙ ap is_le (compare.nil-cons d t)))
text_le_total (c ∷ s) [] h = rw (compare.nil-cons c s) refl
text_le_total (c ∷ s) (d ∷ t) h =
    ap is_le (compare.cons-cons d c t s)
    ∙ total_then (compare_ℕ (code c) (code d)) (compare s t) (compare_ℕ (code d) (code c))
        (compare t s) (back_ℕ (code c) (code d)) (same_ℕ (code c) (code d)) (text_le_total s t)
        (sym (ap is_le (compare.cons-cons c d s t)) ∙ h)
