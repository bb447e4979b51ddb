-- ===== src/Base/Trim.antt =====
-- `str::trim_end_matches` of one character.
use Prim.Native.Char.{Char, code}
use Prim.Native.String.{[], ◌∷◌}
use anki_backup_tool.Base.{
  ℕ, String, Bool, true, false, ◌&&◌, ◌≡◌, refl, ◌==◌, nat_eq, if◌then◌else◌, Bool-cases, inl, inr,
}

abbrev pub is_empty : String → Bool
is_empty [] = true
is_empty (c ∷ s) = false

unfoldable pub trim_end_matches : ℕ → String → String
trim_end_matches x [] = ""
trim_end_matches x (c ∷ s) =
    let rest = trim_end_matches x s in if is_empty rest && code c == x then "" else c ∷ rest

-- The last character of a text is another one than `x`.
abbrev pub EndsOther : ℕ → String → Type 0
EndsOther x [] = Unit
EndsOther x (c ∷ s) = ((is_empty s && code c == x) ≡ false) × EndsOther x s

kept_end :
    (x : ℕ) (c : Char) (rest : String)
    → EndsOther x rest
    → EndsOther x (if is_empty rest && code c == x then "" else c ∷ rest)
kept_end x c rest h = elim (Bool-cases (is_empty rest && code c == x)) [
  | inl e ↦ rw e tt
  | inr e ↦ rw e (e, h)
]

-- What is trimmed does not end with the character.
pub trim_end_matches-EndsOther : (x : ℕ) (s : String) → EndsOther x (trim_end_matches x s)
unfolding trim_end_matches
trim_end_matches-EndsOther x [] = tt
trim_end_matches-EndsOther x (c ∷ s) = kept_end x c _ (trim_end_matches-EndsOther x s)

-- A text that does not end with the character stays.
pub trim_end_matches_kept : (x : ℕ) (s : String) → EndsOther x s → trim_end_matches x s ≡ s
unfolding trim_end_matches
trim_end_matches_kept x [] h = refl
trim_end_matches_kept x (c ∷ s) (h, hs) = rw (trim_end_matches_kept x s hs, h)
