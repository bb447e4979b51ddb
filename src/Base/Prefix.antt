-- ===== src/Base/Prefix.antt =====
-- `str::strip_prefix`.
use Prim.Native.Char.{code}
use Prim.Native.String.{[], ◌∷◌}
use Prim.Native.String.append.{nil, cons}
use text.Mathlib.TextEquality.{Char-path}
use mathlib.Core.Option.{none-ne-some}
use anki_backup_tool.Base.{
  String, Bool, true, false, ◌<>◌, Option, none, some, ◌≡◌, refl, sym, ap, ◌∙◌, ◌==◌, nat_eq,
  if◌then◌else◌, ==-true, ==-sound, arith,
}

unfoldable pub strip_prefix : String → String → Option String
strip_prefix [] s = some s
strip_prefix (c ∷ p) [] = none
strip_prefix (c ∷ p) (d ∷ s) =
    let rest = strip_prefix p s in if code c == code d then rest else none

some_inj : {s t : String} → some s ≡ some t → s ≡ t
some_inj h = cc

chosen :
    {x : Option String} {t : String} (b : Bool)
    → b ≡ true
    → x ≡ some t
    → (if b then x else none) ≡ some t
chosen b e h = ground arith

matched :
    (b : Bool) (x : Option String) (t : String)
    → (if b then x else none) ≡ some t
    → (b ≡ true) × (x ≡ some t)
matched true x t h = (refl, h)
matched false x t h = absurd (none-ne-some t h)

pub strip_prefix-append : (p t : String) → strip_prefix p (p <> t) ≡ some t
unfolding strip_prefix
strip_prefix-append [] t = ap some (nil t)
strip_prefix-append (c ∷ p) t =
    ap (strip_prefix (c ∷ p)) (cons c p t)
    ∙ chosen (code c == code c) (==-true (code c) (code c) refl) (strip_prefix-append p t)

pub strip_prefix_sound : (p s t : String) → strip_prefix p s ≡ some t → s ≡ p <> t
unfolding strip_prefix
strip_prefix_sound [] s t h = some_inj h ∙ sym (nil t)
strip_prefix_sound (c ∷ p) [] t h = ground arith
strip_prefix_sound (c ∷ p) (d ∷ s) t h =
    let (same, rest) = matched (code c == code d) (strip_prefix p s) t h in
    ap (λ x. x ∷ s) (sym (Char-path c d (==-sound _ _ same)))
    ∙ ap (◌∷◌ c) (strip_prefix_sound p s t rest)
    ∙ sym (cons c p t)
