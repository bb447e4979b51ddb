-- ===== src/Examples/Unary.antt =====
-- Numbers as texts of that many marks, in the order of the numbers.
use Prim.Native.String.{[], ◌∷◌}
use Prim.Native.String.compare.{nil-cons, cons-cons}
use text.Mathlib.Text.{is_lt}
use anki_backup_tool.Base.{ℕ, zero, suc, ◌<◌, String, true, ◌≡◌, refl, ap, ◌∙◌, arith}
use anki_backup_tool.Base.Text.{text_lt}

unfoldable pub unary : ℕ → String
unary zero = ""
unary (suc n) = "1" ∷ unary n

unfoldable pub marks : String → ℕ
marks [] = zero
marks (c ∷ s) = suc (marks s)

pub marks-unary : (n : ℕ) → marks (unary n) ≡ n
unfolding marks unary
marks-unary zero = refl
marks-unary (suc n) = ap suc (marks-unary n)

pub unary_mono : (t u : ℕ) → t < u → text_lt (unary t) (unary u) ≡ true
unfolding unary
unary_mono zero zero h = absurd (omega arith)
unary_mono zero (suc u) h = ap is_lt (nil-cons "1" (unary u))
unary_mono (suc t) zero h = absurd (omega arith)
unary_mono (suc t) (suc u) h =
    ap is_lt (cons-cons "1" "1" (unary t) (unary u)) ∙ unary_mono t u (omega arith)
