-- ===== src/Base/Text.antt =====
-- Orders and numbers in texts: the order of `str`, `i64` printed and parsed, and `replace`.
use Prim.Native.Char.{Char, code}
use Prim.Native.String
use Prim.Native.String.{compare, [], ◌∷◌}
use anki_backup_tool.Base.{
  ℕ, zero, suc, ◌+◌, ◌-◌, ◌*◌, ◌/◌, ◌%◌, ◌^◌, String, Bool, true, false, Option, none, some, ◌&&◌,
  ltb, leb, ◌≢◌, refl, if◌then◌else◌, ◌==◌, nat_eq,
}
use anki_backup_tool.Base.Int.{ℤ, pos, negsuc}
use text.Mathlib.Text.{is_lt, is_le}

-- `a < b` and `a <= b` on `str`
abbrev pub text_lt : String → String → Bool
text_lt a b = is_lt (compare a b)

abbrev pub text_le : String → String → Bool
text_le a b = is_le (compare a b)

digit_char : ℕ → String
digit_char d =
    if d == 0
    then "0"
    else if d == 1
    then "1"
    else if d == 2
    then "2"
    else if d == 3
    then "3"
    else if d == 4
    then "4"
    else if d == 5
    then "5"
    else if d == 6
    then "6"
    else if d == 7
    then "7"
    else if d == 8
    then "8"
    else "9"

-- Decimal digits before `rest`, most significant first. An `i64` has 19 digits at most.
show_digits : ℕ → ℕ → String → String
show_digits zero n rest = rest
show_digits (suc fuel) n rest =
    let shown = String.◌++◌ (digit_char (n % 10)) rest in
    let more = show_digits fuel (n / 10) shown in if n / 10 == 0 then shown else more

-- `format!("{}")` of an `i64`
unfoldable pub show_ℤ : ℤ → String
unfolding show_digits digit_char nat_eq
show_ℤ (pos n) = show_digits 19 n ""
show_ℤ (negsuc n) = String.◌++◌ "-" (show_digits 19 (suc n) "")

-- The value of a text of decimal digits only.
parse_digits : ℕ → String → Option ℕ
parse_digits acc [] = some acc
parse_digits acc (ch ∷ rest) =
    let c = code ch in
    let more = parse_digits (acc * 10 + (c - 48)) rest in
    if leb 48 c && leb c 57 then more else none

-- One digit at least.
parse_ℕ : String → Option ℕ
parse_ℕ [] = none
parse_ℕ (ch ∷ rest) = parse_digits 0 (ch ∷ rest)

positive : Option ℕ → Option ℤ
positive none = none
positive (some n) = if ltb n (2 ^ 63) then some (pos n) else none

negative : Option ℕ → Option ℤ
negative none = none
negative (some zero) = some (pos 0)
negative (some (suc n)) = if ltb n (2 ^ 63) then some (negsuc n) else none

-- `str::parse::<i64>()`: a sign, then digits, in the range of the type.
unfoldable pub parse_i64 : String → Option ℤ
unfolding parse_ℕ parse_digits positive negative
parse_i64 [] = none
parse_i64 (ch ∷ rest) =
    if code ch == b'+'
    then positive (parse_ℕ rest)
    else if code ch == b'-'
    then negative (parse_ℕ rest)
    else positive (parse_ℕ (ch ∷ rest))

-- `replace(from, to)` of one character by another.
unfoldable pub replace : ℕ → Char → String → String
replace from to [] = []
replace from to (ch ∷ rest) =
    let more = replace from to rest in if code ch == from then to ∷ more else ch ∷ more

first_kept : (b : Bool) (x y : Char) (s : String) → (if b then x ∷ s else y ∷ s) ≢ ""
first_kept true x y s e = cc
first_kept false x y s e = cc

pub replace-nonempty : (from : ℕ) (to : Char) (s : String) → s ≢ "" → replace from to s ≢ ""
unfolding replace
replace-nonempty from to [] h e = h refl
replace-nonempty from to (ch ∷ rest) h e =
    first_kept (code ch == from) to ch (replace from to rest) e
