-- ===== src/Sync/Session.antt =====
-- `simple_session_id`: a random number written in 62 letters and digits, the lowest digit first.
pub mod Digits
use Prim.Native.Char.{Char, code}
use Prim.Native.String.{[], ◌∷◌}
use anki_backup_tool.Base.{
  ℕ, zero, suc, ◌+◌, ◌*◌, ◌/◌, ◌%◌, String, Option, none, some, if◌then◌else◌, ◌==◌, nat_eq,
}

abbrev pub table : String
table = "abcdefghijklmnopqrstuvwxyzABCDEFGHIJKLMNOPQRSTUVWXYZ0123456789"

-- `table[idx]`; past the end the program panics.
unfoldable pub char_at : String → ℕ → Option Char
char_at [] i = none
char_at (c ∷ s) zero = some c
char_at (c ∷ s) (suc i) = char_at s i

push_before : Option Char → Option String → Option String
push_before (some c) (some s) = some (c ∷ s)
push_before _ _ = none

-- The loop, with as many rounds as the fuel allows.
unfoldable pub digits : ℕ → ℕ → Option String
unfolding push_before
digits zero val = some ""
digits (suc fuel) val =
    let rest = digits fuel (val / 62) in
    if val == 0 then some "" else push_before (char_at table (val % 62)) rest

-- Six rounds are enough for a 32-bit number. `none` is a panic.
unfoldable pub simple_session_id : ℕ → Option String
simple_session_id n = if n == 0 then some "0" else digits 6 n
