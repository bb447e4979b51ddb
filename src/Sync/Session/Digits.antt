-- ===== src/Sync/Session/Digits.antt =====
-- The digits of a session id against the number that they write.
use Prim.Native.Char.{Char, code}
use Prim.Native.String.{[], ◌∷◌}
use anki_backup_tool.Base.{
  ℕ, zero, suc, ◌+◌, ◌*◌, ◌/◌, ◌%◌, ◌^◌, ◌<◌, ◌≤◌, String, Bool, true, false, ◌&&◌, Option, none,
  some, ◌≡◌, ◌≢◌, refl, sym, if◌then◌else◌, ◌==◌, nat_eq, arith, Bool-cases, inl, inr, ==-sound,
}
use native.Mathlib.Decide.{ℕ_discrete}
use anki_backup_tool.Sync.Session.{table, char_at, push_before, digits, simple_session_id}

-- The place of a character in a text.
abbrev pub place : String → Char → ℕ
place [] x = 0
place (c ∷ s) x = if code c == code x then 0 else suc (place s x)

-- The number that a text of digits writes, the lowest first.
abbrev pub value : String → ℕ
value [] = 0
value (c ∷ s) = place table c + 62 * value s

abbrev pub length : String → ℕ
length [] = 0
length (c ∷ s) = suc (length s)

abbrev is_placed : Option Char → ℕ → Bool
is_placed none n = false
is_placed (some c) n = place table c == n

-- Every digit below `n` stands in the table, at its own place.
abbrev placed : ℕ → Bool
placed zero = true
placed (suc n) = is_placed (char_at table n) n && placed n

table-placed : placed 62 ≡ true
unfolding char_at nat_eq ℕ_discrete
table-placed = refl

Stands : ℕ → Option Char → Type 0
Stands i o = (c : Char) × (o ≡ some c) × (place table c ≡ i)

is_placed-Stands : (o : Option Char) (n : ℕ) → is_placed o n ≡ true → Stands n o
unfolding Stands
is_placed-Stands none n h = absurd cc
is_placed-Stands (some c) n h = (c, refl, ==-sound _ _ h)

both : (a b : Bool) → (a && b) ≡ true → (a ≡ true) × (b ≡ true)
both a b h = ground arith

placed-below : (n i : ℕ) → placed n ≡ true → i < n → Stands i (char_at table i)
placed-below zero i h l = absurd (omega arith)
placed-below (suc n) i h l = elim (Bool-cases (i == n)) [
  | inl e ↦ rw (==-sound i n e) (is_placed-Stands (char_at table n) n (both _ _ h).0)
  | inr e ↦ placed-below n i (both _ _ h).1 (ground arith)
]

-- What the digits of `val` are: a text that writes it, no longer than the fuel.
abbrev Writes : ℕ → ℕ → Option String → Type 0
Writes fuel val o =
    (s : String) × (o ≡ some s) × (value s ≡ val) × (length s ≤ fuel) × (0 < val → 0 < length s)

pushed :
    (fuel val : ℕ) (o : Option Char) (rest : Option String)
    → 0 < val
    → Stands (val % 62) o
    → Writes fuel (val / 62) rest
    → Writes (suc fuel) val (push_before o rest)
unfolding push_before Stands
pushed fuel val o rest pos (c, oc, place_c) (s, rs, v, short, long) =
    rw (oc, rs) (c ∷ s, refl, omega arith, omega arith, λ h. omega arith)

digits-Writes : (fuel val : ℕ) → val < 62 ^ fuel → Writes fuel val (digits fuel val)
unfolding digits
digits-Writes zero val h = ("", refl, omega arith, omega arith, λ p. omega arith)
digits-Writes (suc fuel) val h = elim (Bool-cases (val == 0)) [
  | inl e ↦ rw e ("", refl, sym (==-sound val 0 e), omega arith, λ p. ground arith)
  | inr e ↦ rw e (
      pushed fuel val _ _ (ground arith) (placed-below 62 (val % 62) table-placed (omega arith))
        (digits-Writes fuel (val / 62) (omega arith)))
]

-- For every 32-bit number the session id ends within six rounds, without a panic, in one to six
-- digits, which write the number unless it is 0.
pub simple_session_id_lem :
    (n : ℕ)
    → n < 2 ^ 32
    → (s : String) × (simple_session_id n ≡ some s)
      × (0 < length s)
      × (length s ≤ 6)
      × (n ≢ 0 → value s ≡ n)
unfolding simple_session_id
simple_session_id_lem n h = elim (Bool-cases (n == 0)) [
  | inl e ↦ rw e ("0", refl, omega arith, omega arith, λ p. absurd (p (==-sound n 0 e)))
  | inr e ↦
      let (s, is, v, short, long) = digits-Writes 6 n (omega arith) in
      rw (e, is) (s, refl, long (ground arith), short, λ p. v)
]
