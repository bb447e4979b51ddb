-- ===== src/Examples/Decks.antt =====
-- Decks of a small collection.
use native.Mathlib.Decide.{ℕ_discrete}
use anki_backup_tool.Base.Text.{parse_i64}
use anki_backup_tool.Base.{nat_eq, string_eq, String, Option, some, List, [], ◌∷◌, ◌≡◌, refl}
use anki_backup_tool.Base.Int.{ℤ, pos, ℤ_eq}
use anki_backup_tool.Stats.{DeckNames, insert, deck_names_from, parse_deck_names_legacy}
use anki_backup_tool.Libraries.{Fields, str, obj, end, field}
use anki_backup_tool.World.{Platform, ok}
use anki_backup_tool.Examples.Machine.{machine, libraries}
use anki_backup_tool.Stats.Decks.{
  NamesFrom, deck_names_from_lem, LegacyNames, parse_deck_names_legacy_lem,
}

abbrev rows : List (Option (ℤ × String))
rows = some (pos 10, "Default") ∷ some (pos 20, "Spanish") ∷ []

abbrev names : DeckNames
names = (pos 10, "Default") ∷ (pos 20, "Spanish") ∷ []

names_read : deck_names_from [] rows ≡ some names
unfolding deck_names_from insert ℤ_eq ℕ_discrete
names_read = refl

deck_names_from_example : NamesFrom [] rows (deck_names_from [] rows)
deck_names_from_example = deck_names_from_lem rows

-- The id 10 stands twice, and the second object has no name.
abbrev fields : Fields
fields =
    field "10" (obj (field "name" (str "Default") end))
      (field "010" (obj end) (field "x" (obj (field "name" (str "none") end)) end))

abbrev legacy_machine : Platform
legacy_machine = record {
  lib = record libraries { json_from_str = λ s. some (obj fields) };
  fates = machine.fates;
  times = machine.times;
  uuids = machine.uuids;
}

abbrev legacy : DeckNames
legacy = (pos 10, "Default") ∷ []

legacy_read : parse_deck_names_legacy ⦃P = legacy_machine⦄ "{}" ≡ ok legacy
unfolding parse_deck_names_legacy insert parse_i64 nat_eq string_eq
legacy_read = refl

parse_deck_names_legacy_example : LegacyNames (legacy_machine.json_from_str "{}") legacy
parse_deck_names_legacy_example =
    parse_deck_names_legacy_lem ⦃P = legacy_machine⦄ "{}" legacy legacy_read
