-- ===== src/Stats.antt =====
-- `extract_stats` of crates/storage/src/repository.rs: counts and deck names out of a collection file.
pub mod Decks
pub mod Groups
pub mod Tables
pub mod Extract
use anki_backup_tool.Base.{
  ℕ, ◌+◌, String, ◌<>◌, Bool, Option, none, some, List, [], ◌∷◌, map, length, if◌then◌else◌, ◌==◌,
  string_eq,
}
use anki_backup_tool.Base.Int.{ℤ, as_i64, ℤ_eq}
use anki_backup_tool.Base.Order.{sort_by}
use anki_backup_tool.Base.Text.{text_le, show_ℤ, parse_i64}
use anki_backup_tool.Backup.{BackupStats, DeckStats}
use anki_backup_tool.Libraries.{Collection, Value, Fields}
use anki_backup_tool.World.{
  FilePath, Platform, Io, Result, ok, err, failed, malformed, pure, ok_or, read, ◌>>=◌,
}

-- `HashMap<i64, String>`
abbrev pub DeckNames : Type 0
DeckNames = List (ℤ × String)

unfoldable pub get : ℤ → DeckNames → Option String
get id [] = none
get id ((j, name) ∷ m) = if j == id then some name else get id m

-- `HashMap::insert`: a later value takes the place of an earlier one.
unfoldable pub insert : ℤ → String → DeckNames → DeckNames
insert id name [] = (id, name) ∷ []
insert id name ((j, old) ∷ m) = if j == id then (id, name) ∷ m else (j, old) ∷ insert id name m

-- The loop of `parse_deck_names_new`, which stops at a row of other types.
unfoldable pub deck_names_from : DeckNames → List (Option (ℤ × String)) → Option DeckNames
deck_names_from out [] = some out
deck_names_from out (none ∷ rows) = none
deck_names_from out (some (id, name) ∷ rows) = deck_names_from (insert id name out) rows

-- `deck_value.get("name").and_then(|v| v.as_str())`
unfoldable pub find_field : String → Fields → Option Value
find_field k Fields.end = none
find_field k (Fields.field j v fs) = if j == k then some v else find_field k fs

as_str : Option Value → Option String
as_str (some (Value.str s)) = some s
as_str _ = none

unfoldable pub deck_name_of : Value → Option String
unfolding as_str find_field
deck_name_of (Value.obj fs) = as_str (find_field "name" fs)
deck_name_of _ = none

-- One round of the loop of `parse_deck_names_legacy`: what has no number or no name is passed over.
unfoldable pub legacy_insert : Option ℤ → Option String → DeckNames → DeckNames
legacy_insert (some id) (some name) out = insert id name out
legacy_insert _ _ out = out

unfoldable pub legacy_names_from : DeckNames → Fields → DeckNames
unfolding legacy_insert deck_name_of
legacy_names_from out Fields.end = out
legacy_names_from out (Fields.field id value fs) =
    legacy_names_from (legacy_insert (parse_i64 id) (deck_name_of value) out) fs

-- `GROUP BY did` with `COUNT(*)`
unfoldable pub count_did : ℤ → List (ℤ × ℕ) → List (ℤ × ℕ)
count_did did [] = (did, 1) ∷ []
count_did did ((d, n) ∷ gs) = if d == did then (d, n + 1) ∷ gs else (d, n) ∷ count_did did gs

unfoldable pub group_by_did : List ℤ → List (ℤ × ℕ)
unfolding count_did
group_by_did [] = []
group_by_did (did ∷ dids) = count_did did (group_by_did dids)

pub name_or_default : ℤ → Option String → String
name_or_default did none = "Deck " <> show_ℤ did
name_or_default did (some name) = name

unfoldable pub deck_stat : DeckNames → ℤ × ℕ → DeckStats
unfolding name_or_default
deck_stat names (did, count) = record {
  deck_id = did;
  deck_name = name_or_default did (get did names);
  card_count = as_i64 count;
}

-- `a.deck_name.cmp(&b.deck_name)`
abbrev pub by_name : DeckStats → DeckStats → Bool
by_name a b = text_le a.deck_name b.deck_name

-- The object in `col.decks`, as far as it parses.
names_in : Option Value → Result DeckNames
unfolding legacy_names_from
names_in none = err (malformed "parse col.decks json")
names_in (some (Value.obj fs)) = ok (legacy_names_from [] fs)
names_in (some (Value.str s)) = err (malformed "decks json must be object")
names_in (some Value.other) = err (malformed "decks json must be object")

module _ ⦃P : Platform⦄ where
  unfoldable pub parse_deck_names_legacy : String → Result DeckNames
  unfolding names_in
  parse_deck_names_legacy raw = names_in (P.json_from_str raw)

module _ ⦃P : Platform⦄ {S : Type 0} where
  -- One query on the collection file.
  query : {A : Type 0} → FilePath → (Collection → Option A) → Io S A
  query path ask = do
    bytes ← read path "open collection db"
    collection ← ok_or (P.open_collection bytes) (malformed "open collection db")
    ok_or (ask collection) (failed "query")

  unfoldable pub parse_deck_names_new : FilePath → Io S DeckNames
  unfolding query deck_names_from
  parse_deck_names_new path = do
    rows ← query path (λ c. c.decks)
    ok_or (deck_names_from [] rows) (failed "row")

  -- `Result::or_else`
  or_else : {A : Type 0} → Result A → Io S A → Io S A
  or_else (ok a) k w = (ok a, w)
  or_else (err e) k w = k w

  legacy_names : FilePath → Io S DeckNames
  unfolding parse_deck_names_legacy query
  legacy_names path = do
    json ← query path (λ c. c.col_decks)
    λ u. (parse_deck_names_legacy json, u)

  -- `parse_deck_names_new(&conn).or_else(..)`
  unfoldable pub deck_names : FilePath → Io S DeckNames
  unfolding parse_deck_names_new or_else legacy_names
  deck_names path w =
      or_else (parse_deck_names_new path w).0 (legacy_names path) (parse_deck_names_new path w).1

  unfoldable pub extract_stats : FilePath → Io S BackupStats
  unfolding query deck_names deck_stat group_by_did
  extract_stats path = do
    cards ← query path (λ c. c.cards)
    notes ← query path (λ c. c.notes)
    revlog ← query path (λ c. c.revlog)
    names ← deck_names path
    dids ← query path (λ c. c.cards)
    let rows = P.group_order (group_by_did dids)
    pure (record {
      total_cards = as_i64 (length cards);
      total_decks = as_i64 (length names);
      total_notes = as_i64 notes;
      total_revlog = as_i64 revlog;
      deck_stats = sort_by by_name (map (deck_stat names) rows);
    })
