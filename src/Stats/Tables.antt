-- ===== src/Stats/Tables.antt =====
-- What statistics say of the tables of a collection file, and why there may be none.
use anki_backup_tool.Base.{
  ℕ, String, Option, none, some, List, [], map, length, leb, if◌then◌else◌, ◌≡◌, ◌⊎◌,
}
use anki_backup_tool.Base.Int.{ℤ, as_i64}
use anki_backup_tool.Base.Order.{SameItems, IsSorted}
use anki_backup_tool.Backup.{Bytes, BackupStats}
use anki_backup_tool.Libraries.{Collection}
use anki_backup_tool.World.{Platform, ok, err, Error}
use anki_backup_tool.World.Calls.{Fault}
use anki_backup_tool.Stats.Groups.{times, described}
use anki_backup_tool.Stats.{DeckNames, deck_names_from, parse_deck_names_legacy, by_name}

-- The tables of a file with this content, if there is one.
abbrev pub collection_there : ⦃P : Platform⦄ → Option Bytes → Option Collection
collection_there none = none
collection_there ⦃P⦄ (some bytes) = P.open_collection bytes

module _ ⦃P : Platform⦄ (file : Option Bytes) where
  -- The file holds a collection with this answer.
  abbrev pub Asked : {A : Type 0} → (Collection → Option A) → A → Type 0
  Asked ask a = (c : Collection) × (collection_there file ≡ some c) × (ask c ≡ some a)

  -- A call fails, the file holds no collection, or one without an answer.
  abbrev pub Unasked : {A : Type 0} → (Collection → Option A) → Type 0
  Unasked ask =
      Fault
      ⊎ (collection_there file ≡ none)
      ⊎ ((c : Collection) × (collection_there file ≡ some c) × (ask c ≡ none))

  -- The names from the table of decks.
  abbrev pub Modern : DeckNames → Type 0
  Modern names =
      (rows : List (Option (ℤ × String))) × Asked (λ c. c.decks) rows
      × (deck_names_from [] rows ≡ some names)

  -- The table of decks cannot be read.
  abbrev pub NotModern : Type 0
  NotModern =
      Unasked (λ c. c.decks)
      ⊎ ((rows : List (Option (ℤ × String))) × Asked (λ c. c.decks) rows
          × (deck_names_from [] rows ≡ none))

  -- The names from the text in `col`.
  abbrev pub Legacy : DeckNames → Type 0
  Legacy names =
      (json : String) × Asked (λ c. c.col_decks) json × (parse_deck_names_legacy json ≡ ok names)

  -- That text cannot be read, or is no object of decks.
  abbrev pub NotLegacy : Type 0
  NotLegacy =
      Unasked (λ c. c.col_decks)
      ⊎ ((json : String) × (x : Error) × Asked (λ c. c.col_decks) json
          × (parse_deck_names_legacy json ≡ err x))

  -- The names of decks, from the table or, where that cannot be read, from `col`.
  abbrev pub Named : DeckNames → Type 0
  Named names = Modern names ⊎ (NotModern × Legacy names)

  -- The statistics are those of the tables: counts as 64-bit numbers, and each deck that has a card
  -- once, with its name, or its number where it has none, and the number of its cards, in the order of
  -- the names.
  pub record Extracted (s : BackupStats) : Type 0 where
    pub cards : List ℤ
    pub notes : ℕ
    pub revlog : ℕ
    pub names : DeckNames
    pub cards_asked : Asked (λ c. c.cards) cards
    pub notes_asked : Asked (λ c. c.notes) notes
    pub revlog_asked : Asked (λ c. c.revlog) revlog
    pub named : Named names
    pub total_cards : s.total_cards ≡ as_i64 (length cards)
    pub total_notes : s.total_notes ≡ as_i64 notes
    pub total_revlog : s.total_revlog ≡ as_i64 revlog
    pub total_decks : s.total_decks ≡ as_i64 (length names)
    pub ids : List ℤ
    pub each_once : (k : ℤ) → times k ids ≡ (if leb 1 (times k cards) then 1 else 0)
    pub decks : SameItems s.deck_stats (map (described names (λ k. times k cards)) ids)
    pub sorted : IsSorted by_name s.deck_stats

  -- Why there are no statistics.
  pub data Unextracted : Type 0 where
    no_cards : Unasked (λ c. c.cards) → Unextracted
    no_notes : Unasked (λ c. c.notes) → Unextracted
    no_revlog : Unasked (λ c. c.revlog) → Unextracted
    no_names : NotModern → NotLegacy → Unextracted
