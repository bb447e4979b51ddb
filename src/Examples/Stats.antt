-- ===== src/Examples/Stats.antt =====
-- The statistics of a collection with three cards in two decks.
use anki_backup_tool.Base.{true, none, some, [], ◌∷◌}
use anki_backup_tool.Base.Int.{pos}
use anki_backup_tool.Libraries.{Collection, Libraries, IsLawful}
use anki_backup_tool.World.{Platform, World, FilePath}
use anki_backup_tool.World.Laws.{Ends}
use anki_backup_tool.World.Reads.{Untouched}
use anki_backup_tool.Stats.{extract_stats}
use anki_backup_tool.Stats.Tables.{Extracted, Unextracted}
use anki_backup_tool.Stats.Extract.{extract_stats_lem}
use anki_backup_tool.Examples.Machine.{machine, libraries, libraries-IsLawful}

abbrev collection : Collection
collection = record {
  cards = some (pos 1 ∷ pos 7 ∷ pos 7 ∷ []);
  notes = some 2;
  revlog = some 5;
  decks = some (some (pos 1, "Default") ∷ some (pos 7, "Chess") ∷ []);
  col_decks = none;
}

abbrev reading : Libraries
reading = record libraries { open_collection = λ bytes. some collection }

reading-IsLawful : IsLawful reading
reading-IsLawful = record {
  uuid_parse_to_string = libraries-IsLawful.uuid_parse_to_string;
  parse_to_rfc3339 = libraries-IsLawful.parse_to_rfc3339;
  to_rfc3339_mono = libraries-IsLawful.to_rfc3339_mono;
  to_rfc3339_secs-nonempty = libraries-IsLawful.to_rfc3339_secs-nonempty;
  timestamptz_mono = libraries-IsLawful.timestamptz_mono;
  timestamptz-le = libraries-IsLawful.timestamptz-le;
  stats_json = libraries-IsLawful.stats_json;
  group_order-SameItems = libraries-IsLawful.group_order-SameItems;
}

abbrev reader : Platform
reader = record {
  lib = reading;
  fates = machine.fates;
  times = machine.times;
  uuids = machine.uuids;
}

abbrev payload_at : FilePath
payload_at = "backups" ∷ "collection.anki2" ∷ []

abbrev before : World Unit
before = record {
  disk = record { files = λ p. some (1 ∷ 2 ∷ []); dirs = λ p. true };
  store = tt;
  step = 0;
}

extract_stats_example :
    Ends
      (extract_stats ⦃P = reader⦄ payload_at before)
      (λ s u. Extracted ⦃P = reader⦄ (before.disk.files payload_at) s × Untouched before u)
      (λ _ u. Unextracted ⦃P = reader⦄ (before.disk.files payload_at) × Untouched before u)
extract_stats_example = extract_stats_lem ⦃P = reader⦄ payload_at before reading-IsLawful
