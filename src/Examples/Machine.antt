-- ===== src/Examples/Machine.antt =====
-- A platform whose calls all end well, with libraries that keep their documented behaviour, and a
-- Postgres store that holds one backup.
use anki_backup_tool.Base.{
  ◌+◌, ◌*◌, ◌||◌, if◌then◌else◌, nat_eq, inl, inr, Bool-cases, ◌/◌, String, true, Option, none,
  some, List, [], ◌∷◌, map, ◌≡◌, refl, sym, ap, arith, ◌==◌, ==-sound, Eq, text_ne, string_eq,
}
use anki_backup_tool.Base.Int.{pos}
use anki_backup_tool.Base.Order.{sort_by, sort_by-SameItems, sort_by-IsSorted}
use anki_backup_tool.Backup.{BackupStats, BackupEntry}
use anki_backup_tool.Libraries.{Libraries, IsLawful}
use anki_backup_tool.World.{Platform, World, done, FilePath, Disk, is_above, path_eq}
use anki_backup_tool.Repository.{BackupRepository, pointer_path, state_dir, backup_dir}
use anki_backup_tool.Examples.Unary.{unary, marks, marks-unary, unary_mono}
use anki_backup_tool.World.Directories.{is_above_refl}
use anki_backup_tool.Store.Columns.{status_str, parse_status}
use anki_backup_tool.Store.Postgres
use anki_backup_tool.Store.Postgres.{PgRow, PgDb, postgres_store}
use anki_backup_tool.Store.Postgres.Rows.{decode, good}
use anki_backup_tool.Store.Postgres.Rep.{PgRep}
use anki_backup_tool.Store.Postgres.Contract.{IsOrdering}

BackupStats-dec : Discrete BackupStats
BackupStats-dec = hlevel (nat_eq.dec, string_eq.dec)

instance unfoldable pub stats_eq : Eq BackupStats
unfolding BackupStats-dec
stats_eq = record { dec = BackupStats-dec }

abbrev pub three_cards : BackupStats
three_cards = record {
  total_cards = pos 3;
  total_decks = pos 2;
  total_notes = pos 2;
  total_revlog = pos 1;
  deck_stats = [];
}

abbrev stats_text : BackupStats → Option String
stats_text s = if s == three_cards then some "three" else none

abbrev pub libraries : Libraries
libraries = record {
  uuid_to_string = unary;
  uuid_parse_str = λ s. some (marks s);
  to_rfc3339 = unary;
  parse_from_rfc3339 = λ s. some (marks s);
  to_rfc3339_secs = λ t. "2026-01-01T00:00:00Z";
  timestamptz = λ t. t / 1000 * 1000;
  stats_to_json = stats_text;
  stats_from_json = λ s. some three_cards;
  entry_to_json = λ e. some (e.id ∷ []);
  pointer_to_json = λ id dir t. some (id ∷ t ∷ []);
  json_from_str = λ s. none;
  sha256 = λ bytes. bytes;
  hex_encode = λ bytes. "00";
  open_collection = λ bytes. none;
  group_order = λ gs. gs;
}

stats_text_sound :
    (s : BackupStats) (j : String) → stats_text s ≡ some j → some three_cards ≡ some s
stats_text_sound s j h = elim (Bool-cases (s == three_cards)) [
  | inl e ↦ ap some (sym (==-sound s three_cards e))
  | inr e ↦ ground arith
]

pub libraries-IsLawful : IsLawful libraries
libraries-IsLawful = record {
  uuid_parse_to_string = λ u. ap some (marks-unary u);
  parse_to_rfc3339 = λ t h. ap some (marks-unary t);
  to_rfc3339_mono = λ t u h y. unary_mono t u h;
  to_rfc3339_secs-nonempty = λ t. text_ne "2026-01-01T00:00:00Z" "" refl;
  timestamptz_mono = λ t u h. omega arith;
  timestamptz-le = λ t. omega arith;
  stats_json = stats_text_sound;
  group_order-SameItems = λ gs p. refl;
}

-- It is day 200 at each reading of the clock.
abbrev pub machine : Platform
machine = record {
  lib = libraries;
  fates = λ n. done;
  times = λ n. 200 * 86400 * 1000000000;
  uuids = λ n. 100 + n;
}

abbrev pub newest_first : List PgRow → List PgRow
newest_first = sort_by Postgres.latest_first

pub newest_first-IsOrdering : IsOrdering newest_first
newest_first-IsOrdering rows = (
  sort_by-SameItems Postgres.latest_first rows,
  sort_by-IsSorted Postgres.latest_first (λ a b h. ground arith) (λ a b c h k. ground arith) rows,
)

-- A backup of day 150, and the empty run after it.
abbrev pub first_row : PgRow
first_row = record {
  id = 7;
  created_at = 150 * 86400 * 1000000000;
  timestamp_dir = "1970-05-31T00-00-00Z";
  content_hash = "h1";
  status = "created";
  skip_reason = none;
  source_revision = none;
  sync_duration_ms = some (pos 1);
  size_bytes = pos 2;
  stats_json = none;
}

abbrev pub database : PgDb
database = record { backups = first_row ∷ []; rollback_events = [] }

abbrev pub entries : List BackupEntry
entries = map (decode ⦃P = machine⦄) (first_row ∷ [])

pub database-PgRep : PgRep ⦃P = machine⦄ database entries []
unfolding good string_eq status_str parse_status
database-PgRep = record { all_good = refl; entries = refl; unique = (refl, tt); events = refl }

-- The layout that `create_layout` leaves, the pointer on the backup of id 7.
abbrev pub root : FilePath
root = "data" ∷ []

abbrev pub disk : Disk
disk = record {
  files = λ q. if q == pointer_path root then some (7 ∷ []) else none;
  dirs = λ q. is_above q (state_dir root) || is_above q (backup_dir root "1970-05-31T00-00-00Z");
}

abbrev pub start : World PgDb
start = record { disk = disk; store = database; step = 0 }

abbrev pub repository : BackupRepository PgDb
repository = record { root = root; store = postgres_store ⦃P = machine⦄ newest_first }

pub start-ready : start.disk.dirs (state_dir root) ≡ true
start-ready =
    ap (λ b. b || is_above (state_dir root) (backup_dir root "1970-05-31T00-00-00Z"))
      (is_above_refl (state_dir root))
