-- ===== src/Store/SqliteRows.antt =====
-- The rows of the SQLite tables (crates/storage/src/sqlite_store.rs), and how an entry goes into one and
-- comes out again.
use mathlib.Core.Option
use anki_backup_tool.Base.{String, Option, none, some, List, [], ◌∷◌}
use anki_backup_tool.Base.Int.{ℤ}
use anki_backup_tool.Backup.{Uuid, DateTime, BackupEntry}
use anki_backup_tool.World.{Platform, Io, ok, malformed, pure, ok_or, now, ◌>>=◌}
use anki_backup_tool.Store.Columns.{parse_status, status_str, parse_skip_reason, skip_reason_str}

pub record Row : Type 0 where
  pub id : String
  pub created_at : String
  pub timestamp_dir : String
  pub content_hash : String
  pub status : String
  pub skip_reason : Option String
  pub source_revision : Option String
  pub sync_duration_ms : Option ℤ
  pub size_bytes : ℤ
  pub stats_json : Option String

pub record EventRow : Type 0 where
  pub id : String
  pub backup_id : String
  pub created_at : String

-- The tables `backups` and `rollback_events`, their rows in the order of insertion.
pub record SqliteDb : Type 0 where
  pub backups : List Row
  pub rollback_events : List EventRow

-- `init_db` on a new file
abbrev pub init_db : SqliteDb
init_db = record { backups = []; rollback_events = [] }

-- `.map(serde_json::to_string).transpose()`
abbrev pub transpose {ℓ κ} :
    {A : Type ℓ} {B : Type κ} → (A → Option B) → Option A → Option (Option B)
transpose f none = some none
transpose f (some a) = Option.map some (f a)

module _ ⦃P : Platform⦄ where
  -- The parameters of the INSERT.
  unfoldable pub to_row : BackupEntry → Option Row
  unfolding status_str skip_reason_str
  to_row e =
      Option.map
        (λ stats. record {
          id = P.uuid_to_string e.id;
          created_at = P.to_rfc3339 e.created_at;
          timestamp_dir = e.timestamp_dir;
          content_hash = e.content_hash;
          status = status_str e.status;
          skip_reason = Option.map skip_reason_str e.skip_reason;
          source_revision = e.source_revision;
          sync_duration_ms = e.sync_duration_ms;
          size_bytes = e.size_bytes;
          stats_json = stats;
        })
        (transpose P.stats_to_json e.stats)

  unfoldable pub parse_uuid : String → Uuid
  parse_uuid raw = Option.get_or (P.uuid_parse_str raw) 0

  -- A time that does not parse is read as the present.
  unfoldable pub parse_ts : String → Io SqliteDb DateTime
  unfolding now
  parse_ts raw = elim (P.parse_from_rfc3339 raw) [ some t ↦ pure t | none ↦ now ]

  unfoldable pub row_to_entry : Row → Io SqliteDb BackupEntry
  unfolding parse_uuid parse_ts parse_status parse_skip_reason
  row_to_entry r = do
    at ← parse_ts r.created_at
    stats ← ok_or (transpose P.stats_from_json r.stats_json) (malformed "stats_json")
    pure (record {
      id = parse_uuid r.id;
      created_at = at;
      timestamp_dir = r.timestamp_dir;
      content_hash = r.content_hash;
      status = parse_status r.status;
      skip_reason = Option.map parse_skip_reason r.skip_reason;
      source_revision = r.source_revision;
      sync_duration_ms = r.sync_duration_ms;
      size_bytes = r.size_bytes;
      stats = stats;
    })

  -- `rows.collect()`: the first row that does not convert ends it.
  unfoldable pub rows_to_entries : List Row → Io SqliteDb (List BackupEntry)
  rows_to_entries [] w = (ok [], w)
  rows_to_entries (r ∷ rs) w = (do e ← row_to_entry r; es ← rows_to_entries rs; pure (e ∷ es)) w
