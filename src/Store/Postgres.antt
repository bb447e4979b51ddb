-- ===== src/Store/Postgres.antt =====
-- crates/storage/src/postgres_store.rs: the Postgres back end. Ids and times have their own column types;
-- a time is kept as a `TIMESTAMPTZ`. Each method is one statement.
pub mod Rows
pub mod Rep
pub mod Insert
pub mod Contract
pub mod Start
use mathlib.Core.Option
use anki_backup_tool.Base.{
  String, Bool, true, not, Option, none, some, List, [], ◌∷◌, ◌++◌, map, ◌&&◌, find, keep, ltb, leb,
  ◌==◌, string_eq, nat_eq,
}
use anki_backup_tool.Base.Int.{ℤ}
use anki_backup_tool.Backup.{Uuid, DateTime, BackupEntry}
use anki_backup_tool.World.{Platform, Io, malformed, ok_or, now, new_v4, statement, ◌>>=◌, ◌>>◌}
use anki_backup_tool.Store.{MetadataStore}
use anki_backup_tool.Store.Columns.{parse_status, status_str, parse_skip_reason, skip_reason_str}
use anki_backup_tool.Store.SqliteRows.{transpose}

pub record PgRow : Type 0 where
  pub id : Uuid
  pub created_at : DateTime
  pub timestamp_dir : String
  pub content_hash : String
  pub status : String
  pub skip_reason : Option String
  pub source_revision : Option String
  pub sync_duration_ms : Option ℤ
  pub size_bytes : ℤ
  pub stats_json : Option String

pub record PgEvent : Type 0 where
  pub id : Uuid
  pub backup_id : Uuid
  pub created_at : DateTime

pub record PgDb : Type 0 where
  pub backups : List PgRow
  pub rollback_events : List PgEvent

-- The order of `ORDER BY created_at DESC`.
abbrev pub latest_first : PgRow → PgRow → Bool
latest_first a b = leb b.created_at a.created_at

-- `WHERE status = 'created'`
abbrev pub is_created_row : PgRow → Bool
is_created_row r = r.status == "created"

-- `WHERE status = 'created' AND created_at < $1`
abbrev pub is_old_row : DateTime → PgRow → Bool
is_old_row cutoff r = is_created_row r && ltb r.created_at cutoff

pub insert_row : PgRow → PgDb → Option (Unit {0} × PgDb)
insert_row row db = elim (find (λ r. r.id == row.id) db.backups) [
  | some taken ↦ none
  | none ↦ some (tt, record db { backups = db.backups ++ row ∷ [] })
]

pub insert_event : PgEvent → PgDb → Option (Unit {0} × PgDb)
insert_event row db = elim (find (λ r. r.id == row.id) db.rollback_events) [
  | some taken ↦ none
  | none ↦ some (tt, record db { rollback_events = db.rollback_events ++ row ∷ [] })
]

module _ ⦃P : Platform⦄ where
  -- The values that the INSERT binds.
  unfoldable pub to_pg_row : BackupEntry → Option PgRow
  unfolding status_str skip_reason_str
  to_pg_row e =
      Option.map
        (λ stats. record {
          id = e.id;
          created_at = P.timestamptz e.created_at;
          timestamp_dir = e.timestamp_dir;
          content_hash = e.content_hash;
          status = status_str e.status;
          skip_reason = Option.map skip_reason_str e.skip_reason;
          source_revision = e.source_revision;
          sync_duration_ms = e.sync_duration_ms;
          size_bytes = e.size_bytes;
          stats_json = stats;
        })
        (transpose P.stats_to_json e.stats)

  unfoldable pub pg_row_to_entry : PgRow → Option BackupEntry
  unfolding parse_status parse_skip_reason
  pg_row_to_entry r =
      Option.map
        (λ stats. record {
          id = r.id;
          created_at = r.created_at;
          timestamp_dir = r.timestamp_dir;
          content_hash = r.content_hash;
          status = parse_status r.status;
          skip_reason = Option.map parse_skip_reason r.skip_reason;
          source_revision = r.source_revision;
          sync_duration_ms = r.sync_duration_ms;
          size_bytes = r.size_bytes;
          stats = stats;
        })
        (transpose P.stats_from_json r.stats_json)

  -- `rows.iter().map(pg_row_to_entry).collect()`
  unfoldable pub pg_rows_to_entries : List PgRow → Option (List BackupEntry)
  unfolding pg_row_to_entry
  pg_rows_to_entries [] = some []
  pg_rows_to_entries (r ∷ rs) =
      Option.bind (pg_row_to_entry r) (λ e. Option.map (◌∷◌ e) (pg_rows_to_entries rs))

  -- `PostgresStore::new`: tables that are there are left.
  unfoldable pub new : Io PgDb (Unit {0})
  unfolding statement
  new = do
    statement "connect to postgres" (λ db. some (tt, db))
    statement "create backups table" (λ db. some (tt, db))
    statement "create rollback_events table" (λ db. some (tt, db))

  pub select : {A : Type 0} → (PgDb → A) → Io PgDb A
  unfolding statement
  select q = statement "select" (λ db. some (q db, db))

  pub insert_entry : BackupEntry → Io PgDb (Unit {0})
  unfolding to_pg_row statement insert_row
  insert_entry entry = do
    row ← ok_or (to_pg_row entry) (malformed "stats")
    statement "insert" (insert_row row)

  pub get_backup : Uuid → Io PgDb (Option BackupEntry)
  unfolding select pg_row_to_entry
  get_backup id = do
    row ← select (λ db. find (λ r. r.id == id) db.backups)
    ok_or (transpose pg_row_to_entry row) (malformed "parse stats_json")

  pub insert_rollback_event : Uuid → Io PgDb (Unit {0})
  unfolding new_v4 now statement insert_event
  insert_rollback_event backup_id = do
    id ← new_v4
    at ← now
    statement "insert"
        (insert_event (record { id = id; backup_id = backup_id; created_at = P.timestamptz at }))

  -- `DELETE ... RETURNING`
  pub delete_old : DateTime → PgDb → Option (List (String × String) × PgDb)
  delete_old cutoff db = some (
    map (λ r. (P.uuid_to_string r.id, r.timestamp_dir)) (keep (is_old_row cutoff) db.backups),
    record db { backups = keep (λ r. not (is_old_row cutoff r)) db.backups },
  )

  pub prune_created_before : DateTime → Io PgDb (List (String × String))
  unfolding statement delete_old
  prune_created_before cutoff = statement "delete" (delete_old (P.timestamptz cutoff))

  module _ (order : List PgRow → List PgRow) where
    pub list_backups : Io PgDb (List BackupEntry)
    unfolding select pg_rows_to_entries
    list_backups = do
      rows ← select (λ db. order db.backups)
      ok_or (pg_rows_to_entries rows) (malformed "parse stats_json")

    pub last_created_hash : Io PgDb (Option String)
    unfolding select
    last_created_hash = select (λ db.
        Option.map (λ (r : PgRow). r.content_hash)
          (find (λ r. true) (order (keep is_created_row db.backups))))

    unfoldable pub postgres_store : MetadataStore PgDb
    unfolding insert_entry list_backups get_backup insert_rollback_event last_created_hash
        prune_created_before
    postgres_store = record {
      insert_entry = insert_entry;
      list_backups = list_backups;
      get_backup = get_backup;
      insert_rollback_event = insert_rollback_event;
      last_created_hash = last_created_hash;
      prune_created_before = prune_created_before;
    }
