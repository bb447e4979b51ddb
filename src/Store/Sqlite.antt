-- ===== src/Store/Sqlite.antt =====
-- crates/storage/src/sqlite_store.rs: the SQLite back end. Each method opens the database and runs its
-- statements one by one; texts hold the ids and the times.
pub mod Rows
pub mod Rep
pub mod Insert
pub mod Event
pub mod Delete
pub mod Prune
pub mod Contract
pub mod Start
use mathlib.Core.Option
use anki_backup_tool.Base.{
  String, Bool, true, not, Option, none, some, List, [], ◌∷◌, ◌++◌, map, ◌&&◌, find, keep, ◌==◌,
  string_eq,
}
use anki_backup_tool.Base.Text.{text_lt, text_le}
use anki_backup_tool.Backup.{Uuid, DateTime, BackupEntry}
use anki_backup_tool.World.{
  Platform, Io, ok, malformed, pure, ok_or, now, new_v4, statement, ◌>>=◌, ◌>>◌,
}
use anki_backup_tool.Store.{MetadataStore}
use anki_backup_tool.Store.SqliteRows.{
  Row, EventRow, SqliteDb, to_row, row_to_entry, rows_to_entries,
}

-- The order of `ORDER BY created_at DESC`: the later text first.
abbrev pub latest_first : Row → Row → Bool
latest_first a b = text_le b.created_at a.created_at

-- `WHERE status = 'created'`
abbrev pub is_created_row : Row → Bool
is_created_row r = r.status == "created"

-- `WHERE status = 'created' AND created_at < ?1`
abbrev pub is_old_row : String → Row → Bool
is_old_row cutoff r = is_created_row r && text_lt r.created_at cutoff

-- The primary key refuses an id that is taken.
pub insert_row : Row → SqliteDb → Option (Unit {0} × SqliteDb)
insert_row row db = elim (find (λ r. r.id == row.id) db.backups) [
  | some taken ↦ none
  | none ↦ some (tt, record db { backups = db.backups ++ row ∷ [] })
]

pub insert_event : EventRow → SqliteDb → Option (Unit {0} × SqliteDb)
insert_event row db = elim (find (λ r. r.id == row.id) db.rollback_events) [
  | some taken ↦ none
  | none ↦ some (tt, record db { rollback_events = db.rollback_events ++ row ∷ [] })
]

-- `DELETE FROM backups WHERE id = ?1`
pub delete_row : String → SqliteDb → Option (Unit {0} × SqliteDb)
delete_row id db = some (tt, record db { backups = keep (λ r. not (r.id == id)) db.backups })

module _ ⦃P : Platform⦄ where
  -- `Connection::open`
  pub connect : Io SqliteDb (Unit {0})
  unfolding statement
  connect = statement "open metadata db" (λ db. some (tt, db))

  -- `SqliteStore::new`: tables that are there are left.
  unfoldable pub new : Io SqliteDb (Unit {0})
  unfolding connect statement
  new = do connect; statement "create tables" (λ db. some (tt, db))

  -- A query that reads.
  pub select : {A : Type 0} → (SqliteDb → A) → Io SqliteDb A
  unfolding statement
  select q = statement "select" (λ db. some (q db, db))

  pub optional_entry : Option Row → Io SqliteDb (Option BackupEntry)
  optional_entry none = pure none
  optional_entry (some r) = do e ← row_to_entry r; pure (some e)

  -- The loop of DELETE statements, each on its own.
  pub delete_all : List (String × String) → Io SqliteDb (Unit {0})
  unfolding statement delete_row
  delete_all [] w = (ok tt, w)
  delete_all ((id, dir) ∷ doomed) w = (do statement "delete" (delete_row id); delete_all doomed) w

  pub insert_entry : BackupEntry → Io SqliteDb (Unit {0})
  unfolding connect to_row statement insert_row
  insert_entry entry = do
    connect
    row ← ok_or (to_row entry) (malformed "stats")
    statement "insert" (insert_row row)

  pub get_backup : Uuid → Io SqliteDb (Option BackupEntry)
  unfolding connect select optional_entry
  get_backup id = do
    connect
    row ← select (λ db. find (λ r. r.id == P.uuid_to_string id) db.backups)
    optional_entry row

  pub insert_rollback_event : Uuid → Io SqliteDb (Unit {0})
  unfolding connect new_v4 now statement insert_event
  insert_rollback_event backup_id = do
    connect
    id ← new_v4
    at ← now
    statement "insert" (
        insert_event (record {
          id = P.uuid_to_string id;
          backup_id = P.uuid_to_string backup_id;
          created_at = P.to_rfc3339 at;
        }))

  pub prune_created_before : DateTime → Io SqliteDb (List (String × String))
  unfolding connect select delete_all
  prune_created_before cutoff = do
    connect
    doomed ← select (λ db.
        map (λ r. (r.id, r.timestamp_dir)) (keep (is_old_row (P.to_rfc3339 cutoff)) db.backups))
    delete_all doomed
    pure doomed

  module _ (order : List Row → List Row) where
    pub list_backups : Io SqliteDb (List BackupEntry)
    unfolding connect select rows_to_entries
    list_backups = do connect; rows ← select (λ db. order db.backups); rows_to_entries rows

    pub last_created_hash : Io SqliteDb (Option String)
    unfolding connect select
    last_created_hash = do
      connect
      select (λ db.
          Option.map (λ (r : Row). r.content_hash)
            (find (λ r. true) (order (keep is_created_row db.backups))))

    unfoldable pub sqlite_store : MetadataStore SqliteDb
    unfolding insert_entry list_backups get_backup insert_rollback_event last_created_hash
        prune_created_before
    sqlite_store = record {
      insert_entry = insert_entry;
      list_backups = list_backups;
      get_backup = get_backup;
      insert_rollback_event = insert_rollback_event;
      last_created_hash = last_created_hash;
      prune_created_before = prune_created_before;
    }
