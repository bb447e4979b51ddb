-- ===== src/Store.antt =====
-- crates/storage/src/store.rs: the metadata store's operations, over any state of the database.
pub mod Columns
pub mod SqliteRows
pub mod Contract
pub mod Table
pub mod Ids
pub mod Sqlite
pub mod Postgres
use anki_backup_tool.Base.{String, Option, List}
use anki_backup_tool.Backup.{Uuid, DateTime, BackupEntry}
use anki_backup_tool.World.{Io}

pub record MetadataStore (S : Type 0) : Type 0 where
  pub insert_entry : BackupEntry → Io S Unit
  pub list_backups : Io S (List BackupEntry)
  pub get_backup : Uuid → Io S (Option BackupEntry)
  pub insert_rollback_event : Uuid → Io S Unit
  pub last_created_hash : Io S (Option String)
  -- (id, timestamp_dir) of the created backups older than the cutoff, which are deleted
  pub prune_created_before : DateTime → Io S (List (String × String))
