-- ===== src/Repository.antt =====
-- crates/storage/src/repository.rs: the backup repository over a metadata store and the file system.
pub mod Paths
pub mod Pointer
pub mod Rollback
pub mod NewEntry
pub mod RunOnce
pub mod Prune
pub mod Twice
pub mod Intact
pub mod Safe
pub mod Reach
pub mod Start
pub mod Live
use anki_backup_tool.Base.{
  ℕ, ◌-◌, ◌*◌, String, Bool, false, Option, none, some, List, [], ◌∷◌, length, ltb, ◌||◌,
  if◌then◌else◌, ◌==◌, string_eq,
}
use anki_backup_tool.Base.Int.{ℤ, pos, leb_ℤ, as_i64, pos_part}
use anki_backup_tool.Base.Text.{replace}
use anki_backup_tool.Backup.{
  Uuid, DateTime, Bytes, BackupEntry, NewBackupEntry, BackupStatus, status_eq, new_created,
  skipped_unchanged,
}
use anki_backup_tool.World.{
  FilePath, Platform, Io, ok, err, malformed, not_found, not_created, panicked, pure, fail, ok_or,
  now, new_v4, join, create_dir_all, write, rename, exists, remove_dir_all, file_len, ◌>>=◌, ◌>>◌,
}
use anki_backup_tool.Stats.{extract_stats}
use anki_backup_tool.Store.{MetadataStore}
use text.Mathlib.Text.{starts_with}

pub record BackupPayload : Type 0 where
  pub bytes : Bytes
  pub source_revision : Option String
  pub sync_duration_ms : Option ℤ

-- `RunOnceOutcome`
pub data RunOnceOutcome : Type 0 where
  created skipped : BackupEntry → RunOnceOutcome

pub record BackupRepository (S : Type 0) : Type 0 where
  pub root : FilePath
  pub store : MetadataStore S

-- The nanoseconds of `chrono::Duration::days(1)`.
abbrev pub day : ℕ
day = 86400 * 1000000000

-- The choice of the back end by `init`.
pub data Backend : Type 0 where
  sqlite : Backend
  postgres : String → Backend

unfoldable pub choose_backend : Option String → Backend
choose_backend none = sqlite
choose_backend (some url) =
    if starts_with url "postgres://" || starts_with url "postgresql://"
    then postgres url
    else sqlite

-- The directories that `new` and `with_postgres` create before they open the database.
abbrev pub backups_dir : FilePath → FilePath
backups_dir root = join root "backups"

abbrev pub state_dir : FilePath → FilePath
state_dir root = join root "state"

abbrev pub pointer_path : FilePath → FilePath
pointer_path root = join (state_dir root) "current-pointer.json"

abbrev pub pointer_tmp_path : FilePath → FilePath
pointer_tmp_path root = join (state_dir root) "current-pointer.json.tmp"

unfoldable pub backup_dir : FilePath → String → FilePath
backup_dir root timestamp_dir = join (backups_dir root) timestamp_dir

unfoldable pub payload_path : FilePath → String → FilePath
payload_path root timestamp_dir = join (backup_dir root timestamp_dir) "collection.anki2"

unfoldable pub metadata_path : FilePath → String → FilePath
metadata_path root timestamp_dir = join (backup_dir root timestamp_dir) "metadata.json"

module _ ⦃P : Platform⦄ where
  unfoldable pub format_timestamp_dir : DateTime → String
  format_timestamp_dir t = replace b':' "-" (P.to_rfc3339_secs t)

  -- `Utc::now() - chrono::Duration::days(n)`, which panics below the times that there are; here they
  -- begin with the year 0, in chrono long before it.
  unfoldable pub days_ago : {S : Type 0} → DateTime → ℕ → Io S DateTime
  days_ago t n w = if ltb t (n * day) then (err panicked, w) else (ok (t - n * day), w)

module _ ⦃P : Platform⦄ {S : Type 0} (repo : BackupRepository S) where
  open repo use {root, store}

  -- The first lines of `new` and `with_postgres`.
  unfoldable pub create_layout : Io S (Unit {0})
  create_layout = do
    create_dir_all (backups_dir root) "create backups directory"
    create_dir_all (state_dir root) "create state directory"

  -- `new` and `with_postgres`, with the call that opens the store.
  unfoldable pub open_with : Io S (Unit {0}) → Io S (BackupRepository S)
  unfolding create_layout
  open_with new_store = do create_layout; new_store; pure repo

  unfoldable pub list_backups : Io S (List BackupEntry)
  list_backups = store.list_backups

  unfoldable pub get_backup : Uuid → Io S (Option BackupEntry)
  get_backup id = store.get_backup id

  unfoldable pub backup_file_path : BackupEntry → FilePath
  backup_file_path e = payload_path root e.timestamp_dir

  unfoldable pub write_current_pointer : BackupEntry → Io S (Unit {0})
  write_current_pointer backup = do
    updated_at ← now
    json ← ok_or (P.pointer_to_json backup.id backup.timestamp_dir updated_at) (malformed "pointer")
    write (pointer_tmp_path root) json "write current pointer tmp"
    rename (pointer_tmp_path root) (pointer_path root) "atomic rename current pointer"

  -- The entry that `create_and_insert_entry` makes.
  abbrev pub entry_of : Uuid → NewBackupEntry → BackupEntry
  entry_of id n = record {
    id = id;
    created_at = n.created_at;
    timestamp_dir = n.timestamp_dir;
    content_hash = n.content_hash;
    status = n.status;
    skip_reason = n.skip_reason;
    source_revision = n.source_revision;
    sync_duration_ms = n.sync_duration_ms;
    size_bytes = n.size_bytes;
    stats = n.stats;
  }

  -- The metadata file beside a stored backup.
  unfoldable pub write_metadata : BackupStatus → BackupEntry → Io S (Unit {0})
  write_metadata BackupStatus.skipped entry = pure tt
  write_metadata BackupStatus.created entry = do
    serialized ← ok_or (P.entry_to_json entry) (malformed "serialize backup metadata")
    write (metadata_path root entry.timestamp_dir) serialized "write backup metadata"

  unfoldable pub create_and_insert_entry : NewBackupEntry → Io S BackupEntry
  create_and_insert_entry new_entry = do
    id ← new_v4
    let entry = entry_of id new_entry
    store.insert_entry entry
    write_metadata entry.status entry
    pure entry

  -- The branch of `run_once` for an unchanged collection.
  unfoldable pub skip_unchanged : DateTime → String → Io S RunOnceOutcome
  skip_unchanged at content_hash = do
    entry ← create_and_insert_entry (skipped_unchanged at content_hash)
    pure (skipped entry)

  -- The rest of `run_once`: a new backup.
  unfoldable pub store_backup : DateTime → BackupPayload → String → Io S RunOnceOutcome
  store_backup at payload content_hash = do
    let timestamp_dir = format_timestamp_dir at
    let path = payload_path root timestamp_dir
    create_dir_all (backup_dir root timestamp_dir) "create backup dir"
    write path payload.bytes "write payload file"
    stats ← extract_stats path
    len ← file_len path "stat payload file"
    entry ← create_and_insert_entry (
        new_created at timestamp_dir content_hash payload.source_revision payload.sync_duration_ms
          (as_i64 len) stats)
    write_current_pointer entry
    pure (created entry)

  -- `last_hash == content_hash`
  abbrev pub is_unchanged : Option String → String → Bool
  is_unchanged none content_hash = false
  is_unchanged (some last_hash) content_hash = last_hash == content_hash

  unfoldable pub run_once : BackupPayload → String → Io S RunOnceOutcome
  run_once payload content_hash = do
    at ← now
    last ← store.last_created_hash
    if is_unchanged last content_hash
        then skip_unchanged at content_hash
        else store_backup at payload content_hash

  -- `backup.status != BackupStatus::Created`
  require_created : BackupEntry → Io S (Unit {0})
  require_created backup =
      if backup.status == BackupStatus.created then pure tt else fail (not_created backup.id)

  unfoldable pub rollback_to : Uuid → Io S BackupEntry
  unfolding require_created
  rollback_to id = do
    found ← get_backup id
    backup ← ok_or found (not_found id)
    require_created backup
    write_current_pointer backup
    store.insert_rollback_event backup.id
    pure backup

  -- One round of the loop over the pruned backups.
  remove_backup_dir : String → Io S (Unit {0})
  remove_backup_dir timestamp_dir = do
    there ← exists (backup_dir root timestamp_dir)
    if there
        then remove_dir_all (backup_dir root timestamp_dir) "remove old backup dir"
        else pure tt

  unfoldable pub remove_backup_dirs : List (String × String) → Io S (Unit {0})
  unfolding remove_backup_dir
  remove_backup_dirs [] w = (ok tt, w)
  remove_backup_dirs ((id, timestamp_dir) ∷ doomed) w =
      (do remove_backup_dir timestamp_dir; remove_backup_dirs doomed) w

  unfoldable pub prune_created_older_than_days : ℤ → Io S ℕ
  prune_created_older_than_days retention_days = if leb_ℤ retention_days (pos 0) then pure 0 else do
    at ← now
    cutoff ← days_ago at (pos_part retention_days)
    doomed ← store.prune_created_before cutoff
    remove_backup_dirs doomed
    pure (length doomed)
