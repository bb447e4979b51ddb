-- ===== src/Repository/RunOnce/Left.antt =====
-- The states that `run_once` may leave, and why it may fail.
use anki_backup_tool.Base.{
  none, String, Option, some, true, false, List, [], ◌∷◌, ◌++◌, length, ◌≡◌, ◌≢◌, ◌⊎◌, string_eq,
}
use anki_backup_tool.Base.Int.{as_i64}
use anki_backup_tool.Backup.{
  Uuid, DateTime, Bytes, BackupEntry, BackupStats, NewBackupEntry, new_created, skipped_unchanged,
  IsCreated,
}
use anki_backup_tool.World.{FilePath, Platform, World, Disk, is_above}
use anki_backup_tool.Store.Contract.{IsLastHash}
use anki_backup_tool.Repository.{
  BackupRepository, BackupPayload, RunOnceOutcome, created, skipped, is_unchanged, entry_of,
  format_timestamp_dir, payload_path, metadata_path, pointer_path, pointer_tmp_path, backup_dir,
}
use anki_backup_tool.Repository.NewEntry.{stamped, EntryRefused}
use anki_backup_tool.Stats.Tables.{Extracted, Unextracted}
use anki_backup_tool.World.Calls.{Fault}

module _ ⦃P : Platform⦄ {S : Type 0} (repo : BackupRepository S)
    (Rep : S → List BackupEntry → List (Uuid × Uuid) → Type 0) (stamp : DateTime → DateTime)
    (payload : BackupPayload) (hash : String) (es : List BackupEntry) (evs : List (Uuid × Uuid))
    (d0 : Disk) (at : DateTime) where
  abbrev dir : String
  dir = format_timestamp_dir at

  abbrev new_dir : FilePath
  new_dir = backup_dir repo.root dir

  abbrev path : FilePath
  path = payload_path repo.root dir

  abbrev pub new_of : BackupStats → NewBackupEntry
  new_of stats =
      new_created at dir hash payload.source_revision payload.sync_duration_ms
        (as_i64 (length payload.bytes)) stats

  -- The entry of a stored backup.
  abbrev pub new_entry : Uuid → BackupStats → BackupEntry
  new_entry id stats = entry_of repo id (new_of stats)

  -- No directory has gone.
  abbrev pub DirsKept : World S → Type 0
  DirsKept u = (q : FilePath) → d0.dirs q ≡ true → u.disk.dirs q ≡ true

  -- A new backup: the last hash was another one, the entry has the statistics of the payload and is in
  -- the database, its two files hold the payload and the entry, the pointer names it, and nothing else
  -- but the new directory has changed.
  pub record NewBackup (e : BackupEntry) (u : World S) : Type 0 where
    pub changed : (o : Option String) × IsLastHash es o × (is_unchanged repo o hash ≡ false)
    pub entry :
        (id : Uuid) × (stats : BackupStats) × (e ≡ new_entry id stats)
        × Extracted (some payload.bytes) stats
    pub listed : Rep u.store (es ++ stamped stamp e ∷ []) evs
    pub file : u.disk.files path ≡ some payload.bytes
    pub metadata :
        (json : Bytes) × (P.entry_to_json e ≡ some json)
        × (u.disk.files (metadata_path repo.root dir) ≡ some json)
    pub pointer :
        (t : DateTime) × (json : Bytes) × (P.pointer_to_json e.id dir t ≡ some json)
        × (u.disk.files (pointer_path repo.root) ≡ some json)
    pub others :
        (q : FilePath)
        → is_above new_dir q ≡ false
        → q ≢ pointer_path repo.root
        → q ≢ pointer_tmp_path repo.root
        → u.disk.files q ≡ d0.files q
    pub there : u.disk.dirs new_dir ≡ true
    pub dirs : DirsKept u

  -- A skipped run: the last hash is this one, the entry says so, and no file has changed.
  abbrev pub SkippedRun : BackupEntry → World S → Type 0
  SkippedRun e u =
      IsLastHash es (some hash)
      × ((id : Uuid) × (e ≡ entry_of repo id (skipped_unchanged at hash)))
      × Rep u.store (es ++ stamped stamp e ∷ []) evs
      × (u.disk ≡ d0)

  abbrev pub Outcome : RunOnceOutcome → World S → Type 0
  Outcome (created e) u = NewBackup e u
  Outcome (skipped e) u = SkippedRun e u

  abbrev pub FilesKept : World S → Type 0
  FilesKept u =
      (q : FilePath)
      → is_above new_dir q ≡ false
      → q ≢ pointer_tmp_path repo.root
      → u.disk.files q ≡ d0.files q

  -- The payload is in the directory that the entry names.
  abbrev pub Stored : BackupEntry → World S → Type 0
  Stored e u =
      (e.timestamp_dir ≡ dir)
      × (u.disk.files path ≡ some payload.bytes)
      × (u.disk.dirs new_dir ≡ true)

  -- Why a run may fail: a call fails, the payload has no statistics, the entry is not made, or the
  -- pointer does not serialise.
  pub data RunRefused : Type 0 where
    broken_off : Fault → RunRefused
    no_stats : Unextracted (some payload.bytes) → RunRefused
    no_entry :
        (stats : BackupStats)
        → Extracted (some payload.bytes) stats
        → EntryRefused repo (new_of stats) es
        → RunRefused
    no_skip : EntryRefused repo (skipped_unchanged at hash) es → RunRefused
    no_pointer : (id : Uuid) (t : DateTime) → P.pointer_to_json id dir t ≡ none → RunRefused

  -- A failure: every entry is still there, at most the new one is added, with its payload if it is
  -- a stored one, and every file outside the new directory is as it was, the pointer included. No
  -- directory has gone, and there is a reason.
  abbrev pub Failed : World S → Type 0
  Failed u =
      (Rep u.store es evs
        ⊎ ((e : BackupEntry) × (e.content_hash ≡ hash)
            × (IsCreated e → Stored e u)
            × Rep u.store (es ++ e ∷ []) evs))
      × FilesKept u
      × DirsKept u
      × RunRefused
