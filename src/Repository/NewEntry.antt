-- ===== src/Repository/NewEntry.antt =====
-- `create_and_insert_entry`: the entry in the database and, for a stored backup, the metadata file.
use anki_backup_tool.Base.{
  ℕ, none, some, true, List, [], ◌∷◌, ◌++◌, ◌≡◌, ◌≢◌, ◌⊎◌, ◌<◌, inl, inr, refl, sym, ap, ◌∙◌, subst,
}
use anki_backup_tool.Backup.{
  Uuid, DateTime, Bytes, BackupEntry, NewBackupEntry, BackupStatus, year_10000,
}
use anki_backup_tool.World.{FilePath, Platform, World, Disk, new_v4, pure, ◌>>◌}
use anki_backup_tool.World.Laws.{Ends, Ends-bind, Ends-mono, Ends-ok_or}
use anki_backup_tool.World.Calls.{Fault, Ends-write}
use anki_backup_tool.Store.Contract.{IsStore, InsertRefused, lookup}
use anki_backup_tool.Store.SqliteRows.{transpose}
use anki_backup_tool.Repository.{
  BackupRepository, create_and_insert_entry, write_metadata, entry_of, metadata_path, backup_dir,
}
use anki_backup_tool.Repository.Paths.{parent-metadata_path}

-- The entry as the database keeps it.
abbrev pub stamped : (DateTime → DateTime) → BackupEntry → BackupEntry
stamped stamp e = record e { created_at = stamp e.created_at }

-- One file is set, and the others and the directories are as they were.
abbrev pub FileSet : FilePath → Bytes → Disk → Disk → Type 0
FileSet p bytes d d' =
    (d'.files p ≡ some bytes)
    × ((q : FilePath) → q ≢ p → d'.files q ≡ d.files q)
    × (d'.dirs ≡ d.dirs)

-- At most one file has changed.
abbrev pub FileLost : FilePath → Disk → Disk → Type 0
FileLost p d d' = ((q : FilePath) → q ≢ p → d'.files q ≡ d.files q) × (d'.dirs ≡ d.dirs)

module _ ⦃P : Platform⦄ {S : Type 0} (repo : BackupRepository S) (n : NewBackupEntry)
    (es : List BackupEntry) where
  -- Why an entry may not be made: a call fails, a drawn id is taken, or the statistics or the entry do
  -- not serialise.
  pub data EntryRefused : Type 0 where
    broken_off : Fault → EntryRefused
    taken : (m : ℕ) → lookup (P.uuids m) es ≢ none → EntryRefused
    no_stats_json : transpose P.stats_to_json n.stats ≡ none → EntryRefused
    no_entry_json : (id : Uuid) → P.entry_to_json (entry_of repo id n) ≡ none → EntryRefused

  refused_insert : (m : ℕ) → InsertRefused (entry_of repo (P.uuids m) n) es → EntryRefused
  refused_insert m (inl fault) = broken_off fault
  refused_insert m (inr (inl same)) = taken m same
  refused_insert m (inr (inr bad)) = no_stats_json bad

module _ ⦃P : Platform⦄ {S : Type 0} (repo : BackupRepository S)
    (Rep : S → List BackupEntry → List (Uuid × Uuid) → Type 0) (stamp : DateTime → DateTime)
    (contract : IsStore repo.store Rep stamp) (n : NewBackupEntry) (es : List BackupEntry)
    (evs : List (Uuid × Uuid)) (w : World S) (rep : Rep w.store es evs)
    (dated : n.created_at < year_10000) where
  -- The database with the new entry under some id.
  abbrev pub Added : Uuid → World S → Type 0
  Added id u = Rep u.store (es ++ stamped stamp (entry_of repo id n) ∷ []) evs

  -- The entries that a failure leaves: with the new one, or without it.
  abbrev pub AddedOrNot : World S → Type 0
  AddedOrNot u = Rep u.store es evs ⊎ ((id : Uuid) × Added id u)

  inserted :
      (m : ℕ) (v : World S)
      → Rep v.store es evs
      → v.disk ≡ w.disk
      → Ends
          (repo.store.insert_entry (entry_of repo (P.uuids m) n) v)
          (λ _ u. Added (P.uuids m) u × (u.disk ≡ w.disk))
          (λ _ u. AddedOrNot u × (u.disk ≡ w.disk) × EntryRefused repo n es)
  inserted m v rep' disk =
      Ends-mono (contract.insert (entry_of repo (P.uuids m) n) es evs v rep' dated)
        (λ a u (added, d). (added, d ∙ disk))
        (λ x u (kept, d, why). (inl kept, d ∙ disk, refused_insert repo n es m why))

  no_file :
      (e : BackupEntry) (v : World S)
      → n.status ≡ BackupStatus.skipped
      → Ends
          (write_metadata repo n.status e v)
          (λ _ u. (u.disk ≡ v.disk) × (u.store ≡ v.store))
          (λ _ _. ⊥)
  unfolding write_metadata
  no_file e v h = rw (h, write_metadata) (record { holds = (refl, refl) })

  -- A skipped run: no file is touched.
  pub skipped_entry :
      n.status ≡ BackupStatus.skipped
      → Ends
          (create_and_insert_entry repo n w)
          (λ e u. (id : Uuid) × (e ≡ entry_of repo id n) × Added id u × (u.disk ≡ w.disk))
          (λ _ u. AddedOrNot u × (u.disk ≡ w.disk) × EntryRefused repo n es)
  unfolding create_and_insert_entry new_v4
  skipped_entry h =
      Ends-bind (inserted w.step _ rep refl)
        (λ a u (added, d).
          Ends-bind (no_file (entry_of repo (P.uuids w.step) n) u h)
            (λ b v (d', s). record { holds = (P.uuids w.step, refl, rw s added, d' ∙ d) })
            (λ x v q. absurd q))
        (λ x u q. q)

  abbrev metadata : FilePath
  metadata = metadata_path repo.root n.timestamp_dir

  abbrev WithMetadata : BackupEntry → World S → Type 0
  WithMetadata e u =
      (id : Uuid) × (e ≡ entry_of repo id n)
      × Added id u
      × ((json : Bytes) × (P.entry_to_json e ≡ some json) × FileSet metadata json w.disk u.disk)

  abbrev WithoutMetadata : World S → Type 0
  WithoutMetadata u = AddedOrNot u × FileLost metadata w.disk u.disk × EntryRefused repo n es

  abbrev FileWritten : Uuid → World S → BackupStatus → Type 0
  FileWritten id v s =
      Ends (write_metadata repo s (entry_of repo id n) v)
        (λ _ u.
          (u.store ≡ v.store)
          × ((json : Bytes) × (P.entry_to_json (entry_of repo id n) ≡ some json)
              × FileSet metadata json w.disk u.disk))
        (λ _ u. (u.store ≡ v.store) × FileLost metadata w.disk u.disk × EntryRefused repo n es)

  file_written :
      (id : Uuid) (v : World S)
      → w.disk.dirs (backup_dir repo.root n.timestamp_dir) ≡ true
      → v.disk ≡ w.disk
      → FileWritten id v BackupStatus.created
  unfolding write_metadata
  file_written id v there d =
      Ends-ok_or (P.entry_to_json (entry_of repo id n)) _ _ v
        (λ json j.
          Ends-mono
            (Ends-write metadata json _ v
              (rw (parent-metadata_path repo.root n.timestamp_dir, d) there))
            (λ a u (set, others, dirs, store). (store, (json, j, rw (← d) (set, others, dirs))))
            (λ x u ((others, dirs, store), fault).
              (store, rw (← d) (others, dirs), broken_off fault)))
        (λ bad. (refl, rw d (λ q ne. refl, refl), no_entry_json id bad))

  metadata_written :
      (id : Uuid) (v : World S)
      → n.status ≡ BackupStatus.created
      → w.disk.dirs (backup_dir repo.root n.timestamp_dir) ≡ true
      → Added id v
      → v.disk ≡ w.disk
      → Ends
          ((write_metadata repo n.status (entry_of repo id n) >> pure (entry_of repo id n)) v)
          WithMetadata
          (λ _ u. WithoutMetadata u)
  metadata_written id v h there added d =
      Ends-bind (subst (FileWritten id v) (sym h) (file_written id v there d))
        (λ a u (store, (json, j, set)). record {
          holds = (id, refl, rw store added, (json, j, set));
        })
        (λ x u (store, lost, why). (inr (id, rw store added), lost, why))

  pub created_entry :
      n.status ≡ BackupStatus.created
      → w.disk.dirs (backup_dir repo.root n.timestamp_dir) ≡ true
      → Ends (create_and_insert_entry repo n w) WithMetadata (λ _ u. WithoutMetadata u)
  unfolding create_and_insert_entry new_v4
  created_entry h there =
      Ends-bind (inserted w.step _ rep refl)
        (λ a u (added, d). metadata_written (P.uuids w.step) u h there added d)
        (λ x u (q, d, why).
          (q, (λ p ne. ap (λ (k : Disk). k.files p) d, ap (λ (k : Disk). k.dirs) d), why))
