-- ===== src/Repository/Safe.antt =====
-- States in which every stored backup can be restored: each operation of the repository leads from one
-- to another, however its calls end.
pub mod Pruned
use anki_backup_tool.Base.{
  ℕ, ◌-◌, ◌*◌, ◌<◌, String, Bool, true, false, not, Option, none, some, List, [], ◌∷◌, ◌++◌, map,
  keep, All, ◌≡◌, ◌≢◌, ◌⊎◌, inl, inr, refl, sym, ap, ◌∙◌, subst, arith, ==-true, ==-false, ==-sound,
  string_eq,
}
use anki_backup_tool.Base.Int.{ℤ, pos_part}
use anki_backup_tool.Backup.{
  Uuid, DateTime, Bytes, BackupEntry, year_10000, BackupStatus, IsCreated, status_eq, new_created,
  skipped_unchanged,
}
use anki_backup_tool.Libraries.{IsLawful}
use anki_backup_tool.World.{FilePath, Platform, World, Disk, is_above, Error, ok}
use anki_backup_tool.World.Laws.{Ends-after, Ends-ok}
use anki_backup_tool.World.Reads.{Untouched}
use anki_backup_tool.Store.Contract.{IsStore, is_created, is_old, removed}
use anki_backup_tool.Repository.{
  BackupRepository, BackupPayload, RunOnceOutcome, created, skipped, run_once, rollback_to,
  prune_created_older_than_days, format_timestamp_dir, backup_dir, payload_path, state_dir,
  pointer_path, pointer_tmp_path,
}
use anki_backup_tool.Repository.Paths.{
  payload≢pointer, payload≢tmp, not-above-payload, not-above-backup_dir, not-above-state_dir,
}
use anki_backup_tool.Repository.NewEntry.{stamped}
use anki_backup_tool.Repository.RunOnce.{run_once_lem}
use anki_backup_tool.Repository.RunOnce.Left.{Outcome, Failed}
use anki_backup_tool.Repository.RunOnce.StoreBackup.{format_timestamp_dir-nonempty}
use anki_backup_tool.Repository.Pointer.{PointsTo, PointerKept}
use anki_backup_tool.Repository.Rollback.{
  RollbackError, unread, missing, unswapped, unrecorded, RolledBack, rollback_to_lem,
}
use anki_backup_tool.Repository.Intact.{
  IsIntact, AllIntact, Spared, AllIntact-Spared, AllIntact-snoc, AllIntact-skip,
}
use anki_backup_tool.Repository.Intact.Kept.{AllIntact-fewer, AllIntact-keep}

pub true≢false : true ≢ false
true≢false = λ e. cc

skipped≢created : BackupStatus.skipped ≢ BackupStatus.created
skipped≢created = λ e. cc

module _ ⦃P : Platform⦄ {S : Type 0} (repo : BackupRepository S) (hash : Bytes → String)
    (Rep : S → List BackupEntry → List (Uuid × Uuid) → Type 0) where
  -- The state directory is there, and every stored backup of the database is intact.
  pub record IsSafe (w : World S) : Type 0 where
    pub ready : w.disk.dirs (state_dir repo.root) ≡ true
    pub entries : List BackupEntry
    pub events : List (Uuid × Uuid)
    pub listed : Rep w.store entries events
    pub intact : AllIntact repo.root hash w.disk entries

  module _ {stamp : DateTime → DateTime} (contract : IsStore repo.store Rep stamp)
      (lawful : IsLawful P.lib) (dated : (n : ℕ) → P.times n < year_10000) where
    -- What a run leaves of another backup than its own.
    Spared-run :
        (w u : World S) (dir : String)
        → dir ≢ ""
        → w.disk.dirs (backup_dir repo.root dir) ≡ false
        → ((q : FilePath) → w.disk.dirs q ≡ true → u.disk.dirs q ≡ true)
        → ((q : FilePath)
            → is_above (backup_dir repo.root dir) q ≡ false
            → q ≢ pointer_path repo.root
            → q ≢ pointer_tmp_path repo.root
            → u.disk.files q ≡ w.disk.files q)
        → (x : BackupEntry) → IsIntact repo.root hash w.disk x
        → Spared repo.root hash w.disk u.disk x
    Spared-run w u dir named new dirs files x (named', there, held) = (
      dirs _ there,
      files _
          (not-above-payload repo.root dir named x.timestamp_dir named' (λ same.
            true≢false
              (sym there ∙ ap (λ t. w.disk.dirs (backup_dir repo.root t)) (sym same) ∙ new)))
          (payload≢pointer repo.root x.timestamp_dir named')
          (payload≢tmp repo.root x.timestamp_dir named'),
    )

    -- One more entry, which has its payload if it is a stored backup.
    grown :
        (payload : BackupPayload) (w u : World S) (dir : String) (e : BackupEntry)
        → (safe : IsSafe w) → dir ≢ ""
        → w.disk.dirs (backup_dir repo.root dir) ≡ false
        → ((q : FilePath) → w.disk.dirs q ≡ true → u.disk.dirs q ≡ true)
        → ((q : FilePath)
            → is_above (backup_dir repo.root dir) q ≡ false
            → q ≢ pointer_path repo.root
            → q ≢ pointer_tmp_path repo.root
            → u.disk.files q ≡ w.disk.files q)
        → Rep u.store (safe.entries ++ e ∷ []) safe.events
        → e.content_hash ≡ hash payload.bytes
        → (IsCreated e
            → (e.timestamp_dir ≡ dir)
              × (u.disk.files (payload_path repo.root dir) ≡ some payload.bytes)
              × (u.disk.dirs (backup_dir repo.root dir) ≡ true))
        → IsSafe u
    grown payload w u dir e safe named new dirs files listed hashed stored = record {
      ready = dirs _ safe.ready;
      entries = safe.entries ++ e ∷ [];
      events = safe.events;
      listed = listed;
      intact =
          AllIntact-snoc repo.root hash w.disk u.disk dir safe.entries e safe.intact new
            (Spared-run w u dir named new dirs files)
            (λ is.
              let (at, held, there) = stored (==-sound e.status BackupStatus.created is) in
              (at, whole at held there));
    }
      where
        whole :
            e.timestamp_dir ≡ dir
            → u.disk.files (payload_path repo.root dir) ≡ some payload.bytes
            → u.disk.dirs (backup_dir repo.root dir) ≡ true
            → IsIntact repo.root hash u.disk e
        whole at held there = (
          λ same. named (sym at ∙ same),
          rw at there,
          rw (at, held) (==-true (hash payload.bytes) e.content_hash (sym hashed)),
        )

    pub run-IsSafe :
        (payload : BackupPayload) (w : World S)
        → w.disk.dirs (backup_dir repo.root (format_timestamp_dir (P.times w.step))) ≡ false
        → IsSafe w
        → IsSafe (run_once repo payload (hash payload.bytes) w).1
    unfolding new_created skipped_unchanged
    run-IsSafe payload w new safe =
        Ends-after IsSafe
          (run_once_lem repo Rep stamp contract lawful payload (hash payload.bytes) safe.entries
            safe.events w safe.listed (dated w.step) safe.ready)
          (λ o. ended o _) (λ x h. broken _ h)
      where
        dir : String
        dir = format_timestamp_dir (P.times w.step)

        ended :
            (o : RunOnceOutcome) (u : World S)
            → Outcome repo Rep stamp payload
                (hash payload.bytes)
                safe.entries
                safe.events
                w.disk
                (P.times w.step)
                o
                u
            → IsSafe u
        ended (created e) u h =
            let (id, stats, is, counted) = h.entry in
            grown payload w u _ (stamped stamp e) safe (format_timestamp_dir-nonempty lawful _) new
              h.dirs h.others h.listed (ap (λ (x : BackupEntry). x.content_hash) is)
              (λ stored. (ap (λ (x : BackupEntry). x.timestamp_dir) is, h.file, h.there))
        ended (skipped e) u (last, (id, is), listed, d) =
            grown payload w u _ (stamped stamp e) safe (format_timestamp_dir-nonempty lawful _) new
              (λ q h. rw d h) (λ q h np nt. ap (λ (k : Disk). k.files q) d) listed
              (ap (λ (x : BackupEntry). x.content_hash) is)
              (λ stored.
                absurd (skipped≢created (sym (ap (λ (x : BackupEntry). x.status) is) ∙ stored)))

        broken :
            (u : World S)
            → Failed repo Rep stamp payload
                (hash payload.bytes)
                safe.entries
                safe.events
                w.disk
                (P.times w.step)
                u
            → IsSafe u
        broken u (inl listed, files, dirs, why) = record {
          ready = dirs _ safe.ready;
          entries = safe.entries;
          events = safe.events;
          listed = listed;
          intact =
              AllIntact-Spared repo.root hash w.disk u.disk safe.entries
                (Spared-run w u _ (format_timestamp_dir-nonempty lawful _) new dirs
                  (λ q h np nt. files q h nt))
                safe.intact;
        }
        broken u (inr (e, hashed, stored, listed), files, dirs, why) =
            grown payload w u _ e safe (format_timestamp_dir-nonempty lawful _) new dirs
              (λ q h np nt. files q h nt) listed hashed stored

    -- A run that skips, whatever directories there are.
    pub skip-IsSafe :
        (payload : BackupPayload) (w : World S) (e : BackupEntry)
        → (run_once repo payload (hash payload.bytes) w).0 ≡ ok (skipped e)
        → IsSafe w
        → IsSafe (run_once repo payload (hash payload.bytes) w).1
    unfolding skipped_unchanged
    skip-IsSafe payload w e ended safe =
        let (last, (id, is), listed, d) =
          Ends-ok
            (run_once_lem repo Rep stamp contract lawful payload (hash payload.bytes) safe.entries
              safe.events w safe.listed (dated w.step) safe.ready)
            (skipped e) ended in
        record {
          ready = rw d safe.ready;
          entries = safe.entries ++ stamped stamp e ∷ [];
          events = safe.events;
          listed = listed;
          intact =
              AllIntact-skip repo.root hash (run_once repo payload (hash payload.bytes) w).1.disk
                safe.entries (stamped stamp e) (rw d safe.intact)
                (==-false e.status BackupStatus.created (λ stored.
                  skipped≢created (sym (ap (λ (x : BackupEntry). x.status) is) ∙ stored)));
        }

    -- A change of the disk that spares all but the pointer and the temporary file.
    repointed :
        (w u : World S) (events : List (Uuid × Uuid)) (safe : IsSafe w)
        → Rep u.store safe.entries events
        → u.disk.dirs ≡ w.disk.dirs
        → ((q : FilePath)
            → q ≢ pointer_path repo.root
            → q ≢ pointer_tmp_path repo.root
            → u.disk.files q ≡ w.disk.files q)
        → IsSafe u
    repointed w u events safe listed dirs files = record {
      ready = rw dirs safe.ready;
      entries = safe.entries;
      events = events;
      listed = listed;
      intact =
          AllIntact-Spared repo.root hash w.disk u.disk safe.entries
            (λ x (named, there, held). (
              rw dirs there,
              files _ (payload≢pointer repo.root x.timestamp_dir named)
                  (payload≢tmp repo.root x.timestamp_dir named),
            ))
            safe.intact;
    }

    pub rollback-IsSafe : (id : Uuid) (w : World S) → IsSafe w → IsSafe (rollback_to repo id w).1
    rollback-IsSafe id w safe =
        Ends-after IsSafe
          (rollback_to_lem repo Rep contract id safe.entries safe.events w safe.listed safe.ready)
          (λ b (found, is, (pointer, gone, files, dirs), v, listed).
            repointed w _ _ safe listed dirs files)
          (λ x (listed, why). failed x _ listed why)
      where
        still : (u : World S) → Rep u.store safe.entries safe.events → u.disk ≡ w.disk → IsSafe u
        still u listed d =
            repointed w u safe.events safe listed (ap (λ (k : Disk). k.dirs) d)
              (λ q np nt. ap (λ (k : Disk). k.files q) d)

        failed :
            (x : Error) (u : World S)
            → Rep u.store safe.entries safe.events
            → RollbackError repo Rep id safe.entries safe.events w x u
            → IsSafe u
        failed x u listed (unread d fault) = still u listed d
        failed x u listed (missing m is d) = still u listed d
        failed x u listed (RollbackError.skipped b found is e d) = still u listed d
        failed x u listed (unswapped b found (files, dirs) why) =
            repointed w u safe.events safe listed dirs (λ q np nt. files q nt)
        failed x u listed (unrecorded b found is (pointer, gone, files, dirs) why) =
            repointed w u safe.events safe listed dirs files
