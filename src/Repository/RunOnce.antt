-- ===== src/Repository/RunOnce.antt =====
-- `run_once`: when it stores a backup and when it skips, what each leaves in the database and on the
-- disk, and what a failure may leave.
pub mod Left
pub mod StoreBackup
use anki_backup_tool.Base.{
  ℕ, ◌<◌, String, Bool, Option, none, some, true, false, List, [], ◌∷◌, ◌++◌, length, ◌≡◌, ◌≢◌, ◌⊎◌,
  inl, inr, refl, sym, ap, ◌∙◌, subst, arith, ◌==◌, string_eq, Bool-cases, ==-sound, ==-true,
  if◌then◌else◌,
}
use anki_backup_tool.Base.Int.{as_i64}
use anki_backup_tool.Base.Text.{replace-nonempty}
use anki_backup_tool.Backup.{
  Uuid, DateTime, Bytes, BackupEntry, BackupStats, NewBackupEntry, BackupStatus, year_10000,
  new_created, skipped_unchanged,
}
use anki_backup_tool.Libraries.{IsLawful}
use anki_backup_tool.World.{
  FilePath, Platform, World, Disk, Io, is_above, now, pure, file_len, ◌>>=◌, ◌>>◌, Result,
}
use anki_backup_tool.World.Laws.{Ends, Ends-bind, Ends-mono}
use anki_backup_tool.World.Calls.{Ends-write, Ends-read, Written, OthersKept}
use anki_backup_tool.World.Reads.{Untouched}
use anki_backup_tool.World.Directories.{Ends-create_dir_all, DirsAdded}
use anki_backup_tool.Stats.{extract_stats}
use anki_backup_tool.Store.Contract.{IsStore, IsLastHash}
use anki_backup_tool.Repository.{
  BackupRepository, BackupPayload, RunOnceOutcome, created, skipped, run_once, store_backup,
  skip_unchanged, is_unchanged, create_and_insert_entry, write_current_pointer, entry_of,
  format_timestamp_dir, payload_path, metadata_path, pointer_path, pointer_tmp_path, state_dir,
  backup_dir,
}
use anki_backup_tool.Repository.Paths.{
  parent-payload_path, payload≢metadata, payload≢pointer, payload≢tmp, metadata≢pointer,
  metadata≢tmp, above-payload, above-metadata,
}
use anki_backup_tool.Repository.Pointer.{
  PointsTo, PointerKept, PointerRefused, write_current_pointer-atomic,
}
use anki_backup_tool.Repository.NewEntry.{
  stamped, Added, AddedOrNot, FileSet, FileLost, skipped_entry, created_entry,
}
use anki_backup_tool.Repository.RunOnce.Left.{Outcome, Failed, broken_off, no_skip}
use anki_backup_tool.Repository.RunOnce.StoreBackup.{store_backup-ends}

skipped≢created : BackupStatus.skipped ≢ BackupStatus.created
skipped≢created = λ e. cc

module _ ⦃P : Platform⦄ {S : Type 0} (repo : BackupRepository S)
    (Rep : S → List BackupEntry → List (Uuid × Uuid) → Type 0) (stamp : DateTime → DateTime)
    (contract : IsStore repo.store Rep stamp) (lawful : IsLawful P.lib) (payload : BackupPayload)
    (hash : String) (es : List BackupEntry) (evs : List (Uuid × Uuid)) (w : World S)
    (rep : Rep w.store es evs) (dated : P.times w.step < year_10000) where
  abbrev Run : RunOnceOutcome → World S → Type 0
  Run = Outcome repo Rep stamp payload hash es evs w.disk (P.times w.step)

  abbrev Broken : World S → Type 0
  Broken = Failed repo Rep stamp payload hash es evs w.disk (P.times w.step)

  skip_unchanged-ends :
      (v : World S)
      → Rep v.store es evs
      → v.disk ≡ w.disk
      → IsLastHash es (some hash)
      → Ends (skip_unchanged repo (P.times w.step) hash v) Run (λ _ u. Broken u)
  unfolding skip_unchanged skipped_unchanged
  skip_unchanged-ends v rep' same_disk last =
      Ends-bind
        (skipped_entry repo Rep stamp contract (skipped_unchanged (P.times w.step) hash) es evs v
          rep' dated refl)
        (λ e u (id, same, added, d). record {
          holds = (last, (id, same), rw same added, d ∙ same_disk);
        })
        (λ x u (added, d, why). (
          elim added [
            | inl kept ↦ inl kept
            | inr (id, kept) ↦ inr (
              stamped stamp (entry_of repo id (skipped_unchanged (P.times w.step) hash)),
              refl,
              λ is. absurd (skipped≢created is),
              kept,
            )
          ],
          λ q h nt. ap (λ (k : Disk). k.files q) (d ∙ same_disk),
          λ q h. rw (d ∙ same_disk) h,
          no_skip why,
        ))

  is_unchanged-true : (o : Option String) → is_unchanged repo o hash ≡ true → o ≡ some hash
  is_unchanged-true none h = cc
  is_unchanged-true (some last) h = ap some (==-sound last hash h)

  -- A run of run_once that ends well has stored a backup or skipped. It skips exactly when the hash is
  -- the one of the newest created entry: then the entry says so and no file changes. Otherwise the
  -- payload and the metadata are in the new directory, the database has the entry, with the statistics
  -- of the payload, the pointer names it, and no other file has changed. A run that fails leaves all
  -- entries, at most with the new one added, whose payload is then in its directory, and every file
  -- outside that but the temporary one, the pointer included; and a call has failed, the payload has
  -- no statistics, an id is taken, or something does not serialise. No directory goes. This holds
  -- where the state directory is there, the year has four digits, the store keeps its contract, and
  -- the libraries behave as documented.
  pub run_once_lem :
      w.disk.dirs (state_dir repo.root) ≡ true
      → Ends (run_once repo payload hash w) Run (λ _ u. Broken u)
  unfolding run_once now
  run_once_lem ready =
      Ends-bind (contract.last es evs _ rep)
        (λ o v (s, d, last). elim (Bool-cases (is_unchanged repo o hash)) [
          | inl same ↦ rw same (
              skip_unchanged-ends v (rw s rep) d
                (subst (IsLastHash es) (is_unchanged-true o same) last))
          | inr differs ↦ rw differs (
              store_backup-ends repo Rep stamp payload hash es evs w.disk (P.times w.step) contract
                lawful dated (o, last, differs) v d (rw s rep) ready)
        ])
        (λ x u (s, d, fault). (
          inl (rw s rep),
          λ q h nt. ap (λ (k : Disk). k.files q) d,
          λ q h. rw d h,
          broken_off fault,
        ))
