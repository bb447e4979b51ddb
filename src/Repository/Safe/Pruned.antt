-- ===== src/Repository/Safe/Pruned.antt =====
-- Pruning and the backups that can be restored.
use anki_backup_tool.Base.{
  ℕ, ◌<◌, String, Bool, true, false, List, [], ◌∷◌, map, keep, All, ◌≡◌, ◌≢◌, inl, inr, ◌∙◌,
  Bool-cases,
}
use anki_backup_tool.Base.Int.{ℤ}
use anki_backup_tool.Backup.{Uuid, DateTime, Bytes, BackupEntry, year_10000}
use anki_backup_tool.World.{FilePath, Platform, World, is_above}
use anki_backup_tool.World.Laws.{Ends-after}
use anki_backup_tool.Store.Contract.{IsStore, is_created, is_old, removed}
use anki_backup_tool.Repository.{
  BackupRepository, prune_created_older_than_days, backup_dir, payload_path, state_dir,
}
use anki_backup_tool.Repository.Paths.{not-above-payload, not-above-backup_dir, not-above-state_dir}
use anki_backup_tool.Repository.Prune.{
  kept_from, recent, OtherFiles, prune_created_older_than_days_lem,
}
use anki_backup_tool.Repository.Prune.Directories.{Outside}
use anki_backup_tool.Repository.Intact.{IsIntact, Spared, both}
use anki_backup_tool.Repository.Intact.Kept.{AllIntact-fewer, AllIntact-keep}
use anki_backup_tool.Repository.Safe.{IsSafe}

module _ ⦃P : Platform⦄ {S : Type 0} (repo : BackupRepository S) (hash : Bytes → String)
    (Rep : S → List BackupEntry → List (Uuid × Uuid) → Type 0) {stamp : DateTime → DateTime}
    (contract : IsStore repo.store Rep stamp) (dated : (n : ℕ) → P.times n < year_10000) (days : ℤ)
    (w : World S) (safe : IsSafe repo hash Rep w) where
  abbrev old : BackupEntry → Bool
  old = is_old (kept_from repo Rep stamp days safe.entries safe.events w)

  -- A path that each doomed directory spares is outside them all.
  outside :
      (q : FilePath) (xs : List BackupEntry)
      → All (λ y. old y ≡ true → is_above (backup_dir repo.root y.timestamp_dir) q ≡ false) xs
      → Outside repo q (map removed (keep old xs))
  outside q [] h = tt
  outside q (y ∷ ys) (h, hs) = elim (Bool-cases (old y)) [
    | inl e ↦ rw e (h e, outside q ys hs)
    | inr e ↦ rw e (outside q ys hs)
  ]

  implied :
      (P Q : BackupEntry → Type 0) (xs : List BackupEntry)
      → ((y : BackupEntry) → P y → Q y)
      → All P xs
      → All Q xs
  implied P Q [] f h = tt
  implied P Q (x ∷ xs) f (h, hs) = (f x h, implied P Q xs f hs)

  -- Every doomed directory has a name.
  named : All (λ y. old y ≡ true → y.timestamp_dir ≢ "") safe.entries
  named =
      implied (λ y. is_created y ≡ true → IsIntact repo.root hash w.disk y)
        (λ y. old y ≡ true → y.timestamp_dir ≢ "") safe.entries
        (λ y whole is. (whole (both _ _ is).0).0) safe.intact.0

  ready_after :
      (u : World S)
      → OtherFiles repo Rep stamp days safe.entries safe.events w u
      → u.disk.dirs (state_dir repo.root) ≡ true
  ready_after u others =
      (others (state_dir repo.root) (
        outside (state_dir repo.root) safe.entries (
          implied (λ y. old y ≡ true → y.timestamp_dir ≢ "") _ safe.entries
            (λ y h is. not-above-state_dir repo.root y.timestamp_dir (h is)) named))).1
      ∙ safe.ready

  -- The recent entries, where what is outside the doomed directories is as it was.
  kept :
      (u : World S)
      → OtherFiles repo Rep stamp days safe.entries safe.events w u
      → Rep u.store (recent repo Rep stamp days safe.entries safe.events w safe.entries) safe.events
      → IsSafe repo hash Rep u
  kept u others listed = record {
    ready = ready_after u others;
    entries = recent repo Rep stamp days safe.entries safe.events w safe.entries;
    events = safe.events;
    listed = listed;
    intact =
        AllIntact-keep repo.root hash w.disk u.disk old safe.entries (λ x is. (both _ _ is).0)
          spared safe.intact;
  }
    where
      spared :
          (x : BackupEntry)
          → IsIntact repo.root hash w.disk x
          → All
              (λ y. old y ≡ true → (y.timestamp_dir ≢ "") × (y.timestamp_dir ≢ x.timestamp_dir))
              safe.entries
          → Spared repo.root hash w.disk u.disk x
      spared x (named_x, there, held) apart = (
        (others _ (
              outside (backup_dir repo.root x.timestamp_dir) safe.entries (
                implied _ _ safe.entries
                  (λ y h is.
                    not-above-backup_dir repo.root y.timestamp_dir (h is).0 x.timestamp_dir named_x
                      (h is).1)
                  apart))).1
            ∙ there,
        (others _ (
            outside (payload_path repo.root x.timestamp_dir) safe.entries (
              implied _ _ safe.entries
                (λ y h is.
                  not-above-payload repo.root y.timestamp_dir (h is).0 x.timestamp_dir named_x
                    (h is).1)
                apart))).0,
      )

  pub prune-IsSafe : IsSafe repo hash Rep (prune_created_older_than_days repo days w).1
  prune-IsSafe =
      Ends-after (IsSafe repo hash Rep)
        (prune_created_older_than_days_lem repo Rep stamp days safe.entries safe.events w contract
          safe.listed (dated w.step))
        (λ a pruned. elim pruned [
          | inl (zero, none_gone, same) ↦ rw same safe
          | inr (positive, count, listed, gone, others) ↦ kept _ others listed
        ])
        (λ x (positive, (es', listed, same, fewer, where_old), others). elim where_old [
          | inr all_gone ↦ kept _ others (rw (← all_gone) listed)
          | inl disk ↦ record {
            ready = rw disk safe.ready;
            entries = es';
            events = safe.events;
            listed = listed;
            intact =
                rw disk (AllIntact-fewer repo.root hash w.disk safe.entries es' fewer safe.intact);
          }
        ])
