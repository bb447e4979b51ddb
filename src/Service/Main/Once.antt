-- ===== src/Service/Main/Once.antt =====
-- What the `run-once` command leaves, however it ends.
use anki_backup_tool.Base.{inl, ℕ, ◌<◌, true, false, List, ◌≡◌, refl, ap, ◌∙◌, string_eq}
use anki_backup_tool.Backup.{Uuid, DateTime, BackupEntry, year_10000}
use anki_backup_tool.Libraries.{IsLawful}
use anki_backup_tool.World.{Platform, World, Disk, Result, ok, err, continue, pure, ◌>>◌}
use anki_backup_tool.World.Laws.{Ends-after}
use anki_backup_tool.World.Reads.{Untouched}
use anki_backup_tool.Store.Contract.{IsStore}
use anki_backup_tool.Repository.{BackupRepository, run_once, backup_dir, format_timestamp_dir}
use anki_backup_tool.Repository.Safe.{IsSafe}
use anki_backup_tool.Repository.Reach
use anki_backup_tool.Repository.Reach.{Reach, Reach-IsSafe, Step, here, next, run}
use anki_backup_tool.Sync.{Network, SyncConfig, SyncResult, sync_collection}
use anki_backup_tool.Sync.Wire.{on_wire, sync-on_wire}
use anki_backup_tool.Service.{content_hash, payload_of, run_once_command}
use anki_backup_tool.Service.Scheduler.{left_by_client}
use anki_backup_tool.Service.Round.{OneMore, one_more}
use anki_backup_tool.Repository.{state_dir}
use anki_backup_tool.Base.{[], append-nil, arith}

module _ ⦃P : Platform⦄ ⦃N : Network⦄ {S : Type 0} (repo : BackupRepository S) where
  -- The backup of what the client has brought, or nothing.
  after_client : Result SyncResult → World S → World S
  after_client (ok sync) u =
      (run_once repo (payload_of sync) (content_hash sync.collection_bytes) u).1
  after_client (err x) u = u

  ignored : {A : Type 0} (x : Result A) (u : World S) → (continue x (λ _. pure tt) u).1 ≡ u
  ignored (ok a) u = refl
  ignored (err x) u = refl

  backed :
      (r : Result SyncResult) (u : World S)
      → (continue r
          (λ sync. run_once repo (payload_of sync) (content_hash sync.collection_bytes) >> pure tt)
          u).1
        ≡ after_client r u
  unfolding after_client
  backed (ok sync) u = ignored _ _
  backed (err x) u = refl

  run_once_command-world :
      (config : SyncConfig) (w : World S)
      → (run_once_command repo config w).1
        ≡ after_client (on_wire (sync_collection config) w).0 (left_by_client config w)
  unfolding run_once_command
  run_once_command-world config w = backed _ _

  after_client-Reach :
      (w u : World S) (r : Result SyncResult)
      → Reach repo content_hash w u
      → u.disk.dirs (backup_dir repo.root (format_timestamp_dir (P.times u.step))) ≡ false
      → Reach repo content_hash w (after_client r u)
  unfolding after_client payload_of
  after_client-Reach w u (ok sync) path new = next path (run (payload_of sync) u (inl new))
  after_client-Reach w u (err x) path new = path

  module _ (Rep : S → List BackupEntry → List (Uuid × Uuid) → Type 0) (stamp : DateTime → DateTime)
      (es : List BackupEntry) (evs : List (Uuid × Uuid)) (contract : IsStore repo.store Rep stamp)
      (lawful : IsLawful P.lib) (dated : (n : ℕ) → P.times n < year_10000) where
    after_client-OneMore :
        (r : Result SyncResult) (u : World S)
        → Rep u.store es evs
        → u.disk.dirs (state_dir repo.root) ≡ true
        → OneMore repo Rep stamp es evs (after_client r u)
    unfolding after_client
    after_client-OneMore (ok sync) u rep ready =
        one_more repo Rep stamp es evs contract lawful (payload_of sync)
          (content_hash sync.collection_bytes) u rep (dated u.step) ready
    after_client-OneMore (err x) u rep ready = ([], omega arith, rw (append-nil es) rep)

    -- The backups are all there, the entries too, and after them at most one more.
    pub run_once_command-keeps :
        (config : SyncConfig) (w : World S)
        → IsSafe repo content_hash Rep w
        → Rep w.store es evs
        → ((n : ℕ) → w.disk.dirs (backup_dir repo.root (format_timestamp_dir (P.times n))) ≡ false)
        → IsSafe repo content_hash Rep (run_once_command repo config w).1
          × OneMore repo Rep stamp es evs (run_once_command repo config w).1
    run_once_command-keeps config w safe rep new =
        let u = left_by_client config w in
        let (disk, store) =
          Ends-after (λ v. Untouched w v) (sync-on_wire config w) (λ a h. h.1) (λ x h. h.1) in
        rw (run_once_command-world config w) (
          Reach-IsSafe repo content_hash Rep contract lawful dated w _ safe (
              after_client-Reach w u (on_wire (sync_collection config) w).0
                (next here (Reach.read w u (disk, store)))
                (ap
                    (λ (k : Disk).
                      k.dirs (backup_dir repo.root (format_timestamp_dir (P.times u.step))))
                    disk
                  ∙ new u.step)),
          after_client-OneMore (on_wire (sync_collection config) w).0 u (rw store rep)
              (rw disk safe.ready),
        )
