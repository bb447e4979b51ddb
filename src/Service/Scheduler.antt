-- ===== src/Service/Scheduler.antt =====
-- The client and the repository together: a round of the scheduler, and the `run-once` command.
use anki_backup_tool.Base.{ℕ, ◌-◌, ◌*◌, ◌<◌, true, List, ◌≡◌, ◌⊎◌, inl, inr, refl, subst}
use anki_backup_tool.Base.Int.{ℤ, pos_part}
use anki_backup_tool.Backup.{Uuid, DateTime, BackupEntry, year_10000}
use anki_backup_tool.Libraries.{IsLawful}
use anki_backup_tool.World.{Platform, World, Disk, Error, Result, ok, err}
use anki_backup_tool.World.Laws.{Ends, Ends-bind, Ends-mono, Ends-there}
use anki_backup_tool.World.Reads.{Untouched}
use anki_backup_tool.Store.Contract.{IsStore}
use anki_backup_tool.Repository.{day, BackupRepository, RunOnceOutcome, run_once, state_dir}
use anki_backup_tool.Repository.RunOnce.{run_once_lem}
use anki_backup_tool.Repository.RunOnce.Left.{Outcome, Failed}
use anki_backup_tool.Sync.{Network, Sent, SyncConfig, SyncResult, sync_collection}
use anki_backup_tool.Sync.Collection.{Downloaded, Broken}
use anki_backup_tool.Sync.Wire.{fresh, on_wire, sync-on_wire}
use anki_backup_tool.Service.{
  content_hash, payload_of, after_sync, scheduler_round, run_once_command,
}
use anki_backup_tool.Service.Round.{RecentKept, scheduled_backup_lem}

module _ ⦃N : Network⦄ {S : Type 0} (config : SyncConfig) (w : World S) where
  -- The world after the client has run.
  abbrev pub left_by_client : World S
  left_by_client = (on_wire (sync_collection config) w).1

  -- What the client has brought.
  abbrev pub Brought : SyncResult → Type 0
  Brought sync = (z : World Sent) × Downloaded config (fresh w) sync z

module _ ⦃P : Platform⦄ ⦃N : Network⦄ {S : Type 0} (repo : BackupRepository S)
    (Rep : S → List BackupEntry → List (Uuid × Uuid) → Type 0) (stamp : DateTime → DateTime)
    (es : List BackupEntry) (evs : List (Uuid × Uuid)) (config : SyncConfig) (w : World S) where
  -- The world after the backup of what it has brought.
  abbrev pub backed_up : SyncResult → World S
  backed_up sync =
      (run_once repo (payload_of sync) (content_hash sync.collection_bytes)
        (left_by_client config w)).1

  -- How a backup of it ends, started on a disk at a step of the clock.
  abbrev pub Ran : SyncResult → Disk → ℕ → RunOnceOutcome → World S → Type 0
  Ran sync d n =
      Outcome repo Rep stamp (payload_of sync) (content_hash sync.collection_bytes) es evs d
        (P.times n)

  abbrev pub Lost : SyncResult → Disk → ℕ → World S → Type 0
  Lost sync d n =
      Failed repo Rep stamp (payload_of sync) (content_hash sync.collection_bytes) es evs d
        (P.times n)

  -- A round without a download has changed nothing; one with a download keeps what retention keeps.
  abbrev pub RoundEnds : ℤ → World S → Type 0
  RoundEnds days u =
      ((x : Error) × ((on_wire (sync_collection config) w).0 ≡ err x) × Untouched w u)
      ⊎ ((sync : SyncResult) × ((on_wire (sync_collection config) w).0 ≡ ok sync)
          × Brought config w sync
          × RecentKept repo Rep stamp es evs days
              (stamp (P.times (backed_up sync).step - pos_part days * day)) u)

  module _ (contract : IsStore repo.store Rep stamp) (lawful : IsLawful P.lib)
      (rep : Rep w.store es evs) (ready : w.disk.dirs (state_dir repo.root) ≡ true)
      (dated : (n : ℕ) → P.times n < year_10000) where
    round-ends :
        (days : ℤ) (r : Result SyncResult)
        → (on_wire (sync_collection config) w).0 ≡ r
        → Ends
            (r, left_by_client config w)
            (λ sync u. Brought config w sync × Untouched w u)
            (λ x u. Untouched w u)
        → RoundEnds days (after_sync repo r days (left_by_client config w))
    unfolding after_sync
    round-ends days (ok sync) is h =
        let (brought, (disk, store)) = h.holds in
        inr (
          sync,
          is,
          brought,
          scheduled_backup_lem repo Rep stamp es evs contract lawful sync days
              (left_by_client config w) (rw store rep) (rw disk ready) dated,
        )
    round-ends days (err x) is h = inl (x, is, h.holds)

    -- A round of the scheduler whose sync fails changes neither a file nor the database. After one
    -- with a download every entry that retention keeps is still there, which is each of them without a
    -- retention, and after them at most one new entry. The state directory is there, the clock stays
    -- before the year 10000, the store keeps its contract, and the libraries behave as documented.
    pub scheduler_round_lem : (days : ℤ) → RoundEnds days (scheduler_round repo config days w)
    unfolding scheduler_round
    scheduler_round_lem days =
        round-ends days (on_wire (sync_collection config) w).0 refl
          (Ends-mono (sync-on_wire config w) (λ sync u h. h) (λ x u h. h.1))

    -- A run of the command line that ends well has stored or skipped what the client downloaded, as
    -- run_once does. One that fails has changed nothing, where the client failed, or what a failed
    -- run_once of the download may change. The state directory is there, the clock stays before the
    -- year 10000, the store keeps its contract, and the libraries behave as documented.
    pub run_once_command_lem :
        Ends
          (run_once_command repo config w)
          (λ _ u.
            (sync : SyncResult) × (o : RunOnceOutcome) × Brought config w sync
            × Ran sync w.disk (left_by_client config w).step o u)
          (λ x u.
            (((z : World Sent) × Broken config (fresh w) x z) × Untouched w u)
            ⊎ ((sync : SyncResult) × Brought config w sync
                × Lost sync w.disk (left_by_client config w).step u))
    unfolding run_once_command
    run_once_command_lem =
        Ends-bind (Ends-there (sync-on_wire config w))
          (λ sync u ((brought, (disk, store)), there).
            Ends-bind
              (run_once_lem repo Rep stamp contract lawful (payload_of sync)
                (content_hash sync.collection_bytes) es evs u (rw store rep) (dated u.step)
                (rw disk ready))
              (λ o v out. record {
                holds = (
                  sync,
                  o,
                  brought,
                  subst (λ (k : World S). Ran sync w.disk k.step o v) there
                      (subst (λ (d : Disk). Ran sync d u.step o v) disk out),
                );
              })
              (λ x v lost. inr (
                sync,
                brought,
                subst (λ (k : World S). Lost sync w.disk k.step v) there
                    (subst (λ (d : Disk). Lost sync d u.step v) disk lost),
              )))
          (λ x u h. inl h)
