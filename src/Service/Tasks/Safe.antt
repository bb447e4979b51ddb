-- ===== src/Service/Tasks/Safe.antt =====
-- What the tasks of the daemon keep of the backups, in whatever order they go on.
use anki_backup_tool.Base.{ℕ, ◌<◌, List, ◌≡◌, refl}
use anki_backup_tool.Base.Int.{ℤ}
use anki_backup_tool.Backup.{Uuid, DateTime, BackupEntry, year_10000}
use anki_backup_tool.Libraries.{IsLawful}
use anki_backup_tool.World.{Platform, World}
use anki_backup_tool.Store.Contract.{IsStore}
use anki_backup_tool.Repository.Safe.{IsSafe}
use anki_backup_tool.Repository.Reach
use anki_backup_tool.Repository.Reach.{Reach, Step, here, next, Reach-IsSafe}
use anki_backup_tool.Sync.{Network, SyncConfig}
use anki_backup_tool.Server.{AppState, Service}
use anki_backup_tool.Server.Steps.{serve-Reach}
use anki_backup_tool.Server.Api.{Archiver}
use anki_backup_tool.Server.Pages.{Formats}
use anki_backup_tool.Server.Router.Spacing.{Passage}
use anki_backup_tool.Server.Stages.{Progress, replied, uploading, begin_rollback}
use anki_backup_tool.Server.Stages.Reached.{begin_rollback-Leads, end_rollback-Leads}
use anki_backup_tool.Service.{
  content_hash, payload_of, scheduled_backup, after_sync, scheduler_round,
}
use anki_backup_tool.Service.Scheduler.{left_by_client}
use anki_backup_tool.World.{Result, ok, err}
use anki_backup_tool.World.Laws.{Ends-after}
use anki_backup_tool.World.Reads.{Untouched}
use anki_backup_tool.Repository.{BackupRepository}
use anki_backup_tool.Repository.Reach.{run, prune, IsTimely}
use anki_backup_tool.Sync.{SyncResult, sync_collection}
use anki_backup_tool.Sync.Wire.{on_wire, sync-on_wire}
use anki_backup_tool.Service.Tasks.{
  Running, after_begin, Tasks, started, begins, ends, drops, answers, rounds, pauses,
}

module _ ⦃P : Platform⦄ ⦃N : Network⦄ {S : Type 0} (repo : BackupRepository S) where
  -- A round of the scheduler is a run and a pruning, or nothing.
  after_sync-Reach :
      (days : ℤ) (w u : World S) (r : Result SyncResult)
      → Reach repo content_hash w u
      → ((sync : SyncResult) → r ≡ ok sync → IsTimely repo content_hash (payload_of sync) u)
      → Reach repo content_hash w (after_sync repo r days u)
  unfolding after_sync scheduled_backup payload_of
  after_sync-Reach days w u (ok sync) path new =
      next (next path (run (payload_of sync) u (new sync refl))) (prune days _)
  after_sync-Reach days w u (err x) path new = path

  scheduler_round-Reach :
      (config : SyncConfig) (days : ℤ) (w : World S)
      → ((sync : SyncResult)
          → (on_wire (sync_collection config) w).0 ≡ ok sync
          → IsTimely repo content_hash (payload_of sync) (left_by_client config w))
      → Reach repo content_hash w (scheduler_round repo config days w)
  unfolding scheduler_round
  scheduler_round-Reach config days w new =
      after_sync-Reach days w (left_by_client config w) (on_wire (sync_collection config) w).0
        (next here (
          Reach.read w (left_by_client config w)
            (Ends-after (λ u. Untouched w u) (sync-on_wire config w) (λ a h. h.1) (λ x h. h.1))))
        new

module _ ⦃P : Platform⦄ ⦃F : Formats⦄ ⦃Z : Archiver⦄ {S : Type 0} (state : AppState S)
    (config : SyncConfig) (days : ℤ) (Rep : S → List BackupEntry → List (Uuid × Uuid) → Type 0)
    {stamp : DateTime → DateTime} (contract : IsStore state.repo.store Rep stamp)
    (lawful : IsLawful P.lib) (dated : (n : ℕ) → P.times n < year_10000) where
  abbrev Safe : World S → Type 0
  Safe u = IsSafe state.repo content_hash Rep u

  onward : (u v : World S) → Reach state.repo content_hash u v → Safe u → Safe v
  onward u v path safe =
      Reach-IsSafe state.repo content_hash Rep contract lawful dated u v safe path

  after_begin-Safe :
      (asked : DateTime) (x : Progress × Service S)
      → Safe x.1.world
      → Safe (after_begin asked x).service.world
  after_begin-Safe asked (replied r, s) safe = safe
  after_begin-Safe asked (uploading cfg id bytes, s) safe = safe

  -- Whatever the tasks of the daemon do between each other, and however their calls end, a daemon that
  -- starts with every stored backup in its own directory, with a payload of its hash, always has that:
  -- at every time of a rollback's upload and between requests, rounds of the scheduler and dropped
  -- connections, in any order, each with whatever the network answers it. The run of a round comes in
  -- a second of which there is no directory yet, or skips; the clock stays before the year 10000, the
  -- store keeps its contract, and the libraries behave as documented.
  pub Tasks-IsSafe :
      {w : World S} {ps : List Passage} {r : Running S}
      → IsSafe state.repo content_hash Rep w
      → Tasks state config days w ps r
      → IsSafe state.repo content_hash Rep r.service.world
  Tasks-IsSafe safe started = safe
  Tasks-IsSafe safe (begins {s = s} tasks ⦃N⦄ id headers) =
      after_begin-Safe (P.times s.world.step) (begin_rollback state id headers s) (
        onward s.world _ (begin_rollback-Leads state content_hash s.world id headers s here)
          (Tasks-IsSafe safe tasks))
  Tasks-IsSafe safe (ends {s = s} {cfg = cfg} {id = id} {bytes = bytes} tasks ⦃N⦄) =
      onward s.world _ (end_rollback-Leads state content_hash s.world cfg id bytes s here)
        (Tasks-IsSafe safe tasks)
  Tasks-IsSafe safe (drops tasks) = Tasks-IsSafe safe tasks
  Tasks-IsSafe safe (answers {r = r} tasks ⦃N⦄ e reads id headers) =
      let before = Tasks-IsSafe safe tasks in
      onward r.service.world _
        (serve-Reach state content_hash Rep contract before.entries before.events e id headers
          r.service before.listed)
        before
  Tasks-IsSafe safe (rounds {r = r} tasks ⦃N⦄ new) =
      onward r.service.world _ (scheduler_round-Reach state.repo config days r.service.world new)
        (Tasks-IsSafe safe tasks)
  Tasks-IsSafe safe (pauses {r = r} tasks n) =
      onward r.service.world _ (next here (Reach.read r.service.world _ (refl, refl)))
        (Tasks-IsSafe safe tasks)
