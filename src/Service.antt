-- ===== src/Service.antt =====
-- crates/daemon/src/main.rs with crates/core/src/hash.rs: one round of the scheduler.
pub mod Round
pub mod Scheduler
pub mod Config
pub mod Tasks
pub mod Main
use anki_backup_tool.Base.{ℕ, ◌+◌, ◌-◌, ◌*◌, String, Option, none, some, if◌then◌else◌, leb}
use anki_backup_tool.Base.Int.{ℤ, pos}
use anki_backup_tool.Base.Text.{parse_i64}
use anki_backup_tool.Backup.{Bytes}
use anki_backup_tool.World.{Platform, World, Io, Result, ok, err, pure, ◌>>=◌, ◌>>◌}
use anki_backup_tool.Sync.{Network, SyncConfig, SyncResult, sync_collection}
use anki_backup_tool.Sync.Wire.{on_wire}
use anki_backup_tool.Repository.{
  BackupRepository, BackupPayload, run_once, prune_created_older_than_days,
}

-- `secs_to_next_hour.max(1)`, from the minute and the second of the clock
unfoldable pub secs_to_next_hour : ℕ → ℕ → ℕ
secs_to_next_hour minute second =
    let secs = 3600 - (minute * 60 + second) in if leb 1 secs then secs else 1

-- `or`, then `unwrap_or`
either_or : Option ℤ → Option ℤ → ℤ → ℤ
either_or none none n = n
either_or none (some b) n = b
either_or (some a) b n = a

parsed : Option String → Option ℤ
parsed none = none
parsed (some v) = parse_i64 v

-- ANKI_BACKUP_RETENTION_DAYS, or the configuration file's value, or 90.
unfoldable pub retention_days : Option String → Option ℤ → ℤ
unfolding either_or parsed
retention_days env cfg = either_or (parsed env) cfg (pos 90)

module _ ⦃P : Platform⦄ where
  -- `content_hash`
  unfoldable pub content_hash : Bytes → String
  content_hash content = P.hex_encode (P.sha256 content)

  unfoldable pub payload_of : SyncResult → BackupPayload
  payload_of sync = record {
    bytes = sync.collection_bytes;
    source_revision = sync.source_revision;
    sync_duration_ms = some sync.sync_duration_ms;
  }

  module _ {S : Type 0} (repo : BackupRepository S) where
    -- The body of the loop of `scheduler_loop` after a sync that has ended well: errors are only logged.
    unfoldable pub scheduled_backup : SyncResult → ℤ → World S → World S
    scheduled_backup sync days w =
        let v = (run_once repo (payload_of sync) (content_hash sync.collection_bytes) w).1 in
        (prune_created_older_than_days repo days v).1

    -- A sync that fails is logged, and the round is over.
    after_sync : Result SyncResult → ℤ → World S → World S
    after_sync (ok sync) days w = scheduled_backup sync days w
    after_sync (err e) days w = w

    module _ ⦃N : Network⦄ where
      -- The body of the loop of `scheduler_loop`, after the sleep.
      unfoldable pub scheduler_round : SyncConfig → ℤ → World S → World S
      unfolding after_sync
      scheduler_round config days w =
          let (r, u) = on_wire (sync_collection config) w in after_sync r days u

      -- `run_once` of the command line: any error ends the process with it.
      unfoldable pub run_once_command : SyncConfig → Io S Unit
      run_once_command config = do
        sync ← on_wire (sync_collection config)
        run_once repo (payload_of sync) (content_hash sync.collection_bytes)
        pure tt
