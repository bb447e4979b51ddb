-- ===== src/Examples.antt =====
-- Concrete runs: each theorem at an input where its hypotheses hold.
pub mod Unary
pub mod Machine
pub mod Decks
pub mod Service
pub mod Reach
pub mod Sync
pub mod Sqlite
pub mod Server
pub mod Config
pub mod Stats
pub mod Live
pub mod Restore
pub mod Daemon
pub mod Start
pub mod Main
use anki_backup_tool.Base.{
  ℕ, ◌+◌, ◌*◌, ◌<◌, String, Bool, true, false, Option, none, some, List, [], ◌∷◌, ◌≡◌, ◌≢◌, refl,
  arith, ◌++◌,
}
use anki_backup_tool.Base.Int.{pos}
use anki_backup_tool.Backup.{BackupEntry, year_10000, status_eq}
use anki_backup_tool.World.{World}
use anki_backup_tool.World.Laws.{Ends}
use anki_backup_tool.Store.Contract.{IsStore, is_created}
use anki_backup_tool.Store.Columns.{parse_status, eq_ignore_ascii_case}
use anki_backup_tool.Store.Postgres.{postgres_store, PgDb, to_pg_row}
use anki_backup_tool.Store.Postgres.Rep.{PgRep}
use anki_backup_tool.Store.Postgres.Rows.{decode, pg_row_to_entry-to_pg_row}
use anki_backup_tool.Store.Postgres.{pg_row_to_entry}
use anki_backup_tool.Store.Postgres.Contract.{postgres_store-IsStore}
use anki_backup_tool.Repository.{
  BackupPayload, run_once, rollback_to, prune_created_older_than_days, write_current_pointer,
  skipped,
}
use anki_backup_tool.Repository.NewEntry.{stamped}
use anki_backup_tool.Repository.Twice.{run_once-unchanged}
use anki_backup_tool.Repository.RunOnce.{run_once_lem}
use anki_backup_tool.Repository.RunOnce.Left.{Outcome, Failed}
use anki_backup_tool.Repository.Rollback.{RollbackError, RolledBack, Unrolled, rollback_to_lem}
use anki_backup_tool.Repository.Prune.{Pruned, Unpruned, prune_created_older_than_days_lem}
use anki_backup_tool.Repository.Pointer.{
  PointsTo, PointerKept, PointerRefused, write_current_pointer-atomic,
}
use anki_backup_tool.Examples.Machine.{
  machine, libraries, libraries-IsLawful, newest_first, newest_first-IsOrdering, database-PgRep,
  entries, start, repository, first_row, start-ready,
}

abbrev stamp : ℕ → ℕ
stamp = libraries.timestamptz

postgres_store-IsStore_example :
    IsStore ⦃P = machine⦄ (postgres_store ⦃P = machine⦄ newest_first) (PgRep ⦃P = machine⦄) stamp
postgres_store-IsStore_example =
    postgres_store-IsStore ⦃P = machine⦄ newest_first newest_first-IsOrdering libraries-IsLawful

abbrev payload : BackupPayload
payload = record { bytes = 1 ∷ 2 ∷ []; source_revision = none; sync_duration_ms = some (pos 5) }

run_once_example :
    Ends
      (run_once ⦃P = machine⦄ repository payload "h2" start)
      (Outcome ⦃P = machine⦄ repository
        (PgRep ⦃P = machine⦄)
        stamp
        payload
        "h2"
        entries
        []
        start.disk
        (200 * 86400 * 1000000000))
      (λ _ u.
        Failed ⦃P = machine⦄ repository
          (PgRep ⦃P = machine⦄)
          stamp
          payload
          "h2"
          entries
          []
          start.disk
          (200 * 86400 * 1000000000)
          u)
run_once_example =
    run_once_lem ⦃P = machine⦄ repository (PgRep ⦃P = machine⦄) stamp
      (postgres_store-IsStore ⦃P = machine⦄ newest_first newest_first-IsOrdering libraries-IsLawful)
      libraries-IsLawful payload "h2" entries [] start database-PgRep (ground arith) start-ready

-- The pointer goes back to the first backup.
rollback_to_example :
    Ends
      (rollback_to ⦃P = machine⦄ repository 7 start)
      (RolledBack ⦃P = machine⦄ repository (PgRep ⦃P = machine⦄) 7 entries [] start)
      (Unrolled ⦃P = machine⦄ repository (PgRep ⦃P = machine⦄) 7 entries [] start)
rollback_to_example =
    rollback_to_lem ⦃P = machine⦄ repository (PgRep ⦃P = machine⦄)
      (postgres_store-IsStore ⦃P = machine⦄ newest_first newest_first-IsOrdering libraries-IsLawful)
      7 entries [] start database-PgRep start-ready

prune_created_older_than_days_example :
    Ends
      (prune_created_older_than_days ⦃P = machine⦄ repository (pos 30) start)
      (Pruned ⦃P = machine⦄ repository (PgRep ⦃P = machine⦄) stamp (pos 30) entries [] start)
      (λ _ u.
        Unpruned ⦃P = machine⦄ repository (PgRep ⦃P = machine⦄) stamp (pos 30) entries [] start u)
prune_created_older_than_days_example =
    prune_created_older_than_days_lem ⦃P = machine⦄ repository (PgRep ⦃P = machine⦄) stamp (pos 30)
      entries [] start
      (postgres_store-IsStore ⦃P = machine⦄ newest_first newest_first-IsOrdering libraries-IsLawful)
      database-PgRep (ground arith)

abbrev first_backup : BackupEntry
first_backup = decode ⦃P = machine⦄ first_row

write_current_pointer-atomic_example :
    Ends
      (write_current_pointer ⦃P = machine⦄ repository first_backup start)
      (λ _ u.
        PointsTo ⦃P = machine⦄ repository first_backup start.disk u.disk × (u.store ≡ start.store))
      (λ _ u.
        PointerKept ⦃P = machine⦄ repository first_backup start.disk u.disk
        × (u.store ≡ start.store)
        × PointerRefused ⦃P = machine⦄ first_backup)
write_current_pointer-atomic_example =
    write_current_pointer-atomic ⦃P = machine⦄ repository first_backup start start-ready

pg_row_to_entry-to_pg_row_example :
    pg_row_to_entry ⦃P = machine⦄ first_row
    ≡ some (record first_backup { created_at = stamp first_backup.created_at })
unfolding decode to_pg_row parse_status
pg_row_to_entry-to_pg_row_example =
    pg_row_to_entry-to_pg_row ⦃P = machine⦄ libraries-IsLawful first_backup first_row refl

first_backup-IsCreated : is_created first_backup ≡ true
unfolding decode parse_status status_eq eq_ignore_ascii_case
first_backup-IsCreated = refl

run_once-unchanged_example :
    Ends
      (run_once ⦃P = machine⦄ repository payload first_backup.content_hash start)
      (λ o u.
        (s : BackupEntry) × (o ≡ skipped s)
        × PgRep ⦃P = machine⦄ u.store (([] ++ first_backup ∷ []) ++ stamped stamp s ∷ []) []
        × (u.disk ≡ start.disk))
      (λ _ u.
        Failed ⦃P = machine⦄ repository
          (PgRep ⦃P = machine⦄)
          stamp
          payload
          first_backup.content_hash
          ([] ++ first_backup ∷ [])
          []
          start.disk
          (200 * 86400 * 1000000000)
          u)
run_once-unchanged_example =
    run_once-unchanged ⦃P = machine⦄ repository (PgRep ⦃P = machine⦄) stamp
      (postgres_store-IsStore ⦃P = machine⦄ newest_first newest_first-IsOrdering libraries-IsLawful)
      libraries-IsLawful payload [] first_backup first_backup-IsCreated tt [] start database-PgRep
      (ground arith) start-ready
