-- ===== src/Examples/Reach.antt =====
-- A backup into an empty repository, then a pruning and a rollback.
use anki_backup_tool.Base.{inl, String, none, List, [], ◌∷◌, refl, arith, string_eq, nat_eq}
use anki_backup_tool.Base.Int.{pos}
use anki_backup_tool.Base.Text.{replace}
use anki_backup_tool.Backup.{Uuid, Bytes, BackupEntry}
use anki_backup_tool.World.{World, is_above, join}
use anki_backup_tool.World.Laws.{Ends}
use anki_backup_tool.Store.Postgres.{PgDb}
use anki_backup_tool.Store.Postgres.Rep.{PgRep}
use anki_backup_tool.Store.Postgres.Contract.{postgres_store-IsStore}
use anki_backup_tool.Repository.{
  BackupPayload, run_once, rollback_to, prune_created_older_than_days, state_dir, backup_dir,
  format_timestamp_dir,
}
use anki_backup_tool.Repository.Rollback.{Unrolled}
use anki_backup_tool.Repository.Safe.{IsSafe}
use anki_backup_tool.Repository.Reach.{
  Reach, here, next, run, prune, Reach-IsSafe, IsRestorable, rollback_to-IsRestorable,
}
use anki_backup_tool.Examples.Machine.{
  machine, libraries-IsLawful, newest_first, newest_first-IsOrdering, repository, root,
}

abbrev hash : Bytes → String
hash bytes = "h1"

abbrev empty : World PgDb
empty = record {
  disk = record { files = λ q. none; dirs = λ q. is_above q (state_dir root) };
  store = record { backups = []; rollback_events = [] };
  step = 0;
}

abbrev payload : BackupPayload
payload = record { bytes = 1 ∷ 2 ∷ []; source_revision = none; sync_duration_ms = none }

empty-IsSafe : IsSafe ⦃P = machine⦄ repository hash (PgRep ⦃P = machine⦄) empty
unfolding join string_eq
empty-IsSafe = record {
  ready = refl;
  entries = [];
  events = [];
  listed = record { all_good = refl; entries = refl; unique = tt; events = refl };
  intact = (tt, λ dir. omega arith);
}

abbrev backed_up : World PgDb
backed_up = (run_once ⦃P = machine⦄ repository payload "h1" empty).1

abbrev pruned : World PgDb
pruned = (prune_created_older_than_days ⦃P = machine⦄ repository (pos 30) backed_up).1

reached : Reach ⦃P = machine⦄ repository hash empty pruned
unfolding join string_eq backup_dir format_timestamp_dir replace nat_eq
reached = next (next here (run payload empty (inl refl))) (prune (pos 30) backed_up)

Reach-IsSafe_example : IsSafe ⦃P = machine⦄ repository hash (PgRep ⦃P = machine⦄) pruned
Reach-IsSafe_example =
    Reach-IsSafe ⦃P = machine⦄ repository hash (PgRep ⦃P = machine⦄)
      (postgres_store-IsStore ⦃P = machine⦄ newest_first newest_first-IsOrdering libraries-IsLawful)
      libraries-IsLawful (λ n. omega arith) empty pruned empty-IsSafe reached

rollback_to-IsRestorable_example :
    Ends
      (rollback_to ⦃P = machine⦄ repository 101 pruned)
      (λ b v. IsRestorable ⦃P = machine⦄ repository hash b v)
      (λ x v.
        (es : List BackupEntry) × (evs : List (Uuid × Uuid)) × PgRep ⦃P = machine⦄ pruned.store es
          evs
        × Unrolled ⦃P = machine⦄ repository (PgRep ⦃P = machine⦄) 101 es evs pruned x v)
rollback_to-IsRestorable_example =
    rollback_to-IsRestorable ⦃P = machine⦄ repository hash (PgRep ⦃P = machine⦄)
      (postgres_store-IsStore ⦃P = machine⦄ newest_first newest_first-IsOrdering libraries-IsLawful)
      libraries-IsLawful (λ n. omega arith) empty pruned 101 empty-IsSafe reached
