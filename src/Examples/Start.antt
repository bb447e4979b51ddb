-- ===== src/Examples/Start.antt =====
-- A repository with SQLite on a new disk.
use anki_backup_tool.Base.{String, false, none, [], ◌≡◌, refl, arith}
use anki_backup_tool.Backup.{Bytes}
use anki_backup_tool.World.{World}
use anki_backup_tool.World.Laws.{Ends}
use anki_backup_tool.Store.SqliteRows.{SqliteDb, init_db}
use anki_backup_tool.Store.Sqlite.{sqlite_store, new}
use anki_backup_tool.Store.Sqlite.Start.{OnlyReads-new}
use anki_backup_tool.Store.Sqlite.Rep.{SqliteRep}
use anki_backup_tool.Store.Sqlite.Contract.{sqlite_store-IsStore}
use anki_backup_tool.Repository.{BackupRepository, open_with}
use anki_backup_tool.Repository.Intact.{AllIntact}
use anki_backup_tool.Repository.Safe.{IsSafe}
use anki_backup_tool.Repository.Reach.{Reach}
use anki_backup_tool.Repository.Start.{open_with-Reach}
use anki_backup_tool.Examples.Machine.{machine, libraries-IsLawful, repository}
use anki_backup_tool.Examples.Sqlite.{latest_text_first, latest_text_first-IsOrdering}

abbrev new_repository : BackupRepository SqliteDb
new_repository = record {
  root = repository.root;
  store = sqlite_store ⦃P = machine⦄ latest_text_first;
}

abbrev new_disk : World SqliteDb
new_disk = record {
  disk = record { files = λ p. none; dirs = λ p. false };
  store = init_db;
  step = 0;
}

abbrev hash : Bytes → String
hash bytes = "h1"

open_with-Reach_example :
    Ends
      (open_with ⦃P = machine⦄ new_repository (new ⦃P = machine⦄) new_disk)
      (λ r u.
        (r ≡ new_repository)
        × SqliteRep ⦃P = machine⦄ u.store [] []
        × AllIntact new_repository.root hash u.disk []
        × ((v : World SqliteDb)
            → Reach ⦃P = machine⦄ new_repository hash u v
            → IsSafe ⦃P = machine⦄ new_repository hash (SqliteRep ⦃P = machine⦄) v))
      (λ _ u. SqliteRep ⦃P = machine⦄ u.store [] [] × AllIntact new_repository.root hash u.disk [])
open_with-Reach_example =
    open_with-Reach ⦃P = machine⦄ new_repository hash (SqliteRep ⦃P = machine⦄)
      (sqlite_store-IsStore ⦃P = machine⦄ libraries-IsLawful latest_text_first
        latest_text_first-IsOrdering)
      libraries-IsLawful (λ n. omega arith) (new ⦃P = machine⦄) (OnlyReads-new ⦃P = machine⦄) [] []
      new_disk (record { all_good = refl; entries = refl; unique = tt; events = refl })
      (tt, λ dir. omega arith)
