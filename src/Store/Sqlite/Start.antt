-- ===== src/Store/Sqlite/Start.antt =====
-- Opening the SQLite store.
use anki_backup_tool.World.{Platform}
use anki_backup_tool.World.Reads.{OnlyReads, OnlyReads-bind, OnlyReads-statement}
use anki_backup_tool.Store.Sqlite.{new, connect}

module _ ⦃P : Platform⦄ where
  -- Tables and rows that are there stay.
  pub OnlyReads-new : OnlyReads new
  unfolding new connect
  OnlyReads-new =
      OnlyReads-bind _ _ (OnlyReads-statement "open metadata db")
        (λ a. OnlyReads-statement "create tables")
