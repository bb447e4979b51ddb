-- ===== src/Store/Postgres/Start.antt =====
-- Opening the Postgres store.
use anki_backup_tool.World.{Platform}
use anki_backup_tool.World.Reads.{OnlyReads, OnlyReads-bind, OnlyReads-statement}
use anki_backup_tool.Store.Postgres.{new}

module _ ⦃P : Platform⦄ where
  -- Tables and rows that are there stay.
  pub OnlyReads-new : OnlyReads new
  unfolding new
  OnlyReads-new = OnlyReads-bind _ _ (OnlyReads-statement "connect to postgres") (λ a.
      OnlyReads-bind _ _ (OnlyReads-statement "create backups table")
        (λ b. OnlyReads-statement "create rollback_events table"))
