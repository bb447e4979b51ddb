-- ===== src/Examples/Sqlite.antt =====
-- The SQLite store with its rows ordered by the library's sort.
use anki_backup_tool.Base.{List}
use anki_backup_tool.Base.Order.{sort_by, sort_by-SameItems, sort_by-IsSorted}
use anki_backup_tool.Base.TextOrder.{text_le_trans, text_le_total}
use anki_backup_tool.Store.Contract.{IsStore}
use anki_backup_tool.Store.SqliteRows.{Row}
use anki_backup_tool.Store.Sqlite
use anki_backup_tool.Store.Sqlite.{sqlite_store}
use anki_backup_tool.Store.Sqlite.Rep.{SqliteRep}
use anki_backup_tool.Store.Sqlite.Contract.{IsOrdering, sqlite_store-IsStore}
use anki_backup_tool.Examples.Machine.{machine, libraries-IsLawful}

abbrev pub latest_text_first : List Row → List Row
latest_text_first = sort_by Sqlite.latest_first

pub latest_text_first-IsOrdering : IsOrdering latest_text_first
latest_text_first-IsOrdering rows = (
  sort_by-SameItems Sqlite.latest_first rows,
  sort_by-IsSorted Sqlite.latest_first (λ a b h. text_le_total b.created_at a.created_at h)
      (λ a b c h k. text_le_trans c.created_at b.created_at a.created_at k h) rows,
)

sqlite_store-IsStore_example :
    IsStore ⦃P = machine⦄
      (sqlite_store ⦃P = machine⦄ latest_text_first)
      (SqliteRep ⦃P = machine⦄)
      (λ t. t)
sqlite_store-IsStore_example =
    sqlite_store-IsStore ⦃P = machine⦄ libraries-IsLawful latest_text_first
      latest_text_first-IsOrdering
