-- ===== src/Store/Postgres/Rep.antt =====
-- The entries and the events that the Postgres tables hold.
use mathlib.Core.Option
use mathlib.Core.Option.{none-ne-some}
use anki_backup_tool.Base.{
  true, Option, none, some, List, map, ◌≡◌, refl, sym, ap, ◌∙◌, subst, ◌==◌, nat_eq, find,
}
use anki_backup_tool.Backup.{Uuid, BackupEntry}
use anki_backup_tool.World.{Platform}
use anki_backup_tool.Store.Contract.{lookup}
use anki_backup_tool.Store.SqliteRows.{transpose}
use anki_backup_tool.Store.Ids.{UniqueIds}
use anki_backup_tool.Store.Table.{AllGood, find_rows}
use anki_backup_tool.Store.Postgres.{PgDb, PgRow, pg_row_to_entry}
use anki_backup_tool.Store.Postgres.Rows.{decode, good, pg_row_to_entry-good}

module _ ⦃P : Platform⦄ where
  -- The entries and the events that the tables hold.
  pub record PgRep (db : PgDb) (es : List BackupEntry) (evs : List (Uuid × Uuid)) : Type 0 where
    pub all_good : AllGood decode good db.backups
    pub entries : map decode db.backups ≡ es
    pub unique : UniqueIds es
    pub events : map (λ v. (v.id, v.backup_id)) db.rollback_events ≡ evs

  lookup_rows :
      (id : Uuid) (rows : List PgRow)
      → AllGood decode good rows
      → Option.map decode (find (λ r. r.id == id) rows) ≡ lookup id (map decode rows)
  unfolding decode
  lookup_rows id rows h = find_rows decode good _ (λ e. e.id == id) (λ r g. refl) rows h

  pub lookup_rep :
      (id : Uuid) {es : List BackupEntry} {evs : List (Uuid × Uuid)} (db : PgDb)
      → PgRep db es evs
      → lookup id es ≡ Option.map decode (find (λ r. r.id == id) db.backups)
  lookup_rep id db rep =
      ap (lookup id) (sym rep.entries) ∙ sym (lookup_rows id db.backups rep.all_good)

  pub get_row :
      (row : Option PgRow)
      → ((r : PgRow) → row ≡ some r → good r ≡ true)
      → transpose pg_row_to_entry row ≡ some (Option.map decode row)
  get_row none h = refl
  get_row (some r) h = rw (pg_row_to_entry-good r (h r refl))

  -- The same database stands for the same entries.
  pub kept :
      {es : List BackupEntry} {evs : List (Uuid × Uuid)} {a b : PgDb}
      → PgRep a es evs
      → b ≡ a
      → PgRep b es evs
  kept {es} {evs} rep e = subst (λ db. PgRep db es evs) (sym e) rep
