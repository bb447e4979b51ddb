-- ===== src/Store/Sqlite/Rep.antt =====
-- The entries and the events that the SQLite tables hold, and the calls that only read them.
use mathlib.Core.Option
use anki_backup_tool.Base.{
  true, Option, none, some, List, map, ◌≡◌, refl, sym, ap, ◌∙◌, subst, ◌==◌, string_eq, nat_eq,
  find,
}
use anki_backup_tool.Backup.{Uuid, BackupEntry}
use anki_backup_tool.Libraries.{IsLawful}
use anki_backup_tool.World.{Platform, World, Io, Error, ◌>>◌, ◌>>=◌}
use anki_backup_tool.World.Laws.{Ends, Ends-bind, Ends-mono}
use anki_backup_tool.World.Calls.{Ends-statement, Fault}
use anki_backup_tool.Store.Contract.{lookup}
use anki_backup_tool.Store.Ids.{UniqueIds}
use anki_backup_tool.Store.Table.{AllGood, find_rows, find-good}
use anki_backup_tool.Store.SqliteRows.{Row, EventRow, SqliteDb, parse_uuid}
use anki_backup_tool.Store.Sqlite
use anki_backup_tool.Store.Sqlite.{connect, select, optional_entry}
use anki_backup_tool.Store.Sqlite.Rows.{decode, good, id-Agrees, row_to_entry-good}

module _ ⦃P : Platform⦄ where
  abbrev pub decode_event : EventRow → Uuid × Uuid
  decode_event v = (parse_uuid v.id, parse_uuid v.backup_id)

  -- The entries and the events that the tables hold.
  pub record SqliteRep (db : SqliteDb) (es : List BackupEntry) (evs : List (Uuid × Uuid))
      : Type 0 where
    pub all_good : AllGood decode good db.backups
    pub entries : map decode db.backups ≡ es
    pub unique : UniqueIds es
    pub events : map decode_event db.rollback_events ≡ evs

  -- The same database stands for the same entries.
  pub kept :
      {es : List BackupEntry} {evs : List (Uuid × Uuid)} {a b : SqliteDb}
      → SqliteRep a es evs
      → b ≡ a
      → SqliteRep b es evs
  kept {es} {evs} rep e = subst (λ db. SqliteRep db es evs) (sym e) rep

  abbrev Still : World SqliteDb → World SqliteDb → Type 0
  Still w u = (u.store ≡ w.store) × (u.disk ≡ w.disk)

  pub Ends-connect :
      (w : World SqliteDb)
      → Ends (connect w) (λ _ u. Still w u) (λ _ u. (u.store ≡ w.store) × (u.disk ≡ w.disk) × Fault)
  unfolding connect
  Ends-connect w =
      Ends-mono (Ends-statement "open metadata db" (λ db. some (tt, db)) tt w.store w refl)
        (λ a u (e, store, disk). (store, disk)) (λ x u h. h)

  -- A query returns its answer, or breaks off; it changes nothing.
  pub Ends-select :
      {A : Type 0} (q : SqliteDb → A) (w : World SqliteDb)
      → Ends
          (select q w)
          (λ a u. (a ≡ q w.store) × (u.store ≡ w.store) × (u.disk ≡ w.disk))
          (λ _ u. (u.store ≡ w.store) × (u.disk ≡ w.disk) × Fault)
  unfolding select
  Ends-select q w = Ends-statement "select" (λ db. some (q db, db)) (q w.store) w.store w refl

  -- A connection, then a query on it, then the rest.
  pub Ends-query :
      {A B : Type 0} (q : SqliteDb → A) (f : A → Io SqliteDb B) (w : World SqliteDb)
      {Q : B → World SqliteDb → Type 0} {E : Error → World SqliteDb → Type 0}
      → ((a : A) (u : World SqliteDb)
          → a ≡ q w.store
          → u.store ≡ w.store
          → u.disk ≡ w.disk
          → Ends (f a u) Q E)
      → ((x : Error) (u : World SqliteDb) → (u.store ≡ w.store) × (u.disk ≡ w.disk) × Fault → E x u)
      → Ends ((connect >> (select q >>= f)) w) Q E
  Ends-query q f w k g =
      Ends-bind (Ends-connect w)
        (λ a v (store, disk).
          Ends-bind (Ends-select q v)
            (λ b u (e, store', disk'). k b u (e ∙ ap q store) (store' ∙ store) (disk' ∙ disk))
            (λ x u (store', disk', fault). g x u (store' ∙ store, disk' ∙ disk, fault)))
        (λ x u h. g x u h)

  module _ (lawful : IsLawful P.lib) where
    pub lookup_rep :
        (id : Uuid) {es : List BackupEntry} {evs : List (Uuid × Uuid)} (db : SqliteDb)
        → SqliteRep db es evs
        → lookup id es ≡ Option.map decode (find (λ r. r.id == P.uuid_to_string id) db.backups)
    lookup_rep id db rep =
        ap (lookup id) (sym rep.entries)
        ∙ sym (
            find_rows decode good _ (λ e. e.id == id) (id-Agrees lawful id) db.backups rep.all_good)

    pub got :
        (id : Uuid) {es : List BackupEntry} {evs : List (Uuid × Uuid)} (w : World SqliteDb)
        → SqliteRep w.store es evs
        → Ends
            (Sqlite.get_backup id w)
            (λ o u. (u.store ≡ w.store) × (u.disk ≡ w.disk) × (o ≡ lookup id es))
            (λ _ u. (u.store ≡ w.store) × (u.disk ≡ w.disk) × Fault)
    unfolding Sqlite.get_backup
    got id {es} w rep =
        Ends-query (λ db. find (λ r. r.id == P.uuid_to_string id) db.backups) optional_entry w
          (λ row u e store disk.
            read_row row u (λ r f. good_row r (sym e ∙ f)) store disk
              (ap (Option.map decode) e ∙ sym (lookup_rep id w.store rep)))
          (λ x u h. h)
      where
        good_row :
            (r : Row)
            → find (λ r. r.id == P.uuid_to_string id) w.store.backups ≡ some r
            → good r ≡ true
        good_row r f =
            find-good decode good (λ r. r.id == P.uuid_to_string id) w.store.backups r rep.all_good
              f

        read_row :
            (row : Option Row) (u : World SqliteDb)
            → ((r : Row) → row ≡ some r → good r ≡ true)
            → u.store ≡ w.store
            → u.disk ≡ w.disk
            → Option.map decode row ≡ lookup id es
            → Ends
                (optional_entry row u)
                (λ o v. (v.store ≡ w.store) × (v.disk ≡ w.disk) × (o ≡ lookup id es))
                (λ _ v. (v.store ≡ w.store) × (v.disk ≡ w.disk) × Fault)
        read_row none u g store disk e = record { holds = (store, disk, e) }
        read_row (some r) u g store disk e =
            rw (row_to_entry-good r u (g r refl)) (record { holds = (store, disk, e) })
