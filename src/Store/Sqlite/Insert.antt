-- ===== src/Store/Sqlite/Insert.antt =====
-- Insertions of entries into the SQLite table: a new row, or a refusal that changes nothing.
use mathlib.Core.Option
use mathlib.Core.Option.{none-ne-some}
use mathlib.Core.List.{map-append}
use anki_backup_tool.Base.{
  ◌<◌, none, some, List, [], ◌∷◌, ◌++◌, ◌≡◌, sym, ap, ◌∙◌, ◌==◌, nat_eq, inl, inr, find, arith,
  Option-cases, string_eq,
}
use anki_backup_tool.Backup.{Uuid, BackupEntry, year_10000}
use anki_backup_tool.Libraries.{IsLawful}
use anki_backup_tool.World.{Platform, World, statement}
use anki_backup_tool.World.Laws.{Ends, Ends-bind, Ends-mono, Ends-ok_or}
use anki_backup_tool.World.Calls.{Ends-statement, Ends-statement_refused}
use anki_backup_tool.Store.Contract.{lookup, InsertRefused}
use anki_backup_tool.Store.Ids.{UniqueIds-snoc}
use anki_backup_tool.Store.Table.{AllGood-snoc}
use anki_backup_tool.Store.SqliteRows.{Row, SqliteDb, transpose, to_row}
use anki_backup_tool.Store.Sqlite
use anki_backup_tool.Store.Sqlite.{insert_row, insert_event}
use anki_backup_tool.Store.Sqlite.Rows.{decode, good, to_row-decode}
use anki_backup_tool.Store.Sqlite.Rep.{SqliteRep, kept, lookup_rep, Ends-connect}

module _ ⦃P : Platform⦄ where
  insert_row_free :
      (row : Row) (db : SqliteDb)
      → find (λ r. r.id == row.id) db.backups ≡ none
      → insert_row row db ≡ some (tt, record db { backups = db.backups ++ row ∷ [] })
  unfolding insert_row
  insert_row_free row db h = rw (h, insert_row)

  insert_row_taken :
      (row taken : Row) (db : SqliteDb)
      → find (λ r. r.id == row.id) db.backups ≡ some taken
      → insert_row row db ≡ none
  unfolding insert_row
  insert_row_taken row taken db h = rw (h, insert_row)

  module _ (lawful : IsLawful P.lib) where
    insert_row-SqliteRep :
        (e : BackupEntry) (row : Row) {es : List BackupEntry} {evs : List (Uuid × Uuid)}
        (db : SqliteDb)
        → e.created_at < year_10000
        → to_row e ≡ some row
        → lookup e.id es ≡ none
        → SqliteRep db es evs
        → SqliteRep (record db { backups = db.backups ++ row ∷ [] }) (es ++ e ∷ []) evs
    insert_row-SqliteRep e row db dated j free rep =
        let (g, d) = to_row-decode lawful e row dated j in
        record {
          all_good = AllGood-snoc decode good db.backups row rep.all_good g;
          entries = rw (map-append, d, rep.entries);
          unique = UniqueIds-snoc _ _ rep.unique free;
          events = rep.events;
        }

    row_id : (e : BackupEntry) (row : Row) → to_row e ≡ some row → row.id ≡ P.uuid_to_string e.id
    unfolding to_row
    row_id e row j = elim (Option-cases (transpose P.stats_to_json e.stats)) [
      | inl bad ↦ ground arith
      | inr (t, is) ↦ ground arith
    ]

    unserialised : (e : BackupEntry) → to_row e ≡ none → transpose P.stats_to_json e.stats ≡ none
    unfolding to_row
    unserialised e h = ground arith

    abbrev Inserted :
        BackupEntry
        → List BackupEntry
        → List (Uuid × Uuid)
        → World SqliteDb
        → World SqliteDb
        → Type 0
    Inserted e es evs w u = SqliteRep u.store (es ++ e ∷ []) evs × (u.disk ≡ w.disk)

    abbrev Refused :
        BackupEntry
        → List BackupEntry
        → List (Uuid × Uuid)
        → World SqliteDb
        → World SqliteDb
        → Type 0
    Refused e es evs w u = SqliteRep u.store es evs × (u.disk ≡ w.disk) × InsertRefused e es

    insert_statement :
        (e : BackupEntry) (row : Row) (es : List BackupEntry) (evs : List (Uuid × Uuid))
        (w : World SqliteDb)
        → e.created_at < year_10000
        → to_row e ≡ some row
        → SqliteRep w.store es evs
        → Ends
            (statement "insert" (insert_row row) w)
            (λ _ u. Inserted e es evs w u)
            (λ _ u. Refused e es evs w u)
    insert_statement e row es evs w dated j rep =
        elim (Option-cases (find (λ r. r.id == row.id) w.store.backups)) [
          | inl free ↦
              Ends-mono
                (Ends-statement "insert" (insert_row row) tt _ w (insert_row_free row w.store free))
                (λ a u (_, store, disk). (
                  kept (insert_row-SqliteRep e row w.store dated j (found none free) rep) store,
                  disk,
                ))
                (λ x u (store, disk, fault). (kept rep store, disk, inl fault))
          | inr (taken, is) ↦
              Ends-mono
                (Ends-statement_refused "insert" (insert_row row) w
                  (insert_row_taken row taken w.store is))
                (λ a u h. absurd h)
                (λ x u (store, disk). (
                  kept rep store,
                  disk,
                  inr (inl (λ n. none-ne-some (decode taken) (sym n ∙ found (some taken) is))),
                ))
        ]
      where
        found :
            (o : Option.Option Row)
            → find (λ r. r.id == row.id) w.store.backups ≡ o
            → lookup e.id es ≡ Option.map decode o
        found o is =
            lookup_rep lawful e.id w.store rep
            ∙ ap (Option.map decode) (
                ap (λ k. find (λ (r : Row). r.id == k) w.store.backups) (sym (row_id e row j)) ∙ is)

    pub inserted :
        (e : BackupEntry) (es : List BackupEntry) (evs : List (Uuid × Uuid)) (w : World SqliteDb)
        → SqliteRep w.store es evs
        → e.created_at < year_10000
        → Ends
            (Sqlite.insert_entry e w)
            (λ _ u. SqliteRep u.store (es ++ e ∷ []) evs × (u.disk ≡ w.disk))
            (λ _ u. SqliteRep u.store es evs × (u.disk ≡ w.disk) × InsertRefused e es)
    unfolding Sqlite.insert_entry
    inserted e es evs w rep dated =
        Ends-bind (Ends-connect w)
          (λ a v (store, disk).
            Ends-ok_or (to_row e) _ _ v
              (λ row j.
                Ends-mono (insert_statement e row es evs v dated j (kept rep store))
                  (λ b u (rep', disk'). (rep', disk' ∙ disk))
                  (λ x u (rep', disk', why). (rep', disk' ∙ disk, why)))
              (λ bad. (kept rep store, disk, inr (inr (unserialised e bad)))))
          (λ x v (store, disk, fault). (kept rep store, disk, inl fault))
