-- ===== src/Store/Postgres/Insert.antt =====
-- Insertions into the Postgres tables: a new row, or a refusal that changes nothing.
use mathlib.Core.Option
use mathlib.Core.Option.{none-ne-some}
use mathlib.Core.List.{map-append}
use anki_backup_tool.Base.{
  ℕ, none, some, List, [], ◌∷◌, ◌++◌, map, ◌≡◌, ◌≢◌, ◌⊎◌, refl, sym, ap, ◌∙◌, ◌==◌, nat_eq, inl,
  inr, find, arith, Option-cases,
}
use anki_backup_tool.Backup.{Uuid, BackupEntry}
use anki_backup_tool.Libraries.{IsLawful}
use anki_backup_tool.World.{Platform, World, statement, now, new_v4}
use anki_backup_tool.World.Laws.{Ends, Ends-mono, Ends-ok_or}
use anki_backup_tool.World.Calls.{Ends-statement, Ends-statement_refused, Fault}
use anki_backup_tool.Store.Contract.{lookup, lookup_event, InsertRefused}
use anki_backup_tool.Store.SqliteRows.{transpose}
use anki_backup_tool.Store.Ids.{UniqueIds-snoc}
use anki_backup_tool.Store.Table.{AllGood-snoc}
use anki_backup_tool.Store.Postgres
use anki_backup_tool.Store.Postgres.{
  PgDb, PgRow, postgres_store, to_pg_row, insert_row, insert_event, select, pg_row_to_entry,
  pg_rows_to_entries,
}
use anki_backup_tool.Store.Postgres.Rows.{decode, good, to_pg_row-decode}
use anki_backup_tool.Store.Postgres.Rep.{PgRep, lookup_rep, kept}

module _ ⦃P : Platform⦄ where
  insert_row_free :
      (row : PgRow) (db : PgDb)
      → find (λ r. r.id == row.id) db.backups ≡ none
      → insert_row row db ≡ some (tt, record db { backups = db.backups ++ row ∷ [] })
  unfolding insert_row
  insert_row_free row db h = rw (h, insert_row)

  insert_row_taken :
      (row taken : PgRow) (db : PgDb)
      → find (λ r. r.id == row.id) db.backups ≡ some taken
      → insert_row row db ≡ none
  unfolding insert_row
  insert_row_taken row taken db h = rw (h, insert_row)

  module _ (lawful : IsLawful P.lib) where
    insert_row-PgRep :
        (e : BackupEntry) (row : PgRow) {es : List BackupEntry} {evs : List (Uuid × Uuid)}
        (db : PgDb)
        → to_pg_row e ≡ some row
        → lookup e.id es ≡ none
        → PgRep db es evs
        → PgRep
            (record db { backups = db.backups ++ row ∷ [] })
            (es ++ record e { created_at = P.timestamptz e.created_at } ∷ [])
            evs
    insert_row-PgRep e row db j free rep =
        let (g, d) = to_pg_row-decode lawful e row j in
        record {
          all_good = AllGood-snoc decode good db.backups row rep.all_good g;
          entries = rw (map-append, d, rep.entries);
          unique = UniqueIds-snoc _ _ rep.unique free;
          events = rep.events;
        }

    abbrev pub Inserted :
        BackupEntry → List BackupEntry → List (Uuid × Uuid) → World PgDb → World PgDb → Type 0
    Inserted e es evs w u =
        PgRep u.store (es ++ record e { created_at = P.timestamptz e.created_at } ∷ []) evs
        × (u.disk ≡ w.disk)

    abbrev pub Refused :
        BackupEntry → List BackupEntry → List (Uuid × Uuid) → World PgDb → World PgDb → Type 0
    Refused e es evs w u = PgRep u.store es evs × (u.disk ≡ w.disk) × InsertRefused e es

    row_id : (e : BackupEntry) (row : PgRow) → to_pg_row e ≡ some row → row.id ≡ e.id
    unfolding decode
    row_id e row j = ap (λ (x : BackupEntry). x.id) (to_pg_row-decode lawful e row j).1

    unserialised : (e : BackupEntry) → to_pg_row e ≡ none → transpose P.stats_to_json e.stats ≡ none
    unfolding to_pg_row
    unserialised e h = ground arith

    insert_statement :
        (e : BackupEntry) (row : PgRow) (es : List BackupEntry) (evs : List (Uuid × Uuid))
        (w : World PgDb)
        → to_pg_row e ≡ some row
        → PgRep w.store es evs
        → Ends
            (statement "insert" (insert_row row) w)
            (λ _ u. Inserted e es evs w u)
            (λ _ u. Refused e es evs w u)
    insert_statement e row es evs w j rep =
        elim (Option-cases (find (λ r. r.id == row.id) w.store.backups)) [
          | inl free ↦
              Ends-mono
                (Ends-statement "insert" (insert_row row) tt _ w (insert_row_free row w.store free))
                (λ a u (_, store, disk). (
                  kept
                      (insert_row-PgRep e row w.store j
                        (rw (← row_id e row j)
                          (lookup_rep row.id w.store rep ∙ ap (Option.map decode) free))
                        rep)
                      store,
                  disk,
                ))
                (λ x u (store, disk, fault). (kept rep store, disk, inl fault))
          | inr (taken, found) ↦
              Ends-mono
                (Ends-statement_refused "insert" (insert_row row) w
                  (insert_row_taken row taken w.store found))
                (λ a u h. absurd h)
                (λ x u (store, disk). (
                  kept rep store,
                  disk,
                  inr (
                      inl (λ n. none-ne-some (decode taken) (
                        sym n
                        ∙ ap (λ i. lookup i es) (sym (row_id e row j))
                        ∙ lookup_rep row.id w.store rep
                        ∙ ap (Option.map decode) found))),
                ))
        ]

    pub inserted :
        (e : BackupEntry) (es : List BackupEntry) (evs : List (Uuid × Uuid)) (w : World PgDb)
        → PgRep w.store es evs
        → Ends
            (Postgres.insert_entry e w)
            (λ _ u. Inserted e es evs w u)
            (λ _ u. Refused e es evs w u)
    unfolding Postgres.insert_entry
    inserted e es evs w rep =
        Ends-ok_or (to_pg_row e) _ _ w (λ row j. insert_statement e row es evs w j rep)
          (λ bad. (rep, refl, inr (inr (unserialised e bad))))

  find_event :
      (id : Uuid) (vs : List Postgres.PgEvent)
      → lookup_event id (map (λ v. (v.id, v.backup_id)) vs)
        ≡ Option.map (λ v. (v.id, v.backup_id)) (find (λ v. v.id == id) vs)
  find_event id [] = refl
  find_event id (v ∷ vs) = ground (arith, find_event id vs)

  insert_event_free :
      (v : Postgres.PgEvent) (db : PgDb)
      → find (λ r. r.id == v.id) db.rollback_events ≡ none
      → insert_event v db ≡ some (tt, record db { rollback_events = db.rollback_events ++ v ∷ [] })
  unfolding insert_event
  insert_event_free v db h = rw (h, insert_event)

  insert_event_taken :
      (v taken : Postgres.PgEvent) (db : PgDb)
      → find (λ r. r.id == v.id) db.rollback_events ≡ some taken
      → insert_event v db ≡ none
  unfolding insert_event
  insert_event_taken v taken db h = rw (h, insert_event)

  insert_event-PgRep :
      (v : Postgres.PgEvent) {es : List BackupEntry} {evs : List (Uuid × Uuid)} (db : PgDb)
      → PgRep db es evs
      → PgRep
          (record db { rollback_events = db.rollback_events ++ v ∷ [] })
          es
          (evs ++ (v.id, v.backup_id) ∷ [])
  insert_event-PgRep v db rep = record {
    all_good = rep.all_good;
    entries = rep.entries;
    unique = rep.unique;
    events = rw (map-append, rep.events);
  }

  event_statement :
      (n : ℕ) (v : Postgres.PgEvent) (es : List BackupEntry) (evs : List (Uuid × Uuid))
      (w : World PgDb)
      → P.uuids n ≡ v.id
      → PgRep w.store es evs
      → Ends
          (statement "insert" (insert_event v) w)
          (λ _ u. (i : Uuid) × PgRep u.store es (evs ++ (i, v.backup_id) ∷ []) × (u.disk ≡ w.disk))
          (λ _ u.
            PgRep u.store es evs
            × (u.disk ≡ w.disk)
            × (Fault ⊎ ((n : ℕ) × (lookup_event (P.uuids n) evs ≢ none))))
  event_statement n v es evs w i rep =
      elim (Option-cases (find (λ r. r.id == v.id) w.store.rollback_events)) [
        | inl free ↦
            Ends-mono
              (Ends-statement "insert" (insert_event v) tt _ w (insert_event_free v w.store free))
              (λ a u (_, store, disk). (v.id, kept (insert_event-PgRep v w.store rep) store, disk))
              (λ x u (store, disk, fault). (kept rep store, disk, inl fault))
        | inr (taken, found) ↦
            Ends-mono
              (Ends-statement_refused "insert" (insert_event v) w
                (insert_event_taken v taken w.store found))
              (λ a u h. absurd h)
              (λ x u (store, disk). (
                kept rep store,
                disk,
                inr (
                  n,
                  λ free.
                      none-ne-some (taken.id, taken.backup_id)
                        (sym free
                          ∙ ap (lookup_event (P.uuids n)) (sym rep.events)
                          ∙ ap
                              (λ k.
                                lookup_event k
                                  (map (λ v. (v.id, v.backup_id)) w.store.rollback_events))
                              i
                          ∙ find_event v.id w.store.rollback_events
                          ∙ ap (Option.map (λ v. (v.id, v.backup_id))) found),
                ),
              ))
      ]

  pub recorded :
      (id : Uuid) (es : List BackupEntry) (evs : List (Uuid × Uuid)) (w : World PgDb)
      → PgRep w.store es evs
      → Ends
          (Postgres.insert_rollback_event id w)
          (λ _ u. (v : Uuid) × PgRep u.store es (evs ++ (v, id) ∷ []) × (u.disk ≡ w.disk))
          (λ _ u.
            PgRep u.store es evs
            × (u.disk ≡ w.disk)
            × (Fault ⊎ ((n : ℕ) × (lookup_event (P.uuids n) evs ≢ none))))
  unfolding Postgres.insert_rollback_event new_v4 now
  recorded id es evs w rep = event_statement w.step _ es evs _ refl rep
