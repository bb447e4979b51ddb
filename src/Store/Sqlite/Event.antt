-- ===== src/Store/Sqlite/Event.antt =====
-- Insertions of rollback events into their SQLite table: a new row, or a refusal that changes nothing.
use mathlib.Core.Option.{none-ne-some}
use mathlib.Core.List.{map-append}
use anki_backup_tool.Base.{
  ℕ, none, some, List, [], ◌∷◌, ◌++◌, map, ◌≡◌, ◌≢◌, ◌⊎◌, refl, sym, ap, ◌∙◌, ◌==◌, nat_eq, inl,
  inr, find, true, false, Bool-cases, ==-true, ==-false, if◌then◌else◌, Option-cases, string_eq,
  String,
}
use anki_backup_tool.Backup.{Uuid, BackupEntry}
use anki_backup_tool.Libraries.{IsLawful}
use anki_backup_tool.World.{Platform, World, statement, now, new_v4}
use anki_backup_tool.World.Laws.{Ends, Ends-bind, Ends-mono}
use anki_backup_tool.World.Calls.{Ends-statement, Ends-statement_refused, Fault}
use anki_backup_tool.Store.Contract.{lookup_event}
use anki_backup_tool.Store.SqliteRows.{EventRow, SqliteDb, parse_uuid}
use anki_backup_tool.Store.Sqlite
use anki_backup_tool.Store.Sqlite.{insert_row, insert_event}
use anki_backup_tool.Store.Sqlite.Rep.{SqliteRep, decode_event, kept, Ends-connect}

true≢false : true ≢ false
true≢false = λ e. cc

module _ ⦃P : Platform⦄ where
  insert_event_free :
      (v : EventRow) (db : SqliteDb)
      → find (λ r. r.id == v.id) db.rollback_events ≡ none
      → insert_event v db ≡ some (tt, record db { rollback_events = db.rollback_events ++ v ∷ [] })
  unfolding insert_event
  insert_event_free v db h = rw (h, insert_event)

  insert_event_taken :
      (v taken : EventRow) (db : SqliteDb)
      → find (λ r. r.id == v.id) db.rollback_events ≡ some taken
      → insert_event v db ≡ none
  unfolding insert_event
  insert_event_taken v taken db h = rw (h, insert_event)

  module _ (lawful : IsLawful P.lib) where
    read_id : (u : Uuid) → parse_uuid (P.uuid_to_string u) ≡ u
    unfolding parse_uuid
    read_id u = rw (lawful.uuid_parse_to_string u) refl

    find_event :
        (id : Uuid) (vs : List EventRow) (taken : EventRow)
        → find (λ v. v.id == P.uuid_to_string id) vs ≡ some taken
        → lookup_event id (map decode_event vs) ≢ none
    find_event id [] taken h n = none-ne-some taken h
    find_event id (v ∷ vs) taken h n = elim (Bool-cases (parse_uuid v.id == id)) [
      | inl e ↦ none-ne-some (decode_event v) (
          sym n
          ∙ ap (λ b. if b then some (decode_event v) else lookup_event id (map decode_event vs)) e)
      | inr e ↦
          find_event id vs taken
            (sym (
                ap (λ b. if b then some v else find (λ v. v.id == P.uuid_to_string id) vs)
                  (other e))
              ∙ h)
            (sym (
                ap (λ b. if b then some (decode_event v) else lookup_event id (map decode_event vs))
                  e)
              ∙ n)
    ]
      where
        other : (parse_uuid v.id == id) ≡ false → (v.id == P.uuid_to_string id) ≡ false
        other e = ==-false v.id (P.uuid_to_string id) (λ same.
            true≢false (sym (==-true (parse_uuid v.id) id (ap parse_uuid same ∙ read_id id)) ∙ e))

    insert_event-SqliteRep :
        (new id : Uuid) (at : String) {es : List BackupEntry} {evs : List (Uuid × Uuid)}
        (db : SqliteDb)
        → SqliteRep db es evs
        → SqliteRep
            (record db {
              rollback_events =
                  db.rollback_events
                  ++ record {
                    id = P.uuid_to_string new;
                    backup_id = P.uuid_to_string id;
                    created_at = at;
                  }
                    ∷ [];
            })
            es
            (evs ++ (new, id) ∷ [])
    insert_event-SqliteRep new id at db rep = record {
      all_good = rep.all_good;
      entries = rep.entries;
      unique = rep.unique;
      events = rw (map-append, rep.events, read_id new, read_id id);
    }

    event_statement :
        (n : ℕ) (id : Uuid) (at : String) (es : List BackupEntry) (evs : List (Uuid × Uuid))
        (w : World SqliteDb)
        → SqliteRep w.store es evs
        → Ends
            (statement "insert"
              (insert_event (record {
                id = P.uuid_to_string (P.uuids n);
                backup_id = P.uuid_to_string id;
                created_at = at;
              }))
              w)
            (λ _ u. (v : Uuid) × SqliteRep u.store es (evs ++ (v, id) ∷ []) × (u.disk ≡ w.disk))
            (λ _ u.
              SqliteRep u.store es evs
              × (u.disk ≡ w.disk)
              × (Fault ⊎ ((n : ℕ) × (lookup_event (P.uuids n) evs ≢ none))))
    event_statement n id at es evs w rep =
        elim (Option-cases
          (find (λ r. r.id == P.uuid_to_string (P.uuids n)) w.store.rollback_events)) [
            | inl free ↦
                Ends-mono
                  (Ends-statement "insert" (insert_event _) tt _ w
                    (insert_event_free _ w.store free))
                  (λ a u (_, store, disk). (
                    P.uuids n,
                    kept (insert_event-SqliteRep (P.uuids n) id at w.store rep) store,
                    disk,
                  ))
                  (λ x u (store, disk, fault). (kept rep store, disk, inl fault))
            | inr (taken, is) ↦
                Ends-mono
                  (Ends-statement_refused "insert" (insert_event _) w
                    (insert_event_taken _ taken w.store is))
                  (λ a u h. absurd h)
                  (λ x u (store, disk). (
                    kept rep store,
                    disk,
                    inr (
                      n,
                      λ free.
                          find_event (P.uuids n) w.store.rollback_events taken is
                            (ap (lookup_event (P.uuids n)) rep.events ∙ free),
                    ),
                  ))
          ]

    pub recorded :
        (id : Uuid) (es : List BackupEntry) (evs : List (Uuid × Uuid)) (w : World SqliteDb)
        → SqliteRep w.store es evs
        → Ends
            (Sqlite.insert_rollback_event id w)
            (λ _ u. (v : Uuid) × SqliteRep u.store es (evs ++ (v, id) ∷ []) × (u.disk ≡ w.disk))
            (λ _ u.
              SqliteRep u.store es evs
              × (u.disk ≡ w.disk)
              × (Fault ⊎ ((n : ℕ) × (lookup_event (P.uuids n) evs ≢ none))))
    unfolding Sqlite.insert_rollback_event new_v4 now
    recorded id es evs w rep =
        Ends-bind (Ends-connect w)
          (λ a v (store, disk).
            Ends-mono (event_statement v.step id _ es evs _ (kept rep store))
              (λ b u (i, rep', disk'). (i, rep', disk' ∙ disk))
              (λ x u (rep', disk', why). (rep', disk' ∙ disk, why)))
          (λ x v (store, disk, fault). (kept rep store, disk, inl fault))
