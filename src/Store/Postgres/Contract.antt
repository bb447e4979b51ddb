-- ===== src/Store/Postgres/Contract.antt =====
-- The Postgres back end against the contract of a metadata store. Times are kept as `TIMESTAMPTZ` keeps
-- them.
use mathlib.Core.Option
use mathlib.Core.Option.{none-ne-some}
use anki_backup_tool.Base.{
  true, not, some, List, [], ◌∷◌, map, ◌≡◌, refl, sym, ap, ◌∙◌, subst, ◌==◌, nat_eq, find, keep,
  arith,
}
use anki_backup_tool.Base.Order.{SameItems-map, SameItems, IsSorted}
use anki_backup_tool.Backup.{Uuid, DateTime, BackupEntry}
use anki_backup_tool.Libraries.{IsLawful}
use anki_backup_tool.World.{Platform, World}
use anki_backup_tool.World.Laws.{Ends, Ends-bind, Ends-mono}
use anki_backup_tool.World.Calls.{Ends-statement, Fault}
use anki_backup_tool.Store.Contract.{IsStore, lookup, is_old, removed, latest_first, IsLastHash}
use anki_backup_tool.Store.Ids.{UniqueIds-keep}
use anki_backup_tool.Store.Table.{
  Agrees, AllGood, AllGood-keep, map-keep, find-good, IsSorted-map, IsLastHash-head,
}
use anki_backup_tool.Store.Postgres
use anki_backup_tool.Store.Postgres.{
  PgDb, PgRow, postgres_store, to_pg_row, insert_row, insert_event, select, pg_row_to_entry,
  pg_rows_to_entries,
}
use anki_backup_tool.Store.Postgres.Rows.{
  decode, good, pg_rows_to_entries-good, is_created_row-Agrees, is_old_row-Agrees,
}
use anki_backup_tool.Store.Postgres.Insert.{inserted, recorded}
use anki_backup_tool.Store.Postgres.Rep.{PgRep, lookup_rep, get_row, kept}

-- What `ORDER BY created_at DESC` promises: the same rows, the newest first.
abbrev pub IsOrdering : (List PgRow → List PgRow) → Type 0
IsOrdering order =
    (rows : List PgRow) → SameItems (order rows) rows × IsSorted Postgres.latest_first (order rows)

module _ ⦃P : Platform⦄ where
  -- A query returns its answer, or breaks off; it changes nothing.
  Ends-select :
      {A : Type 0} (q : PgDb → A) (w : World PgDb)
      → Ends
          (select q w)
          (λ a u. (a ≡ q w.store) × (u.store ≡ w.store) × (u.disk ≡ w.disk))
          (λ _ u. (u.store ≡ w.store) × (u.disk ≡ w.disk) × Fault)
  unfolding select
  Ends-select q w = Ends-statement "select" (λ db. some (q db, db)) (q w.store) w.store w refl

  got :
      (id : Uuid) {es : List BackupEntry} {evs : List (Uuid × Uuid)} (w : World PgDb)
      → PgRep w.store es evs
      → Ends
          (Postgres.get_backup id w)
          (λ o u. (u.store ≡ w.store) × (u.disk ≡ w.disk) × (o ≡ lookup id es))
          (λ _ u. (u.store ≡ w.store) × (u.disk ≡ w.disk) × Fault)
  unfolding Postgres.get_backup
  got id w rep =
      Ends-bind (Ends-select (λ db. find (λ r. r.id == id) db.backups) w)
        (λ row u (e, store, disk).
          rw
            (get_row row (λ r f.
              find-good decode good (λ r. r.id == id) w.store.backups r rep.all_good (sym e ∙ f)))
            (record {
              holds = (store, disk, ap (Option.map decode) e ∙ sym (lookup_rep id w.store rep));
            }))
        (λ x u h. h)

  map-removed :
      (rows : List PgRow)
      → map (λ r. (P.uuid_to_string r.id, r.timestamp_dir)) rows ≡ map removed (map decode rows)
  unfolding decode
  map-removed [] = refl
  map-removed (r ∷ rows) = rw (map-removed rows)

  not_old-Agrees :
      (cutoff : DateTime)
      → Agrees decode good (λ r. not (Postgres.is_old_row cutoff r)) (λ e. not (is_old cutoff e))
  not_old-Agrees cutoff r g = ap not (is_old_row-Agrees cutoff r g)

  delete_old-PgRep :
      (cutoff : DateTime) {es : List BackupEntry} {evs : List (Uuid × Uuid)} (db : PgDb)
      → PgRep db es evs
      → PgRep
          (record db { backups = keep (λ r. not (Postgres.is_old_row cutoff r)) db.backups })
          (keep (λ e. not (is_old cutoff e)) es)
          evs
  delete_old-PgRep cutoff db rep = record {
    all_good = AllGood-keep decode good _ db.backups rep.all_good;
    entries =
        map-keep decode good _ (λ e. not (is_old cutoff e)) (not_old-Agrees cutoff) db.backups
          rep.all_good
        ∙ ap (keep (λ e. not (is_old cutoff e))) rep.entries;
    unique = UniqueIds-keep _ _ rep.unique;
    events = rep.events;
  }

  pruned :
      (cutoff : DateTime) {es : List BackupEntry} {evs : List (Uuid × Uuid)} (w : World PgDb)
      → PgRep w.store es evs
      → Ends
          (Postgres.prune_created_before cutoff w)
          (λ doomed u.
            PgRep u.store (keep (λ e. not (is_old (P.timestamptz cutoff) e)) es) evs
            × (u.disk ≡ w.disk)
            × (doomed ≡ map removed (keep (is_old (P.timestamptz cutoff)) es)))
          (λ _ u. (u.store ≡ w.store) × (u.disk ≡ w.disk) × Fault)
  unfolding Postgres.prune_created_before Postgres.delete_old
  pruned cutoff w rep =
      Ends-mono (Ends-statement "delete" (Postgres.delete_old (P.timestamptz cutoff)) _ _ w refl)
        (λ doomed u (e, store, disk). (
          kept (delete_old-PgRep (P.timestamptz cutoff) w.store rep) store,
          disk,
          e
              ∙ map-removed _
              ∙ ap (map removed) (
                  map-keep decode good _ (is_old (P.timestamptz cutoff))
                    (is_old_row-Agrees (P.timestamptz cutoff)) w.store.backups rep.all_good
                  ∙ ap (keep (is_old (P.timestamptz cutoff))) rep.entries),
        ))
        (λ x u h. h)

  module _ (order : List PgRow → List PgRow) (ordering : IsOrdering order) where
    latest_first-decode :
        (a b : PgRow)
        → good a ≡ true
        → good b ≡ true
        → Postgres.latest_first a b ≡ true
        → latest_first (decode a) (decode b) ≡ true
    unfolding decode
    latest_first-decode a b g h l = l

    listed :
        {es : List BackupEntry} {evs : List (Uuid × Uuid)} (w : World PgDb)
        → PgRep w.store es evs
        → Ends
            (Postgres.list_backups order w)
            (λ xs u.
              (u.store ≡ w.store) × (u.disk ≡ w.disk) × SameItems xs es × IsSorted latest_first xs)
            (λ _ u. (u.store ≡ w.store) × (u.disk ≡ w.disk) × Fault)
    unfolding Postgres.list_backups
    listed {es} w rep =
        Ends-bind (Ends-select (λ db. order db.backups) w)
          (λ rows u (e, store, disk).
            let o = ordering w.store.backups in
            let g = subst (AllGood decode good) (sym e) (o.0 (λ r. not (good r)) ∙ rep.all_good) in
            rw (pg_rows_to_entries-good rows g) (record {
              holds = (
                store,
                disk,
                subst (SameItems (map decode rows)) rep.entries (
                    SameItems-map decode rows w.store.backups
                      (subst (λ xs. SameItems xs w.store.backups) (sym e) o.0)),
                IsSorted-map decode good Postgres.latest_first latest_first-decode rows g
                    (subst (IsSorted Postgres.latest_first) (sym e) o.1),
              );
            }))
          (λ x u h. h)

    decode_hash : (r : PgRow) → r.content_hash ≡ (decode r).content_hash
    unfolding decode
    decode_hash r = refl

    last_hash :
        {es : List BackupEntry} {evs : List (Uuid × Uuid)} (w : World PgDb)
        → PgRep w.store es evs
        → Ends
            (Postgres.last_created_hash order w)
            (λ o u. (u.store ≡ w.store) × (u.disk ≡ w.disk) × IsLastHash es o)
            (λ _ u. (u.store ≡ w.store) × (u.disk ≡ w.disk) × Fault)
    unfolding Postgres.last_created_hash
    last_hash w rep =
        Ends-mono
          (Ends-select
            (λ db.
              Option.map (λ r. r.content_hash)
                (find (λ r. true) (order (keep Postgres.is_created_row db.backups))))
            w)
          (λ a u (e, store, disk).
            let o = ordering (keep Postgres.is_created_row w.store.backups) in
            (
              store,
              disk,
              subst (λ es. IsLastHash es a) rep.entries
                  (subst (IsLastHash (map decode w.store.backups)) (sym e) (
                    IsLastHash-head decode good Postgres.latest_first latest_first-decode
                      (λ r. r.content_hash) decode_hash Postgres.is_created_row
                      is_created_row-Agrees (order (keep Postgres.is_created_row w.store.backups))
                      w.store.backups rep.all_good o.0 o.1)),
            ))
          (λ x u h. h)

    -- The six operations of the Postgres back end keep the contract of a metadata store over a list of
    -- entries and a list of rollback events, with times as a TIMESTAMPTZ keeps them, whatever order
    -- the engine gives rows of equal times: what each call returns and leaves, and that a failed one
    -- changes nothing, but that a failed pruning may have taken old entries. The libraries behave as
    -- documented.
    pub postgres_store-IsStore : IsLawful P.lib → IsStore (postgres_store order) PgRep P.timestamptz
    unfolding postgres_store
    postgres_store-IsStore lawful = record {
      stamp-le = lawful.timestamptz-le;
      stamp_mono = lawful.timestamptz_mono;
      insert = λ e es evs w rep dated. inserted lawful e es evs w rep;
      list = λ es evs w rep. listed w rep;
      get = λ id es evs w rep. got id w rep;
      event = recorded;
      last = λ es evs w rep. last_hash w rep;
      prune = λ cutoff es evs w rep dated.
          Ends-mono (pruned cutoff w rep) (λ a u h. h)
            (λ x u (store, disk, fault). (es, kept rep store, disk, refl, λ p. omega arith, fault));
    }
