-- ===== src/Store/Sqlite/Contract.antt =====
-- The SQLite back end against the contract of a metadata store. Times are kept as they are.
use mathlib.Core.Option
use anki_backup_tool.Base.{
  String, Option, true, not, List, map, ◌≡◌, refl, sym, ap, ◌∙◌, subst, find, keep, arith,
}
use anki_backup_tool.Base.Order.{SameItems-map, SameItems, IsSorted}
use anki_backup_tool.Backup.{Uuid, BackupEntry}
use anki_backup_tool.Libraries.{IsLawful}
use anki_backup_tool.World.{Platform, World}
use anki_backup_tool.World.Laws.{Ends, Ends-bind, Ends-mono}
use anki_backup_tool.World.Calls.{Fault}
use anki_backup_tool.Store.Contract.{IsStore, latest_first, IsLastHash}
use anki_backup_tool.Store.Table.{AllGood, IsSorted-map, IsLastHash-head}
use anki_backup_tool.Store.SqliteRows.{Row, SqliteDb, rows_to_entries}
use anki_backup_tool.Store.Sqlite
use anki_backup_tool.Store.Sqlite.{sqlite_store}
use anki_backup_tool.Store.Sqlite.Rows.{
  decode, good, rows_to_entries-good, is_created_row-Agrees, latest_first-decode,
}
use anki_backup_tool.Store.Sqlite.Rep.{SqliteRep, Ends-connect, Ends-select, Ends-query, got}
use anki_backup_tool.Store.Sqlite.Insert.{inserted}
use anki_backup_tool.Store.Sqlite.Event.{recorded}
use anki_backup_tool.Store.Sqlite.Prune.{pruned}

-- What `ORDER BY created_at DESC` promises: the same rows, the latest text first.
abbrev pub IsOrdering : (List Row → List Row) → Type 0
IsOrdering order =
    (rows : List Row) → SameItems (order rows) rows × IsSorted Sqlite.latest_first (order rows)

module _ ⦃P : Platform⦄ (lawful : IsLawful P.lib) (order : List Row → List Row)
    (ordering : IsOrdering order) where
  listed :
      {es : List BackupEntry} {evs : List (Uuid × Uuid)} (w : World SqliteDb)
      → SqliteRep w.store es evs
      → Ends
          (Sqlite.list_backups order w)
          (λ xs u.
            (u.store ≡ w.store) × (u.disk ≡ w.disk) × SameItems xs es × IsSorted latest_first xs)
          (λ _ u. (u.store ≡ w.store) × (u.disk ≡ w.disk) × Fault)
  unfolding Sqlite.list_backups
  listed {es} w rep =
      Ends-query (λ db. order db.backups) rows_to_entries w
        (λ rows u e store disk.
          let o = ordering w.store.backups in
          let g = subst (AllGood decode good) (sym e) (o.0 (λ r. not (good r)) ∙ rep.all_good) in
          rw (rows_to_entries-good rows u g) (record {
            holds = (
              store,
              disk,
              subst (SameItems (map decode rows)) rep.entries (
                  SameItems-map decode rows w.store.backups
                    (subst (λ xs. SameItems xs w.store.backups) (sym e) o.0)),
              IsSorted-map decode good Sqlite.latest_first (latest_first-decode lawful) rows g
                  (subst (IsSorted Sqlite.latest_first) (sym e) o.1),
            );
          }))
        (λ x u h. h)

  decode_hash : (r : Row) → r.content_hash ≡ (decode r).content_hash
  unfolding decode
  decode_hash r = refl

  last_hash :
      {es : List BackupEntry} {evs : List (Uuid × Uuid)} (w : World SqliteDb)
      → SqliteRep w.store es evs
      → Ends
          (Sqlite.last_created_hash order w)
          (λ o u. (u.store ≡ w.store) × (u.disk ≡ w.disk) × IsLastHash es o)
          (λ _ u. (u.store ≡ w.store) × (u.disk ≡ w.disk) × Fault)
  unfolding Sqlite.last_created_hash
  last_hash {es} w rep =
      Ends-bind (Ends-connect w)
        (λ a v (store, disk).
          Ends-mono (Ends-select last v)
            (λ o u (e, store', disk'). (store' ∙ store, disk' ∙ disk, newest o (e ∙ ap last store)))
            (λ x u (store', disk', fault). (store' ∙ store, disk' ∙ disk, fault)))
        (λ x u h. h)
    where
      last : SqliteDb → Option String
      last db =
          Option.map (λ r. r.content_hash)
            (find (λ r. true) (order (keep Sqlite.is_created_row db.backups)))

      newest : (o : Option String) → o ≡ last w.store → IsLastHash es o
      newest o e =
          let sorted = ordering (keep Sqlite.is_created_row w.store.backups) in
          subst (λ es. IsLastHash es o) rep.entries
            (subst (IsLastHash (map decode w.store.backups)) (sym e) (
              IsLastHash-head decode good Sqlite.latest_first (latest_first-decode lawful)
                (λ r. r.content_hash) decode_hash Sqlite.is_created_row is_created_row-Agrees
                (order (keep Sqlite.is_created_row w.store.backups)) w.store.backups rep.all_good
                sorted.0 sorted.1))

  -- The six operations of the SQLite back end, each a connection and its statements one by one on
  -- texts of ids and times, keep the contract of a metadata store over a list of entries and a list of
  -- rollback events, with times of four-digit years kept as they are, whatever order the engine gives
  -- rows of equal times: what each call returns and leaves, and that a failed one changes nothing, but
  -- that a pruning that breaks off has deleted some of the old entries and no other. The libraries
  -- behave as documented.
  pub sqlite_store-IsStore : IsStore (sqlite_store order) SqliteRep (λ t. t)
  unfolding sqlite_store
  sqlite_store-IsStore = record {
    stamp-le = λ t. omega arith;
    stamp_mono = λ t u h. h;
    insert = λ e es evs w rep dated. inserted lawful e es evs w rep dated;
    list = λ es evs w rep. listed w rep;
    get = λ id es evs w rep. got lawful id w rep;
    event = λ id es evs w rep. recorded lawful id es evs w rep;
    last = λ es evs w rep. last_hash w rep;
    prune = λ cutoff es evs w rep dated. pruned lawful cutoff es evs w rep dated;
  }
