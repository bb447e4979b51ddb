-- ===== src/Store/Sqlite/Prune.antt =====
-- `prune_created_before` of the SQLite back end, whose DELETE statements run one by one.
use anki_backup_tool.Base.{
  ◌≤◌, ◌<◌, String, Bool, not, List, [], ◌∷◌, map, ◌≡◌, refl, sym, ap, ◌∙◌, subst, ◌==◌, nat_eq,
  string_eq, arith, keep, tally, tally-keep-le,
}
use anki_backup_tool.Backup.{Uuid, DateTime, BackupEntry, year_10000}
use anki_backup_tool.Libraries.{IsLawful}
use anki_backup_tool.World.{Platform, World}
use anki_backup_tool.World.Laws.{Ends, Ends-bind, Ends-mono}
use anki_backup_tool.World.Calls.{Ends-statement, Fault}
use anki_backup_tool.Store.Contract.{is_old, removed}
use anki_backup_tool.Store.Ids.{UniqueIds-keep}
use anki_backup_tool.Store.Table.{AllGood, AllGood-head, AllGood-tail, AllGood-keep, map-keep}
use anki_backup_tool.Store.SqliteRows.{Row, SqliteDb}
use anki_backup_tool.Store.Sqlite
use anki_backup_tool.Store.Sqlite.{delete_row, delete_all}
use anki_backup_tool.Store.Sqlite.Rows.{decode, good, good-parts, is_old_row-Agrees, id-Agrees}
use anki_backup_tool.Store.Sqlite.Rep.{SqliteRep, kept, Ends-query}
use anki_backup_tool.Store.Sqlite.Delete.{
  without, recent, OnlyOld, Doomed, recent-without, OnlyOld-without, Doomed-without, none_left,
  OnlyOld-start, Doomed-start,
}

module _ ⦃P : Platform⦄ (lawful : IsLawful P.lib) where
  delete_row-SqliteRep :
      (id : Uuid) {es : List BackupEntry} {evs : List (Uuid × Uuid)} (db : SqliteDb)
      → SqliteRep db es evs
      → SqliteRep
          (record db { backups = keep (λ r. not (r.id == P.uuid_to_string id)) db.backups })
          (without id es)
          evs
  delete_row-SqliteRep id db rep = record {
    all_good = AllGood-keep decode good _ db.backups rep.all_good;
    entries =
        map-keep decode good _ (λ e. not (e.id == id)) (λ r g. ap not (id-Agrees lawful id r g))
          db.backups rep.all_good
        ∙ ap (without id) rep.entries;
    unique = UniqueIds-keep _ _ rep.unique;
    events = rep.events;
  }

  map-removed :
      (rows : List Row)
      → AllGood decode good rows
      → map (λ r. (r.id, r.timestamp_dir)) rows ≡ map removed (map decode rows)
  unfolding decode
  map-removed [] h = refl
  map-removed (r ∷ rows) h =
      ap (λ s. (s, r.timestamp_dir) ∷ map (λ (x : Row). (x.id, x.timestamp_dir)) rows)
        (good-parts r (AllGood-head decode good r rows h)).id
      ∙ ap (λ l. removed (decode r) ∷ l) (map-removed rows (AllGood-tail decode good r rows h))

  module _ (old : BackupEntry → Bool) where
    -- Where the loop breaks off: only old entries have gone.
    abbrev Partly : List BackupEntry → List (Uuid × Uuid) → World SqliteDb → World SqliteDb → Type 0
    Partly xs evs w u =
        (es' : List BackupEntry) × SqliteRep u.store es' evs
        × (u.disk ≡ w.disk)
        × (recent old es' ≡ recent old xs)
        × ((p : BackupEntry → Bool) → tally p es' ≤ tally p xs)
        × Fault

    delete_all-ends :
        (ds xs : List BackupEntry) (evs : List (Uuid × Uuid)) (w : World SqliteDb)
        → SqliteRep w.store xs evs
        → OnlyOld old ds xs
        → Doomed old ds xs
        → Ends
            (delete_all (map removed ds) w)
            (λ _ u. SqliteRep u.store (recent old xs) evs × (u.disk ≡ w.disk))
            (λ _ u. Partly xs evs w u)
    unfolding delete_all delete_row
    delete_all-ends [] xs evs w rep only all = record {
      holds = (subst (λ es. SqliteRep w.store es evs) (sym (none_left old xs all)) rep, refl);
    }
    delete_all-ends (d ∷ ds) xs evs w rep (only, rest) all =
        Ends-bind (Ends-statement "delete" (delete_row (P.uuid_to_string d.id)) tt _ w refl)
          (λ a v (_, store, disk).
            Ends-mono
              (delete_all-ends ds (without d.id xs) evs v
                (kept (delete_row-SqliteRep d.id w.store rep) store)
                (OnlyOld-without old d.id ds xs rest) (Doomed-without old d ds xs all))
              (λ b u (rep', disk'). (
                subst (λ es. SqliteRep u.store es evs) (recent-without old d xs only) rep',
                disk' ∙ disk,
              ))
              (λ x u (es', rep', disk', same, fewer, fault). (
                es',
                rep',
                disk' ∙ disk,
                same ∙ recent-without old d xs only,
                λ p. omega (arith, fewer p, tally-keep-le p (λ x. not (x.id == d.id)) xs),
                fault,
              )))
          (λ x v (store, disk, fault). (xs, kept rep store, disk, refl, λ p. omega arith, fault))

  pub pruned :
      (cutoff : DateTime) (es : List BackupEntry) (evs : List (Uuid × Uuid)) (w : World SqliteDb)
      → SqliteRep w.store es evs
      → cutoff < year_10000
      → Ends
          (Sqlite.prune_created_before cutoff w)
          (λ doomed u.
            SqliteRep u.store (keep (λ e. not (is_old cutoff e)) es) evs
            × (u.disk ≡ w.disk)
            × (doomed ≡ map removed (keep (is_old cutoff) es)))
          (λ _ u.
            (es' : List BackupEntry) × SqliteRep u.store es' evs
            × (u.disk ≡ w.disk)
            × (keep (λ e. not (is_old cutoff e)) es' ≡ keep (λ e. not (is_old cutoff e)) es)
            × ((p : BackupEntry → Bool) → tally p es' ≤ tally p es)
            × Fault)
  unfolding Sqlite.prune_created_before
  pruned cutoff es evs w rep dated =
      Ends-query _ _ w
        (λ doomed u e store disk.
          Ends-bind (loop doomed u (e ∙ listed) (kept rep store))
            (λ a v (rep', disk'). record { holds = (rep', disk' ∙ disk, e ∙ listed) })
            (λ x v (es', rep', disk', same, fewer, fault).
              (es', rep', disk' ∙ disk, same, fewer, fault)))
        (λ x u (store, disk, fault). (es, kept rep store, disk, refl, λ p. omega arith, fault))
    where
      listed :
          map
            (λ r. (r.id, r.timestamp_dir))
            (keep (Sqlite.is_old_row (P.to_rfc3339 cutoff)) w.store.backups)
          ≡ map removed (keep (is_old cutoff) es)
      listed =
          map-removed _ (AllGood-keep decode good _ w.store.backups rep.all_good)
          ∙ ap (map removed) (
              map-keep decode good _ (is_old cutoff) (is_old_row-Agrees lawful cutoff dated)
                w.store.backups rep.all_good
              ∙ ap (keep (is_old cutoff)) rep.entries)

      loop :
          (doomed : List (String × String)) (u : World SqliteDb)
          → doomed ≡ map removed (keep (is_old cutoff) es)
          → SqliteRep u.store es evs
          → Ends
              (delete_all doomed u)
              (λ _ v. SqliteRep v.store (recent (is_old cutoff) es) evs × (v.disk ≡ u.disk))
              (λ _ v. Partly (is_old cutoff) es evs u v)
      loop doomed u e rep' = rw e (
          delete_all-ends (is_old cutoff) (keep (is_old cutoff) es) es evs u rep'
            (OnlyOld-start (is_old cutoff) es rep.unique)
            (Doomed-start (is_old cutoff) es rep.unique))
