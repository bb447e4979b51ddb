-- ===== src/Repository/RunOnce/StoreBackup.antt =====
-- The branch of `run_once` that stores a new backup.
use anki_backup_tool.Base.{
  ◌<◌, String, Option, some, true, false, List, [], ◌∷◌, ◌++◌, length, ◌≡◌, ◌≢◌, inl, inr, refl, ap,
  subst, ◌∙◌, arith, string_eq,
}
use anki_backup_tool.Base.Int.{as_i64}
use anki_backup_tool.Base.Text.{replace-nonempty}
use anki_backup_tool.Backup.{
  Uuid, DateTime, Bytes, BackupEntry, BackupStats, NewBackupEntry, year_10000, new_created,
}
use anki_backup_tool.Libraries.{IsLawful}
use anki_backup_tool.World.{FilePath, Platform, World, Disk, is_above, pure, file_len, ◌>>=◌, ◌>>◌}
use anki_backup_tool.World.Laws.{Ends, Ends-bind}
use anki_backup_tool.World.Calls.{Ends-write}
use anki_backup_tool.World.Reads.{Ends-file_len}
use anki_backup_tool.World.Directories.{Ends-create_dir_all}
use anki_backup_tool.Stats.{extract_stats}
use anki_backup_tool.Store.Contract.{IsStore, IsLastHash}
use anki_backup_tool.Repository.{
  BackupRepository, BackupPayload, RunOnceOutcome, created, store_backup, is_unchanged,
  create_and_insert_entry, write_current_pointer, entry_of, format_timestamp_dir, payload_path,
  metadata_path, state_dir, backup_dir,
}
use anki_backup_tool.Repository.Paths.{
  parent-payload_path, payload≢metadata, payload≢pointer, payload≢tmp, metadata≢pointer,
  metadata≢tmp, above-payload, above-metadata,
}
use anki_backup_tool.Repository.Pointer.{PointerRefused, write_current_pointer-atomic}
use anki_backup_tool.Repository.NewEntry.{stamped, FileSet, created_entry}
use anki_backup_tool.Stats.Tables.{Extracted, Unextracted}
use anki_backup_tool.Stats.Extract.{extract_stats_lem}
use anki_backup_tool.Repository.RunOnce.Left.{
  Outcome, Failed, RunRefused, broken_off, no_stats, no_entry, no_pointer,
}

pub format_timestamp_dir-nonempty :
    ⦃P : Platform⦄ → IsLawful P.lib → (t : DateTime) → format_timestamp_dir t ≢ ""
unfolding format_timestamp_dir
format_timestamp_dir-nonempty ⦃P⦄ lawful t =
    replace-nonempty b':' "-" (P.to_rfc3339_secs t) (lawful.to_rfc3339_secs-nonempty t)

module _ ⦃P : Platform⦄ {S : Type 0} (repo : BackupRepository S)
    (Rep : S → List BackupEntry → List (Uuid × Uuid) → Type 0) (stamp : DateTime → DateTime)
    (payload : BackupPayload) (hash : String) (es : List BackupEntry) (evs : List (Uuid × Uuid))
    (d0 : Disk) (at : DateTime) where
  abbrev dir : String
  dir = format_timestamp_dir at

  abbrev new_dir : FilePath
  new_dir = backup_dir repo.root dir

  abbrev path : FilePath
  path = payload_path repo.root dir

  abbrev new_of : BackupStats → NewBackupEntry
  new_of stats =
      new_created at dir hash payload.source_revision payload.sync_duration_ms
        (as_i64 (length payload.bytes)) stats

  abbrev new_entry : Uuid → BackupStats → BackupEntry
  new_entry id stats = entry_of repo id (new_of stats)

  abbrev Ended : RunOnceOutcome → World S → Type 0
  Ended = Outcome repo Rep stamp payload hash es evs d0 at

  abbrev Broken : World S → Type 0
  Broken = Failed repo Rep stamp payload hash es evs d0 at

  abbrev Refused : Type 0
  Refused = RunRefused repo Rep stamp payload hash es evs d0 at

  -- The world before the entry is made.
  record Prepared (v : World S) : Type 0 where
    listed : Rep v.store es evs
    file : v.disk.files path ≡ some payload.bytes
    outside : (q : FilePath) → is_above new_dir q ≡ false → v.disk.files q ≡ d0.files q
    there : v.disk.dirs new_dir ≡ true
    ready : v.disk.dirs (state_dir repo.root) ≡ true
    dirs : (q : FilePath) → d0.dirs q ≡ true → v.disk.dirs q ≡ true

  Prepared-moved : (v u : World S) → Prepared v → u.disk ≡ v.disk → u.store ≡ v.store → Prepared u
  Prepared-moved v u before d s = record {
    listed = rw s before.listed;
    file = rw d before.file;
    outside = λ q h. ap (λ (k : Disk). k.files q) d ∙ before.outside q h;
    there = rw d before.there;
    ready = rw d before.ready;
    dirs = rw d before.dirs;
  }

  early : {v : World S} → Prepared v → Refused → Broken v
  early before why = (inl before.listed, λ q h nt. before.outside q h, before.dirs, why)

  module _ (contract : IsStore repo.store Rep stamp) (lawful : IsLawful P.lib)
      (dated : at < year_10000)
      (changed : (o : Option String) × IsLastHash es o × (is_unchanged repo o hash ≡ false)) where
    named : dir ≢ ""
    named = format_timestamp_dir-nonempty lawful at

    outside-ne : (q r : FilePath) → is_above new_dir r ≡ true → is_above new_dir q ≡ false → q ≢ r
    outside-ne q r h k e = ground arith

    pointed :
        (stats : BackupStats) (id : Uuid) (v u : World S)
        → Prepared v
        → Rep u.store (es ++ stamped stamp (new_entry id stats) ∷ []) evs
        → Extracted (some payload.bytes) stats
        → (json : Bytes) → P.entry_to_json (new_entry id stats) ≡ some json
        → FileSet (metadata_path repo.root dir) json v.disk u.disk
        → Ends
            ((write_current_pointer repo (new_entry id stats)
                >> pure (created (new_entry id stats)))
              u)
            Ended
            (λ _ u. Broken u)
    unfolding new_created
    pointed stats id v u before listed counted json j (set, others, dirs) =
        let outer = λ (q : FilePath) (h : is_above new_dir q ≡ false).
          others q (outside-ne q _ (above-metadata repo.root dir named) h) ∙ before.outside q h in
        Ends-bind (write_current_pointer-atomic repo (new_entry id stats) u (rw dirs before.ready))
          (λ a t ((pointer, gone, rest, ds), store). record {
            holds = record {
              changed = changed;
              entry = (id, stats, refl, counted);
              listed = rw store listed;
              file =
                  rest path (payload≢pointer repo.root dir named) (payload≢tmp repo.root dir named)
                  ∙ others path (payload≢metadata repo.root dir)
                  ∙ before.file;
              metadata = (
                json,
                j,
                rest _ (metadata≢pointer repo.root dir named) (metadata≢tmp repo.root dir named)
                    ∙ set,
              );
              pointer = pointer;
              others = λ q h np nt. rest q np nt ∙ outer q h;
              there = rw (ds, dirs) before.there;
              dirs = rw (ds, dirs) before.dirs;
            };
          })
          (λ x t ((rest, ds), store, why). (
            inr (
              stamped stamp (new_entry id stats),
              refl,
              λ is. (
                refl,
                rest path (payload≢tmp repo.root dir named)
                    ∙ others path (payload≢metadata repo.root dir)
                    ∙ before.file,
                rw (ds, dirs) before.there,
              ),
              rw store listed,
            ),
            λ q h nt. rest q nt ∙ outer q h,
            rw (ds, dirs) before.dirs,
            unpointed why,
          ))
      where
        unpointed : PointerRefused (new_entry id stats) → Refused
        unpointed (inl fault) = broken_off fault
        unpointed (inr (t, bad)) = no_pointer id t bad

    finished :
        (stats : BackupStats) (v : World S)
        → Prepared v
        → Extracted (some payload.bytes) stats
        → Ends
            ((create_and_insert_entry repo (new_of stats) >>= λ e.
                write_current_pointer repo e >> pure (created e))
              v)
            Ended
            (λ _ u. Broken u)
    unfolding new_created
    finished stats v before counted =
        Ends-bind
          (created_entry repo Rep stamp contract (new_of stats) es evs v before.listed dated refl
            before.there)
          (λ e u (id, same, added, (json, j, set)).
            rw same (pointed stats id v u before added counted json (rw (← same) j) set))
          (λ x u (added, (others, dirs), why). (
            elim added [
              | inl rep ↦ inl rep
              | inr (id, rep) ↦ inr (
                stamped stamp (new_entry id stats),
                refl,
                λ is. (
                  refl,
                  others path (payload≢metadata repo.root dir) ∙ before.file,
                  rw dirs before.there,
                ),
                rep,
              )
            ],
            λ q h nt.
                others q (outside-ne q _ (above-metadata repo.root dir named) h)
                ∙ before.outside q h,
            rw dirs before.dirs,
            no_entry stats counted why,
          ))

    measured :
        (v : World S)
        → Prepared v
        → Ends
            ((extract_stats path >>= λ stats. file_len path "stat payload file" >>= λ len.
                create_and_insert_entry repo (
                  new_created at dir hash payload.source_revision payload.sync_duration_ms
                    (as_i64 len)
                    stats)
                >>= λ e. write_current_pointer repo e >> pure (created e))
              v)
            Ended
            (λ _ u. Broken u)
    measured v before =
        Ends-bind (extract_stats_lem path v lawful)
          (λ stats t (counted, (d, s)).
            Ends-bind (Ends-file_len path payload.bytes _ t (rw d before.file))
              (λ len u (same, (d', s')). rw same (
                finished stats u (Prepared-moved v u before (d' ∙ d) (s' ∙ s))
                  (subst (λ file. Extracted file stats) before.file counted)))
              (λ x u ((d', s'), fault).
                early (Prepared-moved v u before (d' ∙ d) (s' ∙ s)) (broken_off fault)))
          (λ x t (uncounted, (d, s)).
            early (Prepared-moved v t before d s)
              (no_stats (subst (λ file. Unextracted file) before.file uncounted)))

    pub store_backup-ends :
        (w : World S)
        → w.disk ≡ d0
        → Rep w.store es evs
        → d0.dirs (state_dir repo.root) ≡ true
        → Ends (store_backup repo at payload hash w) Ended (λ _ u. Broken u)
    unfolding store_backup
    store_backup-ends w same rep ready =
        Ends-bind (Ends-create_dir_all new_dir _ w)
          (λ a1 v1 ((files1, store1, dirs1), there1).
            Ends-bind
              (Ends-write path payload.bytes _ v1 (rw (parent-payload_path repo.root dir) there1))
              (λ a2 v2 (set, others, dirs2, store2). measured v2 (record {
                listed = rw (store2, store1) rep;
                file = set;
                outside = λ q h.
                    others q (outside-ne q path (above-payload repo.root dir named) h)
                    ∙ ap (λ f. f q) files1
                    ∙ ap (λ (k : Disk). k.files q) same;
                there = rw dirs2 there1;
                ready = rw dirs2 (dirs1 _ (rw same ready));
                dirs = λ q h. rw dirs2 (dirs1 q (rw same h));
              }))
              (λ x v2 ((others, dirs2, store2), fault). (
                inl (rw (store2, store1) rep),
                λ q h nt.
                    others q (outside-ne q path (above-payload repo.root dir named) h)
                    ∙ ap (λ f. f q) files1
                    ∙ ap (λ (k : Disk). k.files q) same,
                λ q h. rw dirs2 (dirs1 q (rw same h)),
                broken_off fault,
              )))
          (λ x v1 ((files1, store1, dirs1), fault). (
            inl (rw store1 rep),
            λ q h nt. ap (λ f. f q) files1 ∙ ap (λ (k : Disk). k.files q) same,
            λ q h. dirs1 q (rw same h),
            broken_off fault,
          ))
