-- ===== src/Repository/Start.antt =====
-- Opening a repository, on a new disk or on the one that an earlier run has left.
use anki_backup_tool.Base.{ℕ, ◌<◌, String, true, List, ◌≡◌, ◌≢◌, refl, ◌∙◌, ap}
use anki_backup_tool.Backup.{Uuid, DateTime, Bytes, BackupEntry, year_10000}
use anki_backup_tool.Libraries.{IsLawful}
use anki_backup_tool.World.{
  Platform, World, Io, Disk, FilePath, Result, ok, err, continue, pure, ◌>>◌, create_dir_all,
}
use anki_backup_tool.World.Laws.{Ends, Ends-bind, Ends-mono, Ends-after}
use anki_backup_tool.World.Reads.{OnlyReads}
use anki_backup_tool.World.Directories.{DirsAdded, Ends-create_dir_all, create_dir_all-elsewhere}
use anki_backup_tool.Store.Contract.{IsStore}
use anki_backup_tool.Repository.{
  BackupRepository, backups_dir, state_dir, backup_dir, payload_path, open_with, create_layout,
}
use anki_backup_tool.Repository.Paths.{not-above-state_dir, not-above-backups_dir}
use anki_backup_tool.Repository.Intact.{AllIntact, AllIntact-Spared}
use anki_backup_tool.Repository.Safe.{IsSafe}
use anki_backup_tool.Repository.Reach.{Reach, Reach-IsSafe}

module _ ⦃P : Platform⦄ {S : Type 0} where
  DirsAdded-trans : (u v w : World S) → DirsAdded u v → DirsAdded v w → DirsAdded u w
  DirsAdded-trans u v w (files, store, dirs) (files', store', dirs') =
      (files' ∙ files, store' ∙ store, λ q h. dirs' q (dirs q h))

  create_layout-ends :
      (repo : BackupRepository S) (w : World S)
      → Ends
          (create_layout repo w)
          (λ _ u. DirsAdded w u × (u.disk.dirs (state_dir repo.root) ≡ true))
          (λ _ u. DirsAdded w u)
  unfolding create_layout
  create_layout-ends repo w =
      Ends-bind (Ends-create_dir_all (backups_dir repo.root) "create backups directory" w)
        (λ a u (added, there).
          Ends-mono (Ends-create_dir_all (state_dir repo.root) "create state directory" u)
            (λ b v (added', there'). (DirsAdded-trans w u v added added', there'))
            (λ x v (added', fault). DirsAdded-trans w u v added added'))
        (λ x u (added, fault). added)

  module _ (repo : BackupRepository S) (new_store : Io S Unit) (still : OnlyReads new_store) where
    open_with-ends :
        (w : World S)
        → Ends
            (open_with repo new_store w)
            (λ r u. (r ≡ repo) × DirsAdded w u × (u.disk.dirs (state_dir repo.root) ≡ true))
            (λ _ u. DirsAdded w u)
    unfolding open_with
    open_with-ends w =
        Ends-bind (create_layout-ends repo w)
          (λ a u (added, there).
            Ends-bind (still u)
              (λ b v (disk, store). record {
                holds = (
                  refl,
                  DirsAdded-trans w u v added (untouched u v disk store),
                  ap (λ (d : Disk). d.dirs (state_dir repo.root)) disk ∙ there,
                );
              })
              (λ x v (disk, store). DirsAdded-trans w u v added (untouched u v disk store)))
          (λ x u added. added)
      where
        untouched : (u v : World S) → v.disk ≡ u.disk → v.store ≡ u.store → DirsAdded u v
        untouched u v disk store =
            (ap (λ (d : Disk). d.files) disk, store, λ q h. ap (λ (d : Disk). d.dirs q) disk ∙ h)

  continue-elsewhere :
      {A B : Type 0} (x : Result A) (f : A → Io S B) (w : World S) (q : FilePath)
      → ((a : A) → (f a w).1.disk.dirs q ≡ w.disk.dirs q)
      → (continue x f w).1.disk.dirs q ≡ w.disk.dirs q
  continue-elsewhere (ok a) f w q h = h a
  continue-elsewhere (err e) f w q h = refl

  module _ (repo : BackupRepository S) (d : String) (named : d ≢ "") where
    create_layout-elsewhere :
        (w : World S)
        → (create_layout repo w).1.disk.dirs (backup_dir repo.root d)
          ≡ w.disk.dirs (backup_dir repo.root d)
    unfolding create_layout
    create_layout-elsewhere w =
        let u = (create_dir_all (backups_dir repo.root) "create backups directory" w).1 in
        continue-elsewhere (create_dir_all (backups_dir repo.root) "create backups directory" w).0
          (λ _. create_dir_all (state_dir repo.root) "create state directory") u _
          (λ a.
            create_dir_all-elsewhere (state_dir repo.root) "create state directory" _ u
              (not-above-state_dir repo.root d named))
        ∙ create_dir_all-elsewhere (backups_dir repo.root) "create backups directory" _ w
            (not-above-backups_dir repo.root d named)

    -- Opening makes no directory of a backup.
    pub open_with-elsewhere :
        (new_store : Io S Unit) (w : World S)
        → OnlyReads new_store
        → (open_with repo new_store w).1.disk.dirs (backup_dir repo.root d)
          ≡ w.disk.dirs (backup_dir repo.root d)
    unfolding open_with
    open_with-elsewhere new_store w still =
        let u = (create_layout repo w).1 in
        let q = backup_dir repo.root d in
        continue-elsewhere (create_layout repo w).0 (λ _. new_store >> pure repo) u q
          (λ a.
            continue-elsewhere (new_store u).0 (λ _. pure repo) (new_store u).1 q (λ b. refl)
            ∙ Ends-after (λ v. v.disk.dirs q ≡ u.disk.dirs q) (still u)
                (λ b h. ap (λ (k : Disk). k.dirs q) h.0) (λ x h. ap (λ (k : Disk). k.dirs q) h.0))
        ∙ create_layout-elsewhere w

  module _ (repo : BackupRepository S) (hash : Bytes → String)
      (Rep : S → List BackupEntry → List (Uuid × Uuid) → Type 0) {stamp : DateTime → DateTime}
      (contract : IsStore repo.store Rep stamp) (lawful : IsLawful P.lib)
      (dated : (n : ℕ) → P.times n < year_10000) where
    -- A repository that has been opened has the entries, the events and the payloads that it had, and,
    -- on a new disk or on one where each stored backup of the database has its own directory with a
    -- payload of its hash in it, is in that state after every sequence of operations from there. One
    -- that fails to open has lost no entry, no event and no payload. The store opens without a change
    -- to its rows, the conditions of the sequences hold, the store keeps its contract, and the
    -- libraries behave as documented.
    pub open_with-Reach :
        (new_store : Io S Unit)
        → OnlyReads new_store
        → (es : List BackupEntry) (evs : List (Uuid × Uuid)) (w : World S) → Rep w.store es evs
        → AllIntact repo.root hash w.disk es
        → Ends
            (open_with repo new_store w)
            (λ r u.
              (r ≡ repo)
              × Rep u.store es evs
              × AllIntact repo.root hash u.disk es
              × ((v : World S) → Reach repo hash u v → IsSafe repo hash Rep v))
            (λ _ u. Rep u.store es evs × AllIntact repo.root hash u.disk es)
    open_with-Reach new_store still es evs w listed whole =
        Ends-mono (open_with-ends repo new_store still w)
          (λ r u (is, added, ready). (
            is,
            kept u added,
            spared u added,
            λ v reached.
                Reach-IsSafe repo hash Rep contract lawful dated u v
                  (record {
                    ready = ready;
                    entries = es;
                    events = evs;
                    listed = kept u added;
                    intact = spared u added;
                  })
                  reached,
          ))
          (λ x u added. (kept u added, spared u added))
      where
        kept : (u : World S) → DirsAdded w u → Rep u.store es evs
        kept u (files, store, dirs) = rw store listed

        spared : (u : World S) → DirsAdded w u → AllIntact repo.root hash u.disk es
        spared u (files, store, dirs) =
            AllIntact-Spared repo.root hash w.disk u.disk es
              (λ e (named, there, held).
                (dirs _ there, ap (λ f. f (payload_path repo.root e.timestamp_dir)) files))
              whole
