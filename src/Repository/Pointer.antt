-- ===== src/Repository/Pointer.antt =====
-- `write_current_pointer` of crates/storage/src/repository.rs: the files after the swap and after a failure.
use anki_backup_tool.Base.{none, some, true, ◌≡◌, ◌≢◌, ◌⊎◌, inl, inr, refl, sym, ap, ◌∙◌}
use anki_backup_tool.Backup.{DateTime, Bytes, BackupEntry}
use anki_backup_tool.World.{FilePath, Platform, World, Disk, rename, now, path_eq}
use anki_backup_tool.World.Laws.{Ends, Ends-bind, Ends-mono, Ends-ok_or}
use anki_backup_tool.World.Calls.{Ends-write, Ends-rename, Fault, Written}
use anki_backup_tool.Repository.{
  BackupRepository, write_current_pointer, state_dir, pointer_path, pointer_tmp_path,
}
use anki_backup_tool.Repository.Paths.{parent-pointer_tmp_path, pointer≢tmp}

-- Why the swap may fail: a fault, or a pointer that does not serialise.
abbrev pub PointerRefused : ⦃P : Platform⦄ → BackupEntry → Type 0
PointerRefused ⦃P⦄ e = Fault ⊎ ((t : DateTime) × (P.pointer_to_json e.id e.timestamp_dir t ≡ none))

module _ ⦃P : Platform⦄ {S : Type 0} (repo : BackupRepository S) (e : BackupEntry) where
  abbrev dst : FilePath
  dst = pointer_path repo.root

  abbrev tmp : FilePath
  tmp = pointer_tmp_path repo.root

  -- The files after the pointer has been swapped: it names the entry, the temporary file is gone,
  -- and every other file is as it was.
  abbrev pub PointsTo : Disk → Disk → Type 0
  PointsTo d d' =
      ((t : DateTime) × (json : Bytes) × (P.pointer_to_json e.id e.timestamp_dir t ≡ some json)
        × (d'.files dst ≡ some json))
      × (d'.files tmp ≡ none)
      × ((q : FilePath) → q ≢ dst → q ≢ tmp → d'.files q ≡ d.files q)
      × (d'.dirs ≡ d.dirs)

  -- The files after the swap has failed: all but the temporary file are as they were.
  abbrev pub PointerKept : Disk → Disk → Type 0
  PointerKept d d' = ((q : FilePath) → q ≢ tmp → d'.files q ≡ d.files q) × (d'.dirs ≡ d.dirs)

  module _ (w : World S) where
    swap :
        (t : DateTime) (json : Bytes) (v : World S)
        → P.pointer_to_json e.id e.timestamp_dir t ≡ some json
        → Written tmp json w v
        → Ends
            (rename tmp dst "atomic rename current pointer" v)
            (λ _ u. PointsTo w.disk u.disk × (u.store ≡ w.store))
            (λ _ u. PointerKept w.disk u.disk × (u.store ≡ w.store) × PointerRefused e)
    swap t json v j (there, off, dirs, store) =
        Ends-mono (Ends-rename tmp dst json _ v there (λ p. pointer≢tmp repo.root (sym p)))
          (λ a u (new, gone, others, d, s).
            (((t, json, j, new), gone, λ q nd nt. others q nd nt ∙ off q nt, d ∙ dirs), s ∙ store))
          (λ x u (d, s, fault). (
            (λ q nt. ap (λ (k : Disk). k.files q) d ∙ off q nt, ap (λ (k : Disk). k.dirs) d ∙ dirs),
            s ∙ store,
            inl fault,
          ))

    -- Where the state directory is there: a call that ends well has swapped the pointer, and one that
    -- fails, for a fault or because the pointer does not serialise, has changed no file but the
    -- temporary one. So the pointer is the old one whole or the new one whole.
    pub write_current_pointer-atomic :
        w.disk.dirs (state_dir repo.root) ≡ true
        → Ends
            (write_current_pointer repo e w)
            (λ _ u. PointsTo w.disk u.disk × (u.store ≡ w.store))
            (λ _ u. PointerKept w.disk u.disk × (u.store ≡ w.store) × PointerRefused e)
    unfolding write_current_pointer now
    write_current_pointer-atomic ready =
        Ends-ok_or (P.pointer_to_json e.id e.timestamp_dir (P.times w.step)) _ _ _
          (λ json j.
            Ends-bind (Ends-write tmp json _ _ (rw (parent-pointer_tmp_path repo.root) ready))
              (λ a v written. swap _ json v j written)
              (λ x v ((off, dirs, store), fault). ((off, dirs), store, inl fault)))
          (λ bad. ((λ q nt. refl, refl), refl, inr (P.times w.step, bad)))
