-- ===== src/Repository/Prune/Directories.antt =====
-- The loop of `prune_created_older_than_days` over the directories of the pruned backups.
use anki_backup_tool.Base.{
  ◌⊎◌, String, true, false, List, [], ◌∷◌, ◌≡◌, inl, inr, refl, ◌∙◌, Bool-cases, All,
}
use anki_backup_tool.World.{FilePath, Platform, World, is_above, exists}
use anki_backup_tool.World.Laws.{Ends, Ends-bind, Ends-mono}
use anki_backup_tool.World.Directories.{Ends-remove_dir_all, is_above_refl, seen-answers}
use anki_backup_tool.World.Calls.{Fault}
use anki_backup_tool.Repository.{
  BackupRepository, backup_dir, remove_backup_dir, remove_backup_dirs,
}

module _ ⦃P : Platform⦄ {S : Type 0} (repo : BackupRepository S) where
  -- A path that lies under none of the directories.
  abbrev pub Outside : FilePath → List (String × String) → Type 0
  Outside q = All (λ d. is_above (backup_dir repo.root d.1) q ≡ false)

  -- Every file and every directory outside those of the list is as it was.
  abbrev pub OutsideStays : List (String × String) → World S → World S → Type 0
  OutsideStays ds w u =
      (q : FilePath)
      → Outside q ds
      → (u.disk.files q ≡ w.disk.files q) × (u.disk.dirs q ≡ w.disk.dirs q)

  -- The same, and no directory has come.
  abbrev pub OthersStay : List (String × String) → World S → World S → Type 0
  OthersStay ds w u =
      (u.store ≡ w.store)
      × OutsideStays ds w u
      × ((q : FilePath) → w.disk.dirs q ≡ false → u.disk.dirs q ≡ false)

  abbrev pub Gone : List (String × String) → World S → Type 0
  Gone ds u = All (λ d. u.disk.dirs (backup_dir repo.root d.1) ≡ false) ds

  no_more :
      (p : FilePath) (w u : World S)
      → ((q : FilePath) → is_above p q ≡ false → u.disk.dirs q ≡ w.disk.dirs q)
      → ((q : FilePath) → is_above p q ≡ true → u.disk.dirs q ≡ false)
      → (q : FilePath) → w.disk.dirs q ≡ false
      → u.disk.dirs q ≡ false
  no_more p w u f g q h = elim (Bool-cases (is_above p q)) [ inl e ↦ g q e | inr e ↦ f q e ∙ h ]

  round :
      (d : String) (w : World S)
      → Ends
          (remove_backup_dir repo d w)
          (λ _ u.
            (u.store ≡ w.store)
            × ((q : FilePath)
                → is_above (backup_dir repo.root d) q ≡ false
                → (u.disk.files q ≡ w.disk.files q) × (u.disk.dirs q ≡ w.disk.dirs q))
            × ((q : FilePath) → w.disk.dirs q ≡ false → u.disk.dirs q ≡ false)
            × ((u.disk.dirs (backup_dir repo.root d) ≡ false) ⊎ Fault))
          (λ _ u.
            (u.store ≡ w.store)
            × ((q : FilePath)
                → is_above (backup_dir repo.root d) q ≡ false
                → (u.disk.files q ≡ w.disk.files q) × (u.disk.dirs q ≡ w.disk.dirs q)))
  unfolding remove_backup_dir exists
  round d w =
      let p = backup_dir repo.root d in
      elim (seen-answers p w) [
        | inl there ↦ rw there (
            Ends-mono (Ends-remove_dir_all p _ (exists p w).1)
              (λ a u ((files, dirs, store), no_file, no_dir). (
                store,
                λ q h. (files q h, dirs q h),
                no_more p w u dirs no_dir,
                inl (no_dir p (is_above_refl p)),
              ))
              (λ x u ((files, dirs, store), fault). (store, λ q h. (files q h, dirs q h))))
        | inr (absent, why) ↦
            rw absent (record { holds = (refl, λ q h. (refl, refl), λ q h. h, why) })
      ]

  both :
      {A B : Type 0} {a b c : A} {x y z : B}
      → (a ≡ b) × (x ≡ y)
      → (b ≡ c) × (y ≡ z)
      → (a ≡ c) × (x ≡ z)
  both (p, q) (r, t) = (p ∙ r, q ∙ t)

  joined :
      (d : String × String) (ds : List (String × String)) (u : World S)
      → (u.disk.dirs (backup_dir repo.root d.1) ≡ false) ⊎ Fault
      → Gone ds u ⊎ Fault
      → Gone (d ∷ ds) u ⊎ Fault
  joined d ds u (inl here) (inl all_gone) = inl (here, all_gone)
  joined d ds u (inr fault) rest = inr fault
  joined d ds u (inl here) (inr fault) = inr fault

  pub remove_backup_dirs-ends :
      (ds : List (String × String)) (w : World S)
      → Ends
          (remove_backup_dirs repo ds w)
          (λ _ u. OthersStay ds w u × (Gone ds u ⊎ Fault))
          (λ _ u. (u.store ≡ w.store) × OutsideStays ds w u)
  unfolding remove_backup_dirs
  remove_backup_dirs-ends [] w = record { holds = ((refl, λ q h. (refl, refl), λ q h. h), inl tt) }
  remove_backup_dirs-ends ((id, d) ∷ ds) w =
      Ends-bind (round d w)
        (λ a v (store, files, dirs, gone).
          Ends-mono (remove_backup_dirs-ends ds v)
            (λ b u ((store', files', dirs'), all_gone). (
              (
                store' ∙ store,
                λ q (h, hs). both (files' q hs) (files q h),
                λ q h. dirs' q (dirs q h),
              ),
              joined (id, d) ds u
                  (elim gone [ inl here ↦ inl (dirs' _ here) | inr fault ↦ inr fault ]) all_gone,
            ))
            (λ x u (store', files'). (store' ∙ store, λ q (h, hs). both (files' q hs) (files q h))))
        (λ x v (store, files). (store, λ q (h, hs). files q h))
