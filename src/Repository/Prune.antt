-- ===== src/Repository/Prune.antt =====
-- `prune_created_older_than_days`: which backups go, from the database and from the disk.
pub mod Directories
use anki_backup_tool.Base.{
  ℕ, suc, ◌-◌, ◌*◌, ◌<◌, ◌≤◌, String, Bool, not, Option, none, some, true, false, List, [], ◌∷◌,
  map, length, ◌≡◌, ◌⊎◌, inl, inr, refl, sym, ap, subst, tally-keep-le, ◌∙◌, arith, ◌||◌,
  Bool-cases, keep, All, ltb, tally,
}
use anki_backup_tool.Base.Int.{ℤ, pos, leb_ℤ, pos_part}
use anki_backup_tool.Backup.{Uuid, DateTime, BackupEntry, year_10000}
use anki_backup_tool.World.{
  FilePath, Platform, World, Disk, Io, Error, panicked, is_above, exists, is_some, now, pure, ◌>>=◌,
  ◌>>◌,
}
use anki_backup_tool.World.Laws.{Ends, Ends-bind, Ends-mono, Ends-if}
use anki_backup_tool.World.Calls.{Fault}
use anki_backup_tool.World.Directories.{OutsideKept, Ends-remove_dir_all, is_above_refl}
use anki_backup_tool.Store.Contract.{IsStore, is_old, removed}
use anki_backup_tool.Repository.{
  BackupRepository, backup_dir, remove_backup_dir, remove_backup_dirs,
  prune_created_older_than_days, days_ago, day,
}
use anki_backup_tool.Repository.Prune.Directories.{OutsideStays, Gone, remove_backup_dirs-ends}

length-map-removed : ⦃P : Platform⦄ → (es : List BackupEntry) → length (map removed es) ≡ length es
length-map-removed [] = refl
length-map-removed (e ∷ es) = ap suc (length-map-removed es)

earlier : (a b c : ℕ) → a < b → a - c < b
earlier a b c h = omega arith

days_ago-ends :
    ⦃P : Platform⦄
    → {S : Type 0} → (t : DateTime) (n : ℕ) (w : World S)
    → Ends
        (days_ago t n w)
        (λ a u. (a ≡ t - n * day) × (u.store ≡ w.store) × (u.disk ≡ w.disk))
        (λ _ u. (u.store ≡ w.store) × (u.disk ≡ w.disk))
unfolding days_ago
days_ago-ends t n w = elim (Bool-cases (ltb t (n * day))) [
  | inl e ↦ rw e (record { holds = (refl, refl) })
  | inr e ↦ rw e (record { holds = (refl, refl, refl) })
]

module _ {A : Type 0} where
  pub keep_twice : (p : A → Bool) (xs : List A) → keep p (keep p xs) ≡ keep p xs
  keep_twice p [] = refl
  keep_twice p (x ∷ xs) = ground (arith, keep_twice p xs)

module _ ⦃P : Platform⦄ {S : Type 0} (repo : BackupRepository S)
    (Rep : S → List BackupEntry → List (Uuid × Uuid) → Type 0) (stamp : DateTime → DateTime)
    (days : ℤ) (es : List BackupEntry) (evs : List (Uuid × Uuid)) (w : World S) where
  -- The time from which backups are kept.
  abbrev pub kept_from : DateTime
  kept_from = stamp (P.times w.step - pos_part days * day)

  abbrev pub recent : List BackupEntry → List BackupEntry
  recent = keep (λ e. not (is_old kept_from e))

  abbrev pub doomed : List BackupEntry
  doomed = keep (is_old kept_from) es

  -- What is in no directory of a doomed backup is as it was.
  abbrev pub OtherFiles : World S → Type 0
  OtherFiles u = OutsideStays repo (map removed doomed) w u

  -- No retention: nothing is done. Else the old created entries are gone, their number is returned,
  -- and their directories are gone, or a call has failed: one that is not seen is left.
  abbrev pub Pruned : ℕ → World S → Type 0
  Pruned a u =
      ((leb_ℤ days (pos 0) ≡ true) × (a ≡ 0) × (u ≡ w))
      ⊎ ((leb_ℤ days (pos 0) ≡ false)
          × (a ≡ length doomed)
          × Rep u.store (recent es) evs
          × (Gone repo (map removed doomed) u ⊎ Fault)
          × OtherFiles u)

  -- A failure: the recent entries are all there, and none has come. Where an old one is still there,
  -- the disk is as it was.
  abbrev pub Unpruned : World S → Type 0
  Unpruned u =
      (leb_ℤ days (pos 0) ≡ false)
      × ((es' : List BackupEntry) × Rep u.store es' evs
          × (recent es' ≡ recent es)
          × ((p : BackupEntry → Bool) → tally p es' ≤ tally p es)
          × ((u.disk ≡ w.disk) ⊎ (es' ≡ recent es)))
      × OtherFiles u

  module _ (contract : IsStore repo.store Rep stamp) (rep : Rep w.store es evs)
      (dated : P.times w.step < year_10000) where
    with_disk :
        (q : FilePath) (v : Disk) (u : World S)
        → v ≡ w.disk
        → (u.disk.files q ≡ v.files q) × (u.disk.dirs q ≡ v.dirs q)
        → (u.disk.files q ≡ w.disk.files q) × (u.disk.dirs q ≡ w.disk.dirs q)
    with_disk q v u d (f, g) =
        (f ∙ ap (λ (k : Disk). k.files q) d, g ∙ ap (λ (k : Disk). k.dirs q) d)

    directories :
        (v : World S)
        → leb_ℤ days (pos 0) ≡ false
        → Rep v.store (recent es) evs
        → v.disk ≡ w.disk
        → Ends
            ((remove_backup_dirs repo (map removed doomed) >> pure (length (map removed doomed))) v)
            Pruned
            (λ _ u. Unpruned u)
    directories v positive rep' d =
        Ends-bind (remove_backup_dirs-ends repo (map removed doomed) v)
          (λ a u ((store, files, dirs), gone). record {
            holds = inr (
              positive,
              length-map-removed doomed,
              rw store rep',
              gone,
              λ q h. with_disk q v.disk u d (files q h),
            );
          })
          (λ x u (store, files). (
            positive,
            (recent es, rw store rep', keep_twice _ es, λ p. tally-keep-le p _ es, inr refl),
            λ q h. with_disk q v.disk u d (files q h),
          ))

    pruned :
        (cutoff : DateTime) (v : World S)
        → stamp cutoff ≡ kept_from
        → cutoff < year_10000
        → leb_ℤ days (pos 0) ≡ false
        → Rep v.store es evs
        → v.disk ≡ w.disk
        → Ends
            ((repo.store.prune_created_before cutoff >>= λ gone.
                remove_backup_dirs repo gone >> pure (length gone))
              v)
            Pruned
            (λ _ u. Unpruned u)
    pruned cutoff v at early positive rep' d =
        Ends-bind (contract.prune cutoff es evs v rep' early)
          (λ gone u (rep'', disk, same).
            subst
              (λ g.
                Ends ((remove_backup_dirs repo g >> pure (length g)) u) Pruned (λ _ u. Unpruned u))
              (sym (same ∙ ap (λ c. map removed (keep (is_old c) es)) at))
              (directories u positive
                (subst (λ c. Rep u.store (keep (λ e. not (is_old c e)) es) evs) at rep'')
                (disk ∙ d)))
          (λ x u (es', rep'', disk, same, fewer, fault). (
            positive,
            (
              es',
              rep'',
              subst (λ c. keep (λ e. not (is_old c e)) es' ≡ keep (λ e. not (is_old c e)) es) at
                  same,
              fewer,
              inl (disk ∙ d),
            ),
            λ q h. with_disk q u.disk u (disk ∙ d) (refl, refl),
          ))

    pub prune_created_older_than_days_lem :
        Ends (prune_created_older_than_days repo days w) Pruned (λ _ u. Unpruned u)
    unfolding prune_created_older_than_days now
    prune_created_older_than_days_lem =
        Ends-if (leb_ℤ days (pos 0)) _ _ _ _ w (λ zero. record { holds = inl (zero, refl, refl) })
          (λ positive.
            Ends-bind (days_ago-ends (P.times w.step) (pos_part days) _)
              (λ cutoff v (at, store, disk).
                pruned cutoff v (ap stamp at) (rw at (earlier _ _ _ dated)) positive (rw store rep)
                  disk)
              (λ x v (store, disk). (
                positive,
                (es, rw store rep, refl, λ p. omega arith, inl disk),
                λ q h. with_disk q v.disk v disk (refl, refl),
              )))
