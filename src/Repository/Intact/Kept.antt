-- ===== src/Repository/Intact/Kept.antt =====
-- Entries that are taken out of the database: those that stay are intact, also where the directories
-- of the others are removed.
use anki_backup_tool.Base.{
  ◌≤◌, ◌<◌, String, Bool, true, false, not, ◌&&◌, List, [], ◌∷◌, ◌≡◌, ◌≢◌, inl, inr, refl, arith,
  tally, keep, All, tally-keep-le, tally_none, ◌==◌, string_eq, ==-true, ==-false, Bool-cases,
}
use anki_backup_tool.Base.Counts.{All-with, All-tally, tally-split, none-tally, All-keep}
use anki_backup_tool.Backup.{Bytes, BackupEntry}
use anki_backup_tool.World.{FilePath, Disk}
use anki_backup_tool.Store.Contract.{is_created}
use anki_backup_tool.Repository.{backup_dir, payload_path}
use anki_backup_tool.Repository.Intact.{
  shares, is_held, IsIntact, AllIntact, Spared, IsIntact-Spared,
}

module _ (root : FilePath) (hash : Bytes → String) where
  -- A stored backup that is not intact.
  abbrev is_lost : Disk → BackupEntry → Bool
  is_lost d e =
      is_created e
      && not (
          not (e.timestamp_dir == "")
          && (d.dirs (backup_dir root e.timestamp_dir)
              && is_held root hash (d.files (payload_path root e.timestamp_dir)) e.content_hash))

  module _ (d : Disk) where
    not_lost :
        (e : BackupEntry) → (is_created e ≡ true → IsIntact root hash d e) → is_lost d e ≡ false
    not_lost e h = elim (Bool-cases (is_created e)) [
      | inr no_backup ↦ rw no_backup refl
      | inl is ↦
          let (named, there, held) = h is in
          rw (is, ==-false e.timestamp_dir "" named, there, held) refl
    ]

    kept-IsIntact :
        (e : BackupEntry) → is_lost d e ≡ false → is_created e ≡ true → IsIntact root hash d e
    kept-IsIntact e h is =
        (λ same. ground (arith, ==-true e.timestamp_dir "" same), ground arith, ground arith)

    lost_none :
        (es : List BackupEntry)
        → All (λ e. is_created e ≡ true → IsIntact root hash d e) es
        → All (λ e. is_lost d e ≡ false) es
    lost_none [] h = tt
    lost_none (x ∷ xs) (h, hs) = (not_lost x h, lost_none xs hs)

    -- Fewer entries.
    pub AllIntact-fewer :
        (es es' : List BackupEntry)
        → ((p : BackupEntry → Bool) → tally p es' ≤ tally p es)
        → AllIntact root hash d es
        → AllIntact root hash d es'
    AllIntact-fewer es es' fewer (whole, apart) = (
      All-with (λ e. is_lost d e ≡ false) (λ e. is_lost d e ≡ false)
          (λ e. is_created e ≡ true → IsIntact root hash d e) (λ e h k. kept-IsIntact e h) es'
          (none_lost) (none_lost),
      λ dir. omega (arith, fewer (shares dir), apart dir),
    )
      where
        none_lost : All (λ e. is_lost d e ≡ false) es'
        none_lost =
            none-tally (is_lost d) es'
              (omega (arith, fewer (is_lost d), tally_none (is_lost d) es (lost_none es whole)))

  -- The entries that fail a test which only stored backups pass, where what they need of the disk is
  -- spared; the backups that pass are in other directories than theirs.
  pub AllIntact-keep :
      (d d' : Disk) (q : BackupEntry → Bool) (es : List BackupEntry)
      → ((x : BackupEntry) → q x ≡ true → is_created x ≡ true)
      → ((x : BackupEntry)
          → IsIntact root hash d x
          → All (λ y. q y ≡ true → (y.timestamp_dir ≢ "") × (y.timestamp_dir ≢ x.timestamp_dir)) es
          → Spared root hash d d' x)
      → AllIntact root hash d es
      → AllIntact root hash d' (keep (λ x. not (q x)) es)
  AllIntact-keep d d' q es stored spared (whole, apart) = (
    All-keep (λ x. is_created x ≡ true → IsIntact root hash d' x) (λ x. not (q x)) es
        (All-with (λ x. is_created x ≡ true → IsIntact root hash d x)
          (λ x.
            (not (q x) && shares x.timestamp_dir x) ≡ true
            → 0 < tally (λ y. not (q y) && shares x.timestamp_dir y) es)
          (λ x. not (q x) ≡ true → is_created x ≡ true → IsIntact root hash d' x) intact es whole
          (All-tally (λ x y. not (q y) && shares x.timestamp_dir y) es)),
    λ dir. omega (arith, tally-keep-le (shares dir) (λ x. not (q x)) es, apart dir),
  )
    where
      apart_from :
          (x : BackupEntry)
          → is_created x ≡ true
          → ((not (q x) && shares x.timestamp_dir x) ≡ true
              → 0 < tally (λ y. not (q y) && shares x.timestamp_dir y) es)
          → not (q x) ≡ true
          → All (λ y. q y ≡ true → (y.timestamp_dir ≢ "") × (y.timestamp_dir ≢ x.timestamp_dir)) es
      apart_from x is counted kept =
          All-with (λ y. is_created y ≡ true → IsIntact root hash d y)
            (λ y. (q y && shares x.timestamp_dir y) ≡ false)
            (λ y. q y ≡ true → (y.timestamp_dir ≢ "") × (y.timestamp_dir ≢ x.timestamp_dir))
            (λ y whole_y clear doomed. (
              (whole_y (stored y doomed)).0,
              λ same. ground (arith, stored y doomed, ==-true y.timestamp_dir x.timestamp_dir same),
            ))
            es whole
            (none-tally (λ y. q y && shares x.timestamp_dir y) es
              (omega (
                arith,
                tally-split (shares x.timestamp_dir) q es,
                apart x.timestamp_dir,
                counted (rw (kept, is, ==-true x.timestamp_dir x.timestamp_dir refl) refl),
              )))

      intact :
          (x : BackupEntry)
          → (is_created x ≡ true → IsIntact root hash d x)
          → ((not (q x) && shares x.timestamp_dir x) ≡ true
              → 0 < tally (λ y. not (q y) && shares x.timestamp_dir y) es)
          → not (q x) ≡ true
          → is_created x ≡ true
          → IsIntact root hash d' x
      intact x whole_x counted kept is =
          IsIntact-Spared root hash d d' x (whole_x is)
            (spared x (whole_x is) (apart_from x is counted kept))
