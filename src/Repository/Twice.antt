-- ===== src/Repository/Twice.antt =====
-- `run_once` with the content of the newest backup.
use anki_backup_tool.Base.{
  ◌<◌, ◌≤◌, String, Bool, true, false, Option, none, some, List, [], ◌∷◌, ◌++◌, ◌≡◌, refl, sym, ap,
  arith, ◌&&◌, ◌==◌, string_eq, leb, ltb, tally, tally-append, All, ==-sound, ==-true,
}
use anki_backup_tool.Libraries.{IsLawful}
use anki_backup_tool.World.{Platform, World}
use anki_backup_tool.World.Laws.{Ends, Ends-mono}
use anki_backup_tool.Repository.{
  BackupRepository, BackupPayload, RunOnceOutcome, created, skipped, run_once, state_dir,
  is_unchanged,
}
use anki_backup_tool.Repository.NewEntry.{stamped}
use anki_backup_tool.Repository.RunOnce.{run_once_lem}
use anki_backup_tool.Repository.RunOnce.Left.{Outcome, Failed}
use anki_backup_tool.Backup.{year_10000, Uuid, DateTime, BackupEntry, status_eq}
use anki_backup_tool.Store.Contract.{IsStore, IsLastHash, is_created}

module _ (es : List BackupEntry) (e : BackupEntry) (is : is_created e ≡ true)
    (newest : All (λ x. x.created_at < e.created_at) es) where
  none_late :
      (q : BackupEntry → Bool) (t : DateTime)
      → e.created_at ≤ t
      → tally (λ x. is_created x && (q x && leb t x.created_at)) es ≡ 0
  none_late q t h = late es newest
    where
      late :
          (xs : List BackupEntry)
          → All (λ x. x.created_at < e.created_at) xs
          → tally (λ x. is_created x && (q x && leb t x.created_at)) xs ≡ 0
      late [] a = refl
      late (x ∷ xs) (lt, a) = ground (arith, late xs a)

  late_enough :
      (t : DateTime)
      → tally (λ x. is_created x && ltb t x.created_at) (es ++ e ∷ []) ≡ 0
      → e.created_at ≤ t
  late_enough t h =
      ground
        (arith, tally-append (λ (x : BackupEntry). is_created x && ltb t x.created_at) es (e ∷ []))

  same_hash :
      (hash : String) (t : DateTime)
      → 0
        < tally (λ x. is_created x && (x.content_hash == hash && leb t x.created_at)) (es ++ e ∷ [])
      → e.created_at ≤ t
      → (e.content_hash == hash) ≡ true
  same_hash hash t h late = ground (
    arith,
    tally-append
        (λ (x : BackupEntry). is_created x && (x.content_hash == hash && leb t x.created_at)) es
        (e ∷ []),
    none_late (λ x. x.content_hash == hash) t late,
  )

  -- The hash of the newest created entry is the last one.
  pub IsLastHash-newest :
      (o : Option String) → IsLastHash (es ++ e ∷ []) o → o ≡ some e.content_hash
  IsLastHash-newest none h = absurd (ground (arith, tally-append is_created es (e ∷ [])))
  IsLastHash-newest (some hash) (t, found, none_newer) =
      ap some (sym (==-sound _ _ (same_hash hash t found (late_enough t none_newer))))

-- Where the newest entry is a created one, later than all others, a run with its hash that ends well
-- has skipped: it adds its entry and leaves every file. One that fails leaves the entries, at most
-- with one added, and every file outside the new directory but the temporary one. The state directory
-- is there, the year has four digits, the store keeps its contract, and the libraries behave as
-- documented.
pub run_once-unchanged :
    ⦃P : Platform⦄
    → {S : Type 0} → (repo : BackupRepository S)
    → (Rep : S → List BackupEntry → List (Uuid × Uuid) → Type 0) → (stamp : DateTime → DateTime)
    → IsStore repo.store Rep stamp
    → IsLawful P.lib
    → (payload : BackupPayload) (es : List BackupEntry) (e : BackupEntry) → is_created e ≡ true
    → All (λ x. x.created_at < e.created_at) es
    → (evs : List (Uuid × Uuid)) (w : World S) → Rep w.store (es ++ e ∷ []) evs
    → P.times w.step < year_10000
    → w.disk.dirs (state_dir repo.root) ≡ true
    → Ends
        (run_once repo payload e.content_hash w)
        (λ o u.
          (s : BackupEntry) × (o ≡ skipped s)
          × Rep u.store ((es ++ e ∷ []) ++ stamped stamp s ∷ []) evs
          × (u.disk ≡ w.disk))
        (λ _ u.
          Failed repo Rep stamp payload e.content_hash (es ++ e ∷ []) evs w.disk (P.times w.step) u)
run_once-unchanged ⦃P⦄ {S} repo Rep stamp contract lawful payload es e is newest evs w rep dated
      ready =
    Ends-mono
      (run_once_lem repo Rep stamp contract lawful payload e.content_hash (es ++ e ∷ []) evs w rep
        dated ready)
      skips (λ x u h. h)
  where
    skips :
        (o : RunOnceOutcome) (u : World S)
        → Outcome repo Rep stamp payload e.content_hash
            (es ++ e ∷ [])
            evs
            w.disk
            (P.times w.step)
            o
            u
        → (s : BackupEntry) × (o ≡ skipped s)
          × Rep u.store ((es ++ e ∷ []) ++ stamped stamp s ∷ []) evs
          × (u.disk ≡ w.disk)
    skips (skipped s) u (last, fields, listed, d) = (s, refl, listed, d)
    skips (created b) u h =
        let (o, last, differs) = h.changed in
        absurd (hash_kept (IsLastHash-newest es e is newest o last) differs)
      where
        hash_kept :
            {o : Option String}
            → o ≡ some e.content_hash
            → is_unchanged repo o e.content_hash ≡ false
            → ⊥
        hash_kept same differs = ground (arith, ==-true e.content_hash e.content_hash refl)
