-- ===== src/Repository/Reach.antt =====
-- The repository over time: from any state in which every stored backup can be restored, no sequence
-- of its operations, however their calls end, leads to one in which some backup cannot.
use anki_backup_tool.Base.{
  ℕ, ◌<◌, String, Bool, true, false, Option, none, some, List, [], ◌∷◌, find, All, ◌≡◌, ◌⊎◌, inl,
  inr, refl, ◌∙◌, subst, ==-sound, ==-true, string_eq, if◌then◌else◌, ◌==◌, nat_eq,
}
use mathlib.Core.Option.{none-ne-some, some_inj}
use anki_backup_tool.Base.Int.{ℤ}
use anki_backup_tool.Backup.{
  Uuid, DateTime, Bytes, BackupEntry, year_10000, status_eq, BackupStatus,
}
use anki_backup_tool.Libraries.{IsLawful}
use anki_backup_tool.World.{Platform, World, ok}
use anki_backup_tool.World.Laws.{Ends, Ends-mono}
use anki_backup_tool.World.Reads.{Untouched}
use anki_backup_tool.Store.Contract.{IsStore, is_created}
use anki_backup_tool.Repository.{
  BackupRepository, BackupPayload, RunOnceOutcome, run_once, rollback_to,
  prune_created_older_than_days, format_timestamp_dir, backup_dir, backup_file_path,
}
use anki_backup_tool.Repository.Paths.{payload≢pointer, payload≢tmp}
use anki_backup_tool.Repository.Rollback.{Unrolled, rollback_to_lem}
use anki_backup_tool.Repository.Intact.{IsIntact, is_held}
use anki_backup_tool.Repository.Safe.{IsSafe, run-IsSafe, skip-IsSafe, rollback-IsSafe}
use anki_backup_tool.Repository.Safe.Pruned.{prune-IsSafe}

module _ ⦃P : Platform⦄ {S : Type 0} (repo : BackupRepository S) (hash : Bytes → String) where
  -- A run comes in a second of which there is no directory yet, or it skips.
  abbrev pub IsTimely : BackupPayload → World S → Type 0
  IsTimely payload w =
      (w.disk.dirs (backup_dir repo.root (format_timestamp_dir (P.times w.step))) ≡ false)
      ⊎ ((e : BackupEntry) × ((run_once repo payload (hash payload.bytes) w).0
            ≡ ok (RunOnceOutcome.skipped e)))

  -- One operation: a run with the hash of its payload, in a second of which there is no directory
  -- yet or with a skip, a rollback, a pruning, or a call that touches neither the disk nor the
  -- database.
  pub data Step : World S → World S → Type 0 where
    run :
        (payload : BackupPayload) (w : World S)
        → IsTimely payload w
        → Step w (run_once repo payload (hash payload.bytes) w).1
    rollback : (id : Uuid) (w : World S) → Step w (rollback_to repo id w).1
    prune : (days : ℤ) (w : World S) → Step w (prune_created_older_than_days repo days w).1
    read : (w u : World S) → Untouched w u → Step w u

  pub data Reach (s : World S) : World S → Type 0 where
    here : Reach s s
    next : {t u : World S} → Reach s t → Step t u → Reach s u

  -- The payload of the backup is there, with its hash.
  abbrev pub IsRestorable : BackupEntry → World S → Type 0
  IsRestorable b v =
      (bytes : Bytes) × (v.disk.files (backup_file_path repo b) ≡ some bytes)
      × (hash bytes ≡ b.content_hash)

find-All :
    {A : Type 0} (P : A → Type 0) (p : A → Bool) (xs : List A) (a : A)
    → All P xs
    → find p xs ≡ some a
    → P a
find-All P p [] a h e = absurd (none-ne-some a e)
find-All P p (x ∷ xs) a (h, hs) e = found (p x) e (find-All P p xs a hs)
  where
    found :
        (b : Bool) → (if b then some x else find p xs) ≡ some a → (find p xs ≡ some a → P a) → P a
    found true e later = subst P (some_inj.0 e) h
    found false e later = later e

module _ ⦃P : Platform⦄ {S : Type 0} (repo : BackupRepository S) (hash : Bytes → String)
    (Rep : S → List BackupEntry → List (Uuid × Uuid) → Type 0) {stamp : DateTime → DateTime}
    (contract : IsStore repo.store Rep stamp) (lawful : IsLawful P.lib)
    (dated : (n : ℕ) → P.times n < year_10000) where
  step-IsSafe :
      {w u : World S} → Step repo hash w u → IsSafe repo hash Rep w → IsSafe repo hash Rep u
  step-IsSafe (run payload w (inl new)) safe =
      run-IsSafe repo hash Rep contract lawful dated payload w new safe
  step-IsSafe (run payload w (inr (e, skipped))) safe =
      skip-IsSafe repo hash Rep contract lawful dated payload w e skipped safe
  step-IsSafe (rollback id w) safe = rollback-IsSafe repo hash Rep contract lawful dated id w safe
  step-IsSafe (prune days w) safe = prune-IsSafe repo hash Rep contract dated days w safe
  step-IsSafe (read w u (disk, store)) safe = record {
    ready = rw disk safe.ready;
    entries = safe.entries;
    events = safe.events;
    listed = rw store safe.listed;
    intact = rw disk safe.intact;
  }

  -- From a state in which the state directory is there and each stored backup of the database has its
  -- own directory with a payload of its hash in it, every sequence of runs, rollbacks and prunings,
  -- however their calls end, leads to such a state again. Each run comes in a second of which there is
  -- no directory yet, or skips; the clock stays before the year 10000, the store keeps its contract,
  -- and the libraries behave as documented.
  pub Reach-IsSafe :
      (w u : World S) → IsSafe repo hash Rep w → Reach repo hash w u → IsSafe repo hash Rep u
  Reach-IsSafe w u safe here = safe
  Reach-IsSafe w u safe (next {t = t} r s) = step-IsSafe s (Reach-IsSafe w t safe r)

  held_bytes :
      (o : Option Bytes) (h : String)
      → is_held (repo.root) hash o h ≡ true
      → (bytes : Bytes) × (o ≡ some bytes) × (hash bytes ≡ h)
  held_bytes none h e = absurd cc
  held_bytes (some bytes) h e = (bytes, refl, ==-sound _ _ e)

  -- After any sequence of operations from a state in which every stored backup has its payload, a
  -- rollback that ends well is to a backup whose payload file is there, with its hash; one that fails
  -- leaves the entries and the events as they were. The conditions are those of the sequences: each
  -- run in a second of which there is no directory yet, or with a skip, the clock before the year
  -- 10000, a store that keeps its contract, and libraries that behave as documented.
  pub rollback_to-IsRestorable :
      (w u : World S) (id : Uuid)
      → IsSafe repo hash Rep w
      → Reach repo hash w u
      → Ends
          (rollback_to repo id u)
          (λ b v. IsRestorable repo hash b v)
          (λ x v.
            (es : List BackupEntry) × (evs : List (Uuid × Uuid)) × Rep u.store es evs
            × Unrolled repo Rep id es evs u x v)
  unfolding backup_file_path
  rollback_to-IsRestorable w u id start reached =
      let safe = Reach-IsSafe w u start reached in
      Ends-mono
        (rollback_to_lem repo Rep contract id safe.entries safe.events u safe.listed safe.ready)
        (λ b v (found, is, (pointer, gone, files, dirs), n, listed).
          let (named, there, held) =
            find-All (λ e. is_created e ≡ true → IsIntact repo.root hash u.disk e) (λ e. e.id == id)
              safe.entries b safe.intact.0 found (==-true b.status BackupStatus.created is) in
          let (bytes, at, same) = held_bytes _ b.content_hash held in
          (
            bytes,
            files _ (payload≢pointer repo.root b.timestamp_dir named)
                  (payload≢tmp repo.root b.timestamp_dir named)
                ∙ at,
            same,
          ))
        (λ x v failed. (safe.entries, safe.events, safe.listed, failed))
