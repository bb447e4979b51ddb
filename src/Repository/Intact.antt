-- ===== src/Repository/Intact.antt =====
-- When the stored backups of a database can be restored: each has its directory, with a payload of its
-- hash in it, and no two share one.
pub mod Kept
use anki_backup_tool.Base.{
  ℕ, ◌+◌, ◌≤◌, String, Bool, true, false, not, ◌&&◌, Option, none, some, List, [], ◌∷◌, ◌++◌, map,
  ◌≡◌, ◌≢◌, ◌⊎◌, inl, inr, refl, sym, ap, ◌∙◌, arith, tally, keep, All, tally-append, tally_none,
  ◌==◌, string_eq, ==-true, ==-false, ==-sound, Bool-cases, if◌then◌else◌, subst,
}
use anki_backup_tool.Backup.{Bytes, BackupEntry, IsCreated, created, status_eq}
use anki_backup_tool.World.{FilePath, Disk, is_above}
use anki_backup_tool.Store.Contract.{is_created}
use anki_backup_tool.Repository.{backup_dir, payload_path}

-- A stored backup in the directory.
abbrev pub shares : String → BackupEntry → Bool
shares dir e = is_created e && e.timestamp_dir == dir

true≢false : true ≢ false
true≢false = λ e. cc

pub both : (a b : Bool) → (a && b) ≡ true → (a ≡ true) × (b ≡ true)
both a b h = ground arith

All-snoc :
    (P : BackupEntry → Type 0) (es : List BackupEntry) (e : BackupEntry)
    → All P es
    → P e
    → All P (es ++ e ∷ [])
All-snoc P [] e h k = (k, tt)
All-snoc P (x ∷ es) e (h, hs) k = (h, All-snoc P es e hs k)

module _ (root : FilePath) (hash : Bytes → String) where
  abbrev pub is_held : Option Bytes → String → Bool
  is_held none h = false
  is_held (some bytes) h = hash bytes == h

  -- The directory of an entry is there, with a payload of its hash.
  abbrev pub IsIntact : Disk → BackupEntry → Type 0
  IsIntact d e =
      (e.timestamp_dir ≢ "")
      × (d.dirs (backup_dir root e.timestamp_dir) ≡ true)
      × (is_held (d.files (payload_path root e.timestamp_dir)) e.content_hash ≡ true)

  -- Every stored backup is intact, and no two are in one directory.
  abbrev pub AllIntact : Disk → List BackupEntry → Type 0
  AllIntact d es =
      All (λ e. is_created e ≡ true → IsIntact d e) es
      × ((dir : String) → tally (shares dir) es ≤ 1)

  -- What an entry needs of a change of the disk.
  abbrev pub Spared : Disk → Disk → BackupEntry → Type 0
  Spared d d' e =
      (d'.dirs (backup_dir root e.timestamp_dir) ≡ true)
      × (d'.files (payload_path root e.timestamp_dir) ≡ d.files (payload_path root e.timestamp_dir))

  pub IsIntact-Spared :
      (d d' : Disk) (e : BackupEntry) → IsIntact d e → Spared d d' e → IsIntact d' e
  IsIntact-Spared d d' e (named, there, held) (there', same) = (named, there', rw same held)

  pub AllIntact-Spared :
      (d d' : Disk) (es : List BackupEntry)
      → ((e : BackupEntry) → IsIntact d e → Spared d d' e)
      → AllIntact d es
      → AllIntact d' es
  AllIntact-Spared d d' es f (whole, apart) = (each es whole, apart)
    where
      each :
          (xs : List BackupEntry)
          → All (λ e. is_created e ≡ true → IsIntact d e) xs
          → All (λ e. is_created e ≡ true → IsIntact d' e) xs
      each [] h = tt
      each (x ∷ xs) (h, hs) = (λ is. IsIntact-Spared d d' x (h is) (f x (h is)), each xs hs)

  -- No stored backup is in a directory that is not there.
  none_in :
      (d : Disk) (dir : String) (es : List BackupEntry)
      → d.dirs (backup_dir root dir) ≡ false
      → All (λ e. is_created e ≡ true → IsIntact d e) es
      → tally (shares dir) es ≡ 0
  none_in d dir es gone h = tally_none (shares dir) es (each es h)
    where
      each :
          (xs : List BackupEntry)
          → All (λ e. is_created e ≡ true → IsIntact d e) xs
          → All (λ e. shares dir e ≡ false) xs
      each [] h = tt
      each (x ∷ xs) (h, hs) = (differs, each xs hs)
        where
          differs : shares dir x ≡ false
          differs = elim (Bool-cases (shares dir x)) [
            | inr e ↦ e
            | inl e ↦ absurd (
                let (is, same) = both _ _ e in
                true≢false (
                  sym (let (named, there, held) = h is in there)
                  ∙ ap (λ t. d.dirs (backup_dir root t)) (==-sound x.timestamp_dir dir same)
                  ∙ gone))
          ]

  -- One more entry, which is no stored backup.
  pub AllIntact-skip :
      (d : Disk) (es : List BackupEntry) (e : BackupEntry)
      → AllIntact d es
      → is_created e ≡ false
      → AllIntact d (es ++ e ∷ [])
  AllIntact-skip d es e (whole, apart) not_created = (
    All-snoc _ es e whole (λ is. absurd (true≢false (sym is ∙ not_created))),
    λ t. omega (arith, tally-append (shares t) es (e ∷ []), apart t, other t),
  )
    where
      other : (t : String) → tally (shares t) (e ∷ []) ≡ 0
      other t = ground (arith, not_created)

  -- One more entry, which is no stored backup or is one in a directory that was not there.
  pub AllIntact-snoc :
      (d d' : Disk) (dir : String) (es : List BackupEntry) (e : BackupEntry)
      → AllIntact d es
      → d.dirs (backup_dir root dir) ≡ false
      → ((x : BackupEntry) → IsIntact d x → Spared d d' x)
      → (is_created e ≡ true → (e.timestamp_dir ≡ dir) × IsIntact d' e)
      → AllIntact d' (es ++ e ∷ [])
  AllIntact-snoc d d' dir es e (whole, apart) gone spared new = (
    All-snoc _ es e (AllIntact-Spared d d' es spared (whole, apart)).0 (λ is. (new is).1),
    λ t. few t (Bool-cases (shares t e)),
  )
    where
      count :
          (t : String) (n : ℕ)
          → tally (shares t) es ≤ n
          → (if shares t e then 1 else 0) + n ≤ 1
          → tally (shares t) (es ++ e ∷ []) ≤ 1
      count t n h k = omega (arith, tally-append (shares t) es (e ∷ []))

      few :
          (t : String)
          → (shares t e ≡ true) ⊎ (shares t e ≡ false)
          → tally (shares t) (es ++ e ∷ []) ≤ 1
      few t (inr other) = count t 1 (apart t) (rw other (omega arith))
      few t (inl it) =
          let (is, same) = both _ _ it in
          let at = sym (==-sound e.timestamp_dir t same) ∙ (new is).0 in
          count t 0 (rw (none_in d t es (rw at gone) whole) (omega arith)) (rw it (omega arith))
