-- ===== src/Store/Sqlite/Delete.antt =====
-- The loop of DELETE statements of `prune_created_before`: what has gone after the whole of it, and what
-- is still there where it breaks off.
use anki_backup_tool.Base.{
  ◌≤◌, ◌<◌, Bool, true, false, not, List, [], ◌∷◌, ◌≡◌, refl, ◌&&◌, ◌||◌, ◌==◌, nat_eq, string_eq,
  arith, keep, tally, All, tally-keep-le, tally_none, Bool-cases, inl, inr, ==-true, none,
}
use anki_backup_tool.Base.Counts.{All-with, All-tally, tally-split, All-keep}
use anki_backup_tool.Backup.{Uuid, BackupEntry}
use anki_backup_tool.Store.Contract.{lookup}
use anki_backup_tool.Store.Ids.{UniqueIds}

-- The entries without the one of an id.
abbrev pub without : Uuid → List BackupEntry → List BackupEntry
without id = keep (λ x. not (x.id == id))

abbrev pub has : Uuid → List BackupEntry → Bool
has id [] = false
has id (d ∷ ds) = id == d.id || has id ds

none-lookup :
    (id : Uuid) (xs : List BackupEntry) → lookup id xs ≡ none → tally (λ x. x.id == id) xs ≡ 0
none-lookup id [] h = refl
none-lookup id (x ∷ xs) h = ground (arith, none-lookup id xs)

unique-tally : (id : Uuid) (xs : List BackupEntry) → UniqueIds xs → tally (λ x. x.id == id) xs ≤ 1
unique-tally id [] u = omega arith
unique-tally id (x ∷ xs) (alone, u) =
    ground (arith, unique-tally id xs u, none-lookup x.id xs alone)

has-tally :
    (q : BackupEntry → Bool) (id : Uuid) (xs : List BackupEntry)
    → 0 < tally (λ y. q y && y.id == id) xs
    → has id (keep q xs) ≡ true
has-tally q id [] h = absurd (omega arith)
has-tally q id (x ∷ xs) h = ground (arith, has-tally q id xs)

module _ (old : BackupEntry → Bool) where
  abbrev pub recent : List BackupEntry → List BackupEntry
  recent = keep (λ x. not (old x))

  -- The ids of `ds` belong to old entries only.
  abbrev pub OnlyOld : List BackupEntry → List BackupEntry → Type 0
  OnlyOld ds xs = All (λ d. tally (λ x. not (old x) && x.id == d.id) xs ≡ 0) ds

  -- Every old entry has an id of `ds`.
  abbrev pub Doomed : List BackupEntry → List BackupEntry → Type 0
  Doomed ds xs = tally (λ x. old x && not (has x.id ds)) xs ≡ 0

  pub recent-without :
      (d : BackupEntry) (xs : List BackupEntry)
      → tally (λ x. not (old x) && x.id == d.id) xs ≡ 0
      → recent (without d.id xs) ≡ recent xs
  recent-without d [] h = refl
  recent-without d (x ∷ xs) h = ground (arith, recent-without d xs)

  pub OnlyOld-without :
      (id : Uuid) (ds xs : List BackupEntry) → OnlyOld ds xs → OnlyOld ds (without id xs)
  OnlyOld-without id [] xs h = tt
  OnlyOld-without id (d ∷ ds) xs (h, hs) = (
    omega (arith, tally-keep-le (λ x. not (old x) && x.id == d.id) (λ x. not (x.id == id)) xs, h),
    OnlyOld-without id ds xs hs,
  )

  pub Doomed-without :
      (d : BackupEntry) (ds xs : List BackupEntry)
      → Doomed (d ∷ ds) xs
      → Doomed ds (without d.id xs)
  Doomed-without d ds [] h = refl
  Doomed-without d ds (x ∷ xs) h = ground (arith, Doomed-without d ds xs)

  pub none_left : (xs : List BackupEntry) → Doomed [] xs → recent xs ≡ xs
  none_left [] h = refl
  none_left (x ∷ xs) h = ground (arith, none_left xs)

  -- At the beginning, `ds` is the list of the old entries.
  module _ (es : List BackupEntry) (unique : UniqueIds es) where
    abbrev Counted : BackupEntry → Type 0
    Counted d = (old d && d.id == d.id) ≡ true → 0 < tally (λ y. old y && y.id == d.id) es

    pub OnlyOld-start : OnlyOld (keep old es) es
    OnlyOld-start =
        All-keep (λ d. tally (λ x. not (old x) && x.id == d.id) es ≡ 0) old es
          (All-with Counted Counted
            (λ d. old d ≡ true → tally (λ x. not (old x) && x.id == d.id) es ≡ 0)
            (λ d counted again is. omega (
              arith,
              tally-split (λ x. x.id == d.id) old es,
              unique-tally d.id es unique,
              counted (rw (is, ==-true d.id d.id refl) refl),
            ))
            es (All-tally (λ d y. old y && y.id == d.id) es)
            (All-tally (λ d y. old y && y.id == d.id) es))

    pub Doomed-start : Doomed (keep old es) es
    Doomed-start =
        tally_none (λ x. old x && not (has x.id (keep old es))) es
          (All-with Counted Counted (λ x. (old x && not (has x.id (keep old es))) ≡ false)
            (λ x counted again. elim (Bool-cases (old x)) [
              | inl is ↦
                  rw (is, has-tally old x.id es (counted (rw (is, ==-true x.id x.id refl) refl)))
                    refl
              | inr recent_one ↦ rw recent_one refl
            ])
            es (All-tally (λ d y. old y && y.id == d.id) es)
            (All-tally (λ d y. old y && y.id == d.id) es))
