-- ===== src/Repository/Live.antt =====
-- Without a fault the operations end well: what each needs of its input, and of the libraries.
use mathlib.Core.Option.{none-ne-some, some_inj}
use anki_backup_tool.Base.{
  ℕ, ◌<◌, String, Option, Option-cases, subst, none, some, true, List, ◌≡◌, ◌≢◌, ◌⊎◌, inl, inr, sym,
  ◌∙◌,
}
use anki_backup_tool.Base.Int.{ℤ}
use anki_backup_tool.Backup.{
  Uuid, DateTime, Bytes, BackupEntry, BackupStats, NewBackupEntry, year_10000, IsCreated,
  new_created, skipped_unchanged,
}
use anki_backup_tool.Libraries.{IsLawful, Collection}
use anki_backup_tool.World.{Platform, World, Error, ok, done}
use anki_backup_tool.World.Laws.{Ends-mono, Ends-total}
use anki_backup_tool.World.Calls.{Fault}
use anki_backup_tool.Stats.{DeckNames}
use anki_backup_tool.Stats.Tables.{
  Asked, Unasked, Modern, Extracted, NotModern, Legacy, NotLegacy, Unextracted, no_cards, no_notes,
  no_revlog, no_names,
}
use anki_backup_tool.Store.Contract.{IsStore, lookup, lookup_event}
use anki_backup_tool.Store.SqliteRows.{transpose}
use anki_backup_tool.Repository.{
  BackupRepository, BackupPayload, RunOnceOutcome, run_once, rollback_to, state_dir, entry_of,
}
use anki_backup_tool.Repository.NewEntry.{EntryRefused, taken, no_stats_json, no_entry_json}
use anki_backup_tool.Repository.NewEntry
use anki_backup_tool.Repository.RunOnce.{run_once_lem}
use anki_backup_tool.Repository.RunOnce.Left.{
  Outcome, RunRefused, broken_off, no_stats, no_entry, no_skip, no_pointer,
}
use anki_backup_tool.Repository.Rollback.{
  RolledBack, RollbackError, unread, missing, skipped, unswapped, unrecorded, rollback_to_lem,
}

-- Every call ends well.
abbrev pub IsCalm : Platform → Type 0
IsCalm P = (n : ℕ) → P.fates n ≡ done

-- Entries and pointers can be written down.
pub record Serialises (P : Platform) : Type 0 where
  pub entry : (e : BackupEntry) → P.entry_to_json e ≢ none
  pub pointer : (id : Uuid) (dir : String) (t : DateTime) → P.pointer_to_json id dir t ≢ none

-- The bytes are a collection with the tables that the statistics are read from.
pub record IsReadable ⦃P : Platform⦄ (bytes : Bytes) : Type 0 where
  pub cards : List ℤ
  pub notes : ℕ
  pub revlog : ℕ
  pub names : DeckNames
  pub cards_asked : Asked (some bytes) (λ c. c.cards) cards
  pub notes_asked : Asked (some bytes) (λ c. c.notes) notes
  pub revlog_asked : Asked (some bytes) (λ c. c.revlog) revlog
  pub named : Modern (some bytes) names ⊎ Legacy (some bytes) names

module _ ⦃P : Platform⦄ (calm : IsCalm P) where
  no_fault : Fault → ⊥
  no_fault (n, broken) = broken (calm n)

  asked :
      {A : Type 0} (file : Option Bytes) (ask : Collection → Option A) (a : A)
      → Asked file ask a
      → Unasked file ask
      → ⊥
  asked file ask a (c, is, found) (inl fault) = no_fault fault
  asked file ask a (c, is, found) (inr (inl closed)) = cc
  asked file ask a (c, is, found) (inr (inr (d, is', gone))) = cc

  named_by :
      (file : Option Bytes) (names : DeckNames)
      → Modern file names ⊎ Legacy file names
      → NotModern file
      → NotLegacy file
      → ⊥
  named_by file names (inl (rows, found, is)) (inl unasked) h = asked file _ rows found unasked
  named_by file names (inl (rows, (c, at, found), is)) (inr (rows', (d, at', found'), bad)) h = cc
  named_by file names (inr (json, found, is)) g (inl unasked) = asked file _ json found unasked
  named_by file names (inr (json, (c, at, found), is)) g (inr (json', x, (d, at', found'), bad)) =
      cc

  readable : (bytes : Bytes) → IsReadable bytes → Unextracted (some bytes) → ⊥
  readable bytes r (no_cards bad) = asked (some bytes) _ r.cards r.cards_asked bad
  readable bytes r (no_notes bad) = asked (some bytes) _ r.notes r.notes_asked bad
  readable bytes r (no_revlog bad) = asked (some bytes) _ r.revlog r.revlog_asked bad
  readable bytes r (no_names bad worse) = named_by (some bytes) r.names r.named bad worse

  module _ (writes : Serialises P) {S : Type 0} (repo : BackupRepository S)
      (Rep : S → List BackupEntry → List (Uuid × Uuid) → Type 0) (stamp : DateTime → DateTime)
      (contract : IsStore repo.store Rep stamp) (es : List BackupEntry) (evs : List (Uuid × Uuid))
      (w : World S) (rep : Rep w.store es evs)
      (ready : w.disk.dirs (state_dir repo.root) ≡ true) where
    stats_written :
        (s : BackupStats) → P.stats_to_json s ≢ none → transpose P.stats_to_json (some s) ≢ none
    stats_written s good h = elim (Option-cases (P.stats_to_json s)) [
      | inl bad ↦ good bad
      | inr (j, is) ↦ cc
    ]

    entry_made :
        (n : NewBackupEntry)
        → ((m : ℕ) → lookup (P.uuids m) es ≡ none)
        → transpose P.stats_to_json n.stats ≢ none
        → EntryRefused repo n es
        → ⊥
    entry_made n free good (NewEntry.broken_off fault) = no_fault fault
    entry_made n free good (taken m same) = same (free m)
    entry_made n free good (no_stats_json bad) = good bad
    entry_made n free good (no_entry_json id bad) = writes.entry (entry_of repo id n) bad

    -- Where every call ends well, the payload is a collection whose tables are read, statistics, entry
    -- and pointer serialise, and no drawn id is taken, run_once does end well, with a backup stored or
    -- a run skipped as above. The state directory is there, the year has four digits, the store keeps
    -- its contract, and the libraries behave as documented.
    pub run_once-succeeds :
        IsLawful P.lib
        → (payload : BackupPayload) (hash : String) → IsReadable payload.bytes
        → ((s : BackupStats) → Extracted (some payload.bytes) s → P.stats_to_json s ≢ none)
        → ((m : ℕ) → lookup (P.uuids m) es ≡ none)
        → P.times w.step < year_10000
        → (o : RunOnceOutcome) × ((run_once repo payload hash w).0 ≡ ok o)
          × Outcome repo Rep stamp payload hash es evs w.disk
              (P.times w.step)
              o
              (run_once repo payload hash w).1
    unfolding new_created skipped_unchanged
    run_once-succeeds lawful payload hash readable_bytes counts free dated = Ends-total (
        Ends-mono
          (run_once_lem repo Rep stamp contract lawful payload hash es evs w rep dated ready)
          (λ o u out. out) (λ x u (kept, files, dirs, why). unrefused why))
      where
        unrefused : RunRefused repo Rep stamp payload hash es evs w.disk (P.times w.step) → ⊥
        unrefused (broken_off fault) = no_fault fault
        unrefused (no_stats bad) = readable payload.bytes readable_bytes bad
        unrefused (no_entry stats counted bad) =
            entry_made _ free (stats_written stats (counts stats counted)) bad
        unrefused (no_skip bad) = entry_made _ free (λ e. cc) bad
        unrefused (no_pointer id t bad) = writes.pointer id _ t bad

    -- Where every call ends well, pointers serialise and no drawn id is taken, a rollback to a created
    -- entry ends well with that entry: the pointer is on it and the event is recorded. The state
    -- directory is there and the store keeps its contract.
    pub rollback_to-succeeds :
        (id : Uuid) (b : BackupEntry)
        → lookup id es ≡ some b
        → IsCreated b
        → ((m : ℕ) → lookup_event (P.uuids m) evs ≡ none)
        → ((rollback_to repo id w).0 ≡ ok b)
          × RolledBack repo Rep id es evs w b (rollback_to repo id w).1
    rollback_to-succeeds id b found is free =
        let (c, ended, rolled) = Ends-total (
          Ends-mono (rollback_to_lem repo Rep contract id es evs w rep ready) (λ c u h. h)
            (λ x u (kept, why). unrefused x u why)) in
        same c ended rolled (some_inj.0 (sym rolled.0 ∙ found))
      where
        same :
            (c : BackupEntry)
            → (rollback_to repo id w).0 ≡ ok c
            → RolledBack repo Rep id es evs w c (rollback_to repo id w).1
            → c ≡ b
            → ((rollback_to repo id w).0 ≡ ok b)
              × RolledBack repo Rep id es evs w b (rollback_to repo id w).1
        same c ended rolled e =
            subst
              (λ x.
                ((rollback_to repo id w).0 ≡ ok x)
                × RolledBack repo Rep id es evs w x (rollback_to repo id w).1)
              e (ended, rolled)

        unrefused : (x : Error) (u : World S) → RollbackError repo Rep id es evs w x u → ⊥
        unrefused x u (unread same fault) = no_fault fault
        unrefused x u (missing gone is' same) = none-ne-some b (sym gone ∙ found)
        unrefused x u (skipped c found' differs is' same) =
            differs (subst IsCreated (some_inj.0 (sym found ∙ found')) is)
        unrefused x u (unswapped c found' kept (inl fault)) = no_fault fault
        unrefused x u (unswapped c found' kept (inr (t, bad))) = writes.pointer c.id _ t bad
        unrefused x u (unrecorded c found' is' points (inl fault)) = no_fault fault
        unrefused x u (unrecorded c found' is' points (inr (n, same))) = same (free n)
