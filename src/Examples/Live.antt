-- ===== src/Examples/Live.antt =====
-- A machine without a fault, on which the collection file is read and everything serialises.
use mathlib.Core.Option.{none-ne-some, some_inj}
use anki_backup_tool.World.Calls.{Fault}
use anki_backup_tool.World.Directories.{is_above_refl}
use anki_backup_tool.Base.{
  ◌≤◌, leb, length, map, ◌*◌, String, true, Option, none, some, List, [], ◌∷◌, ◌≡◌, ◌≢◌, refl, sym,
  ap, ◌∙◌, arith, tally, ◌==◌, ==-sound, ==-true, if◌then◌else◌, Bool-cases, inl, inr, string_eq,
  nat_eq,
}
use anki_backup_tool.Base.Int.{ℤ, ℤ_eq, pos, as_i64}
use anki_backup_tool.Backup.{BackupStats, BackupEntry, IsCreated}
use anki_backup_tool.Libraries.{Collection, Libraries, IsLawful}
use anki_backup_tool.World.{Platform, World, ok, is_above}
use anki_backup_tool.Store.Contract.{lookup}
use anki_backup_tool.Store.Columns.{parse_status, eq_ignore_ascii_case}
use anki_backup_tool.Store.Postgres.Rows.{decode}
use anki_backup_tool.Repository.Rollback.{RolledBack}
use anki_backup_tool.Stats.{DeckNames, deck_names_from}
use anki_backup_tool.Stats.Groups.{times, described}
use anki_backup_tool.Stats.Tables.{Extracted, Asked, Named}
use anki_backup_tool.Store.Postgres.{PgDb, postgres_store}
use anki_backup_tool.Store.Postgres.Rep.{PgRep}
use anki_backup_tool.Store.Postgres.Contract.{postgres_store-IsStore}
use anki_backup_tool.Repository.{
  BackupRepository, BackupPayload, RunOnceOutcome, run_once, rollback_to, state_dir,
}
use anki_backup_tool.Repository.RunOnce.Left.{Outcome}
use anki_backup_tool.Repository.Live.{
  IsReadable, Serialises, run_once-succeeds, rollback_to-succeeds,
}
use anki_backup_tool.Examples.Machine.{
  machine, start, start-ready, entries, database-PgRep, first_row, libraries, libraries-IsLawful,
  newest_first, newest_first-IsOrdering, repository, stats_eq,
}

abbrev pub no_cards : BackupStats
no_cards = record {
  total_cards = pos 0;
  total_decks = pos 0;
  total_notes = pos 0;
  total_revlog = pos 0;
  deck_stats = [];
}

abbrev stats_text : BackupStats → Option String
stats_text s = if s == no_cards then some "none" else none

abbrev pub blank : Collection
blank = record {
  cards = some [];
  notes = some 0;
  revlog = some 0;
  decks = some [];
  col_decks = none;
}

abbrev pub plain : Libraries
plain = record libraries {
  open_collection = λ bytes. some blank;
  stats_to_json = stats_text;
  stats_from_json = λ s. some no_cards;
}

stats_text_sound : (s : BackupStats) (j : String) → stats_text s ≡ some j → some no_cards ≡ some s
stats_text_sound s j h = elim (Bool-cases (s == no_cards)) [
  | inl e ↦ ap some (sym (==-sound s no_cards e))
  | inr e ↦ ground arith
]

pub plain-IsLawful : IsLawful plain
plain-IsLawful = record {
  uuid_parse_to_string = libraries-IsLawful.uuid_parse_to_string;
  parse_to_rfc3339 = libraries-IsLawful.parse_to_rfc3339;
  to_rfc3339_mono = libraries-IsLawful.to_rfc3339_mono;
  to_rfc3339_secs-nonempty = libraries-IsLawful.to_rfc3339_secs-nonempty;
  timestamptz_mono = libraries-IsLawful.timestamptz_mono;
  timestamptz-le = libraries-IsLawful.timestamptz-le;
  stats_json = stats_text_sound;
  group_order-SameItems = libraries-IsLawful.group_order-SameItems;
}

abbrev pub calm_machine : Platform
calm_machine = record {
  lib = plain;
  fates = machine.fates;
  times = machine.times;
  uuids = machine.uuids;
}

abbrev pub calm_repository : BackupRepository PgDb
calm_repository = record {
  root = repository.root;
  store = postgres_store ⦃P = calm_machine⦄ newest_first;
}

abbrev pub payload : BackupPayload
payload = record { bytes = 1 ∷ 2 ∷ []; source_revision = none; sync_duration_ms = none }

pub payload-IsReadable : IsReadable ⦃P = calm_machine⦄ payload.bytes
unfolding deck_names_from
payload-IsReadable = record {
  cards = [];
  notes = 0;
  revlog = 0;
  names = [];
  cards_asked = (blank, refl, refl);
  notes_asked = (blank, refl, refl);
  revlog_asked = (blank, refl, refl);
  named = inl ([], (blank, refl, refl), refl);
}

pub calm-Serialises : Serialises calm_machine
calm-Serialises = record { entry = λ e h. cc; pointer = λ id dir t h. cc }

nothing_in : {A : Type 0} → (xs : List A) → tally (λ _. true) xs ≡ 0 → xs ≡ []
nothing_in [] h = refl
nothing_in (x ∷ xs) h = absurd (omega arith)

answer_of :
    {A : Type 0} (ask : Collection → Option A) (a b : A)
    → Asked ⦃P = calm_machine⦄ (some payload.bytes) ask a
    → ask blank ≡ some b
    → a ≡ b
answer_of ask a b (c, is, found) known = cc

no_fault : Fault ⦃P = calm_machine⦄ → ⊥
no_fault (n, broken) = broken refl

names_of : (names : DeckNames) → Named ⦃P = calm_machine⦄ (some payload.bytes) names → names ≡ []
unfolding deck_names_from
names_of names (inl (rows, asked, is)) =
    let e : rows ≡ [] = answer_of (λ c. c.decks) rows [] asked refl in
    some_inj.0 (sym is ∙ ap (λ r. deck_names_from [] r) e)
names_of names (inr (inl (inl fault), legacy)) = absurd (no_fault fault)
names_of names (inr (inl (inr (inl closed)), legacy)) = cc
names_of names (inr (inl (inr (inr (c, is, gone))), legacy)) = cc
names_of names (inr (inr (rows, asked, bad), legacy)) =
    let e : rows ≡ [] = answer_of (λ c. c.decks) rows [] asked refl in
    absurd (none-ne-some [] (sym bad ∙ ap (λ r. deck_names_from [] r) e))

none_twice : (ids : List ℤ) → ((k : ℤ) → times k ids ≡ 0) → ids ≡ []
none_twice [] h = refl
none_twice (k ∷ ids) h = absurd (omega (arith, h k, stands k ids))
  where
    stands : (k : ℤ) (ids : List ℤ) → 1 ≤ times k (k ∷ ids)
    stands k ids = ground (arith, ==-true k k refl)

counted : (s : BackupStats) → Extracted ⦃P = calm_machine⦄ (some payload.bytes) s → s ≡ no_cards
unfolding as_i64
counted s x =
    let cards : x.cards ≡ [] = answer_of (λ c. c.cards) x.cards [] x.cards_asked refl in
    let notes : x.notes ≡ 0 = answer_of (λ c. c.notes) x.notes 0 x.notes_asked refl in
    let revlog : x.revlog ≡ 0 = answer_of (λ c. c.revlog) x.revlog 0 x.revlog_asked refl in
    let names : x.names ≡ [] = names_of x.names x.named in
    let p : s.total_cards ≡ pos 0 = x.total_cards ∙ ap (λ c. as_i64 (length c)) cards in
    let q : s.total_decks ≡ pos 0 = x.total_decks ∙ ap (λ c. as_i64 (length c)) names in
    let r : s.total_notes ≡ pos 0 = x.total_notes ∙ ap as_i64 notes in
    let t : s.total_revlog ≡ pos 0 = x.total_revlog ∙ ap as_i64 revlog in
    let ids : x.ids ≡ [] =
      none_twice x.ids (λ k. x.each_once k ∙ ap (λ c. if leb 1 (times k c) then 1 else 0) cards) in
    let u : s.deck_stats ≡ [] = nothing_in s.deck_stats (
      x.decks (λ d. true)
      ∙ ap (λ c. tally (λ d. true) (map (described x.names (λ k. times k x.cards)) c)) ids) in
    λ i. record {
      total_cards = p i;
      total_decks = q i;
      total_notes = r i;
      total_revlog = t i;
      deck_stats = u i;
    }

pub counts-written :
    (s : BackupStats) → Extracted ⦃P = calm_machine⦄ (some payload.bytes) s → stats_text s ≢ none
counts-written s x h = absurd (same (==-true s no_cards (counted s x)))
  where
    same : (s == no_cards) ≡ true → ⊥
    same e = cc

abbrev pub empty : World PgDb
empty = record {
  disk = record { files = λ q. none; dirs = λ q. is_above q (state_dir calm_repository.root) };
  store = record { backups = []; rollback_events = [] };
  step = 0;
}

pub empty-ready : empty.disk.dirs (state_dir calm_repository.root) ≡ true
empty-ready = is_above_refl (state_dir calm_repository.root)

pub empty-PgRep : PgRep ⦃P = calm_machine⦄ empty.store [] []
empty-PgRep = record { all_good = refl; entries = refl; unique = tt; events = refl }

pub payload_backed :
    (o : RunOnceOutcome) × ((run_once ⦃P = calm_machine⦄ calm_repository payload "h1" empty).0
      ≡ ok o)
    × Outcome ⦃P = calm_machine⦄ calm_repository
        (PgRep ⦃P = calm_machine⦄)
        plain.timestamptz
        payload
        "h1"
        []
        []
        empty.disk
        (200 * 86400 * 1000000000)
        o
        (run_once ⦃P = calm_machine⦄ calm_repository payload "h1" empty).1
payload_backed =
    run_once-succeeds ⦃P = calm_machine⦄ (λ n. refl) calm-Serialises calm_repository
      (PgRep ⦃P = calm_machine⦄) plain.timestamptz
      (postgres_store-IsStore ⦃P = calm_machine⦄ newest_first newest_first-IsOrdering
        plain-IsLawful)
      [] [] empty empty-PgRep empty-ready plain-IsLawful payload "h1" payload-IsReadable
      counts-written (λ m. refl) (omega arith)

run_once-succeeds_example :
    (o : RunOnceOutcome) × ((run_once ⦃P = calm_machine⦄ calm_repository payload "h1" empty).0
      ≡ ok o)
    × Outcome ⦃P = calm_machine⦄ calm_repository
        (PgRep ⦃P = calm_machine⦄)
        plain.timestamptz
        payload
        "h1"
        []
        []
        empty.disk
        (200 * 86400 * 1000000000)
        o
        (run_once ⦃P = calm_machine⦄ calm_repository payload "h1" empty).1
run_once-succeeds_example =
    run_once-succeeds ⦃P = calm_machine⦄ (λ n. refl) calm-Serialises calm_repository
      (PgRep ⦃P = calm_machine⦄) plain.timestamptz
      (postgres_store-IsStore ⦃P = calm_machine⦄ newest_first newest_first-IsOrdering
        plain-IsLawful)
      [] [] empty empty-PgRep empty-ready plain-IsLawful payload "h1" payload-IsReadable
      counts-written (λ m. refl) (omega arith)

machine-Serialises : Serialises machine
machine-Serialises = record { entry = λ e h. cc; pointer = λ id dir t h. cc }

abbrev first_backup : BackupEntry
first_backup = decode ⦃P = machine⦄ first_row

first_backup-found : lookup 7 entries ≡ some first_backup
unfolding nat_eq decode
first_backup-found = refl

first_backup-IsCreated : IsCreated first_backup
unfolding decode parse_status eq_ignore_ascii_case
first_backup-IsCreated = refl

rollback_to-succeeds_example :
    ((rollback_to ⦃P = machine⦄ repository 7 start).0 ≡ ok first_backup)
    × RolledBack ⦃P = machine⦄ repository
        (PgRep ⦃P = machine⦄)
        7
        entries
        []
        start
        first_backup
        (rollback_to ⦃P = machine⦄ repository 7 start).1
rollback_to-succeeds_example =
    rollback_to-succeeds ⦃P = machine⦄ (λ n. refl) machine-Serialises repository
      (PgRep ⦃P = machine⦄) libraries.timestamptz
      (postgres_store-IsStore ⦃P = machine⦄ newest_first newest_first-IsOrdering libraries-IsLawful)
      entries [] start database-PgRep start-ready 7 first_backup first_backup-found
      first_backup-IsCreated (λ m. refl)
