-- ===== src/Store/Postgres/Rows.antt =====
-- The rows that `insert_entry` writes to Postgres, read back.
use mathlib.Core.Option
use anki_backup_tool.Base.{
  String, Bool, true, Option, none, some, List, [], ◌∷◌, map, ◌≡◌, refl, ap, ◌∙◌, ◌&&◌, ◌==◌,
  string_eq, nat_eq, arith, Option-cases, inl, inr, ltb,
}
use anki_backup_tool.Backup.{DateTime, BackupEntry, BackupStats, status_eq}
use anki_backup_tool.Libraries.{IsLawful}
use anki_backup_tool.World.{Platform, is_some}
use anki_backup_tool.Store.Columns.Laws.{
  status_test, parse_status-status_str, parse_skip_reason-skip_reason_str,
}
use anki_backup_tool.Store.Columns.{parse_status, status_str, parse_skip_reason}
use anki_backup_tool.Store.SqliteRows.{transpose}
use anki_backup_tool.Store.Contract.{is_created, is_old}
use anki_backup_tool.Store.Table.{AllGood, Agrees}
use anki_backup_tool.Store.Postgres
use anki_backup_tool.Store.Postgres.{PgRow, to_pg_row, pg_row_to_entry, pg_rows_to_entries}

module _ ⦃P : Platform⦄ where
  -- What a row stands for.
  unfoldable pub decode : PgRow → BackupEntry
  decode r = record {
    id = r.id;
    created_at = r.created_at;
    timestamp_dir = r.timestamp_dir;
    content_hash = r.content_hash;
    status = parse_status r.status;
    skip_reason = Option.map parse_skip_reason r.skip_reason;
    source_revision = r.source_revision;
    sync_duration_ms = r.sync_duration_ms;
    size_bytes = r.size_bytes;
    stats = Option.get_or (transpose P.stats_from_json r.stats_json) none;
  }

  -- The status is one of the two that are written, and the statistics parse.
  unfoldable pub good : PgRow → Bool
  good r =
      r.status == status_str (parse_status r.status)
      && is_some (transpose P.stats_from_json r.stats_json)

  pub pg_row_to_entry-good : (r : PgRow) → good r ≡ true → pg_row_to_entry r ≡ some (decode r)
  unfolding good decode pg_row_to_entry
  pg_row_to_entry-good r h = ground arith

  pub pg_rows_to_entries-good :
      (rows : List PgRow)
      → AllGood decode good rows
      → pg_rows_to_entries rows ≡ some (map decode rows)
  unfolding pg_rows_to_entries Option.bind
  pg_rows_to_entries-good [] h = refl
  pg_rows_to_entries-good (r ∷ rows) h =
      ground (arith, pg_row_to_entry-good r, pg_rows_to_entries-good rows)

  pub is_created_row-Agrees : Agrees decode good Postgres.is_created_row is_created
  unfolding good decode
  is_created_row-Agrees r h = ground (arith, status_test r.status)

  pub is_old_row-Agrees :
      (cutoff : DateTime) → Agrees decode good (Postgres.is_old_row cutoff) (is_old cutoff)
  unfolding good decode
  is_old_row-Agrees cutoff r h = ap (λ b. b && ltb r.created_at cutoff) (is_created_row-Agrees r h)

  module _ (lawful : IsLawful P.lib) where
    pub transpose_json :
        (s : Option BackupStats) (j : Option String)
        → transpose P.stats_to_json s ≡ some j
        → transpose P.stats_from_json j ≡ some s
    transpose_json none j h = ground arith
    transpose_json (some s) j h = elim (Option-cases (P.stats_to_json s)) [
      | inl e ↦ ground arith
      | inr (t, e) ↦ ground (arith, lawful.stats_json s t e)
    ]

    -- A row that is written is good, and stands for its entry.
    pub to_pg_row-decode :
        (e : BackupEntry) (r : PgRow)
        → to_pg_row e ≡ some r
        → (good r ≡ true) × (decode r ≡ record e { created_at = P.timestamptz e.created_at })
    unfolding to_pg_row decode good
    to_pg_row-decode e r h = elim (Option-cases (transpose P.stats_to_json e.stats)) [
      | inl bad ↦ ground arith
      | inr (j, ok) ↦ ground (
        arith,
        transpose_json e.stats j ok,
        parse_status-status_str e.status,
        parse_skip_reason-skip_reason_str e.skip_reason,
      )
    ]

    -- An entry written to a Postgres row and read back is the entry, its time as a TIMESTAMPTZ keeps
    -- it, where its statistics serialise and the libraries behave as documented.
    pub pg_row_to_entry-to_pg_row :
        (e : BackupEntry) (r : PgRow)
        → to_pg_row e ≡ some r
        → pg_row_to_entry r ≡ some (record e { created_at = P.timestamptz e.created_at })
    pg_row_to_entry-to_pg_row e r h =
        let (read, is) = to_pg_row-decode e r h in pg_row_to_entry-good r read ∙ ap some is
