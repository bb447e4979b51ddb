-- ===== src/Store/Sqlite/Rows.antt =====
-- The rows that `insert_entry` writes to SQLite, read back: ids and times as texts.
use mathlib.Core.Option
use mathlib.Core.Option.{some_inj}
use anki_backup_tool.Base.{
  ℕ, ◌<◌, String, Bool, true, false, Option, none, some, List, [], ◌∷◌, map, ◌≡◌, ◌≢◌, refl, sym,
  ap, ◌∙◌, ◌&&◌, ◌==◌, string_eq, nat_eq, arith, Option-cases, Bool-cases, inl, inr, ltb, leb,
  ==-true, ==-sound, ==-false,
}
use anki_backup_tool.Base.Text.{text_lt}
use anki_backup_tool.Base.TextOrder.{text_lt-asym, text_lt-not-lt, text_lt_irrefl}
use anki_backup_tool.Backup.{Uuid, DateTime, BackupEntry, BackupStats, status_eq, year_10000}
use anki_backup_tool.Libraries.{IsLawful}
use anki_backup_tool.World.{Platform, World, ok, is_some}
use anki_backup_tool.Store.Columns.Laws.{
  status_test, parse_status-status_str, parse_skip_reason-skip_reason_str,
}
use anki_backup_tool.Store.Columns.{parse_status, status_str, parse_skip_reason}
use anki_backup_tool.Store.SqliteRows.{
  Row, SqliteDb, transpose, to_row, parse_uuid, parse_ts, row_to_entry, rows_to_entries,
}
use anki_backup_tool.Store.Contract.{is_created, is_old, latest_first}
use anki_backup_tool.Store.Table.{AllGood, AllGood-head, AllGood-tail, Agrees}
use anki_backup_tool.Store.Sqlite
use anki_backup_tool.Store.Postgres.Rows.{transpose_json}

true≢false : true ≢ false
true≢false = λ e. cc

both : (a b : Bool) → (a && b) ≡ true → (a ≡ true) × (b ≡ true)
both a b h = ground arith

lt_of : (a b : ℕ) → ltb a b ≡ true → a < b
lt_of a b h = ground arith

there : {A : Type 0} → (o : Option A) → is_some o ≡ true → (a : A) × (o ≡ some a)
there none h = absurd cc
there (some a) h = (a, refl)

module _ ⦃P : Platform⦄ where
  -- The time in a column.
  abbrev pub time_of : String → DateTime
  time_of s = Option.get_or (P.parse_from_rfc3339 s) 0

  -- What a row stands for.
  unfoldable pub decode : Row → BackupEntry
  decode r = record {
    id = parse_uuid r.id;
    created_at = time_of r.created_at;
    timestamp_dir = r.timestamp_dir;
    content_hash = r.content_hash;
    status = parse_status r.status;
    skip_reason = Option.map parse_skip_reason r.skip_reason;
    source_revision = r.source_revision;
    sync_duration_ms = r.sync_duration_ms;
    size_bytes = r.size_bytes;
    stats = Option.get_or (transpose P.stats_from_json r.stats_json) none;
  }

  -- The id and the time are spelled as the program spells them, the year has four digits, the status is
  -- one of the two that are written, and the statistics parse.
  unfoldable pub good : Row → Bool
  good r =
      r.id == P.uuid_to_string (parse_uuid r.id)
      && (r.created_at == P.to_rfc3339 (time_of r.created_at)
          && (is_some (P.parse_from_rfc3339 r.created_at)
              && (ltb (time_of r.created_at) year_10000
                  && (r.status == status_str (parse_status r.status)
                      && is_some (transpose P.stats_from_json r.stats_json)))))

  -- What the test says of a row.
  pub record IsGood (r : Row) : Type 0 where
    pub id : r.id ≡ P.uuid_to_string (parse_uuid r.id)
    pub spelled : r.created_at ≡ P.to_rfc3339 (time_of r.created_at)
    pub time : (t : DateTime) × (P.parse_from_rfc3339 r.created_at ≡ some t)
    pub dated : time_of r.created_at < year_10000
    pub stats : (s : Option BackupStats) × (transpose P.stats_from_json r.stats_json ≡ some s)

  pub good-parts : (r : Row) → good r ≡ true → IsGood r
  unfolding good
  good-parts r h =
      let (a, h1) = both _ _ h in
      let (b, h2) = both _ _ h1 in
      let (c, h3) = both _ _ h2 in
      let (d, h4) = both _ _ h3 in
      let (e, f) = both _ _ h4 in
      record {
        id = ==-sound _ _ a;
        spelled = ==-sound _ _ b;
        time = there _ c;
        dated = lt_of _ _ d;
        stats = there _ f;
      }

  pub row_to_entry-good :
      (r : Row) (w : World SqliteDb) → good r ≡ true → row_to_entry r w ≡ (ok (decode r), w)
  unfolding good decode row_to_entry parse_ts
  row_to_entry-good r w h =
      let parts = good-parts r h in
      let (t, timed) = parts.time in
      let (stats, parsed) = parts.stats in rw (parsed, timed, parse_ts) refl

  pub rows_to_entries-good :
      (rows : List Row) (w : World SqliteDb)
      → AllGood decode good rows
      → rows_to_entries rows w ≡ (ok (map decode rows), w)
  unfolding rows_to_entries
  rows_to_entries-good [] w h = refl
  rows_to_entries-good (r ∷ rows) w h =
      rw (row_to_entry-good r w (AllGood-head decode good r rows h))
        (rw (rows_to_entries-good rows w (AllGood-tail decode good r rows h)) refl)

  pub is_created_row-Agrees : Agrees decode good Sqlite.is_created_row is_created
  unfolding good decode
  is_created_row-Agrees r h = ground (arith, status_test r.status)

  module _ (lawful : IsLawful P.lib) where
    -- Texts of times compare as the times.
    text_lt-time :
        (t u : DateTime)
        → t < year_10000
        → u < year_10000
        → text_lt (P.to_rfc3339 t) (P.to_rfc3339 u) ≡ ltb t u
    text_lt-time t u h k = elim (Bool-cases (ltb t u)) [
      | inl e ↦ rw (e, lawful.to_rfc3339_mono t u (ground arith) k) refl
      | inr e ↦ elim (Bool-cases (ltb u t)) [
        | inl e2 ↦
            rw
              (
                e,
                text_lt-not-lt (P.to_rfc3339 u) (P.to_rfc3339 t)
                    (lawful.to_rfc3339_mono u t (ground arith) h),
              )
              refl
        | inr e2 ↦ rw (e) (
            ap (λ v. text_lt (P.to_rfc3339 t) (P.to_rfc3339 v)) (same t u e e2)
            ∙ text_lt_irrefl (P.to_rfc3339 t))
      ]
    ]
      where
        same : (t u : DateTime) → ltb t u ≡ false → ltb u t ≡ false → u ≡ t
        same t u e e2 = ground arith

    pub is_old_row-Agrees :
        (cutoff : DateTime)
        → cutoff < year_10000
        → Agrees decode good (Sqlite.is_old_row (P.to_rfc3339 cutoff)) (is_old cutoff)
    unfolding good decode
    is_old_row-Agrees cutoff c r h =
        let parts = good-parts r h in
        ap (λ b. b && text_lt r.created_at (P.to_rfc3339 cutoff)) (is_created_row-Agrees r h)
        ∙ ap (λ b. is_created (decode r) && b)
            (ap (λ s. text_lt s (P.to_rfc3339 cutoff)) parts.spelled
              ∙ text_lt-time (time_of r.created_at) cutoff parts.dated c)

    pub latest_first-decode :
        (a b : Row)
        → good a ≡ true
        → good b ≡ true
        → Sqlite.latest_first a b ≡ true
        → latest_first (decode a) (decode b) ≡ true
    unfolding decode good
    latest_first-decode a b g h l =
        let pa = good-parts a g in
        let pb = good-parts b h in
        elim (Bool-cases (leb (time_of b.created_at) (time_of a.created_at))) [
          | inl e ↦ e
          | inr e ↦ absurd (
              true≢false (
                sym l
                ∙ text_lt-asym a.created_at b.created_at (
                    ap (λ s. text_lt s b.created_at) pa.spelled
                    ∙ ap (text_lt (P.to_rfc3339 (time_of a.created_at))) pb.spelled
                    ∙ text_lt-time (time_of a.created_at) (time_of b.created_at) pa.dated pb.dated
                    ∙ later (time_of a.created_at) (time_of b.created_at) e)))
        ]
      where
        later : (t u : DateTime) → leb u t ≡ false → ltb t u ≡ true
        later t u e = ground arith

    -- The row of an id.
    pub id-Agrees :
        (id : Uuid) → Agrees decode good (λ r. r.id == P.uuid_to_string id) (λ e. e.id == id)
    unfolding decode good
    id-Agrees id r g =
        let parts = good-parts r g in
        elim (Bool-cases (parse_uuid r.id == id)) [
          | inl e ↦ rw e (
              ==-true r.id (P.uuid_to_string id)
                (parts.id ∙ ap P.uuid_to_string (==-sound (parse_uuid r.id) id e)))
          | inr e ↦ rw e (
              ==-false r.id (P.uuid_to_string id) (λ same. true≢false (
                sym (
                  ==-true (parse_uuid r.id) id (
                    some_inj.0 (
                      sym (lawful.uuid_parse_to_string (parse_uuid r.id))
                      ∙ ap P.uuid_parse_str (sym parts.id ∙ same)
                      ∙ lawful.uuid_parse_to_string id)))
                ∙ e)))
        ]

    pub to_row-decode :
        (e : BackupEntry) (r : Row)
        → e.created_at < year_10000
        → to_row e ≡ some r
        → (good r ≡ true) × (decode r ≡ e)
    unfolding to_row decode good parse_uuid
    to_row-decode e r dated h = elim (Option-cases (transpose P.stats_to_json e.stats)) [
      | inl bad ↦ ground arith
      | inr (j, is) ↦ ground (
        arith,
        transpose_json lawful e.stats j is,
        parse_status-status_str e.status,
        parse_skip_reason-skip_reason_str e.skip_reason,
        lawful.uuid_parse_to_string e.id,
        lawful.parse_to_rfc3339 e.created_at dated,
        ==-true (P.uuid_to_string e.id) (P.uuid_to_string e.id) refl,
        ==-true (P.to_rfc3339 e.created_at) (P.to_rfc3339 e.created_at) refl,
      )
    ]
