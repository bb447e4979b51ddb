-- ===== src/Store/Columns/Laws.antt =====
-- The texts of the status and skip-reason columns, written and read.
use mathlib.Core.Option
use anki_backup_tool.Base.{
  String, true, Option, none, some, ◌≡◌, ◌≢◌, ◌↔◌, refl, ◌==◌, string_eq, text_ne, arith, ==-sound,
  ==-true, ==-false,
}
use anki_backup_tool.Backup.{BackupStatus, created, skipped, status_eq, BackupSkipReason, unchanged}
use anki_backup_tool.Store.Columns.{
  parse_status, status_str, parse_skip_reason, skip_reason_str, eq_ignore_ascii_case,
}

pub parse_status-status_str : (s : BackupStatus) → parse_status (status_str s) ≡ s
unfolding parse_status status_str
parse_status-status_str created = refl
parse_status-status_str skipped = refl

pub parse_skip_reason-skip_reason_str :
    (r : Option BackupSkipReason) → Option.map parse_skip_reason (Option.map skip_reason_str r) ≡ r
unfolding parse_skip_reason
parse_skip_reason-skip_reason_str none = refl
parse_skip_reason-skip_reason_str (some unchanged) = refl

apart : ◌≢◌ {A = String} "skipped" "created"
apart = text_ne "skipped" "created" refl

status_test_at :
    (s : String) (b : BackupStatus)
    → parse_status s ≡ b
    → s ≡ status_str b
    → (s == "created") ≡ (parse_status s == created)
unfolding status_str
status_test_at s created p e = rw (==-true s "created" e, p, ==-true created created refl)
status_test_at s skipped p e =
    rw (p, e, ==-false {A = String} "skipped" "created" apart, ==-false skipped created (λ q. cc q))

-- A status column that is spelled as the program spells it says `created` exactly if it is read so.
pub status_test :
    (s : String)
    → (s == status_str (parse_status s)) ≡ true
    → (s == "created") ≡ (parse_status s == created)
status_test s h = status_test_at s (parse_status s) refl (==-sound _ _ h)

-- Whatever a column holds in any case, `skipped` is read as skipped, and all else as created.
pub parse_status-cases :
    (s : String) → (parse_status s ≡ skipped) ↔ (eq_ignore_ascii_case s "skipped" ≡ true)
unfolding parse_status
parse_status-cases s = ground arith
