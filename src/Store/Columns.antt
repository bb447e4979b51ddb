-- ===== src/Store/Columns.antt =====
-- How both back ends spell a status and a skip reason in their columns.
pub mod Laws
use Prim.Native.Char.{code}
use Prim.Native.String.{[], ◌∷◌}
use anki_backup_tool.Base.{
  ℕ, ◌+◌, String, Bool, true, false, ◌&&◌, leb, if◌then◌else◌, ◌==◌, nat_eq,
}
use anki_backup_tool.Backup.{BackupStatus, created, skipped, BackupSkipReason, unchanged}

to_ascii_lowercase : ℕ → ℕ
to_ascii_lowercase c = if leb b'A' c && leb c b'Z' then c + 32 else c

-- `str::eq_ignore_ascii_case`
unfoldable pub eq_ignore_ascii_case : String → String → Bool
unfolding to_ascii_lowercase nat_eq
eq_ignore_ascii_case [] [] = true
eq_ignore_ascii_case (a ∷ s) (b ∷ t) =
    to_ascii_lowercase (code a) == to_ascii_lowercase (code b) && eq_ignore_ascii_case s t
eq_ignore_ascii_case _ _ = false

unfoldable pub parse_status : String → BackupStatus
unfolding eq_ignore_ascii_case
parse_status raw = if eq_ignore_ascii_case raw "skipped" then skipped else created

unfoldable pub status_str : BackupStatus → String
status_str created = "created"
status_str skipped = "skipped"

unfoldable pub parse_skip_reason : String → BackupSkipReason
parse_skip_reason raw = unchanged

unfoldable pub skip_reason_str : BackupSkipReason → String
skip_reason_str unchanged = "unchanged"
