-- ===== src/Backup.antt =====
-- crates/core/src/backup.rs: the entries that the metadata database and the API pass around.
use anki_backup_tool.Base.{ℕ, ◌*◌, String, Option, none, some, List, ◌≡◌, Eq}
use anki_backup_tool.Base.Int.{ℤ, pos}

-- `Uuid` is a 128-bit number.
abbrev pub Uuid : Type 0
Uuid = ℕ

-- `DateTime<Utc>` is the number of nanoseconds since the beginning of the year 0.
abbrev pub DateTime : Type 0
DateTime = ℕ

-- The beginning of the year 10000: 3652425 days of 86400 seconds later.
abbrev pub year_10000 : DateTime
year_10000 = 3652425 * 86400 * 1000000000

abbrev pub Bytes : Type 0
Bytes = List ℕ

pub data BackupStatus : Type 0 where
  created skipped : BackupStatus

pub data BackupSkipReason : Type 0 where
  unchanged : BackupSkipReason

pub record DeckStats : Type 0 where
  pub deck_id : ℤ
  pub deck_name : String
  pub card_count : ℤ

pub record BackupStats : Type 0 where
  pub total_cards : ℤ
  pub total_decks : ℤ
  pub total_notes : ℤ
  pub total_revlog : ℤ
  pub deck_stats : List DeckStats

pub record BackupEntry : Type 0 where
  pub id : Uuid
  pub created_at : DateTime
  pub timestamp_dir : String
  pub content_hash : String
  pub status : BackupStatus
  pub skip_reason : Option BackupSkipReason
  pub source_revision : Option String
  pub sync_duration_ms : Option ℤ
  pub size_bytes : ℤ
  pub stats : Option BackupStats

pub record NewBackupEntry : Type 0 where
  pub created_at : DateTime
  pub timestamp_dir : String
  pub content_hash : String
  pub status : BackupStatus
  pub skip_reason : Option BackupSkipReason
  pub source_revision : Option String
  pub sync_duration_ms : Option ℤ
  pub size_bytes : ℤ
  pub stats : Option BackupStats

-- `NewBackupEntry::created`
unfoldable pub new_created :
    DateTime → String → String → Option String → Option ℤ → ℤ → BackupStats → NewBackupEntry
new_created at dir hash revision duration size stats = record {
  created_at = at;
  timestamp_dir = dir;
  content_hash = hash;
  status = created;
  skip_reason = none;
  source_revision = revision;
  sync_duration_ms = duration;
  size_bytes = size;
  stats = some stats;
}

-- `NewBackupEntry::skipped_unchanged`
unfoldable pub skipped_unchanged : DateTime → String → NewBackupEntry
skipped_unchanged at hash = record {
  created_at = at;
  timestamp_dir = "";
  content_hash = hash;
  status = skipped;
  skip_reason = some unchanged;
  source_revision = none;
  sync_duration_ms = none;
  size_bytes = pos 0;
  stats = none;
}

BackupStatus-dec : Discrete BackupStatus
BackupStatus-dec = hlevel

instance unfoldable pub status_eq : Eq BackupStatus
unfolding BackupStatus-dec
status_eq = record { dec = BackupStatus-dec }

-- Whether an entry is a stored backup.
abbrev pub IsCreated : BackupEntry → Type 0
IsCreated e = e.status ≡ created
