-- ===== src/Server/Pages.antt =====
-- crates/daemon/src/server.rs: the two pages, up to their HTML.
use anki_backup_tool.Base.{String, ◌<>◌, Option, none, some, List, [], map, if◌then◌else◌}
use anki_backup_tool.Base.Int.{ℤ, pos, leb_ℤ}
use anki_backup_tool.Base.Text.{show_ℤ}
use anki_backup_tool.Backup.{
  DateTime, BackupStatus, created, skipped, BackupStats, DeckStats, BackupEntry,
}
use anki_backup_tool.World.{Platform}
use anki_backup_tool.Repository.{list_backups}
use anki_backup_tool.Server.{internal_server_error, AppState}
use anki_backup_tool.Server.Api.{Reader, answer, reader_answered, with_backup}

pub record BackupListItem : Type 0 where
  pub id : String
  pub created_at : String
  pub status : String
  pub total_cards : ℤ
  pub total_decks : ℤ
  pub total_notes : ℤ
  pub size_display : String

pub record BackupDetailView : Type 0 where
  pub id : String
  pub created_at : String
  pub status : String
  pub content_hash : String
  pub size_display : String
  pub deck_stats : List DeckStats

pub record DetailTemplate : Type 0 where
  pub backup : BackupDetailView
  pub csrf_token : String

-- `%Y-%m-%d %H:%M:%S UTC` of a time, and `{:.1}` of a quotient of floats.
pub record Formats : Type 0 where
  pub time : DateTime → String
  pub one_decimal : ℤ → ℤ → String

abbrev pub status_text : BackupStatus → String
status_text created = "created"
status_text skipped = "skipped"

abbrev pub count_or_zero : (BackupStats → ℤ) → Option BackupStats → ℤ
count_or_zero f none = pos 0
count_or_zero f (some s) = f s

abbrev pub decks_or_none : Option BackupStats → List DeckStats
decks_or_none none = []
decks_or_none (some s) = s.deck_stats

abbrev pub text_or_empty : Option String → String
text_or_empty none = ""
text_or_empty (some s) = s

module _ ⦃F : Formats⦄ where
  -- `bytes < n` is that `n <= bytes` does not hold.
  unfoldable pub format_size : ℤ → String
  format_size bytes =
      if leb_ℤ (pos 1024) bytes
      then if leb_ℤ (pos 1048576) bytes
        then F.one_decimal bytes (pos 1048576) <> " MB"
        else F.one_decimal bytes (pos 1024) <> " KB"
      else show_ℤ bytes <> " B"

  module _ ⦃P : Platform⦄ where
    unfoldable pub list_item : BackupEntry → BackupListItem
    list_item b = record {
      id = P.uuid_to_string b.id;
      created_at = F.time b.created_at;
      status = status_text b.status;
      total_cards = count_or_zero (λ s. s.total_cards) b.stats;
      total_decks = count_or_zero (λ s. s.total_decks) b.stats;
      total_notes = count_or_zero (λ s. s.total_notes) b.stats;
      size_display = format_size b.size_bytes;
    }

    unfoldable pub detail_view : BackupEntry → BackupDetailView
    detail_view b = record {
      id = P.uuid_to_string b.id;
      created_at = F.time b.created_at;
      status = status_text b.status;
      content_hash = b.content_hash;
      size_display = format_size b.size_bytes;
      deck_stats = decks_or_none b.stats;
    }

    module _ {S : Type 0} (state : AppState S) where
      open state use {repo, csrf_token}

      unfoldable pub index : Reader S (List BackupListItem)
      index w =
          reader_answered (list_backups repo w) internal_server_error
            (λ backups w. (answer (map list_item backups), w))

      unfoldable pub backup_detail : String → Reader S DetailTemplate
      backup_detail id = with_backup state id (λ b w.
          (answer (record { backup = detail_view b; csrf_token = text_or_empty csrf_token }), w))
