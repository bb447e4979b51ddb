-- ===== src/Server/Api.antt =====
-- crates/daemon/src/server.rs: the handlers of the API that only read. `tar` and `zstd` are parameters.
use anki_backup_tool.Base.{String, ◌<>◌, Option, none, some, List, map, if◌then◌else◌, ◌==◌}
use anki_backup_tool.Base.Int.{ℤ}
use anki_backup_tool.Backup.{
  Uuid, DateTime, Bytes, BackupStatus, created, skipped, BackupStats, BackupEntry, status_eq,
}
use anki_backup_tool.World.{Platform, World, Result, ok, err, read}
use anki_backup_tool.Repository.{list_backups, get_backup, backup_file_path}
use anki_backup_tool.Server.{
  StatusCode, bad_request, not_found, internal_server_error, HeaderMap, AppState, require_api_auth,
}

-- What a handler answers with: a body, or an error's status.
pub data Response (A : Type 0) : Type 0 where
  answer : A → Response A
  refused : StatusCode → Response A

-- A handler that leaves the gate alone.
abbrev pub Reader : Type 0 → Type 0 → Type 0
Reader S A = World S → Response A × World S

-- One element of the list of backups.
pub record BackupSummary : Type 0 where
  pub id : Uuid
  pub created_at : DateTime
  pub status : String
  pub size_bytes : ℤ
  pub stats : Option BackupStats

-- `format!("{:?}", b.status)`
debug_status : BackupStatus → String
debug_status created = "Created"
debug_status skipped = "Skipped"

unfoldable pub summary : BackupEntry → BackupSummary
unfolding debug_status
summary b = record {
  id = b.id;
  created_at = b.created_at;
  status = debug_status b.status;
  size_bytes = b.size_bytes;
  stats = b.stats;
}

-- The body and the two headers of a download.
pub record Download : Type 0 where
  pub body : Bytes
  pub content_type : String
  pub content_disposition : String

-- A tar archive of one file of this name and content, and its compression.
pub record Archiver : Type 0 where
  pub tar_of : String → Bytes → Option Bytes
  pub zstd_encode_all : Bytes → Option Bytes

-- `healthz`
abbrev pub healthz : String
healthz = "ok"

module _ {S A : Type 0} where
  -- A guard before the rest of a handler.
  abbrev pub reader_guarded : Option StatusCode → Reader S A → Reader S A
  reader_guarded none k w = k w
  reader_guarded (some code) k w = (refused code, w)

  -- `ok_or` of an option, and the rest.
  abbrev pub or_status : {B : Type 0} → Option B → StatusCode → (B → Reader S A) → Reader S A
  or_status none code k w = (refused code, w)
  or_status (some b) code k w = k b w

  -- `map_err` on a call, and the rest.
  unfoldable pub reader_answered :
      {B : Type 0} → Result B × World S → StatusCode → (B → Reader S A) → Response A × World S
  reader_answered (ok b, w) code k = k b w
  reader_answered (err e, w) code k = (refused code, w)

module _ ⦃P : Platform⦄ {S : Type 0} (state : AppState S) where
  open state use {repo, api_token}

  unfoldable pub api_list_backups : HeaderMap → Reader S (List BackupSummary)
  api_list_backups headers = reader_guarded (require_api_auth api_token headers) (λ w.
      reader_answered (list_backups repo w) internal_server_error
        (λ rows w. (answer (map summary rows), w)))

  -- The lookup that three handlers begin with.
  unfoldable pub with_backup : {A : Type 0} → String → (BackupEntry → Reader S A) → Reader S A
  with_backup id k = or_status (P.uuid_parse_str id) bad_request (λ i w.
      reader_answered (get_backup repo i w) internal_server_error
        (λ found. or_status found not_found k))

  unfoldable pub api_backup_detail : String → HeaderMap → Reader S BackupEntry
  api_backup_detail id headers =
      reader_guarded (require_api_auth api_token headers)
        (with_backup id (λ backup w. (answer backup, w)))

  module _ ⦃Z : Archiver⦄ where
    -- The archive of the payload file.
    unfoldable pub archived : BackupEntry → Bytes → Reader S Download
    archived backup bytes =
        or_status (Z.tar_of "collection.anki2" bytes) internal_server_error (λ tar_data.
          or_status (Z.zstd_encode_all tar_data) internal_server_error (λ compressed w. (
            answer (record {
              body = compressed;
              content_type = "application/zstd";
              content_disposition =
                  ("attachment; filename=backup-" <> P.uuid_to_string backup.id) <> ".tar.zst";
            }),
            w,
          )))

    unfoldable pub served : BackupEntry → Reader S Download
    served backup w =
        if backup.status == created
        then reader_answered (read (backup_file_path repo backup) "read" w) internal_server_error
            (archived backup)
        else (refused bad_request, w)

    unfoldable pub download_backup : String → HeaderMap → Reader S Download
    download_backup id headers =
        reader_guarded (require_api_auth api_token headers) (with_backup id served)
