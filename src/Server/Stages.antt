-- ===== src/Server/Stages.antt =====
-- crates/daemon/src/server.rs: `rollback_backup` in two stages, up to its upload and from there. The
-- upload is where the handler waits longest, with the gate locked, while other tasks go on.
pub mod Whole
pub mod Reached
pub mod Gate
use anki_backup_tool.Base.{String, Bool, Option, none, some, if◌then◌else◌}
use anki_backup_tool.Backup.{Uuid, DateTime, Bytes, BackupEntry}
use anki_backup_tool.World.{Platform, World, Result, ok, err, read, now}
use anki_backup_tool.Repository.{backup_file_path, rollback_to}
use anki_backup_tool.Sync.{Network, SyncConfig, upload_collection}
use anki_backup_tool.Sync.Wire.{on_wire}
use anki_backup_tool.Server.{
  StatusCode, bad_request, internal_server_error, bad_gateway, too_many_requests, HeaderMap,
  AppState, Service, Reply, status, answered, finish, within_ten_seconds, require_api_auth,
  require_csrf,
}

-- What a rollback request has come to: it is answered, or it uploads the bytes of the backup under an
-- id, with the gate locked.
pub data Progress : Type 0 where
  replied : Reply → Progress
  uploading : SyncConfig → Uuid → Bytes → Progress

abbrev pub Stage : Type 0 → Type 0
Stage S = Service S → Progress × Service S

module _ {S : Type 0} where
  abbrev pub replied_with : Reply × Service S → Progress × Service S
  replied_with (r, s) = (replied r, s)

  abbrev staged_guard : Option StatusCode → Stage S → Stage S
  staged_guard none k s = k s
  staged_guard (some code) k s = (replied (status code), s)

  staged : {A : Type 0} → Result A × World S → StatusCode → (A → Stage S) → Stage S
  staged (ok a, w) code k s = k a (record s { world = w })
  staged (err e, w) code k s = (replied (status code), record s { world = w })

module _ ⦃P : Platform⦄ {S : Type 0} where
  staged_gate : Option DateTime → Stage S → Stage S
  staged_gate none k s = k s
  staged_gate (some last) k s =
      let (t, w) = now s.world in
      if within_ten_seconds (P.times s.world.step) last
      then (replied (status too_many_requests), record s { world = w })
      else k (record s { world = w })

  module _ ⦃N : Network⦄ (state : AppState S) where
    open state use {repo, csrf_token, api_token, sync_config}

    begin_upload : Option SyncConfig → BackupEntry → Stage S
    begin_upload none rolled s = replied_with (finish state rolled.id s)
    begin_upload (some cfg) rolled s =
        staged (read (backup_file_path repo rolled) "failed to read backup file for upload" s.world)
          internal_server_error (λ bytes s. (uploading cfg rolled.id bytes, s)) s

    begin_id : Option Uuid → Stage S
    begin_id none s = (replied (status bad_request), s)
    begin_id (some id) s =
        staged (rollback_to repo id s.world) bad_request (λ rolled. begin_upload sync_config rolled)
          s

    -- The handler up to its upload, or its end.
    pub begin_rollback : String → HeaderMap → Stage S
    begin_rollback id headers s =
        staged_guard (require_api_auth api_token headers)
          (staged_guard (require_csrf csrf_token headers)
            (λ s. staged_gate s.rollback_gate (begin_id (P.uuid_parse_str id)) s))
          s

    -- The upload, and what follows it.
    pub end_rollback : SyncConfig → Uuid → Bytes → Service S → Reply × Service S
    end_rollback cfg id bytes s =
        answered (on_wire (upload_collection cfg bytes) s.world) bad_gateway (λ _. finish state id)
          s

    -- The handler from what it has come to.
    abbrev pub resume : Progress × Service S → Reply × Service S
    resume (replied r, s) = (r, s)
    resume (uploading cfg id bytes, s) = end_rollback cfg id bytes s
