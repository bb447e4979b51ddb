-- ===== src/Server.antt =====
-- crates/daemon/src/server.rs: authentication and the rollback handler.
pub mod Guards
pub mod Rollback
pub mod Api
pub mod Pages
pub mod Reading
pub mod Restore
pub mod Steps
pub mod Stages
pub mod Router
use anki_backup_tool.Base.{
  ℕ, zero, suc, ◌-◌, ◌/◌, String, Bool, true, false, Option, none, some, if◌then◌else◌, ltb, ◌==◌,
  string_eq,
}
use anki_backup_tool.Base.Prefix.{strip_prefix}
use anki_backup_tool.Backup.{Uuid, DateTime, BackupEntry}
use anki_backup_tool.World.{Platform, World, Result, ok, err, now, read, is_some}
use anki_backup_tool.Sync.{Network, SyncConfig, upload_collection}
use anki_backup_tool.Sync.Wire.{on_wire}
use anki_backup_tool.Repository.{BackupRepository, rollback_to, backup_file_path}

-- The status codes that the handlers answer with, besides 200.
pub data StatusCode : Type 0 where
  bad_request unauthorized forbidden not_found too_many_requests : StatusCode
  internal_server_error bad_gateway : StatusCode

-- The headers that the handlers read, each if it is there and is text.
pub record HeaderMap : Type 0 where
  pub authorization : Option String
  pub x_csrf_token : Option String

-- `AppState`, but for the gate, which the handlers change.
pub record AppState (S : Type 0) : Type 0 where
  pub repo : BackupRepository S
  pub csrf_token : Option String
  pub api_token : Option String
  pub sync_config : Option SyncConfig

-- The answer of the rollback handler.
pub data Reply : Type 0 where
  -- "rolled_back_to" and "uploaded"
  json : Uuid → Bool → Reply
  status : StatusCode → Reply

-- The gate, the time of the last rollback, and the world.
pub record Service (S : Type 0) : Type 0 where
  pub rollback_gate : Option DateTime
  pub world : World S

abbrev pub Handler : Type 0 → Type 0
Handler S = Service S → Reply × Service S

is_token : String → Option String → Bool
is_token expected none = false
is_token expected (some token) = token == expected

bearer : Option String → Option String
bearer none = none
bearer (some value) = strip_prefix "Bearer " value

-- `none` is `Ok(())`.
unfoldable pub require_api_auth : Option String → HeaderMap → Option StatusCode
unfolding is_token bearer
require_api_auth none headers = none
require_api_auth (some expected) headers =
    if is_token expected (bearer headers.authorization) then none else some unauthorized

-- `unwrap_or_default`
or_empty : Option String → String
or_empty none = ""
or_empty (some s) = s

-- The check of `x-csrf-token` in `rollback_backup`.
unfoldable pub require_csrf : Option String → HeaderMap → Option StatusCode
unfolding or_empty
require_csrf none headers = none
require_csrf (some expected) headers =
    if or_empty headers.x_csrf_token == expected then none else some forbidden

module _ {S : Type 0} where
  -- A guard before the rest of a handler.
  abbrev pub guarded : Option StatusCode → Handler S → Handler S
  guarded none k s = k s
  guarded (some code) k s = (status code, s)

  -- `map_err` on a call, and the rest of the handler.
  unfoldable pub answered :
      {A : Type 0} → Result A × World S → StatusCode → (A → Handler S) → Handler S
  answered (ok a, w) code k s = k a (record s { world = w })
  answered (err e, w) code k s = (status code, record s { world = w })

-- Less than ten seconds after the last rollback, `num_seconds` of the difference is below 10.
abbrev pub within_ten_seconds : DateTime → DateTime → Bool
within_ten_seconds at last = ltb ((at - last) / 1000000000) 10

abbrev pub previous : ℕ → ℕ
previous zero = zero
previous (suc n) = n

module _ ⦃P : Platform⦄ {S : Type 0} where
  -- The time that the clock showed at the last call.
  abbrev pub last_reading : Service S → DateTime
  last_reading s = P.times (previous s.world.step)

  unfoldable pub gate_guard : Option DateTime → Handler S → Handler S
  gate_guard none k s = k s
  gate_guard (some last) k s =
      let (t, w) = now s.world in
      if within_ten_seconds (P.times s.world.step) last
      then (status too_many_requests, record s { world = w })
      else k (record s { world = w })

  module _ ⦃N : Network⦄ (state : AppState S) where
    open state use {repo, csrf_token, api_token, sync_config}

    -- The gate is set last.
    pub finish : Uuid → Handler S
    finish id s = (
      json id (is_some sync_config),
      record { rollback_gate = some (P.times s.world.step); world = (now s.world).1 },
    )

    upload_rolled : Option SyncConfig → BackupEntry → Handler S
    unfolding finish
    upload_rolled none rolled s = finish rolled.id s
    upload_rolled (some cfg) rolled s =
        answered
          (read (backup_file_path repo rolled) "failed to read backup file for upload" s.world)
          internal_server_error
          (λ bytes s.
            answered (on_wire (upload_collection cfg bytes) s.world) bad_gateway
              (λ _. finish rolled.id) s)
          s

    with_id : Option Uuid → Handler S
    unfolding upload_rolled
    with_id none s = (status bad_request, s)
    with_id (some id) s =
        answered (rollback_to repo id s.world) bad_request
          (λ rolled. upload_rolled sync_config rolled) s

    unfoldable pub rollback_backup : String → HeaderMap → Handler S
    unfolding with_id
    rollback_backup id headers s =
        guarded (require_api_auth api_token headers)
          (guarded (require_csrf csrf_token headers)
            (λ s. gate_guard s.rollback_gate (with_id (P.uuid_parse_str id)) s))
          s
