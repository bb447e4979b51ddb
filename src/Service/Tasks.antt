-- ===== src/Service/Tasks.antt =====
-- The running daemon with its tasks between each other: while a rollback uploads its backup, with the
-- gate locked, the scheduler has rounds and other requests are answered.
pub mod Safe
pub mod Spacing
use anki_backup_tool.Base.{ℕ, String, Option, none, some, List, [], true, false, ◌≡◌}
use anki_backup_tool.Base.Int.{ℤ}
use anki_backup_tool.Backup.{Uuid, DateTime, Bytes}
use anki_backup_tool.World.{Platform, World}
use anki_backup_tool.Repository.{backup_dir, format_timestamp_dir}
use anki_backup_tool.Sync.{Network, SyncConfig}
use anki_backup_tool.Server.{HeaderMap, AppState, Service, last_reading}
use anki_backup_tool.Server.Api.{Archiver}
use anki_backup_tool.Server.Pages.{Formats}
use anki_backup_tool.Server.Router.{Endpoint, rolled, serve}
use anki_backup_tool.Server.Router.Spacing.{Passage, logged}
use anki_backup_tool.Server.Router.Screen.{only_reads}
use anki_backup_tool.Server.Stages.{
  Progress, replied, uploading, replied_with, begin_rollback, end_rollback,
}
use anki_backup_tool.Service.{scheduler_round, content_hash, payload_of}
use anki_backup_tool.Repository.Reach.{IsTimely}
use anki_backup_tool.Sync.{SyncResult, sync_collection}
use anki_backup_tool.Sync.Wire.{on_wire}
use anki_backup_tool.World.{ok}
use anki_backup_tool.Service.Scheduler.{left_by_client}

-- The service, and the rollback that has locked the gate for its upload: when it asked the gate, the
-- account, the backup's id and its bytes.
pub record Running (S : Type 0) : Type 0 where
  pub service : Service S
  pub upload : Option (DateTime × SyncConfig × Uuid × Bytes)

module _ ⦃P : Platform⦄ {S : Type 0} where
  -- What the first stage of a rollback leaves, from when it asked the gate.
  abbrev pub after_begin : DateTime → Progress × Service S → Running S
  after_begin asked (replied r, s) = record { service = s; upload = none }
  after_begin asked (uploading cfg id bytes, s) = record {
    service = s;
    upload = some (asked, cfg, id, bytes);
  }

  -- The rollbacks that were answered well, after a first stage.
  abbrev pub begun : DateTime → Progress × Service S → List Passage → List Passage
  begun asked (replied r, s) ps = logged (rolled r) asked (last_reading s) ps
  begun asked (uploading cfg id bytes, s) ps = ps

module _ ⦃P : Platform⦄ ⦃F : Formats⦄ ⦃Z : Archiver⦄ {S : Type 0} (state : AppState S)
    (config : SyncConfig) (days : ℤ) where
  -- What the daemon has done since its start. A rollback begins where no other one has the gate, and
  -- ends later, or is dropped with its connection; in between, and at any other time, requests that
  -- only read are answered, the scheduler has a round, whose run comes in a second of which there is
  -- no directory yet or skips, or time passes. Each stage, request and round has a network of its own. A rollback request that waits for the gate has done nothing yet.
  pub data Tasks (w : World S) : List Passage → Running S → Type 0 where
    started :
        Tasks w [] (record { service = record { rollback_gate = none; world = w }; upload = none })
    begins :
        {ps : List Passage} {s : Service S}
        → Tasks w ps (record { service = s; upload = none })
        → ⦃N : Network⦄ (id : String) (headers : HeaderMap)
        → Tasks w
            (begun (P.times s.world.step) (begin_rollback state id headers s) ps)
            (after_begin (P.times s.world.step) (begin_rollback state id headers s))
    ends :
        {ps : List Passage} {s : Service S} {asked : DateTime} {cfg : SyncConfig} {id : Uuid}
        {bytes : Bytes}
        → Tasks w ps (record { service = s; upload = some (asked, cfg, id, bytes) })
        → ⦃N : Network⦄
        → Tasks w
            (begun asked (replied_with (end_rollback state cfg id bytes s)) ps)
            (after_begin asked (replied_with (end_rollback state cfg id bytes s)))
    drops :
        {ps : List Passage} {s : Service S} {upload : Option (DateTime × SyncConfig × Uuid × Bytes)}
        → Tasks w ps (record { service = s; upload = upload })
        → Tasks w ps (record { service = s; upload = none })
    answers :
        {ps : List Passage} {r : Running S}
        → Tasks w ps r
        → ⦃N : Network⦄ (e : Endpoint) → only_reads e ≡ true
        → (id : String) (headers : HeaderMap)
        → Tasks w ps (record r { service = (serve state e id headers r.service).1 })
    rounds :
        {ps : List Passage} {r : Running S}
        → Tasks w ps r
        → ⦃N : Network⦄
        → ((sync : SyncResult)
            → (on_wire (sync_collection config) r.service.world).0 ≡ ok sync
            → IsTimely state.repo content_hash
                (payload_of sync)
                (left_by_client config r.service.world))
        → Tasks w ps (record r {
          service = record r.service {
            world = scheduler_round state.repo config days r.service.world;
          };
        })
    pauses :
        {ps : List Passage} {r : Running S}
        → Tasks w ps r
        → (n : ℕ)
        → Tasks w ps (record r {
          service = record r.service { world = record r.service.world { step = n } };
        })
