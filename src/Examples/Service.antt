-- ===== src/Examples/Service.antt =====
-- Concrete runs of the service: a rollback request, and a round of the scheduler.
use anki_backup_tool.Base.{
  ℕ, ◌+◌, ◌*◌, ◌≤◌, String, ◌<>◌, Option, none, some, [], ◌≡◌, ◌⊎◌, ◌↔◌, refl, arith,
}
use anki_backup_tool.Base.Int.{pos}
use anki_backup_tool.World.{World}
use anki_backup_tool.World.Laws.{Ends}
use anki_backup_tool.World.Reads.{Untouched}
use anki_backup_tool.Sync.{Sent}
use anki_backup_tool.Sync.Wire.{fresh}
use anki_backup_tool.Sync.Collection.{Broken}
use anki_backup_tool.Store.Postgres.{PgDb}
use anki_backup_tool.Store.Postgres.Rep.{PgRep}
use anki_backup_tool.Store.Postgres.Contract.{postgres_store-IsStore}
use anki_backup_tool.Repository.{RunOnceOutcome}
use anki_backup_tool.Server.{
  HeaderMap, AppState, Service, require_api_auth, require_csrf, rollback_backup,
}
use anki_backup_tool.Server.Guards.{
  require_api_auth_lem, IsAdmitted, Rejected, rollback_backup-guards,
}
use anki_backup_tool.Server.Rollback.{Settled, rollback_backup_lem}
use anki_backup_tool.Sync.{SyncResult}
use anki_backup_tool.Service.{secs_to_next_hour, scheduler_round, run_once_command}
use anki_backup_tool.Service.Round.{secs_to_next_hour_lem}
use anki_backup_tool.Service.Scheduler.{
  RoundEnds, left_by_client, Brought, Ran, Lost, scheduler_round_lem, run_once_command_lem,
}
use anki_backup_tool.Examples.Sync.{network, account}
use anki_backup_tool.Examples.Machine.{
  machine, libraries, libraries-IsLawful, newest_first, newest_first-IsOrdering, database-PgRep,
  entries, start, repository, start-ready,
}

abbrev stamp : ℕ → ℕ
stamp = libraries.timestamptz

abbrev state : AppState PgDb
state = record {
  repo = repository;
  csrf_token = none;
  api_token = none;
  sync_config = some account;
}

abbrev headers : HeaderMap
headers = record { authorization = some "Bearer t0k3n"; x_csrf_token = none }

abbrev service : Service PgDb
service = record { rollback_gate = none; world = start }

abbrev token : Option String
token = some "t0k3n"

require_api_auth_example : (require_api_auth token headers ≡ none) ↔ (
    (token ≡ none)
    ⊎ ((t : String) × (token ≡ some t) × (headers.authorization ≡ some ("Bearer " <> t))))
require_api_auth_example = require_api_auth_lem token headers

rollback_backup-guards_example :
    IsAdmitted ⦃P = machine⦄ state headers service
    ⊎ Rejected ⦃P = machine⦄ state headers service
        (rollback_backup ⦃P = machine⦄ ⦃N = network⦄ state "1111111" headers service)
rollback_backup-guards_example =
    rollback_backup-guards ⦃P = machine⦄ state headers service ⦃N = network⦄ "1111111"

admitted : IsAdmitted ⦃P = machine⦄ state headers service
unfolding require_api_auth require_csrf
admitted = (refl, refl, tt)

rollback_backup_example :
    Settled ⦃P = machine⦄ ⦃N = network⦄ state
      (PgRep ⦃P = machine⦄)
      entries
      []
      start
      none
      "1111111"
      (rollback_backup ⦃P = machine⦄ ⦃N = network⦄ state "1111111" headers service)
rollback_backup_example =
    rollback_backup_lem ⦃P = machine⦄ ⦃N = network⦄ state (PgRep ⦃P = machine⦄)
      (postgres_store-IsStore ⦃P = machine⦄ newest_first newest_first-IsOrdering libraries-IsLawful)
      entries [] "1111111" headers service database-PgRep start-ready admitted

secs_to_next_hour_example :
    (1 ≤ secs_to_next_hour 59 59)
    × (secs_to_next_hour 59 59 ≤ 3600)
    × (59 * 60 + 59 + secs_to_next_hour 59 59 ≡ 3600)
secs_to_next_hour_example = secs_to_next_hour_lem 59 59 (omega arith) (omega arith)

scheduler_round_example :
    RoundEnds ⦃P = machine⦄ ⦃N = network⦄ repository
      (PgRep ⦃P = machine⦄)
      stamp
      entries
      []
      account
      start
      (pos 30)
      (scheduler_round ⦃P = machine⦄ repository ⦃N = network⦄ account (pos 30) start)
scheduler_round_example =
    scheduler_round_lem ⦃P = machine⦄ ⦃N = network⦄ repository (PgRep ⦃P = machine⦄) stamp entries
      [] account start
      (postgres_store-IsStore ⦃P = machine⦄ newest_first newest_first-IsOrdering libraries-IsLawful)
      libraries-IsLawful database-PgRep start-ready (λ n. omega arith) (pos 30)

run_once_command_example :
    Ends
      (run_once_command ⦃P = machine⦄ repository ⦃N = network⦄ account start)
      (λ _ u.
        (sync : SyncResult) × (o : RunOnceOutcome) × Brought ⦃N = network⦄ account start sync
        × Ran ⦃P = machine⦄ ⦃N = network⦄ repository
            (PgRep ⦃P = machine⦄)
            stamp
            entries
            []
            account
            start
            sync
            start.disk
            (left_by_client ⦃N = network⦄ account start).step
            o
            u)
      (λ x u.
        (((z : World Sent) × Broken account (fresh start) x z) × Untouched start u)
        ⊎ ((sync : SyncResult) × Brought ⦃N = network⦄ account start sync
            × Lost ⦃P = machine⦄ ⦃N = network⦄ repository
                (PgRep ⦃P = machine⦄)
                stamp
                entries
                []
                account
                start
                sync
                start.disk
                (left_by_client ⦃N = network⦄ account start).step
                u))
run_once_command_example =
    run_once_command_lem ⦃P = machine⦄ ⦃N = network⦄ repository (PgRep ⦃P = machine⦄) stamp entries
      [] account start
      (postgres_store-IsStore ⦃P = machine⦄ newest_first newest_first-IsOrdering libraries-IsLawful)
      libraries-IsLawful database-PgRep start-ready (λ n. omega arith)
