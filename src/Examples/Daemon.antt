-- ===== src/Examples/Daemon.antt =====
-- The daemon on an empty repository: a round of the scheduler, and two rollbacks.
use anki_backup_tool.Base.{
  inl, ◌+◌, ◌*◌, none, some, List, [], false, ◌≡◌, refl, ap, ◌∙◌, arith, string_eq, nat_eq,
}
use anki_backup_tool.Base.Int.{pos}
use anki_backup_tool.Base.Text.{replace}
use anki_backup_tool.World.{Platform, Disk, join}
use anki_backup_tool.World.Laws.{Ends-after}
use anki_backup_tool.Store.Postgres.{PgDb, postgres_store}
use anki_backup_tool.Store.Postgres.Rep.{PgRep}
use anki_backup_tool.Store.Postgres.Contract.{postgres_store-IsStore}
use anki_backup_tool.Repository.{backup_dir, format_timestamp_dir}
use anki_backup_tool.Repository.Safe.{IsSafe}
use anki_backup_tool.Sync.Wire.{sync-on_wire}
use anki_backup_tool.Server.{AppState, Service, last_reading}
use anki_backup_tool.Server.Router.{Answer, rollback_api, serve}
use anki_backup_tool.Server.Router.Spacing.{
  Passage, logged, Spaced, History, started, request, History-Spaced,
}
use anki_backup_tool.Service.{content_hash, scheduler_round}
use anki_backup_tool.Service.Scheduler.{left_by_client}
use anki_backup_tool.Server.Stages.{Progress, begin_rollback}
use anki_backup_tool.Service.Tasks.{Running, Tasks, after_begin, begun, begins, drops, rounds}
use anki_backup_tool.Service.Tasks.Safe.{Tasks-IsSafe}
use anki_backup_tool.Service.Tasks.Spacing.{Tasks-Spaced}
use anki_backup_tool.Backup.{DateTime}
use anki_backup_tool.Examples.Machine.{
  machine, libraries, start, root, newest_first, newest_first-IsOrdering,
}
use anki_backup_tool.Examples.Live.{
  calm_machine, calm_repository, plain-IsLawful, empty, empty-PgRep, empty-ready,
}
use anki_backup_tool.Examples.Server.{archiver, formats, with_token}
use anki_backup_tool.Examples.Sync.{network, account}

abbrev state : AppState PgDb
state = record { repo = calm_repository; csrf_token = none; api_token = none; sync_config = none }

abbrev at_start : Service PgDb
at_start = record { rollback_gate = none; world = empty }

empty-IsSafe :
    IsSafe ⦃P = calm_machine⦄ calm_repository
      (content_hash ⦃P = calm_machine⦄)
      (PgRep ⦃P = calm_machine⦄)
      empty
empty-IsSafe = record {
  ready = empty-ready;
  entries = [];
  events = [];
  listed = empty-PgRep;
  intact = (tt, λ dir. omega arith);
}

-- The client leaves the disk, which has no directory of day 200 yet.
same_disk : (left_by_client ⦃N = network⦄ account empty).disk ≡ empty.disk
same_disk =
    Ends-after (λ u. u.disk ≡ empty.disk) (sync-on_wire ⦃N = network⦄ account empty) (λ a h. h.1.0)
      (λ x h. h.1.0)

no_directory :
    empty.disk.dirs (
      backup_dir calm_repository.root
        (format_timestamp_dir ⦃P = calm_machine⦄ (200 * 86400 * 1000000000)))
    ≡ false
unfolding join string_eq backup_dir format_timestamp_dir replace nat_eq
no_directory = refl

new_directory :
    (left_by_client ⦃N = network⦄ account empty).disk.dirs (
      backup_dir calm_repository.root
        (format_timestamp_dir ⦃P = calm_machine⦄ (200 * 86400 * 1000000000)))
    ≡ false
new_directory =
    ap
      (λ (k : Disk). k.dirs (
        backup_dir calm_repository.root
          (format_timestamp_dir ⦃P = calm_machine⦄ (200 * 86400 * 1000000000))))
      same_disk
    ∙ no_directory

abbrev uploading_state : AppState PgDb
uploading_state = record state { sync_config = some account }

abbrev after_round : Running PgDb
after_round = record {
  service = record at_start {
    world = scheduler_round ⦃P = calm_machine⦄ calm_repository ⦃N = network⦄ account (pos 30) empty;
  };
  upload = none;
}

abbrev first_stage : Progress × Service PgDb
first_stage =
    begin_rollback ⦃P = calm_machine⦄ ⦃N = network⦄ uploading_state "1" with_token
      after_round.service

abbrev asked : DateTime
asked = calm_machine.times after_round.service.world.step

tasks :
    Tasks ⦃P = calm_machine⦄ ⦃F = formats⦄ ⦃Z = archiver⦄ uploading_state account
      (pos 30)
      empty
      (begun ⦃P = calm_machine⦄ asked first_stage [])
      (after_begin ⦃P = calm_machine⦄ asked first_stage)
tasks =
    begins (rounds Tasks.started ⦃N = network⦄ (λ sync is. inl new_directory)) ⦃N = network⦄ "1"
      with_token

Tasks-IsSafe_example :
    IsSafe ⦃P = calm_machine⦄ calm_repository
      (content_hash ⦃P = calm_machine⦄)
      (PgRep ⦃P = calm_machine⦄)
      (after_begin ⦃P = calm_machine⦄ asked first_stage).service.world
Tasks-IsSafe_example =
    Tasks-IsSafe ⦃P = calm_machine⦄ ⦃F = formats⦄ ⦃Z = archiver⦄ uploading_state account (pos 30)
      (PgRep ⦃P = calm_machine⦄)
      (postgres_store-IsStore ⦃P = calm_machine⦄ newest_first newest_first-IsOrdering
        plain-IsLawful)
      plain-IsLawful (λ n. omega arith) {w = empty}
      {ps = begun ⦃P = calm_machine⦄ asked first_stage []}
      {r = after_begin ⦃P = calm_machine⦄ asked first_stage} empty-IsSafe tasks

-- Each reading of the clock comes twenty seconds after the one before it.
abbrev ticking : Platform
ticking = record {
  lib = libraries;
  fates = machine.fates;
  times = λ n. (200 * 86400 + n * 20) * 1000000000;
  uuids = machine.uuids;
}

abbrev ticking_state : AppState PgDb
ticking_state = record state {
  repo = record { root = root; store = postgres_store ⦃P = ticking⦄ newest_first };
}

abbrev rolled_once : Answer × Service PgDb
rolled_once =
    serve ⦃P = ticking⦄ ⦃F = formats⦄ ⦃Z = archiver⦄ ⦃N = network⦄ ticking_state rollback_api
      "1111111" with_token (record { rollback_gate = none; world = start })

abbrev rolled_twice : Answer × Service PgDb
rolled_twice =
    serve ⦃P = ticking⦄ ⦃F = formats⦄ ⦃Z = archiver⦄ ⦃N = network⦄ ticking_state rollback_api
      "1111111" with_token rolled_once.1

abbrev passages : List Passage
passages =
    logged rolled_twice.0 (ticking.times rolled_once.1.world.step)
      (last_reading ⦃P = ticking⦄ rolled_twice.1)
      (logged rolled_once.0 (ticking.times start.step) (last_reading ⦃P = ticking⦄ rolled_once.1)
        [])

history : History ⦃P = ticking⦄ ⦃F = formats⦄ ⦃Z = archiver⦄ ticking_state passages rolled_twice.1
history =
    request (request (started start) ⦃N = network⦄ rollback_api "1111111" with_token) ⦃N = network⦄
      rollback_api "1111111" with_token

History-Spaced_example : Spaced passages
History-Spaced_example =
    History-Spaced ⦃P = ticking⦄ ⦃F = formats⦄ ⦃Z = archiver⦄ ticking_state {ps = passages}
      {s = rolled_twice.1} history

-- Two rollbacks with an upload each; the connection of the first one is lost while it uploads.
abbrev busy_state : AppState PgDb
busy_state = record ticking_state { sync_config = some account }

abbrev stage_at : Service PgDb → Progress × Service PgDb
stage_at s = begin_rollback ⦃P = ticking⦄ ⦃N = network⦄ busy_state "1111111" with_token s

abbrev first_service : Service PgDb
first_service = record { rollback_gate = none; world = start }

abbrev first_asked : DateTime
first_asked = ticking.times start.step

abbrev second_service : Service PgDb
second_service = (after_begin ⦃P = ticking⦄ first_asked (stage_at first_service)).service

abbrev second_asked : DateTime
second_asked = ticking.times second_service.world.step

abbrev both : List Passage
both =
    begun ⦃P = ticking⦄ second_asked (stage_at second_service)
      (begun ⦃P = ticking⦄ first_asked (stage_at first_service) [])

busy :
    Tasks ⦃P = ticking⦄ ⦃F = formats⦄ ⦃Z = archiver⦄ busy_state account
      (pos 30)
      start
      both
      (after_begin ⦃P = ticking⦄ second_asked (stage_at second_service))
busy =
    begins
      (drops {s = second_service}
        {upload = (after_begin ⦃P = ticking⦄ first_asked (stage_at first_service)).upload}
        (begins Tasks.started ⦃N = network⦄ "1111111" with_token))
      ⦃N = network⦄ "1111111" with_token

Tasks-Spaced_example : Spaced both
Tasks-Spaced_example =
    Tasks-Spaced ⦃P = ticking⦄ ⦃F = formats⦄ ⦃Z = archiver⦄ busy_state account (pos 30) {w = start}
      {ps = both} {r = after_begin ⦃P = ticking⦄ second_asked (stage_at second_service)} busy
