-- ===== src/Examples/Server.antt =====
-- Requests to the handlers that only read, and to the routes.
use anki_backup_tool.Base.{none, some, [], ◌∷◌, ◌≡◌, refl}
use anki_backup_tool.World.Reads.{Untouched}
use anki_backup_tool.Store.Postgres.{PgDb}
use anki_backup_tool.Store.Postgres.Rep.{PgRep}
use anki_backup_tool.Store.Postgres.Contract.{postgres_store-IsStore}
use anki_backup_tool.Server.{unauthorized, HeaderMap, AppState, Service, require_api_auth}
use anki_backup_tool.Server.Api.{
  answer, Archiver, api_list_backups, api_backup_detail, download_backup,
}
use anki_backup_tool.Server.Pages.{Formats, detail_view, text_or_empty, backup_detail}
use anki_backup_tool.Server.Reading.{
  Looked, Listed, Archived, api_list_backups_lem, api_backup_detail_lem, download_backup_lem,
}
use anki_backup_tool.Server.Router.{download_api, detail_api, serve}
use anki_backup_tool.Server.Router.Screen.{
  status_of, serve-refuses, serve-Untouched, backup_detail_lem,
}
use anki_backup_tool.Examples.Sync.{network, account}
use anki_backup_tool.Examples.Machine.{
  machine, libraries-IsLawful, newest_first, newest_first-IsOrdering, database-PgRep, entries,
  start, repository,
}

abbrev state : AppState PgDb
state = record {
  repo = repository;
  csrf_token = some "c5rf";
  api_token = some "t0k3n";
  sync_config = some account;
}

abbrev pub with_token : HeaderMap
with_token = record { authorization = some "Bearer t0k3n"; x_csrf_token = none }

abbrev pub without_token : HeaderMap
without_token = record { authorization = none; x_csrf_token = none }

abbrev pub archiver : Archiver
archiver = record { tar_of = λ name bytes. some (0 ∷ bytes); zstd_encode_all = λ bytes. some bytes }

abbrev pub formats : Formats
formats = record { time = λ t. "2026-01-01 00:00:00 UTC"; one_decimal = λ a b. "1.0" }

abbrev pub service : Service PgDb
service = record { rollback_gate = none; world = start }

api_list_backups_example :
    Listed ⦃P = machine⦄ state
      (PgRep ⦃P = machine⦄)
      (postgres_store-IsStore ⦃P = machine⦄ newest_first newest_first-IsOrdering libraries-IsLawful)
      entries
      []
      start
      database-PgRep
      with_token
      (api_list_backups ⦃P = machine⦄ state with_token start)
api_list_backups_example =
    api_list_backups_lem ⦃P = machine⦄ state (PgRep ⦃P = machine⦄)
      (postgres_store-IsStore ⦃P = machine⦄ newest_first newest_first-IsOrdering libraries-IsLawful)
      entries [] start database-PgRep with_token

api_backup_detail_example :
    Looked ⦃P = machine⦄ entries start
      (require_api_auth state.api_token with_token)
      "1111111"
      (λ b a. a ≡ answer b)
      (api_backup_detail ⦃P = machine⦄ state "1111111" with_token start)
api_backup_detail_example =
    api_backup_detail_lem ⦃P = machine⦄ state (PgRep ⦃P = machine⦄)
      (postgres_store-IsStore ⦃P = machine⦄ newest_first newest_first-IsOrdering libraries-IsLawful)
      entries [] start database-PgRep "1111111" with_token

download_backup_example :
    Looked ⦃P = machine⦄ entries start
      (require_api_auth state.api_token with_token)
      "1111111"
      (Archived ⦃P = machine⦄ state
        (PgRep ⦃P = machine⦄)
        (postgres_store-IsStore ⦃P = machine⦄ newest_first newest_first-IsOrdering
          libraries-IsLawful)
        entries
        []
        start
        database-PgRep
        ⦃Z = archiver⦄)
      (download_backup ⦃P = machine⦄ state ⦃Z = archiver⦄ "1111111" with_token start)
download_backup_example =
    download_backup_lem ⦃P = machine⦄ state (PgRep ⦃P = machine⦄)
      (postgres_store-IsStore ⦃P = machine⦄ newest_first newest_first-IsOrdering libraries-IsLawful)
      entries [] start database-PgRep ⦃Z = archiver⦄ "1111111" with_token

backup_detail_example :
    Looked ⦃P = machine⦄ entries start none "1111111"
      (λ b a.
        a
        ≡ answer (record {
          backup = detail_view ⦃F = formats⦄ ⦃P = machine⦄ b;
          csrf_token = text_or_empty state.csrf_token;
        }))
      (backup_detail ⦃F = formats⦄ ⦃P = machine⦄ state "1111111" start)
backup_detail_example =
    backup_detail_lem ⦃P = machine⦄ ⦃F = formats⦄ state (PgRep ⦃P = machine⦄)
      (postgres_store-IsStore ⦃P = machine⦄ newest_first newest_first-IsOrdering libraries-IsLawful)
      entries [] start database-PgRep "1111111"

turned_away : require_api_auth state.api_token without_token ≡ some unauthorized
unfolding require_api_auth
turned_away = refl

serve-refuses_example :
    (status_of
        (serve ⦃P = machine⦄ ⦃F = formats⦄ ⦃Z = archiver⦄ ⦃N = network⦄ state download_api "1111111"
          without_token service).0
      ≡ some unauthorized)
    × ((serve ⦃P = machine⦄ ⦃F = formats⦄ ⦃Z = archiver⦄ ⦃N = network⦄ state download_api "1111111"
          without_token service).1
        ≡ service)
serve-refuses_example =
    serve-refuses ⦃P = machine⦄ ⦃F = formats⦄ ⦃Z = archiver⦄ ⦃N = network⦄ state download_api
      "1111111" without_token service unauthorized turned_away

serve-Untouched_example :
    Untouched start
      (serve ⦃P = machine⦄ ⦃F = formats⦄ ⦃Z = archiver⦄ ⦃N = network⦄ state detail_api "1111111"
        with_token service).1.world
    × ((serve ⦃P = machine⦄ ⦃F = formats⦄ ⦃Z = archiver⦄ ⦃N = network⦄ state detail_api "1111111"
          with_token service).1.rollback_gate
        ≡ none)
serve-Untouched_example =
    serve-Untouched ⦃P = machine⦄ ⦃F = formats⦄ state (PgRep ⦃P = machine⦄)
      (postgres_store-IsStore ⦃P = machine⦄ newest_first newest_first-IsOrdering libraries-IsLawful)
      entries [] ⦃Z = archiver⦄ ⦃N = network⦄ detail_api "1111111" with_token service refl
      database-PgRep
