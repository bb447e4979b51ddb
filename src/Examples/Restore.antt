-- ===== src/Examples/Restore.antt =====
-- A backup into an empty repository, and its download.
use anki_backup_tool.Base.{◌*◌, some, none, [], ◌∷◌, ◌≡◌, refl, arith, nat_eq, string_eq}
use anki_backup_tool.Base.Prefix.{strip_prefix}
use anki_backup_tool.Backup.{BackupEntry}
use anki_backup_tool.World.{World, ok}
use anki_backup_tool.Store.Postgres.{PgDb}
use anki_backup_tool.Store.Postgres.Rep.{PgRep}
use anki_backup_tool.Store.Postgres.Contract.{postgres_store-IsStore}
use anki_backup_tool.Repository.{RunOnceOutcome, created, skipped, run_once}
use anki_backup_tool.Repository.RunOnce.Left.{Outcome}
use anki_backup_tool.Server.{AppState, require_api_auth}
use anki_backup_tool.Server.Api.{answer, download_backup}
use anki_backup_tool.Server.Restore.{archive_of, run_once-download}
use anki_backup_tool.Examples.Machine.{newest_first, newest_first-IsOrdering}
use anki_backup_tool.Examples.Live.{
  calm_machine, calm_repository, plain, plain-IsLawful, payload, payload_backed, empty, empty-PgRep,
  empty-ready,
}
use anki_backup_tool.Examples.Server.{archiver, with_token}

abbrev calm_state : AppState PgDb
calm_state = record {
  repo = calm_repository;
  csrf_token = none;
  api_token = some "t0k3n";
  sync_config = none;
}

let_in : require_api_auth calm_state.api_token with_token ≡ none
unfolding require_api_auth strip_prefix nat_eq string_eq
let_in = refl

-- The first run has stored a backup.
made :
    (e : BackupEntry) × ((run_once ⦃P = calm_machine⦄ calm_repository payload "h1" empty).0
      ≡ ok (created e))
made = let (o, is, out) = payload_backed in which o _ is out
  where
    which :
        (o : RunOnceOutcome) (u : World PgDb)
        → (run_once ⦃P = calm_machine⦄ calm_repository payload "h1" empty).0 ≡ ok o
        → Outcome ⦃P = calm_machine⦄ calm_repository
            (PgRep ⦃P = calm_machine⦄)
            plain.timestamptz
            payload
            "h1"
            []
            []
            empty.disk
            (200 * 86400 * 1000000000)
            o
            u
        → (e : BackupEntry) × ((run_once ⦃P = calm_machine⦄ calm_repository payload "h1" empty).0
            ≡ ok (created e))
    which (created e) u is out = (e, is)
    which (skipped e) u is ((t, some_newest, none_newer), fields, listed, same) =
        absurd (omega arith)

run_once-download_example :
    (download_backup ⦃P = calm_machine⦄ calm_state ⦃Z = archiver⦄
      (calm_machine.uuid_to_string made.0.id)
      with_token
      (run_once ⦃P = calm_machine⦄ calm_repository payload "h1" empty).1).0
    ≡ answer (archive_of ⦃P = calm_machine⦄ made.0 (0 ∷ 1 ∷ 2 ∷ []))
run_once-download_example =
    run_once-download ⦃P = calm_machine⦄ ⦃Z = archiver⦄ (λ n. refl) plain-IsLawful calm_state
      (PgRep ⦃P = calm_machine⦄) plain.timestamptz
      (postgres_store-IsStore ⦃P = calm_machine⦄ newest_first newest_first-IsOrdering
        plain-IsLawful)
      [] [] empty empty-PgRep empty-ready (omega arith) payload "h1" made.0 with_token
      (0 ∷ 1 ∷ 2 ∷ []) (0 ∷ 1 ∷ 2 ∷ []) made.1 refl let_in refl refl
