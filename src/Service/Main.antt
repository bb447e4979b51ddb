-- ===== src/Service/Main.antt =====
-- crates/daemon/src/main.rs: `main` and `run_service`, up to a daemon that answers. Opening a database
-- for a choice of back end and reading a socket address are parameters.
pub mod Once
pub mod Safe
use anki_backup_tool.Base.{String, Option, List}
use anki_backup_tool.Base.Int.{ℤ}
use anki_backup_tool.World.{
  Platform, World, Io, Error, ok, malformed, attempt, tick, ok_or, pure, ◌>>=◌, ◌>>◌,
}
use anki_backup_tool.Store.{MetadataStore}
use anki_backup_tool.Sync.{Network, SyncConfig}
use anki_backup_tool.Repository.{BackupRepository, Backend, open_with}
use anki_backup_tool.Server.{AppState}
use anki_backup_tool.Service.{run_once_command}
use anki_backup_tool.Service.Config.{
  Config, Process, Command, run_once_with, run_service_at, Startup, startup, parse_args, app_state,
  sync_config, service_retention,
}

-- The store of each back end with the call that opens it, and `parse::<SocketAddr>()`.
pub record Outside (S : Type 0) : Type 0 where
  pub store : Backend → MetadataStore S
  pub new_store : Backend → Io S (Unit {0})
  pub parse_addr : String → Option String

-- What the process does when `main` has got this far: it is over, or it answers requests on an
-- address with the state of the handlers, beside a scheduler with its configuration and retention.
pub data Course (S : Type 0) : Type 0 where
  finished : Course S
  serving : String → AppState S → SyncConfig → ℤ → Course S

module _ ⦃X : Process⦄ ⦃P : Platform⦄ {S : Type 0} (outside : Outside S) where
  -- `TcpListener::bind`
  bind : Io S (Unit {0})
  bind w = attempt (P.fates w.step) (λ v. (ok tt, tick v)) "bind" w

  -- The scheduler is spawned first, but sleeps for a second or more before it does anything, and the
  -- process ends where the address is refused.
  unfoldable pub run_service : BackupRepository S → String → Config → Io S (Course S)
  unfolding bind
  run_service repo listen cfg = do
    addr ← ok_or (outside.parse_addr listen) (malformed "invalid listen address")
    bind
    pure (serving addr (app_state repo cfg) (sync_config cfg) (service_retention cfg))

  module _ ⦃N : Network⦄ where
    unfoldable pub run_command : BackupRepository S → Command → Io S (Course S)
    run_command repo (run_once_with config) = do run_once_command repo config; pure finished
    run_command repo (run_service_at listen cfg) = run_service repo listen cfg

    -- The repository that the settings name.
    abbrev pub repository_at : Startup → BackupRepository S
    repository_at start = record {
      root = X.path_from start.root;
      store = outside.store start.backend;
    }

    started : Config × Option String → Io S (Course S)
    started (cfg, mode) = do
      repo ←
          open_with (repository_at (startup cfg mode))
            (outside.new_store (startup cfg mode).backend)
      run_command repo (startup cfg mode).command

    unfoldable pub main : List String → Io S (Course S)
    unfolding started
    main args = do settings ← parse_args args; started settings
