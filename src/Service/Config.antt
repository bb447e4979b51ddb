-- ===== src/Service/Config.antt =====
-- crates/daemon/src/config.rs, and main.rs up to the start of the service: arguments, the configuration
-- file, and environment variables before it. The TOML reader and the environment are parameters.
pub mod Args
pub mod Tokens
use anki_backup_tool.Base.{
  String, Bool, true, false, Option, none, some, List, [], ◌∷◌, if◌then◌else◌, ◌==◌, string_eq,
}
use anki_backup_tool.Base.Int.{ℤ}
use anki_backup_tool.Backup.{Bytes}
use anki_backup_tool.World.{
  FilePath, Platform, World, Io, failed, malformed, read, pure, fail, ok_or, ◌>>=◌, ◌>>◌,
}
use anki_backup_tool.Sync.{SyncConfig, no_credentials}
use anki_backup_tool.Repository.{BackupRepository, Backend, choose_backend}
use anki_backup_tool.Server.{AppState, Service}
use anki_backup_tool.Service.{retention_days}

pub record ServerConfig : Type 0 where
  pub listen : Option String

pub record StorageConfig : Type 0 where
  pub root : Option String
  pub retention_days : Option ℤ
  pub database_url : Option String

pub record AnkiwebConfig : Type 0 where
  pub username : Option String
  pub password : Option String
  pub endpoint : Option String

pub record SecurityConfig : Type 0 where
  pub api_token : Option String
  pub csrf_token : Option String

pub record Config : Type 0 where
  pub server : ServerConfig
  pub storage : StorageConfig
  pub ankiweb : AnkiwebConfig
  pub security : SecurityConfig

-- `Config::default()`
abbrev pub default_config : Config
default_config = record {
  server = record { listen = none };
  storage = record { root = none; retention_days = none; database_url = none };
  ankiweb = record { username = none; password = none; endpoint = none };
  security = record { api_token = none; csrf_token = none };
}

-- `env::var(..).ok()`, `PathBuf::from`, the text of a file, and `toml::from_str`.
pub record Process : Type 0 where
  pub var : String → Option String
  pub path_from : String → FilePath
  pub utf8 : Bytes → Option String
  pub toml_from_str : String → Option Config

abbrev pub or_else : Option String → Option String → Option String
or_else none b = b
or_else (some a) b = some a

abbrev pub unwrap_or : Option String → String → String
unwrap_or none b = b
unwrap_or (some a) b = a

-- The loop of `parse_args`: the path after the last `--config` and the last other word, or `none` for
-- a `--config` without a path.
unfoldable pub parse_words :
    List String → Option String → Option String → Option (Option String × Option String)
parse_words [] config_path mode = some (config_path, mode)
parse_words (arg ∷ []) config_path mode =
    if arg == "--config" then none else some (config_path, some arg)
parse_words (arg ∷ next ∷ args) config_path mode = elim (arg == "--config") [
  | true ↦ parse_words args (some next) mode
  | false ↦ parse_words (next ∷ args) config_path (some arg)
]

-- What `main` does after the repository is there.
pub data Command : Type 0 where
  run_once_with : SyncConfig → Command
  run_service_at : String → Config → Command

-- The root and the database that `main` opens, and the command.
pub record Startup : Type 0 where
  pub root : String
  pub backend : Backend
  pub command : Command

module _ ⦃X : Process⦄ where
  unfoldable pub sync_config : Config → SyncConfig
  sync_config cfg = record {
    username = unwrap_or (or_else (X.var "ANKIWEB_USERNAME") cfg.ankiweb.username) "";
    password = unwrap_or (or_else (X.var "ANKIWEB_PASSWORD") cfg.ankiweb.password) "";
    endpoint = or_else (X.var "ANKIWEB_ENDPOINT") cfg.ankiweb.endpoint;
  }

  unfoldable pub command_of : Config → Option String → Command
  command_of cfg mode =
      if unwrap_or mode "" == "run-once"
      then run_once_with (sync_config cfg)
      else run_service_at
          (unwrap_or (or_else (X.var "ANKI_BACKUP_LISTEN") cfg.server.listen) "127.0.0.1:8088") cfg

  unfoldable pub startup : Config → Option String → Startup
  startup cfg mode = record {
    root = unwrap_or (or_else (X.var "ANKI_BACKUP_ROOT") cfg.storage.root) "./data";
    backend = choose_backend (or_else (X.var "DATABASE_URL") cfg.storage.database_url);
    command = command_of cfg mode;
  }

  -- The state that `run_service` shares with the handlers, and the gate and world that they begin with.
  unfoldable pub app_state : {S : Type 0} → BackupRepository S → Config → AppState S
  app_state repo cfg = record {
    repo = repo;
    csrf_token = or_else (X.var "ANKI_BACKUP_CSRF_TOKEN") cfg.security.csrf_token;
    api_token = or_else (X.var "ANKI_BACKUP_API_TOKEN") cfg.security.api_token;
    sync_config = if no_credentials (sync_config cfg) then none else some (sync_config cfg);
  }

  -- The retention that `run_service` gives the scheduler.
  abbrev pub service_retention : Config → ℤ
  service_retention cfg =
      retention_days (X.var "ANKI_BACKUP_RETENTION_DAYS") cfg.storage.retention_days

  module _ ⦃P : Platform⦄ {S : Type 0} where
    unfoldable pub load_config : FilePath → Io S Config
    load_config path = do
      bytes ← read path "reading config file"
      contents ← ok_or (X.utf8 bytes) (failed "reading config file")
      ok_or (X.toml_from_str contents) (malformed "parsing config file")

    unfoldable pub config_at : Option String → Io S Config
    config_at none = pure default_config
    config_at (some path) = load_config (X.path_from path)

    with_words : Option (Option String × Option String) → Io S (Config × Option String)
    with_words none = fail (failed "--config requires a path argument")
    with_words (some (config_path, mode)) = do cfg ← config_at config_path; pure (cfg, mode)

    -- The first argument is the name of the program.
    unfoldable pub parse_args : List String → Io S (Config × Option String)
    unfolding with_words
    parse_args [] = with_words (some (none, none))
    parse_args (program ∷ args) = with_words (parse_words args none none)
