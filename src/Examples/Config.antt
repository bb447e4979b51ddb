-- ===== src/Examples/Config.antt =====
-- The arguments `--config a.toml run-once`, and a token in the environment.
use anki_backup_tool.Base.{
  String, ◌<>◌, none, some, List, [], ◌∷◌, ◌++◌, ◌≡◌, ◌≢◌, ◌⊎◌, refl, inl, if◌then◌else◌, ◌==◌,
  string_eq,
}
use anki_backup_tool.World.Laws.{Ends}
use anki_backup_tool.World.Reads.{Untouched}
use anki_backup_tool.Server.{unauthorized}
use anki_backup_tool.Server.Router.{rollback_api, serve}
use anki_backup_tool.Server.Router.Screen.{status_of}
use anki_backup_tool.Service.Config.{default_config, Process, parse_args, app_state}
use anki_backup_tool.Service.Config.Args.{
  Argument, words, AreWords, last_config, last_mode, Loaded, Unloaded, parse_args_lem,
}
use anki_backup_tool.Service.Config.Tokens.{app_state-token}
use anki_backup_tool.Examples.Sync.{network}
use anki_backup_tool.Examples.Server.{archiver, formats, service, without_token}
use anki_backup_tool.Examples.Machine.{machine, start, repository}

abbrev process : Process
process = record {
  var = λ name. if name == "ANKI_BACKUP_API_TOKEN" then some "t0k3n" else none;
  path_from = λ s. s ∷ [];
  utf8 = λ bytes. some "";
  toml_from_str = λ s. some default_config;
}

abbrev arguments : List String
arguments = "--config" ∷ "a.toml" ∷ "run-once" ∷ []

parse_args_example :
    Ends
      (parse_args ⦃X = process⦄ ⦃P = machine⦄ ("anki-backup-tool" ∷ arguments) start)
      (λ (cfg, m) u.
        (xs : List Argument) × AreWords xs
        × (arguments ≡ words xs)
        × (m ≡ last_mode none xs)
        × Loaded ⦃X = process⦄ start (last_config none xs) cfg
        × Untouched start u)
      (λ _ u.
        ((xs : List Argument) × AreWords xs
          × ((arguments ≡ words xs ++ "--config" ∷ [])
              ⊎ ((arguments ≡ words xs)
                  × Unloaded ⦃X = process⦄ ⦃P = machine⦄ start (last_config none xs))))
        × Untouched start u)
parse_args_example = parse_args_lem ⦃X = process⦄ ⦃P = machine⦄ "anki-backup-tool" arguments start

token_set : process.var "ANKI_BACKUP_API_TOKEN" ≡ some "t0k3n"
unfolding string_eq
token_set = refl

none-ne : none ≢ some ("Bearer " <> "t0k3n")
none-ne e = cc

app_state-token_example :
    (status_of
        (serve ⦃P = machine⦄ ⦃F = formats⦄ ⦃Z = archiver⦄ ⦃N = network⦄
          (app_state ⦃X = process⦄ repository default_config)
          rollback_api
          "1111111"
          without_token
          service).0
      ≡ some unauthorized)
    × ((serve ⦃P = machine⦄ ⦃F = formats⦄ ⦃Z = archiver⦄ ⦃N = network⦄
          (app_state ⦃X = process⦄ repository default_config)
          rollback_api
          "1111111"
          without_token
          service).1
        ≡ service)
app_state-token_example =
    app_state-token ⦃X = process⦄ repository default_config ⦃P = machine⦄ ⦃F = formats⦄
      ⦃Z = archiver⦄ ⦃N = network⦄ "t0k3n" rollback_api "1111111" without_token service
      (inl token_set) refl none-ne
