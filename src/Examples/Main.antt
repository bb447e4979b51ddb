-- ===== src/Examples/Main.antt =====
-- The command `run-once` on an empty repository in ./data, with an account in the environment.
use anki_backup_tool.Base.{
  ℕ, false, none, some, [], ◌∷◌, ◌≡◌, refl, arith, if◌then◌else◌, ◌==◌, string_eq, nat_eq,
}
use anki_backup_tool.Base.Text.{replace}
use anki_backup_tool.World.{ok, pure, join}
use anki_backup_tool.World.Laws.{Ends}
use anki_backup_tool.World.Reads.{OnlyReads}
use anki_backup_tool.Store.Postgres.{PgDb, postgres_store}
use anki_backup_tool.Store.Postgres.Rep.{PgRep}
use anki_backup_tool.Store.Postgres.Contract.{postgres_store-IsStore}
use anki_backup_tool.Repository.{backup_dir, format_timestamp_dir}
use anki_backup_tool.Service.Config.{
  default_config, Process, parse_args, parse_words, config_at, startup,
}
use anki_backup_tool.Service.Main.{Outside, main}
use anki_backup_tool.Service.Main.Safe.{Runs, Stopped, main_lem}
use anki_backup_tool.Examples.Machine.{newest_first, newest_first-IsOrdering, libraries}
use anki_backup_tool.Examples.Live.{calm_machine, plain-IsLawful, empty, empty-PgRep}
use anki_backup_tool.Examples.Server.{archiver, formats}
use anki_backup_tool.Examples.Sync.{network}

abbrev process : Process
process = record {
  var = λ name.
      if name == "ANKIWEB_USERNAME"
      then some "ann"
      else if name == "ANKIWEB_PASSWORD"
      then some "pw"
      else none;
  path_from = λ s. s ∷ [];
  utf8 = λ bytes. some "";
  toml_from_str = λ s. some default_config;
}

abbrev outside : Outside PgDb
outside = record {
  store = λ b. postgres_store ⦃P = calm_machine⦄ newest_first;
  new_store = λ b. pure tt;
  parse_addr = λ s. some s;
}

reads_args :
    (parse_args ⦃X = process⦄ ⦃P = calm_machine⦄ ("anki-backup-tool" ∷ "run-once" ∷ []) empty).0
    ≡ ok (default_config, some "run-once")
unfolding parse_args parse_words config_at string_eq
reads_args = refl

opens : OnlyReads {S = PgDb} (pure tt)
opens w = record { holds = (refl, refl) }

no_directory :
    (n : ℕ)
    → empty.disk.dirs (
        backup_dir
          ((startup ⦃X = process⦄ default_config (some "run-once")).root ∷ [])
          (format_timestamp_dir ⦃P = calm_machine⦄ (calm_machine.times n)))
      ≡ false
unfolding startup join string_eq backup_dir format_timestamp_dir replace nat_eq
no_directory n = refl

main_example :
    Ends
      (main ⦃X = process⦄ ⦃P = calm_machine⦄ outside ⦃N = network⦄
        ("anki-backup-tool" ∷ "run-once" ∷ [])
        empty)
      (Runs ⦃X = process⦄ ⦃P = calm_machine⦄ ⦃F = formats⦄ ⦃Z = archiver⦄ ⦃N = network⦄ outside
        (PgRep ⦃P = calm_machine⦄)
        libraries.timestamptz
        []
        []
        default_config
        (some "run-once"))
      (λ _ u.
        Stopped ⦃X = process⦄ ⦃P = calm_machine⦄ ⦃F = formats⦄ ⦃Z = archiver⦄ ⦃N = network⦄ outside
          (PgRep ⦃P = calm_machine⦄)
          libraries.timestamptz
          []
          []
          default_config
          (some "run-once")
          u)
main_example =
    main_lem ⦃X = process⦄ ⦃P = calm_machine⦄ ⦃F = formats⦄ ⦃Z = archiver⦄ ⦃N = network⦄ outside
      (PgRep ⦃P = calm_machine⦄) libraries.timestamptz [] [] default_config (some "run-once")
      (postgres_store-IsStore ⦃P = calm_machine⦄ newest_first newest_first-IsOrdering
        plain-IsLawful)
      plain-IsLawful (λ n. omega arith) "anki-backup-tool" ("run-once" ∷ []) empty reads_args opens
      empty-PgRep (tt, λ dir. omega arith) no_directory
