-- ===== src/Service/Main/Safe.antt =====
-- What `main` leaves, whatever it is started with: after the run of the command line, or at any time of
-- the daemon.
use anki_backup_tool.Base.{
  ℕ, ◌<◌, String, true, false, Option, none, some, List, ◌≡◌, ◌≢◌, refl, sym, ap, ◌∙◌, ◌⊎◌, inl,
  inr, Bool-cases, ◌==◌, ==-sound, ==-true, string_eq,
}
use anki_backup_tool.Backup.{Uuid, DateTime, BackupEntry, year_10000}
use anki_backup_tool.Libraries.{IsLawful}
use anki_backup_tool.World.{Platform, World, ok}
use anki_backup_tool.World.Laws.{Ends-always, Ends, Ends-bind, Ends-after, Ends-there, Ends-ok_or}
use anki_backup_tool.World.Reads.{Untouched, OnlyReads, OnlyReads-attempt}
use anki_backup_tool.Store.Contract.{IsStore}
use anki_backup_tool.Repository.{BackupRepository, backup_dir, format_timestamp_dir}
use anki_backup_tool.Repository.Safe.{IsSafe, true≢false}
use anki_backup_tool.Repository.Reach
use anki_backup_tool.Repository.Reach.{Reach-IsSafe, Reach, Step, here, next, run}
use anki_backup_tool.Sync.{Network}
use anki_backup_tool.Service.{content_hash, run_once_command}
use anki_backup_tool.Service.Round.{OneMore}
use anki_backup_tool.Service.Tasks.{Running, Tasks}
use anki_backup_tool.Service.Tasks.Safe.{Tasks-IsSafe}
use anki_backup_tool.Server.Router.Spacing.{Passage}
use anki_backup_tool.Repository.Intact.{AllIntact}
use anki_backup_tool.Repository.RunOnce.StoreBackup.{format_timestamp_dir-nonempty}
use anki_backup_tool.Repository.Start.{open_with-Reach, open_with-elsewhere}
use anki_backup_tool.Server.Api.{Archiver}
use anki_backup_tool.Server.Pages.{Formats}
use anki_backup_tool.Base.{◌∷◌}
use anki_backup_tool.World.{malformed, attempt, tick}
use anki_backup_tool.Service.Config.{
  Config, Process, startup, command_of, parse_args, app_state, sync_config, service_retention,
  unwrap_or, or_else,
}
use anki_backup_tool.Service.Config.Args.{parse_args_lem}
use anki_backup_tool.Service.Main.{
  Outside, Course, finished, serving, bind, run_service, run_command, repository_at, started, main,
}
use anki_backup_tool.Service.Main.Once.{run_once_command-keeps}

run_once_word :
    (mode : Option String) → (unwrap_or mode "" == "run-once") ≡ true → mode ≡ some "run-once"
run_once_word none e = absurd cc (==-sound {A = String} "" "run-once" e)
run_once_word (some m) e = ap some (==-sound m "run-once" e)

other_word :
    (mode : Option String) → (unwrap_or mode "" == "run-once") ≡ false → mode ≢ some "run-once"
other_word mode e is =
    true≢false (sym (==-true (unwrap_or mode "") "run-once" (ap (λ m. unwrap_or m "") is)) ∙ e)

module _ ⦃X : Process⦄ ⦃P : Platform⦄ ⦃F : Formats⦄ ⦃Z : Archiver⦄ ⦃N : Network⦄ {S : Type 0}
    (outside : Outside S) (Rep : S → List BackupEntry → List (Uuid × Uuid) → Type 0)
    (stamp : DateTime → DateTime) (es : List BackupEntry) (evs : List (Uuid × Uuid)) (cfg : Config)
    (mode : Option String) where
  abbrev repo : BackupRepository S
  repo = repository_at outside (startup cfg mode)

  -- A repository whose backups are all there, with the entries that it had, and after them at most
  -- one more.
  abbrev pub Left : World S → Type 0
  Left u = IsSafe repo content_hash Rep u × OneMore repo Rep stamp es evs u

  -- After the run of the command line.
  abbrev pub Ran : World S → Type 0
  Ran u =
      (mode ≡ some "run-once") × IsSafe repo content_hash Rep u × OneMore repo Rep stamp es evs u

  -- A daemon with the settings, that has the entries and events that there were, and whose backups
  -- are all there whatever its tasks do.
  abbrev pub Serves : Course S → World S → Type 0
  Serves c u =
      (mode ≢ some "run-once")
      × ((addr : String) × (outside.parse_addr
              (unwrap_or (or_else (X.var "ANKI_BACKUP_LISTEN") cfg.server.listen) "127.0.0.1:8088")
            ≡ some addr)
          × (c ≡ serving addr (app_state repo cfg) (sync_config cfg) (service_retention cfg)))
      × Rep u.store es evs
      × ((ps : List Passage) (r : Running S)
          → Tasks (app_state repo cfg) (sync_config cfg) (service_retention cfg) u ps r
          → IsSafe repo content_hash Rep r.service.world)

  abbrev pub Runs : Course S → World S → Type 0
  Runs c u = ((c ≡ finished) × Ran u) ⊎ Serves c u

  -- What a `main` that fails leaves: what there was, or what a run leaves.
  abbrev pub Stopped : World S → Type 0
  Stopped u = (Rep u.store es evs × AllIntact repo.root content_hash u.disk es) ⊎ Ran u

  module _ (contract : IsStore repo.store Rep stamp) (lawful : IsLawful P.lib)
      (dated : (n : ℕ) → P.times n < year_10000) where
    every_time :
        (v : World S)
        → IsSafe repo content_hash Rep v
        → (ps : List Passage) (r : Running S)
        → Tasks (app_state repo cfg) (sync_config cfg) (service_retention cfg) v ps r
        → IsSafe repo content_hash Rep r.service.world
    unfolding app_state
    every_time v safe ps r tasks =
        Tasks-IsSafe (app_state repo cfg) (sync_config cfg) (service_retention cfg) Rep contract
          lawful dated {w = v} {ps = ps} {r = r} safe tasks

    run_service-Runs :
        (u : World S)
        → (unwrap_or mode "" == "run-once") ≡ false
        → IsSafe repo content_hash Rep u
        → Rep u.store es evs
        → AllIntact repo.root content_hash u.disk es
        → Ends
            (run_service outside repo
              (unwrap_or (or_else (X.var "ANKI_BACKUP_LISTEN") cfg.server.listen) "127.0.0.1:8088")
              cfg
              u)
            Runs
            (λ _ v. Stopped v)
    unfolding run_service bind attempt
    run_service-Runs u word safe rep whole =
        Ends-ok_or (outside.parse_addr _) (malformed "invalid listen address") _ u
          (λ addr named.
            Ends-bind
              (OnlyReads-attempt (P.fates u.step) (λ v. (ok tt, tick v)) "bind"
                (λ v. record { holds = (refl, refl) }) u)
              (λ a v (disk, store). record {
                holds = inr (
                  other_word mode word,
                  (addr, named, refl),
                  rw store rep,
                  λ ps r tasks.
                      every_time v
                        (Reach-IsSafe repo content_hash Rep contract lawful dated u v safe
                          (next here (Reach.read u v (disk, store))))
                        ps r tasks,
                );
              })
              (λ x v (disk, store). inl (rw store rep, rw disk whole)))
          (λ bad. inl (rep, whole))

    run_command-Runs :
        (u : World S)
        → IsSafe repo content_hash Rep u
        → Rep u.store es evs
        → AllIntact repo.root content_hash u.disk es
        → ((n : ℕ) → u.disk.dirs (backup_dir repo.root (format_timestamp_dir (P.times n))) ≡ false)
        → Ends (run_command outside repo (command_of cfg mode) u) Runs (λ _ v. Stopped v)
    unfolding run_command command_of
    run_command-Runs u safe rep whole new = elim (Bool-cases (unwrap_or mode "" == "run-once")) [
      | inl is ↦ rw is (
          Ends-bind
            (Ends-always Left (run_once_command repo (sync_config cfg) u) (
              run_once_command-keeps repo Rep stamp es evs contract lawful dated (sync_config cfg) u
                safe rep new))
            (λ a v left. record { holds = inl (refl, (run_once_word mode is, left.0, left.1)) })
            (λ x v left. inr (run_once_word mode is, left.0, left.1)))
      | inr is ↦ rw is (run_service-Runs u is safe rep whole)
    ]

    started-Runs :
        (w : World S)
        → OnlyReads (outside.new_store (startup cfg mode).backend)
        → Rep w.store es evs
        → AllIntact repo.root content_hash w.disk es
        → ((n : ℕ) → w.disk.dirs (backup_dir repo.root (format_timestamp_dir (P.times n))) ≡ false)
        → Ends (started outside (cfg, mode) w) Runs (λ _ u. Stopped u)
    unfolding started startup command_of
    started-Runs w still rep whole new =
        let new_store = outside.new_store (startup cfg mode).backend in
        Ends-bind
          (Ends-there (
            open_with-Reach repo content_hash Rep contract lawful dated new_store still es evs w rep
              whole))
          (λ r u ((is, rep', whole', safe), there). rw is (
            run_command-Runs u (safe u here) rep' whole' (λ n.
              ap
                (λ (k : World S).
                  k.disk.dirs (backup_dir repo.root (format_timestamp_dir (P.times n))))
                there
              ∙ open_with-elsewhere repo (format_timestamp_dir (P.times n))
                  (format_timestamp_dir-nonempty lawful _) new_store w still
              ∙ new n)))
          (λ x u kept. inl kept)

    pub main_lem :
        (program : String) (args : List String) (w : World S)
        → (parse_args (program ∷ args) w).0 ≡ ok (cfg, mode)
        → OnlyReads (outside.new_store (startup cfg mode).backend)
        → Rep w.store es evs
        → AllIntact repo.root content_hash w.disk es
        → ((n : ℕ) → w.disk.dirs (backup_dir repo.root (format_timestamp_dir (P.times n))) ≡ false)
        → Ends (main outside (program ∷ args) w) Runs (λ _ u. Stopped u)
    unfolding main
    main_lem program args w read still rep whole new =
        let v = (parse_args (program ∷ args) w).1 in
        let (disk, store) =
          Ends-after (λ v. Untouched w v) (parse_args_lem program args w)
            (λ a (xs, ws, e, m, loaded, same). same) (λ x h. h.1) in
        rw read (started-Runs v still (rw store rep) (rw disk whole) (λ n. rw disk (new n)))
