-- ===== src/Lib.antt =====
-- anki-backup-tool keeps backups of an AnkiWeb collection. A payload that the sync client has fetched
-- goes to the repository, which compares its hash with the last one, stores the file beside a metadata
-- database (SQLite or Postgres), and keeps a pointer to the current backup; a rollback moves the pointer,
-- and pruning removes old backups.
--
-- The files and what they model:
--   Backup         crates/core/src/backup.rs: entries, their status and their statistics
--   World          the clock, the ids, `std::fs` and database statements, each of which may fail. The
--                  state of a run is a `World`: the disk, the database's state and the number of calls
--                  made. A `Platform` says how each call ends, so that a theorem over every `Platform` is
--                  one over every pattern of failures: a call is done, refused, or broken off half-way
--                  (a file with a part of its bytes, a directory half removed). World.Laws has
--                  the rules for chains of calls; Calls, Reads and Directories are about how each ends
--   Libraries      what third-party crates compute (uuid, chrono, serde_json, sha2, hex, rusqlite on a
--                  collection file), as parameters; `IsLawful` is the documented behaviour that the
--                  theorems use
--   Store          crates/storage/src/store.rs: the trait `MetadataStore` as a record; Store.Contract is
--                  what the repository relies on, over lists of entries and of events
--   Store.Postgres crates/storage/src/postgres_store.rs: tables as lists of rows, one statement per
--                  method; its child modules are about rows read back, insertions, and the contract
--   Store.Sqlite, Store.SqliteRows
--                  crates/storage/src/sqlite_store.rs: texts for ids and times, statement by statement; the
--                  child modules are about rows read back, insertions, the loop of deletions, and the
--                  contract
--   Stats          crates/storage/src/repository.rs: `extract_stats` and the readings of deck names;
--                  Stats.Decks is about names, Stats.Groups about counts, Stats.Tables and Stats.Extract
--                  about the statistics of a file
--   Repository     crates/storage/src/repository.rs: `BackupRepository`, over any store; Repository.Paths
--                  is the layout of the files, and Pointer, NewEntry, RunOnce, Twice, Rollback and Prune are
--                  about what each operation leaves; Intact, Safe, Reach and
--                  Start are about sequences of them, Live about runs without a fault
--   Base           lists, options, texts, integers and sorting that the others share
--   Server         crates/daemon/src/server.rs: authentication and the rollback handler; the gate and the
--                  world are the state that a handler passes on. Server.Api has the handlers that only
--                  read, Server.Pages the two pages up to their HTML, Server.Router the routes. Guards,
--                  Rollback, Reading and Router.Screen are about what the answers mean,
--                  Router.Spacing about rollbacks over time, Restore about a download after a backup,
--                  and Steps about requests as operations of the repository. Server.Stages is the
--                  rollback handler in two stages, up to its upload and from there
--   Sync           crates/sync/src/lib.rs: the client, over a `Network` that answers the n-th request.
--                  A run of it keeps the list of the requests sent. Sync.Messages has what is
--                  sent and answered, Sync.Session is the session id, Sync.Exchange is about one request,
--                  Sync.Flow and Sync.Collection about the order of the requests, and Sync.Wire puts a run
--                  of the client into a run of the daemon
--   Service        crates/daemon/src/main.rs: `main`, the scheduler's delay and one round, the `run-once`
--                  command, with crates/core/src/hash.rs. Service.Config is crates/daemon/src/config.rs
--                  with the arguments and the environment; Args and Tokens are about what they set.
--                  Service.Tasks is the daemon with its tasks between each other, Service.Main is
--                  `main` up to a daemon that answers; it knows the stores by what opens them
--   Examples       a machine, a database with one backup, and runs of the operations there
--
-- Times are nanoseconds since the year 0 and ids are numbers. A cutoff of retention before the year 0 is
-- taken for the panic that chrono has only further back, so a retention of more than 2,000 years is not
-- told apart from one that panics. Numbers are unbounded where the program
-- only stores them; `as i64` wraps as it does there. The rows of equal times come in an order that the
-- engine chooses, a parameter of the stores. All loops are over lists but that of the session id, which
-- has six rounds: enough for 32 bits.
--
-- Not modelled: the HTML of the pages, the matching of paths to routes, accepting connections;
-- connection pools and the blocking of async tasks; calls of the repository at the same time, but for
-- what goes on during an upload; logging.
pub mod Base
pub mod World
pub mod Libraries
pub mod Stats
pub mod Store
pub mod Repository
pub mod Backup
pub mod Examples
pub mod Server
pub mod Service
pub mod Sync
