-- ===== src/Server/Steps.antt =====
-- A request as a sequence of operations of the repository, however its calls end.
use anki_backup_tool.Base.{String, Option, none, some, List, true, ◌≡◌, refl, Bool-cases, inl, inr}
use anki_backup_tool.Backup.{Uuid, DateTime, Bytes, BackupEntry}
use anki_backup_tool.World.{Platform, World, Result, ok, err, read, now}
use anki_backup_tool.World.Reads.{Untouched, Ends-read_any}
use anki_backup_tool.Store.Contract.{IsStore}
use anki_backup_tool.Repository.{backup_file_path, rollback_to}
use anki_backup_tool.Repository.Reach
use anki_backup_tool.Repository.Reach.{Reach, here, next, rollback}
use anki_backup_tool.Sync.{Network, SyncConfig, upload_collection}
use anki_backup_tool.Sync.Wire.{on_wire, upload-on_wire}
use anki_backup_tool.Server.{
  HeaderMap, AppState, Service, Reply, StatusCode, bad_gateway, bad_request, Handler, answered,
  finish, upload_rolled, with_id, gate_guard, guarded, rollback_backup, require_api_auth,
  require_csrf, within_ten_seconds,
}
use anki_backup_tool.Server.Rollback.{answered-ends}
use anki_backup_tool.Server.Api.{Archiver}
use anki_backup_tool.Server.Pages.{Formats}
use anki_backup_tool.Server.Router.{
  Endpoint, index_page, detail_page, healthz_api, list_api, detail_api, download_api, rollback_api,
  serve,
}
use anki_backup_tool.Server.Router.Screen.{only_reads, serve-Untouched}

module _ ⦃P : Platform⦄ ⦃N : Network⦄ {S : Type 0} (state : AppState S) (hash : Bytes → String)
    (w : World S) where
  -- The operations that lead to a world.
  abbrev pub Led : World S → Type 0
  Led u = Reach state.repo hash w u

  abbrev After : Reply × Service S → Type 0
  After (r, s) = Led s.world

  pub read_next : (u v : World S) → Led u → Untouched u v → Led v
  read_next u v path same = next path (Reach.read u v same)

  pub finish-After : (id : Uuid) (s : Service S) → Led s.world → After (finish state id s)
  unfolding finish now
  finish-After id s path = read_next s.world (now s.world).1 path (refl, refl)

  upload_rolled-After :
      (o : Option SyncConfig) (b : BackupEntry) (s : Service S)
      → Led s.world
      → After (upload_rolled state o b s)
  unfolding upload_rolled
  upload_rolled-After none b s path = finish-After b.id s path
  upload_rolled-After (some cfg) b s path =
      let v =
        (read (backup_file_path state.repo b) "failed to read backup file for upload" s.world).1 in
      answered-ends After _ v _ _ s
        (Ends-read_any (backup_file_path state.repo b) "failed to read backup file for upload"
          s.world)
        (λ bytes (held, same).
          delivered bytes (record s { world = v }) (read_next s.world v path same))
        (λ x (same, why). read_next s.world v path same)
    where
      delivered :
          (bytes : Bytes) (r : Service S)
          → Led r.world
          → After (
              answered
                (on_wire (upload_collection cfg bytes) r.world)
                bad_gateway
                (λ _. finish state b.id)
                r)
      delivered bytes r path =
          let u = (on_wire (upload_collection cfg bytes) r.world).1 in
          answered-ends After _ u _ _ r (upload-on_wire cfg bytes r.world)
            (λ a (sent, still).
              finish-After b.id (record r { world = u }) (read_next r.world u path still))
            (λ x (why, still). read_next r.world u path still)

  with_id-After : (i : Option Uuid) (s : Service S) → Led s.world → After (with_id state i s)
  unfolding with_id answered
  with_id-After none s path = path
  with_id-After (some i) s path =
      let u = (rollback_to state.repo i s.world).1 in
      rolled-After (rollback_to state.repo i s.world).0 u (next path (rollback i s.world))
    where
      rolled-After :
          (r : Result BackupEntry) (u : World S)
          → Led u
          → After (answered (r, u) bad_request (λ b. upload_rolled state state.sync_config b) s)
      rolled-After (ok b) u path =
          upload_rolled-After state.sync_config b (record s { world = u }) path
      rolled-After (err x) u path = path

  gate_guard-After :
      (gate : Option DateTime) (k : Handler S) (s : Service S)
      → Led s.world
      → ((v : Service S) → Led v.world → After (k v))
      → After (gate_guard gate k s)
  unfolding gate_guard now
  gate_guard-After none k s path h = h s path
  gate_guard-After (some last) k s path h =
      elim (Bool-cases (within_ten_seconds (P.times s.world.step) last)) [
        | inl soon ↦ rw soon (read_next s.world (now s.world).1 path (refl, refl))
        | inr late ↦ rw late (h _ (read_next s.world (now s.world).1 path (refl, refl)))
      ]

  guarded-After :
      (code : Option StatusCode) (k : Handler S) (s : Service S)
      → Led s.world
      → After (k s)
      → After (guarded code k s)
  guarded-After none k s path h = h
  guarded-After (some code) k s path h = path

  pub rollback_backup-After :
      (id : String) (headers : HeaderMap) (s : Service S)
      → Led s.world
      → After (rollback_backup state id headers s)
  unfolding rollback_backup
  rollback_backup-After id headers s path =
      guarded-After (require_api_auth state.api_token headers) _ s path (
        guarded-After (require_csrf state.csrf_token headers) _ s path (
          gate_guard-After s.rollback_gate _ s path
            (λ v path'. with_id-After (P.uuid_parse_str id) v path')))

module _ ⦃P : Platform⦄ ⦃N : Network⦄ ⦃F : Formats⦄ ⦃Z : Archiver⦄ {S : Type 0} (state : AppState S)
    (hash : Bytes → String) (Rep : S → List BackupEntry → List (Uuid × Uuid) → Type 0)
    {stamp : DateTime → DateTime} (contract : IsStore state.repo.store Rep stamp)
    (es : List BackupEntry) (evs : List (Uuid × Uuid)) where
  -- A request is at most one operation of the repository and what only reads.
  still :
      (e : Endpoint) (id : String) (headers : HeaderMap) (s : Service S)
      → Rep s.world.store es evs
      → only_reads e ≡ true
      → Reach state.repo hash s.world (serve state e id headers s).1.world
  still e id headers s rep is =
      next here
        (Reach.read s.world _ (serve-Untouched state Rep contract es evs e id headers s is rep).0)

  pub serve-Reach :
      (e : Endpoint) (id : String) (headers : HeaderMap) (s : Service S)
      → Rep s.world.store es evs
      → Reach state.repo hash s.world (serve state e id headers s).1.world
  unfolding serve
  serve-Reach rollback_api id headers s rep =
      rollback_backup-After state hash s.world id headers s here
  serve-Reach index_page id headers s rep = still index_page id headers s rep refl
  serve-Reach detail_page id headers s rep = still detail_page id headers s rep refl
  serve-Reach healthz_api id headers s rep = still healthz_api id headers s rep refl
  serve-Reach list_api id headers s rep = still list_api id headers s rep refl
  serve-Reach detail_api id headers s rep = still detail_api id headers s rep refl
  serve-Reach download_api id headers s rep = still download_api id headers s rep refl
