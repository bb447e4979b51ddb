-- ===== src/Server/Router/Screen.antt =====
-- crates/daemon/src/server.rs: what the routes have in common.
use anki_backup_tool.Base.{String, Bool, true, false, Option, none, some, List, map, ◌≡◌, refl}
use anki_backup_tool.Backup.{Uuid, DateTime, BackupEntry}
use anki_backup_tool.World.{Platform, World}
use anki_backup_tool.World.Reads.{Untouched}
use anki_backup_tool.Store.Contract.{IsStore}
use anki_backup_tool.Sync.{Network}
use anki_backup_tool.Repository.{list_backups}
use anki_backup_tool.Server.{
  StatusCode, internal_server_error, HeaderMap, AppState, Service, Reply, json, status,
  require_api_auth, rollback_backup,
}
use anki_backup_tool.Server.Api.{
  Response, answer, refused, BackupSummary, Archiver, api_list_backups, api_backup_detail,
  download_backup,
}
use anki_backup_tool.Server.Pages.{
  Formats, list_item, detail_view, text_or_empty, index, backup_detail,
}
use anki_backup_tool.Server.Reading.{
  Looked, guarded, unparsed, unread, absent, shown, Listed, reader_answered-ends, with_backup_lem,
  api_list_backups_lem, api_backup_detail_lem, download_backup_lem,
}
use anki_backup_tool.Server.Router.{
  Endpoint, index_page, detail_page, healthz_api, list_api, detail_api, download_api, rollback_api,
  Answer, page_of_backups, page_of_backup, health, summaries, detail, archive, rolled, serve,
}

-- The handlers that call `require_api_auth`.
abbrev pub needs_token : Endpoint → Bool
needs_token index_page = false
needs_token detail_page = false
needs_token healthz_api = false
needs_token list_api = true
needs_token detail_api = true
needs_token download_api = true
needs_token rollback_api = true

-- The handlers of GET requests.
abbrev pub only_reads : Endpoint → Bool
only_reads index_page = true
only_reads detail_page = true
only_reads healthz_api = true
only_reads list_api = true
only_reads detail_api = true
only_reads download_api = true
only_reads rollback_api = false

abbrev pub refusal : {A : Type 0} → Response A → Option StatusCode
refusal (answer a) = none
refusal (refused code) = some code

abbrev pub reply_status : Reply → Option StatusCode
reply_status (json id uploaded) = none
reply_status (status code) = some code

-- The error status of an answer.
abbrev pub status_of : Answer → Option StatusCode
status_of (page_of_backups r) = refusal r
status_of (page_of_backup r) = refusal r
status_of (health s) = none
status_of (summaries r) = refusal r
status_of (detail r) = refusal r
status_of (archive r) = refusal r
status_of (rolled r) = reply_status r

module _ ⦃P : Platform⦄ ⦃F : Formats⦄ ⦃Z : Archiver⦄ ⦃N : Network⦄ {S : Type 0}
    (state : AppState S) where
  -- The answer of a handler that asks for a token and refuses, or that asks for none.
  abbrev pub Screened : Endpoint → String → HeaderMap → Service S → StatusCode → Bool → Type 0
  Screened e id headers s code true =
      (status_of (serve state e id headers s).0 ≡ some code) × ((serve state e id headers s).1 ≡ s)
  Screened e id headers s code false =
      (others : HeaderMap) → serve state e id headers s ≡ serve state e id others s

  -- A request to a handler of the backups that the token check refuses is answered with the code of
  -- the refusal, whatever its path names, and leaves the service as it was. The listing page, the page
  -- of a backup and the health check ask for no token: with any other headers the answer and the
  -- service after it are the same.
  pub serve-refuses :
      (e : Endpoint) (id : String) (headers : HeaderMap) (s : Service S) (code : StatusCode)
      → require_api_auth state.api_token headers ≡ some code
      → Screened e id headers s code (needs_token e)
  unfolding serve api_list_backups api_backup_detail download_backup rollback_backup
  serve-refuses index_page id headers s code why = λ others. refl
  serve-refuses detail_page id headers s code why = λ others. refl
  serve-refuses healthz_api id headers s code why = λ others. refl
  serve-refuses list_api id headers s code why = rw why (refl, refl)
  serve-refuses detail_api id headers s code why = rw why (refl, refl)
  serve-refuses download_api id headers s code why = rw why (refl, refl)
  serve-refuses rollback_api id headers s code why = rw why (refl, refl)

module _ ⦃P : Platform⦄ {S A : Type 0} (es : List BackupEntry) (w : World S) where
  Looked-Untouched :
      {guard : Option StatusCode} {id : String} {T : BackupEntry → Response A → Type 0}
      {a : Response A × World S}
      → Looked es w guard id T a
      → Untouched w a.1
  Looked-Untouched (guarded code why is same) = same
  Looked-Untouched (unparsed auth bad is same) = same
  Looked-Untouched (unread auth fault is same) = same
  Looked-Untouched (absent i auth parsed gone is same) = same
  Looked-Untouched (shown i b auth parsed found is same) = same

module _ ⦃P : Platform⦄ ⦃F : Formats⦄ {S : Type 0} (state : AppState S)
    (Rep : S → List BackupEntry → List (Uuid × Uuid) → Type 0) {stamp : DateTime → DateTime}
    (contract : IsStore state.repo.store Rep stamp) (es : List BackupEntry)
    (evs : List (Uuid × Uuid)) where
  module _ (w : World S) (rep : Rep w.store es evs) where
    Listed-Untouched :
        {headers : HeaderMap} {a : Response (List BackupSummary) × World S}
        → Listed state Rep contract es evs w rep headers a
        → Untouched w a.1
    Listed-Untouched (Listed.guarded code why is same) = same
    Listed-Untouched (Listed.unread fault is same) = same
    Listed-Untouched (Listed.shown xs auth items sorted is same) = same

    index-Untouched : Untouched w (index state w).1
    unfolding index list_backups
    index-Untouched =
        reader_answered-ends (λ a. Untouched w a.1) (list_backups state.repo w).0
          (list_backups state.repo w).1 internal_server_error
          (λ backups u. (answer (map list_item backups), u)) (contract.list es evs w rep)
          (λ xs (store, disk, same, sorted). (disk, store))
          (λ x (store, disk, fault). (disk, store))

    -- The page of a backup is shown without a token being asked for, and it carries the CSRF token of
    -- the service; 404, 400 and 500 are as in the API. Nothing changes. The store keeps its contract.
    pub backup_detail_lem :
        (id : String)
        → Looked es w none id
            (λ b a.
              a
              ≡ answer
                  (record { backup = detail_view b; csrf_token = text_or_empty state.csrf_token }))
            (backup_detail state id w)
    unfolding backup_detail
    backup_detail_lem id =
        with_backup_lem state Rep contract es evs w rep none id
          (λ b u. (
            answer (record { backup = detail_view b; csrf_token = text_or_empty state.csrf_token }),
            u,
          ))
          (λ b a.
            a
            ≡ answer
                (record { backup = detail_view b; csrf_token = text_or_empty state.csrf_token }))
          (λ b u same. (refl, same))

  module _ ⦃Z : Archiver⦄ ⦃N : Network⦄ where
    -- Only the rollback changes anything: a request to any other handler leaves the disk, the database
    -- and the gate as they were. The store keeps its contract.
    pub serve-Untouched :
        (e : Endpoint) (id : String) (headers : HeaderMap) (s : Service S)
        → only_reads e ≡ true
        → Rep s.world.store es evs
        → Untouched s.world (serve state e id headers s).1.world
          × ((serve state e id headers s).1.rollback_gate ≡ s.rollback_gate)
    unfolding serve
    serve-Untouched index_page id headers s is rep = (index-Untouched s.world rep, refl)
    serve-Untouched detail_page id headers s is rep =
        (Looked-Untouched es s.world (backup_detail_lem s.world rep id), refl)
    serve-Untouched healthz_api id headers s is rep = ((refl, refl), refl)
    serve-Untouched list_api id headers s is rep = (
      Listed-Untouched s.world rep
          (api_list_backups_lem state Rep contract es evs s.world rep headers),
      refl,
    )
    serve-Untouched detail_api id headers s is rep = (
      Looked-Untouched es s.world
          (api_backup_detail_lem state Rep contract es evs s.world rep id headers),
      refl,
    )
    serve-Untouched download_api id headers s is rep = (
      Looked-Untouched es s.world
          (download_backup_lem state Rep contract es evs s.world rep id headers),
      refl,
    )
    serve-Untouched rollback_api id headers s is rep = cc
