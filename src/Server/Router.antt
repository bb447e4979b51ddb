-- ===== src/Server/Router.antt =====
-- crates/daemon/src/server.rs: `build_router`, and the request that reaches each handler.
pub mod Screen
pub mod Spacing
use anki_backup_tool.Base.{String, List, [], ◌∷◌}
use anki_backup_tool.Backup.{BackupEntry}
use anki_backup_tool.World.{Platform, World}
use anki_backup_tool.Sync.{Network}
use anki_backup_tool.Server.{HeaderMap, AppState, Service, Reply, rollback_backup}
use anki_backup_tool.Server.Api.{
  Response, Reader, BackupSummary, Download, Archiver, healthz, api_list_backups, api_backup_detail,
  download_backup,
}
use anki_backup_tool.Server.Pages.{Formats, BackupListItem, DetailTemplate, index, backup_detail}

pub data Method : Type 0 where
  get post : Method

-- The handlers.
pub data Endpoint : Type 0 where
  index_page detail_page healthz_api list_api detail_api download_api rollback_api : Endpoint

pub record Route : Type 0 where
  pub path : String
  pub method : Method
  pub handler : Endpoint

abbrev pub build_router : List Route
build_router =
    record { path = "/"; method = get; handler = index_page }
    ∷ record { path = "/backups/{id}"; method = get; handler = detail_page }
    ∷ record { path = "/backups/{id}/download"; method = get; handler = download_api }
    ∷ record { path = "/backups/{id}/rollback"; method = post; handler = rollback_api }
    ∷ record { path = "/api/v1/healthz"; method = get; handler = healthz_api }
    ∷ record { path = "/api/v1/backups"; method = get; handler = list_api }
    ∷ record { path = "/api/v1/backups/{id}"; method = get; handler = detail_api }
    ∷ record { path = "/api/v1/backups/{id}/download"; method = get; handler = download_api }
    ∷ record { path = "/api/v1/backups/{id}/rollback"; method = post; handler = rollback_api }
    ∷ []

-- What a request is answered with.
pub data Answer : Type 0 where
  page_of_backups : Response (List BackupListItem) → Answer
  page_of_backup : Response DetailTemplate → Answer
  health : String → Answer
  summaries : Response (List BackupSummary) → Answer
  detail : Response BackupEntry → Answer
  archive : Response Download → Answer
  rolled : Reply → Answer

module _ {S : Type 0} where
  -- A reading handler in the service.
  abbrev pub reads :
      {A : Type 0} → (Response A → Answer) → Reader S A → Service S → Answer × Service S
  reads f k s = (f (k s.world).0, record { rollback_gate = s.rollback_gate; world = (k s.world).1 })

  module _ ⦃P : Platform⦄ ⦃F : Formats⦄ ⦃Z : Archiver⦄ ⦃N : Network⦄ (state : AppState S) where
    -- A request to an endpoint, with the `{id}` of its path.
    unfoldable pub serve : Endpoint → String → HeaderMap → Service S → Answer × Service S
    serve index_page id headers s = reads page_of_backups (index state) s
    serve detail_page id headers s = reads page_of_backup (backup_detail state id) s
    serve healthz_api id headers s = (health healthz, s)
    serve list_api id headers s = reads summaries (api_list_backups state headers) s
    serve detail_api id headers s = reads detail (api_backup_detail state id headers) s
    serve download_api id headers s = reads archive (download_backup state id headers) s
    serve rollback_api id headers s =
        let out = rollback_backup state id headers s in (rolled out.0, out.1)
