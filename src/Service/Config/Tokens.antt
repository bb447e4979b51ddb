-- ===== src/Service/Config/Tokens.antt =====
-- What the environment sets against the configuration file.
use anki_backup_tool.Base.{
  subst, String, ◌<>◌, true, none, some, ◌≡◌, ◌≢◌, ◌⊎◌, refl, inl, inr, string_eq, ◌∙◌, sym, ap,
}
use anki_backup_tool.World.{Platform}
use anki_backup_tool.Sync.{Network}
use anki_backup_tool.Repository.{BackupRepository}
use anki_backup_tool.Server.{unauthorized, HeaderMap, Service, require_api_auth}
use anki_backup_tool.Server.Api.{Archiver}
use anki_backup_tool.Server.Pages.{Formats}
use anki_backup_tool.Server.Guards.{require_api_auth_lem, refused_with}
use anki_backup_tool.Server.Router.{Endpoint, serve}
use anki_backup_tool.Server.Router.Screen.{needs_token, status_of, Screened, serve-refuses}
use anki_backup_tool.Service.Config.{Config, Process, app_state}

some_inj : {s t : String} → some s ≡ some t → s ≡ t
some_inj h = cc

wrong_token :
    (t : String) (headers : HeaderMap)
    → headers.authorization ≢ some ("Bearer " <> t)
    → require_api_auth (some t) headers ≡ some unauthorized
wrong_token t headers other = elim (refused_with (some t) headers) [
  | inr is ↦ is
  | inl is ↦ absurd (mismatch ((require_api_auth_lem (some t) headers).0 is))
]
  where
    mismatch :
        (some t ≡ none)
          ⊎ ((s : String) × (some t ≡ some s) × (headers.authorization ≡ some ("Bearer " <> s)))
        → ⊥
    mismatch (inl e) = cc
    mismatch (inr (s, e, h)) = other (h ∙ ap (λ x. some ("Bearer " <> x)) (sym (some_inj e)))

module _ ⦃X : Process⦄ {S : Type 0} (repo : BackupRepository S) (cfg : Config) where
  configured :
      (t : String)
      → (X.var "ANKI_BACKUP_API_TOKEN" ≡ some t)
        ⊎ ((X.var "ANKI_BACKUP_API_TOKEN" ≡ none) × (cfg.security.api_token ≡ some t))
      → (app_state repo cfg).api_token ≡ some t
  unfolding app_state
  configured t (inl e) = rw e refl
  configured t (inr (e, h)) = rw (e, h) refl

  -- With a token in the environment, or with none there and one in the configuration file, every
  -- request to a handler of the backups without that token as a bearer is answered with 401 and
  -- changes nothing.
  pub app_state-token :
      ⦃P : Platform⦄
      → ⦃F : Formats⦄ → ⦃Z : Archiver⦄ → ⦃N : Network⦄
      → (t : String) (e : Endpoint) (id : String) (headers : HeaderMap) (s : Service S)
      → (X.var "ANKI_BACKUP_API_TOKEN" ≡ some t)
        ⊎ ((X.var "ANKI_BACKUP_API_TOKEN" ≡ none) × (cfg.security.api_token ≡ some t))
      → needs_token e ≡ true
      → headers.authorization ≢ some ("Bearer " <> t)
      → (status_of (serve (app_state repo cfg) e id headers s).0 ≡ some unauthorized)
        × ((serve (app_state repo cfg) e id headers s).1 ≡ s)
  app_state-token t e id headers s where_from need other =
      subst (Screened (app_state repo cfg) e id headers s unauthorized) need (
        serve-refuses (app_state repo cfg) e id headers s unauthorized (
          ap (λ o. require_api_auth o headers) (configured t where_from)
          ∙ wrong_token t headers other))
