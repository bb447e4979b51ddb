-- ===== src/Sync.antt =====
-- crates/sync/src/lib.rs: the AnkiWeb client. A run of it keeps the list of the requests that it has
-- sent; what the server answers to each is the network's choice.
pub mod Messages
pub mod Session
pub mod Exchange
pub mod Flow
pub mod Collection
pub mod Wire
use mathlib.Core.Option
unfoldable pub use Messages.{meta_response}
pub use Messages.{
  SyncConfig, SyncResult, SyncHeader, HostKeyRequest, HostKeyResponse, MetaRequest, MetaResponse,
  MetaFields, or_default, Request, Response, Network, Sent,
}
use anki_backup_tool.Base.{
  ℕ, ◌+◌, String, ◌<>◌, Bool, true, false, ◌&&◌, ◌||◌, Option, none, some, List, [], ◌∷◌, ◌++◌,
  length, leb, if◌then◌else◌, ◌==◌, nat_eq, string_eq,
}
use anki_backup_tool.Base.Int.{ℤ, as_i64}
use anki_backup_tool.Base.Trim.{trim_end_matches}
use anki_backup_tool.Backup.{Bytes}
use anki_backup_tool.World.{
  World, Io, Error, Result, ok, err, failed, malformed, missing_credentials, login_failed,
  download_failed, panicked, pure, fail, ok_or, ◌>>=◌, ◌>>◌,
}
use anki_backup_tool.Sync.Session.{simple_session_id}

abbrev sync_version : ℕ
sync_version = 11

abbrev default_endpoint : String
default_endpoint = "https://sync.ankiweb.net/"

abbrev client_version_short : String
client_version_short = "25.09.2,dev,linux"

abbrev client_version_long : String
client_version_long = "anki,25.09.2 (dev),linux"

pub record SyncRequestResult : Type 0 where
  pub payload : Bytes
  pub new_endpoint : Option String

abbrev pub is_redirection : ℕ → Bool
is_redirection code = leb 300 code && leb code 399

abbrev pub is_success : ℕ → Bool
is_success code = leb 200 code && leb code 299

-- `resp_bytes.starts_with(..)`
unfoldable pub starts_with : Bytes → Bytes → Bool
starts_with bs [] = true
starts_with [] (p ∷ ps) = false
starts_with (b ∷ bs) (p ∷ ps) = b == p && starts_with bs ps

abbrev pub zstd_magic : Bytes
zstd_magic = 0x28 ∷ 0xb5 ∷ 0x2f ∷ 0xfd ∷ []

abbrev pub url_of : String → String → String
url_of base method = (base <> "/sync/") <> method

abbrev pub trimmed : String → String
trimmed = trim_end_matches b'/'

-- The new base of a redirect: `location` of a response with a redirection status.
unfoldable pub redirect_of : Response → Option String
unfolding trim_end_matches
redirect_of r = if is_redirection r.status then Option.map trimmed r.location else none

abbrev pub header_of : String → String → SyncHeader
header_of hkey session_key = record {
  sync_version = sync_version;
  sync_key = hkey;
  client_ver = client_version_short;
  session_key = session_key;
}

-- `config.username.is_empty() || config.password.is_empty()`
abbrev pub no_credentials : SyncConfig → Bool
no_credentials config = config.username == "" || config.password == ""

-- b"{}"
abbrev pub empty_body : Bytes
empty_body = b'{' ∷ b'}' ∷ []

module _ ⦃N : Network⦄ where
  -- `client.post(..).send()`
  unfoldable pub send : Request → Io Sent Response
  send req w = (
    elim (N.post (length w.store) req) [ some r ↦ ok r | none ↦ err (failed req.url) ],
    record w { store = w.store ++ req ∷ [] },
  )

  -- The response that counts, and the base that it came from if it is another one.
  unfoldable pub follow :
      Option String → String → Request → Response → Io Sent (Response × Option String)
  follow none method first r = pure (r, none)
  follow (some base) method first r = do
    r2 ← send (record first { url = url_of base method })
    pure (r2, some base)

  -- A response with the magic number of zstd is decompressed.
  unfoldable pub unpacked : Bytes → Option Bytes
  unpacked bytes = if starts_with bytes zstd_magic then N.zstd_decompress bytes else some bytes

  unfoldable pub checked : String → Response → Io Sent Bytes
  checked method r =
      if is_success r.status
      then (do
        bytes ← ok_or r.bytes (failed method)
        ok_or (unpacked bytes) (failed "decompressing response"))
      else fail (failed method)

  -- The first request of a method.
  abbrev pub request_of : String → String → String → Bytes → Request
  request_of endpoint method header_json compressed_body = record {
    url = url_of (trimmed endpoint) method;
    anki_sync = header_json;
    body = compressed_body;
  }

  unfoldable pub sync_request :
      String → String → String → String → Bytes → Io Sent SyncRequestResult
  sync_request endpoint method hkey session_key body = do
    compressed_body ← ok_or (N.zstd_compress body) (failed "zstd_compress")
    header_json ← ok_or (N.header_to_json (header_of hkey session_key)) (malformed "header")
    let first = request_of endpoint method header_json compressed_body
    r ← send first
    (r2, new_endpoint) ← follow (redirect_of r) method first r
    payload ← checked method r2
    pure (record { payload = payload; new_endpoint = new_endpoint })

  -- `map_err` of a call
  unfoldable pub map_err : {A : Type 0} → (Error → Error) → Io Sent A → Io Sent A
  map_err f m w = (elim (m w).0 [ ok a ↦ ok a | err e ↦ err (f e) ], (m w).1)

  -- The host key and the session key
  unfoldable pub login : String → String → String → Io Sent (String × String)
  login endpoint username password = do
    session_key ← ok_or (simple_session_id N.random) panicked
    body ←
        ok_or (N.host_key_request_to_json (record { username = username; password = password }))
          (malformed "hostKey request")
    result ← map_err login_failed (sync_request endpoint "hostKey" "" session_key body)
    resp ←
        ok_or (N.host_key_response_from_json result.payload) (malformed "parsing hostKey response")
    pure (resp.key, session_key)

  -- The first requests of both flows: login and meta. The host key, the session key, the endpoint for the
  -- rest, and the response to meta.
  unfoldable pub meta : SyncConfig → Io Sent (SyncRequestResult × (String × String))
  meta config = do
    if N.builds_client then pure tt else fail (failed "client")
    let endpoint = or_default default_endpoint config.endpoint
    (hkey, session_key) ← login endpoint config.username config.password
    meta_body ←
        ok_or
          (N.meta_request_to_json
            (record { sync_version = sync_version; client_version = client_version_long }))
          (malformed "meta request")
    meta_result ← sync_request endpoint "meta" hkey session_key meta_body
    pure (meta_result, (hkey, session_key))

  -- The answer to meta has to parse, and the collection is not to be empty.
  unfoldable pub require_collection : Bytes → Io Sent Unit
  require_collection answer = do
    fields ← ok_or (N.meta_fields_from_json answer) (malformed "parsing meta response")
    if (meta_response fields).empty
        then fail (download_failed (failed "server collection is empty"))
        else pure tt

  unfoldable pub sync_collection : SyncConfig → Io Sent SyncResult
  sync_collection config = do
    if no_credentials config then fail missing_credentials else pure tt
    (meta_result, keys) ← meta config
    require_collection meta_result.payload
    let endpoint = or_default (or_default default_endpoint config.endpoint) meta_result.new_endpoint
    download_result ←
        map_err download_failed (sync_request endpoint "download" keys.0 keys.1 empty_body)
    pure (record {
      collection_bytes = download_result.payload;
      source_revision = none;
      sync_duration_ms = as_i64 N.elapsed_ms;
    })

  unfoldable pub upload_collection : SyncConfig → Bytes → Io Sent Unit
  upload_collection config collection_bytes = do
    if no_credentials config then fail missing_credentials else pure tt
    (meta_result, keys) ← meta config
    let endpoint = or_default (or_default default_endpoint config.endpoint) meta_result.new_endpoint
    sync_request endpoint "upload" keys.0 keys.1 collection_bytes
    pure tt
