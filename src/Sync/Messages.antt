-- ===== src/Sync/Messages.antt =====
-- crates/sync/src/lib.rs: the configuration, the messages and the requests of the AnkiWeb client, and the
-- network that answers them.
use anki_backup_tool.Base.{ℕ, String, Bool, true, false, Option, none, some, List}
use anki_backup_tool.Base.Int.{ℤ}
use anki_backup_tool.Backup.{Bytes}

pub record SyncConfig : Type 0 where
  pub username : String
  pub password : String
  pub endpoint : Option String

pub record SyncResult : Type 0 where
  pub collection_bytes : Bytes
  pub source_revision : Option String
  pub sync_duration_ms : ℤ

pub record SyncHeader : Type 0 where
  pub sync_version : ℕ
  pub sync_key : String
  pub client_ver : String
  pub session_key : String

pub record HostKeyRequest : Type 0 where
  pub username : String
  pub password : String

pub record HostKeyResponse : Type 0 where
  pub key : String

pub record MetaRequest : Type 0 where
  pub sync_version : ℕ
  pub client_version : String

pub record MetaResponse : Type 0 where
  pub server_message : String
  pub empty : Bool
  pub should_continue : Bool

-- The fields of a meta response as they are in the JSON.
pub record MetaFields : Type 0 where
  pub msg : Option String
  pub empty : Option Bool
  pub should_continue : Option Bool

abbrev pub or_default : {A : Type 0} → A → Option A → A
or_default d none = d
or_default d (some a) = a

-- The `serde` defaults.
unfoldable pub meta_response : MetaFields → MetaResponse
meta_response f = record {
  server_message = or_default "" f.msg;
  empty = or_default false f.empty;
  should_continue = or_default true f.should_continue;
}

-- A POST of the client.
pub record Request : Type 0 where
  pub url : String
  pub anki_sync : String
  pub body : Bytes

-- `location` if it is there and is text; `bytes` if the body can be read.
pub record Response : Type 0 where
  pub status : ℕ
  pub location : Option String
  pub bytes : Option Bytes

-- The third-party crates (reqwest, rand, zstd, serde_json, the clock), and the network's answer to the
-- n-th request, if one comes.
pub record Network : Type 0 where
  pub builds_client : Bool
  pub random : ℕ
  pub elapsed_ms : ℕ
  pub post : ℕ → Request → Option Response
  pub zstd_compress : Bytes → Option Bytes
  pub zstd_decompress : Bytes → Option Bytes
  pub header_to_json : SyncHeader → Option String
  pub host_key_request_to_json : HostKeyRequest → Option Bytes
  pub host_key_response_from_json : Bytes → Option HostKeyResponse
  pub meta_request_to_json : MetaRequest → Option Bytes
  pub meta_fields_from_json : Bytes → Option MetaFields

-- The requests that have been sent.
abbrev pub Sent : Type 0
Sent = List Request
