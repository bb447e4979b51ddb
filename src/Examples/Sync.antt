-- ===== src/Examples/Sync.antt =====
-- An exchange with a server that redirects the meta request to a shard.
use anki_backup_tool.Base.{
  ℕ, zero, suc, ◌≤◌, ◌<◌, ◌≢◌, String, Option, none, some, List, map, [], ◌∷◌, true, false, ◌≡◌,
  refl, arith, string_eq, nat_eq,
}
use anki_backup_tool.Base.Trim.{trim_end_matches}
use anki_backup_tool.Backup.{Bytes}
use anki_backup_tool.World.{World}
use anki_backup_tool.World.Laws.{Ends}
use anki_backup_tool.Sync.{
  Network, Request, Response, meta, login, send, follow, redirect_of, checked, unpacked,
  starts_with, require_collection, meta_response, map_err, Sent, SyncConfig, sync_request,
  sync_collection, upload_collection,
}
use anki_backup_tool.Sync.Session.{simple_session_id, digits, char_at}
use anki_backup_tool.Sync.Session.Digits.{simple_session_id_lem, value, length}
use anki_backup_tool.Sync.Exchange.{Answered, Sends, sync_request_lem}
use anki_backup_tool.Sync.Collection.{
  Downloaded, Uploaded, Broken, sync_collection_lem, upload_collection_lem,
}

abbrev response : ℕ → Option String → Bytes → Option Response
response status location bytes =
    some (record { status = status; location = location; bytes = some bytes })

-- The login and the shard answer; the endpoint redirects the meta request.
abbrev answers : ℕ → Option Response
answers zero = response 200 none (7 ∷ [])
answers (suc zero) = response 308 (some "https://sync32.ankiweb.net/") []
answers (suc (suc n)) = response 200 none (1 ∷ 2 ∷ [])

abbrev pub network : Network
network = record {
  builds_client = true;
  random = 3844;
  elapsed_ms = 12;
  post = λ n req. answers n;
  zstd_compress = λ bytes. some (9 ∷ bytes);
  zstd_decompress = λ bytes. none;
  header_to_json = λ h. some h.sync_key;
  host_key_request_to_json = λ r. some (5 ∷ []);
  host_key_response_from_json = λ bytes. some (record { key = "key" });
  meta_request_to_json = λ r. some (6 ∷ []);
  meta_fields_from_json =
      λ bytes. some (record { msg = none; empty = none; should_continue = none });
}

abbrev pub account : SyncConfig
account = record { username = "ann"; password = "pw"; endpoint = none }

abbrev before : World Sent
before = record { disk = record { files = λ p. none; dirs = λ p. false }; store = []; step = 0 }

abbrev drawn : ℕ
drawn = 3844

simple_session_id_example :
    (s : String) × (simple_session_id drawn ≡ some s)
    × (0 < length s)
    × (length s ≤ 6)
    × (drawn ≢ 0 → value s ≡ drawn)
simple_session_id_example = simple_session_id_lem drawn (omega arith)

sync_request_example :
    Ends
      (sync_request ⦃N = network⦄ "https://sync.ankiweb.net/" "meta" "key" "s1" (6 ∷ []) before)
      (Answered ⦃N = network⦄ "https://sync.ankiweb.net/" "meta" "key" "s1" (6 ∷ []) before)
      (λ _ u. Sends ⦃N = network⦄ "key" "s1" (6 ∷ []) before u)
sync_request_example =
    sync_request_lem ⦃N = network⦄ "https://sync.ankiweb.net/" "meta" "key" "s1" (6 ∷ []) before

sync_collection_example :
    Ends
      (sync_collection ⦃N = network⦄ account before)
      (Downloaded ⦃N = network⦄ account before)
      (Broken account before)
sync_collection_example = sync_collection_lem ⦃N = network⦄ account before

upload_collection_example :
    Ends
      (upload_collection ⦃N = network⦄ account (1 ∷ []) before)
      (λ _ u. Uploaded ⦃N = network⦄ account (1 ∷ []) before u)
      (Broken account before)
upload_collection_example = upload_collection_lem ⦃N = network⦄ account before (1 ∷ [])

-- The run of the example goes through the redirect: the bytes are what the shard answered, and the
-- download is sent to the shard.
abbrev run : World Sent
run = (sync_collection ⦃N = network⦄ account before).1

abbrev urls : Sent → List String
urls = map (λ (q : Request). q.url)

sync_collection_run :
    urls run.store
    ≡ "https://sync.ankiweb.net/sync/hostKey" ∷ "https://sync.ankiweb.net/sync/meta"
      ∷ "https://sync32.ankiweb.net/sync/meta" ∷ "https://sync32.ankiweb.net/sync/download" ∷ []
unfolding sync_collection meta login sync_request send follow redirect_of checked unpacked
    starts_with require_collection meta_response map_err simple_session_id trim_end_matches
    string_eq nat_eq digits char_at
sync_collection_run = refl
