-- ===== src/Server/Reading.antt =====
-- The handlers that only read: what each answer says of the repository.
use anki_backup_tool.Base.{
  String, ◌<>◌, Bool, true, false, Option, none, some, List, map, ◌≡◌, refl, sym, ◌∙◌, subst, ◌⊎◌,
  Option-cases, Bool-cases, inl, inr, ◌==◌, ==-sound, ==-true,
}
use anki_backup_tool.Base.Order.{SameItems, IsSorted}
use anki_backup_tool.Backup.{Uuid, DateTime, Bytes, BackupEntry, BackupStatus, status_eq, IsCreated}
use anki_backup_tool.World.{Platform, Disk, World, Result, ok, err, Error, read}
use anki_backup_tool.World.Laws.{Ends}
use anki_backup_tool.World.Calls.{Fault}
use anki_backup_tool.World.Reads.{Untouched, Ends-read_any}
use anki_backup_tool.Store.Contract.{IsStore, lookup, latest_first}
use anki_backup_tool.Repository.{list_backups, get_backup, backup_file_path}
use anki_backup_tool.Server.{
  StatusCode, bad_request, not_found, internal_server_error, HeaderMap, AppState, require_api_auth,
}
use anki_backup_tool.Server.Api.{
  Response, answer, refused, Reader, BackupSummary, summary, Download, Archiver, or_status,
  reader_answered, reader_guarded, api_list_backups, with_backup, api_backup_detail, archived,
  served, download_backup,
}

module _ {S A B : Type 0} where
  -- A call and the rest of the handler.
  pub reader_answered-ends :
      (T : Response A × World S → Type 0) (r : Result B) (u : World S) (code : StatusCode)
      (k : B → Reader S A) {Q : B → World S → Type 0} {E : Error → World S → Type 0}
      → Ends (r, u) Q E
      → ((b : B) → Q b u → T (k b u))
      → ((x : Error) → E x u → T (refused code, u))
      → T (reader_answered (r, u) code k)
  unfolding reader_answered
  reader_answered-ends T (ok b) u code k h f g = f b h.holds
  reader_answered-ends T (err x) u code k h f g = g x h.holds

module _ ⦃P : Platform⦄ {S A : Type 0} (es : List BackupEntry) (w : World S) where
  -- An answer about the backup of an id: `guard` refuses the request, the id does not parse, the lookup
  -- breaks off, there is no such backup, or `T` says what the answer to it is. Nothing has changed.
  pub data Looked (guard : Option StatusCode) (id : String) (T : BackupEntry → Response A → Type 0)
      (a : Response A × World S) : Type 0 where
    guarded :
        (code : StatusCode)
        → guard ≡ some code
        → a.0 ≡ refused code
        → Untouched w a.1
        → Looked guard id T a
    unparsed :
        guard ≡ none
        → P.uuid_parse_str id ≡ none
        → a.0 ≡ refused bad_request
        → Untouched w a.1
        → Looked guard id T a
    unread :
        guard ≡ none
        → Fault
        → a.0 ≡ refused internal_server_error
        → Untouched w a.1
        → Looked guard id T a
    absent :
        (i : Uuid)
        → guard ≡ none
        → P.uuid_parse_str id ≡ some i
        → lookup i es ≡ none
        → a.0 ≡ refused not_found
        → Untouched w a.1
        → Looked guard id T a
    shown :
        (i : Uuid) (b : BackupEntry)
        → guard ≡ none
        → P.uuid_parse_str id ≡ some i
        → lookup i es ≡ some b
        → T b a.0
        → Untouched w a.1
        → Looked guard id T a

module _ ⦃P : Platform⦄ {S : Type 0} (state : AppState S)
    (Rep : S → List BackupEntry → List (Uuid × Uuid) → Type 0) {stamp : DateTime → DateTime}
    (contract : IsStore state.repo.store Rep stamp) (es : List BackupEntry)
    (evs : List (Uuid × Uuid)) (w : World S) (rep : Rep w.store es evs) where
  -- The lookup, and a rest that only reads.
  pub with_backup_lem :
      {A : Type 0} (guard : Option StatusCode) (id : String) (k : BackupEntry → Reader S A)
      (T : BackupEntry → Response A → Type 0)
      → ((b : BackupEntry) (u : World S) → Untouched w u → T b (k b u).0 × Untouched w (k b u).1)
      → Looked es w guard id T (reader_guarded guard (with_backup state id k) w)
  unfolding with_backup get_backup
  with_backup_lem (some code) id k T h = guarded code refl refl (refl, refl)
  with_backup_lem none id k T h = elim (Option-cases (P.uuid_parse_str id)) [
    | inl bad ↦ rw bad (unparsed refl bad refl (refl, refl))
    | inr (i, parsed) ↦ rw parsed (
        reader_answered-ends (Looked es w none id T) (get_backup state.repo i w).0
          (get_backup state.repo i w).1 internal_server_error (λ found. or_status found not_found k)
          (contract.get i es evs w rep)
          (λ o (store, disk, found). pick i o _ parsed found (disk, store))
          (λ x (store, disk, fault). unread refl fault refl (disk, store)))
  ]
    where
      pick :
          (i : Uuid) (o : Option BackupEntry) (u : World S)
          → P.uuid_parse_str id ≡ some i
          → o ≡ lookup i es
          → Untouched w u
          → Looked es w none id T (or_status o not_found k u)
      pick i none u parsed found same = absent i refl parsed (sym found) refl same
      pick i (some b) u parsed found same =
          let (told, still) = h b u same in shown i b refl parsed (sym found) told still

  -- The answer about an id is the entry under it, 404 without one, 400 where it is no id, 500 where
  -- the store fails, or the refusal of the token. Nothing changes. The store keeps its contract.
  pub api_backup_detail_lem :
      (id : String) (headers : HeaderMap)
      → Looked es w
          (require_api_auth state.api_token headers)
          id
          (λ b a. a ≡ answer b)
          (api_backup_detail state id headers w)
  unfolding api_backup_detail
  api_backup_detail_lem id headers =
      with_backup_lem (require_api_auth state.api_token headers) id (λ b u. (answer b, u))
        (λ b a. a ≡ answer b) (λ b u same. (refl, same))

  -- The list: each entry once, the newest first, or an error.
  pub data Listed (headers : HeaderMap) (a : Response (List BackupSummary) × World S) : Type 0 where
    guarded :
        (code : StatusCode)
        → require_api_auth state.api_token headers ≡ some code
        → a.0 ≡ refused code
        → Untouched w a.1
        → Listed headers a
    unread : Fault → a.0 ≡ refused internal_server_error → Untouched w a.1 → Listed headers a
    shown :
        (xs : List BackupEntry)
        → require_api_auth state.api_token headers ≡ none
        → SameItems xs es
        → IsSorted latest_first xs
        → a.0 ≡ answer (map summary xs)
        → Untouched w a.1
        → Listed headers a

  -- A list that is not refused, by the token or because the store fails, has a summary of each entry
  -- once, the newest first. Nothing changes. The store keeps its contract.
  pub api_list_backups_lem :
      (headers : HeaderMap) → Listed headers (api_list_backups state headers w)
  unfolding api_list_backups list_backups
  api_list_backups_lem headers = elim (Option-cases (require_api_auth state.api_token headers)) [
    | inr (code, why) ↦ rw why (guarded code why refl (refl, refl))
    | inl auth ↦ rw auth (
        reader_answered-ends (Listed headers) (list_backups state.repo w).0
          (list_backups state.repo w).1 internal_server_error
          (λ rows u. (answer (map summary rows), u)) (contract.list es evs w rep)
          (λ xs (store, disk, same, sorted). shown xs auth same sorted refl (disk, store))
          (λ x (store, disk, fault). unread fault refl (disk, store)))
  ]

  module _ ⦃Z : Archiver⦄ where
    -- The answer to a download of a backup: it is no stored one, the file is not read, the archive is
    -- not made, or it is.
    pub data Archived (b : BackupEntry) (a : Response Download) : Type 0 where
      no_payload : ¬ IsCreated b → a ≡ refused bad_request → Archived b a
      no_file :
          IsCreated b
          → (w.disk.files (backup_file_path state.repo b) ≡ none) ⊎ Fault
          → a ≡ refused internal_server_error
          → Archived b a
      no_archive :
          (bytes : Bytes)
          → IsCreated b
          → w.disk.files (backup_file_path state.repo b) ≡ some bytes
          → (Z.tar_of "collection.anki2" bytes ≡ none)
            ⊎ ((tar_data : Bytes) × (Z.tar_of "collection.anki2" bytes ≡ some tar_data)
                × (Z.zstd_encode_all tar_data ≡ none))
          → a ≡ refused internal_server_error
          → Archived b a
      sent :
          (bytes tar_data compressed : Bytes)
          → IsCreated b
          → w.disk.files (backup_file_path state.repo b) ≡ some bytes
          → Z.tar_of "collection.anki2" bytes ≡ some tar_data
          → Z.zstd_encode_all tar_data ≡ some compressed
          → a
            ≡ answer (record {
              body = compressed;
              content_type = "application/zstd";
              content_disposition =
                  ("attachment; filename=backup-" <> P.uuid_to_string b.id) <> ".tar.zst";
            })
          → Archived b a

    served_lem :
        (b : BackupEntry) (u : World S)
        → Untouched w u
        → Archived b (served state b u).0 × Untouched w (served state b u).1
    unfolding served archived
    served_lem b u (disk, store) = elim (Bool-cases (b.status == BackupStatus.created)) [
      | inr other ↦ rw other (
        (no_payload (λ is. differs other (==-true b.status BackupStatus.created is)) refl),
        (disk, store),
      )
      | inl is ↦ rw is (
          reader_answered-ends (λ a. Archived b a.0 × Untouched w a.1)
            (read (backup_file_path state.repo b) "read" u).0
            (read (backup_file_path state.repo b) "read" u).1 internal_server_error
            (archived state b) (Ends-read_any (backup_file_path state.repo b) "read" u)
            (λ bytes (held, (d, st)).
              pack bytes _ (==-sound _ _ is)
                (subst (λ (k : Disk). k.files (backup_file_path state.repo b) ≡ some bytes) disk
                  held)
                (d ∙ disk, st ∙ store) (Z.tar_of "collection.anki2" bytes) refl)
            (λ x ((d, st), why).
              (no_file (==-sound _ _ is) (gone why) refl, (d ∙ disk, st ∙ store))))
    ]
      where
        differs : {x : Bool} → x ≡ false → x ≡ true → ⊥
        differs f t = cc

        gone :
            (u.disk.files (backup_file_path state.repo b) ≡ none) ⊎ Fault
            → (w.disk.files (backup_file_path state.repo b) ≡ none) ⊎ Fault
        gone why =
            subst (λ (k : Disk). (k.files (backup_file_path state.repo b) ≡ none) ⊎ Fault) disk why

        pack :
            (bytes : Bytes) (v : World S)
            → IsCreated b
            → w.disk.files (backup_file_path state.repo b) ≡ some bytes
            → Untouched w v
            → (o : Option Bytes) → Z.tar_of "collection.anki2" bytes ≡ o
            → Archived b (archived state b bytes v).0 × Untouched w (archived state b bytes v).1
        pack bytes v is held same none e = rw e (no_archive bytes is held (inl e) refl, same)
        pack bytes v is held same (some tar_data) e =
            elim (Option-cases (Z.zstd_encode_all tar_data)) [
              | inl bad ↦ rw (e, bad) (no_archive bytes is held (inr (tar_data, e, bad)) refl, same)
              | inr (z, packed) ↦ rw (e, packed) (sent bytes tar_data z is held e packed refl, same)
            ]

    -- A download is refused by its token, for an id that does not parse, for a lookup that breaks off,
    -- or for a backup that is not there; for a backup without a payload with 400; with 500 where the
    -- payload file is not there or not read, or the archive is not made. Otherwise the answer is the
    -- compressed archive of the payload file of that backup. No file and no entry changes. The store
    -- keeps its contract.
    pub download_backup_lem :
        (id : String) (headers : HeaderMap)
        → Looked es w
            (require_api_auth state.api_token headers)
            id
            Archived
            (download_backup state id headers w)
    unfolding download_backup
    download_backup_lem id headers =
        with_backup_lem (require_api_auth state.api_token headers) id (served state) Archived
          served_lem
