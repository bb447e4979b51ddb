-- ===== src/Server/Restore.antt =====
-- A backup and its download: what was backed up comes back.
use mathlib.Core.Option.{none-ne-some, some_inj}
use anki_backup_tool.Base.{
  String, Bool, false, ◌<◌, ◌<>◌, none, some, true, List, [], ◌∷◌, ◌++◌, ◌≡◌, ◌⊎◌, inl, inr, refl,
  sym, ap, ◌∙◌, subst, if◌then◌else◌, ◌==◌, ==-true, nat_eq,
}
use anki_backup_tool.Backup.{Uuid, DateTime, Bytes, BackupEntry, IsCreated, year_10000, new_created}
use anki_backup_tool.Libraries.{IsLawful}
use anki_backup_tool.World.{Platform, World, ok}
use anki_backup_tool.World.Laws.{Ends-ok}
use anki_backup_tool.World.Calls.{Fault}
use anki_backup_tool.Store.Contract.{IsStore, lookup}
use anki_backup_tool.Repository.{
  BackupPayload, created, run_once, state_dir, payload_path, backup_file_path,
}
use anki_backup_tool.Repository.NewEntry.{stamped}
use anki_backup_tool.Repository.RunOnce.{run_once_lem}
use anki_backup_tool.Repository.RunOnce.Left.{NewBackup}
use anki_backup_tool.Repository.Live.{IsCalm}
use anki_backup_tool.Server.{HeaderMap, AppState, require_api_auth}
use anki_backup_tool.Server.Api.{Response, answer, Download, Archiver, download_backup}
use anki_backup_tool.Server.Reading.{
  Looked, guarded, unparsed, unread, absent, shown, Archived, no_payload, no_file, no_archive, sent,
  download_backup_lem,
}

lookup-append :
    (id : Uuid) (es : List BackupEntry) (e : BackupEntry)
    → lookup id es ≡ none
    → e.id ≡ id
    → lookup id (es ++ e ∷ []) ≡ some e
lookup-append id [] e h same = rw (==-true e.id id same) refl
lookup-append id (x ∷ es) e h same = step (x.id == id) h (lookup-append id es e)
  where
    step :
        (b : Bool)
        → (if b then some x else lookup id es) ≡ none
        → (lookup id es ≡ none → e.id ≡ id → lookup id (es ++ e ∷ []) ≡ some e)
        → (if b then some x else lookup id (es ++ e ∷ [])) ≡ some e
    step true h k = absurd (none-ne-some x (sym h))
    step false h k = k h same

-- The answer with this archive of the backup.
abbrev pub archive_of : ⦃P : Platform⦄ → BackupEntry → Bytes → Download
archive_of ⦃P⦄ e compressed = record {
  body = compressed;
  content_type = "application/zstd";
  content_disposition = ("attachment; filename=backup-" <> P.uuid_to_string e.id) <> ".tar.zst";
}

module _ ⦃P : Platform⦄ ⦃Z : Archiver⦄ (calm : IsCalm P) (lawful : IsLawful P.lib) {S : Type 0}
    (state : AppState S) (Rep : S → List BackupEntry → List (Uuid × Uuid) → Type 0)
    (stamp : DateTime → DateTime) (contract : IsStore state.repo.store Rep stamp)
    (es : List BackupEntry) (evs : List (Uuid × Uuid)) (w : World S) (rep : Rep w.store es evs)
    (ready : w.disk.dirs (state_dir state.repo.root) ≡ true) (dated : P.times w.step < year_10000)
    (payload : BackupPayload) (hash : String) where
  no_fault : Fault → ⊥
  no_fault (n, broken) = broken (calm n)

  module _ (e : BackupEntry) (u : World S)
      (left : NewBackup state.repo Rep stamp payload hash es evs w.disk (P.times w.step) e u)
      (tar_data compressed : Bytes)
      (tarred : Z.tar_of "collection.anki2" payload.bytes ≡ some tar_data)
      (packed : Z.zstd_encode_all tar_data ≡ some compressed) where
    kept-IsCreated : IsCreated (stamped stamp e)
    unfolding new_created
    kept-IsCreated =
        let (id, stats, is, counted) = left.entry in ap (λ (x : BackupEntry). x.status) is

    kept-held : u.disk.files (backup_file_path state.repo (stamped stamp e)) ≡ some payload.bytes
    unfolding new_created backup_file_path
    kept-held =
        let (id, stats, is, counted) = left.entry in
        ap (λ (x : BackupEntry). u.disk.files (payload_path state.repo.root x.timestamp_dir)) is
        ∙ left.file

    whole :
        (a : Response Download)
        → Archived state Rep contract
            (es ++ stamped stamp e ∷ [])
            evs
            u
            left.listed
            (stamped stamp e)
            a
        → a ≡ answer (archive_of e compressed)
    whole a (no_payload differs is) = absurd (differs kept-IsCreated)
    whole a (no_file is (inl gone) same) = absurd (none-ne-some _ (sym gone ∙ kept-held))
    whole a (no_file is (inr fault) same) = absurd (no_fault fault)
    whole a (no_archive bytes is at why same) =
        absurd (unpacked bytes (some_inj.0 (sym at ∙ kept-held)) why)
      where
        unpacked :
            (bytes : Bytes)
            → bytes ≡ payload.bytes
            → (Z.tar_of "collection.anki2" bytes ≡ none)
              ⊎ ((t : Bytes) × (Z.tar_of "collection.anki2" bytes ≡ some t)
                  × (Z.zstd_encode_all t ≡ none))
            → ⊥
        unpacked bytes same (inl bad) = cc
        unpacked bytes same (inr (t, is, bad)) = cc
    whole a (sent bytes t z is at tars packs same) =
        same ∙ ap (λ x. answer (archive_of e x)) (matched (some_inj.0 (sym at ∙ kept-held)))
      where
        matched : bytes ≡ payload.bytes → z ≡ compressed
        matched e = cc

    downloaded :
        (id : String) (headers : HeaderMap) (a : Response Download × World S)
        → P.uuid_parse_str id ≡ some e.id
        → lookup e.id es ≡ none
        → require_api_auth state.api_token headers ≡ none
        → Looked
            (es ++ stamped stamp e ∷ [])
            u
            (require_api_auth state.api_token headers)
            id
            (Archived state Rep contract (es ++ stamped stamp e ∷ []) evs u left.listed)
            a
        → a.0 ≡ answer (archive_of e compressed)
    downloaded id headers a parsed fresh auth (guarded code why is same) = cc
    downloaded id headers a parsed fresh auth (unparsed none_there bad is same) = cc
    downloaded id headers a parsed fresh auth (unread none_there fault is same) =
        absurd (no_fault fault)
    downloaded id headers a parsed fresh auth (absent i none_there at gone is same) = absurd (
        none-ne-some _ (
          sym gone
          ∙ lookup-append i es (stamped stamp e) (rw (some_inj.0 (sym at ∙ parsed)) fresh)
              (some_inj.0 (sym parsed ∙ at))))
    downloaded id headers a parsed fresh auth (shown i b none_there at found told same) =
        whole a.0 (
          subst
            (λ x. Archived state Rep contract (es ++ stamped stamp e ∷ []) evs u left.listed x a.0)
            (some_inj.0 (
              sym found
              ∙ lookup-append i es (stamped stamp e) (rw (some_inj.0 (sym at ∙ parsed)) fresh)
                  (some_inj.0 (sym parsed ∙ at))))
            told)

  -- What run_once has stored is what a download gives: right after a run that has created an entry
  -- whose id was free, where every call ends well and the request has the token, a download under that
  -- id is answered with the compressed archive of the payload. The archive of it can be made, the
  -- state directory is there, the year has four digits, the store keeps its contract, and the
  -- libraries behave as documented.
  pub run_once-download :
      (e : BackupEntry) (headers : HeaderMap) (tar_data compressed : Bytes)
      → (run_once state.repo payload hash w).0 ≡ ok (created e)
      → lookup e.id es ≡ none
      → require_api_auth state.api_token headers ≡ none
      → Z.tar_of "collection.anki2" payload.bytes ≡ some tar_data
      → Z.zstd_encode_all tar_data ≡ some compressed
      → (download_backup state
          (P.uuid_to_string e.id)
          headers
          (run_once state.repo payload hash w).1).0
        ≡ answer (archive_of e compressed)
  run_once-download e headers tar_data compressed done fresh auth tarred packed =
      let u = (run_once state.repo payload hash w).1 in
      let left =
        Ends-ok
          (run_once_lem state.repo Rep stamp contract lawful payload hash es evs w rep dated ready)
          (created e) done in
      downloaded e u left tar_data compressed tarred packed (P.uuid_to_string e.id) headers _
        (lawful.uuid_parse_to_string e.id) fresh auth
        (download_backup_lem state Rep contract (es ++ stamped stamp e ∷ []) evs u left.listed
          (P.uuid_to_string e.id) headers)
