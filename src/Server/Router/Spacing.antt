-- ===== src/Server/Router/Spacing.antt =====
-- The gate over time: how far rollbacks are apart, whatever else is asked for and happens between them.
use anki_backup_tool.Base.{
  ◌+◌, ◌*◌, ◌≤◌, String, Option, none, some, List, [], ◌∷◌, false, ◌≡◌, ◌⊎◌, inl, inr, refl, ◌∙◌,
  arith, subst, Bool,
}
use anki_backup_tool.Backup.{Uuid, DateTime, BackupEntry}
use anki_backup_tool.World.{Platform, World, Result, ok, err, is_some, now}
use anki_backup_tool.Sync.{Network, SyncConfig}
use anki_backup_tool.Server.{
  StatusCode, bad_request, HeaderMap, AppState, Service, Reply, json, status, Handler, answered,
  finish, upload_rolled, with_id, gate_guard, rollback_backup, within_ten_seconds, last_reading,
}
use anki_backup_tool.Server.Guards.{GateOpen, IsAdmitted, Rejected, rollback_backup-guards}
use anki_backup_tool.Server.Api.{Archiver}
use anki_backup_tool.Server.Pages.{Formats}
use anki_backup_tool.Server.Router.{
  Endpoint, index_page, detail_page, healthz_api, list_api, detail_api, download_api, rollback_api,
  Answer, page_of_backups, page_of_backup, health, summaries, detail, archive, rolled, serve,
}

-- An answer that is not an error has set the gate to the time of its last call, and an error has left it.
abbrev Moved : ⦃P : Platform⦄ → {S : Type 0} → Option DateTime → Reply × Service S → Type 0
Moved gate (r, s) =
    ((i : Uuid) × (uploaded : Bool) × (r ≡ json i uploaded)
      × (s.rollback_gate ≡ some (last_reading s)))
    ⊎ ((code : StatusCode) × (r ≡ status code) × (s.rollback_gate ≡ gate))

module _ ⦃P : Platform⦄ {S : Type 0} (gate : Option DateTime) where
  answered-Moved :
      {A : Type 0} (r : Result A) (w : World S) (code : StatusCode) (k : A → Handler S)
      (s : Service S)
      → s.rollback_gate ≡ gate
      → ((a : A) (v : Service S) → v.rollback_gate ≡ gate → Moved gate (k a v))
      → Moved gate (answered (r, w) code k s)
  unfolding answered
  answered-Moved (ok a) w code k s same h = h a (record s { world = w }) same
  answered-Moved (err x) w code k s same h = inr (code, refl, same)

module _ ⦃P : Platform⦄ ⦃N : Network⦄ {S : Type 0} (state : AppState S) where
  upload_rolled-Moved :
      (gate : Option DateTime) (o : Option SyncConfig) (b : BackupEntry) (s : Service S)
      → s.rollback_gate ≡ gate
      → Moved gate (upload_rolled state o b s)
  unfolding upload_rolled finish now
  upload_rolled-Moved gate none b s same = inl (b.id, is_some state.sync_config, refl, refl)
  upload_rolled-Moved gate (some cfg) b s same =
      answered-Moved gate _ _ _ _ s same (λ bytes v still.
        answered-Moved gate _ _ _ _ v still
          (λ a u kept. inl (b.id, is_some state.sync_config, refl, refl)))

  with_id-Moved :
      (gate : Option DateTime) (i : Option Uuid) (s : Service S)
      → s.rollback_gate ≡ gate
      → Moved gate (with_id state i s)
  unfolding with_id
  with_id-Moved gate none s same = inr (bad_request, refl, same)
  with_id-Moved gate (some i) s same =
      answered-Moved gate _ _ _ _ s same
        (λ b v still. upload_rolled-Moved gate state.sync_config b v still)

  gate_guard-Moved :
      (headers : HeaderMap) (gate : Option DateTime) (k : Handler S) (s : Service S)
      → GateOpen state headers s gate
      → ((v : Service S) → v.rollback_gate ≡ s.rollback_gate → Moved s.rollback_gate (k v))
      → Moved s.rollback_gate (gate_guard gate k s)
  unfolding gate_guard now
  gate_guard-Moved headers none k s is_open h = h s refl
  gate_guard-Moved headers (some last) k s is_open h = rw is_open (h _ refl)

  -- What a rollback request does to the gate.
  rollback_backup-Moved :
      (id : String) (headers : HeaderMap) (s : Service S)
      → (IsAdmitted state headers s × Moved s.rollback_gate (rollback_backup state id headers s))
        ⊎ Rejected state headers s (rollback_backup state id headers s)
  unfolding rollback_backup
  rollback_backup-Moved id headers s = elim (rollback_backup-guards state headers s id) [
    | inr rejected ↦ inr rejected
    | inl (auth, csrf, is_open) ↦ inl (
      (auth, csrf, is_open),
      rw (auth, csrf)
          (gate_guard-Moved headers s.rollback_gate _ s is_open
            (λ v same. with_id-Moved s.rollback_gate (P.uuid_parse_str id) v same)),
    )
  ]

-- A rollback that was answered well: when the gate was asked, and when the handler was done, the last
-- reading of the clock.
abbrev pub Passage : Type 0
Passage = DateTime × DateTime

-- The passages after an answer, the last one first: a rollback's answer that is no error adds one.
abbrev pub logged : Answer → DateTime → DateTime → List Passage → List Passage
logged (rolled (json i uploaded)) asked finished ps = (asked, finished) ∷ ps
logged (rolled (status code)) asked finished ps = ps
logged (page_of_backups r) asked finished ps = ps
logged (page_of_backup r) asked finished ps = ps
logged (health s) asked finished ps = ps
logged (summaries r) asked finished ps = ps
logged (detail r) asked finished ps = ps
logged (archive r) asked finished ps = ps

-- Each passage asks ten seconds or more after the one before it was done.
abbrev pub Spaced : List Passage → Type 0
Spaced [] = Unit
Spaced (p ∷ []) = Unit
Spaced (p ∷ q ∷ ps) = (q.1 + 10 * 1000000000 ≤ p.0) × Spaced (q ∷ ps)

abbrev pub last_set : List Passage → Option DateTime
last_set [] = none
last_set (p ∷ ps) = some p.1

module _ ⦃P : Platform⦄ ⦃F : Formats⦄ ⦃Z : Archiver⦄ {S : Type 0} (state : AppState S) where
  -- What has happened to a service since its start: requests, each with a network of its own, and any
  -- change of the world between them, as by the scheduler, another process or the clock.
  pub data History : List Passage → Service S → Type 0 where
    started : (w : World S) → History [] (record { rollback_gate = none; world = w })
    elsewhere :
        {ps : List Passage} {s : Service S}
        → History ps s
        → (w : World S) → History ps (record s { world = w })
    request :
        {ps : List Passage} {s : Service S}
        → History ps s
        → ⦃N : Network⦄ (e : Endpoint) (id : String) (headers : HeaderMap)
        → History
            (logged
              (serve state e id headers s).0
              (P.times s.world.step)
              (last_reading (serve state e id headers s).1)
              ps)
            (serve state e id headers s).1

  abbrev pub Kept : List Passage → Service S → Type 0
  Kept ps s = Spaced ps × (s.rollback_gate ≡ last_set ps)

  far_enough :
      (at last : DateTime) → within_ten_seconds at last ≡ false → last + 10 * 1000000000 ≤ at
  far_enough at last h = ground arith

  pub admitted-Kept :
      (headers : HeaderMap) (s : Service S) (ps : List Passage) (t : DateTime)
      → Kept ps s
      → GateOpen state headers s s.rollback_gate
      → Spaced ((P.times s.world.step, t) ∷ ps)
  admitted-Kept headers s [] t kept is_open = tt
  admitted-Kept headers s (q ∷ ps) t (spaced, set) is_open =
      (far_enough _ _ (subst (λ g. GateOpen state headers s g) set is_open), spaced)

  rolled-Kept :
      (headers : HeaderMap) (s : Service S) (ps : List Passage) (out : Reply × Service S)
      → Kept ps s
      → (IsAdmitted state headers s × Moved s.rollback_gate out) ⊎ Rejected state headers s out
      → Kept (logged (rolled out.0) (P.times s.world.step) (last_reading out.1) ps) out.1
  rolled-Kept headers s ps (r, s') kept (inl ((auth, csrf, is_open), inl (i, up, is, set))) =
      rw is (admitted-Kept headers s ps (last_reading s') kept is_open, set)
  rolled-Kept headers s ps (r, s') (spaced, set) (inl (admitted, inr (code, is, same))) =
      rw is (spaced, same ∙ set)
  rolled-Kept headers s ps (r, s') (spaced, set) (inr ((code, is), same, disk, store)) =
      rw is (spaced, same ∙ set)

  serve-Kept :
      ⦃N : Network⦄
      → (e : Endpoint) (id : String) (headers : HeaderMap) (s : Service S) (ps : List Passage)
      → Kept ps s
      → Kept
          (logged
            (serve state e id headers s).0
            (P.times s.world.step)
            (last_reading (serve state e id headers s).1)
            ps)
          (serve state e id headers s).1
  unfolding serve
  serve-Kept ⦃N⦄ index_page id headers s ps kept = kept
  serve-Kept ⦃N⦄ detail_page id headers s ps kept = kept
  serve-Kept ⦃N⦄ healthz_api id headers s ps kept = kept
  serve-Kept ⦃N⦄ list_api id headers s ps kept = kept
  serve-Kept ⦃N⦄ detail_api id headers s ps kept = kept
  serve-Kept ⦃N⦄ download_api id headers s ps kept = kept
  serve-Kept ⦃N⦄ rollback_api id headers s ps kept =
      rolled-Kept headers s ps (rollback_backup state id headers s) kept
        (rollback_backup-Moved state id headers s)

  History-Kept : {ps : List Passage} {s : Service S} → History ps s → Kept ps s
  History-Kept (started w) = (tt, refl)
  History-Kept (elsewhere h w) = History-Kept h
  History-Kept (request {ps = ps} {s = s} h ⦃N⦄ e id headers) =
      serve-Kept e id headers s ps (History-Kept h)

  -- Over any sequence of requests to any endpoint, each as a whole, with whatever the network answers
  -- it and any change of the world between them: a rollback that is answered without an error has
  -- passed the gate ten seconds or more after the rollback before it, of those answered so, read the
  -- clock last.
  pub History-Spaced : {ps : List Passage} {s : Service S} → History ps s → Spaced ps
  History-Spaced h = (History-Kept h).0
