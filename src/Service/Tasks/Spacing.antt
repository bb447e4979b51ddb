-- ===== src/Service/Tasks/Spacing.antt =====
-- How far rollbacks are apart, whatever goes on while they upload.
use anki_backup_tool.Base.{String, List, ◌∷◌, ◌≡◌, refl, ◌∙◌, Option, none, some, true, inl, inr}
use anki_backup_tool.Base.Int.{ℤ}
use anki_backup_tool.Backup.{Uuid, DateTime, Bytes}
use anki_backup_tool.World.{Platform, World}
use anki_backup_tool.Sync.{Network, SyncConfig}
use anki_backup_tool.Server.{HeaderMap, AppState, Service, json, status, last_reading}
use anki_backup_tool.Server.Api.{Archiver}
use anki_backup_tool.Server.Pages.{Formats}
use anki_backup_tool.Server.Router.{
  Endpoint, index_page, detail_page, healthz_api, list_api, detail_api, download_api, rollback_api,
  serve,
}
use anki_backup_tool.Server.Router.Screen.{only_reads}
use anki_backup_tool.Server.Router.Spacing.{Passage, Spaced, Kept, last_set, admitted-Kept}
use anki_backup_tool.Server.Stages.{
  Progress, replied, uploading, replied_with, begin_rollback, end_rollback,
}
use anki_backup_tool.Server.Stages.Gate.{Set, Begun, begin_rollback-Begun, end_rollback-Set}
use anki_backup_tool.Service.Tasks.{
  Running, after_begin, begun, Tasks, started, begins, ends, drops, answers, rounds, pauses,
}

-- A rollback under way has asked the gate ten seconds or more after the last one was done.
abbrev Far : List Passage → Option (DateTime × SyncConfig × Uuid × Bytes) → Type 0
Far ps none = Unit
Far ps (some (asked, cfg, id, bytes)) = (t : DateTime) → Spaced ((asked, t) ∷ ps)

module _ ⦃P : Platform⦄ ⦃F : Formats⦄ ⦃Z : Archiver⦄ {S : Type 0} (state : AppState S)
    (config : SyncConfig) (days : ℤ) where
  abbrev Ready : List Passage → Running S → Type 0
  Ready ps r = Kept state ps r.service × Far ps r.upload

  set-Ready :
      (asked : DateTime) (ps : List Passage) (gate : Option DateTime) (x : Progress × Service S)
      → Spaced ps
      → gate ≡ last_set ps
      → ((t : DateTime) → Spaced ((asked, t) ∷ ps))
      → Set gate x
      → Ready (begun asked x ps) (after_begin asked x)
  set-Ready asked ps gate (replied (json i up), s) spaced last far is =
      ((far (last_reading s), is), tt)
  set-Ready asked ps gate (replied (status code), s) spaced last far same =
      ((spaced, same ∙ last), tt)
  set-Ready asked ps gate (uploading cfg id bytes, s) spaced last far same =
      ((spaced, same ∙ last), far)

  begun-Ready :
      ⦃N : Network⦄
      → (headers : HeaderMap) (s : Service S) (ps : List Passage) (x : Progress × Service S)
      → Kept state ps s
      → Begun state headers s x
      → Ready (begun (P.times s.world.step) x ps) (after_begin (P.times s.world.step) x)
  begun-Ready ⦃N⦄ headers s ps x (spaced, last) (inl (is_open, set)) =
      set-Ready (P.times s.world.step) ps s.rollback_gate x spaced last
        (λ t. admitted-Kept state headers s ps t (spaced, last) is_open) set
  begun-Ready ⦃N⦄ headers s ps (p, s') (spaced, last) (inr (code, is, same)) =
      rw is ((spaced, same ∙ last), tt)

  reads-gate :
      ⦃N : Network⦄
      → (e : Endpoint) (id : String) (headers : HeaderMap) (s : Service S) → only_reads e ≡ true
      → (serve state e id headers s).1.rollback_gate ≡ s.rollback_gate
  unfolding serve
  reads-gate ⦃N⦄ index_page id headers s h = refl
  reads-gate ⦃N⦄ detail_page id headers s h = refl
  reads-gate ⦃N⦄ healthz_api id headers s h = refl
  reads-gate ⦃N⦄ list_api id headers s h = refl
  reads-gate ⦃N⦄ detail_api id headers s h = refl
  reads-gate ⦃N⦄ download_api id headers s h = refl
  reads-gate ⦃N⦄ rollback_api id headers s h = absurd cc

  Tasks-Ready :
      {w : World S} {ps : List Passage} {r : Running S}
      → Tasks state config days w ps r
      → Ready ps r
  Tasks-Ready started = ((tt, refl), tt)
  Tasks-Ready (begins {ps = ps} {s = s} tasks ⦃N⦄ id headers) =
      begun-Ready headers s ps (begin_rollback state id headers s) (Tasks-Ready tasks).0
        (begin_rollback-Begun state headers s id)
  Tasks-Ready
        (ends {ps = ps} {s = s} {asked = asked} {cfg = cfg} {id = id} {bytes = bytes} tasks ⦃N⦄) =
      let ((spaced, last), far) = Tasks-Ready tasks in
      set-Ready asked ps s.rollback_gate (replied_with (end_rollback state cfg id bytes s)) spaced
        last far (end_rollback-Set state cfg id bytes s)
  Tasks-Ready (drops tasks) = ((Tasks-Ready tasks).0, tt)
  Tasks-Ready (answers {r = r} tasks ⦃N⦄ e reads id headers) =
      let ((spaced, last), far) = Tasks-Ready tasks in
      ((spaced, reads-gate e id headers r.service reads ∙ last), far)
  Tasks-Ready (rounds tasks ⦃N⦄ new) = Tasks-Ready tasks
  Tasks-Ready (pauses tasks n) = Tasks-Ready tasks

  pub Tasks-Spaced :
      {w : World S} {ps : List Passage} {r : Running S} → Tasks state config days w ps r → Spaced ps
  Tasks-Spaced tasks = (Tasks-Ready tasks).0.0
