-- ===== src/Server/Stages/Whole.antt =====
-- The two stages of a rollback request are the whole handler.
use anki_backup_tool.Base.{String, Option, none, some, ◌≡◌, refl, Bool-cases, inl, inr}
use anki_backup_tool.Backup.{Uuid, DateTime, BackupEntry}
use anki_backup_tool.World.{Platform, World, Result, ok, err}
use anki_backup_tool.Sync.{Network, SyncConfig}
use anki_backup_tool.Server.{
  StatusCode, HeaderMap, AppState, Service, Handler, answered, upload_rolled, with_id, guarded,
  gate_guard, rollback_backup, require_api_auth, require_csrf, within_ten_seconds,
}
use anki_backup_tool.Server.Stages.{
  Stage, staged_guard, staged, staged_gate, begin_upload, begin_id, begin_rollback, end_rollback,
  resume,
}

module _ ⦃P : Platform⦄ ⦃N : Network⦄ {S : Type 0} (state : AppState S) where
  resume-staged :
      {A : Type 0} (r : Result A) (w : World S) (code : StatusCode) (k : A → Stage S)
      (h : A → Handler S) (s : Service S)
      → ((a : A) (v : Service S) → resume state (k a v) ≡ h a v)
      → resume state (staged (r, w) code k s) ≡ answered (r, w) code h s
  unfolding staged answered
  resume-staged (ok a) w code k h s same = same a (record s { world = w })
  resume-staged (err x) w code k h s same = refl

  resume-begin_upload :
      (o : Option SyncConfig) (b : BackupEntry) (s : Service S)
      → resume state (begin_upload state o b s) ≡ upload_rolled state o b s
  unfolding begin_upload upload_rolled end_rollback
  resume-begin_upload none b s = refl
  resume-begin_upload (some cfg) b s = resume-staged _ _ _ _ _ s (λ bytes v. refl)

  resume-begin_id :
      (i : Option Uuid) (s : Service S) → resume state (begin_id state i s) ≡ with_id state i s
  unfolding begin_id with_id
  resume-begin_id none s = refl
  resume-begin_id (some i) s =
      resume-staged _ _ _ _ _ s (λ b v. resume-begin_upload state.sync_config b v)

  resume-gate :
      (gate : Option DateTime) (k : Stage S) (h : Handler S) (s : Service S)
      → ((v : Service S) → resume state (k v) ≡ h v)
      → resume state (staged_gate gate k s) ≡ gate_guard gate h s
  unfolding staged_gate gate_guard
  resume-gate none k h s same = same s
  resume-gate (some last) k h s same =
      elim (Bool-cases (within_ten_seconds (P.times s.world.step) last)) [
        | inl soon ↦ rw soon refl
        | inr late ↦ rw late (same _)
      ]

  resume-guard :
      (code : Option StatusCode) (k : Stage S) (h : Handler S) (s : Service S)
      → resume state (k s) ≡ h s
      → resume state (staged_guard code k s) ≡ guarded code h s
  resume-guard none k h s same = same
  resume-guard (some code) k h s same = refl

  -- A rollback request that goes on from its upload at once is the whole handler: the same answer, and
  -- the same service after it.
  pub resume-begin_rollback :
      (id : String) (headers : HeaderMap) (s : Service S)
      → resume state (begin_rollback state id headers s) ≡ rollback_backup state id headers s
  unfolding begin_rollback rollback_backup
  resume-begin_rollback id headers s =
      resume-guard (require_api_auth state.api_token headers) _ _ s (
        resume-guard (require_csrf state.csrf_token headers) _ _ s
          (resume-gate s.rollback_gate _ _ s (resume-begin_id (P.uuid_parse_str id))))
