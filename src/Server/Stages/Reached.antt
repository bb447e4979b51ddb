-- ===== src/Server/Stages/Reached.antt =====
-- The stages of a rollback request as operations of the repository, however their calls end.
use anki_backup_tool.Base.{String, Option, none, some, refl, Bool-cases, inl, inr}
use anki_backup_tool.Backup.{Uuid, DateTime, Bytes, BackupEntry}
use anki_backup_tool.World.{Platform, World, Result, ok, err, now}
use anki_backup_tool.World.Laws.{Ends-after}
use anki_backup_tool.World.Reads.{Untouched, Ends-read_any}
use anki_backup_tool.Repository.Reach.{next, rollback}
use anki_backup_tool.Sync.{Network, SyncConfig, upload_collection}
use anki_backup_tool.Sync.Wire.{on_wire, upload-on_wire}
use anki_backup_tool.Server.{
  StatusCode, HeaderMap, AppState, Service, answered, finish, bad_gateway, require_api_auth,
  require_csrf, within_ten_seconds,
}
use anki_backup_tool.Server.Steps.{Led, read_next, finish-After}
use anki_backup_tool.Server.Stages.{
  Stage, staged_guard, staged, staged_gate, begin_upload, begin_id, begin_rollback, end_rollback,
}

module _ ⦃P : Platform⦄ ⦃N : Network⦄ {S : Type 0} (state : AppState S) (hash : Bytes → String)
    (w : World S) where
  -- The operations that lead to what a stage leaves.
  abbrev To : Stage S → Service S → Type 0
  To k s = Led state hash w (k s).1.world

  abbrev Leads : Stage S → Type 0
  Leads k = (s : Service S) → Led state hash w s.world → To k s

  staged-Leads :
      {A : Type 0} (r : Result A) (u : World S) (code : StatusCode) (k : A → Stage S)
      (s : Service S)
      → Led state hash w u
      → ((a : A) → Leads (k a))
      → To (staged (r, u) code k) s
  unfolding staged
  staged-Leads (ok a) u code k s path h = h a (record s { world = u }) path
  staged-Leads (err x) u code k s path h = path

  begin_upload-Leads : (o : Option SyncConfig) (b : BackupEntry) → Leads (begin_upload state o b)
  unfolding begin_upload
  begin_upload-Leads none b s path = finish-After state hash w b.id s path
  begin_upload-Leads (some cfg) b s path =
      staged-Leads _ _ _ _ s
        (read_next state hash w s.world _ path (
          Ends-after (λ u. Untouched s.world u) (Ends-read_any _ _ s.world) (λ a h. h.1)
            (λ x h. h.0)))
        (λ bytes v path'. path')

  begin_id-Leads : (i : Option Uuid) → Leads (begin_id state i)
  unfolding begin_id
  begin_id-Leads none s path = path
  begin_id-Leads (some i) s path =
      staged-Leads _ _ _ _ s (next path (rollback i s.world))
        (λ b. begin_upload-Leads state.sync_config b)

  gate-Leads : (gate : Option DateTime) (k : Stage S) → Leads k → Leads (staged_gate gate k)
  unfolding staged_gate now
  gate-Leads none k h s path = h s path
  gate-Leads (some last) k h s path =
      let later = read_next state hash w s.world (now s.world).1 path (refl, refl) in
      elim (Bool-cases (within_ten_seconds (P.times s.world.step) last)) [
        | inl soon ↦ rw soon later
        | inr late ↦ rw late (h _ later)
      ]

  guard-Leads : (code : Option StatusCode) (k : Stage S) → Leads k → Leads (staged_guard code k)
  guard-Leads none k h s path = h s path
  guard-Leads (some code) k h s path = path

  pub begin_rollback-Leads :
      (id : String) (headers : HeaderMap) (s : Service S)
      → Led state hash w s.world
      → Led state hash w (begin_rollback state id headers s).1.world
  unfolding begin_rollback
  begin_rollback-Leads id headers s path =
      guard-Leads (require_api_auth state.api_token headers) _
        (guard-Leads (require_csrf state.csrf_token headers) _
          (λ v. gate-Leads v.rollback_gate _ (begin_id-Leads (P.uuid_parse_str id)) v))
        s path

  pub end_rollback-Leads :
      (cfg : SyncConfig) (id : Uuid) (bytes : Bytes) (s : Service S)
      → Led state hash w s.world
      → Led state hash w (end_rollback state cfg id bytes s).1.world
  unfolding end_rollback answered
  end_rollback-Leads cfg id bytes s path =
      ended (on_wire (upload_collection cfg bytes) s.world).0 _ (
        read_next state hash w s.world _ path (
          Ends-after (λ u. Untouched s.world u) (upload-on_wire cfg bytes s.world) (λ a h. h.1)
            (λ x h. h.1)))
    where
      ended :
          (r : Result Unit) (u : World S)
          → Led state hash w u
          → Led state hash w (answered (r, u) bad_gateway (λ _. finish state id) s).1.world
      ended (ok a) u path' = finish-After state hash w id (record s { world = u }) path'
      ended (err x) u path' = path'
