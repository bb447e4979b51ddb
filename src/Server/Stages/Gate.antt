-- ===== src/Server/Stages/Gate.antt =====
-- The stages of a rollback request and the gate.
use anki_backup_tool.Base.{String, Option, none, some, ◌≡◌, ◌⊎◌, refl, Bool-cases, inl, inr}
use anki_backup_tool.Backup.{Uuid, DateTime, Bytes, BackupEntry}
use anki_backup_tool.World.{Platform, World, Result, ok, err, now}
use anki_backup_tool.Sync.{Network, SyncConfig, upload_collection}
use anki_backup_tool.Sync.Wire.{on_wire}
use anki_backup_tool.Server.{
  StatusCode, HeaderMap, AppState, Service, json, status, answered, finish, bad_gateway,
  too_many_requests, require_api_auth, require_csrf, within_ten_seconds, last_reading,
}
use anki_backup_tool.Server.Guards.{GateOpen}
use anki_backup_tool.Server.Stages.{
  Progress, Stage, replied, uploading, replied_with, staged_guard, staged, staged_gate,
  begin_upload, begin_id, begin_rollback, end_rollback,
}

-- A stage sets the gate to the time of its last call where it answers without an error, and leaves it
-- else.
abbrev pub Set : ⦃P : Platform⦄ → {S : Type 0} → Option DateTime → Progress × Service S → Type 0
Set gate (replied (json i uploaded), s) = s.rollback_gate ≡ some (last_reading s)
Set gate (replied (status code), s) = s.rollback_gate ≡ gate
Set gate (uploading cfg id bytes, s) = s.rollback_gate ≡ gate

abbrev pub Refused : {S : Type 0} → Option DateTime → Progress × Service S → Type 0
Refused gate (p, s) = (code : StatusCode) × (p ≡ replied (status code)) × (s.rollback_gate ≡ gate)

module _ ⦃P : Platform⦄ {S : Type 0} (gate : Option DateTime) where
  staged-Set :
      {A : Type 0} (r : Result A) (w : World S) (code : StatusCode) (k : A → Stage S)
      (s : Service S)
      → s.rollback_gate ≡ gate
      → ((a : A) (v : Service S) → v.rollback_gate ≡ gate → Set gate (k a v))
      → Set gate (staged (r, w) code k s)
  unfolding staged
  staged-Set (ok a) w code k s same h = h a (record s { world = w }) same
  staged-Set (err x) w code k s same h = same

module _ ⦃P : Platform⦄ ⦃N : Network⦄ {S : Type 0} (state : AppState S) where
  begin_upload-Set :
      (gate : Option DateTime) (o : Option SyncConfig) (b : BackupEntry) (s : Service S)
      → s.rollback_gate ≡ gate
      → Set gate (begin_upload state o b s)
  unfolding begin_upload finish now
  begin_upload-Set gate none b s same = refl
  begin_upload-Set gate (some cfg) b s same =
      staged-Set gate _ _ _ _ s same (λ bytes v still. still)

  begin_id-Set :
      (gate : Option DateTime) (i : Option Uuid) (s : Service S)
      → s.rollback_gate ≡ gate
      → Set gate (begin_id state i s)
  unfolding begin_id
  begin_id-Set gate none s same = same
  begin_id-Set gate (some i) s same =
      staged-Set gate _ _ _ _ s same
        (λ b v still. begin_upload-Set gate state.sync_config b v still)

  module _ (headers : HeaderMap) (s : Service S) where
    abbrev pub Begun : Progress × Service S → Type 0
    Begun r =
        (GateOpen state headers s s.rollback_gate × Set s.rollback_gate r)
        ⊎ Refused s.rollback_gate r

    gate-Begun :
        (k : Stage S)
        → ((v : Service S) → v.rollback_gate ≡ s.rollback_gate → Set s.rollback_gate (k v))
        → (gate : Option DateTime)
        → (GateOpen state headers s gate × Set s.rollback_gate (staged_gate gate k s))
          ⊎ Refused s.rollback_gate (staged_gate gate k s)
    unfolding staged_gate now
    gate-Begun k h none = inl (tt, h s refl)
    gate-Begun k h (some last) =
        elim (Bool-cases (within_ten_seconds (P.times s.world.step) last)) [
          | inl soon ↦ inr (rw soon (too_many_requests, refl, refl))
          | inr late ↦ inl (late, rw late (h _ refl))
        ]

    guard-Begun :
        (code : Option StatusCode) (k : Stage S) → Begun (k s) → Begun (staged_guard code k s)
    guard-Begun none k h = h
    guard-Begun (some code) k h = inr (code, refl, refl)

    -- The first stage is refused and leaves the gate, or the gate was open.
    pub begin_rollback-Begun : (id : String) → Begun (begin_rollback state id headers s)
    unfolding begin_rollback
    begin_rollback-Begun id = guard-Begun (require_api_auth state.api_token headers) _ (
        guard-Begun (require_csrf state.csrf_token headers) _ (
          gate-Begun _ (λ v same. begin_id-Set s.rollback_gate (P.uuid_parse_str id) v same)
            s.rollback_gate))

  pub end_rollback-Set :
      (cfg : SyncConfig) (id : Uuid) (bytes : Bytes) (s : Service S)
      → Set s.rollback_gate (replied_with (end_rollback state cfg id bytes s))
  unfolding end_rollback answered finish now
  end_rollback-Set cfg id bytes s = ended (on_wire (upload_collection cfg bytes) s.world).0 _
    where
      ended :
          (r : Result Unit) (u : World S)
          → Set s.rollback_gate
              (replied_with (answered (r, u) bad_gateway (λ _. finish state id) s))
      ended (ok a) u = refl
      ended (err x) u = refl
