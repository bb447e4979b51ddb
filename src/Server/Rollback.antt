-- ===== src/Server/Rollback.antt =====
-- `rollback_backup` on an admitted request: what each answer says of the repository.
use mathlib.Core.Option.{none-ne-some}
use anki_backup_tool.Base.{
  suc, ap, String, true, Option, none, some, List, ◌≡◌, ◌≢◌, refl, sym, ◌∙◌, subst,
}
use anki_backup_tool.Backup.{Uuid, DateTime, Bytes, BackupEntry}
use anki_backup_tool.World.{Platform, Disk, World, Result, ok, err, Error, now, read, is_some}
use anki_backup_tool.World.Laws.{Ends}
use anki_backup_tool.World.Reads.{Ends-read_any}
use anki_backup_tool.Store.Contract.{IsStore}
use anki_backup_tool.Repository.{state_dir, rollback_to, backup_file_path}
use anki_backup_tool.Repository.Rollback.{RolledBack, rollback_to_lem}
use anki_backup_tool.Repository.Pointer.{PointsTo}
use anki_backup_tool.Sync.{Network, Sent, SyncConfig, upload_collection}
use anki_backup_tool.Sync.Collection.{Uploaded}
use anki_backup_tool.Sync.Wire.{fresh, on_wire, upload-on_wire}
use anki_backup_tool.Server.{
  StatusCode, bad_request, internal_server_error, bad_gateway, HeaderMap, AppState, Service, Reply,
  json, status, rollback_backup, gate_guard, Handler, answered, finish, upload_rolled, with_id,
  last_reading,
}
use anki_backup_tool.Server.Guards.{IsAdmitted, GateOpen}

module _ {S A : Type 0} where
  -- A call and the rest of the handler.
  pub answered-ends :
      (T : Reply × Service S → Type 0) (r : Result A) (u : World S) (code : StatusCode)
      (k : A → Handler S) (s : Service S) {Q : A → World S → Type 0} {E : Error → World S → Type 0}
      → Ends (r, u) Q E
      → ((a : A) → Q a u → T (k a (record s { world = u })))
      → ((x : Error) → E x u → T (status code, record s { world = u }))
      → T (answered (r, u) code k s)
  unfolding answered
  answered-ends T (ok a) u code k s h f g = f a h.holds
  answered-ends T (err x) u code k s h f g = g x h.holds

module _ ⦃P : Platform⦄ ⦃N : Network⦄ {S : Type 0} (state : AppState S)
    (Rep : S → List BackupEntry → List (Uuid × Uuid) → Type 0) (es : List BackupEntry)
    (evs : List (Uuid × Uuid)) (w : World S) (gate : Option DateTime) (id : String) where
  -- Where an account is configured, the payload file of the backup is what was uploaded to it.
  abbrev pub Delivered : BackupEntry → World S → Option SyncConfig → Type 0
  Delivered b u none = Unit
  Delivered b u (some cfg) =
      (bytes : Bytes) × (u.disk.files (backup_file_path state.repo b) ≡ some bytes)
      × ((v : World S) × (z : World Sent) × Uploaded cfg bytes (fresh v) z)

  -- What an answer says.
  pub data Settled (a : Reply × Service S) : Type 0 where
    -- the pointer is on the backup, the event is recorded, its payload is uploaded where an account is
    -- configured, and the gate has the time of the last call, a reading of the clock
    rolled :
        (i : Uuid) (b : BackupEntry)
        → P.uuid_parse_str id ≡ some i
        → RolledBack state.repo Rep i es evs w b a.1.world
        → Delivered b a.1.world state.sync_config
        → a.0 ≡ json b.id (is_some state.sync_config)
        → a.1.rollback_gate ≡ some (last_reading a.1)
        → Settled a
    -- the same, but the upload failed and the gate is as it was
    not_uploaded :
        (i : Uuid) (b : BackupEntry) (code : StatusCode)
        → P.uuid_parse_str id ≡ some i
        → RolledBack state.repo Rep i es evs w b a.1.world
        → state.sync_config ≢ none
        → a.0 ≡ status code
        → a.1.rollback_gate ≡ gate
        → Settled a
    -- the entries and the events are as they were
    failed :
        a.0 ≡ status bad_request → Rep a.1.world.store es evs → a.1.rollback_gate ≡ gate → Settled a

  carried :
      (i : Uuid) (b : BackupEntry) (u v : World S)
      → v.disk ≡ u.disk
      → v.store ≡ u.store
      → RolledBack state.repo Rep i es evs w b u
      → RolledBack state.repo Rep i es evs w b v
  carried i b u v d s (found, is, points, n, rep) = (found, is, rw d points, n, rw s rep)

  finished :
      (i : Uuid) (b : BackupEntry) (s : Service S)
      → P.uuid_parse_str id ≡ some i
      → RolledBack state.repo Rep i es evs w b s.world
      → Delivered b s.world state.sync_config
      → Settled (finish state b.id s)
  unfolding finish now
  finished i b s parsed h sent = rolled i b parsed h (kept state.sync_config sent) refl refl
    where
      kept :
          (o : Option SyncConfig)
          → Delivered b s.world o
          → Delivered b (record s.world { step = suc s.world.step }) o
      kept none sent = tt
      kept (some cfg) sent = sent

  configured : (cfg : SyncConfig) → state.sync_config ≡ some cfg → state.sync_config ≢ none
  configured cfg c e = none-ne-some cfg (sym e ∙ c)

  uploaded :
      (o : Option SyncConfig) (i : Uuid) (b : BackupEntry) (s : Service S)
      → state.sync_config ≡ o
      → P.uuid_parse_str id ≡ some i
      → RolledBack state.repo Rep i es evs w b s.world
      → s.rollback_gate ≡ gate
      → Settled (upload_rolled state o b s)
  unfolding upload_rolled
  uploaded none i b s c parsed h g =
      finished i b s parsed h (subst (Delivered b s.world) (sym c) tt)
  uploaded (some cfg) i b s c parsed h g =
      let path = backup_file_path state.repo b in
      let v = (read path "failed to read backup file for upload" s.world).1 in
      answered-ends Settled _ v _ _ s (Ends-read_any path _ s.world)
        (λ bytes (held, (d, st)).
          let u = (on_wire (upload_collection cfg bytes) v).1 in
          answered-ends Settled _ u _ _ (record s { world = v }) (upload-on_wire cfg bytes v)
            (λ a ((z, sent), (d', st')).
              finished i b (record s { world = u }) parsed
                (carried i b s.world u (d' ∙ d) (st' ∙ st) h)
                (subst (Delivered b u) (sym c)
                  (bytes, ap (λ (k : Disk). k.files path) (d' ∙ d) ∙ held, (v, z, sent))))
            (λ x (why, (d', st')).
              not_uploaded i b bad_gateway parsed (carried i b s.world u (d' ∙ d) (st' ∙ st) h)
                (configured cfg c) refl g))
        (λ x ((d, st), why).
          not_uploaded i b internal_server_error parsed (carried i b s.world v d st h)
            (configured cfg c) refl g)

  module _ {stamp : DateTime → DateTime} (contract : IsStore state.repo.store Rep stamp)
      (rep : Rep w.store es evs) (ready : w.disk.dirs (state_dir state.repo.root) ≡ true) where
    identified :
        (i : Option Uuid) (s : Service S)
        → P.uuid_parse_str id ≡ i
        → s.world.disk ≡ w.disk
        → s.world.store ≡ w.store
        → s.rollback_gate ≡ gate
        → Settled (with_id state i s)
    unfolding with_id
    identified none s parsed d st g = failed refl (rw st rep) g
    identified (some i) s parsed d st g =
        let u = (rollback_to state.repo i s.world).1 in
        answered-ends Settled _ u _ _ s
          (rollback_to_lem state.repo Rep contract i es evs s.world (rw st rep) (rw d ready))
          (λ b (found, is, points, n, rep').
            uploaded state.sync_config i b (record s { world = u }) refl parsed
              (found, is, subst (λ k. PointsTo state.repo b k u.disk) d points, n, rep') g)
          (λ x (rep', why). failed refl rep' g)

    gate_guard-open :
        (T : Reply × Service S → Type 0) (s : Service S) (k : Handler S) (headers : HeaderMap)
        (last : Option DateTime)
        → GateOpen state headers s last
        → ((v : Service S)
            → v.world.disk ≡ s.world.disk
            → v.world.store ≡ s.world.store
            → v.rollback_gate ≡ s.rollback_gate
            → T (k v))
        → T (gate_guard last k s)
    unfolding gate_guard now
    gate_guard-open T s k headers none is_open f = f s refl refl refl
    gate_guard-open T s k headers (some last) is_open f = rw is_open (f _ refl refl refl)

-- The answer to an admitted request is the id of the backup that the pointer is now on, with the event
-- recorded and the gate set to the time of the last call; or an error of the upload, with the same
-- done but the gate; or 400, with the entries and events as they were. Where an account is configured,
-- an answer that is not an error has the payload file of that backup uploaded to it. This holds where
-- the state directory is there and the store keeps its contract.
pub rollback_backup_lem :
    ⦃P : Platform⦄ ⦃N : Network⦄
    → {S : Type 0} → (state : AppState S)
    → (Rep : S → List BackupEntry → List (Uuid × Uuid) → Type 0) → {stamp : DateTime → DateTime}
    → IsStore state.repo.store Rep stamp
    → (es : List BackupEntry) (evs : List (Uuid × Uuid)) (id : String) (headers : HeaderMap)
    → (s : Service S) → Rep s.world.store es evs
    → s.world.disk.dirs (state_dir state.repo.root) ≡ true
    → IsAdmitted state headers s
    → Settled state Rep es evs s.world s.rollback_gate id (rollback_backup state id headers s)
unfolding rollback_backup
rollback_backup_lem ⦃P⦄ ⦃N⦄ state Rep contract es evs id headers s rep ready (auth, csrf, is_open) =
    rw (auth, csrf)
      (gate_guard-open state Rep es evs s.world s.rollback_gate id contract rep ready
        (Settled state Rep es evs s.world s.rollback_gate id) s
        (with_id state (P.uuid_parse_str id)) headers s.rollback_gate is_open
        (λ v d st g.
          identified state Rep es evs s.world s.rollback_gate id contract rep ready _ v refl d st
            g))
