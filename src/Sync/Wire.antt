-- ===== src/Sync/Wire.antt =====
-- A run of the client inside the daemon: the requests are the client's own affair, and what is left of
-- a run is its result.
use anki_backup_tool.Base.{[], ◌≡◌, refl, inl, inr}
use anki_backup_tool.Backup.{Bytes}
use anki_backup_tool.World.{World, Io, Error, Result, ok, err}
use anki_backup_tool.World.Laws.{Ends, Ends-mono}
use anki_backup_tool.World.Reads.{Untouched}
use anki_backup_tool.Sync.{Network, Sent, SyncConfig, sync_collection, upload_collection}
use anki_backup_tool.Sync.Collection.{
  Downloaded, Uploaded, Broken, sync_collection_lem, upload_collection_lem,
}

module _ {S : Type 0} where
  -- The client's view of a world, before its first request.
  abbrev pub fresh : World S → World Sent
  fresh w = record { disk = w.disk; store = []; step = w.step }

  unfoldable pub on_wire : {A : Type 0} → Io Sent A → Io S A
  on_wire m w =
      let r = m (fresh w) in (r.0, record { disk = r.1.disk; store = w.store; step = r.1.step })

  module _ {A : Type 0} where
    wired :
        (w : World S) (r : Result A) (t : World Sent) (Q : A → World Sent → Type 0)
        (E : Error → World Sent → Type 0)
        → Ends (r, t) (λ a u. Q a u × (u.disk ≡ w.disk)) (λ x u. E x u × (u.disk ≡ w.disk))
        → Ends
            (r, record { disk = t.disk; store = w.store; step = t.step })
            (λ a u. ((z : World Sent) × Q a z) × Untouched w u)
            (λ x u. ((z : World Sent) × E x z) × Untouched w u)
    wired w (ok a) t Q E h = let (q, d) = h.holds in record { holds = ((t, q), (d, refl)) }
    wired w (err x) t Q E h = let (q, d) = h.holds in record { holds = ((t, q), (d, refl)) }

    Ends-on_wire :
        (m : Io Sent A) (w : World S) (Q : A → World Sent → Type 0)
        (E : Error → World Sent → Type 0)
        → Ends (m (fresh w)) (λ a u. Q a u × (u.disk ≡ w.disk)) (λ x u. E x u × (u.disk ≡ w.disk))
        → Ends
            (on_wire m w)
            (λ a u. ((z : World Sent) × Q a z) × Untouched w u)
            (λ x u. ((z : World Sent) × E x z) × Untouched w u)
    unfolding on_wire
    Ends-on_wire m w Q E h = wired w (m (fresh w)).0 (m (fresh w)).1 Q E h

module _ ⦃N : Network⦄ {S : Type 0} where
  Broken-disk :
      (config : SyncConfig) (w : World S) (x : Error) (u : World Sent)
      → Broken config (fresh w) x u
      → u.disk ≡ w.disk
  Broken-disk config w x u (inl (missing, is, same)) = rw same refl
  Broken-disk config w x u (inr (given, few)) = few.1

  -- A download by the daemon: its files and its database are as they were.
  pub sync-on_wire :
      (config : SyncConfig) (w : World S)
      → Ends
          (on_wire (sync_collection config) w)
          (λ res u. ((z : World Sent) × Downloaded config (fresh w) res z) × Untouched w u)
          (λ x u. ((z : World Sent) × Broken config (fresh w) x z) × Untouched w u)
  sync-on_wire config w =
      Ends-on_wire (sync_collection config) w (Downloaded config (fresh w))
        (Broken config (fresh w))
        (Ends-mono (sync_collection_lem config (fresh w))
          (λ res u h. let (last, done, filled, bytes, none_known, took) = h in (h, done.few.1))
          (λ x u h. (h, Broken-disk config w x u h)))

  pub upload-on_wire :
      (config : SyncConfig) (bytes : Bytes) (w : World S)
      → Ends
          (on_wire (upload_collection config bytes) w)
          (λ _ u. ((z : World Sent) × Uploaded config bytes (fresh w) z) × Untouched w u)
          (λ x u. ((z : World Sent) × Broken config (fresh w) x z) × Untouched w u)
  upload-on_wire config bytes w =
      Ends-on_wire (upload_collection config bytes) w (λ _. Uploaded config bytes (fresh w))
        (Broken config (fresh w))
        (Ends-mono (upload_collection_lem config (fresh w) bytes)
          (λ a u h. let (last, done) = h in (h, done.few.1))
          (λ x u h. (h, Broken-disk config w x u h)))
