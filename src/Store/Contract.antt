-- ===== src/Store/Contract.antt =====
-- What the repository relies on in a metadata store, whichever back end it is: `store` keeps a list of
-- entries in the order of insertion and a list of rollback events (the id of each and of its backup),
-- which `Rep` reads off its state; a time is kept as `stamp` leaves it.
use anki_backup_tool.Base.{
  ℕ, ◌≤◌, ◌<◌, String, Bool, not, ◌&&◌, Option, none, some, List, [], ◌∷◌, ◌++◌, map, ◌≡◌, ◌≢◌, ◌⊎◌,
  find, keep, tally, ltb, leb, ◌==◌, nat_eq, string_eq,
}
use anki_backup_tool.Base.Order.{SameItems, IsSorted}
use anki_backup_tool.Backup.{Uuid, DateTime, year_10000, BackupEntry, created, status_eq}
use anki_backup_tool.World.{Platform, World}
use anki_backup_tool.World.Laws.{Ends}
use anki_backup_tool.World.Calls.{Fault}
use anki_backup_tool.Store.{MetadataStore}
use anki_backup_tool.Store.SqliteRows.{transpose}

abbrev pub is_created : BackupEntry → Bool
is_created e = e.status == created

-- The entry under an id.
abbrev pub lookup : Uuid → List BackupEntry → Option BackupEntry
lookup id = find (λ e. e.id == id)

abbrev pub lookup_event : Uuid → List (Uuid × Uuid) → Option (Uuid × Uuid)
lookup_event id = find (λ v. v.0 == id)

-- A created entry from before the cutoff.
abbrev pub is_old : DateTime → BackupEntry → Bool
is_old cutoff e = is_created e && ltb e.created_at cutoff

-- The newest first.
abbrev pub latest_first : BackupEntry → BackupEntry → Bool
latest_first a b = leb b.created_at a.created_at

-- `o` is the hash of a created entry than which no created entry is newer; `none` if none is created.
abbrev pub IsLastHash : List BackupEntry → Option String → Type 0
IsLastHash es none = tally is_created es ≡ 0
IsLastHash es (some h) =
    (t : DateTime) × (0
      < tally (λ e. is_created e && (e.content_hash == h && leb t e.created_at)) es)
    × (tally (λ e. is_created e && ltb t e.created_at) es ≡ 0)

module _ ⦃P : Platform⦄ where
  -- (id, timestamp_dir) of an entry, the id as text
  abbrev pub removed : BackupEntry → String × String
  removed e = (P.uuid_to_string e.id, e.timestamp_dir)

  -- Why an insertion may fail: a fault, an id that is taken, or statistics that do not serialise.
  abbrev pub InsertRefused : BackupEntry → List BackupEntry → Type 0
  InsertRefused e es = Fault ⊎ (lookup e.id es ≢ none) ⊎ (transpose P.stats_to_json e.stats ≡ none)

module _ ⦃P : Platform⦄ {S : Type 0} (store : MetadataStore S)
    (Rep : S → List BackupEntry → List (Uuid × Uuid) → Type 0) (stamp : DateTime → DateTime) where
  pub record IsStore : Type 0 where
    pub stamp-le : (t : DateTime) → stamp t ≤ t
    pub stamp_mono : (t u : DateTime) → t ≤ u → stamp t ≤ stamp u
    pub insert :
        (e : BackupEntry) (es : List BackupEntry) (evs : List (Uuid × Uuid)) (w : World S)
        → Rep w.store es evs
        → e.created_at < year_10000
        → Ends
            (store.insert_entry e w)
            (λ _ u.
              Rep u.store (es ++ record e { created_at = stamp e.created_at } ∷ []) evs
              × (u.disk ≡ w.disk))
            (λ _ u. Rep u.store es evs × (u.disk ≡ w.disk) × InsertRefused e es)
    pub list :
        (es : List BackupEntry) (evs : List (Uuid × Uuid)) (w : World S)
        → Rep w.store es evs
        → Ends
            (store.list_backups w)
            (λ xs u.
              (u.store ≡ w.store) × (u.disk ≡ w.disk) × SameItems xs es × IsSorted latest_first xs)
            (λ _ u. (u.store ≡ w.store) × (u.disk ≡ w.disk) × Fault)
    pub get :
        (id : Uuid) (es : List BackupEntry) (evs : List (Uuid × Uuid)) (w : World S)
        → Rep w.store es evs
        → Ends
            (store.get_backup id w)
            (λ o u. (u.store ≡ w.store) × (u.disk ≡ w.disk) × (o ≡ lookup id es))
            (λ _ u. (u.store ≡ w.store) × (u.disk ≡ w.disk) × Fault)
    pub event :
        (id : Uuid) (es : List BackupEntry) (evs : List (Uuid × Uuid)) (w : World S)
        → Rep w.store es evs
        → Ends
            (store.insert_rollback_event id w)
            (λ _ u. (v : Uuid) × Rep u.store es (evs ++ (v, id) ∷ []) × (u.disk ≡ w.disk))
            (λ _ u.
              Rep u.store es evs
              × (u.disk ≡ w.disk)
              × (Fault ⊎ ((n : ℕ) × (lookup_event (P.uuids n) evs ≢ none))))
    pub last :
        (es : List BackupEntry) (evs : List (Uuid × Uuid)) (w : World S)
        → Rep w.store es evs
        → Ends
            (store.last_created_hash w)
            (λ o u. (u.store ≡ w.store) × (u.disk ≡ w.disk) × IsLastHash es o)
            (λ _ u. (u.store ≡ w.store) × (u.disk ≡ w.disk) × Fault)
    pub prune :
        (cutoff : DateTime) (es : List BackupEntry) (evs : List (Uuid × Uuid)) (w : World S)
        → Rep w.store es evs
        → cutoff < year_10000
        → Ends
            (store.prune_created_before cutoff w)
            (λ doomed u.
              Rep u.store (keep (λ e. not (is_old (stamp cutoff) e)) es) evs
              × (u.disk ≡ w.disk)
              × (doomed ≡ map removed (keep (is_old (stamp cutoff)) es)))
            (λ _ u.
              (es' : List BackupEntry) × Rep u.store es' evs
              × (u.disk ≡ w.disk)
              × (keep (λ e. not (is_old (stamp cutoff) e)) es'
                  ≡ keep (λ e. not (is_old (stamp cutoff) e)) es)
              × ((p : BackupEntry → Bool) → tally p es' ≤ tally p es)
              × Fault)
