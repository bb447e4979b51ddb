-- ===== src/Repository/Rollback.antt =====
-- `rollback_to`: what it does to the pointer and to the recorded events, and how it fails.
use anki_backup_tool.Base.{
  ℕ, none, some, true, List, [], ◌∷◌, ◌++◌, ◌≡◌, ◌≢◌, ◌⊎◌, inl, inr, refl, sym, ◌∙◌, subst, ◌==◌,
  Bool-cases, ==-sound, ==-true,
}
use anki_backup_tool.Backup.{Uuid, DateTime, BackupEntry, created, status_eq, IsCreated}
use anki_backup_tool.World.{Platform, World, Disk, Error, not_found, not_created, pure, ◌>>◌}
use anki_backup_tool.World.Laws.{Ends, Ends-bind, Ends-ok_or}
use anki_backup_tool.World.Calls.{Fault}
use anki_backup_tool.Store.Contract.{IsStore, lookup, lookup_event}
use anki_backup_tool.Repository.{
  BackupRepository, rollback_to, get_backup, write_current_pointer, state_dir,
}
use anki_backup_tool.Repository.Pointer.{
  PointsTo, PointerKept, PointerRefused, write_current_pointer-atomic,
}

module _ ⦃P : Platform⦄ {S : Type 0} (repo : BackupRepository S)
    (Rep : S → List BackupEntry → List (Uuid × Uuid) → Type 0) where
  -- How a rollback to `id` may fail. In every case the entries and the events are as they were.
  pub data RollbackError (id : Uuid) (es : List BackupEntry) (evs : List (Uuid × Uuid))
      (w : World S) (x : Error) (u : World S) : Type 0 where
    -- the lookup broke off
    unread : u.disk ≡ w.disk → Fault → RollbackError id es evs w x u
    missing :
        lookup id es ≡ none → x ≡ not_found id → u.disk ≡ w.disk → RollbackError id es evs w x u
    skipped :
        (b : BackupEntry)
        → lookup id es ≡ some b
        → ¬ IsCreated b
        → x ≡ not_created b.id
        → u.disk ≡ w.disk
        → RollbackError id es evs w x u
    -- the swap of the pointer failed
    unswapped :
        (b : BackupEntry)
        → lookup id es ≡ some b
        → PointerKept repo b w.disk u.disk
        → PointerRefused b
        → RollbackError id es evs w x u
    -- the pointer is swapped, and the event is not recorded
    unrecorded :
        (b : BackupEntry)
        → lookup id es ≡ some b
        → IsCreated b
        → PointsTo repo b w.disk u.disk
        → Fault ⊎ ((n : ℕ) × (lookup_event (P.uuids n) evs ≢ none))
        → RollbackError id es evs w x u

  module _ (id : Uuid) (es : List BackupEntry) (evs : List (Uuid × Uuid)) (w : World S) where
    -- The entry is the created one under the id, the pointer is on it, and an event is recorded.
    abbrev pub RolledBack : BackupEntry → World S → Type 0
    RolledBack b u =
        (lookup id es ≡ some b)
        × IsCreated b
        × PointsTo repo b w.disk u.disk
        × (v : Uuid) × Rep u.store es (evs ++ (v, b.id) ∷ [])

    abbrev pub Unrolled : Error → World S → Type 0
    Unrolled x u = Rep u.store es evs × RollbackError id es evs w x u

  module _ {stamp : DateTime → DateTime} (contract : IsStore repo.store Rep stamp) (id : Uuid)
      (es : List BackupEntry) (evs : List (Uuid × Uuid)) (w : World S) (rep : Rep w.store es evs)
      (ready : w.disk.dirs (state_dir repo.root) ≡ true) where
    moved :
        (b : BackupEntry) {c d d' : Disk}
        → c ≡ w.disk
        → d' ≡ d
        → PointsTo repo b c d
        → PointsTo repo b w.disk d'
    moved b {c} {d' = d'} p q h =
        subst (λ x. PointsTo repo b x d') p (subst (λ y. PointsTo repo b c y) (sym q) h)

    swapped :
        (b : BackupEntry) (v : World S)
        → lookup id es ≡ some b
        → Rep v.store es evs
        → v.disk ≡ w.disk
        → IsCreated b
        → Ends
            ((write_current_pointer repo b >> (repo.store.insert_rollback_event b.id >> pure b)) v)
            (RolledBack id es evs w)
            (Unrolled id es evs w)
    swapped b v found rep' disk is =
        Ends-bind (write_current_pointer-atomic repo b v (rw disk ready))
          (λ a u (points, store).
            Ends-bind (contract.event b.id es evs u (rw store rep'))
              (λ a' t (n, rep'', disk'). record {
                holds = (found, is, moved b disk disk' points, n, rep'');
              })
              (λ x t (rep'', disk', why).
                (rep'', unrecorded b found is (moved b disk disk' points) why)))
          (λ x u (kept, store, why). (rw store rep', unswapped b found (rw disk at kept) why))

    -- Where the state directory is there and the store keeps its contract, rollback_to ends well only
    -- with the pointer on the entry under the id, which is a created one, and one more event for it;
    -- or it fails in one of five ways, and the entries and the events are as they were.
    pub rollback_to_lem :
        Ends (rollback_to repo id w) (RolledBack id es evs w) (Unrolled id es evs w)
    unfolding rollback_to get_backup
    rollback_to_lem =
        Ends-bind (contract.get id es evs w rep)
          (λ o v (store, disk, found).
            Ends-ok_or o _ _ v
              (λ b e. elim (Bool-cases (b.status == created)) [
                | inl is ↦ rw is (
                    swapped b v (sym found ∙ e) (subst (λ s. Rep s es evs) (sym store) rep) disk
                      (==-sound _ _ is))
                | inr differs ↦ rw differs (record {
                  holds = (
                    subst (λ s. Rep s es evs) (sym store) rep,
                    skipped b (sym found ∙ e) (λ is. cc (==-true b.status created is)) refl disk,
                  );
                })
              ])
              (λ e. (subst (λ s. Rep s es evs) (sym store) rep, missing (sym found ∙ e) refl disk)))
          (λ x v (store, disk, fault).
            (subst (λ s. Rep s es evs) (sym store) rep, unread disk fault))
