-- ===== src/Service/Round.antt =====
-- The time to the next round, and what a round keeps.
use anki_backup_tool.Base.{
  ℕ, ◌+◌, ◌-◌, ◌*◌, ◌≤◌, ◌<◌, true, not, List, [], ◌∷◌, ◌++◌, length, ◌⊎◌, false, keep, append-nil,
  ◌≡◌, inl, inr, refl, arith, String,
}
use anki_backup_tool.Base.Int.{ℤ, pos, leb_ℤ, pos_part}
use anki_backup_tool.Backup.{Uuid, DateTime, BackupEntry, year_10000}
use anki_backup_tool.Libraries.{IsLawful}
use anki_backup_tool.World.{Platform, World}
use anki_backup_tool.World.Laws.{Ends-after}
use anki_backup_tool.Store.Contract.{IsStore, is_old}
use anki_backup_tool.Repository.{
  day, BackupRepository, BackupPayload, RunOnceOutcome, created, skipped, run_once, state_dir,
}
use anki_backup_tool.Repository.RunOnce.{run_once_lem}
use anki_backup_tool.Repository.RunOnce.Left.{Outcome}
use anki_backup_tool.Repository.Prune.{keep_twice, prune_created_older_than_days_lem}
use anki_backup_tool.Sync.{SyncResult}
use anki_backup_tool.Service.{secs_to_next_hour, scheduled_backup, content_hash, payload_of}

-- The scheduler sleeps for at least a second and at most an hour, until the next hour begins.
pub secs_to_next_hour_lem :
    (minute second : ℕ)
    → minute < 60
    → second < 60
    → (1 ≤ secs_to_next_hour minute second)
      × (secs_to_next_hour minute second ≤ 3600)
      × (minute * 60 + second + secs_to_next_hour minute second ≡ 3600)
unfolding secs_to_next_hour
secs_to_next_hour_lem minute second h k = ground arith

module _ ⦃P : Platform⦄ {S : Type 0} (repo : BackupRepository S)
    (Rep : S → List BackupEntry → List (Uuid × Uuid) → Type 0) (stamp : DateTime → DateTime)
    (es : List BackupEntry) (evs : List (Uuid × Uuid)) where
  -- The entries, and at most one more.
  abbrev pub OneMore : World S → Type 0
  OneMore u = (more : List BackupEntry) × (length more ≤ 1) × Rep u.store (es ++ more) evs

  -- Without retention the entries are all there, and after them at most one more. With it, those of
  -- them that are not created ones from before the cutoff are all there, in their order.
  abbrev pub RecentKept : ℤ → DateTime → World S → Type 0
  RecentKept days cutoff u =
      (es' : List BackupEntry) × (more : List BackupEntry) × Rep u.store es' evs
      × (length more ≤ 1)
      × (((leb_ℤ days (pos 0) ≡ true) × (es' ≡ es ++ more))
          ⊎ ((leb_ℤ days (pos 0) ≡ false)
              × (keep (λ e. not (is_old cutoff e)) es'
                  ≡ keep (λ e. not (is_old cutoff e)) (es ++ more))))

  module _ (contract : IsStore repo.store Rep stamp) (lawful : IsLawful P.lib) where
    pub one_more :
        (payload : BackupPayload) (hash : String) (w : World S)
        → Rep w.store es evs
        → P.times w.step < year_10000
        → w.disk.dirs (state_dir repo.root) ≡ true
        → OneMore (run_once repo payload hash w).1
    one_more payload hash w rep dated ready =
        Ends-after OneMore
          (run_once_lem repo Rep stamp contract lawful payload hash es evs w rep dated ready)
          (λ o. new_one o _)
          (λ x (added, files, dirs, why). elim added [
            | inl kept ↦ ([], omega arith, rw (append-nil es) kept)
            | inr (e, same, held, kept) ↦ (e ∷ [], omega arith, kept)
          ])
      where
        new_one :
            (o : RunOnceOutcome) (u : World S)
            → Outcome repo Rep stamp payload hash es evs w.disk (P.times w.step) o u
            → OneMore u
        new_one (created e) u h = (_, omega arith, h.listed)
        new_one (skipped e) u (last, same, listed, d) = (_, omega arith, listed)

    -- After a round, however its calls end, no entry that retention keeps has been lost: they are all
    -- there, each of them where there is no retention, and after them at most one new entry. The state directory is there, the clock stays
    -- before the year 10000, the store keeps its contract, and the libraries behave as documented.
    pub scheduled_backup_lem :
        (sync : SyncResult) (days : ℤ) (w : World S)
        → Rep w.store es evs
        → w.disk.dirs (state_dir repo.root) ≡ true
        → ((n : ℕ) → P.times n < year_10000)
        → RecentKept days
            (stamp (
              P.times
                (run_once repo (payload_of sync) (content_hash sync.collection_bytes) w).1.step
              - pos_part days * day))
            (scheduled_backup repo sync days w)
    unfolding scheduled_backup
    scheduled_backup_lem sync days w rep ready dated =
        let v = (run_once repo (payload_of sync) (content_hash sync.collection_bytes) w).1 in
        let (more, short, rep') = one_more _ _ w rep (dated _) ready in
        Ends-after (RecentKept days (stamp (P.times v.step - pos_part days * day)))
          (prune_created_older_than_days_lem repo Rep stamp days (es ++ more) evs v contract rep'
            (dated _))
          (λ a pruned. elim pruned [
            | inl (zero, none_gone, same) ↦
                rw same (es ++ more, more, rep', short, inl (zero, refl))
            | inr (positive, count, rep'', gone, files) ↦
                (_, more, rep'', short, inr (positive, keep_twice _ (es ++ more)))
          ])
          (λ x (positive, (es', rep'', same, fewer, where_old), files).
            (es', more, rep'', short, inr (positive, same)))
