-- ===== src/World/Directories.antt =====
-- `create_dir_all`, which only adds directories, and `remove_dir_all`.
use anki_backup_tool.Base.{
  ◌⊎◌, inl, inr, Bool-cases, ℕ, zero, suc, take, String, Bool, true, false, none, [], ◌∷◌, ◌≡◌,
  refl, arith, ◌||◌, ◌==◌, Bool-cases, string_eq, ==-true, inl, inr,
}
use anki_backup_tool.World.{
  seen, is_some, FilePath, Fate, done, refused, torn, Platform, World, is_above, create_dir_all,
  create_dir_all_fate, remove_dir_all, remove_dir_all_fate,
}
use anki_backup_tool.World.Laws.{Ends}
use anki_backup_tool.World.Calls.{Fault, Fault_at}

or_right : (a b : Bool) → b ≡ true → (a || b) ≡ true
or_right a b h = ground arith

or_left : (a b : Bool) → a ≡ true → (a || b) ≡ true
or_left a b h = ground arith

pub is_above_refl : (p : FilePath) → is_above p p ≡ true
is_above_refl [] = refl
is_above_refl (a ∷ p) = rw (==-true a a refl) (is_above_refl p)

above-take : (q p : FilePath) (n : ℕ) → is_above q p ≡ false → is_above q (take n p) ≡ false
above-take [] p n h = absurd cc
above-take (a ∷ q) [] zero h = refl
above-take (a ∷ q) [] (suc n) h = refl
above-take (a ∷ q) (b ∷ p) zero h = refl
above-take (a ∷ q) (b ∷ p) (suc n) h = elim (Bool-cases (a == b)) [
  | inl is ↦ rw is (above-take q p n (cc))
  | inr is ↦ rw is refl
]

module _ ⦃P : Platform⦄ {S : Type 0} where
  -- The same files and the same database; every directory that was there still is.
  abbrev pub DirsAdded : World S → World S → Type 0
  DirsAdded w u =
      (u.disk.files ≡ w.disk.files)
      × (u.store ≡ w.store)
      × ((q : FilePath) → w.disk.dirs q ≡ true → u.disk.dirs q ≡ true)

  made :
      (x : Fate) (p : FilePath) (c : String) (w : World S)
      → P.fates w.step ≡ x
      → Ends
          (create_dir_all_fate x p c w)
          (λ _ u. DirsAdded w u × (u.disk.dirs p ≡ true))
          (λ _ u. DirsAdded w u × Fault)
  unfolding create_dir_all_fate
  made done p c w e = record {
    holds = ((refl, refl, λ q h. or_right _ _ h), or_left _ _ (is_above_refl p));
  }
  made refused p c w e = record {
    holds = ((refl, refl, λ q h. h), Fault_at w.step refused e (λ d. cc));
  }
  made (torn n left) p c w e = record {
    holds = ((refl, refl, λ q h. or_right _ _ h), Fault_at w.step (torn n left) e (λ d. cc));
  }

  pub Ends-create_dir_all :
      (p : FilePath) (c : String) (w : World S)
      → Ends
          (create_dir_all p c w)
          (λ _ u. DirsAdded w u × (u.disk.dirs p ≡ true))
          (λ _ u. DirsAdded w u × Fault)
  unfolding create_dir_all
  Ends-create_dir_all p c w = made (P.fates w.step) p c w refl

  made-elsewhere :
      (x : Fate) (p : FilePath) (c : String) (q : FilePath) (w : World S)
      → is_above q p ≡ false
      → (create_dir_all_fate x p c w).1.disk.dirs q ≡ w.disk.dirs q
  unfolding create_dir_all_fate
  made-elsewhere done p c q w h = rw h refl
  made-elsewhere refused p c q w h = refl
  made-elsewhere (torn n left) p c q w h = rw (above-take q p n h) refl

  -- A directory that is not on the way is made by no outcome of the call.
  pub create_dir_all-elsewhere :
      (p : FilePath) (c : String) (q : FilePath) (w : World S)
      → is_above q p ≡ false
      → (create_dir_all p c w).1.disk.dirs q ≡ w.disk.dirs q
  unfolding create_dir_all
  create_dir_all-elsewhere p c q w h = made-elsewhere (P.fates w.step) p c q w h

  -- What a removal leaves: every file that is not under the path, and every directory.
  abbrev pub OutsideKept : FilePath → World S → World S → Type 0
  OutsideKept p w u =
      ((q : FilePath) → is_above p q ≡ false → u.disk.files q ≡ w.disk.files q)
      × ((q : FilePath) → is_above p q ≡ false → u.disk.dirs q ≡ w.disk.dirs q)
      × (u.store ≡ w.store)

  removed :
      (x : Fate) (p : FilePath) (c : String) (w : World S)
      → P.fates w.step ≡ x
      → Ends
          (remove_dir_all_fate x p c w)
          (λ _ u.
            OutsideKept p w u
            × ((q : FilePath) → is_above p q ≡ true → u.disk.files q ≡ none)
            × ((q : FilePath) → is_above p q ≡ true → u.disk.dirs q ≡ false))
          (λ _ u. OutsideKept p w u × Fault)
  unfolding remove_dir_all_fate
  removed done p c w e = record {
    holds = ((λ q h. rw h refl, λ q h. rw h refl, refl), λ q h. rw h refl, λ q h. rw h refl);
  }
  removed refused p c w e = record {
    holds = ((λ q h. refl, λ q h. refl, refl), Fault_at w.step refused e (λ d. cc));
  }
  removed (torn n left) p c w e = record {
    holds = ((λ q h. rw h refl, λ q h. rw h refl, refl), Fault_at w.step (torn n left) e (λ d. cc));
  }

  pub Ends-remove_dir_all :
      (p : FilePath) (c : String) (w : World S)
      → Ends
          (remove_dir_all p c w)
          (λ _ u.
            OutsideKept p w u
            × ((q : FilePath) → is_above p q ≡ true → u.disk.files q ≡ none)
            × ((q : FilePath) → is_above p q ≡ true → u.disk.dirs q ≡ false))
          (λ _ u. OutsideKept p w u × Fault)
  unfolding remove_dir_all
  Ends-remove_dir_all p c w = removed (P.fates w.step) p c w refl

  looked :
      (x : Fate) (p : FilePath) (w : World S)
      → P.fates w.step ≡ x
      → ((seen x (w.disk.dirs p || is_some (w.disk.files p)) ≡ true))
        ⊎ ((seen x (w.disk.dirs p || is_some (w.disk.files p)) ≡ false)
            × ((w.disk.dirs p ≡ false) ⊎ Fault))
  unfolding seen
  looked done p w e = elim (Bool-cases (w.disk.dirs p || is_some (w.disk.files p))) [
    | inl there ↦ inl there
    | inr absent ↦ inr (absent, inl (ground arith))
  ]
  looked refused p w e = inr (refl, inr (Fault_at w.step refused e (λ d. cc)))
  looked (torn n left) p w e = inr (refl, inr (Fault_at w.step (torn n left) e (λ d. cc)))

  -- A path that is not seen has no directory, or the query failed.
  pub seen-answers :
      (p : FilePath) (w : World S)
      → (seen (P.fates w.step) (w.disk.dirs p || is_some (w.disk.files p)) ≡ true)
        ⊎ ((seen (P.fates w.step) (w.disk.dirs p || is_some (w.disk.files p)) ≡ false)
            × ((w.disk.dirs p ≡ false) ⊎ Fault))
  seen-answers p w = looked (P.fates w.step) p w refl
