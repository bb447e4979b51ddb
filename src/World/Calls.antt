-- ===== src/World/Calls.antt =====
-- How the calls on files and the statements of the database end, and what they leave.
use anki_backup_tool.Base.{
  ℕ, take, String, Bool, true, Option, none, some, ◌≡◌, ◌≢◌, refl, sym, ◌∙◌, string_eq, ==-true,
  ==-false,
}
use anki_backup_tool.Backup.{Bytes}
use anki_backup_tool.World.{
  FilePath, Fate, done, refused, torn, Platform, Error, failed, World, Io, update, parent,
  write_fate, write, attempt, rename, rename_found, read, read_found, stated, statement, tick,
}
use anki_backup_tool.World.Laws.{Ends}

module _ {A : Type 0} (f : FilePath → A) (p : FilePath) (v : A) where
  pub update_self : update f p v p ≡ v
  unfolding update
  update_self = rw (==-true p p refl)

  pub update_ne : (q : FilePath) → q ≢ p → update f p v q ≡ f q
  unfolding update
  update_ne q h = rw (==-false p q (λ e. h (sym e)))

module _ ⦃P : Platform⦄ where
  -- Some call of the outside does not end well.
  abbrev pub Fault : Type 0
  Fault = (n : ℕ) × (P.fates n ≢ done)

  pub Fault_at : (n : ℕ) (x : Fate) → P.fates n ≡ x → x ≢ done → Fault
  Fault_at n x e h = (n, λ d. h (sym e ∙ d))

  refused≢done : refused ≢ done
  refused≢done = λ e. cc

  torn≢done : (n : ℕ) (left : FilePath → Bool) → torn n left ≢ done
  torn≢done n left = λ e. cc

module _ ⦃P : Platform⦄ {S : Type 0} where
  -- What a write leaves when it ends well: the file has the bytes, and nothing else has changed.
  abbrev pub Written : FilePath → Bytes → World S → World S → Type 0
  Written p bytes w u =
      (u.disk.files p ≡ some bytes)
      × ((q : FilePath) → q ≢ p → u.disk.files q ≡ w.disk.files q)
      × (u.disk.dirs ≡ w.disk.dirs)
      × (u.store ≡ w.store)

  -- What a failed write leaves: any other file is as it was.
  abbrev pub OthersKept : FilePath → World S → World S → Type 0
  OthersKept p w u =
      ((q : FilePath) → q ≢ p → u.disk.files q ≡ w.disk.files q)
      × (u.disk.dirs ≡ w.disk.dirs)
      × (u.store ≡ w.store)

  Ends-write_fate :
      (x : Fate) (p : FilePath) (bytes : Bytes) (context : String) (w : World S)
      → P.fates w.step ≡ x
      → Ends
          (write_fate x p bytes context w)
          (λ _ u. Written p bytes w u)
          (λ _ u. OthersKept p w u × Fault)
  unfolding write
  Ends-write_fate done p bytes context w e = record {
    holds = (
      update_self w.disk.files p (some bytes),
      update_ne w.disk.files p (some bytes),
      refl,
      refl,
    );
  }
  Ends-write_fate refused p bytes context w e = record {
    holds = ((λ q h. refl, refl, refl), Fault_at w.step refused e refused≢done);
  }
  Ends-write_fate (torn n left) p bytes context w e = record {
    holds = (
      (λ q h. update_ne w.disk.files p (some (take n bytes)) q h, refl, refl),
      Fault_at w.step (torn n left) e (torn≢done n left),
    );
  }

  pub Ends-write :
      (p : FilePath) (bytes : Bytes) (context : String) (w : World S)
      → w.disk.dirs (parent p) ≡ true
      → Ends
          (write p bytes context w)
          (λ _ u. Written p bytes w u)
          (λ _ u. OthersKept p w u × Fault)
  unfolding write
  Ends-write p bytes context w h = rw h (Ends-write_fate (P.fates w.step) p bytes context w refl)

  Ends-attempt :
      {A : Type 0} {Q : A → World S → Type 0} {E : Error → World S → Type 0} (x : Fate) (m : Io S A)
      (context : String) (w : World S)
      → P.fates w.step ≡ x
      → Ends (m w) Q E
      → (Fault → E (failed context) (tick w))
      → Ends (attempt x m context w) Q E
  unfolding attempt
  Ends-attempt done m context w e h k = h
  Ends-attempt refused m context w e h k = record {
    holds = k (Fault_at w.step refused e refused≢done);
  }
  Ends-attempt (torn n left) m context w e h k = record {
    holds = k (Fault_at w.step (torn n left) e (torn≢done n left));
  }

  -- What a rename leaves: the file under its new name, and every other file as it was.
  abbrev pub Renamed : FilePath → FilePath → Bytes → World S → World S → Type 0
  Renamed from to bytes w u =
      (u.disk.files to ≡ some bytes)
      × (u.disk.files from ≡ none)
      × ((q : FilePath) → q ≢ to → q ≢ from → u.disk.files q ≡ w.disk.files q)
      × (u.disk.dirs ≡ w.disk.dirs)
      × (u.store ≡ w.store)

  -- A rename happens whole, or changes nothing.
  pub Ends-rename :
      (from to : FilePath) (bytes : Bytes) (context : String) (w : World S)
      → w.disk.files from ≡ some bytes
      → from ≢ to
      → Ends
          (rename from to context w)
          (λ _ u. Renamed from to bytes w u)
          (λ _ u. (u.disk ≡ w.disk) × (u.store ≡ w.store) × Fault)
  unfolding rename
  Ends-rename from to bytes context w h ne =
      let moved = update w.disk.files from none in
      Ends-attempt (P.fates w.step) _ context w refl
        (rw (h, rename_found)
          (record {
            holds = (
              update_self moved to (some bytes),
              update_ne moved to (some bytes) from ne ∙ update_self w.disk.files from none,
              λ q nt nf.
                  update_ne moved to (some bytes) q nt ∙ update_ne w.disk.files from none q nf,
              refl,
              refl,
            );
          }))
        (λ f. (refl, refl, f))

  pub Ends-read :
      (p : FilePath) (bytes : Bytes) (context : String) (w : World S)
      → w.disk.files p ≡ some bytes
      → Ends
          (read p context w)
          (λ a u. (a ≡ bytes) × (u.disk ≡ w.disk) × (u.store ≡ w.store))
          (λ _ u. (u.disk ≡ w.disk) × (u.store ≡ w.store) × Fault)
  unfolding read
  Ends-read p bytes context w h =
      Ends-attempt (P.fates w.step) _ context w refl
        (rw (h, read_found) (record { holds = (refl, refl, refl) })) (λ f. (refl, refl, f))

  -- A statement that the database carries out, or a fault with nothing changed.
  pub Ends-statement :
      {B : Type 0} (context : String) (run : S → Option (B × S)) (b : B) (s : S) (w : World S)
      → run w.store ≡ some (b, s)
      → Ends
          (statement context run w)
          (λ a u. (a ≡ b) × (u.store ≡ s) × (u.disk ≡ w.disk))
          (λ _ u. (u.store ≡ w.store) × (u.disk ≡ w.disk) × Fault)
  unfolding statement
  Ends-statement context run b s w h =
      Ends-attempt (P.fates w.step) _ context w refl
        (rw (h, stated) (record { holds = (refl, refl, refl) })) (λ f. (refl, refl, f))

  -- A statement that the database refuses changes nothing.
  pub Ends-statement_refused :
      {B : Type 0} (context : String) (run : S → Option (B × S)) (w : World S)
      → run w.store ≡ none
      → Ends (statement context run w) (λ _ _. ⊥) (λ _ u. (u.store ≡ w.store) × (u.disk ≡ w.disk))
  unfolding statement
  Ends-statement_refused context run w h =
      Ends-attempt (P.fates w.step) _ context w refl
        (rw (h, stated) (record { holds = (refl, refl) })) (λ f. (refl, refl))
