-- ===== src/World/Reads.antt =====
-- Calls that leave the files and the database as they are.
use anki_backup_tool.Base.{
  length, String, Option, none, some, ◌≡◌, refl, ap, ◌∙◌, string_eq, ◌⊎◌, inl, inr,
}
use anki_backup_tool.Backup.{Bytes}
use anki_backup_tool.World.{
  FilePath, Fate, done, refused, torn, Platform, Error, World, Io, continue, ok_or, attempt, read,
  read_found, file_len, statement,
}
use anki_backup_tool.World.Laws.{Ends, Ends-mono, Ends-bind}
use anki_backup_tool.World.Calls.{Fault, Fault_at, Ends-read, Ends-statement}

module _ {S : Type 0} where
  -- The disk and the database are as they were.
  abbrev pub Untouched : World S → World S → Type 0
  Untouched w u = (u.disk ≡ w.disk) × (u.store ≡ w.store)

  -- A call that only reads.
  abbrev pub OnlyReads : {A : Type 0} → Io S A → Type 0
  OnlyReads m = (w : World S) → Ends (m w) (λ _ u. Untouched w u) (λ _ u. Untouched w u)

  pub OnlyReads-bind :
      {A B : Type 0} (m : Io S A) (f : A → Io S B)
      → OnlyReads m
      → ((a : A) → OnlyReads (f a))
      → OnlyReads (λ w. continue (m w).0 f (m w).1)
  OnlyReads-bind m f h k w =
      Ends-bind (h w)
        (λ a u (d, s).
          Ends-mono (k a u) (λ b v (d', s'). (d' ∙ d, s' ∙ s)) (λ e v (d', s'). (d' ∙ d, s' ∙ s)))
        (λ e u q. q)

  pub OnlyReads-ok_or : {A : Type 0} (o : Option A) (e : Error) → OnlyReads (ok_or o e)
  OnlyReads-ok_or none e w = record { holds = (refl, refl) }
  OnlyReads-ok_or (some a) e w = record { holds = (refl, refl) }

module _ ⦃P : Platform⦄ {S : Type 0} where
  OnlyReads-read_found : (o : Option Bytes) (c : String) → OnlyReads {S = S} (read_found o c)
  unfolding read_found
  OnlyReads-read_found none c w = record { holds = (refl, refl) }
  OnlyReads-read_found (some b) c w = record { holds = (refl, refl) }

  pub OnlyReads-attempt :
      {A : Type 0} (x : Fate) (m : Io S A) (c : String) → OnlyReads m → OnlyReads (attempt x m c)
  unfolding attempt
  OnlyReads-attempt done m c h w = h w
  OnlyReads-attempt refused m c h w = record { holds = (refl, refl) }
  OnlyReads-attempt (torn n left) m c h w = record { holds = (refl, refl) }

  pub OnlyReads-read : (p : FilePath) (c : String) → OnlyReads {S = S} (read p c)
  unfolding read
  OnlyReads-read p c w =
      OnlyReads-attempt (P.fates w.step) (read_found (w.disk.files p) c) c
        (OnlyReads-read_found (w.disk.files p) c) w

  -- A statement that leaves the database as it is.
  pub OnlyReads-statement :
      (context : String) → OnlyReads {S = S} (statement context (λ s. some (tt, s)))
  OnlyReads-statement context w =
      Ends-mono (Ends-statement context (λ s. some (tt, s)) tt w.store w refl)
        (λ a u (is, store, disk). (disk, store)) (λ x u (store, disk, fault). (disk, store))

  pub Ends-file_len :
      (p : FilePath) (bytes : Bytes) (c : String) (w : World S)
      → w.disk.files p ≡ some bytes
      → Ends
          (file_len p c w)
          (λ a u. (a ≡ length bytes) × Untouched w u)
          (λ _ u. Untouched w u × Fault)
  unfolding file_len
  Ends-file_len p bytes c w h =
      Ends-bind (Ends-read p bytes c w h)
        (λ a u (same, d, s). record { holds = (ap length same, (d, s)) })
        (λ x u (d, s, fault). ((d, s), fault))

module _ ⦃P : Platform⦄ {S : Type 0} where
  -- What a read gives, of whatever there is.
  pub Ends-read_any :
      (p : FilePath) (c : String) (w : World S)
      → Ends
          (read p c w)
          (λ bytes u. (w.disk.files p ≡ some bytes) × Untouched w u)
          (λ _ u. Untouched w u × ((w.disk.files p ≡ none) ⊎ Fault))
  unfolding read read_found attempt
  Ends-read_any p c w = attempted (P.fates w.step) (w.disk.files p) refl refl
    where
      attempted :
          (x : Fate) (o : Option Bytes)
          → P.fates w.step ≡ x
          → w.disk.files p ≡ o
          → Ends
              (attempt x (read_found o c) c w)
              (λ bytes u. (w.disk.files p ≡ some bytes) × Untouched w u)
              (λ _ u. Untouched w u × ((w.disk.files p ≡ none) ⊎ Fault))
      attempted done none f e = record { holds = ((refl, refl), inl e) }
      attempted done (some bytes) f e = record { holds = (e, (refl, refl)) }
      attempted refused o f e = record {
        holds = ((refl, refl), inr (Fault_at w.step refused f (λ d. cc)));
      }
      attempted (torn n left) o f e = record {
        holds = ((refl, refl), inr (Fault_at w.step (torn n left) f (λ d. cc)));
      }
