-- ===== src/World.antt =====
-- What the program runs on: the clock, the random ids, the file system and the metadata store, with
-- every call that can fail. A run is a function of the world; the world's `fates` say how each call
-- of the operating system or of the database ends, so a statement over every `Platform` is one over
-- every pattern of failures. `std::fs` is modelled here; what third-party crates compute is a field of
-- `Libraries`.
pub mod Laws
pub mod Calls
pub mod Reads
pub mod Directories
use anki_backup_tool.Base.{
  not, ℕ, suc, String, Bool, true, false, Option, none, some, List, [], ◌∷◌, ◌++◌, ◌||◌, ◌&&◌, take,
  length, if◌then◌else◌, ◌==◌, string_eq, Eq,
}
use anki_backup_tool.Libraries.{Libraries}
use anki_backup_tool.Backup.{Uuid, DateTime, Bytes}

-- `PathBuf`, as its components.
abbrev pub FilePath : Type 0
FilePath = List String

-- How a call ends: well, refused with nothing done, or broken off after `n` steps, when the entries
-- that pass the test are the ones that a removal has left.
pub data Fate : Type 0 where
  done refused : Fate
  torn : ℕ → (FilePath → Bool) → Fate

-- The environment of a run: the third-party crates, and how the n-th call of the outside ends, reads
-- the clock or draws an id.
pub record Platform : Type 0 where
  pub lib : Libraries
  pub open lib use *
  pub fates : ℕ → Fate
  pub times : ℕ → DateTime
  pub uuids : ℕ → Uuid

pub data Error : Type 0 where
  -- an `io::Error` or a database error under the context that the code adds
  failed : String → Error
  -- a value that does not serialise or parse
  malformed : String → Error
  not_found : Uuid → Error
  not_created : Uuid → Error
  -- `SyncError`
  missing_credentials : Error
  login_failed download_failed : Error → Error
  -- a panic ends the task
  panicked : Error

pub data Result {ℓ} (A : Type ℓ) : Type ℓ where
  ok : A → Result A
  err : Error → Result A

pub record Disk : Type 0 where
  pub files : FilePath → Option Bytes
  pub dirs : FilePath → Bool

-- `S` is the state of the metadata database; `step` counts the calls made.
pub record World (S : Type 0) : Type 0 where
  pub disk : Disk
  pub store : S
  pub step : ℕ

-- A fallible call: what was written before a failure stays written.
abbrev pub Io : Type 0 → Type 0 → Type 0
Io S A = World S → Result A × World S

module _ {S A : Type 0} where
  abbrev pub pure : A → Io S A
  pure a w = (ok a, w)

  abbrev pub fail : Error → Io S A
  fail e w = (err e, w)

  -- A value that is there, or an error.
  abbrev pub ok_or : Option A → Error → Io S A
  ok_or none e = fail e
  ok_or (some a) e = pure a

module _ {S A B : Type 0} where
  abbrev pub continue : Result A → (A → Io S B) → Io S B
  continue (ok a) f w = f a w
  continue (err e) f w = (err e, w)

  infixl 5 ◌>>=◌ ◌>>◌
  abbrev pub ◌>>=◌ : Io S A → (A → Io S B) → Io S B
  ◌>>=◌ m f w = continue (m w).0 f (m w).1

  abbrev pub ◌>>◌ : Io S A → Io S B → Io S B
  m >> k = m >>= λ _. k

path_dec : Discrete FilePath
path_dec = hlevel (string_eq.dec)

instance unfoldable pub path_eq : Eq FilePath
unfolding path_dec
path_eq = record { dec = path_dec }

-- `Path::join` of a component; an empty one names the directory itself.
unfoldable pub join : FilePath → String → FilePath
join p s = if s == "" then p else p ++ s ∷ []

-- Whether the first path is the second or lies above it.
abbrev pub is_above : FilePath → FilePath → Bool
is_above [] q = true
is_above (a ∷ p) [] = false
is_above (a ∷ p) (b ∷ q) = a == b && is_above p q

-- The directory that a path stands in.
abbrev pub parent : FilePath → FilePath
parent [] = []
parent (a ∷ []) = []
parent (a ∷ b ∷ p) = a ∷ parent (b ∷ p)

module _ {A : Type 0} where
  abbrev pub is_some : Option A → Bool
  is_some none = false
  is_some (some a) = true

  unfoldable pub update : (FilePath → A) → FilePath → A → FilePath → A
  update f p v q = if p == q then v else f q

-- What a query of the metadata says: where it fails, there is nothing.
pub seen : Fate → Bool → Bool
seen done there = there
seen refused there = false
seen (torn n left) there = false

module _ ⦃P : Platform⦄ {S : Type 0} where
  abbrev pub tick : World S → World S
  tick w = record w { step = suc w.step }

  abbrev pub set_disk : Disk → World S → World S
  set_disk d w = record { disk = d; store = w.store; step = suc w.step }

  -- `Utc::now()`
  unfoldable pub now : Io S DateTime
  now w = (ok (P.times w.step), tick w)

  -- `Uuid::new_v4()`
  unfoldable pub new_v4 : Io S Uuid
  new_v4 w = (ok (P.uuids w.step), tick w)

  -- `fs::create_dir_all`: every directory on the way, or those that were made before a failure.
  create_dir_all_fate : Fate → FilePath → String → Io S Unit
  create_dir_all_fate done p context w =
      (ok tt, set_disk (record w.disk { dirs = λ q. is_above q p || w.disk.dirs q }) w)
  create_dir_all_fate refused p context w = (err (failed context), tick w)
  create_dir_all_fate (torn n left) p context w = (
    err (failed context),
    set_disk (record w.disk { dirs = λ q. is_above q (take n p) || w.disk.dirs q }) w,
  )

  unfoldable pub create_dir_all : FilePath → String → Io S Unit
  unfolding create_dir_all_fate
  create_dir_all p context w = create_dir_all_fate (P.fates w.step) p context w

  -- `fs::write`: creates or truncates the file and writes; a failure may leave a part.
  write_fate : Fate → FilePath → Bytes → String → Io S Unit
  write_fate done p bytes context w =
      (ok tt, set_disk (record w.disk { files = update w.disk.files p (some bytes) }) w)
  write_fate refused p bytes context w = (err (failed context), tick w)
  write_fate (torn n left) p bytes context w = (
    err (failed context),
    set_disk (record w.disk { files = update w.disk.files p (some (take n bytes)) }) w,
  )

  unfoldable pub write : FilePath → Bytes → String → Io S Unit
  unfolding write_fate
  write p bytes context w =
      if w.disk.dirs (parent p)
      then write_fate (P.fates w.step) p bytes context w
      else (err (failed context), tick w)

  -- A call that is carried out whole or refused.
  unfoldable pub attempt : {A : Type 0} → Fate → Io S A → String → Io S A
  attempt done m context w = m w
  attempt refused m context w = (err (failed context), tick w)
  attempt (torn n left) m context w = (err (failed context), tick w)

  rename_found : Option Bytes → FilePath → FilePath → String → Io S Unit
  rename_found none from to context w = (err (failed context), tick w)
  rename_found (some bytes) from to context w = (
    ok tt,
    set_disk (record w.disk { files = update (update w.disk.files from none) to (some bytes) }) w,
  )

  -- `fs::rename` within one directory: it happens whole or not at all.
  unfoldable pub rename : FilePath → FilePath → String → Io S Unit
  unfolding attempt rename_found
  rename from to context w =
      attempt (P.fates w.step) (rename_found (w.disk.files from) from to context) context w

  -- `Path::exists`: false where the metadata cannot be read.
  unfoldable pub exists : FilePath → Io S Bool
  exists p w = (ok (seen (P.fates w.step) (w.disk.dirs p || is_some (w.disk.files p))), tick w)

  -- `fs::remove_dir_all`: all that lies under the path, or a part of it.
  remove_dir_all_fate : Fate → FilePath → String → Io S Unit
  remove_dir_all_fate done p context w = (
    ok tt,
    set_disk
        (record {
          files = λ q. if is_above p q then none else w.disk.files q;
          dirs = λ q. if is_above p q then false else w.disk.dirs q;
        })
        w,
  )
  remove_dir_all_fate refused p context w = (err (failed context), tick w)
  remove_dir_all_fate (torn n left) p context w = (
    err (failed context),
    set_disk
        (record {
          files = λ q. if is_above p q && not (left q) then none else w.disk.files q;
          dirs = λ q. if is_above p q && not (left q) then false else w.disk.dirs q;
        })
        w,
  )

  unfoldable pub remove_dir_all : FilePath → String → Io S Unit
  unfolding remove_dir_all_fate
  remove_dir_all p context w = remove_dir_all_fate (P.fates w.step) p context w

  read_found : Option Bytes → String → Io S Bytes
  read_found none context w = (err (failed context), tick w)
  read_found (some bytes) context w = (ok bytes, tick w)

  -- `fs::read`
  unfoldable pub read : FilePath → String → Io S Bytes
  unfolding attempt read_found
  read p context w = attempt (P.fates w.step) (read_found (w.disk.files p) context) context w

  -- `fs::metadata(..).len()`
  unfoldable pub file_len : FilePath → String → Io S ℕ
  unfolding read
  file_len p context = do bytes ← read p context; pure (length bytes)

  stated : {B : Type 0} → Option (B × S) → String → Io S B
  stated none context w = (err (failed context), tick w)
  stated (some (b, s)) context w = (ok b, record { disk = w.disk; store = s; step = suc w.step })

  -- One statement of the metadata database, as a function of its state: it is carried out whole,
  -- or refused. `none` is a refusal by the database itself, as on a key that is taken.
  unfoldable pub statement : {B : Type 0} → String → (S → Option (B × S)) → Io S B
  unfolding attempt stated
  statement context run w = attempt (P.fates w.step) (stated (run w.store) context) context w
