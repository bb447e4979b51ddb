-- ===== src/Service/Config/Args.antt =====
-- What the arguments of the program mean.
use anki_backup_tool.Base.{
  String, false, Option, none, some, List, [], ◌∷◌, ◌++◌, ◌≡◌, refl, sym, ap, ◌⊎◌, Bool-cases, inl,
  inr, ◌==◌, ==-sound, string_eq, subst,
}
use anki_backup_tool.Backup.{Bytes}
use anki_backup_tool.World.{Platform, World, failed, malformed, ok_or}
use anki_backup_tool.World.Laws.{Ends, Ends-bind, Ends-ok_or}
use anki_backup_tool.World.Calls.{Fault}
use anki_backup_tool.World.Reads.{Untouched, Ends-read_any}
use anki_backup_tool.Service.Config.{
  Config, default_config, Process, parse_words, load_config, config_at, with_words, parse_args,
}

-- An argument: a configuration file, or a word that is not `--config`.
pub data Argument : Type 0 where
  config mode : String → Argument

abbrev pub words : List Argument → List String
words [] = []
words (config path ∷ xs) = "--config" ∷ path ∷ words xs
words (mode word ∷ xs) = word ∷ words xs

-- Each word is not `--config`.
abbrev pub AreWords : List Argument → Type 0
AreWords [] = Unit
AreWords (config path ∷ xs) = AreWords xs
AreWords (mode word ∷ xs) = ((word == "--config") ≡ false) × AreWords xs

-- The last configuration file, or `o` without one, and the last word, or `o` without one.
abbrev pub last_config : Option String → List Argument → Option String
last_config o [] = o
last_config o (config path ∷ xs) = last_config (some path) xs
last_config o (mode word ∷ xs) = last_config o xs

abbrev pub last_mode : Option String → List Argument → Option String
last_mode o [] = o
last_mode o (config path ∷ xs) = last_mode o xs
last_mode o (mode word ∷ xs) = last_mode (some word) xs

-- The words are arguments, the last of each kind counts; or the last word is a `--config`.
data Parsed (args : List String) (p m : Option String) (r : Option (Option String × Option String))
    : Type 0 where
  whole :
      (xs : List Argument)
      → AreWords xs
      → args ≡ words xs
      → r ≡ some (last_config p xs, last_mode m xs)
      → Parsed args p m r
  dangling :
      (xs : List Argument)
      → AreWords xs
      → args ≡ words xs ++ "--config" ∷ []
      → r ≡ none
      → Parsed args p m r

with_config :
    {args : List String} {p m : Option String} {r : Option (Option String × Option String)}
    (path : String)
    → Parsed args (some path) m r
    → Parsed ("--config" ∷ path ∷ args) p m r
with_config path (whole xs ws e is) =
    whole (config path ∷ xs) ws (ap (λ x. "--config" ∷ path ∷ x) e) is
with_config path (dangling xs ws e is) =
    dangling (config path ∷ xs) ws (ap (λ x. "--config" ∷ path ∷ x) e) is

with_mode :
    {args : List String} {p m : Option String} {r : Option (Option String × Option String)}
    (word : String)
    → (word == "--config") ≡ false
    → Parsed args p (some word) r
    → Parsed (word ∷ args) p m r
with_mode word w (whole xs ws e is) = whole (mode word ∷ xs) (w, ws) (ap (λ x. word ∷ x) e) is
with_mode word w (dangling xs ws e is) = dangling (mode word ∷ xs) (w, ws) (ap (λ x. word ∷ x) e) is

parse_words_lem :
    (args : List String) (p m : Option String) → Parsed args p m (parse_words args p m)
unfolding parse_words
parse_words_lem [] p m = whole [] tt refl refl
parse_words_lem (arg ∷ []) p m = elim (Bool-cases (arg == "--config")) [
  | inl is ↦ rw is (dangling [] tt (ap (λ x. x ∷ []) (==-sound arg "--config" is)) refl)
  | inr is ↦ rw is (whole (mode arg ∷ []) (is, tt) refl refl)
]
parse_words_lem (arg ∷ next ∷ args) p m =
    let after_config = parse_words_lem args (some next) m in
    let after_word = parse_words_lem (next ∷ args) p (some arg) in
    elim (Bool-cases (arg == "--config")) [
      | inl is ↦
          rw (parse_words, is)
            (subst (λ a. Parsed (a ∷ next ∷ args) p m (parse_words args (some next) m))
              (sym (==-sound arg "--config" is)) (with_config next after_config))
      | inr is ↦ rw (parse_words, is) (with_mode arg is after_word)
    ]

module _ ⦃X : Process⦄ {S : Type 0} where
  -- The configuration is what the file says that the path names, or the default.
  abbrev pub Loaded : World S → Option String → Config → Type 0
  Loaded w none cfg = cfg ≡ default_config
  Loaded w (some path) cfg =
      (bytes : Bytes) × (contents : String) × (w.disk.files (X.path_from path) ≡ some bytes)
      × (X.utf8 bytes ≡ some contents)
      × (X.toml_from_str contents ≡ some cfg)

  module _ ⦃P : Platform⦄ where
    -- The file is not read, is no text, or is no configuration.
    abbrev pub Unloaded : World S → Option String → Type 0
    Unloaded w none = ⊥
    Unloaded w (some path) =
        (w.disk.files (X.path_from path) ≡ none)
        ⊎ Fault
        ⊎ ((bytes : Bytes) × (w.disk.files (X.path_from path) ≡ some bytes)
            × ((X.utf8 bytes ≡ none)
                ⊎ ((contents : String) × (X.utf8 bytes ≡ some contents)
                    × (X.toml_from_str contents ≡ none))))

    config_at_lem :
        (o : Option String) (w : World S)
        → Ends
            (config_at o w)
            (λ cfg u. Loaded w o cfg × Untouched w u)
            (λ _ u. Unloaded w o × Untouched w u)
    unfolding config_at load_config
    config_at_lem none w = record { holds = (refl, (refl, refl)) }
    config_at_lem (some path) w =
        Ends-bind (Ends-read_any (X.path_from path) "reading config file" w)
          (λ bytes u (held, same).
            Ends-ok_or (X.utf8 bytes) (failed "reading config file") _ u
              (λ contents text.
                decoded bytes contents u held text same (X.toml_from_str contents) refl)
              (λ bad. (inr (inr (bytes, held, inl bad)), same)))
          (λ x u (same, why). (gone why, same))
      where
        gone : (w.disk.files (X.path_from path) ≡ none) ⊎ Fault → Unloaded w (some path)
        gone (inl none_there) = inl none_there
        gone (inr fault) = inr (inl fault)

        decoded :
            (bytes : Bytes) (contents : String) (u : World S)
            → w.disk.files (X.path_from path) ≡ some bytes
            → X.utf8 bytes ≡ some contents
            → Untouched w u
            → (o : Option Config) → X.toml_from_str contents ≡ o
            → Ends
                (ok_or o (malformed "parsing config file") u)
                (λ cfg u. Loaded w (some path) cfg × Untouched w u)
                (λ _ u. Unloaded w (some path) × Untouched w u)
        decoded bytes contents u held text same none e = record {
          holds = (inr (inr (bytes, held, inr (contents, text, e))), same);
        }
        decoded bytes contents u held text same (some cfg) e = record {
          holds = ((bytes, contents, held, text, e), same);
        }

    -- Arguments that are read are pairs of --config and a path, and words: the command is the last
    -- word, and the configuration is what the file at the last path says, or the default. The
    -- arguments are refused where the last one is a --config without a path, or where that file is not
    -- read, is no text or is no configuration. Nothing changes.
    pub parse_args_lem :
        (program : String) (args : List String) (w : World S)
        → Ends
            (parse_args (program ∷ args) w)
            (λ (cfg, m) u.
              (xs : List Argument) × AreWords xs
              × (args ≡ words xs)
              × (m ≡ last_mode none xs)
              × Loaded w (last_config none xs) cfg
              × Untouched w u)
            (λ _ u.
              ((xs : List Argument) × AreWords xs
                × ((args ≡ words xs ++ "--config" ∷ [])
                    ⊎ ((args ≡ words xs) × Unloaded w (last_config none xs))))
              × Untouched w u)
    unfolding parse_args with_words
    parse_args_lem program args w = elim (parse_words_lem args none none) [
      | dangling xs ws e is ↦ rw is (record { holds = ((xs, ws, inl e), (refl, refl)) })
      | whole xs ws e is ↦ rw is (
          Ends-bind (config_at_lem (last_config none xs) w)
            (λ cfg u (loaded, same). record { holds = (xs, ws, e, refl, loaded, same) })
            (λ x u (un, same). ((xs, ws, inr (e, un)), same)))
    ]
