-- ===== src/Repository/Paths.antt =====
-- The paths of the repository's layout: where each file stands, and that no two of them meet.
use anki_backup_tool.Base.{
  String, true, false, [], ◌∷◌, ◌++◌, ◌≡◌, ◌≢◌, refl, sym, ap, ◌∙◌, arith, string_eq, ==-false,
  ==-true, append_assoc,
}
use anki_backup_tool.World.{FilePath, join, parent, is_above}
use anki_backup_tool.Repository.{
  backups_dir, state_dir, pointer_path, pointer_tmp_path, backup_dir, payload_path, metadata_path,
}

pub join_lem : (p : FilePath) (s : String) → s ≢ "" → join p s ≡ p ++ s ∷ []
unfolding join
join_lem p s h = rw (==-false s "" h)

parent-snoc : (p : FilePath) (s : String) → parent (p ++ s ∷ []) ≡ p
parent-snoc [] s = refl
parent-snoc (a ∷ []) s = refl
parent-snoc (a ∷ b ∷ p) s = ap (◌∷◌ a) (parent-snoc (b ∷ p) s)

snoc_inj : (p : FilePath) (s t : String) → p ++ s ∷ [] ≡ p ++ t ∷ [] → s ≡ t
snoc_inj [] s t e = cc
snoc_inj (a ∷ p) s t e = snoc_inj p s t (cc)

pub parent-join : (p : FilePath) (s : String) → s ≢ "" → parent (join p s) ≡ p
parent-join p s h = rw (join_lem p s h) (parent-snoc p s)

pub join_inj : (p : FilePath) (s t : String) → s ≢ "" → t ≢ "" → join p s ≡ join p t → s ≡ t
join_inj p s t h k e = snoc_inj p s t (sym (join_lem p s h) ∙ e ∙ join_lem p t k)

append_cancel : (p q r : FilePath) → p ++ q ≡ p ++ r → q ≡ r
append_cancel [] q r e = e
append_cancel (a ∷ p) q r e = append_cancel p q r (cc)

is_above-append : (p q r : FilePath) → is_above (p ++ q) (p ++ r) ≡ is_above q r
is_above-append [] q r = refl
is_above-append (a ∷ p) q r = rw (==-true a a refl) (is_above-append p q r)

module _ (root : FilePath) where
  two : (a b : String) → a ≢ "" → b ≢ "" → join (join root a) b ≡ root ++ a ∷ b ∷ []
  two a b h k = rw (join_lem _ b k, join_lem root a h) (append_assoc root (a ∷ []) (b ∷ []))

  pub pointer_path_lem : pointer_path root ≡ root ++ "state" ∷ "current-pointer.json" ∷ []
  pointer_path_lem = two "state" "current-pointer.json" (λ e. cc) (λ e. cc)

  pub pointer_tmp_path_lem :
      pointer_tmp_path root ≡ root ++ "state" ∷ "current-pointer.json.tmp" ∷ []
  pointer_tmp_path_lem = two "state" "current-pointer.json.tmp" (λ e. cc) (λ e. cc)

  pub backup_dir_lem : (d : String) → d ≢ "" → backup_dir root d ≡ root ++ "backups" ∷ d ∷ []
  unfolding backup_dir
  backup_dir_lem d h = two "backups" d (λ e. cc) h

  below :
      (d f : String) → d ≢ "" → f ≢ "" → join (backup_dir root d) f ≡ root ++ "backups" ∷ d ∷ f ∷ []
  below d f h k =
      rw (join_lem _ f k, backup_dir_lem d h) (append_assoc root ("backups" ∷ d ∷ []) (f ∷ []))

  pub payload_path_lem :
      (d : String) → d ≢ "" → payload_path root d ≡ root ++ "backups" ∷ d ∷ "collection.anki2" ∷ []
  unfolding payload_path
  payload_path_lem d h = below d "collection.anki2" h (λ e. cc)

  pub metadata_path_lem :
      (d : String) → d ≢ "" → metadata_path root d ≡ root ++ "backups" ∷ d ∷ "metadata.json" ∷ []
  unfolding metadata_path
  metadata_path_lem d h = below d "metadata.json" h (λ e. cc)

  pub parent-pointer_tmp_path : parent (pointer_tmp_path root) ≡ state_dir root
  parent-pointer_tmp_path = parent-join (state_dir root) "current-pointer.json.tmp" (λ e. cc)

  pub parent-payload_path : (d : String) → parent (payload_path root d) ≡ backup_dir root d
  unfolding payload_path
  parent-payload_path d = parent-join _ "collection.anki2" (λ e. cc)

  pub parent-metadata_path : (d : String) → parent (metadata_path root d) ≡ backup_dir root d
  unfolding metadata_path
  parent-metadata_path d = parent-join _ "metadata.json" (λ e. cc)

  pub pointer≢tmp : pointer_path root ≢ pointer_tmp_path root
  pointer≢tmp e = cc (
      join_inj (state_dir root) "current-pointer.json" "current-pointer.json.tmp" (λ e. cc)
        (λ e. cc) e)

  pub payload≢metadata : (d : String) → payload_path root d ≢ metadata_path root d
  unfolding payload_path metadata_path
  payload≢metadata d e =
      cc (join_inj (backup_dir root d) "collection.anki2" "metadata.json" (λ e. cc) (λ e. cc) e)

  module _ (d : String) (h : d ≢ "") where
    pub payload≢pointer : payload_path root d ≢ pointer_path root
    payload≢pointer e =
        cc (append_cancel root _ _ (sym (payload_path_lem d h) ∙ e ∙ pointer_path_lem))

    pub payload≢tmp : payload_path root d ≢ pointer_tmp_path root
    payload≢tmp e =
        cc (append_cancel root _ _ (sym (payload_path_lem d h) ∙ e ∙ pointer_tmp_path_lem))

    pub metadata≢pointer : metadata_path root d ≢ pointer_path root
    metadata≢pointer e =
        cc (append_cancel root _ _ (sym (metadata_path_lem d h) ∙ e ∙ pointer_path_lem))

    pub not-above-pointer : is_above (backup_dir root d) (pointer_path root) ≡ false
    not-above-pointer =
        rw (backup_dir_lem d h, pointer_path_lem, is_above-append)
          (rw (==-false {A = String} "backups" "state" (λ e. cc)))

    pub not-above-state_dir : is_above (backup_dir root d) (state_dir root) ≡ false
    not-above-state_dir =
        rw (backup_dir_lem d h, join_lem root "state" (λ e. cc), is_above-append)
          (rw (==-false {A = String} "backups" "state" (λ e. cc)))

    pub not-above-backups_dir : is_above (backup_dir root d) (backups_dir root) ≡ false
    not-above-backups_dir =
        rw (backup_dir_lem d h, join_lem root "backups" (λ e. cc), is_above-append)
          (rw (==-true {A = String} "backups" "backups" refl))

    pub above-payload : is_above (backup_dir root d) (payload_path root d) ≡ true
    above-payload = rw (backup_dir_lem d h, payload_path_lem d h, is_above-append) (ground arith)

    pub above-metadata : is_above (backup_dir root d) (metadata_path root d) ≡ true
    above-metadata = rw (backup_dir_lem d h, metadata_path_lem d h, is_above-append) (ground arith)

    module _ (d' : String) (h' : d' ≢ "") (ne : d ≢ d') where
      pub payload_inj : payload_path root d ≢ payload_path root d'
      payload_inj e =
          ne (cc (append_cancel root _ _ (sym (payload_path_lem d h) ∙ e ∙ payload_path_lem d' h')))

      pub payload≢metadata_ne : payload_path root d ≢ metadata_path root d'
      payload≢metadata_ne e =
          ne
            (cc (append_cancel root _ _ (sym (payload_path_lem d h) ∙ e ∙ metadata_path_lem d' h')))

      pub not-above-payload : is_above (backup_dir root d) (payload_path root d') ≡ false
      not-above-payload =
          rw (backup_dir_lem d h, payload_path_lem d' h', is_above-append) (ground arith)

      pub not-above-backup_dir : is_above (backup_dir root d) (backup_dir root d') ≡ false
      not-above-backup_dir =
          rw (backup_dir_lem d h, backup_dir_lem d' h', is_above-append) (ground arith)

    pub metadata≢tmp : metadata_path root d ≢ pointer_tmp_path root
    metadata≢tmp e =
        cc (append_cancel root _ _ (sym (metadata_path_lem d h) ∙ e ∙ pointer_tmp_path_lem))
