-- ===== src/Store/Table.antt =====
-- A table of rows as a list of entries: what queries on the rows say of the entries that the rows stand
-- for. `decode` reads a row, and `good` tells the rows that the program itself has written.
use mathlib.Core.Option
use anki_backup_tool.Base.{
  String, Bool, true, not, ◌&&◌, some, List, [], ◌∷◌, ◌++◌, map, ◌≡◌, refl, sym, ap, ◌∙◌, find,
  keep, tally, All, ltb, leb, ◌==◌, nat_eq, string_eq, arith, tally-keep, tally-append,
}
use anki_backup_tool.Base.Order.{SameItems, IsSorted}
use anki_backup_tool.Backup.{BackupEntry}
use anki_backup_tool.Store.Contract.{is_created, IsLastHash, latest_first}

module _ {R : Type 0} (decode : R → BackupEntry) (good : R → Bool) where
  abbrev pub AllGood : List R → Type 0
  AllGood rows = tally (λ r. not (good r)) rows ≡ 0

  -- A test on rows that says of a good row what a test on entries says of its entry.
  abbrev pub Agrees : (R → Bool) → (BackupEntry → Bool) → Type 0
  Agrees p q = (r : R) → good r ≡ true → p r ≡ q (decode r)

  pub AllGood-head : (r : R) (rows : List R) → AllGood (r ∷ rows) → good r ≡ true
  AllGood-head r rows h = ground arith

  pub AllGood-tail : (r : R) (rows : List R) → AllGood (r ∷ rows) → AllGood rows
  AllGood-tail r rows h = ground arith

  pub AllGood-snoc :
      (rows : List R) (r : R) → AllGood rows → good r ≡ true → AllGood (rows ++ r ∷ [])
  AllGood-snoc rows r h g = rw tally-append (ground arith)

  pub AllGood-keep : (p : R → Bool) (rows : List R) → AllGood rows → AllGood (keep p rows)
  AllGood-keep p [] h = refl
  AllGood-keep p (r ∷ rows) h = ground (arith, AllGood-keep p rows)

  pub find-good :
      (p : R → Bool) (rows : List R) (r : R) → AllGood rows → find p rows ≡ some r → good r ≡ true
  find-good p [] r h e = cc
  find-good p (x ∷ rows) r h e = ground (arith, find-good p rows r)

  module _ (p : R → Bool) (q : BackupEntry → Bool) (agree : Agrees p q) where
    pub map-keep :
        (rows : List R) → AllGood rows → map decode (keep p rows) ≡ keep q (map decode rows)
    map-keep [] h = refl
    map-keep (r ∷ rows) h =
        rw (agree r (AllGood-head r rows h)) (ground (arith, map-keep rows (AllGood-tail r rows h)))

    pub tally_rows : (rows : List R) → AllGood rows → tally p rows ≡ tally q (map decode rows)
    tally_rows [] h = refl
    tally_rows (r ∷ rows) h =
        rw (agree r (AllGood-head r rows h), tally_rows rows (AllGood-tail r rows h))

    pub find_rows :
        (rows : List R) → AllGood rows → Option.map decode (find p rows) ≡ find q (map decode rows)
    find_rows [] h = refl
    find_rows (r ∷ rows) h =
        rw (agree r (AllGood-head r rows h))
          (ground (arith, find_rows rows (AllGood-tail r rows h)))

  module _ (le : R → R → Bool)
      (later : (a b : R)
        → good a ≡ true
        → good b ≡ true
        → le a b ≡ true
        → latest_first (decode a) (decode b) ≡ true) where
    All-map :
        (r : R) (rows : List R)
        → good r ≡ true
        → AllGood rows
        → All (λ x. le r x ≡ true) rows
        → All (λ e. latest_first (decode r) e ≡ true) (map decode rows)
    All-map r [] g h a = tt
    All-map r (x ∷ rows) g h a =
        (later r x g (AllGood-head x rows h) a.0, All-map r rows g (AllGood-tail x rows h) a.1)

    pub IsSorted-map :
        (rows : List R) → AllGood rows → IsSorted le rows → IsSorted latest_first (map decode rows)
    IsSorted-map [] h s = tt
    IsSorted-map (r ∷ rows) h s = (
      All-map r rows (AllGood-head r rows h) (AllGood-tail r rows h) s.0,
      IsSorted-map rows (AllGood-tail r rows h) s.1,
    )

module _ {R : Type 0} (decode : R → BackupEntry) (good : R → Bool) (le : R → R → Bool)
    (later : (a b : R)
      → good a ≡ true
      → good b ≡ true
      → le a b ≡ true
      → latest_first (decode a) (decode b) ≡ true)
    (hash : R → String) (hash_lem : (r : R) → hash r ≡ (decode r).content_hash) (c : R → Bool)
    (agree : Agrees decode good c is_created) where
  none_newer :
      (x : R) (xs : List R)
      → good x ≡ true
      → AllGood decode good xs
      → All (λ y. le x y ≡ true) xs
      → tally (λ r. ltb (decode x).created_at (decode r).created_at) xs ≡ 0
  none_newer x [] g h a = refl
  none_newer x (y ∷ xs) g h a = ground (arith, later x y g, none_newer x xs g, a)

  selected :
      (q : BackupEntry → Bool) (xs rows : List R)
      → AllGood decode good rows
      → SameItems xs (keep c rows)
      → tally (λ e. is_created e && q e) (map decode rows) ≡ tally (λ r. q (decode r)) xs
  selected q xs rows h same =
      sym (
        tally_rows decode good (λ r. c r && q (decode r)) (λ e. is_created e && q e)
          (λ r g. ap (λ b. b && q (decode r)) (agree r g)) rows h)
      ∙ sym (tally-keep (λ r. q (decode r)) c rows)
      ∙ sym (same (λ r. q (decode r)))

  -- The hash of the first of the created rows, the newest first.
  pub IsLastHash-head :
      (xs rows : List R)
      → AllGood decode good rows
      → SameItems xs (keep c rows)
      → IsSorted le xs
      → IsLastHash (map decode rows) (Option.map hash (find (λ _. true) xs))
  IsLastHash-head [] rows h same s =
      sym (tally_rows decode good c is_created agree rows h)
      ∙ sym (ground (arith, tally-keep (λ _. true) c rows, same (λ _. true)))
  IsLastHash-head (x ∷ xs) rows h same s =
      let q =
        λ (e : BackupEntry). e.content_hash == hash x && leb (decode x).created_at e.created_at in
      let newer = λ (e : BackupEntry). ltb (decode x).created_at e.created_at in
      let g = same (λ r. not (good r)) ∙ AllGood-keep decode good c rows h in
      (
        (decode x).created_at,
        rw (selected q (x ∷ xs) rows h same) (ground (arith, hash_lem x)),
        rw (selected newer (x ∷ xs) rows h same) (
            ground (
              arith,
              none_newer x xs (AllGood-head decode good x xs g) (AllGood-tail decode good x xs g)
                  s.0,
            )),
      )
