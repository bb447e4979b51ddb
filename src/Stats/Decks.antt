-- ===== src/Stats/Decks.antt =====
-- The names and the counts of decks, against descriptions of the rows they are read from.
use anki_backup_tool.Base.{
  ℕ, ◌+◌, String, Option, none, some, List, [], ◌∷◌, ◌++◌, map, ◌≡◌, ◌≢◌, refl, ap, ◌∙◌, arith,
  tally, if◌then◌else◌, ◌==◌, ==-sound, ==-true, Bool-cases, inl, inr, sym, subst,
}
use anki_backup_tool.Base.Int.{ℤ, ℤ_eq}
use anki_backup_tool.Base.Text.{parse_i64}
use anki_backup_tool.Libraries.{Fields, Value}
use anki_backup_tool.World.{Platform, ok, err, Error}
use anki_backup_tool.Stats.{
  names_in, legacy_insert, legacy_names_from, deck_name_of, parse_deck_names_legacy, DeckNames, get,
  insert, deck_names_from, count_did, group_by_did,
}

-- The count under a deck.
abbrev pub count_of : ℤ → List (ℤ × ℕ) → ℕ
count_of did [] = 0
count_of did ((d, n) ∷ gs) = (if d == did then n else 0) + count_of did gs

count_of-count_did :
    (did d : ℤ) (gs : List (ℤ × ℕ))
    → count_of did (count_did d gs) ≡ (if d == did then 1 else 0) + count_of did gs
unfolding count_did
count_of-count_did did d [] = ground arith
count_of-count_did did d ((i, n) ∷ gs) = ground (arith, count_of-count_did did d gs)

-- Each deck is counted with the number of its cards.
pub count_of-group_by_did :
    (did : ℤ) (dids : List ℤ) → count_of did (group_by_did dids) ≡ tally (λ d. d == did) dids
unfolding group_by_did
count_of-group_by_did did [] = refl
count_of-group_by_did did (d ∷ dids) =
    count_of-count_did did d (group_by_did dids)
    ∙ ap (λ n. (if d == did then 1 else 0) + n) (count_of-group_by_did did dids)

get-insert :
    (id k : ℤ) (name : String) (m : DeckNames)
    → get id (insert k name m) ≡ (if k == id then some name else get id m)
unfolding get insert
get-insert id k name [] = ground arith
get-insert id k name ((j, old) ∷ m) = ground (arith, get-insert id k name m)

-- The name in the last pair of an id, or what is given.
abbrev pub last_name : ℤ → Option String → List (ℤ × String) → Option String
last_name id o [] = o
last_name id o ((i, name) ∷ pairs) = last_name id (if i == id then some name else o) pairs

-- No id stands twice.
abbrev pub Distinct : DeckNames → Type 0
Distinct [] = Unit
Distinct ((i, name) ∷ m) = (get i m ≡ none) × Distinct m

insert-Distinct :
    (id : ℤ) (name : String) (m : DeckNames) → Distinct m → Distinct (insert id name m)
unfolding insert get
insert-Distinct id name [] h = (refl, tt)
insert-Distinct id name ((j, old) ∷ m) (fresh, rest) = elim (Bool-cases (j == id)) [
  | inl same ↦ rw same (ap (λ k. get k m) (sym (==-sound j id same)) ∙ fresh, rest)
  | inr differs ↦ rw differs (
    get-insert j id name m ∙ ground (arith, fresh, ==-sound id j, ==-true j id),
    insert-Distinct id name m rest,
  )
]

-- What reading the rows gives, after what is there: names where each row is a pair, each name the last
-- one of its id; and nothing where some row is none.
abbrev pub NamesFrom : DeckNames → List (Option (ℤ × String)) → Option DeckNames → Type 0
NamesFrom out rows (some m) =
    (pairs : List (ℤ × String)) × (rows ≡ map some pairs)
    × Distinct m
    × ((id : ℤ) → get id m ≡ last_name id (get id out) pairs)
NamesFrom out rows none =
    (pairs : List (ℤ × String)) × (rest : List (Option (ℤ × String))) × (rows
      ≡ map some pairs ++ none ∷ rest)

one_more :
    (i : ℤ) (name : String) (out : DeckNames) (rows : List (Option (ℤ × String)))
    (o : Option DeckNames)
    → NamesFrom (insert i name out) rows o
    → NamesFrom out (some (i, name) ∷ rows) o
one_more i name out rows none (pairs, rest, is) =
    ((i, name) ∷ pairs, rest, ap (λ xs. some (i, name) ∷ xs) is)
one_more i name out rows (some m) (pairs, is, apart, known) = (
  (i, name) ∷ pairs,
  ap (λ xs. some (i, name) ∷ xs) is,
  apart,
  λ id. known id ∙ ap (λ o. last_name id o pairs) (get-insert id i name out),
)

names_from :
    (out : DeckNames) (rows : List (Option (ℤ × String)))
    → Distinct out
    → NamesFrom out rows (deck_names_from out rows)
unfolding deck_names_from
names_from out [] d = ([], refl, d, λ id. refl)
names_from out (none ∷ rows) d = ([], rows, refl)
names_from out (some (i, name) ∷ rows) d =
    one_more i name out rows (deck_names_from (insert i name out) rows)
      (names_from (insert i name out) rows (insert-Distinct i name out d))

-- Names are read of the rows of decks exactly where each row has an id and a name: then no id stands
-- twice, the name under an id is the one in the last row of that id, and there is none without such a
-- row. Where none are read, some row has no id or no name.
pub deck_names_from_lem :
    (rows : List (Option (ℤ × String))) → NamesFrom [] rows (deck_names_from [] rows)
deck_names_from_lem rows = names_from [] rows tt

-- What one field of the legacy text says of an id: a number and an object with a name, or nothing.
abbrev named_by : ℤ → Option String → Option ℤ → Option String → Option String
named_by id o (some i) (some name) = if i == id then some name else o
named_by id o (some i) none = o
named_by id o none name = o

-- The name in the last field of an id that has a name.
abbrev pub last_named : ℤ → Option String → Fields → Option String
last_named id o Fields.end = o
last_named id o (Fields.field key value fs) =
    last_named id (named_by id o (parse_i64 key) (deck_name_of value)) fs

get-legacy_insert :
    (id : ℤ) (i : Option ℤ) (name : Option String) (m : DeckNames)
    → get id (legacy_insert i name m) ≡ named_by id (get id m) i name
unfolding legacy_insert
get-legacy_insert id (some i) (some name) m = get-insert id i name m
get-legacy_insert id (some i) none m = refl
get-legacy_insert id none (some name) m = refl
get-legacy_insert id none none m = refl

legacy_insert-Distinct :
    (i : Option ℤ) (name : Option String) (m : DeckNames)
    → Distinct m
    → Distinct (legacy_insert i name m)
unfolding legacy_insert
legacy_insert-Distinct (some i) (some name) m d = insert-Distinct i name m d
legacy_insert-Distinct (some i) none m d = d
legacy_insert-Distinct none (some name) m d = d
legacy_insert-Distinct none none m d = d

legacy_from :
    (m : DeckNames) (fs : Fields)
    → Distinct m
    → Distinct (legacy_names_from m fs)
      × ((id : ℤ) → get id (legacy_names_from m fs) ≡ last_named id (get id m) fs)
unfolding legacy_names_from
legacy_from m Fields.end d = (d, λ id. refl)
legacy_from m (Fields.field key value fs) d =
    let i = parse_i64 key in
    let name = deck_name_of value in
    let (d', known) = legacy_from (legacy_insert i name m) fs (legacy_insert-Distinct i name m d) in
    (d', λ id. known id ∙ ap (λ o. last_named id o fs) (get-legacy_insert id i name m))

-- What the names that were read say of the text.
abbrev pub LegacyNames : Option Value → DeckNames → Type 0
LegacyNames o m =
    (fs : Fields) × (o ≡ some (Value.obj fs))
    × Distinct m
    × ((id : ℤ) → get id m ≡ last_named id none fs)

ok_inj : {a b : DeckNames} → ok a ≡ ok b → a ≡ b
ok_inj e = cc

err≢ok : (x : Error) (m : DeckNames) → err x ≢ ok m
err≢ok x m e = cc

names_in_lem : (o : Option Value) (m : DeckNames) → names_in o ≡ ok m → LegacyNames o m
unfolding names_in get
names_in_lem none m h = absurd (err≢ok _ m h)
names_in_lem (some (Value.str s)) m h = absurd (err≢ok _ m h)
names_in_lem (some Value.other) m h = absurd (err≢ok _ m h)
names_in_lem (some (Value.obj fs)) m h =
    subst (LegacyNames (some (Value.obj fs))) (ok_inj h)
      (let (d, known) = legacy_from [] fs tt in (fs, refl, d, known))

-- Where the legacy names are read, the text is a JSON object, no id stands twice, the name under an id
-- is the one in its last field whose key is that number and whose value has a name, and there is none
-- without such a field.
pub parse_deck_names_legacy_lem :
    ⦃P : Platform⦄
    → (raw : String) (m : DeckNames) → parse_deck_names_legacy raw ≡ ok m
    → LegacyNames (P.json_from_str raw) m
unfolding parse_deck_names_legacy
parse_deck_names_legacy_lem ⦃P⦄ raw m h = names_in_lem (P.json_from_str raw) m h
