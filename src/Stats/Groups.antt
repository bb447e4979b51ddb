-- ===== src/Stats/Groups.antt =====
-- `GROUP BY did`: each deck of a card once, with the number of its cards.
use anki_backup_tool.Base.{
  ℕ, ◌≤◌, String, ◌<>◌, Option, none, some, List, [], ◌∷◌, map, ◌≡◌, refl, sym, ap, ◌∙◌, arith,
  tally, if◌then◌else◌, leb, ◌==◌, ==-sound, ==-true, Bool-cases, inl, inr,
}
use anki_backup_tool.Base.Int.{ℤ, ℤ_eq, as_i64}
use anki_backup_tool.Base.Text.{show_ℤ}
use anki_backup_tool.Backup.{DeckStats}
use anki_backup_tool.Stats.{DeckNames, get, count_did, group_by_did, deck_stat, name_or_default}
use anki_backup_tool.Stats.Decks.{count_of, count_of-group_by_did}

-- The decks of the groups.
abbrev keys : List (ℤ × ℕ) → List ℤ
keys [] = []
keys ((d, n) ∷ gs) = d ∷ keys gs

-- How often a number stands in a list.
abbrev pub times : ℤ → List ℤ → ℕ
times k = tally (λ d. d == k)

times-count_did :
    (k c : ℤ) (gs : List (ℤ × ℕ))
    → times k (keys (count_did c gs)) ≡ (
        if c == k
        then (if leb 1 (times k (keys gs)) then times k (keys gs) else 1)
        else times k (keys gs))
unfolding count_did
times-count_did k c [] = ground arith
times-count_did k c ((d, n) ∷ gs) = elim (Bool-cases (d == c)) [
  | inl same ↦ rw (same, ==-sound d c same) (ground arith)
  | inr differs ↦ elim (Bool-cases (c == k)) [
    | inl it ↦ ground (
      arith,
      differs,
      it,
      ap (λ x. d == x) (sym (==-sound c k it)) ∙ differs,
      times-count_did k c gs,
    )
    | inr other ↦ ground (arith, differs, other, times-count_did k c gs)
  ]
]

-- Each deck of a card has one group.
times-group_by_did :
    (k : ℤ) (dids : List ℤ)
    → times k (keys (group_by_did dids)) ≡ (if leb 1 (times k dids) then 1 else 0)
unfolding group_by_did
times-group_by_did k [] = refl
times-group_by_did k (d ∷ dids) =
    ground (arith, times-count_did k d (group_by_did dids), times-group_by_did k dids)

uncounted : (k : ℤ) (gs : List (ℤ × ℕ)) → times k (keys gs) ≡ 0 → count_of k gs ≡ 0
uncounted k [] h = refl
uncounted k ((d, n) ∷ gs) h = ground (arith, uncounted k gs)

-- A deck under its name, or its number where there is none, with a count.
abbrev label : ℤ → Option String → String
label k none = "Deck " <> show_ℤ k
label k (some name) = name

abbrev pub described : DeckNames → (ℤ → ℕ) → ℤ → DeckStats
described names count k = record {
  deck_id = k;
  deck_name = label k (get k names);
  card_count = as_i64 (count k);
}

module _ (names : DeckNames) (count : ℤ → ℕ) where
  label_lem : (k : ℤ) (o : Option String) → name_or_default k o ≡ label k o
  unfolding name_or_default
  label_lem k none = refl
  label_lem k (some name) = refl

  deck_stat-described :
      (k : ℤ) (n : ℕ) → n ≡ count k → deck_stat names (k, n) ≡ described names count k
  unfolding deck_stat
  deck_stat-described k n e = rw (e, label_lem k (get k names))

  alone :
      (d k : ℤ) (n : ℕ) (gs : List (ℤ × ℕ))
      → times k (keys ((d, n) ∷ gs)) ≤ 1
      → 1 ≤ times k (keys gs)
      → count_of k ((d, n) ∷ gs) ≡ count_of k gs
  alone d k n gs h there = ground arith

  first :
      (d : ℤ) (n : ℕ) (gs : List (ℤ × ℕ))
      → times d (keys ((d, n) ∷ gs)) ≤ 1
      → count_of d ((d, n) ∷ gs) ≡ n
  first d n gs h = ground (arith, ==-true d d refl, uncounted d gs)

  here : (d k : ℤ) (n : ℕ) (gs : List (ℤ × ℕ)) → d ≡ k → 1 ≤ times k (keys ((d, n) ∷ gs))
  here d k n gs e = ground (arith, ==-true d k e)

  more :
      (d k : ℤ) (n : ℕ) (gs : List (ℤ × ℕ))
      → 1 ≤ times k (keys gs)
      → 1 ≤ times k (keys ((d, n) ∷ gs))
  more d k n gs h = ground arith

  fewer :
      (d k : ℤ) (n : ℕ) (gs : List (ℤ × ℕ))
      → times k (keys ((d, n) ∷ gs)) ≤ 1
      → times k (keys gs) ≤ 1
  fewer d k n gs h = ground arith

  each :
      (gs : List (ℤ × ℕ))
      → ((k : ℤ) → times k (keys gs) ≤ 1)
      → ((k : ℤ) → 1 ≤ times k (keys gs) → count_of k gs ≡ count k)
      → map (deck_stat names) gs ≡ map (described names count) (keys gs)
  each [] once same = refl
  each ((d, n) ∷ gs) once same =
      rw
        (
          deck_stat-described d n (sym (first d n gs (once d)) ∙ same d (here d d n gs refl)),
          each gs (λ k. fewer d k n gs (once k))
              (λ k there. sym (alone d k n gs (once k) there) ∙ same k (more d k n gs there)),
        )
        refl

-- Each deck with a card is there once, with the number of its cards.
pub deck_stat-group_by_did :
    (names : DeckNames) (cards : List ℤ)
    → (ids : List ℤ) × ((k : ℤ) → times k ids ≡ (if leb 1 (times k cards) then 1 else 0))
      × (map (deck_stat names) (group_by_did cards)
          ≡ map (described names (λ k. times k cards)) ids)
deck_stat-group_by_did names cards = (
  keys (group_by_did cards),
  λ k. times-group_by_did k cards,
  each names (λ k. times k cards) (group_by_did cards)
      (λ k. ground (arith, times-group_by_did k cards)) (λ k there. count_of-group_by_did k cards),
)
