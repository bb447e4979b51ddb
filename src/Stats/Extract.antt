-- ===== src/Stats/Extract.antt =====
-- What the statistics of a collection file say of its tables.
use anki_backup_tool.Base.{
  String, length, ℕ, Option, none, some, List, [], map, ◌≡◌, ◌⊎◌, refl, sym, ◌∙◌, inl, inr, subst,
  ap,
}
use anki_backup_tool.Base.Int.{ℤ, as_i64}
use anki_backup_tool.Base.Order.{
  SameItems, IsSorted, sort_by, sort_by-SameItems, sort_by-IsSorted, SameItems-map,
}
use anki_backup_tool.Base.TextOrder.{text_le_total, text_le_trans}
use anki_backup_tool.Backup.{Bytes, DeckStats}
use anki_backup_tool.Libraries.{Collection, IsLawful}
use anki_backup_tool.World.{
  FilePath, Platform, Result, ok, err, World, Disk, ok_or, malformed, failed,
}
use anki_backup_tool.World.Laws.{Ends, Ends-bind, Ends-ok_or, Ends-mono}
use anki_backup_tool.World.Calls.{Fault}
use anki_backup_tool.World.Reads.{Untouched, Ends-read_any}
use anki_backup_tool.Stats.Tables.{
  collection_there, Asked, Unasked, Modern, NotModern, Legacy, NotLegacy, Named, Extracted,
  Unextracted, no_cards, no_notes, no_revlog, no_names,
}
use anki_backup_tool.Stats.Groups.{deck_stat-group_by_did}
use anki_backup_tool.Stats.{
  DeckNames, deck_names_from, parse_deck_names_legacy, group_by_did, deck_stat, by_name, query,
  parse_deck_names_new, deck_names, legacy_names, or_else, extract_stats,
}

module _ ⦃P : Platform⦄ {S : Type 0} (path : FilePath) (w : World S) where
  abbrev pub content : Option Bytes
  content = w.disk.files path

  query_lem :
      {A : Type 0} (ask : Collection → Option A) (u : World S)
      → Untouched w u
      → Ends
          (query path ask u)
          (λ a v. Asked content ask a × Untouched w v)
          (λ _ v. Unasked content ask × Untouched w v)
  unfolding query
  query_lem {A = A} ask u (disk, store) =
      Ends-bind (Ends-read_any path "open collection db" u)
        (λ bytes v (held, (d, s)).
          Ends-ok_or (P.open_collection bytes) (malformed "open collection db") _ v
            (λ c is. answered c v (there bytes held ∙ is) (d ∙ disk, s ∙ store) (ask c) refl)
            (λ bad. (inr (inl (there bytes held ∙ bad)), (d ∙ disk, s ∙ store))))
        (λ x v ((d, s), why). (gone why, (d ∙ disk, s ∙ store)))
    where
      there :
          (bytes : Bytes)
          → u.disk.files path ≡ some bytes
          → collection_there content ≡ P.open_collection bytes
      there bytes held = ap collection_there (ap (λ (k : Disk). k.files path) (sym disk) ∙ held)

      gone : (u.disk.files path ≡ none) ⊎ Fault → Unasked content ask
      gone (inl none_there) =
          inr (inl (ap collection_there (ap (λ (k : Disk). k.files path) (sym disk) ∙ none_there)))
      gone (inr fault) = inl fault

      answered :
          (c : Collection) (v : World S)
          → collection_there content ≡ some c
          → Untouched w v
          → (o : Option A) → ask c ≡ o
          → Ends
              (ok_or o (failed "query") v)
              (λ a v. Asked content ask a × Untouched w v)
              (λ _ v. Unasked content ask × Untouched w v)
      answered c v is same none e = record { holds = (inr (inr (c, is, e)), same) }
      answered c v is same (some a) e = record { holds = ((c, is, e), same) }

  new_lem :
      (u : World S)
      → Untouched w u
      → Ends
          (parse_deck_names_new path u)
          (λ names v. Modern content names × Untouched w v)
          (λ _ v. NotModern content × Untouched w v)
  unfolding parse_deck_names_new
  new_lem u same =
      Ends-bind (query_lem (λ c. c.decks) u same)
        (λ rows v (asked, still). named rows v asked still (deck_names_from [] rows) refl)
        (λ x v (bad, still). (inl bad, still))
    where
      named :
          (rows : List (Option (ℤ × String))) (v : World S)
          → Asked content (λ c. c.decks) rows
          → Untouched w v
          → (o : Option DeckNames) → deck_names_from [] rows ≡ o
          → Ends
              (ok_or o (failed "row") v)
              (λ names v. Modern content names × Untouched w v)
              (λ _ v. NotModern content × Untouched w v)
      named rows v asked still none e = record { holds = (inr (rows, asked, e), still) }
      named rows v asked still (some names) e = record { holds = ((rows, asked, e), still) }

  legacy_lem :
      (u : World S)
      → Untouched w u
      → Ends
          (legacy_names path u)
          (λ names v. Legacy content names × Untouched w v)
          (λ _ v. NotLegacy content × Untouched w v)
  unfolding legacy_names
  legacy_lem u same =
      Ends-bind (query_lem (λ c. c.col_decks) u same)
        (λ json v (asked, still). parsed json v asked still (parse_deck_names_legacy json) refl)
        (λ x v (bad, still). (inl bad, still))
    where
      parsed :
          (json : String) (v : World S)
          → Asked content (λ c. c.col_decks) json
          → Untouched w v
          → (r : Result DeckNames) → parse_deck_names_legacy json ≡ r
          → Ends
              (r, v)
              (λ names v. Legacy content names × Untouched w v)
              (λ _ v. NotLegacy content × Untouched w v)
      parsed json v asked still (ok names) e = record { holds = ((json, asked, e), still) }
      parsed json v asked still (err x) e = record { holds = (inr (json, x, asked, e), still) }

  deck_names_lem :
      (u : World S)
      → Untouched w u
      → Ends
          (deck_names path u)
          (λ names v. Named content names × Untouched w v)
          (λ _ v. (NotModern content × NotLegacy content) × Untouched w v)
  unfolding deck_names or_else
  deck_names_lem u same = chosen (parse_deck_names_new path u).0 _ (new_lem u same)
    where
      chosen :
          (r : Result DeckNames) (v : World S)
          → Ends
              (r, v)
              (λ names v. Modern content names × Untouched w v)
              (λ _ v. NotModern content × Untouched w v)
          → Ends
              (or_else r (legacy_names path) v)
              (λ names v. Named content names × Untouched w v)
              (λ _ v. (NotModern content × NotLegacy content) × Untouched w v)
      chosen (ok names) v h = record { holds = (inl h.holds.0, h.holds.1) }
      chosen (err x) v h =
          Ends-mono (legacy_lem v h.holds.1)
            (λ names u (legacy, still). (inr (h.holds.0, legacy), still))
            (λ e u (none_there, still). ((h.holds.0, none_there), still))

  same_cards :
      (xs ys : List ℤ) → Asked content (λ c. c.cards) xs → Asked content (λ c. c.cards) ys → xs ≡ ys
  same_cards xs ys (c, is, x) (d, is', y) = cc

  -- The decks of the cards, in the order of their names.
  abbrev in_order : DeckNames → List ℤ → List DeckStats
  in_order names dids = sort_by by_name (map (deck_stat names) (P.group_order (group_by_did dids)))

  module _ (lawful : IsLawful P.lib) where
    in_order-SameItems :
        (names : DeckNames) (dids : List ℤ)
        → SameItems (in_order names dids) (map (deck_stat names) (group_by_did dids))
    in_order-SameItems names dids p =
        sort_by-SameItems by_name (map (deck_stat names) (P.group_order (group_by_did dids))) p
        ∙ SameItems-map (deck_stat names) (P.group_order (group_by_did dids)) (group_by_did dids)
            (lawful.group_order-SameItems (group_by_did dids)) p

    in_order-IsSorted : (names : DeckNames) (dids : List ℤ) → IsSorted by_name (in_order names dids)
    in_order-IsSorted names dids =
        sort_by-IsSorted by_name (λ a b h. text_le_total a.deck_name b.deck_name h)
          (λ a b c h k. text_le_trans a.deck_name b.deck_name c.deck_name h k)
          (map (deck_stat names) (P.group_order (group_by_did dids)))

    extracted :
        (cards dids : List ℤ) (notes revlog : ℕ) (names : DeckNames)
        → Asked content (λ c. c.cards) cards
        → Asked content (λ c. c.notes) notes
        → Asked content (λ c. c.revlog) revlog
        → Named content names
        → Asked content (λ c. c.cards) dids
        → Extracted content (record {
          total_cards = as_i64 (length cards);
          total_decks = as_i64 (length names);
          total_notes = as_i64 notes;
          total_revlog = as_i64 revlog;
          deck_stats = in_order names dids;
        })
    extracted cards dids notes revlog names cards_asked notes_asked revlog_asked named dids_asked =
        let (ids, each_once, same) = deck_stat-group_by_did names cards in
        record {
          cards = cards;
          notes = notes;
          revlog = revlog;
          names = names;
          cards_asked = cards_asked;
          notes_asked = notes_asked;
          revlog_asked = revlog_asked;
          named = named;
          total_cards = refl;
          total_notes = refl;
          total_revlog = refl;
          total_decks = refl;
          ids = ids;
          each_once = each_once;
          decks = subst (SameItems (in_order names dids)) same (
              subst
                (λ xs. SameItems (in_order names dids) (map (deck_stat names) (group_by_did xs)))
                (same_cards dids cards dids_asked cards_asked) (in_order-SameItems names dids));
          sorted = in_order-IsSorted names dids;
        }

  -- Where the libraries behave as documented: statistics that are read are those of the tables in the
  -- file, each count as a 64-bit number, with each deck that has a card once, under its name, or its
  -- number where it has none, and with the number of its cards, in the order of the names; the names
  -- come from the table of decks, or from the text in col where that table cannot be read. None are
  -- read only where a call fails, or a table or both sources of names cannot be read. Nothing changes.
  pub extract_stats_lem :
      IsLawful P.lib
      → Ends
          (extract_stats path w)
          (λ s u. Extracted content s × Untouched w u)
          (λ _ u. Unextracted content × Untouched w u)
  unfolding extract_stats
  extract_stats_lem L =
      Ends-bind (query_lem (λ c. c.cards) w (refl, refl))
        (λ cards u₁ (cards_asked, same₁).
          Ends-bind (query_lem (λ c. c.notes) u₁ same₁)
            (λ notes u₂ (notes_asked, same₂).
              Ends-bind (query_lem (λ c. c.revlog) u₂ same₂)
                (λ revlog u₃ (revlog_asked, same₃).
                  Ends-bind (deck_names_lem u₃ same₃)
                    (λ names u₄ (named, same₄).
                      Ends-bind (query_lem (λ c. c.cards) u₄ same₄)
                        (λ dids u₅ (dids_asked, same₅). record {
                          holds = (
                            extracted L cards dids notes revlog names cards_asked notes_asked
                                revlog_asked named dids_asked,
                            same₅,
                          );
                        })
                        (λ x u (bad, still). (no_cards bad, still)))
                    (λ x u ((bad, worse), still). (no_names bad worse, still)))
                (λ x u (bad, still). (no_revlog bad, still)))
            (λ x u (bad, still). (no_notes bad, still)))
        (λ x u (bad, still). (no_cards bad, still))
