-- ===== src/Sync/Collection.antt =====
-- `sync_collection` and `upload_collection`: the order of the requests, the keys and the endpoint that
-- the last one is sent with, and where the bytes come from.
use anki_backup_tool.Base.{
  ℕ, ◌≤◌, String, true, false, none, some, ◌≡◌, refl, sym, arith, inl, inr, subst, ◌⊎◌,
}
use anki_backup_tool.Base.Int.{as_i64}
use anki_backup_tool.Backup.{Bytes}
use anki_backup_tool.World.{World, Error, missing_credentials, download_failed}
use anki_backup_tool.World.Laws.{Ends, Ends-bind, Ends-ok_or, Ends-refuse, Ends-if}
use anki_backup_tool.Sync.{
  Network, Sent, SyncConfig, SyncResult, SyncRequestResult, MetaFields, meta_response, or_default,
  no_credentials, empty_body, require_collection, sync_collection, upload_collection,
}
use anki_backup_tool.Sync.Exchange.{Answered}
use anki_backup_tool.Sync.Flow.{
  AtMost, AtMost-none, AtMost-trans, Answered-AtMost, Ends-sync_request, Ends-map_err, Greeted,
  Greeted-AtMost, meta_lem, endpoint_of,
}

-- What a flow that fails leaves: nothing was sent without credentials, and at most six requests with
-- them.
abbrev pub Broken : SyncConfig → World Sent → Error → World Sent → Type 0
Broken config w x u =
    ((no_credentials config ≡ true) × (x ≡ missing_credentials) × (u ≡ w))
    ⊎ ((no_credentials config ≡ false) × AtMost 6 w u)

module _ ⦃N : Network⦄ where
  -- The last request of a flow: `method` with `body`, sent with the keys of the login to the base that
  -- the meta request ended at.
  pub record Concluded (config : SyncConfig) (method : String) (body : Bytes) (w : World Sent)
      (last : SyncRequestResult) (u : World Sent) : Type 0 where
    pub credentials : no_credentials config ≡ false
    pub greeting : SyncRequestResult
    pub keys : String × String
    pub middle : World Sent
    pub greeted : Greeted config w greeting keys middle
    pub answered :
        Answered
          (or_default (endpoint_of config) greeting.new_endpoint)
          method
          keys.0
          keys.1
          body
          middle
          last
          u
    pub few : AtMost 6 w u

  -- A download: the answer to meta says that the collection is not empty, and the bytes are the answer
  -- to `download`.
  abbrev pub Downloaded : SyncConfig → World Sent → SyncResult → World Sent → Type 0
  Downloaded config w res u =
      (last : SyncRequestResult) × (done : Concluded config "download" empty_body w last u)
      × ((fields : MetaFields) × (N.meta_fields_from_json done.greeting.payload ≡ some fields)
          × ((meta_response fields).empty ≡ false))
      × (res.collection_bytes ≡ last.payload)
      × (res.source_revision ≡ none)
      × (res.sync_duration_ms ≡ as_i64 N.elapsed_ms)

  -- An upload of the bytes.
  abbrev pub Uploaded : SyncConfig → Bytes → World Sent → World Sent → Type 0
  Uploaded config bytes w u = (last : SyncRequestResult) × Concluded config "upload" bytes w last u

  require_collection_lem :
      (answer : Bytes) (w : World Sent)
      → Ends
          (require_collection answer w)
          (λ _ u.
            ((fields : MetaFields) × (N.meta_fields_from_json answer ≡ some fields)
              × ((meta_response fields).empty ≡ false))
            × (u ≡ w))
          (λ _ u. u ≡ w)
  unfolding require_collection
  require_collection_lem answer w =
      Ends-ok_or (N.meta_fields_from_json answer) _ _ w
        (λ fields parsed.
          Ends-if (meta_response fields).empty _ _ _ _ w (λ e. record { holds = refl })
            (λ e. record { holds = ((fields, parsed, e), refl) }))
        (λ bad. refl)

  module _ (config : SyncConfig) (w : World Sent) where
    after_meta :
        (n : ℕ) (r : SyncRequestResult) (keys : String × String) (v u : World Sent)
        → n ≤ 2
        → Greeted config w r keys v
        → AtMost n v u
        → AtMost 6 w u
    after_meta n r keys v u h g few =
        AtMost-trans 4 n 6 w v u (omega arith) (Greeted-AtMost config w r keys v g) few

    abbrev conclude :
        (method : String) (body : Bytes) (r : SyncRequestResult) (keys : String × String)
        (v : World Sent) (last : SyncRequestResult) (u : World Sent)
        → no_credentials config ≡ false
        → Greeted config w r keys v
        → Answered
            (or_default (endpoint_of config) r.new_endpoint)
            method
            keys.0
            keys.1
            body
            v
            last
            u
        → Concluded config method body w last u
    conclude method body r keys v last u given greeted answered = record {
      credentials = given;
      greeting = r;
      keys = keys;
      middle = v;
      greeted = greeted;
      answered = answered;
      few = after_meta 2 r keys v u (omega arith) greeted (Answered-AtMost answered);
    }

    downloaded :
        (r : SyncRequestResult) (keys : String × String) (v : World Sent) (last : SyncRequestResult)
        (u : World Sent)
        → no_credentials config ≡ false
        → Greeted config w r keys v
        → (fields : MetaFields) × (N.meta_fields_from_json r.payload ≡ some fields)
          × ((meta_response fields).empty ≡ false)
        → Answered
            (or_default (endpoint_of config) r.new_endpoint)
            "download"
            keys.0
            keys.1
            empty_body
            v
            last
            u
        → Downloaded config w
            (record {
              collection_bytes = last.payload;
              source_revision = none;
              sync_duration_ms = as_i64 N.elapsed_ms;
            })
            u
    downloaded r keys v last u given greeted filled answered = (
      last,
      conclude "download" empty_body r keys v last u given greeted answered,
      filled,
      refl,
      refl,
      refl,
    )

    -- A download that ends well has logged in and asked for meta at the configured endpoint, got an
    -- answer that the collection is not empty, and then asked for the download with the keys of the
    -- login at the base that meta was answered from; the bytes are the answer to that, and at most six
    -- requests were sent. Without credentials nothing is sent, and any other failure has sent at most
    -- six requests; no file has changed.
    pub sync_collection_lem :
        Ends (sync_collection config w) (Downloaded config w) (Broken config w)
    unfolding sync_collection
    sync_collection_lem =
        Ends-refuse (no_credentials config) _ _ w
          (λ given.
            Ends-bind (meta_lem config w)
              (λ x v greeted.
                Ends-bind (require_collection_lem x.0.payload v)
                  (λ _ v' (filled, same).
                    Ends-bind
                      (Ends-map_err download_failed _ v'
                        (Ends-sync_request _ "download" x.1.0 x.1.1 empty_body v'))
                      (λ last u answered. record {
                        holds = downloaded x.0 x.1 v last u given greeted filled (
                            subst
                              (λ z.
                                Answered (or_default (endpoint_of config) x.0.new_endpoint)
                                  "download" x.1.0 x.1.1 empty_body z last u)
                              same answered);
                      })
                      (λ e u few. inr (
                        given,
                        after_meta 2 x.0 x.1 v u (omega arith) greeted
                            (subst (λ z. AtMost 2 z u) same few),
                      )))
                  (λ e v' same. inr (
                    given,
                    after_meta 0 x.0 x.1 v v' (omega arith) greeted
                        (subst (λ z. AtMost 0 v z) (sym same) (AtMost-none 0 v)),
                  )))
              (λ e u few.
                inr (given, AtMost-trans 4 2 6 w u u (omega arith) few (AtMost-none 2 u))))
          (λ missing. inl (missing, refl, refl))

    -- An upload that ends well has logged in and asked for meta at the configured endpoint, and sent
    -- the bytes with the keys of the login to the base that meta was answered from. Without
    -- credentials nothing is sent, and any other failure has sent at most six requests; no file has
    -- changed.
    pub upload_collection_lem :
        (bytes : Bytes)
        → Ends
            (upload_collection config bytes w)
            (λ _ u. Uploaded config bytes w u)
            (Broken config w)
    unfolding upload_collection
    upload_collection_lem bytes =
        Ends-refuse (no_credentials config) _ _ w
          (λ given.
            Ends-bind (meta_lem config w)
              (λ x v greeted.
                Ends-bind (Ends-sync_request _ "upload" x.1.0 x.1.1 bytes v)
                  (λ last u answered. record {
                    holds = (last, conclude "upload" bytes x.0 x.1 v last u given greeted answered);
                  })
                  (λ e u few. inr (given, after_meta 2 x.0 x.1 v u (omega arith) greeted few)))
              (λ e u few.
                inr (given, AtMost-trans 4 2 6 w u u (omega arith) few (AtMost-none 2 u))))
          (λ missing. inl (missing, refl, refl))
