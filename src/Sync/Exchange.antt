-- ===== src/Sync/Exchange.antt =====
-- `sync_request`: which requests it sends, and which response its answer comes from.
use anki_backup_tool.Base.{
  ◌+◌, ◌≤◌, String, true, Option, none, some, List, [], ◌∷◌, ◌++◌, length, length-append,
  append_assoc, append-nil, All, ◌≡◌, refl, sym, ap, ◌∙◌, arith, Option-cases, inl, inr, subst,
}
use anki_backup_tool.Backup.{Bytes}
use anki_backup_tool.World.{World, pure, failed, ok_or, ◌>>=◌}
use anki_backup_tool.World.Laws.{Ends, Ends-bind, Ends-ok_or, Ends-if}
use anki_backup_tool.Sync.{
  Network, Request, Response, Sent, SyncRequestResult, is_success, redirect_of, header_of,
  request_of, url_of, send, follow, unpacked, checked, sync_request,
}

module _ ⦃N : Network⦄ where
  -- What a response of the method gives: the body of a success, decompressed where it is zstd.
  abbrev pub Received : Response → Bytes → Type 0
  Received r payload =
      (is_success r.status ≡ true)
      × ((bytes : Bytes) × (r.bytes ≡ some bytes) × (unpacked bytes ≡ some payload))

  -- The requests sent between two points: `more`, at most two, all with the header for these keys and
  -- with this body.
  abbrev pub Sends : String → String → Bytes → World Sent → World Sent → Type 0
  Sends hkey session_key body w u =
      ((more : List Request) × (u.store ≡ w.store ++ more)
        × (length more ≤ 2)
        × All
            (λ (q : Request).
              (N.header_to_json (header_of hkey session_key) ≡ some q.anki_sync)
              × (N.zstd_compress body ≡ some q.body))
            more)
      × (u.disk ≡ w.disk)

  -- How a request of a method was answered: by the endpoint, or by the base that it redirects to, which
  -- gets the same request once.
  pub data Answered (endpoint method hkey session_key : String) (body : Bytes) (w : World Sent)
      (res : SyncRequestResult) (u : World Sent) : Type 0 where
    direct :
        (json : String) (z : Bytes) (r : Response)
        → N.header_to_json (header_of hkey session_key) ≡ some json
        → N.zstd_compress body ≡ some z
        → N.post (length w.store) (request_of endpoint method json z) ≡ some r
        → redirect_of r ≡ none
        → Received r res.payload
        → res.new_endpoint ≡ none
        → u.store ≡ w.store ++ request_of endpoint method json z ∷ []
        → u.disk ≡ w.disk
        → Answered endpoint method hkey session_key body w res u
    redirected :
        (json : String) (z : Bytes) (r r2 : Response) (base : String)
        → N.header_to_json (header_of hkey session_key) ≡ some json
        → N.zstd_compress body ≡ some z
        → N.post (length w.store) (request_of endpoint method json z) ≡ some r
        → redirect_of r ≡ some base
        → N.post
            (length w.store + 1)
            (record (request_of endpoint method json z) { url = url_of base method })
          ≡ some r2
        → Received r2 res.payload
        → res.new_endpoint ≡ some base
        → u.store
          ≡ w.store
            ++ request_of endpoint method json z
              ∷ record (request_of endpoint method json z) { url = url_of base method }
              ∷ []
        → u.disk ≡ w.disk
        → Answered endpoint method hkey session_key body w res u

  Ends-send :
      (req : Request) (w : World Sent)
      → Ends
          (send req w)
          (λ r u.
            (N.post (length w.store) req ≡ some r)
            × (u.store ≡ w.store ++ req ∷ [])
            × (u.disk ≡ w.disk))
          (λ _ u. (u.store ≡ w.store ++ req ∷ []) × (u.disk ≡ w.disk))
  unfolding send
  Ends-send req w = elim (Option-cases (N.post (length w.store) req)) [
    | inl e ↦ rw e (record { holds = (refl, refl) })
    | inr (r, e) ↦ rw e (record { holds = (refl, refl, refl) })
  ]

  Ends-checked :
      (method : String) (r : Response) (w : World Sent)
      → Ends (checked method r w) (λ p u. Received r p × (u ≡ w)) (λ _ u. u ≡ w)
  unfolding checked
  Ends-checked method r w =
      Ends-if (is_success r.status) _ _ _ _ w
        (λ good.
          Ends-ok_or r.bytes _ _ w (λ bytes there. unpack bytes (good, there) (unpacked bytes) refl)
            (λ gone. refl))
        (λ bad. record { holds = refl })
    where
      unpack :
          (bytes : Bytes)
          → (is_success r.status ≡ true) × (r.bytes ≡ some bytes)
          → (o : Option Bytes) → unpacked bytes ≡ o
          → Ends
              (ok_or o (failed "decompressing response") w)
              (λ p u. Received r p × (u ≡ w))
              (λ _ u. u ≡ w)
      unpack bytes (good, there) none e = record { holds = refl }
      unpack bytes (good, there) (some p) e = record { holds = ((good, (bytes, there, e)), refl) }

  module _ (endpoint method hkey session_key : String) (body : Bytes) (w : World Sent) where
    abbrev Done : SyncRequestResult → World Sent → Type 0
    Done = Answered endpoint method hkey session_key body w

    abbrev Lost : World Sent → Type 0
    Lost = Sends hkey session_key body w

    concluded :
        (r : Response) (o : Option String) (v : World Sent)
        → ((p : Bytes) → Received r p → Done (record { payload = p; new_endpoint = o }) v)
        → Lost v
        → Ends
            ((checked method r >>= λ p. pure (record { payload = p; new_endpoint = o })) v)
            Done
            (λ _ u. Lost u)
    concluded r o v f l =
        Ends-bind (Ends-checked method r v)
          (λ p u (got, same). record { holds = subst (Done _) (sym same) (f p got) })
          (λ x u same. subst Lost (sym same) l)

    module _ (json : String) (z : Bytes)
        (header : N.header_to_json (header_of hkey session_key) ≡ some json)
        (compressed : N.zstd_compress body ≡ some z) where
      abbrev first : Request
      first = request_of endpoint method json z

      sent_one : (u : World Sent) → u.store ≡ w.store ++ first ∷ [] → u.disk ≡ w.disk → Lost u
      sent_one u store disk = ((first ∷ [], store, omega arith, ((header, compressed), tt)), disk)

      abbrev second : String → Request
      second base = record first { url = url_of base method }

      sent_two :
          (base : String) (u : World Sent)
          → u.store ≡ w.store ++ first ∷ second base ∷ []
          → u.disk ≡ w.disk
          → Lost u
      sent_two base u store disk = (
        (
          first ∷ second base ∷ [],
          store,
          omega arith,
          ((header, compressed), ((header, compressed), tt)),
        ),
        disk,
      )

      -- The request to the base of a redirect.
      moved :
          (base : String) (v : World Sent)
          → v.store ≡ w.store ++ first ∷ []
          → v.disk ≡ w.disk
          → Ends
              ((send (second base) >>= λ (r2 : Response). pure (r2, some base)) v)
              (λ (x : Response × Option String) u.
                (x.1 ≡ some base)
                × (N.post (length w.store + 1) (second base) ≡ some x.0)
                × (u.store ≡ w.store ++ first ∷ second base ∷ [])
                × (u.disk ≡ w.disk))
              (λ _ u. (u.store ≡ w.store ++ first ∷ second base ∷ []) × (u.disk ≡ w.disk))
      moved base v store disk =
          Ends-bind (Ends-send (second base) v)
            (λ r2 u (posted2, store2, disk2). record {
              holds = (
                refl,
                subst (λ n. N.post n (second base) ≡ some r2)
                    (ap length store ∙ length-append w.store (first ∷ [])) posted2,
                two u store2,
                disk2 ∙ disk,
              );
            })
            (λ x u (store2, disk2). (two u store2, disk2 ∙ disk))
        where
          two :
              (u : World Sent)
              → u.store ≡ v.store ++ second base ∷ []
              → u.store ≡ w.store ++ first ∷ second base ∷ []
          two u e2 =
              e2
              ∙ ap (λ l. l ++ second base ∷ []) store
              ∙ append_assoc w.store (first ∷ []) (second base ∷ [])

      followed :
          (r : Response) (v : World Sent)
          → N.post (length w.store) first ≡ some r
          → v.store ≡ w.store ++ first ∷ []
          → v.disk ≡ w.disk
          → Ends
              ((follow (redirect_of r) method first r >>= λ (x : Response × Option String).
                  checked method x.0 >>= λ p. pure (record { payload = p; new_endpoint = x.1 }))
                v)
              Done
              (λ _ u. Lost u)
      unfolding follow
      followed r v posted store disk = elim (Option-cases (redirect_of r)) [
        | inl stays ↦
            rw (stays, follow)
              (concluded r none v
                (λ p got. direct json z r header compressed posted stays got refl store disk)
                (sent_one v store disk))
        | inr (base, moves) ↦
            rw (moves, follow)
              (Ends-bind (moved base v store disk)
                (λ x u (at, posted2, store2, disk2).
                  concluded x.0 x.1 u
                    (λ p got.
                      redirected json z r x.0 base header compressed posted moves posted2 got at
                        store2 disk2)
                    (sent_two base u store2 disk2))
                (λ x u (store2, disk2). sent_two base u store2 disk2))
      ]

    pub sync_request_lem :
        Ends (sync_request endpoint method hkey session_key body w) Done (λ _ u. Lost u)
    unfolding sync_request
    sync_request_lem =
        Ends-ok_or (N.zstd_compress body) _ _ w
          (λ z compressed.
            Ends-ok_or (N.header_to_json (header_of hkey session_key)) _ _ w
              (λ json header.
                Ends-bind (Ends-send (request_of endpoint method json z) w)
                  (λ r v (posted, store, disk).
                    followed json z header compressed r v posted store disk)
                  (λ x v (store, disk). sent_one json z header compressed v store disk))
              (λ bad. (([], sym (append-nil w.store), omega arith, tt), refl)))
          (λ bad. (([], sym (append-nil w.store), omega arith, tt), refl))
