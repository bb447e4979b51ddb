-- ===== src/Sync/Flow.antt =====
-- The login and the meta request, with which both flows of the client begin: the keys and the endpoint
-- that they are sent with.
use anki_backup_tool.Base.{
  ℕ, ◌+◌, ◌≤◌, String, some, List, [], ◌++◌, length, length-append, append_assoc, append-nil, ◌≡◌,
  refl, sym, ap, ◌∙◌, arith,
}
use anki_backup_tool.Backup.{Bytes}
use anki_backup_tool.World.{World, Io, Error, login_failed, Result, ok, err}
use anki_backup_tool.World.Laws.{Ends, Ends-bind, Ends-mono, Ends-ok_or, Ends-require}
use anki_backup_tool.Sync.Session.{simple_session_id}
use anki_backup_tool.Sync.{
  Network, Request, Sent, SyncConfig, SyncRequestResult, or_default, default_endpoint, sync_version,
  client_version_long, sync_request, map_err, login, meta,
}
use anki_backup_tool.Sync.Exchange.{Answered, direct, redirected, sync_request_lem}

-- At most `n` requests have been sent, and no file has changed.
abbrev pub AtMost : ℕ → World Sent → World Sent → Type 0
AtMost n w u =
    ((more : List Request) × (u.store ≡ w.store ++ more) × (length more ≤ n)) × (u.disk ≡ w.disk)

pub AtMost-none : (n : ℕ) (w : World Sent) → AtMost n w w
AtMost-none n w = (([], sym (append-nil w.store), omega arith), refl)

pub AtMost-trans :
    (m n k : ℕ) (w v u : World Sent) → m + n ≤ k → AtMost m w v → AtMost n v u → AtMost k w u
AtMost-trans m n k w v u bound ((a, e, h), d) ((b, e2, h2), d2) = (
  (
    a ++ b,
    e2 ∙ ap (λ l. l ++ b) e ∙ append_assoc w.store a b,
    rw (length-append a b) (omega arith),
  ),
  d2 ∙ d,
)

abbrev pub endpoint_of : SyncConfig → String
endpoint_of config = or_default default_endpoint config.endpoint

module _ ⦃N : Network⦄ where
  pub Answered-AtMost :
      {endpoint method hkey session_key : String} {body : Bytes} {w : World Sent}
      {res : SyncRequestResult} {u : World Sent}
      → Answered endpoint method hkey session_key body w res u
      → AtMost 2 w u
  Answered-AtMost (direct json z r a b c d e f store disk) = ((_, store, omega arith), disk)
  Answered-AtMost (redirected json z r r2 base a b c d e f g store disk) =
      ((_, store, omega arith), disk)

  -- A request of a method, however it ends.
  pub Ends-sync_request :
      (endpoint method hkey session_key : String) (body : Bytes) (w : World Sent)
      → Ends
          (sync_request endpoint method hkey session_key body w)
          (Answered endpoint method hkey session_key body w)
          (λ _ u. AtMost 2 w u)
  Ends-sync_request endpoint method hkey session_key body w =
      Ends-mono (sync_request_lem endpoint method hkey session_key body w) (λ r u h. h)
        (λ x u ((more, store, short, all), disk). ((more, store, short), disk))

  pub Ends-map_err :
      {A : Type 0} (f : Error → Error) (m : Io Sent A) (w : World Sent)
      {Q : A → World Sent → Type 0} {T : World Sent → Type 0}
      → Ends (m w) Q (λ _ u. T u)
      → Ends (map_err f m w) Q (λ _ u. T u)
  unfolding map_err
  Ends-map_err {A = A} f m w {Q = Q} {T = T} h = mapped (m w).0 (m w).1 h
    where
      mapped :
          (r : Result A) (u : World Sent)
          → Ends (r, u) Q (λ _ v. T v)
          → Ends (elim r [ ok a ↦ ok a | err e ↦ err (f e) ], u) Q (λ _ v. T v)
      mapped (ok a) u h = record { holds = h.holds }
      mapped (err e) u h = record { holds = h.holds }

  -- A login: the host key is the one that the endpoint answered to the credentials.
  abbrev pub LoggedIn : SyncConfig → String → World Sent → String × String → World Sent → Type 0
  LoggedIn config endpoint w keys u =
      (body : Bytes) × (result : SyncRequestResult) × (simple_session_id N.random ≡ some keys.1)
      × (N.host_key_request_to_json
            (record { username = config.username; password = config.password })
          ≡ some body)
      × Answered endpoint "hostKey" "" keys.1 body w result u
      × (N.host_key_response_from_json result.payload ≡ some (record { key = keys.0 }))

  login_lem :
      (config : SyncConfig) (endpoint : String) (w : World Sent)
      → Ends
          (login endpoint config.username config.password w)
          (LoggedIn config endpoint w)
          (λ _ u. AtMost 2 w u)
  unfolding login
  login_lem config endpoint w =
      Ends-ok_or (simple_session_id N.random) _ _ w
        (λ session_key drawn.
          Ends-ok_or
            (N.host_key_request_to_json
              (record { username = config.username; password = config.password }))
            _ _ w
            (λ body shown.
              Ends-bind
                (Ends-map_err login_failed (sync_request endpoint "hostKey" "" session_key body) w
                  (Ends-sync_request endpoint "hostKey" "" session_key body w))
                (λ result u answered.
                  Ends-ok_or (N.host_key_response_from_json result.payload) _ _ u
                    (λ resp parsed. record {
                      holds = (body, result, drawn, shown, answered, parsed);
                    })
                    (λ bad. Answered-AtMost answered))
                (λ x u few. few))
            (λ bad. AtMost-none 2 w))
        (λ bad. AtMost-none 2 w)

  -- A login at the endpoint of the configuration, then `meta` there with the keys of the login.
  pub record Greeted (config : SyncConfig) (w : World Sent) (r : SyncRequestResult)
      (keys : String × String) (u : World Sent) : Type 0 where
    pub middle : World Sent
    pub logged_in : LoggedIn config (endpoint_of config) w keys middle
    pub body : Bytes
    pub shown :
        N.meta_request_to_json
          (record { sync_version = sync_version; client_version = client_version_long })
        ≡ some body
    pub answered : Answered (endpoint_of config) "meta" keys.0 keys.1 body middle r u

  pub Greeted-AtMost :
      (config : SyncConfig) (w : World Sent) (r : SyncRequestResult) (keys : String × String)
      (u : World Sent)
      → Greeted config w r keys u
      → AtMost 4 w u
  Greeted-AtMost config w r keys u g =
      let (body, result, drawn, shown, answered, parsed) = g.logged_in in
      AtMost-trans 2 2 4 w g.middle u (omega arith) (Answered-AtMost answered)
        (Answered-AtMost g.answered)

  pub meta_lem :
      (config : SyncConfig) (w : World Sent)
      → Ends
          (meta config w)
          (λ (x : SyncRequestResult × (String × String)) u. Greeted config w x.0 x.1 u)
          (λ _ u. AtMost 4 w u)
  unfolding meta
  meta_lem config w =
      Ends-require N.builds_client _ _ w
        (λ built.
          Ends-bind (login_lem config (endpoint_of config) w)
            (λ keys v logged.
              Ends-ok_or
                (N.meta_request_to_json
                  (record { sync_version = sync_version; client_version = client_version_long }))
                _ _ v
                (λ body shown.
                  Ends-bind (Ends-sync_request (endpoint_of config) "meta" keys.0 keys.1 body v)
                    (λ r u answered. record {
                      holds = record {
                        middle = v;
                        logged_in = logged;
                        body = body;
                        shown = shown;
                        answered = answered;
                      };
                    })
                    (λ x u few. few_more u logged few))
                (λ bad. few_more v logged (AtMost-none 2 v)))
            (λ x u few. AtMost-trans 2 2 4 w u u (omega arith) few (AtMost-none 2 u)))
        (λ bad. AtMost-none 4 w)
    where
      few_more :
          {keys : String × String} {v : World Sent} (u : World Sent)
          → LoggedIn config (endpoint_of config) w keys v
          → AtMost 2 v u
          → AtMost 4 w u
      few_more {keys} {v} u (body, result, drawn, shown, answered, parsed) few =
          AtMost-trans 2 2 4 w v u (omega arith) (Answered-AtMost answered) few
