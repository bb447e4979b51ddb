-- ===== src/Server/Guards.antt =====
-- Who may roll back, and when.
use mathlib.Core.Option.{none-ne-some}
use anki_backup_tool.Base.{
  String, ◌<>◌, Bool, true, false, Option, none, some, ◌≡◌, ◌⊎◌, ◌↔◌, inl, inr, refl, sym, ap, ◌∙◌,
  arith, if◌then◌else◌, string_eq, Bool-cases, ==-true, Option-cases,
}
use anki_backup_tool.Base.Prefix.{strip_prefix, strip_prefix-append, strip_prefix_sound}
use anki_backup_tool.Backup.{DateTime}
use anki_backup_tool.World.{Platform, now}
use anki_backup_tool.Sync.{Network}
use anki_backup_tool.Server.{
  StatusCode, unauthorized, HeaderMap, AppState, Service, Reply, status, require_api_auth,
  require_csrf, rollback_backup, gate_guard, with_id, within_ten_seconds, is_token, bearer, Handler,
  too_many_requests,
}

unmatched : (expected : String) {o : Option String} → o ≡ none → is_token expected o ≡ true → ⊥
unfolding is_token
unmatched expected e h = ground arith

matched :
    {t expected : String} {o : Option String}
    → o ≡ some t
    → is_token expected o ≡ true
    → t ≡ expected
unfolding is_token
matched e h = ground arith

some_inj : {s t : String} → some s ≡ some t → s ≡ t
some_inj h = cc

bearer_sound :
    (expected : String) (value : Option String)
    → is_token expected (bearer value) ≡ true
    → value ≡ some ("Bearer " <> expected)
unfolding is_token bearer
bearer_sound expected none h = absurd cc
bearer_sound expected (some value) h = elim (Option-cases (strip_prefix "Bearer " value)) [
  | inl e ↦ absurd (unmatched expected e h)
  | inr (t, e) ↦
      ap some (strip_prefix_sound "Bearer " value t e ∙ ap (λ x. "Bearer " <> x) (matched e h))
]

bearer_append : (t : String) → is_token t (bearer (some ("Bearer " <> t))) ≡ true
unfolding is_token bearer
bearer_append t = rw (strip_prefix-append "Bearer " t) (==-true t t refl)

-- The only refusal of the check is 401.
pub refused_with :
    (token : Option String) (headers : HeaderMap)
    → (require_api_auth token headers ≡ none) ⊎ (require_api_auth token headers ≡ some unauthorized)
unfolding require_api_auth
refused_with none headers = inl refl
refused_with (some expected) headers =
    elim (Bool-cases (is_token expected (bearer headers.authorization))) [
      | inl is ↦ rw is (inl refl)
      | inr is ↦ rw is (inr refl)
    ]

accepted : (b : Bool) → (if b then none else some unauthorized) ≡ none → b ≡ true
accepted true h = refl
accepted false h = absurd cc

-- With no token configured everyone is let in. With a token, exactly a request whose authorization is
-- that token as a bearer is.
pub require_api_auth_lem :
    (token : Option String) (headers : HeaderMap)
    → (require_api_auth token headers ≡ none) ↔ (
        (token ≡ none)
        ⊎ ((t : String) × (token ≡ some t) × (headers.authorization ≡ some ("Bearer " <> t))))
unfolding require_api_auth
require_api_auth_lem none headers = ((λ h. inl refl), λ h. refl)
require_api_auth_lem (some expected) headers = (
  λ h. inr (expected, refl, bearer_sound expected headers.authorization (accepted _ h)),
  λ h. elim h [
    | inl e ↦ absurd (none-ne-some expected (sym e))
    | inr (t, e, h) ↦ rw (some_inj e, h, bearer_append t) refl
  ],
)

module _ ⦃P : Platform⦄ {S : Type 0} (state : AppState S) (headers : HeaderMap)
    (s : Service S) where
  -- The gate lets a rollback through.
  abbrev pub GateOpen : Option DateTime → Type 0
  GateOpen none = Unit
  GateOpen (some last) = within_ten_seconds (P.times s.world.step) last ≡ false

  -- The request is authorised, has the CSRF token, and comes ten seconds after the last rollback.
  abbrev pub IsAdmitted : Type 0
  IsAdmitted =
      (require_api_auth state.api_token headers ≡ none)
      × (require_csrf state.csrf_token headers ≡ none)
      × GateOpen s.rollback_gate

  -- The answer is an error, and neither the files nor the database nor the gate have changed.
  abbrev pub Rejected : Reply × Service S → Type 0
  Rejected (r, s') =
      ((code : StatusCode) × (r ≡ status code))
      × (s'.rollback_gate ≡ s.rollback_gate)
      × (s'.world.disk ≡ s.world.disk)
      × (s'.world.store ≡ s.world.store)

  gate_guard-rejects :
      (gate : Option DateTime) (k : Handler S) → GateOpen gate ⊎ Rejected (gate_guard gate k s)
  unfolding gate_guard now
  gate_guard-rejects none k = inl tt
  gate_guard-rejects (some last) k =
      elim (Bool-cases (within_ten_seconds (P.times s.world.step) last)) [
        | inl soon ↦ inr (rw soon ((too_many_requests, refl), refl, refl, refl))
        | inr late ↦ inl late
      ]

  -- A rollback request that is not admitted, by its token, its CSRF token or the gate, is answered by
  -- an error and changes nothing.
  pub rollback_backup-guards :
      ⦃N : Network⦄ (id : String) → IsAdmitted ⊎ Rejected (rollback_backup state id headers s)
  unfolding rollback_backup
  rollback_backup-guards id = elim (Option-cases (require_api_auth state.api_token headers)) [
    | inr (code, why) ↦ inr (rw why ((code, refl), refl, refl, refl))
    | inl auth ↦ elim (Option-cases (require_csrf state.csrf_token headers)) [
      | inr (code, why) ↦ inr (rw (auth, why) ((code, refl), refl, refl, refl))
      | inl csrf ↦ elim (gate_guard-rejects s.rollback_gate (with_id state (P.uuid_parse_str id))) [
        | inl open_gate ↦ inl (auth, csrf, open_gate)
        | inr closed ↦ inr (rw (auth, csrf) closed)
      ]
    ]
  ]
