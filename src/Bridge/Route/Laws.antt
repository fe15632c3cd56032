-- ===== src/Bridge/Route/Laws.antt =====
-- handlers.go and the stages behind it: which requests reach the dispatch function, and which
-- answers say that a write was committed.
use fabric_hris.Prelude.{
  sym, ◌∙◌, Bool-cases, Text, Bytes, eq_iff, ◌≡◌, ◌≢◌, ◌↔◌, ◌⊎◌, inl, inr, refl, ap, Bool, some,
  Option-cases, arith,
}
use fabric_hris.Errors.{
  GoError, sentinel, auth_error, missing_or_incorrect_credentials, Result, ok, err, Result-cases,
}
use fabric_hris.Exec.{Exec}
use fabric_hris.Bridge.Http.{
  AuthConfig, Request, authenticate, committed, partial_failed, rejected, errored, classify,
  classify_error, http_status_for, has_auth_error,
}
use fabric_hris.Bridge.Route.{
  Library, Validated, RouteConfig, validate_request, usable_record_id, respond, dispatch, answer,
  profile_section_route,
}

pub authenticate-cases :
    (r : Request) (auth : AuthConfig)
    → (authenticate r auth ≡ ok tt)
      ⊎ (authenticate r auth ≡ err (auth_error (sentinel missing_or_incorrect_credentials)))
unfolding authenticate
authenticate-cases r auth = ground arith

pub authenticate-ok :
    (r : Request) (auth : AuthConfig)
    → authenticate r auth ≡ ok tt
    → (r.x_api_key ≡ auth.api_key) × (r.x_company_id ≡ auth.company_id)
unfolding authenticate
authenticate-ok r auth e =
    ground (arith, eq_iff r.x_api_key auth.api_key, eq_iff r.x_company_id auth.company_id)

ok-injective : (a b : Bytes) → Result.ok a ≡ ok b → a ≡ b
ok-injective a b e = ground arith

pub classify_error-cases :
    (e : GoError)
    → (classify_error e ≡ errored)
      ⊎ (classify_error e ≡ rejected)
      ⊎ (classify_error e ≡ partial_failed)
unfolding classify_error
classify_error-cases e = ground arith

module _ {W : Type 0} (lib : Library) (expired : W → Bool) where
  -- An error's answer has the status of the error, with its code.
  pub answer-error :
      (e : GoError)
      → ((answer lib expired (err e)).status ≡ classify_error e)
        × ((answer lib expired (err e)).code ≡ http_status_for (classify_error e))
  unfolding answer respond classify
  answer-error e = elim (classify_error-cases e) [
    | inl f ↦ (rw f, rw f)
    | inr (inl f) ↦ (rw f, rw f)
    | inr (inr f) ↦ (rw f, rw f)
  ]

  answer-ok :
      (result : Bytes)
      → ((answer lib expired (ok result)).status ≡ committed)
        ↔ ((id : Text) × (usable_record_id lib result ≡ some id))
  unfolding answer respond classify
  answer-ok result = elim (Option-cases (usable_record_id lib result)) [
    | inl f ↦ (λ e. absurd (ground arith), λ (id, g). absurd (ground arith))
    | inr (id, f) ↦ (λ e. (id, f), λ x. ground arith)
  ]

  pub answer-committed_iff :
      (outcome : Result Bytes)
      → ((answer lib expired outcome).status ≡ committed) ↔ (
          (result : Bytes) × (outcome ≡ ok result)
          × (id : Text) × (usable_record_id lib result ≡ some id))
  answer-committed_iff (ok result) = (
    λ e. let (id, u) = (answer-ok result).0 e in (result, refl, id, u),
    λ (other, same, id, f). (answer-ok result).1 (id, rw (ok-injective _ _ same) f),
  )
  answer-committed_iff (err e) = (
    λ f. absurd (ground (arith, (answer-error e).0, classify_error-cases e)),
    λ (other, same, id, g). absurd (ground arith),
  )

dispatch-ok :
    {W : Type 0} (expired : W → Bool) (call : Exec W Bytes) (w : W) (result : Bytes)
    → ((dispatch expired call w).0 ≡ ok result) ↔ ((call w).0 ≡ ok result)
unfolding dispatch
dispatch-ok expired call w result = elim (Result-cases (call w).0) [
  | inl (a, f) ↦ (λ e. ground arith, λ e. ground arith)
  | inr (x, f) ↦ (
    λ e. elim (Bool-cases (expired (call w).1)) [
      | inl late ↦ absurd (ground arith)
      | inr early ↦ absurd (ground arith)
    ],
    λ e. absurd (ground arith),
  )
]

module _ {W : Type 0} (lib : Library) (expired : W → Bool) (route : RouteConfig W)
    (auth : AuthConfig) (r : Request) (w : W) where
  route-refused :
      (e : GoError)
      → authenticate r auth ≡ err e
      → profile_section_route lib expired route auth r w ≡ (answer lib expired (err e), w)
  unfolding profile_section_route
  route-refused e f = ground arith

  pub route-invalid :
      (e : GoError)
      → authenticate r auth ≡ ok tt
      → validate_request lib r ≡ err e
      → profile_section_route lib expired route auth r w ≡ (answer lib expired (err e), w)
  unfolding profile_section_route
  route-invalid e f g = ground arith

  pub route-dispatched :
      (v : Validated)
      → authenticate r auth ≡ ok tt
      → validate_request lib r ≡ ok v
      → profile_section_route lib expired route auth r w ≡ (
        answer lib expired
            (dispatch expired
              (route.dispatch_func v.employee v.user v.identity v.value v.document)
              w).0,
        (dispatch expired
            (route.dispatch_func v.employee v.user v.identity v.value v.document)
            w).1,
      )
  unfolding profile_section_route
  route-dispatched v f g = ground arith

  never :
      (e : GoError)
      → profile_section_route lib expired route auth r w ≡ (answer lib expired (err e), w)
      → (profile_section_route lib expired route auth r w).0.status ≡ committed
      → ⊥
  never e f h =
      ground (arith, ap (λ x. x.0.status) f, (answer-error lib expired e).0, classify_error-cases e)

  -- A request whose key or whose company is not the configured one gets one and the same answer, of
  -- status error and code 500, and changes nothing.
  pub profile_section_route-refused :
      (r.x_api_key ≢ auth.api_key) ⊎ (r.x_company_id ≢ auth.company_id)
      → (profile_section_route lib expired route auth r w
          ≡ (answer lib expired (err (auth_error (sentinel missing_or_incorrect_credentials))), w))
        × ((answer lib expired
              (err (auth_error (sentinel missing_or_incorrect_credentials)))).status
            ≡ errored)
        × ((answer lib expired (err (auth_error (sentinel missing_or_incorrect_credentials)))).code
            ≡ 500)
  unfolding answer respond classify classify_error has_auth_error
  profile_section_route-refused wrong = elim (authenticate-cases r auth) [
    | inl granted ↦ absurd (ground (arith, authenticate-ok r auth granted))
    | inr e ↦ (route-refused _ e, refl, refl)
  ]

  -- A write that the answer may call committed.
  Committed : Type 0
  Committed =
      (authenticate r auth ≡ ok tt)
      × (v : Validated) × (validate_request lib r ≡ ok v)
      × (result : Bytes) × ((route.dispatch_func v.employee v.user v.identity v.value v.document
            w).0
          ≡ ok result)
      × (id : Text) × (usable_record_id lib result ≡ some id)

  committed-forward :
      (profile_section_route lib expired route auth r w).0.status ≡ committed → Committed
  unfolding Committed
  committed-forward h = elim (authenticate-cases r auth) [
    | inr f ↦ absurd (never _ (route-refused _ f) h)
    | inl f ↦ elim (Result-cases (validate_request lib r)) [
      | inr (e, g) ↦ absurd (never e (route-invalid e f g) h)
      | inl (v, g) ↦
          let call = route.dispatch_func v.employee v.user v.identity v.value v.document in
          let (result, same, id, usable) =
            (answer-committed_iff lib expired (dispatch expired call w).0).0
              (sym (ap (λ x. x.0.status) (route-dispatched v f g)) ∙ h) in
          (f, v, g, result, (dispatch-ok expired call w result).0 same, id, usable)
    ]
  ]

  -- The answer is committed exactly where the request is authenticated and valid, the dispatch
  -- function succeeded, and its result has a usable recordID.
  pub profile_section_route-committed_iff :
      ((profile_section_route lib expired route auth r w).0.status ≡ committed) ↔ (
        (authenticate r auth ≡ ok tt)
        × (v : Validated) × (validate_request lib r ≡ ok v)
        × (result : Bytes) × ((route.dispatch_func v.employee v.user v.identity v.value v.document
              w).0
            ≡ ok result)
        × (id : Text) × (usable_record_id lib result ≡ some id))
  unfolding Committed
  profile_section_route-committed_iff = (
    committed-forward,
    λ (f, v, g, result, called, id, usable).
        let call = route.dispatch_func v.employee v.user v.identity v.value v.document in
        ap (λ x. x.0.status) (route-dispatched v f g)
        ∙ (answer-committed_iff lib expired (dispatch expired call w).0).1
            (result, (dispatch-ok expired call w result).1 called, id, usable),
  )
