-- ===== src/Bridge/Route/Hooked.antt =====
-- A route whose dispatch function is a write-path hook: what its partial failures say of the store.
use fabric_hris.Prelude.{
  [], ℕ, Text, Bytes, ◌≡◌, inl, inr, refl, ◌∙◌, ap, subst, Bool, false, arith,
}
use fabric_hris.Errors.{GoError, Result, ok, err, context, partial_failure}
use fabric_hris.Exec.{Exec}
use fabric_hris.Bridge.Http.{
  AuthConfig, Request, authenticate, Status, errored, partial_failed, classify_error,
  has_auth_error, http_status_for, has_validation_error, has_deadline_exceeded, has_partial_failure,
}
use fabric_hris.Bridge.Route.{
  Library, Validated, RouteConfig, validate_request, dispatch, answer, profile_section_route,
}
use fabric_hris.Bridge.Route.Laws.{route-dispatched, answer-error}
use fabric_hris.WritePaths.Hooks.{Hooks, World, Draws, do_anchor, anchor, save_and_anchor}
use fabric_hris.WritePaths.Hooks.Outcome.{save_and_anchor-outcome}

-- An error of none of the four kinds that classify tells apart.
unfoldable pub IsPlain : GoError → Type 0
IsPlain e =
    (has_auth_error e ≡ false)
    × (has_validation_error e ≡ false)
    × (has_deadline_exceeded e ≡ false)
    × (has_partial_failure e ≡ false)

dispatch-err :
    {W : Type 0} (expired : W → Bool) (call : Exec W Bytes) (w w' : W) (e : GoError)
    → call w ≡ (err e, w')
    → expired w' ≡ false
    → dispatch expired call w ≡ (err e, w')
unfolding dispatch
dispatch-err expired call w w' e run in_time = ground arith

err-injective : (r : Result ℕ) (e x : GoError) → r ≡ err e → r ≡ err x → e ≡ x
err-injective r e x f g = ground arith

classify-context : (f : Text) (e : GoError) → IsPlain e → classify_error (context f [] e) ≡ errored
unfolding classify_error IsPlain has_auth_error has_validation_error has_deadline_exceeded
    has_partial_failure
classify-context f e (a, v, d, p) = rw (a, v, d, p) refl

classify-partial :
    (employee section : Text) (version : ℕ) (e : GoError)
    → IsPlain e
    → classify_error (partial_failure employee section version e) ≡ partial_failed
unfolding classify_error IsPlain has_auth_error has_validation_error has_deadline_exceeded
    has_partial_failure
classify-partial employee section version e (a, v, d, p) = rw (a, v, d) refl

module _ {O K S D I N : Type 0} (h : Hooks O K S D I N) (section failure : Text) (draws : Draws)
    (lib : Library) (expired : World O K S D I N → Bool) (auth : AuthConfig) (r : Request)
    (w : World O K S D I N) (v : Validated) where
  abbrev pub hook_route : RouteConfig (World O K S D I N)
  hook_route = record {
    profile_section = section;
    dispatch_func = λ employee user identity value document.
        save_and_anchor h section failure draws employee user identity value document;
  }

  abbrev hook_run : Result Bytes × World O K S D I N
  hook_run =
      save_and_anchor h section failure draws v.employee v.user v.identity v.value v.document w

  hook_fails :
      (e : GoError) (status : Status)
      → authenticate r auth ≡ ok tt
      → validate_request lib r ≡ ok v
      → ((w' : World O K S D I N) → expired w' ≡ false)
      → hook_run.0 ≡ err e
      → classify_error e ≡ status
      → ((profile_section_route lib expired hook_route auth r w).0.status ≡ status)
        × ((profile_section_route lib expired hook_route auth r w).0.code ≡ http_status_for status)
        × ((profile_section_route lib expired hook_route auth r w).1 ≡ hook_run.1)
  hook_fails e status granted valid in_time run classified =
      let (as_status, as_code) = answer-error lib expired e in
      let d =
        route-dispatched lib expired hook_route auth r w v granted valid
        ∙ ap (λ x. (answer lib expired x.0, x.1))
            (dispatch-err expired
              (save_and_anchor h section failure draws v.employee v.user v.identity v.value
                v.document)
              w hook_run.1 e (ap (λ x. (x, hook_run.1)) run) (in_time hook_run.1)) in
      (
        ap (λ x. x.0.status) d ∙ as_status ∙ classified,
        ap (λ x. x.0.code) d ∙ as_code ∙ ap http_status_for classified,
        ap (λ x. x.1) d,
      )

  -- Where no deadline passes: an authenticated and valid request whose operational save fails with
  -- a plain error is answered with status error and code 500.
  pub hook_route-save_failed :
      (e : GoError)
      → authenticate r auth ≡ ok tt
      → validate_request lib r ≡ ok v
      → ((w' : World O K S D I N) → expired w' ≡ false)
      → (h.store.save_section v.employee section v.value w.store_state).0 ≡ err e
      → IsPlain e
      → ((profile_section_route lib expired hook_route auth r w).0.status ≡ errored)
        × ((profile_section_route lib expired hook_route auth r w).0.code ≡ 500)
  hook_route-save_failed e granted valid in_time failed plain =
      elim (save_and_anchor-outcome h section failure draws v.employee v.user v.identity v.value
        v.document w) [
          | inr (version, saved, kept, rest) ↦ absurd (ground arith)
          | inl (x, failed_x, run) ↦
              let (status, code, left) =
                hook_fails (context failure [] x) errored granted valid in_time (ap (λ y. y.0) run)
                  (classify-context failure x
                    (subst IsPlain (err-injective _ e x failed failed_x) plain)) in
              (status, code)
        ]

  -- Where no deadline passes: an authenticated and valid request whose operational save succeeds
  -- and whose anchor, tried for the saved version, fails with a plain error is answered with status
  -- partial_failure and code 200, and the saved store stays.
  pub hook_route-anchor_failed :
      (version : ℕ) (e : GoError)
      → authenticate r auth ≡ ok tt
      → validate_request lib r ≡ ok v
      → ((w' : World O K S D I N) → expired w' ≡ false)
      → (h.store.save_section v.employee section v.value w.store_state).0 ≡ ok version
      → (do_anchor h draws v.employee v.user section v.identity v.value version v.document
          w.ports).0
        ≡ err e
      → IsPlain e
      → ((profile_section_route lib expired hook_route auth r w).0.status ≡ partial_failed)
        × ((profile_section_route lib expired hook_route auth r w).0.code ≡ 200)
        × ((profile_section_route lib expired hook_route auth r w).1.store_state
            ≡ (h.store.save_section v.employee section v.value w.store_state).1)
  unfolding save_and_anchor anchor
  hook_route-anchor_failed version e granted valid in_time saved failed_anchor plain =
      elim (save_and_anchor-outcome h section failure draws v.employee v.user v.identity v.value
        v.document w) [
          | inl (x, failed_x, run_x) ↦ absurd (ground arith)
          | inr (other, saved_other, kept, rest) ↦
              let run : hook_run.0 ≡ err (partial_failure v.employee section version e) =
                rw (save_and_anchor, saved, anchor, failed_anchor) refl in
              let (status, code, left) =
                hook_fails (partial_failure v.employee section version e) partial_failed granted
                  valid in_time run (classify-partial v.employee section version e plain) in
              (status, code, ap (λ x. x.store_state) left ∙ kept)
        ]
