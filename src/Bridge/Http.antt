-- ===== src/Bridge/Http.antt =====
-- internal/pipeline: auth.go, classify.go, and the parts of the routes that handlers share.
use fabric_hris.Prelude.{
  ℕ, Text, text, Bytes, ◌==◌, is_empty, Bool, true, false, ◌||◌, if◌then◌else◌,
}
use fabric_hris.Errors.{
  GoError, sentinel, context, detail, deadline_exceeded, ledger_error, partial_failure, auth_error,
  validation_error, missing_or_incorrect_credentials, Result, ok, err,
}

-- AuthConfig
pub record AuthConfig : Type 0 where
  pub api_key : Text
  pub company_id : Text

-- The two headers (a missing one reads as the empty string) and the body.
pub record Request : Type 0 where
  pub x_api_key : Text
  pub x_company_id : Text
  pub body : Bytes

unfoldable pub authenticate : Request → AuthConfig → Result (Unit {0})
authenticate r cfg =
    if is_empty r.x_api_key || (if r.x_api_key == cfg.api_key then false else true)
    then err (auth_error (sentinel missing_or_incorrect_credentials))
    else if is_empty r.x_company_id || (if r.x_company_id == cfg.company_id then false else true)
    then err (auth_error (sentinel missing_or_incorrect_credentials))
    else ok tt

-- errors.As(err, &authErr)
unfoldable pub has_auth_error : GoError → Bool
has_auth_error (auth_error e) = true
has_auth_error (context f args e) = has_auth_error e
has_auth_error (detail e f args) = has_auth_error e
has_auth_error (ledger_error e) = has_auth_error e
has_auth_error (partial_failure employee section version e) = has_auth_error e
has_auth_error (validation_error e) = has_auth_error e
has_auth_error _ = false

-- errors.As(err, &validationErr)
unfoldable pub has_validation_error : GoError → Bool
has_validation_error (validation_error e) = true
has_validation_error (context f args e) = has_validation_error e
has_validation_error (detail e f args) = has_validation_error e
has_validation_error (ledger_error e) = has_validation_error e
has_validation_error (partial_failure employee section version e) = has_validation_error e
has_validation_error (auth_error e) = has_validation_error e
has_validation_error _ = false

-- errors.Is(err, context.DeadlineExceeded)
unfoldable pub has_deadline_exceeded : GoError → Bool
has_deadline_exceeded deadline_exceeded = true
has_deadline_exceeded (context f args e) = has_deadline_exceeded e
has_deadline_exceeded (detail e f args) = has_deadline_exceeded e
has_deadline_exceeded (ledger_error e) = has_deadline_exceeded e
has_deadline_exceeded (partial_failure employee section version e) = has_deadline_exceeded e
has_deadline_exceeded (auth_error e) = has_deadline_exceeded e
has_deadline_exceeded (validation_error e) = has_deadline_exceeded e
has_deadline_exceeded _ = false

-- errors.As(err, &partialFailureErr)
unfoldable pub has_partial_failure : GoError → Bool
has_partial_failure (partial_failure employee section version e) = true
has_partial_failure (context f args e) = has_partial_failure e
has_partial_failure (detail e f args) = has_partial_failure e
has_partial_failure (ledger_error e) = has_partial_failure e
has_partial_failure (auth_error e) = has_partial_failure e
has_partial_failure (validation_error e) = has_partial_failure e
has_partial_failure _ = false

-- The status strings.
pub data Status : Type 0 where
  committed partial_failed rejected errored : Status

abbrev pub status_text : Status → Text
status_text committed = text "committed"
status_text partial_failed = text "partial_failure"
status_text rejected = text "rejected"
status_text errored = text "error"

unfoldable pub classify_error : GoError → Status
unfolding has_auth_error has_validation_error has_deadline_exceeded has_partial_failure
classify_error e =
    if has_auth_error e
    then errored
    else if has_validation_error e
    then rejected
    else if has_deadline_exceeded e
    then partial_failed
    else if has_partial_failure e
    then partial_failed
    else errored

-- classify, of what a stage returned: its error is nil where the stage succeeded.
unfoldable pub classify {ℓ} : {A : Type ℓ} → Result A → Status
unfolding classify_error
classify (ok a) = committed
classify (err e) = classify_error e

abbrev pub http_status_for : Status → ℕ
http_status_for committed = 200
http_status_for partial_failed = 200
http_status_for rejected = 400
http_status_for errored = 500
