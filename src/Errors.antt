-- ===== src/Errors.antt =====
-- Go errors as values: the sentinels and error types of the repository, wrapping by fmt.Errorf,
-- errors.Is and errors.As, and results.
-- (fabric-network/chaincode/employeeprofilerecord/chaincode/errors.go, and the error variables and
-- types of write-path-integration and integration-bridge.)
use fabric_hris.Prelude.{
  ℕ, Text, text, Bool, true, false, List, [], ◌∷◌, ◌++◌, ◌≡◌, refl, ◌⊎◌, inl, inr,
}

-- The error variables, errors.New(...).
pub data Sentinel : Type 0 where
  record_not_found stale_chain_reference unauthorized invalid_argument : Sentinel
  salt_access_denied salt_too_short empty_employee_key : Sentinel
  missing_or_incorrect_credentials : Sentinel

-- An error value. A message is a format with its arguments, not rendered.
pub data GoError : Type 0 where
  -- An error that code outside the repository returned, by its text.
  external : Text → GoError
  sentinel : Sentinel → GoError
  -- fmt.Errorf with no %w.
  errorf : Text → List Text → GoError
  -- fmt.Errorf("context: %w", err): the wrapped error's text stands last.
  context : Text → List Text → GoError → GoError
  -- fmt.Errorf("%w: detail", err): the wrapped error's text stands first.
  detail : GoError → Text → List Text → GoError
  deadline_exceeded : GoError
  -- *client.CommitError (its code and text) and *client.EndorseError of the Fabric gateway library.
  commit_error : ℕ → Text → GoError
  endorse_error : Text → GoError
  -- *gatewayclient.LedgerError
  ledger_error : GoError → GoError
  -- *writepaths.PartialFailureError: employee, section, version, cause.
  partial_failure : Text → Text → ℕ → GoError → GoError
  -- *pipeline.authError, *pipeline.validationError
  auth_error validation_error : GoError → GoError

unfoldable pub same_sentinel : Sentinel → Sentinel → Bool
same_sentinel record_not_found record_not_found = true
same_sentinel stale_chain_reference stale_chain_reference = true
same_sentinel unauthorized unauthorized = true
same_sentinel invalid_argument invalid_argument = true
same_sentinel salt_access_denied salt_access_denied = true
same_sentinel salt_too_short salt_too_short = true
same_sentinel empty_employee_key empty_employee_key = true
same_sentinel missing_or_incorrect_credentials missing_or_incorrect_credentials = true
same_sentinel _ _ = false

-- errors.Is(err, sentinel)
unfoldable pub is_sentinel : Sentinel → GoError → Bool
unfolding same_sentinel
is_sentinel s (external t) = false
is_sentinel s (sentinel r) = same_sentinel s r
is_sentinel s (errorf f args) = false
is_sentinel s (context f args e) = is_sentinel s e
is_sentinel s (detail e f args) = is_sentinel s e
is_sentinel s deadline_exceeded = false
is_sentinel s (commit_error code t) = false
is_sentinel s (endorse_error t) = false
is_sentinel s (ledger_error e) = is_sentinel s e
is_sentinel s (partial_failure employee section version e) = is_sentinel s e
is_sentinel s (auth_error e) = is_sentinel s e
is_sentinel s (validation_error e) = is_sentinel s e

abbrev pub sentinel_text : Sentinel → Text
sentinel_text record_not_found = text "employeeprofilerecord: profile section record not found"
sentinel_text stale_chain_reference =
    text "employeeprofilerecord: stale chain reference (prevHash does not match current head)"
sentinel_text unauthorized =
    text "employeeprofilerecord: caller identity failed MSP/ABAC verification"
sentinel_text invalid_argument = text "employeeprofilerecord: invalid argument"
sentinel_text salt_access_denied = text "keystore: salt access denied"
sentinel_text salt_too_short = text "gatewayclient: salt must be at least 128 bits (16 bytes)"
sentinel_text empty_employee_key = text "gatewayclient: employeeKey_i must not be empty"
sentinel_text missing_or_incorrect_credentials =
    text "integrationbridge: missing or incorrect credentials"

-- err.Error(). `render` is fmt's rendering of a format with its arguments.
unfoldable pub message : (Text → List Text → Text) → GoError → Text
message render (external t) = t
message render (sentinel s) = sentinel_text s
message render (errorf f args) = render f args
message render (context f args e) = render f args ++ (text ": " ++ message render e)
message render (detail e f args) = message render e ++ (text ": " ++ render f args)
message render deadline_exceeded = text "context deadline exceeded"
message render (commit_error code t) = t
message render (endorse_error t) = t
message render (ledger_error e) = text "gatewayclient: ledger error: " ++ message render e
message render (partial_failure employee section version e) =
    render
      (text
        "writepaths: partial failure: operational-DB write committed (employeeInternalID=%s, profileSection=%s, version=%d) but its blockchain anchor did not: ")
      (employee ∷ section ∷ [])
    ++ message render e
message render (auth_error e) = message render e
message render (validation_error e) = message render e

pub data Result {ℓ} (A : Type ℓ) : Type ℓ where
  ok : A → Result A
  err : GoError → Result A

infixl 5 ◌>>=◌ ◌>>◌
abbrev pub ◌>>=◌ {ℓ κ} : {A : Type ℓ} {B : Type κ} → Result A → (A → Result B) → Result B
ok a >>= next = next a
err e >>= next = err e

abbrev pub ◌>>◌ {ℓ} : {B : Type ℓ} → Result (Unit {0}) → Result B → Result B
first >> next = first >>= λ _. next

-- if err != nil { return ..., fmt.Errorf("format: %w", err) }
abbrev pub wrapping {ℓ} : {A : Type ℓ} → Text → Result A → Result A
wrapping format (ok a) = ok a
wrapping format (err e) = err (context format [] e)

pub Result-cases {ℓ} :
    {A : Type ℓ} (r : Result A) → ((a : A) × (r ≡ ok a)) ⊎ ((e : GoError) × (r ≡ err e))
Result-cases (ok a) = inl (a, refl)
Result-cases (err e) = inr (e, refl)
