-- ===== src/Gateway/Submit.antt =====
-- gatewayclient.go: submitting with bounded retries, and the three reads. The Fabric gateway
-- library is code outside the repository: `Contract` is its contract handle over the state of
-- the network.
pub mod Attempts
pub mod Bound
pub mod Recognition
pub mod Acceptance
use fabric_hris.Prelude.{
  ℕ, zero, suc, ◌+◌, Text, text, Bytes, contains, nat_eq, Bool, true, false, ◌||◌, Option, none,
  some, List, [], ◌∷◌,
}
use fabric_hris.Errors.{
  GoError, external, sentinel, errorf, context, detail, deadline_exceeded, commit_error,
  endorse_error, ledger_error, partial_failure, auth_error, validation_error, Result, ok, err,
}
use fabric_hris.Exec.{Exec, and_then}
use fabric_hris.Gateway.Extract.{extract_data_hash}

pub record Contract (N : Type 0) : Type 0 where
  -- contract.SubmitTransaction(fn, args...), contract.EvaluateWithContext(ctx, fn, args...)
  pub submit_transaction : Text → List Text → Exec N Bytes
  pub evaluate : Text → List Text → Exec N Bytes
  -- peer.TxValidationCode_MVCC_READ_CONFLICT
  pub mvcc_read_conflict : ℕ

abbrev pub max_submit_retries : ℕ
max_submit_retries = 3

-- errors.As(err, &commitErr): the code of the first *client.CommitError in the chain.
unfoldable pub commit_code : GoError → Option ℕ
commit_code (commit_error code t) = some code
commit_code (context f args e) = commit_code e
commit_code (detail e f args) = commit_code e
commit_code (ledger_error e) = commit_code e
commit_code (partial_failure employee section version e) = commit_code e
commit_code (auth_error e) = commit_code e
commit_code (validation_error e) = commit_code e
commit_code _ = none

-- errors.As(err, &endorseErr): the text of the first *client.EndorseError in the chain.
unfoldable pub endorse_text : GoError → Option Text
endorse_text (endorse_error t) = some t
endorse_text (context f args e) = endorse_text e
endorse_text (detail e f args) = endorse_text e
endorse_text (ledger_error e) = endorse_text e
endorse_text (partial_failure employee section version e) = endorse_text e
endorse_text (auth_error e) = endorse_text e
endorse_text (validation_error e) = endorse_text e
endorse_text _ = none

unfoldable pub is_expected_retryable_rejection : ℕ → GoError → Bool
unfolding commit_code endorse_text
is_expected_retryable_rejection mvcc e =
    elim (commit_code e) [ none ↦ false | some code ↦ nat_eq code mvcc ]
    || elim (endorse_text e) [ none ↦ false | some t ↦ contains t (text "stale chain reference") ]

module _ {N : Type 0} (c : Contract N) where
  unfoldable pub evaluate_wrapped : Text → List Text → Exec N Bytes
  evaluate_wrapped fn args s = elim (c.evaluate fn args s).0 [
    | ok result ↦ (ok result, (c.evaluate fn args s).1)
    | err e ↦ (err (ledger_error e), (c.evaluate fn args s).1)
  ]

  unfoldable pub evaluate_get_profile_section_record : Text → Text → Text → Exec N Bytes
  evaluate_get_profile_section_record tenant employee section =
      evaluate_wrapped (text "GetProfileSectionRecord") (tenant ∷ employee ∷ section ∷ [])

  unfoldable pub evaluate_get_profile_history : Text → Text → Text → Exec N Bytes
  evaluate_get_profile_history tenant employee section =
      evaluate_wrapped (text "GetProfileHistory") (tenant ∷ employee ∷ section ∷ [])

  unfoldable pub evaluate_get_employee_profile_summary : Text → Text → Exec N Bytes
  evaluate_get_employee_profile_summary tenant employee =
      evaluate_wrapped (text "GetEmployeeProfileSummary") (tenant ∷ employee ∷ [])

  -- The loop: `left` attempts are left, `last` is the error of the attempt before.
  unfoldable pub submit_loop : Exec N Bytes → (Text → List Text) → ℕ → Text → GoError → Exec N Bytes
  submit_loop read_head build zero prev last s = (
    err (
        ledger_error
          (context (text "exhausted %d retries on the expected MVCC/stale-prevHash path") [] last)),
    s,
  )
  submit_loop read_head build (suc left) prev last s =
      let (r, s') = c.submit_transaction (text "RecordProfileSection") (build prev) s in
      elim r [
        | ok result ↦ (ok result, s')
        | err e ↦ elim (is_expected_retryable_rejection c.mvcc_read_conflict e) [
          | false ↦ (err (ledger_error e), s')
          | true ↦
              let (h, s'') = read_head s' in
              elim h [
                | err he ↦ (
                  err (
                      ledger_error (
                        context (text "re-read after retryable rejection failed (original: %v)") []
                          he)),
                  s'',
                )
                | ok head ↦ submit_loop read_head build left (extract_data_hash head) e s''
              ]
        ]
      ]

  -- The first prevHash: the head's hash if it can be read, and empty otherwise.
  unfoldable pub seed : Result Bytes → Text
  seed (ok head) = extract_data_hash head
  seed (err e) = []

  unfoldable pub submit_record_profile_section :
      Text → Text → Text → (Text → List Text) → Exec N Bytes
  submit_record_profile_section tenant employee section build s =
      let read_head = evaluate_get_profile_section_record tenant employee section in
      let (h, s') = read_head s in
      submit_loop read_head build (max_submit_retries + 1) (seed h) (external []) s'
