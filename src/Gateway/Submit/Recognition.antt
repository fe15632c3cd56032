-- ===== src/Gateway/Submit/Recognition.antt =====
-- The client tells the contract's outcomes apart by their texts.
use fabric_hris.Prelude.{
  ℕ, Text, text, contains, contains_inside, ◌≡◌, refl, true, Option, none, some, List, [], ◌∷◌,
  ◌++◌, arith,
}
use mathlib.Core.List.{append_assoc}
use fabric_hris.Errors.{
  GoError, sentinel, detail, stale_chain_reference, sentinel_text, message, endorse_error, err,
}
use fabric_hris.Chaincode.Asset.{EmployeeProfileRecord}
use fabric_hris.Chaincode.Record.{next_version}
use fabric_hris.Gateway.Submit.{is_expected_retryable_rejection}

contains_inside_of :
    (before a p b c after : Text) → contains (before ++ (((a ++ (p ++ b)) ++ c) ++ after)) p ≡ true
contains_inside_of before a p b c after =
    rw (append_assoc (a ++ (p ++ b)) c after) (contains_inside before a p b (c ++ after))

stale_shape :
    sentinel_text stale_chain_reference
    ≡ text "employeeprofilerecord: "
      ++ (text "stale chain reference" ++ text " (prevHash does not match current head)")
unfolding text
stale_shape = refl

-- The contract's rejection of step 5, with whatever text the transport puts round its message, is
-- recognised as retryable by the client.
pub stale-is_expected_retryable :
    (render : Text → List Text → Text) (mvcc : ℕ) (before after format : Text) (args : List Text)
    → is_expected_retryable_rejection mvcc (
        endorse_error (
          before
          ++ (message render (detail (sentinel stale_chain_reference) format args) ++ after)))
      ≡ true
unfolding is_expected_retryable_rejection message
stale-is_expected_retryable render mvcc before after format args = rw stale_shape (
    contains_inside_of before (text "employeeprofilerecord: ") (text "stale chain reference")
      (text " (prevHash does not match current head)") (text ": " ++ render format args) after)

next_version-detail :
    (prev : Text) (head : Option EmployeeProfileRecord) (e : GoError)
    → next_version head prev ≡ err e
    → (format : Text) × (args : List Text) × (e
        ≡ detail (sentinel stale_chain_reference) format args)
unfolding next_version
next_version-detail prev none e h = (
  text "no existing record for this key, but prevHash %q was supplied (expected \"\")",
  prev ∷ [],
  ground arith,
)
next_version-detail prev (some head) e h = (
  text "prevHash %q does not match current head dataHash %q",
  prev ∷ head.data_hash ∷ [],
  ground arith,
)

-- Every error of the contract's step 5 is a stale chain reference that the client recognises.
pub next_version-retryable :
    (render : Text → List Text → Text) (mvcc : ℕ) (before after prev : Text)
    (head : Option EmployeeProfileRecord) (e : GoError)
    → next_version head prev ≡ err e
    → is_expected_retryable_rejection mvcc (endorse_error (before ++ (message render e ++ after)))
      ≡ true
next_version-retryable render mvcc before after prev head e h =
    let (format, args, shape) = next_version-detail prev head e h in
    rw shape (stale-is_expected_retryable render mvcc before after format args)
