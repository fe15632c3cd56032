-- ===== src/Chaincode/Record.antt =====
-- chaincode/contract.go and chaincode/record_profile_section.go: the Submit function.
pub mod Outcome
pub mod Rejection
pub mod Acceptance
use fabric_hris.Prelude.{
  ℕ, Text, text, ◌==◌, is_empty, ◌+◌, ◌%◌, ◌^◌, Option, none, some, List, [], ◌∷◌, if◌then◌else◌,
}
use fabric_hris.Errors.{
  Result, ok, err, sentinel, invalid_argument, stale_chain_reference, context, detail, wrapping,
}
use fabric_hris.Errors
use fabric_hris.Exec.{Exec, done, lift, wrapping_exec, ◌>>=◌, ◌>>◌}
use fabric_hris.Chaincode.Asset.{
  EmployeeProfileRecord, RecordProfileSectionResult, is_valid_profile_section,
}
use fabric_hris.Chaincode.Stub.{Platform, Stub, Effects, put_state, set_event}
use fabric_hris.Chaincode.Identity.{authorize_submit}

abbrev pub profile_key_object_type : Text
profile_key_object_type = text "profile"

-- The arguments of RecordProfileSection, in their order. A nil slice is `none`.
pub record Arguments : Type 0 where
  pub tenant_id : Text
  pub employee_id : Text
  pub profile_section : Text
  pub data_hash : Text
  pub prev_hash : Text
  pub updated_by : Text
  pub ipfs_cids : Option (List Text)
  pub canonicalization_version : Text
  pub hash_algo : Text
  pub client_timestamp : Text

-- The loop of requiredStringArgs, over the fields in its fixed order.
unfoldable pub first_missing : List (Text × Text) → Result (Unit {0})
first_missing [] = ok tt
first_missing ((name, v) ∷ rest) =
    if is_empty v
    then err (detail (sentinel invalid_argument) (text "%s is required") (name ∷ []))
    else first_missing rest

unfoldable pub required_string_args : Arguments → Result (Unit {0})
required_string_args a = first_missing (
    (text "tenantId", a.tenant_id)
    ∷ (text "employeeID", a.employee_id)
    ∷ (text "dataHash", a.data_hash)
    ∷ (text "updatedBy", a.updated_by)
    ∷ (text "canonicalizationVersion", a.canonicalization_version)
    ∷ (text "hashAlgo", a.hash_algo)
    ∷ [])

unfoldable pub check_profile_section : Text → Result (Unit {0})
check_profile_section section =
    if is_valid_profile_section section
    then ok tt
    else err (
        detail (sentinel invalid_argument)
          (text "profileSection %q is not one of the five ratified values") (section ∷ []))

-- head.Version + 1 on a 64-bit pattern.
abbrev pub next_int : ℕ → ℕ
next_int v = (v + 1) % 2 ^ 64

-- The switch of step 5: the version to write, or a stale chain reference.
unfoldable pub next_version : Option EmployeeProfileRecord → Text → Result ℕ
next_version none prev =
    if is_empty prev
    then ok 1
    else err (
        detail (sentinel stale_chain_reference)
          (text "no existing record for this key, but prevHash %q was supplied (expected \"\")")
          (prev ∷ []))
next_version (some head) prev =
    if prev == head.data_hash
    then ok (next_int head.version)
    else err (
        detail (sentinel stale_chain_reference)
          (text "prevHash %q does not match current head dataHash %q") (prev ∷ head.data_hash ∷ []))

abbrev result_of : EmployeeProfileRecord → RecordProfileSectionResult
result_of r = record { record_id = r.record_id; timestamp = r.timestamp; version = r.version }

module _ {V : Type 0} (p : Platform V) where
  unfoldable pub profile_key : Text → Text → Result Text
  profile_key employee section =
      wrapping (text "failed to build composite key")
        (p.composite_key profile_key_object_type (employee ∷ section ∷ []))

  abbrev pub decode_head : Text → Option V → Result (Option EmployeeProfileRecord × Text)
  decode_head key none = ok (none, key)
  decode_head key (some value) =
      Errors.◌>>=◌
        (wrapping (text "failed to unmarshal stored record for key %q") (p.unmarshal value))
        (λ r. ok (some r, key))

  -- The head record if there is one, and the composite key.
  unfoldable pub read_head : Stub V → Text → Text → Result (Option EmployeeProfileRecord × Text)
  unfolding profile_key
  read_head stub employee section = Errors.◌>>=◌ (profile_key employee section) (λ key.
      Errors.◌>>=◌ (wrapping (text "failed to read world state") (stub.get_state key))
        (decode_head key))

  unfoldable pub deterministic_record_id : Text → Text
  deterministic_record_id tx = p.name_based_uuid tx

  or_no_cids : Option (List Text) → List Text
  or_no_cids none = []
  or_no_cids (some cids) = cids

  unfoldable pub new_record : Stub V → Arguments → ℕ → ℕ × ℕ → EmployeeProfileRecord
  unfolding deterministic_record_id or_no_cids
  new_record stub a version (seconds, nanos) = record {
    canonicalization_version = a.canonicalization_version;
    data_hash = a.data_hash;
    employee_id = a.employee_id;
    hash_algo = a.hash_algo;
    ipfs_cids = or_no_cids a.ipfs_cids;
    prev_hash = a.prev_hash;
    profile_section = a.profile_section;
    record_id = deterministic_record_id stub.tx_id;
    tenant_id = a.tenant_id;
    timestamp = p.rfc3339 seconds nanos;
    updated_by = a.updated_by;
    version = version;
  }

  -- Steps 5 and 6, where the submitted hash is not the head's.
  unfoldable pub write_version :
      Stub V
      → Arguments
      → Option EmployeeProfileRecord
      → Text
      → Exec (Effects V) RecordProfileSectionResult
  write_version stub a head key = do
    version ← lift (next_version head a.prev_hash)
    now ← lift (wrapping (text "failed to read ledger transaction timestamp") stub.tx_timestamp)
    let r = new_record stub a version now
    value ← lift (wrapping (text "failed to marshal record") (p.marshal r))
    wrapping_exec (text "failed to write world state") (put_state stub key value)
    wrapping_exec (text "failed to set chaincode event")
        (set_event stub (text "RecordProfileSection") value)
    done (result_of r)

  -- Step 4: the same hash as the head's is a no-op.
  unfoldable pub anchor_version :
      Stub V
      → Arguments
      → Option EmployeeProfileRecord × Text
      → Exec (Effects V) RecordProfileSectionResult
  anchor_version stub a (none, key) = write_version stub a none key
  anchor_version stub a (some head, key) =
      if head.data_hash == a.data_hash
      then done (result_of head)
      else write_version stub a (some head) key

  unfoldable pub record_profile_section :
      Stub V → Arguments → Exec (Effects V) RecordProfileSectionResult
  record_profile_section stub a = do
    lift (check_profile_section a.profile_section)
    lift (authorize_submit stub)
    lift (required_string_args a)
    head ← lift (read_head stub a.employee_id a.profile_section)
    anchor_version stub a head
