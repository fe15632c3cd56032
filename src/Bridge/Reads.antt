-- ===== src/Bridge/Reads.antt =====
-- internal/pipeline/history.go and verify.go: the two routes that read the ledger. A version is a
-- Go int, by its 64-bit pattern.
pub mod Latest
use fabric_hris.Prelude.{
  ℕ, ◌+◌, ◌%◌, ◌^◌, Text, text, Bytes, ltb, ◌==◌, is_empty, Bool, true, false, ◌||◌, List, [], ◌∷◌,
  ◌++◌, if◌then◌else◌,
}
use fabric_hris.Errors.{GoError, errorf, context, detail, Result, ok, err}
use fabric_hris.Exec.{Exec}
use fabric_hris.Keystore.Interface.{Entropy, KeyStore}
use fabric_hris.Gateway.Digest.{Hashing, compute_data_hash}
use fabric_hris.WritePaths.Store.{all_profile_sections}
use fabric_hris.WritePaths.Hooks.{resolve_employee_id}
use fabric_hris.Bridge.Http.{AuthConfig, Request, authenticate}

-- chaincodeHistoryEntry
pub record ChaincodeHistoryEntry : Type 0 where
  pub canonicalization_version : Text
  pub data_hash : Text
  pub hash_algo : Text
  pub ipfs_cids : List Text
  pub prev_hash : Text
  pub record_id : Text
  pub timestamp : Text
  pub updated_by : Text
  pub version : ℕ

-- verifyRequestEnvelope
pub record VerifyRequestEnvelope : Type 0 where
  pub employee_internal_id : Text
  pub profile_section : Text
  pub record_identity : Text
  pub current_value : Bytes

-- What a handler answers: its status, and the error whose text is the detail.
pub data Verdict : Type 0 where
  verified deletion_verified compromised no_anchor_found : Verdict
  rejected errored : GoError → Verdict

-- The code that respondVerify writes.
abbrev pub verdict_code : Verdict → ℕ
verdict_code (rejected e) = 400
verdict_code (errored e) = 500
verdict_code v = 200

unfoldable pub is_known_profile_section : Text → Bool
is_known_profile_section section = go all_profile_sections
  where
    go : List Text → Bool
    go [] = false
    go (s ∷ sections) = s == section || go sections

-- The place of a Go int, by its 64-bit pattern, in the order of ints.
abbrev pub rank : ℕ → ℕ
rank version = (version + 2 ^ 63) % 2 ^ 64

-- The loop that finds the entry of the highest version.
unfoldable pub latest_of :
    ChaincodeHistoryEntry → List ChaincodeHistoryEntry → ChaincodeHistoryEntry
latest_of latest [] = latest
latest_of latest (e ∷ entries) =
    latest_of (if ltb (rank latest.version) (rank e.version) then e else latest) entries

-- VerifyRouteConfig, with the functions of Go's library that the handler calls.
pub record VerifyRouteConfig (K N : Type 0) : Type 0 where
  pub keys : KeyStore K
  pub get_salt : Text → Text → ℕ → Result Bytes
  -- EvaluateGetProfileHistory: tenant, employee, section
  pub history : Text → Text → Text → N → Result Bytes
  pub tenant_id : Text
  pub digests : Hashing
  pub trim_space : Text → Text
  pub decode_envelope : Bytes → Result VerifyRequestEnvelope
  pub decode_history : Bytes → Result (List ChaincodeHistoryEntry)

module _ {K N : Type 0} (cfg : VerifyRouteConfig K N) where
  -- The handler from the latest entry on.
  unfoldable pub judge_latest : Text → Text → Bytes → ChaincodeHistoryEntry → Verdict
  judge_latest employee_id section value latest =
      if is_empty value || value == text "null"
      then deletion_verified
      else elim (cfg.get_salt employee_id section latest.version) [
        | err e ↦ errored (context (text "integrationbridge: fetching salt") [] e)
        | ok salt ↦ elim (compute_data_hash cfg.digests salt value) [
          | err e ↦ errored (context (text "integrationbridge: computing DataHash") [] e)
          | ok data_hash ↦ if data_hash == latest.data_hash then verified else compromised
        ]
      ]

  unfoldable pub judge_history : Text → Text → Bytes → List ChaincodeHistoryEntry → Verdict
  unfolding judge_latest latest_of
  judge_history employee_id section value [] = no_anchor_found
  judge_history employee_id section value (e ∷ entries) =
      judge_latest employee_id section value (latest_of e entries)

  -- The handler from the pseudonym on.
  unfoldable pub judge_ledger : Text → Text → Bytes → N → Verdict
  unfolding judge_history
  judge_ledger employee_id section value ledger =
      elim (cfg.history cfg.tenant_id employee_id section ledger) [
        | err e ↦ errored (context (text "integrationbridge: querying ledger history") [] e)
        | ok raw ↦ elim (cfg.decode_history raw) [
          | err e ↦ errored (context (text "integrationbridge: decoding ledger history") [] e)
          | ok entries ↦ judge_history employee_id section value entries
        ]
      ]

  unfoldable pub judge_envelope : Entropy → VerifyRequestEnvelope → N → K → Verdict × K
  unfolding judge_ledger is_known_profile_section
  judge_envelope entropy env ledger keys =
      let section = cfg.trim_space env.profile_section in
      let employee = cfg.trim_space env.employee_internal_id in
      if is_empty employee
      then (rejected (errorf (text "integrationbridge: employeeInternalID is required") []), keys)
      else if is_known_profile_section section
      then (let (r, keys') =
            resolve_employee_id cfg.digests cfg.keys entropy employee env.record_identity keys in
          elim r [
            | err e ↦
                (errored (context (text "integrationbridge: resolving employee key") [] e), keys')
            | ok employee_id ↦ (judge_ledger employee_id section env.current_value ledger, keys')
          ])
      else (
        rejected (
            errorf
              (text "integrationbridge: profileSection %q is not one of the five ratified values")
              (section ∷ [])),
        keys,
      )

  -- The handler that RegisterProfileVerifyRoute registers.
  unfoldable pub profile_verify_route : AuthConfig → Entropy → Request → N → K → Verdict × K
  unfolding judge_envelope
  profile_verify_route auth entropy r ledger keys = elim (authenticate r auth) [
    | err e ↦ (errored e, keys)
    | ok u ↦ elim (cfg.decode_envelope r.body) [
      | err e ↦ (rejected (context (text "integrationbridge: invalid request body") [] e), keys)
      | ok env ↦ judge_envelope entropy env ledger keys
    ]
  ]
