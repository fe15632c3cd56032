-- ===== src/Tests/Contract.antt =====
-- The contract (fabric-network/chaincode) on a small ledger.
use mathlib.Core.List.Permᴰ
use mathlib.Core.List.{reverse, Permᴰ}
use fabric_hris.Chaincode.Queries.History.{present, get_profile_history-chronological}
use fabric_hris.Chaincode.Ledger.{decode}
use fabric_hris.Prelude.{
  has_prefix, map, length, ◌<◌, ◌^◌, Text, text, ◌==◌, ◌≡◌, ◌≢◌, ◌↔◌, refl, sym, true, false,
  Option, none, some, List, [], ◌∷◌, ◌++◌, arith, map,
}
use fabric_hris.Prelude.Maps.{lookup}
use fabric_hris.Errors.{
  GoError, ok, err, sentinel, stale_chain_reference, record_not_found, is_sentinel,
}
use fabric_hris.Chaincode.Asset.{
  ProfileSectionSummaryEntry, all_profile_sections, EmployeeProfileRecord,
  RecordProfileSectionResult, ProfileSectionHead, is_valid_profile_section,
}
use fabric_hris.Chaincode.Stub.{Platform, Stub, Effects, no_effects, put_state, set_event}
use fabric_hris.Chaincode.Identity.{
  is_org_client_msp, authorize_submit, authorize_evaluate, caller_msp_id,
}
use fabric_hris.Chaincode.Identity.Access.{IsCaller, MaySubmit, authorize_submit_iff}
use fabric_hris.Chaincode.Record.{
  Arguments, record_profile_section, profile_key, read_head, required_string_args, first_missing,
  next_version, write_version, anchor_version, check_profile_section, new_record,
}
use fabric_hris.Chaincode.Record.Outcome.{PrevMatches}
use fabric_hris.Chaincode.Record.Rejection.{record_profile_section-stale}
use fabric_hris.Chaincode.Ledger.{values, Ledger, genesis, commit}
use fabric_hris.Chaincode.Ledger.Chain.{IsHashChain, Chained, Ledger-Chained}
use fabric_hris.Chaincode.Queries.{
  summary_of, get_employee_profile_summary, get_profile_history, entry_of,
  get_profile_section_record,
}
use fabric_hris.Chaincode.Queries.Reads.{
  SummaryOf, get_employee_profile_summary-SummaryOf, get-record_profile_section, not_found_iff,
}

-- Records are stored as they are.
abbrev platform : Platform EmployeeProfileRecord
platform = record {
  composite_key = λ kind parts. ok (kind ++ join parts);
  marshal = ok;
  unmarshal = ok;
  is_blank = λ v. false;
  name_based_uuid = λ t. t;
  rfc3339 = λ s n. s ∷ n ∷ [];
}
  where
    join : List Text → Text
    join [] = []
    join (t ∷ parts) = 0 ∷ (t ++ join parts)

abbrev stub_over : List (Text × EmployeeProfileRecord) → Stub EmployeeProfileRecord
stub_over log = record {
  msp_id = ok (text "Org1MSP");
  client_id = ok (text "x509");
  get_state = λ k. ok (lookup k log);
  get_history = λ k. ok (map (λ v. ok (record { is_delete = false; value = v })) (values k log));
  tx_timestamp = ok (1, 2);
  tx_id = text "tx";
  put_error = λ k. none;
  event_error = none;
}

abbrev arguments : Text → Text → Arguments
arguments data_hash prev_hash = record {
  tenant_id = text "t";
  employee_id = text "e";
  profile_section = text "PERSONAL";
  data_hash = data_hash;
  prev_hash = prev_hash;
  updated_by = text "u";
  ipfs_cids = none;
  canonicalization_version = text "c";
  hash_algo = text "h";
  client_timestamp = [];
}

abbrev empty_stub : Stub EmployeeProfileRecord
empty_stub = stub_over []

abbrev first : Arguments
first = arguments (text "A") []

abbrev first_record : EmployeeProfileRecord
first_record = new_record platform empty_stub first 1 (1, 2)

abbrev key : Text
key = text "profile" ++ (0 ∷ (text "e" ++ (0 ∷ text "PERSONAL")))

abbrev first_result : RecordProfileSectionResult
first_result = record { record_id = text "tx"; timestamp = 1 ∷ 2 ∷ []; version = 1 }

abbrev first_effects : Effects EmployeeProfileRecord
first_effects = record {
  writes = (key, first_record) ∷ [];
  events = (text "RecordProfileSection", first_record) ∷ [];
}

first_run :
    record_profile_section platform empty_stub first no_effects ≡ (ok first_result, first_effects)
unfolding record_profile_section check_profile_section is_valid_profile_section ◌==◌ text
    authorize_submit required_string_args first_missing read_head lookup anchor_version
    write_version next_version put_state set_event new_record
first_run = refl

no_reads : (k : Text) (o : Option EmployeeProfileRecord) → empty_stub.get_state k ≡ ok o → o ≡ none
unfolding lookup
no_reads k o e = ground arith

committed : Ledger platform ((key, first_record) ∷ [])
unfolding lookup
committed = commit empty_stub first first_result first_effects genesis no_reads first_run

Ledger-Chained_example : Chained platform key ((key, first_record) ∷ [])
Ledger-Chained_example = Ledger-Chained platform (λ r v e. sym e) committed key

abbrev log : List (Text × EmployeeProfileRecord)
log = (key, first_record) ∷ []

abbrev reader : Stub EmployeeProfileRecord
reader = stub_over log

reader_passes : authorize_evaluate reader ≡ ok (text "Org1MSP")
unfolding authorize_evaluate caller_msp_id ◌==◌ text
reader_passes = refl

writer_passes : authorize_submit reader ≡ ok (text "Org1MSP")
unfolding authorize_submit caller_msp_id ◌==◌ text
writer_passes = refl

key_built : profile_key platform (text "e") (text "PERSONAL") ≡ ok key
unfolding profile_key text
key_built = refl

personal_is_valid : is_valid_profile_section (text "PERSONAL") ≡ true
unfolding is_valid_profile_section ◌==◌ text
personal_is_valid = refl

get-record_profile_section_example :
    (head : ProfileSectionHead) × (get_profile_section_record platform reader []
        (text "e")
        (text "PERSONAL")
      ≡ ok head)
    × (head.data_hash ≡ text "A")
    × (head.version ≡ 1)
    × (head.timestamp ≡ 1 ∷ 2 ∷ [])
unfolding lookup
get-record_profile_section_example =
    get-record_profile_section platform (λ r v e. sym e) empty_stub reader first first_result
      first_effects [] [] (text "Org1MSP") no_reads first_run (λ k. refl) reader_passes

not_found_iff_example :
    (get_profile_section_record platform reader [] (text "e") (text "PERSONAL")
      ≡ err (sentinel record_not_found))
    ↔ ((msp k : Text) × (authorize_evaluate reader ≡ ok msp)
        × (is_valid_profile_section (text "PERSONAL") ≡ true)
        × (profile_key platform (text "e") (text "PERSONAL") ≡ ok k)
        × (reader.get_state k ≡ ok none))
not_found_iff_example = not_found_iff platform reader [] (text "e") (text "PERSONAL")

authorize_submit_iff_example :
    (authorize_submit reader ≡ ok (text "Org3MSP"))
    ↔ (IsCaller reader (text "Org3MSP") × MaySubmit (text "Org3MSP"))
authorize_submit_iff_example = authorize_submit_iff reader (text "Org3MSP")

-- A second version that names a hash that is not the head's.
abbrev stale : Arguments
stale = arguments (text "B") (text "X")

stale_args : required_string_args stale ≡ ok tt
unfolding required_string_args first_missing text
stale_args = refl

head_read : read_head platform reader (text "e") (text "PERSONAL") ≡ ok (some first_record, key)
unfolding read_head lookup ◌==◌ text
head_read = refl

differs : (h : EmployeeProfileRecord) → some first_record ≡ some h → h.data_hash ≢ text "B"
unfolding new_record text
differs h e f = ground arith

no_match : ¬ (PrevMatches (some first_record) (text "X"))
unfolding new_record text
no_match e = ground arith

record_profile_section-stale_example :
    (e : GoError) × (is_sentinel stale_chain_reference e ≡ true)
    × (record_profile_section platform reader stale no_effects ≡ (err e, no_effects))
record_profile_section-stale_example =
    record_profile_section-stale platform reader stale (some first_record) key (text "Org1MSP")
      no_effects personal_is_valid writer_passes stale_args head_read differs no_match

stale_run :
    (e : GoError) × (is_sentinel stale_chain_reference e ≡ true)
    × (record_profile_section platform reader stale no_effects ≡ (err e, no_effects))
stale_run =
    record_profile_section-stale platform reader stale (some first_record) key (text "Org1MSP")
      no_effects personal_is_valid writer_passes stale_args head_read differs no_match

abbrev no_effect : Effects EmployeeProfileRecord
no_effect = no_effects

-- A caller of no known organisation.
abbrev stranger : Stub EmployeeProfileRecord
stranger = record reader { msp_id = ok (text "X") }

abbrev refusal : GoError
refusal =
    fabric_hris.Errors.detail (sentinel fabric_hris.Errors.unauthorized)
      (text "MSP %q is not authorized to submit a write") (text "X" ∷ [])

stranger_refused : authorize_submit stranger ≡ err refusal
unfolding authorize_submit caller_msp_id is_org_client_msp ◌==◌ text has_prefix
stranger_refused = refl

abbrev entry_without : Text → ProfileSectionSummaryEntry
entry_without section = record {
  data_hash = [];
  profile_section = section;
  timestamp = [];
  updated_by = [];
  version = 0;
}

abbrev summary : List ProfileSectionSummaryEntry
summary =
    record {
      data_hash = text "A";
      profile_section = text "PERSONAL";
      timestamp = 1 ∷ 2 ∷ [];
      updated_by = text "u";
      version = 1;
    }
    ∷ entry_without (text "EMPLOYMENT")
    ∷ entry_without (text "EDUCATION")
    ∷ entry_without (text "ADDITIONAL")
    ∷ entry_without (text "PAYROLL")
    ∷ []

summary_run : get_employee_profile_summary platform reader [] (text "e") ≡ ok summary
unfolding get_employee_profile_summary authorize_evaluate text ◌==◌ read_head lookup summary_of
    new_record
summary_run = refl

get_employee_profile_summary-SummaryOf_example :
    SummaryOf platform reader (text "e") all_profile_sections summary
    × (map (λ (e : ProfileSectionSummaryEntry). e.profile_section) summary ≡ all_profile_sections)
get_employee_profile_summary-SummaryOf_example =
    get_employee_profile_summary-SummaryOf platform reader [] (text "e") summary summary_run

history_found : reader.get_history key ≡ ok (map (present platform) (first_record ∷ []))
unfolding values ◌==◌ text
history_found = refl

same_values : Permᴰ (values key log) (first_record ∷ [])
unfolding values ◌==◌ text
same_values = Permᴰ.refl (first_record ∷ [])

short : length (values key log) < 2 ^ 63
unfolding values ◌==◌ text
short = omega arith

get_profile_history-chronological_example :
    (rs : List EmployeeProfileRecord) × (decode platform (values key log) ≡ ok rs)
    × IsHashChain rs
    × (get_profile_history platform reader [] (text "e") (text "PERSONAL")
        ≡ ok (reverse (map entry_of rs)))
get_profile_history-chronological_example =
    get_profile_history-chronological platform (λ v r e. refl) (λ r v e. sym e) reader [] (text "e")
      (text "PERSONAL") (text "Org1MSP") key log (first_record ∷ []) committed reader_passes
      personal_is_valid key_built history_found same_values short
