-- ===== src/Tests/Network.antt =====
-- The gateway client over the chaincode (write-path-integration/gateway-client,
-- fabric-network/chaincode) on a ledger that has no record yet.
use fabric_hris.Prelude.{
  map, Text, text, Bytes, ◌==◌, ◌≡◌, ◌↔◌, refl, sym, ◌∙◌, ap, true, false, Option, none, some, List,
  [], ◌∷◌, ◌++◌, arith,
}
use fabric_hris.Prelude.Maps.{lookup}
use fabric_hris.Errors.{external, Result, ok, err}
use fabric_hris.Chaincode.Asset.{
  EmployeeProfileRecord, RecordProfileSectionResult, ProfileSectionHead, is_valid_profile_section,
}
use fabric_hris.Chaincode.Stub.{Platform, Stub, Effects, no_effects}
use fabric_hris.Chaincode.Identity.{authorize_submit, authorize_evaluate, caller_msp_id}
use fabric_hris.Chaincode.Record.{
  Arguments, record_profile_section, profile_key, read_head, decode_head, required_string_args,
  first_missing, check_profile_section,
}
use fabric_hris.Chaincode.Record.Acceptance.{Sound, Follows, record_profile_section_iff}
use fabric_hris.Chaincode.Ledger.{values}
use fabric_hris.Chaincode.Queries.{get_profile_section_record}
use fabric_hris.Gateway.Extract.{marker}
use fabric_hris.Gateway.Submit.{Contract, submit_record_profile_section}
use fabric_hris.Gateway.Submit.Acceptance.{
  Uncontended, IsUnescaped, submit_record_profile_section-accepted,
}

-- Records are stored as they are.
abbrev platform : Platform EmployeeProfileRecord
platform = record {
  composite_key = λ kind parts. ok (kind ++ join parts);
  marshal = ok;
  unmarshal = ok;
  is_blank = λ v. false;
  name_based_uuid = λ t. t;
  rfc3339 = λ s n. s ∷ n ∷ [];
}
  where
    join : List Text → Text
    join [] = []
    join (t ∷ parts) = 0 ∷ (t ++ join parts)

abbrev stub_over : List (Text × EmployeeProfileRecord) → Stub EmployeeProfileRecord
stub_over log = record {
  msp_id = ok (text "Org1MSP");
  client_id = ok (text "x509");
  get_state = λ k. ok (lookup k log);
  get_history = λ k. ok (map (λ v. ok (record { is_delete = false; value = v })) (values k log));
  tx_timestamp = ok (1, 2);
  tx_id = text "tx";
  put_error = λ k. none;
  event_error = none;
}

abbrev arguments : Text → Text → Arguments
arguments data_hash prev_hash = record {
  tenant_id = text "t";
  employee_id = text "e";
  profile_section = text "PERSONAL";
  data_hash = data_hash;
  prev_hash = prev_hash;
  updated_by = text "u";
  ipfs_cids = none;
  canonicalization_version = text "c";
  hash_algo = text "h";
  client_timestamp = [];
}

-- The state is the list of committed writes.
abbrev Log : Type 0
Log = List (Text × EmployeeProfileRecord)

abbrev base : Arguments
base = arguments (text "A") []

abbrev with_prev : List Text → Arguments
with_prev [] = base
with_prev (prev ∷ args) = record base { prev_hash = prev }

abbrev build : Text → List Text
build prev = prev ∷ []

abbrev decode_args : List Text → Result Arguments
decode_args args = ok (with_prev args)

abbrev encode_head : ProfileSectionHead → Bytes
encode_head h = b'{' ∷ (marker ++ (h.data_hash ++ (b'"' ∷ [])))

abbrev encode_result : RecordProfileSectionResult → Bytes
encode_result r = r.record_id

abbrev after_run :
    Log → Result RecordProfileSectionResult × Effects EmployeeProfileRecord → Result Bytes × Log
after_run log (ok r, e) = (ok (encode_result r), e.writes ++ log)
after_run log (err x, e) = (err x, log)

abbrev answered : Result ProfileSectionHead → Result Bytes
answered (ok h) = ok (encode_head h)
answered (err x) = err x

abbrev read_by : List Text → Log → Result ProfileSectionHead
read_by (tenant ∷ employee ∷ section ∷ []) log =
    get_profile_section_record platform (stub_over log) tenant employee section
read_by args log = err (external [])

abbrev network : Contract Log
network = record {
  submit_transaction = λ f args log.
      after_run log (record_profile_section platform (stub_over log) (with_prev args) no_effects);
  evaluate = λ f args log. (answered (read_by args log), log);
  mvcc_read_conflict = 11;
}

committed :
    (s : Log) (args : List Text) (a : Arguments) (r : RecordProfileSectionResult)
    (e : Effects EmployeeProfileRecord)
    → decode_args args ≡ ok a
    → record_profile_section platform (stub_over s) a no_effects ≡ (ok r, e)
    → network.submit_transaction (text "RecordProfileSection") args s
      ≡ (ok (encode_result r), e.writes ++ s)
committed s args a r e decoded run =
    let same : with_prev args ≡ a = ground arith in
    ap (λ x. after_run s (record_profile_section platform (stub_over s) x no_effects)) same
    ∙ ap (after_run s) run

uncontended :
    Uncontended platform network
      (λ log. log)
      stub_over
      stub_over
      encode_head
      encode_result
      decode_args
uncontended = record {
  submitter_sees = λ s k. refl;
  reader_sees = λ s k. refl;
  evaluates = λ s tenant employee section head e. ap (λ r. (answered r, s)) e;
  refuses = λ s tenant employee section e f. (e, ap (λ r. (answered r, s)) f);
  commits = λ s args a r e decoded run. (e.writes ++ s, committed s args a r e decoded run, refl);
}

encodes :
    (h : ProfileSectionHead)
    → IsUnescaped h.data_hash
    → (rest : Bytes) × (encode_head h ≡ b'{' ∷ (marker ++ (h.data_hash ++ (b'"' ∷ rest))))
encodes h plain = ([], refl)

sound : (a : Arguments) → Sound platform (stub_over []) a
sound a = record {
  now = (1, 2);
  has_timestamp = refl;
  marshals = λ r. (r, refl);
  puts = λ key. refl;
  sets_event = refl;
}

known : check_profile_section (text "PERSONAL") ≡ ok tt
unfolding check_profile_section is_valid_profile_section text ◌==◌
known = refl

valid : is_valid_profile_section (text "PERSONAL") ≡ true
unfolding is_valid_profile_section text ◌==◌
valid = refl

filled : required_string_args base ≡ ok tt
unfolding required_string_args first_missing text
filled = refl

may_submit : authorize_submit (stub_over []) ≡ ok (text "Org1MSP")
unfolding authorize_submit caller_msp_id text ◌==◌
may_submit = refl

may_read : authorize_evaluate (stub_over []) ≡ ok (text "Org1MSP")
unfolding authorize_evaluate caller_msp_id text ◌==◌
may_read = refl

abbrev key : Text
key = text "profile" ++ (0 ∷ (text "e" ++ (0 ∷ text "PERSONAL")))

keyed : profile_key platform (text "e") (text "PERSONAL") ≡ ok key
unfolding profile_key text
keyed = refl

absent : decode_head platform key (lookup key []) ≡ ok (none, key)
unfolding lookup
absent = refl

submit_record_profile_section-accepted_example :
    (r : RecordProfileSectionResult) × (s' : Log) × (new : EmployeeProfileRecord) × (key' : Text)
    × (submit_record_profile_section network (text "t") (text "e") (text "PERSONAL") build []
        ≡ (ok (encode_result r), s'))
    × (read_head platform (stub_over s') (text "e") (text "PERSONAL") ≡ ok (some new, key'))
    × (new.data_hash ≡ text "A")
    × (new.version ≡ r.version)
submit_record_profile_section-accepted_example =
    submit_record_profile_section-accepted platform network (λ log. log) stub_over stub_over
      encode_head encode_result decode_args uncontended encodes (λ r v e. sym e) [] base build key
      (text "Org1MSP") (text "Org1MSP") none (λ prev. refl) (sound base) known valid filled
      may_submit may_read keyed absent tt

record_profile_section_iff_example :
    ((r : RecordProfileSectionResult) × (e : Effects EmployeeProfileRecord)
      × (record_profile_section platform (stub_over []) base no_effects ≡ (ok r, e)))
    ↔ ((check_profile_section (text "PERSONAL") ≡ ok tt)
        × (required_string_args base ≡ ok tt)
        × (msp : Text) × (authorize_submit (stub_over []) ≡ ok msp)
        × (head : Option EmployeeProfileRecord) × (key : Text) × (read_head platform
              (stub_over [])
              (text "e")
              (text "PERSONAL")
            ≡ ok (head, key))
        × Follows platform (stub_over []) base head)
record_profile_section_iff_example =
    record_profile_section_iff platform (stub_over []) base (sound base)
