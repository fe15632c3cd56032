-- ===== src/Bridge/Route.antt =====
-- internal/pipeline: validate.go, dispatch.go, respond.go and the handler of handlers.go. The JSON,
-- base64 and trimming functions of Go's library are the fields of `Library`; the request's body is
-- read up to a limit there.
pub mod Laws
pub mod Hooked
use fabric_hris.Prelude.{
  ℕ, Text, text, Bytes, nat_eq, is_empty, Bool, true, false, ◌&&◌, Option, none, some, List, [],
  ◌∷◌, if◌then◌else◌,
}
use fabric_hris.Errors.{
  GoError, errorf, context, deadline_exceeded, validation_error, message, Result, ok, err,
}
use fabric_hris.Exec.{Exec}
use fabric_hris.Bridge.Http.{
  AuthConfig, Request, authenticate, Status, committed, errored, classify, http_status_for,
}

pub record RequestEnvelope : Type 0 where
  pub employee_internal_id : Text
  pub user_id : Text
  pub new_value : Bytes
  pub document : Text
  pub record_identity : Text

abbrev pub max_request_body_bytes : ℕ
max_request_body_bytes = 10485760

pub record Library : Type 0 where
  -- strings.TrimSpace and bytes.TrimSpace
  pub trim_space : Text → Text
  -- json.NewDecoder(http.MaxBytesReader(body, limit)).Decode
  pub decode_envelope : ℕ → Bytes → Result RequestEnvelope
  pub decode_base64 : Text → Result Bytes
  -- json.Unmarshal of a chaincodeResult, its recordID
  pub decode_record_id : Bytes → Result Text
  -- fmt.Sprintf
  pub render : Text → List Text → Text

-- What the handler hands to the dispatch function.
pub record Validated : Type 0 where
  pub employee : Text
  pub user : Text
  pub identity : Text
  pub value : Bytes
  pub document : Bytes

pub record Response : Type 0 where
  pub code : ℕ
  pub status : Status
  pub record_id : Text
  pub detail_text : Text

-- DispatchFunc: employeeInternalID, userID, recordIdentity, newValue, document.
abbrev pub DispatchFunc : Type 0 → Type 0
DispatchFunc W = Text → Text → Text → Bytes → Bytes → Exec W Bytes

-- RouteConfig
pub record RouteConfig (W : Type 0) : Type 0 where
  pub profile_section : Text
  pub dispatch_func : DispatchFunc W

abbrev no_record_id : Text
no_record_id =
    text "integrationbridge: internal error -- dispatch reported success with no usable recordID"

module _ (lib : Library) where
  unfoldable pub is_json_object : Bytes → Bool
  is_json_object raw = elim (lib.trim_space raw) [ [] ↦ false | b ∷ rest ↦ nat_eq b 123 ]

  -- The optional document.
  unfoldable pub decode_document : Text → Result Bytes
  decode_document [] = ok []
  decode_document (b ∷ encoded) = elim (lib.decode_base64 (b ∷ encoded)) [
    | ok doc ↦ ok doc
    | err e ↦
        err
          (validation_error (context (text "integrationbridge: document is not valid base64") [] e))
  ]

  unfoldable pub invalid : Text → Result Validated
  invalid t = err (validation_error (errorf t []))

  unfoldable pub validate_envelope : RequestEnvelope → Result Validated
  unfolding is_json_object decode_document invalid
  validate_envelope env =
      if is_empty (lib.trim_space env.employee_internal_id)
      then invalid (text "integrationbridge: employeeInternalID is required")
      else if is_empty (lib.trim_space env.user_id)
      then invalid (text "integrationbridge: userID is required")
      else if is_json_object env.new_value
      then elim (decode_document env.document) [
        | err e ↦ err e
        | ok doc ↦ ok (record {
          employee = lib.trim_space env.employee_internal_id;
          user = lib.trim_space env.user_id;
          identity = lib.trim_space env.record_identity;
          value = env.new_value;
          document = doc;
        })
      ]
      else invalid (text "integrationbridge: newValue is required and must be a JSON object")

  unfoldable pub validate_request : Request → Result Validated
  unfolding validate_envelope
  validate_request r = elim (lib.decode_envelope max_request_body_bytes r.body) [
    | err e ↦ err (validation_error (context (text "integrationbridge: invalid request body") [] e))
    | ok env ↦ validate_envelope env
  ]

  -- The detail of the body: the error's text, else the text given.
  detail_of : Result Bytes → Text → Text
  detail_of (ok result) otherwise = otherwise
  detail_of (err e) otherwise = message lib.render e

  -- recordID, if it can be decoded and is not empty
  unfoldable pub usable_record_id : Bytes → Option Text
  usable_record_id result = elim (lib.decode_record_id result) [
    | err e ↦ none
    | ok id ↦ if is_empty id then none else some id
  ]

  unfoldable pub respond : Status → Result Bytes → Bytes → Response
  unfolding usable_record_id detail_of
  respond committed outcome result = elim (usable_record_id result) [
    | some id ↦ record {
      code = http_status_for committed;
      status = committed;
      record_id = id;
      detail_text = detail_of outcome [];
    }
    | none ↦ record {
      code = http_status_for errored;
      status = errored;
      record_id = [];
      detail_text = detail_of outcome no_record_id;
    }
  ]
  respond status outcome result = record {
    code = http_status_for status;
    status = status;
    record_id = [];
    detail_text = detail_of outcome [];
  }

-- `expired` is the test of the dispatch context after the call.
module _ {W : Type 0} where
  unfoldable pub dispatch : (W → Bool) → Exec W Bytes → Exec W Bytes
  dispatch expired call w = elim (call w).0 [
    | ok result ↦ (ok result, (call w).1)
    | err e ↦ ((if expired (call w).1 then err deadline_exceeded else err e), (call w).1)
  ]

module _ {W : Type 0} (lib : Library) (expired : W → Bool) where
  -- The bytes of a result; nil where there is an error.
  result_bytes : Result Bytes → Bytes
  result_bytes (ok result) = result
  result_bytes (err e) = []

  unfoldable pub answer : Result Bytes → Response
  unfolding result_bytes respond
  answer outcome = respond lib (classify outcome) outcome (result_bytes outcome)

  -- The handler that RegisterProfileSectionRoute registers.
  unfoldable pub profile_section_route : RouteConfig W → AuthConfig → Request → W → Response × W
  unfolding answer dispatch
  profile_section_route route auth r w = elim (authenticate r auth) [
    | err e ↦ (answer (err e), w)
    | ok u ↦ elim (validate_request lib r) [
      | err e ↦ (answer (err e), w)
      | ok v ↦
          let (outcome, w') =
            dispatch expired (route.dispatch_func v.employee v.user v.identity v.value v.document)
              w in
          (answer outcome, w')
    ]
  ]
