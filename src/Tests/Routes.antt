-- ===== src/Tests/Routes.antt =====
-- The bridge (integration-bridge) on small requests.
use fabric_hris.Prelude.{
  ℕ, ◌+◌, Text, text, Bytes, ◌==◌, ◌≡◌, ◌≢◌, ◌↔◌, inl, refl, Bool, false, some, [], ◌∷◌, arith,
}
use fabric_hris.Errors.{
  GoError, external, sentinel, auth_error, missing_or_incorrect_credentials, partial_failure,
  Result, ok, err,
}
use fabric_hris.Keystore.Interface.{Entropy, KeyStore}
use fabric_hris.WritePaths.Hooks.{Hooks, World, Draws, do_anchor, resolve_employee_key}
use fabric_hris.Bridge.Http.{
  AuthConfig, Request, authenticate, committed, partial_failed, errored, has_auth_error,
  has_validation_error, has_deadline_exceeded, has_partial_failure,
}
use fabric_hris.Bridge.Route.{
  Library, RequestEnvelope, Validated, RouteConfig, validate_request, usable_record_id, answer,
  profile_section_route,
}
use fabric_hris.Bridge.Route.Laws.{
  profile_section_route-refused, profile_section_route-committed_iff,
}
use fabric_hris.Bridge.Route.Hooked.{IsPlain, hook_route, hook_route-anchor_failed}

abbrev envelope : RequestEnvelope
envelope = record {
  employee_internal_id = text "e";
  user_id = text "u";
  new_value = 123 ∷ 125 ∷ [];
  document = [];
  record_identity = [];
}

abbrev library : Library
library = record {
  trim_space = λ t. t;
  decode_envelope = λ limit body. ok envelope;
  decode_base64 = ok;
  decode_record_id = ok;
  render = λ f args. f;
}

abbrev auth : AuthConfig
auth = record { api_key = text "k"; company_id = text "c" }

abbrev request : Request
request = record { x_api_key = text "k"; x_company_id = text "c"; body = [] }

abbrev intruder : Request
intruder = record { x_api_key = text "x"; x_company_id = text "c"; body = [] }

abbrev in_time : ℕ → Bool
in_time w = false

abbrev route : RouteConfig ℕ
route = record {
  profile_section = text "PERSONAL";
  dispatch_func = λ employee user identity value document w. (ok (text "id"), w + 1);
}

wrong_key : text "x" ≢ text "k"
unfolding text
wrong_key e = ground arith

profile_section_route-refused_example :
    (profile_section_route library in_time route auth intruder 0
      ≡ (answer library in_time (err (auth_error (sentinel missing_or_incorrect_credentials))), 0))
    × ((answer library in_time
          (err (auth_error (sentinel missing_or_incorrect_credentials)))).status
        ≡ errored)
    × ((answer library in_time (err (auth_error (sentinel missing_or_incorrect_credentials)))).code
        ≡ 500)
profile_section_route-refused_example =
    profile_section_route-refused library in_time route auth intruder 0 (inl wrong_key)

profile_section_route-committed_iff_example :
    ((profile_section_route library in_time route auth request 0).0.status ≡ committed) ↔ (
      (authenticate request auth ≡ ok tt)
      × (v : Validated) × (validate_request library request ≡ ok v)
      × (result : Bytes) × ((route.dispatch_func v.employee v.user v.identity v.value v.document
            0).0
          ≡ ok result)
      × (id : Text) × (usable_record_id library result ≡ some id))
profile_section_route-committed_iff_example =
    profile_section_route-committed_iff library in_time route auth request 0

abbrev drawn : Entropy
drawn = record { secret = err (external []); nonce = err (external []) }

abbrev draws : Draws
draws = record { for_key = drawn; for_salt = drawn; for_document_key = drawn; for_pin = drawn }

abbrev no_keys : KeyStore ℕ
no_keys = record {
  get_or_create = λ entropy id n. (err (external []), n);
  delete_key = λ entropy id n. (ok tt, n);
}

-- Hooks whose store saves as told, and whose key store is down.
abbrev hooks : Result ℕ → Hooks ℕ ℕ ℕ ℕ ℕ ℕ
hooks saved = record {
  store = record {
    save_section = λ employee section value n. (saved, n + 1);
    delete_section = λ employee section n. (ok tt, n);
  };
  keys = no_keys;
  salts = record {
    put_salt = λ entropy employee section version n. (err (external []), n);
    get_salt = λ employee section version n. err (external []);
    delete_all_salts_for_employee = λ entropy employee n. (ok tt, n);
  };
  document_keys = no_keys;
  ipfs = record { encrypt_and_add = λ entropy key document n. (err (external []), n) };
  gateway = record {
    submit_record_profile_section = λ tenant employee section build n. (err (external []), n);
  };
  tenant_id = [];
  reports_partial_failure = false;
  marshal_strings = λ ts. ok [];
  digests = record { canonicalize = ok; sha256 = λ b. b; hmac_sha256 = λ k m. m; hex = λ b. b };
}

abbrev World0 : Type 0
World0 = World ℕ ℕ ℕ ℕ ℕ ℕ

abbrev world : World0
world = record {
  store_state = 0;
  ports = record {
    key_state = 0;
    salt_state = 0;
    document_key_state = 0;
    pin_state = 0;
    ledger_state = 0;
  };
  reports = [];
}

abbrev never : World0 → Bool
never w = false

abbrev valid : Validated
valid = record {
  employee = text "e";
  user = text "u";
  identity = [];
  value = 123 ∷ 125 ∷ [];
  document = [];
}

granted : authenticate request auth ≡ ok tt
unfolding authenticate text ◌==◌
granted = refl

validates : validate_request library request ≡ ok valid
unfolding validate_request text
validates = refl

down-IsPlain : IsPlain (external [])
unfolding IsPlain has_auth_error has_validation_error has_deadline_exceeded has_partial_failure
down-IsPlain = (refl, refl, refl, refl)

abbrev down : GoError
down = fabric_hris.Errors.context (text "writepaths: fetching employeeKey_i") [] (external [])

down_wrapped-IsPlain : IsPlain down
unfolding IsPlain has_auth_error has_validation_error has_deadline_exceeded has_partial_failure
down_wrapped-IsPlain = (refl, refl, refl, refl)

anchor_down :
    (do_anchor (hooks (ok 1)) draws (text "e") (text "u") [] [] (123 ∷ 125 ∷ []) 1 [] world.ports).0
    ≡ err down
unfolding do_anchor resolve_employee_key
anchor_down = refl

hook_route-anchor_failed_example :
    ((profile_section_route library never
        (hook_route (hooks (ok 1)) [] [] draws library never auth request world valid)
        auth
        request
        world).0.status
      ≡ partial_failed)
    × ((profile_section_route library never
          (hook_route (hooks (ok 1)) [] [] draws library never auth request world valid)
          auth
          request
          world).0.code
        ≡ 200)
    × ((profile_section_route library never
          (hook_route (hooks (ok 1)) [] [] draws library never auth request world valid)
          auth
          request
          world).1.store_state
        ≡ 1)
hook_route-anchor_failed_example =
    hook_route-anchor_failed (hooks (ok 1)) [] [] draws library never auth request world valid 1
      down granted validates (λ w. refl) refl anchor_down down_wrapped-IsPlain
