-- ===== src/Tests/Reads.antt =====
-- The bridge's verify route and process (integration-bridge) on small inputs.
use fabric_hris.Prelude.{
  ℕ, Text, text, Bytes, ◌==◌, is_empty, ◌≡◌, ◌↔◌, refl, false, ◌||◌, [], ◌∷◌, All,
}
use fabric_hris.Errors.{external, ok, err}
use fabric_hris.Keystore.Interface.{Entropy, KeyStore}
use fabric_hris.Gateway.Digest.{Hashing, compute_data_hash}
use fabric_hris.Bridge.Http.{AuthConfig, Request, authenticate}
use fabric_hris.Bridge.Reads.{
  ChaincodeHistoryEntry, verified, VerifyRouteConfig, judge_history, is_known_profile_section,
}
use fabric_hris.Bridge.Reads.Latest.{IsLatest, judge_history-verified_iff}
use fabric_hris.Bridge.Process.{Config, Setting, settings, load_config, load_config_iff}

abbrev auth : AuthConfig
auth = record { api_key = text "k"; company_id = text "c" }

abbrev request : Request
request = record { x_api_key = text "k"; x_company_id = text "c"; body = [] }

granted : authenticate request auth ≡ ok tt
unfolding authenticate text ◌==◌
granted = refl

abbrev drawn : Entropy
drawn = record { secret = err (external []); nonce = err (external []) }

abbrev no_keys : KeyStore ℕ
no_keys = record {
  get_or_create = λ entropy id n. (err (external []), n);
  delete_key = λ entropy id n. (ok tt, n);
}

abbrev hashing : Hashing
hashing = record { canonicalize = ok; sha256 = λ b. b; hmac_sha256 = λ k m. m; hex = λ b. b }

abbrev entry : ℕ → ChaincodeHistoryEntry
entry n = record {
  canonicalization_version = [];
  data_hash = n ∷ [];
  hash_algo = [];
  ipfs_cids = [];
  prev_hash = [];
  record_id = [];
  timestamp = [];
  updated_by = [];
  version = n;
}

abbrev verify_config : VerifyRouteConfig ℕ ℕ
verify_config = record {
  keys = no_keys;
  get_salt = λ employee section version. ok (text "0123456789abcdef");
  history = λ tenant employee section n. ok [];
  tenant_id = [];
  digests = hashing;
  trim_space = λ t. t;
  decode_envelope = λ body. ok (record {
    employee_internal_id = text "e";
    profile_section = text "SALARY";
    record_identity = [];
    current_value = [];
  });
  decode_history = λ raw. ok [];
}

judge_history-verified_iff_example :
    (judge_history verify_config (text "p") (text "PERSONAL") (text "v") (entry 1 ∷ entry 2 ∷ [])
      ≡ verified)
    ↔ (((is_empty (text "v") || text "v" == text "null") ≡ false)
        × (latest : ChaincodeHistoryEntry) × (salt : Bytes) × IsLatest latest
            (entry 1 ∷ entry 2 ∷ [])
        × (verify_config.get_salt (text "p") (text "PERSONAL") latest.version ≡ ok salt)
        × (compute_data_hash verify_config.digests salt (text "v") ≡ ok latest.data_hash))
judge_history-verified_iff_example =
    judge_history-verified_iff verify_config (text "p") (text "PERSONAL") (text "v")
      (entry 1 ∷ entry 2 ∷ [])

salary_is_unknown : is_known_profile_section (text "SALARY") ≡ false
unfolding is_known_profile_section text ◌==◌
salary_is_unknown = refl

abbrev all_set : Text → Text
all_set key = key

load_config_iff_example :
    (((cfg : Config) × (load_config (λ t. t) all_set ≡ ok cfg))
      ↔ All (λ (s : Setting). is_empty (all_set s.0) ≡ false) settings)
    × ((cfg : Config)
        → load_config (λ t. t) all_set ≡ ok cfg
        → All (λ (s : Setting). s.1 cfg ≡ all_set s.0) settings)
load_config_iff_example = load_config_iff (λ t. t) all_set
