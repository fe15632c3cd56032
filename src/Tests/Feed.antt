-- ===== src/Tests/Feed.antt =====
-- The bridge's history route (integration-bridge) on a small ledger.
use fabric_hris.Prelude.{
  ℕ, Text, text, ◌==◌, is_empty, ◌≡◌, refl, inr, false, List, [], ◌∷◌, if◌then◌else◌, nat_eq,
}
use fabric_hris.Errors.{ok, err, external}
use fabric_hris.Keystore.Interface.{Entropy, KeyStore}
use fabric_hris.Gateway.Digest.{Hashing, compute_employee_id}
use fabric_hris.WritePaths.Hooks.{resolve_employee_id, resolve_employee_key, key_lookup_id}
use fabric_hris.Bridge.Http.{AuthConfig, Request, authenticate}
use fabric_hris.Bridge.Reads.{ChaincodeHistoryEntry, is_known_profile_section}
use fabric_hris.Bridge.History.{
  HistoryEntry, found, HistoryRouteConfig, tagged, newest_first, insert_stable, text_before,
  sections_of, query_section, query_sections, answer_history, answer_resolved,
  profile_history_route,
}
use fabric_hris.Bridge.History.Order.{NewestFirst, at_time}
use fabric_hris.Bridge.History.Selection.{Selects}
use fabric_hris.Bridge.History.Feed.{
  Queried, profile_history_route-found, profile_history_route-answers,
}

abbrev auth : AuthConfig
auth = record { api_key = text "k"; company_id = text "c" }

abbrev request : Request
request = record { x_api_key = text "k"; x_company_id = text "c"; body = [] }

abbrev drawn : Entropy
drawn = record { secret = err (external []); nonce = err (external []) }

abbrev one_key : KeyStore ℕ
one_key = record {
  get_or_create = λ entropy id n. (ok (text "key"), n);
  delete_key = λ entropy id n. (ok tt, n);
}

abbrev hashing : Hashing
hashing = record { canonicalize = ok; sha256 = λ b. b; hmac_sha256 = λ k m. k; hex = λ b. b }

abbrev entry : ℕ → Text → ChaincodeHistoryEntry
entry n time = record {
  canonicalization_version = [];
  data_hash = n ∷ [];
  hash_algo = [];
  ipfs_cids = [];
  prev_hash = [];
  record_id = [];
  timestamp = time;
  updated_by = [];
  version = n;
}

abbrev old : ChaincodeHistoryEntry
old = entry 1 (text "2025")

abbrev new : ChaincodeHistoryEntry
new = entry 2 (text "2026")

abbrev config : HistoryRouteConfig ℕ ℕ
config = record {
  keys = one_key;
  history = λ tenant employee section n. ok section;
  tenant_id = [];
  digests = hashing;
  trim_space = λ t. t;
  decode_history = λ raw. ok (old ∷ new ∷ []);
}

-- The query of one section.
abbrev query : Text → Text
query key = if nat_eq 1 1 then text "PAYROLL" else key

abbrev collected : List HistoryEntry
collected = tagged (text "PAYROLL") old ∷ tagged (text "PAYROLL") new ∷ []

abbrev history : List HistoryEntry
history = tagged (text "PAYROLL") new ∷ tagged (text "PAYROLL") old ∷ []

granted : authenticate request auth ≡ ok tt
unfolding authenticate text ◌==◌
granted = refl

payroll : Selects (text "PAYROLL") (text "PAYROLL" ∷ [])
payroll = inr (inr (inr (inr (inr refl))), refl)

named : is_empty (text "PAYROLL") ≡ false
unfolding text
named = refl

resolved :
    resolve_employee_id hashing one_key drawn (text "PAYROLL") (text "PAYROLL") 0
    ≡ (ok (text "key"), 0)
unfolding resolve_employee_id resolve_employee_key key_lookup_id compute_employee_id text
resolved = refl

queried : Queried config (text "key") 0 (text "PAYROLL" ∷ []) collected
queried = (text "PAYROLL", old ∷ new ∷ [], [], refl, refl, refl, refl)

sorted : newest_first collected ≡ history
unfolding newest_first insert_stable text_before text
sorted = refl

profile_history_route-answers_example :
    (history : List HistoryEntry) × (profile_history_route config auth drawn request query 0 0
      ≡ (found history, 0))
    × NewestFirst history
    × ((t : Text) → at_time t history ≡ at_time t collected)
profile_history_route-answers_example =
    profile_history_route-answers config auth drawn request query 0 0 0 (text "PAYROLL" ∷ [])
      (text "key") collected granted named payroll resolved queried

answered : profile_history_route config auth drawn request query 0 0 ≡ (found history, 0)
unfolding profile_history_route answer_resolved answer_history query_sections query_section
    newest_first insert_stable text_before sections_of is_known_profile_section authenticate
    resolve_employee_id resolve_employee_key key_lookup_id compute_employee_id text ◌==◌
answered = refl

profile_history_route-found_example :
    (sections : List Text) × (employee_id : Text) × (entries : List HistoryEntry) × (authenticate
        request auth
      ≡ ok tt)
    × (is_empty (config.trim_space (query (text "employeeInternalID"))) ≡ false)
    × (sections_of (config.trim_space (query (text "profileSection"))) ≡ ok sections)
    × (resolve_employee_id config.digests config.keys drawn
          (config.trim_space (query (text "employeeInternalID")))
          (config.trim_space (query (text "recordIdentity")))
          0
        ≡ (ok employee_id, 0))
    × Queried config employee_id 0 sections entries
    × NewestFirst history
    × ((t : Text) → at_time t history ≡ at_time t entries)
profile_history_route-found_example =
    profile_history_route-found config auth drawn request query 0 0 0 history answered
