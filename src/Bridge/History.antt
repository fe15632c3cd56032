-- ===== src/Bridge/History.antt =====
-- internal/pipeline/history.go: the route that reads one employee's history, every section or one.
-- A
-- version is a Go int, by its 64-bit pattern. The query parameters are a function, as url.Values.Get reads them.
pub mod Order
pub mod Selection
pub mod Feed
use fabric_hris.Prelude.{
  ℕ, Text, text, nat_eq, ltb, Bytes, is_empty, Bool, true, false, List, [], ◌∷◌, ◌++◌, map, ◌&&◌,
  ◌||◌, if◌then◌else◌,
}
use fabric_hris.Errors.{GoError, errorf, context, Result, ok, err, ◌>>=◌}
use fabric_hris.Keystore.Interface.{Entropy, KeyStore}
use fabric_hris.Gateway.Digest.{Hashing}
use fabric_hris.WritePaths.Store.{all_profile_sections}
use fabric_hris.WritePaths.Hooks.{resolve_employee_id}
use fabric_hris.Bridge.Http.{AuthConfig, Request, authenticate}
use fabric_hris.Bridge.Reads.{ChaincodeHistoryEntry, is_known_profile_section}

-- historyEntry
pub record HistoryEntry : Type 0 where
  pub profile_section : Text
  pub canonicalization_version : Text
  pub data_hash : Text
  pub hash_algo : Text
  pub ipfs_cids : List Text
  pub prev_hash : Text
  pub record_id : Text
  pub timestamp : Text
  pub updated_by : Text
  pub version : ℕ

-- What the handler gives respondHistory: its status with the detail or the history.
pub data HistoryAnswer : Type 0 where
  found : List HistoryEntry → HistoryAnswer
  rejected errored : GoError → HistoryAnswer

-- The status code that respondHistory writes.
abbrev pub history_code : HistoryAnswer → ℕ
history_code (found history) = 200
history_code (rejected e) = 400
history_code (errored e) = 500

-- HistoryRouteConfig, with the functions of Go's library that the handler calls.
pub record HistoryRouteConfig (K N : Type 0) : Type 0 where
  pub keys : KeyStore K
  -- EvaluateGetProfileHistory: tenant, employee, section
  pub history : Text → Text → Text → N → Result Bytes
  pub tenant_id : Text
  pub digests : Hashing
  pub trim_space : Text → Text
  pub decode_history : Bytes → Result (List ChaincodeHistoryEntry)

-- s < t on Go strings, by bytes.
unfoldable pub text_before : Text → Text → Bool
text_before [] [] = false
text_before [] (y ∷ t) = true
text_before (x ∷ s) [] = false
text_before (x ∷ s) (y ∷ t) = ltb x y || (nat_eq x y && text_before s t)

-- The loop's literal of a historyEntry.
abbrev pub tagged : Text → ChaincodeHistoryEntry → HistoryEntry
tagged section e = record {
  profile_section = section;
  canonicalization_version = e.canonicalization_version;
  data_hash = e.data_hash;
  hash_algo = e.hash_algo;
  ipfs_cids = e.ipfs_cids;
  prev_hash = e.prev_hash;
  record_id = e.record_id;
  timestamp = e.timestamp;
  updated_by = e.updated_by;
  version = e.version;
}

-- sort.SliceStable(all, all[i].Timestamp > all[j].Timestamp): an entry passes those that are newer,
-- and none that is as old.
unfoldable pub insert_stable : HistoryEntry → List HistoryEntry → List HistoryEntry
unfolding text_before
insert_stable e [] = e ∷ []
insert_stable e (f ∷ rest) =
    let further = f ∷ insert_stable e rest in
    if text_before e.timestamp f.timestamp then further else e ∷ f ∷ rest

unfoldable pub newest_first : List HistoryEntry → List HistoryEntry
unfolding insert_stable
newest_first [] = []
newest_first (e ∷ entries) = insert_stable e (newest_first entries)

-- The sections to query, or the error of an unknown one; `requested` is trimmed.
unfoldable pub sections_of : Text → Result (List Text)
unfolding is_known_profile_section
sections_of [] = ok all_profile_sections
sections_of (x ∷ requested) =
    if is_known_profile_section (x ∷ requested)
    then ok ((x ∷ requested) ∷ [])
    else err (
        errorf (text "integrationbridge: profileSection %q is not one of the five ratified values")
          ((x ∷ requested) ∷ []))

module _ {K N : Type 0} (cfg : HistoryRouteConfig K N) where
  -- The body of the loop over the sections.
  unfoldable pub query_section : Text → N → Text → Result (List HistoryEntry)
  query_section employee_id ledger section =
      elim (cfg.history cfg.tenant_id employee_id section ledger) [
        | err e ↦ err (context (text "integrationbridge: querying ledger history") [] e)
        | ok raw ↦ elim (cfg.decode_history raw) [
          | err e ↦ err (context (text "integrationbridge: decoding ledger history") [] e)
          | ok chunk ↦ ok (map (tagged section) chunk)
        ]
      ]

  -- The loop, with what it has collected.
  unfoldable pub query_sections :
      Text → N → List HistoryEntry → List Text → Result (List HistoryEntry)
  unfolding query_section
  query_sections employee_id ledger all [] = ok all
  query_sections employee_id ledger all (section ∷ sections) =
      query_section employee_id ledger section >>= λ chunk.
      query_sections employee_id ledger (all ++ chunk) sections

  -- The handler from the pseudonym on.
  unfoldable pub answer_history : Text → N → List Text → HistoryAnswer
  unfolding query_sections newest_first
  answer_history employee_id ledger sections =
      elim (query_sections employee_id ledger [] sections) [
        | err e ↦ errored e
        | ok all ↦ found (newest_first all)
      ]

  -- The handler from the resolved pseudonym on.
  unfoldable pub answer_resolved : N → List Text → Result Text × K → HistoryAnswer × K
  unfolding answer_history
  answer_resolved ledger sections (err e, keys) =
      (errored (context (text "integrationbridge: resolving employee key") [] e), keys)
  answer_resolved ledger sections (ok employee_id, keys) =
      (answer_history employee_id ledger sections, keys)

  -- The handler that RegisterProfileHistoryRoute registers.
  unfoldable pub profile_history_route :
      AuthConfig → Entropy → Request → (Text → Text) → N → K → HistoryAnswer × K
  unfolding answer_resolved sections_of
  profile_history_route auth entropy r query ledger keys = elim (authenticate r auth) [
    | err e ↦ (errored e, keys)
    | ok u ↦
        let employee = cfg.trim_space (query (text "employeeInternalID")) in
        let identity = cfg.trim_space (query (text "recordIdentity")) in
        let requested = cfg.trim_space (query (text "profileSection")) in
        if is_empty employee
        then (rejected (errorf (text "integrationbridge: employeeInternalID is required") []), keys)
        else elim (sections_of requested) [
          | err e ↦ (rejected e, keys)
          | ok sections ↦
              answer_resolved ledger sections
                (resolve_employee_id cfg.digests cfg.keys entropy employee identity keys)
        ]
  ]
