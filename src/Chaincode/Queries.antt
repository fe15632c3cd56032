-- ===== src/Chaincode/Queries.antt =====
-- chaincode/queries.go: the three Evaluate functions.
pub mod Reads
mod Sorting
pub mod History
use fabric_hris.Prelude.{
  ℕ, Text, text, ◌+◌, ◌%◌, ◌^◌, Bool, ◌||◌, Option, none, some, List, [], ◌∷◌, ltb, if◌then◌else◌,
}
use fabric_hris.Errors.{Result, ok, err, sentinel, record_not_found, wrapping, ◌>>=◌, ◌>>◌}
use fabric_hris.Chaincode.Asset.{
  EmployeeProfileRecord, ProfileSectionHead, ProfileVersionEntry, ProfileSectionSummaryEntry,
  all_profile_sections,
}
use fabric_hris.Chaincode.Stub.{Platform, Stub, KeyModification}
use fabric_hris.Chaincode.Identity.{authorize_evaluate}
use fabric_hris.Chaincode.Record.{check_profile_section, profile_key, read_head}

unfoldable pub head_of : EmployeeProfileRecord → ProfileSectionHead
head_of r = record {
  data_hash = r.data_hash;
  timestamp = r.timestamp;
  updated_by = r.updated_by;
  version = r.version;
}

unfoldable pub entry_of : EmployeeProfileRecord → ProfileVersionEntry
entry_of r = record {
  canonicalization_version = r.canonicalization_version;
  data_hash = r.data_hash;
  hash_algo = r.hash_algo;
  ipfs_cids = r.ipfs_cids;
  prev_hash = r.prev_hash;
  record_id = r.record_id;
  timestamp = r.timestamp;
  updated_by = r.updated_by;
  version = r.version;
}

-- `<` on Go ints, which are 64-bit patterns.
abbrev pub int_lt : ℕ → ℕ → Bool
int_lt a b = ltb ((a + 2 ^ 63) % 2 ^ 64) ((b + 2 ^ 63) % 2 ^ 64)

-- sort.Slice(entries, by Version), which promises no order among equal versions.
unfoldable pub insert_by_version :
    ProfileVersionEntry → List ProfileVersionEntry → List ProfileVersionEntry
insert_by_version e [] = e ∷ []
insert_by_version e (f ∷ rest) =
    if int_lt f.version e.version then f ∷ insert_by_version e rest else e ∷ f ∷ rest

unfoldable pub sort_by_version : List ProfileVersionEntry → List ProfileVersionEntry
unfolding insert_by_version
sort_by_version [] = []
sort_by_version (e ∷ rest) = insert_by_version e (sort_by_version rest)

unfoldable pub summary_of : Text → Option EmployeeProfileRecord → ProfileSectionSummaryEntry
summary_of section none = record {
  data_hash = [];
  profile_section = section;
  timestamp = [];
  updated_by = [];
  version = 0;
}
summary_of section (some head) = record {
  data_hash = head.data_hash;
  profile_section = section;
  timestamp = head.timestamp;
  updated_by = head.updated_by;
  version = head.version;
}

module _ {V : Type 0} (p : Platform V) (stub : Stub V) where
  found_or_error : Option EmployeeProfileRecord × Text → Result ProfileSectionHead
  found_or_error (none, key) = err (sentinel record_not_found)
  found_or_error (some head, key) = ok (head_of head)

  -- The arguments are tenantId, employeeID and profileSection; the tenant is not read.
  unfoldable pub get_profile_section_record : Text → Text → Text → Result ProfileSectionHead
  unfolding found_or_error
  get_profile_section_record tenant employee section = do
    _ ← authorize_evaluate stub
    check_profile_section section
    head ← read_head p stub employee section
    found_or_error head

  -- The loop over the history iterator.
  unfoldable pub collect_entries :
      List (Result (KeyModification V)) → Result (List ProfileVersionEntry)
  collect_entries [] = ok []
  collect_entries (next ∷ rest) =
      let more = collect_entries rest in
      do
        m ← wrapping (text "failed to iterate key history") next
        if m.is_delete || p.is_blank m.value then more else do
          r ← wrapping (text "failed to unmarshal history entry") (p.unmarshal m.value)
          entries ← more
          ok (entry_of r ∷ entries)

  unfoldable pub get_profile_history : Text → Text → Text → Result (List ProfileVersionEntry)
  unfolding profile_key collect_entries
  get_profile_history tenant employee section = do
    _ ← authorize_evaluate stub
    check_profile_section section
    key ← profile_key p employee section
    modifications ← wrapping (text "failed to read key history") (stub.get_history key)
    entries ← collect_entries modifications
    ok (sort_by_version entries)

  -- The loop over the sections.
  unfoldable pub summarize : Text → List Text → Result (List ProfileSectionSummaryEntry)
  summarize employee [] = ok []
  summarize employee (section ∷ rest) = do
    (head, key) ← read_head p stub employee section
    summary ← summarize employee rest
    ok (summary_of section head ∷ summary)

  unfoldable pub get_employee_profile_summary :
      Text → Text → Result (List ProfileSectionSummaryEntry)
  unfolding summarize
  get_employee_profile_summary tenant employee = do
    _ ← authorize_evaluate stub
    summarize employee all_profile_sections
