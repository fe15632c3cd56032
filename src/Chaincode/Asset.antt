-- ===== src/Chaincode/Asset.antt =====
-- chaincode/asset.go: the record, what the functions return, and the five sections.
use fabric_hris.Prelude.{ℕ, Text, text, ◌==◌, Bool, true, false, List, [], ◌∷◌, if◌then◌else◌}

-- A version is a Go int, kept as its 64-bit pattern.
pub record EmployeeProfileRecord : Type 0 where
  pub canonicalization_version : Text
  pub data_hash : Text
  pub employee_id : Text
  pub hash_algo : Text
  pub ipfs_cids : List Text
  pub prev_hash : Text
  pub profile_section : Text
  pub record_id : Text
  pub tenant_id : Text
  pub timestamp : Text
  pub updated_by : Text
  pub version : ℕ

pub record RecordProfileSectionResult : Type 0 where
  pub record_id : Text
  pub timestamp : Text
  pub version : ℕ

pub record ProfileSectionHead : Type 0 where
  pub data_hash : Text
  pub timestamp : Text
  pub updated_by : Text
  pub version : ℕ

pub record ProfileVersionEntry : Type 0 where
  pub canonicalization_version : Text
  pub data_hash : Text
  pub hash_algo : Text
  pub ipfs_cids : List Text
  pub prev_hash : Text
  pub record_id : Text
  pub timestamp : Text
  pub updated_by : Text
  pub version : ℕ

pub record ProfileSectionSummaryEntry : Type 0 where
  pub data_hash : Text
  pub profile_section : Text
  pub timestamp : Text
  pub updated_by : Text
  pub version : ℕ

abbrev pub all_profile_sections : List Text
all_profile_sections =
    text "PERSONAL" ∷ text "EMPLOYMENT" ∷ text "EDUCATION" ∷ text "ADDITIONAL" ∷ text "PAYROLL" ∷ []

-- The loop of IsValidProfileSection, over any list.
unfoldable pub is_one_of : Text → List Text → Bool
is_one_of v [] = false
is_one_of v (s ∷ rest) = if s == v then true else is_one_of v rest

unfoldable pub is_valid_profile_section : Text → Bool
unfolding is_one_of
is_valid_profile_section v = is_one_of v all_profile_sections
