-- ===== src/Tools/Pilscan/Patterns.antt =====
-- pilscan/main.go: the fixture dictionary, the fields of a record and the regular expressions. An
-- expression that is anchored at both ends is a test of the whole text.
use fabric_hris.Prelude.{
  ℕ, Text, text, ◌==◌, leb, nat_eq, contains, has_prefix, length, drop, Bool, true, false, ◌&&◌,
  ◌||◌, Option, none, some, List, [], ◌∷◌, if◌then◌else◌,
}

abbrev pub fixture_dictionary : List Text
fixture_dictionary =
    text "REC-4 Demo Employee"
    ∷ text "INT-1 Partial-Failure Demo"
    ∷ text "QA-2 Erasure Demo"
    ∷ text "REC-7 Verify Test"
    ∷ text "INT-2 NotFound Test"
    ∷ text "INT-2 Fixture"
    ∷ text "TAMPERED NAME"
    ∷ text "Test Employee"
    ∷ text "Generic City"
    ∷ text "Generic University"
    ∷ text "Generic Bank"
    ∷ text "Attacker Bank"
    ∷ text "Staff Engineer"
    ∷ text "Software Engineer"
    ∷ text "Executive"
    ∷ text "Chief Officer"
    ∷ text "Erasure Fixture"
    ∷ text "B.Sc."
    ∷ text "Bachelor"
    ∷ text "State University"
    ∷ text "Doctorate"
    ∷ text "Diploma Mill University"
    ∷ text "married"
    ∷ text "single"
    ∷ text "1234567890"
    ∷ text "9999999999"
    ∷ text "fullName"
    ∷ text "jobTitle"
    ∷ text "maritalStatus"
    ∷ text "dependentCount"
    ∷ text "dependents"
    ∷ text "bankAccountNumber"
    ∷ text "bankName"
    ∷ text "accountLast4"
    ∷ text "degree"
    ∷ text "institution"
    ∷ text "address"
    ∷ text "hr-admin-rec4-demo"
    ∷ text "hr-admin-int1-demo"
    ∷ text "hr-admin-qa2-erasure-demo"
    ∷ text "rec4demoemployee00000000000000000000000000000000000000000001"
    ∷ text "int1demoemployee000000000000000000000000000000000000000001"
    ∷ text "qa2erasuredemo00000000000000000000000000000000000000000001"
    ∷ text "erasure-test-employee-001"
    ∷ text "REC-5 integration fixture"
    ∷ text "QA-2 IT-9 fixture"
    ∷ text "supporting document content"
    ∷ text "only the correct KEY_EMPLOYEE"
    ∷ text "only the right KEY_EMPLOYEE recovers this"
    ∷ text "identical content, encrypted twice"
    ∷ text "same content, re-encrypted after a hypothetical key rotation"
    ∷ text "tamper-detection fixture"
    ∷ []

abbrev pub allowed_record_fields : List Text
allowed_record_fields =
    text "canonicalizationVersion"
    ∷ text "dataHash"
    ∷ text "employeeID"
    ∷ text "hashAlgo"
    ∷ text "ipfsCIDs"
    ∷ text "prevHash"
    ∷ text "profileSection"
    ∷ text "recordID"
    ∷ text "tenantID"
    ∷ text "timestamp"
    ∷ text "updatedBy"
    ∷ text "version"
    ∷ []

-- sectionEnum
abbrev pub section_enum : List Text
section_enum =
    text "PERSONAL" ∷ text "EMPLOYMENT" ∷ text "EDUCATION" ∷ text "ADDITIONAL" ∷ text "PAYROLL" ∷ []

-- The test of a map[string]bool whose keys are listed.
unfoldable pub is_listed : List Text → Text → Bool
is_listed [] s = false
is_listed (t ∷ ts) s = t == s || is_listed ts s

-- The first string of a dictionary that is part of a text.
unfoldable pub first_contained : List Text → Text → Option Text
first_contained [] s = none
first_contained (f ∷ fs) s = if contains s f then some f else first_contained fs s

unfoldable pub contains_fixture : Text → Option Text
unfolding first_contained
contains_fixture = first_contained fixture_dictionary

abbrev in_range : ℕ → ℕ → ℕ → Bool
in_range first last b = leb first b && leb b last

unfoldable pub all_bytes : (ℕ → Bool) → Text → Bool
all_bytes test [] = true
all_bytes test (b ∷ s) = test b && all_bytes test s

-- [0-9a-f]
abbrev pub lower_hex : ℕ → Bool
lower_hex b = in_range b'0' b'9' b || in_range b'a' b'f' b

-- [1-9A-HJ-NP-Za-km-z]
abbrev base58 : ℕ → Bool
base58 b =
    in_range b'1' b'9' b
    || (in_range b'A' b'H' b
        || (in_range b'J' b'N' b
            || (in_range b'P' b'Z' b || (in_range b'a' b'k' b || in_range b'm' b'z' b))))

-- [a-z2-7] and [A-Z2-7]
abbrev base32_lower : ℕ → Bool
base32_lower b = in_range b'a' b'z' b || in_range b'2' b'7' b

abbrev base32_upper : ℕ → Bool
base32_upper b = in_range b'A' b'Z' b || in_range b'2' b'7' b

-- hex64Re
unfoldable pub is_hex64 : Text → Bool
unfolding all_bytes
is_hex64 s = nat_eq (length s) 64 && all_bytes lower_hex s

-- dataHashRe
unfoldable pub is_data_hash : Text → Bool
unfolding is_hex64
is_data_hash s = has_prefix s (text "sha256:") && is_hex64 (drop 7 s)

-- {20,120}
abbrev plausible_length : Text → Bool
plausible_length s = leb 20 (length s) && leb (length s) 120

-- cidPlausRe
unfoldable pub is_plausible_cid : Text → Bool
unfolding all_bytes
is_plausible_cid s =
    (has_prefix s (text "Qm") && (nat_eq (length s) 46 && all_bytes base58 (drop 2 s)))
    || ((plausible_length s && all_bytes base32_lower s)
        || (has_prefix s (text "B")
            && (plausible_length (drop 1 s) && all_bytes base32_upper (drop 1 s))))
