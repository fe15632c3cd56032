-- ===== src/WritePaths/Store.antt =====
-- writepaths.go: the operational store, its interface and the in-memory one; the five sections.
use fabric_hris.Prelude.{
  ℕ, ◌+◌, ◌%◌, ◌^◌, Text, text, Bytes, Bool, true, false, none, some, List, [], ◌∷◌, ◌++◌,
}
use fabric_hris.Prelude.Maps.{Map, lookup, insert, delete}
use fabric_hris.Errors.{ok}
use fabric_hris.Exec.{Exec}

pub record OperationalStore (O : Type 0) : Type 0 where
  pub save_section : Text → Text → Bytes → Exec O ℕ
  pub delete_section : Text → Text → Exec O (Unit {0})

abbrev pub all_profile_sections : List Text
all_profile_sections =
    text "PERSONAL" ∷ text "EMPLOYMENT" ∷ text "EDUCATION" ∷ text "ADDITIONAL" ∷ text "PAYROLL" ∷ []

pub record InMemoryOperationalStore : Type 0 where
  pub versions : Map ℕ
  pub values : Map Bytes

-- NewInMemoryOperationalStore
abbrev pub new_in_memory_operational_store : InMemoryOperationalStore
new_in_memory_operational_store = record { versions = []; values = [] }

abbrev pub section_key : Text → Text → Text
section_key employee section = employee ++ (text "/" ++ section)

-- A missing counter reads as 0.
unfoldable pub version_of : Text → Map ℕ → ℕ
version_of key versions = elim (lookup key versions) [ none ↦ 0 | some n ↦ n ]

unfoldable pub memory_save_section : Text → Text → Bytes → Exec InMemoryOperationalStore ℕ
memory_save_section employee section value s =
    let key = section_key employee section in
    let next = (version_of key s.versions + 1) % 2 ^ 64 in
    (ok next, record { versions = insert key next s.versions; values = insert key value s.values })

-- The field goes, its version counter stays.
unfoldable pub memory_delete_section : Text → Text → Exec InMemoryOperationalStore (Unit {0})
memory_delete_section employee section s =
    (ok tt, record s { values = delete (section_key employee section) s.values })

unfoldable pub has_value : Text → Text → InMemoryOperationalStore → Bool
has_value employee section s = elim (lookup (section_key employee section) s.values) [
  | none ↦ false
  | some v ↦ true
]

abbrev pub memory_operational_store : OperationalStore InMemoryOperationalStore
memory_operational_store = record {
  save_section = memory_save_section;
  delete_section = memory_delete_section;
}
