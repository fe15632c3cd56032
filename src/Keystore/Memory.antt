-- ===== src/Keystore/Memory.antt =====
-- keystore.go: the in-memory stores. A mutex makes each operation one step.
pub mod Laws
use fabric_hris.Prelude.{
  ℕ, Text, text, Bytes, ◌==◌, nat_eq, Bool, ◌&&◌, Option, none, some, List, [], ◌∷◌, if◌then◌else◌,
}
use fabric_hris.Prelude.Maps.{Map, lookup, insert, delete}
use fabric_hris.Errors.{GoError, Result, ok, err, errorf, wrapping}
use fabric_hris.Exec.{Exec, done, fail, lift, ◌>>=◌}
use fabric_hris.Keystore.Decimal.{print_int}
use fabric_hris.Keystore.Interface.{Entropy, SaltStore, KeyStore}

-- recordKey
pub record RecordKey : Type 0 where
  pub employee_id : Text
  pub profile_section : Text
  pub version : ℕ

-- Equality of recordKey structs.
unfoldable pub same_key : RecordKey → RecordKey → Bool
same_key j k =
    j.employee_id == k.employee_id
    && j.profile_section == k.profile_section
    && nat_eq j.version k.version

abbrev pub Salts : Type 0
Salts = List (RecordKey × Bytes)

unfoldable pub find_salt : RecordKey → Salts → Option Bytes
find_salt k [] = none
find_salt k ((j, salt) ∷ rest) = if same_key j k then some salt else find_salt k rest

-- The loop of DeleteAllSaltsForEmployee.
unfoldable pub drop_employee : Text → Salts → Salts
drop_employee employee [] = []
drop_employee employee ((j, salt) ∷ rest) =
    let kept = drop_employee employee rest in
    if j.employee_id == employee then kept else (j, salt) ∷ kept

abbrev pub salt_exists : Text → Text → ℕ → GoError
salt_exists employee section version =
    errorf
      (text
        "keystore: salt already exists for %s/%s v%d — a record's salt is generated once, not rotated in place")
      (employee ∷ section ∷ print_int version ∷ [])

abbrev pub salt_missing : Text → Text → ℕ → GoError
salt_missing employee section version =
    errorf (text "keystore: no salt stored for %s/%s v%d")
      (employee ∷ section ∷ print_int version ∷ [])

unfoldable pub put_salt : Entropy → Text → Text → ℕ → Exec Salts Bytes
put_salt entropy employee section version s =
    let key : RecordKey = record {
      employee_id = employee;
      profile_section = section;
      version = version;
    } in
    elim (find_salt key s) [
      | some old ↦ (err (salt_exists employee section version), s)
      | none ↦ elim entropy.secret [
        | err e ↦ (wrapping (text "keystore: generating salt") (err e), s)
        | ok salt ↦ (ok salt, (key, salt) ∷ s)
      ]
    ]

unfoldable pub get_salt : Text → Text → ℕ → Salts → Result Bytes
get_salt employee section version s =
    elim (find_salt
      (record { employee_id = employee; profile_section = section; version = version }) s) [
        | some salt ↦ ok salt
        | none ↦ err (salt_missing employee section version)
      ]

unfoldable pub delete_all_salts_for_employee : Entropy → Text → Exec Salts (Unit {0})
delete_all_salts_for_employee entropy employee s = (ok tt, drop_employee employee s)

-- GetOrCreateDocumentKey and GetOrCreateEmployeeKey, which differ in the text of one error.
get_or_create_with : Text → Entropy → Text → Exec (Map Bytes) Bytes
get_or_create_with failure entropy id s = elim (lookup id s) [
  | some key ↦ (ok key, s)
  | none ↦ elim entropy.secret [
    | err e ↦ (wrapping failure (err e), s)
    | ok key ↦ (ok key, insert id key s)
  ]
]

unfoldable pub get_or_create_document_key : Entropy → Text → Exec (Map Bytes) Bytes
unfolding get_or_create_with
get_or_create_document_key = get_or_create_with (text "keystore: generating KEY_EMPLOYEE")

unfoldable pub delete_document_key : Entropy → Text → Exec (Map Bytes) (Unit {0})
delete_document_key entropy id s = (ok tt, delete id s)

unfoldable pub get_or_create_employee_key : Entropy → Text → Exec (Map Bytes) Bytes
unfolding get_or_create_with
get_or_create_employee_key = get_or_create_with (text "keystore: generating employeeKey_i")

unfoldable pub delete_employee_key : Entropy → Text → Exec (Map Bytes) (Unit {0})
delete_employee_key entropy id s = (ok tt, delete id s)

-- The stores as values of the interfaces.
abbrev pub memory_salts : SaltStore Salts
memory_salts = record {
  put_salt = put_salt;
  get_salt = get_salt;
  delete_all_salts_for_employee = delete_all_salts_for_employee;
}

abbrev pub memory_employee_keys : KeyStore (Map Bytes)
memory_employee_keys = record {
  get_or_create = get_or_create_employee_key;
  delete_key = delete_employee_key;
}

abbrev pub memory_document_keys : KeyStore (Map Bytes)
memory_document_keys = record {
  get_or_create = get_or_create_document_key;
  delete_key = delete_document_key;
}
