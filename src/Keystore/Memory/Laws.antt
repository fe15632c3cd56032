-- ===== src/Keystore/Memory/Laws.antt =====
-- What the in-memory stores promise.
use fabric_hris.Prelude.{
  ℕ, Text, Bytes, ◌==◌, eq_iff, eq_refl, ◌≡◌, ◌≢◌, ◌↔◌, refl, true, none, some, [], ◌∷◌, arith,
  if◌then◌else◌,
}
use fabric_hris.Prelude.Maps.{Map, lookup, lookup-insert, lookup-delete}
use fabric_hris.Errors.{ok, err}
use fabric_hris.Keystore.Interface.{Entropy}
use fabric_hris.Keystore.Memory.{
  salt_exists, RecordKey, same_key, Salts, find_salt, drop_employee, put_salt, get_salt,
  delete_all_salts_for_employee, get_or_create_employee_key, delete_employee_key,
}

pub same_key_iff : (j k : RecordKey) → (same_key j k ≡ true) ↔ (j ≡ k)
unfolding same_key
same_key_iff j k =
    ground (arith, eq_iff j.employee_id k.employee_id, eq_iff j.profile_section k.profile_section)

pub find_salt-drop_employee :
    (employee : Text) (k : RecordKey) (s : Salts)
    → find_salt k (drop_employee employee s)
      ≡ (if k.employee_id == employee then none else find_salt k s)
unfolding find_salt drop_employee
find_salt-drop_employee employee k [] = ground arith
find_salt-drop_employee employee k ((j, salt) ∷ s) =
    ground (arith, find_salt-drop_employee employee k s, same_key_iff j k)

abbrev pub key_of : Text → Text → ℕ → RecordKey
key_of employee section version = record {
  employee_id = employee;
  profile_section = section;
  version = version;
}

pub put_salt-ok :
    (entropy : Entropy) (employee section : Text) (version : ℕ) (salt : Bytes) (s s' : Salts)
    → put_salt entropy employee section version s ≡ (ok salt, s')
    → (find_salt (key_of employee section version) s ≡ none)
      × (s' ≡ (key_of employee section version, salt) ∷ s)
      × (entropy.secret ≡ ok salt)
unfolding put_salt
put_salt-ok entropy employee section version salt s s' h = ground arith

pub find_salt-cons :
    (j k : RecordKey) (salt : Bytes) (s : Salts)
    → find_salt k ((j, salt) ∷ s) ≡ (if same_key j k then some salt else find_salt k s)
unfolding find_salt
find_salt-cons j k salt s = refl

pub find_salt_self :
    (k : RecordKey) (salt : Bytes) (s : Salts) → find_salt k ((k, salt) ∷ s) ≡ some salt
find_salt_self k salt s = rw (find_salt-cons, (same_key_iff k k).1 refl)

find_salt-other :
    (j k : RecordKey) (salt : Bytes) (s : Salts)
    → k ≢ j
    → find_salt k ((j, salt) ∷ s) ≡ find_salt k s
find_salt-other j k salt s other = ground (arith, find_salt-cons j k salt s, same_key_iff j k)

put_salt-exists :
    (entropy : Entropy) (employee section : Text) (version : ℕ) (salt : Bytes) (s : Salts)
    → find_salt (key_of employee section version) s ≡ some salt
    → put_salt entropy employee section version s ≡ (err (salt_exists employee section version), s)
unfolding put_salt
put_salt-exists entropy employee section version salt s h = ground arith

-- GetSalt reads one record version.
pub get_salt_of_find :
    (employee section : Text) (version : ℕ) (salt : Bytes) (s : Salts)
    → find_salt (key_of employee section version) s ≡ some salt
    → get_salt employee section version s ≡ ok salt
unfolding get_salt
get_salt_of_find employee section version salt s h = ground arith

get_salt-cong :
    (employee section : Text) (version : ℕ) (s s' : Salts)
    → find_salt (key_of employee section version) s ≡ find_salt (key_of employee section version) s'
    → get_salt employee section version s ≡ get_salt employee section version s'
unfolding get_salt
get_salt-cong employee section version s s' h = ground arith

-- PutSalt succeeds once for a record version: what it returned is what GetSalt finds, a second
-- PutSalt for that version fails and changes nothing, and every other record version is left.
pub get-put_salt :
    (entropy : Entropy) (employee section : Text) (version : ℕ) (salt : Bytes) (s s' : Salts)
    → put_salt entropy employee section version s ≡ (ok salt, s')
    → (get_salt employee section version s' ≡ ok salt)
      × ((k : RecordKey)
          → find_salt k s'
            ≡ (if same_key (key_of employee section version) k then some salt else find_salt k s))
      × ((again : Entropy)
          → put_salt again employee section version s'
            ≡ (err (salt_exists employee section version), s'))
get-put_salt entropy employee section version salt s s' h =
    let key = key_of employee section version in
    let (fresh, grown, drawn) = put_salt-ok entropy employee section version salt s s' h in
    let found : find_salt key s' ≡ some salt = rw grown (find_salt_self key salt s) in
    (
      get_salt_of_find employee section version salt s' found,
      λ k. rw grown (find_salt-cons key k salt s),
      λ again. put_salt-exists again employee section version salt s' found,
    )

-- DeleteAllSaltsForEmployee succeeds, and then no salt of the employee is found, in any section and
-- version, and every other employee's salts are as before.
pub find-delete_all_salts :
    (entropy : Entropy) (employee other section : Text) (version : ℕ) (s : Salts)
    → ((delete_all_salts_for_employee entropy employee s).0 ≡ ok tt)
      × (find_salt
            (key_of other section version)
            (delete_all_salts_for_employee entropy employee s).1
          ≡ (if other == employee then none else find_salt (key_of other section version) s))
unfolding delete_all_salts_for_employee
find-delete_all_salts entropy employee other section version s =
    (refl, find_salt-drop_employee employee (key_of other section version) s)

found_after :
    (entropy : Entropy) (id : Text) (key : Bytes) (s s' : Map Bytes)
    → get_or_create_employee_key entropy id s ≡ (ok key, s')
    → lookup id s' ≡ some key
unfolding get_or_create_employee_key
found_after entropy id key s s' h = ground (arith, lookup-insert id id key s, eq_refl id)

bound_after :
    (entropy : Entropy) (id : Text) (key : Bytes) (s s' : Map Bytes)
    → get_or_create_employee_key entropy id s ≡ (ok key, s')
    → (other : Text) → lookup other s' ≡ (if id == other then some key else lookup other s)
unfolding get_or_create_employee_key
bound_after entropy id key s s' h other =
    ground (arith, lookup-insert id other key s, eq_iff id other)

-- A key that a call returned is what the next call returns, whatever is drawn, and the call changes
-- nothing; deleting it removes it; and the first call left every other key as it was.
pub get_or_create-twice :
    (entropy again : Entropy) (id : Text) (key : Bytes) (s s' : Map Bytes)
    → get_or_create_employee_key entropy id s ≡ (ok key, s')
    → (get_or_create_employee_key again id s' ≡ (ok key, s'))
      × (lookup id (delete_employee_key again id s').1 ≡ none)
      × ((other : Text) → lookup other s' ≡ (if id == other then some key else lookup other s))
unfolding get_or_create_employee_key delete_employee_key
get_or_create-twice entropy again id key s s' h =
    let found : lookup id s' ≡ some key = found_after entropy id key s s' h in
    (ground arith, rw (lookup-delete, eq_refl), bound_after entropy id key s s' h)
