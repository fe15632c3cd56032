-- ===== src/Keystore/File/Refinement.antt =====
-- The file stores do what the in-memory stores do.
use fabric_hris.Prelude.{
  ℕ, Text, text, Bytes, ◌==◌, eq_iff, ◌≡◌, refl, sym, ◌∙◌, ap, ◌<◌, ◌^◌, has_prefix, Bool-cases,
  Option-cases, [], ◌∷◌, ◌++◌, arith, inl, inr,
}
use fabric_hris.Prelude.Maps.{Map, lookup, insert, delete_where, lookup-insert, lookup-delete_where}
use fabric_hris.Errors.{Result, ok, err, Result-cases, wrapping}
use fabric_hris.Keystore.Interface.{Entropy}
use fabric_hris.Keystore.Memory.{
  RecordKey, same_key, Salts, find_salt, drop_employee, put_salt, get_salt,
  delete_all_salts_for_employee, salt_exists,
}
use fabric_hris.Keystore.Memory.Laws.{key_of, same_key_iff, find_salt-cons, find_salt-drop_employee}
use fabric_hris.Keystore.File.{
  Crypto, Disk, Os, FileStore, load, salt_file_key, file_put_salt, file_get_salt,
  file_delete_all_salts_for_employee,
}
use fabric_hris.Keystore.File.SaltKey.{NoNul, salt_file_key-injective, has_prefix-salt_file_key}
use fabric_hris.Keystore.File.Disk.{IsSound, IsHealthy, load-save, save_healthy}

-- The record versions that the program has: identifiers without NUL, versions of a Go int.
pub record IsProper (employee section : Text) (version : ℕ) : Type 0 where
  pub employee_text : NoNul employee
  pub section_text : NoNul section
  pub in_range : version < 2 ^ 64

-- Entries of a salt file and an in-memory store with the same salts.
abbrev pub SameSalts : Map Bytes → Salts → Type 0
SameSalts entries s =
    (employee section : Text) (version : ℕ)
    → IsProper employee section version
    → lookup (salt_file_key employee section version) entries
      ≡ find_salt (key_of employee section version) s

salt_file_key-same_key :
    (e s e' s' : Text) (v v' : ℕ)
    → IsProper e s v
    → IsProper e' s' v'
    → (salt_file_key e s v == salt_file_key e' s' v') ≡ same_key (key_of e s v) (key_of e' s' v')
salt_file_key-same_key e s e' s' v v' p p' =
    elim (Bool-cases (salt_file_key e s v == salt_file_key e' s' v')) [
      | inl hit ↦
          let (f, g, h) =
            salt_file_key-injective e s e' s' v v' p.employee_text p.section_text p'.employee_text
              p'.section_text p.in_range p'.in_range ((eq_iff _ _).0 hit) in
          hit ∙ sym ((same_key_iff (key_of e s v) (key_of e' s' v')).1 (cc))
      | inr miss ↦ elim (Bool-cases (same_key (key_of e s v) (key_of e' s' v'))) [
        | inr differ ↦ miss ∙ sym differ
        | inl same ↦
            let q = (same_key_iff (key_of e s v) (key_of e' s' v')).0 same in
            let k : salt_file_key e s v ≡ salt_file_key e' s' v' =
              ap (λ (r : RecordKey). salt_file_key r.employee_id r.profile_section r.version) q in
            absurd
              (ground (arith, miss, (eq_iff (salt_file_key e s v) (salt_file_key e' s' v')).1 k))
      ]
    ]

SameSalts-insert :
    (e s : Text) (v : ℕ) (salt : Bytes) (entries : Map Bytes) (m : Salts)
    → IsProper e s v
    → SameSalts entries m
    → SameSalts (insert (salt_file_key e s v) salt entries) ((key_of e s v, salt) ∷ m)
SameSalts-insert e s v salt entries m p same e' s' v' p' = ground (
  arith,
  lookup-insert (salt_file_key e s v) (salt_file_key e' s' v') salt entries,
  find_salt-cons (key_of e s v) (key_of e' s' v') salt m,
  salt_file_key-same_key e s e' s' v v' p p',
  same e' s' v' p',
)

SameSalts-delete :
    (employee : Text) (entries : Map Bytes) (m : Salts)
    → NoNul employee
    → SameSalts entries m
    → SameSalts
        (delete_where (λ key. has_prefix key (employee ++ (0 ∷ []))) entries)
        (drop_employee employee m)
SameSalts-delete employee entries m h same e s v p = ground (
  arith,
  lookup-delete_where (λ key. has_prefix key (employee ++ (0 ∷ []))) (salt_file_key e s v) entries,
  find_salt-drop_employee employee (key_of e s v) m,
  has_prefix-salt_file_key employee e s v h p.employee_text,
  same e s v p,
)

module _ (c : Crypto) (os : Os) (f : FileStore) where
  -- The file holds the salts of the in-memory store.
  abbrev pub Holds : Disk → Salts → Type 0
  Holds disk m = (entries : Map Bytes) × (load c os f disk ≡ ok entries) × SameSalts entries m

  -- For identifiers without NUL and a version of a Go int: GetSalt from a file that holds the salts
  -- of an in-memory store answers as GetSalt from that store.
  pub file_get_salt-refines :
      (employee section : Text) (version : ℕ) (disk : Disk) (m : Salts)
      → IsProper employee section version
      → Holds disk m
      → file_get_salt c os f employee section version disk ≡ get_salt employee section version m
  unfolding file_get_salt get_salt
  file_get_salt-refines employee section version disk m p (entries, loaded, same) =
      ground (arith, same employee section version p)

  -- Two runs with one answer, whose final states hold the same salts.
  abbrev pub Agree : Result Bytes × Disk → Result Bytes × Salts → Type 0
  Agree x y = (x.0 ≡ y.0) × Holds x.1 y.1

  agree :
      {x : Result Bytes × Disk} {y : Result Bytes × Salts} (r : Result Bytes) (disk : Disk)
      (m : Salts)
      → x ≡ (r, disk)
      → y ≡ (r, m)
      → Holds disk m
      → Agree x y
  agree r disk m e g h = rw (e, g) (refl, h)

  -- Where encryption, encoding and the file system do not fail, for identifiers without NUL and a
  -- version of a Go int: PutSalt into a file that holds the salts of an in-memory store answers as
  -- PutSalt into that store, a failing random draw included, and the file again holds the salts.
  pub file_put_salt-refines :
      (nonce : Bytes) (secret : Result Bytes) (employee section : Text) (version : ℕ) (disk : Disk)
      (m : Salts)
      → IsSound c f nonce
      → IsHealthy os
      → IsProper employee section version
      → Holds disk m
      → let entropy : Entropy = record { secret = secret; nonce = ok nonce } in
        Agree
          (file_put_salt c os f entropy employee section version disk)
          (put_salt entropy employee section version m)
  unfolding file_put_salt put_salt
  file_put_salt-refines nonce secret employee section version disk m sound healthy p
        (entries, loaded, same) =
      let here = same employee section version p in
      elim (Option-cases (find_salt (key_of employee section version) m)) [
        | inr (old, there) ↦
            agree (err (salt_exists employee section version)) disk m (ground arith) (ground arith)
              (entries, loaded, same)
        | inl absent ↦ elim (Result-cases secret) [
          | inr (e, broken) ↦
              agree (wrapping (text "keystore: generating salt") (err e)) disk m (ground arith)
                (ground arith) (entries, loaded, same)
          | inl (salt, drawn) ↦
              let grown : Map Bytes =
                insert (salt_file_key employee section version) salt entries in
              let (disk', saved) = save_healthy c os f nonce grown disk sound healthy in
              let reloaded =
                load-save c os f nonce grown disk disk' sound (healthy.reads f.path) saved in
              agree (ok salt) disk' ((key_of employee section version, salt) ∷ m) (ground arith)
                (ground arith)
                (grown, reloaded, SameSalts-insert employee section version salt entries m p same)
        ]
      ]

  -- Where encryption, encoding and the file system do not fail, for an identifier without NUL:
  -- DeleteAllSaltsForEmployee on a file that holds the salts of an in-memory store succeeds and
  -- deletes what it deletes in memory.
  pub file_delete_all_salts-refines :
      (nonce : Bytes) (secret : Result Bytes) (employee : Text) (disk : Disk) (m : Salts)
      → IsSound c f nonce
      → IsHealthy os
      → NoNul employee
      → Holds disk m
      → let entropy : Entropy = record { secret = secret; nonce = ok nonce } in
        ((file_delete_all_salts_for_employee c os f entropy employee disk).0 ≡ ok tt)
        × Holds
            (file_delete_all_salts_for_employee c os f entropy employee disk).1
            (delete_all_salts_for_employee entropy employee m).1
  unfolding file_delete_all_salts_for_employee delete_all_salts_for_employee
  file_delete_all_salts-refines nonce secret employee disk m sound healthy h
        (entries, loaded, same) =
      let remaining : Map Bytes =
        delete_where (λ key. has_prefix key (employee ++ (0 ∷ []))) entries in
      let (disk', saved) = save_healthy c os f nonce remaining disk sound healthy in
      let reloaded =
        load-save c os f nonce remaining disk disk' sound (healthy.reads f.path) saved in
      rw (loaded, saved) (refl, (remaining, reloaded, SameSalts-delete employee entries m h same))
