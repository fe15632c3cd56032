-- ===== src/Keystore/File.antt =====
-- filestore.go: the stores kept in one encrypted file each. AES-GCM, gob and the file system are
-- code outside the repository, the fields of `Crypto` and `Os`.
pub mod SaltKey
pub mod Disk
pub mod Refinement
pub mod Histories
use fabric_hris.Prelude.{
  ℕ, Text, text, Bytes, ◌+◌, has_prefix, nat_eq, Bool, Option, none, some, List, [], ◌∷◌, ◌++◌,
  length, take, drop, ltb, is_empty, if◌then◌else◌,
}
use fabric_hris.Prelude.Maps.{Map, lookup, insert, delete, delete_where}
use fabric_hris.Errors.{GoError, Result, ok, err, errorf, context, wrapping}
use fabric_hris.Errors
use fabric_hris.Exec.{Exec, done, fail, lift, wrapping_exec, ◌>>=◌, ◌>>◌}
use fabric_hris.Keystore.Decimal.{print_int}
use fabric_hris.Keystore.Interface.{Entropy, SaltStore, KeyStore}
use fabric_hris.Keystore.Memory.{salt_exists, salt_missing}

pub record Crypto : Type 0 where
  -- aes.NewCipher(key), cipher.NewGCM(block) with its NonceSize()
  pub new_cipher : Bytes → Result (Unit {0})
  pub new_gcm : Bytes → Result ℕ
  -- gcm.Seal(nil, nonce, plaintext, nil), gcm.Open(nil, nonce, ciphertext, nil)
  pub seal : Bytes → Bytes → Bytes → Bytes
  pub open_sealed : Bytes → Bytes → Bytes → Result Bytes
  -- encoding/gob at map[string][]byte
  pub encode : Map Bytes → Result Bytes
  pub decode : Bytes → Result (Map Bytes)

-- The files by path.
abbrev pub Disk : Type 0
Disk = Map Bytes

-- What can go wrong with the file system in one call: an error by path. A failed write leaves
-- some bytes in the file that it wrote to.
pub record Os : Type 0 where
  pub read_error : Text → Option GoError
  pub write_error : Text → Option (GoError × Bytes)
  pub rename_error : Text → Text → Option GoError

pub record FileStore : Type 0 where
  pub path : Text
  pub key : Bytes

unfoldable pub new_file_store : Text → Bytes → Result FileStore
new_file_store path key =
    if nat_eq (length key) 32
    then ok (record { path = path; key = key })
    else err (
        errorf (text "keystore: encryption key must be exactly 32 bytes (AES-256), got %d")
          (print_int (length key) ∷ []))

module _ (c : Crypto) (os : Os) where
  -- Decrypts what was read: nonce, then ciphertext.
  unfoldable pub open_file : FileStore → Bytes → Result (Map Bytes)
  open_file f raw =
      Errors.◌>>=◌ (wrapping (text "keystore: constructing cipher") (c.new_cipher f.key)) λ _.
        Errors.◌>>=◌ (wrapping (text "keystore: constructing GCM") (c.new_gcm f.key)) λ nonce_size.
          if ltb (length raw) nonce_size
          then err (errorf (text "keystore: %s is corrupt (shorter than one nonce)") (f.path ∷ []))
          else Errors.◌>>=◌
              (wrapping
                (text "keystore: decrypting %s (wrong key, or the file is corrupt/tampered)")
                (c.open_sealed f.key (take nonce_size raw) (drop nonce_size raw)))
              (λ plaintext. wrapping (text "keystore: decoding %s") (c.decode plaintext))

  -- A missing or empty file is an empty store.
  unfoldable pub load : FileStore → Disk → Result (Map Bytes)
  load f disk = elim (os.read_error f.path) [
    | some e ↦ err (context (text "keystore: reading %s") (f.path ∷ []) e)
    | none ↦ elim (lookup f.path disk) [
      | none ↦ ok []
      | some raw ↦ if is_empty raw then ok [] else open_file f raw
    ]
  ]

  abbrev temporary : FileStore → Text
  temporary f = f.path ++ text ".tmp"

  -- os.WriteFile(path, content)
  unfoldable pub write_file : Text → Bytes → Exec Disk (Unit {0})
  write_file path content disk = elim (os.write_error path) [
    | none ↦ (ok tt, insert path content disk)
    | some (e, partly) ↦
        (err (context (text "keystore: writing %s") (path ∷ []) e), insert path partly disk)
  ]

  -- os.Rename(from, to), of a file that is there
  unfoldable pub rename_file : Text → Text → Exec Disk (Unit {0})
  rename_file from to disk = elim (os.rename_error from to) [
    | some e ↦ (err (context (text "keystore: renaming %s to %s") (from ∷ to ∷ []) e), disk)
    | none ↦ elim (lookup from disk) [
      | none ↦
          (err (errorf (text "keystore: renaming %s to %s: no such file") (from ∷ to ∷ [])), disk)
      | some content ↦ (ok tt, insert to content (delete from disk))
    ]
  ]

  -- What is written: the nonce, then the ciphertext.
  unfoldable pub seal_file : FileStore → Result Bytes → Map Bytes → Result Bytes
  seal_file f nonce entries =
      Errors.◌>>=◌ (wrapping (text "keystore: encoding") (c.encode entries)) λ plaintext.
        Errors.◌>>=◌ (wrapping (text "keystore: constructing cipher") (c.new_cipher f.key)) λ _.
          Errors.◌>>=◌ (wrapping (text "keystore: constructing GCM") (c.new_gcm f.key)) λ _.
            Errors.◌>>=◌ (wrapping (text "keystore: generating nonce") nonce)
              (λ n. ok (n ++ c.seal f.key n plaintext))

  unfoldable pub save : FileStore → Result Bytes → Map Bytes → Exec Disk (Unit {0})
  save f nonce entries = do
    content ← lift (seal_file f nonce entries)
    write_file (temporary f) content
    rename_file (temporary f) f.path

  -- GetOrCreateEmployeeKey and GetOrCreateDocumentKey, after the file was read.
  create_in : FileStore → Text → Entropy → Text → Map Bytes → Exec Disk Bytes
  create_in f failure entropy id entries = elim (lookup id entries) [
    | some key ↦ done key
    | none ↦ do
      key ← lift (wrapping failure entropy.secret)
      save f entropy.nonce (insert id key entries)
      done key
  ]

  file_get_or_create : FileStore → Text → Entropy → Text → Exec Disk Bytes
  unfolding create_in
  file_get_or_create f failure entropy id disk =
      (do entries ← lift (load f disk); create_in f failure entropy id entries) disk

  file_delete_key : FileStore → Entropy → Text → Exec Disk (Unit {0})
  file_delete_key f entropy id disk =
      (do entries ← lift (load f disk); save f entropy.nonce (delete id entries)) disk

  unfoldable pub file_get_or_create_employee_key : FileStore → Entropy → Text → Exec Disk Bytes
  unfolding file_get_or_create
  file_get_or_create_employee_key f =
      file_get_or_create f (text "keystore: generating employeeKey_i")

  unfoldable pub file_delete_employee_key : FileStore → Entropy → Text → Exec Disk (Unit {0})
  unfolding file_delete_key
  file_delete_employee_key f = file_delete_key f

  unfoldable pub file_get_or_create_document_key : FileStore → Entropy → Text → Exec Disk Bytes
  unfolding file_get_or_create
  file_get_or_create_document_key f =
      file_get_or_create f (text "keystore: generating KEY_EMPLOYEE")

  unfoldable pub file_delete_document_key : FileStore → Entropy → Text → Exec Disk (Unit {0})
  unfolding file_delete_key
  file_delete_document_key f = file_delete_key f

-- fmt.Sprintf("%s\x00%s\x00%d", ...)
unfoldable pub salt_file_key : Text → Text → ℕ → Text
salt_file_key employee section version = employee ++ (0 ∷ (section ++ (0 ∷ print_int version)))

module _ (c : Crypto) (os : Os) where
  unfoldable pub file_put_salt : FileStore → Entropy → Text → Text → ℕ → Exec Disk Bytes
  file_put_salt f entropy employee section version disk =
      (do
        entries ← lift (load c os f disk)
        elim (lookup (salt_file_key employee section version) entries) [
          | some old ↦ fail (salt_exists employee section version)
          | none ↦ do
            salt ← lift (wrapping (text "keystore: generating salt") entropy.secret)
            save c os f entropy.nonce (insert (salt_file_key employee section version) salt entries)
            done salt
        ])
        disk

  unfoldable pub file_get_salt : FileStore → Text → Text → ℕ → Disk → Result Bytes
  file_get_salt f employee section version disk = Errors.◌>>=◌ (load c os f disk) λ entries.
      elim (lookup (salt_file_key employee section version) entries) [
        | some salt ↦ ok salt
        | none ↦ err (salt_missing employee section version)
      ]

  unfoldable pub file_delete_all_salts_for_employee :
      FileStore → Entropy → Text → Exec Disk (Unit {0})
  file_delete_all_salts_for_employee f entropy employee disk =
      (do
        entries ← lift (load c os f disk)
        save c os f entropy.nonce
            (delete_where (λ key. has_prefix key (employee ++ (0 ∷ []))) entries))
        disk

  -- The file stores as values of the interfaces.
  abbrev pub file_salts : FileStore → SaltStore Disk
  file_salts f = record {
    put_salt = file_put_salt f;
    get_salt = file_get_salt f;
    delete_all_salts_for_employee = file_delete_all_salts_for_employee f;
  }

  abbrev pub file_employee_keys : FileStore → KeyStore Disk
  file_employee_keys f = record {
    get_or_create = file_get_or_create_employee_key c os f;
    delete_key = file_delete_employee_key c os f;
  }

  abbrev pub file_document_keys : FileStore → KeyStore Disk
  file_document_keys f = record {
    get_or_create = file_get_or_create_document_key c os f;
    delete_key = file_delete_document_key c os f;
  }
