-- ===== src/Keystore/File/Histories.antt =====
-- filestore.go: the salts of a file after any sequence of writes and deletions.
use fabric_hris.Prelude.{ℕ, Text, Bytes, ◌≡◌, refl, List, [], ◌∷◌, All}
use fabric_hris.Prelude.Maps.{lookup}
use fabric_hris.Errors.{Result, ok}
use fabric_hris.Keystore.Memory.{
  Salts, find_salt, put_salt, get_salt, delete_all_salts_for_employee,
}
use fabric_hris.Keystore.File.{
  Crypto, Disk, Os, FileStore, load, file_put_salt, file_get_salt,
  file_delete_all_salts_for_employee,
}
use fabric_hris.Keystore.File.SaltKey.{NoNul}
use fabric_hris.Keystore.File.Disk.{IsSound, IsHealthy}
use fabric_hris.Keystore.File.Refinement.{
  IsProper, Holds, file_get_salt-refines, file_put_salt-refines, file_delete_all_salts-refines,
}

-- A call that changes the salts, with what it draws: the file's nonce and the salt.
pub data Change : Type 0 where
  puts : Bytes → Result Bytes → Text → Text → ℕ → Change
  deletes : Bytes → Result Bytes → Text → Change

-- The salts in memory after the changes, the first one first.
unfoldable pub memory_after : List Change → Salts → Salts
memory_after [] m = m
memory_after (puts nonce secret employee section version ∷ changes) m =
    memory_after changes
      (put_salt (record { secret = secret; nonce = ok nonce }) employee section version m).1
memory_after (deletes nonce secret employee ∷ changes) m =
    memory_after changes
      (delete_all_salts_for_employee (record { secret = secret; nonce = ok nonce }) employee m).1

module _ (c : Crypto) (os : Os) (f : FileStore) where
  unfoldable pub file_after : List Change → Disk → Disk
  file_after [] disk = disk
  file_after (puts nonce secret employee section version ∷ changes) disk =
      file_after changes
        (file_put_salt c os f (record { secret = secret; nonce = ok nonce }) employee section
          version disk).1
  file_after (deletes nonce secret employee ∷ changes) disk =
      file_after changes
        (file_delete_all_salts_for_employee c os f (record { secret = secret; nonce = ok nonce })
          employee disk).1

  -- Encryption and encoding work with the drawn nonce, and the identifiers are the program's.
  abbrev pub IsAllowed : Change → Type 0
  IsAllowed (puts nonce secret employee section version) =
      IsSound c f nonce × IsProper employee section version
  IsAllowed (deletes nonce secret employee) = IsSound c f nonce × NoNul employee

  file_after-Holds :
      (changes : List Change) (disk : Disk) (m : Salts)
      → IsHealthy os
      → All IsAllowed changes
      → Holds c os f disk m
      → Holds c os f (file_after changes disk) (memory_after changes m)
  unfolding file_after memory_after
  file_after-Holds [] disk m healthy allowed held = held
  file_after-Holds (puts nonce secret employee section version ∷ changes) disk m healthy
        ((sound, proper), allowed) held =
      file_after-Holds changes _ _ healthy allowed
        (file_put_salt-refines c os f nonce secret employee section version disk m sound healthy
          proper held).1
  file_after-Holds (deletes nonce secret employee ∷ changes) disk m healthy
        ((sound, text_only), allowed) held =
      file_after-Holds changes _ _ healthy allowed
        (file_delete_all_salts-refines c os f nonce secret employee disk m sound healthy text_only
          held).1

  -- Where encryption, encoding and the file system do not fail, for identifiers without NUL and
  -- versions of a Go int: after any sequence of PutSalt and DeleteAllSaltsForEmployee from a file
  -- without salts, GetSalt answers as it does after the same sequence on the in-memory store.
  pub file_get_salt-file_after :
      (changes : List Change) (disk : Disk) (employee section : Text) (version : ℕ)
      → IsHealthy os
      → All IsAllowed changes
      → load c os f disk ≡ ok []
      → IsProper employee section version
      → file_get_salt c os f employee section version (file_after changes disk)
        ≡ get_salt employee section version (memory_after changes [])
  unfolding lookup find_salt
  file_get_salt-file_after changes disk employee section version healthy allowed empty proper =
      file_get_salt-refines c os f employee section version (file_after changes disk)
        (memory_after changes []) proper
        (file_after-Holds changes disk [] healthy allowed ([], empty, λ e s v p. refl))
