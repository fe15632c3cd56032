-- ===== src/Keystore/Interface.antt =====
-- keystore.go: the interfaces of the stores, and their sizes. What crypto/rand returns is an
-- argument of the operation that draws it.
use fabric_hris.Prelude.{ℕ, Text, Bytes}
use fabric_hris.Errors.{Result}
use fabric_hris.Exec.{Exec}

abbrev pub min_salt_bytes : ℕ
min_salt_bytes = 16

abbrev pub min_key_bytes : ℕ
min_key_bytes = 16

-- What one call draws from crypto/rand: the secret, and the nonce if the store encrypts.
pub record Entropy : Type 0 where
  pub secret : Result Bytes
  pub nonce : Result Bytes

pub record SaltStore (S : Type 0) : Type 0 where
  pub put_salt : Entropy → Text → Text → ℕ → Exec S Bytes
  pub get_salt : Text → Text → ℕ → S → Result Bytes
  pub delete_all_salts_for_employee : Entropy → Text → Exec S (Unit {0})

-- EmployeeKeyStore and DocumentKeyStore have the same two operations.
pub record KeyStore (S : Type 0) : Type 0 where
  pub get_or_create : Entropy → Text → Exec S Bytes
  pub delete_key : Entropy → Text → Exec S (Unit {0})
