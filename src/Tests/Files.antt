-- ===== src/Tests/Files.antt =====
-- The file stores (write-path-integration/keystore/filestore.go) with a small codec.
use fabric_hris.Prelude.{
  ◌==◌, sym, zero, suc, text, Bytes, ◌≡◌, refl, ap, ◌∙◌, none, List, [], ◌∷◌, ◌++◌, arith,
}
use mathlib.Core.List.{append-nil}
use fabric_hris.Prelude.Maps.{Map, lookup, insert, delete}
use fabric_hris.Errors.{GoError, Result, ok, err, external, context}
use fabric_hris.Keystore.Interface.{Entropy}
use fabric_hris.Keystore.Memory.{find_salt, put_salt, get_salt, delete_all_salts_for_employee}
use fabric_hris.Prelude.{some, ◌==◌}
use fabric_hris.Keystore.File.{Disk, save, write_file, rename_file, seal_file}
use fabric_hris.Keystore.File.{
  Crypto, Os, FileStore, load, file_put_salt, file_get_salt, file_delete_all_salts_for_employee,
}
use fabric_hris.Keystore.File.SaltKey.{NoNul}
use fabric_hris.Keystore.File.Disk.{save-error, IsSound, IsHealthy}
use fabric_hris.Keystore.File.Histories.{
  Change, puts, deletes, memory_after, file_after, file_get_salt-file_after,
}
use fabric_hris.Keystore.File.Refinement.{
  IsProper, Holds, Agree, file_put_salt-refines, file_delete_all_salts-refines,
}

-- Each byte is written two higher; 0 stands before a key and 1 before its value.
raise : Bytes → Bytes → Bytes
raise [] rest = rest
raise (x ∷ xs) rest = suc (suc x) ∷ raise xs rest

encode : Map Bytes → Bytes
unfolding raise
encode [] = []
encode ((k, v) ∷ m) = 0 ∷ raise k (1 ∷ raise v (encode m))

-- What stands before the first mark, the value behind it, and the entries.
split : Bytes → Bytes × Bytes × Map Bytes
split [] = ([], [], [])
split (zero ∷ rest) = let (k, v, m) = split rest in ([], [], (k, v) ∷ m)
split (suc zero ∷ rest) = let (v, w, m) = split rest in ([], v, m)
split (suc (suc x) ∷ rest) = let (xs, v, m) = split rest in (x ∷ xs, v, m)

split-raise :
    (xs rest : Bytes)
    → split (raise xs rest) ≡ (xs ++ (split rest).0, (split rest).1, (split rest).2)
unfolding split raise
split-raise [] rest = refl
split-raise (x ∷ xs) rest = ap (λ s. (x ∷ s.0, s.1, s.2)) (split-raise xs rest)

split-encode : (m : Map Bytes) → split (encode m) ≡ ([], [], m)
unfolding split encode
split-encode [] = refl
split-encode ((k, v) ∷ m) =
    let inner : split (raise v (encode m)) ≡ (v, [], m) =
      split-raise v (encode m)
      ∙ ap (λ s. (v ++ s.0, s.1, s.2)) (split-encode m)
      ∙ ap (λ x. (x, [], m)) (append-nil v) in
    let outer : split (raise k (1 ∷ raise v (encode m))) ≡ (k, v, m) =
      split-raise k (1 ∷ raise v (encode m))
      ∙ ap (λ s. (k ++ [], s.0, s.2)) inner
      ∙ ap (λ x. (x, v, m)) (append-nil k) in
    ap (λ s. ([], [], (s.0, s.1) ∷ s.2)) outer

abbrev crypto : Crypto
crypto = record {
  new_cipher = λ key. ok tt;
  new_gcm = λ key. ok 1;
  seal = λ key nonce plaintext. plaintext;
  open_sealed = λ key nonce ciphertext. ok ciphertext;
  encode = λ m. ok (encode m);
  decode = λ b. ok (split b).2;
}

abbrev os : Os
os = record {
  read_error = λ path. none;
  write_error = λ path. none;
  rename_error = λ from to. none;
}

abbrev file : FileStore
file = record { path = text "salts.enc"; key = [] }

ok-injective : (a b : Bytes) → Result.ok a ≡ ok b → a ≡ b
ok-injective a b e = ground arith

decoded_of_encoded : (m : Map Bytes) (b : Bytes) → crypto.encode m ≡ ok b → crypto.decode b ≡ ok m
decoded_of_encoded m b e =
    ap (λ x. crypto.decode x) (sym (ok-injective (encode m) b e))
    ∙ ap (λ s. ok s.2) (split-encode m)

is_sound : IsSound crypto file (7 ∷ [])
is_sound = record {
  cipher = refl;
  gcm = refl;
  filled = omega arith;
  open_seal = λ plaintext. refl;
  decode_encode = decoded_of_encoded;
  encodes = λ m. (encode m, refl);
}

is_healthy : IsHealthy os
is_healthy = record { reads = λ path. refl; writes = λ path. refl; renames = λ from to. refl }

proper : IsProper (text "e") (text "p") 1
unfolding text
proper = record {
  employee_text = (omega arith, tt);
  section_text = (omega arith, tt);
  in_range = omega arith;
}

holds : Holds crypto os file [] []
unfolding load lookup find_salt
holds = ([], refl, λ employee section version p. refl)

abbrev drawn : Entropy
drawn = record { secret = ok (text "s"); nonce = ok (7 ∷ []) }

file_put_salt-refines_example :
    Agree crypto os file
      (file_put_salt crypto os file drawn (text "e") (text "p") 1 [])
      (put_salt drawn (text "e") (text "p") 1 [])
file_put_salt-refines_example =
    file_put_salt-refines crypto os file (7 ∷ []) (ok (text "s")) (text "e") (text "p") 1 [] []
      is_sound is_healthy proper holds

salts_empty : load crypto os file [] ≡ ok []
unfolding load lookup
salts_empty = refl

-- Two writes and the deletion of the salts of one employee between them.
abbrev changes : List Change
changes =
    puts (7 ∷ []) (ok (text "s")) (text "e") (text "p") 1
    ∷ deletes (7 ∷ []) (ok []) (text "e")
    ∷ puts (7 ∷ []) (ok (text "t")) (text "e") (text "p") 1
    ∷ []

no_nul : NoNul (text "e")
unfolding text
no_nul = (omega arith, tt)

file_get_salt-file_after_example :
    file_get_salt crypto os file (text "e") (text "p") 1 (file_after crypto os file changes [])
    ≡ get_salt (text "e") (text "p") 1 (memory_after changes [])
file_get_salt-file_after_example =
    file_get_salt-file_after crypto os file changes [] (text "e") (text "p") 1 is_healthy
      ((is_sound, proper), ((is_sound, no_nul), ((is_sound, proper), tt))) salts_empty proper

file_delete_all_salts-refines_example :
    ((file_delete_all_salts_for_employee crypto os file drawn (text "e") []).0 ≡ ok tt)
    × Holds crypto os file
        (file_delete_all_salts_for_employee crypto os file drawn (text "e") []).1
        (delete_all_salts_for_employee drawn (text "e") []).1
file_delete_all_salts-refines_example =
    file_delete_all_salts-refines crypto os file (7 ∷ []) (ok (text "s")) (text "e") [] [] is_sound
      is_healthy no_nul holds

-- A file system on which no rename succeeds.
abbrev stuck : Os
stuck = record os { rename_error = λ from to. some (external (text "busy")) }

abbrev after_failure : Disk
after_failure = (text "salts.enc" ++ text ".tmp", 7 ∷ []) ∷ []

abbrev rename_failure : GoError
rename_failure =
    context (text "keystore: renaming %s to %s")
      ((text "salts.enc" ++ text ".tmp") ∷ text "salts.enc" ∷ []) (external (text "busy"))

failed_save : save crypto stuck file (ok (7 ∷ [])) [] [] ≡ (err rename_failure, after_failure)
unfolding save seal_file write_file rename_file insert encode
failed_save = refl

save-error_example : lookup (text "salts.enc") after_failure ≡ lookup (text "salts.enc") []
save-error_example =
    save-error crypto stuck file (ok (7 ∷ [])) [] rename_failure [] after_failure failed_save

abbrev after_save : Disk
after_save = (text "salts.enc", 7 ∷ []) ∷ []

good_save : save crypto os file (ok (7 ∷ [])) [] [] ≡ (ok tt, after_save)
unfolding save seal_file write_file rename_file lookup insert ◌==◌ text encode delete
good_save = refl
