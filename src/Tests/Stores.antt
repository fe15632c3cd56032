-- ===== src/Tests/Stores.antt =====
-- The key and salt stores (write-path-integration/keystore) with a small codec.
use fabric_hris.Prelude.{
  ℕ, zero, suc, ◌+◌, Text, text, Bytes, ◌==◌, nat_eq, ◌≡◌, ◌↔◌, refl, ap, sym, ◌∙◌, Bool, true,
  false, Option, none, some, List, [], ◌∷◌, ◌++◌, arith, length, if◌then◌else◌,
}
use fabric_hris.Prelude.Maps.{Map, lookup, delete}
use fabric_hris.Errors.{ok}
use fabric_hris.Keystore.Interface.{Entropy}
use fabric_hris.Keystore.Memory.{Salts, find_salt, put_salt, get_salt, get_or_create_employee_key}
use fabric_hris.Keystore.Memory.Laws.{key_of}
use fabric_hris.Keystore.Handoff.{
  SaltHandoff, memory_audit_log, request_salt, request_salt-ok_iff, AuditEntry,
}

abbrev drawn : Entropy
drawn = record { secret = ok (text "s"); nonce = ok (text "n") }

abbrev one_salt : Salts
one_salt = (key_of (text "e") (text "PERSONAL") 1, text "s") ∷ []

put_run : put_salt drawn (text "e") (text "PERSONAL") 1 [] ≡ (ok (text "s"), one_salt)
unfolding put_salt find_salt
put_run = refl

key_run :
    get_or_create_employee_key drawn (text "e") [] ≡ (ok (text "s"), (text "e", text "s") ∷ [])
unfolding get_or_create_employee_key lookup fabric_hris.Prelude.Maps.insert
key_run = refl

abbrev handoff : SaltHandoff (List AuditEntry)
handoff = record {
  authorize = λ requester employee section version. ok (requester == employee);
  get_salt = λ employee section version. get_salt employee section version one_salt;
  audit_log = memory_audit_log;
  error_text = λ e. [];
}

request_salt-ok_iff_example :
    ((request_salt handoff (text "e") (text "e") (text "PERSONAL") 1 []).0 ≡ ok (text "s")) ↔ (
      (handoff.authorize (text "e") (text "e") (text "PERSONAL") 1 ≡ ok true)
      × (handoff.get_salt (text "e") (text "PERSONAL") 1 ≡ ok (text "s")))
request_salt-ok_iff_example =
    request_salt-ok_iff handoff (text "e") (text "e") (text "PERSONAL") 1 (text "s") []
