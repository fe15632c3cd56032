-- ===== src/Tests/Hooks.antt =====
-- The write-path hooks and the erasure (write-path-integration/writepaths) over in-memory stores.
use fabric_hris.Prelude.{
  ℕ, ◌+◌, Text, text, Bytes, ◌==◌, ◌≡◌, ◌⊎◌, refl, false, none, some, List, [], ◌∷◌, ◌++◌, All,
  arith, if◌then◌else◌,
}
use fabric_hris.Prelude.Maps.{Map, lookup, insert, delete}
use fabric_hris.Errors.{GoError, Result, ok, err, context, partial_failure}
use fabric_hris.Keystore.Interface.{Entropy}
use fabric_hris.Keystore.Memory.{
  delete_document_key, delete_all_salts_for_employee, delete_employee_key, drop_employee, Salts,
  find_salt, put_salt, get_salt, get_or_create_employee_key, memory_employee_keys,
}
use fabric_hris.Keystore.Memory.Laws.{key_of}
use fabric_hris.Gateway.Digest.{Hashing, compute_data_hash, compute_employee_id, compute_updated_by}
use fabric_hris.WritePaths.Store.{
  InMemoryOperationalStore, new_in_memory_operational_store, all_profile_sections, has_value,
  memory_save_section, memory_delete_section,
}
use fabric_hris.WritePaths.Hooks.{
  Hooks, MemoryPorts, MemoryWorld, Draws, DocumentPinner, LedgerAnchorer, memory_hooks,
  key_lookup_id, resolve_employee_key, resolve_employee_id, build_args, do_anchor, save_and_anchor,
}
use fabric_hris.WritePaths.Hooks.Outcome.{failed, reported, save_and_anchor-outcome}
use fabric_hris.WritePaths.Hooks.Recompute.{do_anchor-recomputes}
use fabric_hris.WritePaths.Erasure.{erase}
use fabric_hris.WritePaths.Erasure.Complete.{erase_complete, erase-compound_kept}

abbrev pub hashing : Hashing
hashing = record { canonicalize = ok; sha256 = λ b. b; hmac_sha256 = λ k m. k ++ m; hex = λ b. b }

abbrev pub secret : Bytes
secret = text "0123456789abcdef"

abbrev drawn : Entropy
drawn = record { secret = ok secret; nonce = ok [] }

abbrev pub draws : Draws
draws = record { for_key = drawn; for_salt = drawn; for_document_key = drawn; for_pin = drawn }

-- A ledger that counts its submissions and accepts them.
abbrev pub ledger : LedgerAnchorer ℕ
ledger = record {
  submit_record_profile_section = λ tenant employee section build n. (ok (text "r"), n + 1);
}

abbrev pub pinner : DocumentPinner ℕ
pinner = record { encrypt_and_add = λ entropy key document n. (ok (text "cid"), n + 1) }

abbrev pub marshal : List Text → Result Text
marshal ts = ok []

abbrev pub hooks : Hooks InMemoryOperationalStore (Map Bytes) Salts (Map Bytes) ℕ ℕ
hooks = memory_hooks hashing pinner ledger (text "t") marshal

abbrev start : MemoryPorts ℕ ℕ
start = record {
  key_state = [];
  salt_state = [];
  document_key_state = [];
  pin_state = 0;
  ledger_state = 0;
}

abbrev world : MemoryWorld ℕ ℕ
world = record { store_state = new_in_memory_operational_store; ports = start; reports = [] }

abbrev pseudonym : Text
pseudonym = secret ++ text "id"

abbrev anchored : MemoryPorts ℕ ℕ
anchored = record {
  key_state = (text "e", secret) ∷ [];
  salt_state = (key_of pseudonym (text "PERSONAL") 1, secret) ∷ [];
  document_key_state = [];
  pin_state = 0;
  ledger_state = 1;
}

anchor_run :
    do_anchor hooks draws (text "e") (text "u") (text "PERSONAL") [] (text "v") 1 [] start
    ≡ (ok (text "r"), anchored)
unfolding do_anchor resolve_employee_key get_or_create_employee_key lookup compute_employee_id text
    put_salt find_salt compute_data_hash compute_updated_by insert
anchor_run = refl

do_anchor-recomputes_example :
    (employee_id : Text) × (salt : Bytes) × (data_hash : Text) × (updated_by : Text) × (cids : Text)
    × ((again : Entropy)
        → resolve_employee_id hashing memory_employee_keys again (text "e") [] anchored.key_state
          ≡ (ok employee_id, anchored.key_state))
    × (get_salt employee_id (text "PERSONAL") 1 anchored.salt_state ≡ ok salt)
    × (compute_data_hash hashing salt (text "v") ≡ ok data_hash)
    × (ledger.submit_record_profile_section
          (text "t")
          employee_id
          (text "PERSONAL")
          (build_args hooks employee_id (text "PERSONAL") data_hash updated_by cids)
          0
        ≡ (ok (text "r"), 1))
do_anchor-recomputes_example =
    do_anchor-recomputes hashing pinner ledger (text "t") marshal draws (text "e") (text "u")
      (text "PERSONAL") [] (text "v") 1 [] start anchored (text "r") anchor_run

abbrev after : MemoryWorld ℕ ℕ
after = record { store_state = new_in_memory_operational_store; ports = anchored; reports = [] }

key_found : lookup (text "e") anchored.key_state ≡ some secret
unfolding lookup text ◌==◌
key_found = refl

pseudonym_of : compute_employee_id hashing secret ≡ ok pseudonym
unfolding compute_employee_id text
pseudonym_of = refl

erase_complete_example :
    (w' : MemoryWorld ℕ ℕ) × (erase hooks draws (text "e") after ≡ (ok tt, w'))
    × (All (λ section. has_value (text "e") section w'.store_state ≡ false) all_profile_sections)
    × (lookup (text "e") w'.ports.document_key_state ≡ none)
    × ((section : Text) (version : ℕ)
        → find_salt (key_of pseudonym section version) w'.ports.salt_state ≡ none)
    × (lookup (text "e") w'.ports.key_state ≡ none)
    × (w'.ports.ledger_state ≡ 1)
    × (w'.ports.pin_state ≡ 0)
erase_complete_example =
    erase_complete hashing pinner ledger (text "t") marshal draws (text "e") pseudonym secret after
      key_found pseudonym_of

abbrev erased : MemoryWorld ℕ ℕ
erased = record {
  store_state = new_in_memory_operational_store;
  ports = record {
    key_state = [];
    salt_state = [];
    document_key_state = [];
    pin_state = 0;
    ledger_state = 1;
  };
  reports = [];
}

erase_run : erase hooks draws (text "e") after ≡ (ok tt, erased)
unfolding erase memory_delete_section delete_document_key get_or_create_employee_key lookup ◌==◌
    text compute_employee_id delete_all_salts_for_employee delete_employee_key delete drop_employee
erase_run = refl

erase-compound_kept_example :
    (lookup (key_lookup_id (text "e") (text "child")) erased.ports.key_state
      ≡ lookup (key_lookup_id (text "e") (text "child")) anchored.key_state)
    × ((other_id section : Text) (version : ℕ)
        → find_salt (key_of other_id section version) erased.ports.salt_state ≡ (
            if other_id == pseudonym
            then none
            else find_salt (key_of other_id section version) anchored.salt_state))
unfolding text
erase-compound_kept_example =
    erase-compound_kept hashing pinner ledger (text "t") marshal draws (text "e") pseudonym
      (text "child") secret after erased key_found pseudonym_of erase_run (λ e. ground arith)

abbrev run : Result Bytes × MemoryWorld ℕ ℕ
run =
    save_and_anchor hooks (text "PERSONAL") (text "f") draws (text "e") (text "u") [] (text "v") []
      world

save_and_anchor-outcome_example :
    ((e : GoError) × ((memory_save_section
          (text "e")
          (text "PERSONAL")
          (text "v")
          world.store_state).0
        ≡ err e)
      × (run ≡ (
        err (context (text "f") [] e),
        record world {
          store_state =
              (memory_save_section (text "e") (text "PERSONAL") (text "v") world.store_state).1;
        },
      )))
    ⊎ ((version : ℕ) × ((memory_save_section
            (text "e")
            (text "PERSONAL")
            (text "v")
            world.store_state).0
          ≡ ok version)
        × (run.1.store_state
            ≡ (memory_save_section (text "e") (text "PERSONAL") (text "v") world.store_state).1)
        × (((result : Bytes) × (run.0 ≡ ok result) × (run.1.reports ≡ world.reports))
            ⊎ ((e : GoError) × (run.0
                  ≡ err (partial_failure (text "e") (text "PERSONAL") version e))
                × (run.1.reports
                    ≡ reported hooks
                        (failed (text "e") (text "PERSONAL") version e)
                        world.reports))))
save_and_anchor-outcome_example =
    save_and_anchor-outcome hooks (text "PERSONAL") (text "f") draws (text "e") (text "u") []
      (text "v") [] world
