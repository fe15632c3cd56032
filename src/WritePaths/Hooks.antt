-- ===== src/WritePaths/Hooks.antt =====
-- writepaths.go, ports.go: the write-path hooks. The hooks stand over the states of the things
-- they use: operational store, key and salt stores, IPFS client, ledger. As in the bridge's
-- wiring, no port is nil.
pub mod Anchoring
pub mod Outcome
pub mod Recompute
use fabric_hris.Prelude.{
  ℕ, Text, text, Bytes, Bool, true, false, is_empty, Option, none, some, List, [], ◌∷◌, ◌++◌,
  if◌then◌else◌,
}
use fabric_hris.Errors.{GoError, Result, ok, err, context, partial_failure, wrapping}
use fabric_hris.Exec.{Exec, and_then, lift, done, wrapping_exec, ◌>>=◌}
use fabric_hris.Keystore.Interface.{Entropy, SaltStore, KeyStore}
use fabric_hris.Gateway.Digest.{
  Hashing, compute_data_hash, compute_employee_id, compute_updated_by, canonicalization_version,
  hash_algo,
}
use fabric_hris.Prelude.Maps.{Map}
use fabric_hris.Keystore.Memory.{Salts, memory_salts, memory_employee_keys, memory_document_keys}
use fabric_hris.WritePaths.Store.{
  OperationalStore, InMemoryOperationalStore, memory_operational_store,
}

-- LedgerAnchorer
pub record LedgerAnchorer (N : Type 0) : Type 0 where
  pub submit_record_profile_section : Text → Text → Text → (Text → List Text) → Exec N Bytes

-- DocumentPinner. A call draws a nonce.
pub record DocumentPinner (I : Type 0) : Type 0 where
  pub encrypt_and_add : Entropy → Bytes → Bytes → Exec I Text

-- Hooks
pub record Hooks (O K S D I N : Type 0) : Type 0 where
  pub store : OperationalStore O
  pub keys : KeyStore K
  pub salts : SaltStore S
  pub document_keys : KeyStore D
  pub ipfs : DocumentPinner I
  pub gateway : LedgerAnchorer N
  pub tenant_id : Text
  -- OnPartialFailure is not nil.
  pub reports_partial_failure : Bool
  -- json.Marshal of a list of strings
  pub marshal_strings : List Text → Result Text
  pub digests : Hashing

-- The states behind the ports of doAnchor.
pub record Ports (K S D I N : Type 0) : Type 0 where
  pub key_state : K
  pub salt_state : S
  pub document_key_state : D
  pub pin_state : I
  pub ledger_state : N

-- One call of OnPartialFailure.
pub record Report : Type 0 where
  pub employee : Text
  pub section : Text
  pub version : ℕ
  pub failure : GoError

pub record World (O K S D I N : Type 0) : Type 0 where
  pub store_state : O
  pub ports : Ports K S D I N
  pub reports : List Report

-- What one request draws.
pub record Draws : Type 0 where
  pub for_key : Entropy
  pub for_salt : Entropy
  pub for_document_key : Entropy
  pub for_pin : Entropy

module _ {O K S D I N A : Type 0} where
  abbrev pub on_store : Exec O A → Exec (World O K S D I N) A
  on_store action w = let (r, s) = action w.store_state in (r, record w { store_state = s })

  abbrev pub on_ports : Exec (Ports K S D I N) A → Exec (World O K S D I N) A
  on_ports action w = let (r, s) = action w.ports in (r, record w { ports = s })

module _ {K S D I N A : Type 0} where
  abbrev pub on_keys : Exec K A → Exec (Ports K S D I N) A
  on_keys action p = let (r, s) = action p.key_state in (r, record p { key_state = s })

  abbrev pub on_salts : Exec S A → Exec (Ports K S D I N) A
  on_salts action p = let (r, s) = action p.salt_state in (r, record p { salt_state = s })

  abbrev pub on_document_keys : Exec D A → Exec (Ports K S D I N) A
  on_document_keys action p =
      let (r, s) = action p.document_key_state in (r, record p { document_key_state = s })

  abbrev pub on_pins : Exec I A → Exec (Ports K S D I N) A
  on_pins action p = let (r, s) = action p.pin_state in (r, record p { pin_state = s })

  abbrev pub on_ledger : Exec N A → Exec (Ports K S D I N) A
  on_ledger action p = let (r, s) = action p.ledger_state in (r, record p { ledger_state = s })

-- The identifier under which a record's key is kept.
unfoldable pub key_lookup_id : Text → Text → Text
key_lookup_id employee identity = if is_empty identity then employee else employee ++ (0 ∷ identity)

module _ {K : Type 0} where
  unfoldable pub resolve_employee_key : KeyStore K → Entropy → Text → Text → Exec K Bytes
  unfolding key_lookup_id
  resolve_employee_key keys entropy employee identity =
      wrapping_exec (text "writepaths: fetching employeeKey_i")
        (keys.get_or_create entropy (key_lookup_id employee identity))

  unfoldable pub resolve_employee_id : Hashing → KeyStore K → Entropy → Text → Text → Exec K Text
  unfolding resolve_employee_key
  resolve_employee_id digests keys entropy employee identity = do
    key ← resolve_employee_key keys entropy employee identity
    lift (wrapping (text "writepaths: computing EmployeeID") (compute_employee_id digests key))

module _ {O K S D I N : Type 0} (h : Hooks O K S D I N) where
  abbrev pub document_key_step : Draws → Text → Exec (Ports K S D I N) Bytes
  document_key_step draws employee = on_document_keys (
      wrapping_exec (text "writepaths: fetching KEY_EMPLOYEE")
        (h.document_keys.get_or_create draws.for_document_key employee))

  abbrev pub pin_step : Draws → Bytes → Bytes → Exec (Ports K S D I N) Text
  pin_step draws key document = on_pins (
      wrapping_exec (text "writepaths: encrypting+pinning supporting document")
        (h.ipfs.encrypt_and_add draws.for_pin key document))

  abbrev pub salt_step : Draws → Text → Text → ℕ → Exec (Ports K S D I N) Bytes
  salt_step draws employee_id section version = on_salts (
      wrapping_exec (text "writepaths: generating salt")
        (h.salts.put_salt draws.for_salt employee_id section version))

  -- The document block of doAnchor: the ipfsCIDs argument.
  unfoldable pub pin_document : Draws → Text → Bytes → Exec (Ports K S D I N) Text
  pin_document draws employee [] = done (text "[]")
  pin_document draws employee (b ∷ document) = do
    key ← document_key_step draws employee
    cid ← pin_step draws key (b ∷ document)
    lift (wrapping (text "writepaths: marshaling ipfsCIDs") (h.marshal_strings (cid ∷ [])))

  -- buildArgs
  abbrev pub build_args : Text → Text → Text → Text → Text → Text → List Text
  build_args employee_id section data_hash updated_by cids prev =
      h.tenant_id ∷ employee_id ∷ section ∷ data_hash ∷ prev ∷ updated_by ∷ cids
      ∷ canonicalization_version ∷ hash_algo ∷ [] ∷ []

  -- doAnchor from the data hash on.
  unfoldable pub submit_step :
      Draws
      → Text
      → Text
      → Text
      → Bytes
      → Bytes
      → Bytes
      → Text
      → Bytes
      → Exec (Ports K S D I N) Bytes
  unfolding pin_document
  submit_step draws employee user section value document key employee_id salt = do
    data_hash ←
        lift (
          wrapping (text "writepaths: computing DataHash") (compute_data_hash h.digests salt value))
    updated_by ←
        lift (
          wrapping (text "writepaths: computing UpdatedBy") (compute_updated_by h.digests key user))
    cids ← pin_document draws employee document
    on_ledger (
        h.gateway.submit_record_profile_section h.tenant_id employee_id section
          (build_args employee_id section data_hash updated_by cids))

  unfoldable pub do_anchor :
      Draws → Text → Text → Text → Text → Bytes → ℕ → Bytes → Exec (Ports K S D I N) Bytes
  unfolding submit_step
  do_anchor draws employee user section identity value version document = do
    key ← on_keys (resolve_employee_key h.keys draws.for_key employee identity)
    employee_id ←
        lift
          (wrapping (text "writepaths: computing EmployeeID") (compute_employee_id h.digests key))
    salt ← salt_step draws employee_id section version
    submit_step draws employee user section value document key employee_id salt

  unfoldable pub anchor :
      Draws → Text → Text → Text → Text → Bytes → ℕ → Bytes → Exec (World O K S D I N) Bytes
  anchor draws employee user section identity value version document w =
      let (r, w') =
        on_ports (do_anchor draws employee user section identity value version document) w in
      elim r [
        | ok result ↦ (ok result, w')
        | err e ↦
            let failure = partial_failure employee section version e in
            (
              err failure,
              (if h.reports_partial_failure
                  then (record w' {
                    reports =
                        w'.reports
                        ++ (record {
                          employee = employee;
                          section = section;
                          version = version;
                          failure = failure;
                        }
                            ∷ []);
                  })
                  else w'),
            )
      ]

  -- What the six hooks do, each with its section and the text of its error.
  unfoldable pub save_and_anchor :
      Text → Text → Draws → Text → Text → Text → Bytes → Bytes → Exec (World O K S D I N) Bytes
  save_and_anchor section failure draws employee user identity value document = do
    version ← on_store (wrapping_exec failure (h.store.save_section employee section value))
    anchor draws employee user section identity value version document

  -- employeeInternalID, userID, recordIdentity, newValue, document
  abbrev pub Hook : Type 0
  Hook = Draws → Text → Text → Text → Bytes → Bytes → Exec (World O K S D I N) Bytes

  unfoldable pub update_personal_data : Hook
  update_personal_data =
      save_and_anchor (text "PERSONAL") (text "writepaths: saving PERSONAL to operational store")

  unfoldable pub approve_employment_transfer : Hook
  approve_employment_transfer =
      save_and_anchor (text "EMPLOYMENT")
        (text "writepaths: saving EMPLOYMENT to operational store")

  unfoldable pub record_education_history : Hook
  record_education_history =
      save_and_anchor (text "EDUCATION") (text "writepaths: saving EDUCATION to operational store")

  unfoldable pub approve_family_data_change : Hook
  approve_family_data_change =
      save_and_anchor (text "ADDITIONAL")
        (text "writepaths: saving ADDITIONAL to operational store")

  unfoldable pub update_additional_info : Hook
  update_additional_info =
      save_and_anchor (text "ADDITIONAL")
        (text "writepaths: saving ADDITIONAL to operational store")

  unfoldable pub update_payroll_bank_account : Hook
  update_payroll_bank_account =
      save_and_anchor (text "PAYROLL") (text "writepaths: saving PAYROLL to operational store")

-- The hooks over the in-memory stores, for any ledger and IPFS client.
module _ (I N : Type 0) where
  abbrev pub MemoryPorts : Type 0
  MemoryPorts = Ports (Map Bytes) Salts (Map Bytes) I N

  abbrev pub MemoryWorld : Type 0
  MemoryWorld = World InMemoryOperationalStore (Map Bytes) Salts (Map Bytes) I N

module _ {I N : Type 0} where
  abbrev pub memory_hooks :
      Hashing
      → DocumentPinner I
      → LedgerAnchorer N
      → Text
      → (List Text → Result Text)
      → Hooks InMemoryOperationalStore (Map Bytes) Salts (Map Bytes) I N
  memory_hooks digests ipfs gateway tenant marshal_strings = record {
    store = memory_operational_store;
    keys = memory_employee_keys;
    salts = memory_salts;
    document_keys = memory_document_keys;
    ipfs = ipfs;
    gateway = gateway;
    tenant_id = tenant;
    reports_partial_failure = true;
    marshal_strings = marshal_strings;
    digests = digests;
  }
