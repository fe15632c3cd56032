-- ===== src/Bridge/Wiring/Routes.antt =====
-- wiring.go and main.go: when the hooks are built, and which hook a section's path leads to.
use fabric_hris.Prelude.{
  Text, text, Bytes, ◌==◌, length, nat_eq_iff, ◌≡◌, ◌↔◌, refl, sym, subst, ap, ◌∙◌, inl, inr, some,
  List, ◌++◌, All, arith,
}
use fabric_hris.Prelude.Maps.{lookup}
use fabric_hris.Errors.{Result, ok, err, Result-cases}
use fabric_hris.Keystore.File.{
  Crypto, Os, FileStore, file_employee_keys, file_salts, file_document_keys, new_file_store,
}
use fabric_hris.Gateway.Digest.{Hashing}
use fabric_hris.Gateway.Submit.{Contract, submit_record_profile_section}
use fabric_hris.Ipfs.{Cipher, Network, document_pinner}
use fabric_hris.WritePaths.Store.{memory_operational_store, all_profile_sections}
use fabric_hris.WritePaths.Hooks.{
  Hooks, Draws, save_and_anchor, update_personal_data, approve_employment_transfer,
  record_education_history, update_additional_info, update_payroll_bank_account,
}
use fabric_hris.Bridge.Process.{Config}
use fabric_hris.Bridge.Wiring.{NewGateway, BridgeHooks, wired, build_hooks, write_route, build_mux}

new_file_store_lem :
    (path : Text) (key : Bytes)
    → length key ≡ 32
    → new_file_store path key ≡ ok (record { path = path; key = key })
unfolding new_file_store
new_file_store_lem path key e = ground (arith, nat_eq_iff (length key) 32)

new_file_store-ok :
    (path : Text) (key : Bytes) (f : FileStore) → new_file_store path key ≡ ok f → length key ≡ 32
unfolding new_file_store
new_file_store-ok path key f e = ground (arith, nat_eq_iff (length key) 32)

ok-injective : {A : Type 0} {a b : A} → Result.ok a ≡ ok b → a ≡ b
ok-injective {a = a} e = ap (λ r. elim r [ ok x ↦ x | err x ↦ a ]) e

module _ {B G I N : Type 0} (crypto : Crypto) (os : Os) (cipher : Cipher B G) (net : Network I)
    (digests : Hashing) (marshal_strings : List Text → Result Text) (new_gateway : NewGateway N)
    (decode_hex : Text → Result Bytes) (join : Text → Text → Text) (cfg : Config) where
  -- The construction of the gateway client from the configuration.
  abbrev pub connected : Result (Contract N)
  connected =
      new_gateway cfg.peer_endpoint cfg.tls_server_name cfg.tls_ca_cert_path
        cfg.client_tls_cert_path cfg.client_tls_key_path cfg.msp_id cfg.sign_cert_path
        cfg.sign_key_path cfg.channel_name cfg.chaincode_name

  abbrev pub store_of : Bytes → Text → FileStore
  store_of key name = record { path = join cfg.keystore_dir name; key = key }

  -- The hooks over the three key files of one key.
  abbrev pub hooks_of : Contract N → Bytes → BridgeHooks I N
  hooks_of c key =
      wired crypto os cipher net digests marshal_strings cfg c
        (store_of key (text "employee-keys.enc")) (store_of key (text "salts.enc"))
        (store_of key (text "document-keys.enc"))

  build_hooks_lem :
      (c : Contract N) (key : Bytes)
      → connected ≡ ok c
      → decode_hex cfg.keystore_encryption_key_hex ≡ ok key
      → length key ≡ 32
      → build_hooks crypto os cipher net digests marshal_strings new_gateway decode_hex join cfg
        ≡ ok (hooks_of c key, c)
  unfolding build_hooks
  build_hooks_lem c key made decoded size =
      rw
        (
          build_hooks,
          made,
          decoded,
          new_file_store_lem (join cfg.keystore_dir (text "employee-keys.enc")) key size,
          new_file_store_lem (join cfg.keystore_dir (text "salts.enc")) key size,
          new_file_store_lem (join cfg.keystore_dir (text "document-keys.enc")) key size,
        )
        refl

  build_hooks-ok :
      (b : BridgeHooks I N × Contract N)
      → build_hooks crypto os cipher net digests marshal_strings new_gateway decode_hex join cfg
        ≡ ok b
      → (c : Contract N) × (key : Bytes) × (connected ≡ ok c)
        × (decode_hex cfg.keystore_encryption_key_hex ≡ ok key)
        × (length key ≡ 32)
  unfolding build_hooks
  build_hooks-ok b e = elim (Result-cases (connected)) [
    | inr (x, f) ↦ absurd (ground arith)
    | inl (c, f) ↦ elim (Result-cases (decode_hex cfg.keystore_encryption_key_hex)) [
      | inr (x, g) ↦ absurd (ground arith)
      | inl (key, g) ↦
          elim (Result-cases
            (new_file_store (join cfg.keystore_dir (text "employee-keys.enc")) key)) [
              | inr (x, k) ↦ absurd (ground arith)
              | inl (store, k) ↦ (
                c,
                key,
                f,
                g,
                new_file_store-ok (join cfg.keystore_dir (text "employee-keys.enc")) key store k,
              )
            ]
    ]
  ]

  -- The gateway client, and the key that the configured text decodes to, of 32 bytes.
  abbrev pub Constructed : Contract N → Bytes → Type 0
  Constructed c key =
      (connected ≡ ok c) × (decode_hex cfg.keystore_encryption_key_hex ≡ ok key) × (length key ≡ 32)

  -- The hooks over this client and this key, port by port, and the client beside them.
  abbrev pub IsWired : Contract N → Bytes → BridgeHooks I N × Contract N → Type 0
  IsWired c key (h, client) =
      (client ≡ c)
      × (h.store ≡ memory_operational_store)
      × (h.keys ≡ file_employee_keys crypto os (store_of key (text "employee-keys.enc")))
      × (h.salts ≡ file_salts crypto os (store_of key (text "salts.enc")))
      × (h.document_keys ≡ file_document_keys crypto os (store_of key (text "document-keys.enc")))
      × (h.ipfs
          ≡ document_pinner cipher net
              (record { primary_api = cfg.ipfs_primary_api; replica_api = cfg.ipfs_replica_api }))
      × (h.gateway.submit_record_profile_section ≡ submit_record_profile_section c)
      × (h.tenant_id ≡ cfg.tenant_id)

  hooks_of-IsWired : (c : Contract N) (key : Bytes) → IsWired c key (hooks_of c key, c)
  hooks_of-IsWired c key = (refl, refl, refl, refl, refl, refl, refl, refl)

  -- The hooks are built exactly where the gateway client is constructed from the ten connection
  -- values and the configured key is the hexadecimal of 32 bytes; and then each port is its own:
  -- the employee keys, the salts and the document keys in their three files under that key, the
  -- in-memory operational store, the IPFS client with its primary and its replica, the gateway
  -- client's submission, and the tenant.
  pub build_hooks_iff :
      (((b : BridgeHooks I N × Contract N) × (build_hooks crypto os cipher net digests
              marshal_strings new_gateway decode_hex join cfg
            ≡ ok b))
        ↔ ((c : Contract N) × (key : Bytes) × Constructed c key))
      × ((b : BridgeHooks I N × Contract N)
          → build_hooks crypto os cipher net digests marshal_strings new_gateway decode_hex join cfg
            ≡ ok b
          → (c : Contract N) × (key : Bytes) × Constructed c key × IsWired c key b)
  build_hooks_iff = (
    (
      λ (b, e).
          let (c, key, made, decoded, size) = build_hooks-ok b e in (c, key, (made, decoded, size)),
      λ (c, key, (made, decoded, size)).
          ((hooks_of c key, c), build_hooks_lem c key made decoded size),
    ),
    λ b e.
        let (c, key, made, decoded, size) = build_hooks-ok b e in
        (
          c,
          key,
          (made, decoded, size),
          subst (IsWired c key) (ok-injective (sym (build_hooks_lem c key made decoded size) ∙ e))
              (hooks_of-IsWired c key),
        ),
  )

-- Each of the five sections has its POST route, whose handler is that of the section's hook: its
-- requests save and anchor that very section.
pub build_mux-write :
    {O K S D I N : Type 0} (h : Hooks O K S D I N) (draws : Draws)
    → All
        (λ section.
          (failure : Text) × (lookup
              (text "POST /v1/profile-sections/" ++ section)
              (build_mux h draws)
            ≡ some (
                write_route (record {
                  profile_section = section;
                  dispatch_func = save_and_anchor h section failure draws;
                }))))
        all_profile_sections
unfolding build_mux lookup text ◌==◌ update_personal_data approve_employment_transfer
    record_education_history update_additional_info update_payroll_bank_account
build_mux-write h draws = (
  (text "writepaths: saving PERSONAL to operational store", refl),
  (
    (text "writepaths: saving EMPLOYMENT to operational store", refl),
    (
      (text "writepaths: saving EDUCATION to operational store", refl),
      (
        (text "writepaths: saving ADDITIONAL to operational store", refl),
        ((text "writepaths: saving PAYROLL to operational store", refl), tt),
      ),
    ),
  ),
)
