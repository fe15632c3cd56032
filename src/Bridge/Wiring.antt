-- ===== src/Bridge/Wiring.antt =====
-- cmd/integrationbridge: buildHooks of wiring.go, and buildMux of main.go. The gateway client that is
-- constructed is its contract handle; the three key files, which are different paths, have each
-- their own state. The hexadecimal decoder and filepath.Join are parameters.
pub mod Routes
use fabric_hris.Prelude.{
  ℕ, ◌+◌, ◌*◌, ◌^◌, Text, text, Bytes, ◌==◌, is_empty, nat_eq, Bool, true, false, Option, none,
  some, List, [], ◌∷◌, ◌++◌, if◌then◌else◌,
}
use fabric_hris.Prelude.Maps.{Map, lookup}
use fabric_hris.Errors.{GoError, Result, ok, err, context, wrapping, ◌>>=◌}
use fabric_hris.Keystore.File.{
  Crypto, Os, Disk, FileStore, new_file_store, file_employee_keys, file_salts, file_document_keys,
}
use fabric_hris.Gateway.Digest.{Hashing}
use fabric_hris.Gateway.Submit.{Contract, submit_record_profile_section}
use fabric_hris.Ipfs.{Cipher, Network, Client, document_pinner}
use fabric_hris.WritePaths.Store.{InMemoryOperationalStore, memory_operational_store}
use fabric_hris.WritePaths.Hooks.{
  Hooks, World, Draws, LedgerAnchorer, Hook, update_personal_data, approve_employment_transfer,
  record_education_history, update_additional_info, update_payroll_bank_account,
}
use fabric_hris.Bridge.Process.{Config}
use fabric_hris.Bridge.Route.{DispatchFunc, RouteConfig}

-- gatewayclient.NewGatewayClient by its ten arguments, in their order: peerEndpoint,
-- tlsServerNameOverride, tlsCACertPEMPath, clientTLSCertPEMPath, clientTLSKeyPEMPath, mspID,
-- certPEMPath, keyPEMPath, channelName, chaincodeName.
abbrev pub NewGateway : Type 0 → Type 0
NewGateway N =
    Text → Text → Text → Text → Text → Text → Text → Text → Text → Text → Result (Contract N)

abbrev pub BridgeHooks : Type 0 → Type 0 → Type 0
BridgeHooks I N = Hooks InMemoryOperationalStore Disk Disk Disk I N

module _ {B G I N : Type 0} (crypto : Crypto) (os : Os) (cipher : Cipher B G) (net : Network I)
    (digests : Hashing) (marshal_strings : List Text → Result Text) where
  -- *gatewayclient.GatewayClient as the port of the hooks.
  abbrev pub ledger_anchorer : Contract N → LedgerAnchorer N
  ledger_anchorer c = record { submit_record_profile_section = submit_record_profile_section c }

  -- The Hooks literal over the three stores' files and the key that encrypts them. It leaves
  -- OnPartialFailure nil.
  abbrev pub wired : Config → Contract N → FileStore → FileStore → FileStore → BridgeHooks I N
  wired cfg c employee_keys salts document_keys = record {
    store = memory_operational_store;
    keys = file_employee_keys crypto os employee_keys;
    salts = file_salts crypto os salts;
    document_keys = file_document_keys crypto os document_keys;
    ipfs =
        document_pinner cipher net
          (record { primary_api = cfg.ipfs_primary_api; replica_api = cfg.ipfs_replica_api });
    gateway = ledger_anchorer c;
    tenant_id = cfg.tenant_id;
    reports_partial_failure = false;
    marshal_strings = marshal_strings;
    digests = digests;
  }

  unfoldable pub build_hooks :
      NewGateway N
      → (Text → Result Bytes)
      → (Text → Text → Text)
      → Config
      → Result (BridgeHooks I N × Contract N)
  build_hooks new_gateway decode_hex join cfg = do
    c ← wrapping (text "integrationbridge: constructing GatewayClient") (
        new_gateway cfg.peer_endpoint cfg.tls_server_name cfg.tls_ca_cert_path
          cfg.client_tls_cert_path cfg.client_tls_key_path cfg.msp_id cfg.sign_cert_path
          cfg.sign_key_path cfg.channel_name cfg.chaincode_name)
    key ←
        wrapping (text "integrationbridge: BRIDGE_KEYSTORE_ENCRYPTION_KEY_HEX is not valid hex")
          (decode_hex cfg.keystore_encryption_key_hex)
    employee_keys ←
        wrapping (text "integrationbridge: constructing employee key store")
          (new_file_store (join cfg.keystore_dir (text "employee-keys.enc")) key)
    salts ←
        wrapping (text "integrationbridge: constructing salt store")
          (new_file_store (join cfg.keystore_dir (text "salts.enc")) key)
    document_keys ←
        wrapping (text "integrationbridge: constructing document key store")
          (new_file_store (join cfg.keystore_dir (text "document-keys.enc")) key)
    ok (wired cfg c employee_keys salts document_keys, c)

-- What a pattern of the mux leads to.
pub data Handler (W : Type 0) : Type 0 where
  write_route : RouteConfig W → Handler W
  history_route verify_route : Handler W

module _ {O K S D I N : Type 0} (h : Hooks O K S D I N) (draws : Draws) where
  -- One of the write routes; what its requests draw is `draws`.
  abbrev pub route : Text → Hook h → Handler (World O K S D I N)
  route section hook =
      write_route (record { profile_section = section; dispatch_func = hook draws })

  -- buildMux: the patterns that are registered, and their handlers.
  unfoldable pub build_mux : List (Text × Handler (World O K S D I N))
  build_mux =
      (text "POST /v1/profile-sections/PERSONAL", route (text "PERSONAL") (update_personal_data h))
      ∷ (
        text "POST /v1/profile-sections/EMPLOYMENT",
        route (text "EMPLOYMENT") (approve_employment_transfer h),
      )
      ∷ (
        text "POST /v1/profile-sections/EDUCATION",
        route (text "EDUCATION") (record_education_history h),
      )
      ∷ (
        text "POST /v1/profile-sections/ADDITIONAL",
        route (text "ADDITIONAL") (update_additional_info h),
      )
      ∷ (
        text "POST /v1/profile-sections/PAYROLL",
        route (text "PAYROLL") (update_payroll_bank_account h),
      )
      ∷ (text "GET /v1/profile-sections/history", history_route)
      ∷ (text "POST /v1/profile-sections/verify", verify_route)
      ∷ []
