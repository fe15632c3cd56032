-- ===== src/Bridge/Process.antt =====
-- cmd/integrationbridge: config.go and shutdown.go, with the timeouts and the end of main.go.
pub mod Shutdown
pub mod Timeouts
use fabric_hris.Prelude.{
  ℕ, zero, suc, ◌+◌, ap, Text, text, is_empty, ◌≡◌, ◌↔◌, refl, sym, subst, ◌∙◌, Bool, true, false,
  List, [], ◌∷◌, All, arith, if◌then◌else◌,
}
use fabric_hris.Errors.{errorf, Result, ok, err}

pub record Config : Type 0 where
  pub peer_endpoint : Text
  pub tls_server_name : Text
  pub tls_ca_cert_path : Text
  pub client_tls_cert_path : Text
  pub client_tls_key_path : Text
  pub msp_id : Text
  pub sign_cert_path : Text
  pub sign_key_path : Text
  pub channel_name : Text
  pub chaincode_name : Text
  pub tenant_id : Text
  pub ipfs_primary_api : Text
  pub ipfs_replica_api : Text
  pub api_key : Text
  pub company_id : Text
  pub keystore_dir : Text
  pub keystore_encryption_key_hex : Text

-- The required environment variables, in the order in which they are read.
abbrev pub required_variables : List Text
required_variables =
    text "BRIDGE_PEER_ENDPOINT"
    ∷ text "BRIDGE_TLS_SERVER_NAME"
    ∷ text "BRIDGE_TLS_CA_CERT_PATH"
    ∷ text "BRIDGE_CLIENT_TLS_CERT_PATH"
    ∷ text "BRIDGE_CLIENT_TLS_KEY_PATH"
    ∷ text "BRIDGE_MSP_ID"
    ∷ text "BRIDGE_SIGN_CERT_PATH"
    ∷ text "BRIDGE_SIGN_KEY_PATH"
    ∷ text "BRIDGE_CHANNEL_NAME"
    ∷ text "BRIDGE_CHAINCODE_NAME"
    ∷ text "BRIDGE_TENANT_ID"
    ∷ text "BRIDGE_IPFS_PRIMARY_API"
    ∷ text "BRIDGE_IPFS_REPLICA_API"
    ∷ text "BRIDGE_API_KEY"
    ∷ text "BRIDGE_COMPANY_ID"
    ∷ text "BRIDGE_KEYSTORE_DIR"
    ∷ text "BRIDGE_KEYSTORE_ENCRYPTION_KEY_HEX"
    ∷ []

-- A variable and the field that it sets.
abbrev pub Setting : Type 0
Setting = Text × (Config → Text)

abbrev pub settings : List Setting
settings =
    (text "BRIDGE_PEER_ENDPOINT", λ c. c.peer_endpoint)
    ∷ (text "BRIDGE_TLS_SERVER_NAME", λ c. c.tls_server_name)
    ∷ (text "BRIDGE_TLS_CA_CERT_PATH", λ c. c.tls_ca_cert_path)
    ∷ (text "BRIDGE_CLIENT_TLS_CERT_PATH", λ c. c.client_tls_cert_path)
    ∷ (text "BRIDGE_CLIENT_TLS_KEY_PATH", λ c. c.client_tls_key_path)
    ∷ (text "BRIDGE_MSP_ID", λ c. c.msp_id)
    ∷ (text "BRIDGE_SIGN_CERT_PATH", λ c. c.sign_cert_path)
    ∷ (text "BRIDGE_SIGN_KEY_PATH", λ c. c.sign_key_path)
    ∷ (text "BRIDGE_CHANNEL_NAME", λ c. c.channel_name)
    ∷ (text "BRIDGE_CHAINCODE_NAME", λ c. c.chaincode_name)
    ∷ (text "BRIDGE_TENANT_ID", λ c. c.tenant_id)
    ∷ (text "BRIDGE_IPFS_PRIMARY_API", λ c. c.ipfs_primary_api)
    ∷ (text "BRIDGE_IPFS_REPLICA_API", λ c. c.ipfs_replica_api)
    ∷ (text "BRIDGE_API_KEY", λ c. c.api_key)
    ∷ (text "BRIDGE_COMPANY_ID", λ c. c.company_id)
    ∷ (text "BRIDGE_KEYSTORE_DIR", λ c. c.keystore_dir)
    ∷ (text "BRIDGE_KEYSTORE_ENCRYPTION_KEY_HEX", λ c. c.keystore_encryption_key_hex)
    ∷ []

module _ (trim_space : Text → Text) (getenv : Text → Text) where
  -- The variables that `get` adds to `missing`.
  unfoldable pub missing_of : List Text → List Text
  missing_of [] = []
  missing_of (key ∷ keys) =
      let rest = missing_of keys in if is_empty (trim_space (getenv key)) then key ∷ rest else rest

  -- The Config literal.
  abbrev read_config : Config
  read_config = record {
    peer_endpoint = getenv (text "BRIDGE_PEER_ENDPOINT");
    tls_server_name = getenv (text "BRIDGE_TLS_SERVER_NAME");
    tls_ca_cert_path = getenv (text "BRIDGE_TLS_CA_CERT_PATH");
    client_tls_cert_path = getenv (text "BRIDGE_CLIENT_TLS_CERT_PATH");
    client_tls_key_path = getenv (text "BRIDGE_CLIENT_TLS_KEY_PATH");
    msp_id = getenv (text "BRIDGE_MSP_ID");
    sign_cert_path = getenv (text "BRIDGE_SIGN_CERT_PATH");
    sign_key_path = getenv (text "BRIDGE_SIGN_KEY_PATH");
    channel_name = getenv (text "BRIDGE_CHANNEL_NAME");
    chaincode_name = getenv (text "BRIDGE_CHAINCODE_NAME");
    tenant_id = getenv (text "BRIDGE_TENANT_ID");
    ipfs_primary_api = getenv (text "BRIDGE_IPFS_PRIMARY_API");
    ipfs_replica_api = getenv (text "BRIDGE_IPFS_REPLICA_API");
    api_key = getenv (text "BRIDGE_API_KEY");
    company_id = getenv (text "BRIDGE_COMPANY_ID");
    keystore_dir = getenv (text "BRIDGE_KEYSTORE_DIR");
    keystore_encryption_key_hex = getenv (text "BRIDGE_KEYSTORE_ENCRYPTION_KEY_HEX");
  }

  unfoldable pub load_config : Result Config
  unfolding missing_of
  load_config = elim (missing_of required_variables) [
    | [] ↦ ok read_config
    | key ∷ keys ↦
        err (errorf (text "config: required environment variable(s) not set: %s") (key ∷ keys))
  ]

  unfoldable pub resolve_http_addr : Text
  resolve_http_addr =
      let addr = trim_space (getenv (text "BRIDGE_HTTP_ADDR")) in
      if is_empty addr then text ":8080" else addr

  missing_of-All :
      (keys : List Text)
      → (missing_of keys ≡ []) ↔ All (λ key. is_empty (trim_space (getenv key)) ≡ false) keys
  unfolding missing_of
  missing_of-All [] = (λ e. tt, λ u. refl)
  missing_of-All (key ∷ keys) =
      let (to, from) = missing_of-All keys in
      (λ e. (ground arith, to (ground arith)), λ (filled, rest). ground (arith, from rest))

  load_config-ok : (missing_of required_variables ≡ []) → load_config ≡ ok read_config
  unfolding load_config
  load_config-ok e = ground arith

  load_config-missing : (cfg : Config) → load_config ≡ ok cfg → missing_of required_variables ≡ []
  unfolding load_config
  load_config-missing cfg e = ground arith

  same_config : (c d : Config) → Result.ok c ≡ ok d → c ≡ d
  same_config c d e = ap (λ r. elim r [ ok x ↦ x | err x ↦ c ]) e

  -- LoadConfig succeeds exactly where none of the seventeen variables of the settings is blank, and
  -- then each field of the configuration is its variable's value as it stands.
  pub load_config_iff :
      (((cfg : Config) × (load_config ≡ ok cfg))
        ↔ All (λ (s : Setting). is_empty (trim_space (getenv s.0)) ≡ false) settings)
      × ((cfg : Config)
          → load_config ≡ ok cfg
          → All (λ (s : Setting). s.1 cfg ≡ getenv s.0) settings)
  load_config_iff = (
    (
      λ (cfg, e). (missing_of-All required_variables).0 (load_config-missing cfg e),
      λ filled. (read_config, load_config-ok ((missing_of-All required_variables).1 filled)),
    ),
    λ cfg e.
        subst (λ c. All (λ (s : Setting). s.1 c ≡ getenv s.0) settings)
          (same_config read_config cfg (sym (load_config-ok (load_config-missing cfg e)) ∙ e))
          (
            refl,
            (
              refl,
              (
                refl,
                (
                  refl,
                  (
                    refl,
                    (
                      refl,
                      (
                        refl,
                        (
                          refl,
                          (
                            refl,
                            (refl, (refl, (refl, (refl, (refl, (refl, (refl, (refl, tt)))))))),
                          ),
                        ),
                      ),
                    ),
                  ),
                ),
              ),
            ),
          ),
  )
