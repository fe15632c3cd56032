-- ===== src/Tests/Wiring.antt =====
-- The bridge's wiring (integration-bridge/cmd/integrationbridge) on one configuration.
use fabric_hris.Prelude.{ℕ, Text, text, Bytes, ◌≡◌, ◌↔◌, none, [], ◌++◌}
use fabric_hris.Errors.{ok, err, external}
use fabric_hris.Keystore.File.{Crypto, Os}
use fabric_hris.Gateway.Submit.{Contract}
use fabric_hris.Ipfs.{Cipher, Network}
use fabric_hris.Bridge.Wiring.{NewGateway, BridgeHooks, build_hooks}
use fabric_hris.Bridge.Process.{Config}
use fabric_hris.Bridge.Wiring.Routes.{Constructed, IsWired, build_hooks_iff}
use fabric_hris.Tests.Hooks.{hashing, marshal}

abbrev crypto : Crypto
crypto = record {
  new_cipher = λ key. ok tt;
  new_gcm = λ key. ok 1;
  seal = λ key nonce plaintext. plaintext;
  open_sealed = λ key nonce ciphertext. ok ciphertext;
  encode = λ m. ok [];
  decode = λ b. ok [];
}

abbrev os : Os
os = record {
  read_error = λ path. none;
  write_error = λ path. none;
  rename_error = λ from to. none;
}

abbrev cipher : Cipher ℕ ℕ
cipher = record {
  new_cipher = λ key. ok 0;
  new_gcm = λ block. ok block;
  nonce_size = λ g. 1;
  seal = λ g nonce plaintext. plaintext;
  open_sealed = λ g nonce sealed. ok sealed;
}

abbrev net : Network ℕ
net = record {
  form_of = λ content. ok ([], content);
  new_request = λ url. ok tt;
  send = λ p n. (err (external []), n);
  decode_hash = λ answer. ok [];
}

abbrev contract : Contract ℕ
contract = record {
  submit_transaction = λ f args n. (ok [], n);
  evaluate = λ f args n. (ok [], n);
  mvcc_read_conflict = 11;
}

abbrev config : Config
config = record {
  peer_endpoint = text "peer-endpoint";
  tls_server_name = text "tls-server-name";
  tls_ca_cert_path = text "tls-ca-cert-path";
  client_tls_cert_path = text "client-tls-cert-path";
  client_tls_key_path = text "client-tls-key-path";
  msp_id = text "msp-id";
  sign_cert_path = text "sign-cert-path";
  sign_key_path = text "sign-key-path";
  channel_name = text "channel-name";
  chaincode_name = text "chaincode-name";
  tenant_id = text "tenant-id";
  ipfs_primary_api = text "ipfs-primary-api";
  ipfs_replica_api = text "ipfs-replica-api";
  api_key = text "api-key";
  company_id = text "company-id";
  keystore_dir = text "keystore-dir";
  keystore_encryption_key_hex = text "0123456789abcdef0123456789abcdef";
}

abbrev new_gateway : NewGateway ℕ
new_gateway endpoint name ca cert key msp sign_cert sign_key channel chaincode = ok contract

abbrev join : Text → Text → Text
join a b = a ++ (text "/" ++ b)

build_hooks_iff_example :
    (((b : BridgeHooks ℕ ℕ × Contract ℕ) × (build_hooks crypto os cipher net hashing marshal
            new_gateway ok join config
          ≡ ok b))
      ↔ ((c : Contract ℕ) × (key : Bytes) × Constructed crypto os cipher net hashing marshal
            new_gateway ok join config c key))
    × ((b : BridgeHooks ℕ ℕ × Contract ℕ)
        → build_hooks crypto os cipher net hashing marshal new_gateway ok join config ≡ ok b
        → (c : Contract ℕ) × (key : Bytes) × Constructed crypto os cipher net hashing marshal
            new_gateway ok join config c key
          × IsWired crypto os cipher net hashing marshal new_gateway ok join config c key b)
build_hooks_iff_example =
    build_hooks_iff crypto os cipher net hashing marshal new_gateway ok join config
