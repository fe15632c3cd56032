-- ===== src/Tools/Raft.antt =====
-- fabric-network/tools/raftfaulttest/main.go: with one of the three orderers stopped an update of the
-- channel must go through, with two stopped it must not. Here are the commands of an update;
-- FaultTest has the run.
pub mod FaultTest
pub mod Verdict
use fabric_hris.Prelude.{
  ℕ, Text, text, ◌==◌, is_empty, contains, ltb, not, Bool, true, false, ◌&&◌, ◌||◌, Option, none,
  some, List, [], ◌∷◌, ◌++◌, map, if◌then◌else◌,
}
use fabric_hris.Errors.{GoError, errorf, Result, ok, err}
use fabric_hris.Exec.{Exec, done, lift, ◌>>=◌}
use fabric_hris.Keystore.Decimal.{decimal}
use fabric_hris.Tools.Shell.{Step, spaced, run_step, ran_step, Ran, Docker, shell}
use fabric_hris.Tools.Netjoin.{channel_id, each_of}

pub record Signer : Type 0 where
  pub name : Text
  pub msp_id : Text
  pub msp_path : Text

abbrev org1_admin_msp : Text
org1_admin_msp = text "/net/crypto-config/peerOrganizations/org1/users/Admin@org1/msp"

abbrev org1_tls_dir : Text
org1_tls_dir = text "/net/crypto-config/peerOrganizations/org1/users/Admin@org1/tls"

abbrev pub signers : List Signer
signers =
    record {
      name = text "OrdererMSP-admin";
      msp_id = text "OrdererMSP";
      msp_path = text "/net/crypto-config/ordererOrganizations/org1/users/Admin@org1/msp";
    }
    ∷ record { name = text "Org1MSP-admin"; msp_id = text "Org1MSP"; msp_path = org1_admin_msp }
    ∷ record {
      name = text "OrgClient-tenant01MSP-admin";
      msp_id = text "OrgClient-tenant01MSP";
      msp_path = text "/net/crypto-config/peerOrganizations/tenant01/users/Admin@tenant01/msp";
    }
    ∷ []

unfoldable pub raft_cli_env : Text → Text → Text
raft_cli_env msp_id msp_path =
    text "CORE_PEER_LOCALMSPID="
    ++ (msp_id
        ++ (text " CORE_PEER_MSPCONFIGPATH="
            ++ (msp_path
                ++ text
                    " CORE_PEER_ADDRESS=peer0.org1:7051 CORE_PEER_TLS_ENABLED=true CORE_PEER_TLS_ROOTCERT_FILE=/net/crypto-config/peerOrganizations/org1/tlsca/tlsca.org1-cert.pem CORE_PEER_TLS_CLIENTAUTHREQUIRED=true CORE_PEER_TLS_CLIENTCERT_FILE=/net/crypto-config/peerOrganizations/org1/users/Admin@org1/tls/client.crt CORE_PEER_TLS_CLIENTKEY_FILE=/net/crypto-config/peerOrganizations/org1/users/Admin@org1/tls/client.key")))

abbrev pub org1_env : Text
org1_env = raft_cli_env (text "Org1MSP") org1_admin_msp

unfoldable pub client_flags : Text
client_flags =
    text "--clientauth --certfile "
    ++ (org1_tls_dir ++ (text "/client.crt --keyfile " ++ (org1_tls_dir ++ text "/client.key")))

-- The flags for the channel and its orderer.
abbrev pub orderer_args : List Text
orderer_args =
    text "-c"
    ∷ channel_id
    ∷ text
        "-o orderer0.org1:7050 --tls --cafile /net/crypto-config/ordererOrganizations/org1/tlsca/tlsca.org1-cert.pem"
    ∷ client_flags
    ∷ []

-- configtxlator's conversion of a file of a type into another.
abbrev convert : Text → Text → Text → Text → Text
convert direction input type_name output = spaced (
    text "configtxlator"
    ∷ direction
    ∷ text "--input"
    ∷ input
    ∷ text "--type"
    ∷ type_name
    ∷ text "--output"
    ∷ output
    ∷ [])

abbrev pub base_of : ℕ → Text
base_of round = text "/tmp/raftfault-r" ++ decimal round

-- The steps of buildSignedUpdate before the signatures.
abbrev pub update_steps : Text → Text → List Step
update_steps base new_timeout =
    (
      text "fetch config block",
      spaced (
          org1_env
          ∷ text "peer channel fetch config"
          ∷ (base ++ text "_config_block.pb")
          ∷ orderer_args),
    )
    ∷ (
      text "decode block",
      convert (text "proto_decode") (base ++ text "_config_block.pb") (text "common.Block")
          (base ++ text "_config_block.json"),
    )
    ∷ (
      text "extract config",
      spaced (
          text "jq .data.data[0].payload.data.config"
          ∷ (base ++ text "_config_block.json")
          ∷ text ">"
          ∷ (base ++ text "_config.json")
          ∷ []),
    )
    ∷ (
      text "copy config for modification",
      spaced
          (text "cp" ∷ (base ++ text "_config.json") ∷ (base ++ text "_modified_config.json") ∷ []),
    )
    ∷ (
      text "set new BatchTimeout",
      spaced (
          (text "jq '.channel_group.groups.Orderer.values.BatchTimeout.value.timeout = \""
            ++ (new_timeout ++ text "\"'"))
          ∷ (base ++ text "_config.json")
          ∷ text ">"
          ∷ (base ++ text "_modified_config.json.tmp")
          ∷ text "&& mv"
          ∷ (base ++ text "_modified_config.json.tmp")
          ∷ (base ++ text "_modified_config.json")
          ∷ []),
    )
    ∷ (
      text "encode original config",
      convert (text "proto_encode") (base ++ text "_config.json") (text "common.Config")
          (base ++ text "_config.pb"),
    )
    ∷ (
      text "encode modified config",
      convert (text "proto_encode") (base ++ text "_modified_config.json") (text "common.Config")
          (base ++ text "_modified_config.pb"),
    )
    ∷ (
      text "compute update",
      spaced (
          text "configtxlator compute_update --channel_id"
          ∷ channel_id
          ∷ text "--original"
          ∷ (base ++ text "_config.pb")
          ∷ text "--updated"
          ∷ (base ++ text "_modified_config.pb")
          ∷ text "--output"
          ∷ (base ++ text "_update.pb")
          ∷ []),
    )
    ∷ (
      text "decode update",
      convert (text "proto_decode") (base ++ text "_update.pb") (text "common.ConfigUpdate")
          (base ++ text "_update.json"),
    )
    ∷ (
      text "wrap update in envelope",
      spaced (
          text
            "echo '{\"payload\":{\"header\":{\"channel_header\":{\"channel_id\":\"tenant-tenant01\",\"type\":2}},\"data\":{\"config_update\":'\"$(cat"
          ∷ (base ++ text "_update.json)\"'}}}'")
          ∷ text "| jq . >"
          ∷ (base ++ text "_update_env.json")
          ∷ []),
    )
    ∷ (
      text "encode envelope",
      convert (text "proto_encode") (base ++ text "_update_env.json") (text "common.Envelope")
          (base ++ text "_update_env.pb"),
    )
    ∷ []

abbrev pub sign_step : Text → Signer → Step
sign_step base s = (
  text "sign as " ++ s.name,
  spaced (
      raft_cli_env s.msp_id s.msp_path
      ∷ text "peer channel signconfigtx -f"
      ∷ (base ++ text "_update_env.pb")
      ∷ []),
)
