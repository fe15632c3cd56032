-- ===== src/Tools/Peers.antt =====
-- The peers that netjoin/main.go and ccdeploy/main.go list, and the environment of the peer command.
use fabric_hris.Prelude.{
  ◌-◌, Text, text, has_suffix, length, take, List, [], ◌∷◌, ◌++◌, if◌then◌else◌,
}

-- peerNode
pub record PeerNode : Type 0 where
  pub name : Text
  pub address : Text
  pub msp_id : Text
  pub admin_msp : Text
  pub tls_ca_file : Text

-- A peer of one of the listed organisations, by its name, MSP and the organisation's domain.
abbrev pub peer_of : Text → Text → Text → PeerNode
peer_of name msp domain = record {
  name = name;
  address = name ++ text ":7051";
  msp_id = msp;
  admin_msp =
      text "/net/crypto-config/peerOrganizations/"
      ++ (domain ++ (text "/users/Admin@" ++ (domain ++ text "/msp")));
  tls_ca_file =
      text "/net/crypto-config/peerOrganizations/"
      ++ (domain ++ (text "/tlsca/tlsca." ++ (domain ++ text "-cert.pem")));
}

abbrev pub peers : List PeerNode
peers =
    peer_of (text "peer0.org1") (text "Org1MSP") (text "org1")
    ∷ peer_of (text "peer1.org1") (text "Org1MSP") (text "org1")
    ∷ peer_of (text "peer0.tenant01") (text "OrgClient-tenant01MSP") (text "tenant01")
    ∷ peer_of (text "peer0.org3") (text "Org3MSP") (text "org3")
    ∷ []

-- strings.TrimSuffix
unfoldable pub trim_suffix : Text → Text → Text
trim_suffix s suffix = if has_suffix s suffix then take (length s - length suffix) s else s

abbrev pub admin_tls_dir : PeerNode → Text
admin_tls_dir p = trim_suffix p.admin_msp (text "/msp") ++ text "/tls"

unfoldable pub peer_env : PeerNode → Text
unfolding trim_suffix
peer_env p =
    text "CORE_PEER_LOCALMSPID="
    ++ (p.msp_id
        ++ (text " CORE_PEER_MSPCONFIGPATH="
            ++ (p.admin_msp
                ++ (text " CORE_PEER_ADDRESS="
                    ++ (p.address
                        ++ (text " CORE_PEER_TLS_ENABLED=true CORE_PEER_TLS_ROOTCERT_FILE="
                            ++ (p.tls_ca_file
                                ++ (text
                                      " CORE_PEER_TLS_CLIENTAUTHREQUIRED=true CORE_PEER_TLS_CLIENTCERT_FILE="
                                    ++ (admin_tls_dir p
                                        ++ (text "/client.crt CORE_PEER_TLS_CLIENTKEY_FILE="
                                            ++ (admin_tls_dir p ++ text "/client.key")))))))))))
