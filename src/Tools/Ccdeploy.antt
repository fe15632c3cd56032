-- ===== src/Tools/Ccdeploy.antt =====
-- fabric-network/tools/ccdeploy/main.go: the chaincode's package is installed on the peers, its ID is
-- looked up, the two organisations approve it, it is committed, and a write and a read are tried.
-- Exiting is failing with the error that is printed; what else is printed is left out.
-- strings.TrimSpace is a parameter.
pub mod PackageId
pub mod Asked
pub mod Deployed
use fabric_hris.Prelude.{
  ℕ, zero, suc, ◌-◌, Text, text, contains, has_prefix, length, Bool, true, false, Option, none,
  some, List, [], ◌∷◌, ◌++◌, if◌then◌else◌,
}
use fabric_hris.Errors.{GoError, errorf, context, Result, ok, err}
use fabric_hris.Exec.{Exec, done, lift, ◌>>=◌}
use fabric_hris.Tools.Shell.{Step, spaced, run_step, ran_step, required, Ran, Docker, shell}
use fabric_hris.Tools.Peers.{PeerNode, peers, peer_of, peer_env}
use fabric_hris.Tools.Netjoin.{channel_id, each_of}

abbrev pub package_label : Text
package_label = text "employeeprofilerecord_1.0"

-- A character in front of the first part.
abbrev prepend : ℕ → List Text → List Text
prepend x [] = (x ∷ []) ∷ []
prepend x (part ∷ parts) = (x ∷ part) ∷ parts

-- strings.Split, with so many characters of a separator left to skip.
unfoldable pub split_from : Text → ℕ → Text → List Text
split_from sep skip [] = [] ∷ []
split_from sep (suc skip) (x ∷ xs) = split_from sep skip xs
split_from sep zero (x ∷ xs) = elim (has_prefix (x ∷ xs) sep) [
  | true ↦ [] ∷ split_from sep (length sep - 1) xs
  | false ↦ prepend x (split_from sep zero xs)
]

abbrev pub split : Text → Text → List Text
split s sep = split_from sep 0 s

-- parts[1], if there are two parts
unfoldable pub second_of_two : List Text → Option Text
second_of_two (a ∷ (b ∷ [])) = some b
second_of_two _ = none

-- strings.SplitN(s, ",", 2)[0]
unfoldable pub before_comma : Text → Text
before_comma [] = []
before_comma (x ∷ xs) =
    let rest = before_comma xs in if has_prefix (x ∷ xs) (text ",") then [] else x ∷ rest

abbrev pub orderer_flags : Text
orderer_flags =
    text
      "-o orderer0.org1:7050 --tls --clientauth --cafile /net/crypto-config/ordererOrganizations/org1/tlsca/tlsca.org1-cert.pem --certfile /net/crypto-config/peerOrganizations/org1/users/Admin@org1/tls/client.crt --keyfile /net/crypto-config/peerOrganizations/org1/users/Admin@org1/tls/client.key"

abbrev definition_flags : List Text
definition_flags =
    text "--channelID" ∷ channel_id ∷ text "--name employeeprofilerecord --version 1.0" ∷ []

abbrev pub signature_policy : Text
signature_policy = text "--signature-policy \"AND('Org1MSP.peer','OrgClient-tenant01MSP.peer')\""

-- peers[0] and peers[2]
abbrev pub org1_peer : PeerNode
org1_peer = peer_of (text "peer0.org1") (text "Org1MSP") (text "org1")

abbrev pub tenant_peer : PeerNode
tenant_peer = peer_of (text "peer0.tenant01") (text "OrgClient-tenant01MSP") (text "tenant01")

-- The flags by which a command reaches a peer.
abbrev peer_flags : PeerNode → Text
peer_flags p =
    spaced (text "--peerAddresses" ∷ p.address ∷ text "--tlsRootCertFiles" ∷ p.tls_ca_file ∷ [])

abbrev pub install_command : PeerNode → Text
install_command p =
    spaced
      (peer_env p ∷ text "peer lifecycle chaincode install /cc/employeeprofilerecord.tar.gz" ∷ [])

abbrev pub installed_command : PeerNode → Text
installed_command p = spaced (peer_env p ∷ text "peer lifecycle chaincode queryinstalled" ∷ [])

unfoldable pub approve_for : Text → PeerNode → Step
approve_for package_id p = (
  text "approveformyorg by " ++ p.msp_id,
  spaced (
      peer_env p
      ∷ text "peer lifecycle chaincode approveformyorg"
      ∷ orderer_flags
      ∷ (definition_flags
          ++ (text "--package-id" ∷ package_id ∷ text "--sequence 2" ∷ signature_policy ∷ []))),
)

unfoldable pub check_readiness : Step
check_readiness = (
  text "checkcommitreadiness",
  spaced (
      peer_env org1_peer
      ∷ text "peer lifecycle chaincode checkcommitreadiness"
      ∷ orderer_flags
      ∷ (definition_flags ++ (text "--sequence 2" ∷ signature_policy ∷ text "--output json" ∷ []))),
)

unfoldable pub commit : Step
commit = (
  text "commit",
  spaced (
      peer_env org1_peer
      ∷ text "peer lifecycle chaincode commit"
      ∷ orderer_flags
      ∷ (definition_flags
          ++ (text "--sequence 2"
              ∷ signature_policy
              ∷ peer_flags org1_peer
              ∷ peer_flags tenant_peer
              ∷ []))),
)

unfoldable pub invoke_smoke : Step
invoke_smoke = (
  text "invoke RecordProfileSection (smoke test)",
  spaced (
      peer_env org1_peer
      ∷ text "peer chaincode invoke"
      ∷ orderer_flags
      ∷ text "-C"
      ∷ channel_id
      ∷ text
          "-n employeeprofilerecord -c '{\"function\":\"RecordProfileSection\",\"Args\":[\"tenant01\",\"cc5deadbeef00000000000000000000000000000000000000000000000001\",\"PERSONAL\",\"sha256:cc5smoketest0000000000000000000000000000000000000000000000000\",\"\",\"cc5actor000000000000000000000000000000000000000000000000000002\",\"[]\",\"JCS-RFC8785-v1\",\"SHA-256\",\"\"]}'"
      ∷ peer_flags org1_peer
      ∷ peer_flags tenant_peer
      ∷ text "--waitForEvent"
      ∷ []),
)

unfoldable pub query_smoke : Step
query_smoke = (
  text "query GetProfileSectionRecord (smoke test)",
  spaced (
      peer_env org1_peer
      ∷ text "peer chaincode query -C"
      ∷ channel_id
      ∷ text
          "-n employeeprofilerecord -c '{\"function\":\"GetProfileSectionRecord\",\"Args\":[\"tenant01\",\"cc5deadbeef00000000000000000000000000000000000000000000000001\",\"PERSONAL\"]}'"
      ∷ []),
)

-- Steps 2 to 5: the commands that are run one after another.
abbrev pub release_steps : Text → List Step
release_steps package_id =
    approve_for package_id org1_peer
    ∷ approve_for package_id tenant_peer
    ∷ check_readiness
    ∷ commit
    ∷ invoke_smoke
    ∷ []

module _ (trim_space : Text → Text) where
  -- The package ID in a line of queryinstalled.
  unfoldable pub package_id_of : Text → Option Text
  unfolding split_from second_of_two before_comma
  package_id_of line = elim (contains line package_label) [
    | false ↦ none
    | true ↦ elim (second_of_two (split line (text "Package ID: "))) [
      | none ↦ none
      | some rest ↦ some (trim_space (before_comma rest))
    ]
  ]

  unfoldable pub find_package_id : List Text → Option Text
  unfolding package_id_of
  find_package_id [] = none
  find_package_id (line ∷ lines) = elim (package_id_of line) [
    | some package_id ↦ some package_id
    | none ↦ find_package_id lines
  ]

module _ {D : Type 0} (docker : Docker D) where
  abbrev pub installed : PeerNode → Ran × D → Result (Unit {0}) × D
  installed p (ran, d) = elim ran.outcome [
    | ok u ↦ (ok tt, d)
    | err e ↦
        if contains ran.output (text "already successfully installed")
        then (ok tt, d)
        else (err (context (text "FATAL installing on %s") (p.name ∷ []) e), d)
  ]

  unfoldable pub install_on : PeerNode → Exec D (Unit {0})
  install_on p d = installed p (shell docker (install_command p) d)

  abbrev pub found_id : Option Text → Result Text
  found_id none = err (errorf (text "FATAL: could not find package ID in queryinstalled output") [])
  found_id (some package_id) = ok package_id

  unfoldable pub query_package_id : (Text → Text) → PeerNode → Exec D Text
  unfolding run_step find_package_id split_from
  query_package_id trim_space p = do
    out ← run_step docker (text "queryinstalled on " ++ p.name, installed_command p)
    lift (found_id (find_package_id trim_space (split out (text "\n"))))

  -- The last check of main.
  abbrev pub smoke_result : Text → Result (Unit {0})
  smoke_result out =
      if contains out (text "cc5smoketest")
      then ok tt
      else err (errorf (text "FAIL: query did not return the written dataHash") [])

  -- main
  unfoldable pub deploy : (Text → Text) → Exec D (Unit {0})
  unfolding each_of install_on query_package_id run_step
  deploy trim_space = do
    u ← each_of install_on peers
    package_id ← query_package_id trim_space org1_peer
    u' ← each_of (ran_step docker) (release_steps package_id)
    out ← run_step docker query_smoke
    lift (smoke_result out)
