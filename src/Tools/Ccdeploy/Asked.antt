-- ===== src/Tools/Ccdeploy/Asked.antt =====
-- ccdeploy/main.go: what the commands of a run ask for, peer by peer.
use fabric_hris.Prelude.{
  Text, text, contains, contains_middle, has_prefix, has_prefix-append, has_suffix,
  contains-append_left, ◌≡◌, refl, sym, ap, ◌∙◌, true, List, [], ◌∷◌, ◌++◌, All,
}
use mathlib.Core.List.{append-nil}
use fabric_hris.Tools.Shell.{spaced}
use fabric_hris.Tools.Peers.{PeerNode, peer_env, trim_suffix}
use fabric_hris.Tools.Ccdeploy.{
  org1_peer, tenant_peer, install_command, installed_command, approve_for, check_readiness, commit,
  invoke_smoke, query_smoke, orderer_flags, signature_policy,
}

-- A command in the environment of the peer, with these words after it, that has these parts.
abbrev pub Asks : Text → PeerNode → Text → List Text → Type 0
Asks command p words parts =
    (has_prefix command (peer_env p ++ (text " " ++ words)) ≡ true)
    × All (λ part. contains command part ≡ true) parts

has_prefix_self : (s : Text) → has_prefix s s ≡ true
has_prefix_self s = ap (λ t. has_prefix t s) (sym (append-nil s)) ∙ has_prefix-append s []

pub install_command-Asks :
    (p : PeerNode)
    → Asks
        (install_command p)
        p
        (text "peer lifecycle chaincode install /cc/employeeprofilerecord.tar.gz")
        []
unfolding spaced
install_command-Asks p = (has_prefix_self (install_command p), tt)

pub installed_command-Asks :
    (p : PeerNode)
    → Asks (installed_command p) p (text "peer lifecycle chaincode queryinstalled") []
unfolding spaced
installed_command-Asks p = (has_prefix_self (installed_command p), tt)

-- What a step of the release is: its peer, the words of its command, and parts of it.
abbrev pub Task : Type 0
Task = PeerNode × Text × List Text

abbrev pub AsksTask : Text → Task → Type 0
AsksTask command (p, words, parts) = Asks command p words parts

abbrev definition : List Text
definition =
    text "--channelID tenant-tenant01" ∷ text "--name employeeprofilerecord --version 1.0" ∷ []

abbrev pub approval : Text → PeerNode → Task
approval id p =
    (p, text "peer lifecycle chaincode approveformyorg ", (text "--package-id " ++ id) ∷ definition)

abbrev pub readiness : Task
readiness = (org1_peer, text "peer lifecycle chaincode checkcommitreadiness ", definition)

abbrev pub commitment : Task
commitment = (
  org1_peer,
  text "peer lifecycle chaincode commit ",
  text "--peerAddresses peer0.org1:7051" ∷ text "--peerAddresses peer0.tenant01:7051" ∷ definition,
)

abbrev smoke_hash : Text
smoke_hash = text "sha256:cc5smoketest0000000000000000000000000000000000000000000000000"

abbrev smoke_employee : Text
smoke_employee = text "cc5deadbeef00000000000000000000000000000000000000000000000001"

abbrev pub invocation : Task
invocation = (
  org1_peer,
  text "peer chaincode invoke ",
  text "RecordProfileSection" ∷ smoke_employee ∷ smoke_hash ∷ [],
)

abbrev pub query : Task
query =
    (org1_peer, text "peer chaincode query ", text "GetProfileSectionRecord" ∷ smoke_employee ∷ [])

-- What an approval's command says of the ID, with what stands around it.
approve_for-id :
    (id : Text) (p : PeerNode) → contains (approve_for id p).1 (text "--package-id " ++ id) ≡ true
unfolding approve_for spaced text
approve_for-id id p = contains-append_left (peer_env p) _ (text "--package-id " ++ id) (
    contains_middle
      (text " peer lifecycle chaincode approveformyorg "
        ++ (orderer_flags
            ++ text " --channelID tenant-tenant01 --name employeeprofilerecord --version 1.0 "))
      (text "--package-id " ++ id) (text " --sequence 2 " ++ signature_policy))

pub approve_for-org1 : (id : Text) → AsksTask (approve_for id org1_peer).1 (approval id org1_peer)
unfolding approve_for spaced text has_prefix has_suffix contains peer_env trim_suffix
approve_for-org1 id = (refl, (approve_for-id id org1_peer, (refl, (refl, tt))))

pub approve_for-tenant :
    (id : Text) → AsksTask (approve_for id tenant_peer).1 (approval id tenant_peer)
unfolding approve_for spaced text has_prefix has_suffix contains peer_env trim_suffix
approve_for-tenant id = (refl, (approve_for-id id tenant_peer, (refl, (refl, tt))))

pub check_readiness-Asks : AsksTask check_readiness.1 readiness
unfolding check_readiness spaced text has_prefix has_suffix contains peer_env trim_suffix
check_readiness-Asks = (refl, (refl, (refl, tt)))

pub commit-Asks : AsksTask commit.1 commitment
unfolding commit spaced text has_prefix has_suffix contains peer_env trim_suffix
commit-Asks = (refl, (refl, (refl, (refl, (refl, tt)))))

pub invoke_smoke-Asks : AsksTask invoke_smoke.1 invocation
unfolding invoke_smoke spaced text has_prefix has_suffix contains peer_env trim_suffix
invoke_smoke-Asks = (refl, (refl, (refl, (refl, tt))))

pub query_smoke-Asks : AsksTask query_smoke.1 query
unfolding query_smoke spaced text has_prefix has_suffix contains peer_env trim_suffix
query_smoke-Asks = (refl, (refl, (refl, tt)))
