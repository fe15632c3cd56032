-- ===== src/Tools/Netjoin.antt =====
-- fabric-network/tools/netjoin/main.go: the channel is joined by the orderers, then by the peers, and
-- then every peer is asked for its channels. Failing is the error that `fail` exits with; what is
-- printed and the pauses are left out.
pub mod Joined
use fabric_hris.Prelude.{
  Text, text, contains, Bool, true, false, ◌&&◌, not, List, [], ◌∷◌, ◌++◌, if◌then◌else◌,
}
use fabric_hris.Errors.{GoError, errorf, context, Result, ok, err}
use fabric_hris.Exec.{Exec, done, ◌>>=◌}
use fabric_hris.Tools.Shell.{Ran, Docker, shell}
use fabric_hris.Tools.Peers.{PeerNode, peers, peer_env}

abbrev pub channel_id : Text
channel_id = text "tenant-tenant01"

abbrev block_path : Text
block_path = text "/net/channel-artifacts/tenant-tenant01.block"

-- ordererNode
pub record OrdererNode : Type 0 where
  pub name : Text
  pub admin_addr : Text

abbrev pub orderers : List OrdererNode
orderers =
    record { name = text "orderer0.org1"; admin_addr = text "orderer0.org1:9443" }
    ∷ record { name = text "orderer1.org1"; admin_addr = text "orderer1.org1:9443" }
    ∷ record { name = text "orderer2.org1"; admin_addr = text "orderer2.org1:9443" }
    ∷ []

abbrev admin_tls : Text
admin_tls = text "/net/crypto-config/ordererOrganizations/org1/orderers/orderer0.org1/tls/"

-- The flags that end both osnadmin commands.
abbrev admin_flags : List Text
admin_flags =
    text "--ca-file"
    ∷ (admin_tls ++ text "ca.crt")
    ∷ text "--client-cert"
    ∷ (admin_tls ++ text "server.crt")
    ∷ text "--client-key"
    ∷ (admin_tls ++ text "server.key")
    ∷ []

abbrev pub list_orderer_args : OrdererNode → List Text
list_orderer_args o =
    text "osnadmin" ∷ text "channel" ∷ text "list" ∷ text "-o" ∷ o.admin_addr ∷ admin_flags

abbrev pub join_orderer_args : OrdererNode → List Text
join_orderer_args o =
    text "osnadmin"
    ∷ text "channel"
    ∷ text "join"
    ∷ text "--channelID"
    ∷ channel_id
    ∷ text "--config-block"
    ∷ block_path
    ∷ text "-o"
    ∷ o.admin_addr
    ∷ admin_flags

abbrev pub join_peer_command : PeerNode → Text
join_peer_command p = peer_env p ++ (text " peer channel join -b " ++ block_path)

abbrev pub list_command : PeerNode → Text
list_command p = peer_env p ++ text " peer channel list"

-- A loop that stops at the first error.
unfoldable pub each_of : {A D : Type 0} → (A → Exec D (Unit {0})) → List A → Exec D (Unit {0})
each_of step [] = done tt
each_of step (a ∷ rest) = do u ← step a; each_of step rest

-- err == nil && strings.Contains(out, channelID)
abbrev pub reports_joined : Ran → Bool
reports_joined ran = elim ran.outcome [ ok u ↦ contains ran.output channel_id | err e ↦ false ]

module _ {D : Type 0} (docker : Docker D) where
  -- What the join command of an orderer came to.
  abbrev pub joined_orderer : OrdererNode → Ran × D → Result (Unit {0}) × D
  joined_orderer o (ran, d) = elim ran.outcome [
    | ok u ↦ (ok tt, d)
    | err e ↦ (err (context (text "joining orderer %s") (o.name ∷ []) e), d)
  ]

  unfoldable pub join_orderer : OrdererNode → Exec D (Unit {0})
  join_orderer o d =
      let (listed, d') = docker.run (list_orderer_args o) d in
      if contains listed.output channel_id
      then (ok tt, d')
      else joined_orderer o (docker.run (join_orderer_args o) d')

  -- What the join command of a peer came to.
  abbrev pub joined_peer : PeerNode → Ran × D → Result (Unit {0}) × D
  joined_peer p (ran, d) = elim ran.outcome [
    | ok u ↦ (ok tt, d)
    | err e ↦
        if contains ran.output (text "already exists")
        then (ok tt, d)
        else (err (context (text "joining peer %s") (p.name ∷ []) e), d)
  ]

  unfoldable pub join_peer : PeerNode → Exec D (Unit {0})
  unfolding peer_env
  join_peer p d = joined_peer p (shell docker (join_peer_command p) d)

  unfoldable pub list_channels : PeerNode → D → Ran × D
  unfolding peer_env
  list_channels p = shell docker (list_command p)

  -- The loop that verifies, with allJoined so far.
  unfoldable pub verify_peers : List PeerNode → Bool × D → Bool × D
  unfolding list_channels
  verify_peers [] s = s
  verify_peers (p ∷ rest) (all_joined, d) =
      let (ran, d') = list_channels p d in verify_peers rest (all_joined && reports_joined ran, d')

  -- Step 3.
  abbrev pub verify_step : Exec D (Unit {0})
  verify_step d =
      let (all_joined, d') = verify_peers peers (true, d) in
      if all_joined
      then (ok tt, d')
      else (err (errorf (text "not all peers report channel %q joined") (channel_id ∷ [])), d')

  -- main
  unfoldable pub join_network : Exec D (Unit {0})
  unfolding each_of join_orderer join_peer verify_peers
  join_network = do u ← each_of join_orderer orderers; u' ← each_of join_peer peers; verify_step
