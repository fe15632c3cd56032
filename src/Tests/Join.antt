-- ===== src/Tests/Join.antt =====
-- The run of fabric-network/tools/netjoin/main.go against containers where every command succeeds and
-- prints the name of the channel; the state counts the commands.
use fabric_hris.Prelude.{ℕ, ◌+◌, text, contains, ◌≡◌, refl}
use fabric_hris.Errors.{ok}
use fabric_hris.Tools.Shell.{Docker}
use fabric_hris.Tools.Peers.{peers}
use fabric_hris.Tools.Netjoin.{orderers, channel_id, join_network}
use fabric_hris.Tools.Netjoin.Joined.{
  EachDid, OrdererJoined, PeerJoined, PeerLists, join_network-ok,
}

abbrev docker : Docker ℕ
docker = record {
  run = λ args n. (record { output = channel_id; outcome = ok tt }, n + 1);
  cat = λ path n. (ok path, n);
}

-- Three orderers list the channel, four peers join and four list.
joins : join_network docker 0 ≡ (ok tt, 11)
unfolding join_network contains text
joins = refl

join_network-ok_example :
    (d1 d2 : ℕ) × EachDid (OrdererJoined docker) orderers 0 d1
    × EachDid (PeerJoined docker) peers d1 d2
    × EachDid (PeerLists docker) peers d2 11
join_network-ok_example = join_network-ok docker 0 11 joins
