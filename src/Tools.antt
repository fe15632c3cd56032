-- ===== src/Tools.antt =====
-- fabric-network/tools: the command-line programs that set the network up and check it.
pub mod Shell
pub mod Peers
pub mod Netjoin
pub mod Pilscan
pub mod Ccdeploy
pub mod Raft
