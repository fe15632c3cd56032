-- ===== src/Lib.antt =====
-- Fabric HRIS: the anchoring of HR profile sections on a Hyperledger Fabric ledger.
--
-- A write of an employee's profile section comes in over HTTP at the bridge, is saved in the
-- operational store by a write-path hook, and is anchored in the same request: the hook gets the
-- employee's key and a fresh salt from the key store, computes the digests, and submits them
-- through the gateway client to the chaincode, which keeps one hash chain per employee pseudonym
-- and section. A verifier recomputes the digest from the salt and compares it with the chain. An
-- erasure destroys the off-chain secrets and leaves the chain alone.
--
-- Chaincode.antt   fabric-network/chaincode/employeeprofilerecord/chaincode. Asset, Identity,
--   Record and Queries model asset.go, identity.go, record_profile_section.go with contract.go,
--   and queries.go. A transaction reads through `Stub` and leaves `Effects`. Ledger is the list of
--   committed writes; its `commit` step has the premise that Fabric's read-version check gives.
-- Keystore.antt    write-path-integration/keystore. Memory, File and Handoff model keystore.go,
--   filestore.go and handoff.go; Interface has the records that clients take. What crypto/rand
--   returns is an argument (`Entropy`).
-- Gateway.antt     write-path-integration/gateway-client. Digest, Submit with Extract, and Verify
--   model digestbuilder.go, gatewayclient.go and verify.go. The retry loop recurses on the number
--   of attempts that are left, which starts at MaxSubmitRetries + 1 as in the source.
-- WritePaths.antt  write-path-integration/writepaths. Store, Hooks and Erasure model writepaths.go
--   with ports.go, and erasure.go. The state of a hook is a `World`: the operational store, the
--   states of the ports, and the calls of OnPartialFailure.
-- Bridge.antt      integration-bridge. Http and Route model the profile-section route of
--   internal/pipeline, Reads the verify route, History the history route; Wiring models
--   wiring.go and the mux of main.go, Process the configuration, timeouts and shutdown, all of
--   cmd/integrationbridge.
-- Ipfs.antt        write-path-integration/ipfsclient: a document is encrypted, added to the primary
--   node and pinned on the replica; it is fetched from the primary and decrypted.
-- Tools.antt       fabric-network/tools. Pilscan models pilscan/main.go, the scan of every block for
--   personal data, Netjoin with Peers netjoin/main.go, the joining of the channel, Ccdeploy
--   ccdeploy/main.go, the deployment of the chaincode, and Raft raftfaulttest/main.go, the test with
--   stopped orderers. The docker commands that they run are parameters of a state type (Shell).
-- Errors.antt and Exec.antt have Go errors as values and code that changes a state and may fail;
-- Prelude.antt the texts, lists and maps. Tests.antt applies the theorems to small inputs.
--
-- Strings and byte slices are lists of native numbers. An on-chain version is a Go int, kept as
-- its 64-bit pattern with the wrap-around written out, and so are the counters of the operational
-- store and the versions of the bridge. Contexts are left out, but for the deadline test
-- of the bridge's dispatch, which is a parameter. No port of the hooks is nil, as the bridge wires
-- them. Fabric's shim and gateway library, the JSON codec and canonicalizer, AES-GCM, gob, hashes
-- and the file system are parameters, with the documented behaviour as named hypotheses.
--
-- Not modelled: the tools tenantprovision and jcsverify under
-- fabric-network/tools, connection and certificate set-up, the start of the HTTP server
-- and the start of the chaincode server: they run other programs, edit configuration
-- files or open connections.
pub mod Prelude
pub mod Errors
pub mod Exec
pub mod Chaincode
pub mod Keystore
pub mod Gateway
pub mod WritePaths
pub mod Ipfs
pub mod Bridge
pub mod Tools
pub mod Tests
