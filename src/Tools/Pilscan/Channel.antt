-- ===== src/Tools/Pilscan/Channel.antt =====
-- pilscan/main.go: fetchBlock, scanChannel, main and the totals of writeReport. What is printed is
-- left out; the exit status is the verdict. Block numbers are natural numbers.
use fabric_hris.Prelude.{
  ℕ, zero, suc, ◌+◌, Text, text, Bytes, Bool, true, false, ◌&&◌, Option, none, some, List, [], ◌∷◌,
  ◌++◌, if◌then◌else◌,
}
use fabric_hris.Errors.{Result, ok, err, context}
use fabric_hris.Exec.{Exec, done, ◌>>=◌}
use fabric_hris.Keystore.Decimal.{decimal}
use fabric_hris.Tools.Shell.{Docker, shell}
use fabric_hris.Tools.Pilscan.Findings.{Finding, ChannelStats, new_stats}
use fabric_hris.Tools.Pilscan.Checks.{Json}
use fabric_hris.Tools.Pilscan.Block.{Protos, parse_block}

abbrev pub channels : List Text
channels = text "tenant-tenant01" ∷ text "tenant-tenant02" ∷ []

abbrev container_scratch_dir : Text
container_scratch_dir = text "/tmp/pilscan"

abbrev org1_admin : Text
org1_admin = text "/net/crypto-config/peerOrganizations/org1/users/Admin@org1"

abbrev peer_cli_env : Text
peer_cli_env =
    text "CORE_PEER_LOCALMSPID=Org1MSP CORE_PEER_MSPCONFIGPATH="
    ++ (org1_admin
        ++ (text
              "/msp CORE_PEER_ADDRESS=peer0.org1:7051 CORE_PEER_TLS_ENABLED=true CORE_PEER_TLS_ROOTCERT_FILE=/net/crypto-config/peerOrganizations/org1/tlsca/tlsca.org1-cert.pem CORE_PEER_TLS_CLIENTAUTHREQUIRED=true CORE_PEER_TLS_CLIENTCERT_FILE="
            ++ (org1_admin
                ++ (text "/tls/client.crt CORE_PEER_TLS_CLIENTKEY_FILE="
                    ++ (org1_admin ++ text "/tls/client.key")))))

abbrev orderer_tls_client_flags : Text
orderer_tls_client_flags =
    text "--clientauth --certfile "
    ++ (org1_admin ++ (text "/tls/client.crt --keyfile " ++ (org1_admin ++ text "/tls/client.key")))

abbrev pub block_path : Text → Text → Text
block_path channel spec =
    container_scratch_dir ++ (text "/" ++ (channel ++ (text "_" ++ (spec ++ text ".block"))))

abbrev pub fetch_command : Text → Text → Text
fetch_command channel spec =
    peer_cli_env
    ++ (text " peer channel fetch "
        ++ (spec
            ++ (text " "
                ++ (block_path channel spec
                    ++ (text " -c "
                        ++ (channel
                            ++ (text
                                  " -o orderer0.org1:7050 --tls --cafile /net/crypto-config/ordererOrganizations/org1/tlsca/tlsca.org1-cert.pem "
                                ++ orderer_tls_client_flags)))))))

-- The channels' statistics, newest last, and overallPass.
pub record Sweep : Type 0 where
  pub all_stats : List ChannelStats
  pub overall_pass : Bool

-- What append adds for a result of scanChannel, nil or not.
unfoldable pub stats_list : Option ChannelStats → List ChannelStats
stats_list none = []
stats_list (some stats) = stats ∷ []

-- len(stats.Findings) > 0
unfoldable pub no_findings : List Finding → Bool
no_findings [] = true
no_findings (f ∷ fs) = false

-- Whether a result leaves overallPass alone.
unfoldable pub passes : Option ChannelStats × Result (Unit {0}) → Bool
unfolding no_findings
passes (none, r) = false
passes (some stats, err e) = false
passes (some stats, ok u) = no_findings stats.findings

module _ {D : Type 0} (docker : Docker D) (json : Json) (p : Protos) where
  unfoldable pub fetch_block : Text → Text → Exec D Bytes
  fetch_block channel spec d =
      let (ran, d') = shell docker (fetch_command channel spec) d in
      elim ran.outcome [
        | err e ↦ (
          err (
              context (text "peer channel fetch %s (channel=%s): %w\n%s")
                (spec ∷ channel ∷ ran.output ∷ []) e),
          d',
        )
        | ok u ↦
            let (read, d'') = docker.cat (block_path channel spec) d' in
            elim read [
              | err e ↦ (
                err (
                    context (text "reading back fetched block %s (channel=%s)")
                      (spec ∷ channel ∷ []) e),
                d'',
              )
              | ok raw ↦ (ok raw, d'')
            ]
      ]

  -- The loop's body: a block is fetched and parsed.
  unfoldable pub scan_fetched :
      ℕ → Result Bytes × D → ChannelStats → Result (Unit {0}) × (ChannelStats × D)
  unfolding parse_block
  scan_fetched n (err e, d) stats =
      (err (context (text "fetching block %d") (decimal n ∷ []) e), (stats, d))
  scan_fetched n (ok raw, d) stats =
      let (parsed, stats') = parse_block json p raw stats in
      elim parsed [
        | err e ↦ (err (context (text "parsing block %d") (decimal n ∷ []) e), (stats', d))
        | ok u ↦ (ok tt, (stats', d))
      ]

  unfoldable pub scan_number : Text → ℕ → Exec (ChannelStats × D) (Unit {0})
  unfolding fetch_block scan_fetched
  scan_number channel n (stats, d) = scan_fetched n (fetch_block channel (decimal n) d) stats

  -- The loop from block `n`, with so many blocks left.
  unfoldable pub scan_numbers : Text → ℕ → ℕ → Exec (ChannelStats × D) (Unit {0})
  unfolding scan_number
  scan_numbers channel zero n = done tt
  scan_numbers channel (suc left) n = do
    u ← scan_number channel n
    scan_numbers channel left (suc n)

  -- The newest block's number.
  unfoldable pub newest_number : Text → Exec D ℕ
  unfolding fetch_block
  newest_number channel d =
      let (ran, d') = shell docker (text "mkdir -p " ++ container_scratch_dir) d in
      elim ran.outcome [
        | err e ↦ (err (context (text "mkdir scratch dir") [] e), d')
        | ok u ↦
            let (newest, d'') = fetch_block channel (text "newest") d' in
            elim newest [
              | err e ↦
                  (err (context (text "fetching newest block for height discovery") [] e), d'')
              | ok raw ↦ elim (p.block raw) [
                | err e ↦ (err (context (text "unmarshal newest block") [] e), d'')
                | ok b ↦ (ok b.number, d'')
              ]
            ]
      ]

  -- scanChannel from the newest block's number on.
  unfoldable pub scan_from : Text → Result ℕ × D → (Option ChannelStats × Result (Unit {0})) × D
  unfolding scan_numbers
  scan_from channel (err e, d) = ((none, err e), d)
  scan_from channel (ok height, d) =
      let (r, s) = scan_numbers channel (suc height) 0 (new_stats channel, d) in
      ((some s.0, r), s.1)

  -- The statistics (nil where none were made yet), the error, and the containers' state.
  unfoldable pub scan_channel : Text → D → (Option ChannelStats × Result (Unit {0})) × D
  unfolding newest_number scan_from
  scan_channel channel d = scan_from channel (newest_number channel d)

  -- The body of main's loop.
  unfoldable pub sweep_channel : Text → Sweep × D → Sweep × D
  unfolding scan_channel stats_list passes
  sweep_channel channel (sweep, d) =
      let (result, d') = scan_channel channel d in
      (
        record {
          all_stats = sweep.all_stats ++ stats_list result.0;
          overall_pass = sweep.overall_pass && passes result;
        },
        d',
      )

  unfoldable pub sweep_channels : List Text → Sweep × D → Sweep × D
  unfolding sweep_channel
  sweep_channels [] s = s
  sweep_channels (channel ∷ rest) s = sweep_channels rest (sweep_channel channel s)

  -- main: what writeReport is given.
  unfoldable pub scan : D → Sweep × D
  unfolding sweep_channels
  scan d = sweep_channels channels (record { all_stats = []; overall_pass = true }, d)

-- The exit status.
abbrev pub exit_code : Sweep → ℕ
exit_code sweep = if sweep.overall_pass then 0 else 1

-- The totals of writeReport.
pub record Totals : Type 0 where
  pub blocks : ℕ
  pub envelopes : ℕ
  pub tx_args : ℕ
  pub writes : ℕ
  pub events : ℕ
  pub cids : ℕ
  pub all_findings : List Finding

unfoldable pub add_totals : Totals → List ChannelStats → Totals
add_totals t [] = t
add_totals t (s ∷ all) =
    add_totals
      (record {
        blocks = t.blocks + s.blocks_scanned;
        envelopes = t.envelopes + s.envelopes;
        tx_args = t.tx_args + s.tx_args_checked;
        writes = t.writes + s.world_state_writes;
        events = t.events + s.events_checked;
        cids = t.cids + s.ipfs_cids_checked;
        all_findings = t.all_findings ++ s.findings;
      })
      all

unfoldable pub totals_of : List ChannelStats → Totals
unfolding add_totals
totals_of = add_totals (record {
  blocks = 0;
  envelopes = 0;
  tx_args = 0;
  writes = 0;
  events = 0;
  cids = 0;
  all_findings = [];
})
