-- ===== src/Tools/Pilscan/Findings.antt =====
-- pilscan/main.go: what the scan counts and finds. A finding's location and detail are formats with
-- their arguments, not rendered.
use fabric_hris.Prelude.{ℕ, Text, Bool, Option, none, some, List, [], ◌∷◌, ◌++◌, if◌then◌else◌}
use fabric_hris.Tools.Pilscan.Patterns.{contains_fixture}

-- finding
pub record Finding : Type 0 where
  pub channel : Text
  pub block : ℕ
  pub location : List Text
  pub details : List Text

-- channelStats
pub record ChannelStats : Type 0 where
  pub channel : Text
  pub blocks_scanned : ℕ
  pub highest_block_number : ℕ
  pub envelopes : ℕ
  pub config_envelopes : ℕ
  pub endorser_tx_envelopes : ℕ
  pub chaincode_invocations : ℕ
  pub tx_args_checked : ℕ
  pub world_state_writes : ℕ
  pub events_checked : ℕ
  pub ipfs_cids_checked : ℕ
  pub raw_bytes_scanned : ℕ
  pub findings : List Finding

-- &channelStats{Channel: channel}
abbrev pub new_stats : Text → ChannelStats
new_stats channel = record {
  channel = channel;
  blocks_scanned = 0;
  highest_block_number = 0;
  envelopes = 0;
  config_envelopes = 0;
  endorser_tx_envelopes = 0;
  chaincode_invocations = 0;
  tx_args_checked = 0;
  world_state_writes = 0;
  events_checked = 0;
  ipfs_cids_checked = 0;
  raw_bytes_scanned = 0;
  findings = [];
}

-- A loop over a slice that changes what `stats` points to.
unfoldable pub for_each {ℓ} :
    {A : Type ℓ} → (A → ChannelStats → ChannelStats) → List A → ChannelStats → ChannelStats
for_each body [] stats = stats
for_each body (x ∷ xs) stats = for_each body xs (body x stats)

-- One `if` of the checks: a violation, where a test holds; or a leak, where a text contains a string
-- of the dictionary, which stands in the detail after `before`.
pub data Check : Type 0 where
  violation : Bool → List Text → Check
  leak : Text → List Text → List Text → Check

-- stats.Findings = append(stats.Findings, finding{...})
unfoldable pub report : ℕ → List Text → List Text → ChannelStats → ChannelStats
report block location details stats = record stats {
  findings =
      stats.findings
      ++ (record { channel = stats.channel; block = block; location = location; details = details }
          ∷ []);
}

unfoldable pub run_check : ℕ → List Text → Check → ChannelStats → ChannelStats
unfolding report contains_fixture
run_check block location (violation test details) stats =
    if test then report block location details stats else stats
run_check block location (leak s before after) stats = elim (contains_fixture s) [
  | none ↦ stats
  | some f ↦ report block location (before ++ (f ∷ after)) stats
]

unfoldable pub run_checks : ℕ → List Text → List Check → ChannelStats → ChannelStats
unfolding for_each run_check
run_checks block location = for_each (run_check block location)

-- `body` of what was decoded; nothing where it was not.
abbrev pub decoded {ℓ} :
    {A : Type ℓ} → Option A → (A → ChannelStats → ChannelStats) → ChannelStats → ChannelStats
decoded none body stats = stats
decoded (some a) body stats = body a stats
