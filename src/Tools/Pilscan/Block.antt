-- ===== src/Tools/Pilscan/Block.antt =====
-- pilscan/main.go: parseBlock, the walk through one block's envelopes. The protobuf decoders are the
-- fields of `Protos`; a message is the record of the fields that the walk reads, the getters of
-- absent ones included.
use fabric_hris.Prelude.{
  ℕ, suc, Text, text, Bytes, ◌==◌, ltb, nat_eq, Option, List, [], ◌∷◌, if◌then◌else◌,
}
use fabric_hris.Errors.{Result, ok, err, context}
use fabric_hris.Exec.{Exec}
use fabric_hris.Tools.Pilscan.Findings.{ChannelStats, Check, decoded, for_each, leak, run_check}
use fabric_hris.Tools.Pilscan.Checks.{
  Json, scan_raw_backstop, check_record_json, check_args, truncate,
}

abbrev pub chaincode_name : Text
chaincode_name = text "employeeprofilerecord"

-- common.Block: its number, and its envelopes.
pub record Block : Type 0 where
  pub number : ℕ
  pub envelopes : List Bytes

-- common.Payload: the channel header, and the data.
pub record Payload : Type 0 where
  pub channel_header : Bytes
  pub content : Bytes

-- peer.ChaincodeActionPayload: the proposal's payload, and the response's.
pub record ActionPayload : Type 0 where
  pub proposal : Bytes
  pub response : Bytes

-- peer.ChaincodeAction
pub record ChaincodeAction : Type 0 where
  pub results : Bytes
  pub events : Bytes

-- kvrwset.KVWrite
pub record Write : Type 0 where
  pub key : Text
  pub value : Bytes

-- peer.ChaincodeEvent
pub record Event : Type 0 where
  pub chaincode_id : Text
  pub event_name : Text
  pub tx_id : Text
  pub payload : Bytes

pub record Protos : Type 0 where
  pub block : Bytes → Result Block
  -- common.Envelope, its payload
  pub envelope : Bytes → Option Bytes
  pub payload : Bytes → Option Payload
  -- common.ChannelHeader, its type
  pub channel_header : Bytes → Option ℕ
  pub endorser_transaction : ℕ
  -- peer.Transaction, the payloads of its actions
  pub transaction : Bytes → Option (List Bytes)
  pub action_payload : Bytes → Option ActionPayload
  -- peer.ChaincodeProposalPayload, its input
  pub proposal_payload : Bytes → Option Bytes
  -- peer.ChaincodeInvocationSpec, the arguments of its input
  pub invocation_spec : Bytes → Option (List Bytes)
  -- peer.ProposalResponsePayload, its extension
  pub response_payload : Bytes → Option Bytes
  pub chaincode_action : Bytes → Option ChaincodeAction
  -- rwset.TxReadWriteSet, its namespaces and their sets
  pub read_write_set : Bytes → Option (List (Text × Bytes))
  pub writes : Bytes → Option (List Write)
  pub event : Bytes → Option Event

-- One envelope more, and one more of its kind.
abbrev pub endorser_counted : ChannelStats → ChannelStats
endorser_counted stats = record stats {
  envelopes = suc stats.envelopes;
  endorser_tx_envelopes = suc stats.endorser_tx_envelopes;
}

abbrev pub config_counted : ChannelStats → ChannelStats
config_counted stats = record stats {
  envelopes = suc stats.envelopes;
  config_envelopes = suc stats.config_envelopes;
}

-- One block more.
abbrev pub block_counted : Block → ChannelStats → ChannelStats
block_counted b stats = record stats {
  blocks_scanned = suc stats.blocks_scanned;
  highest_block_number =
      if ltb stats.highest_block_number b.number then b.number else stats.highest_block_number;
}

module _ (json : Json) (p : Protos) (block : ℕ) where
  abbrev pub write_location : Text → Write → List Text
  write_location namespace w = text "world-state-write ns=%s key=%s" ∷ namespace ∷ w.key ∷ []

  abbrev pub write_leak : Write → Check
  write_leak w =
      leak w.value (text "write value contains fixture string %q: %q" ∷ [])
        (truncate w.value 200 ∷ [])

  unfoldable pub check_write : Text → Write → ChannelStats → ChannelStats
  unfolding run_check check_record_json truncate
  check_write namespace w stats =
      let s =
        run_check block (write_location namespace w) (write_leak w)
          (record stats { world_state_writes = suc stats.world_state_writes }) in
      if namespace == chaincode_name
      then check_record_json json block (write_location namespace w) w.value s
      else s

  unfoldable pub check_namespace : Text × Bytes → ChannelStats → ChannelStats
  unfolding for_each check_write
  check_namespace (namespace, set) = decoded (p.writes set) (for_each (check_write namespace))

  abbrev pub event_location : Event → List Text
  event_location e =
      text "event chaincodeId=%s eventName=%s txId=%s"
      ∷ e.chaincode_id
      ∷ e.event_name
      ∷ e.tx_id
      ∷ []

  abbrev pub event_leak : Event → Check
  event_leak e =
      leak e.payload (text "event payload contains fixture string %q: %q" ∷ [])
        (truncate e.payload 200 ∷ [])

  unfoldable pub check_event : Event → ChannelStats → ChannelStats
  unfolding run_check check_record_json truncate
  check_event e stats = check_record_json json block (event_location e) e.payload (
      run_check block (event_location e) (event_leak e)
        (record stats { events_checked = suc stats.events_checked }))

  unfoldable pub check_results : Bytes → ChannelStats → ChannelStats
  unfolding for_each check_namespace
  check_results [] stats = stats
  check_results (b ∷ results) stats =
      decoded (p.read_write_set (b ∷ results)) (for_each check_namespace) stats

  unfoldable pub check_events : Bytes → ChannelStats → ChannelStats
  unfolding check_event
  check_events [] stats = stats
  check_events (b ∷ events) stats = decoded (p.event (b ∷ events)) check_event stats

  -- (b) world-state writes and events
  unfoldable pub check_response : Bytes → ChannelStats → ChannelStats
  unfolding check_results check_events
  check_response response = decoded (p.response_payload response) λ extension.
      decoded (p.chaincode_action extension)
        λ action stats. check_events action.events (check_results action.results stats)

  unfoldable pub check_input : List Bytes → ChannelStats → ChannelStats
  unfolding check_args
  check_input [] stats = stats
  check_input (fn ∷ args) stats =
      check_args json block fn args
        (record stats { chaincode_invocations = suc stats.chaincode_invocations })

  -- (a) arguments as submitted
  unfoldable pub check_proposal : Bytes → ChannelStats → ChannelStats
  unfolding check_input
  check_proposal proposal =
      decoded (p.proposal_payload proposal) λ input. decoded (p.invocation_spec input) check_input

  unfoldable pub check_action : Bytes → ChannelStats → ChannelStats
  unfolding check_proposal check_response
  check_action payload =
      decoded (p.action_payload payload)
        λ a stats. check_response a.response (check_proposal a.proposal stats)

  -- An envelope from its channel header's type on.
  unfoldable pub check_typed : ℕ → Bytes → ChannelStats → ChannelStats
  unfolding for_each check_action
  check_typed type content stats =
      if nat_eq type p.endorser_transaction
      then decoded (p.transaction content) (for_each check_action) (endorser_counted stats)
      else config_counted stats

  unfoldable pub check_envelope : Bytes → ChannelStats → ChannelStats
  unfolding check_typed
  check_envelope envelope = decoded (p.envelope envelope) λ payload.
      decoded (p.payload payload)
        λ body. decoded (p.channel_header body.channel_header) λ type. check_typed type body.content

-- A block from its decoding on.
unfoldable pub scan_block : Json → Protos → Block → Bytes → ChannelStats → ChannelStats
unfolding for_each check_envelope scan_raw_backstop
scan_block json p b raw stats =
    for_each (check_envelope json p b.number) b.envelopes
      (scan_raw_backstop b.number raw (block_counted b stats))

unfoldable pub parse_block : Json → Protos → Bytes → Exec ChannelStats (Unit {0})
unfolding scan_block
parse_block json p raw stats = elim (p.block raw) [
  | err e ↦ (err (context (text "unmarshal common.Block") [] e), stats)
  | ok b ↦ (ok tt, scan_block json p b raw stats)
]
