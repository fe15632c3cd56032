-- ===== src/Tests/Scan.antt =====
-- The ledger scan (fabric-network/tools/pilscan) on channels of one empty block.
use fabric_hris.Prelude.{ℕ, suc, text, ◌≡◌, ◌↔◌, refl, none, [], All, contains, has_prefix}
use fabric_hris.Errors.{ok}
use fabric_hris.Tools.Shell.{Docker}
use fabric_hris.Tools.Pilscan.Findings.{new_stats, run_checks, run_check, for_each}
use fabric_hris.Tools.Pilscan.Checks.{Json, check_args, scan_raw_backstop}
use fabric_hris.Tools.Pilscan.Block.{Protos, scan_block, parse_block}
use fabric_hris.Tools.Pilscan.Channel.{
  channels, exit_code, scan, sweep_channels, sweep_channel, scan_channel, scan_from, scan_numbers,
  scan_number, scan_fetched, newest_number, fetch_block, passes, no_findings, stats_list,
}
use fabric_hris.Tools.Pilscan.Quiet.{Quiet, NoFixture}
use fabric_hris.Tools.Pilscan.Arguments.{ten_args, WellShaped, check_args-Quiet_iff}
use fabric_hris.Tools.Pilscan.Swept.{SweptAll, scan-pass}

abbrev no_json : Json
no_json = record { decode_object = λ raw. none; decode_strings = λ raw. none }

abbrev empty_blocks : Protos
empty_blocks = record {
  block = λ raw. ok (record { number = 0; envelopes = [] });
  envelope = λ raw. none;
  payload = λ raw. none;
  channel_header = λ raw. none;
  endorser_transaction = 3;
  transaction = λ raw. none;
  action_payload = λ raw. none;
  proposal_payload = λ raw. none;
  invocation_spec = λ raw. none;
  response_payload = λ raw. none;
  chaincode_action = λ raw. none;
  read_write_set = λ raw. none;
  writes = λ raw. none;
  event = λ raw. none;
}

-- Commands succeed; the state counts them.
abbrev counting : Docker ℕ
counting = record {
  run = λ command n. (record { output = []; outcome = ok tt }, suc n);
  cat = λ path n. (ok (text "block"), suc n);
}

passing : exit_code (scan counting no_json empty_blocks 0).0 ≡ 0
unfolding scan sweep_channels sweep_channel scan_channel scan_from scan_numbers scan_number
    scan_fetched newest_number fetch_block passes no_findings stats_list parse_block scan_block
    scan_raw_backstop run_checks run_check for_each contains has_prefix text
passing = refl

scan-pass_example :
    SweptAll counting no_json empty_blocks channels 0 (scan counting no_json empty_blocks 0).1
scan-pass_example = scan-pass counting no_json empty_blocks 0 passing

check_args-Quiet_iff_example :
    Quiet (
      check_args no_json 1
        (text "RecordProfileSection")
        (ten_args
          (text "tenant01")
          (text "e")
          (text "PERSONAL")
          (text "h")
          []
          (text "u")
          (text "[]")
          (text "JCS")
          (text "SHA-256")
          [])
        (new_stats (text "c")))
    ↔ (WellShaped no_json (record {
      employee_id = text "e";
      section = text "PERSONAL";
      data_hash = text "h";
      prev_hash = [];
      updated_by = text "u";
      cids = text "[]";
    })
        × All NoFixture (
            ten_args
              (text "tenant01")
              (text "e")
              (text "PERSONAL")
              (text "h")
              []
              (text "u")
              (text "[]")
              (text "JCS")
              (text "SHA-256")
              [])
        × Quiet (new_stats (text "c")))
check_args-Quiet_iff_example =
    check_args-Quiet_iff no_json 1 (text "tenant01") (text "e") (text "PERSONAL") (text "h") []
      (text "u") (text "[]") (text "JCS") (text "SHA-256") [] (new_stats (text "c"))
