-- ===== src/Tests/Raft.antt =====
-- The run of fabric-network/tools/raftfaulttest/main.go where every command succeeds and the height
-- stays 5; the state counts what was done.
use fabric_hris.Prelude.{ℕ, ◌+◌, Text, text, has_prefix, contains, ◌==◌, ◌≡◌, refl}
use fabric_hris.Errors.{ok}
use fabric_hris.Tools.Shell.{Ran}
use fabric_hris.Tools.Raft.FaultTest.{
  Height, Lab, next_timeout, next_timeout2, block_height, current_batch_timeout, fault_test,
}
use fabric_hris.Tools.Raft.Verdict.{Probed, WentThrough, Halted, fault_test-ok}

abbrev lab : Lab ℕ
lab = record {
  docker = record {
    run = λ args n. (record { output = text "Successfully submitted"; outcome = ok tt }, n + 1);
    cat = λ path n. (ok path, n);
  };
  docker_stop = λ containers n. n + 1;
  docker_start = λ containers n. n + 1;
}

abbrev trim : Text → Text
trim t = t

abbrev height : Text → ℕ
height t = 5

-- The height four times, the start once, and twice: a stop, the timeout, fourteen steps, an update.
tested : fault_test lab trim height 0 ≡ (ok tt, 39)
unfolding fault_test text contains has_prefix ◌==◌
tested = refl

fault_test-ok_example :
    (start : Height) × (current current2 : Text) × (first second : Ran × Height) × (d1 d2 d3 d4
      d5 : ℕ)
    × (block_height lab trim height 0 ≡ (start, d1))
    × (current_batch_timeout lab trim height (d1 + 1) ≡ (current, d2))
    × Probed lab trim height 1 (next_timeout current) first.0 first.1 d2 d3
    × WentThrough first.0 first.1 start
    × (current_batch_timeout lab trim height (d3 + 1) ≡ (current2, d4))
    × Probed lab trim height 2 (next_timeout2 current2) second.0 second.1 d4 d5
    × Halted second.0 second.1 first.1
    × (39 ≡ (block_height lab trim height (d5 + 1)).1)
fault_test-ok_example = fault_test-ok lab trim height 0 39 tested
