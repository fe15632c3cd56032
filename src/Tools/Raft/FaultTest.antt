-- ===== src/Tools/Raft/FaultTest.antt =====
-- raftfaulttest/main.go: the probes and the run. Exiting is failing with the error that is printed;
-- what else is printed and the pauses are left out. A failed stop or start is only warned about.
-- strings.TrimSpace and what fmt.Sscanf reads from a text as the height, 0 where it reads none, are
-- parameters.
use fabric_hris.Prelude.{
  ℕ, Text, text, ◌==◌, is_empty, contains, ltb, not, Bool, true, false, ◌&&◌, ◌||◌, Option, none,
  some, List, [], ◌∷◌, ◌++◌, map, if◌then◌else◌,
}
use fabric_hris.Errors.{errorf, Result, ok, err}
use fabric_hris.Exec.{Exec, done, lift, ◌>>=◌}
use fabric_hris.Tools.Shell.{spaced, run_step, ran_step, Ran, Docker, shell}
use fabric_hris.Tools.Netjoin.{channel_id, each_of}
use fabric_hris.Tools.Raft.{signers, org1_env, orderer_args, base_of, update_steps, sign_step}

-- A block height; none stands for -1.
abbrev pub Height : Type 0
Height = Option ℕ

-- a > b
unfoldable pub higher : Height → Height → Bool
higher none b = false
higher (some a) none = true
higher (some a) (some b) = ltb b a

abbrev pub succeeded : Ran → Bool
succeeded ran = elim ran.outcome [ ok u ↦ true | err e ↦ false ]

-- probe1OK, from the submission and the heights after it and before.
unfoldable pub probe1_ok : Ran → Height → Height → Bool
unfolding higher
probe1_ok ran after before =
    (succeeded ran && contains ran.output (text "Successfully submitted"))
    || (succeeded ran && higher after before)

-- probe2Rejected
unfoldable pub probe2_rejected : Ran → Height → Height → Bool
unfolding higher
probe2_rejected ran after before = not (succeeded ran) || not (higher after before)

-- The values that the probes set.
abbrev pub next_timeout : Text → Text
next_timeout current = if current == text "3s" then text "2s" else text "3s"

abbrev pub next_timeout2 : Text → Text
next_timeout2 current =
    if is_empty current then text "9s" else (if current == text "4s" then text "5s" else text "4s")

abbrev pub verdict : Bool → Bool → Result (Unit {0})
verdict passed rejected =
    if not passed
    then err (errorf (text "FAIL: 1-of-3-down probe did not demonstrate continued ordering") [])
    else (if not rejected
        then err (
            errorf
              (text
                "FAIL: 2-of-3-down probe unexpectedly succeeded — quorum requirement not demonstrated")
              [])
        else ok tt)

abbrev pub submit_command : Text → Text
submit_command env_path =
    spaced (org1_env ∷ text "peer channel update -f" ∷ env_path ∷ orderer_args)

-- The helper container, and docker stop and docker start.
pub record Lab (D : Type 0) : Type 0 where
  pub docker : Docker D
  pub docker_stop : List Text → D → D
  pub docker_start : List Text → D → D

module _ {D : Type 0} (lab : Lab D) (trim_space : Text → Text) (scan_height : Text → ℕ) where
  -- The path of the signed envelope.
  unfoldable pub build_signed_update : ℕ → Text → Exec D Text
  unfolding each_of run_step
  build_signed_update round new_timeout = do
    u ←
        each_of (ran_step lab.docker)
          (update_steps (base_of round) new_timeout ++ map (sign_step (base_of round)) signers)
    done (base_of round ++ text "_update_env.pb")

  unfoldable pub submit_update : Text → D → Ran × D
  submit_update env_path = shell lab.docker (submit_command env_path)

  abbrev timeout_of : Ran × D → Text × D
  timeout_of (ran, d) = (if succeeded ran then trim_space ran.output else [], d)

  unfoldable pub current_batch_timeout : D → Text × D
  current_batch_timeout d = timeout_of (
      shell lab.docker
        (spaced (
          org1_env
          ∷ text "peer channel fetch config /tmp/rft_probe.pb"
          ∷ (orderer_args
              ++ (text
                    ">/dev/null 2>&1 && configtxlator proto_decode --input /tmp/rft_probe.pb --type common.Block --output /tmp/rft_probe.json && jq -r .data.data[0].payload.data.config.channel_group.groups.Orderer.values.BatchTimeout.value.timeout /tmp/rft_probe.json"
                  ∷ []))))
        d)

  abbrev height_of : Ran × D → Height × D
  height_of (ran, d) =
      (if succeeded ran then some (scan_height (trim_space ran.output)) else none, d)

  unfoldable pub block_height : D → Height × D
  block_height d = height_of (
      shell lab.docker
        (spaced (
          org1_env
          ∷ text "peer channel getinfo -c"
          ∷ channel_id
          ∷ text "2>&1 | grep -o '\"height\":[0-9]*'"
          ∷ []))
        d)

  -- An update to a new timeout: what its submission came to, and the height after it.
  unfoldable pub probe : ℕ → Text → Exec D (Ran × Height)
  unfolding build_signed_update submit_update block_height
  probe round new_timeout = do
    env_path ← build_signed_update round new_timeout
    ran ← λ d. let (ran, d') = submit_update env_path d in (ok ran, d')
    height ← λ d. let (height, d') = block_height d in (ok height, d')
    done (ran, height)

  -- The orderers are stopped, then the timeout is read, and the probe is made.
  unfoldable pub stop_and_probe : List Text → ℕ → (Text → Text) → Exec D (Ran × Height)
  unfolding current_batch_timeout probe
  stop_and_probe orderers round next d =
      let (current, d') = current_batch_timeout (lab.docker_stop orderers d) in
      probe round (next current) d'

  -- The orderers are started again, and the height is read once more.
  unfoldable pub restore : Exec D (Unit {0})
  unfolding block_height
  restore d = (
    ok tt,
    (block_height (lab.docker_start (text "orderer1.org1" ∷ text "orderer2.org1" ∷ []) d)).1,
  )

  -- main
  unfoldable pub fault_test : Exec D (Unit {0})
  unfolding block_height stop_and_probe restore probe1_ok probe2_rejected
  fault_test d =
      let (start, d') = block_height d in
      (do
        first ← stop_and_probe (text "orderer1.org1" ∷ []) 1 next_timeout
        second ← stop_and_probe (text "orderer2.org1" ∷ []) 2 next_timeout2
        u ← restore
        lift
            (verdict (probe1_ok first.0 first.1 start) (probe2_rejected second.0 second.1 first.1)))
        d'
