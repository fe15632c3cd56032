-- ===== src/Tools/Raft/Verdict.antt =====
-- raftfaulttest/main.go: what a run that succeeds has seen.
use fabric_hris.Prelude.{
  ℕ, Text, text, contains, contains_middle, ◌++◌, ◌≡◌, ◌⊎◌, inl, inr, refl, ap, sym, ◌∙◌, Bool,
  Bool-cases, true, false, [], ◌∷◌, arith,
}
use fabric_hris.Errors.{Result, GoError, ok, err, Result-cases}
use fabric_hris.Exec.{Exec, and_then-ok, lift, ◌>>=◌}
use fabric_hris.Tools.Shell.{Ran, shell, spaced}
use fabric_hris.Tools.Raft.{raft_cli_env, org1_env, orderer_args}
use fabric_hris.Tools.Raft.FaultTest.{
  Height, higher, succeeded, probe1_ok, probe2_rejected, next_timeout, next_timeout2, verdict, Lab,
  submit_command, block_height, current_batch_timeout, build_signed_update, submit_update, probe,
  stop_and_probe, restore, fault_test,
}

succeeded-true : (ran : Ran) → succeeded ran ≡ true → ran.outcome ≡ ok tt
succeeded-true ran e = elim (Result-cases ran.outcome) [
  | inl (u, f) ↦ f
  | inr (x, f) ↦ absurd (ground arith)
]

succeeded-false : (ran : Ran) → succeeded ran ≡ false → (e : GoError) × (ran.outcome ≡ err e)
succeeded-false ran e = elim (Result-cases ran.outcome) [
  | inl (u, f) ↦ absurd (ground arith)
  | inr (x, f) ↦ (x, f)
]

-- The update went through.
abbrev pub WentThrough : Ran → Height → Height → Type 0
WentThrough ran after before =
    (ran.outcome ≡ ok tt)
    × ((contains ran.output (text "Successfully submitted") ≡ true) ⊎ (higher after before ≡ true))

-- The update failed, or no block came after it.
abbrev pub Halted : Ran → Height → Height → Type 0
Halted ran after before = ((e : GoError) × (ran.outcome ≡ err e)) ⊎ (higher after before ≡ false)

probe1_ok-WentThrough :
    (ran : Ran) (after before : Height)
    → probe1_ok ran after before ≡ true
    → WentThrough ran after before
unfolding probe1_ok
probe1_ok-WentThrough ran after before e = elim (Bool-cases (succeeded ran)) [
  | inr bad ↦ absurd (ground arith)
  | inl fine ↦ elim (Bool-cases (contains ran.output (text "Successfully submitted"))) [
    | inl printed ↦ (succeeded-true ran fine, inl printed)
    | inr silent ↦ (succeeded-true ran fine, inr (ground arith))
  ]
]

probe2_rejected-Halted :
    (ran : Ran) (after before : Height)
    → probe2_rejected ran after before ≡ true
    → Halted ran after before
unfolding probe2_rejected
probe2_rejected-Halted ran after before e = elim (Bool-cases (succeeded ran)) [
  | inr bad ↦ inl (succeeded-false ran bad)
  | inl fine ↦ inr (ground arith)
]

verdict-ok :
    (passed rejected : Bool) → verdict passed rejected ≡ ok tt → (passed ≡ true) × (rejected ≡ true)
verdict-ok passed rejected e = elim (Bool-cases passed) [
  | inr bad ↦ absurd (ground arith)
  | inl holds ↦ elim (Bool-cases rejected) [
    | inr bad ↦ absurd (ground arith)
    | inl holds' ↦ (holds, holds')
  ]
]

submit_command-path :
    (path : Text) → contains (submit_command path) (text "peer channel update -f " ++ path) ≡ true
unfolding spaced text raft_cli_env
submit_command-path path =
    contains_middle (org1_env ++ text " ") (text "peer channel update -f " ++ path)
      (text " " ++ spaced orderer_args)

probe_parts :
    {D : Type 0} (ran : Ran) (height : Height) (r : Ran × Height) (d d' : D)
    → ◌≡◌ {A = Result (Ran × Height) × D} (ok (ran, height), d) (ok r, d')
    → (ran ≡ r.0) × (height ≡ r.1) × (d ≡ d')
probe_parts ran height r d d' e =
    let same = ap (λ x. elim x.0 [ ok y ↦ y | err x ↦ r ]) e in
    (ap (λ y. y.0) same, ap (λ y. y.1) same, ap (λ x. x.1) e)

module _ {D : Type 0} (lab : Lab D) (trim_space : Text → Text) (scan_height : Text → ℕ) where
  -- The signed update of a round to the timeout was built, its envelope was submitted to the
  -- channel, which came to this, and after that the height was this.
  abbrev pub Probed : ℕ → Text → Ran → Height → D → D → Type 0
  Probed round timeout ran height d d' =
      (path command : Text) × (d1 d2 : D) × (build_signed_update lab trim_space scan_height round
          timeout d
        ≡ (ok path, d1))
      × (contains command (text "peer channel update -f " ++ path) ≡ true)
      × (shell lab.docker command d1 ≡ (ran, d2))
      × (block_height lab trim_space scan_height d2 ≡ (height, d'))

  probe-Probed :
      (round : ℕ) (timeout : Text) (r : Ran × Height) (d d' : D)
      → probe lab trim_space scan_height round timeout d ≡ (ok r, d')
      → Probed round timeout r.0 r.1 d d'
  unfolding probe submit_update
  probe-Probed round timeout r d d' e =
      let finish : Ran → Exec D (Ran × Height) = λ ran d.
        let (height, d') = block_height lab trim_space scan_height d in (ok (ran, height), d') in
      let submit : Text → Exec D (Ran × Height) = λ path d.
        let (ran, d') = submit_update lab trim_space scan_height path d in finish ran d' in
      let (path, d1, built, rest) =
        and_then-ok (build_signed_update lab trim_space scan_height round timeout d) submit r d'
          e in
      let (ran, next) = submit_update lab trim_space scan_height path d1 in
      let (height, last) = block_height lab trim_space scan_height next in
      let (same_ran, same_height, same_state) = probe_parts ran height r last d' rest in
      (
        path,
        submit_command path,
        d1,
        next,
        built,
        submit_command-path path,
        λ t. (same_ran t, next),
        λ t. (same_height t, same_state t),
      )

  -- A run that succeeds: after docker stop was called for orderer1 an update was submitted without
  -- an error, and it was acknowledged or the chain was higher than at the start; then, after docker
  -- stop was called for orderer2 as well, the second update failed, or the chain was no higher than
  -- before it; and after that docker start was called for the two. Between a stop and its update
  -- the timeout was read, from which the update's value is chosen; whether a stop or a start
  -- succeeded is not looked at.
  pub fault_test-ok :
      (d d' : D)
      → fault_test lab trim_space scan_height d ≡ (ok tt, d')
      → (start : Height) × (current current2 : Text) × (first second : Ran × Height) × (d1 d2 d3 d4
          d5 : D)
        × (block_height lab trim_space scan_height d ≡ (start, d1))
        × (current_batch_timeout lab trim_space scan_height
              (lab.docker_stop (text "orderer1.org1" ∷ []) d1)
            ≡ (current, d2))
        × Probed 1 (next_timeout current) first.0 first.1 d2 d3
        × WentThrough first.0 first.1 start
        × (current_batch_timeout lab trim_space scan_height
              (lab.docker_stop (text "orderer2.org1" ∷ []) d3)
            ≡ (current2, d4))
        × Probed 2 (next_timeout2 current2) second.0 second.1 d4 d5
        × Halted second.0 second.1 first.1
        × (d'
            ≡ (block_height lab trim_space scan_height
                (lab.docker_start (text "orderer1.org1" ∷ text "orderer2.org1" ∷ []) d5)).1)
  unfolding fault_test stop_and_probe restore
  fault_test-ok d d' e =
      let (start, d1) = block_height lab trim_space scan_height d in
      let judge : Ran × Height → Ran × Height → Exec D (Unit {0}) = λ first second.
        restore lab trim_space scan_height >>= λ u.
        lift
          (verdict (probe1_ok first.0 first.1 start) (probe2_rejected second.0 second.1 first.1)) in
      let after : Ran × Height → Exec D (Unit {0}) = λ first.
        stop_and_probe lab trim_space scan_height (text "orderer2.org1" ∷ []) 2 next_timeout2
        >>= judge first in
      let (first, d2, probed, e1) =
        and_then-ok
          (stop_and_probe lab trim_space scan_height (text "orderer1.org1" ∷ []) 1 next_timeout d1)
          after tt d' e in
      let (second, d3, probed2, e2) =
        and_then-ok
          (stop_and_probe lab trim_space scan_height (text "orderer2.org1" ∷ []) 2 next_timeout2 d2)
          (judge first) tt d' e1 in
      let (u, d4, restored, e3) =
        and_then-ok (restore lab trim_space scan_height d3)
          (λ u.
            lift (
              verdict (probe1_ok first.0 first.1 start)
                (probe2_rejected second.0 second.1 first.1)))
          tt d' e2 in
      let (passed, rejected) =
        verdict-ok (probe1_ok first.0 first.1 start) (probe2_rejected second.0 second.1 first.1)
          (ap (λ x. x.0) e3) in
      (
        start,
        (current_batch_timeout lab trim_space scan_height
            (lab.docker_stop (text "orderer1.org1" ∷ []) d1)).0,
        (current_batch_timeout lab trim_space scan_height
            (lab.docker_stop (text "orderer2.org1" ∷ []) d2)).0,
        first,
        second,
        d1,
        (current_batch_timeout lab trim_space scan_height
            (lab.docker_stop (text "orderer1.org1" ∷ []) d1)).1,
        d2,
        (current_batch_timeout lab trim_space scan_height
            (lab.docker_stop (text "orderer2.org1" ∷ []) d2)).1,
        d3,
        refl,
        refl,
        probe-Probed 1 _ first _ d2 probed,
        probe1_ok-WentThrough first.0 first.1 start passed,
        refl,
        probe-Probed 2 _ second _ d3 probed2,
        probe2_rejected-Halted second.0 second.1 first.1 rejected,
        sym (ap (λ x. x.1) restored ∙ ap (λ x. x.1) e3),
      )
