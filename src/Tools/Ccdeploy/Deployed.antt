-- ===== src/Tools/Ccdeploy/Deployed.antt =====
-- ccdeploy/main.go: what a run that succeeds has done.
use fabric_hris.Prelude.{
  Text, text, contains, ◌≡◌, ◌⊎◌, inl, inr, subst, ap, true, Bool-cases, Option, none, some, ◌++◌,
  [], ◌∷◌, arith,
}
use fabric_hris.Errors.{ok, Result-cases}
use fabric_hris.Exec.{Exec, and_then-ok, ◌>>=◌}
use fabric_hris.Tools.Shell.{Step, required, run_step, ran_step, Ran, Docker, shell}
use fabric_hris.Tools.Peers.{PeerNode, peers}
use fabric_hris.Tools.Netjoin.{each_of}
use fabric_hris.Tools.Netjoin.Joined.{EachDid, each_of-EachDid}
use fabric_hris.Tools.Ccdeploy.Asked.{
  Asks, Task, AsksTask, approval, readiness, commitment, invocation, query, install_command-Asks,
  installed_command-Asks, approve_for-org1, approve_for-tenant, check_readiness-Asks, commit-Asks,
  invoke_smoke-Asks, query_smoke-Asks,
}
use fabric_hris.Tools.Ccdeploy.{
  tenant_peer, approve_for, check_readiness, commit, invoke_smoke, split, org1_peer,
  install_command, installed_command, release_steps, query_smoke, find_package_id, installed,
  install_on, found_id, query_package_id, smoke_result, deploy,
}

module _ {D : Type 0} (docker : Docker D) where
  -- The install command of the peer succeeded, or it said that the package is there already.
  abbrev pub Installed : PeerNode → D → D → Type 0
  Installed p d d' =
      (command : Text) × (ran : Ran) × Asks command p
        (text "peer lifecycle chaincode install /cc/employeeprofilerecord.tar.gz") []
      × (shell docker command d ≡ (ran, d'))
      × ((ran.outcome ≡ ok tt)
          ⊎ (contains ran.output (text "already successfully installed") ≡ true))

  -- The step's command ran without an error and printed this.
  abbrev pub Printed : Step → Text → D → D → Type 0
  Printed s out d d' =
      (ran : Ran) × (shell docker s.1 d ≡ (ran, d')) × (ran.outcome ≡ ok tt) × (ran.output ≡ out)

  abbrev Succeeded : Step → D → D → Type 0
  Succeeded s d d' = (out : Text) × Printed s out d d'

  -- A command of the task ran without an error and printed this.
  abbrev pub Answered : Task → Text → D → D → Type 0
  Answered task out d d' =
      (command : Text) × (ran : Ran) × AsksTask command task
      × (shell docker command d ≡ (ran, d'))
      × (ran.outcome ≡ ok tt)
      × (ran.output ≡ out)

  abbrev pub Performed : Task → D → D → Type 0
  Performed task d d' = (out : Text) × Answered task out d d'

  answered_lem :
      (s : Step) (task : Task) (out : Text) (d d' : D)
      → AsksTask s.1 task
      → Printed s out d d'
      → Answered task out d d'
  answered_lem s task out d d' asks (ran, run, fine, printed) = (s.1, ran, asks, run, fine, printed)

  performed :
      (s : Step) (task : Task) (d d' : D)
      → AsksTask s.1 task
      → Succeeded s d d'
      → Performed task d d'
  performed s task d d' asks (out, printed) = (out, answered_lem s task out d d' asks printed)

  required-Printed :
      (step : Text) (r : Ran × D) (out : Text) (d' : D)
      → required docker step r ≡ (ok out, d')
      → (r ≡ (r.0, d')) × (r.0.outcome ≡ ok tt) × (r.0.output ≡ out)
  required-Printed step (ran, d) out d' e = elim (Result-cases ran.outcome) [
    | inr (x, f) ↦ absurd (ground arith)
    | inl (u, f) ↦ (ground arith, f, ground arith)
  ]

  run_step-Printed :
      (s : Step) (out : Text) (d d' : D) → run_step docker s d ≡ (ok out, d') → Printed s out d d'
  unfolding run_step
  run_step-Printed (step, command) out d d' e =
      let (same, fine, printed) = required-Printed step (shell docker command d) out d' e in
      ((shell docker command d).0, same, fine, printed)

  ran_step-Succeeded : (s : Step) (d d' : D) → ran_step docker s d ≡ (ok tt, d') → Succeeded s d d'
  ran_step-Succeeded s d d' e =
      let (out, next, ran, rest) =
        and_then-ok (run_step docker s d) (λ out. λ x. (ok tt, x)) tt d' e in
      (out, subst (λ x. Printed s out d x) (ap (λ x. x.1) rest) (run_step-Printed s out d next ran))

  installed-ok :
      (p : PeerNode) (r : Ran × D) (d' : D)
      → installed docker p r ≡ (ok tt, d')
      → (r ≡ (r.0, d'))
        × ((r.0.outcome ≡ ok tt)
            ⊎ (contains r.0.output (text "already successfully installed") ≡ true))
  installed-ok p (ran, d) d' e = elim (Result-cases ran.outcome) [
    | inl (u, f) ↦ (ground arith, inl f)
    | inr (x, f) ↦ elim (Bool-cases (contains ran.output (text "already successfully installed"))) [
      | inl there ↦ (ground arith, inr there)
      | inr absent ↦ absurd (ground arith)
    ]
  ]

  install_on-Installed :
      (p : PeerNode) (d d' : D) → install_on docker p d ≡ (ok tt, d') → Installed p d d'
  unfolding install_on
  install_on-Installed p d d' e =
      let (same, fine) = installed-ok p (shell docker (install_command p) d) d' e in
      (
        install_command p,
        (shell docker (install_command p) d).0,
        install_command-Asks p,
        same,
        fine,
      )

  found_id-ok : (found : Option Text) (id : Text) → found_id docker found ≡ ok id → found ≡ some id
  found_id-ok none id e = ground arith
  found_id-ok (some x) id e = ground arith

  -- The list of peer0.org1 names this package ID.
  abbrev pub Listed : (Text → Text) → Text → D → D → Type 0
  Listed trim_space id d d' =
      (out : Text) × Answered (org1_peer, text "peer lifecycle chaincode queryinstalled", []) out d
        d'
      × (find_package_id trim_space (split out (text "\n")) ≡ some id)

  query_package_id-Listed :
      (trim_space : Text → Text) (id : Text) (d d' : D)
      → query_package_id docker trim_space org1_peer d ≡ (ok id, d')
      → Listed trim_space id d d'
  unfolding query_package_id
  query_package_id-Listed trim_space id d d' e =
      let step : Step =
        (text "queryinstalled on " ++ org1_peer.name, installed_command org1_peer) in
      let (out, next, ran, rest) =
        and_then-ok (run_step docker step d)
          (λ out. λ x. (found_id docker (find_package_id trim_space (split out (text "\n"))), x)) id
          d' e in
      (
        out,
        answered_lem step (org1_peer, text "peer lifecycle chaincode queryinstalled", []) out d d'
            (installed_command-Asks org1_peer)
            (subst (λ x. Printed step out d x) (ap (λ x. x.1) rest)
              (run_step-Printed step out d next ran)),
        found_id-ok (find_package_id trim_space (split out (text "\n"))) id (ap (λ x. x.0) rest),
      )

  smoke_result-ok :
      (out : Text) → smoke_result docker out ≡ ok tt → contains out (text "cc5smoketest") ≡ true
  smoke_result-ok out e = ground arith

  -- The tasks of a release with this package ID.
  abbrev pub Released : Text → D → D → Type 0
  Released id =
      EachDid Performed
        (approval id org1_peer ∷ approval id tenant_peer ∷ readiness ∷ commitment ∷ invocation ∷ [])

  released_lem :
      (id : Text) (d d' : D) → EachDid Succeeded (release_steps id) d d' → Released id d d'
  released_lem id d d' (d1, s1, (d2, s2, (d3, s3, (d4, s4, (d5, s5, same))))) = (
    d1,
    performed (approve_for id org1_peer) (approval id org1_peer) d d1 (approve_for-org1 id) s1,
    (
      d2,
      performed (approve_for id tenant_peer) (approval id tenant_peer) d1 d2 (approve_for-tenant id)
          s2,
      (
        d3,
        performed check_readiness readiness d2 d3 check_readiness-Asks s3,
        (
          d4,
          performed commit commitment d3 d4 commit-Asks s4,
          (d5, performed invoke_smoke invocation d4 d5 invoke_smoke-Asks s5, same),
        ),
      ),
    ),
  )

  -- A run that succeeds: a command that installs the package ran on each of the four peers, or said
  -- that the package is there already; then peer0.org1 listed a package ID; then, without an error
  -- and in this order, there ran an approval with that very ID by peer0.org1 and one by
  -- peer0.tenant01, a check of the commit's readiness, a commit that names the two peers, and an
  -- invocation of RecordProfileSection with the employee and the hash of the smoke test; and then a
  -- query of that employee's record ran without an error and printed the mark "cc5smoketest" that
  -- the hash has.
  pub deploy-ok :
      (trim_space : Text → Text) (d d' : D)
      → deploy docker trim_space d ≡ (ok tt, d')
      → (id out : Text) × (d1 d2 d3 : D) × EachDid Installed peers d d1
        × Listed trim_space id d1 d2
        × Released id d2 d3
        × Answered query out d3 d'
        × (contains out (text "cc5smoketest") ≡ true)
  unfolding deploy
  deploy-ok trim_space d d' e =
      let last : Exec D (Unit {0}) =
        run_step docker query_smoke >>= λ out. λ x. (smoke_result docker out, x) in
      let release : Text → Exec D (Unit {0}) =
        λ id. each_of (ran_step docker) (release_steps id) >>= λ u. last in
      let (u, d1, install, e1) =
        and_then-ok (each_of (install_on docker) peers d)
          (λ u. query_package_id docker trim_space org1_peer >>= release) tt d' e in
      let (id, d2, listed, e2) =
        and_then-ok (query_package_id docker trim_space org1_peer d1) release tt d' e1 in
      let (u', d3, released, e3) =
        and_then-ok (each_of (ran_step docker) (release_steps id) d2) (λ u. last) tt d' e2 in
      let (out, d4, ran, e4) =
        and_then-ok (run_step docker query_smoke d3) (λ out. λ x. (smoke_result docker out, x)) tt
          d' e3 in
      (
        id,
        out,
        d1,
        d2,
        d3,
        each_of-EachDid Installed (install_on docker) install_on-Installed peers d d1 install,
        query_package_id-Listed trim_space id d1 d2 listed,
        released_lem id d2 d3 (
            each_of-EachDid Succeeded (ran_step docker) ran_step-Succeeded (release_steps id) d2 d3
              released),
        answered_lem query_smoke query out d3 d' query_smoke-Asks (
            subst (λ x. Printed query_smoke out d3 x) (ap (λ x. x.1) e4)
              (run_step-Printed query_smoke out d3 d4 ran)),
        smoke_result-ok out (ap (λ x. x.0) e4),
      )
