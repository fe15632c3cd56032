-- ===== src/Tools/Netjoin/Joined.antt =====
-- netjoin/main.go: what a run that succeeds has done.
use fabric_hris.Prelude.{
  text, contains, ◌≡◌, ◌⊎◌, inl, inr, refl, subst, ap, Bool, true, ◌&&◌, Bool-cases, List, [], ◌∷◌,
  arith,
}
use fabric_hris.Errors.{ok, Result-cases}
use fabric_hris.Exec.{Exec, and_then-ok, ◌>>=◌}
use fabric_hris.Tools.Shell.{Ran, Docker, shell}
use fabric_hris.Tools.Peers.{PeerNode, peers}
use fabric_hris.Tools.Netjoin.{
  OrdererNode, orderers, channel_id, list_orderer_args, join_orderer_args, join_peer_command,
  list_command, each_of, reports_joined, joined_orderer, join_orderer, joined_peer, join_peer,
  list_channels, verify_peers, verify_step, join_network,
}

module _ {A D : Type 0} (Did : A → D → D → Type 0) where
  -- The items one after another, each done.
  abbrev pub EachDid : List A → D → D → Type 0
  EachDid [] d d' = d ≡ d'
  EachDid (a ∷ rest) d d' = (next : D) × Did a d next × EachDid rest next d'

  pub each_of-EachDid :
      (step : A → Exec D (Unit {0}))
      → ((a : A) (d d' : D) → step a d ≡ (ok tt, d') → Did a d d')
      → (items : List A) (d d' : D) → each_of step items d ≡ (ok tt, d')
      → EachDid items d d'
  unfolding each_of
  each_of-EachDid step does [] d d' e = ap (λ r. r.1) e
  each_of-EachDid step does (a ∷ rest) d d' e =
      let (u, next, here, later) = and_then-ok (step a d) (λ u. each_of step rest) tt d' e in
      (next, does a d next here, each_of-EachDid step does rest next d' later)

module _ {D : Type 0} (docker : Docker D) where
  -- The orderer listed the channel, or its join succeeded.
  abbrev pub OrdererJoined : OrdererNode → D → D → Type 0
  OrdererJoined o d d' =
      (listed : Ran) × (next : D) × (docker.run (list_orderer_args o) d ≡ (listed, next))
      × (((contains listed.output channel_id ≡ true) × (next ≡ d'))
          ⊎ ((ran : Ran) × (docker.run (join_orderer_args o) next ≡ (ran, d'))
              × (ran.outcome ≡ ok tt)))

  -- The peer's join succeeded, or it said that the channel is there already.
  abbrev pub PeerJoined : PeerNode → D → D → Type 0
  PeerJoined p d d' =
      (ran : Ran) × (shell docker (join_peer_command p) d ≡ (ran, d'))
      × ((ran.outcome ≡ ok tt) ⊎ (contains ran.output (text "already exists") ≡ true))

  -- The peer's list of channels was got and names the channel.
  abbrev pub PeerLists : PeerNode → D → D → Type 0
  PeerLists p d d' =
      (ran : Ran) × (shell docker (list_command p) d ≡ (ran, d'))
      × (ran.outcome ≡ ok tt)
      × (contains ran.output channel_id ≡ true)

  joined_orderer-ok :
      (o : OrdererNode) (r : Ran × D) (d' : D)
      → joined_orderer docker o r ≡ (ok tt, d')
      → (r ≡ (r.0, d')) × (r.0.outcome ≡ ok tt)
  joined_orderer-ok o (ran, d) d' e = elim (Result-cases ran.outcome) [
    | inr (x, f) ↦ absurd (ground arith)
    | inl (u, f) ↦ (ground arith, f)
  ]

  join_orderer-OrdererJoined :
      (o : OrdererNode) (d d' : D) → join_orderer docker o d ≡ (ok tt, d') → OrdererJoined o d d'
  unfolding join_orderer
  join_orderer-OrdererJoined o d d' e =
      let (listed, next) = docker.run (list_orderer_args o) d in
      elim (Bool-cases (contains listed.output channel_id)) [
        | inl there ↦ (listed, next, refl, inl (there, ground arith))
        | inr absent ↦
            let (same, fine) =
              joined_orderer-ok o (docker.run (join_orderer_args o) next) d' (ground arith) in
            (listed, next, refl, inr ((docker.run (join_orderer_args o) next).0, same, fine))
      ]

  joined_peer-ok :
      (p : PeerNode) (r : Ran × D) (d' : D)
      → joined_peer docker p r ≡ (ok tt, d')
      → (r ≡ (r.0, d'))
        × ((r.0.outcome ≡ ok tt) ⊎ (contains r.0.output (text "already exists") ≡ true))
  joined_peer-ok p (ran, d) d' e = elim (Result-cases ran.outcome) [
    | inl (u, f) ↦ (ground arith, inl f)
    | inr (x, f) ↦ elim (Bool-cases (contains ran.output (text "already exists"))) [
      | inl there ↦ (ground arith, inr there)
      | inr absent ↦ absurd (ground arith)
    ]
  ]

  join_peer-PeerJoined :
      (p : PeerNode) (d d' : D) → join_peer docker p d ≡ (ok tt, d') → PeerJoined p d d'
  unfolding join_peer
  join_peer-PeerJoined p d d' e =
      let (same, fine) = joined_peer-ok p (shell docker (join_peer_command p) d) d' e in
      ((shell docker (join_peer_command p) d).0, same, fine)

  reports_joined-true :
      (ran : Ran)
      → reports_joined ran ≡ true
      → (ran.outcome ≡ ok tt) × (contains ran.output channel_id ≡ true)
  reports_joined-true ran e = elim (Result-cases ran.outcome) [
    | inr (x, f) ↦ absurd (ground arith)
    | inl (u, f) ↦ (f, ground arith)
  ]

  and-true : (a b : Bool) → (a && b) ≡ true → (a ≡ true) × (b ≡ true)
  and-true a b e = (ground arith, ground arith)

  verify_peers-EachDid :
      (ps : List PeerNode) (all_joined : Bool) (d : D)
      → (verify_peers docker ps (all_joined, d)).0 ≡ true
      → (all_joined ≡ true) × EachDid PeerLists ps d (verify_peers docker ps (all_joined, d)).1
  unfolding verify_peers list_channels
  verify_peers-EachDid [] all_joined d e = (e, refl)
  verify_peers-EachDid (p ∷ rest) all_joined d e =
      let (ran, next) = shell docker (list_command p) d in
      let (before, later) = verify_peers-EachDid rest (all_joined && reports_joined ran) next e in
      let (so_far, here) = and-true all_joined (reports_joined ran) before in
      let (fine, named) = reports_joined-true ran here in
      (so_far, (next, (ran, refl, fine, named), later))

  -- A run that succeeds: first each of the three orderers listed the channel or joined it, then each
  -- of the four peers joined it or said that it is there already, and then each of the four peers
  -- was asked for its channels, without an error, and named the channel.
  pub join_network-ok :
      (d d' : D)
      → join_network docker d ≡ (ok tt, d')
      → (d1 d2 : D) × EachDid OrdererJoined orderers d d1
        × EachDid PeerJoined peers d1 d2
        × EachDid PeerLists peers d2 d'
  unfolding join_network
  join_network-ok d d' e =
      let (u, d1, ordered, e1) =
        and_then-ok (each_of (join_orderer docker) orderers d)
          (λ u. each_of (join_peer docker) peers >>= λ u'. verify_step docker) tt d' e in
      let (u', d2, peered, e2) =
        and_then-ok (each_of (join_peer docker) peers d1) (λ u'. verify_step docker) tt d' e1 in
      elim (Bool-cases (verify_peers docker peers (true, d2)).0) [
        | inr no_all ↦ absurd (ground arith)
        | inl all ↦
            let (start, listed) = verify_peers-EachDid peers true d2 all in
            let same : (verify_peers docker peers (true, d2)).1 ≡ d' = ground arith in
            (
              d1,
              d2,
              each_of-EachDid OrdererJoined (join_orderer docker) join_orderer-OrdererJoined
                  orderers d d1 ordered,
              each_of-EachDid PeerJoined (join_peer docker) join_peer-PeerJoined peers d1 d2 peered,
              subst (λ s. EachDid PeerLists peers d2 s) same listed,
            )
      ]
