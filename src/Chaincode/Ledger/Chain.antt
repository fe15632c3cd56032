-- ===== src/Chaincode/Ledger/Chain.antt =====
-- Every key's committed versions form one unbroken hash chain.
use fabric_hris.Prelude.{
  Text, ◌==◌, eq_iff, ◌≡◌, ◌≢◌, refl, ◌<◌, ◌^◌, Option, none, some, List, [], ◌∷◌, ◌++◌, length,
  arith, inl, inr, subst, sym, ◌∙◌, Bool-cases,
}
use fabric_hris.Prelude.Maps.{lookup}
use fabric_hris.Errors.{ok, Result-cases}
use fabric_hris.Chaincode.Asset.{EmployeeProfileRecord, RecordProfileSectionResult}
use fabric_hris.Chaincode.Stub.{Platform, Stub, Effects}
use fabric_hris.Chaincode.Record.{Arguments, profile_key, decode_head, read_head}
use fabric_hris.Chaincode.Record.Outcome.{
  Links, Written, Success, record_profile_section-Success, next_version-Links,
}
use fabric_hris.Chaincode.Ledger.{Ledger, genesis, commit, Reads, values, decode}

abbrev pub head_of_chain : List EmployeeProfileRecord → Option EmployeeProfileRecord
head_of_chain [] = none
head_of_chain (r ∷ rs) = some r

-- Newest first: each record links to the one before it, and the first to none.
abbrev pub IsHashChain : List EmployeeProfileRecord → Type 0
IsHashChain [] = Unit
IsHashChain (r ∷ rs) = Links r (head_of_chain rs) × IsHashChain rs

-- The version counts the records, below the limit of the counter.
pub version-length :
    (r : EmployeeProfileRecord) (rs : List EmployeeProfileRecord)
    → IsHashChain (r ∷ rs)
    → length (r ∷ rs) < 2 ^ 64
    → r.version ≡ length (r ∷ rs)
version-length r [] (link, c) h = ground arith
version-length r (q ∷ rs) (link, c) h =
    let ih : q.version ≡ length (q ∷ rs) = version-length q rs c (omega arith) in
    omega (arith, link.1)

module _ {V : Type 0} (p : Platform V) where
  -- The values under a key decode to a hash chain.
  pub record Chained (k : Text) (log : List (Text × V)) : Type 0 where
    pub records : List EmployeeProfileRecord
    pub decoded : decode p (values k log) ≡ ok records
    pub chain : IsHashChain records

  -- What GetState finds is the newest of the values.
  pub read_head-state :
      (stub : Stub V) (employee section key : Text) (head : Option EmployeeProfileRecord)
      → read_head p stub employee section ≡ ok (head, key)
      → (o : Option V) × (stub.get_state key ≡ ok o)
        × (decode_head p key o ≡ ok (head, key))
        × (profile_key p employee section ≡ ok key)
  unfolding read_head
  read_head-state stub employee section key head h =
      elim (Result-cases (profile_key p employee section)) [
        | inr (x, e) ↦ absurd (ground arith)
        | inl (j, e) ↦ elim (Result-cases (stub.get_state j)) [
          | inr (x, f) ↦ absurd (ground arith)
          | inl (none, f) ↦ (none, ground arith, ground arith, ground arith)
          | inl (some v, f) ↦ elim (Result-cases (p.unmarshal v)) [
            | inr (x, g) ↦ absurd (ground arith)
            | inl (r, g) ↦ (some v, ground arith, ground arith, ground arith)
          ]
        ]
      ]

  first : List V → Option V
  first [] = none
  first (v ∷ vs) = some v

  lookup-values : (k : Text) (log : List (Text × V)) → lookup k log ≡ first (values k log)
  unfolding lookup values first
  lookup-values k [] = refl
  lookup-values k ((j, v) ∷ log) = ground (arith, lookup-values k log)

  decode_head-first :
      (key : Text) (head : Option EmployeeProfileRecord) (vs : List V)
      (records : List EmployeeProfileRecord)
      → decode_head p key (first vs) ≡ ok (head, key)
      → decode p vs ≡ ok records
      → head_of_chain records ≡ head
  unfolding decode first
  decode_head-first key head [] records h d = ground arith
  decode_head-first key head (v ∷ vs) records h d = elim (Result-cases (p.unmarshal v)) [
    | inr (x, e) ↦ absurd (ground arith)
    | inl (r, e) ↦ elim (Result-cases (decode p vs)) [
      | inr (x, f) ↦ absurd (ground arith)
      | inl (rs, f) ↦ ground arith
    ]
  ]

  read_head-head :
      (stub : Stub V) (employee section key : Text) (head : Option EmployeeProfileRecord)
      (log : List (Text × V)) (records : List EmployeeProfileRecord)
      → Reads stub log
      → read_head p stub employee section ≡ ok (head, key)
      → decode p (values key log) ≡ ok records
      → head_of_chain records ≡ head
  read_head-head stub employee section key head log records reads was_read decoded =
      let (o, f, g, _) = read_head-state stub employee section key head was_read in
      decode_head-first key head (values key log) records
        (subst (λ x. decode_head p key x ≡ ok (head, key)) (reads key o f ∙ lookup-values key log)
          g)
        decoded

  -- A write links to the chain under its key.
  Links-of_Written :
      (stub : Stub V) (a : Arguments) (head : Option EmployeeProfileRecord) (key : Text)
      (r : RecordProfileSectionResult) (e : Effects V) (w : Written p stub a head key r e)
      → ((h : EmployeeProfileRecord) → head ≡ some h → a.data_hash ≢ h.data_hash)
      → Links w.stored head
  Links-of_Written stub a head key r e w other =
      next_version-Links head w.stored w.links
        (λ h is_head. subst (λ d. d ≢ h.data_hash) (sym w.data_hash) (other h is_head))

  Chained-write :
      (k key : Text) (value : V) (stored : EmployeeProfileRecord) (log : List (Text × V))
      → p.unmarshal value ≡ ok stored
      → ((rs : List EmployeeProfileRecord)
          → decode p (values key log) ≡ ok rs
          → Links stored (head_of_chain rs))
      → Chained k log
      → Chained k ((key, value) ∷ log)
  unfolding values decode
  Chained-write k key value stored log u links c = elim (Bool-cases (key == k)) [
    | inr other ↦ record { records = c.records; decoded = rw other c.decoded; chain = c.chain }
    | inl same ↦
        let e : key ≡ k = (eq_iff key k).0 same in
        record {
          records = stored ∷ c.records;
          decoded = rw same (rw (u, c.decoded));
          chain = (
            links c.records (subst (λ j. decode p (values j log) ≡ ok c.records) (sym e) c.decoded),
            c.chain,
          );
        }
  ]

  module _
      (codec : (r : EmployeeProfileRecord) (v : V)
        → p.marshal r ≡ ok v
        → p.unmarshal v ≡ ok r) where
    Chained-commit :
        (stub : Stub V) (a : Arguments) (r : RecordProfileSectionResult) (e : Effects V)
        (log : List (Text × V)) (k : Text)
        → Reads stub log
        → Success p stub a r e
        → Chained k log
        → Chained k (e.writes ++ log)
    Chained-commit stub a r e log k reads s c = elim s.did [
      | inl repeated ↦ rw repeated.effects c
      | inr (w, other) ↦ rw w.effects (
          Chained-write k s.key w.value w.stored log (codec w.stored w.value w.marshalled)
            (λ rs decoded.
              rw
                (read_head-head stub a.employee_id a.profile_section s.key s.head log rs reads
                  s.was_read decoded)
                (Links-of_Written stub a s.head s.key r e w other))
            c)
    ]

    -- Where JSON decodes what it encoded: on a ledger that only Submit transactions made, the values
    -- of every key decode, and the records form one hash chain: each prevHash is the hash before it,
    -- and the versions count up from 1, as Go ints.
    pub Ledger-Chained : {log : List (Text × V)} → Ledger p log → (k : Text) → Chained k log
    unfolding values decode
    Ledger-Chained genesis k = record { records = []; decoded = refl; chain = tt }
    Ledger-Chained (commit {log = log} stub a r e ledger reads run) k =
        Chained-commit stub a r e log k reads (record_profile_section-Success p stub a r e run)
          (Ledger-Chained ledger k)
