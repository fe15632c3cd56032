-- ===== src/Chaincode/Ledger.antt =====
-- The ledger as the list of committed writes, newest first, and how a transaction gets into it.
-- Endorsement, ordering and validation are Fabric's: a commit's premise is what they guarantee.
pub mod Chain
use fabric_hris.Prelude.{Text, ◌==◌, ◌≡◌, Option, none, some, List, [], ◌∷◌, ◌++◌, if◌then◌else◌}
use fabric_hris.Prelude.Maps.{lookup}
use fabric_hris.Errors.{Result, ok, ◌>>=◌}
use fabric_hris.Chaincode.Asset.{EmployeeProfileRecord, RecordProfileSectionResult}
use fabric_hris.Chaincode.Stub.{Platform, Stub, Effects, no_effects}
use fabric_hris.Chaincode.Record.{Arguments, record_profile_section}

module _ {V : Type 0} where
  -- Every value that a key had, newest first.
  unfoldable pub values : Text → List (Text × V) → List V
  values k [] = []
  values k ((j, v) ∷ log) = let rest = values k log in if j == k then v ∷ rest else rest

  -- What a transaction read is the last committed value: the read-version check at commit time.
  abbrev pub Reads : Stub V → List (Text × V) → Type 0
  Reads stub log = (k : Text) (o : Option V) → stub.get_state k ≡ ok o → o ≡ lookup k log

module _ {V : Type 0} (p : Platform V) where
  -- A ledger that successful Submit transactions made, from any callers and in any order.
  pub data Ledger : List (Text × V) → Type 0 where
    genesis : Ledger []
    commit :
        {log : List (Text × V)} (stub : Stub V) (a : Arguments) (r : RecordProfileSectionResult)
        (e : Effects V)
        → Ledger log
        → Reads stub log
        → record_profile_section p stub a no_effects ≡ (ok r, e)
        → Ledger (e.writes ++ log)

  -- The records behind stored values.
  unfoldable pub decode : List V → Result (List EmployeeProfileRecord)
  decode [] = ok []
  decode (v ∷ rest) = do r ← p.unmarshal v; rs ← decode rest; ok (r ∷ rs)
