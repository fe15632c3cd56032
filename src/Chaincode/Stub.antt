-- ===== src/Chaincode/Stub.antt =====
-- What the contract reads through the transaction context, and what a transaction writes. The
-- Fabric shim, the client-identity library, the UUID library and the JSON codec are code outside
-- the repository: they are the fields of these records.
use fabric_hris.Prelude.{ℕ, Text, Bool, Option, none, some, List, [], ◌∷◌}
use fabric_hris.Errors.{GoError, Result, ok}
use fabric_hris.Exec.{Exec}
use fabric_hris.Chaincode.Asset.{EmployeeProfileRecord}

-- Libraries that give the same answer in every transaction. `V` is the stored bytes.
pub record Platform (V : Type 0) : Type 0 where
  -- shim: CreateCompositeKey(objectType, attributes)
  pub composite_key : Text → List Text → Result Text
  -- encoding/json at EmployeeProfileRecord
  pub marshal : EmployeeProfileRecord → Result V
  pub unmarshal : V → Result EmployeeProfileRecord
  -- len(value) == 0
  pub is_blank : V → Bool
  -- uuid.NewSHA1(uuid.NameSpaceOID, []byte(txID)).String()
  pub name_based_uuid : Text → Text
  -- time.Unix(seconds, nanos).UTC().Format(time.RFC3339)
  pub rfc3339 : ℕ → ℕ → Text

-- One element of GetHistoryForKey's iterator.
pub record KeyModification (V : Type 0) : Type 0 where
  pub is_delete : Bool
  pub value : V

-- What one transaction can read.
pub record Stub (V : Type 0) : Type 0 where
  -- cid.GetMSPID(stub), cid.GetID(stub)
  pub msp_id : Result Text
  pub client_id : Result Text
  -- GetState(key): none is nil, no value under the key
  pub get_state : Text → Result (Option V)
  -- GetHistoryForKey(key), and each Next() of the iterator
  pub get_history : Text → Result (List (Result (KeyModification V)))
  -- GetTxTimestamp(): seconds and nanoseconds
  pub tx_timestamp : Result (ℕ × ℕ)
  pub tx_id : Text
  -- the error that PutState or SetEvent returns, if it does
  pub put_error : Text → Option GoError
  pub event_error : Option GoError

-- The write set and the chaincode event of a transaction, newest first.
pub record Effects (V : Type 0) : Type 0 where
  pub writes : List (Text × V)
  pub events : List (Text × V)

abbrev pub no_effects : {V : Type 0} → Effects V
no_effects = record { writes = []; events = [] }

module _ {V : Type 0} where
  -- PutState(key, value)
  unfoldable pub put_state : Stub V → Text → V → Exec (Effects V) (Unit {0})
  put_state stub key value s = elim (stub.put_error key) [
    | none ↦ (ok tt, record s { writes = (key, value) ∷ s.writes })
    | some e ↦ (Result.err e, s)
  ]

  -- SetEvent(name, payload)
  unfoldable pub set_event : Stub V → Text → V → Exec (Effects V) (Unit {0})
  set_event stub name payload s = elim stub.event_error [
    | none ↦ (ok tt, record s { events = (name, payload) ∷ s.events })
    | some e ↦ (Result.err e, s)
  ]
