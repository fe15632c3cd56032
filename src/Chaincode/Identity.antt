-- ===== src/Chaincode/Identity.antt =====
-- chaincode/identity.go: who may call which function.
pub mod Access
use fabric_hris.Prelude.{
  Text, text, ◌==◌, is_empty, has_prefix, has_suffix, ◌+◌, Bool, ◌&&◌, ◌||◌, [], ◌∷◌, ltb, length,
  if◌then◌else◌,
}
use fabric_hris.Errors.{Result, ok, err, sentinel, unauthorized, detail, ◌>>=◌}
use fabric_hris.Chaincode.Stub.{Stub}

abbrev pub msp_org1 : Text
msp_org1 = text "Org1MSP"

abbrev pub msp_org3 : Text
msp_org3 = text "Org3MSP"

abbrev pub org_client_prefix : Text
org_client_prefix = text "OrgClient-"

abbrev pub org_client_suffix : Text
org_client_suffix = text "MSP"

unfoldable pub is_org_client_msp : Text → Bool
is_org_client_msp msp =
    has_prefix msp org_client_prefix
    && has_suffix msp org_client_suffix
    && ltb (length org_client_prefix + length org_client_suffix) (length msp)

module _ {V : Type 0} (stub : Stub V) where
  -- err != nil becomes ErrUnauthorized with the cause in its text only.
  abbrev denied {ℓ} : {A : Type ℓ} → Text → Result A → Result A
  denied format (ok a) = ok a
  denied format (err e) = err (detail (sentinel unauthorized) format [])

  unfoldable pub caller_msp_id : Result Text
  caller_msp_id = do
    msp ← denied (text "cannot determine caller MSP ID: %v") stub.msp_id
    if is_empty msp
        then err (detail (sentinel unauthorized) (text "caller MSP ID is empty") [])
        else do _ ← denied (text "cannot determine caller identity: %v") stub.client_id; ok msp

  unfoldable pub authorize_evaluate : Result Text
  unfolding caller_msp_id
  authorize_evaluate = do
    msp ← caller_msp_id
    if msp == msp_org1 || msp == msp_org3 || is_org_client_msp msp
        then ok msp
        else err (
            detail (sentinel unauthorized) (text "MSP %q is not authorized to read this contract")
              (msp ∷ []))

  unfoldable pub authorize_submit : Result Text
  unfolding caller_msp_id
  authorize_submit = do
    msp ← caller_msp_id
    if msp == msp_org1 || is_org_client_msp msp
        then ok msp
        else err (
            detail (sentinel unauthorized) (text "MSP %q is not authorized to submit a write")
              (msp ∷ []))
