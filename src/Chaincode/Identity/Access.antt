-- ===== src/Chaincode/Identity/Access.antt =====
-- Who passes the two gates of chaincode/identity.go, told by the shape of the MSP ID.
use mathlib.Core.List.{append_assoc}
use fabric_hris.Prelude.{
  Text, eq_iff, has_prefix, has_suffix, has_prefix-exists, has_suffix-exists, has_prefix-append,
  has_suffix-append, length-append, ◌≡◌, ◌≢◌, ◌↔◌, ◌⊎◌, refl, ◌∙◌, ap, sym, ◌+◌, ◌≤◌, ◌<◌, true, [],
  ◌∷◌, ◌++◌, length, arith,
}
use fabric_hris.Errors.{ok, err, is_sentinel, unauthorized, GoError}
use fabric_hris.Chaincode.Stub.{Stub}
use fabric_hris.Chaincode.Identity.{
  msp_org1, msp_org3, org_client_prefix, org_client_suffix, is_org_client_msp, caller_msp_id,
  authorize_evaluate, authorize_submit,
}

-- Two splits of one text: the longer front goes on from the shorter one.
split_append :
    (p rest front s : Text)
    → p ++ rest ≡ front ++ s
    → length p ≤ length front
    → (middle : Text) × (front ≡ p ++ middle) × (rest ≡ middle ++ s)
split_append [] rest front s e h = (front, refl, e)
split_append (x ∷ p) rest [] s e h = absurd (omega arith)
split_append (x ∷ p) rest (y ∷ front) s e h =
    let (middle, f, g) = split_append p rest front s (cc) (omega arith) in (middle, cc, g)

-- The MSP ID of a tenant's organisation.
abbrev pub IsTenantMsp : Text → Type 0
IsTenantMsp msp =
    (tenant : Text) × (tenant ≢ []) × (msp ≡ org_client_prefix ++ (tenant ++ org_client_suffix))

pub IsTenantMsp-of_test : (msp : Text) → is_org_client_msp msp ≡ true → IsTenantMsp msp
unfolding is_org_client_msp
IsTenantMsp-of_test msp h =
    let (rest, e) = has_prefix-exists msp org_client_prefix (ground arith) in
    let (front, f) = has_suffix-exists msp org_client_suffix (ground arith) in
    let long : length org_client_prefix + length org_client_suffix < length msp = ground arith in
    let n : length msp ≡ length front + length org_client_suffix =
      ap length f ∙ length-append front org_client_suffix in
    let (tenant, g, k) =
      split_append org_client_prefix rest front org_client_suffix (sym e ∙ f) (omega arith) in
    let m : length front ≡ length org_client_prefix + length tenant =
      ap length g ∙ length-append org_client_prefix tenant in
    (tenant, λ nil. absurd (omega (arith, ap length nil)), e ∙ ap (λ r. org_client_prefix ++ r) k)

pub test_of_IsTenantMsp : (msp : Text) → IsTenantMsp msp → is_org_client_msp msp ≡ true
unfolding is_org_client_msp
test_of_IsTenantMsp msp ([], filled, e) = absurd (filled refl)
test_of_IsTenantMsp msp (t ∷ tenant, filled, e) =
    let front : Text = org_client_prefix ++ (t ∷ tenant) in
    let starts : has_prefix msp org_client_prefix ≡ true =
      rw e (has_prefix-append org_client_prefix ((t ∷ tenant) ++ org_client_suffix)) in
    let ends : has_suffix msp org_client_suffix ≡ true =
      rw (e, ← append_assoc org_client_prefix (t ∷ tenant) org_client_suffix)
        (has_suffix-append front org_client_suffix) in
    let n : length msp ≡ length org_client_prefix + length ((t ∷ tenant) ++ org_client_suffix) =
      ap length e ∙ length-append org_client_prefix ((t ∷ tenant) ++ org_client_suffix) in
    let m = length-append (t ∷ tenant) org_client_suffix in
    let long : length org_client_prefix + length org_client_suffix < length msp = omega arith in
    ground arith

-- The organisations that may submit: the platform's, and a tenant's.
abbrev pub MaySubmit : Text → Type 0
MaySubmit msp = (msp ≡ msp_org1) ⊎ IsTenantMsp msp

-- Those that may read: the auditor too.
abbrev pub MayRead : Text → Type 0
MayRead msp = (msp ≡ msp_org3) ⊎ MaySubmit msp

module _ {V : Type 0} (stub : Stub V) where
  -- A caller whose MSP ID and client identity can both be read.
  abbrev pub IsCaller : Text → Type 0
  IsCaller msp = (stub.msp_id ≡ ok msp) × (msp ≢ []) × ((id : Text) × (stub.client_id ≡ ok id))

  pub caller_msp_id-IsCaller : (msp : Text) → caller_msp_id stub ≡ ok msp → IsCaller msp
  unfolding caller_msp_id
  caller_msp_id-IsCaller msp h = ground arith

  pub IsCaller-caller_msp_id : (msp : Text) → IsCaller msp → caller_msp_id stub ≡ ok msp
  unfolding caller_msp_id
  IsCaller-caller_msp_id msp c = ground arith

  caller_msp_id-unauthorized :
      (e : GoError) → caller_msp_id stub ≡ err e → is_sentinel unauthorized e ≡ true
  unfolding caller_msp_id is_sentinel
  caller_msp_id-unauthorized e h = ground arith

  -- The write gate lets a caller pass exactly when the caller's identity can be read and its MSP
  -- is the platform's or has the shape OrgClient-<tenant>MSP with a tenant.
  pub authorize_submit_iff :
      (msp : Text) → (authorize_submit stub ≡ ok msp) ↔ (IsCaller msp × MaySubmit msp)
  unfolding authorize_submit
  authorize_submit_iff msp = (
    λ h. ground (arith, eq_iff msp msp_org1, IsTenantMsp-of_test msp),
    λ h. ground (arith, eq_iff msp msp_org1, test_of_IsTenantMsp msp),
  )

  -- The read gate lets the auditor's MSP pass besides, and nobody else.
  pub authorize_evaluate_iff :
      (msp : Text) → (authorize_evaluate stub ≡ ok msp) ↔ (IsCaller msp × MayRead msp)
  unfolding authorize_evaluate
  authorize_evaluate_iff msp = (
    λ h. ground (arith, eq_iff msp msp_org1, eq_iff msp msp_org3, IsTenantMsp-of_test msp),
    λ h. ground (arith, eq_iff msp msp_org1, eq_iff msp msp_org3, test_of_IsTenantMsp msp),
  )

  -- A gate that does not pass fails with ErrUnauthorized.
  pub authorize_submit-unauthorized :
      (e : GoError) → authorize_submit stub ≡ err e → is_sentinel unauthorized e ≡ true
  unfolding authorize_submit is_sentinel
  authorize_submit-unauthorized e h = ground (arith, caller_msp_id-unauthorized e)

  pub authorize_evaluate-unauthorized :
      (e : GoError) → authorize_evaluate stub ≡ err e → is_sentinel unauthorized e ≡ true
  unfolding authorize_evaluate is_sentinel
  authorize_evaluate-unauthorized e h = ground (arith, caller_msp_id-unauthorized e)
