-- ===== src/Chaincode/Record/Rejection.antt =====
-- chaincode/record_profile_section.go: the runs of RecordProfileSection that fail.
use fabric_hris.Prelude.{ℕ, Text, eq_iff, ◌≡◌, ◌≢◌, inl, inr, refl, true, Option, none, some, arith}
use fabric_hris.Errors.{
  ok, err, Result-cases, GoError, is_sentinel, unauthorized, stale_chain_reference,
}
use fabric_hris.Chaincode.Asset.{EmployeeProfileRecord, is_valid_profile_section}
use fabric_hris.Chaincode.Stub.{Platform, Stub, Effects, put_state, set_event}
use fabric_hris.Chaincode.Identity.{authorize_submit}
use fabric_hris.Chaincode.Identity.Access.{authorize_submit-unauthorized}
use fabric_hris.Chaincode.Record.{
  Arguments, required_string_args, check_profile_section, next_version, read_head, write_version,
  anchor_version, record_profile_section,
}
use fabric_hris.Chaincode.Record.Outcome.{PrevMatches}

module _ {V : Type 0} (p : Platform V) (stub : Stub V) (a : Arguments) where
  -- In a known section, a caller that the gate refuses gets ErrUnauthorized, whatever the other
  -- arguments are, and nothing is written.
  pub record_profile_section-unauthorized :
      (e : GoError)
      → is_valid_profile_section a.profile_section ≡ true
      → authorize_submit stub ≡ err e
      → (is_sentinel unauthorized e ≡ true)
        × ((s : Effects V) → record_profile_section p stub a s ≡ (err e, s))
  unfolding record_profile_section check_profile_section
  record_profile_section-unauthorized e valid h =
      (authorize_submit-unauthorized stub e h, λ s. ground arith)

  next_version-stale :
      (head : Option EmployeeProfileRecord) (e : GoError)
      → next_version head a.prev_hash ≡ err e
      → is_sentinel stale_chain_reference e ≡ true
  unfolding next_version is_sentinel
  next_version-stale none e h = ground arith
  next_version-stale (some x) e h = ground arith

  write_version-error :
      (head : Option EmployeeProfileRecord) (key : Text) (e : GoError) (s s' : Effects V)
      → stub.event_error ≡ none
      → write_version p stub a head key s ≡ (err e, s')
      → s' ≡ s
  unfolding write_version put_state set_event
  write_version-error head key e s s' quiet h = ground arith

  anchor_version-error :
      (head : Option EmployeeProfileRecord) (key : Text) (e : GoError) (s s' : Effects V)
      → stub.event_error ≡ none
      → anchor_version p stub a (head, key) s ≡ (err e, s')
      → s' ≡ s
  unfolding anchor_version
  anchor_version-error none key e s s' quiet h = write_version-error none key e s s' quiet h
  anchor_version-error (some x) key e s s' quiet h =
      ground (arith, write_version-error (some x) key e s s' quiet)

  -- A failed run has put nothing into the write set, and no event, as long as SetEvent itself
  -- does not fail.
  pub error-no_effects :
      (e : GoError) (s s' : Effects V)
      → stub.event_error ≡ none
      → record_profile_section p stub a s ≡ (err e, s')
      → s' ≡ s
  unfolding record_profile_section
  error-no_effects e s s' quiet h =
      elim (Result-cases (read_head p stub a.employee_id a.profile_section)) [
        | inr (x, eh) ↦ ground arith
        | inl ((head, key), eh) ↦ ground (arith, anchor_version-error head key e s s' quiet)
      ]

  next_version-PrevMatches :
      (head : Option EmployeeProfileRecord) (v : ℕ)
      → next_version head a.prev_hash ≡ ok v
      → PrevMatches head a.prev_hash
  unfolding next_version
  next_version-PrevMatches none v h = ground arith
  next_version-PrevMatches (some x) v h = ground (arith, eq_iff a.prev_hash x.data_hash)

  anchor_version-stale :
      (head : Option EmployeeProfileRecord) (key : Text) (e : GoError) (s : Effects V)
      → ((h : EmployeeProfileRecord) → head ≡ some h → h.data_hash ≢ a.data_hash)
      → next_version head a.prev_hash ≡ err e
      → anchor_version p stub a (head, key) s ≡ (err e, s)
  unfolding anchor_version write_version
  anchor_version-stale none key e s other h = ground arith
  anchor_version-stale (some x) key e s other h =
      ground (arith, eq_iff x.data_hash a.data_hash, other x refl)

  -- Where everything before step 5 is in order and the submitted hash is not the head's, a
  -- prevHash that is not the head's hash (with no head: is not empty) is refused as a stale chain
  -- reference, and nothing is written.
  pub record_profile_section-stale :
      (head : Option EmployeeProfileRecord) (key msp : Text) (s : Effects V)
      → is_valid_profile_section a.profile_section ≡ true
      → authorize_submit stub ≡ ok msp
      → required_string_args a ≡ ok tt
      → read_head p stub a.employee_id a.profile_section ≡ ok (head, key)
      → ((h : EmployeeProfileRecord) → head ≡ some h → h.data_hash ≢ a.data_hash)
      → ¬ (PrevMatches head a.prev_hash)
      → (e : GoError) × (is_sentinel stale_chain_reference e ≡ true)
        × (record_profile_section p stub a s ≡ (err e, s))
  unfolding record_profile_section check_profile_section
  record_profile_section-stale head key msp s valid gate args was_read other stale =
      elim (Result-cases (next_version head a.prev_hash)) [
        | inl (v, ev) ↦ absurd (stale (next_version-PrevMatches head v ev))
        | inr (e, ev) ↦ (
          e,
          next_version-stale head e ev,
          ground (arith, anchor_version-stale head key e s other ev),
        )
      ]
