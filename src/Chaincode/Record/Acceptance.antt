-- ===== src/Chaincode/Record/Acceptance.antt =====
-- record_profile_section.go: the submissions that are accepted.
use fabric_hris.Prelude.{
  ℕ, Text, text, ◌==◌, eq_iff, ◌≡◌, ◌↔◌, sym, ◌∙◌, ◌⊎◌, inl, inr, refl, Option, none, some, [], ◌∷◌,
  arith, Bool-cases,
}
use fabric_hris.Errors.{ok, Result-cases}
use fabric_hris.Chaincode.Asset.{EmployeeProfileRecord, RecordProfileSectionResult}
use fabric_hris.Chaincode.Stub.{Platform, Stub, Effects, no_effects, put_state, set_event}
use fabric_hris.Chaincode.Identity.{authorize_submit}
use fabric_hris.Chaincode.Record.{
  Arguments, check_profile_section, required_string_args, next_int, next_version, read_head,
  new_record, result_of, write_version, anchor_version, record_profile_section,
}
use fabric_hris.Chaincode.Record.Outcome.{PrevMatches, anchor_version-cases}

-- The version that step 5 gives.
next_version-accepts :
    (head : Option EmployeeProfileRecord) (prev : Text)
    → PrevMatches head prev
    → (v : ℕ) × (next_version head prev ≡ ok v)
unfolding next_version
next_version-accepts none prev h = (1, ground arith)
next_version-accepts (some head) prev h =
    (next_int head.version, ground (arith, eq_iff prev head.data_hash))

next_version-none : (prev : Text) (v : ℕ) → next_version none prev ≡ ok v → prev ≡ []
unfolding next_version
next_version-none prev v e = ground arith

next_version-some :
    (head : EmployeeProfileRecord) (prev : Text) (v : ℕ)
    → next_version (some head) prev ≡ ok v
    → prev ≡ head.data_hash
unfolding next_version
next_version-some head prev v e = ground (arith, eq_iff prev head.data_hash)

module _ {V : Type 0} (p : Platform V) (stub : Stub V) (a : Arguments) where
  -- The shim and the codec fail nowhere in the transaction.
  pub record Sound : Type 0 where
    pub now : ℕ × ℕ
    pub has_timestamp : stub.tx_timestamp ≡ ok now
    pub marshals : (r : EmployeeProfileRecord) → (v : V) × (p.marshal r ≡ ok v)
    pub puts : (key : Text) → stub.put_error key ≡ none
    pub sets_event : stub.event_error ≡ none

  write_version-accepts :
      (head : Option EmployeeProfileRecord) (key : Text)
      → Sound
      → PrevMatches head a.prev_hash
      → (r : RecordProfileSectionResult) × (e : Effects V) × (write_version p stub a head key
            no_effects
          ≡ (ok r, e))
  unfolding write_version put_state set_event
  write_version-accepts head key s h =
      let (v, versioned) = next_version-accepts head a.prev_hash h in
      let (value, marshalled) = s.marshals (new_record p stub a v s.now) in
      let timed = s.has_timestamp in
      let put = s.puts key in
      let event = s.sets_event in
      (
        result_of (new_record p stub a v s.now),
        record { writes = (key, value) ∷ []; events = (text "RecordProfileSection", value) ∷ [] },
        ground (arith, versioned, timed, marshalled, put, event),
      )

  -- The head has the submitted hash already, or the submitted prevHash is the head's hash.
  abbrev pub Follows : Option EmployeeProfileRecord → Type 0
  Follows none = a.prev_hash ≡ []
  Follows (some head) = (head.data_hash ≡ a.data_hash) ⊎ (a.prev_hash ≡ head.data_hash)

  anchor_version-accepts :
      (head : Option EmployeeProfileRecord) (key : Text)
      → Sound
      → Follows head
      → (r : RecordProfileSectionResult) × (e : Effects V) × (anchor_version p stub a
            (head, key)
            no_effects
          ≡ (ok r, e))
  unfolding anchor_version
  anchor_version-accepts none key s f = write_version-accepts none key s f
  anchor_version-accepts (some head) key s f = elim (Bool-cases (head.data_hash == a.data_hash)) [
    | inl same ↦ (result_of head, no_effects, rw (anchor_version, same) refl)
    | inr other ↦
        let prev : a.prev_hash ≡ head.data_hash =
          ground (arith, eq_iff head.data_hash a.data_hash) in
        let (r, e, run) = write_version-accepts (some head) key s prev in
        (r, e, rw (anchor_version, other) run)
  ]

  anchor_version-Follows :
      (head : Option EmployeeProfileRecord) (key : Text) (r : RecordProfileSectionResult)
      (e : Effects V)
      → anchor_version p stub a (head, key) no_effects ≡ (ok r, e)
      → Follows head
  anchor_version-Follows none key r e run = elim (anchor_version-cases p stub a none key r e run) [
    | inl repeated ↦ absurd (ground (arith, repeated.is_head))
    | inr (w, other) ↦
        sym w.prev_hash ∙ next_version-none w.stored.prev_hash w.stored.version w.links
  ]
  anchor_version-Follows (some head) key r e run =
      elim (anchor_version-cases p stub a (some head) key r e run) [
        | inl repeated ↦ inl (ground (arith, repeated.is_head, repeated.same_hash))
        | inr (w, other) ↦
            inr
              (sym w.prev_hash ∙ next_version-some head w.stored.prev_hash w.stored.version w.links)
      ]

  accepted_parts :
      (r : RecordProfileSectionResult) (e : Effects V)
      → record_profile_section p stub a no_effects ≡ (ok r, e)
      → (check_profile_section a.profile_section ≡ ok tt)
        × (required_string_args a ≡ ok tt)
        × (msp : Text) × (authorize_submit stub ≡ ok msp)
        × (head : Option EmployeeProfileRecord) × (key : Text) × (read_head p stub a.employee_id
              a.profile_section
            ≡ ok (head, key))
        × Follows head
  unfolding record_profile_section
  accepted_parts r e run = elim (Result-cases (check_profile_section a.profile_section)) [
    | inr (x, f) ↦ absurd (ground arith)
    | inl (u, f) ↦ elim (Result-cases (authorize_submit stub)) [
      | inr (x, g) ↦ absurd (ground arith)
      | inl (msp, g) ↦ elim (Result-cases (required_string_args a)) [
        | inr (x, k) ↦ absurd (ground arith)
        | inl (u', k) ↦ elim (Result-cases (read_head p stub a.employee_id a.profile_section)) [
          | inr (x, l) ↦ absurd (ground arith)
          | inl ((head, key), l) ↦
              (f, k, msp, g, head, key, l, anchor_version-Follows head key r e (ground arith))
        ]
      ]
    ]
  ]

  -- Where the shim and the codec do not fail: a submission is accepted exactly where the section is
  -- one of the five, the caller passes the write gate, no required argument is empty, the head can be
  -- read, and it either has the submitted hash already or is what the submitted prevHash names (no
  -- head being named by the empty one).
  pub record_profile_section_iff :
      Sound
      → ((r : RecordProfileSectionResult) × (e : Effects V) × (record_profile_section p stub a
              no_effects
            ≡ (ok r, e)))
        ↔ ((check_profile_section a.profile_section ≡ ok tt)
            × (required_string_args a ≡ ok tt)
            × (msp : Text) × (authorize_submit stub ≡ ok msp)
            × (head : Option EmployeeProfileRecord) × (key : Text) × (read_head p stub a.employee_id
                  a.profile_section
                ≡ ok (head, key))
            × Follows head)
  unfolding record_profile_section
  record_profile_section_iff s = (
    λ (r, e, run). accepted_parts r e run,
    λ (valid, filled, msp, gate, head, key, found, follows).
        let (r, e, run) = anchor_version-accepts head key s follows in
        (r, e, rw (record_profile_section, valid, gate, filled, found) run),
  )
