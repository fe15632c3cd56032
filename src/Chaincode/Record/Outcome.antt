-- ===== src/Chaincode/Record/Outcome.antt =====
-- What one run of RecordProfileSection can do.
use fabric_hris.Prelude.{
  ℕ, Text, text, ◌==◌, eq_iff, ◌≡◌, ◌≢◌, ◌⊎◌, inl, inr, refl, true, Option, none, some, [], ◌∷◌,
  arith, Bool-cases,
}
use fabric_hris.Errors.{ok, Result-cases}
use fabric_hris.Chaincode.Asset.{
  EmployeeProfileRecord, RecordProfileSectionResult, is_valid_profile_section,
}
use fabric_hris.Chaincode.Stub.{Platform, Stub, Effects, no_effects, put_state, set_event}
use fabric_hris.Chaincode.Identity.{authorize_submit}
use fabric_hris.Chaincode.Identity.Access.{MaySubmit, authorize_submit_iff}
use fabric_hris.Chaincode.Record.{
  Arguments, check_profile_section, next_int, next_version, result_of, read_head, new_record,
  write_version, anchor_version, record_profile_section,
}

-- The link of a new record to the head that it replaces.
abbrev pub Links : EmployeeProfileRecord → Option EmployeeProfileRecord → Type 0
Links r none = (r.prev_hash ≡ []) × (r.version ≡ 1)
Links r (some head) =
    (r.prev_hash ≡ head.data_hash)
    × (r.version ≡ next_int head.version)
    × (r.data_hash ≢ head.data_hash)

-- The prevHash that step 5 asks for.
abbrev pub PrevMatches : Option EmployeeProfileRecord → Text → Type 0
PrevMatches none prev = prev ≡ []
PrevMatches (some head) prev = prev ≡ head.data_hash

pub next_version-Links :
    (head : Option EmployeeProfileRecord) (r : EmployeeProfileRecord)
    → next_version head r.prev_hash ≡ ok r.version
    → ((h : EmployeeProfileRecord) → head ≡ some h → r.data_hash ≢ h.data_hash)
    → Links r head
unfolding next_version
next_version-Links none r e d = ground arith
next_version-Links (some h) r e d = ground (arith, eq_iff r.prev_hash h.data_hash, d h refl)

module _ {V : Type 0} (p : Platform V) (stub : Stub V) (a : Arguments) where
  -- A run that wrote: the record, its stored value, and what it links to.
  pub record Written (head : Option EmployeeProfileRecord) (key : Text)
      (r : RecordProfileSectionResult) (e : Effects V) : Type 0 where
    pub stored : EmployeeProfileRecord
    pub value : V
    pub marshalled : p.marshal stored ≡ ok value
    pub result : r ≡ result_of stored
    pub effects :
        e
        ≡ record { writes = (key, value) ∷ []; events = (text "RecordProfileSection", value) ∷ [] }
    pub data_hash : stored.data_hash ≡ a.data_hash
    pub prev_hash : stored.prev_hash ≡ a.prev_hash
    pub employee_id : stored.employee_id ≡ a.employee_id
    pub profile_section : stored.profile_section ≡ a.profile_section
    pub updated_by : stored.updated_by ≡ a.updated_by
    pub links : next_version head stored.prev_hash ≡ ok stored.version

  Written-from :
      (head : Option EmployeeProfileRecord) (key : Text) (r : RecordProfileSectionResult)
      (e : Effects V) (v : ℕ) (t : ℕ × ℕ) (value : V)
      → next_version head a.prev_hash ≡ ok v
      → stub.tx_timestamp ≡ ok t
      → p.marshal (new_record p stub a v t) ≡ ok value
      → write_version p stub a head key no_effects ≡ (ok r, e)
      → Written head key r e
  unfolding write_version put_state set_event new_record
  Written-from head key r e v t value ev et em h = record {
    stored = new_record p stub a v t;
    value = value;
    marshalled = em;
    result = ground arith;
    effects = ground arith;
    data_hash = refl;
    prev_hash = refl;
    employee_id = refl;
    profile_section = refl;
    updated_by = refl;
    links = ev;
  }

  write_version-Written :
      (head : Option EmployeeProfileRecord) (key : Text) (r : RecordProfileSectionResult)
      (e : Effects V)
      → write_version p stub a head key no_effects ≡ (ok r, e)
      → Written head key r e
  unfolding write_version
  write_version-Written head key r e h = elim (Result-cases (next_version head a.prev_hash)) [
    | inr (x, ev) ↦ absurd (ground arith)
    | inl (v, ev) ↦ elim (Result-cases stub.tx_timestamp) [
      | inr (x, et) ↦ absurd (ground arith)
      | inl (t, et) ↦ elim (Result-cases (p.marshal (new_record p stub a v t))) [
        | inr (x, em) ↦ absurd (ground arith)
        | inl (value, em) ↦ Written-from head key r e v t value ev et em h
      ]
    ]
  ]

  -- The head has the submitted hash already.
  pub record Repeated (head : Option EmployeeProfileRecord) (r : RecordProfileSectionResult)
      (e : Effects V) : Type 0 where
    pub present : EmployeeProfileRecord
    pub is_head : head ≡ some present
    pub same_hash : present.data_hash ≡ a.data_hash
    pub result : r ≡ result_of present
    pub effects : e ≡ no_effects

  -- A successful run: who called it, what it read, and what it did.
  pub record Success (r : RecordProfileSectionResult) (e : Effects V) : Type 0 where
    pub msp : Text
    pub caller : MaySubmit msp
    pub known_section : is_valid_profile_section a.profile_section ≡ true
    pub head : Option EmployeeProfileRecord
    pub key : Text
    pub was_read : read_head p stub a.employee_id a.profile_section ≡ ok (head, key)
    pub did :
        Repeated head r e
        ⊎ (Written head key r e
            × ((h : EmployeeProfileRecord) → head ≡ some h → a.data_hash ≢ h.data_hash))

  pub anchor_version-cases :
      (head : Option EmployeeProfileRecord) (key : Text) (r : RecordProfileSectionResult)
      (e : Effects V)
      → anchor_version p stub a (head, key) no_effects ≡ (ok r, e)
      → Repeated head r e
        ⊎ (Written head key r e
            × ((h : EmployeeProfileRecord) → head ≡ some h → a.data_hash ≢ h.data_hash))
  unfolding anchor_version
  anchor_version-cases none key r e h =
      inr (write_version-Written none key r e h, λ present is_head. cc)
  anchor_version-cases (some present) key r e h =
      elim (Bool-cases (present.data_hash == a.data_hash)) [
        | inl same ↦ inl (record {
          present = present;
          is_head = refl;
          same_hash = (eq_iff present.data_hash a.data_hash).0 same;
          result = ground arith;
          effects = ground arith;
        })
        | inr other ↦ inr (
          write_version-Written (some present) key r e (ground arith),
          λ x is_head equal. ground (arith, eq_iff present.data_hash a.data_hash),
        )
      ]

  pub record_profile_section-Success :
      (r : RecordProfileSectionResult) (e : Effects V)
      → record_profile_section p stub a no_effects ≡ (ok r, e)
      → Success r e
  unfolding record_profile_section check_profile_section
  record_profile_section-Success r e h = elim (Result-cases (authorize_submit stub)) [
    | inr (x, ea) ↦ absurd (ground arith)
    | inl (msp, ea) ↦ elim (Result-cases (read_head p stub a.employee_id a.profile_section)) [
      | inr (x, eh) ↦ absurd (ground arith)
      | inl ((head, key), eh) ↦ record {
        msp = msp;
        caller = ((authorize_submit_iff stub msp).0 ea).1;
        known_section = ground arith;
        head = head;
        key = key;
        was_read = eh;
        did = anchor_version-cases head key r e (ground arith);
      }
    ]
  ]
