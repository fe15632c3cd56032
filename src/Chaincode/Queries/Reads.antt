-- ===== src/Chaincode/Queries/Reads.antt =====
-- What the two queries on current heads return.
use fabric_hris.Prelude.{
  Text, eq_refl, ◌≡◌, refl, sym, ◌∙◌, ap, true, Option, none, some, List, [], ◌∷◌, ◌++◌, map, arith,
  inl, inr, ◌↔◌, Bool-cases,
}
use fabric_hris.Prelude.Maps.{lookup}
use fabric_hris.Errors.{ok, err, Result-cases, GoError, Sentinel, record_not_found}
use fabric_hris.Chaincode.Asset.{
  EmployeeProfileRecord, ProfileSectionHead, ProfileSectionSummaryEntry, RecordProfileSectionResult,
  all_profile_sections, is_valid_profile_section,
}
use fabric_hris.Chaincode.Stub.{Platform, Stub, Effects, no_effects}
use fabric_hris.Chaincode.Identity.{authorize_evaluate, caller_msp_id}
use fabric_hris.Chaincode.Record.{
  Arguments, record_profile_section, check_profile_section, profile_key, decode_head, read_head,
}
use fabric_hris.Chaincode.Record.Outcome.{Success, record_profile_section-Success}
use fabric_hris.Chaincode.Ledger.{Reads}
use fabric_hris.Chaincode.Ledger.Chain.{read_head-state}
use fabric_hris.Chaincode.Queries.{
  head_of, get_profile_section_record, summary_of, summarize, get_employee_profile_summary,
}

module _ {V : Type 0} (p : Platform V) where
  pub read_head_of_state :
      (stub : Stub V) (employee section key : Text) (o : Option V)
      → profile_key p employee section ≡ ok key
      → stub.get_state key ≡ ok o
      → read_head p stub employee section ≡ decode_head p key o
  unfolding read_head
  read_head_of_state stub employee section key o e f = rw e (rw f)

  pub get_record_of_head :
      (stub : Stub V) (tenant employee section msp key : Text) (head : EmployeeProfileRecord)
      → authorize_evaluate stub ≡ ok msp
      → is_valid_profile_section section ≡ true
      → read_head p stub employee section ≡ ok (some head, key)
      → get_profile_section_record p stub tenant employee section ≡ ok (head_of head)
  unfolding get_profile_section_record check_profile_section
  get_record_of_head stub tenant employee section msp key head gate valid was_read = ground arith

  -- A reader that sees the committed state.
  abbrev pub Sees : Stub V → List (Text × V) → Type 0
  Sees stub log = (k : Text) → stub.get_state k ≡ ok (lookup k log)

  module _
      (codec : (r : EmployeeProfileRecord) (v : V)
        → p.marshal r ≡ ok v
        → p.unmarshal v ≡ ok r) where
    pub head_after :
        (stub reader : Stub V) (a : Arguments) (r : RecordProfileSectionResult) (e : Effects V)
        (log : List (Text × V))
        → Reads stub log
        → Sees reader (e.writes ++ log)
        → Success p stub a r e
        → (head : EmployeeProfileRecord) × (key : Text) × (read_head p reader a.employee_id
              a.profile_section
            ≡ ok (some head, key))
          × (head.data_hash ≡ a.data_hash)
          × (head.version ≡ r.version)
          × (head.timestamp ≡ r.timestamp)
    unfolding lookup
    head_after stub reader a r e log reads sees s =
        let (o, f, g, k) =
          read_head-state p stub a.employee_id a.profile_section s.key s.head s.was_read in
        elim s.did [
          | inl repeated ↦
              let same_log : reader.get_state s.key ≡ ok o =
                sees s.key
                ∙ ap (λ (x : Effects V). ok (lookup s.key (x.writes ++ log))) repeated.effects
                ∙ ap ok (sym (reads s.key o f)) in
              (
                repeated.present,
                s.key,
                read_head_of_state reader a.employee_id a.profile_section s.key o k same_log
                    ∙ g
                    ∙ ap (λ h. ok (h, s.key)) repeated.is_head,
                repeated.same_hash,
                ground (arith, repeated.result),
                ground (arith, repeated.result),
              )
          | inr (w, other) ↦
              let new_log : reader.get_state s.key ≡ ok (some w.value) =
                sees s.key
                ∙ ap (λ (x : Effects V). ok (lookup s.key (x.writes ++ log))) w.effects
                ∙ rw (eq_refl s.key) in
              (
                w.stored,
                s.key,
                read_head_of_state reader a.employee_id a.profile_section s.key (some w.value) k
                      new_log
                    ∙ rw (codec w.stored w.value w.marshalled),
                w.data_hash,
                ground (arith, w.result),
                ground (arith, w.result),
              )
        ]

    -- Where JSON decodes what it encoded: after a Submit that succeeded on the committed state, an
    -- authorised reader that sees the commit gets the hash that was submitted, with the version and
    -- the timestamp that the Submit returned.
    pub get-record_profile_section :
        (stub reader : Stub V) (a : Arguments) (r : RecordProfileSectionResult) (e : Effects V)
        (log : List (Text × V)) (tenant msp : Text)
        → Reads stub log
        → record_profile_section p stub a no_effects ≡ (ok r, e)
        → Sees reader (e.writes ++ log)
        → authorize_evaluate reader ≡ ok msp
        → (head : ProfileSectionHead) × (get_profile_section_record p reader tenant a.employee_id
              a.profile_section
            ≡ ok head)
          × (head.data_hash ≡ a.data_hash)
          × (head.version ≡ r.version)
          × (head.timestamp ≡ r.timestamp)
    unfolding head_of
    get-record_profile_section stub reader a r e log tenant msp reads run sees gate =
        let s = record_profile_section-Success p stub a r e run in
        let (head, key, was_read, d, v, t) = head_after stub reader a r e log reads sees s in
        (
          head_of head,
          get_record_of_head reader tenant a.employee_id a.profile_section msp key head gate
              s.known_section was_read,
          d,
          v,
          t,
        )

  -- Where a state read says that the key is absent.
  read_head-absent :
      (stub : Stub V) (employee section key : Text)
      → read_head p stub employee section ≡ ok (none, key)
      → (profile_key p employee section ≡ ok key) × (stub.get_state key ≡ ok none)
  unfolding read_head
  read_head-absent stub employee section key e =
      elim (Result-cases (profile_key p employee section)) [
        | inr (x, f) ↦ absurd (ground arith)
        | inl (k, f) ↦ elim (Result-cases (stub.get_state k)) [
          | inr (x, g) ↦ absurd (ground arith)
          | inl (o, g) ↦
              decoded_absent k key o f g
                (sym (read_head_of_state stub employee section k o f g) ∙ e)
        ]
      ]
    where
      decoded_absent :
          (k key : Text) (o : Option V)
          → profile_key p employee section ≡ ok k
          → stub.get_state k ≡ ok o
          → decode_head p k o ≡ ok (none, key)
          → (profile_key p employee section ≡ ok key) × (stub.get_state key ≡ ok none)
      decoded_absent k key none f g e =
          let same : k ≡ key = ground arith in (f ∙ ap ok same, ap stub.get_state (sym same) ∙ g)
      decoded_absent k key (some v) f g e = elim (Result-cases (p.unmarshal v)) [
        | inr (x, h) ↦ absurd (ground arith)
        | inl (r, h) ↦ absurd (ground arith)
      ]

  -- No failure of the gate or of the read is the bare error.
  authorize_evaluate-wrapped :
      (stub : Stub V) (s : Sentinel) → authorize_evaluate stub ≡ err (GoError.sentinel s) → ⊥
  unfolding authorize_evaluate caller_msp_id
  authorize_evaluate-wrapped stub s e = ground arith

  read_head-wrapped :
      (stub : Stub V) (employee section : Text) (s : Sentinel)
      → read_head p stub employee section ≡ err (GoError.sentinel s)
      → ⊥
  unfolding read_head profile_key
  read_head-wrapped stub employee section s e =
      elim (Result-cases (profile_key p employee section)) [
        | inr (x, f) ↦ ground arith
        | inl (k, f) ↦ elim (Result-cases (stub.get_state k)) [
          | inr (x, g) ↦ ground arith
          | inl (o, g) ↦ decoded k o (sym (read_head_of_state stub employee section k o f g) ∙ e)
        ]
      ]
    where
      decoded : (k : Text) (o : Option V) → decode_head p k o ≡ err (GoError.sentinel s) → ⊥
      decoded k none e = ground arith
      decoded k (some v) e = elim (Result-cases (p.unmarshal v)) [
        | inr (x, h) ↦ ground arith
        | inl (r, h) ↦ ground arith
      ]

  -- "Not found" is the answer exactly where the caller passes the read gate, the section is one of
  -- the five, its key can be built, and the read of the key's state succeeds and finds nothing: no
  -- failure of the gate, of the arguments, of the key, of the state or of the decoder is reported
  -- as ErrRecordNotFound.
  pub not_found_iff :
      (reader : Stub V) (tenant employee section : Text)
      → (get_profile_section_record p reader tenant employee section
          ≡ err (GoError.sentinel record_not_found))
        ↔ ((msp key : Text) × (authorize_evaluate reader ≡ ok msp)
            × (is_valid_profile_section section ≡ true)
            × (profile_key p employee section ≡ ok key)
            × (reader.get_state key ≡ ok none))
  unfolding get_profile_section_record check_profile_section
  not_found_iff reader tenant employee section = (
    λ e. elim (Result-cases (authorize_evaluate reader)) [
      | inr (x, f) ↦ absurd (ground (arith, authorize_evaluate-wrapped reader record_not_found))
      | inl (msp, f) ↦ elim (Bool-cases (is_valid_profile_section section)) [
        | inr unknown ↦ absurd (ground arith)
        | inl valid ↦ elim (Result-cases (read_head p reader employee section)) [
          | inr (x, g) ↦
              absurd (ground (arith, read_head-wrapped reader employee section record_not_found))
          | inl ((some head, key), g) ↦ absurd (ground arith)
          | inl ((none, key), g) ↦
              let (k, absent) = read_head-absent reader employee section key g in
              (msp, key, f, valid, k, absent)
        ]
      ]
    ],
    λ (msp, key, gate, valid, k, absent).
        rw (gate, valid, read_head_of_state reader employee section key none k absent) refl,
  )

  -- An entry that tells this head of the section: its hash, time, author and version, or empty
  -- texts and version 0 where there is none.
  abbrev pub Tells : Text → Option EmployeeProfileRecord → ProfileSectionSummaryEntry → Type 0
  Tells section none e =
      (e.profile_section ≡ section)
      × (e.version ≡ 0)
      × (e.data_hash ≡ [])
      × (e.timestamp ≡ [])
      × (e.updated_by ≡ [])
  Tells section (some head) e =
      (e.profile_section ≡ section)
      × (e.version ≡ head.version)
      × (e.data_hash ≡ head.data_hash)
      × (e.timestamp ≡ head.timestamp)
      × (e.updated_by ≡ head.updated_by)

  summary_of-Tells :
      (section : Text) (head : Option EmployeeProfileRecord)
      → Tells section head (summary_of section head)
  unfolding summary_of
  summary_of-Tells section none = (refl, refl, refl, refl, refl)
  summary_of-Tells section (some head) = (refl, refl, refl, refl, refl)

  -- The entries of a summary: one for each section in order, of the head that was read for it.
  abbrev pub SummaryOf : Stub V → Text → List Text → List ProfileSectionSummaryEntry → Type 0
  SummaryOf stub employee [] [] = Unit
  SummaryOf stub employee [] (e ∷ es) = ⊥
  SummaryOf stub employee (s ∷ ss) [] = ⊥
  SummaryOf stub employee (s ∷ ss) (e ∷ es) =
      ((head : Option EmployeeProfileRecord) × (key : Text) × (read_head p stub employee s
          ≡ ok (head, key))
        × Tells s head e)
      × SummaryOf stub employee ss es

  summarize-SummaryOf :
      (stub : Stub V) (employee : Text) (sections : List Text)
      (es : List ProfileSectionSummaryEntry)
      → summarize p stub employee sections ≡ ok es
      → SummaryOf stub employee sections es
  unfolding summarize
  summarize-SummaryOf stub employee [] [] h = tt
  summarize-SummaryOf stub employee [] (e ∷ es) h = absurd (ground arith)
  summarize-SummaryOf stub employee (s ∷ ss) es h =
      elim (Result-cases (read_head p stub employee s)) [
        | inr (x, f) ↦ absurd (ground arith)
        | inl ((head, key), f) ↦ elim (Result-cases (summarize p stub employee ss)) [
          | inr (x, g) ↦ absurd (ground arith)
          | inl (rest, g) ↦
              let shape : es ≡ summary_of s head ∷ rest = ground arith in
              rw shape (
                (head, key, f, summary_of-Tells s head),
                summarize-SummaryOf stub employee ss rest g,
              )
        ]
      ]

  Tells-section :
      (section : Text) (head : Option EmployeeProfileRecord) (e : ProfileSectionSummaryEntry)
      → Tells section head e
      → e.profile_section ≡ section
  Tells-section section none e t = t.0
  Tells-section section (some head) e t = t.0

  sections_of_SummaryOf :
      (stub : Stub V) (employee : Text) (sections : List Text)
      (es : List ProfileSectionSummaryEntry)
      → SummaryOf stub employee sections es
      → map (λ (e : ProfileSectionSummaryEntry). e.profile_section) es ≡ sections
  unfolding summary_of
  sections_of_SummaryOf stub employee [] [] h = refl
  sections_of_SummaryOf stub employee [] (e ∷ es) h = absurd h
  sections_of_SummaryOf stub employee (s ∷ ss) [] h = absurd h
  sections_of_SummaryOf stub employee (s ∷ ss) (e ∷ es) ((head, key, f, g), rest) =
      let tail = sections_of_SummaryOf stub employee ss es rest in
      let same = Tells-section s head e g in rw (same, tail)

  -- A summary has exactly the five sections, in the fixed order, and each entry has the
  -- hash, the timestamp, the author and the version of the head that the same transaction read for
  -- its section (version 0 and empty texts where it has none).
  pub get_employee_profile_summary-SummaryOf :
      (stub : Stub V) (tenant employee : Text) (es : List ProfileSectionSummaryEntry)
      → get_employee_profile_summary p stub tenant employee ≡ ok es
      → SummaryOf stub employee all_profile_sections es
        × (map (λ (e : ProfileSectionSummaryEntry). e.profile_section) es ≡ all_profile_sections)
  unfolding get_employee_profile_summary
  get_employee_profile_summary-SummaryOf stub tenant employee es h =
      elim (Result-cases (authorize_evaluate stub)) [
        | inr (x, f) ↦ absurd (ground arith)
        | inl (msp, f) ↦
            let run : summarize p stub employee all_profile_sections ≡ ok es = ground arith in
            let s = summarize-SummaryOf stub employee all_profile_sections es run in
            (s, sections_of_SummaryOf stub employee all_profile_sections es s)
      ]
