-- ===== src/Gateway/Submit/Acceptance.antt =====
-- gatewayclient.go over the chaincode: what becomes of a submission that nobody contends.
use fabric_hris.Prelude.{
  ℕ, suc, Text, text, Bytes, ◌≡◌, ◌≢◌, ◌<◌, All, inl, inr, refl, sym, subst, ap, ◌∙◌, true, Option,
  none, some, List, [], ◌∷◌, ◌++◌, arith,
}
use fabric_hris.Prelude.Maps.{lookup}
use fabric_hris.Errors.{
  GoError, external, sentinel, record_not_found, ledger_error, Result, ok, err, Result-cases,
}
use fabric_hris.Exec.{Exec}
use fabric_hris.Chaincode.Asset.{
  EmployeeProfileRecord, ProfileSectionHead, RecordProfileSectionResult, is_valid_profile_section,
}
use fabric_hris.Chaincode.Stub.{Platform, Stub, Effects, no_effects}
use fabric_hris.Chaincode.Identity.{authorize_submit, authorize_evaluate}
use fabric_hris.Chaincode.Record.{
  Arguments, check_profile_section, required_string_args, profile_key, decode_head, read_head,
  record_profile_section,
}
use fabric_hris.Chaincode.Record.Outcome.{record_profile_section-Success}
use fabric_hris.Chaincode.Record.Acceptance.{Sound, Follows, record_profile_section_iff}
use fabric_hris.Chaincode.Ledger.{Reads}
use fabric_hris.Chaincode.Queries.{head_of, get_profile_section_record}
use fabric_hris.Chaincode.Queries.Reads.{
  Sees, read_head_of_state, get_record_of_head, not_found_iff, head_after,
}
use fabric_hris.Gateway.Extract.{marker, NoQuote, extract_data_hash, extract_data_hash-finds}
use fabric_hris.Gateway.Submit.{
  Contract, evaluate_wrapped, evaluate_get_profile_section_record, submit_loop, seed,
  max_submit_retries, submit_record_profile_section,
}

-- The contract handle where the chaincode runs behind it and nobody else commits: `committed` is
-- what the ledger has, `submitter` and `reader` are the transaction contexts of the client's calls.
pub record Uncontended {V N : Type 0} (p : Platform V) (c : Contract N)
    (committed : N → List (Text × V)) (submitter reader : N → Stub V)
    (encode_head : ProfileSectionHead → Bytes) (encode_result : RecordProfileSectionResult → Bytes)
    (decode_args : List Text → Result Arguments) : Type 0 where
  pub submitter_sees : (s : N) → Sees p (submitter s) (committed s)
  pub reader_sees : (s : N) → Sees p (reader s) (committed s)
  -- An evaluation answers what the chaincode returns, and changes nothing.
  pub evaluates :
      (s : N) (tenant employee section : Text) (head : ProfileSectionHead)
      → get_profile_section_record p (reader s) tenant employee section ≡ ok head
      → c.evaluate (text "GetProfileSectionRecord") (tenant ∷ employee ∷ section ∷ []) s
        ≡ (ok (encode_head head), s)
  pub refuses :
      (s : N) (tenant employee section : Text) (e : GoError)
      → get_profile_section_record p (reader s) tenant employee section ≡ err e
      → (x : GoError) × (c.evaluate
            (text "GetProfileSectionRecord")
            (tenant ∷ employee ∷ section ∷ [])
            s
          ≡ (err x, s))
  -- A submission that the chaincode accepts is committed.
  pub commits :
      (s : N) (args : List Text) (a : Arguments) (r : RecordProfileSectionResult) (e : Effects V)
      → decode_args args ≡ ok a
      → record_profile_section p (submitter s) a no_effects ≡ (ok r, e)
      → (s' : N) × (c.submit_transaction (text "RecordProfileSection") args s
          ≡ (ok (encode_result r), s'))
        × (committed s' ≡ e.writes ++ committed s)

-- The hash that the first attempt submits as prevHash.
abbrev pub head_hash : Option EmployeeProfileRecord → Text
head_hash none = []
head_hash (some head) = head.data_hash

-- Characters that encoding/json writes into a string as they are: printable ASCII, but for the
-- quote, the backslash, &, < and >.
abbrev pub IsUnescaped : Text → Type 0
IsUnescaped t =
    All
      (λ c. (31 < c) × (c < 127) × (c ≢ b'"') × (c ≢ b'\\') × (c ≢ b'&') × (c ≢ b'<') × (c ≢ b'>'))
      t

IsUnescaped-NoQuote : (t : Text) → IsUnescaped t → NoQuote t
IsUnescaped-NoQuote [] u = tt
IsUnescaped-NoQuote (c ∷ t) ((low, high, quote, slash, amp, less, more), u) =
    (quote, IsUnescaped-NoQuote t u)

-- The head's hash stands in the head's JSON as it is.
abbrev pub HasPlainHash : Option EmployeeProfileRecord → Type 0
HasPlainHash none = Unit
HasPlainHash (some head) = IsUnescaped head.data_hash

head_hash-Follows :
    {V : Type 0} (p : Platform V) (stub : Stub V) (a : Arguments)
    (head : Option EmployeeProfileRecord)
    → Follows p stub (record a { prev_hash = head_hash head }) head
head_hash-Follows p stub a none = refl
head_hash-Follows p stub a (some head) = inr refl

decode_head-none :
    {V : Type 0} (p : Platform V) (key : Text) (o : Option V)
    → decode_head p key o ≡ ok (none, key)
    → o ≡ none
decode_head-none p key none e = refl
decode_head-none p key (some v) e = elim (Result-cases (p.unmarshal v)) [
  | inr (x, f) ↦ absurd (ground arith)
  | inl (r, f) ↦ absurd (ground arith)
]

required-prev_hash :
    (a : Arguments) (prev : Text)
    → required_string_args (record a { prev_hash = prev }) ≡ required_string_args a
unfolding required_string_args
required-prev_hash a prev = refl

module _ {V N : Type 0} (p : Platform V) (c : Contract N) (committed : N → List (Text × V))
    (submitter reader : N → Stub V) (encode_head : ProfileSectionHead → Bytes)
    (encode_result : RecordProfileSectionResult → Bytes)
    (decode_args : List Text → Result Arguments)
    (u : Uncontended p c committed submitter reader encode_head encode_result decode_args)
    (encodes : (h : ProfileSectionHead)
      → IsUnescaped h.data_hash
      → (rest : Bytes) × (encode_head h ≡ b'{' ∷ (marker ++ (h.data_hash ++ (b'"' ∷ rest))))) where
  extracts :
      (h : ProfileSectionHead)
      → IsUnescaped h.data_hash
      → extract_data_hash (encode_head h) ≡ h.data_hash
  extracts h plain =
      let (rest, shape) = encodes h plain in
      ap extract_data_hash shape
      ∙ extract_data_hash-finds (b'{' ∷ []) h.data_hash rest (omega arith, tt)
          (IsUnescaped-NoQuote h.data_hash plain)

  evaluated :
      (s s' : N) (tenant employee section : Text) (b : Bytes)
      → c.evaluate (text "GetProfileSectionRecord") (tenant ∷ employee ∷ section ∷ []) s
        ≡ (ok b, s')
      → evaluate_get_profile_section_record c tenant employee section s ≡ (ok b, s')
  unfolding evaluate_get_profile_section_record evaluate_wrapped
  evaluated s s' tenant employee section b e = ground arith

  refused :
      (s s' : N) (tenant employee section : Text) (x : GoError)
      → c.evaluate (text "GetProfileSectionRecord") (tenant ∷ employee ∷ section ∷ []) s
        ≡ (err x, s')
      → evaluate_get_profile_section_record c tenant employee section s ≡ (err (ledger_error x), s')
  unfolding evaluate_get_profile_section_record evaluate_wrapped
  refused s s' tenant employee section x e = ground arith

  submitter-Reads : (s : N) → Reads (submitter s) (committed s)
  submitter-Reads s k o e = let seen = u.submitter_sees s k in ground arith

  -- What the first read seeds the loop with.
  seed_lem :
      (s : N) (tenant employee section key msp : Text) (head : Option EmployeeProfileRecord)
      → authorize_evaluate (reader s) ≡ ok msp
      → is_valid_profile_section section ≡ true
      → profile_key p employee section ≡ ok key
      → decode_head p key (lookup key (committed s)) ≡ ok (head, key)
      → HasPlainHash head
      → (h : Result Bytes) × (evaluate_get_profile_section_record c tenant employee section s
          ≡ (h, s))
        × (seed c h ≡ head_hash head)
  unfolding evaluate_get_profile_section_record evaluate_wrapped seed head_of
  seed_lem s tenant employee section key msp none gate valid k found findable =
      let absent = decode_head-none p key (lookup key (committed s)) found in
      let missing =
        (not_found_iff p (reader s) tenant employee section).1
          (msp, key, gate, valid, k, u.reader_sees s key ∙ ap ok absent) in
      let (x, answered) = u.refuses s tenant employee section (sentinel record_not_found) missing in
      (err (ledger_error x), refused s s tenant employee section x answered, refl)
  seed_lem s tenant employee section key msp (some head) gate valid k found findable =
      let was_read =
        read_head_of_state p (reader s) employee section key (lookup key (committed s)) k
          (u.reader_sees s key)
        ∙ found in
      let got =
        get_record_of_head p (reader s) tenant employee section msp key head gate valid was_read in
      let answered = u.evaluates s tenant employee section (head_of head) got in
      (
        ok (encode_head (head_of head)),
        evaluated s s tenant employee section (encode_head (head_of head)) answered,
        extracts (head_of head) findable,
      )

  submit_loop-accepted :
      (read_head : Exec N Bytes) (build : Text → List Text) (left : ℕ) (prev : Text)
      (last : GoError) (s s' : N) (result : Bytes)
      → c.submit_transaction (text "RecordProfileSection") (build prev) s ≡ (ok result, s')
      → submit_loop c read_head build (suc left) prev last s ≡ (ok result, s')
  unfolding submit_loop
  submit_loop-accepted read_head build left prev last s s' result e = ground arith

  abbrev read_of : Arguments → Exec N Bytes
  read_of a = evaluate_get_profile_section_record c a.tenant_id a.employee_id a.profile_section

  -- Where nobody contends, the shim and the codec do not fail, and the JSON of a head starts with
  -- its dataHash, written as it is where no character of it is escaped: a client that may submit and read
  -- submits, with the head's hash as prevHash, for a known section and with its required arguments
  -- not empty. Where the ledger has a head whose hash has no character that JSON escapes, or none,
  -- the first attempt is accepted, its result is
  -- returned, and the head that a reader then finds has the hash that was submitted and the version
  -- that was returned.
  pub submit_record_profile_section-accepted :
      ((r : EmployeeProfileRecord) (v : V) → p.marshal r ≡ ok v → p.unmarshal v ≡ ok r)
      → (s : N) (a : Arguments) (build : Text → List Text) (key msp msp' : Text)
        (head : Option EmployeeProfileRecord)
      → ((prev : Text) → decode_args (build prev) ≡ ok (record a { prev_hash = prev }))
      → Sound p (submitter s) (record a { prev_hash = head_hash head })
      → check_profile_section a.profile_section ≡ ok tt
      → is_valid_profile_section a.profile_section ≡ true
      → required_string_args a ≡ ok tt
      → authorize_submit (submitter s) ≡ ok msp
      → authorize_evaluate (reader s) ≡ ok msp'
      → profile_key p a.employee_id a.profile_section ≡ ok key
      → decode_head p key (lookup key (committed s)) ≡ ok (head, key)
      → HasPlainHash head
      → (r : RecordProfileSectionResult) × (s' : N) × (new : EmployeeProfileRecord) × (key' : Text)
        × (submit_record_profile_section c a.tenant_id a.employee_id a.profile_section build s
            ≡ (ok (encode_result r), s'))
        × (read_head p (reader s') a.employee_id a.profile_section ≡ ok (some new, key'))
        × (new.data_hash ≡ a.data_hash)
        × (new.version ≡ r.version)
  unfolding submit_record_profile_section
  submit_record_profile_section-accepted codec s a build key msp msp' head decodes sound known valid
        filled gate gate' k found findable =
      let a' = record a { prev_hash = head_hash head } in
      let was_read =
        read_head_of_state p (submitter s) a.employee_id a.profile_section key
          (lookup key (committed s)) k (u.submitter_sees s key)
        ∙ found in
      let (r, e, run) = (record_profile_section_iff p (submitter s) a' sound).1 (
        known,
        required-prev_hash a (head_hash head) ∙ filled,
        msp,
        gate,
        head,
        key,
        was_read,
        head_hash-Follows p (submitter s) a head,
      ) in
      let (h, seeded, same) =
        seed_lem s a.tenant_id a.employee_id a.profile_section key msp' head gate' valid k found
          findable in
      let (s', accepted, after) =
        u.commits s (build (head_hash head)) a' r e (decodes (head_hash head)) run in
      let (new, key', new_read, hash, version, time) =
        head_after p codec (submitter s) (reader s') a' r e (committed s) (submitter-Reads s)
          (λ j. u.reader_sees s' j ∙ ap (λ log. ok (lookup j log)) after)
          (record_profile_section-Success p (submitter s) a' r e run) in
      (
        r,
        s',
        new,
        key',
        subst
            (λ (x : Result Bytes × N).
              submit_loop c (read_of a) build (suc max_submit_retries) (seed c x.0) (external [])
                x.1
              ≡ (ok (encode_result r), s'))
            (sym seeded)
            (subst
              (λ prev.
                submit_loop c (read_of a) build (suc max_submit_retries) prev (external []) s
                ≡ (ok (encode_result r), s'))
              (sym same)
              (submit_loop-accepted (read_of a) build max_submit_retries (head_hash head)
                (external []) s s' (encode_result r) accepted)),
        new_read,
        hash,
        version,
      )
