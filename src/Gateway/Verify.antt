-- ===== src/Gateway/Verify.antt =====
-- verify.go: the client-side check of a value against its anchor.
use fabric_hris.Prelude.{
  ℕ, Text, text, Bytes, ◌==◌, eq_iff, contains, contains_inside, contains-append_left, ◌≡◌, ◌↔◌,
  refl, ap, Bool, true, false, List, [], ◌∷◌, ◌++◌, arith, inl, inr, if◌then◌else◌,
}
use fabric_hris.Errors.{
  GoError, Result, ok, err, Result-cases, context, sentinel, record_not_found, ledger_error,
  external, message, wrapping, sentinel_text,
}
use fabric_hris.Errors
use fabric_hris.Exec.{Exec}
use fabric_hris.Gateway.Digest.{Hashing, compute_data_hash}
use fabric_hris.Gateway.Submit.{Contract, evaluate_get_profile_section_record, evaluate_wrapped}

pub record VerificationResult : Type 0 where
  pub found : Bool
  pub matched : Bool
  pub on_chain_hash : Text
  pub recomputed_hash : Text
  pub on_chain_version : ℕ
  pub updated_by : Text
  pub timestamp : Text

abbrev pub not_found : VerificationResult
not_found = record {
  found = false;
  matched = false;
  on_chain_hash = [];
  recomputed_hash = [];
  on_chain_version = 0;
  updated_by = [];
  timestamp = [];
}

pub record OnChainRecord : Type 0 where
  pub data_hash : Text
  pub version : ℕ
  pub updated_by : Text
  pub timestamp : Text

-- fmt's rendering, and encoding/json at onChainRecord.
pub record Decoding : Type 0 where
  pub render : Text → List Text → Text
  pub unmarshal_on_chain : Bytes → Result OnChainRecord

unfoldable pub is_not_found_rejection : (Text → List Text → Text) → GoError → Bool
is_not_found_rejection render e =
    contains (message render e) (text "profile section record not found")

unfoldable pub result_of_record : Text → OnChainRecord → VerificationResult
result_of_record recomputed r = record {
  found = true;
  matched = recomputed == r.data_hash;
  on_chain_hash = r.data_hash;
  recomputed_hash = recomputed;
  on_chain_version = r.version;
  updated_by = r.updated_by;
  timestamp = r.timestamp;
}

not_found_shape :
    sentinel_text record_not_found
    ≡ text "employeeprofilerecord: " ++ (text "profile section record not found" ++ [])
unfolding text
not_found_shape = refl

not_found_recognised :
    (render : Text → List Text → Text) (before after : Text)
    → is_not_found_rejection render
        (ledger_error (external (before ++ (message render (sentinel record_not_found) ++ after))))
      ≡ true
unfolding is_not_found_rejection message
not_found_recognised render before after = rw not_found_shape (
    contains-append_left (text "gatewayclient: ledger error: ") _
      (text "profile section record not found")
      (contains_inside before (text "employeeprofilerecord: ")
        (text "profile section record not found") [] after))

module _ {N : Type 0} (c : Contract N) (d : Hashing) (j : Decoding) where
  -- What the read of the head means for the check.
  unfoldable pub judge : Text → Result Bytes → Result VerificationResult
  unfolding result_of_record
  judge recomputed (err e) =
      if is_not_found_rejection j.render e
      then ok not_found
      else err (context (text "gatewayclient: reading on-chain record") [] e)
  judge recomputed (ok json) =
      Errors.◌>>=◌
        (wrapping (text "gatewayclient: parsing on-chain record") (j.unmarshal_on_chain json))
        (λ r. ok (result_of_record recomputed r))

  unfoldable pub verify : Text → Text → Text → Bytes → Bytes → Exec N VerificationResult
  verify tenant employee section salt current s =
      elim (wrapping (text "gatewayclient: recomputing DataHash locally")
        (compute_data_hash d salt current)) [
          | err e ↦ (err e, s)
          | ok recomputed ↦
              let (h, s') = evaluate_get_profile_section_record c tenant employee section s in
              (judge recomputed h, s')
        ]

  -- The contract's "never anchored" answer, with whatever text the transport puts round it, is
  -- reported as not found and not as an error.
  pub verify-not_found :
      (tenant employee section : Text) (salt current : Bytes) (hash before after : Text) (s s' : N)
      → compute_data_hash d salt current ≡ ok hash
      → c.evaluate (text "GetProfileSectionRecord") (tenant ∷ employee ∷ section ∷ []) s
        ≡ (err (external (before ++ (message j.render (sentinel record_not_found) ++ after))), s')
      → verify tenant employee section salt current s ≡ (ok not_found, s')
  unfolding verify judge evaluate_get_profile_section_record evaluate_wrapped
  verify-not_found tenant employee section salt current hash before after s s' h e =
      ground (arith, not_found_recognised j.render before after)

  judge-found :
      (hash : Text) (h : Result Bytes) (v : VerificationResult)
      → judge hash h ≡ ok v
      → v.found ≡ true
      → (json : Bytes) × (r : OnChainRecord) × (h ≡ ok json)
        × (j.unmarshal_on_chain json ≡ ok r)
        × (v ≡ result_of_record hash r)
  unfolding judge
  judge-found hash (err e) v h found = absurd (ground arith)
  judge-found hash (ok json) v h found = elim (Result-cases (j.unmarshal_on_chain json)) [
    | inr (x, bad) ↦ absurd (ground arith)
    | inl (r, good) ↦ (json, r, refl, good, ground arith)
  ]

  evaluated :
      (tenant employee section : Text) (s s' : N) (json : Bytes)
      → evaluate_get_profile_section_record c tenant employee section s ≡ (ok json, s')
      → c.evaluate (text "GetProfileSectionRecord") (tenant ∷ employee ∷ section ∷ []) s
        ≡ (ok json, s')
  unfolding evaluate_get_profile_section_record evaluate_wrapped
  evaluated tenant employee section s s' json e =
      elim (Result-cases
        (c.evaluate (text "GetProfileSectionRecord") (tenant ∷ employee ∷ section ∷ []) s).0) [
          | inr (x, f) ↦ absurd (ground arith)
          | inl (b, f) ↦ ground arith
        ]

  -- A check that found the record: the ledger answered the query of the employee's section with a
  -- record, and the check tells that record's hash, version, author and timestamp, and the digest
  -- recomputed from the salt and the current value, and reports a match exactly where that digest
  -- is the record's hash.
  pub verify-matched_iff :
      (tenant employee section : Text) (salt current : Bytes) (s s' : N) (v : VerificationResult)
      → verify tenant employee section salt current s ≡ (ok v, s')
      → v.found ≡ true
      → (hash : Text) × (json : Bytes) × (r : OnChainRecord) × (compute_data_hash d salt current
          ≡ ok hash)
        × (c.evaluate (text "GetProfileSectionRecord") (tenant ∷ employee ∷ section ∷ []) s
            ≡ (ok json, s'))
        × (j.unmarshal_on_chain json ≡ ok r)
        × ((v.matched ≡ true) ↔ (hash ≡ r.data_hash))
        × (v.recomputed_hash ≡ hash)
        × (v.on_chain_hash ≡ r.data_hash)
        × (v.on_chain_version ≡ r.version)
        × (v.updated_by ≡ r.updated_by)
        × (v.timestamp ≡ r.timestamp)
  unfolding verify result_of_record
  verify-matched_iff tenant employee section salt current s s' v h found =
      elim (Result-cases (compute_data_hash d salt current)) [
        | inr (x, bad) ↦ absurd (ground arith)
        | inl (hash, good) ↦
            let (answer, after) = evaluate_get_profile_section_record c tenant employee section s in
            let (json, r, was_read, decoded, shape) =
              judge-found hash answer v (ground arith) found in
            let same_state : after ≡ s' = ground arith in
            (
              hash,
              json,
              r,
              good,
              evaluated tenant employee section s s' json (λ t. (was_read t, same_state t)),
              decoded,
              (
                λ m. ground (arith, eq_iff hash r.data_hash),
                λ m. ground (arith, eq_iff hash r.data_hash),
              ),
              ap (λ (x : VerificationResult). x.recomputed_hash) shape,
              ap (λ (x : VerificationResult). x.on_chain_hash) shape,
              ap (λ (x : VerificationResult). x.on_chain_version) shape,
              ap (λ (x : VerificationResult). x.updated_by) shape,
              ap (λ (x : VerificationResult). x.timestamp) shape,
            )
      ]
