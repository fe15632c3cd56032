-- ===== src/Tests/Client.antt =====
-- The client (gateway-client) against a small network.
use fabric_hris.Prelude.{
  ℕ, ◌+◌, Text, text, Bytes, ◌==◌, ◌≡◌, ◌↔◌, ◌≤◌, refl, true, none, List, [], ◌∷◌, ◌++◌, arith,
}
use fabric_hris.Errors.{
  GoError, external, Result, ok, err, ledger_error, message, sentinel, record_not_found,
}
use fabric_hris.Gateway.Digest.{Hashing, compute_data_hash}
use fabric_hris.Gateway.Submit.{
  Contract, submit_record_profile_section, is_expected_retryable_rejection,
  evaluate_get_profile_section_record, evaluate_wrapped, seed, max_submit_retries,
}
use fabric_hris.Gateway.Extract.{NoQuote}
use fabric_hris.Gateway.Submit.Attempts.{Attempts, head_reader, submit_record_profile_section_iff}
use fabric_hris.Gateway.Submit.Bound.{counting, submit_record_profile_section-count}
use fabric_hris.Gateway.Submit.Recognition.{next_version-retryable}
use fabric_hris.Gateway.Verify.{
  VerificationResult, OnChainRecord, Decoding, judge, verify, verify-matched_iff,
}
use fabric_hris.Chaincode.Record.{next_version}

abbrev hashing : Hashing
hashing = record { canonicalize = ok; sha256 = λ b. []; hmac_sha256 = λ k m. k ++ m; hex = λ b. b }

abbrev salt : Bytes
salt = text "0123456789abcdef"

-- A network that counts what reaches it and turns every submission down.
abbrev refusing : Contract ℕ
refusing = record {
  submit_transaction = λ f args n. (err (external (text "down")), n + 1);
  evaluate = λ f args n. (err (external (text "down")), n);
  mvcc_read_conflict = 11;
}

abbrev build : Text → List Text
build prev = prev ∷ []

submit_record_profile_section-count_example :
    (submit_record_profile_section (counting refusing) [] [] [] build (0, 0)).1.1
    ≤ 0 + (max_submit_retries + 1)
submit_record_profile_section-count_example =
    submit_record_profile_section-count refusing [] [] [] build 0 0

abbrev stale_error : GoError
stale_error =
    fabric_hris.Errors.detail (sentinel fabric_hris.Errors.stale_chain_reference)
      (text "no existing record for this key, but prevHash %q was supplied (expected \"\")")
      (text "x" ∷ [])

abbrev format_of : Text → List Text → Text
format_of f args = f

stale_run : next_version none (text "x") ≡ err stale_error
unfolding next_version text
stale_run = refl

next_version-retryable_example :
    is_expected_retryable_rejection 11
      (fabric_hris.Errors.endorse_error (text "<" ++ (message format_of stale_error ++ text ">")))
    ≡ true
next_version-retryable_example =
    next_version-retryable format_of 11 (text "<") (text ">") (text "x") none stale_error stale_run

-- A network whose chain has no record of anyone.
abbrev blank : Contract ℕ
blank = record {
  submit_transaction = λ f args n. (err (external []), n);
  evaluate = λ f args n.
      (err (external (text "<" ++ (message format_of (sentinel record_not_found) ++ text ">"))), n);
  mvcc_read_conflict = 11;
}

abbrev on_chain : OnChainRecord
on_chain = record { data_hash = text "sha256:"; version = 1; updated_by = []; timestamp = [] }

abbrev decoding : Decoding
decoding = record { render = format_of; unmarshal_on_chain = λ b. ok on_chain }

-- A network that answers every read.
abbrev answering : Contract ℕ
answering = record {
  submit_transaction = λ f args n. (ok [], n);
  evaluate = λ f args n. (ok [], n);
  mvcc_read_conflict = 11;
}

abbrev matched : VerificationResult
matched = record {
  found = true;
  matched = true;
  on_chain_hash = text "sha256:";
  recomputed_hash = text "sha256:";
  on_chain_version = 1;
  updated_by = [];
  timestamp = [];
}

matched_run : verify answering hashing decoding [] [] [] salt (text "a") 0 ≡ (ok matched, 0)
unfolding verify compute_data_hash text judge evaluate_get_profile_section_record evaluate_wrapped
    ◌==◌
matched_run = refl

verify-matched_iff_example :
    (hash : Text) × (json : Bytes) × (r : OnChainRecord) × (compute_data_hash hashing salt
        (text "a")
      ≡ ok hash)
    × (answering.evaluate (text "GetProfileSectionRecord") ([] ∷ [] ∷ [] ∷ []) 0 ≡ (ok json, 0))
    × (decoding.unmarshal_on_chain json ≡ ok r)
    × ((matched.matched ≡ true) ↔ (hash ≡ r.data_hash))
    × (matched.recomputed_hash ≡ hash)
    × (matched.on_chain_hash ≡ r.data_hash)
    × (matched.on_chain_version ≡ r.version)
    × (matched.updated_by ≡ r.updated_by)
    × (matched.timestamp ≡ r.timestamp)
verify-matched_iff_example =
    verify-matched_iff answering hashing decoding [] [] [] salt (text "a") 0 0 matched matched_run
      refl

submit_record_profile_section_iff_example :
    (submit_record_profile_section answering [] [] [] build 0 ≡ (ok [], 0))
    ↔ Attempts answering
        (head_reader answering [] [] [] build)
        build
        max_submit_retries
        (seed answering (head_reader answering [] [] [] build 0).0)
        (head_reader answering [] [] [] build 0).1
        0
        []
submit_record_profile_section_iff_example =
    submit_record_profile_section_iff answering [] [] [] build 0 0 []

plain_hash : NoQuote (text "ab")
unfolding text
plain_hash = (λ e. absurd (omega (arith, e)), (λ e. absurd (omega (arith, e)), tt))
