-- ===== src/Gateway/Submit/Bound.antt =====
-- The number of submissions, counted beside the network.
use fabric_hris.Prelude.{
  ℕ, zero, suc, ◌+◌, ◌≤◌, Text, text, Bytes, ◌≡◌, Bool-cases, List, [], arith, inl, inr,
}
use fabric_hris.Errors.{GoError, external, Result-cases}
use fabric_hris.Exec.{Exec}
use fabric_hris.Gateway.Extract.{extract_data_hash}
use fabric_hris.Gateway.Submit.{
  Contract, is_expected_retryable_rejection, submit_loop, seed, max_submit_retries,
  submit_record_profile_section, evaluate_get_profile_section_record, evaluate_wrapped,
}

module _ {N : Type 0} (c : Contract N) where
  -- The same contract over a network that counts the calls of SubmitTransaction.
  abbrev pub counting : Contract (N × ℕ)
  counting = record {
    submit_transaction = λ fn args (s, k).
        ((c.submit_transaction fn args s).0, ((c.submit_transaction fn args s).1, k + 1));
    evaluate = λ fn args (s, k). ((c.evaluate fn args s).0, ((c.evaluate fn args s).1, k));
    mvcc_read_conflict = c.mvcc_read_conflict;
  }

  module _ (tenant employee section : Text) (build : Text → List Text) where
    reader : Exec (N × ℕ) Bytes
    reader = evaluate_get_profile_section_record counting tenant employee section

    reader_count : (s : N) (k : ℕ) → (reader (s, k)).1.1 ≡ k
    unfolding reader evaluate_get_profile_section_record evaluate_wrapped
    reader_count s k = ground arith

    submit_loop_count :
        (n : ℕ) (prev : Text) (last : GoError) (s : N × ℕ)
        → (submit_loop counting reader build n prev last s).1.1 ≤ s.1 + n
    unfolding submit_loop
    submit_loop_count zero prev last (s, k) = omega arith
    submit_loop_count (suc n) prev last (s, k) =
        let r = c.submit_transaction (text "RecordProfileSection") (build prev) s in
        elim (Result-cases r.0) [
          | inl (got, fine) ↦ rw (fine, submit_loop) (omega arith)
          | inr (e, bad) ↦
              elim (Bool-cases (is_expected_retryable_rejection c.mvcc_read_conflict e)) [
                | inr other ↦ rw (bad, submit_loop) (rw (other, submit_loop) (omega arith))
                | inl again ↦
                    let h = reader (r.1, k + 1) in
                    elim (Result-cases h.0) [
                      | inr (x, lost) ↦ ground (arith, reader_count r.1 (k + 1))
                      | inl (head, found) ↦ ground (
                        arith,
                        reader_count r.1 (k + 1),
                        submit_loop_count n (extract_data_hash head) e h.1,
                      )
                    ]
              ]
        ]

    -- One call of SubmitRecordProfileSection submits at most four times, whatever the network
    -- answers.
    pub submit_record_profile_section-count :
        (s : N) (k : ℕ)
        → (submit_record_profile_section counting tenant employee section build (s, k)).1.1
          ≤ k + (max_submit_retries + 1)
    unfolding submit_record_profile_section reader
    submit_record_profile_section-count s k =
        let h = reader (s, k) in
        omega (arith, reader_count s k, submit_loop_count 4 (seed counting h.0) (external []) h.1)
