-- ===== src/Gateway/Submit/Attempts.antt =====
-- When a submission succeeds, and how often it submits.
use fabric_hris.Prelude.{
  ℕ, zero, suc, Text, text, Bytes, ◌≡◌, ◌↔◌, Bool, true, false, Bool-cases, List, [], arith, inl,
  inr,
}
use fabric_hris.Errors.{GoError, external, ledger_error, ok, err, Result-cases}
use fabric_hris.Exec.{Exec}
use fabric_hris.Gateway.Extract.{extract_data_hash}
use fabric_hris.Gateway.Submit.{
  Contract, is_expected_retryable_rejection, submit_loop, seed, max_submit_retries,
  submit_record_profile_section, evaluate_get_profile_section_record,
}

module _ {N : Type 0} (c : Contract N) (read_head : Exec N Bytes) (build : Text → List Text) where
  abbrev submit : Text → Exec N Bytes
  submit prev = c.submit_transaction (text "RecordProfileSection") (build prev)

  abbrev retryable : GoError → Bool
  retryable = is_expected_retryable_rejection c.mvcc_read_conflict

  -- A run of attempts that ends in success: each but the last is rejected in an expected way and
  -- followed by a read of the head, whose hash the next one submits.
  pub data Attempts : ℕ → Text → N → N → Bytes → Type 0 where
    accepted :
        {n : ℕ} {prev : Text} {s s' : N} {result : Bytes}
        → submit prev s ≡ (ok result, s')
        → Attempts n prev s s' result
    retried :
        {n : ℕ} {prev : Text} {s s₁ s₂ s' : N} {result head : Bytes} (e : GoError)
        → submit prev s ≡ (err e, s₁)
        → retryable e ≡ true
        → read_head s₁ ≡ (ok head, s₂)
        → Attempts n (extract_data_hash head) s₂ s' result
        → Attempts (suc n) prev s s' result

  Attempts-submit_loop :
      {n : ℕ} {prev : Text} {s s' : N} {result : Bytes} (last : GoError)
      → Attempts n prev s s' result
      → submit_loop c read_head build (suc n) prev last s ≡ (ok result, s')
  unfolding submit_loop
  Attempts-submit_loop last (accepted e) = ground arith
  Attempts-submit_loop last (retried {n = n} {s₂ = s₂} {head = head} e h r g rest) =
      ground (arith, Attempts-submit_loop e rest)

  -- The first attempt of a loop that returns a result.
  data FirstAttempt (n : ℕ) (prev : Text) (s s' : N) (result : Bytes) : Type 0 where
    accepted_now : submit prev s ≡ (ok result, s') → FirstAttempt n prev s s' result
    retried_then :
        (e : GoError) (s₁ s₂ : N) (head : Bytes)
        → submit prev s ≡ (err e, s₁)
        → retryable e ≡ true
        → read_head s₁ ≡ (ok head, s₂)
        → submit_loop c read_head build n (extract_data_hash head) e s₂ ≡ (ok result, s')
        → FirstAttempt n prev s s' result

  first_attempt :
      (n : ℕ) (prev : Text) (last : GoError) (s s' : N) (result : Bytes)
      → submit_loop c read_head build (suc n) prev last s ≡ (ok result, s')
      → FirstAttempt n prev s s' result
  unfolding submit_loop
  first_attempt n prev last s s' result h =
      let (r, s₁) = submit prev s in
      elim (Result-cases r) [
        | inl (got, fine) ↦ accepted_now (ground arith)
        | inr (e, bad) ↦ elim (Bool-cases (retryable e)) [
          | inr other ↦ absurd (ground arith)
          | inl again ↦
              let (t, s₂) = read_head s₁ in
              elim (Result-cases t) [
                | inr (x, lost) ↦ absurd (ground arith)
                | inl (head, found) ↦
                    retried_then e s₁ s₂ head (ground arith) again (ground arith) (ground arith)
              ]
        ]
      ]

  exhausted :
      (prev : Text) (last : GoError) (s s' : N) (result : Bytes)
      → submit_loop c read_head build zero prev last s ≡ (ok result, s')
      → ⊥
  unfolding submit_loop
  exhausted prev last s s' result h = ground arith

  submit_loop-Attempts :
      (n : ℕ) (prev : Text) (last : GoError) (s s' : N) (result : Bytes)
      → submit_loop c read_head build (suc n) prev last s ≡ (ok result, s')
      → Attempts n prev s s' result
  submit_loop-Attempts zero prev last s s' result h =
      elim (first_attempt zero prev last s s' result h) [
        | accepted_now f ↦ accepted f
        | retried_then e s₁ s₂ head f again g rest ↦
            absurd (exhausted (extract_data_hash head) e s₂ s' result rest)
      ]
  submit_loop-Attempts (suc n) prev last s s' result h =
      elim (first_attempt (suc n) prev last s s' result h) [
        | accepted_now f ↦ accepted f
        | retried_then e s₁ s₂ head f again g rest ↦
            retried e f again g
              (submit_loop-Attempts n (extract_data_hash head) e s₂ s' result rest)
      ]

module _ {N : Type 0} (c : Contract N) (tenant employee section : Text)
    (build : Text → List Text) where
  abbrev pub head_reader : Exec N Bytes
  head_reader = evaluate_get_profile_section_record c tenant employee section

  -- A submission succeeds exactly where at most three attempts are rejected in an expected way,
  -- each rejection is followed by a successful read of the head, and the next attempt, with the
  -- hash just read, is accepted. The first attempt has the hash read before it, or the empty
  -- text where that read failed.
  pub submit_record_profile_section_iff :
      (s s' : N) (result : Bytes)
      → (submit_record_profile_section c tenant employee section build s ≡ (ok result, s'))
        ↔ Attempts c head_reader build max_submit_retries
            (seed c (head_reader s).0)
            (head_reader s).1
            s'
            result
  unfolding submit_record_profile_section
  submit_record_profile_section_iff s s' result = (
    λ h.
        submit_loop-Attempts c head_reader build 3 (seed c (head_reader s).0) (external [])
          (head_reader s).1 s' result h,
    λ h. Attempts-submit_loop c head_reader build (external []) h,
  )

  -- Any other rejection of the first attempt ends the submission at once: the error is passed on
  -- as a LedgerError, and the network is left as that attempt left it.
  pub submit_record_profile_section-other :
      (s s₁ : N) (e : GoError)
      → c.submit_transaction
          (text "RecordProfileSection")
          (build (seed c (head_reader s).0))
          (head_reader s).1
        ≡ (err e, s₁)
      → is_expected_retryable_rejection c.mvcc_read_conflict e ≡ false
      → submit_record_profile_section c tenant employee section build s ≡ (err (ledger_error e), s₁)
  unfolding submit_record_profile_section submit_loop
  submit_record_profile_section-other s s₁ e h other = ground arith
