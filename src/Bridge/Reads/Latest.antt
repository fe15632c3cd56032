-- ===== src/Bridge/Reads/Latest.antt =====
-- verify.go: when the route says that a value is verified.
use fabric_hris.Prelude.{
  Text, text, Bytes, ltb, ltb→lt, ◌==◌, eq_iff, is_empty, ◌≡◌, ◌↔◌, ◌∙◌, ◌⊎◌, inl, inr, ◌≤◌, ◌<◌,
  refl, ap, subst, sym, Bool-cases, true, false, ◌||◌, List, [], ◌∷◌, All, arith, if◌then◌else◌,
}
use fabric_hris.Errors.{GoError, errorf, ok, Result-cases}
use fabric_hris.Keystore.Interface.{Entropy}
use fabric_hris.Gateway.Digest.{compute_data_hash}
use fabric_hris.Bridge.Http.{AuthConfig, Request, authenticate}
use fabric_hris.Bridge.Reads.{
  ChaincodeHistoryEntry, verified, rejected, VerifyRequestEnvelope, VerifyRouteConfig, rank,
  latest_of, judge_latest, judge_history, judge_envelope, profile_verify_route,
  is_known_profile_section,
}

latest_of-nil_eq : (c : ChaincodeHistoryEntry) → latest_of c [] ≡ c
unfolding latest_of
latest_of-nil_eq c = refl

latest_of-nil : (c : ChaincodeHistoryEntry) → rank c.version ≤ rank (latest_of c []).version
unfolding latest_of
latest_of-nil c = omega arith

latest_of-later :
    (c e : ChaincodeHistoryEntry) (entries : List ChaincodeHistoryEntry)
    → ltb (rank c.version) (rank e.version) ≡ true
    → latest_of c (e ∷ entries) ≡ latest_of e entries
unfolding latest_of
latest_of-later c e entries later = ap (λ b. latest_of (if b then e else c) entries) later

latest_of-not_later :
    (c e : ChaincodeHistoryEntry) (entries : List ChaincodeHistoryEntry)
    → ltb (rank c.version) (rank e.version) ≡ false
    → latest_of c (e ∷ entries) ≡ latest_of c entries
unfolding latest_of
latest_of-not_later c e entries not_later =
    ap (λ b. latest_of (if b then e else c) entries) not_later

Bounds : ChaincodeHistoryEntry → ChaincodeHistoryEntry → List ChaincodeHistoryEntry → Type 0
Bounds l c entries =
    (rank c.version ≤ rank l.version) × All (λ e. rank e.version ≤ rank l.version) entries

latest_of-bound :
    (c : ChaincodeHistoryEntry) (entries : List ChaincodeHistoryEntry)
    → Bounds (latest_of c entries) c entries
unfolding Bounds
latest_of-bound c [] = (latest_of-nil c, tt)
latest_of-bound c (e ∷ entries) = elim (Bool-cases (ltb (rank c.version) (rank e.version))) [
  | inl later ↦
      let (here, rest) = latest_of-bound e entries in
      subst (λ l. Bounds l c (e ∷ entries)) (sym (latest_of-later c e entries later))
        (omega (arith, here, ltb→lt (rank c.version) (rank e.version) later), (here, rest))
  | inr not_later ↦
      let (here, rest) = latest_of-bound c entries in
      subst (λ l. Bounds l c (e ∷ entries)) (sym (latest_of-not_later c e entries not_later))
        (here, (ground (arith, here, not_later), rest))
]

-- The entry is the first of the list with the highest version: the later ones have no higher, the
-- earlier ones a lower one.
abbrev pub IsLatest : ChaincodeHistoryEntry → List ChaincodeHistoryEntry → Type 0
IsLatest l [] = ⊥
IsLatest l (e ∷ entries) =
    ((l ≡ e) × All (λ (f : ChaincodeHistoryEntry). rank f.version ≤ rank e.version) entries)
    ⊎ ((rank e.version < rank l.version) × IsLatest l entries)

latest_of-IsLatest :
    (c : ChaincodeHistoryEntry) (entries : List ChaincodeHistoryEntry)
    → IsLatest (latest_of c entries) (c ∷ entries)
unfolding Bounds
latest_of-IsLatest c [] = inl (latest_of-nil_eq c, tt)
latest_of-IsLatest c (e ∷ entries) = elim (Bool-cases (ltb (rank c.version) (rank e.version))) [
  | inl later ↦
      subst (λ l. IsLatest l (c ∷ e ∷ entries)) (sym (latest_of-later c e entries later))
        (inr (
          omega (
            arith,
            (latest_of-bound e entries).0,
            ltb→lt (rank c.version) (rank e.version) later,
          ),
          latest_of-IsLatest e entries,
        ))
  | inr not_later ↦
      subst (λ l. IsLatest l (c ∷ e ∷ entries)) (sym (latest_of-not_later c e entries not_later))
        (elim (latest_of-IsLatest c entries) [
          | inl (same, rest) ↦ inl (same, (ground (arith, not_later), rest))
          | inr (above, rest) ↦ inr (above, inr (ground (arith, not_later, above), rest))
        ])
]

IsLatest-latest_of :
    (l c : ChaincodeHistoryEntry) (entries : List ChaincodeHistoryEntry)
    → IsLatest l (c ∷ entries)
    → l ≡ latest_of c entries
IsLatest-latest_of l c [] (inl (same, u)) = same ∙ sym (latest_of-nil_eq c)
IsLatest-latest_of l c [] (inr (above, none)) = absurd none
IsLatest-latest_of l c (e ∷ entries) (inl (same, (below, rest))) =
    elim (Bool-cases (ltb (rank c.version) (rank e.version))) [
      | inl later ↦ absurd (omega (arith, below, ltb→lt (rank c.version) (rank e.version) later))
      | inr not_later ↦
          IsLatest-latest_of l c entries (inl (same, rest))
          ∙ sym (latest_of-not_later c e entries not_later)
    ]
IsLatest-latest_of l c (e ∷ entries) (inr (above, inl (same, rest))) =
    let over : rank c.version < rank e.version =
      subst (λ (x : ChaincodeHistoryEntry). rank c.version < rank x.version) same above in
    elim (Bool-cases (ltb (rank c.version) (rank e.version))) [
      | inl later ↦
          IsLatest-latest_of l e entries (inl (same, rest))
          ∙ sym (latest_of-later c e entries later)
      | inr not_later ↦ absurd (ground (arith, over, not_later))
    ]
IsLatest-latest_of l c (e ∷ entries) (inr (above, inr (above', rest))) =
    elim (Bool-cases (ltb (rank c.version) (rank e.version))) [
      | inl later ↦
          IsLatest-latest_of l e entries (inr (above', rest))
          ∙ sym (latest_of-later c e entries later)
      | inr not_later ↦
          IsLatest-latest_of l c entries (inr (above, rest))
          ∙ sym (latest_of-not_later c e entries not_later)
    ]

module _ {K N : Type 0} (cfg : VerifyRouteConfig K N) where
  judge_latest-verified :
      (employee_id section : Text) (value salt : Bytes) (latest : ChaincodeHistoryEntry)
      → (is_empty value || value == text "null") ≡ false
      → cfg.get_salt employee_id section latest.version ≡ ok salt
      → compute_data_hash cfg.digests salt value ≡ ok latest.data_hash
      → judge_latest cfg employee_id section value latest ≡ verified
  unfolding judge_latest
  judge_latest-verified employee_id section value salt latest present e f =
      rw (judge_latest, present, e, f, (eq_iff latest.data_hash latest.data_hash).1 refl) refl

  judge_latest-inverted :
      (employee_id section : Text) (value : Bytes) (latest : ChaincodeHistoryEntry)
      → judge_latest cfg employee_id section value latest ≡ verified
      → ((is_empty value || value == text "null") ≡ false)
        × (salt : Bytes) × (cfg.get_salt employee_id section latest.version ≡ ok salt)
        × (compute_data_hash cfg.digests salt value ≡ ok latest.data_hash)
  unfolding judge_latest
  judge_latest-inverted employee_id section value latest e =
      elim (Bool-cases (is_empty value || value == text "null")) [
        | inl blank ↦ absurd (ground arith)
        | inr present ↦ elim (Result-cases (cfg.get_salt employee_id section latest.version)) [
          | inr (x, f) ↦ absurd (ground arith)
          | inl (salt, f) ↦ elim (Result-cases (compute_data_hash cfg.digests salt value)) [
            | inr (x, g) ↦ absurd (ground arith)
            | inl (data_hash, g) ↦
                (present, salt, f, ground (arith, eq_iff data_hash latest.data_hash))
          ]
        ]
      ]

  -- A history is verified against a value exactly where the value is present and the salt stored
  -- for the version of its latest entry, the first with the highest version, in whatever order the
  -- history comes, hashes the value to that entry's data hash.
  pub judge_history-verified_iff :
      (employee_id section : Text) (value : Bytes) (entries : List ChaincodeHistoryEntry)
      → (judge_history cfg employee_id section value entries ≡ verified) ↔ (
          ((is_empty value || value == text "null") ≡ false)
          × (latest : ChaincodeHistoryEntry) × (salt : Bytes) × IsLatest latest entries
          × (cfg.get_salt employee_id section latest.version ≡ ok salt)
          × (compute_data_hash cfg.digests salt value ≡ ok latest.data_hash))
  unfolding judge_history
  judge_history-verified_iff employee_id section value [] =
      (λ e. absurd (ground arith), λ (present, latest, salt, nowhere, f, g). absurd nowhere)
  judge_history-verified_iff employee_id section value (c ∷ entries) = (
    λ e.
        let (present, salt, f, g) =
          judge_latest-inverted employee_id section value (latest_of c entries) e in
        (present, latest_of c entries, salt, latest_of-IsLatest c entries, f, g),
    λ (present, latest, salt, is_latest, f, g).
        ap (judge_latest cfg employee_id section value)
          (sym (IsLatest-latest_of latest c entries is_latest))
        ∙ judge_latest-verified employee_id section value salt latest present f g,
  )

  -- An authenticated request whose section is none of the five is rejected before any key is
  -- resolved: the keys are as they were.
  pub profile_verify_route-unknown_section :
      (auth : AuthConfig) (entropy : Entropy) (r : Request) (env : VerifyRequestEnvelope)
      (ledger : N) (keys : K)
      → authenticate r auth ≡ ok tt
      → cfg.decode_envelope r.body ≡ ok env
      → is_known_profile_section (cfg.trim_space env.profile_section) ≡ false
      → (e : GoError) × (profile_verify_route cfg auth entropy r ledger keys ≡ (rejected e, keys))
  unfolding profile_verify_route judge_envelope
  profile_verify_route-unknown_section auth entropy r env ledger keys granted decoded unknown =
      elim (Bool-cases (is_empty (cfg.trim_space env.employee_internal_id))) [
        | inl blank ↦ (
          errorf (text "integrationbridge: employeeInternalID is required") [],
          rw (profile_verify_route, granted, decoded, blank) refl,
        )
        | inr named ↦ (
          errorf
              (text "integrationbridge: profileSection %q is not one of the five ratified values")
              (cfg.trim_space env.profile_section ∷ []),
          rw (profile_verify_route, granted, decoded, named, unknown) refl,
        )
      ]
