-- ===== src/Chaincode/Queries/History.antt =====
-- GetProfileHistory on a ledger that Submit transactions made.
use mathlib.Core.List.Permᴰ
use mathlib.Core.List.{reverse, Permᴰ}
use fabric_hris.Prelude.{
  ℕ, suc, Text, ◌≡◌, refl, sym, subst, ◌∙◌, ap, ◌^◌, ◌<◌, true, false, List, [], ◌∷◌, map, length,
  All, arith, inl, inr,
}
use fabric_hris.Errors.{Result, ok, Result-cases}
use fabric_hris.Chaincode.Asset.{EmployeeProfileRecord, is_valid_profile_section}
use fabric_hris.Chaincode.Stub.{Platform, Stub, KeyModification}
use fabric_hris.Chaincode.Identity.{authorize_evaluate}
use fabric_hris.Chaincode.Record.{check_profile_section, profile_key}
use fabric_hris.Chaincode.Ledger.{Ledger, values, decode}
use fabric_hris.Chaincode.Ledger.Chain.{IsHashChain, version-length, Ledger-Chained}
use fabric_hris.Chaincode.Queries.{entry_of, collect_entries, get_profile_history}
use fabric_hris.Chaincode.Queries.Sorting.{Descending, Before, sort-perm-Descending}

-- The versions of a hash chain fall from the newest to the oldest.
below_head :
    (n : ℕ) (rs : List EmployeeProfileRecord)
    → IsHashChain rs
    → length rs < n
    → n < 2 ^ 63
    → All (λ r. r.version < n) rs
below_head n [] c h b = tt
below_head n (r ∷ rs) c h b =
    (omega (arith, version-length r rs c (omega arith)), below_head n rs c.1 (omega arith) b)

Before-of_below :
    (r : EmployeeProfileRecord) (rs : List EmployeeProfileRecord)
    → r.version < 2 ^ 63
    → All (λ (q : EmployeeProfileRecord). q.version < r.version) rs
    → All (λ f. Before f (entry_of r)) (map entry_of rs)
unfolding entry_of
Before-of_below r [] b h = tt
Before-of_below r (q ∷ rs) b h = (omega arith, Before-of_below r rs b h.1)

entries-Descending :
    (rs : List EmployeeProfileRecord)
    → IsHashChain rs
    → length rs < 2 ^ 63
    → Descending (map entry_of rs)
entries-Descending [] c h = tt
entries-Descending (r ∷ rs) c h =
    let v = version-length r rs c (omega arith) in
    (
      Before-of_below r rs (omega arith) (
          subst (λ n. All (λ (q : EmployeeProfileRecord). q.version < n) rs) (sym v)
            (below_head (length (r ∷ rs)) rs c.1 (omega arith) h)),
      entries-Descending rs c.1 (omega arith),
    )

module _ {V : Type 0} (p : Platform V) where
  -- What the iterator yields for stored values.
  abbrev pub present : V → Result (KeyModification V)
  present v = ok (record { is_delete = false; value = v })

  decode-cons :
      (v : V) (vs : List V) (rs : List EmployeeProfileRecord)
      → decode p (v ∷ vs) ≡ ok rs
      → (r : EmployeeProfileRecord) × (rest : List EmployeeProfileRecord) × (p.unmarshal v ≡ ok r)
        × (decode p vs ≡ ok rest)
        × (rs ≡ r ∷ rest)
  unfolding decode
  decode-cons v vs rs h = elim (Result-cases (p.unmarshal v)) [
    | inr (x, e) ↦ absurd (ground arith)
    | inl (r, e) ↦ elim (Result-cases (decode p vs)) [
      | inr (x, f) ↦ absurd (ground arith)
      | inl (rest, f) ↦ (r, rest, e, f, ground arith)
    ]
  ]

  decode_of_cons :
      (v : V) (vs : List V) (r : EmployeeProfileRecord) (rs : List EmployeeProfileRecord)
      → p.unmarshal v ≡ ok r
      → decode p vs ≡ ok rs
      → decode p (v ∷ vs) ≡ ok (r ∷ rs)
  unfolding decode
  decode_of_cons v vs r rs e f = ground arith

  length-decode :
      (vs : List V) (rs : List EmployeeProfileRecord) → decode p vs ≡ ok rs → length rs ≡ length vs
  unfolding decode
  length-decode [] rs h = ground arith
  length-decode (v ∷ vs) rs h =
      let (r, rest, e, f, shape) = decode-cons v vs rs h in
      ap length shape ∙ ap suc (length-decode vs rest f)

  decode-perm :
      {vs ws : List V} (rs : List EmployeeProfileRecord)
      → Permᴰ vs ws
      → decode p vs ≡ ok rs
      → (qs : List EmployeeProfileRecord) × (decode p ws ≡ ok qs) × Permᴰ rs qs
  decode-perm rs Permᴰ.nil h = (rs, h, Permᴰ.refl rs)
  decode-perm rs (Permᴰ.cons {a = v} {b = w} {l₁ = vs} {l₂ = ws} e q) h =
      let (r, rest, f, g, shape) = decode-cons v vs rs h in
      let (qs, k, perm) = decode-perm rest q g in
      (
        r ∷ qs,
        decode_of_cons w ws r qs (subst (λ x. p.unmarshal x ≡ ok r) e f) k,
        subst (λ x. Permᴰ x (r ∷ qs)) (sym shape) (Permᴰ.cons refl perm),
      )
  decode-perm rs (Permᴰ.swap {a = v} {b = w} {a' = v'} {b' = w'} {l = l} e f) h =
      let (r, rest, g, k, shape) = decode-cons v (w ∷ l) rs h in
      let (r', rest', g', k', shape') = decode-cons w l rest k in
      (
        r' ∷ r ∷ rest',
        decode_of_cons v' (w' ∷ l) r' (r ∷ rest') (subst (λ x. p.unmarshal x ≡ ok r') f g')
            (decode_of_cons w' l r rest' (subst (λ x. p.unmarshal x ≡ ok r) e g) k'),
        subst (λ x. Permᴰ x (r' ∷ r ∷ rest')) (sym (shape ∙ ap (λ x. r ∷ x) shape'))
            (Permᴰ.swap refl refl),
      )
  decode-perm rs (Permᴰ.trans x y) h =
      let (qs, k, perm) = decode-perm rs x h in
      let (qs', k', perm') = decode-perm qs y k in (qs', k', Permᴰ.trans perm perm')

  map-perm :
      {rs qs : List EmployeeProfileRecord} → Permᴰ rs qs → Permᴰ (map entry_of rs) (map entry_of qs)
  map-perm Permᴰ.nil = Permᴰ.nil
  map-perm (Permᴰ.cons e q) = Permᴰ.cons (ap entry_of e) (map-perm q)
  map-perm (Permᴰ.swap e f) = Permᴰ.swap (ap entry_of e) (ap entry_of f)
  map-perm (Permᴰ.trans x y) = Permᴰ.trans (map-perm x) (map-perm y)

  module _
      (filled : (v : V) (r : EmployeeProfileRecord)
        → p.unmarshal v ≡ ok r
        → p.is_blank v ≡ false) where
    collect_entries-present :
        (stub : Stub V) (vs : List V) (rs : List EmployeeProfileRecord)
        → decode p vs ≡ ok rs
        → collect_entries p stub (map present vs) ≡ ok (map entry_of rs)
    unfolding collect_entries decode
    collect_entries-present stub [] rs h = ground arith
    collect_entries-present stub (v ∷ vs) rs h =
        let (r, rest, e, f, shape) = decode-cons v vs rs h in
        rw (shape, e, filled v r e, collect_entries-present stub vs rest f)

    -- Where JSON decodes what it encoded and no encoding is empty: on a ledger that only Submit
    -- transactions made, with fewer than 2^63 versions under the key, an authorised reader of a known
    -- section gets every version of it, oldest first, in whatever order the ledger iterates over
    -- them.
    pub get_profile_history-chronological :
        (codec : (r : EmployeeProfileRecord) (v : V) → p.marshal r ≡ ok v → p.unmarshal v ≡ ok r)
        (stub : Stub V) (tenant employee section msp key : Text) (log : List (Text × V))
        (vs : List V)
        → (ledger : Ledger p log) → authorize_evaluate stub ≡ ok msp
        → is_valid_profile_section section ≡ true
        → profile_key p employee section ≡ ok key
        → stub.get_history key ≡ ok (map present vs)
        → Permᴰ (values key log) vs
        → length (values key log) < 2 ^ 63
        → (rs : List EmployeeProfileRecord) × (decode p (values key log) ≡ ok rs)
          × IsHashChain rs
          × (get_profile_history p stub tenant employee section ≡ ok (reverse (map entry_of rs)))
    unfolding get_profile_history check_profile_section
    get_profile_history-chronological codec stub tenant employee section msp key log vs ledger gate
          valid k history perm few =
        let c = Ledger-Chained p codec ledger key in
        let rs : List EmployeeProfileRecord = c.records in
        let (qs, d, q) = decode-perm rs perm c.decoded in
        let sorted = sort-perm-Descending (map-perm q) (
          entries-Descending rs c.chain
            (omega (arith, length-decode (values key log) rs c.decoded))) in
        (
          rs,
          c.decoded,
          c.chain,
          rw (gate, valid, k, history, collect_entries-present stub vs qs d, sorted),
        )
