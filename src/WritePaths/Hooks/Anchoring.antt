-- ===== src/WritePaths/Hooks/Anchoring.antt =====
-- writepaths.go, doAnchor: what an anchored version submitted, and that it can be recomputed.
use fabric_hris.Prelude.{ℕ, Text, text, Bytes, ◌≡◌, sym, ◌∙◌, ap, subst, [], ◌∷◌, arith}
use fabric_hris.Errors.{Result, ok, err, wrapping}
use fabric_hris.Exec.{Exec, and_then-ok, lift_then-ok, wrapping_exec}
use fabric_hris.Gateway.Digest.{compute_data_hash, compute_employee_id, compute_updated_by}
use fabric_hris.WritePaths.Hooks.{
  submit_step, document_key_step, pin_step, salt_step, Hooks, Ports, Draws, on_keys, on_salts,
  on_ledger, key_lookup_id, resolve_employee_key, pin_document, build_args, do_anchor,
}

pub wrapping-ok :
    {A : Type 0} (format : Text) (r : Result A) (a : A) → wrapping format r ≡ ok a → r ≡ ok a
wrapping-ok format (ok b) a e = e
wrapping-ok format (err x) a e = absurd (ground arith)

pub wrapping_exec-ok :
    {S A : Type 0} (format : Text) (action : Exec S A) (s s' : S) (a : A)
    → wrapping_exec format action s ≡ (ok a, s')
    → action s ≡ (ok a, s')
wrapping_exec-ok format action s s' a e =
    let first : (action s).0 ≡ ok a = wrapping-ok format (action s).0 a (ap (λ x. x.0) e) in
    let second : (action s).1 ≡ s' = ap (λ x. x.1) e in ground arith

module _ {K S D I N A : Type 0} (p p' : Ports K S D I N) (a : A) where
  pub on_keys-ok :
      (action : Exec K A)
      → on_keys action p ≡ (ok a, p')
      → (action p.key_state ≡ (ok a, p'.key_state))
        × (p'.salt_state ≡ p.salt_state)
        × (p'.ledger_state ≡ p.ledger_state)
  on_keys-ok action e = (
    ap (λ x. (x.0, x.1.key_state)) e,
    sym (ap (λ x. x.1.salt_state) e),
    sym (ap (λ x. x.1.ledger_state) e),
  )

  pub on_salts-ok :
      (action : Exec S A)
      → on_salts action p ≡ (ok a, p')
      → (action p.salt_state ≡ (ok a, p'.salt_state))
        × (p'.key_state ≡ p.key_state)
        × (p'.ledger_state ≡ p.ledger_state)
  on_salts-ok action e = (
    ap (λ x. (x.0, x.1.salt_state)) e,
    sym (ap (λ x. x.1.key_state) e),
    sym (ap (λ x. x.1.ledger_state) e),
  )

  on_ledger-ok :
      (action : Exec N A)
      → on_ledger action p ≡ (ok a, p')
      → (action p.ledger_state ≡ (ok a, p'.ledger_state))
        × (p'.key_state ≡ p.key_state)
        × (p'.salt_state ≡ p.salt_state)
  on_ledger-ok action e = (
    ap (λ x. (x.0, x.1.ledger_state)) e,
    sym (ap (λ x. x.1.key_state) e),
    sym (ap (λ x. x.1.salt_state) e),
  )

module _ {K S D I N : Type 0} where
  -- The documents' own state apart, the states agree.
  pub SameSecrets : Ports K S D I N → Ports K S D I N → Type 0
  SameSecrets p p' =
      (p'.key_state ≡ p.key_state)
      × (p'.salt_state ≡ p.salt_state)
      × (p'.ledger_state ≡ p.ledger_state)

module _ {O K S D I N : Type 0} (h : Hooks O K S D I N) where
  pin_document-SameSecrets :
      (draws : Draws) (employee : Text) (document : Bytes) (p p' : Ports K S D I N) (cids : Text)
      → pin_document h draws employee document p ≡ (ok cids, p')
      → SameSecrets p p'
  unfolding pin_document SameSecrets
  pin_document-SameSecrets draws employee [] p p' cids e =
      let same : p ≡ p' = ap (λ x. x.1) e in
      (
        sym (ap (λ x. x.key_state) same),
        sym (ap (λ x. x.salt_state) same),
        sym (ap (λ x. x.ledger_state) same),
      )
  pin_document-SameSecrets draws employee (b ∷ document) p p' cids e =
      let (key, p1, e1, e1') = and_then-ok (document_key_step h draws employee p) _ cids p' e in
      let (cid, p2, e2, e2') = and_then-ok (pin_step h draws key (b ∷ document) p1) _ cids p' e1' in
      (
        sym (ap (λ x. x.1.key_state) e2')
            ∙ sym (ap (λ x. x.1.key_state) e2)
            ∙ sym (ap (λ x. x.1.key_state) e1),
        sym (ap (λ x. x.1.salt_state) e2')
            ∙ sym (ap (λ x. x.1.salt_state) e2)
            ∙ sym (ap (λ x. x.1.salt_state) e1),
        sym (ap (λ x. x.1.ledger_state) e2')
            ∙ sym (ap (λ x. x.1.ledger_state) e2)
            ∙ sym (ap (λ x. x.1.ledger_state) e1),
      )

  -- What doAnchor computes and submits from a key, a pseudonym and a salt.
  pub record Submitted (user section : Text) (value : Bytes) (key : Bytes) (employee_id : Text)
      (salt : Bytes) (n n' : N) (result : Bytes) : Type 0 where
    pub data_hash : Text
    pub updated_by : Text
    pub cids : Text
    pub hashed : compute_data_hash h.digests salt value ≡ ok data_hash
    pub attributed : compute_updated_by h.digests key user ≡ ok updated_by
    pub submitted :
        h.gateway.submit_record_profile_section h.tenant_id employee_id section
          (build_args h employee_id section data_hash updated_by cids)
          n
        ≡ (ok result, n')

  submit_step-Submitted :
      (draws : Draws) (employee user section : Text) (value document key : Bytes)
      (employee_id : Text) (salt : Bytes) (p p' : Ports K S D I N) (result : Bytes)
      → submit_step h draws employee user section value document key employee_id salt p
        ≡ (ok result, p')
      → Submitted user section value key employee_id salt p.ledger_state p'.ledger_state result
        × (p'.key_state ≡ p.key_state)
        × (p'.salt_state ≡ p.salt_state)
  unfolding submit_step SameSecrets
  submit_step-Submitted draws employee user section value document key employee_id salt p p' result
        e =
      let (data_hash, hashed, f1) =
        lift_then-ok
          (wrapping (text "writepaths: computing DataHash")
            (compute_data_hash h.digests salt value))
          _ result p p' e in
      let (updated_by, attributed, f2) =
        lift_then-ok
          (wrapping (text "writepaths: computing UpdatedBy")
            (compute_updated_by h.digests key user))
          _ result p p' f1 in
      let (cids, p6, e6, f6) =
        and_then-ok (pin_document h draws employee document p) _ result p' f2 in
      let (dk, ds, dl) = pin_document-SameSecrets draws employee document p p6 cids e6 in
      let (l, lk, ls) =
        on_ledger-ok p6 p' result
          (h.gateway.submit_record_profile_section h.tenant_id employee_id section
            (build_args h employee_id section data_hash updated_by cids))
          f6 in
      (
        record {
          data_hash = data_hash;
          updated_by = updated_by;
          cids = cids;
          hashed = wrapping-ok (text "writepaths: computing DataHash") _ data_hash hashed;
          attributed = wrapping-ok (text "writepaths: computing UpdatedBy") _ updated_by attributed;
          submitted =
              ap
                (λ x.
                  h.gateway.submit_record_profile_section h.tenant_id employee_id section
                    (build_args h employee_id section data_hash updated_by cids) x)
                (sym dl)
              ∙ l;
        },
        lk ∙ dk,
        ls ∙ ds,
      )

  module _ (draws : Draws) (employee user section identity : Text) (value : Bytes) (version : ℕ)
      (document : Bytes) (p p' : Ports K S D I N) (result : Bytes) where
    -- What a successful anchor drew, computed and submitted.
    pub record Anchored : Type 0 where
      pub key : Bytes
      pub employee_id : Text
      pub salt : Bytes
      pub resolved :
          h.keys.get_or_create draws.for_key (key_lookup_id employee identity) p.key_state
          ≡ (ok key, p'.key_state)
      pub pseudonym : compute_employee_id h.digests key ≡ ok employee_id
      pub salted :
          h.salts.put_salt draws.for_salt employee_id section version p.salt_state
          ≡ (ok salt, p'.salt_state)
      pub submission :
          Submitted user section value key employee_id salt p.ledger_state p'.ledger_state result

    assemble :
        (key : Bytes) (employee_id : Text) (salt : Bytes) (p1 p3 : Ports K S D I N)
        → on_keys (resolve_employee_key h.keys draws.for_key employee identity) p ≡ (ok key, p1)
        → compute_employee_id h.digests key ≡ ok employee_id
        → salt_step h draws employee_id section version p1 ≡ (ok salt, p3)
        → Submitted user section value key employee_id salt p3.ledger_state p'.ledger_state result
          × (p'.key_state ≡ p3.key_state)
          × (p'.salt_state ≡ p3.salt_state)
        → Anchored
    unfolding resolve_employee_key
    assemble key employee_id salt p1 p3 e1 e2 e3 (submission, keys, salts) =
        let (k, ks, kl) =
          on_keys-ok p p1 key (resolve_employee_key h.keys draws.for_key employee identity) e1 in
        let (s, sk, sl) =
          on_salts-ok p1 p3 salt
            (wrapping_exec (text "writepaths: generating salt")
              (h.salts.put_salt draws.for_salt employee_id section version))
            e3 in
        let got =
          wrapping_exec-ok (text "writepaths: fetching employeeKey_i")
            (h.keys.get_or_create draws.for_key (key_lookup_id employee identity)) p.key_state
            p1.key_state key k in
        let put =
          wrapping_exec-ok (text "writepaths: generating salt")
            (h.salts.put_salt draws.for_salt employee_id section version) p1.salt_state
            p3.salt_state salt s in
        record {
          key = key;
          employee_id = employee_id;
          salt = salt;
          resolved = got ∙ ap (λ x. (ok key, x)) (sym sk ∙ sym keys);
          pseudonym = e2;
          salted =
              ap (λ x. h.salts.put_salt draws.for_salt employee_id section version x) (sym ks)
              ∙ put
              ∙ ap (λ x. (ok salt, x)) (sym salts);
          submission =
              subst
                (λ x. Submitted user section value key employee_id salt x p'.ledger_state result)
                (sl ∙ kl) submission;
        }

    pub do_anchor-Anchored :
        do_anchor h draws employee user section identity value version document p ≡ (ok result, p')
        → Anchored
    unfolding do_anchor
    do_anchor-Anchored e =
        let (key, p1, e1, f1) =
          and_then-ok (on_keys (resolve_employee_key h.keys draws.for_key employee identity) p) _
            result p' e in
        let (employee_id, e2, f2) =
          lift_then-ok
            (wrapping (text "writepaths: computing EmployeeID") (compute_employee_id h.digests key))
            _ result p1 p' f1 in
        let (salt, p3, e3, f3) =
          and_then-ok (salt_step h draws employee_id section version p1) _ result p' f2 in
        assemble key employee_id salt p1 p3 e1
          (wrapping-ok (text "writepaths: computing EmployeeID") _ _ e2) e3
          (submit_step-Submitted draws employee user section value document key employee_id salt p3
            p' result f3)
