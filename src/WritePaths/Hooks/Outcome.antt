-- ===== src/WritePaths/Hooks/Outcome.antt =====
-- writepaths.go: what a hook's error says of the operational write.
use fabric_hris.Prelude.{
  ℕ, Text, Bytes, ◌≡◌, ◌⊎◌, inl, inr, Bool-cases, List, [], ◌∷◌, ◌++◌, if◌then◌else◌, arith,
}
use fabric_hris.Errors.{GoError, ok, err, Result-cases, context, partial_failure}
use fabric_hris.WritePaths.Hooks.{Hooks, World, Draws, Report, do_anchor, anchor, save_and_anchor}

abbrev pub failed : Text → Text → ℕ → GoError → Report
failed employee section version e = record {
  employee = employee;
  section = section;
  version = version;
  failure = partial_failure employee section version e;
}

module _ {O K S D I N : Type 0} (h : Hooks O K S D I N) where
  abbrev pub reported : Report → List Report → List Report
  reported report reports = if h.reports_partial_failure then reports ++ (report ∷ []) else reports

  module _ (draws : Draws) (employee user section identity : Text) (value : Bytes) (version : ℕ)
      (document : Bytes) (w : World O K S D I N) where
    -- Of the states, the anchor leaves the operational store as it was.
    pub AnchorOutcome : Type 0
    AnchorOutcome =
        let run = anchor h draws employee user section identity value version document w in
        (run.1.store_state ≡ w.store_state)
        × (((result : Bytes) × (run.0 ≡ ok result) × (run.1.reports ≡ w.reports))
            ⊎ ((e : GoError) × (run.0 ≡ err (partial_failure employee section version e))
                × (run.1.reports ≡ reported (failed employee section version e) w.reports)))

    pub anchor-AnchorOutcome : AnchorOutcome
    unfolding AnchorOutcome anchor
    anchor-AnchorOutcome =
        elim (Result-cases
          (do_anchor h draws employee user section identity value version document w.ports).0) [
            | inl (result, e) ↦ (ground arith, inl (result, ground arith, ground arith))
            | inr (e, f) ↦ elim (Bool-cases h.reports_partial_failure) [
              | inl set ↦ (rw (anchor, f, set), inr (e, rw (anchor, f), rw (anchor, f, set)))
              | inr unset ↦ (rw (anchor, f, unset), inr (e, rw (anchor, f), rw (anchor, f, unset)))
            ]
          ]

  -- A hook ends in one of three ways. If the operational save fails, the error is the save's,
  -- under its context, and nothing but the store has run. If the save succeeds, the saved store
  -- stays, and either the anchor succeeded and nothing is reported, or its error is a partial
  -- failure that names the employee, the section and the saved version, reported exactly once
  -- where a callback is set.
  pub save_and_anchor-outcome :
      (section failure : Text) (draws : Draws) (employee user identity : Text)
      (value document : Bytes) (w : World O K S D I N)
      → ((e : GoError) × ((h.store.save_section employee section value w.store_state).0 ≡ err e)
          × (save_and_anchor h section failure draws employee user identity value document w ≡ (
            err (context failure [] e),
            record w {
              store_state = (h.store.save_section employee section value w.store_state).1;
            },
          )))
        ⊎ ((version : ℕ) × ((h.store.save_section employee section value w.store_state).0
              ≡ ok version)
            × ((save_and_anchor h section failure draws employee user identity value document
                  w).1.store_state
                ≡ (h.store.save_section employee section value w.store_state).1)
            × (((result : Bytes) × ((save_and_anchor h section failure draws employee user identity
                      value document w).0
                    ≡ ok result)
                  × ((save_and_anchor h section failure draws employee user identity value document
                        w).1.reports
                      ≡ w.reports))
                ⊎ ((e : GoError) × ((save_and_anchor h section failure draws employee user identity
                        value document w).0
                      ≡ err (partial_failure employee section version e))
                    × ((save_and_anchor h section failure draws employee user identity value
                          document w).1.reports
                        ≡ reported (failed employee section version e) w.reports))))
  unfolding save_and_anchor AnchorOutcome
  save_and_anchor-outcome section failure draws employee user identity value document w =
      elim (Result-cases (h.store.save_section employee section value w.store_state).0) [
        | inr (e, f) ↦ inl (e, f, rw f)
        | inl (version, f) ↦
            let saved = (h.store.save_section employee section value w.store_state).1 in
            let (kept, rest) =
              anchor-AnchorOutcome draws employee user section identity value version document
                (record w { store_state = saved }) in
            inr (version, f, rw f kept, rw f rest)
      ]
