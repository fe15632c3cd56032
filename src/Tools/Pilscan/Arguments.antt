-- ===== src/Tools/Pilscan/Arguments.antt =====
-- pilscan/main.go with writepaths.go: what checkArgs asks of a submission.
use fabric_hris.Prelude.{
  ℕ, Text, text, eq_refl, is_empty, ◌≡◌, ◌↔◌, Bool, true, false, not, ◌||◌, List, [], ◌∷◌, All,
  arith,
}
use fabric_hris.Tools.Pilscan.Patterns.{is_hex64, is_data_hash, is_listed, section_enum}
use fabric_hris.Tools.Pilscan.Findings.{ChannelStats}
use fabric_hris.Tools.Pilscan.Checks.{
  Json, Submitted, submitted_of, position_checks, scan_args, or_empty, check_shape, check_args,
}
use fabric_hris.Tools.Pilscan.Quiet.{
  Quiet, NoFixture, Passes, CleanCid, scan_args-Quiet, check_positions-Quiet,
}

-- The arguments of a submission, in the order of buildArgs.
abbrev pub ten_args :
    Text → Text → Text → Text → Text → Text → Text → Text → Text → Text → List Text
ten_args tenant employee_id section data_hash prev updated_by cids version algo timestamp =
    tenant ∷ employee_id ∷ section ∷ data_hash ∷ prev ∷ updated_by ∷ cids ∷ version ∷ algo
    ∷ timestamp ∷ []

-- What the checks by position ask.
abbrev pub WellShaped : Json → Submitted → Type 0
WellShaped json a =
    (is_hex64 a.employee_id ≡ true)
    × (is_hex64 a.updated_by ≡ true)
    × (is_data_hash a.data_hash ≡ true)
    × ((is_empty a.prev_hash || is_data_hash a.prev_hash) ≡ true)
    × (is_listed section_enum a.section ≡ true)
    × All CleanCid (or_empty (json.decode_strings a.cids))

not-false : (b : Bool) → (not b ≡ false) ↔ (b ≡ true)
not-false b = ground arith

positions_iff :
    (a : Submitted)
    → All Passes (position_checks a) ↔ (
        (is_hex64 a.employee_id ≡ true)
        × (is_hex64 a.updated_by ≡ true)
        × (is_data_hash a.data_hash ≡ true)
        × ((is_empty a.prev_hash || is_data_hash a.prev_hash) ≡ true)
        × (is_listed section_enum a.section ≡ true))
positions_iff a = (
  λ (e, (u, (d, (p, (s, t))))).
      (ground arith, ground arith, ground arith, ground arith, ground arith),
  λ (e, u, d, p, s).
      (ground arith, (ground arith, (ground arith, (ground arith, (ground arith, tt))))),
)

module _ (json : Json) where
  -- The checks of a RecordProfileSection submission with its ten arguments find nothing exactly
  -- where no argument contains a string of the dictionary, the employee's pseudonym and the actor's
  -- are 64 hexadecimal digits, the data hash is "sha256:" and 64 hexadecimal digits, the previous
  -- hash is that or empty, the section is one of the five, and each CID is plausible, is not longer
  -- than 130 bytes and contains no string of the dictionary.
  pub check_args-Quiet_iff :
      (block : ℕ)
      (tenant employee_id section data_hash prev updated_by cids version algo timestamp : Text)
      (s : ChannelStats)
      → Quiet (
          check_args json block
            (text "RecordProfileSection")
            (ten_args tenant employee_id section data_hash prev updated_by cids version algo
              timestamp)
            s)
        ↔ (WellShaped json (record {
          employee_id = employee_id;
          section = section;
          data_hash = data_hash;
          prev_hash = prev;
          updated_by = updated_by;
          cids = cids;
        })
            × All NoFixture (
                ten_args tenant employee_id section data_hash prev updated_by cids version algo
                  timestamp)
            × Quiet s)
  unfolding check_args check_shape submitted_of
  check_args-Quiet_iff block tenant employee_id section data_hash prev updated_by cids version algo
        timestamp s =
      let args =
        ten_args tenant employee_id section data_hash prev updated_by cids version algo timestamp in
      let a : Submitted = record {
        employee_id = employee_id;
        section = section;
        data_hash = data_hash;
        prev_hash = prev;
        updated_by = updated_by;
        cids = cids;
      } in
      let (to, from) =
        check_positions-Quiet json block a
          (scan_args block (text "RecordProfileSection") 0 args s) in
      let (there, back) = scan_args-Quiet block (text "RecordProfileSection") 0 args s in
      let (shape, shape') = positions_iff a in
      rw (check_args, check_shape, eq_refl (text "RecordProfileSection"))
        (
          λ e.
              let (c, (p, q)) = to e in
              let (e1, u, d, p1, s1) = shape p in
              let (all, q') = there q in ((e1, u, d, p1, s1, c), all, q'),
          λ ((e1, u, d, p1, s1, c), all, q). from (c, (shape' (e1, u, d, p1, s1), back (all, q))),
        )
