-- ===== src/Tools/Pilscan/Quiet.antt =====
-- pilscan/main.go: no check takes a finding back, and when the checks find nothing.
use fabric_hris.Prelude.{
  ℕ, suc, Text, text, Bytes, ◌==◌, ltb, length, contains, ◌+◌, ◌≡◌, ◌≢◌, ◌↔◌, refl, true, false,
  not, Option, none, some, Option-cases, inl, inr, List, [], ◌∷◌, ◌++◌, map, All, arith,
  if◌then◌else◌,
}
use fabric_hris.Tools.Pilscan.Patterns.{
  fixture_dictionary, first_contained, contains_fixture, is_plausible_cid,
}
use fabric_hris.Tools.Pilscan.Findings.{
  Finding, ChannelStats, Check, violation, leak, report, run_check, run_checks, for_each, decoded,
}
use fabric_hris.Tools.Pilscan.Checks.{
  raw_check, scan_raw_backstop, check_cid, count_cid, cid_checks, string_item, other_item,
  check_item, cid_items, object_checks, check_object, check_record_json, scan_args, arg_check,
  tx_args, position_checks, or_empty, check_positions, check_shape, Submitted, submitted_of,
  check_args, Json, Value, Item,
}
use fabric_hris.Prelude.Maps.{Map}

-- No finding so far.
abbrev pub Quiet : ChannelStats → Type 0
Quiet s = s.findings ≡ []

-- A change of the statistics that takes no finding back.
abbrev pub KeepsFindings : (ChannelStats → ChannelStats) → Type 0
KeepsFindings f = (s : ChannelStats) → Quiet (f s) → Quiet s

-- No string of the dictionary is part of the text.
abbrev pub NoFixture : Text → Type 0
NoFixture t = All (λ f. contains t f ≡ false) fixture_dictionary

-- A check that finds nothing.
abbrev pub Passes : Check → Type 0
Passes (violation test details) = test ≡ false
Passes (leak t before after) = NoFixture t

append_one-nonempty : (l : List Finding) (f : Finding) → l ++ (f ∷ []) ≢ []
append_one-nonempty [] f e = absurd (ground arith)
append_one-nonempty (x ∷ l) f e = absurd (ground arith)

report-loud :
    (block : ℕ) (location details : List Text) (s : ChannelStats)
    → Quiet (report block location details s)
    → ⊥
unfolding report
report-loud block location details s e = append_one-nonempty s.findings _ e

first_contained-none :
    (fs : List Text) (t : Text) → (first_contained fs t ≡ none) ↔ All (λ f. contains t f ≡ false) fs
unfolding first_contained
first_contained-none [] t = (λ e. tt, λ u. refl)
first_contained-none (f ∷ fs) t =
    let (to, from) = first_contained-none fs t in
    (λ e. (ground arith, to (ground arith)), λ (c, all). ground (arith, from all))

contains_fixture-none : (t : Text) → (contains_fixture t ≡ none) ↔ NoFixture t
unfolding contains_fixture
contains_fixture-none t = first_contained-none fixture_dictionary t

pub run_check-Quiet :
    (block : ℕ) (location : List Text) (c : Check) (s : ChannelStats)
    → Quiet (run_check block location c s) ↔ (Passes c × Quiet s)
unfolding run_check
run_check-Quiet block location (violation true details) s =
    (λ e. absurd (report-loud block location details s e), λ (f, q). absurd (ground arith))
run_check-Quiet block location (violation false details) s = (λ e. (refl, e), λ (f, q). q)
run_check-Quiet block location (leak t before after) s =
    let (to, from) = contains_fixture-none t in
    elim (Option-cases (contains_fixture t)) [
      | inl clean ↦ rw (run_check, clean) (λ e. (to clean, e), λ (c, q). q)
      | inr (f, hit) ↦
          rw (run_check, hit)
            (
              λ e. absurd (report-loud block location (before ++ (f ∷ after)) s e),
              λ (c, q). let clean = from c in absurd (ground arith),
            )
    ]

for_each-Quiet :
    {A : Type 0} (C : A → Type 0) (body : A → ChannelStats → ChannelStats)
    → ((x : A) (s : ChannelStats) → Quiet (body x s) ↔ (C x × Quiet s))
    → (xs : List A) (s : ChannelStats) → Quiet (for_each body xs s) ↔ (All C xs × Quiet s)
unfolding for_each
for_each-Quiet C body step [] s = (λ e. (tt, e), λ (u, e). e)
for_each-Quiet C body step (x ∷ xs) s =
    let (to, from) = for_each-Quiet C body step xs (body x s) in
    (
      λ e. let (all, q) = to e in let (c, q') = (step x s).0 q in ((c, all), q'),
      λ ((c, all), q). from (all, (step x s).1 (c, q)),
    )

pub for_each-KeepsFindings :
    {A : Type 0} (body : A → ChannelStats → ChannelStats)
    → ((x : A) → KeepsFindings (body x))
    → (xs : List A) → KeepsFindings (for_each body xs)
unfolding for_each
for_each-KeepsFindings body keeps [] s e = e
for_each-KeepsFindings body keeps (x ∷ xs) s e =
    keeps x s (for_each-KeepsFindings body keeps xs (body x s) e)

pub decoded-KeepsFindings :
    {A : Type 0} (o : Option A) (body : A → ChannelStats → ChannelStats)
    → ((a : A) → KeepsFindings (body a))
    → KeepsFindings (decoded o body)
decoded-KeepsFindings none body keeps s e = e
decoded-KeepsFindings (some a) body keeps s e = keeps a s e

-- Checks find nothing exactly where each passes.
pub run_checks-Quiet :
    (block : ℕ) (location : List Text) (cs : List Check) (s : ChannelStats)
    → Quiet (run_checks block location cs s) ↔ (All Passes cs × Quiet s)
unfolding run_checks
run_checks-Quiet block location cs s =
    for_each-Quiet Passes (run_check block location) (run_check-Quiet block location) cs s

All-map :
    {A B : Type 0} (P : B → Type 0) (f : A → B) (xs : List A)
    → All P (map f xs) ↔ All (λ x. P (f x)) xs
All-map P f [] = (λ a. a, λ a. a)
All-map P f (x ∷ xs) =
    let (to, from) = All-map P f xs in (λ (p, all). (p, to all), λ (p, all). (p, from all))

-- The raw scan of a block finds nothing exactly where no string of the dictionary is part of it.
pub scan_raw_backstop-Quiet :
    (block : ℕ) (raw : Bytes) (s : ChannelStats)
    → Quiet (scan_raw_backstop block raw s) ↔ (NoFixture raw × Quiet s)
unfolding scan_raw_backstop
scan_raw_backstop-Quiet block raw s =
    let s' = record s { raw_bytes_scanned = s.raw_bytes_scanned + length raw } in
    let (to, from) =
      run_checks-Quiet block (text "raw-block-backstop" ∷ [])
        (map (raw_check raw) fixture_dictionary) s' in
    let (there, back) = All-map Passes (raw_check raw) fixture_dictionary in
    (λ e. (there (to e).0, (to e).1), λ (c, q). from (back c, q))

-- A CID that the checks let pass.
abbrev pub CleanCid : Text → Type 0
CleanCid cid = NoFixture cid × (not (is_plausible_cid cid) ≡ false) × (ltb 130 (length cid) ≡ false)

pub count_cid-Quiet :
    (block : ℕ) (location : List Text) (cid : Text) (s : ChannelStats)
    → Quiet (count_cid block location cid s) ↔ (CleanCid cid × Quiet s)
unfolding count_cid check_cid
count_cid-Quiet block location cid s =
    let s' = record s { ipfs_cids_checked = suc s.ipfs_cids_checked } in
    let (to, from) = run_checks-Quiet block location (cid_checks cid) s' in
    (
      λ e. let ((a, (b, (c, u))), q) = to e in ((a, b, c), q),
      λ ((a, b, c), q). from ((a, (b, (c, tt))), q),
    )

check_item-KeepsFindings :
    (block : ℕ) (location : List Text) (i : Item) → KeepsFindings (check_item block location i)
unfolding check_item
check_item-KeepsFindings block location (string_item t) s e =
    ((count_cid-Quiet block location t s).0 e).1
check_item-KeepsFindings block location other_item s e = e

check_object-KeepsFindings :
    (block : ℕ) (location : List Text) (m : Map Value)
    → KeepsFindings (check_object block location m)
unfolding check_object
check_object-KeepsFindings block location m s e =
    ((run_checks-Quiet block location (object_checks m) s).0 (
      for_each-KeepsFindings (check_item block location) (check_item-KeepsFindings block location)
        (cid_items m) (run_checks block location (object_checks m) s) e)).1

-- Every argument is free of the dictionary's strings.
pub scan_args-Quiet :
    (block : ℕ) (fn : Text) (i : ℕ) (args : List Bytes) (s : ChannelStats)
    → Quiet (scan_args block fn i args s) ↔ (All NoFixture args × Quiet s)
unfolding scan_args
scan_args-Quiet block fn i [] s = (λ e. (tt, e), λ (u, e). e)
scan_args-Quiet block fn i (a ∷ args) s =
    let s' = record s { tx_args_checked = suc s.tx_args_checked } in
    let (to, from) =
      scan_args-Quiet block fn (suc i) args (run_check block tx_args (arg_check fn i a) s') in
    let (there, back) = run_check-Quiet block tx_args (arg_check fn i a) s' in
    (
      λ e. let (all, q) = to e in let (c, q') = there q in ((c, all), q'),
      λ ((c, all), q). from (all, back (c, q)),
    )

module _ (json : Json) where
  pub check_record_json-KeepsFindings :
      (block : ℕ) (location : List Text) (raw : Bytes)
      → KeepsFindings (check_record_json json block location raw)
  unfolding check_record_json
  check_record_json-KeepsFindings block location raw =
      decoded-KeepsFindings (json.decode_object raw) (check_object block location)
        (check_object-KeepsFindings block location)

  pub check_positions-Quiet :
      (block : ℕ) (a : Submitted) (s : ChannelStats)
      → Quiet (check_positions json block a s) ↔ (
          All CleanCid (or_empty (json.decode_strings a.cids))
          × (All Passes (position_checks a) × Quiet s))
  unfolding check_positions
  check_positions-Quiet block a s =
      let (to, from) =
        for_each-Quiet CleanCid (count_cid block tx_args) (count_cid-Quiet block tx_args)
          (or_empty (json.decode_strings a.cids))
          (run_checks block tx_args (position_checks a) s) in
      let (there, back) = run_checks-Quiet block tx_args (position_checks a) s in
      (λ e. ((to e).0, there (to e).1), λ (c, q). from (c, back q))

  pub check_args-KeepsFindings :
      (block : ℕ) (fn : Text) (args : List Bytes) → KeepsFindings (check_args json block fn args)
  unfolding check_args check_shape
  check_args-KeepsFindings block fn args s e =
      ((scan_args-Quiet block fn 0 args s).0 (
        decoded-KeepsFindings
          (if fn == text "RecordProfileSection" then submitted_of args else none)
          (check_positions json block) (λ a s' e'. ((check_positions-Quiet block a s').0 e').1.1)
          (scan_args block fn 0 args s) e)).1
