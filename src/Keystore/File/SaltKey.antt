-- ===== src/Keystore/File/SaltKey.antt =====
-- The flat key of a salt tells its employee, section and version.
use fabric_hris.Prelude.{
  ℕ, Text, ◌==◌, eq_iff, has_prefix, has_prefix-append, has_prefix-exists, ◌≡◌, inl, inr, refl, sym,
  ◌∙◌, ◌<◌, ◌^◌, true, [], ◌∷◌, ◌++◌, All, arith, Bool-cases,
}
use mathlib.Core.List.{append_assoc}
use fabric_hris.Keystore.Decimal.{print_int, print_int-injective}
use fabric_hris.Keystore.File.{salt_file_key}

-- A text with no NUL byte, as an identifier in hexadecimal is.
abbrev pub NoNul : Text → Type 0
NoNul t = All (λ c. 0 < c) t

-- What stands before the first NUL, and what stands behind it.
split_at_nul :
    (s t x y : Text) → NoNul s → NoNul t → s ++ (0 ∷ x) ≡ t ++ (0 ∷ y) → (s ≡ t) × (x ≡ y)
split_at_nul [] [] x y hs ht e = (refl, cc)
split_at_nul [] (c ∷ t) x y hs ht e = let z : 0 ≡ c = cc in absurd (omega arith)
split_at_nul (c ∷ s) [] x y hs ht e = let z : c ≡ 0 = cc in absurd (omega arith)
split_at_nul (c ∷ s) (d ∷ t) x y hs ht e =
    let (f, g) = split_at_nul s t x y hs.1 ht.1 (cc) in (cc, g)

module _ (employee section other_employee other_section : Text) (version other_version : ℕ) where
  pub salt_file_key-injective :
      NoNul employee
      → NoNul section
      → NoNul other_employee
      → NoNul other_section
      → version < 2 ^ 64
      → other_version < 2 ^ 64
      → salt_file_key employee section version
        ≡ salt_file_key other_employee other_section other_version
      → (employee ≡ other_employee) × (section ≡ other_section) × (version ≡ other_version)
  unfolding salt_file_key
  salt_file_key-injective he hs he' hs' hv hv' e =
      let (f, g) =
        split_at_nul employee other_employee (section ++ (0 ∷ print_int version))
          (other_section ++ (0 ∷ print_int other_version)) he he' e in
      let (h, k) =
        split_at_nul section other_section (print_int version) (print_int other_version) hs hs' g in
      (f, h, print_int-injective version other_version hv hv' k)

-- For employees without NUL, the prefix test of DeleteAllSaltsForEmployee picks the employee's keys
-- and no others.
pub has_prefix-salt_file_key :
    (employee other section : Text) (version : ℕ)
    → NoNul employee
    → NoNul other
    → has_prefix (salt_file_key other section version) (employee ++ (0 ∷ [])) ≡ (other == employee)
unfolding salt_file_key
has_prefix-salt_file_key employee other section version h h' =
    let tail : Text = section ++ (0 ∷ print_int version) in
    elim (Bool-cases (has_prefix (other ++ (0 ∷ tail)) (employee ++ (0 ∷ [])))) [
      | inl hit ↦
          let (rest, e) = has_prefix-exists (other ++ (0 ∷ tail)) (employee ++ (0 ∷ [])) hit in
          let (same, _) =
            split_at_nul other employee tail rest h' h (e ∙ append_assoc employee (0 ∷ []) rest) in
          hit ∙ sym ((eq_iff other employee).1 same)
      | inr miss ↦ elim (Bool-cases (other == employee)) [
        | inr differ ↦ miss ∙ sym differ
        | inl same ↦
            let e : other ≡ employee = (eq_iff other employee).0 same in
            let hit : has_prefix (employee ++ (0 ∷ tail)) (employee ++ (0 ∷ [])) ≡ true =
              rw (← append_assoc employee (0 ∷ []) tail)
                (has_prefix-append (employee ++ (0 ∷ [])) tail) in
            absurd (ground (arith, e, miss, hit))
      ]
    ]
