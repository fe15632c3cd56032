-- ===== src/Keystore/Decimal.antt =====
-- fmt's %d on a Go int, and why the text tells the number.
use fabric_hris.Prelude.{
  ℕ, zero, suc, Text, ◌≡◌, ◌≢◌, sym, subst, ◌∙◌, ap, ◌+◌, ◌-◌, ◌*◌, ◌/◌, ◌%◌, ◌^◌, ◌<◌, ◌≤◌, [],
  ◌∷◌, All, arith, ltb, Bool-cases, inl, inr, if◌then◌else◌,
}

-- The digits of `n` before `acc`, with fuel above `n`.
unfoldable pub decimal_onto : ℕ → ℕ → Text → Text
decimal_onto zero n acc = acc
decimal_onto (suc fuel) n acc =
    let rest = decimal_onto fuel (n / 10) ((48 + n % 10) ∷ acc) in
    if ltb n 10 then (48 + n) ∷ acc else rest

unfoldable pub decimal : ℕ → Text
unfolding decimal_onto
decimal n = decimal_onto (suc n) n []

-- A 64-bit pattern as a signed number, with a minus sign.
unfoldable pub print_int : ℕ → Text
print_int v = if ltb v (2 ^ 63) then decimal v else (b'-' ∷ decimal (2 ^ 64 - v))

-- The number that digits stand for.
value_onto : ℕ → Text → ℕ
value_onto n [] = n
value_onto n (c ∷ cs) = value_onto (n * 10 + (c - 48)) cs

value-decimal_onto :
    (fuel n : ℕ) (acc : Text) → n < fuel → value_onto 0 (decimal_onto fuel n acc) ≡ value_onto n acc
unfolding value_onto decimal_onto
value-decimal_onto zero n acc h = elim h [ ]
value-decimal_onto (suc fuel) n acc h = elim (Bool-cases (ltb n 10)) [
  | inl small ↦ rw small (ap (λ m. value_onto m acc) (omega arith))
  | inr large ↦ rw large (
      value-decimal_onto fuel (n / 10) ((48 + n % 10) ∷ acc) (ground arith)
      ∙ ap (λ m. value_onto m acc) (omega arith))
]

value-decimal : (n : ℕ) → value_onto 0 (decimal n) ≡ n
unfolding decimal value_onto
value-decimal n = value-decimal_onto (suc n) n [] (omega arith)

pub decimal-injective : (m n : ℕ) → decimal m ≡ decimal n → m ≡ n
decimal-injective m n h = sym (value-decimal m) ∙ ap (value_onto 0) h ∙ value-decimal n

digits-decimal_onto :
    (fuel n : ℕ) (acc : Text) → All (λ c. 48 ≤ c) acc → All (λ c. 48 ≤ c) (decimal_onto fuel n acc)
unfolding decimal_onto
digits-decimal_onto zero n acc h = h
digits-decimal_onto (suc fuel) n acc h = elim (Bool-cases (ltb n 10)) [
  | inl small ↦ rw small (omega arith, h)
  | inr large ↦ rw large (digits-decimal_onto fuel (n / 10) ((48 + n % 10) ∷ acc) (omega arith, h))
]

decimal-no_sign : (n : ℕ) (cs : Text) → decimal n ≢ b'-' ∷ cs
unfolding decimal
decimal-no_sign n cs h =
    let d : All (λ c. 48 ≤ c) (b'-' ∷ cs) =
      subst (λ t. All (λ c. 48 ≤ c) t) h (digits-decimal_onto (suc n) n [] tt) in
    absurd (omega (arith, d.0))

pub print_int-injective : (v w : ℕ) → v < 2 ^ 64 → w < 2 ^ 64 → print_int v ≡ print_int w → v ≡ w
unfolding print_int
print_int-injective v w hv hw h = elim (Bool-cases (ltb v (2 ^ 63))) [
  | inl small ↦ elim (Bool-cases (ltb w (2 ^ 63))) [
    | inl small' ↦ decimal-injective v w (ground arith)
    | inr large' ↦ absurd (decimal-no_sign v (decimal (2 ^ 64 - w)) (ground arith))
  ]
  | inr large ↦ elim (Bool-cases (ltb w (2 ^ 63))) [
    | inl small' ↦ absurd (decimal-no_sign w (decimal (2 ^ 64 - v)) (ground arith))
    | inr large' ↦
        let same : 2 ^ 64 - v ≡ 2 ^ 64 - w =
          decimal-injective (2 ^ 64 - v) (2 ^ 64 - w) (ground arith) in
        omega arith
  ]
]
