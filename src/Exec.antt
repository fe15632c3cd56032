-- ===== src/Exec.antt =====
-- Code that changes a state and may fail: what was written before a failure stays written, so the
-- state comes back beside the error too.
use fabric_hris.Prelude.{Text, ◌≡◌, ◌⊎◌, inl, inr, refl, arith}
use fabric_hris.Errors.{GoError, Result, ok, err, wrapping}

abbrev pub Exec {ℓ} : Type ℓ → Type ℓ → Type ℓ
Exec S A = S → Result A × S

module _ {ℓ} {S A : Type ℓ} where
  abbrev pub done : A → Exec S A
  done a s = (ok a, s)

  abbrev pub fail : GoError → Exec S A
  fail e s = (err e, s)

  abbrev pub lift : Result A → Exec S A
  lift r s = (r, s)

  -- The error of an action, wrapped.
  abbrev pub wrapping_exec : Text → Exec S A → Exec S A
  wrapping_exec format action s = let (r, s') = action s in (wrapping format r, s')

module _ {ℓ} {S A B : Type ℓ} where
  abbrev pub and_then : Result A × S → (A → Exec S B) → Result B × S
  and_then (ok a, s) next = next a s
  and_then (err e, s) next = (err e, s)

  infixl 5 ◌>>=◌ ◌>>◌
  abbrev pub ◌>>=◌ : Exec S A → (A → Exec S B) → Exec S B
  ◌>>=◌ action next s = and_then (action s) next

  abbrev pub ◌>>◌ : Exec S A → Exec S B → Exec S B
  ◌>>◌ action next s = and_then (action s) (λ _. next)

-- An action that succeeded in two parts.
pub and_then-ok {ℓ} :
    {S A B : Type ℓ} (r : Result A × S) (next : A → Exec S B) (b : B) (s' : S)
    → and_then r next ≡ (ok b, s')
    → (a : A) × (s : S) × (r ≡ (ok a, s)) × (next a s ≡ (ok b, s'))
and_then-ok (ok a, s) next b s' h = (a, s, refl, h)
and_then-ok (err e, s) next b s' h = absurd (ground arith)

pub lift_then-ok {ℓ} :
    {S A B : Type ℓ} (r : Result A) (next : A → Exec S B) (b : B) (s s' : S)
    → and_then (lift r s) next ≡ (ok b, s')
    → (a : A) × (r ≡ ok a) × (next a s ≡ (ok b, s'))
lift_then-ok (ok a) next b s s' h = (a, refl, h)
lift_then-ok (err e) next b s s' h = absurd (ground arith)

-- The two ways in which an action goes on.
pub and_then-cases {ℓ} :
    {S A B : Type ℓ} (r : Result A × S) (next : A → Exec S B)
    → ((e : GoError) × (and_then r next ≡ (err e, r.1)))
      ⊎ ((a : A) × (r.0 ≡ ok a) × (and_then r next ≡ next a r.1))
and_then-cases (ok a, s) next = inr (a, refl, refl)
and_then-cases (err e, s) next = inl (e, refl)

-- A last step that leaves the state alone.
pub and_then-lift-state {ℓ} :
    {S A B : Type ℓ} (r : Result A × S) (f : A → Result B) → (and_then r (λ a. lift (f a))).1 ≡ r.1
and_then-lift-state (ok a, s) f = refl
and_then-lift-state (err e, s) f = refl
