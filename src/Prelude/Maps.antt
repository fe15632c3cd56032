-- ===== src/Prelude/Maps.antt =====
-- Go maps keyed by strings, as association lists: the latest binding of a key is first.
use mathlib.Core.Path.{◌≡◌, refl}
use mathlib.Core.Bool.{Bool}
use mathlib.Core.Option.{Option, none, some}
use mathlib.Core.List.{List, [], ◌∷◌}
use native.Mathlib.Omega.{arith}
use fabric_hris.Prelude.Tests.{if◌then◌else◌}
use fabric_hris.Prelude.Words.{Text, ◌==◌, eq_iff}

abbrev pub Map {ℓ} : Type ℓ → Type ℓ
Map V = List (Text × V)

module _ {ℓ} {V : Type ℓ} where
  -- v, exists := m[k]
  unfoldable pub lookup : Text → Map V → Option V
  lookup k [] = none
  lookup k ((j, v) ∷ m) = if j == k then some v else lookup k m

  -- m[k] = v
  unfoldable pub insert : Text → V → Map V → Map V
  insert k v m = (k, v) ∷ m

  -- for key := range m { if drop(key) { delete(m, key) } }
  unfoldable pub delete_where : (Text → Bool) → Map V → Map V
  delete_where test [] = []
  delete_where test ((j, v) ∷ m) =
      let rest = delete_where test m in if test j then rest else (j, v) ∷ rest

  -- delete(m, k)
  unfoldable pub delete : Text → Map V → Map V
  unfolding delete_where
  delete k m = delete_where (λ j. j == k) m

  pub lookup-nil : (k : Text) → lookup k [] ≡ none
  unfolding lookup
  lookup-nil k = refl

  pub lookup-insert :
      (k j : Text) (v : V) (m : Map V)
      → lookup j (insert k v m) ≡ (if k == j then some v else lookup j m)
  unfolding lookup insert
  lookup-insert k j v m = refl

  pub lookup-delete_where :
      (test : Text → Bool) (j : Text) (m : Map V)
      → lookup j (delete_where test m) ≡ (if test j then none else lookup j m)
  unfolding lookup delete_where
  lookup-delete_where test j [] = ground arith
  lookup-delete_where test j ((i, v) ∷ m) = ground (arith, lookup-delete_where test j m, eq_iff i j)

  pub lookup-delete :
      (k j : Text) (m : Map V) → lookup j (delete k m) ≡ (if j == k then none else lookup j m)
  unfolding delete
  lookup-delete k j m = lookup-delete_where (λ i. i == k) j m

pub ruleset map_laws = (lookup-nil, lookup-insert, lookup-delete)
