-- ===== src/Prelude/Words.antt =====
-- Go strings and byte slices as lists of numbers, their equality, prefixes, suffixes and parts.
use Prim.Native.Nat.{ℕ}
use Prim.Native.Char.{code}
use Prim.Native.String.{String}
use mathlib.Core.Path.{◌≡◌, refl, ap, sym, ◌∙◌}
use mathlib.Core.Logic.{◌↔◌}
use mathlib.Core.Bool.{Bool, true, false, ◌&&◌, ◌||◌}
use mathlib.Core.List.{List, [], ◌∷◌, ◌++◌, reverse, reverse-append, reverse-reverse, append_assoc}
use native.Mathlib.Omega.{arith}
use fabric_hris.Prelude.Tests.{nat_eq}

-- A Go string; the bytes of ASCII text are its code points.
abbrev pub Text : Type 0
Text = List ℕ

-- A Go []byte.
abbrev pub Bytes : Type 0
Bytes = List ℕ

unfoldable pub text : String → Text
text String.[] = []
text (String.◌∷◌ c s) = code c ∷ text s

infix 50 ◌==◌
unfoldable pub ◌==◌ : Text → Text → Bool
[] == [] = true
[] == (y ∷ ys) = false
(x ∷ xs) == [] = false
(x ∷ xs) == (y ∷ ys) = nat_eq x y && (xs == ys)

pub eq_iff : (s t : Text) → ((s == t) ≡ true) ↔ (s ≡ t)
unfolding ◌==◌
eq_iff [] [] = ground arith
eq_iff [] (y ∷ ys) = ground arith
eq_iff (x ∷ xs) [] = ground arith
eq_iff (x ∷ xs) (y ∷ ys) = ground (arith, eq_iff xs ys)

pub eq_refl : (s : Text) → (s == s) ≡ true
eq_refl s = (eq_iff s s).1 refl

-- The test against the empty string, s == "".
abbrev pub is_empty : Text → Bool
is_empty [] = true
is_empty (x ∷ xs) = false

-- strings.HasPrefix s prefix.
unfoldable pub has_prefix : Text → Text → Bool
has_prefix s [] = true
has_prefix [] (y ∷ ys) = false
has_prefix (x ∷ xs) (y ∷ ys) = nat_eq x y && has_prefix xs ys

-- strings.HasSuffix s suffix.
unfoldable pub has_suffix : Text → Text → Bool
unfolding has_prefix
has_suffix s suffix = has_prefix (reverse s) (reverse suffix)

-- strings.Contains s part.
unfoldable pub contains : Text → Text → Bool
unfolding has_prefix
contains [] part = has_prefix [] part
contains (x ∷ xs) part = has_prefix (x ∷ xs) part || contains xs part

pub has_prefix-append : (p s : Text) → has_prefix (p ++ s) p ≡ true
unfolding has_prefix
has_prefix-append [] s = refl
has_prefix-append (x ∷ p) s = ground (arith, has_prefix-append p s)

pub contains_of_prefix : (s p : Text) → has_prefix s p ≡ true → contains s p ≡ true
unfolding contains
contains_of_prefix [] p h = h
contains_of_prefix (x ∷ xs) p h = ground arith

pub contains-append_left : (a s p : Text) → contains s p ≡ true → contains (a ++ s) p ≡ true
unfolding contains
contains-append_left [] s p h = h
contains-append_left (x ∷ a) s p h = ground (arith, contains-append_left a s p h)

-- A text that surrounds `p` contains it.
pub contains_middle : (a p s : Text) → contains (a ++ (p ++ s)) p ≡ true
contains_middle a p s =
    contains-append_left a (p ++ s) p (contains_of_prefix (p ++ s) p (has_prefix-append p s))

pub append_cancel_left : (a s t : Text) → a ++ s ≡ a ++ t → s ≡ t
append_cancel_left [] s t h = h
append_cancel_left (x ∷ a) s t h = append_cancel_left a s t (cc)

pub has_prefix-exists : (s p : Text) → has_prefix s p ≡ true → (rest : Text) × (s ≡ p ++ rest)
unfolding has_prefix
has_prefix-exists s [] h = (s, refl)
has_prefix-exists [] (y ∷ p) h = absurd (ground arith)
has_prefix-exists (x ∷ s) (y ∷ p) h =
    let (rest, e) = has_prefix-exists s p (ground arith) in (rest, ground arith)

pub has_suffix-exists : (s p : Text) → has_suffix s p ≡ true → (front : Text) × (s ≡ front ++ p)
unfolding has_suffix
has_suffix-exists s p h =
    let (r, e) = has_prefix-exists (reverse s) (reverse p) h in
    (
      reverse r,
      sym (reverse-reverse s)
          ∙ ap reverse e
          ∙ reverse-append (reverse p) r
          ∙ ap (λ q. reverse r ++ q) (reverse-reverse p),
    )

pub has_suffix-append : (a p : Text) → has_suffix (a ++ p) p ≡ true
unfolding has_suffix
has_suffix-append a p = rw reverse-append (has_prefix-append (reverse p) (reverse a))

-- A text that begins with `a ++ p` and goes on contains `p`, whatever surrounds it.
pub contains_inside :
    (before a p b after : Text) → contains (before ++ ((a ++ (p ++ b)) ++ after)) p ≡ true
contains_inside before a p b after = contains-append_left before ((a ++ (p ++ b)) ++ after) p (
    rw (append_assoc a (p ++ b) after) (
      contains-append_left a ((p ++ b) ++ after) p (
        rw (append_assoc p b after)
          (contains_of_prefix (p ++ (b ++ after)) p (has_prefix-append p (b ++ after))))))
