-- ===== src/Chaincode/Queries/Sorting.antt =====
-- Sorting by version does not depend on the order in which the ledger iterates.
use mathlib.Core.List.{reverse, reverse-append, Permᴰ}
use fabric_hris.Prelude.{
  ℕ, ◌≡◌, ◌≢◌, refl, subst, sym, ◌∙◌, ap, ◌+◌, ◌%◌, ◌^◌, ◌<◌, List, [], ◌∷◌, ◌++◌, All, arith,
  if◌then◌else◌, ltb,
}
use fabric_hris.Chaincode.Asset.{ProfileVersionEntry}
use fabric_hris.Chaincode.Queries.{insert_by_version, sort_by_version}

-- The place of a version among the Go ints.
abbrev pub rank : ProfileVersionEntry → ℕ
rank e = (e.version + 2 ^ 63) % 2 ^ 64

abbrev pub Before : ProfileVersionEntry → ProfileVersionEntry → Type 0
Before e f = rank e < rank f

insert_step :
    ProfileVersionEntry → ProfileVersionEntry → List ProfileVersionEntry → List ProfileVersionEntry
insert_step e f rest = if ltb (rank f) (rank e) then f ∷ insert_by_version e rest else e ∷ f ∷ rest

insert-cons :
    (e f : ProfileVersionEntry) (rest : List ProfileVersionEntry)
    → insert_by_version e (f ∷ rest) ≡ insert_step e f rest
unfolding insert_by_version insert_step
insert-cons e f rest = refl

insert-nil : (e : ProfileVersionEntry) → insert_by_version e [] ≡ e ∷ []
unfolding insert_by_version
insert-nil e = refl

insert-insert :
    (a b : ProfileVersionEntry) (l : List ProfileVersionEntry)
    → rank a ≢ rank b
    → insert_by_version a (insert_by_version b l) ≡ insert_by_version b (insert_by_version a l)
unfolding insert_step
insert-insert a b [] h =
    rw (insert-nil a, insert-nil b, insert-cons a b [], insert-cons b a [])
      (ground (arith, insert-nil a, insert-nil b))
insert-insert a b (f ∷ l) h = ground (
  arith,
  insert-cons a f l,
  insert-cons b f l,
  insert-cons a b (f ∷ l),
  insert-cons b a (f ∷ l),
  insert-cons a f (insert_by_version b l),
  insert-cons b f (insert_by_version a l),
  insert-insert a b l h,
)

abbrev pub Apart : ProfileVersionEntry → List ProfileVersionEntry → Type 0
Apart e es = All (λ f. rank e ≢ rank f) es

abbrev pub Distinct : List ProfileVersionEntry → Type 0
Distinct [] = Unit
Distinct (e ∷ es) = Apart e es × Distinct es

Apart-perm :
    (e : ProfileVersionEntry) {xs ys : List ProfileVersionEntry}
    → Permᴰ xs ys
    → Apart e xs
    → Apart e ys
Apart-perm e Permᴰ.nil h = tt
Apart-perm e (Permᴰ.cons p q) h = (subst (λ x. rank e ≢ rank x) p h.0, Apart-perm e q h.1)
Apart-perm e (Permᴰ.swap p q) h =
    (subst (λ x. rank e ≢ rank x) q h.1.0, (subst (λ x. rank e ≢ rank x) p h.0, h.1.1))
Apart-perm e (Permᴰ.trans p q) h = Apart-perm e q (Apart-perm e p h)

Apart-of_eq :
    {a b : ProfileVersionEntry} (xs : List ProfileVersionEntry) → a ≡ b → Apart a xs → Apart b xs
Apart-of_eq xs e h = subst (λ x. Apart x xs) e h

Distinct-perm : {xs ys : List ProfileVersionEntry} → Permᴰ xs ys → Distinct xs → Distinct ys
Distinct-perm Permᴰ.nil h = tt
Distinct-perm (Permᴰ.cons {a = a} {l₂ = ys} p q) h =
    (Apart-of_eq ys p (Apart-perm a q h.0), Distinct-perm q h.1)
Distinct-perm (Permᴰ.swap {a = a} {b = b} {a' = a'} {b' = b'} {l = l} p q) h = (
  (λ same. h.0.0 (ap rank p ∙ sym same ∙ ap rank (sym q)), Apart-of_eq l q h.1.0),
  (Apart-of_eq l p h.0.1, h.1.1),
)
Distinct-perm (Permᴰ.trans p q) h = Distinct-perm q (Distinct-perm p h)

sort_step :
    (e : ProfileVersionEntry) (es : List ProfileVersionEntry)
    → sort_by_version (e ∷ es) ≡ insert_by_version e (sort_by_version es)
unfolding sort_by_version
sort_step e es = refl

-- Entries of different versions come out in one order, however they came in.
pub sort-perm :
    {xs ys : List ProfileVersionEntry}
    → Permᴰ xs ys
    → Distinct xs
    → sort_by_version xs ≡ sort_by_version ys
sort-perm Permᴰ.nil h = refl
sort-perm (Permᴰ.cons {a = a} {b = b} {l₁ = xs} {l₂ = ys} p q) h =
    cc (sort_step a xs, sort_step b ys, p, sort-perm q h.1)
sort-perm (Permᴰ.swap {a = a} {b = b} {l = l} p q) h =
    rw (← p, ← q)
      (cc (
        sort_step a (b ∷ l),
        sort_step b l,
        sort_step b (a ∷ l),
        sort_step a l,
        insert-insert a b (sort_by_version l) h.0.0,
      ))
sort-perm (Permᴰ.trans p q) h = sort-perm p h ∙ sort-perm q (Distinct-perm p h)

-- Every version is above those that follow.
abbrev pub Descending : List ProfileVersionEntry → Type 0
Descending [] = Unit
Descending (e ∷ es) = All (λ f. Before f e) es × Descending es

Apart-of_above :
    (e : ProfileVersionEntry) (fs : List ProfileVersionEntry)
    → All (λ f. Before f e) fs
    → Apart e fs
Apart-of_above e [] h = tt
Apart-of_above e (f ∷ fs) h = (λ same. absurd (omega arith), Apart-of_above e fs h.1)

Descending-Distinct : (es : List ProfileVersionEntry) → Descending es → Distinct es
Descending-Distinct [] h = tt
Descending-Distinct (e ∷ es) h = (Apart-of_above e es h.0, Descending-Distinct es h.1)

insert_last :
    (e : ProfileVersionEntry) (es : List ProfileVersionEntry)
    → All (λ f. Before f e) es
    → insert_by_version e es ≡ es ++ e ∷ []
unfolding insert_step
insert_last e [] h = insert-nil e
insert_last e (f ∷ es) h = ground (arith, insert-cons e f es, insert_last e es h.1)

All-append :
    (P : ProfileVersionEntry → Type 0) (xs : List ProfileVersionEntry) (y : ProfileVersionEntry)
    → All P xs
    → P y
    → All P (xs ++ y ∷ [])
All-append P [] y h k = (k, tt)
All-append P (x ∷ xs) y h k = (h.0, All-append P xs y h.1 k)

All-reverse :
    (P : ProfileVersionEntry → Type 0) (xs : List ProfileVersionEntry)
    → All P xs
    → All P (reverse xs)
All-reverse P [] h = tt
All-reverse P (x ∷ xs) h =
    rw (reverse-append (x ∷ []) xs) (All-append P (reverse xs) x (All-reverse P xs h.1) h.0)

-- Sorting what comes newest first turns it round.
pub sort-Descending :
    (es : List ProfileVersionEntry) → Descending es → sort_by_version es ≡ reverse es
sort-Descending [] h = unfold sort_by_version in refl
sort-Descending (e ∷ es) h =
    sort_step e es
    ∙ ap (insert_by_version e) (sort-Descending es h.1)
    ∙ insert_last e (reverse es) (All-reverse (λ f. Before f e) es h.0)
    ∙ sym (reverse-append (e ∷ []) es)

-- Both together: any order of iteration gives the versions oldest first.
pub sort-perm-Descending :
    {xs es : List ProfileVersionEntry}
    → Permᴰ es xs
    → Descending es
    → sort_by_version xs ≡ reverse es
sort-perm-Descending {es = es} p h =
    sym (sort-perm p (Descending-Distinct es h)) ∙ sort-Descending es h
