-- ===== src/Bridge/History/Order.antt =====
-- history.go: the order of the feed. Sorting is stable and puts the greatest timestamp first.
use fabric_hris.Prelude.{
  Text, ◌==◌, eq_iff, true, false, ◌≡◌, refl, ap, ◌∙◌, List, [], ◌∷◌, All, arith, if◌then◌else◌,
  Bool-cases, inl, inr,
}
use fabric_hris.Bridge.History.{HistoryEntry, text_before, insert_stable, newest_first}

before_asym : (s t : Text) → text_before s t ≡ true → text_before t s ≡ false
unfolding text_before
before_asym [] [] h = refl
before_asym [] (y ∷ t) h = refl
before_asym (x ∷ s) [] h = absurd (ground arith)
before_asym (x ∷ s) (y ∷ t) h = ground (arith, before_asym s t)

before_trans :
    (s t u : Text) → text_before s t ≡ false → text_before t u ≡ false → text_before s u ≡ false
unfolding text_before
before_trans [] [] [] h k = refl
before_trans [] [] (z ∷ u) h k = k
before_trans [] (y ∷ t) u h k = absurd (ground arith)
before_trans (x ∷ s) t [] h k = refl
before_trans (x ∷ s) [] (z ∷ u) h k = absurd (ground arith)
before_trans (x ∷ s) (y ∷ t) (z ∷ u) h k = ground (arith, before_trans s t u)

before_irrefl : (s : Text) → text_before s s ≡ false
unfolding text_before
before_irrefl [] = refl
before_irrefl (x ∷ s) = ground (arith, before_irrefl s)

-- No entry is followed by one of a greater timestamp.
abbrev pub NewestFirst : List HistoryEntry → Type 0
NewestFirst [] = Unit
NewestFirst (e ∷ entries) =
    All (λ f. text_before e.timestamp f.timestamp ≡ false) entries × NewestFirst entries

-- The entries of one timestamp, in their order.
pub at_time : Text → List HistoryEntry → List HistoryEntry
at_time t [] = []
at_time t (e ∷ entries) =
    let rest = at_time t entries in if e.timestamp == t then e ∷ rest else rest

insert-All :
    (P : HistoryEntry → Type 0) (e : HistoryEntry) (entries : List HistoryEntry)
    → P e
    → All P entries
    → All P (insert_stable e entries)
unfolding insert_stable
insert-All P e [] h k = (h, tt)
insert-All P e (f ∷ rest) h k = elim (Bool-cases (text_before e.timestamp f.timestamp)) [
  | inl older ↦ rw older (k.0, insert-All P e rest h k.1)
  | inr newer ↦ rw newer (h, k)
]

All-before :
    (e f : HistoryEntry) (rest : List HistoryEntry)
    → text_before e.timestamp f.timestamp ≡ false
    → All (λ g. text_before f.timestamp g.timestamp ≡ false) rest
    → All (λ g. text_before e.timestamp g.timestamp ≡ false) rest
All-before e f [] h k = tt
All-before e f (g ∷ rest) h k =
    (before_trans e.timestamp f.timestamp g.timestamp h k.0, All-before e f rest h k.1)

insert-NewestFirst :
    (e : HistoryEntry) (entries : List HistoryEntry)
    → NewestFirst entries
    → NewestFirst (insert_stable e entries)
unfolding insert_stable
insert-NewestFirst e [] h = (tt, tt)
insert-NewestFirst e (f ∷ rest) h = elim (Bool-cases (text_before e.timestamp f.timestamp)) [
  | inl older ↦ rw older (
    insert-All (λ g. text_before f.timestamp g.timestamp ≡ false) e rest
        (before_asym e.timestamp f.timestamp older) h.0,
    insert-NewestFirst e rest h.1,
  )
  | inr newer ↦ rw newer ((newer, All-before e f rest newer h.0), h)
]

pub newest_first-NewestFirst : (entries : List HistoryEntry) → NewestFirst (newest_first entries)
unfolding newest_first
newest_first-NewestFirst [] = tt
newest_first-NewestFirst (e ∷ entries) =
    insert-NewestFirst e (newest_first entries) (newest_first-NewestFirst entries)

insert-at_time :
    (t : Text) (e : HistoryEntry) (entries : List HistoryEntry)
    → at_time t (insert_stable e entries) ≡ at_time t (e ∷ entries)
unfolding insert_stable at_time
insert-at_time t e [] = refl
insert-at_time t e (f ∷ rest) =
    ground
      (arith, insert-at_time t e rest, before_irrefl t, eq_iff e.timestamp t, eq_iff f.timestamp t)

pub newest_first-at_time :
    (t : Text) (entries : List HistoryEntry) → at_time t (newest_first entries) ≡ at_time t entries
unfolding newest_first at_time
newest_first-at_time t [] = refl
newest_first-at_time t (e ∷ entries) =
    insert-at_time t e (newest_first entries)
    ∙ ap (λ rest. if e.timestamp == t then e ∷ rest else rest) (newest_first-at_time t entries)
