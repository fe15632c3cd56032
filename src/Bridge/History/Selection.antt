-- ===== src/Bridge/History/Selection.antt =====
-- history.go: which sections a request asks for.
use fabric_hris.Prelude.{
  Text, text, ◌==◌, ◌≡◌, ◌⊎◌, inl, inr, refl, sym, ap, ◌∙◌, subst, List, [], ◌∷◌,
}
use fabric_hris.Errors.{ok}
use fabric_hris.Bridge.Reads.{is_known_profile_section}
use fabric_hris.Bridge.History.{sections_of}

-- One of the five sections.
abbrev pub IsSection : Text → Type 0
IsSection t =
    (t ≡ text "PERSONAL")
    ⊎ ((t ≡ text "EMPLOYMENT")
        ⊎ ((t ≡ text "EDUCATION") ⊎ ((t ≡ text "ADDITIONAL") ⊎ (t ≡ text "PAYROLL"))))

-- What is to be read for a trimmed section parameter: all five where it is empty, and else itself.
abbrev pub Selects : Text → List Text → Type 0
Selects requested sections =
    ((requested ≡ [])
      × (sections
          ≡ text "PERSONAL"
            ∷ text "EMPLOYMENT"
            ∷ text "EDUCATION"
            ∷ text "ADDITIONAL"
            ∷ text "PAYROLL"
            ∷ []))
    ⊎ (IsSection requested × (sections ≡ requested ∷ []))

sections_of-section : (t : Text) → IsSection t → sections_of t ≡ ok (t ∷ [])
unfolding sections_of is_known_profile_section text ◌==◌
sections_of-section t (inl e) = subst (λ t. sections_of t ≡ ok (t ∷ [])) (sym e) refl
sections_of-section t (inr (inl e)) = subst (λ t. sections_of t ≡ ok (t ∷ [])) (sym e) refl
sections_of-section t (inr (inr (inl e))) = subst (λ t. sections_of t ≡ ok (t ∷ [])) (sym e) refl
sections_of-section t (inr (inr (inr (inl e)))) =
    subst (λ t. sections_of t ≡ ok (t ∷ [])) (sym e) refl
sections_of-section t (inr (inr (inr (inr e)))) =
    subst (λ t. sections_of t ≡ ok (t ∷ [])) (sym e) refl

pub Selects-sections_of :
    (requested : Text) (sections : List Text)
    → Selects requested sections
    → sections_of requested ≡ ok sections
unfolding sections_of
Selects-sections_of requested sections (inl (absent, all)) =
    subst (λ t. sections_of t ≡ ok sections) (sym absent) (ap ok (sym all))
Selects-sections_of requested sections (inr (one, same)) =
    sections_of-section requested one ∙ ap ok (sym same)
