-- ===== src/Tools/Ccdeploy/PackageId.antt =====
-- ccdeploy/main.go: which package ID queryPackageID reads off the list of installed chaincodes.
use fabric_hris.Prelude.{
  ℕ, Text, text, contains, has_prefix, has_prefix-append, length, ◌≡◌, refl, ap, ◌∙◌, true, false,
  none, some, List, [], ◌∷◌, ◌++◌, All, arith,
}
use fabric_hris.Tools.Ccdeploy.{
  package_label, split_from, split, second_of_two, before_comma, package_id_of, find_package_id,
}

-- A text without the separator is one part.
split_from-one : (sep s : Text) → contains s sep ≡ false → split_from sep 0 s ≡ s ∷ []
unfolding split_from contains
split_from-one sep [] h = refl
split_from-one sep (x ∷ xs) h = ground (arith, split_from-one sep xs)

split_from-skip : (sep a s : Text) → split_from sep (length a) (a ++ s) ≡ split_from sep 0 s
unfolding split_from
split_from-skip sep [] s = refl
split_from-skip sep (x ∷ a) s = split_from-skip sep a s

-- After a separator at the start there is the empty part, and then the parts of the rest.
split-separator : (x : ℕ) (xs s : Text) → split ((x ∷ xs) ++ s) (x ∷ xs) ≡ [] ∷ split s (x ∷ xs)
unfolding split_from
split-separator x xs s = ground (arith, has_prefix-append (x ∷ xs) s, split_from-skip (x ∷ xs) xs s)

before_comma-append :
    (id rest : Text) → contains id (text ",") ≡ false → before_comma (id ++ (text "," ++ rest)) ≡ id
unfolding before_comma contains has_prefix text
before_comma-append [] rest h = refl
before_comma-append (x ∷ id) rest h = ground (arith, before_comma-append id rest)

abbrev pub package_line : Text → Text → Text
package_line id rest = text "Package ID: " ++ (id ++ (text "," ++ rest))

-- The two parts of such a line.
split_line :
    (id rest : Text)
    → contains (id ++ (text "," ++ rest)) (text "Package ID: ") ≡ false
    → split (package_line id rest) (text "Package ID: ") ≡ [] ∷ (id ++ (text "," ++ rest)) ∷ []
unfolding text
split_line id rest one =
    split-separator 80 (text "ackage ID: ") (id ++ (text "," ++ rest))
    ∙ ap (λ parts. [] ∷ parts) (split_from-one (text "Package ID: ") (id ++ (text "," ++ rest)) one)

module _ (trim_space : Text → Text) where
  package_id_of-none :
      (line : Text) → contains line package_label ≡ false → package_id_of trim_space line ≡ none
  unfolding package_id_of
  package_id_of-none line h = rw (package_id_of, h) refl

  package_id_of-parts :
      (line part : Text)
      → contains line package_label ≡ true
      → split line (text "Package ID: ") ≡ [] ∷ part ∷ []
      → package_id_of trim_space line ≡ some (trim_space (before_comma part))
  unfolding package_id_of second_of_two
  package_id_of-parts line part labelled parts = rw (package_id_of, labelled, parts) refl

  package_id_of-line :
      (id rest : Text)
      → contains (package_line id rest) package_label ≡ true
      → contains (id ++ (text "," ++ rest)) (text "Package ID: ") ≡ false
      → contains id (text ",") ≡ false
      → trim_space id ≡ id
      → package_id_of trim_space (package_line id rest) ≡ some id
  package_id_of-line id rest labelled one no_comma trimmed =
      package_id_of-parts (package_line id rest) (id ++ (text "," ++ rest)) labelled
        (split_line id rest one)
      ∙ ap (λ t. some (trim_space t)) (before_comma-append id rest no_comma)
      ∙ ap some trimmed

  -- The package ID that is found is the one of the first line that has the label: where that line
  -- is "Package ID: <id>," and more, the ID has neither a comma nor a space around it, and
  -- there is no second "Package ID: " in the line.
  pub find_package_id-first :
      (before after : List Text) (id rest : Text)
      → All (λ line. contains line package_label ≡ false) before
      → contains (package_line id rest) package_label ≡ true
      → contains (id ++ (text "," ++ rest)) (text "Package ID: ") ≡ false
      → contains id (text ",") ≡ false
      → trim_space id ≡ id
      → find_package_id trim_space (before ++ (package_line id rest ∷ after)) ≡ some id
  unfolding find_package_id
  find_package_id-first [] after id rest others labelled one no_comma trimmed =
      rw (find_package_id, package_id_of-line id rest labelled one no_comma trimmed) refl
  find_package_id-first (line ∷ before) after id rest (other, others) labelled one no_comma
        trimmed =
      rw (find_package_id, package_id_of-none line other)
        (find_package_id-first before after id rest others labelled one no_comma trimmed)
