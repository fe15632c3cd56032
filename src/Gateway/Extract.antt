-- ===== src/Gateway/Extract.antt =====
-- gatewayclient.go: extractDataHash, the search for the field in the raw JSON text.
use fabric_hris.Prelude.{
  Text, text, Bytes, has_prefix, has_prefix-append, nat_eq, ◌≡◌, ◌≢◌, refl, ap, ◌∙◌, true, Option,
  none, some, [], ◌∷◌, ◌++◌, length, drop, drop-append, All, arith, if◌then◌else◌,
}

-- The text `"dataHash":"`.
abbrev pub marker : Text
marker = b'"' ∷ (text "dataHash" ++ (b'"' ∷ b':' ∷ b'"' ∷ []))

-- s[strings.Index(s, part) + len(part):], if the part is there.
unfoldable pub after_first : Text → Text → Option Text
after_first part [] = if has_prefix [] part then some [] else none
after_first part (c ∷ s) =
    let later = after_first part s in
    if has_prefix (c ∷ s) part then some (drop (length part) (c ∷ s)) else later

-- s[:strings.Index(s, "\"")], if there is a quote.
unfoldable pub before_quote : Text → Option Text
before_quote [] = none
before_quote (c ∷ s) =
    if nat_eq c b'"'
    then some []
    else elim (before_quote s) [ none ↦ none | some found ↦ some (c ∷ found) ]

unfoldable pub extract_data_hash : Bytes → Text
unfolding after_first before_quote
extract_data_hash json = elim (after_first marker json) [
  | none ↦ []
  | some rest ↦ elim (before_quote rest) [ none ↦ [] | some found ↦ found ]
]

-- A text with no quote.
abbrev pub NoQuote : Text → Type 0
NoQuote t = All (λ c. c ≢ b'"') t

before_quote-append : (h rest : Text) → NoQuote h → before_quote (h ++ (b'"' ∷ rest)) ≡ some h
unfolding before_quote
before_quote-append [] rest n = refl
before_quote-append (c ∷ h) rest n = ground (arith, before_quote-append h rest n.1)

after_first_of_prefix :
    (part s : Text) → has_prefix s part ≡ true → after_first part s ≡ some (drop (length part) s)
unfolding after_first has_prefix
after_first_of_prefix [] [] h = refl
after_first_of_prefix (y ∷ part) [] h = absurd (ground arith)
after_first_of_prefix part (c ∷ s) h = rw h

after_first-absent : (s : Text) → NoQuote s → after_first marker s ≡ none
unfolding after_first has_prefix
after_first-absent [] n = refl
after_first-absent (c ∷ s) n = ground (arith, after_first-absent s n.1)

after_first-append :
    (front rest : Text) → NoQuote front → after_first marker (front ++ (marker ++ rest)) ≡ some rest
unfolding after_first has_prefix
after_first-append [] rest n =
    after_first_of_prefix marker (marker ++ rest) (has_prefix-append marker rest)
    ∙ ap some (drop-append marker rest)
after_first-append (c ∷ front) rest n = ground (arith, after_first-append front rest n.1)

-- The data hash is found wherever the first field name in quotes is dataHash, as in the JSON of
-- a ProfileSectionHead, and the hash has no quote.
pub extract_data_hash-finds :
    (front h rest : Text)
    → NoQuote front
    → NoQuote h
    → extract_data_hash (front ++ (marker ++ (h ++ (b'"' ∷ rest)))) ≡ h
unfolding extract_data_hash
extract_data_hash-finds front h rest n k =
    rw (after_first-append front (h ++ (b'"' ∷ rest)) n, extract_data_hash)
      (rw (before_quote-append h rest k))

-- Where the field is absent, the result is empty.
pub extract_data_hash-absent : (json : Bytes) → NoQuote json → extract_data_hash json ≡ []
unfolding extract_data_hash
extract_data_hash-absent json n = rw (after_first-absent json n, extract_data_hash)
