-- ===== src/Bridge/History/Feed.antt =====
-- history.go: what history is answered, and when.
use fabric_hris.Prelude.{
  Text, text, is_empty, Bytes, false, ◌≡◌, refl, sym, ap, ◌∙◌, subst, List, [], ◌∷◌, ◌++◌, map,
  arith, Bool-cases, inl, inr,
}
use mathlib.Core.List.{append-nil, append_assoc}
use fabric_hris.Errors.{Result, ok, err, Result-cases, ◌>>=◌}
use fabric_hris.Keystore.Interface.{Entropy}
use fabric_hris.WritePaths.Hooks.{resolve_employee_id}
use fabric_hris.Bridge.Http.{AuthConfig, Request, authenticate}
use fabric_hris.Bridge.Reads.{ChaincodeHistoryEntry}
use fabric_hris.Bridge.History.{
  HistoryEntry, found, HistoryRouteConfig, tagged, newest_first, sections_of, query_section,
  query_sections, answer_history, answer_resolved, profile_history_route,
}
use fabric_hris.Bridge.History.Selection.{Selects, Selects-sections_of}
use fabric_hris.Bridge.History.Order.{
  NewestFirst, at_time, newest_first-NewestFirst, newest_first-at_time,
}

module _ {K N : Type 0} (cfg : HistoryRouteConfig K N) where
  -- The histories of the sections, in their order, each entry with its section.
  abbrev pub Queried : Text → N → List Text → List HistoryEntry → Type 0
  Queried employee_id ledger [] entries = entries ≡ []
  Queried employee_id ledger (section ∷ sections) entries =
      (raw : Bytes) × (chunk : List ChaincodeHistoryEntry) × (rest : List HistoryEntry)
      × (cfg.history cfg.tenant_id employee_id section ledger ≡ ok raw)
      × (cfg.decode_history raw ≡ ok chunk)
      × (entries ≡ map (tagged section) chunk ++ rest)
      × Queried employee_id ledger sections rest

  query_section-ok :
      (employee_id section : Text) (ledger : N) (entries : List HistoryEntry)
      → query_section cfg employee_id ledger section ≡ ok entries
      → (raw : Bytes) × (chunk : List ChaincodeHistoryEntry) × (cfg.history cfg.tenant_id
            employee_id section ledger
          ≡ ok raw)
        × (cfg.decode_history raw ≡ ok chunk)
        × (entries ≡ map (tagged section) chunk)
  unfolding query_section
  query_section-ok employee_id section ledger entries e =
      elim (Result-cases (cfg.history cfg.tenant_id employee_id section ledger)) [
        | inr (x, f) ↦ absurd (ground arith)
        | inl (raw, f) ↦ elim (Result-cases (cfg.decode_history raw)) [
          | inr (x, g) ↦ absurd (ground arith)
          | inl (chunk, g) ↦ (raw, chunk, f, g, ground arith)
        ]
      ]

  query_section_lem :
      (employee_id section : Text) (ledger : N) (raw : Bytes) (chunk : List ChaincodeHistoryEntry)
      → cfg.history cfg.tenant_id employee_id section ledger ≡ ok raw
      → cfg.decode_history raw ≡ ok chunk
      → query_section cfg employee_id ledger section ≡ ok (map (tagged section) chunk)
  unfolding query_section
  query_section_lem employee_id section ledger raw chunk f g = rw (query_section, f, g) refl

  query_sections-ok :
      (employee_id : Text) (ledger : N) (sections : List Text) (all entries : List HistoryEntry)
      → query_sections cfg employee_id ledger all sections ≡ ok entries
      → (more : List HistoryEntry) × (entries ≡ all ++ more)
        × Queried employee_id ledger sections more
  unfolding query_sections
  query_sections-ok employee_id ledger [] all entries e = ([], ground (arith, append-nil all), refl)
  query_sections-ok employee_id ledger (section ∷ sections) all entries e =
      elim (Result-cases (query_section cfg employee_id ledger section)) [
        | inr (x, f) ↦ absurd (ground arith)
        | inl (chunk, f) ↦
            let (more, g, rest) =
              query_sections-ok employee_id ledger sections (all ++ chunk) entries (
                subst
                  (λ r.
                    (r >>= λ chunk. query_sections cfg employee_id ledger (all ++ chunk) sections)
                    ≡ ok entries)
                  f e) in
            let (raw, decoded, read, parsed, same) =
              query_section-ok employee_id section ledger chunk f in
            (
              chunk ++ more,
              g ∙ append_assoc all chunk more,
              (raw, decoded, more, read, parsed, ap (λ c. c ++ more) same, rest),
            )
      ]

  query_sections_lem :
      (employee_id : Text) (ledger : N) (sections : List Text) (all more : List HistoryEntry)
      → Queried employee_id ledger sections more
      → query_sections cfg employee_id ledger all sections ≡ ok (all ++ more)
  unfolding query_sections
  query_sections_lem employee_id ledger [] all more q =
      ap ok (sym (ap (λ more. all ++ more) q ∙ append-nil all))
  query_sections_lem employee_id ledger (section ∷ sections) all more
        (raw, chunk, rest, f, g, same, q) =
      rw (query_section_lem employee_id section ledger raw chunk f g, same)
        (query_sections_lem employee_id ledger sections (all ++ map (tagged section) chunk) rest q
          ∙ ap ok (append_assoc all (map (tagged section) chunk) rest))

  answer_history-found :
      (employee_id : Text) (ledger : N) (sections : List Text) (history : List HistoryEntry)
      → answer_history cfg employee_id ledger sections ≡ found history
      → (entries : List HistoryEntry) × Queried employee_id ledger sections entries
        × (history ≡ newest_first entries)
  unfolding answer_history
  answer_history-found employee_id ledger sections history e =
      elim (Result-cases (query_sections cfg employee_id ledger [] sections)) [
        | inr (x, f) ↦ absurd (ground arith)
        | inl (all, f) ↦
            let (entries, same, queried) = query_sections-ok employee_id ledger sections [] all f in
            (entries, queried, ground arith)
      ]

  answer_resolved-found :
      (ledger : N) (sections : List Text) (resolved : Result Text × K) (history : List HistoryEntry)
      (keys' : K)
      → answer_resolved cfg ledger sections resolved ≡ (found history, keys')
      → (employee_id : Text) × (resolved ≡ (ok employee_id, keys'))
        × (answer_history cfg employee_id ledger sections ≡ found history)
  unfolding answer_resolved
  answer_resolved-found ledger sections (err x, keys) history keys' e = absurd (ground arith)
  answer_resolved-found ledger sections (ok employee_id, keys) history keys' e =
      (employee_id, cc, cc)

  route-found :
      (auth : AuthConfig) (entropy : Entropy) (r : Request) (query : Text → Text) (ledger : N)
      (keys keys' : K) (history : List HistoryEntry)
      → profile_history_route cfg auth entropy r query ledger keys ≡ (found history, keys')
      → (sections : List Text) × (authenticate r auth ≡ ok tt)
        × (is_empty (cfg.trim_space (query (text "employeeInternalID"))) ≡ false)
        × (sections_of (cfg.trim_space (query (text "profileSection"))) ≡ ok sections)
        × (answer_resolved cfg ledger sections (
              resolve_employee_id cfg.digests cfg.keys entropy
                (cfg.trim_space (query (text "employeeInternalID")))
                (cfg.trim_space (query (text "recordIdentity")))
                keys)
            ≡ (found history, keys'))
  unfolding profile_history_route
  route-found auth entropy r query ledger keys keys' history e =
      elim (Result-cases (authenticate r auth)) [
        | inr (x, f) ↦ absurd (ground arith)
        | inl (u, f) ↦
            elim (Bool-cases (is_empty (cfg.trim_space (query (text "employeeInternalID"))))) [
              | inl blank ↦ absurd (ground arith)
              | inr named ↦
                  elim (Result-cases
                    (sections_of (cfg.trim_space (query (text "profileSection"))))) [
                      | inr (x, g) ↦ absurd (ground arith)
                      | inl (sections, g) ↦ (sections, f, named, g, ground arith)
                    ]
            ]
      ]

  -- An answer with a history: the request was authenticated, it named an employee, its section is
  -- absent or one of the five, the pseudonym was resolved, every section that was asked for was
  -- read and decoded, and the history has their entries, newest first, those of one timestamp in
  -- the order in which they were read.
  pub profile_history_route-found :
      (auth : AuthConfig) (entropy : Entropy) (r : Request) (query : Text → Text) (ledger : N)
      (keys keys' : K) (history : List HistoryEntry)
      → profile_history_route cfg auth entropy r query ledger keys ≡ (found history, keys')
      → (sections : List Text) × (employee_id : Text) × (entries : List HistoryEntry)
        × (authenticate r auth ≡ ok tt)
        × (is_empty (cfg.trim_space (query (text "employeeInternalID"))) ≡ false)
        × (sections_of (cfg.trim_space (query (text "profileSection"))) ≡ ok sections)
        × (resolve_employee_id cfg.digests cfg.keys entropy
              (cfg.trim_space (query (text "employeeInternalID")))
              (cfg.trim_space (query (text "recordIdentity")))
              keys
            ≡ (ok employee_id, keys'))
        × Queried employee_id ledger sections entries
        × NewestFirst history
        × ((t : Text) → at_time t history ≡ at_time t entries)
  profile_history_route-found auth entropy r query ledger keys keys' history e =
      let (sections, granted, named, known, answered) =
        route-found auth entropy r query ledger keys keys' history e in
      let (employee_id, resolved, read) =
        answer_resolved-found ledger sections _ history keys' answered in
      let (entries, queried, same) =
        answer_history-found employee_id ledger sections history read in
      (
        sections,
        employee_id,
        entries,
        granted,
        named,
        known,
        resolved,
        queried,
        subst NewestFirst (sym same) (newest_first-NewestFirst entries),
        λ t. ap (at_time t) same ∙ newest_first-at_time t entries,
      )

  profile_history_route_lem :
      (auth : AuthConfig) (entropy : Entropy) (r : Request) (query : Text → Text) (ledger : N)
      (keys keys' : K) (sections : List Text) (employee_id : Text) (entries : List HistoryEntry)
      → authenticate r auth ≡ ok tt
      → is_empty (cfg.trim_space (query (text "employeeInternalID"))) ≡ false
      → sections_of (cfg.trim_space (query (text "profileSection"))) ≡ ok sections
      → resolve_employee_id cfg.digests cfg.keys entropy
          (cfg.trim_space (query (text "employeeInternalID")))
          (cfg.trim_space (query (text "recordIdentity")))
          keys
        ≡ (ok employee_id, keys')
      → Queried employee_id ledger sections entries
      → profile_history_route cfg auth entropy r query ledger keys
        ≡ (found (newest_first entries), keys')
  unfolding profile_history_route answer_resolved answer_history
  profile_history_route_lem auth entropy r query ledger keys keys' sections employee_id entries
        granted named known resolved queried =
      rw
        (
          profile_history_route,
          granted,
          named,
          known,
          resolved,
          answer_resolved,
          answer_history,
          query_sections_lem employee_id ledger sections [] entries queried,
        )
        refl

  -- Where the request is authenticated, names an employee, and has no section or one of the five,
  -- the pseudonym resolves and every section's history is read and decoded, an answer with a
  -- history is given: the entries of those sections, newest first, those of one timestamp in the
  -- order in which they were read.
  pub profile_history_route-answers :
      (auth : AuthConfig) (entropy : Entropy) (r : Request) (query : Text → Text) (ledger : N)
      (keys keys' : K) (sections : List Text) (employee_id : Text) (entries : List HistoryEntry)
      → authenticate r auth ≡ ok tt
      → is_empty (cfg.trim_space (query (text "employeeInternalID"))) ≡ false
      → Selects (cfg.trim_space (query (text "profileSection"))) sections
      → resolve_employee_id cfg.digests cfg.keys entropy
          (cfg.trim_space (query (text "employeeInternalID")))
          (cfg.trim_space (query (text "recordIdentity")))
          keys
        ≡ (ok employee_id, keys')
      → Queried employee_id ledger sections entries
      → (history : List HistoryEntry) × (profile_history_route cfg auth entropy r query ledger keys
          ≡ (found history, keys'))
        × NewestFirst history
        × ((t : Text) → at_time t history ≡ at_time t entries)
  profile_history_route-answers auth entropy r query ledger keys keys' sections employee_id entries
        granted named selected resolved queried =
      (
        newest_first entries,
        profile_history_route_lem auth entropy r query ledger keys keys' sections employee_id
            entries granted named (Selects-sections_of _ sections selected) resolved queried,
        newest_first-NewestFirst entries,
        λ t. newest_first-at_time t entries,
      )
