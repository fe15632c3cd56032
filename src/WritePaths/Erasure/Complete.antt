-- ===== src/WritePaths/Erasure/Complete.antt =====
-- erasure.go over the in-memory stores: what an erasure removes and what it leaves.
use fabric_hris.Prelude.{
  ℕ, Text, Bytes, eq_refl, eq_iff, ◌≡◌, ◌≢◌, refl, sym, ◌∙◌, ap, false, none, some, List, [], ◌∷◌,
  if◌then◌else◌, ◌==◌, ◌++◌, All, arith, length, length-append,
}
use fabric_hris.Prelude.Maps.{Map, lookup, delete, lookup-delete}
use fabric_hris.Errors.{Result, ok}
use fabric_hris.Keystore.Memory.{
  find_salt, drop_employee, get_or_create_employee_key, delete_employee_key, delete_document_key,
  delete_all_salts_for_employee,
}
use fabric_hris.Keystore.Memory.Laws.{key_of, find_salt-drop_employee}
use fabric_hris.Gateway.Digest.{Hashing, compute_employee_id}
use fabric_hris.WritePaths.Store.{
  all_profile_sections, section_key, memory_delete_section, has_value,
}
use fabric_hris.WritePaths.Hooks.{
  MemoryWorld, Draws, DocumentPinner, LedgerAnchorer, key_lookup_id, memory_hooks,
}
use fabric_hris.WritePaths.Erasure.{delete_sections, erase}

delete_keys : Text → List Text → Map Bytes → Map Bytes
delete_keys employee [] values = values
delete_keys employee (section ∷ sections) values =
    delete_keys employee sections (delete (section_key employee section) values)

delete_keys-absent :
    (employee : Text) (sections : List Text) (k : Text) (values : Map Bytes)
    → lookup k values ≡ none
    → lookup k (delete_keys employee sections values) ≡ none
unfolding delete_keys
delete_keys-absent employee [] k values e = e
delete_keys-absent employee (section ∷ sections) k values e =
    delete_keys-absent employee sections k (delete (section_key employee section) values)
      (ground (arith, lookup-delete (section_key employee section) k values))

delete_keys-All :
    (employee : Text) (sections : List Text) (values : Map Bytes)
    → All
        (λ section.
          lookup (section_key employee section) (delete_keys employee sections values) ≡ none)
        sections
unfolding delete_keys
delete_keys-All employee [] values = tt
delete_keys-All employee (section ∷ sections) values = (
  delete_keys-absent employee sections (section_key employee section)
      (delete (section_key employee section) values) (rw (lookup-delete, eq_refl)),
  delete_keys-All employee sections (delete (section_key employee section) values),
)

grows : (s : Text) (x : ℕ) (t : Text) → s ++ (x ∷ t) ≢ s
grows s x t e = absurd (omega (arith, ap length e, length-append s (x ∷ t)))

key_lookup_id-compound :
    (employee identity : Text) → identity ≢ [] → key_lookup_id employee identity ≢ employee
unfolding key_lookup_id
key_lookup_id-compound employee [] ne = absurd (ne refl)
key_lookup_id-compound employee (x ∷ identity) ne = λ e. grows employee 0 (x ∷ identity) e

compound_kept :
    (employee identity : Text) (keys : Map Bytes)
    → identity ≢ []
    → lookup (key_lookup_id employee identity) (delete employee keys)
      ≡ lookup (key_lookup_id employee identity) keys
compound_kept employee identity keys ne = ground (
  arith,
  lookup-delete employee (key_lookup_id employee identity) keys,
  eq_iff (key_lookup_id employee identity) employee,
  key_lookup_id-compound employee identity ne,
)

module _ {I N : Type 0} (digests : Hashing) (ipfs : DocumentPinner I) (gateway : LedgerAnchorer N)
    (tenant : Text) (marshal : List Text → Result Text) where
  delete_sections-memory :
      (employee : Text) (sections : List Text) (w : MemoryWorld I N)
      → delete_sections (memory_hooks digests ipfs gateway tenant marshal) employee sections w ≡ (
        ok tt,
        record w {
          store_state = record w.store_state {
            values = delete_keys employee sections w.store_state.values;
          };
        },
      )
  unfolding delete_sections memory_delete_section delete_keys
  delete_sections-memory employee [] w = refl
  delete_sections-memory employee (section ∷ sections) w =
      delete_sections-memory employee sections (record w {
        store_state = record w.store_state {
          values = delete (section_key employee section) w.store_state.values;
        };
      })

  -- What is left of the states after an erasure.
  abbrev erased : Text → Text → MemoryWorld I N → MemoryWorld I N
  erased employee employee_id w = record w {
    store_state = record w.store_state {
      values = delete_keys employee all_profile_sections w.store_state.values;
    };
    ports = record w.ports {
      key_state = delete employee w.ports.key_state;
      salt_state = drop_employee employee_id w.ports.salt_state;
      document_key_state = delete employee w.ports.document_key_state;
    };
  }

  erase-erased :
      (draws : Draws) (employee employee_id : Text) (key : Bytes) (w : MemoryWorld I N)
      → lookup employee w.ports.key_state ≡ some key
      → compute_employee_id digests key ≡ ok employee_id
      → erase (memory_hooks digests ipfs gateway tenant marshal) draws employee w
        ≡ (ok tt, erased employee employee_id w)
  unfolding erase delete_document_key get_or_create_employee_key delete_employee_key
      delete_all_salts_for_employee lookup delete_keys delete drop_employee
  erase-erased draws employee employee_id key w e f =
      rw (delete_sections-memory employee all_profile_sections w, e, f) refl

  has_value-erased :
      (employee : Text) (sections : List Text) (values : Map Bytes) (versions : Map ℕ)
      → All (λ section. lookup (section_key employee section) values ≡ none) sections
      → All
          (λ section.
            has_value employee section (record { versions = versions; values = values }) ≡ false)
          sections
  unfolding has_value
  has_value-erased employee [] values versions e = tt
  has_value-erased employee (section ∷ sections) values versions (e, rest) =
      (rw (has_value, e), has_value-erased employee sections values versions rest)

  -- Over the in-memory stores, where the employee has a key and the key has a pseudonym: Erase
  -- succeeds; after it no section
  -- has a value, no document key, no salt of the pseudonym in any section and version and no
  -- employee key is left, and the ledger and the pinned documents are as before.
  pub erase_complete :
      (draws : Draws) (employee employee_id : Text) (key : Bytes) (w : MemoryWorld I N)
      → lookup employee w.ports.key_state ≡ some key
      → compute_employee_id digests key ≡ ok employee_id
      → (w' : MemoryWorld I N) × (erase
            (memory_hooks digests ipfs gateway tenant marshal)
            draws
            employee
            w
          ≡ (ok tt, w'))
        × (All (λ section. has_value employee section w'.store_state ≡ false) all_profile_sections)
        × (lookup employee w'.ports.document_key_state ≡ none)
        × ((section : Text) (version : ℕ)
            → find_salt (key_of employee_id section version) w'.ports.salt_state ≡ none)
        × (lookup employee w'.ports.key_state ≡ none)
        × (w'.ports.ledger_state ≡ w.ports.ledger_state)
        × (w'.ports.pin_state ≡ w.ports.pin_state)
  erase_complete draws employee employee_id key w e f =
      let gone = delete_keys-All employee all_profile_sections w.store_state.values in
      (
        erased employee employee_id w,
        erase-erased draws employee employee_id key w e f,
        has_value-erased employee all_profile_sections
            (delete_keys employee all_profile_sections w.store_state.values) w.store_state.versions
            gone,
        rw (lookup-delete, eq_refl),
        λ section version. rw (find_salt-drop_employee, eq_refl),
        rw (lookup-delete, eq_refl),
        refl,
        refl,
      )

  -- Over the in-memory stores: Erase reaches the employee's own key and the salts of its pseudonym only: the key of every
  -- compound record identity of the employee is as before, and so is every salt of every other
  -- pseudonym, the compound identities' included.
  pub erase-compound_kept :
      (draws : Draws) (employee employee_id identity : Text) (key : Bytes) (w w' : MemoryWorld I N)
      → lookup employee w.ports.key_state ≡ some key
      → compute_employee_id digests key ≡ ok employee_id
      → erase (memory_hooks digests ipfs gateway tenant marshal) draws employee w ≡ (ok tt, w')
      → identity ≢ []
      → (lookup (key_lookup_id employee identity) w'.ports.key_state
          ≡ lookup (key_lookup_id employee identity) w.ports.key_state)
        × ((other_id section : Text) (version : ℕ)
            → find_salt (key_of other_id section version) w'.ports.salt_state ≡ (
                if other_id == employee_id
                then none
                else find_salt (key_of other_id section version) w.ports.salt_state))
  erase-compound_kept draws employee employee_id identity key w w' e f h ne =
      let same : w' ≡ erased employee employee_id w =
        ap (λ x. x.1) (sym h ∙ erase-erased draws employee employee_id key w e f) in
      (
        rw (ap (λ x. x.ports.key_state) same)
            (compound_kept employee identity w.ports.key_state ne),
        λ other_id section version. rw (ap (λ x. x.ports.salt_state) same) (
            find_salt-drop_employee employee_id (key_of other_id section version)
              w.ports.salt_state),
      )
