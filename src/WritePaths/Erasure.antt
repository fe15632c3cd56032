-- ===== src/WritePaths/Erasure.antt =====
-- erasure.go: the crypto-shred of one employee.
pub mod Complete
use fabric_hris.Prelude.{Text, text, List, [], ◌∷◌}
use fabric_hris.Errors.{wrapping}
use fabric_hris.Exec.{Exec, lift, done, wrapping_exec, ◌>>=◌, ◌>>◌}
use fabric_hris.Gateway.Digest.{compute_employee_id}
use fabric_hris.WritePaths.Store.{all_profile_sections}
use fabric_hris.WritePaths.Hooks.{
  Hooks, World, Draws, on_store, on_ports, on_keys, on_salts, on_document_keys,
}

module _ {O K S D I N : Type 0} (h : Hooks O K S D I N) where
  -- Step 1, the loop over the sections.
  unfoldable pub delete_sections : Text → List Text → Exec (World O K S D I N) (Unit {0})
  delete_sections employee [] w = done tt w
  delete_sections employee (section ∷ sections) w =
      (on_store (
            wrapping_exec (text "writepaths: erasure step 1 (operational-DB field, %s)")
              (h.store.delete_section employee section))
          >> delete_sections employee sections)
        w

  unfoldable pub erase : Draws → Text → Exec (World O K S D I N) (Unit {0})
  unfolding delete_sections
  erase draws employee = do
    delete_sections employee all_profile_sections
    on_ports (
        on_document_keys (
          wrapping_exec (text "writepaths: erasure step 2 (KEY_EMPLOYEE)")
            (h.document_keys.delete_key draws.for_document_key employee)))
    key ← on_ports (
        on_keys (
          wrapping_exec
            (text
              "writepaths: erasure — fetching employeeKey_i to derive EmployeeID before destroying it")
            (h.keys.get_or_create draws.for_key employee)))
    employee_id ← lift (
        wrapping (text "writepaths: erasure — deriving EmployeeID")
          (compute_employee_id h.digests key))
    on_ports (
        on_salts (
          wrapping_exec (text "writepaths: erasure step 3 (DataHash salts)")
            (h.salts.delete_all_salts_for_employee draws.for_salt employee_id)))
    on_ports (
        on_keys (
          wrapping_exec (text "writepaths: erasure step 4 (employeeKey_i)")
            (h.keys.delete_key draws.for_pin employee)))
