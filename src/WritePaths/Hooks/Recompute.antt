-- ===== src/WritePaths/Hooks/Recompute.antt =====
-- writepaths.go with gatewayclient/verify.go: what a hook anchored, a verifier can recompute.
use fabric_hris.Prelude.{ℕ, Text, Bytes, ◌≡◌, List}
use fabric_hris.Prelude.Maps.{Map}
use fabric_hris.Errors.{Result, ok}
use fabric_hris.Keystore.Interface.{Entropy}
use fabric_hris.Keystore.Memory.{memory_employee_keys, get_salt}
use fabric_hris.Keystore.Memory.Laws.{get-put_salt, get_or_create-twice}
use fabric_hris.Gateway.Digest.{Hashing, compute_data_hash, compute_employee_id}
use fabric_hris.WritePaths.Hooks.{
  MemoryPorts, Draws, DocumentPinner, LedgerAnchorer, key_lookup_id, resolve_employee_key,
  resolve_employee_id, do_anchor, build_args, memory_hooks,
}
use fabric_hris.WritePaths.Hooks.Anchoring.{do_anchor-Anchored}

resolve_employee_id-kept :
    (digests : Hashing) (draws again : Entropy) (employee identity employee_id : Text) (key : Bytes)
    (s s' : Map Bytes)
    → memory_employee_keys.get_or_create draws (key_lookup_id employee identity) s ≡ (ok key, s')
    → compute_employee_id digests key ≡ ok employee_id
    → resolve_employee_id digests memory_employee_keys again employee identity s'
      ≡ (ok employee_id, s')
unfolding resolve_employee_id resolve_employee_key
resolve_employee_id-kept digests draws again employee identity employee_id key s s' e f =
    let (kept, gone, rest) =
      get_or_create-twice draws again (key_lookup_id employee identity) key s s' e in
    rw (kept, f)

-- After an anchor over the in-memory stores succeeded, and whatever is drawn later: the route that
-- resolves the pseudonym for the same employee and record identity gets the pseudonym that was
-- submitted and changes no key; the salt stored for the pseudonym, section and version hashes the
-- value to the data hash that was submitted; and the result is the ledger's answer to that
-- submission.
pub do_anchor-recomputes :
    {I N : Type 0} (digests : Hashing) (ipfs : DocumentPinner I) (gateway : LedgerAnchorer N)
    (tenant : Text) (marshal : List Text → Result Text) (draws : Draws)
    (employee user section identity : Text) (value : Bytes) (version : ℕ) (document : Bytes)
    (p p' : MemoryPorts I N) (result : Bytes)
    → do_anchor
        (memory_hooks digests ipfs gateway tenant marshal)
        draws
        employee
        user
        section
        identity
        value
        version
        document
        p
      ≡ (ok result, p')
    → (employee_id : Text) × (salt : Bytes) × (data_hash : Text) × (updated_by : Text)
      × (cids : Text) × ((again : Entropy)
          → resolve_employee_id digests memory_employee_keys again employee identity p'.key_state
            ≡ (ok employee_id, p'.key_state))
      × (get_salt employee_id section version p'.salt_state ≡ ok salt)
      × (compute_data_hash digests salt value ≡ ok data_hash)
      × (gateway.submit_record_profile_section tenant employee_id section
            (build_args
              (memory_hooks digests ipfs gateway tenant marshal)
              employee_id
              section
              data_hash
              updated_by
              cids)
            p.ledger_state
          ≡ (ok result, p'.ledger_state))
do_anchor-recomputes digests ipfs gateway tenant marshal draws employee user section identity value
      version document p p' result e =
    let a =
      do_anchor-Anchored (memory_hooks digests ipfs gateway tenant marshal) draws employee user
        section identity value version document p p' result e in
    let (read, others, again) =
      get-put_salt draws.for_salt a.employee_id section version a.salt p.salt_state p'.salt_state
        a.salted in
    (
      a.employee_id,
      a.salt,
      a.submission.data_hash,
      a.submission.updated_by,
      a.submission.cids,
      λ again.
          resolve_employee_id-kept digests draws.for_key again employee identity a.employee_id a.key
            p.key_state p'.key_state a.resolved a.pseudonym,
      read,
      a.submission.hashed,
      a.submission.submitted,
    )
