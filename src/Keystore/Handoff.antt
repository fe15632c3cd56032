-- ===== src/Keystore/Handoff.antt =====
-- handoff.go: the audited path by which a verifier gets a salt.
use fabric_hris.Prelude.{
  ℕ, Text, text, Bytes, ◌≡◌, ◌↔◌, Bool, true, false, List, [], ◌∷◌, ◌++◌, arith,
}
use fabric_hris.Errors.{GoError, Result, ok, err, context, sentinel, salt_access_denied}
use fabric_hris.Exec.{Exec}

pub record AuditEntry : Type 0 where
  pub requester_id : Text
  pub employee_id : Text
  pub profile_section : Text
  pub version : ℕ
  pub granted : Bool
  pub reason : Text

-- AuditLog: what Record leaves in the log, and the error that it returns.
pub record AuditLog (L : Type 0) : Type 0 where
  pub write : AuditEntry → Exec L (Unit {0})

-- InMemoryAuditLog: its entries in the order in which they were recorded.
unfoldable pub record_entry : AuditEntry → Exec (List AuditEntry) (Unit {0})
record_entry entry entries = (ok tt, entries ++ (entry ∷ []))

abbrev pub memory_audit_log : AuditLog (List AuditEntry)
memory_audit_log = record { write = record_entry }

-- SaltHandoff: the policy, the salts, and the text of an error (err.Error()).
pub record SaltHandoff (L : Type 0) : Type 0 where
  pub authorize : Text → Text → Text → ℕ → Result Bool
  pub get_salt : Text → Text → ℕ → Result Bytes
  pub audit_log : AuditLog L
  pub error_text : GoError → Text

abbrev pub not_in_scope : Text
not_in_scope = text "requester is not the record's employee and not an in-scope auditor"

module _ {L : Type 0} (h : SaltHandoff L) where
  -- The error of Record is dropped.
  unfoldable pub audit : Text → Text → Text → ℕ → Bool → Text → L → L
  audit requester employee section version granted reason log =
      (h.audit_log.write
        (record {
          requester_id = requester;
          employee_id = employee;
          profile_section = section;
          version = version;
          granted = granted;
          reason = reason;
        })
        log).1

  unfoldable pub request_salt : Text → Text → Text → ℕ → Exec L Bytes
  request_salt requester employee section version log =
      elim (h.authorize requester employee section version) [
        | err e ↦ (
          err (
              context (text "keystore: salt access authorization check failed, failing closed") []
                e),
          audit requester employee section version false (h.error_text e) log,
        )
        | ok false ↦ (
          err (sentinel salt_access_denied),
          audit requester employee section version false not_in_scope log,
        )
        | ok true ↦ elim (h.get_salt employee section version) [
          | err e ↦ (err e, log)
          | ok salt ↦ (ok salt, audit requester employee section version true [] log)
        ]
      ]

  -- A salt is handed out exactly where the policy says yes and the salt exists; an error of the
  -- policy check is a refusal.
  pub request_salt-ok_iff :
      (requester employee section : Text) (version : ℕ) (salt : Bytes) (log : L)
      → ((request_salt requester employee section version log).0 ≡ ok salt) ↔ (
          (h.authorize requester employee section version ≡ ok true)
          × (h.get_salt employee section version ≡ ok salt))
  unfolding request_salt
  request_salt-ok_iff requester employee section version salt log =
      (λ e. ground arith, λ e. ground arith)

-- Over the in-memory log: the entries that a request adds.
module _ (h : SaltHandoff (List AuditEntry)) (in_memory : h.audit_log ≡ memory_audit_log)
    (requester employee section : Text) (version : ℕ) (log : List AuditEntry) where
  abbrev pub entry : Bool → Text → AuditEntry
  entry granted reason = record {
    requester_id = requester;
    employee_id = employee;
    profile_section = section;
    version = version;
    granted = granted;
    reason = reason;
  }

  audit-append :
      (granted : Bool) (reason : Text)
      → audit h requester employee section version granted reason log
        ≡ log ++ (entry granted reason ∷ [])
  unfolding audit record_entry
  audit-append granted reason = rw in_memory

  -- Each request leaves the log as the decision wants it: one entry that grants where a salt was
  -- handed out, one entry that denies where the policy refused or failed, and no entry where the
  -- caller was authorised but no salt exists. Earlier entries stay.
  pub request_salt-audit :
      ((salt : Bytes)
        → (request_salt h requester employee section version log).0 ≡ ok salt
        → (request_salt h requester employee section version log).1 ≡ log ++ (entry true [] ∷ []))
      × (h.authorize requester employee section version ≡ ok false
          → ((request_salt h requester employee section version log).0
              ≡ err (sentinel salt_access_denied))
            × ((request_salt h requester employee section version log).1
                ≡ log ++ (entry false not_in_scope ∷ [])))
      × ((e : GoError)
          → h.authorize requester employee section version ≡ err e
          → (request_salt h requester employee section version log).1
            ≡ log ++ (entry false (h.error_text e) ∷ []))
      × ((e : GoError)
          → h.authorize requester employee section version ≡ ok true
          → h.get_salt employee section version ≡ err e
          → request_salt h requester employee section version log ≡ (err e, log))
  unfolding request_salt
  request_salt-audit = (
    λ salt e. ground (arith, audit-append true []),
    λ e. (ground arith, ground (arith, audit-append false not_in_scope)),
    λ e f. ground (arith, audit-append false (h.error_text e)),
    λ e f g. ground arith,
  )
