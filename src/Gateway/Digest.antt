-- ===== src/Gateway/Digest.antt =====
-- digestbuilder.go: the off-chain digests. SHA-256, HMAC, hexadecimal and the JSON canonicalizer
-- are code outside the repository, the fields of `Hashing`.
use fabric_hris.Prelude.{
  ℕ, Text, text, Bytes, ◌≡◌, ◌≢◌, sym, ◌∙◌, ◌++◌, length, ltb, is_empty, arith, append_cancel_left,
  if◌then◌else◌, inl, inr,
}
use fabric_hris.Errors.{
  Result, ok, err, Result-cases, sentinel, salt_too_short, empty_employee_key, wrapping, ◌>>=◌,
}

pub record Hashing : Type 0 where
  -- jsoncanonicalizer.Transform
  pub canonicalize : Bytes → Result Bytes
  pub sha256 : Bytes → Bytes
  -- key, message
  pub hmac_sha256 : Bytes → Bytes → Bytes
  -- hex.EncodeToString
  pub hex : Bytes → Text

abbrev pub canonicalization_version : Text
canonicalization_version = text "JCS-RFC8785-v1"

abbrev pub hash_algo : Text
hash_algo = text "SHA-256"

abbrev pub min_salt_bytes : ℕ
min_salt_bytes = 16

module _ (d : Hashing) where
  unfoldable pub compute_data_hash : Bytes → Bytes → Result Text
  compute_data_hash salt section =
      if ltb (length salt) min_salt_bytes then err (sentinel salt_too_short) else do
        canonical ← wrapping (text "gatewayclient: canonicalizing section") (d.canonicalize section)
        ok (text "sha256:" ++ d.hex (d.sha256 (salt ++ canonical)))

  unfoldable pub compute_employee_id : Bytes → Result Text
  compute_employee_id key =
      if is_empty key
      then err (sentinel empty_employee_key)
      else ok (d.hex (d.hmac_sha256 key (text "id")))

  unfoldable pub compute_updated_by : Bytes → Text → Result Text
  compute_updated_by key user =
      if is_empty key
      then err (sentinel empty_employee_key)
      else ok (d.hex (d.hmac_sha256 key (text "actor" ++ user)))

  compute_data_hash-ok :
      (salt section : Bytes) (h : Text)
      → compute_data_hash salt section ≡ ok h
      → (canonical : Bytes) × (d.canonicalize section ≡ ok canonical)
        × (h ≡ text "sha256:" ++ d.hex (d.sha256 (salt ++ canonical)))
  unfolding compute_data_hash
  compute_data_hash-ok salt section h e = elim (Result-cases (d.canonicalize section)) [
    | inr (x, f) ↦ absurd (ground arith)
    | inl (canonical, f) ↦ (canonical, f, ground arith)
  ]

  -- Where hexadecimal is injective: two values whose data hashes agree under one salt and whose
  -- canonical forms differ show a collision of SHA-256.
  pub compute_data_hash-binding :
      ((x y : Bytes) → d.hex x ≡ d.hex y → x ≡ y)
      → (salt section other canonical other_canonical : Bytes) (h : Text)
      → compute_data_hash salt section ≡ ok h
      → compute_data_hash salt other ≡ ok h
      → d.canonicalize section ≡ ok canonical
      → d.canonicalize other ≡ ok other_canonical
      → canonical ≢ other_canonical
      → (x : Bytes) × (y : Bytes) × (x ≢ y) × (d.sha256 x ≡ d.sha256 y)
  compute_data_hash-binding hex_injective salt section other canonical other_canonical h e e' f f'
        differ =
      let (c, g, k) = compute_data_hash-ok salt section h e in
      let (c', g', k') = compute_data_hash-ok salt other h e' in
      let p : c ≡ canonical = cc in
      let p' : c' ≡ other_canonical = cc in
      (
        salt ++ c,
        salt ++ c',
        λ same. differ (sym p ∙ append_cancel_left salt c c' same ∙ p'),
        hex_injective _ _ (append_cancel_left (text "sha256:") _ _ (sym k ∙ k')),
      )

  -- The hash depends on the value through its canonical form only.
  pub compute_data_hash-canonical :
      (salt section other canonical : Bytes)
      → d.canonicalize section ≡ ok canonical
      → d.canonicalize other ≡ ok canonical
      → compute_data_hash salt section ≡ compute_data_hash salt other
  unfolding compute_data_hash
  compute_data_hash-canonical salt section other canonical e f = rw (e, f)
