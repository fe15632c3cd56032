-- ===== src/Ipfs/RoundTrip.antt =====
-- ipfsclient.go: a document that was added comes back.
use fabric_hris.Prelude.{
  ℕ, Text, Bytes, ltb, ◌≡◌, inl, inr, refl, subst, ap, false, ◌++◌, length, take, drop,
  length-append, take-append, drop-append, arith,
}
use fabric_hris.Errors.{Result, ok, Result-cases}
use fabric_hris.Ipfs.{
  Cipher, Network, Client, Post, Answer, gcm_of, encrypt, decrypt, post, check_status, cat,
  add_post, pin_post, cat_post, encrypt_and_add, fetch_and_decrypt,
}
use fabric_hris.Ipfs.Requests.{encrypt_and_add-ok}

module _ {B G : Type 0} (c : Cipher B G) where
  encrypt-ok :
      (draw : ℕ → Result Bytes) (key plaintext ciphertext : Bytes)
      → encrypt c draw key plaintext ≡ ok ciphertext
      → (gcm : G) × (nonce : Bytes) × (gcm_of c key ≡ ok gcm)
        × (draw (c.nonce_size gcm) ≡ ok nonce)
        × (ciphertext ≡ nonce ++ c.seal gcm nonce plaintext)
  unfolding encrypt
  encrypt-ok draw key plaintext ciphertext e = elim (Result-cases (gcm_of c key)) [
    | inr (x, f) ↦ absurd (ground arith)
    | inl (gcm, f) ↦ elim (Result-cases (draw (c.nonce_size gcm))) [
      | inr (x, g) ↦ absurd (ground arith)
      | inl (nonce, g) ↦ (gcm, nonce, f, g, ground arith)
    ]
  ]

  decrypt_lem :
      (key nonce sealed plaintext : Bytes) (gcm : G)
      → gcm_of c key ≡ ok gcm
      → length nonce ≡ c.nonce_size gcm
      → c.open_sealed gcm nonce sealed ≡ ok plaintext
      → decrypt c key (nonce ++ sealed) ≡ ok plaintext
  unfolding decrypt
  decrypt_lem key nonce sealed plaintext gcm made size opened =
      let long : ltb (length (nonce ++ sealed)) (c.nonce_size gcm) ≡ false =
        ground (arith, length-append nonce sealed) in
      let front : take (c.nonce_size gcm) (nonce ++ sealed) ≡ nonce =
        subst (λ n. take n (nonce ++ sealed) ≡ nonce) size (take-append nonce sealed) in
      let back : drop (c.nonce_size gcm) (nonce ++ sealed) ≡ sealed =
        subst (λ n. drop n (nonce ++ sealed) ≡ sealed) size (drop-append nonce sealed) in
      rw (made, long, front, back, opened) refl

module _ {I : Type 0} (net : Network I) where
  cat_lem :
      (api cid : Text) (i i' : I) (answer : Answer)
      → net.new_request (cat_post api cid).url ≡ ok tt
      → net.send (cat_post api cid) i ≡ (ok answer, i')
      → answer.status_code ≡ 200
      → answer.read ≡ ok tt
      → cat net api cid i ≡ (ok answer.received, i')
  unfolding cat post check_status
  cat_lem api cid i i' answer formed sent good complete = rw (formed, sent, good, complete) refl

-- Where GCM opens what it sealed under a nonce of its size, rand.Read fills what it is given, and
-- the primary node goes on to serve under a CID the content that it answered that CID for: a document that EncryptAndAdd
-- returned a CID for is what FetchAndDecrypt returns for that CID and key.
pub fetch_and_decrypt-encrypt_and_add :
    {B G I : Type 0} (c : Cipher B G) (net : Network I) (client : Client)
    (Holds : I → Text → Bytes → Type 0)
    → ((gcm : G) (nonce plaintext : Bytes)
        → length nonce ≡ c.nonce_size gcm
        → c.open_sealed gcm nonce (c.seal gcm nonce plaintext) ≡ ok plaintext)
    → ((content : Bytes) (form : Text × Bytes) (answer : Answer) (cid : Text) (i i' : I)
        → net.form_of content ≡ ok form
        → net.send (add_post client.primary_api form) i ≡ (ok answer, i')
        → answer.status_code ≡ 200
        → net.decode_hash answer ≡ ok cid
        → Holds i' cid content)
    → ((cid : Text) (content : Bytes) (p : Post) (i : I)
        → Holds i cid content
        → Holds (net.send p i).1 cid content)
    → ((cid : Text) (content : Bytes) (i : I)
        → Holds i cid content
        → (answer : Answer) × (i' : I) × (net.new_request (cat_post client.primary_api cid).url
            ≡ ok tt)
          × (net.send (cat_post client.primary_api cid) i ≡ (ok answer, i'))
          × (answer.status_code ≡ 200)
          × (answer.read ≡ ok tt)
          × (answer.received ≡ content))
    → (draw : ℕ → Result Bytes)
    → ((size : ℕ) (nonce : Bytes) → draw size ≡ ok nonce → length nonce ≡ size)
    → (key plaintext : Bytes) (cid : Text) (i i' : I)
    → encrypt_and_add c net client draw key plaintext i ≡ (ok cid, i')
    → (fetch_and_decrypt c net client key cid i').0 ≡ ok plaintext
unfolding fetch_and_decrypt
fetch_and_decrypt-encrypt_and_add c net client Holds open_seal added kept served draw fills key
      plaintext cid i i' e =
    let (ciphertext, form, answer, pinned, j, encrypted, formed, sent, good, hashed, sent', good') =
      encrypt_and_add-ok c net client draw key plaintext i i' cid e in
    let (gcm, nonce, made, drawn, same) = encrypt-ok c draw key plaintext ciphertext encrypted in
    let held = added ciphertext form answer cid i j formed sent good hashed in
    let still =
      subst (λ s. Holds s cid ciphertext) (ap (λ x. x.1) sent')
        (kept cid ciphertext (pin_post client.replica_api cid) j held) in
    let (content, k, requested, sent'', good'', complete, received) =
      served cid ciphertext i' still in
    let opened =
      decrypt_lem c key nonce (c.seal gcm nonce plaintext) plaintext gcm made
        (fills (c.nonce_size gcm) nonce drawn)
        (open_seal gcm nonce plaintext (fills (c.nonce_size gcm) nonce drawn)) in
    rw
      (
        cat_lem net client.primary_api cid i' k content requested sent'' good'' complete,
        received,
        same,
      )
      opened
