-- ===== src/Tests/Documents.antt =====
-- The IPFS client (write-path-integration/ipfsclient) on one node that keeps one content.
use fabric_hris.Prelude.{
  ℕ, Text, text, Bytes, ◌≡◌, ◌⊎◌, refl, sym, subst, ap, ◌∙◌, zero, suc, arith, [], ◌∷◌, length,
  drop,
}
use fabric_hris.Errors.{Result, ok}
use fabric_hris.Ipfs.{
  Cipher, Network, Client, Post, Answer, gcm_of, encrypt, post, check_status, add, pin, add_post,
  cat_post, encrypt_and_add, fetch_and_decrypt,
}
use fabric_hris.Ipfs.Requests.{traced, Sent, encrypt_and_add-Sent}
use fabric_hris.Ipfs.RoundTrip.{fetch_and_decrypt-encrypt_and_add}

-- A cipher that does not hide anything, with nonces of one byte.
abbrev open_cipher : Cipher Bytes Bytes
open_cipher = record {
  new_cipher = ok;
  new_gcm = ok;
  nonce_size = λ g. 1;
  seal = λ g nonce plaintext. plaintext;
  open_sealed = λ g nonce sealed. ok sealed;
}

abbrev answering : Bytes → Answer
answering content = record { status_code = 200; received = content; read = ok tt }

-- A CID is the content itself: what a request asks for is the end of its URL, after an API of one
-- letter. The state counts the requests.
asked : Post → Bytes
asked p = elim p.content_type [ [] ↦ drop 17 p.url | x ∷ t ↦ p.body ]

abbrev node : Network ℕ
node = record {
  form_of = λ content. ok (0 ∷ [], content);
  new_request = λ url. ok tt;
  send = λ p n. (ok (answering (asked p)), suc n);
  decode_hash = λ answer. ok answer.received;
}

abbrev client : Client
client = record { primary_api = text "p"; replica_api = text "r" }

zeros : ℕ → Bytes
zeros zero = []
zeros (suc n) = 0 ∷ zeros n

abbrev draw : ℕ → Result Bytes
draw n = ok (zeros n)

zeros-length : (n : ℕ) → length (zeros n) ≡ n
unfolding zeros
zeros-length zero = refl
zeros-length (suc n) = omega (arith, zeros-length n)

abbrev key : Bytes
key = text "0123456789abcdef"

added_run :
    encrypt_and_add open_cipher node client draw key (text "doc") 0 ≡ (ok (0 ∷ text "doc"), 2)
unfolding encrypt_and_add encrypt gcm_of add pin post check_status zeros asked text
added_run = refl

encrypt_and_add-Sent_example :
    ((encrypt_and_add open_cipher (traced node) client draw key (text "doc") (0, [])).1.1 ≡ [])
    ⊎ ((ciphertext : Bytes) × (encrypt open_cipher draw key (text "doc") ≡ ok ciphertext)
        × Sent open_cipher node client ciphertext 0 []
            (encrypt_and_add open_cipher (traced node) client draw key (text "doc") (0, [])).1.1)
encrypt_and_add-Sent_example =
    encrypt_and_add-Sent open_cipher node client draw key (text "doc") 0 []

cid_of_form :
    (content : Bytes) (form : Text × Bytes) (answer : Answer) (cid : Text) (i i' : ℕ)
    → node.form_of content ≡ ok form
    → node.send (add_post client.primary_api form) i ≡ (ok answer, i')
    → answer.status_code ≡ 200
    → node.decode_hash answer ≡ ok cid
    → cid ≡ content
unfolding asked
cid_of_form content form answer cid i i' formed sent good hashed =
    let same : (0 ∷ [], content) ≡ form = cc in
    let answered : answering (asked (add_post client.primary_api form)) ≡ answer = ground arith in
    let named : answer.received ≡ cid = ground arith in
    sym named
    ∙ sym (ap (λ (a : Answer). a.received) answered)
    ∙ sym (ap (λ (f : Text × Bytes). asked (add_post client.primary_api f)) same)

asked_cid : (cid : Text) → asked (cat_post client.primary_api cid) ≡ cid
unfolding asked text
asked_cid cid = refl

fetch_and_decrypt-encrypt_and_add_example :
    (fetch_and_decrypt open_cipher node client key (0 ∷ text "doc") 2).0 ≡ ok (text "doc")
fetch_and_decrypt-encrypt_and_add_example =
    fetch_and_decrypt-encrypt_and_add open_cipher node client (λ s cid content. cid ≡ content)
      (λ gcm nonce plaintext size. refl) cid_of_form (λ cid content p i held. held)
      (λ cid content i held. (
        answering (asked (cat_post client.primary_api cid)),
        suc i,
        refl,
        refl,
        refl,
        refl,
        asked_cid cid ∙ held,
      ))
      draw (λ size nonce drawn. subst (λ b. length b ≡ size) (ground arith) (zeros-length size)) key
      (text "doc") (0 ∷ text "doc") 0 2 added_run
