-- ===== src/Ipfs/Requests.antt =====
-- ipfsclient.go: the requests that the client sends.
use fabric_hris.Prelude.{
  ℕ, Text, text, Bytes, nat_eq_iff, ◌≡◌, ◌⊎◌, inl, inr, refl, sym, subst, ap, ◌∙◌, List, [], ◌∷◌,
  ◌++◌, arith,
}
use mathlib.Core.List.{append_assoc}
use fabric_hris.Errors.{GoError, Result, ok, err, Result-cases, wrapping}
use fabric_hris.Exec.{
  Exec, and_then, and_then-ok, lift, lift_then-ok, and_then-lift-state, and_then-cases,
  wrapping_exec, done, ◌>>=◌,
}
use fabric_hris.Errors
use fabric_hris.Ipfs.{
  Cipher, Network, Client, Post, Answer, encrypt, post, check_status, add, pin, add_post, pin_post,
  encrypt_and_add, add_step, pin_step,
}

wrapping-ok :
    {A : Type 0} (format : Text) (r : Result A) (a : A) → wrapping format r ≡ ok a → r ≡ ok a
wrapping-ok format (ok b) a e = e
wrapping-ok format (err x) a e = absurd (ground arith)

wrapping_exec-ok :
    {S A : Type 0} (format : Text) (action : Exec S A) (s s' : S) (a : A)
    → wrapping_exec format action s ≡ (ok a, s')
    → action s ≡ (ok a, s')
wrapping_exec-ok format action s s' a e =
    λ t. (wrapping-ok format (action s).0 a (ap (λ x. x.0) e) t, ap (λ x. x.1) e t)

-- A check and what follows it, where both succeeded.
check_status_then-ok :
    {A : Type 0} (format : Text) (answer : Answer) (next : Result A) (a : A)
    → Errors.◌>>◌ (check_status format answer) next ≡ ok a
    → (answer.status_code ≡ 200) × (next ≡ ok a)
unfolding check_status
check_status_then-ok format answer next a e = ground (arith, nat_eq_iff answer.status_code 200)

check_status-ok :
    (format : Text) (answer : Answer) (u : Unit)
    → check_status format answer ≡ ok u
    → answer.status_code ≡ 200
unfolding check_status
check_status-ok format answer u e = ground (arith, nat_eq_iff answer.status_code 200)

module _ {I : Type 0} (net : Network I) where
  post-ok :
      (p : Post) (i i' : I) (answer : Answer)
      → post net p i ≡ (ok answer, i')
      → net.send p i ≡ (ok answer, i')
  unfolding post
  post-ok p i i' answer e =
      let (u, f, sent) = lift_then-ok (net.new_request p.url) (λ u. net.send p) answer i i' e in
      sent

  abbrev hash_of : Answer → Result Text
  hash_of answer =
      Errors.◌>>◌ (check_status (text "add: status %d: %s") answer) (net.decode_hash answer)

  -- What an add that succeeded did.
  pub add-ok :
      (api : Text) (content : Bytes) (i i' : I) (cid : Text)
      → add net api content i ≡ (ok cid, i')
      → (form : Text × Bytes) × (answer : Answer) × (net.form_of content ≡ ok form)
        × (net.send (add_post api form) i ≡ (ok answer, i'))
        × (answer.status_code ≡ 200)
        × (net.decode_hash answer ≡ ok cid)
  unfolding add
  add-ok api content i i' cid e =
      let (form, formed, e') =
        lift_then-ok (net.form_of content)
          (λ form. post net (add_post api form) >>= λ answer. lift (hash_of answer)) cid i i' e in
      let (answer, j, sent, read) =
        and_then-ok (post net (add_post api form) i) (λ answer. lift (hash_of answer)) cid i' e' in
      let (good, hashed) =
        check_status_then-ok (text "add: status %d: %s") answer (net.decode_hash answer) cid
          (ap (λ x. x.0) read) in
      (
        form,
        answer,
        formed,
        post-ok (add_post api form) i i' answer
            (sent ∙ ap (λ j. (ok answer, j)) (ap (λ x. x.1) read)),
        good,
        hashed,
      )

  pub pin-ok :
      (api cid : Text) (i i' : I) (u : Unit)
      → pin net api cid i ≡ (ok u, i')
      → (answer : Answer) × (net.send (pin_post api cid) i ≡ (ok answer, i'))
        × (answer.status_code ≡ 200)
  unfolding pin
  pin-ok api cid i i' u e =
      let (answer, j, sent, read) =
        and_then-ok (post net (pin_post api cid) i)
          (λ answer. lift (check_status (text "pin/add: status %d: %s") answer)) u i' e in
      (
        answer,
        post-ok (pin_post api cid) i i' answer
            (sent ∙ ap (λ j. (ok answer, j)) (ap (λ x. x.1) read)),
        check_status-ok (text "pin/add: status %d: %s") answer u (ap (λ x. x.0) read),
      )

-- The network that writes down what is sent.
abbrev pub traced : {I : Type 0} → Network I → Network (I × List Post)
traced net = record {
  form_of = net.form_of;
  new_request = net.new_request;
  send = λ p (i, log). let (r, i') = net.send p i in (r, (i', log ++ (p ∷ [])));
  decode_hash = net.decode_hash;
}

module _ {I : Type 0} (net : Network I) where
  post-sent :
      (p : Post) (i : I) (log : List Post)
      → ((post (traced net) p (i, log)).1.1 ≡ log)
        ⊎ ((post (traced net) p (i, log)).1.1 ≡ log ++ (p ∷ []))
  unfolding post
  post-sent p i log = elim (Result-cases (net.new_request p.url)) [
    | inr (e, f) ↦ inl (rw f refl)
    | inl (u, f) ↦ inr (rw f refl)
  ]

  add-sent :
      (api : Text) (content : Bytes) (i : I) (log : List Post)
      → ((add (traced net) api content (i, log)).1.1 ≡ log)
        ⊎ ((form : Text × Bytes) × (net.form_of content ≡ ok form)
            × ((add (traced net) api content (i, log)).1.1 ≡ log ++ (add_post api form ∷ [])))
  unfolding add
  add-sent api content i log = elim (Result-cases (net.form_of content)) [
    | inr (e, f) ↦ inl (rw f refl)
    | inl (form, f) ↦
        let kept =
          ap (λ s. s.1)
            (and_then-lift-state (post (traced net) (add_post api form) (i, log))
              (hash_of (traced net))) in
        elim (post-sent (add_post api form) i log) [
          | inl same ↦ inl (rw f (kept ∙ same))
          | inr more ↦ inr (form, f, rw f (kept ∙ more))
        ]
  ]

  pin-sent :
      (api cid : Text) (i : I) (log : List Post)
      → ((pin (traced net) api cid (i, log)).1.1 ≡ log)
        ⊎ ((pin (traced net) api cid (i, log)).1.1 ≡ log ++ (pin_post api cid ∷ []))
  unfolding pin
  pin-sent api cid i log =
      let kept =
        ap (λ s. s.1)
          (and_then-lift-state (post (traced net) (pin_post api cid) (i, log))
            (check_status (text "pin/add: status %d: %s"))) in
      elim (post-sent (pin_post api cid) i log) [
        | inl same ↦ inl (kept ∙ same)
        | inr more ↦ inr (kept ∙ more)
      ]

module _ {B G I : Type 0} (c : Cipher B G) (net : Network I) (client : Client) where
  abbrev finish : Text → Exec I Text
  finish cid = pin_step c net client cid >>= λ u. done cid

  -- An EncryptAndAdd that returned a CID: the document was encrypted, the primary node answered the
  -- form of the ciphertext with status 200 and that CID, and then the replica answered the request
  -- to pin that CID with status 200.
  pub encrypt_and_add-ok :
      (draw : ℕ → Result Bytes) (key plaintext : Bytes) (i i' : I) (cid : Text)
      → encrypt_and_add c net client draw key plaintext i ≡ (ok cid, i')
      → (ciphertext : Bytes) × (form : Text × Bytes) × (added pinned : Answer) × (j : I) × (encrypt
            c draw key plaintext
          ≡ ok ciphertext)
        × (net.form_of ciphertext ≡ ok form)
        × (net.send (add_post client.primary_api form) i ≡ (ok added, j))
        × (added.status_code ≡ 200)
        × (net.decode_hash added ≡ ok cid)
        × (net.send (pin_post client.replica_api cid) j ≡ (ok pinned, i'))
        × (pinned.status_code ≡ 200)
  unfolding encrypt_and_add
  encrypt_and_add-ok draw key plaintext i i' cid e =
      let (ciphertext, encrypted, e1) =
        lift_then-ok (encrypt c draw key plaintext)
          (λ ciphertext. add_step c net client ciphertext >>= finish) cid i i' e in
      let (cid1, j, stored, e2) =
        and_then-ok (add_step c net client ciphertext i) finish cid i' e1 in
      let (u, j', kept, e3) =
        and_then-ok (pin_step c net client cid1 j) (λ u. done cid1) cid i' e2 in
      let same : cid1 ≡ cid = ground arith in
      let same_state : j' ≡ i' = ap (λ x. x.1) e3 in
      let (form, added, formed, sent, good, hashed) =
        add-ok net client.primary_api ciphertext i j cid (
          wrapping_exec-ok (text "ipfsclient: adding to primary node")
            (add net client.primary_api ciphertext) i j cid (stored ∙ ap (λ a. (ok a, j)) same)) in
      let (pinned, sent', good') = pin-ok net client.replica_api cid j i' u (
        wrapping_exec-ok (text "ipfsclient: pinning on replica node")
          (pin net client.replica_api cid) j i' u
          (subst (λ a. pin_step c net client a j ≡ (ok u, i')) same
            (kept ∙ ap (λ s. (ok u, s)) same_state))) in
      (ciphertext, form, added, pinned, j, encrypted, formed, sent, good, hashed, sent', good')

  finish-sent :
      (cid : Text) (i : I) (log : List Post)
      → (((pin_step c (traced net) client cid >>= λ u. done cid) (i, log)).1.1 ≡ log)
        ⊎ (((pin_step c (traced net) client cid >>= λ u. done cid) (i, log)).1.1
            ≡ log ++ (pin_post client.replica_api cid ∷ []))
  finish-sent cid i log =
      let kept =
        ap (λ s. s.1)
          (and_then-lift-state (pin_step c (traced net) client cid (i, log)) (λ u. ok cid)) in
      elim (pin-sent net client.replica_api cid i log) [
        | inl same ↦ inl (kept ∙ same)
        | inr more ↦ inr (kept ∙ more)
      ]

  -- What a log has more than another: nothing, the form of the ciphertext to the primary node, or
  -- that, answered with status 200, and a request to pin on the replica the CID of that answer.
  abbrev pub Sent : Bytes → I → List Post → List Post → Type 0
  Sent ciphertext i log log' =
      (log' ≡ log)
      ⊎ ((form : Text × Bytes) × (net.form_of ciphertext ≡ ok form)
          × ((log' ≡ log ++ (add_post client.primary_api form ∷ []))
              ⊎ ((answer : Answer) × (cid : Text) × ((net.send (add_post client.primary_api form)
                      i).0
                    ≡ ok answer)
                  × (answer.status_code ≡ 200)
                  × (net.decode_hash answer ≡ ok cid)
                  × (log'
                      ≡ log
                        ++ (add_post client.primary_api form
                            ∷ pin_post client.replica_api cid
                            ∷ [])))))

  abbrev finish_traced : Text → Exec (I × List Post) Text
  finish_traced cid = pin_step c (traced net) client cid >>= λ u. done cid

  abbrev added_run : Bytes → I → List Post → Result Text × (I × List Post)
  added_run ciphertext i log = add_step c (traced net) client ciphertext (i, log)

  abbrev rest_log : Bytes → I → List Post → List Post
  rest_log ciphertext i log = (and_then (added_run ciphertext i log) finish_traced).1.1

  -- The log of an add that succeeded.
  added-log :
      (ciphertext : Bytes) (i : I) (log : List Post) (cid : Text)
      → (added_run ciphertext i log).0 ≡ ok cid
      → (form : Text × Bytes) × (answer : Answer) × (net.form_of ciphertext ≡ ok form)
        × ((net.send (add_post client.primary_api form) i).0 ≡ ok answer)
        × (answer.status_code ≡ 200)
        × (net.decode_hash answer ≡ ok cid)
        × ((added_run ciphertext i log).1.1 ≡ log ++ (add_post client.primary_api form ∷ []))
  added-log ciphertext i log cid e =
      let run = add (traced net) client.primary_api ciphertext (i, log) in
      let good = wrapping-ok (text "ipfsclient: adding to primary node") run.0 cid e in
      let (form, answer, formed, sent, status, hashed) =
        add-ok (traced net) client.primary_api ciphertext (i, log) run.1 cid
          (λ t. (good t, run.1)) in
      (form, answer, formed, ap (λ x. x.0) sent, status, hashed, sym (ap (λ x. x.1.1) sent))

  added-Sent :
      (ciphertext : Bytes) (i : I) (log : List Post)
      → Sent ciphertext i log (rest_log ciphertext i log)
  added-Sent ciphertext i log = elim (and_then-cases (added_run ciphertext i log) finish_traced) [
    | inl (e, failed) ↦
        let stopped = ap (λ r. r.1.1) failed in
        elim (add-sent net client.primary_api ciphertext i log) [
          | inl same ↦ inl (stopped ∙ same)
          | inr (form, formed, more) ↦ inr (form, formed, inl (stopped ∙ more))
        ]
    | inr (cid, added, went_on) ↦
        let (form, answer, formed, sent, status, hashed, more) =
          added-log ciphertext i log cid added in
        let now = ap (λ r. r.1.1) went_on in
        let s = (added_run ciphertext i log).1 in
        elim (finish-sent cid s.0 s.1) [
          | inl same ↦ inr (form, formed, inl (now ∙ same ∙ more))
          | inr pinned ↦ inr (
            form,
            formed,
            inr (
              answer,
              cid,
              sent,
              status,
              hashed,
              now
                  ∙ pinned
                  ∙ ap (λ l. l ++ (pin_post client.replica_api cid ∷ [])) more
                  ∙ append_assoc log (add_post client.primary_api form ∷ [])
                      (pin_post client.replica_api cid ∷ []),
            ),
          )
        ]
  ]

  -- Whatever the nodes answer and wherever it stops, EncryptAndAdd sends nothing, or the form of
  -- the ciphertext to the primary node, or that and then, where the primary node answered with
  -- status 200, the request to pin on the replica the CID that this answer names. So the document
  -- is in no request but by its ciphertext and by what the primary node answered to it, and nothing
  -- is sent where encryption fails.
  pub encrypt_and_add-Sent :
      (draw : ℕ → Result Bytes) (key plaintext : Bytes) (i : I) (log : List Post)
      → ((encrypt_and_add c (traced net) client draw key plaintext (i, log)).1.1 ≡ log)
        ⊎ ((ciphertext : Bytes) × (encrypt c draw key plaintext ≡ ok ciphertext)
            × Sent ciphertext i log
                (encrypt_and_add c (traced net) client draw key plaintext (i, log)).1.1)
  unfolding encrypt_and_add
  encrypt_and_add-Sent draw key plaintext i log =
      elim (Result-cases (encrypt c draw key plaintext)) [
        | inr (e, f) ↦ inl (rw f refl)
        | inl (ciphertext, f) ↦ inr (
          ciphertext,
          f,
          subst
              (λ r.
                Sent ciphertext i log
                  (and_then (r, (i, log))
                    (λ x. add_step c (traced net) client x >>= finish_traced)).1.1)
              (sym f) (added-Sent ciphertext i log),
        )
      ]
