-- ===== src/Ipfs.antt =====
-- write-path-integration/ipfsclient/ipfsclient.go: documents encrypted before they are added to the
-- primary node and pinned on the replica. AES-GCM, the multipart form, HTTP and JSON are code outside
-- the repository: the fields of `Cipher` and `Network`.
pub mod Requests
pub mod RoundTrip
use fabric_hris.Prelude.{
  ℕ, Text, text, Bytes, nat_eq, ltb, ◌++◌, [], ◌∷◌, length, take, drop, if◌then◌else◌,
}
use fabric_hris.Errors.{GoError, errorf, context, Result, ok, err, wrapping}
use fabric_hris.Errors
use fabric_hris.Exec.{Exec, fail, done, lift, wrapping_exec, ◌>>=◌, ◌>>◌}
use fabric_hris.Keystore.Interface.{Entropy}
use fabric_hris.Keystore.Decimal.{print_int}
use fabric_hris.WritePaths.Hooks.{DocumentPinner}

-- crypto/aes and crypto/cipher: blocks `B`, and modes `G` of them.
pub record Cipher (B G : Type 0) : Type 0 where
  pub new_cipher : Bytes → Result B
  pub new_gcm : B → Result G
  pub nonce_size : G → ℕ
  -- gcm.Seal(nil, nonce, plaintext, nil), gcm.Open(nil, nonce, sealed, nil)
  pub seal : G → Bytes → Bytes → Bytes
  pub open_sealed : G → Bytes → Bytes → Result Bytes

-- A POST request.
pub record Post : Type 0 where
  pub url : Text
  pub content_type : Text
  pub body : Bytes

-- What io.ReadAll gets of a body, and the error that it returns with that.
pub record Answer : Type 0 where
  pub status_code : ℕ
  pub received : Bytes
  pub read : Result (Unit {0})

-- The nodes' state is `I`.
pub record Network (I : Type 0) : Type 0 where
  -- The form of one file, its content type and bytes.
  pub form_of : Bytes → Result (Text × Bytes)
  -- http.NewRequestWithContext of a URL
  pub new_request : Text → Result (Unit {0})
  -- HTTPClient.Do
  pub send : Post → Exec I Answer
  -- The Hash of the JSON that is read.
  pub decode_hash : Answer → Result Text

-- Client, without its HTTP client.
pub record Client : Type 0 where
  pub primary_api : Text
  pub replica_api : Text

abbrev pub min_document_key_bytes : ℕ
min_document_key_bytes = 16

module _ {B G : Type 0} (c : Cipher B G) where
  -- The checks of encrypt and decrypt on the key.
  unfoldable pub gcm_of : Bytes → Result G
  gcm_of key =
      if nat_eq (length key) min_document_key_bytes
      then Errors.◌>>=◌ (wrapping (text "ipfsclient: creating AES cipher") (c.new_cipher key))
          (λ block. wrapping (text "ipfsclient: creating GCM mode") (c.new_gcm block))
      else err (
          errorf (text "ipfsclient: KEY_EMPLOYEE must be %d bytes, got %d")
            (print_int min_document_key_bytes ∷ print_int (length key) ∷ []))

  -- `draw` is what rand.Read fills the nonce with, by its size.
  unfoldable pub encrypt : (ℕ → Result Bytes) → Bytes → Bytes → Result Bytes
  unfolding gcm_of
  encrypt draw key plaintext = Errors.◌>>=◌ (gcm_of key) λ gcm.
      Errors.◌>>=◌ (wrapping (text "ipfsclient: generating nonce") (draw (c.nonce_size gcm)))
        (λ nonce. ok (nonce ++ c.seal gcm nonce plaintext))

  unfoldable pub decrypt : Bytes → Bytes → Result Bytes
  unfolding gcm_of
  decrypt key ciphertext = Errors.◌>>=◌ (gcm_of key) λ gcm.
      if ltb (length ciphertext) (c.nonce_size gcm)
      then err (errorf (text "ipfsclient: ciphertext shorter than nonce size") [])
      else wrapping (text "ipfsclient: decryption failed (wrong key or tampered ciphertext)") (
          c.open_sealed gcm (take (c.nonce_size gcm) ciphertext)
            (drop (c.nonce_size gcm) ciphertext))

abbrev pub add_post : Text → Text × Bytes → Post
add_post api form = record { url = api ++ text "/api/v0/add"; content_type = form.0; body = form.1 }

abbrev pub pin_post : Text → Text → Post
pin_post api cid = record {
  url = api ++ (text "/api/v0/pin/add?arg=" ++ cid);
  content_type = [];
  body = [];
}

abbrev pub cat_post : Text → Text → Post
cat_post api cid = record {
  url = api ++ (text "/api/v0/cat?arg=" ++ cid);
  content_type = [];
  body = [];
}

-- The test of the status, and the error of any other.
unfoldable pub check_status : Text → Answer → Result (Unit {0})
check_status format answer =
    if nat_eq answer.status_code 200
    then ok tt
    else err (errorf format (print_int answer.status_code ∷ answer.received ∷ []))

module _ {I : Type 0} (net : Network I) where
  -- http.NewRequestWithContext, then HTTPClient.Do.
  unfoldable pub post : Post → Exec I Answer
  post p = do u ← lift (net.new_request p.url); net.send p

  unfoldable pub add : Text → Bytes → Exec I Text
  unfolding post check_status
  add api content = do
    form ← lift (net.form_of content)
    answer ← post (add_post api form)
    lift (Errors.◌>>◌ (check_status (text "add: status %d: %s") answer) (net.decode_hash answer))

  unfoldable pub pin : Text → Text → Exec I (Unit {0})
  unfolding post check_status
  pin api cid = do
    answer ← post (pin_post api cid)
    lift (check_status (text "pin/add: status %d: %s") answer)

  unfoldable pub cat : Text → Text → Exec I Bytes
  unfolding post check_status
  cat api cid = do
    answer ← post (cat_post api cid)
    lift (
        Errors.◌>>◌ (check_status (text "cat: status %d: %s") answer)
          (Errors.◌>>◌ answer.read (ok answer.received)))

module _ {B G I : Type 0} (c : Cipher B G) (net : Network I) (client : Client) where
  abbrev pub add_step : Bytes → Exec I Text
  add_step ciphertext =
      wrapping_exec (text "ipfsclient: adding to primary node")
        (add net client.primary_api ciphertext)

  abbrev pub pin_step : Text → Exec I (Unit {0})
  pin_step cid =
      wrapping_exec (text "ipfsclient: pinning on replica node") (pin net client.replica_api cid)

  unfoldable pub encrypt_and_add : (ℕ → Result Bytes) → Bytes → Bytes → Exec I Text
  unfolding encrypt add pin
  encrypt_and_add draw key plaintext = do
    ciphertext ← lift (encrypt c draw key plaintext)
    cid ← add_step ciphertext
    u ← pin_step cid
    done cid

  unfoldable pub fetch_and_decrypt : Bytes → Text → Exec I Bytes
  unfolding decrypt cat
  fetch_and_decrypt key cid i =
      let (r, i') = cat net client.primary_api cid i in
      elim r [
        | err e ↦ (err (context (text "ipfsclient: fetching %s") (cid ∷ []) e), i')
        | ok ciphertext ↦ (decrypt c key ciphertext, i')
      ]

  -- The client as the port of the write-path hooks.
  abbrev pub document_pinner : DocumentPinner I
  document_pinner = record { encrypt_and_add = λ entropy. encrypt_and_add (λ size. entropy.nonce) }
