-- ===== src/Keystore/File/Disk.antt =====
-- A store file after a save, and after a save that failed.
use fabric_hris.Prelude.{
  Text, text, Bytes, eq_iff, eq_refl, ◌≡◌, ◌≢◌, refl, ◌∙◌, ap, ◌<◌, false, none, some, Option-cases,
  [], ◌∷◌, ◌++◌, length, length-append, take-append, drop-append, arith, inl, inr, ltb, is_empty,
}
use fabric_hris.Prelude.Maps.{Map, lookup, insert, delete, lookup-insert}
use fabric_hris.Errors.{GoError, Result, ok, err, Result-cases}
use fabric_hris.Keystore.File.{
  Crypto, Disk, Os, FileStore, open_file, load, write_file, rename_file, seal_file, save,
}

-- What AES-GCM, gob and the file system promise where nothing fails.
pub record IsSound (c : Crypto) (f : FileStore) (nonce : Bytes) : Type 0 where
  pub cipher : c.new_cipher f.key ≡ ok tt
  pub gcm : c.new_gcm f.key ≡ ok (length nonce)
  pub filled : 0 < length nonce
  pub open_seal :
      (plaintext : Bytes) → c.open_sealed f.key nonce (c.seal f.key nonce plaintext) ≡ ok plaintext
  pub decode_encode : (m : Map Bytes) (b : Bytes) → c.encode m ≡ ok b → c.decode b ≡ ok m
  pub encodes : (m : Map Bytes) → (b : Bytes) × (c.encode m ≡ ok b)

pub record IsHealthy (os : Os) : Type 0 where
  pub reads : (path : Text) → os.read_error path ≡ none
  pub writes : (path : Text) → os.write_error path ≡ none
  pub renames : (from to : Text) → os.rename_error from to ≡ none

temporary-ne : (path : Text) → path ++ text ".tmp" ≢ path
unfolding text
temporary-ne path e = absurd (omega (arith, ap length e, length-append path (text ".tmp")))

module _ (c : Crypto) (os : Os) (f : FileStore) where
  write_file-other :
      (path p content : Text) (disk : Disk)
      → path ≢ p
      → lookup p (write_file c os path content disk).1 ≡ lookup p disk
  unfolding write_file
  write_file-other path p content disk ne = elim (Option-cases (os.write_error path)) [
    | inl fine ↦
        rw (fine, write_file) (ground (arith, lookup-insert path p content disk, eq_iff path p))
    | inr ((e, partly), bad) ↦
        rw (bad, write_file) (ground (arith, lookup-insert path p partly disk, eq_iff path p))
  ]

  rename_file-error :
      (from to : Text) (e : GoError) (disk disk' : Disk)
      → rename_file c os from to disk ≡ (err e, disk')
      → disk' ≡ disk
  unfolding rename_file
  rename_file-error from to e disk disk' h = ground arith

  -- A save that fails, at whatever step, leaves the store file as it was.
  pub save-error :
      (nonce : Result Bytes) (entries : Map Bytes) (e : GoError) (disk disk' : Disk)
      → save c os f nonce entries disk ≡ (err e, disk')
      → lookup f.path disk' ≡ lookup f.path disk
  unfolding save
  save-error nonce entries e disk disk' h = elim (Result-cases (seal_file c os f nonce entries)) [
    | inr (x, bad) ↦ ground arith
    | inl (content, fine) ↦
        let (r, written) = write_file c os (f.path ++ text ".tmp") content disk in
        let kept : lookup f.path written ≡ lookup f.path disk =
          write_file-other (f.path ++ text ".tmp") f.path content disk (temporary-ne f.path) in
        elim (Result-cases r) [
          | inr (x, failed) ↦ ground arith
          | inl (_, done) ↦
              let same : disk' ≡ written =
                rename_file-error (f.path ++ text ".tmp") f.path e written disk' (ground arith) in
              ap (lookup f.path) same ∙ kept
        ]
  ]

  -- The store file after a save that succeeds: the nonce and the sealed entries.
  save-content :
      (nonce : Result Bytes) (entries : Map Bytes) (content : Bytes) (disk disk' : Disk)
      → seal_file c os f nonce entries ≡ ok content
      → save c os f nonce entries disk ≡ (ok tt, disk')
      → lookup f.path disk' ≡ some content
  unfolding save write_file rename_file
  save-content nonce entries content disk disk' sealed h =
      let tmp : Text = f.path ++ text ".tmp" in
      ground (
        arith,
        lookup-insert tmp tmp content disk,
        eq_refl tmp,
        lookup-insert f.path f.path content (delete tmp (insert tmp content disk)),
        eq_refl f.path,
      )

  open_file-seal :
      (nonce plaintext : Bytes) (entries : Map Bytes)
      → IsSound c f nonce
      → c.encode entries ≡ ok plaintext
      → open_file c os f (nonce ++ c.seal f.key nonce plaintext) ≡ ok entries
  unfolding open_file
  open_file-seal nonce plaintext entries sound e =
      let sealed : Bytes = c.seal f.key nonce plaintext in
      let long : ltb (length (nonce ++ sealed)) (length nonce) ≡ false =
        ground (arith, length-append nonce sealed) in
      rw (
        sound.cipher,
        sound.gcm,
        long,
        take-append nonce sealed,
        drop-append nonce sealed,
        sound.open_seal plaintext,
        sound.decode_encode entries plaintext e,
      )

  seal_file_of_sound :
      (nonce plaintext : Bytes) (entries : Map Bytes)
      → IsSound c f nonce
      → c.encode entries ≡ ok plaintext
      → seal_file c os f (ok nonce) entries ≡ ok (nonce ++ c.seal f.key nonce plaintext)
  unfolding seal_file
  seal_file_of_sound nonce plaintext entries sound e = rw (e, sound.cipher, sound.gcm)

  not_empty : (nonce sealed : Bytes) → 0 < length nonce → is_empty (nonce ++ sealed) ≡ false
  not_empty [] sealed h = absurd (omega arith)
  not_empty (x ∷ nonce) sealed h = refl

  -- Where encryption and encoding do not fail and the file can be read: what was saved is what is
  -- loaded, with the same key.
  pub load-save :
      (nonce : Bytes) (entries : Map Bytes) (disk disk' : Disk)
      → IsSound c f nonce
      → os.read_error f.path ≡ none
      → save c os f (ok nonce) entries disk ≡ (ok tt, disk')
      → load c os f disk' ≡ ok entries
  unfolding load
  load-save nonce entries disk disk' sound readable h =
      let (plaintext, e) = sound.encodes entries in
      let sealed = seal_file_of_sound nonce plaintext entries sound e in
      let stored =
        save-content (ok nonce) entries (nonce ++ c.seal f.key nonce plaintext) disk disk' sealed
          h in
      ground (
        arith,
        readable,
        stored,
        not_empty nonce (c.seal f.key nonce plaintext) sound.filled,
        open_file-seal nonce plaintext entries sound e,
      )

  -- A save succeeds where nothing fails.
  pub save_healthy :
      (nonce : Bytes) (entries : Map Bytes) (disk : Disk)
      → IsSound c f nonce
      → IsHealthy os
      → (disk' : Disk) × (save c os f (ok nonce) entries disk ≡ (ok tt, disk'))
  unfolding save write_file rename_file
  save_healthy nonce entries disk sound healthy =
      let (plaintext, e) = sound.encodes entries in
      let content : Bytes = nonce ++ c.seal f.key nonce plaintext in
      let sealed = seal_file_of_sound nonce plaintext entries sound e in
      let tmp : Text = f.path ++ text ".tmp" in
      (
        insert f.path content (delete tmp (insert tmp content disk)),
        ground (
          arith,
          healthy.writes tmp,
          healthy.renames tmp f.path,
          lookup-insert tmp tmp content disk,
          eq_refl tmp,
        ),
      )
