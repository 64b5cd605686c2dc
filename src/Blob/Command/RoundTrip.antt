-- ===== src/Blob/Command/RoundTrip.antt =====
-- cmd/blobonly/main.go: what get writes after a put.
use fluxor_db.Base.{
  ℕ, ◌≡◌, ◌∙◌, refl, ap, String, false, Option, none, some, List, [], ◌∷◌, str_eq, if◌then◌else◌,
  Bool-cases, inl, inr, arith,
}
use fluxor_db.Base.Bytes.{Bytes}
use fluxor_db.Base.Int.{pos}
use fluxor_db.Errors.{Err, Result, ok, err}
use fluxor_db.Blob.Files.{FileSystem, FilesystemBlobStorage}
use fluxor_db.Blob.Files.Stored.{IsFileSystem}
use fluxor_db.Blob.Command.{
  Codec, PutOptions, put_options, get_output, no_options, described, Output, ok_line, contents_of,
  Exit, done, rooted, new_storage, store, retrieve,
}
use fluxor_db.Blob.Command.Main.{
  finished, put_contents, put_with, put_command, get_blob, get_command, dispatch, started, run,
}
use fluxor_db.Blob.Command.Stored.{IsCodec, KeepsFiles, retrieve-store_json, retrieve-same}

module _ (md5_hex : Bytes → String) (codec : Codec) {S : Type 0} (fs : FileSystem S)
    (clean : String → String) (info : String → S → Option (ℕ × ℕ)) where
  finished-done :
      (label : String) (out out' : Output) (r : S × Option Err) (s' : S)
      → finished label out r ≡ (s', done out')
      → r ≡ (s', none)
  finished-done label out out' (s, none) s' h = ap (λ (p : S × Exit). (p.0, none)) h
  finished-done label out out' (s, some e) s' h = absurd (ground arith)

  module _ (now later : ℕ) (stdin : Result Bytes) where
    put_contents-stores :
        (fbs : FilesystemBlobStorage) (key : String) (o : PutOptions) (label : String)
        (r : Result Bytes) (s s' : S)
        → put_contents md5_hex codec fs clean info now later stdin fbs key o label r s
          ≡ (s', done ok_line)
        → (contents : Bytes) × (r ≡ ok contents)
          × (store md5_hex codec fs clean info fbs now later key contents (described o) s
              ≡ (s', none))
    unfolding put_contents
    put_contents-stores fbs key o label (err e) s s' h = absurd (ground arith)
    put_contents-stores fbs key o label (ok contents) s s' h =
        (contents, refl, finished-done "store:" ok_line ok_line _ s' h)

    -- What put stores.
    unfoldable pub input : PutOptions → S → Result Bytes
    input o s = if str_eq o.file "" then stdin else fs.read_file o.file s

    put_with-stores :
        (fbs : FilesystemBlobStorage) (key : String) (o : PutOptions) (s s' : S)
        → put_with md5_hex codec fs clean info now later stdin fbs key o s ≡ (s', done ok_line)
        → (contents : Bytes) × (input o s ≡ ok contents)
          × (store md5_hex codec fs clean info fbs now later key contents (described o) s
              ≡ (s', none))
    unfolding put_with input
    put_with-stores fbs key o s s' h = elim (Bool-cases (str_eq o.file "")) [
      | inl yes' ↦ rw yes' (put_contents-stores fbs key o "stdin:" stdin s s' (rw yes' at h))
      | inr no' ↦
          rw no'
            (put_contents-stores fbs key o "read file:" (fs.read_file o.file s) s s' (rw no' at h))
    ]

    -- The storage of the command under a root.
    abbrev storage : String → FilesystemBlobStorage
    storage root = record { root_path = root; max_size = pos 104857600 }

    started_put :
        (fbs : FilesystemBlobStorage) (key : String) (args : List String) (r : S × Option Err)
        (s' : S)
        → started md5_hex codec fs clean info now later stdin "put"
            (key ∷ args)
            (rooted md5_hex codec fs clean info fbs r)
          ≡ (s', done ok_line)
        → (s1 : S) × (r ≡ (s1, none))
          × (put_with md5_hex codec fs clean info now later stdin fbs key
                (put_options args no_options)
                s1
              ≡ (s', done ok_line))
    unfolding started rooted dispatch put_command
    started_put fbs key args (s, some e) s' h = absurd (ground arith)
    started_put fbs key args (s, none) s' h = (s, refl, h)

    -- A put that ends well has opened the storage and stored its input.
    put_run :
        (root key : String) (args : List String) (s s' : S)
        → run md5_hex codec fs clean info now later stdin root ("put" ∷ key ∷ args) s
          ≡ (s', done ok_line)
        → (s1 : S) × (str_eq root "" ≡ false)
          × (fs.mkdir_all root s ≡ (s1, none))
          × ((contents : Bytes) × (input (put_options args no_options) s1 ≡ ok contents)
              × (store md5_hex codec fs clean info
                    (storage root)
                    now
                    later
                    key
                    contents
                    (described (put_options args no_options))
                    s1
                  ≡ (s', none)))
    unfolding run new_storage
    put_run root key args s s' h = elim (Bool-cases (str_eq root "")) [
      | inl unnamed ↦ absurd (ground (arith, rw unnamed at h))
      | inr named ↦
          let (s1, made, put) =
            started_put (storage root) key args (fs.mkdir_all root s) s' (rw named at h) in
          (
            s1,
            named,
            made,
            put_with-stores (storage root) key (put_options args no_options) s1 s' put,
          )
    ]

    get_run :
        (root key : String) (s s1 : S)
        → str_eq root "" ≡ false
        → fs.mkdir_all root s ≡ (s1, none)
        → run md5_hex codec fs clean info now later stdin root ("get" ∷ key ∷ []) s
          ≡ get_blob md5_hex codec fs clean info now later stdin ""
              (retrieve md5_hex codec fs clean info (storage root) now later key s1)
              s1
    unfolding run started new_storage rooted dispatch get_command get_output
    get_run root key s s1 named made = rw (named, run, made) refl

  -- On a file system that reads what was last written and a JSON codec that gives metadata back:
  -- when the command put ends with OK, a later get of the same key and root without options, where
  -- the root directory can be made again, writes exactly the bytes that put read, from its file or
  -- from the standard input, whatever options put had.
  pub get-put :
      (now later now' later' : ℕ) (stdin stdin' : Result Bytes) (root key : String)
      (args : List String) (s s' s'' : S)
      → IsFileSystem fs
      → IsCodec codec
      → KeepsFiles fs
      → run md5_hex codec fs clean info now later stdin root ("put" ∷ key ∷ args) s
        ≡ (s', done ok_line)
      → fs.mkdir_all root s' ≡ (s'', none)
      → (contents : Bytes) × (input now later stdin
            (put_options args no_options)
            (fs.mkdir_all root s).0
          ≡ ok contents)
        × (run md5_hex codec fs clean info now' later' stdin' root ("get" ∷ key ∷ []) s'
            ≡ (s'', done (contents_of contents)))
  unfolding get_blob
  get-put now later now' later' stdin stdin' root key args s s' s'' laws json keeps put made =
      let (s1, named, opened, (contents, read, stored)) =
        put_run now later stdin root key args s s' put in
      let blob =
        retrieve-same md5_hex codec fs clean info (storage now later stdin root) now' later' key
          root s' s'' keeps made
        ∙ retrieve-store_json md5_hex codec fs clean info (storage now later stdin root) now later
            now' later' key contents (described (put_options args no_options)) s1 s' laws json refl
            stored in
      (
        contents,
        rw opened read,
        get_run now' later' stdin' root key s' s'' named made ∙ rw blob refl,
      )
