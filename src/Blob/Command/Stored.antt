-- ===== src/Blob/Command/Stored.antt =====
-- cmd/blobonly/main.go: what the storage's Retrieve reads after a Store.
use fluxor_db.Base.{ℕ, ◌≡◌, ◌∙◌, refl, ap, String, Option, none, [], Bool-cases, inl, inr, arith}
use fluxor_db.Base.Bytes.{Bytes}
use fluxor_db.Errors.{Result, ok, err}
use fluxor_db.Blob.{BlobMetadata, too_large}
use fluxor_db.Blob.Files.{FileSystem, FilesystemBlobStorage, meta_path, after}
use fluxor_db.Blob.Files.Stored.{IsFileSystem, meta_path-ne, after-none}
use fluxor_db.Blob.Command.{Codec, file_path, completed, write_metadata, store, retrieved, retrieve}

-- What encoding/json promises of metadata without tags: Marshal leaves out an empty file name and
-- empty tags, so Unmarshal gives the metadata back where it starts without them.
pub record IsCodec (codec : Codec) : Type 0 where
  pub unmarshal-marshal :
      (m start : BlobMetadata) (text : Bytes)
      → m.tags ≡ []
      → start.filename ≡ ""
      → start.tags ≡ []
      → codec.marshal m ≡ ok text
      → codec.unmarshal text start ≡ m

-- Making a directory leaves the files.
unfoldable pub KeepsFiles : {S : Type 0} → FileSystem S → Type 0
KeepsFiles {S} fs =
    (path other : String) (s s' : S)
    → fs.mkdir_all path s ≡ (s', none)
    → fs.read_file other s' ≡ fs.read_file other s

module _ (md5_hex : Bytes → String) (codec : Codec) {S : Type 0} (fs : FileSystem S)
    (clean : String → String) (info : String → S → Option (ℕ × ℕ)) where
  write_metadata-ok :
      (path : String) (r : Result Bytes) (s s' : S)
      → write_metadata md5_hex codec fs clean info path r s ≡ (s', none)
      → (text : Bytes) × (r ≡ ok text) × (fs.write_file (meta_path path) text s ≡ (s', none))
  unfolding write_metadata
  write_metadata-ok path (err e) s s' h = absurd (ground arith)
  write_metadata-ok path (ok text) s s' h = (text, refl, h)

  -- What a Store that succeeds leaves in the two files.
  store-writes :
      (fbs : FilesystemBlobStorage) (now later : ℕ) (key : String) (contents : Bytes)
      (meta : BlobMetadata) (s s' : S)
      → store md5_hex codec fs clean info fbs now later key contents meta s ≡ (s', none)
      → let path = file_path md5_hex codec fs clean info fbs key in
        (s1 : S) × (s2 : S) × (text : Bytes) × (fs.write_file path contents s1 ≡ (s2, none))
        × (codec.marshal (completed md5_hex codec fs clean info now later contents meta) ≡ ok text)
        × (fs.write_file (meta_path path) text s2 ≡ (s', none))
  unfolding store
  store-writes fbs now later key contents meta s s' h =
      elim (Bool-cases (too_large fbs.max_size contents)) [
        | inl large ↦ absurd (ground (arith, rw large at h))
        | inr fits ↦
            let path = file_path md5_hex codec fs clean info fbs key in
            let text =
              codec.marshal (completed md5_hex codec fs clean info now later contents meta) in
            let last = write_metadata md5_hex codec fs clean info path text in
            let both = λ (x : S). after "write blob: " (fs.write_file path contents x) last in
            let (s1, made, rest) =
              after-none md5_hex (λ t. "") fs "mkdir: " (fs.mkdir_all (fs.dir path) s) both s'
                (rw fits at h) in
            let (s2, wrote, end) =
              after-none md5_hex (λ t. "") fs "write blob: " (fs.write_file path contents s1) last
                s' rest in
            let (bytes, marshalled, written) = write_metadata-ok path text s2 s' end in
            (s1, s2, bytes, wrote, marshalled, written)
      ]

  -- On a file system that reads what was last written and a JSON codec that gives metadata back,
  -- when Store succeeds for metadata without tags, Retrieve of the key gives the contents and the
  -- metadata that were stored: the content type, the file name and the times too.
  pub retrieve-store_json :
      (fbs : FilesystemBlobStorage) (now later now' later' : ℕ) (key : String) (contents : Bytes)
      (meta : BlobMetadata) (s s' : S)
      → IsFileSystem fs
      → IsCodec codec
      → meta.tags ≡ []
      → store md5_hex codec fs clean info fbs now later key contents meta s ≡ (s', none)
      → retrieve md5_hex codec fs clean info fbs now' later' key s'
        ≡ ok (record {
          key = key;
          contents = contents;
          metadata = completed md5_hex codec fs clean info now later contents meta;
        })
  unfolding retrieve retrieved
  retrieve-store_json fbs now later now' later' key contents meta s s' laws json untagged h =
      let path = file_path md5_hex codec fs clean info fbs key in
      let (s1, s2, text, wrote, marshalled, written) =
        store-writes fbs now later key contents meta s s' h in
      let blob : fs.read_file path s' ≡ ok contents =
        laws.read-write_ne (meta_path path) path _ s2 s' written (meta_path-ne path)
        ∙ laws.read-write_self path contents s1 s2 wrote in
      let described = laws.read-write_self (meta_path path) text s2 s' written in
      rw (blob, retrieved, described)
        (ap (λ (m : BlobMetadata). ok (record { key = key; contents = contents; metadata = m }))
          (json.unmarshal-marshal _ _ text untagged refl refl marshalled))

  pub retrieve-same :
      (fbs : FilesystemBlobStorage) (now later : ℕ) (key root : String) (s s' : S)
      → KeepsFiles fs
      → fs.mkdir_all root s ≡ (s', none)
      → retrieve md5_hex codec fs clean info fbs now later key s'
        ≡ retrieve md5_hex codec fs clean info fbs now later key s
  unfolding retrieve KeepsFiles
  retrieve-same fbs now later key root s s' keeps made =
      let path = file_path md5_hex codec fs clean info fbs key in
      rw (keeps root path s s' made, keeps root (meta_path path) s s' made) refl
