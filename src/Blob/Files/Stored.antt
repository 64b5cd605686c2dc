-- ===== src/Blob/Files/Stored.antt =====
-- blob.go: what is read from the file system after a Store.
use text.Mathlib.TextLemmas.{append_cancel_left, append-nil}
use fluxor_db.Base.{
  ℕ, ◌≡◌, ◌≢◌, ◌∙◌, refl, String, true, false, Option, none, some, [], length, eq_iff, arith,
  Bool-cases, inl, inr,
}
use fluxor_db.Base.Bytes.{Bytes}
use fluxor_db.Base.Int.{pos}
use fluxor_db.Errors.{Err, ok}
use fluxor_db.Blob.{BlobMetadata, too_large}
use fluxor_db.Blob.Files.{
  FileSystem, FilesystemBlobStorage, meta_path, after, kind_of, metadata_text, store, retrieve,
}

-- What a file system promises of a file that was written.
pub record IsFileSystem {S : Type 0} (fs : FileSystem S) : Type 0 where
  pub read-write_self :
      (path : String) (contents : Bytes) (s s' : S)
      → fs.write_file path contents s ≡ (s', none)
      → fs.read_file path s' ≡ ok contents
  pub read-write_ne :
      (path other : String) (contents : Bytes) (s s' : S)
      → fs.write_file path contents s ≡ (s', none)
      → other ≢ path
      → fs.read_file other s' ≡ fs.read_file other s

pub meta_path-ne : (path : String) → path ≢ meta_path path
meta_path-ne path e =
    let t : ◌≡◌ {A = String} "" ".meta" =
      append_cancel_left path "" ".meta" (append-nil path ∙ e) in
    let f : false ≡ true = (eq_iff "" ".meta").1 t in cc

module _ (md5_hex : Bytes → String) (rfc3339 : ℕ → String) {S : Type 0} (fs : FileSystem S) where
  pub after-none :
      (label : String) (r : S × Option Err) (next : S → S × Option Err) (s' : S)
      → after label r next ≡ (s', none)
      → (s : S) × (r ≡ (s, none)) × (next s ≡ (s', none))
  after-none label (s, none) next s' h = (s, refl, h)
  after-none label (s, some e) next s' h = absurd (ground arith)

  -- A Store that succeeds has written both files, the contents first.
  store-writes :
      (fbs : FilesystemBlobStorage) (now later : ℕ) (key : String) (contents : Bytes)
      (meta : BlobMetadata) (s s' : S)
      → store md5_hex rfc3339 fs fbs now later key contents meta s ≡ (s', none)
      → let path = fs.join fbs.root_path key in
        (s1 : S) × (s2 : S) × (fs.write_file path contents s1 ≡ (s2, none))
        × (fs.write_file
              (meta_path path)
              (metadata_text md5_hex rfc3339 fs now later contents meta)
              s2
            ≡ (s', none))
  unfolding store
  store-writes fbs now later key contents meta s s' done =
      elim (Bool-cases (too_large fbs.max_size contents)) [
        | inl large ↦ absurd (ground (arith, rw large at done))
        | inr fits ↦
            let path = fs.join fbs.root_path key in
            let text = metadata_text md5_hex rfc3339 fs now later contents meta in
            let write_meta = fs.write_file (meta_path path) text in
            let write_both = λ (x : S).
              after "failed to write blob: " (fs.write_file path contents x) write_meta in
            let (s1, made, rest) =
              after-none "failed to create directory: " (fs.mkdir_all (fs.dir path) s) write_both s'
                (rw fits at done) in
            let (s2, wrote, last) =
              after-none "failed to write blob: " (fs.write_file path contents s1) write_meta s'
                rest in
            (s1, s2, wrote, last)
      ]

  -- On a file system that reads what was last written, when Store succeeds, Retrieve of the key
  -- gives the contents that were stored with their size and checksum, the times of the Retrieve,
  -- no tags and no file name, and the content type that the words in the metadata file suggest.
  pub read-store :
      (fbs : FilesystemBlobStorage) (now later now' later' : ℕ) (key : String) (contents : Bytes)
      (meta : BlobMetadata) (s s' : S)
      → IsFileSystem fs
      → store md5_hex rfc3339 fs fbs now later key contents meta s ≡ (s', none)
      → retrieve md5_hex rfc3339 fs fbs now' later' key s'
        ≡ ok (record {
          key = key;
          contents = contents;
          metadata = record {
            content_type = kind_of (metadata_text md5_hex rfc3339 fs now later contents meta);
            filename = "";
            size = pos (length contents);
            checksum = md5_hex contents;
            tags = [];
            created_at = now';
            updated_at = later';
          };
        })
  unfolding retrieve
  read-store fbs now later now' later' key contents meta s s' laws done =
      let path = fs.join fbs.root_path key in
      let (s1, s2, wrote, last) = store-writes fbs now later key contents meta s s' done in
      let blob : fs.read_file path s' ≡ ok contents =
        laws.read-write_ne (meta_path path) path _ s2 s' last (meta_path-ne path)
        ∙ laws.read-write_self path contents s1 s2 wrote in
      let text = laws.read-write_self (meta_path path) _ s2 s' last in
      rw (blob, retrieve, text) refl
