-- ===== src/Blob/Files/Kinds.antt =====
-- blob.go: the content type that Retrieve makes out of the metadata file.
use Prim.Native.String.{◌++◌}
use fluxor_db.Base.{none, [], length, ℕ, ◌≡◌, refl, String, true}
use fluxor_db.Base.Bytes.{Bytes, codes, contains}
use fluxor_db.Base.Bytes.Laws.{contains_left, contains_right, codes-append}
use fluxor_db.Base.Int.{pos}
use fluxor_db.Errors.{ok}
use fluxor_db.Blob.{BlobMetadata}
use fluxor_db.Blob.Files.Stored.{IsFileSystem, read-store}
use fluxor_db.Blob.Files.{
  FilesystemBlobStorage, store, retrieve, FileSystem, kind_of, metadata_text,
}

-- A text within a longer one.
within_right :
    (s u : String) (t : Bytes) → contains (codes s) t ≡ true → contains (codes (s ++ u)) t ≡ true
within_right s u t h = rw (codes-append s u) (contains_right (codes s) t (codes u) h)

within_left :
    (s u : String) (t : Bytes) → contains (codes u) t ≡ true → contains (codes (s ++ u)) t ≡ true
within_left s u t h = rw (codes-append s u) (contains_left (codes s) t (codes u) h)

module _ (md5_hex : Bytes → String) (rfc3339 : ℕ → String) {S : Type 0} (fs : FileSystem S)
    (now later : ℕ) (contents : Bytes) (meta : BlobMetadata) where
  metadata_text-content_type :
      (t : Bytes)
      → contains (codes meta.content_type) t ≡ true
      → contains (metadata_text md5_hex rfc3339 fs now later contents meta) t ≡ true
  unfolding metadata_text
  metadata_text-content_type t h =
      within_left "{\n\t\t\"content_type\": \"" _ t (within_right meta.content_type _ t h)

  metadata_text-filename :
      (t : Bytes)
      → contains (codes meta.filename) t ≡ true
      → contains (metadata_text md5_hex rfc3339 fs now later contents meta) t ≡ true
  unfolding metadata_text
  metadata_text-filename t h = within_left "{\n\t\t\"content_type\": \"" _ t (
      within_left meta.content_type _ t
        (within_left "\",\n\t\t\"filename\": \"" _ t (within_right meta.filename _ t h)))

  png_name :
      contains (codes meta.content_type) (codes "image/") ≡ true
      → contains (codes meta.filename) (codes "png") ≡ true
      → kind_of (metadata_text md5_hex rfc3339 fs now later contents meta) ≡ "image/png"
  unfolding kind_of
  png_name image png =
      rw
        (
          metadata_text-content_type (codes "image/") image,
          metadata_text-filename (codes "png") png,
        )
        refl

  -- When Store succeeds for a content type that contains image/ and a file name that contains png,
  -- Retrieve of the key gives the contents that were stored, with the content type image/png,
  -- whatever the stored type was, and without the file name and the tags.
  pub retrieve-store_png :
      (fbs : FilesystemBlobStorage) (now' later' : ℕ) (key : String) (s s' : S)
      → IsFileSystem fs
      → contains (codes meta.content_type) (codes "image/") ≡ true
      → contains (codes meta.filename) (codes "png") ≡ true
      → store md5_hex rfc3339 fs fbs now later key contents meta s ≡ (s', none)
      → retrieve md5_hex rfc3339 fs fbs now' later' key s'
        ≡ ok (record {
          key = key;
          contents = contents;
          metadata = record {
            content_type = "image/png";
            filename = "";
            size = pos (length contents);
            checksum = md5_hex contents;
            tags = [];
            created_at = now';
            updated_at = later';
          };
        })
  retrieve-store_png fbs now' later' key s s' laws image png done =
      rw (← png_name image png)
        (read-store md5_hex rfc3339 fs fbs now later now' later' key contents meta s s' laws done)
