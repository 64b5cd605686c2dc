-- ===== src/Blob/Database/Stored.antt =====
-- blob.go: what DatabaseBlobStorage writes into a row, and what it reads from one.
use fluxor_db.Base.{ℕ, ◌≡◌, refl, ap, ◌∙◌, String, none, All, length, ◌==◌, if◌then◌else◌, arith}
use fluxor_db.Base.Bytes.{Bytes}
use fluxor_db.Base.Int.{pos}
use fluxor_db.Errors.{Result, ok}
use fluxor_db.Blob.{BlobData, BlobMetadata}
use fluxor_db.Blob.Tags.RoundTrip.{IsPlain, Distinct, parse_tags-print_tags}
use fluxor_db.Blob.Database.{
  Row, Table, DatabaseBlobStorage, upsert, row_of, store, retrieved, retrieve,
}

module _ (md5_hex : Bytes → String) {S : Type 0} (t : Table S) where
  -- What Retrieve makes of the row that a Store has sent.
  retrieved-row_of :
      (now : ℕ) (key : String) (contents : Bytes) (meta : BlobMetadata)
      → All IsPlain meta.tags
      → Distinct meta.tags
      → retrieved md5_hex t key (ok (row_of md5_hex t now key contents meta))
        ≡ ok (record {
          key = key;
          contents = contents;
          metadata = record meta {
            size = pos (length contents);
            checksum = md5_hex contents;
            created_at = if meta.created_at == 0 then now else meta.created_at;
            updated_at = now;
          };
        })
  unfolding retrieved row_of
  retrieved-row_of now key contents meta plain distinct =
      rw (parse_tags-print_tags meta.tags plain distinct) refl

  -- A Store that succeeds has sent to the database, as its only statement, the one that puts a row
  -- in place of the key; and on every later state of the database in which the look-up of Retrieve
  -- scans this very row without an error, Retrieve gives for plain tags with different keys the
  -- contents and the metadata that were stored: all fields and tags, with the size and the checksum
  -- of the contents, the time of the Store as the update, and as the creation if none was given.
  -- Whether a database and the runtime give the row back is not part of this.
  pub retrieve-row_of :
      (dbs : DatabaseBlobStorage) (now : ℕ) (key : String) (contents : Bytes) (meta : BlobMetadata)
      (s s1 s2 s3 : S)
      → All IsPlain meta.tags
      → Distinct meta.tags
      → store md5_hex t dbs now key contents meta s ≡ (s1, none)
      → t.select_row dbs.table_name key s2 ≡ (s3, ok (row_of md5_hex t now key contents meta))
      → (t.exec (upsert md5_hex t dbs (row_of md5_hex t now key contents meta)) s ≡ (s1, none))
        × (retrieve md5_hex t dbs key s2 ≡ (
          s3,
          ok (record {
            key = key;
            contents = contents;
            metadata = record meta {
              size = pos (length contents);
              checksum = md5_hex contents;
              created_at = if meta.created_at == 0 then now else meta.created_at;
              updated_at = now;
            };
          }),
        ))
  unfolding store retrieve
  retrieve-row_of dbs now key contents meta s s1 s2 s3 plain distinct done found = (
    ground arith,
    ap (λ (p : S × Result Row). (p.0, retrieved md5_hex t key p.1)) found
        ∙ ap (λ (r : Result BlobData). (s3, r))
            (retrieved-row_of now key contents meta plain distinct),
  )
