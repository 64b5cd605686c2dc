-- ===== src/Blob/Database.antt =====
-- blob.go: DatabaseBlobStorage.
--
-- `Table` is what the runtime answers to the statements, on a state `S`: a Statement for Exec, and a
-- function for each query with the Scan of its row. `md5_hex` is the hexadecimal MD5 checksum.
pub mod Stored
use Prim.Native.String.{◌++◌}
use fluxor_db.Base.{
  ℕ, String, Bool, true, false, ◌&&◌, not, Option, none, some, List, [], ◌∷◌, ◌==◌, str_eq, length,
  if◌then◌else◌,
}
use fluxor_db.Base.Bytes.{Bytes}
use fluxor_db.Base.Int.{ℤ, pos}
use fluxor_db.Errors.{Err, Result, ok, err, message, wrapped, error_text, ◌>>=◌}
use fluxor_db.Config.{postgresql, mysql, sqlite}
use fluxor_db.Blob.{
  BlobMetadata, BlobData, BlobInfo, BlobStats, BlobStorageConfig, max_size_of, too_large,
  size_error,
}
use fluxor_db.Blob.Tags.{TagMap, print_tags, parse_tags}

pub record Row : Type 0 where
  pub key : String
  pub contents : Bytes
  pub content_type : String
  pub filename : String
  pub size : ℤ
  pub checksum : String
  pub tags : Bytes
  pub created_at : ℕ
  pub updated_at : ℕ

-- The statements that change the database, each on a named table.
pub data Statement : Type 0 where
  create_sqlite create_postgresql create_mysql : String → Statement
  replace_into insert_or_replace : String → Row → Statement
  delete_from : String → String → Statement

pub record Table (S : Type 0) : Type 0 where
  pub exec : Statement → S → S × Option Err
  pub select_row : String → String → S → S × Result Row
  pub select_one : String → String → S → S × Result (Unit {0})
  pub select_all : String → Option String → S → S × Result (List (Result Row))
  pub totals : String → S → S × Result (ℤ × ℤ)

pub record DatabaseBlobStorage : Type 0 where
  pub database_type : String
  pub table_name : String
  pub max_size : ℤ

-- createTable: the statement for the database's type, if there is one.
unfoldable pub create_statement : DatabaseBlobStorage → Result Statement
create_statement dbs =
    if str_eq dbs.database_type sqlite
    then ok (create_sqlite dbs.table_name)
    else if str_eq dbs.database_type postgresql
    then ok (create_postgresql dbs.table_name)
    else if str_eq dbs.database_type mysql
    then ok (create_mysql dbs.table_name)
    else err (message ("unsupported database type for blob storage: " ++ dbs.database_type))

-- The metadata and the tags of a row.
abbrev pub metadata_of : Row → BlobMetadata
metadata_of row = record {
  content_type = row.content_type;
  filename = row.filename;
  size = row.size;
  checksum = row.checksum;
  tags = parse_tags row.tags;
  created_at = row.created_at;
  updated_at = row.updated_at;
}

-- The checksum that was asked for is another one.
abbrev pub mismatched : String → String → Bool
mismatched expected checksum = not (str_eq expected "") && not (str_eq expected checksum)

module _ (md5_hex : Bytes → String) {S : Type 0} (t : Table S) where
  created : DatabaseBlobStorage → S → Result Statement → S × Result DatabaseBlobStorage
  created dbs s (err e) = (s, err (wrapped "failed to create blob table: " e ""))
  created dbs s (ok st) =
      let (s', e) = t.exec st s in
      (s', elim e [ none ↦ ok dbs | some x ↦ err (wrapped "failed to create blob table: " x "") ])

  unfoldable pub new_database_blob_storage :
      String → BlobStorageConfig → S → S × Result DatabaseBlobStorage
  unfolding created create_statement
  new_database_blob_storage database_type config s =
      let dbs : DatabaseBlobStorage = record {
        database_type = database_type;
        table_name = if str_eq config.table_name "" then "blobs" else config.table_name;
        max_size = max_size_of config;
      } in
      created dbs s (create_statement dbs)

  -- The row that Store writes at the time `now`.
  unfoldable pub row_of : ℕ → String → Bytes → BlobMetadata → Row
  row_of now key contents meta = record {
    key = key;
    contents = contents;
    content_type = meta.content_type;
    filename = meta.filename;
    size = pos (length contents);
    checksum = md5_hex contents;
    tags = print_tags meta.tags;
    created_at = if meta.created_at == 0 then now else meta.created_at;
    updated_at = now;
  }

  unfoldable pub upsert : DatabaseBlobStorage → Row → Statement
  upsert dbs row =
      if str_eq dbs.database_type mysql
      then replace_into dbs.table_name row
      else insert_or_replace dbs.table_name row

  unfoldable pub store :
      DatabaseBlobStorage → ℕ → String → Bytes → BlobMetadata → S → S × Option Err
  store dbs now key contents meta s =
      if too_large dbs.max_size contents
      then (s, some (size_error dbs.max_size contents))
      else if mismatched meta.checksum (md5_hex contents)
      then (
        s,
        some (
            message
              ("checksum mismatch: expected " ++ meta.checksum ++ ", got " ++ md5_hex contents)),
      )
      else t.exec (upsert dbs (row_of now key contents meta)) s

  retrieved : String → Result Row → Result BlobData
  retrieved key (err e) = err (wrapped "blob not found: " e "")
  retrieved key (ok row) =
      ok (record { key = key; contents = row.contents; metadata = metadata_of row })

  unfoldable pub retrieve : DatabaseBlobStorage → String → S → S × Result BlobData
  unfolding retrieved
  retrieve dbs key s = let (s', r) = t.select_row dbs.table_name key s in (s', retrieved key r)

  unfoldable pub delete : DatabaseBlobStorage → String → S → S × Option Err
  delete dbs key s = t.exec (delete_from dbs.table_name key) s

  answered : Result (Unit {0}) → Bool
  answered (ok _) = true
  answered (err e) = false

  -- Exists: any error counts as "not found".
  unfoldable pub exists : DatabaseBlobStorage → String → S → S × Bool
  unfolding answered
  exists dbs key s = let (s', r) = t.select_one dbs.table_name key s in (s', answered r)

  -- The loop of List: a row whose Scan fails is left out.
  unfoldable pub infos_of : List (Result Row) → List BlobInfo
  infos_of [] = []
  infos_of (err e ∷ rows) = infos_of rows
  infos_of (ok row ∷ rows) = (record { key = row.key; metadata = metadata_of row }) ∷ infos_of rows

  -- `LIKE prefix%`, or all rows for the empty prefix.
  unfoldable pub list : DatabaseBlobStorage → String → S → S × Result (List BlobInfo)
  unfolding infos_of
  list dbs prefix s =
      let pattern = if str_eq prefix "" then none else some (prefix ++ "%") in
      let (s', r) = t.select_all dbs.table_name pattern s in (s', r >>= λ rows. ok (infos_of rows))

  unfoldable pub stats : DatabaseBlobStorage → S → S × Result BlobStats
  stats dbs s =
      let (s', r) = t.totals dbs.table_name s in
      (s', r >>= λ p. ok (record { total_blobs = p.0; total_size = p.1; used_space = p.1 }))
