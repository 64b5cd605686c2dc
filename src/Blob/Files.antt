-- ===== src/Blob/Files.antt =====
-- blob.go: FilesystemBlobStorage.
--
-- `FileSystem` is what the packages os and filepath answer, on a state `S`; `md5_hex` is the
-- hexadecimal MD5 checksum and `rfc3339` the text of a time.
pub mod Stored
pub mod Kinds
pub mod Walked
use Prim.Native.String.{◌++◌}
use fluxor_db.Base.{
  ℕ, ◌+◌, String, Bool, true, false, ◌&&◌, ◌||◌, not, Option, none, some, List, [], ◌∷◌, str_eq,
  length, if◌then◌else◌,
}
use fluxor_db.Base.Bytes.{Bytes, codes, contains, has_prefix, has_suffix}
use fluxor_db.Base.Decimal.{decimal}
use fluxor_db.Base.Int.{ℤ, pos, int64, ◌+ℤ◌}
use fluxor_db.Errors.{Err, Result, ok, err, message, wrapped, ◌>>=◌}
use fluxor_db.Blob.{
  BlobMetadata, BlobData, BlobInfo, BlobStats, BlobStorageConfig, max_size_of, too_large,
  size_error,
}

-- What filepath.Walk hands to its function, once for each file and directory.
pub record Entry : Type 0 where
  pub path : String
  pub failed : Bool
  pub is_dir : Bool
  pub size : ℕ
  pub mod_time : ℕ

pub record FileSystem (S : Type 0) : Type 0 where
  pub join : String → String → String
  pub dir : String → String
  pub rel : String → String → String
  pub mkdir_all : String → S → S × Option Err
  pub write_file : String → Bytes → S → S × Option Err
  pub read_file : String → S → Result Bytes
  pub remove : String → S → S × Option Err
  pub stat : String → S → Option Err
  pub walk : String → S → List Entry × Option Err

pub record FilesystemBlobStorage : Type 0 where
  pub root_path : String
  pub max_size : ℤ

abbrev pub meta_path : String → String
meta_path path = path ++ ".meta"

-- Which content type Retrieve finds in the text of the metadata file; "" for none.
unfoldable pub kind_of : Bytes → String
kind_of text =
    if contains text (codes "image/")
    then if contains text (codes "png")
      then "image/png"
      else if contains text (codes "gif")
      then "image/gif"
      else "image/jpeg"
    else ""

-- The error of a step under its label, or the next step.
abbrev pub after : {S : Type 0} → String → S × Option Err → (S → S × Option Err) → S × Option Err
after label (s, some e) next = (s, some (wrapped label e ""))
after label (s, none) next = next s

module _ (md5_hex : Bytes → String) (rfc3339 : ℕ → String) {S : Type 0} (fs : FileSystem S) where
  opened : FilesystemBlobStorage → S × Option Err → S × Result FilesystemBlobStorage
  opened fbs (s, none) = (s, ok fbs)
  opened fbs (s, some e) = (s, err (wrapped "failed to create root directory: " e ""))

  unfoldable pub new_filesystem_blob_storage :
      BlobStorageConfig → S → S × Result FilesystemBlobStorage
  unfolding opened
  new_filesystem_blob_storage config s =
      if str_eq config.root_path ""
      then (s, err (message "root path is required for filesystem blob storage"))
      else opened (record { root_path = config.root_path; max_size = max_size_of config })
          (fs.mkdir_all config.root_path s)

  -- The text of the metadata file; the time is read twice.
  unfoldable pub metadata_text : ℕ → ℕ → Bytes → BlobMetadata → Bytes
  metadata_text now later contents meta = codes (
      "{\n\t\t\"content_type\": \""
      ++ (meta.content_type
          ++ ("\",\n\t\t\"filename\": \""
              ++ (meta.filename
                  ++ ("\",\n\t\t\"size\": "
                      ++ (decimal (length contents)
                          ++ (",\n\t\t\"checksum\": \""
                              ++ (md5_hex contents
                                  ++ ("\",\n\t\t\"created_at\": \""
                                      ++ (rfc3339 now
                                          ++ ("\",\n\t\t\"updated_at\": \""
                                              ++ (rfc3339 later ++ "\"\n\t}"))))))))))))

  unfoldable pub store :
      FilesystemBlobStorage → ℕ → ℕ → String → Bytes → BlobMetadata → S → S × Option Err
  store fbs now later key contents meta s =
      let path = fs.join fbs.root_path key in
      if too_large fbs.max_size contents
      then (s, some (size_error fbs.max_size contents))
      else after "failed to create directory: " (fs.mkdir_all (fs.dir path) s) (λ s1.
        after "failed to write blob: " (fs.write_file path contents s1)
          (λ s2. fs.write_file (meta_path path) (metadata_text now later contents meta) s2))

  abbrev pub kind_from : Result Bytes → String
  kind_from (ok text) = kind_of text
  kind_from (err e) = ""

  unfoldable pub retrieve : FilesystemBlobStorage → ℕ → ℕ → String → S → Result BlobData
  retrieve fbs now later key s =
      let path = fs.join fbs.root_path key in
      elim (fs.read_file path s) [
        | err e ↦ err (wrapped "blob not found: " e "")
        | ok contents ↦ ok (record {
          key = key;
          contents = contents;
          metadata = record {
            content_type = kind_from (fs.read_file (meta_path path) s);
            filename = "";
            size = pos (length contents);
            checksum = md5_hex contents;
            tags = [];
            created_at = now;
            updated_at = later;
          };
        })
      ]

  -- The result of the first Remove is dropped.
  unfoldable pub delete : FilesystemBlobStorage → String → S → S × Option Err
  delete fbs key s =
      let path = fs.join fbs.root_path key in fs.remove path (fs.remove (meta_path path) s).0

  unfoldable pub exists : FilesystemBlobStorage → String → S → Bool
  exists fbs key s = elim (fs.stat (fs.join fbs.root_path key) s) [ none ↦ true | some e ↦ false ]

  -- What the functions of both walks skip.
  abbrev pub skipped : Entry → Bool
  skipped e = e.failed || (e.is_dir || has_suffix (codes e.path) (codes ".meta"))

  unfoldable pub info_of : FilesystemBlobStorage → Entry → BlobInfo
  info_of fbs e = record {
    key = fs.rel fbs.root_path e.path;
    metadata = record {
      content_type = "";
      filename = "";
      size = pos e.size;
      checksum = "";
      tags = [];
      created_at = e.mod_time;
      updated_at = e.mod_time;
    };
  }

  abbrev pub has_key_prefix : String → BlobInfo → Bool
  has_key_prefix prefix i = str_eq prefix "" || has_prefix (codes i.key) (codes prefix)

  unfoldable pub infos_of : FilesystemBlobStorage → String → List Entry → List BlobInfo
  infos_of fbs prefix [] = []
  infos_of fbs prefix (e ∷ entries) =
      let rest = infos_of fbs prefix entries in
      let i = info_of fbs e in
      if skipped e then rest else if has_key_prefix prefix i then i ∷ rest else rest

  unfoldable pub list : FilesystemBlobStorage → String → S → List BlobInfo × Option Err
  unfolding infos_of
  list fbs prefix s = let (entries, e) = fs.walk fbs.root_path s in (infos_of fbs prefix entries, e)

  -- totalBlobs++ and totalSize += info.Size(), in int64.
  unfoldable pub totals : List Entry → ℤ → ℤ → ℤ × ℤ
  totals [] blobs size = (blobs, size)
  totals (e ∷ entries) blobs size =
      let next = totals entries (int64 (blobs +ℤ pos 1)) (int64 (size +ℤ pos e.size)) in
      let rest = totals entries blobs size in if skipped e then rest else next

  unfoldable pub stats : FilesystemBlobStorage → S → BlobStats × Option Err
  unfolding totals
  stats fbs s =
      let (entries, e) = fs.walk fbs.root_path s in
      let (blobs, size) = totals entries (pos 0) (pos 0) in
      (record { total_blobs = blobs; total_size = size; used_space = size }, e)
