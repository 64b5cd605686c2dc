-- ===== src/Blob/Command.antt =====
-- cmd/blobonly/main.go: the file system storage of the command, with its metadata as JSON, and the
-- command line.
--
-- The packages os and filepath are a `FileSystem`; `clean` is filepath.Clean, `info` is os.Stat with
-- the size and the time of a file, and `Codec` is encoding/json on BlobMetadata.
pub mod Main
pub mod Stored
pub mod RoundTrip
use Prim.Native.String.{◌++◌}
use fluxor_db.Base.{
  ℕ, ◌+◌, String, Bool, true, false, ◌||◌, Option, none, some, List, [], ◌∷◌, str_eq, length, ◌==◌,
  if◌then◌else◌,
}
use fluxor_db.Base.Bytes.{Bytes, codes, has_prefix, has_suffix}
use fluxor_db.Base.Int.{ℤ, pos, is_pos, int64, ◌+ℤ◌}
use fluxor_db.Errors.{Err, Result, ok, err, message, wrapped}
use fluxor_db.Blob.{BlobMetadata, BlobData, BlobInfo, BlobStats, too_large, size_error}
use fluxor_db.Blob.Files.{Entry, FileSystem, FilesystemBlobStorage, meta_path, after}

-- MarshalIndent, and Unmarshal into a value that is there already; its error is dropped.
pub record Codec : Type 0 where
  pub marshal : BlobMetadata → Result Bytes
  pub unmarshal : Bytes → BlobMetadata → BlobMetadata

-- The options of put.
pub record PutOptions : Type 0 where
  pub file : String
  pub content_type : String
  pub filename : String

pub data PutFlag : Type 0 where
  file_flag content_type_flag filename_flag other_flag : PutFlag

unfoldable pub put_flag : String → PutFlag
put_flag a =
    if str_eq a "-f"
    then file_flag
    else if str_eq a "-ct"
    then content_type_flag
    else if str_eq a "-fn"
    then filename_flag
    else other_flag

-- The loop over the arguments of put: a flag at the end has no value and does nothing.
unfoldable pub put_options : List String → PutOptions → PutOptions
unfolding put_flag
put_options [] o = o
put_options (a ∷ []) o = o
put_options (a ∷ b ∷ args) o = elim (put_flag a) [
  | file_flag ↦ put_options args (record o { file = b })
  | content_type_flag ↦ put_options args (record o { content_type = b })
  | filename_flag ↦ put_options args (record o { filename = b })
  | other_flag ↦ put_options (b ∷ args) o
]

-- The loop over the arguments of get.
unfoldable pub get_output : List String → String → String
get_output [] out = out
get_output (a ∷ []) out = out
get_output (a ∷ b ∷ args) out = elim (str_eq a "-o") [
  | true ↦ get_output args b
  | false ↦ get_output (b ∷ args) out
]

abbrev pub no_options : PutOptions
no_options = record { file = ""; content_type = "application/octet-stream"; filename = "" }

abbrev pub described : PutOptions → BlobMetadata
described o = record {
  content_type = o.content_type;
  filename = o.filename;
  size = pos 0;
  checksum = "";
  tags = [];
  created_at = 0;
  updated_at = 0;
}

-- What the command writes when it ends well.
pub data Output : Type 0 where
  ok_line : Output
  contents_of : Bytes → Output
  nothing : Output
  listing : List (String × ℤ) → Output
  summary : ℤ → ℤ → Output

-- How the command ends: well, with code 2 after the usage, with code 1 after an error, or in a
-- panic.
pub data Exit : Type 0 where
  done : Output → Exit
  misused : Exit
  failed : String → Err → Exit
  panicked : Exit

module _ (md5_hex : Bytes → String) (codec : Codec) {S : Type 0} (fs : FileSystem S)
    (clean : String → String) (info : String → S → Option (ℕ × ℕ)) where
  abbrev pub file_path : FilesystemBlobStorage → String → String
  file_path fbs key = fs.join fbs.root_path (clean key)

  rooted : FilesystemBlobStorage → S × Option Err → S × Result FilesystemBlobStorage
  rooted fbs (s, none) = (s, ok fbs)
  rooted fbs (s, some e) = (s, err (wrapped "create root: " e ""))

  unfoldable pub new_storage : String → ℤ → S → S × Result FilesystemBlobStorage
  unfolding rooted
  new_storage root max_size s =
      if str_eq root ""
      then (s, err (message "-root is required"))
      else rooted
          (record {
            root_path = root;
            max_size = if is_pos max_size then max_size else pos 104857600;
          })
          (fs.mkdir_all root s)

  -- The metadata that Store writes; the time is read twice.
  abbrev pub completed : ℕ → ℕ → Bytes → BlobMetadata → BlobMetadata
  completed now later contents meta = record meta {
    size = pos (length contents);
    checksum = md5_hex contents;
    created_at = if meta.created_at == 0 then now else meta.created_at;
    updated_at = later;
  }

  unfoldable pub write_metadata : String → Result Bytes → S → S × Option Err
  write_metadata path (err e) s = (s, some (wrapped "marshal metadata: " e ""))
  write_metadata path (ok text) s = fs.write_file (meta_path path) text s

  unfoldable pub store :
      FilesystemBlobStorage → ℕ → ℕ → String → Bytes → BlobMetadata → S → S × Option Err
  unfolding write_metadata
  store fbs now later key contents meta s =
      let path = file_path fbs key in
      if too_large fbs.max_size contents
      then (s, some (size_error fbs.max_size contents))
      else after "mkdir: " (fs.mkdir_all (fs.dir path) s) (λ s1.
        after "write blob: " (fs.write_file path contents s1)
          (λ s2. write_metadata path (codec.marshal (completed now later contents meta)) s2))

  abbrev pub read_metadata : Result Bytes → BlobMetadata → BlobMetadata
  read_metadata (ok text) meta = codec.unmarshal text meta
  read_metadata (err e) meta = meta

  -- From what the two files of a key hold.
  unfoldable pub retrieved : ℕ → ℕ → String → Result Bytes → Result Bytes → Result BlobData
  retrieved now later key (err e) text = err (wrapped "blob not found: " e "")
  retrieved now later key (ok contents) text = ok (record {
    key = key;
    contents = contents;
    metadata = read_metadata text (record {
      content_type = "";
      filename = "";
      size = pos (length contents);
      checksum = md5_hex contents;
      tags = [];
      created_at = later;
      updated_at = now;
    });
  })

  unfoldable pub retrieve : FilesystemBlobStorage → ℕ → ℕ → String → S → Result BlobData
  unfolding retrieved
  retrieve fbs now later key s =
      let path = file_path fbs key in
      retrieved now later key (fs.read_file path s) (fs.read_file (meta_path path) s)

  unfoldable pub delete : FilesystemBlobStorage → String → S → S × Option Err
  delete fbs key s = let path = file_path fbs key in fs.remove path (fs.remove (meta_path path) s).0

  unfoldable pub exists : FilesystemBlobStorage → String → S → Bool
  exists fbs key s = elim (fs.stat (file_path fbs key) s) [ none ↦ true | some e ↦ false ]

  abbrev pub skipped : Entry → Bool
  skipped e = e.failed || (e.is_dir || has_suffix (codes e.path) (codes ".meta"))

  unfoldable pub info_at : String → ℕ × ℕ → BlobInfo
  info_at key (size, mod_time) = record {
    key = key;
    metadata = record {
      content_type = "";
      filename = "";
      size = pos size;
      checksum = "";
      tags = [];
      created_at = mod_time;
      updated_at = mod_time;
    };
  }

  abbrev pub add_info : String → Option (ℕ × ℕ) → List BlobInfo → Option (List BlobInfo)
  add_info key none infos = none
  add_info key (some i) infos = some (info_at key i ∷ infos)

  abbrev pub add_infos : String → Option (ℕ × ℕ) → Option (List BlobInfo) → Option (List BlobInfo)
  add_infos key i none = none
  add_infos key i (some infos) = add_info key i infos

  -- `none` is the panic when os.Stat has no answer for a file of the walk.
  unfoldable pub infos_of : FilesystemBlobStorage → String → List Entry → S → Option (List BlobInfo)
  unfolding info_at
  infos_of fbs prefix [] s = some []
  infos_of fbs prefix (e ∷ entries) s =
      let rest = infos_of fbs prefix entries s in
      let key = fs.rel fbs.root_path e.path in
      if skipped e
      then rest
      else if str_eq prefix "" || has_prefix (codes key) (codes prefix)
      then add_infos key (info e.path s) rest
      else rest

  abbrev pub listed_as : Option (List BlobInfo) → Option Err → Option (Result (List BlobInfo))
  listed_as none e = none
  listed_as (some infos) none = some (ok infos)
  listed_as (some infos) (some e) = some (err e)

  unfoldable pub list : FilesystemBlobStorage → String → S → Option (Result (List BlobInfo))
  unfolding infos_of
  list fbs prefix s =
      let (entries, e) = fs.walk fbs.root_path s in listed_as (infos_of fbs prefix entries s) e

  abbrev pub add_size : Option (ℕ × ℕ) → ℤ × ℤ → Option (ℤ × ℤ)
  add_size none t = none
  add_size (some (size, mod_time)) (blobs, total) =
      some (int64 (blobs +ℤ pos 1), int64 (total +ℤ pos size))

  -- totalBlobs++ and totalSize += fi.Size(), in the order of the walk.
  unfoldable pub totals : List Entry → S → Option (ℤ × ℤ) → Option (ℤ × ℤ)
  totals [] s t = t
  totals (e ∷ entries) s none = none
  totals (e ∷ entries) s (some t) =
      totals entries s (if skipped e then some t else add_size (info e.path s) t)

  abbrev pub stats_as : Option (ℤ × ℤ) → Option Err → Option (Result BlobStats)
  stats_as none e = none
  stats_as (some (blobs, size)) none =
      some (ok (record { total_blobs = blobs; total_size = size; used_space = size }))
  stats_as (some t) (some e) = some (err e)

  unfoldable pub stats : FilesystemBlobStorage → S → Option (Result BlobStats)
  unfolding totals
  stats fbs s =
      let (entries, e) = fs.walk fbs.root_path s in
      stats_as (totals entries s (some (pos 0, pos 0))) e
