-- ===== src/Tests/Blobs.antt =====
-- The theorems on the storages of blobs, on a table and a file system that are lists.
use Prim.Native.String.{◌++◌}
use fluxor_db.Base.{
  map, sym, ℕ, ◌≡◌, refl, ap, String, false, ◌&&◌, Option, none, some, List, [], ◌∷◌, length, All,
  str_eq, eq_refl, if◌then◌else◌, arith,
}
use fluxor_db.Base.Bytes
use fluxor_db.Base.Bytes.{Bytes, codes, contains, has_suffix}
use fluxor_db.Base.Decimal.{decimal}
use fluxor_db.Base.Dict.{lookup, assign, lookup-assign, str_eq-false}
use fluxor_db.Base.Int.{pos}
use fluxor_db.Errors.{Result, ok, err, message}
use fluxor_db.Blob.{too_large, BlobMetadata}
use fluxor_db.Blob.Tags.{TagMap, print_tags, parse_tags}
use fluxor_db.Blob.Tags.RoundTrip.{IsPlain, Distinct}
use fluxor_db.Blob.Database
use fluxor_db.Blob.Database.{
  Row, Statement, Table, DatabaseBlobStorage, replace_into, insert_or_replace, delete_from,
}
use fluxor_db.Blob.Database.Stored
use fluxor_db.Blob.Files
use fluxor_db.Blob.Files.{Entry, FileSystem, FilesystemBlobStorage}
use fluxor_db.Blob.Files.Stored.{IsFileSystem}
use fluxor_db.Blob.Files.Kinds
use fluxor_db.Blob.Files.Walked
use fluxor_db.Blob.Files.Walked.{sizes}

abbrev two_tags : TagMap
two_tags = (codes "owner", codes "ann") ∷ (codes "kind", codes "a:b") ∷ []

two_tags-IsPlain : All IsPlain two_tags
two_tags-IsPlain = ground arith

two_tags-Distinct : Distinct two_tags
unfolding Bytes.bytes_eq
two_tags-Distinct = ground arith

-- A comma in a value ends the pair.
comma_splits : parse_tags (print_tags ((codes "k", codes "a,b") ∷ [])) ≡ (codes "k", codes "a") ∷ []
unfolding parse_tags print_tags Bytes.trim Bytes.join Bytes.split Bytes.cut
comma_splits = refl

-- The length of the contents for a checksum.
abbrev pub md5 : Bytes → String
md5 contents = decimal (length contents)

abbrev Rows : Type 0
Rows = List (String × Row)

select_from : String → String → Rows → Result Row
select_from name key [] = err (message "no rows")
select_from name key ((n, row) ∷ rows) =
    if str_eq n name && str_eq row.key key then ok row else select_from name key rows

remove_from : String → String → Rows → Rows
remove_from name key [] = []
remove_from name key ((n, row) ∷ rows) =
    let rest = remove_from name key rows in
    if str_eq n name && str_eq row.key key then rest else (n, row) ∷ rest

run : Statement → Rows → Rows
unfolding remove_from
run (replace_into name row) rows = (name, row) ∷ rows
run (insert_or_replace name row) rows = (name, row) ∷ rows
run (delete_from name key) rows = remove_from name key rows
run _ rows = rows

abbrev memory_table : Table Rows
memory_table = record {
  exec = λ st rows. (run st rows, none);
  select_row = λ name key rows. (rows, select_from name key rows);
  select_one = λ name key rows. (rows, err (message "unused"));
  select_all = λ name pattern rows. (rows, ok []);
  totals = λ name rows. (rows, ok (pos 0, pos 0));
}

abbrev meta : BlobMetadata
meta = record {
  content_type = "image/jpeg";
  filename = "png_notes.jpg";
  size = pos 0;
  checksum = "";
  tags = two_tags;
  created_at = 0;
  updated_at = 0;
}

abbrev database : DatabaseBlobStorage
database = record { database_type = "sqlite"; table_name = "blobs"; max_size = pos 10 }

abbrev contents : Bytes
contents = 1 ∷ 2 ∷ []

abbrev rows : Rows
rows =
    (
      "blobs",
      record {
        key = "k";
        contents = contents;
        content_type = "image/jpeg";
        filename = "png_notes.jpg";
        size = pos 2;
        checksum = "2";
        tags = print_tags two_tags;
        created_at = 7;
        updated_at = 7;
      },
    )
    ∷ []

stored : Database.store md5 memory_table database 7 "k" contents meta [] ≡ (rows, none)
unfolding Database.store Database.row_of Database.upsert decimal too_large run
stored = refl

found :
    memory_table.select_row "blobs" "k" rows
    ≡ (rows, ok (Database.row_of md5 memory_table 7 "k" contents meta))
unfolding select_from Database.row_of decimal
found = refl

retrieve-row_of_example :
    (memory_table.exec
        (Database.upsert md5 memory_table database
          (Database.row_of md5 memory_table 7 "k" contents meta))
        []
      ≡ (rows, none))
    × (Database.retrieve md5 memory_table database "k" rows ≡ (
      rows,
      ok (record {
        key = "k";
        contents = contents;
        metadata = record meta {
          size = pos (length contents);
          checksum = md5 contents;
          created_at = 7;
          updated_at = 7;
        };
      }),
    ))
retrieve-row_of_example =
    Stored.retrieve-row_of md5 memory_table database 7 "k" contents meta [] rows rows rows
      two_tags-IsPlain two_tags-Distinct stored found

-- Files by their paths, the newest in front. Only the calls that write and read a file do anything.
abbrev pub Disk : Type 0
Disk = List (String × Bytes)

abbrev file_of : Option Bytes → Result Bytes
file_of none = err (message "no such file")
file_of (some text) = ok text

abbrev entry_of : String × Bytes → Entry
entry_of (path, text) = record {
  path = path;
  failed = false;
  is_dir = false;
  size = length text;
  mod_time = 5;
}

abbrev pub disk : FileSystem Disk
disk = record {
  join = λ root key. root ++ key;
  dir = λ path. "";
  rel = λ root path. path;
  mkdir_all = λ path d. (d, none);
  write_file = λ path text d. (assign path text d, none);
  read_file = λ path d. file_of (lookup path d);
  remove = λ path d. (d, none);
  stat = λ path d. none;
  walk = λ root d. (map entry_of d, none);
}

pub disk-IsFileSystem : IsFileSystem disk
disk-IsFileSystem = record {
  read-write_self = λ path text d d' e.
      rw (← ap (λ p. p.0) e) (rw (lookup-assign path path text d, eq_refl path) refl);
  read-write_ne = λ path other text d d' e ne.
      rw (← ap (λ p. p.0) e) (
        rw (lookup-assign path other text d, str_eq-false path other (λ same. ne (sym same))) refl);
}

abbrev folder : FilesystemBlobStorage
folder = record { root_path = "/"; max_size = pos 10 }

abbrev clock : ℕ → String
clock t = decimal t

abbrev files : Disk
files = ("/k", contents) ∷ ("/k.meta", Files.metadata_text md5 clock disk 1 2 contents meta) ∷ []

written : Files.store md5 clock disk folder 1 2 "k" contents meta [] ≡ (files, none)
unfolding Files.store too_large assign
written = refl

retrieve-store_png_example :
    Files.retrieve md5 clock disk folder 8 9 "k" files
    ≡ ok (record {
      key = "k";
      contents = contents;
      metadata = record {
        content_type = "image/png";
        filename = "";
        size = pos (length contents);
        checksum = md5 contents;
        tags = [];
        created_at = 8;
        updated_at = 9;
      };
    })
unfolding contains
retrieve-store_png_example =
    Kinds.retrieve-store_png md5 clock disk 1 2 contents meta folder 8 9 "k" [] files
      disk-IsFileSystem refl refl written

one_listed : length (Files.list md5 clock disk folder "" files).0 ≡ 1
unfolding Files.list Files.info_of has_suffix
one_listed = refl

two_bytes : sizes (Files.list md5 clock disk folder "" files).0 ≡ 2
unfolding Files.list Files.info_of has_suffix sizes
two_bytes = refl

stats-list_example :
    let r = Files.stats md5 clock disk folder files in
    let l = Files.list md5 clock disk folder "" files in
    (r.0.total_blobs ≡ pos (length l.0)) × (r.0.total_size ≡ pos (sizes l.0)) × (r.1 ≡ l.1)
stats-list_example =
    Walked.stats-list md5 clock disk folder files (omega (arith, one_listed))
      (omega (arith, two_bytes))
