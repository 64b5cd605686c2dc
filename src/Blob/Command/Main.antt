-- ===== src/Blob/Command/Main.antt =====
-- cmd/blobonly/main.go: the function main, after flag.Parse, with the root and the arguments that
-- flag found. `stdin` is what io.ReadAll makes of the standard input.
use fluxor_db.Base.{ℕ, String, Option, none, some, List, [], ◌∷◌, str_eq, if◌then◌else◌}
use fluxor_db.Base.Bytes.{Bytes}
use fluxor_db.Base.Int.{ℤ, pos}
use fluxor_db.Errors.{Err, Result, ok, err}
use fluxor_db.Blob.{BlobData, BlobInfo, BlobStats}
use fluxor_db.Blob.Files.{FileSystem, FilesystemBlobStorage}
use fluxor_db.Blob.Command.{
  Codec, PutOptions, put_options, get_output, no_options, described, Output, ok_line, contents_of,
  nothing, listing, summary, Exit, done, misused, failed, panicked, new_storage, store, retrieve,
  delete, list, stats,
}

-- The lines of list.
unfoldable pub lines : List BlobInfo → List (String × ℤ)
lines [] = []
lines (i ∷ infos) = (i.key, i.metadata.size) ∷ lines infos

module _ {S : Type 0} where
  abbrev pub finished : String → Output → S × Option Err → S × Exit
  finished label out (s, none) = (s, done out)
  finished label out (s, some e) = (s, failed label e)

  unfoldable pub list_exit : S → Option (Result (List BlobInfo)) → S × Exit
  unfolding lines
  list_exit s none = (s, panicked)
  list_exit s (some (err e)) = (s, failed "list:" e)
  list_exit s (some (ok infos)) = (s, done (listing (lines infos)))

  unfoldable pub stat_exit : S → Option (Result BlobStats) → S × Exit
  stat_exit s none = (s, panicked)
  stat_exit s (some (err e)) = (s, failed "stats:" e)
  stat_exit s (some (ok t)) = (s, done (summary t.total_blobs t.total_size))

module _ (md5_hex : Bytes → String) (codec : Codec) {S : Type 0} (fs : FileSystem S)
    (clean : String → String) (info : String → S → Option (ℕ × ℕ)) (now later : ℕ)
    (stdin : Result Bytes) where
  unfoldable pub put_contents :
      FilesystemBlobStorage → String → PutOptions → String → Result Bytes → S → S × Exit
  put_contents fbs key o label (err e) s = (s, failed label e)
  put_contents fbs key o label (ok contents) s =
      finished "store:" ok_line
        (store md5_hex codec fs clean info fbs now later key contents (described o) s)

  unfoldable pub put_with : FilesystemBlobStorage → String → PutOptions → S → S × Exit
  unfolding put_contents
  put_with fbs key o s =
      if str_eq o.file ""
      then put_contents fbs key o "stdin:" stdin s
      else put_contents fbs key o "read file:" (fs.read_file o.file s) s

  unfoldable pub put_command : FilesystemBlobStorage → List String → S → S × Exit
  unfolding put_with
  put_command fbs [] s = (s, misused)
  put_command fbs (key ∷ args) s = put_with fbs key (put_options args no_options) s

  unfoldable pub get_blob : String → Result BlobData → S → S × Exit
  get_blob out (err e) s = (s, failed "retrieve:" e)
  get_blob out (ok blob) s =
      if str_eq out ""
      then (s, done (contents_of blob.contents))
      else finished "write:" nothing (fs.write_file out blob.contents s)

  unfoldable pub get_command : FilesystemBlobStorage → List String → S → S × Exit
  unfolding get_blob
  get_command fbs [] s = (s, misused)
  get_command fbs (key ∷ args) s =
      get_blob (get_output args "") (retrieve md5_hex codec fs clean info fbs now later key s) s

  unfoldable pub del_command : FilesystemBlobStorage → List String → S → S × Exit
  del_command fbs [] s = (s, misused)
  del_command fbs (key ∷ args) s =
      finished "delete:" ok_line (delete md5_hex codec fs clean info fbs key s)

  unfoldable pub list_command : FilesystemBlobStorage → List String → S → S × Exit
  unfolding list_exit
  list_command fbs [] s = list_exit s (list md5_hex codec fs clean info fbs "" s)
  list_command fbs (prefix ∷ args) s = list_exit s (list md5_hex codec fs clean info fbs prefix s)

  unfoldable pub dispatch : String → List String → FilesystemBlobStorage → S → S × Exit
  unfolding put_command get_command del_command list_command stat_exit
  dispatch cmd args fbs s =
      if str_eq cmd "put"
      then put_command fbs args s
      else if str_eq cmd "get"
      then get_command fbs args s
      else if str_eq cmd "del"
      then del_command fbs args s
      else if str_eq cmd "list"
      then list_command fbs args s
      else if str_eq cmd "stat"
      then stat_exit s (stats md5_hex codec fs clean info fbs s)
      else (s, misused)

  unfoldable pub started : String → List String → S × Result FilesystemBlobStorage → S × Exit
  unfolding dispatch
  started cmd args (s, err e) = (s, failed "error:" e)
  started cmd args (s, ok fbs) = dispatch cmd args fbs s

  unfoldable pub run : String → List String → S → S × Exit
  unfolding started
  run root [] s = (s, misused)
  run root (cmd ∷ args) s =
      if str_eq root ""
      then (s, misused)
      else started cmd args (new_storage md5_hex codec fs clean info root (pos 0) s)
