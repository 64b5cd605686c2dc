-- ===== src/Blob/Tags.antt =====
-- blob.go: the tags of a blob, as DatabaseBlobStorage writes them into one column and reads them
-- back. A Go map is a list of pairs; `print_tags` takes it in the order of the iteration.
pub mod RoundTrip
use fluxor_db.Base.{
  ℕ, Bool, true, false, ◌||◌, Option, none, some, List, [], ◌∷◌, ◌++◌, map, ◌==◌, if◌then◌else◌,
}
use fluxor_db.Base.Bytes.{Bytes, bytes_eq, trim, split, cut, join}

abbrev pub TagMap : Type 0
TagMap = List (Bytes × Bytes)

abbrev pub quote : ℕ
quote = b'"'

abbrev pub quoted : Bytes → Bytes
quoted s = (quote ∷ s) ++ quote ∷ []

-- `"%s":"%s"`
abbrev pub print_pair : Bytes × Bytes → Bytes
print_pair (k, v) = quoted k ++ (b':' ∷ quoted v)

unfoldable pub print_tags : TagMap → Bytes
print_tags [] = []
print_tags (t ∷ tags) = b'{' ∷ join b',' (map print_pair (t ∷ tags)) ++ b'}' ∷ []

-- tags[key] = value
unfoldable pub put_tag : Bytes → Bytes → TagMap → TagMap
put_tag k v [] = (k, v) ∷ []
put_tag k v ((j, w) ∷ tags) = if bytes_eq j k then (k, v) ∷ tags else (j, w) ∷ put_tag k v tags

abbrev pub is_brace : ℕ → Bool
is_brace c = c == b'{' || c == b'}'

abbrev pub is_quote : ℕ → Bool
is_quote c = c == quote

-- `if len(parts) == 2`
read_pair : Option (Bytes × Bytes) → TagMap → TagMap
unfolding put_tag
read_pair none tags = tags
read_pair (some (x, y)) tags = put_tag (trim is_quote x) (trim is_quote y) tags

-- The loop over the pairs.
unfoldable pub read_pairs : List Bytes → TagMap → TagMap
unfolding read_pair
read_pairs [] tags = tags
read_pairs (pair ∷ pairs) tags = read_pairs pairs (read_pair (cut b':' pair) tags)

trimmed : Bytes → TagMap
unfolding read_pairs
trimmed [] = []
trimmed (c ∷ s) = read_pairs (split b',' (c ∷ s)) []

unfoldable pub parse_tags : Bytes → TagMap
unfolding trimmed
parse_tags [] = []
parse_tags (c ∷ s) = trimmed (trim is_brace (c ∷ s))
