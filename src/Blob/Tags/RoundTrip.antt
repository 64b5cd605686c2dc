-- ===== src/Blob/Tags/RoundTrip.antt =====
-- blob.go: when the tags that are read are the tags that were written.
use fluxor_db.Base.{
  ℕ, ◌≡◌, refl, sym, ap, ◌∙◌, Bool, false, ◌||◌, some, [], ◌∷◌, ◌++◌, map, ◌==◌, All, arith,
}
use mathlib.Core.List.{append-nil, append_assoc}
use fluxor_db.Base.Bytes.{Bytes, bytes_eq, trim, trim_left, split, cut, join}
use fluxor_db.Base.Bytes.Laws.{
  Free, Free-append, trim_right-Free, trim_right-last_in, Ends, Ends-cons, Ends-append,
  trim_right-Ends, split-last, split-append, cut-append,
}
use fluxor_db.Blob.Tags.{
  TagMap, quote, quoted, print_pair, print_tags, put_tag, is_brace, is_quote, read_pair, read_pairs,
  trimmed, parse_tags,
}

-- A key has no quote, comma or colon, a value no quote and no comma.
abbrev pub key_stops : ℕ → Bool
key_stops c = c == quote || (c == b',' || c == b':')

abbrev pub value_stops : ℕ → Bool
value_stops c = c == quote || c == b','

abbrev pub IsPlain : Bytes × Bytes → Type 0
IsPlain (k, v) = Free key_stops k × Free value_stops v

-- No pair has the key.
abbrev pub Absent : Bytes → TagMap → Type 0
Absent k tags = All (λ t. bytes_eq t.0 k ≡ false) tags

abbrev pub Distinct : TagMap → Type 0
Distinct [] = Unit
Distinct ((k, v) ∷ tags) = All (λ t. bytes_eq k t.0 ≡ false) tags × Distinct tags

weaken :
    (p q : ℕ → Bool) → ((c : ℕ) → p c ≡ false → q c ≡ false) → (s : Bytes) → Free p s → Free q s
weaken p q f [] h = tt
weaken p q f (c ∷ s) h = (f c h.0, weaken p q f s h.1)

key_quotes : (k : Bytes) → Free key_stops k → Free is_quote k
key_quotes k h = weaken key_stops is_quote (λ c e. ground arith) k h

value_quotes : (v : Bytes) → Free value_stops v → Free is_quote v
value_quotes v h = weaken value_stops is_quote (λ c e. ground arith) v h

-- A text in quotes is trimmed to itself.
trim-quoted : (k : Bytes) → Free is_quote k → trim is_quote (quoted k) ≡ k
unfolding trim trim_left
trim-quoted [] h = refl
trim-quoted (c ∷ k) h =
    rw h.0 (trim_right-last_in is_quote (c ∷ k) quote refl ∙ trim_right-Free is_quote (c ∷ k) h)

quoted-Free : (p : ℕ → Bool) (s : Bytes) → p quote ≡ false → Free p s → Free p (quoted s)
quoted-Free p s q h = (q, Free-append p s (quote ∷ []) h (q, tt))

print_pair-commas : (t : Bytes × Bytes) → IsPlain t → Free (λ c. c == b',') (print_pair t)
print_pair-commas (k, v) h =
    let p = λ (c : ℕ). c == b',' in
    let ks = weaken key_stops p (λ c e. ground arith) k h.0 in
    let vs = weaken value_stops p (λ c e. ground arith) v h.1 in
    Free-append p (quoted k) (b':' ∷ quoted v) (quoted-Free p k refl ks)
      (refl, quoted-Free p v refl vs)

cut-print_pair :
    (k v : Bytes) → Free key_stops k → cut b':' (print_pair (k, v)) ≡ some (quoted k, quoted v)
cut-print_pair k v h =
    let p = λ (c : ℕ). c == b':' in
    cut-append b':' (quoted k) (quoted v)
      (quoted-Free p k refl (weaken key_stops p (λ c e. ground arith) k h))

read_pair-print_pair :
    (k v : Bytes) (tags : TagMap)
    → IsPlain (k, v)
    → read_pair (cut b':' (print_pair (k, v))) tags ≡ put_tag k v tags
unfolding read_pair
read_pair-print_pair k v tags h =
    rw
      (cut-print_pair k v h.0, trim-quoted k (key_quotes k h.0), trim-quoted v (value_quotes v h.1))
      refl

split-join :
    (t : Bytes × Bytes) (tags : TagMap)
    → All IsPlain (t ∷ tags)
    → split b',' (join b',' (map print_pair (t ∷ tags))) ≡ map print_pair (t ∷ tags)
unfolding join
split-join t [] h = split-last b',' (print_pair t) (print_pair-commas t h.0)
split-join t (u ∷ tags) h =
    split-append b',' (print_pair t) (join b',' (map print_pair (u ∷ tags)))
      (print_pair-commas t h.0)
    ∙ ap (λ l. print_pair t ∷ l) (split-join u tags h.1)

join-Ends : (t : Bytes × Bytes) (tags : TagMap) → Ends quote (join b',' (map print_pair (t ∷ tags)))
unfolding join
join-Ends (k, v) [] =
    Ends-append quote (quoted k) (b':' ∷ quoted v)
      (Ends-append quote (b':' ∷ quote ∷ v) (quote ∷ []) refl)
join-Ends (k, v) (u ∷ tags) =
    let rest = join b',' (map print_pair (u ∷ tags)) in
    Ends-append quote (print_pair (k, v)) (b',' ∷ rest)
      (Ends-cons quote b',' rest (join-Ends u tags))

-- No brace is taken off the joined pairs at their left.
join_left :
    (t : Bytes × Bytes) (tags : TagMap) (s : Bytes)
    → trim_left is_brace (join b',' (map print_pair (t ∷ tags)) ++ s)
      ≡ join b',' (map print_pair (t ∷ tags)) ++ s
unfolding join trim_left
join_left (k, v) [] s = refl
join_left (k, v) (u ∷ tags) s = refl

trim-braces :
    (t : Bytes × Bytes) (tags : TagMap)
    → trim is_brace (print_tags (t ∷ tags)) ≡ join b',' (map print_pair (t ∷ tags))
unfolding print_tags trim trim_left
trim-braces t tags =
    let body = join b',' (map print_pair (t ∷ tags)) in
    rw (join_left t tags (b'}' ∷ [])) (
      trim_right-last_in is_brace body b'}' refl
      ∙ trim_right-Ends is_brace quote body refl (join-Ends t tags))

put_tag-Absent :
    (k v : Bytes) (tags : TagMap) → Absent k tags → put_tag k v tags ≡ tags ++ (k, v) ∷ []
unfolding put_tag
put_tag-Absent k v [] h = refl
put_tag-Absent k v ((j, w) ∷ tags) h = rw (h.0, put_tag-Absent k v tags h.1) refl

Absent-append :
    (k j v : Bytes) (tags : TagMap)
    → Absent k tags
    → bytes_eq j k ≡ false
    → Absent k (tags ++ (j, v) ∷ [])
Absent-append k j v [] h e = (e, tt)
Absent-append k j v (t ∷ tags) h e = (h.0, Absent-append k j v tags h.1 e)

-- One more pair in front of which all that follow are absent.
Absent-next :
    (j v : Bytes) (tags acc : TagMap)
    → All (λ t. Absent t.0 acc) tags
    → All (λ t. bytes_eq j t.0 ≡ false) tags
    → All (λ t. Absent t.0 (acc ++ (j, v) ∷ [])) tags
Absent-next j v [] acc h e = tt
Absent-next j v ((k, w) ∷ tags) acc h e =
    (Absent-append k j v acc h.0 e.0, Absent-next j v tags acc h.1 e.1)

read_pairs-print :
    (tags acc : TagMap)
    → All IsPlain tags
    → Distinct tags
    → All (λ t. Absent t.0 acc) tags
    → read_pairs (map print_pair tags) acc ≡ acc ++ tags
unfolding read_pairs
read_pairs-print [] acc h d a = sym (append-nil acc)
read_pairs-print ((k, v) ∷ tags) acc h d a =
    ap (read_pairs (map print_pair tags))
      (read_pair-print_pair k v acc h.0 ∙ put_tag-Absent k v acc a.0)
    ∙ read_pairs-print tags (acc ++ (k, v) ∷ []) h.1 d.1 (Absent-next k v tags acc a.1 d.0)
    ∙ append_assoc acc ((k, v) ∷ []) tags

Absent-nil : (tags : TagMap) → All (λ t. Absent t.0 []) tags
Absent-nil [] = tt
Absent-nil (t ∷ tags) = (tt, Absent-nil tags)

opened :
    (t : Bytes × Bytes) (tags : TagMap)
    → parse_tags (print_tags (t ∷ tags)) ≡ trimmed (trim is_brace (print_tags (t ∷ tags)))
unfolding parse_tags print_tags
opened t tags = refl

nonempty_join :
    (t : Bytes × Bytes) (tags : TagMap)
    → trimmed (join b',' (map print_pair (t ∷ tags)))
      ≡ read_pairs (split b',' (join b',' (map print_pair (t ∷ tags)))) []
unfolding join trimmed
nonempty_join (k, v) [] = refl
nonempty_join (k, v) (u ∷ tags) = refl

parsed :
    (t : Bytes × Bytes) (tags : TagMap)
    → parse_tags (print_tags (t ∷ tags))
      ≡ read_pairs (split b',' (join b',' (map print_pair (t ∷ tags)))) []
unfolding parse_tags
parsed t tags = opened t tags ∙ ap trimmed (trim-braces t tags) ∙ nonempty_join t tags

-- Tags with different keys, whose keys hold no quote, comma or colon and whose values hold no
-- quote and no comma, are read back from the text that Store writes for them exactly as they were,
-- in the same order.
pub parse_tags-print_tags :
    (tags : TagMap) → All IsPlain tags → Distinct tags → parse_tags (print_tags tags) ≡ tags
parse_tags-print_tags [] h d = unfold parse_tags in unfold print_tags in refl
parse_tags-print_tags (t ∷ tags) h d =
    parsed t tags
    ∙ rw (split-join t tags h) (read_pairs-print (t ∷ tags) [] h d (Absent-nil (t ∷ tags)))
