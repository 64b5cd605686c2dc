-- ===== src/Tcp/Framing/Received.antt =====
-- tcp_protocol.go and tcp_server.go: what a server reads of the messages that a client wrote.
use mathlib.Core.List.{append_assoc}
use fluxor_db.Base.{
  ℕ, suc, str_eq, Bool, true, if◌then◌else◌, ◌<◌, ◌≡◌, ◌∙◌, refl, sym, ap, String, false, List, [],
  ◌∷◌, ◌++◌, ◌==◌, lt→ltb, length, if_both, map, All, arith,
}
use fluxor_db.Base.Bytes.{Bytes, split, cons_head}
use fluxor_db.Base.Bytes.Laws.{Free, Ends, split-append}
use fluxor_db.Base.Int.{ℤ, pos}
use fluxor_db.Errors.{Result, ok, err, ◌>>=◌}
use fluxor_db.Tcp.Protocol.{type_close}
use fluxor_db.Tcp.Framing.{
  Json, newline, carriage_return, labelled, encode_with, encode_tcp_message, decode_tcp_message,
  drop_cr, take_line, lines_of, scan_lines, buffer, read_loop, requests, sent,
}

-- What encoding/json promises of a struct: Marshal writes an object on one line, and Unmarshal reads
-- of it what JSON keeps of the value.
pub record IsJson {A : Type 0} (json : Json A) (kept : A → A) : Type 0 where
  pub one_line :
      (a : A) (data' : Bytes) → json.marshal a ≡ ok data' → Free (λ c. c == newline) data'
  pub braces : (a : A) (data' : Bytes) → json.marshal a ≡ ok data' → Ends 125 data'
  pub unmarshal-marshal :
      (a : A) (data' : Bytes) → json.marshal a ≡ ok data' → json.unmarshal data' ≡ ok (kept a)

drop_cr-Ends : (c : ℕ) (s : Bytes) → (c == carriage_return) ≡ false → Ends c s → drop_cr s ≡ s
unfolding drop_cr
drop_cr-Ends c [] h k = refl
drop_cr-Ends c (d ∷ []) h k = rw (k, h) refl
drop_cr-Ends c (d ∷ e ∷ s) h k = ap (λ (t : Bytes). d ∷ t) (drop_cr-Ends c (e ∷ s) h k)

abbrev Cons : List Bytes → Type 0
Cons l = (x : Bytes) × (xs : List Bytes) × (l ≡ x ∷ xs)

cons_head-Cons : (c : ℕ) (l : List Bytes) → Cons (cons_head c l)
cons_head-Cons c [] = (c ∷ [], [], refl)
cons_head-Cons c (x ∷ xs) = (c ∷ x, xs, refl)

split-Cons : (sep : ℕ) (s : Bytes) → Cons (split sep s)
unfolding split
split-Cons sep [] = ([], [], refl)
split-Cons sep (c ∷ s) =
    if_both Cons (c == sep) ([], split sep s, refl) (cons_head-Cons c (split sep s))

lines_of-split :
    (limit : ℕ) (line s : Bytes)
    → lines_of limit (line ∷ split newline s)
      ≡ take_line limit line (lines_of limit (split newline s))
unfolding lines_of
lines_of-split limit line s = let (x, xs, e) = split-Cons newline s in rw e refl

-- A line that fits, and its newline.
scan_lines-line :
    (limit : ℕ) (line s : Bytes)
    → Free (λ c. c == newline) line
    → Ends 125 line
    → length line < limit
    → scan_lines limit (line ++ newline ∷ s) ≡ line ∷ scan_lines limit s
unfolding scan_lines
scan_lines-line limit line s h k fits =
    rw
      (
        split-append newline line s h,
        lines_of-split limit line s,
        lt→ltb (length line) limit fits,
        drop_cr-Ends 125 line refl k,
      )
      refl

value_or : {A : Type 0} → A → Result A → A
value_or d (ok a) = a
value_or d (err e) = d

pub ok-injective : {A : Type 0} (a b : A) → Path (Result A) (ok a) (ok b) → a ≡ b
unfolding value_or
ok-injective a b e = ap (value_or a) e

abbrev Joined : Result Bytes → Result Bytes → Bytes → Type 0
Joined first rest wire =
    (data' : Bytes) × (more : Bytes) × (first ≡ ok data')
    × (rest ≡ ok more)
    × (data' ++ newline ∷ more ≡ wire)

joined :
    (label : String) (first rest : Result Bytes) (wire : Bytes)
    → (do
      line ← (do data' ← labelled label first; ok (data' ++ newline ∷ []))
      more ← rest
      ok (line ++ more))
      ≡ ok wire
    → Joined first rest wire
joined label (err e) rest wire h = absurd (ground arith)
joined label (ok data') (err e) wire h = absurd (ground arith)
joined label (ok data') (ok more) wire h =
    (data', more, refl, refl, sym (append_assoc data' (newline ∷ []) more) ∙ ok-injective _ _ h)

module _ {A : Type 0} (json : Json A) (kept : A → A) where
  unfoldable pub size_of : Result Bytes → ℤ
  size_of (ok data') = pos (length data')
  size_of (err e) = pos 0

  -- The line of a message and its newline fit the buffer of the server.
  unfoldable pub IsShort : A → Type 0
  IsShort a = (data' : Bytes) → json.marshal a ≡ ok data' → length data' < buffer

  -- The request that a message becomes.
  unfoldable pub request_of : A → ℤ × Result A
  unfolding size_of
  request_of a = (size_of (json.marshal a), ok (kept a))

module _ {A : Type 0} (json : Json A) (kept : A → A) (type_of : A → String)
    (is_shutdown : ℕ → Bool) where
  -- The messages up to the shutdown, and up to the first CLOSE with it.
  unfoldable pub served : ℕ → List A → List A
  served n [] = []
  served n (a ∷ msgs) =
      let rest = served (suc n) msgs in
      if is_shutdown n then [] else a ∷ (if str_eq (type_of (kept a)) type_close then [] else rest)

  -- The lines of `more`, from the line number `n` on.
  abbrev reads : ℕ → Bytes → List (ℤ × Result A)
  reads n more = read_loop json type_of is_shutdown n (scan_lines buffer more)

  reads-line :
      (n : ℕ) (a : A) (data' more : Bytes)
      → IsJson json kept
      → IsShort json kept a
      → json.marshal a ≡ ok data'
      → reads n (data' ++ newline ∷ more) ≡ (
          if is_shutdown n
          then []
          else request_of json kept a
            ∷ (if str_eq (type_of (kept a)) type_close then [] else reads (suc n) more))
  unfolding read_loop IsShort decode_tcp_message request_of size_of
  reads-line n a data' more laws short m =
      rw
        (
          scan_lines-line buffer data' more (laws.one_line a data' m) (laws.braces a data' m)
              (short data' m),
          read_loop,
          laws.unmarshal-marshal a data' m,
          m,
        )
        refl

  map-branches :
      (b c : Bool) (a : A) (l : List A)
      → (if b
          then []
          else request_of json kept a ∷ (if c then [] else map (request_of json kept) l))
        ≡ map (request_of json kept) (if b then [] else a ∷ (if c then [] else l))
  map-branches true c a l = refl
  map-branches false true a l = refl
  map-branches false false a l = refl

  reads-sent :
      (n : ℕ) (msgs : List A) (wire : Bytes)
      → IsJson json kept
      → All (IsShort json kept) msgs
      → sent json msgs ≡ ok wire
      → reads n wire ≡ map (request_of json kept) (served n msgs)
  unfolding read_loop scan_lines lines_of sent split encode_tcp_message encode_with served
  reads-sent n [] wire laws short h = rw (← ok-injective _ _ h) refl
  reads-sent n (a ∷ msgs) wire laws short h =
      let (data', more, m, r, e) =
        joined "failed to encode message: " (json.marshal a) (sent json msgs) wire h in
      let closes = str_eq (type_of (kept a)) type_close in
      ap (reads n) (sym e)
      ∙ (reads-line n a data' more laws short.0 m
          ∙ (ap
                (λ (l : List (ℤ × Result A)).
                  if is_shutdown n then [] else request_of json kept a ∷ (if closes then [] else l))
                (reads-sent (suc n) msgs more laws short.1 r)
              ∙ map-branches (is_shutdown n) closes a (served (suc n) msgs)))

  -- When a client has sent messages one after the other, each of which fits the server's buffer of a
  -- megabyte with its newline, the loop of handleClient reads these messages up to the first CLOSE,
  -- that one included, or up to the first that is there after the shutdown, without that one: in
  -- their order and without an error, each as JSON keeps it and with the length of its line as its
  -- size.
  pub requests-sent :
      (msgs : List A) (wire : Bytes)
      → IsJson json kept
      → All (IsShort json kept) msgs
      → sent json msgs ≡ ok wire
      → requests json type_of is_shutdown wire ≡ map (request_of json kept) (served 0 msgs)
  unfolding requests
  requests-sent msgs wire laws short h = reads-sent 0 msgs wire laws short h
