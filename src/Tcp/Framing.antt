-- ===== src/Tcp/Framing.antt =====
-- tcp_protocol.go: the encoding of messages and responses as lines, and the lines that the
-- bufio.Scanner of a reader makes of the bytes that arrive. `Json` is encoding/json on one type.
pub mod Received
use fluxor_db.Base.{
  ℕ, suc, str_eq, ◌≡◌, String, Bool, true, false, Option, none, some, List, [], ◌∷◌, ◌++◌, ◌==◌,
  ltb, length, map, if◌then◌else◌,
}
use fluxor_db.Base.Bytes.{Bytes, split}
use fluxor_db.Base.Int.{ℤ, pos}
use fluxor_db.Tcp.Protocol.{type_close}
use fluxor_db.Errors.{Result, ok, err, wrapped, ◌>>=◌}

pub record Json (A : Type 0) : Type 0 where
  pub marshal : A → Result Bytes
  pub unmarshal : Bytes → Result A

abbrev pub newline : ℕ
newline = 10

abbrev pub carriage_return : ℕ
carriage_return = 13

abbrev pub labelled : {A : Type 0} → String → Result A → Result A
labelled label (ok a) = ok a
labelled label (err e) = err (wrapped label e "")

module _ {A : Type 0} (json : Json A) where
  unfoldable pub encode_with : String → A → Result Bytes
  encode_with label a = do data' ← labelled label (json.marshal a); ok (data' ++ newline ∷ [])

  unfoldable pub encode_tcp_message : A → Result Bytes
  unfolding encode_with
  encode_tcp_message = encode_with "failed to encode message: "

  unfoldable pub decode_tcp_message : Bytes → Result A
  decode_tcp_message data' = labelled "failed to decode message: " (json.unmarshal data')

  unfoldable pub encode_tcp_response : A → Result Bytes
  unfolding encode_with
  encode_tcp_response = encode_with "failed to encode response: "

  unfoldable pub decode_tcp_response : Bytes → Result A
  decode_tcp_response data' = labelled "failed to decode response: " (json.unmarshal data')

-- The Scanner takes one carriage return from the end of a line.
unfoldable pub drop_cr : Bytes → Bytes
drop_cr [] = []
drop_cr (c ∷ []) = if c == carriage_return then [] else c ∷ []
drop_cr (c ∷ d ∷ s) = c ∷ drop_cr (d ∷ s)

abbrev pub is_empty : Bytes → Bool
is_empty [] = true
is_empty (c ∷ s) = false

-- A line that does not fit the buffer, with its newline, ends the scan.
abbrev pub take_line : ℕ → Bytes → List Bytes → List Bytes
take_line limit line rest = if ltb (length line) limit then drop_cr line ∷ rest else []

-- What is left after the last newline is a line unless it is empty.
unfoldable pub lines_of : ℕ → List Bytes → List Bytes
unfolding drop_cr
lines_of limit [] = []
lines_of limit (last ∷ []) = if is_empty last then [] else take_line limit last []
lines_of limit (line ∷ next ∷ rest) = take_line limit line (lines_of limit (next ∷ rest))

-- The lines for which Scan answers true, with a buffer of `limit` bytes.
unfoldable pub scan_lines : ℕ → Bytes → List Bytes
unfolding lines_of
scan_lines limit arrived = lines_of limit (split newline arrived)

-- The buffer of handleClient.
abbrev pub buffer : ℕ
buffer = 1048576

abbrev pub is_close : {A : Type 0} → (A → String) → Result A → Bool
is_close type_of (ok a) = str_eq (type_of a) type_close
is_close type_of (err e) = false

-- The loop of handleClient over the lines that Scan gives: for each the size of the request and the
-- message. `is_shutdown n` says whether the channel shutdown is closed when the line number `n` is
-- there, which ends the loop before the line is read; a CLOSE message ends it after. A line that is
-- no message does not.
unfoldable pub read_loop :
    {A : Type 0} → Json A → (A → String) → (ℕ → Bool) → ℕ → List Bytes → List (ℤ × Result A)
unfolding decode_tcp_message
read_loop json type_of is_shutdown n [] = []
read_loop json type_of is_shutdown n (line ∷ lines) =
    let rest = read_loop json type_of is_shutdown (suc n) lines in
    let msg = decode_tcp_message json line in
    if is_shutdown n
    then []
    else (pos (length line), msg) ∷ (if is_close type_of msg then [] else rest)

-- What handleClient reads of the bytes from a client.
unfoldable pub requests :
    {A : Type 0} → Json A → (A → String) → (ℕ → Bool) → Bytes → List (ℤ × Result A)
unfolding read_loop
requests json type_of is_shutdown arrived =
    read_loop json type_of is_shutdown 0 (scan_lines buffer arrived)

-- What a client has written after it has sent the messages one after the other.
unfoldable pub sent : {A : Type 0} → Json A → List A → Result Bytes
unfolding encode_tcp_message
sent json [] = ok []
sent json (a ∷ as') = do first ← encode_tcp_message json a; rest ← sent json as'; ok (first ++ rest)
