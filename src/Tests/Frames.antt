-- ===== src/Tests/Frames.antt =====
-- The theorem on the lines between client and server, for pings and closes without any other field.
use mathlib.Core.Path.{subst}
use fluxor_db.Base.{
  ℕ, Bool, String, leb, ◌<◌, ◌≡◌, refl, ◌==◌, if◌then◌else◌, [], ◌∷◌, map, arith, length,
}
use fluxor_db.Base.Bytes.{Bytes, codes, split, has_prefix}
use fluxor_db.Base.Bytes
use fluxor_db.Base.Bytes.Laws.{Free, Ends}
use fluxor_db.Errors.{ok}
use fluxor_db.Tcp.Framing
use fluxor_db.Tcp.Framing.{Json, newline, buffer, requests, sent, scan_lines}
use fluxor_db.Tcp.Framing.Received
use fluxor_db.Tcp.Framing.Received.{IsJson, IsShort, request_of, ok-injective}

pub data Short : Type 0 where
  ping close : Short

abbrev text : Short → Bytes
text ping = codes "{\"type\":\"PING\"}"
text close = codes "{\"type\":\"CLOSE\"}"

abbrev json : Json Short
json = record {
  marshal = λ a. ok (text a);
  unmarshal = λ line. if Bytes.bytes_eq line (text ping) then ok ping else ok close;
}

-- What holds of the two texts holds of what Marshal answers.
marshalled :
    (P : Short → Bytes → Type 0) (a : Short) (line : Bytes)
    → P ping (text ping)
    → P close (text close)
    → json.marshal a ≡ ok line
    → P a line
marshalled P ping line p c e = subst (P ping) (ok-injective (text ping) line e) p
marshalled P close line p c e = subst (P close) (ok-injective (text close) line e) c

json-IsJson : IsJson json (λ a. a)
unfolding Bytes.bytes_eq
json-IsJson = record {
  one_line =
      λ a line. marshalled (λ _ l. Free (λ c. c == newline) l) a line (ground arith) (ground arith);
  braces = λ a line. marshalled (λ _ l. Ends 125 l) a line refl refl;
  unmarshal-marshal = λ a line. marshalled (λ b l. json.unmarshal l ≡ ok b) a line refl refl;
}

all_short : (a : Short) → IsShort json (λ b. b) a
unfolding IsShort
all_short a line e = marshalled (λ _ l. length l < buffer) a line (omega arith) (omega arith) e

abbrev wire : Bytes
wire = codes "{\"type\":\"PING\"}\n{\"type\":\"CLOSE\"}\n{\"type\":\"PING\"}\n"

written : sent json (ping ∷ close ∷ ping ∷ []) ≡ ok wire
unfolding sent Framing.encode_tcp_message
written = refl

abbrev type_of : Short → String
type_of ping = "PING"
type_of close = "CLOSE"

-- The server is shut down before the fourth line.
abbrev is_shutdown : ℕ → Bool
is_shutdown n = leb 3 n

requests-sent_example :
    requests json type_of is_shutdown wire
    ≡ map
        (request_of json (λ a. a))
        (Received.served json (λ a. a) type_of is_shutdown 0 (ping ∷ close ∷ ping ∷ []))
requests-sent_example =
    Received.requests-sent json (λ a. a) type_of is_shutdown (ping ∷ close ∷ ping ∷ []) wire
      json-IsJson (all_short ping, (all_short close, (all_short ping, tt))) written

-- Of the three messages the one behind the CLOSE is not read, and of four pings the last is not.
until_close :
    Received.served json (λ a. a) type_of is_shutdown 0 (ping ∷ close ∷ ping ∷ [])
    ≡ ping ∷ close ∷ []
unfolding Received.served
until_close = refl

until_shutdown :
    Received.served json (λ a. a) type_of is_shutdown 0 (ping ∷ ping ∷ ping ∷ ping ∷ [])
    ≡ ping ∷ ping ∷ ping ∷ []
unfolding Received.served
until_shutdown = refl

-- A carriage return before the newline goes, and an end without a newline is a line.
returns : scan_lines 9 (codes "ab\r\n\ncd") ≡ codes "ab" ∷ [] ∷ codes "cd" ∷ []
unfolding scan_lines split Framing.lines_of Framing.drop_cr
returns = refl

-- A line that does not fit ends the scan.
too_long : scan_lines 3 (codes "ab\ncde\nf\n") ≡ codes "ab" ∷ []
unfolding scan_lines split Framing.lines_of Framing.drop_cr
too_long = refl
