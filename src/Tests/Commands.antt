-- ===== src/Tests/Commands.antt =====
-- The theorems on the blob command, with a codec that knows one value.
use fluxor_db.Base.{
  ap, ℕ, ◌≡◌, refl, String, Bool, true, false, ◌&&◌, ◌==◌, ==_iff, eq_iff, none, List, [], ◌∷◌,
  str_eq, if◌then◌else◌, Bool-cases, inl, inr, arith,
}
use fluxor_db.Base.Bytes.{Bytes}
use fluxor_db.Base.Dict.{assign}
use fluxor_db.Base.Decimal.{decimal}
use fluxor_db.Base.Int.{ℤ, pos, negsuc}
use fluxor_db.Errors.{Result, ok, err, message}
use fluxor_db.Blob.{BlobMetadata, too_large}
use fluxor_db.Blob.Command
use fluxor_db.Blob.Command.{
  Codec, PutOptions, put_options, no_options, ok_line, contents_of, done, completed,
}
use fluxor_db.Blob.Command.Main
use fluxor_db.Blob.Command.RoundTrip
use fluxor_db.Blob.Command.Stored.{IsCodec, KeepsFiles}
use fluxor_db.Tests.Blobs.{Disk, disk, md5, disk-IsFileSystem}

abbrev note : BlobMetadata
note = record {
  content_type = "text/plain";
  filename = "a.txt";
  size = pos 2;
  checksum = "2";
  tags = [];
  created_at = 1;
  updated_at = 2;
}

is_two : ℤ → Bool
is_two (pos n) = n == 2
is_two (negsuc n) = false

-- The value that the codec knows, tested without the tags.
is_note : BlobMetadata → Bool
unfolding is_two
is_note m =
    str_eq m.content_type "text/plain"
    && (str_eq m.filename "a.txt"
        && (is_two m.size && (str_eq m.checksum "2" && (m.created_at == 1 && m.updated_at == 2))))

abbrev codec : Codec
codec = record {
  marshal = λ m. if is_note m then ok (9 ∷ []) else err (message "unknown");
  unmarshal = λ text start. note;
}

both : (a b : Bool) → (a && b) ≡ true → (a ≡ true) × (b ≡ true)
both true b h = (refl, h)
both false b h = absurd (ground arith)

is_two-pos : (n : ℤ) → is_two n ≡ true → n ≡ pos 2
unfolding is_two
is_two-pos (pos n) h = ground (arith, (==_iff n 2).0 h)
is_two-pos (negsuc n) h = absurd (ground arith)

note_of :
    (m : BlobMetadata)
    → m.content_type ≡ "text/plain"
    → m.filename ≡ "a.txt"
    → m.size ≡ pos 2
    → m.checksum ≡ "2"
    → m.tags ≡ []
    → m.created_at ≡ 1
    → m.updated_at ≡ 2
    → note ≡ m
note_of m a b c d e f g = rw⁻¹ (a, b, c, d, e, f, g) refl

is_note-note : (m : BlobMetadata) → m.tags ≡ [] → is_note m ≡ true → note ≡ m
unfolding is_note
is_note-note m untagged h =
    let (a, h1) = both _ _ h in
    let (b, h2) = both _ _ h1 in
    let (c, h3) = both _ _ h2 in
    let (d, h4) = both _ _ h3 in
    let (f, g) = both _ _ h4 in
    note_of m ((eq_iff _ _).0 a) ((eq_iff _ _).0 b) (is_two-pos _ c) ((eq_iff _ _).0 d) untagged
      ((==_iff _ _).0 f) ((==_iff _ _).0 g)

codec-IsCodec : IsCodec codec
codec-IsCodec = record {
  unmarshal-marshal = λ m start text untagged n t h. elim (Bool-cases (is_note m)) [
    | inl same ↦ is_note-note m untagged same
    | inr other ↦ absurd (ground (arith, rw other at h))
  ];
}

disk-KeepsFiles : KeepsFiles disk
unfolding KeepsFiles
disk-KeepsFiles path other d d' e = rw (← ap (λ p. p.0) e) refl

abbrev after_put : Disk
after_put = ("/k", 1 ∷ 2 ∷ []) ∷ ("/k.meta", 9 ∷ []) ∷ []

abbrev typed : List String
typed = "-ct" ∷ "text/plain" ∷ "-fn" ∷ "a.txt" ∷ []

abbrev command : ℕ → ℕ → Result Bytes → String → List String → Disk → Disk × Command.Exit
command = Main.run md5 codec disk (λ path. path) (λ path d. none)

puts : command 1 2 (ok (1 ∷ 2 ∷ [])) "/" ("put" ∷ "k" ∷ typed) [] ≡ (after_put, done ok_line)
unfolding Main.run Main.started Command.new_storage Main.dispatch Main.put_command Main.put_with
    Command.put_options Command.put_flag Command.store is_note is_two too_large assign decimal
    Main.put_contents Command.write_metadata
puts = refl

get-put_example :
    (contents : Bytes) × (RoundTrip.input md5 codec disk
        (λ path. path)
        (λ path d. none)
        1
        2
        (ok (1 ∷ 2 ∷ []))
        (put_options typed no_options)
        []
      ≡ ok contents)
    × (command 8 9 (err (message "closed")) "/" ("get" ∷ "k" ∷ []) after_put
        ≡ (after_put, done (contents_of contents)))
get-put_example =
    RoundTrip.get-put md5 codec disk (λ path. path) (λ path d. none) 1 2 8 9 (ok (1 ∷ 2 ∷ []))
      (err (message "closed")) "/" "k" typed [] after_put after_put disk-IsFileSystem codec-IsCodec
      disk-KeepsFiles puts refl
