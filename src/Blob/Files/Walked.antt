-- ===== src/Blob/Files/Walked.antt =====
-- blob.go: Stats and List walk the same files.
use fluxor_db.Base.{
  ℕ, suc, ◌+◌, ◌<◌, ◌≡◌, refl, String, true, false, List, [], ◌∷◌, length, arith, Bool-cases, inl,
  inr, ◌∙◌, ap,
}
use fluxor_db.Base.Int.{pos, pos_part, int64, ◌+ℤ◌, two63, int64_add}
use fluxor_db.Base.Bytes.{Bytes}
use fluxor_db.Blob.{BlobInfo}
use fluxor_db.Blob.Files.{
  Entry, FileSystem, FilesystemBlobStorage, skipped, info_of, infos_of, list, totals, stats,
}

-- The sizes that List reports, together.
unfoldable pub sizes : List BlobInfo → ℕ
sizes [] = 0
sizes (i ∷ infos) = pos_part i.metadata.size + sizes infos

module _ (md5_hex : Bytes → String) (rfc3339 : ℕ → String) {S : Type 0} (fs : FileSystem S)
    (fbs : FilesystemBlobStorage) where
  abbrev infos : List Entry → List BlobInfo
  infos = infos_of md5_hex rfc3339 fs fbs ""

  -- An entry that is not skipped is listed under the empty prefix.
  listed :
      (e : Entry) (entries : List Entry)
      → skipped md5_hex rfc3339 fs e ≡ false
      → infos (e ∷ entries) ≡ info_of md5_hex rfc3339 fs fbs e ∷ infos entries
  unfolding infos_of
  listed e entries h = rw h refl

  unlisted :
      (e : Entry) (entries : List Entry)
      → skipped md5_hex rfc3339 fs e ≡ true
      → infos (e ∷ entries) ≡ infos entries
  unfolding infos_of
  unlisted e entries h = rw h refl

  counted :
      (n m k : ℕ)
      → n + 1 < two63
      → m + k < two63
      → (int64 (pos n +ℤ pos 1) ≡ pos (n + 1)) × (int64 (pos m +ℤ pos k) ≡ pos (m + k))
  counted n m k few small = (
    int64_add (pos n) (pos 1) (omega arith) (omega arith) few,
    int64_add (pos m) (pos k) (omega arith) (omega arith) small,
  )

  totals-infos :
      (entries : List Entry) (n m : ℕ)
      → n + length (infos entries) < two63
      → m + sizes (infos entries) < two63
      → totals md5_hex rfc3339 fs entries (pos n) (pos m)
        ≡ (pos (n + length (infos entries)), pos (m + sizes (infos entries)))
  unfolding totals sizes infos_of info_of
  totals-infos [] n m few small = ground arith
  totals-infos (e ∷ entries) n m few small = elim (Bool-cases (skipped md5_hex rfc3339 fs e)) [
    | inl skip ↦
        let same = unlisted e entries skip in
        rw (same, skip) (totals-infos entries n m (rw same at few) (rw same at small))
    | inr keep ↦
        let same = listed e entries keep in
        let few' : n + suc (length (infos entries)) < two63 = rw same at few in
        let small' : m + (e.size + sizes (infos entries)) < two63 = rw same at small in
        let (one, more) = counted n m e.size (omega (arith, few')) (omega (arith, small')) in
        rw (same, keep, one, more)
          (totals-infos entries (n + 1) (m + e.size) (omega (arith, few')) (omega (arith, small'))
            ∙ ground arith)
  ]

  -- When the number of blobs and the sum of their sizes fit an int64, Stats of the file system
  -- storage counts exactly the blobs that List gives for the empty prefix, adds up the sizes that
  -- List gives, and reports the same error.
  pub stats-list :
      (s : S)
      → length (list md5_hex rfc3339 fs fbs "" s).0 < two63
      → sizes (list md5_hex rfc3339 fs fbs "" s).0 < two63
      → let r = stats md5_hex rfc3339 fs fbs s in
        (r.0.total_blobs ≡ pos (length (list md5_hex rfc3339 fs fbs "" s).0))
        × (r.0.total_size ≡ pos (sizes (list md5_hex rfc3339 fs fbs "" s).0))
        × (r.1 ≡ (list md5_hex rfc3339 fs fbs "" s).1)
  unfolding stats list
  stats-list s few small =
      let entries = (fs.walk fbs.root_path s).0 in
      let e = totals-infos entries 0 0 (omega (arith, few)) (omega (arith, small)) in
      (ap (λ p. p.0) e ∙ ap pos (omega arith), ap (λ p. p.1) e ∙ ap pos (omega arith), refl)
