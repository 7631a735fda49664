-- ===== src/Files/Download.antt =====
-- The download loop over fs_read_chunk of internal/ops/ops_fs.go, as its caller drives it: calls at
-- rising offsets until eof.
use aw_remote_host.Common.{
  leb, if◌then◌else◌, Bool-cases, length, drop, Result, ok, err, ℕ, zero, suc, ◌+◌, ◌≤◌, ◌<◌,
  String, ◌≡◌, inl, inr, false, Option, none, some, List, ◌++◌, arith, leb→le, take, length-take,
  take_all, length-drop, take-append-drop, drop_all, drop-drop, ◌-◌, min, sym, ap, ◌∙◌, All, ◌∷◌,
}
use aw_remote_host.Common.Int.{ℤ, pos, negsuc}
use aw_remote_host.Files.{
  FsError, fs_max_chunk, quiet, file_digest, chunk_size, read_regular, read_chunk, Node, regular,
  ReadArgs, ReadReply, is_dir,
}
use aw_remote_host.Files.Upload.{upload, joined, Fits, upload-eq-joined}

module _ (sha256 : List ℕ → String) where
  abbrev pub request : ℤ → ℕ → ReadArgs
  request size offset = record { offset = pos offset; size = size; want_digest = false }

  -- What the replies bring together; `none` if they do not come to an end within the given calls.
  abbrev pub collect : Result FsError ReadReply → (ℕ → Option (List ℕ)) → ℕ → Option (List ℕ)
  collect (err e) more offset = none
  collect (ok r) more offset =
      let rest = more (offset + length r.chunk) in
      if r.eof
      then some r.chunk
      else elim rest [ none ↦ none | some bytes ↦ some (r.chunk ++ bytes) ]

  unfoldable pub download : ℕ → ℤ → ℕ → Option Node → Option (List ℕ)
  download zero size offset file = none
  download (suc fuel) size offset file =
      collect (read_chunk (quiet sha256) (request size offset) file)
        (λ next. download fuel size next file) offset

  chunk_size-bounds : (size : ℤ) → (0 < chunk_size size) × (chunk_size size ≤ fs_max_chunk)
  unfolding chunk_size
  chunk_size-bounds (negsuc n) = (omega arith, omega arith)
  chunk_size-bounds (pos n) = (ground arith, ground arith)

  length-chunk :
      (offset : ℕ) (size : ℤ) (bytes : List ℕ)
      → length (take (min (chunk_size size) (length bytes - offset)) (drop offset bytes))
        ≡ min (chunk_size size) (length bytes - offset)
  length-chunk offset size bytes =
      let n = min (chunk_size size) (length bytes - offset) in
      omega (arith, length-take n (drop offset bytes), length-drop offset bytes)

  pub download_from :
      (fuel : ℕ) (size : ℤ) (offset : ℕ) (bytes : List ℕ)
      → length bytes - offset < fuel
      → download fuel size offset (some (regular bytes)) ≡ some (drop offset bytes)
  unfolding download read_chunk read_regular file_digest
  download_from zero size offset bytes h = absurd (omega arith)
  download_from (suc fuel) size offset bytes h = elim (Bool-cases (leb (length bytes) offset)) [
    | inl past ↦ rw past (ap (λ t. some t) (sym (drop_all offset bytes (leb→le _ _ past))))
    | inr more ↦ rw more (
        let p = take (min (chunk_size size) (length bytes - offset)) (drop offset bytes) in
        let len = length-chunk offset size bytes in
        let some_bytes = chunk_size-bounds size in
        elim (Bool-cases (leb (length bytes) (offset + length p))) [
          | inl eof ↦ rw eof (
              let end : length bytes ≤ offset + length p = leb→le _ _ eof in
              ap (λ t. some t)
                (take_all _ (drop offset bytes)
                  (omega (arith, len, end, length-drop offset bytes))))
          | inr on ↦ rw on (
              let on' : (leb (length bytes) (offset + length p)) ≡ false = on in
              let fewer : length bytes - (offset + length p) < fuel =
                ground (arith, len, on', some_bytes, h) in
              rw (download_from fuel size (offset + length p) bytes fewer) (
                ap (λ t. some t)
                  (ap (λ t. p ++ t)
                      (sym (drop-drop offset (length p) bytes)
                        ∙ ap (λ k. drop k (drop offset bytes)) len)
                    ∙ take-append-drop (min (chunk_size size) (length bytes - offset))
                        (drop offset bytes))))
        ])
  ]

  -- The download loop ends with exactly the bytes of the file, whatever chunk size is asked for;
  -- one call for each byte and one more are enough. It is assumed that no system call fails and
  -- that the file does not change meanwhile.
  pub download-eq-file :
      (fuel : ℕ) (size : ℤ) (bytes : List ℕ)
      → length bytes < fuel
      → download fuel size 0 (some (regular bytes)) ≡ some bytes
  download-eq-file fuel size bytes h = download_from fuel size 0 bytes (omega arith)

  -- What was uploaded in chunks is what a later download brings, with any chunk size, whatever file
  -- was there before the upload. It is assumed that the path is no directory, that each chunk fits
  -- a frame, that no system call fails, and that the file does not change meanwhile.
  pub download-upload :
      (p : List ℕ) (ps : List (List ℕ)) (file : Option Node) (fuel : ℕ) (size : ℤ)
      → is_dir file ≡ false
      → All (Fits sha256) (p ∷ ps)
      → length (p ++ joined sha256 ps) < fuel
      → download fuel size 0 (upload sha256 0 p ps file).0 ≡ some (p ++ joined sha256 ps)
  download-upload p ps file fuel size h fits k =
      rw (upload-eq-joined sha256 p ps file h fits)
        (download-eq-file fuel size (p ++ joined sha256 ps) k)
