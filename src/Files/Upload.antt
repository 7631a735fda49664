-- ===== src/Files/Upload.antt =====
-- The upload loop over fs_write_chunk of internal/ops/ops_fs.go, as its caller drives it: one call
-- for each chunk at the offset behind the last one, the last call with eof.
use aw_remote_host.Common.{
  [], ltb, if◌then◌else◌, length, Result, ok, err, ℕ, ◌+◌, String, ◌≡◌, Bool, true, false, Option,
  none, List, ◌∷◌, ◌++◌, drop, replicate, length-append, length-take, length-replicate, take-append,
  ◌-◌, refl, sym, ap, ◌∙◌, arith, ◌≤◌, some, zero, suc, All, ◌>>=◌,
}
use aw_remote_host.Common.Int.{pos}
use aw_remote_host.Files.{
  FsError, fs_digest_max_size, resize, write_at, quiet, write_chunk, Node, skipped, hashed,
  WriteArgs, WriteReply, fs_max_chunk, contents, is_dir, write_reply, write_opened, write_checked,
  regular, file_digest, not_wanted, is_zero, is_empty, Digest,
}
use mathlib.Core.List.{append_assoc, append-nil}

module _ (sha256 : List ℕ → String) where
  abbrev pub call : ℕ → List ℕ → Bool → WriteArgs
  call offset p eof = record {
    chunk = ok p;
    offset = pos offset;
    eof = eof;
    mode = none;
    want_digest = true;
  }

  abbrev pub next_call :
      Option Node × Result FsError WriteReply
      → (Option Node → Option Node × Result FsError WriteReply)
      → Option Node × Result FsError WriteReply
  next_call (file, ok _) k = k file
  next_call (file, err e) k = (file, err e)

  -- The chunk `p` at `offset` and the chunks `ps` behind it.
  unfoldable pub upload :
      ℕ → List ℕ → List (List ℕ) → Option Node → Option Node × Result FsError WriteReply
  upload offset p [] file = write_chunk (quiet sha256) (call offset p true) file
  upload offset p (q ∷ qs) file =
      next_call (write_chunk (quiet sha256) (call offset p false) file)
        (λ file'. upload (offset + length p) q qs file')

  unfoldable pub joined : List (List ℕ) → List ℕ
  joined [] = []
  joined (p ∷ ps) = p ++ joined ps

  length-resize : (n : ℕ) (bytes : List ℕ) → length (resize n bytes) ≡ n
  length-resize n bytes =
      let all : length (bytes ++ replicate (n - length bytes) 0)
          ≡ length bytes + (n - length bytes) =
        length-append bytes (replicate (n - length bytes) 0)
        ∙ ap (λ k. length bytes + k) (length-replicate (n - length bytes) 0) in
      omega (arith, all, length-take n (bytes ++ replicate (n - length bytes) 0))

  cut_behind :
      (n : ℕ) (xs p tail : List ℕ) → n ≡ length (xs ++ p) → resize n (xs ++ (p ++ tail)) ≡ xs ++ p
  cut_behind n xs p tail h =
      let zeros = replicate (n - length (xs ++ (p ++ tail))) 0 in
      let e : (xs ++ (p ++ tail)) ++ zeros ≡ (xs ++ p) ++ (tail ++ zeros) =
        rw append_assoc (rw append_assoc (rw append_assoc refl)) in
      rw e (take-append n (xs ++ p) (tail ++ zeros) h)

  -- What a chunk leaves, cut behind it.
  resize-write_at :
      (p : List ℕ) (offset : ℕ) (bytes : List ℕ)
      → resize (offset + length p) (write_at p offset bytes) ≡ resize offset bytes ++ p
  resize-write_at p offset bytes =
      let head = resize offset bytes in
      let tail = drop (offset + length p) bytes in
      let end : length (head ++ p) ≡ offset + length p =
        length-append head p ∙ ap (λ k. k + length p) (length-resize offset bytes) in
      cut_behind (offset + length p) head p tail (sym end)

  -- The reply to the last call of an upload of `bytes`.
  abbrev pub finished : ℕ → List ℕ → WriteReply
  finished n bytes = record {
    bytes = n;
    total = length bytes;
    digest = if ltb fs_digest_max_size (length bytes) then skipped else hashed (sha256 bytes);
  }

  length-resized : (n : ℕ) (p bytes : List ℕ) → length (resize n bytes ++ p) ≡ n + length p
  length-resized n p bytes =
      length-append (resize n bytes) p ∙ ap (λ k. k + length p) (length-resize n bytes)

  -- What the open leaves, and what the write of a chunk makes of it.
  abbrev opened : ℕ → Option Node → List ℕ
  opened offset file = if is_zero offset then [] else contents file

  abbrev written : ℕ → List ℕ → Option Node → List ℕ
  written offset p file =
      if is_empty p then opened offset file else write_at p offset (opened offset file)

  resize-opened :
      (offset : ℕ) (file : Option Node)
      → resize offset (opened offset file) ≡ resize offset (contents file)
  resize-opened zero file = refl
  resize-opened (suc n) file = refl

  resize-written :
      (offset : ℕ) (p : List ℕ) (file : Option Node)
      → resize (offset + length p) (written offset p file) ≡ resize offset (contents file) ++ p
  resize-written offset [] file =
      let e : offset + 0 ≡ offset = omega arith in rw e (rw append-nil (resize-opened offset file))
  resize-written offset (b ∷ bs) file =
      resize-write_at (b ∷ bs) offset (opened offset file)
      ∙ ap (λ t. t ++ b ∷ bs) (resize-opened offset file)

  abbrev pub Fits : List ℕ → Type 0
  Fits p = length p ≤ fs_max_chunk

  -- A call that passes the checks writes to the opened file.
  write_chunk-write_opened :
      (offset : ℕ) (p : List ℕ) (eof : Bool) (file : Option Node)
      → is_dir file ≡ false
      → Fits p
      → write_chunk (quiet sha256) (call offset p eof) file
        ≡ write_opened (quiet sha256) (call offset p eof) offset p (opened offset file)
  unfolding write_chunk write_checked
  write_chunk-write_opened zero p eof file h k =
      let small : ltb fs_max_chunk (length p) ≡ false = ground arith in rw h (rw small refl)
  write_chunk-write_opened (suc n) p eof file h k =
      let small : ltb fs_max_chunk (length p) ≡ false = ground arith in rw h (rw small refl)

  write_chunk-next :
      (offset : ℕ) (p : List ℕ) (file : Option Node)
      → is_dir file ≡ false
      → Fits p
      → write_chunk (quiet sha256) (call offset p false) file ≡ (
        some (regular (written offset p file)),
        ok (record { bytes = length p; total = offset + length p; digest = not_wanted }),
      )
  unfolding write_opened write_reply
  write_chunk-next offset [] file h k = write_chunk-write_opened offset [] false file h k
  write_chunk-next offset (b ∷ bs) file h k =
      write_chunk-write_opened offset (b ∷ bs) false file h k

  -- The bytes of a finished file and the reply about them.
  abbrev pub whole : ℕ → List ℕ → Option Node × Result FsError WriteReply
  whole n bytes = (some (regular bytes), ok (finished n bytes))

  abbrev accepted : WriteReply → Result FsError WriteReply
  accepted r = ok r

  replied_if :
      (big : Bool) (x y : Digest) (f : Digest → WriteReply)
      → ((if big then ok x else ok y) >>= λ d. ok (f d)) ≡ accepted (f (if big then x else y))
  replied_if true x y f = refl
  replied_if false x y f = refl

  write_opened-last :
      (offset : ℕ) (p bytes : List ℕ)
      → resize (offset + length p) (if is_empty p then bytes else write_at p offset bytes)
        ≡ resize offset bytes ++ p
      → write_opened (quiet sha256) (call offset p true) offset p bytes
        ≡ whole (length p) (resize offset bytes ++ p)
  unfolding write_opened write_reply file_digest
  write_opened-last offset [] bytes h = rw h (
      rw (length-resized offset [] bytes)
        (ap (λ r. (some (regular (resize offset bytes ++ [])), r)) (replied_if _ _ _ _)))
  write_opened-last offset (b ∷ bs) bytes h = rw h (
      rw (length-resized offset (b ∷ bs) bytes)
        (ap (λ r. (some (regular (resize offset bytes ++ b ∷ bs)), r)) (replied_if _ _ _ _)))

  write_chunk-last :
      (offset : ℕ) (p : List ℕ) (file : Option Node)
      → is_dir file ≡ false
      → Fits p
      → write_chunk (quiet sha256) (call offset p true) file
        ≡ whole (length p) (resize offset (contents file) ++ p)
  write_chunk-last offset p file h k =
      let cut : resize offset (opened offset file) ≡ resize offset (contents file) =
        resize-opened offset file in
      write_chunk-write_opened offset p true file h k
      ∙ (write_opened-last offset p (opened offset file)
            (resize-written offset p file ∙ ap (λ t. t ++ p) (sym cut))
          ∙ ap (λ t. whole (length p) (t ++ p)) cut)

  abbrev pub last_length : List ℕ → List (List ℕ) → ℕ
  last_length p [] = length p
  last_length p (q ∷ qs) = last_length q qs

  upload_from :
      (offset : ℕ) (p : List ℕ) (ps : List (List ℕ)) (file : Option Node)
      → is_dir file ≡ false
      → All Fits (p ∷ ps)
      → upload offset p ps file
        ≡ whole (last_length p ps) (resize offset (contents file) ++ (p ++ joined ps))
  unfolding upload joined
  upload_from offset p [] file h (k, _) = rw append-nil (write_chunk-last offset p file h k)
  upload_from offset p (q ∷ qs) file h (k, ks) =
      let rest =
        upload_from (offset + length p) q qs (some (regular (written offset p file))) refl ks in
      rw (write_chunk-next offset p file h k) (
        rest
        ∙ ap (λ t. whole (last_length q qs) (t ++ (q ++ joined qs))) (resize-written offset p file)
        ∙ rw append_assoc refl)

  -- An upload in chunks that each fit a frame leaves exactly the joined chunks, whatever file was
  -- there before, and its last reply gives their number and, up to the size limit, their hash. It
  -- is assumed that the path is no directory and that no system call fails.
  pub upload-eq-joined :
      (p : List ℕ) (ps : List (List ℕ)) (file : Option Node)
      → is_dir file ≡ false
      → All Fits (p ∷ ps)
      → upload 0 p ps file ≡ whole (last_length p ps) (p ++ joined ps)
  upload-eq-joined p ps file h k = upload_from 0 p ps file h k
