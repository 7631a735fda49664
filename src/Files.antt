-- ===== src/Files.antt =====
-- internal/ops/ops_fs.go: paths, and the chunks of an upload and a download. The state is the node at
-- the path of a call. The outcome of each system call of a verb is a field of Outcomes.
pub mod Upload
pub mod Download
pub mod Expand
mod Tests
use aw_remote_host.Common.{
  ◌++◌, List, [], ◌∷◌, length, take, drop, replicate, ltb, leb, if◌then◌else◌, ◌>>=◌, ◌>>◌, Result,
  ok, err, ℕ, ◌+◌, ◌-◌, min, String, Bool, true, false, not, Option, none, some, str_eq, zero, suc,
}
use aw_remote_host.Common.Int.{ℤ, pos, negsuc}

pub data FsError : Type 0 where
  path_required : FsError
  no_home : String → FsError
  is_a_directory : FsError
  bad_data : String → FsError
  chunk_too_large : ℕ → FsError
  negative_offset : FsError
  no_such_file : FsError
  system_error : String → FsError
  invalid_mode : String → FsError

-- strings.TrimSpace, filepath.Join, filepath.Clean, filepath.IsAbs and homedir.Dir; `below_tilde` is
-- what follows a leading "~/".
pub record Paths : Type 0 where
  pub trim : String → String
  pub join : String → String → String
  pub clean : String → String
  pub is_abs : String → Bool
  pub home : Result String String
  pub below_tilde : String → Option String

abbrev pub under_home : Paths → (String → String) → Result FsError String
under_home ps f = elim ps.home [ ok home ↦ ok (f home) | err e ↦ err (no_home e) ]

-- expandPath.
unfoldable pub expand_path : Paths → String → Result FsError String
expand_path ps given =
    let p = ps.trim given in
    if str_eq p ""
    then err path_required
    else (if str_eq p "~" then under_home ps (λ home. home) else elim (ps.below_tilde p) [
      | some rest ↦ under_home ps (λ home. ps.join home rest)
      | none ↦ if ps.is_abs p then ok (ps.clean p) else under_home ps (λ home. ps.join home p)
    ])

abbrev pub fs_default_chunk : ℕ
fs_default_chunk = 1048576

abbrev pub fs_max_chunk : ℕ
fs_max_chunk = 4194304

abbrev pub fs_digest_max_size : ℕ
fs_digest_max_size = 2147483648

pub data Node : Type 0 where
  directory : Node
  regular : List ℕ → Node

abbrev pub contents : Option Node → List ℕ
contents (some (regular bytes)) = bytes
contents _ = []

abbrev pub is_dir : Option Node → Bool
is_dir (some directory) = true
is_dir _ = false

-- What File.Truncate leaves: the first `n` bytes, with zeros where the file was shorter.
abbrev pub resize : ℕ → List ℕ → List ℕ
resize n bytes = take n (bytes ++ replicate (n - length bytes) 0)

-- What File.WriteAt leaves.
abbrev pub write_at : List ℕ → ℕ → List ℕ → List ℕ
write_at p offset bytes = resize offset bytes ++ (p ++ drop (offset + length p) bytes)

abbrev pub is_zero : ℕ → Bool
is_zero zero = true
is_zero (suc n) = false

abbrev pub is_empty : List ℕ → Bool
is_empty [] = true
is_empty (b ∷ bs) = false

-- The failures of the system calls of one verb. A failed write says how many bytes it wrote.
pub record Outcomes : Type 0 where
  pub mkdir : Option String
  pub open_file : Option String
  pub write_file : Option (ℕ × String)
  pub truncate : Option String
  pub close : Option String
  pub chmod : Option String
  pub hash : Result String (List ℕ → String)

abbrev pub quiet : (List ℕ → String) → Outcomes
quiet sha256 = record {
  mkdir = none;
  open_file = none;
  write_file = none;
  truncate = none;
  close = none;
  chmod = none;
  hash = ok sha256;
}

pub data Digest : Type 0 where
  not_wanted : Digest
  skipped : Digest
  hashed : String → Digest

-- fileDigest, where it is wanted.
unfoldable pub file_digest : Outcomes → Bool → ℕ → List ℕ → Result FsError Digest
file_digest o wanted size bytes =
    if not wanted
    then ok not_wanted
    else (if ltb fs_digest_max_size size
        then ok skipped
        else elim o.hash [ ok sha256 ↦ ok (hashed (sha256 bytes)) | err e ↦ err (system_error e) ])

-- The arguments of fs_write_chunk, its data decoded and its mode parsed.
pub record WriteArgs : Type 0 where
  pub chunk : Result String (List ℕ)
  pub offset : ℤ
  pub eof : Bool
  pub mode : Option (Result String ℕ)
  pub want_digest : Bool

pub record WriteReply : Type 0 where
  pub bytes : ℕ
  pub total : ℕ
  pub digest : Digest

abbrev pub fail_on : Option String → Result FsError (Unit {0})
fail_on none = ok tt
fail_on (some e) = err (system_error e)

-- The mode of the finished file.
abbrev pub set_mode : Outcomes → Option (Result String ℕ) → Result FsError (Unit {0})
set_mode o none = ok tt
set_mode o (some (err e)) = err (invalid_mode e)
set_mode o (some (ok perm)) = fail_on o.chmod

-- FsWriteChunk behind the Close: what it replies.
unfoldable pub write_reply : Outcomes → WriteArgs → ℕ → List ℕ → List ℕ → Result FsError WriteReply
write_reply o a total p bytes =
    if a.eof
    then (set_mode o a.mode
        >> (file_digest o a.want_digest total bytes >>= λ d.
            ok (record { bytes = length p; total = total; digest = d })))
    else ok (record { bytes = length p; total = total; digest = not_wanted })

-- FsWriteChunk from the open file on; `bytes` is what the file holds after the open.
unfoldable pub write_opened :
    Outcomes → WriteArgs → ℕ → List ℕ → List ℕ → Option Node × Result FsError WriteReply
write_opened o a offset p bytes = elim (if is_empty p then none else o.write_file) [
  | some (n, e) ↦ (some (regular (write_at (take n p) offset bytes)), err (system_error e))
  | none ↦
      let written = if is_empty p then bytes else write_at p offset bytes in
      let total = offset + length p in
      elim (if a.eof then o.truncate else none) [
        | some e ↦ (some (regular written), err (system_error e))
        | none ↦
            let left = if a.eof then resize total written else written in
            (some (regular left), fail_on o.close >> write_reply o a total p left)
      ]
]

-- FsWriteChunk behind its checks: the parent directory, the open with its flags, and the rest.
unfoldable pub write_checked :
    Outcomes → WriteArgs → ℕ → List ℕ → Option Node → Option Node × Result FsError WriteReply
write_checked o a offset p file =
    elim (fail_on (if is_zero offset then o.mkdir else none) >> fail_on o.open_file) [
      | err e ↦ (file, err e)
      | ok _ ↦ write_opened o a offset p (if is_zero offset then [] else contents file)
    ]

abbrev pub check_offset : ℤ → Result FsError ℕ
check_offset (pos n) = ok n
check_offset (negsuc n) = err negative_offset

-- The chunk that a call brings.
abbrev pub check_chunk : Result String (List ℕ) → Result FsError (List ℕ)
check_chunk (err e) = err (bad_data e)
check_chunk (ok p) = if ltb fs_max_chunk (length p) then err (chunk_too_large (length p)) else ok p

-- FsWriteChunk.
unfoldable pub write_chunk :
    Outcomes → WriteArgs → Option Node → Option Node × Result FsError WriteReply
write_chunk o a file =
    if is_dir file then (file, err is_a_directory) else elim (check_chunk a.chunk) [
      | err e ↦ (file, err e)
      | ok p ↦ elim (check_offset a.offset) [
        | err e ↦ (file, err e)
        | ok offset ↦ write_checked o a offset p file
      ]
    ]

-- The arguments of fs_read_chunk.
pub record ReadArgs : Type 0 where
  pub offset : ℤ
  pub size : ℤ
  pub want_digest : Bool

pub record ReadReply : Type 0 where
  pub chunk : List ℕ
  pub whole : ℕ
  pub eof : Bool
  pub digest : Digest

-- The size of a chunk that a caller asks for.
unfoldable pub chunk_size : ℤ → ℕ
chunk_size (negsuc n) = fs_default_chunk
chunk_size (pos n) =
    if leb n 0 then fs_default_chunk else (if ltb fs_max_chunk n then fs_max_chunk else n)

-- FsReadChunk of a regular file from a checked offset on.
unfoldable pub read_regular : Outcomes → ReadArgs → ℕ → List ℕ → Result FsError ReadReply
read_regular o a offset bytes = file_digest o a.want_digest (length bytes) bytes >>= λ d.
    if leb (length bytes) offset
    then ok (record { chunk = []; whole = length bytes; eof = true; digest = d })
    else (let p = take (min (chunk_size a.size) (length bytes - offset)) (drop offset bytes) in
        fail_on o.open_file
        >> ok (record {
          chunk = p;
          whole = length bytes;
          eof = leb (length bytes) (offset + length p);
          digest = d;
        }))

-- FsReadChunk.
unfoldable pub read_chunk : Outcomes → ReadArgs → Option Node → Result FsError ReadReply
read_chunk o a none = err no_such_file
read_chunk o a (some directory) = err is_a_directory
read_chunk o a (some (regular bytes)) =
    check_offset a.offset >>= λ offset. read_regular o a offset bytes
