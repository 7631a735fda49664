-- ===== src/Files/Tests.antt =====
-- The theorems on internal/ops/ops_fs.go, applied at small inputs.
use aw_remote_host.Common.{
  [], ok, ℕ, String, ◌≡◌, refl, ◌||◌, Option, none, some, List, ◌∷◌, ◌++◌, arith, str_eq, Result,
  err, sym, ap,
}
use aw_remote_host.Common.Int.{negsuc}
use aw_remote_host.Files.{Paths, Node, regular}
use aw_remote_host.Files.Upload.{upload, joined}
use aw_remote_host.Files.Download.{download, download-upload}
use aw_remote_host.Files.Expand.{Rooted}

abbrev no_hash : List ℕ → String
no_hash bytes = "hash"

abbrev old_file : Option Node
old_file = some (regular (9 ∷ 9 ∷ 9 ∷ 9 ∷ 9 ∷ []))

abbrev first : List ℕ
first = 1 ∷ 2 ∷ []

abbrev others : List (List ℕ)
others = (3 ∷ []) ∷ []

download-upload_example :
    download no_hash 9 (negsuc 0) 0 (upload no_hash 0 first others old_file).0
    ≡ some (first ++ joined no_hash others)
download-upload_example =
    download-upload no_hash first others old_file 9 (negsuc 0) refl (omega arith, (omega arith, tt))
      (unfold joined in omega arith)

abbrev test_paths : Paths
test_paths = record {
  trim = λ p. p;
  join = λ h rest. "/home/aw/joined";
  clean = λ p. p;
  is_abs = λ p. str_eq p "/home/aw" || str_eq p "/home/aw/joined";
  home = ok "/home/aw";
  below_tilde = λ p. none;
}

abbrev path_or : String → Result String String → String
path_or other (ok p) = p
path_or other (err e) = other

test_paths-Rooted : Rooted test_paths
test_paths-Rooted = record {
  home_abs = λ h e. ap test_paths.is_abs (sym (ap (path_or "") e));
  join_abs = λ h rest e. refl;
  clean_abs = λ p e. e;
}
